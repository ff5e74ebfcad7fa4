-- ===== src/Jobs/System.antt =====
-- The manager and the workers that run on it (`JobWorker::process`), as steps under the lock.
use lu.Base.{ℕ, ◌<◌, ◌≡◌, ◌==◌, Bool, List, [], ◌∷◌, ◌++◌, Option, some}
use lu.Jobs.Types.{Priority, WorkItem, JobManager, Event, find, erase_first, count, has_job}
use lu.Jobs.Manager.{
  new_manager, restart, cancel_jobs, add_job, cancel_job, pause_jobs, un_pause_jobs, takes, sleeps,
  quits, get_next_job, remove_worker, begin_complete, tell_complete, end_complete,
}

-- `held` are the jobs that a worker has from `getNextJob` and has not yet handed to `onJobComplete`,
-- `completing` the items of the calls of `onJobComplete` that have left the lock,
-- `quitting` the workers that have left the loop of `getNextJob` and not yet taken the lock again. `given` and `log`
-- only record what was passed to `addJob` and what the manager did.
pub record System : Type 0 where
  pub manager : JobManager
  pub held : List ℕ
  pub completing : List WorkItem
  pub quitting : List ℕ
  pub given : List ℕ
  pub log : List Event

unfoldable pub start : System
start = record {
  manager = new_manager;
  held = [];
  completing = [];
  quitting = [];
  given = [];
  log = [];
}

abbrev pub is_job : ℕ → ℕ → Bool
is_job job j = j == job

abbrev pub after : System → JobManager → List Event → System
after s m es = record s { manager = m; log = s.log ++ es }

abbrev pub after_add : ℕ → ℕ → ℕ → Option ℕ → Priority → System → System
after_add cores worker job cb p s =
    let r = add_job cores worker job cb p s.manager in
    record (after s r.0 r.1) { given = job ∷ s.given }

abbrev pub after_begin : ℕ → WorkItem → System → System
after_begin job w s = record s {
  held = erase_first (is_job job) s.held;
  completing = w ∷ s.completing;
  log = s.log ++ tell_complete w;
}

abbrev pub after_end : ℕ → WorkItem → System → System
after_end job w s =
    let r = end_complete job w s.manager in
    record (after s r.0 r.1) { completing = erase_first (has_job job) s.completing }

abbrev pub after_remove : ℕ → System → System
after_remove worker s = record s {
  manager = remove_worker worker s.manager;
  quitting = erase_first (is_job worker) s.quitting;
}

-- One step: a call of the interface, or a part of a worker's loop. A worker completes the jobs that
-- it holds, each once.
pub data Step (cores : ℕ) (s : System) : System → Type 0 where
  adds :
      (worker job : ℕ) (cb : Option ℕ) (p : Priority)
      → Step cores s (after_add cores worker job cb p s)
  cancels :
      (id : ℕ) → Step cores s (after s (cancel_job id s.manager).0 (cancel_job id s.manager).1)
  cancels_all : Step cores s (after s (cancel_jobs s.manager).0 (cancel_jobs s.manager).1)
  restarts : (m : JobManager) → restart s.manager ≡ some m → Step cores s (record s { manager = m })
  pauses : Step cores s (record s { manager = pause_jobs s.manager })
  un_pauses : Step cores s (record s { manager = un_pause_jobs s.manager })
  takes_job :
      (job : ℕ) (m : JobManager)
      → get_next_job cores s.manager ≡ (m, takes job)
      → Step cores s (record s { manager = m; held = job ∷ s.held })
  sleeps_on :
      (m : JobManager)
      → get_next_job cores s.manager ≡ (m, sleeps)
      → Step cores s (record s { manager = m })
  quits_loop :
      (worker : ℕ) (m : JobManager)
      → get_next_job cores s.manager ≡ (m, quits)
      → Step cores s (record s { manager = m; quitting = worker ∷ s.quitting })
  removes :
      (worker : ℕ) → 0 < count (is_job worker) s.quitting → Step cores s (after_remove worker s)
  begins :
      (job : ℕ) (w : WorkItem)
      → 0 < count (is_job job) s.held
      → begin_complete job s.manager ≡ some w
      → Step cores s (after_begin job w s)
  ends :
      (job : ℕ) (w : WorkItem)
      → find (has_job job) s.completing ≡ some w
      → Step cores s (after_end job w s)

pub data Reaches (cores : ℕ) : System → Type 0 where
  here : Reaches cores start
  then_step : {s t : System} → Reaches cores s → Step cores s t → Reaches cores t
