-- ===== src/Jobs/Balance.antt =====
-- What each operation of the manager does to the number of times that a job stands in its lists.
use lu.Base.{
  ℕ, ◌+◌, ◌≡◌, refl, ap, ◌==◌, Bool, true, false, Bool-cases, inl, inr, if◌then◌else◌, List, [],
  ◌∷◌, ◌++◌, Option, none, some, arith,
}
use lu.Jobs.Types.{
  Priority, WorkItem, JobManager, Event, freed, find, erase_first, update_first, count, has_id,
  has_job, set_queue, priorities, priorities_down,
}
use lu.Jobs.Manager.{
  start_workers, add_job, next_id, cancel_jobs, cancel_queued, cancel_job, cancel, may_start,
  pop_from, pop_job, end_complete, tell_complete, clear_queues, abort_all,
}
use lu.Jobs.Counting.{
  count-append, count-erase_first, count-map, count-update_first, occurs, pending,
  pending-set_queue, deletions, deletions-abort_all, deletions-clear_queues,
}

-- 1 if the job is the one in question.
abbrev pub unit : ℕ → ℕ → ℕ
unit job j = if j == job then 1 else 0

start_workers-keeps :
    (cores worker job : ℕ) (p : Priority) (m : JobManager)
    → (pending job (start_workers cores worker p m).0 ≡ pending job m)
      × ((start_workers cores worker p m).0.processing ≡ m.processing)
      × (deletions job (start_workers cores worker p m).1 ≡ 0)
unfolding start_workers count
start_workers-keeps cores worker job p m = ground arith

pub add_job-balance :
    (cores worker new_job job : ℕ) (cb : Option ℕ) (p : Priority) (m : JobManager)
    → let r = add_job cores worker new_job cb p m in
      (pending job r.0 + deletions job r.1 ≡ pending job m + unit job new_job)
      × (r.0.processing ≡ m.processing)
unfolding add_job count
add_job-balance cores worker new_job job cb p m = elim (Bool-cases m.running) [
  | inl h ↦ ground (
    arith,
    h,
    keeps,
    pending-set_queue job numbered p longer,
    count-append (has_job job) (m.job_queue p) (work ∷ []),
  )
  | inr h ↦ ground (arith, h)
]
  where
    numbered : JobManager
    numbered = record m { job_counter = next_id m.job_counter }

    work : WorkItem
    work = record { job = new_job; id = next_id m.job_counter; user_call_back = cb; priority = p }

    longer : List WorkItem
    longer = m.job_queue p ++ work ∷ []

    keeps :
        (pending job (start_workers cores worker p (set_queue numbered p longer)).0
          ≡ pending job (set_queue numbered p longer))
        × ((start_workers cores worker p (set_queue numbered p longer)).0.processing ≡ m.processing)
        × (deletions job (start_workers cores worker p (set_queue numbered p longer)).1 ≡ 0)
    keeps = start_workers-keeps cores worker job p (set_queue numbered p longer)

-- A job that is cancelled while it waits is deleted.
abbrev Balanced : ℕ → JobManager → JobManager × List Event → Type 0
Balanced job m r =
    (pending job r.0 + deletions job r.1 ≡ pending job m)
    × (occurs job r.0.processing ≡ occurs job m.processing)

abbrev AllBalanced : ℕ → JobManager → Option (JobManager × List Event) → Type 0
AllBalanced job m none = Unit
AllBalanced job m (some r) = Balanced job m r

queue-Balanced :
    (id job : ℕ) (p : Priority) (m : JobManager) (w : WorkItem)
    → find (has_id id) (m.job_queue p) ≡ some w
    → Balanced job m (set_queue m p (erase_first (has_id id) (m.job_queue p)), freed w.job ∷ [])
unfolding count
queue-Balanced id job p m w e = (
  omega (
    arith,
    pending-set_queue job m p (erase_first (has_id id) (m.job_queue p)),
    count-erase_first (has_job job) (has_id id) (m.job_queue p) w e,
  ),
  refl,
)

cancel_queued-Balanced :
    (id job : ℕ) (ps : List Priority) (m : JobManager) → AllBalanced job m (cancel_queued id ps m)
unfolding cancel_queued
cancel_queued-Balanced id job [] m = tt
cancel_queued-Balanced id job (p ∷ ps) m =
    by_find (find (has_id id) (m.job_queue p)) refl (cancel_queued-Balanced id job ps m)
  where
    by_find :
        (r : Option WorkItem)
        → find (has_id id) (m.job_queue p) ≡ r
        → AllBalanced job m (cancel_queued id ps m)
        → AllBalanced job m (elim r [
          | some w ↦
              some (set_queue m p (erase_first (has_id id) (m.job_queue p)), freed w.job ∷ [])
          | none ↦ cancel_queued id ps m
        ])
    by_find none e rest = rest
    by_find (some w) e rest = queue-Balanced id job p m w e

pub cancel_job-Balanced : (id job : ℕ) (m : JobManager) → Balanced job m (cancel_job id m)
unfolding cancel_job count
cancel_job-Balanced id job m =
    by_result (cancel_queued id priorities m) (cancel_queued-Balanced id job priorities m)
  where
    by_result :
        (r : Option (JobManager × List Event))
        → AllBalanced job m r
        → Balanced job m (elim r [
          | some r ↦ r
          | none ↦ (record m { processing = update_first (has_id id) cancel m.processing }, [])
        ])
    by_result none b =
        (omega arith, count-update_first (has_job job) (has_id id) cancel (λ w. refl) m.processing)
    by_result (some r) b = b

pub cancel_jobs-Balanced : (job : ℕ) (m : JobManager) → Balanced job m (cancel_jobs m)
unfolding cancel_jobs count
cancel_jobs-Balanced job m = (
  omega (
    arith,
    count-append _ (clear_queues priorities m) (abort_all m.processing),
    deletions-clear_queues job m,
    deletions-abort_all job m.processing,
  ),
  count-map (has_job job) cancel (λ w. refl) m.processing,
)

-- A popped job moves from its queue to the end of the list of those in progress.
abbrev pub Pops : ℕ → JobManager → Option (JobManager × ℕ) → Type 0
Pops job m none = Unit
Pops job m (some r) =
    (pending job r.0 + unit job r.1 ≡ pending job m)
    × (occurs job r.0.processing ≡ occurs job m.processing + unit job r.1)

popped-Pops :
    (job : ℕ) (p : Priority) (m : JobManager) (w : WorkItem) (ws : List WorkItem)
    → m.job_queue p ≡ w ∷ ws
    → Pops job m (some (record (set_queue m p ws) { processing = m.processing ++ w ∷ [] }, w.job))
unfolding count
popped-Pops job p m w ws e = (
  omega (arith, pending-set_queue job m p ws, ap (occurs job) e),
  omega (arith, count-append (has_job job) m.processing (w ∷ [])),
)

pop_from-Pops :
    (cores job : ℕ) (ps : List Priority) (m : JobManager) → Pops job m (pop_from cores ps m)
unfolding pop_from
pop_from-Pops cores job [] m = tt
pop_from-Pops cores job (p ∷ ps) m =
    by_queue (m.job_queue p) refl (may_start cores p m) (pop_from-Pops cores job ps m)
  where
    by_queue :
        (q : List WorkItem)
        → m.job_queue p ≡ q
        → (b : Bool) → Pops job m (pop_from cores ps m)
        → Pops job m (elim q [
          | [] ↦ pop_from cores ps m
          | w ∷ ws ↦ elim b [
            | true ↦ some (record (set_queue m p ws) { processing = m.processing ++ w ∷ [] }, w.job)
            | false ↦ pop_from cores ps m
          ]
        ])
    by_queue [] e b rest = rest
    by_queue (w ∷ ws) e false rest = rest
    by_queue (w ∷ ws) e true rest = popped-Pops job p m w ws e

pub pop_job-Pops : (cores job : ℕ) (m : JobManager) → Pops job m (pop_job cores m)
unfolding pop_job
pop_job-Pops cores job m = pop_from-Pops cores job priorities_down m

pub end_complete-balance :
    (job done_job : ℕ) (w v : WorkItem) (m : JobManager)
    → find (has_job done_job) m.processing ≡ some v
    → v.job ≡ w.job
    → (pending job (end_complete done_job w m).0 ≡ pending job m)
      × (occurs job (end_complete done_job w m).0.processing + unit job w.job
          ≡ occurs job m.processing)
      × (deletions job (end_complete done_job w m).1 ≡ unit job w.job)
unfolding end_complete count
end_complete-balance job done_job w v m e same = (
  refl,
  omega (
    arith,
    count-erase_first (has_job job) (has_job done_job) m.processing v e,
    ap (unit job) same,
  ),
  omega arith,
)

-- The events of a completed call delete nothing.
pub deletions-tell_complete : (job : ℕ) (w : WorkItem) → deletions job (tell_complete w) ≡ 0
unfolding tell_complete count
deletions-tell_complete job w = ground arith
