-- ===== src/Jobs/Refilling.antt =====
-- JobQueue.cpp: which job leaves a job queue at `onJobNotify`, and which ones follow.
use lu.Base.{
  ℕ, ◌≡◌, refl, sym, ap, subst, ◌∙◌, ltb, Bool, true, false, if◌then◌else◌, List, [], ◌∷◌, ◌++◌,
  All, map, length, append-nil, arith,
}
use lu.Jobs.Types.{JobManager, erase_first}
use lu.Jobs.Manager
use lu.Jobs.Queue.{
  JobPointer, JobQueue, Run, with_events, taken, hand_over, queue_from, queue_next_job, is,
  on_job_notify,
}
use lu.Jobs.Working.{IsWorking, on_job_notify-IsWorking}

abbrev pub jobs_of : List JobPointer → List ℕ
jobs_of = map (λ p. p.job)

-- Some jobs that waited are put behind those in progress; the others wait in their order.
pub record Refills (waiting stayed : List JobPointer) (q : JobQueue) : Type 0 where
  pub started : List JobPointer
  pub put_behind : q.processing ≡ stayed ++ started
  pub in_turn : jobs_of started ++ jobs_of q.job_queue ≡ jobs_of waiting

erase_first-middle :
    {A : Type 0} (f : A → Bool) (before behind : List A) (x : A)
    → All (λ y. f y ≡ false) before
    → f x ≡ true
    → erase_first f (before ++ x ∷ behind) ≡ before ++ behind
unfolding erase_first
erase_first-middle f [] behind x a e = ground (arith, e)
erase_first-middle f (y ∷ before) behind x a e =
    ground (arith, a.0, erase_first-middle f before behind x a.1 e)

module _ (cores worker self : ℕ) where
  hand_over-accepted :
      (p : JobPointer) (q : JobQueue) (m : JobManager)
      → m.running ≡ true
      → ltb 0 (hand_over cores worker self p q m).2 ≡ true
  unfolding Manager.add_job
  hand_over-accepted p q m e = ground (arith, e)

  -- While the manager runs, it takes every job that is handed to it.
  queue_from-Refills :
      (ps : List JobPointer) (q : JobQueue) (m : JobManager)
      → m.running ≡ true
      → Refills ps q.processing (queue_from cores worker self ps q m).queue
  unfolding queue_from
  queue_from-Refills [] q m e = record {
    started = [];
    put_behind = sym (append-nil q.processing);
    in_turn = refl;
  }
  queue_from-Refills (p ∷ ps) q m e =
      by_room (ltb (length q.processing) q.jobs_at_once) _ (hand_over-accepted p q m e)
        (queue_from cores worker self ps q (hand_over cores worker self p q m).0)
    where
      by_room :
          (room accepted : Bool)
          → accepted ≡ true
          → (rest : Run)
          → Refills
              (p ∷ ps)
              q.processing
              (if room
                then (if accepted
                    then taken p ps q (hand_over cores worker self p q m)
                    else with_events (hand_over cores worker self p q m).1 rest)
                else record {
                  queue = record q { job_queue = p ∷ ps };
                  manager = m;
                  events = [];
                }).queue
      by_room false accepted a rest = record {
        started = [];
        put_behind = sym (append-nil q.processing);
        in_turn = refl;
      }
      by_room true false a rest = absurd (ground (arith, a))
      by_room true true a rest = record {
        started = record p { id = (hand_over cores worker self p q m).2 } ∷ [];
        put_behind = refl;
        in_turn = refl;
      }

  module _ (same : ℕ → ℕ → Bool) (job : ℕ) (q : JobQueue) (m : JobManager) (h : IsWorking q) where
    -- When a job queue that was working, on a manager that runs, is told that a job has ended,
    -- the first entry of that job leaves the jobs in progress and the others stay in their order;
    -- the jobs started are put behind them, and followed by those that still wait they are the
    -- jobs that waited, in turn; and the queue works again: no more jobs are with the manager
    -- than allowed, and if jobs wait, no fewer.
    pub on_job_notify-replaces :
        (before behind : List JobPointer) (p : JobPointer)
        → q.processing ≡ before ++ p ∷ behind
        → All (λ x. same x.job job ≡ false) before
        → same p.job job ≡ true
        → m.running ≡ true
        → (let r = (on_job_notify cores worker self same job q m).queue in
            IsWorking r × Refills q.job_queue (before ++ behind) r)
    unfolding on_job_notify queue_next_job
    on_job_notify-replaces before behind p e others this running =
        let left =
          ap (erase_first (is cores worker self same job)) e
          ∙ erase_first-middle (is cores worker self same job) before behind p others this in
        (
          on_job_notify-IsWorking cores worker self same job q m h,
          subst (λ ps. Refills q.job_queue ps (on_job_notify cores worker self same job q m).queue)
              left
              (queue_from-Refills q.job_queue
                (record q { processing = erase_first (is cores worker self same job) q.processing })
                m running),
        )
