-- ===== src/Jobs/Working.antt =====
-- A job queue keeps as many jobs with the manager as it may.
use lu.Base.{
  ℕ, ◌+◌, ◌≤◌, ◌<◌, ◌≡◌, refl, ap, ltb, Bool, true, false, Bool-cases, ◌⊎◌, inl, inr, if◌then◌else◌,
  List, [], ◌∷◌, ◌++◌, length, length-append, arith,
}
use lu.Jobs.Types.{JobManager, Event, freed, erase_first}
use lu.Jobs.Queue.{
  JobPointer, JobQueue, Run, with_events, taken, hand_over, queue_from, queue_next_job, is, add_job,
  on_job_notify, cancel_job,
}

-- No more jobs are with the manager than allowed, and if jobs wait, no fewer.
pub record IsWorking (q : JobQueue) : Type 0 where
  pub bounded : length q.processing ≤ q.jobs_at_once
  pub busy : (q.job_queue ≡ []) ⊎ (q.jobs_at_once ≤ length q.processing)

abbrev Works : Run → Type 0
Works r = IsWorking r.queue

abbrev Answers : Run × Bool → Type 0
Answers (r, b) = IsWorking r.queue

-- One job may be missing.
record Nearly (waiting : List JobPointer) (q : JobQueue) : Type 0 where
  bounded : length q.processing ≤ q.jobs_at_once
  almost : (length waiting ≤ 1) ⊎ (q.jobs_at_once ≤ length q.processing + 1)

length-erase_first :
    {A : Type 0} (p : A → Bool) (xs : List A)
    → (length (erase_first p xs) ≤ length xs) × (length xs ≤ length (erase_first p xs) + 1)
unfolding erase_first
length-erase_first p [] = (omega arith, omega arith)
length-erase_first p (x ∷ xs) = elim (Bool-cases (p x)) [
  | inl h ↦ ground (arith, h)
  | inr h ↦ ground (arith, h, length-erase_first p xs)
]

taken-IsWorking :
    (p : JobPointer) (ps : List JobPointer) (q : JobQueue) (r : JobManager × List Event × ℕ)
    → Nearly (p ∷ ps) q
    → length q.processing < q.jobs_at_once
    → IsWorking (taken p ps q r).queue
taken-IsWorking p [] q r h room = record {
  bounded = omega (arith, room, length-append q.processing (record p { id = r.2 } ∷ []));
  busy = inl refl;
}
taken-IsWorking p (p' ∷ ps) q r h room = record {
  bounded = omega (arith, room, length-append q.processing (record p { id = r.2 } ∷ []));
  busy = inr (ground (arith, h.almost, length-append q.processing (record p { id = r.2 } ∷ [])));
}

rest-Nearly :
    (p : JobPointer) (ps : List JobPointer) (q : JobQueue) → Nearly (p ∷ ps) q → Nearly ps q
rest-Nearly p ps q h = record {
  bounded = h.bounded;
  almost = elim h.almost [ inl few ↦ inl (omega (arith, few)) | inr many ↦ inr many ];
}

full-IsWorking :
    (p : JobPointer) (ps : List JobPointer) (q : JobQueue) (m : JobManager)
    → Nearly (p ∷ ps) q
    → q.jobs_at_once ≤ length q.processing
    → IsWorking (record q { job_queue = p ∷ ps })
full-IsWorking p ps q m h full = record { bounded = h.bounded; busy = inr full }

module _ (cores worker self : ℕ) where
  queue_from-IsWorking :
      (ps : List JobPointer) (q : JobQueue) (m : JobManager)
      → Nearly ps q
      → IsWorking (queue_from cores worker self ps q m).queue
  unfolding queue_from
  queue_from-IsWorking [] q m h = record { bounded = h.bounded; busy = inl refl }
  queue_from-IsWorking (p ∷ ps) q m h =
      by_tests _ _ refl
        (queue_from-IsWorking ps q (hand_over cores worker self p q m).0 (rest-Nearly p ps q h))
    where
      by_tests :
          (b c : Bool)
          → ltb (length q.processing) q.jobs_at_once ≡ b
          → Works (queue_from cores worker self ps q (hand_over cores worker self p q m).0)
          → Works (
              if b
              then (if c
                  then taken p ps q (hand_over cores worker self p q m)
                  else with_events
                      (hand_over cores worker self p q m).1
                      (queue_from cores worker self ps q (hand_over cores worker self p q m).0))
              else record { queue = record q { job_queue = p ∷ ps }; manager = m; events = [] })
      by_tests true true e rest =
          taken-IsWorking p ps q (hand_over cores worker self p q m) h (ground (arith, e))
      by_tests true false e rest = rest
      by_tests false c e rest = full-IsWorking p ps q m h (ground (arith, e))

  queue_next_job-IsWorking :
      (q : JobQueue) (m : JobManager)
      → Nearly q.job_queue q
      → IsWorking (queue_next_job cores worker self q m).queue
  unfolding queue_next_job
  queue_next_job-IsWorking q m h = queue_from-IsWorking q.job_queue q m h

  module _ (same : ℕ → ℕ → Bool) (job : ℕ) (q : JobQueue) (m : JobManager) (h : IsWorking q) where
    pub on_job_notify-IsWorking : IsWorking (on_job_notify cores worker self same job q m).queue
    unfolding on_job_notify
    on_job_notify-IsWorking =
        queue_next_job-IsWorking
          (record q { processing = erase_first (is cores worker self same job) q.processing }) m
          (record {
            bounded =
                omega (
                  arith,
                  h.bounded,
                  length-erase_first (is cores worker self same job) q.processing,
                );
            almost = elim h.busy [
              | inl none_waits ↦ inl (omega (arith, ap length none_waits))
              | inr many ↦ inr (
                  omega
                    (arith, many, length-erase_first (is cores worker self same job) q.processing))
            ];
          })

    abbrev longer : JobPointer → List JobPointer
    longer p = if q.lifo then p ∷ q.job_queue else q.job_queue ++ p ∷ []

    length-longer : (p : JobPointer) → length (longer p) ≡ length q.job_queue + 1
    length-longer p = ground (arith, length-append q.job_queue (p ∷ []))

    longer-Nearly : (p : JobPointer) → Nearly (longer p) (record q { job_queue = longer p })
    longer-Nearly p = record {
      bounded = h.bounded;
      almost = elim h.busy [
        | inl none_waits ↦ inl (omega (arith, length-longer p, ap length none_waits))
        | inr many ↦ inr (omega (arith, many))
      ];
    }

    -- After `addJob` a job queue that was working works still, whether the job was there already,
    -- waits, was refused, or went to the manager.
    pub add_job-IsWorking : IsWorking (add_job cores worker self same job q m).0.queue
    unfolding add_job
    add_job-IsWorking = by_answer _
      where
        by_answer :
            (b : Bool)
            → Answers (
                if b then (record { queue = q; manager = m; events = freed job ∷ [] }, false) else (
                  queue_next_job cores worker self
                      (record q { job_queue = longer (record { job = job; id = 0 }) })
                      m,
                  true,
                ))
        by_answer true = h
        by_answer false = queue_next_job-IsWorking _ m (longer-Nearly _)

    -- `cancelJob` of a job in progress may leave too few with the manager, never too many.
    pub cancel_job-bounded :
        length (cancel_job cores worker self same job q m).queue.processing ≤ q.jobs_at_once
    unfolding cancel_job
    cancel_job-bounded =
        ground (arith, h.bounded, length-erase_first (is cores worker self same job) q.processing)
