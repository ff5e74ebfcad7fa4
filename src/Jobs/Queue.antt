-- ===== src/Jobs/Queue.antt =====
-- src/thread/JobQueue.cpp: a queue that hands its jobs to the manager, a few at a time. `same` is the
-- jobs' own `operator==`, `self` the address of the queue, which is the callback of its jobs, `cores`
-- the number of cores and `worker` the address of a worker that the manager may start.
use lu.Base.{
  ℕ, ltb, Bool, true, false, ◌&&◌, ◌||◌, not, if◌then◌else◌, List, [], ◌∷◌, ◌++◌, length, Option,
  none, some,
}
use lu.Jobs.Types.{Priority, JobManager, Event, freed, find, erase_first}
use lu.Jobs.Manager

-- `JobQueue::JobPointer`, without the reference to the manager.
pub record JobPointer : Type 0 where
  pub job : ℕ
  pub id : ℕ

-- `job_queue` stands with its back first: `queueNextJob` takes jobs from the back.
pub record JobQueue : Type 0 where
  pub jobs_at_once : ℕ
  pub priority : Priority
  pub lifo : Bool
  pub job_queue : List JobPointer
  pub processing : List JobPointer

-- What an operation leaves: the queue, the manager and the events.
pub record Run : Type 0 where
  pub queue : JobQueue
  pub manager : JobManager
  pub events : List Event

-- `JobQueue(jobManager, lifo, jobsAtOnce, priority)`
abbrev pub new_queue : Bool → ℕ → Priority → JobQueue
new_queue lifo n p = record {
  jobs_at_once = n;
  priority = p;
  lifo = lifo;
  job_queue = [];
  processing = [];
}

abbrev pub with_events : List Event → Run → Run
with_events es r = record r { events = es ++ r.events }

-- The job at the back was accepted by the manager.
abbrev pub taken : JobPointer → List JobPointer → JobQueue → JobManager × List Event × ℕ → Run
taken p ps q r = record {
  queue = record q { job_queue = ps; processing = q.processing ++ record p { id = r.2 } ∷ [] };
  manager = r.0;
  events = r.1;
}

module _ (cores worker self : ℕ) where
  -- The job goes to the manager.
  abbrev pub hand_over : JobPointer → JobQueue → JobManager → JobManager × List Event × ℕ
  hand_over p q m = Manager.add_job cores worker p.job (some self) q.priority m

  -- The loop of `queueNextJob` on the jobs that wait. A job whose id is 0 was refused and deleted.
  unfoldable pub queue_from : List JobPointer → JobQueue → JobManager → Run
  queue_from [] q m = record { queue = record q { job_queue = [] }; manager = m; events = [] }
  queue_from (p ∷ ps) q m =
      let rest = queue_from ps q (hand_over p q m).0 in
      if ltb (length q.processing) q.jobs_at_once
      then (if ltb 0 (hand_over p q m).2
          then taken p ps q (hand_over p q m)
          else with_events (hand_over p q m).1 rest)
      else record { queue = record q { job_queue = p ∷ ps }; manager = m; events = [] }

  unfoldable pub queue_next_job : JobQueue → JobManager → Run
  queue_next_job q m = queue_from q.job_queue q m

  module _ (same : ℕ → ℕ → Bool) where
    -- `JobPointer::operator==`
    abbrev pub is : ℕ → JobPointer → Bool
    is job p = same p.job job

    abbrev pub is_found : Option JobPointer → Bool
    is_found none = false
    is_found (some p) = true

    -- `addJob`, with its answer.
    unfoldable pub add_job : ℕ → JobQueue → JobManager → Run × Bool
    add_job job q m =
        if is_found (find (is job) q.job_queue) || is_found (find (is job) q.processing)
        then (record { queue = q; manager = m; events = freed job ∷ [] }, false)
        else (
          queue_next_job
              (record q { job_queue = if q.lifo then p ∷ q.job_queue else q.job_queue ++ p ∷ [] })
              m,
          true,
        )
      where
        p : JobPointer
        p = record { job = job; id = 0 }

    -- `onJobNotify`, which `onJobComplete` and `onJobAbort` call.
    unfoldable pub on_job_notify : ℕ → JobQueue → JobManager → Run
    on_job_notify job q m =
        queue_next_job (record q { processing = erase_first (is job) q.processing }) m

    unfoldable pub cancel_job : ℕ → JobQueue → JobManager → Run
    cancel_job job q m = elim (find (is job) q.processing) [
      | some p ↦
          let r = Manager.cancel_job p.id m in
          record {
            queue = record q { processing = erase_first (is job) q.processing };
            manager = r.0;
            events = r.1;
          }
      | none ↦ elim (find (is job) q.job_queue) [
        | some p ↦ record {
          queue = record q { job_queue = erase_first (is job) q.job_queue };
          manager = m;
          events = freed p.job ∷ [];
        }
        | none ↦ record { queue = q; manager = m; events = [] }
      ]
    ]

-- `JobPointer::cancelJob` of every job in progress.
unfoldable pub cancel_each : List JobPointer → JobManager → JobManager × List Event
cancel_each [] m = (m, [])
cancel_each (p ∷ ps) m =
    let here = Manager.cancel_job p.id m in
    let rest = cancel_each ps here.0 in (rest.0, here.1 ++ rest.1)

-- `JobPointer::freeJob` of every job that waits; the list is back first.
unfoldable pub free_each : List JobPointer → List Event
free_each [] = []
free_each (p ∷ ps) = free_each ps ++ freed p.job ∷ []

unfoldable pub cancel_jobs : JobQueue → JobManager → Run
cancel_jobs q m = record {
  queue = record q { job_queue = []; processing = [] };
  manager = cancelled.0;
  events = cancelled.1 ++ free_each q.job_queue;
}
  where
    cancelled : JobManager × List Event
    cancelled = cancel_each q.processing m

abbrev pub is_empty : List JobPointer → Bool
is_empty [] = true
is_empty (p ∷ ps) = false

abbrev pub queue_empty : JobQueue → Bool
queue_empty q = is_empty q.job_queue

abbrev pub is_processing : JobQueue → JobManager → Bool
is_processing q m = m.running && (not (is_empty q.processing) || not (is_empty q.job_queue))
