-- ===== src/Jobs/Manager.antt =====
-- src/thread/JobManager.cpp: what the manager does under its lock. Each function gives the state
-- afterwards and the events. `cores` is `std::thread::hardware_concurrency()`.
use lu.Base.{
  ℕ, ◌+◌, ◌-◌, ltb, leb, ◌==◌, Bool, true, false, not, ◌&&◌, if◌then◌else◌, List, [], ◌∷◌, ◌++◌,
  map, length, Option, none, some, u32, sub_u32,
}
use lu.Jobs.Types.{
  Priority, low_pausable, high, dedicated, index, WorkItem, JobManager, Event, freed, on_job_abort,
  on_job_complete, on_job_progress, notify_all, new_worker, find, erase_first, update_first, count,
  has_id, has_job, set_queue, priorities, priorities_down,
}

-- `JobManager()`
unfoldable pub new_manager : JobManager
new_manager = record {
  job_counter = 0;
  pause_jobs = false;
  running = true;
  job_queue = λ p. [];
  processing = [];
  workers = [];
}

-- `max_workers - (Job::PRIORITY_HIGH - priority)`, in unsigned arithmetic.
unfoldable pub get_max_workers : ℕ → Priority → ℕ
get_max_workers cores dedicated = 10000
get_max_workers cores p = sub_u32 (if leb cores 2 then 1 else cores) (index high - index p)

-- `restart`; `none` is the exception.
unfoldable pub restart : JobManager → Option JobManager
restart m = if m.running then none else some (record m { running = true })

-- `wi.m_userCallBack->onJobAbort`
unfoldable pub abort : WorkItem → List Event
abort w = elim w.user_call_back [ none ↦ [] | some cb ↦ on_job_abort cb w.id w.job ∷ [] ]

-- The pending jobs of the given priorities are aborted and deleted.
unfoldable pub clear_queue : List WorkItem → List Event
clear_queue [] = []
clear_queue (w ∷ ws) = abort w ++ (freed w.job ∷ clear_queue ws)

unfoldable pub clear_queues : List Priority → JobManager → List Event
clear_queues [] m = []
clear_queues (p ∷ ps) m = clear_queue (m.job_queue p) ++ clear_queues ps m

unfoldable pub abort_all : List WorkItem → List Event
abort_all [] = []
abort_all (w ∷ ws) = abort w ++ abort_all ws

-- `WorkItem::cancel`
abbrev pub cancel : WorkItem → WorkItem
cancel w = record w { user_call_back = none }

-- `cancelJobs` up to its last loop, which only wakes the workers until none is left.
unfoldable pub cancel_jobs : JobManager → JobManager × List Event
cancel_jobs m = (
  record m { running = false; job_queue = λ p. []; processing = map cancel m.processing },
  clear_queues priorities m ++ abort_all m.processing,
)

-- `startWorkers`; `worker` is the address of the new worker, if there is one.
unfoldable pub start_workers : ℕ → ℕ → Priority → JobManager → JobManager × List Event
start_workers cores worker p m =
    if leb (get_max_workers cores p) (length m.processing)
    then (m, [])
    else if ltb (length m.processing) (length m.workers)
    then (m, notify_all ∷ [])
    else (record m { workers = m.workers ++ worker ∷ [] }, new_worker worker ∷ [])

-- The counter steps over 0, which is no job's id.
abbrev pub next_id : ℕ → ℕ
next_id n = if u32 (n + 1) == 0 then 1 else u32 (n + 1)

-- `addJob`: the state, the events and the id.
unfoldable pub add_job : ℕ → ℕ → ℕ → Option ℕ → Priority → JobManager → JobManager × List Event × ℕ
add_job cores worker job cb p m =
    if not m.running then (m, freed job ∷ [], 0) else (started.0, started.1, next_id m.job_counter)
  where
    work : WorkItem
    work = record { job = job; id = next_id m.job_counter; user_call_back = cb; priority = p }

    started : JobManager × List Event
    started = start_workers cores worker p (
        set_queue (record m { job_counter = next_id m.job_counter }) p (m.job_queue p ++ work ∷ []))

-- The first loop of `cancelJob`: the first queue that has the job loses it.
unfoldable pub cancel_queued : ℕ → List Priority → JobManager → Option (JobManager × List Event)
cancel_queued id [] m = none
cancel_queued id (p ∷ ps) m = elim (find (has_id id) (m.job_queue p)) [
  | some w ↦ some (set_queue m p (erase_first (has_id id) (m.job_queue p)), freed w.job ∷ [])
  | none ↦ cancel_queued id ps m
]

unfoldable pub cancel_job : ℕ → JobManager → JobManager × List Event
cancel_job id m = elim (cancel_queued id priorities m) [
  | some r ↦ r
  | none ↦ (record m { processing = update_first (has_id id) cancel m.processing }, [])
]

-- The test of `popJob` for one priority.
unfoldable pub may_start : ℕ → Priority → JobManager → Bool
may_start cores p m =
    not ((index p == index low_pausable) && m.pause_jobs)
    && ltb (length m.processing) (get_max_workers cores p)

-- `popJob` from one of its priorities on.
unfoldable pub pop_from : ℕ → List Priority → JobManager → Option (JobManager × ℕ)
pop_from cores [] m = none
pop_from cores (p ∷ ps) m = elim (m.job_queue p) [
  | [] ↦ pop_from cores ps m
  | w ∷ ws ↦ elim (may_start cores p m) [
    | true ↦ some (record (set_queue m p ws) { processing = m.processing ++ w ∷ [] }, w.job)
    | false ↦ pop_from cores ps m
  ]
]

unfoldable pub pop_job : ℕ → JobManager → Option (JobManager × ℕ)
pop_job cores m = pop_from cores priorities_down m

abbrev pub pause_jobs : JobManager → JobManager
pause_jobs m = record m { pause_jobs = true }

abbrev pub un_pause_jobs : JobManager → JobManager
un_pause_jobs m = record m { pause_jobs = false }

unfoldable pub some_item : (WorkItem → Bool) → List WorkItem → Bool
some_item p [] = false
some_item p (w ∷ ws) = if p w then true else some_item p ws

-- `isProcessing(priority)`
unfoldable pub is_processing : Priority → JobManager → Bool
is_processing p m =
    if m.pause_jobs then false else some_item (λ w. index p == index w.priority) m.processing

-- `isProcessing(type)`; `is_type` says whether a job's `getType` is the one asked for.
unfoldable pub count_processing : (ℕ → Bool) → JobManager → ℕ
count_processing is_type m = if m.pause_jobs then 0 else count (λ w. is_type w.job) m.processing

-- `removeWorker`
unfoldable pub remove_worker : ℕ → JobManager → JobManager
remove_worker worker m = record m { workers = erase_first (λ w. w == worker) m.workers }

-- One turn of `getNextJob` under the lock: a job, sleep until the next notification, or the end of the
-- loop, behind which the worker takes the lock again for `removeWorker`.
pub data Next : Type 0 where
  takes : ℕ → Next
  sleeps quits : Next

unfoldable pub get_next_job : ℕ → JobManager → JobManager × Next
get_next_job cores m =
    if m.running
    then elim (pop_job cores m) [ some r ↦ (r.0, takes r.1) | none ↦ (m, sleeps) ]
    else (m, quits)

-- `onJobProgress`: the answer, and the event.
unfoldable pub on_progress : ℕ → ℕ → ℕ → JobManager → Bool × List Event
on_progress progress total job m = elim (find (has_job job) m.processing) [
  | none ↦ (true, [])
  | some w ↦ elim w.user_call_back [
    | none ↦ (true, [])
    | some cb ↦ (false, on_job_progress cb w.id progress total job ∷ [])
  ]
]

-- `onJobComplete`, first part: the copy of the item, with which the lock is left. Without one the
-- call does nothing more.
abbrev pub begin_complete : ℕ → JobManager → Option WorkItem
begin_complete job m = find (has_job job) m.processing

-- Outside the lock the callback is called.
unfoldable pub tell_complete : WorkItem → List Event
tell_complete w = elim w.user_call_back [ none ↦ [] | some cb ↦ on_job_complete cb w.job ∷ [] ]

-- The last part: the job leaves the list, if it is still there, and is deleted.
unfoldable pub end_complete : ℕ → WorkItem → JobManager → JobManager × List Event
end_complete job w m =
    (record m { processing = erase_first (has_job job) m.processing }, freed w.job ∷ [])
