-- ===== src/Jobs/Examples.antt =====
-- The theorems on the job manager and the job queue at small states.
use lu.Base.{
  max, length, ℕ, ◌≤◌, ◌<◌, ◌==◌, ◌≡◌, ◌⊎◌, refl, Bool, true, false, List, [], ◌∷◌, none, some, inl,
  inr, arith,
}
use lu.Jobs.Types.{
  Priority, low_pausable, low, normal, high, WorkItem, JobManager, count, find, has_job, dedicated,
}
use lu.Jobs.Manager.{
  new_manager, get_max_workers, start_workers, may_start, pop_from, pop_job, Next, takes,
  get_next_job, begin_complete, end_complete,
}
use lu.Jobs.Manager
use lu.Jobs.Counting.{occurs, pending, deletions}
use lu.Jobs.System.{
  System, start, is_job, after_add, after_begin, after_end, adds, takes_job, begins, Reaches, here,
  then_step,
}
use lu.Jobs.Ownership.{Owned, with_workers, jobs-Owned, no_use_after_free, completed_job_gone}
use lu.Jobs.Stopping.{ask_all, cancel_jobs-ask_all}
use lu.Jobs.Limits.{processing-le}
use lu.Jobs.Queue.{JobQueue, new_queue, add_job, on_job_notify}
use lu.Jobs.Working.{IsWorking, add_job-IsWorking}
use lu.Jobs.Refilling.{Refills, on_job_notify-replaces}
use lu.Jobs.Draining.{take_all}
use lu.Jobs.Order.{pop_job-order}

-- Job 7 is given to the manager, which starts worker 100; the worker takes it.
abbrev one_given : System
one_given = after_add 4 100 7 none normal start

abbrev manager_after : JobManager
manager_after = (get_next_job 4 one_given.manager).0

abbrev one_taken : System
one_taken = record one_given { manager = manager_after; held = 7 ∷ one_given.held }

takes_seven : get_next_job 4 one_given.manager ≡ (manager_after, takes 7)
unfolding get_next_job start new_manager Manager.add_job start_workers get_max_workers pop_job
    pop_from may_start
takes_seven = refl

one_taken-Reaches : Reaches 4 one_taken
one_taken-Reaches =
    then_step (then_step here (adds 100 7 none normal)) (takes_job 7 manager_after takes_seven)

jobs-Owned_example : Owned 7 one_taken
jobs-Owned_example = jobs-Owned one_taken-Reaches 7

given_once : count (is_job 7) one_taken.given ≤ 1
unfolding count start
given_once = omega arith

no_use_after_free_example :
    (deletions 7 one_taken.log ≡ 0)
    ⊎ ((deletions 7 one_taken.log ≡ 1)
        × (pending 7 one_taken.manager ≡ 0)
        × (with_workers 7 one_taken ≡ 0))
no_use_after_free_example = no_use_after_free 7 one_taken-Reaches given_once

-- The worker has handed job 7 to `onJobComplete`.
abbrev seven : WorkItem
seven = record { job = 7; id = 1; user_call_back = none; priority = normal }

seven_listed : begin_complete 7 one_taken.manager ≡ some seven
unfolding get_next_job start new_manager Manager.add_job start_workers get_max_workers pop_job
    pop_from may_start find
seven_listed = refl

held_once : 0 < count (is_job 7) one_taken.held
unfolding count start
held_once = omega arith

abbrev one_completing : System
one_completing = after_begin 7 seven one_taken

one_completing-Reaches : Reaches 4 one_completing
one_completing-Reaches = then_step one_taken-Reaches (begins 7 seven held_once seven_listed)

completing_once : count (is_job 7) one_completing.given ≤ 1
unfolding count start
completing_once = omega arith

seven_completing : find (has_job 7) one_completing.completing ≡ some seven
unfolding find start
seven_completing = refl

completed_job_gone_example :
    (occurs 7 (end_complete 7 seven one_completing.manager).0.processing ≡ 0)
    × (pending 7 (end_complete 7 seven one_completing.manager).0 ≡ 0)
    × (with_workers 7 (after_end 7 seven one_completing) ≡ 0)
    × (deletions 7 (after_end 7 seven one_completing).log ≡ 1)
completed_job_gone_example =
    completed_job_gone 7 seven one_completing-Reaches completing_once seven_completing

processing-le_example : length one_taken.manager.processing ≤ max 10000 4
processing-le_example = processing-le (omega arith) (omega arith) one_taken-Reaches

-- While jobs are paused, one job waits with each of three priorities and two with another.
abbrev item : ℕ → WorkItem
item job = record { job = job; id = job; user_call_back = none; priority = low }

abbrev waiting : Priority → List WorkItem
waiting low_pausable = item 1 ∷ []
waiting low = item 2 ∷ []
waiting normal = []
waiting high = item 3 ∷ item 4 ∷ []
waiting dedicated = item 5 ∷ []

abbrev paused : JobManager
paused = record {
  job_counter = 5;
  pause_jobs = true;
  running = true;
  job_queue = waiting;
  processing = [];
  workers = [];
}

pop_job-order_example : take_all 8 6 paused ≡ 5 ∷ 3 ∷ 4 ∷ 2 ∷ []
pop_job-order_example = pop_job-order 8 (omega arith) (omega arith) 6 paused (omega arith)

-- With one job in progress and three cores, the limit of low jobs is met.
pop_job-order_limited : take_all 3 6 (record paused { processing = item 9 ∷ [] }) ≡ 5 ∷ 3 ∷ []
unfolding pop_job pop_from may_start get_max_workers
pop_job-order_limited = refl

-- A queue that may have two jobs with the manager.
abbrev empty_queue : JobQueue
empty_queue = new_queue false 2 low

empty_queue-IsWorking : IsWorking empty_queue
empty_queue-IsWorking = record { bounded = omega arith; busy = inl refl }

abbrev pointers : ℕ → ℕ → Bool
pointers a b = a == b

add_job-IsWorking_example :
    IsWorking (add_job 4 100 50 pointers 7 empty_queue one_given.manager).0.queue
add_job-IsWorking_example =
    add_job-IsWorking 4 100 50 pointers 7 empty_queue one_given.manager empty_queue-IsWorking

-- Jobs 7 and 8 are with the manager and job 9 waits when job 7 ends.
abbrev full_queue : JobQueue
full_queue = record empty_queue {
  job_queue = record { job = 9; id = 0 } ∷ [];
  processing = record { job = 7; id = 1 } ∷ record { job = 8; id = 2 } ∷ [];
}

full_queue-IsWorking : IsWorking full_queue
full_queue-IsWorking = record { bounded = omega arith; busy = inr (omega arith) }

one_given-running : one_given.manager.running ≡ true
unfolding start new_manager Manager.add_job start_workers get_max_workers
one_given-running = refl

on_job_notify-replaces_example :
    (let r = (on_job_notify 4 100 50 pointers 7 full_queue one_given.manager).queue in
      IsWorking r × Refills full_queue.job_queue (record { job = 8; id = 2 } ∷ []) r)
on_job_notify-replaces_example =
    on_job_notify-replaces 4 100 50 pointers 7 full_queue one_given.manager full_queue-IsWorking []
      (record { job = 8; id = 2 } ∷ []) (record { job = 7; id = 1 }) refl tt refl one_given-running

-- Worker 100 has job 7 when the jobs are cancelled.
cancel_jobs-ask_all_example :
    (ask_all 4 one_taken.manager.workers (Manager.cancel_jobs one_taken.manager).0).workers ≡ []
cancel_jobs-ask_all_example = cancel_jobs-ask_all 4 one_taken.manager
