-- ===== src/Jobs/Limits.antt =====
-- How many jobs can be in progress at once.
use lu.Base.{
  ℕ, suc, ◌^◌, ◌≤◌, ◌<◌, ◌≡◌, refl, ap, subst, sym, max, Bool, true, false, Bool-cases, inl, inr,
  if◌then◌else◌, List, [], ◌∷◌, map, length, length-append, Option, none, some, arith,
}
use lu.Jobs.Types.{
  Priority, low_pausable, low, normal, high, dedicated, WorkItem, JobManager, Event, freed, find,
  erase_first, update_first, has_id, has_job, set_queue, priorities,
}
use lu.Jobs.Manager.{
  get_max_workers, new_manager, cancel, cancel_jobs, cancel_queued, cancel_job, may_start, pop_job,
  Next, takes, sleeps, quits, get_next_job, end_complete,
}
use lu.Jobs.Balance.{add_job-balance}
use lu.Jobs.System.{
  System, start, Step, adds, cancels, cancels_all, restarts, pauses, un_pauses, takes_job,
  sleeps_on, quits_loop, removes, begins, ends, Reaches, here, then_step,
}
use lu.Jobs.Ownership.{restart-keeps, remove_worker-keeps}
use lu.Jobs.Scheduling.{pop_job-highest, Starts}

-- What `getMaxWorkers` allows at most, on three cores or more.
abbrev pub most : ℕ → ℕ
most cores = max 10000 cores

get_max_workers-le :
    (cores : ℕ) (p : Priority) → 3 ≤ cores → cores < 2 ^ 32 → get_max_workers cores p ≤ most cores
unfolding get_max_workers
get_max_workers-le cores low_pausable h k = ground arith
get_max_workers-le cores low h k = ground arith
get_max_workers-le cores normal h k = ground arith
get_max_workers-le cores high h k = ground arith
get_max_workers-le cores dedicated h k = ground arith

length-map : {A : Type 0} (f : A → A) (xs : List A) → length (map f xs) ≡ length xs
length-map f [] = refl
length-map f (x ∷ xs) = ap suc (length-map f xs)

length-update_first :
    {A : Type 0} (p : A → Bool) (f : A → A) (xs : List A) → length (update_first p f xs) ≡ length xs
unfolding update_first
length-update_first p f [] = refl
length-update_first p f (x ∷ xs) = elim (Bool-cases (p x)) [
  | inl h ↦ ground (arith, h)
  | inr h ↦ ground (arith, h, length-update_first p f xs)
]

length-erase_first-le :
    {A : Type 0} (p : A → Bool) (xs : List A) → length (erase_first p xs) ≤ length xs
unfolding erase_first
length-erase_first-le p [] = omega arith
length-erase_first-le p (x ∷ xs) = elim (Bool-cases (p x)) [
  | inl h ↦ ground (arith, h)
  | inr h ↦ ground (arith, h, length-erase_first-le p xs)
]

abbrev busy : JobManager → ℕ
busy m = length m.processing

-- Only `popJob` adds a job in progress, below the limit of its priority.
abbrev Within : ℕ → Option (JobManager × ℕ) → Type 0
Within n none = Unit
Within n (some r) = busy r.0 ≤ n

Starts-Within :
    (cores : ℕ) (m : JobManager) (p : Priority) (r : Option (JobManager × ℕ))
    → 3 ≤ cores
    → cores < 2 ^ 32
    → Starts cores m p r
    → Within (most cores) r
unfolding may_start
Starts-Within cores m p r h k (w, ws, e, f, g) =
    subst (Within (most cores)) (sym g)
      (ground (arith, f, get_max_workers-le cores p h k, length-append m.processing (w ∷ [])))

pop_job-Within :
    (cores : ℕ) (m : JobManager)
    → 3 ≤ cores
    → cores < 2 ^ 32
    → Within (most cores) (pop_job cores m)
pop_job-Within cores m h k = elim (pop_job-highest cores m) [
  | inl (e, b) ↦ subst (Within (most cores)) (sym e) tt
  | inr (p, b, s) ↦ Starts-Within cores m p (pop_job cores m) h k s
]

abbrev Leaves : ℕ → JobManager × Next → Type 0
Leaves n (m, x) = busy m ≤ n

get_next_job-busy :
    (cores : ℕ) (m : JobManager)
    → 3 ≤ cores
    → cores < 2 ^ 32
    → busy m ≤ most cores
    → busy (get_next_job cores m).0 ≤ most cores
unfolding get_next_job
get_next_job-busy cores m h k o = by_run m.running (pop_job cores m) (pop_job-Within cores m h k)
  where
    by_run :
        (b : Bool) (r : Option (JobManager × ℕ))
        → Within (most cores) r
        → Leaves
            (most cores)
            (if b then elim r [ some r ↦ (r.0, takes r.1) | none ↦ (m, sleeps) ] else (m, quits))
    by_run false r w = o
    by_run true none w = o
    by_run true (some r) w = w

abbrev Keeps : JobManager → Option (JobManager × List Event) → Type 0
Keeps m none = Unit
Keeps m (some r) = busy r.0 ≡ busy m

cancel_queued-Keeps :
    (id : ℕ) (ps : List Priority) (m : JobManager) → Keeps m (cancel_queued id ps m)
unfolding cancel_queued
cancel_queued-Keeps id [] m = tt
cancel_queued-Keeps id (p ∷ ps) m =
    by_find (find (has_id id) (m.job_queue p)) (cancel_queued-Keeps id ps m)
  where
    by_find :
        (r : Option WorkItem)
        → Keeps m (cancel_queued id ps m)
        → Keeps m (elim r [
          | some w ↦
              some (set_queue m p (erase_first (has_id id) (m.job_queue p)), freed w.job ∷ [])
          | none ↦ cancel_queued id ps m
        ])
    by_find none rest = rest
    by_find (some w) rest = refl

cancel_job-busy : (id : ℕ) (m : JobManager) → busy (cancel_job id m).0 ≡ busy m
unfolding cancel_job
cancel_job-busy id m =
    by_result (cancel_queued id priorities m) (cancel_queued-Keeps id priorities m)
  where
    by_result :
        (r : Option (JobManager × List Event))
        → Keeps m r
        → Keeps m (
            some (elim r [
              | some r ↦ r
              | none ↦ (record m { processing = update_first (has_id id) cancel m.processing }, [])
            ]))
    by_result none b = length-update_first (has_id id) cancel m.processing
    by_result (some r) b = b

cancel_jobs-busy : (m : JobManager) → busy (cancel_jobs m).0 ≡ busy m
unfolding cancel_jobs
cancel_jobs-busy m = length-map cancel m.processing

end_complete-busy :
    (job : ℕ) (w : WorkItem) (m : JobManager) → busy (end_complete job w m).0 ≤ busy m
unfolding end_complete
end_complete-busy job w m = length-erase_first-le (has_job job) m.processing

Step-busy :
    {cores : ℕ} {s t : System}
    → 3 ≤ cores
    → cores < 2 ^ 32
    → Step cores s t
    → busy s.manager ≤ most cores
    → busy t.manager ≤ most cores
Step-busy {cores} {s} h k (adds worker job cb p) o =
    omega (arith, o, ap length (add_job-balance cores worker job job cb p s.manager).1)
Step-busy {cores} {s} h k (cancels id) o = omega (arith, o, cancel_job-busy id s.manager)
Step-busy {cores} {s} h k cancels_all o = omega (arith, o, cancel_jobs-busy s.manager)
Step-busy {cores} {s} h k (restarts m e) o = omega (arith, o, ap busy (restart-keeps s.manager m e))
Step-busy h k pauses o = o
Step-busy h k un_pauses o = o
Step-busy {cores} {s} h k (takes_job job m e) o =
    subst (Leaves (most cores)) e (get_next_job-busy cores s.manager h k o)
Step-busy {cores} {s} h k (quits_loop worker m e) o =
    subst (Leaves (most cores)) e (get_next_job-busy cores s.manager h k o)
Step-busy {s = s} h k (removes worker e) o =
    omega (arith, o, ap length (remove_worker-keeps worker s.manager).1)
Step-busy {cores} {s} h k (sleeps_on m e) o =
    subst (Leaves (most cores)) e (get_next_job-busy cores s.manager h k o)
Step-busy h k (begins job w i e) o = o
Step-busy {cores} {s} h k (ends job w e) o = omega (arith, o, end_complete-busy job w s.manager)

start-busy : (cores : ℕ) → busy start.manager ≤ most cores
unfolding start new_manager
start-busy cores = omega arith

-- On a machine with three cores or more, no reachable state has more jobs in progress than the
-- limit of dedicated jobs, 10000, or the number of cores, if that is greater.
pub processing-le :
    {cores : ℕ} {s : System}
    → 3 ≤ cores
    → cores < 2 ^ 32
    → Reaches cores s
    → length s.manager.processing ≤ max 10000 cores
processing-le {cores} h k here = start-busy cores
processing-le h k (then_step r x) = Step-busy h k x (processing-le h k r)
