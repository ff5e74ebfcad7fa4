-- ===== src/Jobs/Ownership.antt =====
-- Who owns a job: the queues, a worker, or nobody once it is deleted.
use lu.Base.{
  ℕ, ◌+◌, ◌≤◌, ◌<◌, ◌≡◌, refl, ap, subst, sym, ◌⊎◌, ℕ_discrete, Bool, true, false, Bool-cases, inl,
  inr, if◌then◌else◌, List, ◌∷◌, Option, none, some, arith,
}
use lu.Jobs.Types.{Priority, WorkItem, JobManager, Event, find, count, has_job}
use lu.Jobs.Manager.{
  new_manager, restart, add_job, pop_job, Next, takes, sleeps, quits, remove_worker, get_next_job,
  begin_complete, tell_complete, end_complete,
}
use lu.Jobs.Counting.{
  count-append, count-erase_first, count-find, found-count, occurs, pending, is_freed, deletions,
}
use lu.Jobs.Balance.{
  unit, add_job-balance, cancel_job-Balanced, cancel_jobs-Balanced, Pops, pop_job-Pops,
  end_complete-balance, deletions-tell_complete,
}
use lu.Jobs.System.{
  System, start, is_job, after, after_add, after_begin, after_end, Step, adds, cancels, cancels_all,
  restarts, pauses, un_pauses, takes_job, sleeps_on, quits_loop, removes, begins, ends, Reaches,
  here, then_step,
}

-- How often the workers have a job.
abbrev pub with_workers : ℕ → System → ℕ
with_workers job s = count (is_job job) s.held + occurs job s.completing

-- Each time that a job was given to the manager it waits, is with a worker, or was deleted; the list
-- of jobs in progress has those that are with a worker.
pub record Owned (job : ℕ) (s : System) : Type 0 where
  pub each_once :
      count (is_job job) s.given ≡ pending job s.manager + with_workers job s + deletions job s.log
  pub in_progress : occurs job s.manager.processing ≡ with_workers job s

-- A step that leaves the workers' jobs and those in progress alone.
quiet-Owned :
    (job : ℕ) (s : System) (m : JobManager) (es : List Event)
    → Owned job s
    → pending job m + deletions job es ≡ pending job s.manager
    → occurs job m.processing ≡ occurs job s.manager.processing
    → Owned job (after s m es)
quiet-Owned job s m es o e p =
    omega (arith, o.each_once, o.in_progress, count-append (is_freed job) s.log es)

pub restart-keeps : (m n : JobManager) → restart m ≡ some n → n ≡ record m { running = true }
unfolding restart
restart-keeps m n e = elim (Bool-cases m.running) [
  | inl h ↦ absurd (ground (arith, h, e))
  | inr h ↦ ground (arith, h, e)
]

-- A worker that gets a job takes it off a queue; else the lists stay.
abbrev Takes : ℕ → JobManager → JobManager × Next → Type 0
Takes job m (n, takes k) =
    (pending job n + unit job k ≡ pending job m)
    × (occurs job n.processing ≡ occurs job m.processing + unit job k)
Takes job m (n, _) = (pending job n ≡ pending job m) × (n.processing ≡ m.processing)

get_next_job-Takes : (cores job : ℕ) (m : JobManager) → Takes job m (get_next_job cores m)
unfolding get_next_job
get_next_job-Takes cores job m = by_run m.running (pop_job cores m) (pop_job-Pops cores job m)
  where
    by_run :
        (b : Bool) (r : Option (JobManager × ℕ))
        → Pops job m r
        → Takes job m
            (if b then elim r [ some r ↦ (r.0, takes r.1) | none ↦ (m, sleeps) ] else (m, quits))
    by_run false r h = (refl, refl)
    by_run true none h = (refl, refl)
    by_run true (some r) h = h

pub remove_worker-keeps :
    (worker : ℕ) (m : JobManager)
    → ((remove_worker worker m).job_queue ≡ m.job_queue)
      × ((remove_worker worker m).processing ≡ m.processing)
unfolding remove_worker
remove_worker-keeps worker m = (refl, refl)

remove_worker-pending :
    (job worker : ℕ) (m : JobManager) → pending job (remove_worker worker m) ≡ pending job m
unfolding remove_worker
remove_worker-pending job worker m = refl

take-Owned :
    (job k : ℕ) (s : System) (m : JobManager)
    → Owned job s
    → Takes job s.manager (m, takes k)
    → Owned job (record s { manager = m; held = k ∷ s.held })
unfolding count
take-Owned job k s m o h = omega (arith, o.each_once, o.in_progress, h.0, h.1)

none-Owned :
    (job : ℕ) (s : System) (m : JobManager) (ws : List ℕ)
    → Owned job s
    → pending job m ≡ pending job s.manager
    → m.processing ≡ s.manager.processing
    → Owned job (record s { manager = m; quitting = ws })
none-Owned job s m ws o h p = omega (arith, o.each_once, o.in_progress, h, ap (occurs job) p)

begin-Owned :
    (job k : ℕ) (w : WorkItem) (s : System)
    → Owned job s
    → 0 < count (is_job k) s.held
    → begin_complete k s.manager ≡ some w
    → Owned job (after_begin k w s)
unfolding count
begin-Owned job k w s o h e =
    let (x, found) = found-count (is_job k) s.held h in
    ground (
      arith,
      o.each_once,
      o.in_progress,
      count-append (is_freed job) s.log (tell_complete w),
      deletions-tell_complete job w,
      count-erase_first (is_job job) (is_job k) s.held x found,
      count-find (is_job k) s.held x found,
      count-find (has_job k) s.manager.processing w e,
    )

end-Owned :
    (job k : ℕ) (w : WorkItem) (s : System)
    → ((j : ℕ) → Owned j s)
    → find (has_job k) s.completing ≡ some w
    → Owned job (after_end k w s)
unfolding count
end-Owned job k w s o e =
    let (v, found) = found-count (has_job k) s.manager.processing (
      ground (
        arith,
        (o k).in_progress,
        count-erase_first (has_job k) (has_job k) s.completing w e,
        count-find (has_job k) s.completing w e,
      )) in
    let (p, q, d) = end_complete-balance job k w v s.manager found (
      ground (
        arith,
        count-find (has_job k) s.manager.processing v found,
        count-find (has_job k) s.completing w e,
      )) in
    omega (
      arith,
      (o job).each_once,
      (o job).in_progress,
      p,
      q,
      d,
      count-append (is_freed job) s.log (end_complete k w s.manager).1,
      count-erase_first (has_job job) (has_job k) s.completing w e,
    )

add-Owned :
    (cores worker new_job job : ℕ) (cb : Option ℕ) (p : Priority) (s : System)
    → Owned job s
    → Owned job (after_add cores worker new_job cb p s)
unfolding count
add-Owned cores worker new_job job cb p s o =
    let (b, e) = add_job-balance cores worker new_job job cb p s.manager in
    omega (
      arith,
      o.each_once,
      o.in_progress,
      b,
      ap (occurs job) e,
      count-append (is_freed job) s.log (add_job cores worker new_job cb p s.manager).1,
    )

Step-Owned :
    {cores : ℕ} {s t : System} → Step cores s t → ((j : ℕ) → Owned j s) → (job : ℕ) → Owned job t
Step-Owned {cores} {s} (adds worker new_job cb p) o job =
    add-Owned cores worker new_job job cb p s (o job)
Step-Owned {cores} {s} (cancels id) o job =
    let b = cancel_job-Balanced id job s.manager in quiet-Owned job s _ _ (o job) (b.0) (b.1)
Step-Owned {cores} {s} cancels_all o job =
    let b = cancel_jobs-Balanced job s.manager in quiet-Owned job s _ _ (o job) (b.0) (b.1)
Step-Owned {cores} {s} (restarts m e) o job =
    subst (λ n. Owned job (record s { manager = n })) (sym (restart-keeps s.manager m e))
      (record { each_once = (o job).each_once; in_progress = (o job).in_progress })
Step-Owned pauses o job = record {
  each_once = (o job).each_once;
  in_progress = (o job).in_progress;
}
Step-Owned un_pauses o job = record {
  each_once = (o job).each_once;
  in_progress = (o job).in_progress;
}
Step-Owned {cores} {s} (takes_job k m e) o job =
    take-Owned job k s m (o job)
      (subst (Takes job s.manager) e (get_next_job-Takes cores job s.manager))
Step-Owned {cores} {s} (sleeps_on m e) o job =
    let (same, list) = subst (Takes job s.manager) e (get_next_job-Takes cores job s.manager) in
    none-Owned job s m s.quitting (o job) same list
Step-Owned {cores} {s} (quits_loop worker m e) o job =
    let (same, list) = subst (Takes job s.manager) e (get_next_job-Takes cores job s.manager) in
    none-Owned job s m (worker ∷ s.quitting) (o job) same list
Step-Owned {s = s} (removes worker h) o job =
    let (same, list) = remove_worker-keeps worker s.manager in
    none-Owned job s (remove_worker worker s.manager) _ (o job)
      (remove_worker-pending job worker s.manager) list
Step-Owned {cores} {s} (begins k w h e) o job = begin-Owned job k w s (o job) h e
Step-Owned {cores} {s} (ends k w e) o job = end-Owned job k w s o e

start-Owned : (job : ℕ) → Owned job start
unfolding start new_manager count
start-Owned job = record { each_once = refl; in_progress = refl }

-- In every state that the manager and its workers can reach, by calls of the interface and by the
-- parts of the workers' loops in any order, each time that a job was given to `addJob` it is in
-- just one place: it waits in a queue, is with a worker, or was deleted; what is listed as in
-- progress is what the workers have.
pub jobs-Owned : {cores : ℕ} {s : System} → Reaches cores s → (job : ℕ) → Owned job s
jobs-Owned here = start-Owned
jobs-Owned (then_step r x) = Step-Owned x (jobs-Owned r)

-- In every reachable state a job that was given to the manager once is not deleted twice, and
-- once deleted it neither waits nor is with a worker.
pub no_use_after_free :
    {cores : ℕ} {s : System} (job : ℕ)
    → Reaches cores s
    → count (is_job job) s.given ≤ 1
    → (deletions job s.log ≡ 0)
      ⊎ ((deletions job s.log ≡ 1) × (pending job s.manager ≡ 0) × (with_workers job s ≡ 0))
no_use_after_free {s = s} job r h = elim (ℕ_discrete (deletions job s.log) 0) [
  | yes e ↦ inl e
  | no e ↦
      let o = (jobs-Owned r job).each_once in
      inr (omega (arith, o), omega (arith, o), omega (arith, o))
]

-- In every reachable state `onJobComplete` finds an item for each job that a worker has from
-- `getNextJob`.
pub held_job_found :
    {cores : ℕ} {s : System} (job : ℕ)
    → Reaches cores s
    → 0 < count (is_job job) s.held
    → (w : WorkItem) × (begin_complete job s.manager ≡ some w) × (w.job ≡ job)
held_job_found {s = s} job r h =
    let o = (jobs-Owned r job).in_progress in
    let (w, found) = found-count (has_job job) s.manager.processing (omega (arith, o)) in
    (w, found, ground (arith, count-find (has_job job) s.manager.processing w found))

found_job :
    (job : ℕ) (w : WorkItem) (ws : List WorkItem) → find (has_job job) ws ≡ some w → w.job ≡ job
found_job job w ws e = ground (arith, count-find (has_job job) ws w e)

end_complete-frees :
    (job : ℕ) (w : WorkItem) (m : JobManager)
    → w.job ≡ job
    → deletions job (end_complete job w m).1 ≡ 1
unfolding end_complete count
end_complete-frees job w m e = ground (arith, e)

-- In every reachable state, when the last part of `onJobComplete` runs for a job that was given
-- to the manager once, no item of the job stays in progress, none waits, no worker has it, and it
-- has been deleted exactly once.
pub completed_job_gone :
    {cores : ℕ} {s : System} (job : ℕ) (w : WorkItem)
    → Reaches cores s
    → count (is_job job) s.given ≤ 1
    → find (has_job job) s.completing ≡ some w
    → (occurs job (end_complete job w s.manager).0.processing ≡ 0)
      × (pending job (end_complete job w s.manager).0 ≡ 0)
      × (with_workers job (after_end job w s) ≡ 0)
      × (deletions job (after_end job w s).log ≡ 1)
completed_job_gone {s = s} job w r h e =
    let before = jobs-Owned r job in
    let o = jobs-Owned (then_step r (ends job w e)) job in
    let freed_now = end_complete-frees job w s.manager (found_job job w s.completing e) in
    let more = count-append (is_freed job) s.log (end_complete job w s.manager).1 in
    (
      omega (arith, o.in_progress, o.each_once, freed_now, more, h),
      omega (arith, o.in_progress, o.each_once, freed_now, more, h),
      omega (arith, o.in_progress, o.each_once, freed_now, more, h),
      omega (arith, o.in_progress, o.each_once, freed_now, more, h),
    )
