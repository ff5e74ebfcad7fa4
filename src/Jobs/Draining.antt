-- ===== src/Jobs/Draining.antt =====
-- `popJob` again and again: which jobs the workers get, and in which order.
use lu.Base.{
  ℕ, zero, suc, ◌+◌, ◌-◌, ◌≤◌, ◌<◌, ◌^◌, ◌≡◌, ◌≢◌, refl, Bool, Bool-cases, true, ◌==◌, ◌⊎◌, inl,
  inr, if◌then◌else◌, List, [], ◌∷◌, ◌++◌, All, length, take, none, some, arith,
}
use lu.Jobs.Types.{
  Priority, low_pausable, low, normal, high, dedicated, index, WorkItem, JobManager, set_queue,
}
use lu.Jobs.Scheduling.{pop_step}
use lu.Jobs.Manager.{get_max_workers, may_start, pop_from, pop_job}

-- The jobs of calls of `popJob` until one gives none, with fuel.
abbrev pub take_all : ℕ → ℕ → JobManager → List ℕ
take_all cores zero m = []
take_all cores (suc n) m = elim (pop_job cores m) [
  | none ↦ []
  | some r ↦ r.1 ∷ take_all cores n r.0
]

-- How many jobs may be in progress for one of a priority to start, on three cores or more.
abbrev pub allowed : ℕ → Priority → ℕ
allowed cores low_pausable = cores - 3
allowed cores low = cores - 2
allowed cores normal = cores - 1
allowed cores high = cores
allowed cores dedicated = 10000

-- The jobs of a priority that may start: while jobs are paused, none of the lowest.
abbrev pub open_jobs : JobManager → Priority → List WorkItem
open_jobs m low_pausable = if m.pause_jobs then [] else m.job_queue low_pausable
open_jobs m low = m.job_queue low
open_jobs m normal = m.job_queue normal
open_jobs m high = m.job_queue high
open_jobs m dedicated = m.job_queue dedicated

-- The first jobs of each priority, the priorities in order, each as far as the number in progress
-- allows.
abbrev pub served : ℕ → JobManager → List Priority → ℕ → List WorkItem
served cores m [] running = []
served cores m (p ∷ ps) running =
    let here = take (allowed cores p - running) (open_jobs m p) in
    here ++ served cores m ps (running + length here)

-- The number of jobs that may start.
abbrev pub waits : JobManager → List Priority → ℕ
waits m [] = 0
waits m (p ∷ ps) = length (open_jobs m p) + waits m ps

abbrev pub busy : JobManager → ℕ
busy m = length m.processing

abbrev is_pausable : Priority → Bool
is_pausable p = index p == index low_pausable

-- A job of the priority starts.
abbrev pub started : JobManager → Priority → WorkItem → List WorkItem → JobManager
started m p w ws = record (set_queue m p ws) { processing = m.processing ++ w ∷ [] }

unfoldable pub Blocked : ℕ → JobManager → Priority → Type 0
Blocked cores m p = (open_jobs m p ≡ []) ⊎ (allowed cores p ≤ busy m)

-- Priorities whose queues differ.
abbrev pub Fresh : Priority → List Priority → Type 0
Fresh p qs = All (λ q. index q ≢ index p) qs

abbrev pub Distinct : List Priority → Type 0
Distinct [] = Unit
Distinct (p ∷ ps) = Fresh p ps × Distinct ps

module _ (cores : ℕ) (many : 3 ≤ cores) (word : cores < 2 ^ 32) where
  may-start :
      (p : Priority) (m : JobManager) (w : WorkItem) (ws : List WorkItem)
      → open_jobs m p ≡ w ∷ ws
      → busy m < allowed cores p
      → (m.job_queue p ≡ w ∷ ws) × (may_start cores p m ≡ true)
  unfolding may_start get_max_workers
  may-start low_pausable m w ws e h = elim (Bool-cases m.pause_jobs) [
    | inl paused ↦ absurd (ground (arith, e, paused))
    | inr free ↦ (ground (arith, e, free), ground (arith, many, word, h, free))
  ]
  may-start low m w ws e h = (e, ground (arith, many, word, h))
  may-start normal m w ws e h = (e, ground (arith, many, word, h))
  may-start high m w ws e h = (e, ground (arith, many, word, h))
  may-start dedicated m w ws e h = (e, ground (arith, h))

  starts-open :
      (p : Priority) (m : JobManager) (w : WorkItem) (ws : List WorkItem)
      → m.job_queue p ≡ w ∷ ws
      → may_start cores p m ≡ true
      → (open_jobs m p ≡ w ∷ ws) × (busy m < allowed cores p)
  unfolding may_start get_max_workers
  starts-open low_pausable m w ws e h = elim (Bool-cases m.pause_jobs) [
    | inl paused ↦ absurd (ground (arith, h, paused))
    | inr free ↦ (ground (arith, e, free), ground (arith, many, word, h, free))
  ]
  starts-open low m w ws e h = (e, ground (arith, many, word, h))
  starts-open normal m w ws e h = (e, ground (arith, many, word, h))
  starts-open high m w ws e h = (e, ground (arith, many, word, h))
  starts-open dedicated m w ws e h = (e, ground (arith, h))

  pub pop_from-Blocked :
      (p : Priority) (ps : List Priority) (m : JobManager)
      → Blocked cores m p
      → pop_from cores (p ∷ ps) m ≡ pop_from cores ps m
  unfolding Blocked
  pop_from-Blocked p ps m b = elim (pop_step cores m p ps) [
    | inl (c, e) ↦ e
    | inr (w, ws, e, f, r) ↦
        let (queued, below) = starts-open p m w ws e f in
        elim b [
          | inl none_open ↦ absurd (ground (arith, queued, none_open))
          | inr full ↦ absurd (omega (arith, full, below))
        ]
  ]

  pub pop_from-open :
      (p : Priority) (ps : List Priority) (m : JobManager) (w : WorkItem) (ws : List WorkItem)
      → open_jobs m p ≡ w ∷ ws
      → busy m < allowed cores p
      → pop_from cores (p ∷ ps) m ≡ some (started m p w ws, w.job)
  unfolding pop_from
  pop_from-open p ps m w ws e h =
      let (queued, may) = may-start p m w ws e h in rw (pop_from, queued, may) refl
