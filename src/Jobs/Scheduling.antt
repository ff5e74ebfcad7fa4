-- ===== src/Jobs/Scheduling.antt =====
-- Which job `popJob` starts, and how many may run at once.
use lu.Base.{
  ℕ, ◌+◌, ◌-◌, ◌≤◌, ◌<◌, ◌^◌, ◌≡◌, refl, sym, subst, ◌∙◌, Bool, true, false, ◌⊎◌, inl, inr, dec_le,
  List, [], ◌∷◌, ◌++◌, All, Option, none, some, arith,
}
use lu.Jobs.Types.{
  Priority, low_pausable, low, normal, high, dedicated, WorkItem, JobManager, set_queue,
  priorities_down,
}
use lu.Jobs.Manager.{get_max_workers, may_start, pop_from, pop_job}

-- No job of this priority can start: none waits, or the priority is paused or has its full number.
abbrev pub Blocked : ℕ → JobManager → Priority → Type 0
Blocked cores m p = (m.job_queue p ≡ []) ⊎ (may_start cores p m ≡ false)

-- The first job of a priority's queue starts.
abbrev pub Starts : ℕ → JobManager → Priority → Option (JobManager × ℕ) → Type 0
Starts cores m p r =
    (w : WorkItem) × (ws : List WorkItem) × (m.job_queue p ≡ w ∷ ws)
    × (may_start cores p m ≡ true)
    × (r ≡ some (record (set_queue m p ws) { processing = m.processing ++ w ∷ [] }, w.job))

-- One priority: it is blocked and the search goes on, or its first job starts.
abbrev pub Settles :
    ℕ → JobManager → Priority → Option (JobManager × ℕ) → Option (JobManager × ℕ) → Type 0
Settles cores m p rest r = (Blocked cores m p × (r ≡ rest)) ⊎ Starts cores m p r

-- The priorities above one.
abbrev pub above : Priority → List Priority
above low_pausable = dedicated ∷ high ∷ normal ∷ low ∷ []
above low = dedicated ∷ high ∷ normal ∷ []
above normal = dedicated ∷ high ∷ []
above high = dedicated ∷ []
above dedicated = []

module _ (cores : ℕ) (m : JobManager) where
  pub pop_step :
      (p : Priority) (ps : List Priority)
      → Settles cores m p (pop_from cores ps m) (pop_from cores (p ∷ ps) m)
  unfolding pop_from
  pop_step p ps = by_queue (m.job_queue p) refl (may_start cores p m) refl (pop_from cores ps m)
    where
      by_queue :
          (q : List WorkItem)
          → m.job_queue p ≡ q
          → (b : Bool) → may_start cores p m ≡ b
          → (rest : Option (JobManager × ℕ))
          → Settles cores m p rest (elim q [
            | [] ↦ rest
            | w ∷ ws ↦ elim b [
              | true ↦
                  some (record (set_queue m p ws) { processing = m.processing ++ w ∷ [] }, w.job)
              | false ↦ rest
            ]
          ])
      by_queue [] e b f rest = inl (inl e, refl)
      by_queue (w ∷ ws) e true f rest = inr (w, ws, e, f, refl)
      by_queue (w ∷ ws) e false f rest = inl (inr f, refl)

  -- `popJob` starts the first job of the highest priority that is not blocked, and gives none if
  -- every priority is blocked: nothing waits there, it is paused, or as many jobs run as it
  -- allows.
  pub pop_job-highest :
      ((pop_job cores m ≡ none) × All (Blocked cores m) priorities_down)
      ⊎ ((p : Priority) × All (Blocked cores m) (above p) × Starts cores m p (pop_job cores m))
  unfolding pop_job pop_from
  pop_job-highest = elim (pop_step dedicated (high ∷ normal ∷ low ∷ low_pausable ∷ [])) [
    | inr s ↦ inr (dedicated, tt, s)
    | inl (b4, e4) ↦ elim (pop_step high (normal ∷ low ∷ low_pausable ∷ [])) [
      | inr s ↦ inr (high, (b4, tt), subst (Starts cores m high) (sym e4) s)
      | inl (b3, e3) ↦ elim (pop_step normal (low ∷ low_pausable ∷ [])) [
        | inr s ↦ inr (normal, (b4, (b3, tt)), subst (Starts cores m normal) (sym (e4 ∙ e3)) s)
        | inl (b2, e2) ↦ elim (pop_step low (low_pausable ∷ [])) [
          | inr s ↦
              inr (low, (b4, (b3, (b2, tt))), subst (Starts cores m low) (sym (e4 ∙ (e3 ∙ e2))) s)
          | inl (b1, e1) ↦ elim (pop_step low_pausable []) [
            | inr s ↦ inr (
              low_pausable,
              (b4, (b3, (b2, (b1, tt)))),
              subst (Starts cores m low_pausable) (sym (e4 ∙ (e3 ∙ (e2 ∙ e1)))) s,
            )
            | inl (b0, e0) ↦ inl (e4 ∙ (e3 ∙ (e2 ∙ (e1 ∙ e0))), (b4, (b3, (b2, (b1, (b0, tt))))))
          ]
        ]
      ]
    ]
  ]

-- With three cores or more each priority below `high` may use one worker less than the next higher
-- one, and `high` one for each core. With one or two cores `high` has one worker, `normal` none, and the unsigned
-- subtraction gives the two lowest priorities almost 2^32.
pub get_max_workers-cases :
    (cores : ℕ)
    → cores < 2 ^ 32
    → ((3 ≤ cores)
        × (get_max_workers cores high ≡ cores)
        × (get_max_workers cores normal + 1 ≡ cores)
        × (get_max_workers cores low + 2 ≡ cores)
        × (get_max_workers cores low_pausable + 3 ≡ cores))
      ⊎ ((cores ≤ 2)
          × (get_max_workers cores high ≡ 1)
          × (get_max_workers cores normal ≡ 0)
          × (get_max_workers cores low ≡ 2 ^ 32 - 1)
          × (get_max_workers cores low_pausable ≡ 2 ^ 32 - 2))
unfolding get_max_workers
get_max_workers-cases cores h = elim (dec_le 3 cores) [
  | yes many ↦ inl (many, ground arith, ground arith, ground arith, ground arith)
  | no few ↦ inr (omega (arith, few), ground arith, ground arith, ground arith, ground arith)
]
