-- ===== src/Jobs/Order.antt =====
-- The order in which the jobs that wait are started by `popJob`.
use lu.Base.{
  ℕ, zero, suc, ◌+◌, ◌-◌, ◌≤◌, ◌<◌, ◌^◌, ◌≡◌, ◌≢◌, refl, sym, ap, ap₂, ◌∙◌, ◌⊎◌, inl, inr, dec_le,
  List, [], ◌∷◌, ◌++◌, append_assoc, All, map, length, length-append, take, Option, none, some,
  arith,
}
use lu.Jobs.Types.{
  Priority, low_pausable, low, normal, high, dedicated, index, WorkItem, JobManager,
  priorities_down,
}
use lu.Jobs.Manager.{pop_from, pop_job}
use lu.Jobs.Draining.{
  take_all, allowed, open_jobs, served, waits, busy, started, Blocked, Fresh, Distinct,
  pop_from-Blocked, pop_from-open,
}

down-Distinct : Distinct priorities_down
down-Distinct = (
  (omega arith, (omega arith, (omega arith, (omega arith, tt)))),
  (
    (omega arith, (omega arith, (omega arith, tt))),
    ((omega arith, (omega arith, tt)), ((omega arith, tt), (tt, tt))),
  ),
)

All-snoc :
    (P : Priority → Type 0) (pre : List Priority) (p : Priority)
    → All P pre
    → P p
    → All P (pre ++ p ∷ [])
All-snoc P [] p a x = (x, tt)
All-snoc P (q ∷ pre) p a x = (a.0, All-snoc P pre p a.1 x)

tails :
    (p : Priority) (ps pre : List Priority)
    → All (λ q. Fresh q (p ∷ ps)) pre
    → All (λ q. Fresh q ps) pre
tails p ps [] f = tt
tails p ps (q ∷ pre) f = (f.0.1, tails p ps pre f.1)

module _ (cores : ℕ) (many : 3 ≤ cores) (word : cores < 2 ^ 32) where
  open_jobs-started :
      (p q : Priority) (m : JobManager) (w : WorkItem) (ws : List WorkItem)
      → index p ≢ index q
      → open_jobs (started m p w ws) q ≡ open_jobs m q
  open_jobs-started p low_pausable m w ws h = ground (arith, h)
  open_jobs-started p low m w ws h = ground (arith, h)
  open_jobs-started p normal m w ws h = ground (arith, h)
  open_jobs-started p high m w ws h = ground (arith, h)
  open_jobs-started p dedicated m w ws h = ground (arith, h)

  open_jobs-rest :
      (p : Priority) (m : JobManager) (w : WorkItem) (ws : List WorkItem)
      → open_jobs m p ≡ w ∷ ws
      → open_jobs (started m p w ws) p ≡ ws
  open_jobs-rest low_pausable m w ws e = ground (arith, e)
  open_jobs-rest low m w ws e = refl
  open_jobs-rest normal m w ws e = refl
  open_jobs-rest high m w ws e = refl
  open_jobs-rest dedicated m w ws e = refl

  served-started :
      (p : Priority) (qs : List Priority) (m : JobManager) (w : WorkItem) (ws : List WorkItem)
      (running : ℕ)
      → Fresh p qs
      → served cores (started m p w ws) qs running ≡ served cores m qs running
  served-started p [] m w ws running f = refl
  served-started p (q ∷ qs) m w ws running f =
      let same = open_jobs-started p q m w ws (λ e. f.0 (sym e)) in
      let here = take (allowed cores q - running) (open_jobs m q) in
      ap
        (λ items.
          let here = take (allowed cores q - running) items in
          here ++ served cores (started m p w ws) qs (running + length here))
        same
      ∙ ap (λ t. here ++ t) (served-started p qs m w ws (running + length here) f.1)

  waits-started :
      (p : Priority) (qs : List Priority) (m : JobManager) (w : WorkItem) (ws : List WorkItem)
      → Fresh p qs
      → waits (started m p w ws) qs ≡ waits m qs
  waits-started p [] m w ws f = refl
  waits-started p (q ∷ qs) m w ws f = omega (
    arith,
    ap length (open_jobs-started p q m w ws (λ e. f.0 (sym e))),
    waits-started p qs m w ws f.1,
  )

  started-Blocked :
      (p q : Priority) (m : JobManager) (w : WorkItem) (ws : List WorkItem)
      → index p ≢ index q
      → Blocked cores m q
      → Blocked cores (started m p w ws) q
  unfolding Blocked
  started-Blocked p q m w ws h (inl e) = inl (open_jobs-started p q m w ws h ∙ e)
  started-Blocked p q m w ws h (inr full) =
      inr (omega (arith, full, length-append m.processing (w ∷ [])))

  later-Blocked :
      (p : Priority) (ps pre : List Priority) (m : JobManager) (w : WorkItem) (ws : List WorkItem)
      → All (λ q. Fresh q (p ∷ ps)) pre
      → All (Blocked cores m) pre
      → All (Blocked cores (started m p w ws)) pre
  later-Blocked p ps [] m w ws f b = tt
  later-Blocked p ps (q ∷ pre) m w ws f b =
      (started-Blocked p q m w ws f.0.0 b.0, later-Blocked p ps pre m w ws f.1 b.1)

  pop_from-skip :
      (pre ps : List Priority) (m : JobManager)
      → All (Blocked cores m) pre
      → pop_from cores (pre ++ ps) m ≡ pop_from cores ps m
  pop_from-skip [] ps m b = refl
  pop_from-skip (q ∷ pre) ps m b =
      pop_from-Blocked cores many word q (pre ++ ps) m b.0 ∙ pop_from-skip pre ps m b.1

  pop_job-skip :
      (pre ps : List Priority) (m : JobManager)
      → pre ++ ps ≡ priorities_down
      → All (Blocked cores m) pre
      → pop_job cores m ≡ pop_from cores ps m
  unfolding pop_job
  pop_job-skip pre ps m e b = ap (λ l. pop_from cores l m) (sym e) ∙ pop_from-skip pre ps m b

  served-Blocked :
      (p : Priority) (ps : List Priority) (m : JobManager)
      → Blocked cores m p
      → served cores m (p ∷ ps) (busy m) ≡ served cores m ps (busy m)
  unfolding Blocked
  served-Blocked p ps m b =
      let nothing : take (allowed cores p - busy m) (open_jobs m p) ≡ [] = elim b [
        | inl e ↦ ap (take (allowed cores p - busy m)) e ∙ take_none (allowed cores p - busy m)
        | inr full ↦
            let none_may : allowed cores p - busy m ≡ 0 = omega (arith, full) in
            ap (λ k. take k (open_jobs m p)) none_may
      ] in
      ap (λ here. here ++ served cores m ps (busy m + length here)) nothing
      ∙ ap (served cores m ps) {x = busy m + 0} (omega arith)
    where
      take_none : (n : ℕ) → take {A = WorkItem} n [] ≡ []
      take_none zero = refl
      take_none (suc n) = refl

  served-open :
      (p : Priority) (ps : List Priority) (m : JobManager) (w : WorkItem) (ws : List WorkItem)
      → Fresh p ps
      → open_jobs m p ≡ w ∷ ws
      → busy m < allowed cores p
      → served cores m (p ∷ ps) (busy m)
        ≡ w ∷ served cores (started m p w ws) (p ∷ ps) (busy (started m p w ws))
  served-open p ps m w ws f e h =
      let front = take (allowed cores p - (busy m + 1)) ws in
      let one_more : allowed cores p - busy m ≡ suc (allowed cores p - (busy m + 1)) =
        omega (arith, h) in
      let grown : busy (started m p w ws) ≡ busy m + 1 =
        omega (arith, length-append m.processing (w ∷ [])) in
      let here : take (allowed cores p - busy m) (open_jobs m p) ≡ w ∷ front =
        ap₂ take one_more e in
      let later : take (allowed cores p - busy (started m p w ws)) (open_jobs (started m p w ws) p)
          ≡ front =
        ap₂ (λ k l. take (allowed cores p - k) l) grown (open_jobs-rest p m w ws e) in
      let same : busy m + suc (length front) ≡ busy (started m p w ws) + length front =
        omega (arith, grown) in
      ap (λ items. items ++ served cores m ps (busy m + length items)) here
      ∙ ap (λ t. w ∷ t)
          (ap (λ k. front ++ served cores m ps k) same
            ∙ (ap (λ t. front ++ t)
                  (sym (served-started p ps m w ws (busy (started m p w ws) + length front) f))
                ∙ sym (
                    ap
                      (λ items.
                        items
                        ++ served cores (started m p w ws) ps
                            (busy (started m p w ws) + length items))
                      later)))

  take_all-none : (n : ℕ) (m : JobManager) → pop_job cores m ≡ none → take_all cores n m ≡ []
  take_all-none zero m e = refl
  take_all-none (suc n) m e =
      ap
        (λ (r : Option (JobManager × ℕ)). elim r [
          | none ↦ []
          | some r ↦ r.1 ∷ take_all cores n r.0
        ])
        e

  take_all-some :
      (n : ℕ) (m m' : JobManager) (job : ℕ)
      → pop_job cores m ≡ some (m', job)
      → take_all cores (suc n) m ≡ job ∷ take_all cores n m'
  take_all-some n m m' job e =
      ap
        (λ (r : Option (JobManager × ℕ)). elim r [
          | none ↦ []
          | some r ↦ r.1 ∷ take_all cores n r.0
        ])
        e

  no_priority : (m : JobManager) → pop_from cores [] m ≡ none
  unfolding pop_from
  no_priority m = refl

  -- Whether a job of the priority can start.
  open_cases :
      (p : Priority) (m : JobManager)
      → Blocked cores m p
        ⊎ ((w : WorkItem) × (ws : List WorkItem) × (open_jobs m p ≡ w ∷ ws)
            × (busy m < allowed cores p))
  unfolding Blocked
  open_cases p m = elim (dec_le (allowed cores p) (busy m)) [
    | yes full ↦ inl (inr full)
    | no room ↦ by_jobs (open_jobs m p) refl (omega (arith, room))
  ]
    where
      by_jobs :
          (items : List WorkItem)
          → open_jobs m p ≡ items
          → busy m < allowed cores p
          → Blocked cores m p
            ⊎ ((w : WorkItem) × (ws : List WorkItem) × (open_jobs m p ≡ w ∷ ws)
                × (busy m < allowed cores p))
      by_jobs [] e h = inl (inl e)
      by_jobs (w ∷ ws) e h = inr (w, ws, e, h)

  -- The priorities of `pre` are blocked; the jobs of the others are taken in turn.
  drain_from :
      (n : ℕ) (pre ps : List Priority) (m : JobManager)
      → pre ++ ps ≡ priorities_down
      → All (Blocked cores m) pre
      → All (λ q. Fresh q ps) pre
      → Distinct ps
      → waits m ps < n
      → take_all cores n m ≡ map (λ w. w.job) (served cores m ps (busy m))
  drain_from n pre [] m e b f d enough =
      take_all-none n m (pop_job-skip pre [] m e b ∙ no_priority m)
  drain_from zero pre (p ∷ ps) m e b f d enough = absurd (omega (arith, enough))
  drain_from (suc n) pre (p ∷ ps) m e b f d enough = elim (open_cases p m) [
    | inl closed ↦
        drain_from (suc n) (pre ++ p ∷ []) ps m (append_assoc pre (p ∷ []) ps ∙ e)
          (All-snoc (Blocked cores m) pre p b closed)
          (All-snoc (λ q. Fresh q ps) pre p (tails p ps pre f) d.0) d.1 (omega (arith, enough))
        ∙ ap (map (λ w. w.job)) (sym (served-Blocked p ps m closed))
    | inr (w, ws, o, room) ↦
        let first =
          pop_job-skip pre (p ∷ ps) m e b ∙ pop_from-open cores many word p ps m w ws o room in
        let fewer : waits (started m p w ws) (p ∷ ps) < n = omega (
          arith,
          enough,
          ap length o,
          ap length (open_jobs-rest p m w ws o),
          waits-started p ps m w ws d.0,
        ) in
        take_all-some n m (started m p w ws) w.job first
        ∙ (ap (λ t. w.job ∷ t)
              (drain_from n pre (p ∷ ps) (started m p w ws) e (later-Blocked p ps pre m w ws f b) f
                d fewer)
            ∙ ap (map (λ w. w.job)) (sym (served-open p ps m w ws d.0 o room)))
  ]

  -- When `popJob` is called until it gives none, on three cores or more, the jobs it starts are
  -- those of the dedicated priority, then high, normal, low and the lowest, each queue from its
  -- front on and as far as the limit of the priority allows, which is 10000 jobs in progress for
  -- dedicated jobs, the number of cores for high ones and one less for each priority below; while
  -- jobs are paused none of the lowest starts. There are more calls than jobs that may start.
  pub pop_job-order :
      (n : ℕ) (m : JobManager)
      → waits m priorities_down < n
      → take_all cores n m ≡ map (λ w. w.job) (served cores m priorities_down (length m.processing))
  pop_job-order n m enough = drain_from n [] priorities_down m refl tt tt down-Distinct enough
