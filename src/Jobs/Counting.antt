-- ===== src/Jobs/Counting.antt =====
-- Counting the jobs in the manager's lists, and the deletions among its events.
use lu.Base.{
  ℕ, ◌+◌, ◌<◌, ◌≡◌, refl, ◌==◌, Bool, true, false, Bool-cases, inl, inr, if◌then◌else◌, List, [],
  ◌∷◌, ◌++◌, map, some, arith,
}
use lu.Jobs.Types.{
  Priority, low_pausable, low, normal, high, dedicated, WorkItem, JobManager, Event, freed, find,
  erase_first, update_first, count, has_job, set_queue, priorities,
}
use lu.Jobs.Manager.{abort, clear_queue, clear_queues, abort_all}

module _ {A : Type 0} (p : A → Bool) where
  pub count-append : (xs ys : List A) → count p (xs ++ ys) ≡ count p xs + count p ys
  unfolding count
  count-append [] ys = omega arith
  count-append (x ∷ xs) ys = omega (arith, count-append xs ys)

  pub count-erase_first :
      (q : A → Bool) (xs : List A) (x : A)
      → find q xs ≡ some x
      → count p xs ≡ (if p x then 1 else 0) + count p (erase_first q xs)
  unfolding count find erase_first
  count-erase_first q [] x e = absurd (ground (arith, e))
  count-erase_first q (y ∷ ys) x e = elim (Bool-cases (q y)) [
    | inl h ↦ ground (arith, h, e)
    | inr h ↦ ground (arith, h, e, count-erase_first q ys x)
  ]

  pub count-find : (xs : List A) (x : A) → find p xs ≡ some x → p x ≡ true
  unfolding find
  count-find [] x e = absurd (ground (arith, e))
  count-find (y ∷ ys) x e = elim (Bool-cases (p y)) [
    | inl h ↦ ground (arith, h, e)
    | inr h ↦ ground (arith, h, e, count-find ys x)
  ]

  pub found-count : (xs : List A) → 0 < count p xs → (x : A) × (find p xs ≡ some x)
  unfolding find count
  found-count [] h = absurd (omega arith)
  found-count (y ∷ ys) h = elim (Bool-cases (p y)) [
    | inl e ↦ (y, ground (arith, e))
    | inr e ↦ let (x, found) = found-count ys (ground (arith, e)) in (x, ground (arith, e, found))
  ]

  pub count-map :
      (f : A → A) → ((x : A) → p (f x) ≡ p x) → (xs : List A) → count p (map f xs) ≡ count p xs
  unfolding count
  count-map f e [] = refl
  count-map f e (x ∷ xs) = rw (e x, count-map f e xs) refl

  pub count-update_first :
      (q : A → Bool) (f : A → A)
      → ((x : A) → p (f x) ≡ p x)
      → (xs : List A) → count p (update_first q f xs) ≡ count p xs
  unfolding count update_first
  count-update_first q f e [] = refl
  count-update_first q f e (x ∷ xs) = elim (Bool-cases (q x)) [
    | inl h ↦ ground (arith, h, e x)
    | inr h ↦ ground (arith, h, count-update_first q f e xs)
  ]

-- How often a job stands in a list of items, and in the queues.
abbrev pub occurs : ℕ → List WorkItem → ℕ
occurs job items = count (has_job job) items

abbrev pub pending : ℕ → JobManager → ℕ
pending job m =
    occurs job (m.job_queue low_pausable)
    + occurs job (m.job_queue low)
    + occurs job (m.job_queue normal)
    + occurs job (m.job_queue high)
    + occurs job (m.job_queue dedicated)

pub pending-set_queue :
    (job : ℕ) (m : JobManager) (p : Priority) (items : List WorkItem)
    → pending job (set_queue m p items) + occurs job (m.job_queue p)
      ≡ pending job m + occurs job items
pending-set_queue job m low_pausable items = omega arith
pending-set_queue job m low items = omega arith
pending-set_queue job m normal items = omega arith
pending-set_queue job m high items = omega arith
pending-set_queue job m dedicated items = omega arith

-- How often a job is deleted.
abbrev pub is_freed : ℕ → Event → Bool
is_freed job (freed j) = j == job
is_freed job _ = false

abbrev pub deletions : ℕ → List Event → ℕ
deletions job es = count (is_freed job) es

deletions-abort : (job : ℕ) (w : WorkItem) → deletions job (abort w) ≡ 0
unfolding abort count
deletions-abort job w = ground arith

pub deletions-clear_queue :
    (job : ℕ) (ws : List WorkItem) → deletions job (clear_queue ws) ≡ occurs job ws
unfolding clear_queue count
deletions-clear_queue job [] = refl
deletions-clear_queue job (w ∷ ws) = ground (
  arith,
  count-append (is_freed job) (abort w) (freed w.job ∷ clear_queue ws),
  deletions-abort job w,
  deletions-clear_queue job ws,
)

pub deletions-abort_all : (job : ℕ) (ws : List WorkItem) → deletions job (abort_all ws) ≡ 0
unfolding abort_all count
deletions-abort_all job [] = refl
deletions-abort_all job (w ∷ ws) = ground (
  arith,
  count-append (is_freed job) (abort w) (abort_all ws),
  deletions-abort job w,
  deletions-abort_all job ws,
)

deletions-queues_step :
    (job : ℕ) (p : Priority) (ps : List Priority) (m : JobManager)
    → deletions job (clear_queues (p ∷ ps) m)
      ≡ occurs job (m.job_queue p) + deletions job (clear_queues ps m)
unfolding clear_queues
deletions-queues_step job p ps m = omega (
  arith,
  count-append (is_freed job) (clear_queue (m.job_queue p)) (clear_queues ps m),
  deletions-clear_queue job (m.job_queue p),
)

pub deletions-clear_queues :
    (job : ℕ) (m : JobManager) → deletions job (clear_queues priorities m) ≡ pending job m
unfolding clear_queues count
deletions-clear_queues job m = omega (
  arith,
  deletions-queues_step job low_pausable (low ∷ normal ∷ high ∷ dedicated ∷ []) m,
  deletions-queues_step job low (normal ∷ high ∷ dedicated ∷ []) m,
  deletions-queues_step job normal (high ∷ dedicated ∷ []) m,
  deletions-queues_step job high (dedicated ∷ []) m,
  deletions-queues_step job dedicated [] m,
)
