-- ===== src/Locks/Unfair.antt =====
-- src/common/spinlock.cpp: `UnfairSpinlock`, its threads as steps.
use lu.Base.{ℕ, ◌+◌, ◌-◌, ◌<◌, ◌≤◌, ◌≡◌, ◌==◌, refl, if◌then◌else◌, ℕ_discrete, arith}

-- `m_lock`, and the threads between the load and the exchange of `lock`, and between `lock` and
-- `unlock`.
pub record UnfairSpinlock : Type 0 where
  pub lock : ℕ
  pub between : ℕ
  pub inside : ℕ

abbrev pub free : UnfairSpinlock
free = record { lock = 0; between = 0; inside = 0 }

-- `m_lock.exchange(1)`: the thread is inside if the old value is 0, else it goes round again.
unfoldable pub exchange : UnfairSpinlock → UnfairSpinlock
exchange s = record {
  lock = 1;
  between = s.between - 1;
  inside = if s.lock == 0 then s.inside + 1 else s.inside;
}

-- `unlock`
unfoldable pub release : UnfairSpinlock → UnfairSpinlock
release s = record s { lock = 0; inside = s.inside - 1 }

-- A thread sees the value 0, exchanges, or leaves.
pub data UnfairStep (s : UnfairSpinlock) : UnfairSpinlock → Type 0 where
  sees_free : s.lock ≡ 0 → UnfairStep s (record s { between = s.between + 1 })
  exchanges : 0 < s.between → UnfairStep s (exchange s)
  releases : 0 < s.inside → UnfairStep s (release s)

pub data UnfairReaches : UnfairSpinlock → Type 0 where
  at_start : UnfairReaches free
  step_on : {s t : UnfairSpinlock} → UnfairReaches s → UnfairStep s t → UnfairReaches t

-- The value of the lock is the number of threads inside.
abbrev Counts : UnfairSpinlock → Type 0
Counts s = (s.inside ≡ s.lock) × (s.lock ≤ 1)

UnfairStep-Counts : {s t : UnfairSpinlock} → UnfairStep s t → Counts s → Counts t
unfolding exchange release
UnfairStep-Counts (sees_free e) c = c
UnfairStep-Counts {s} (exchanges h) c = elim (ℕ_discrete s.lock 0) [
  | yes e ↦ (ground (arith, e, c.0), omega arith)
  | no e ↦ (ground (arith, e, c.0, c.1), omega arith)
]
UnfairStep-Counts {s} (releases h) c = (omega (arith, c.0, c.1, h), omega arith)

-- In every state that the threads of an `UnfairSpinlock` can reach, by seeing the lock free,
-- exchanging its value or leaving, the value of the lock is the number of threads inside, so at
-- most one is.
pub unfair_lock-inside : {s : UnfairSpinlock} → UnfairReaches s → (s.inside ≡ s.lock) × (s.lock ≤ 1)
unfair_lock-inside at_start = (refl, omega arith)
unfair_lock-inside (step_on r x) = UnfairStep-Counts x (unfair_lock-inside r)
