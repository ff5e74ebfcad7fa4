-- ===== src/Locks/Barrier.antt =====
-- src/common/barrier.cpp: the threads that wait at a `Barrier`, and one that releases them, as steps.
use lu.Base.{ℕ, ◌+◌, ◌-◌, ◌^◌, ◌<◌, ◌≤◌, ◌≡◌, refl, u32, Bool, true, false, arith}

-- `m_counter`, the threads inside `wait`, whether `release` is between its loop and its store, and
-- how often a thread has left `wait` and `release` has stored 0.
pub record Barrier : Type 0 where
  pub counter : ℕ
  pub waiting : ℕ
  pub is_releasing : Bool
  pub passed : ℕ
  pub stores : ℕ

abbrev pub new_barrier : Barrier
new_barrier = record { counter = 0; waiting = 0; is_releasing = false; passed = 0; stores = 0 }

-- `fetch_add` of `wait`
unfoldable pub arrive : Barrier → Barrier
arrive s = record s { counter = u32 (s.counter + 1); waiting = s.waiting + 1 }

-- The end of `wait`
unfoldable pub leave : Barrier → Barrier
leave s = record s { waiting = s.waiting - 1; passed = s.passed + 1 }

-- The store of `release`
unfoldable pub let_go : Barrier → Barrier
let_go s = record s { counter = 0; is_releasing = false; stores = s.stores + 1 }

-- The loads that see another value change nothing and are no steps. There are fewer than 2 ^ 32
-- threads.
pub data BarrierStep (s : Barrier) : Barrier → Type 0 where
  arrives : s.waiting + 1 < 2 ^ 32 → BarrierStep s (arrive s)
  leaves : 0 < s.waiting → s.counter ≡ 0 → BarrierStep s (leave s)
  sees_all :
      (expected : ℕ)
      → s.is_releasing ≡ false
      → expected ≡ s.counter
      → BarrierStep s (record s { is_releasing = true })
  lets_go : s.is_releasing ≡ true → BarrierStep s (let_go s)

pub data BarrierReaches : Barrier → Type 0 where
  nobody : BarrierReaches new_barrier
  one_more : {s t : Barrier} → BarrierReaches s → BarrierStep s t → BarrierReaches t

-- No more are counted than wait; before the first store all of them are, and none has left.
record Holds (s : Barrier) : Type 0 where
  below : s.counter ≤ s.waiting
  all_counted : s.stores ≡ 0 → s.counter ≡ s.waiting
  none_passed : s.stores ≡ 0 → s.passed ≡ 0

BarrierStep-Holds : {s t : Barrier} → BarrierStep s t → Holds s → Holds t
unfolding arrive leave let_go
BarrierStep-Holds {s} (arrives h) v =
    let small : u32 (s.counter + 1) ≡ s.counter + 1 = omega (arith, h, v.below) in
    record {
      below = omega (arith, small, v.below);
      all_counted = λ e. omega (arith, small, v.all_counted e);
      none_passed = v.none_passed;
    }
BarrierStep-Holds {s} (leaves h e) v = record {
  below = omega (arith, e);
  all_counted = λ z. omega (arith, v.all_counted z, e, h);
  none_passed = λ z. omega (arith, v.all_counted z, e, h);
}
BarrierStep-Holds (sees_all expected i e) v = record {
  below = v.below;
  all_counted = v.all_counted;
  none_passed = v.none_passed;
}
BarrierStep-Holds (lets_go i) v = record {
  below = omega arith;
  all_counted = λ z. omega (arith, z);
  none_passed = λ z. omega (arith, z);
}

BarrierReaches-Holds : {s : Barrier} → BarrierReaches s → Holds s
BarrierReaches-Holds nobody = record {
  below = omega arith;
  all_counted = λ z. refl;
  none_passed = λ z. refl;
}
BarrierReaches-Holds (one_more r x) = BarrierStep-Holds x (BarrierReaches-Holds r)

-- In every state that the threads at a `Barrier` can reach, `m_counter` is at most the number of
-- threads inside `wait`, so the loop of `release` ends only when at least as many as it expects
-- wait; and no thread has left `wait` before `release` has stored 0.
pub barrier-holds :
    {s : Barrier} → BarrierReaches s → (s.counter ≤ s.waiting) × (s.stores ≡ 0 → s.passed ≡ 0)
barrier-holds r = let v = BarrierReaches-Holds r in (v.below, v.none_passed)
