-- ===== src/Queues/Slots.antt =====
-- include/queue/Queue.h: one slot of a queue, and what a push and a pop do to it once they have its
-- index. A slot that is not ready makes the loop spin until another thread changes it: `none`.
use lu.Base.{ℕ, ◌==◌, ◌≡◌, ◌≢◌, refl, Option, none, some, if◌then◌else◌, arith}

-- Both kinds of slots: what they hold, a push, a pop, and the slot of a new queue.
pub record SlotOps : Type 1 where
  pub Slot : Type 0
  pub Item : Type 0
  pub fresh : Slot
  pub do_push : Item → Slot → Option Slot
  pub do_pop : Slot → Option (Slot × Item)

-- What a queue relies on: a push into an empty slot and a pop from a full one go through at once.
pub record SlotLaws (o : SlotOps) : Type 1 where
  pub Holds : o.Item → o.Slot → Type 0
  pub IsEmpty : o.Slot → Type 0
  pub fresh-IsEmpty : IsEmpty o.fresh
  pub Fits : o.Item → Type 0
  pub push_empty :
      (x : o.Item) (s : o.Slot)
      → Fits x
      → IsEmpty s
      → (t : o.Slot) × (o.do_push x s ≡ some t) × Holds x t
  pub pop_full :
      (x : o.Item) (s : o.Slot) → Holds x s → (t : o.Slot) × (o.do_pop s ≡ some (t, x)) × IsEmpty t

-- `QueueBase::State`
pub data State : Type 0 where
  empty storing stored loading : State

-- A slot of `AtomicQueue2`: `m_states[i]` and `m_elements[i]`.
pub record AnySlot (A : Type 0) : Type 0 where
  pub state : State
  pub element : A

-- `do_push_any`: the state goes from EMPTY to STORED, over STORING.
unfoldable pub do_push_any : {A : Type 0} → A → AnySlot A → Option (AnySlot A)
do_push_any x s = elim s.state [ empty ↦ some (record { state = stored; element = x }) | _ ↦ none ]

-- `do_pop_any`: from STORED to EMPTY, over LOADING. The element stays, moved from.
unfoldable pub do_pop_any : {A : Type 0} → AnySlot A → Option (AnySlot A × A)
do_pop_any s = elim s.state [ stored ↦ some (record s { state = empty }, s.element) | _ ↦ none ]

-- `do_push_atomic<T, NIL>` and `do_pop_atomic<T, NIL>`: an empty slot holds NIL.
unfoldable pub do_push_atomic : ℕ → ℕ → ℕ → Option ℕ
do_push_atomic nil x s = if s == nil then some x else none

unfoldable pub do_pop_atomic : ℕ → ℕ → Option (ℕ × ℕ)
do_pop_atomic nil s = if s == nil then none else some (nil, s)

-- The slots of `AtomicQueue2`; `blank` is `T{}`.
abbrev pub any_slots : (A : Type 0) → A → SlotOps
any_slots A blank = record {
  Slot = AnySlot A;
  Item = A;
  fresh = record { state = empty; element = blank };
  do_push = do_push_any;
  do_pop = do_pop_any;
}

-- The slots of `AtomicQueue`.
abbrev pub atomic_slots : ℕ → SlotOps
atomic_slots nil = record {
  Slot = ℕ;
  Item = ℕ;
  fresh = nil;
  do_push = do_push_atomic nil;
  do_pop = do_pop_atomic nil;
}

-- A push into an empty slot stores the element, and a pop from a full one gives it.
pub do_push_any-empty :
    {A : Type 0} (x : A) (s : AnySlot A)
    → s.state ≡ empty
    → do_push_any x s ≡ some (record { state = stored; element = x })
unfolding do_push_any
do_push_any-empty x s e = rw e refl

pub do_pop_any-full :
    {A : Type 0} (x : A) (s : AnySlot A)
    → s ≡ record { state = stored; element = x }
    → do_pop_any s ≡ some (record { state = empty; element = x }, x)
unfolding do_pop_any
do_pop_any-full x s e = rw e refl

abbrev pub any_laws : (A : Type 0) (blank : A) → SlotLaws (any_slots A blank)
any_laws A blank = record {
  Holds = λ x s. s ≡ record { state = stored; element = x };
  IsEmpty = λ s. s.state ≡ empty;
  fresh-IsEmpty = refl;
  Fits = λ x. Unit;
  push_empty = λ x s f e. (record { state = stored; element = x }, do_push_any-empty x s e, refl);
  pop_full = λ x s h. (record { state = empty; element = x }, do_pop_any-full x s h, refl);
}

pub do_push_atomic-empty : (nil x s : ℕ) → s ≡ nil → do_push_atomic nil x s ≡ some x
unfolding do_push_atomic
do_push_atomic-empty nil x s e = ground (arith, e)

pub do_pop_atomic-full : (nil x s : ℕ) → s ≡ x → x ≢ nil → do_pop_atomic nil s ≡ some (nil, x)
unfolding do_pop_atomic
do_pop_atomic-full nil x s e ne = ground (arith, e, ne)

-- An element that is NIL cannot be stored.
abbrev pub atomic_laws : (nil : ℕ) → SlotLaws (atomic_slots nil)
atomic_laws nil = record {
  Holds = λ x s. (s ≡ x) × (x ≢ nil);
  IsEmpty = λ s. s ≡ nil;
  fresh-IsEmpty = refl;
  Fits = λ x. x ≢ nil;
  push_empty = λ x s f e. (x, do_push_atomic-empty nil x s e, (refl, f));
  pop_full = λ x s h. (nil, do_pop_atomic-full nil x s h.0 h.1, refl);
}
