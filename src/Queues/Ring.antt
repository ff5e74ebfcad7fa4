-- ===== src/Queues/Ring.antt =====
-- include/queue/Queue.h, `QueueBase`: the counters and the operations, each run to its end before the
-- next one starts. `none` means that the call spins for ever.
use lu.Base.{
  ℕ, ◌+◌, ◌%◌, ◌^◌, leb, ◌==◌, Bool, true, false, if◌then◌else◌, List, Option, none, some, get_or,
  set, replicate, u32, sub_u32,
}
use lu.Queues.Index.{remap_index, next_power_of_two, index_shuffle_bits}
use lu.Queues.Slots.{SlotOps}

-- `m_queueSize` and `m_shuffleBits` of a queue's class.
pub record Config : Type 0 where
  pub queue_size : ℕ
  pub shuffle_bits : ℕ

-- The constants of a class whose cache line has room for `per_line` elements.
unfoldable pub config_of : Bool → ℕ → ℕ → Config
config_of minimize_contention size per_line = record {
  queue_size = rounded;
  shuffle_bits = index_shuffle_bits minimize_contention rounded per_line;
}
  where
    rounded : ℕ
    rounded = if minimize_contention then next_power_of_two size else size

-- The index of the slot for a counter.
abbrev pub slot_of : Config → ℕ → ℕ
slot_of c n = remap_index c.shuffle_bits (n % c.queue_size)

-- `static_cast<int>(a) >= static_cast<int>(b)` for 32-bit words.
abbrev pub int_geb : ℕ → ℕ → Bool
int_geb a b = leb (u32 (b + 2 ^ 31)) (u32 (a + 2 ^ 31))

module _ (o : SlotOps) (c : Config) where
  pub record Queue : Type 0 where
    pub head : ℕ
    pub tail : ℕ
    pub slots : List o.Slot

  unfoldable pub new : Queue
  new = record { head = 0; tail = 0; slots = replicate c.queue_size o.fresh }

  -- `push`: the head moves first, then the slot is filled.
  unfoldable pub push : o.Item → Queue → Option Queue
  push x q = elim (o.do_push x (get_or q.slots (slot_of c q.head) o.fresh)) [
    | none ↦ none
    | some s ↦ some (record q { head = u32 (q.head + 1); slots = set q.slots (slot_of c q.head) s })
  ]

  unfoldable pub pop : Queue → Option (Queue × o.Item)
  pop q = elim (o.do_pop (get_or q.slots (slot_of c q.tail) o.fresh)) [
    | none ↦ none
    | some (s, x) ↦
        some (record q { tail = u32 (q.tail + 1); slots = set q.slots (slot_of c q.tail) s }, x)
  ]

  -- `try_push` with its answer.
  unfoldable pub try_push : o.Item → Queue → Option (Queue × Bool)
  try_push x q =
      if int_geb (sub_u32 q.head q.tail) c.queue_size
      then some (q, false)
      else elim (push x q) [ none ↦ none | some r ↦ some (r, true) ]

  -- `try_pop`: the answer is false where there is no element.
  unfoldable pub try_pop : Queue → Option (Queue × Option o.Item)
  try_pop q =
      if int_geb 0 (sub_u32 q.head q.tail)
      then some (q, none)
      else elim (pop q) [ none ↦ none | some (r, x) ↦ some (r, some x) ]

  -- `std::max(static_cast<int>(m_head - m_tail), 0)`
  unfoldable pub was_size : Queue → ℕ
  was_size q = if int_geb 0 (sub_u32 q.head q.tail) then 0 else sub_u32 q.head q.tail

  unfoldable pub was_empty : Queue → Bool
  was_empty q = was_size q == 0

  unfoldable pub was_full : Queue → Bool
  was_full q = leb c.queue_size (was_size q)

  abbrev pub capacity : Queue → ℕ
  capacity q = c.queue_size
