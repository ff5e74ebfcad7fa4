-- ===== src/Queues/Examples.antt =====
-- The theorems on queues at a queue of eight slots whose indices are shuffled.
use lu.Base.{ℕ, ◌<◌, ◌≡◌, ◌==◌, ◌⊎◌, ◌^◌, refl, true, false, [], ◌∷◌, some, arith}
use lu.Queues.Index.{next_power_of_two, remap_index}
use lu.Queues.Slots.{SlotOps, SlotLaws, any_slots, any_laws}
use lu.Queues.Ring.{Config, config_of, Queue, new, push, try_push, was_size, was_empty, was_full}
use lu.Queues.Fifo.{IsConfig, Represents, new-Represents}
use lu.Queues.Refinement.{push_room, try_push-last, Popped, try_pop-first, was_size-length}
use lu.Queues.Shuffle.{remap_index-remap_index}
use lu.Queues.Sizes.{config_of-IsConfig}

-- Five elements asked for, two to a cache line.
abbrev eight : Config
eight = config_of true 5 2

rounded : next_power_of_two 5 ≡ 2 ^ 3
unfolding next_power_of_two
rounded = refl

eight-IsConfig : IsConfig eight
eight-IsConfig = config_of-IsConfig 5 2 3 rounded (omega arith)

config_of-IsConfig_example : IsConfig (config_of true 5 2)
config_of-IsConfig_example = config_of-IsConfig 5 2 3 rounded (omega arith)

abbrev slots : SlotOps
slots = any_slots ℕ 0

abbrev laws : SlotLaws slots
laws = any_laws ℕ 0

abbrev empty_queue : Queue slots eight
empty_queue = new slots eight

empty-Represents : Represents slots laws eight eight-IsConfig [] empty_queue
empty-Represents = new-Represents slots laws eight eight-IsConfig

size_is : eight.queue_size ≡ 8
unfolding config_of next_power_of_two
size_is = refl

try_push-last_example :
    ((0 < eight.queue_size)
      × (q : Queue slots eight) × (try_push slots eight 7 empty_queue ≡ some (q, true))
      × Represents slots laws eight eight-IsConfig (7 ∷ []) q)
    ⊎ ((0 ≡ eight.queue_size) × (try_push slots eight 7 empty_queue ≡ some (empty_queue, false)))
try_push-last_example =
    try_push-last slots laws eight eight-IsConfig 7 [] empty_queue tt empty-Represents

one_item :
    (q : Queue slots eight) × (push slots eight 7 empty_queue ≡ some q)
    × Represents slots laws eight eight-IsConfig (7 ∷ []) q
one_item = push_room slots laws eight eight-IsConfig 7 empty-Represents tt (omega (arith, size_is))

try_pop-first_example : Popped slots laws eight eight-IsConfig (7 ∷ []) one_item.0
try_pop-first_example = try_pop-first slots laws eight eight-IsConfig (7 ∷ []) one_item.0 one_item.2

was_size-length_example :
    (was_size slots eight one_item.0 ≡ 1)
    × (was_empty slots eight one_item.0 ≡ (1 == 0))
    × (was_full slots eight one_item.0 ≡ (1 == eight.queue_size))
was_size-length_example =
    was_size-length slots laws eight eight-IsConfig (7 ∷ []) one_item.0 one_item.2

remap_index-remap_index_example : remap_index 6 (remap_index 6 100) ≡ 100
remap_index-remap_index_example =
    remap_index-remap_index 6 (λ e. absurd (omega (arith, e))) (omega arith) 100
