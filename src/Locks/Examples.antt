-- ===== src/Locks/Examples.antt =====
-- The theorems on the locks, and a run of the barrier, with two threads.
use lu.Base.{◌+◌, ◌<◌, ◌≤◌, ◌^◌, ◌≡◌, refl, true, false, [], ◌∷◌, length, arith}
use lu.Locks.Ticket.{
  Holder, TicketSpinlock, unlocked, take_ticket, is_turn, takes, enters, Reaches, here, then_step,
}
use lu.Locks.Unfair.{
  UnfairSpinlock, exchange, UnfairReaches, at_start, step_on, sees_free, exchanges,
  unfair_lock-inside,
}
use lu.Locks.Barrier.{
  Barrier, BarrierReaches, nobody, one_more, arrive, leave, let_go, arrives, leaves, sees_all,
  lets_go,
}
use lu.Locks.Exclusion.{OnlyFirst, lock-OnlyFirst, lock-first_turn}

abbrev two : TicketSpinlock
two = take_ticket (take_ticket unlocked)

abbrev first : Holder
first = record { number = 0; inside = false }

abbrev second : Holder
second = record { number = 1; inside = false }

two_line : two.line ≡ first ∷ second ∷ []
unfolding take_ticket
two_line = refl

one_small : length (take_ticket unlocked).line + 1 < 2 ^ 32
unfolding take_ticket
one_small = omega arith

two-Reaches : Reaches two
two-Reaches = then_step (then_step here (takes (omega arith))) (takes one_small)

lock-first_turn_example : is_turn two 0 ≡ true
lock-first_turn_example = lock-first_turn first (second ∷ []) two-Reaches two_line

-- The first thread is inside, the second one waits.
abbrev first_inside : TicketSpinlock
first_inside = record two { line = record first { inside = true } ∷ second ∷ [] }

first_inside-Reaches : Reaches first_inside
first_inside-Reaches = then_step two-Reaches (
    enters [] (second ∷ []) first two_line
      (lock-first_turn first (second ∷ []) two-Reaches two_line))

lock-OnlyFirst_example : OnlyFirst first_inside.line
lock-OnlyFirst_example = lock-OnlyFirst first_inside-Reaches

-- One thread inside the unfair lock, another one that saw it free before.
abbrev one_inside : UnfairSpinlock
one_inside = exchange (record { lock = 0; between = 2; inside = 0 })

one_inside-UnfairReaches : UnfairReaches one_inside
one_inside-UnfairReaches =
    step_on (step_on (step_on at_start (sees_free refl)) (sees_free refl)) (exchanges (omega arith))

unfair_lock-inside_example : (one_inside.inside ≡ one_inside.lock) × (one_inside.lock ≤ 1)
unfair_lock-inside_example = unfair_lock-inside one_inside-UnfairReaches

-- Two threads wait and are released; one leaves and waits again before the other one has seen the 0.
-- Then the counter is 1 with two threads inside: none can leave, and `release` of two never ends.
abbrev again_at_barrier : Barrier
again_at_barrier = record { counter = 1; waiting = 2; is_releasing = false; passed = 1; stores = 1 }

again_at_barrier-BarrierReaches : BarrierReaches again_at_barrier
unfolding arrive leave let_go
again_at_barrier-BarrierReaches =
    let both = one_more (one_more nobody (arrives (omega arith))) (arrives (omega arith)) in
    let released = one_more (one_more both (sees_all 2 refl refl)) (lets_go refl) in
    one_more (one_more released (leaves (omega arith) refl)) (arrives (omega arith))
