-- ===== src/Queues/Refinement.antt =====
-- `try_push` and `try_pop` on a queue of a few items: a bounded first-in first-out list.
use lu.Base.{
  ◌<◌, ◌≡◌, refl, subst, sym, true, false, dec_lt, List, [], ◌∷◌, ◌++◌, length, get_or, none, some,
  ◌==◌, ◌⊎◌, inl, inr, arith,
}
use lu.Queues.Slots.{SlotOps, SlotLaws}
use lu.Queues.Ring.{
  Config, slot_of, Queue, push, pop, try_push, try_pop, was_size, was_full, was_empty,
}
use lu.Queues.Fifo.{
  IsConfig, Represents, count_is, pushed, popped, head_slot, tail_slot, pushed-Represents,
  popped-Represents,
}

module _ (o : SlotOps) (l : SlotLaws o) (c : Config) (k : IsConfig c) where
  push_by :
      (x : o.Item) (q : Queue o c) (s : o.Slot)
      → o.do_push x (get_or q.slots (slot_of c q.head) o.fresh) ≡ some s
      → push o c x q ≡ some (pushed o l c k s q)
  unfolding push pushed
  push_by x q s e = rw (push, e) refl

  pop_by :
      (x : o.Item) (q : Queue o c) (s : o.Slot)
      → o.do_pop (get_or q.slots (slot_of c q.tail) o.fresh) ≡ some (s, x)
      → pop o c q ≡ some (popped o l c k s q, x)
  unfolding pop popped
  pop_by x q s e = rw (pop, e) refl

  pub push_room :
      {items : List o.Item} {q : Queue o c} (x : o.Item)
      → Represents o l c k items q
      → l.Fits x
      → length items < c.queue_size
      → (q' : Queue o c) × (push o c x q ≡ some q') × Represents o l c k (items ++ x ∷ []) q'
  push_room {items} {q} x r f room =
      let empty_head : l.IsEmpty (get_or q.slots (slot_of c q.head) o.fresh) =
        subst (λ n. l.IsEmpty (get_or q.slots n o.fresh)) (sym (head_slot o l c k r))
          (r.vacant (length items) (omega arith) room) in
      let (s, e, holds) = l.push_empty x _ f empty_head in
      (pushed o l c k s q, push_by x q s e, pushed-Represents o l c k r x s room holds)

  pop_first :
      {items : List o.Item} {q : Queue o c} (x : o.Item)
      → Represents o l c k (x ∷ items) q
      → (q' : Queue o c) × (pop o c q ≡ some (q', x)) × Represents o l c k items q'
  pop_first {items} {q} x r =
      let full_tail : l.Holds x (get_or q.slots (slot_of c q.tail) o.fresh) =
        subst (λ n. l.Holds x (get_or q.slots n o.fresh)) (sym (tail_slot o l c k r))
          (r.full 0 x (omega arith)) in
      let (s, e, vacated) = l.pop_full x _ full_tail in
      (popped o l c k s q, pop_by x q s e, popped-Represents o l c k x items q s r vacated)

  -- On a queue that holds some items, `try_push` with room makes the item the last one and says
  -- true; on a full queue it changes nothing and says false. It never spins. The queue's
  -- constants keep the slots of one round apart, the slots fulfil their laws, and the item can be
  -- stored.
  pub try_push-last :
      (x : o.Item) (items : List o.Item) (q : Queue o c)
      → l.Fits x
      → Represents o l c k items q
      → ((length items < c.queue_size)
          × (q' : Queue o c) × (try_push o c x q ≡ some (q', true))
          × Represents o l c k (items ++ x ∷ []) q')
        ⊎ ((length items ≡ c.queue_size) × (try_push o c x q ≡ some (q, false)))
  unfolding try_push
  try_push-last x items q f r = elim (dec_lt (length items) c.queue_size) [
    | yes room ↦
        let (q', e, after_push) = push_room x r f room in
        inl (room, q', ground (arith, count_is o l c k r, k.small, room, e), after_push)
    | no full ↦
        inr (omega (arith, full, r.fits), ground (arith, count_is o l c k r, k.small, full, r.fits))
  ]

  -- What `try_pop` leaves: the first item comes out, or none and nothing changes.
  abbrev pub Popped : List o.Item → Queue o c → Type 0
  Popped [] q = try_pop o c q ≡ some (q, none)
  Popped (x ∷ items) q =
      (q' : Queue o c) × (try_pop o c q ≡ some (q', some x)) × Represents o l c k items q'

  -- On a queue that holds some items, `try_pop` gives the first one and keeps the others in
  -- order; on an empty queue it changes nothing and says false. It never spins. The queue's
  -- constants keep the slots of one round apart, and the slots fulfil their laws.
  pub try_pop-first :
      (items : List o.Item) (q : Queue o c) → Represents o l c k items q → Popped items q
  unfolding try_pop
  try_pop-first [] q r = ground (arith, count_is o l c k r)
  try_pop-first (x ∷ items) q r =
      let (q', e, after_pop) = pop_first x r in
      (q', ground (arith, count_is o l c k r, k.small, r.fits, e), after_pop)

  -- On a queue that holds some items, `was_size` is their number, `was_empty` says whether it is
  -- 0, and `was_full` whether it is the queue's size. The queue's constants keep the slots of one
  -- round apart, and the slots fulfil their laws.
  pub was_size-length :
      (items : List o.Item) (q : Queue o c)
      → Represents o l c k items q
      → (was_size o c q ≡ length items)
        × (was_empty o c q ≡ (length items == 0))
        × (was_full o c q ≡ (length items == c.queue_size))
  unfolding was_size was_empty was_full
  was_size-length items q r = (
    ground (arith, count_is o l c k r, k.small, r.fits),
    ground (arith, count_is o l c k r, k.small, r.fits),
    ground (arith, count_is o l c k r, k.small, r.fits, k.positive),
  )
