-- ===== src/Queues/Fifo.antt =====
-- The queue as a bounded list: first in, first out, while the 32-bit counters wrap around.
use lu.Base.{
  ℕ, suc, ◌+◌, ◌*◌, ◌%◌, ◌^◌, ◌≤◌, ◌<◌, ◌≡◌, ◌≢◌, refl, ap, subst, sym, ◌∙◌, ℕ_discrete, List, [],
  ◌∷◌, ◌++◌, length, length-append, length-set, length-replicate, get_or, set, get_or-set_self,
  get_or-set_ne, get_or-append, if◌then◌else◌, u32, sub_u32, ◌==◌, arith,
}
use native.Mathlib.Nat.{mod-lt, add-mod_right}
use lu.Queues.Rounds.{mod_apart, mod_word, get_or-append_left, get_or-replicate}
use lu.Queues.Index.{remap_index}
use lu.Queues.Slots.{SlotOps, SlotLaws}
use lu.Queues.Ring.{Config, slot_of, Queue, new}

-- Counters that are taken modulo 2^32 keep their slots, and the slots of one round are all different.
pub record IsConfig (c : Config) : Type 0 where
  pub positive : 0 < c.queue_size
  pub small : c.queue_size < 2 ^ 31
  pub rounds : ℕ
  pub whole_rounds : 2 ^ 32 ≡ c.queue_size * rounds
  pub in_range : (i : ℕ) → i < c.queue_size → remap_index c.shuffle_bits i < c.queue_size
  pub apart :
      (i j : ℕ)
      → i < c.queue_size
      → j < c.queue_size
      → remap_index c.shuffle_bits i ≡ remap_index c.shuffle_bits j
      → i ≡ j

module _ (o : SlotOps) (l : SlotLaws o) (c : Config) (k : IsConfig c) where
  abbrev pub slot_at : Queue o c → ℕ → o.Slot
  slot_at q n = get_or q.slots (slot_of c n) o.fresh

  -- The queue holds the given items, first the one that leaves first. `turn` is the tail without
  -- wrap-around.
  pub record Represents (items : List o.Item) (q : Queue o c) : Type 0 where
    pub turn : ℕ
    pub tail_is : q.tail ≡ turn % 2 ^ 32
    pub head_is : q.head ≡ (turn + length items) % 2 ^ 32
    pub fits : length items ≤ c.queue_size
    pub sized : length q.slots ≡ c.queue_size
    pub full :
        (i : ℕ) (d : o.Item) → i < length items → l.Holds (get_or items i d) (slot_at q (turn + i))
    pub vacant : (i : ℕ) → length items ≤ i → i < c.queue_size → l.IsEmpty (slot_at q (turn + i))

  slot_word : (n : ℕ) → slot_of c (n % 2 ^ 32) ≡ slot_of c n
  slot_word n = ap (remap_index c.shuffle_bits) (mod_word c.queue_size k.rounds n k.whole_rounds)

  slot-lt : (n : ℕ) → slot_of c n < c.queue_size
  slot-lt n = k.in_range (n % c.queue_size) (mod-lt n k.positive)

  slot_apart :
      (t i j : ℕ)
      → i < c.queue_size
      → j < c.queue_size
      → i ≢ j
      → slot_of c (t + i) ≢ slot_of c (t + j)
  slot_apart t i j h h' ne e = ne (
      mod_apart t i j c.queue_size h h'
        (k.apart _ _ (mod-lt (t + i) k.positive) (mod-lt (t + j) k.positive) e))

  pub new-Represents : Represents [] (new o c)
  unfolding new
  new-Represents = record {
    turn = 0;
    tail_is = refl;
    head_is = refl;
    fits = omega arith;
    sized = length-replicate c.queue_size o.fresh;
    full = λ i d h. absurd (omega (arith, h));
    vacant =
        λ i h h'. subst l.IsEmpty (sym (get_or-replicate c.queue_size _ o.fresh)) l.fresh-IsEmpty;
  }

  -- The number of items, as the counters give it.
  pub count_is :
      {items : List o.Item} {q : Queue o c}
      → Represents items q
      → sub_u32 q.head q.tail ≡ length items
  count_is {items} {q} r = omega (arith, r.tail_is, r.head_is, r.fits, k.small)

  unfoldable pub pushed : o.Slot → Queue o c → Queue o c
  pushed s q = record q { head = u32 (q.head + 1); slots = set q.slots (slot_of c q.head) s }

  unfoldable pub popped : o.Slot → Queue o c → Queue o c
  popped s q = record q { tail = u32 (q.tail + 1); slots = set q.slots (slot_of c q.tail) s }

  module _ {items : List o.Item} {q : Queue o c} (r : Represents items q) where
    pub head_slot : slot_of c q.head ≡ slot_of c (r.turn + length items)
    head_slot = ap (slot_of c) r.head_is ∙ slot_word (r.turn + length items)

    pub tail_slot : slot_of c q.tail ≡ slot_of c (r.turn + 0)
    tail_slot = ap (slot_of c) r.tail_is ∙ (slot_word r.turn ∙ ap (slot_of c) (omega arith))

    -- After a write at one place of the round, that place has the new slot, the others theirs.
    written :
        (i j : ℕ) (s : o.Slot)
        → i < c.queue_size
        → j < c.queue_size
        → get_or (set q.slots (slot_of c (r.turn + i)) s) (slot_of c (r.turn + j)) o.fresh
          ≡ (if i == j then s else slot_at q (r.turn + j))
    written i j s h h' = elim (ℕ_discrete i j) [
      | yes e ↦ ground (
        arith,
        ap (slot_of c) (ap (λ n. r.turn + n) e),
        get_or-set_self q.slots (slot_of c (r.turn + i)) s o.fresh
            (omega (arith, slot-lt (r.turn + i), r.sized)),
      )
      | no ne ↦ ground (
        arith,
        ne,
        get_or-set_ne q.slots (slot_of c (r.turn + i)) (slot_of c (r.turn + j)) s o.fresh
            (slot_apart r.turn i j h h' ne),
      )
    ]

    pushed_slot :
        (s : o.Slot) (i : ℕ)
        → length items < c.queue_size
        → i < c.queue_size
        → slot_at (pushed s q) (r.turn + i)
          ≡ (if length items == i then s else slot_at q (r.turn + i))
    unfolding pushed
    pushed_slot s i room h =
        ap (λ n. get_or (set q.slots n s) (slot_of c (r.turn + i)) o.fresh) head_slot
        ∙ written (length items) i s room h

    popped_slot :
        (s : o.Slot) (i : ℕ)
        → i < c.queue_size
        → slot_at (popped s q) (r.turn + i) ≡ (if 0 == i then s else slot_at q (r.turn + i))
    unfolding popped
    popped_slot s i h =
        ap (λ n. get_or (set q.slots n s) (slot_of c (r.turn + i)) o.fresh) tail_slot
        ∙ written 0 i s k.positive h

    pushed_full :
        (x : o.Item) (s : o.Slot)
        → length items < c.queue_size
        → l.Holds x s
        → (i : ℕ) (d : o.Item) → i < length (items ++ x ∷ [])
        → l.Holds (get_or (items ++ x ∷ []) i d) (slot_at (pushed s q) (r.turn + i))
    pushed_full x s room holds i d h = elim (ℕ_discrete (length items) i) [
      | yes e ↦
          subst (λ y. l.Holds y (slot_at (pushed s q) (r.turn + i)))
            (sym (
              ap (λ n. get_or (items ++ x ∷ []) n d)
                (let e0 : i ≡ length items + 0 = omega (arith, e) in e0)
              ∙ get_or-append items (x ∷ []) 0 d))
            (subst (l.Holds x)
              (sym (ground (arith, e, pushed_slot s i room (omega (arith, e, room))))) holds)
      | no ne ↦
          let before : i < length items = omega (arith, h, ne, length-append items (x ∷ [])) in
          subst (λ y. l.Holds y (slot_at (pushed s q) (r.turn + i)))
            (sym (get_or-append_left items (x ∷ []) i d before))
            (subst (l.Holds (get_or items i d))
              (sym (ground (arith, ne, pushed_slot s i room (omega (arith, before, room)))))
              (r.full i d before))
    ]

    pub pushed-Represents :
        (x : o.Item) (s : o.Slot)
        → length items < c.queue_size
        → l.Holds x s
        → Represents (items ++ x ∷ []) (pushed s q)
    unfolding pushed
    pushed-Represents x s room holds = record {
      turn = r.turn;
      tail_is = r.tail_is;
      head_is = omega (arith, r.head_is, length-append items (x ∷ []));
      fits = omega (arith, room, length-append items (x ∷ []));
      sized = length-set q.slots (slot_of c q.head) s ∙ r.sized;
      full = pushed_full x s room holds;
      vacant = λ i h h'.
          let after_it : length items < i = omega (arith, h, length-append items (x ∷ [])) in
          subst l.IsEmpty (sym (ground (arith, after_it, pushed_slot s i room h')))
            (r.vacant i (omega (arith, after_it)) h');
    }

  next_turn : (t i : ℕ) → t + 1 + i ≡ t + suc i
  next_turn t i = omega arith

  popped_vacant :
      (x : o.Item) (items : List o.Item) (q : Queue o c) (s : o.Slot)
      → (r : Represents (x ∷ items) q) → l.IsEmpty s
      → (i : ℕ) → length items ≤ i
      → i < c.queue_size
      → l.IsEmpty (slot_at (popped s q) (r.turn + 1 + i))
  popped_vacant x items q s r e i h h' = elim (ℕ_discrete (suc i) c.queue_size) [
    | yes last ↦
        let round : slot_of c (r.turn + 1 + i) ≡ slot_of c (r.turn + 0) =
          ap (remap_index c.shuffle_bits) (
            ap (λ n. n % c.queue_size)
              (let e1 : r.turn + 1 + i ≡ (r.turn + 0) + c.queue_size = omega (arith, last) in e1)
            ∙ add-mod_right (r.turn + 0) c.queue_size) in
        subst l.IsEmpty
          (sym (
            ap (λ n. get_or (popped s q).slots n o.fresh) round
            ∙ (let first = popped_slot r s 0 k.positive in ground (arith, first))))
          e
    | no ne ↦
        let later : suc i < c.queue_size = omega (arith, h', ne) in
        subst (λ n. l.IsEmpty (slot_at (popped s q) n)) (sym (next_turn r.turn i))
          (subst l.IsEmpty (sym (ground (arith, popped_slot r s (suc i) later)))
            (r.vacant (suc i) (omega (arith, h)) later))
  ]

  pub popped-Represents :
      (x : o.Item) (items : List o.Item) (q : Queue o c) (s : o.Slot)
      → Represents (x ∷ items) q
      → l.IsEmpty s
      → Represents items (popped s q)
  unfolding popped
  popped-Represents x items q s r e = record {
    turn = r.turn + 1;
    tail_is = omega (arith, r.tail_is);
    head_is = omega (arith, r.head_is);
    fits = omega (arith, r.fits);
    sized = length-set q.slots (slot_of c q.tail) s ∙ r.sized;
    full = λ i d h.
        subst (λ n. l.Holds (get_or items i d) (slot_at (popped s q) n)) (sym (next_turn r.turn i))
          (subst (l.Holds (get_or items i d))
            (sym (ground (arith, popped_slot r s (suc i) (omega (arith, h, r.fits)))))
            (r.full (suc i) d (omega (arith, h))));
    vacant = popped_vacant x items q s r e;
  }
