-- ===== src/Locks/Exclusion.antt =====
-- A ticket lock lets in one thread at a time, the one that has waited longest.
use lu.Base.{
  ℕ, ◌+◌, ◌^◌, ◌%◌, ◌<◌, ◌≡◌, refl, ap, subst, true, false, List, [], ◌∷◌, ◌++◌, All, length,
  length-append, arith,
}
use lu.Locks.Ticket.{
  Holder, TicketSpinlock, take_ticket, is_turn, unlock, Step, takes, enters, leaves, Reaches, here,
  then_step,
}

abbrev pub Waits : Holder → Type 0
Waits h = h.inside ≡ false

-- Only the first of a line may be inside.
abbrev pub OnlyFirst : List Holder → Type 0
OnlyFirst [] = Unit
OnlyFirst (h ∷ hs) = All Waits hs

-- The tickets of a line go up by one from a number, which is taken modulo 2^32.
abbrev InOrder : ℕ → List Holder → Type 0
InOrder n [] = Unit
InOrder n (h ∷ hs) = (h.number ≡ n % 2 ^ 32) × InOrder (n + 1) hs

record Ordered (s : TicketSpinlock) : Type 0 where
  served : ℕ
  next_is : s.next ≡ served % 2 ^ 32
  ticket_is : s.ticket ≡ (served + length s.line) % 2 ^ 32
  small : length s.line < 2 ^ 32
  in_order : InOrder served s.line
  only_first : OnlyFirst s.line

InOrder-snoc :
    (n : ℕ) (hs : List Holder) (h : Holder)
    → InOrder n hs
    → h.number ≡ (n + length hs) % 2 ^ 32
    → InOrder n (hs ++ h ∷ [])
InOrder-snoc n [] h o e = (omega (arith, e), tt)
InOrder-snoc n (x ∷ hs) h o e = (o.0, InOrder-snoc (n + 1) hs h o.1 (omega (arith, e)))

Waits-snoc : (hs : List Holder) (h : Holder) → All Waits hs → Waits h → All Waits (hs ++ h ∷ [])
Waits-snoc [] h a w = (w, tt)
Waits-snoc (x ∷ hs) h a w = (a.0, Waits-snoc hs h a.1 w)

OnlyFirst-snoc : (hs : List Holder) (h : Holder) → OnlyFirst hs → Waits h → OnlyFirst (hs ++ h ∷ [])
OnlyFirst-snoc [] h a w = tt
OnlyFirst-snoc (x ∷ hs) h a w = Waits-snoc hs h a w

-- The ticket at a place of the line.
InOrder-at :
    (n : ℕ) (ahead behind : List Holder) (h : Holder)
    → InOrder n (ahead ++ h ∷ behind)
    → h.number ≡ (n + length ahead) % 2 ^ 32
InOrder-at n [] behind h o = omega (arith, o.0)
InOrder-at n (x ∷ ahead) behind h o = omega (arith, InOrder-at (n + 1) ahead behind h o.1)

Waits-at : (ahead behind : List Holder) (h : Holder) → All Waits (ahead ++ h ∷ behind) → Waits h
Waits-at [] behind h a = a.0
Waits-at (x ∷ ahead) behind h a = Waits-at ahead behind h a.1

take-Ordered :
    (s : TicketSpinlock) → Ordered s → length s.line + 1 < 2 ^ 32 → Ordered (take_ticket s)
unfolding take_ticket
take-Ordered s o small = record {
  served = o.served;
  next_is = o.next_is;
  ticket_is = omega (
    arith,
    o.ticket_is,
    length-append s.line (record { number = s.ticket; inside = false } ∷ []),
  );
  small =
      omega
        (arith, small, length-append s.line (record { number = s.ticket; inside = false } ∷ []));
  in_order = InOrder-snoc o.served s.line _ o.in_order o.ticket_is;
  only_first = OnlyFirst-snoc s.line _ o.only_first refl;
}

-- The thread whose turn it is stands first.
enter-Ordered :
    (s : TicketSpinlock) (ahead behind : List Holder) (h : Holder)
    → Ordered s
    → s.line ≡ ahead ++ h ∷ behind
    → is_turn s h.number ≡ true
    → Ordered (record s { line = ahead ++ record h { inside = true } ∷ behind })
unfolding is_turn
enter-Ordered s [] behind h o e t =
    let order : InOrder o.served (h ∷ behind) = subst (InOrder o.served) e o.in_order in
    let first : OnlyFirst (h ∷ behind) = subst OnlyFirst e o.only_first in
    record {
      served = o.served;
      next_is = o.next_is;
      ticket_is = omega (arith, o.ticket_is, ap length e);
      small = omega (arith, o.small, ap length e);
      in_order = order;
      only_first = first;
    }
enter-Ordered s (x ∷ ahead) behind h o e t = absurd (
    ground (
      arith,
      t,
      o.next_is,
      o.small,
      ap length e,
      length-append (x ∷ ahead) (h ∷ behind),
      InOrder-at o.served (x ∷ ahead) behind h (subst (InOrder o.served) e o.in_order),
    ))

leave-Ordered :
    (s : TicketSpinlock) (ahead behind : List Holder) (h : Holder)
    → Ordered s
    → s.line ≡ ahead ++ h ∷ behind
    → h.inside ≡ true
    → Ordered (record (unlock s h.number) { line = ahead ++ behind })
unfolding unlock
leave-Ordered s [] behind h o e t =
    let order : InOrder o.served (h ∷ behind) = subst (InOrder o.served) e o.in_order in
    record {
      served = o.served + 1;
      next_is = omega (arith, order.0);
      ticket_is = omega (arith, o.ticket_is, ap length e);
      small = omega (arith, o.small, ap length e);
      in_order = order.1;
      only_first = Waits-OnlyFirst behind (subst OnlyFirst e o.only_first);
    }
  where
    Waits-OnlyFirst : (hs : List Holder) → All Waits hs → OnlyFirst hs
    Waits-OnlyFirst [] a = tt
    Waits-OnlyFirst (x ∷ hs) a = a.1
leave-Ordered s (x ∷ ahead) behind h o e t =
    absurd (ground (arith, t, Waits-at ahead behind h (subst OnlyFirst e o.only_first)))

Step-Ordered : {s t : TicketSpinlock} → Step s t → Ordered s → Ordered t
Step-Ordered {s} (takes small) o = take-Ordered s o small
Step-Ordered {s} (enters ahead behind h e t) o = enter-Ordered s ahead behind h o e t
Step-Ordered {s} (leaves ahead behind h e t) o = leave-Ordered s ahead behind h o e t

reached-Ordered : {s : TicketSpinlock} → Reaches s → Ordered s
reached-Ordered here = record {
  served = 0;
  next_is = refl;
  ticket_is = refl;
  small = omega arith;
  in_order = tt;
  only_first = tt;
}
reached-Ordered (then_step r x) = Step-Ordered x (reached-Ordered r)

-- In every reachable state of a ticket lock that fewer than 2^32 threads use, at most one thread
-- is inside, and it is the one that took its ticket first of all that have not left.
pub lock-OnlyFirst : {s : TicketSpinlock} → Reaches s → OnlyFirst s.line
lock-OnlyFirst r = (reached-Ordered r).only_first

-- In every reachable state of a ticket lock that fewer than 2^32 threads use, the loop of `lock`
-- lets the first thread of the line go on.
pub lock-first_turn :
    {s : TicketSpinlock} (h : Holder) (behind : List Holder)
    → Reaches s
    → s.line ≡ h ∷ behind
    → is_turn s h.number ≡ true
unfolding is_turn
lock-first_turn {s = s} h behind r e =
    let o = reached-Ordered r in
    let order : InOrder o.served (h ∷ behind) = subst (InOrder o.served) e o.in_order in
    ground (arith, o.next_is, order.0)
