-- ===== src/Locks/Ticket.antt =====
-- src/common/spinlock.cpp: `TicketSpinlock`, its threads as steps.
use lu.Base.{
  ℕ, ◌+◌, ◌^◌, ◌<◌, ◌≡◌, ◌==◌, Bool, true, false, List, [], ◌∷◌, ◌++◌, length, u32, sub_u32,
}

-- A thread that took a ticket: it waits in `lock`, or is inside, between `lock` and `unlock`.
pub record Holder : Type 0 where
  pub number : ℕ
  pub inside : Bool

-- `m_ticket` and `m_next`; `line` are the threads that took a ticket and have not left, in the order of
-- their `fetch_add`.
pub record TicketSpinlock : Type 0 where
  pub ticket : ℕ
  pub next : ℕ
  pub line : List Holder

abbrev pub unlocked : TicketSpinlock
unlocked = record { ticket = 0; next = 0; line = [] }

-- `m_ticket.fetch_add(1)`
unfoldable pub take_ticket : TicketSpinlock → TicketSpinlock
take_ticket s = record s {
  ticket = u32 (s.ticket + 1);
  line = s.line ++ record { number = s.ticket; inside = false } ∷ [];
}

-- The test of the loop in `lock`: the position is 0.
unfoldable pub is_turn : TicketSpinlock → ℕ → Bool
is_turn s number = sub_u32 number s.next == 0

-- `unlock(ticket)`
unfoldable pub unlock : TicketSpinlock → ℕ → TicketSpinlock
unlock s number = record s { next = u32 (number + 1) }

-- A thread takes a ticket, leaves the loop of `lock`, or unlocks with its own ticket, as `LockGuard`
-- does. There are fewer than 2^32 threads.
pub data Step (s : TicketSpinlock) : TicketSpinlock → Type 0 where
  takes : length s.line + 1 < 2 ^ 32 → Step s (take_ticket s)
  enters :
      (ahead behind : List Holder) (h : Holder)
      → s.line ≡ ahead ++ h ∷ behind
      → is_turn s h.number ≡ true
      → Step s (record s { line = ahead ++ record h { inside = true } ∷ behind })
  leaves :
      (ahead behind : List Holder) (h : Holder)
      → s.line ≡ ahead ++ h ∷ behind
      → h.inside ≡ true
      → Step s (record (unlock s h.number) { line = ahead ++ behind })

pub data Reaches : TicketSpinlock → Type 0 where
  here : Reaches unlocked
  then_step : {s t : TicketSpinlock} → Reaches s → Step s t → Reaches t
