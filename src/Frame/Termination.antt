-- ===== src/Frame/Termination.antt =====
-- `processMessage` returns: one turn, and the loop. Every turn but the first reads two bytes.
use lu.Base.{
  ℕ, zero, suc, ◌+◌, ◌-◌, ◌^◌, ◌≤◌, ◌<◌, ◌≡◌, refl, ap, subst, Bool, true, not, List, ◌++◌, Option,
  some, Bool-cases, inl, inr, arith,
}
use lu.Frame.Types.{
  ProcessingState, read_header, done, SocketData, get_data_left_to_read, Frame, reset,
}
use lu.Frame.Message.{
  Event, append, Turn, leave, more, hung, deliver, store, process_data_frame, process_frame, turn,
  Outcome, prepend, process_loop, process_message,
}
use lu.Frame.Progress.{InData, rank, Reads, Settled, read_frame-returns, read_frame-consumes}

-- What a turn from `s` guarantees. A turn that goes round leaves the parser at a header.
pub record Rounds (s : SocketData) (g : Frame) (t : SocketData) : Type 0 where
  pub same_size : t.size ≡ s.size
  pub forward : s.read_offset ≤ t.read_offset
  pub within : t.read_offset ≤ s.size
  pub at_header : g.processing_state ≡ read_header

abbrev pub Turns : SocketData → Turn → Type 0
Turns s (leave es g t) = Reads s g t
Turns s (more es g t) = Rounds s g t
Turns s hung = ⊥

-- A frame that is done and valid, with its payload in the data.
record Holds (s : SocketData) (f : Frame) (t : SocketData) : Type 0 where
  small : s.size < 2 ^ 32
  same_size : t.size ≡ s.size
  forward : s.read_offset ≤ t.read_offset
  whole : t.read_offset + f.size ≤ s.size
  complete : f.processing_state ≡ done

deliver-Turns : {s : SocketData} (f : Frame) (t : SocketData) → Holds s f t → Turns s (deliver f t)
unfolding deliver reset
deliver-Turns f t h = ground arith

store-Turns : {s : SocketData} (f : Frame) (t : SocketData) → Holds s f t → Turns s (store f t)
unfolding store append
store-Turns f t h = ground (arith, deliver-Turns f t h)

mark-Holds :
    {s : SocketData} (f : Frame) (t : SocketData) (b : Bool)
    → Holds s f t
    → Holds s (record f { is_fragmented = b }) t
mark-Holds f t b h = ground arith

data-Turns :
    {s : SocketData} (f : Frame) (t : SocketData) → Holds s f t → Turns s (process_data_frame f t)
unfolding process_data_frame
data-Turns f t h =
    ground (arith, store-Turns f t h, store-Turns _ t (mark-Holds f t (not f.is_final_frame) h))

frame-Turns :
    {s : SocketData} (f : Frame) (t : SocketData) (st : ProcessingState)
    → f.processing_state ≡ st
    → InData s
    → Reads s f t
    → Turns s (process_frame f t)
unfolding process_frame reset
frame-Turns {s} f t done e i r = elim (Bool-cases f.is_valid) [
  | inl v ↦ ground (arith, data-Turns f t (holds v), r.whole e v)
  | inr v ↦ ground arith
]
  where
    holds : f.is_valid ≡ true → Holds s f t
    holds v = record {
      small = i.small;
      same_size = r.same_size;
      forward = r.forward;
      whole = omega (arith, r.whole e v, r.same_size);
      complete = e;
    }
frame-Turns f t st e i r = rw (e, process_frame) r

-- One turn never hangs.
turn-Turns :
    (f : Frame) (s : SocketData)
    → InData s
    → rank f.processing_state ≤ 4
    → Settled f s
    → Turns s (turn f s)
unfolding turn
turn-Turns f s i low w =
    let (g, t, found, r) = read_frame-returns f s i low w in
    ground (arith, found, frame-Turns g t g.processing_state refl i r)

-- From a header a turn that goes round has taken two bytes.
abbrev Takes : SocketData → Turn → Type 0
Takes s (leave es g t) = Unit {0}
Takes s (more es g t) = s.read_offset + 2 ≤ t.read_offset
Takes s hung = ⊥

frame-Takes :
    {s : SocketData} (f : Frame) (t : SocketData) (st : ProcessingState)
    → f.processing_state ≡ st
    → InData s
    → Reads s f t
    → (f.processing_state ≡ done → s.read_offset + 2 ≤ t.read_offset)
    → Takes s (process_frame f t)
unfolding process_frame process_data_frame store deliver append
frame-Takes {s} f t done e i r c = ground (arith, c e, r.whole e)
frame-Takes f t st e i r c = rw (e, process_frame) tt

turn-Takes :
    (f : Frame) (s : SocketData) → InData s → f.processing_state ≡ read_header → Takes s (turn f s)
unfolding turn
turn-Takes f s i e =
    let (g, t, found, r, c) = read_frame-consumes f s i e in
    ground (arith, found, frame-Takes g t g.processing_state refl i r c)

-- What a whole call guarantees: it stays within the data and may be called again.
pub record Ends (s : SocketData) (o : Outcome) : Type 0 where
  pub same_size : o.rest.size ≡ s.size
  pub forward : s.read_offset ≤ o.rest.read_offset
  pub within : o.rest.read_offset ≤ s.size
  pub resumable : rank o.frame.processing_state ≤ 4
  pub settled : Settled o.frame o.rest

abbrev Returns : SocketData → Option Outcome → Type 0
Returns s r = (o : Outcome) × (r ≡ some o) × Ends s o

prepend-Returns :
    {s : SocketData} (es : List Event) (g : Frame) (t : SocketData)
    → Rounds s g t
    → {r : Option Outcome} → Returns t r
    → Returns s (prepend es r)
unfolding prepend
prepend-Returns es g t q (o, e, h) = (
  record o { events = es ++ o.events },
  rw (e, prepend) refl,
  record {
    same_size = omega (arith, q.same_size, h.same_size);
    forward = omega (arith, q.forward, h.forward);
    within = omega (arith, q.same_size, h.within);
    resumable = h.resumable;
    settled = h.settled;
  },
)

-- The loop after a first turn, given what the rest of it does.
loop_after :
    (n : ℕ) (f : Frame) (s : SocketData) (u : Turn)
    → turn f s ≡ u
    → Turns s u
    → ((es : List Event) (g : Frame) (t : SocketData)
        → u ≡ more es g t
        → Rounds s g t
        → Returns t (process_loop n g t))
    → Returns s (process_loop (suc n) f s)
unfolding process_loop
loop_after n f s (leave es g t) e r go = (
  record { events = es; frame = g; rest = t },
  rw (e, process_loop) refl,
  record {
    same_size = r.same_size;
    forward = r.forward;
    within = r.within;
    resumable = r.resumable;
    settled = r.whole;
  },
)
loop_after n f s (more es g t) e r go =
    rw (e, process_loop) (prepend-Returns es g t r (go es g t refl r))
loop_after n f s hung e r go = absurd r

Rounds-InData : {s : SocketData} {g : Frame} {t : SocketData} → InData s → Rounds s g t → InData t
Rounds-InData i r = record {
  small = omega (arith, i.small, r.same_size);
  within = omega (arith, r.within, r.same_size);
}

at_header-Settled : (f : Frame) (s : SocketData) → f.processing_state ≡ read_header → Settled f s
at_header-Settled f s e d = absurd (omega (arith, ap rank e, ap rank d))

header_loop-Returns :
    (n : ℕ) (f : Frame) (s : SocketData)
    → InData s
    → f.processing_state ≡ read_header
    → s.size < n + s.read_offset
    → Returns s (process_loop n f s)
header_loop-Returns zero f s i e enough = absurd (omega (arith, i.within))
header_loop-Returns (suc n) f s i e enough =
    loop_after n f s (turn f s) refl
      (turn-Turns f s i (omega (arith, ap rank e)) (at_header-Settled f s e))
      λ es g t m r.
        header_loop-Returns n g t (Rounds-InData i r) r.at_header
          (omega (arith, r.same_size, enough, subst (Takes s) m (turn-Takes f s i e)))

-- From every state that it can be left in, with the read offset within data of a 32-bit size,
-- `processMessage` returns: it stays within the data, never goes back, and leaves a state from
-- which it can be called again.
pub process_message-returns :
    (f : Frame) (s : SocketData)
    → InData s
    → rank f.processing_state ≤ 4
    → Settled f s
    → (o : Outcome) × (process_message f s ≡ some o) × Ends s o
unfolding process_message
process_message-returns f s i low w = subst (λ k. Returns s (process_loop k f s)) fuel run
  where
    fuel : suc (s.size - s.read_offset + 1) ≡ get_data_left_to_read s + 2
    fuel = omega (arith, i.small, i.within)

    run : Returns s (process_loop (suc (s.size - s.read_offset + 1)) f s)
    run = loop_after _ f s (turn f s) refl (turn-Turns f s i low w) λ es g t m r.
        header_loop-Returns _ g t (Rounds-InData i r) r.at_header
          (omega (arith, r.same_size, r.forward, i.within))
