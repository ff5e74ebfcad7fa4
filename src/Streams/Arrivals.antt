-- ===== src/Streams/Arrivals.antt =====
-- `Receive` of DataSocket.h on a row of messages that arrives in pieces of any sizes.
use lu.Base.{
  ℕ, ◌+◌, ◌-◌, ◌%◌, ◌^◌, ◌≤◌, ◌<◌, ◌≡◌, refl, sym, ap, subst, ◌∙◌, some, List, [], ◌∷◌, ◌++◌, All,
  append_assoc, length, length-append, length-take, drop, overwrite, slice, length-overwrite, arith,
  not_ltb,
}
use lu.Streams.Cutting.{HandlerLaws, IsMessage, Shows, Shows-within, Partly, joined}
use lu.Streams.Buffer.{Shows-fill, Shows-moved, All-suffix}
use lu.Streams.Delivery.{Turn}
use lu.Streams.Turns.{cut_then, turn_from}
use lu.Streams.DataSocket.{PlainHandler, handler, DataSocket, make_room, take_bytes}

-- A handler whose header tells the size of its message, both read from the buffer as it is, with room
-- for messages up to a size.
pub record PlainLaws (p : PlainHandler) : Type 0 where
  pub size_of : List ℕ → ℕ
  pub message_room : ℕ
  pub some_header : 0 < p.header_size
  pub shift_fits : p.shift_size < p.buffer_size
  pub header_is :
      (memory : List ℕ) (offset : ℕ)
      → length memory ≡ p.buffer_size
      → offset + p.header_size ≤ length memory
      → p.read_header memory offset ≡ size_of (slice memory offset p.header_size)
  pub message_is :
      (memory : List ℕ) (offset size : ℕ)
      → length memory ≡ p.buffer_size
      → offset + size ≤ length memory
      → size ≤ message_room
      → p.read_message memory offset size ≡ some (slice memory offset size)

abbrev pub laws : (p : PlainHandler) → PlainLaws p → HandlerLaws (handler p)
laws p l = record {
  flat = λ memory. memory;
  IsSized = λ memory. length memory ≡ p.buffer_size;
  size_of = λ header. l.size_of header % 2 ^ 32;
  message_room = l.message_room;
  some_header = l.some_header;
  header_is = λ memory offset sized h. ap (λ n. n % 2 ^ 32) (l.header_is memory offset sized h);
  message_is = l.message_is;
}

module _ (p : PlainHandler) (l : PlainLaws p) where
  -- A message that is whole and in the room that the handler has for one, and no longer than what the
  -- socket moves, and one more byte.
  abbrev pub Fits : List ℕ → Type 0
  Fits m = IsMessage (handler p) (laws p l) m × (length m ≤ p.shift_size + 1)

  -- The socket between two calls of `recv`: `ms` are the messages that are not handed over, and `u` are
  -- the bytes that are not received.
  pub record Ready (ms : List (List ℕ)) (u : List ℕ) (s : DataSocket) : Type 0 where
    pub rest : List ℕ
    pub sized : length s.memory ≡ p.buffer_size
    pub at_front : s.read_offset ≡ 0
    pub left_is : s.left_to_read ≡ length rest
    pub shows : Shows s.memory s.read_offset rest
    pub bytes_are : rest ++ u ≡ joined ms
    pub partly : Partly ms (length rest)
    pub room : s.left_to_recv + length rest ≡ p.buffer_size
    pub all_fit : All Fits ms

  whole_messages : (ms : List (List ℕ)) → All Fits ms → All (IsMessage (handler p) (laws p l)) ms
  whole_messages [] a = tt
  whole_messages (m ∷ ms) a = (a.0.0, whole_messages ms a.1)

  pub short_rest : (ms : List (List ℕ)) (n : ℕ) → All Fits ms → Partly ms n → n ≤ p.shift_size
  short_rest [] n a q = omega (arith, q)
  short_rest (m ∷ ms) n a q = omega (arith, q, a.0.1)

  moved : DataSocket → DataSocket
  moved s = record s {
    memory = overwrite s.memory 0 (slice s.memory s.read_offset s.left_to_read);
    read_offset = 0;
    left_to_recv = p.buffer_size - s.left_to_read;
  }

  make_room_empty :
      (s : DataSocket)
      → s.left_to_read ≡ 0
      → make_room p s ≡ record s { read_offset = 0; left_to_recv = p.buffer_size }
  unfolding make_room
  make_room_empty s e = ground (arith, e)

  make_room_some :
      (s : DataSocket)
      → 0 < s.left_to_read
      → s.left_to_read ≤ p.shift_size
      → make_room p s ≡ moved s
  unfolding make_room moved
  make_room_some s e e' = ground (arith, e, e')

  moved-Ready :
      (ms : List (List ℕ)) (u rest : List ℕ) (s : DataSocket)
      → length s.memory ≡ p.buffer_size
      → s.left_to_read ≡ length rest
      → 0 < length rest
      → Shows s.memory s.read_offset rest
      → rest ++ u ≡ joined ms
      → Partly ms (length rest)
      → All Fits ms
      → Ready ms u (moved s)
  unfolding moved
  moved-Ready ms u rest s sized left more shows e q a = record {
    rest = rest;
    sized =
        length-overwrite s.memory 0 (slice s.memory s.read_offset s.left_to_read) (
          omega (
            arith,
            Shows-within shows more,
            left,
            length-take s.left_to_read (drop s.read_offset s.memory),
          ))
        ∙ sized;
    at_front = refl;
    left_is = left;
    shows =
        subst (λ k. Shows (overwrite s.memory 0 (slice s.memory s.read_offset k)) 0 rest) (sym left)
          (Shows-moved rest shows);
    bytes_are = e;
    partly = q;
    room = omega (arith, left, sized, Shows-within shows more);
    all_fit = a;
  }

  make_room-Ready :
      (ms : List (List ℕ)) (u rest : List ℕ) (s : DataSocket)
      → length s.memory ≡ p.buffer_size
      → s.left_to_read ≡ length rest
      → Shows s.memory s.read_offset rest
      → rest ++ u ≡ joined ms
      → Partly ms (length rest)
      → All Fits ms
      → Ready ms u (make_room p s)
  make_room-Ready ms u [] s sized left shows e q a =
      subst (Ready ms u) (sym (make_room_empty s left)) (record {
        rest = [];
        sized = sized;
        at_front = refl;
        left_is = left;
        shows = record { behind = s.memory; shown = refl };
        bytes_are = e;
        partly = q;
        room = omega arith;
        all_fit = a;
      })
  make_room-Ready ms u (x ∷ xs) s sized left shows e q a =
      subst (Ready ms u)
        (sym (make_room_some s (omega (arith, left)) (omega (arith, left, short_rest ms _ a q))))
        (moved-Ready ms u (x ∷ xs) s sized left (omega arith) shows e q a)

  after : List ℕ → ℕ → ℕ → ℕ → DataSocket
  after filled room offset left =
      make_room p
        (record { memory = filled; read_offset = offset; left_to_read = left; left_to_recv = room })

  take_bytes_fits :
      (s : DataSocket) (c : List ℕ)
      → s.read_offset + s.left_to_read + length c ≤ length s.memory
      → take_bytes p s c ≡ (
          let filled = overwrite s.memory (s.read_offset + s.left_to_read) c in
          cut_then
            (handler p)
            (laws p l)
            (after filled s.left_to_recv)
            filled
            s.read_offset
            (s.left_to_read + length c))
  unfolding take_bytes after
  take_bytes_fits s c h = rw (not_ltb (length s.memory) _ h) refl

  pub take_bytes-Turn :
      (ms : List (List ℕ)) (c u : List ℕ) (s : DataSocket)
      → Ready ms (c ++ u) s
      → length c ≤ s.left_to_recv
      → Turn Ready ms u (take_bytes p s c)
  unfolding after
  take_bytes-Turn ms c u s r h =
      let inside : s.read_offset + s.left_to_read + length c ≤ length s.memory =
        omega (arith, r.at_front, r.left_is, r.room, r.sized, h) in
      let filled = overwrite s.memory (s.read_offset + s.left_to_read) c in
      let sized : length filled ≡ p.buffer_size =
        length-overwrite s.memory (s.read_offset + s.left_to_read) c inside ∙ r.sized in
      let shows : Shows filled s.read_offset (r.rest ++ c) =
        subst (λ k. Shows (overwrite s.memory (s.read_offset + k) c) s.read_offset (r.rest ++ c))
          (sym r.left_is) (Shows-fill r.rest c r.shows (omega (arith, inside, r.left_is))) in
      subst (Turn Ready ms u) (sym (take_bytes_fits s c inside)) (
        turn_from (handler p) (laws p l) (after filled s.left_to_recv) Ready filled sized ms u
          (r.rest ++ c) s.read_offset (s.left_to_read + length c)
          (omega (arith, length-append r.rest c, r.left_is)) (whole_messages ms r.all_fit) shows
          (append_assoc r.rest c u ∙ r.bytes_are)
          (λ k.
            make_room-Ready k.later u k.rest _ sized refl k.shows k.next_bytes k.partly
              (All-suffix Fits k.sent k.later ms k.all_of r.all_fit)))
