-- ===== src/Streams/DeliveredV.antt =====
-- DataSocketV.h with StringV: a new socket, and messages that may stand across the two buffers.
use lu.Base.{
  ℕ, ◌+◌, ◌-◌, ◌≤◌, ◌<◌, ◌≡◌, refl, sym, ap, subst, ◌∙◌, true, List, [], ◌∷◌, ◌++◌, All,
  append_assoc, length, length-append, length-replicate, overwrite, dec_lt, arith,
}
use lu.Streams.Receiving.{Arrival, done}
use lu.Streams.Loop.{Outcome}
use lu.Streams.Cutting.{IsMessage, Partly, Shows, Shows-within, joined}
use lu.Streams.Buffer.{Shows-fill, All-suffix, no_bytes}
use lu.Streams.StringV.{StringV, single_buffer_size, get_number_of_buffers, scatter, swap, string_v}
use lu.Streams.TwoBuffers.{
  both, IsSized, string_v-laws, scatter-both, scatter-IsSized, swap-Shows, buffers-near,
  buffers-far,
}
use lu.Streams.DataSocketV.{
  DataSocketV, new_socket_v, swap_buffers, room_v, take_bytes_v, data_socket_v, receive_v,
}
use lu.Streams.Delivery.{AllArrive, Turn, ReceiverLaws, delivered, delivered_in_time}
use lu.Streams.Turns.{cut_then, turn_from}

-- A message that is whole, and no longer than the one that the handler makes.
abbrev pub FitsV : List ℕ → Type 0
FitsV m = IsMessage string_v string_v-laws m

pub record ReadyV (ms : List (List ℕ)) (u : List ℕ) (s : DataSocketV) : Type 0 where
  pub rest : List ℕ
  pub sized : IsSized s.handler
  pub in_first : s.read_offset < single_buffer_size
  pub left_is : s.left_to_read ≡ length rest
  pub shows : Shows (both s.handler) s.read_offset rest
  pub bytes_are : rest ++ u ≡ joined ms
  pub partly : Partly ms (length rest)
  pub all_fit : All FitsV ms

whole_messages : (ms : List (List ℕ)) → All FitsV ms → All (IsMessage string_v string_v-laws) ms
whole_messages [] a = tt
whole_messages (m ∷ ms) a = (a.0, whole_messages ms a.1)

short_rest : (ms : List (List ℕ)) (n : ℕ) → All FitsV ms → Partly ms n → n ≤ single_buffer_size
short_rest [] n a q = omega (arith, q)
short_rest (m ∷ ms) n a q = omega (arith, q, a.0.in_room)

room-two :
    (s : DataSocketV)
    → s.read_offset + s.left_to_read ≤ 2000
    → room_v s + (s.read_offset + s.left_to_read) ≡ 2000
unfolding room_v
room-two s h = elim (dec_lt (s.read_offset + s.left_to_read) single_buffer_size) [
  | yes near ↦ rw (buffers-near (s.read_offset + s.left_to_read) near) (omega (arith, near))
  | no far ↦
      rw (buffers-far (s.read_offset + s.left_to_read) (omega (arith, far))) (omega (arith, far, h))
]

swap_empty :
    (s : DataSocketV)
    → s.left_to_read ≡ 0
    → swap_buffers s
      ≡ record s { read_offset = 0; left_to_recv = single_buffer_size + single_buffer_size }
unfolding swap_buffers
swap_empty s e = ground (arith, e)

swap_second :
    (s : DataSocketV)
    → 0 < s.left_to_read
    → single_buffer_size ≤ s.read_offset
    → swap_buffers s ≡ record s {
      handler = swap s.handler;
      read_offset = s.read_offset - single_buffer_size;
      left_to_recv = single_buffer_size + single_buffer_size - s.left_to_read;
    }
unfolding swap_buffers
swap_second s e h = ground (arith, e, h)

swap_first :
    (s : DataSocketV) → 0 < s.left_to_read → s.read_offset < single_buffer_size → swap_buffers s ≡ s
unfolding swap_buffers
swap_first s e h = ground (arith, e, h)

module _ (ms : List (List ℕ)) (u rest : List ℕ) (s : DataSocketV) (sized : IsSized s.handler)
    (left : s.left_to_read ≡ length rest) (shows : Shows (both s.handler) s.read_offset rest)
    (e : rest ++ u ≡ joined ms) (q : Partly ms (length rest)) (a : All FitsV ms) where
  swap_buffers-empty : length rest ≡ 0 → ReadyV ms u (swap_buffers s)
  swap_buffers-empty none =
      subst (ReadyV ms u) (sym (swap_empty s (omega (arith, left, none)))) (record {
        rest = rest;
        sized = sized;
        in_first = omega arith;
        left_is = left;
        shows =
            subst (Shows (both s.handler) 0) (sym (no_bytes rest none))
              (record { behind = both s.handler; shown = refl });
        bytes_are = e;
        partly = q;
        all_fit = a;
      })

  swap_buffers-first :
      0 < length rest → s.read_offset < single_buffer_size → ReadyV ms u (swap_buffers s)
  swap_buffers-first some h =
      subst (ReadyV ms u) (sym (swap_first s (omega (arith, left, some)) h)) (record {
        rest = rest;
        sized = sized;
        in_first = h;
        left_is = left;
        shows = shows;
        bytes_are = e;
        partly = q;
        all_fit = a;
      })

  swap_buffers-second :
      0 < length rest → single_buffer_size ≤ s.read_offset → ReadyV ms u (swap_buffers s)
  swap_buffers-second some h =
      let inside : s.read_offset < single_buffer_size + single_buffer_size = omega (
        arith,
        some,
        Shows-within shows some,
        length-append s.handler.buffer1 s.handler.buffer2,
        sized.0,
        sized.1,
      ) in
      subst (ReadyV ms u) (sym (swap_second s (omega (arith, left, some)) h)) (record {
        rest = rest;
        sized = (sized.1, sized.0);
        in_first = omega (arith, inside, h);
        left_is = left;
        shows = swap-Shows s.handler s.read_offset rest sized h inside shows;
        bytes_are = e;
        partly = q;
        all_fit = a;
      })

  swap_buffers-ReadyV : ReadyV ms u (swap_buffers s)
  swap_buffers-ReadyV = elim (dec_lt 0 (length rest)) [
    | no none ↦ swap_buffers-empty (omega (arith, none))
    | yes some ↦ elim (dec_lt s.read_offset single_buffer_size) [
      | yes first ↦ swap_buffers-first some first
      | no second ↦ swap_buffers-second some (omega (arith, second))
    ]
  ]

after : StringV → ℕ → ℕ → ℕ → DataSocketV
after filled room offset left =
    swap_buffers
      (record { handler = filled; read_offset = offset; left_to_read = left; left_to_recv = room })

turn-is :
    (s : DataSocketV) (c : List ℕ)
    → take_bytes_v s c ≡ (
        let filled = scatter s.handler (get_number_of_buffers (s.read_offset + s.left_to_read)) c in
        cut_then string_v string_v-laws
          (after filled s.left_to_recv)
          filled
          s.read_offset
          (s.left_to_read + length c))
unfolding take_bytes_v after
turn-is s c = refl

take_bytes_v-Turn :
    (ms : List (List ℕ)) (c u : List ℕ) (s : DataSocketV)
    → ReadyV ms (c ++ u) s
    → length c ≤ room_v s
    → Turn ReadyV ms u (take_bytes_v s c)
unfolding after
take_bytes_v-Turn ms c u s r h =
    let short = short_rest ms _ r.all_fit r.partly in
    let at = s.read_offset + s.left_to_read in
    let inside : at + length c ≤ 2000 = omega (
      arith,
      h,
      short,
      r.left_is,
      r.in_first,
      room-two s (omega (arith, short, r.left_is, r.in_first)),
    ) in
    let filled = scatter s.handler (get_number_of_buffers at) c in
    let shows : Shows (both filled) s.read_offset (r.rest ++ c) =
      subst (λ m. Shows m s.read_offset (r.rest ++ c))
        (sym (
          scatter-both s.handler at c r.sized
          ∙ ap (λ k. overwrite (both s.handler) (s.read_offset + k) c) r.left_is))
        (Shows-fill r.rest c r.shows (
          omega (
            arith,
            inside,
            r.left_is,
            length-append s.handler.buffer1 s.handler.buffer2,
            r.sized.0,
            r.sized.1,
          ))) in
    let sized = scatter-IsSized s.handler at c r.sized inside in
    subst (Turn ReadyV ms u) (sym (turn-is s c)) (
      turn_from string_v string_v-laws (after filled s.left_to_recv) ReadyV filled sized ms u
        (r.rest ++ c) s.read_offset (s.left_to_read + length c)
        (omega (arith, length-append r.rest c, r.left_is)) (whole_messages ms r.all_fit) shows
        (append_assoc r.rest c u ∙ r.bytes_are)
        (λ k.
          swap_buffers-ReadyV k.later u k.rest _ sized refl k.shows k.next_bytes k.partly
            (All-suffix FitsV k.sent k.later ms k.all_of r.all_fit)))

pub some_left : (ms : List (List ℕ)) (u : List ℕ) (s : DataSocketV) → ReadyV ms u s → 0 < room_v s
some_left ms u s r =
    let short = short_rest ms _ r.all_fit r.partly in
    omega (
      arith,
      short,
      r.left_is,
      r.in_first,
      room-two s (omega (arith, short, r.left_is, r.in_first)),
    )

pub none_later :
    (ms : List (List ℕ)) (u : List ℕ) (s : DataSocketV) → ReadyV ms u s → u ≡ [] → ms ≡ []
none_later [] u s r e = refl
none_later (m ∷ ms) u s r e = absurd (
    omega (
      arith,
      r.partly,
      ap length r.bytes_are,
      length-append r.rest u,
      ap length e,
      length-append m (joined ms),
    ))

abbrev data_socket_v-laws : ReceiverLaws data_socket_v
data_socket_v-laws = record {
  Ready = ReadyV;
  some_room = some_left;
  turn = take_bytes_v-Turn;
  none_later = none_later;
}

new_socket_v-ReadyV : (ms : List (List ℕ)) → All FitsV ms → ReadyV ms (joined ms) new_socket_v
unfolding new_socket_v
new_socket_v-ReadyV ms a = record {
  rest = [];
  sized = (length-replicate {A = ℕ} 1000 0, length-replicate {A = ℕ} 1000 0);
  in_first = omega arith;
  left_is = refl;
  shows = record { behind = both new_socket_v.handler; shown = refl };
  bytes_are = refl;
  partly = nothing_left ms a;
  all_fit = a;
}
  where
    nothing_left : (ms : List (List ℕ)) → All FitsV ms → Partly ms 0
    nothing_left [] a = refl
    nothing_left (m ∷ ms) a = omega (arith, a.0.whole_header)

-- Messages that tell their sizes and have at most 68 bytes, as many as the message that the
-- handler makes are sent to a new `DataSocketV` with `StringV`. Whatever happens at the calls of
-- `readv`, and however many bytes each one finds, `Receive` returns; the messages handed to
-- `onData` are the first ones sent, whole and in order, also those that stand across the two
-- buffers, and all of them when no byte is pending.
pub messages_delivered_v :
    (ms : List (List ℕ)) (calls : List Arrival)
    → All FitsV ms
    → (o : Outcome DataSocketV) × (receive_v calls (joined ms) new_socket_v ≡ done o)
      × ((later : List (List ℕ)) × (ms ≡ o.messages ++ later))
      × (o.pending ≡ [] → o.messages ≡ ms)
messages_delivered_v ms calls a =
    delivered data_socket_v data_socket_v-laws ms (joined ms) new_socket_v calls
      (new_socket_v-ReadyV ms a)

-- Where each call of `readv` finds a byte while one is pending, `Receive` of a new `DataSocketV`
-- with `StringV` has handed over all messages after as many calls as bytes were sent, each once
-- and in order, and answers true. The messages tell their sizes and have at most 68 bytes, as
-- many as the message that the handler makes.
pub delivered_completely_v :
    (ms : List (List ℕ)) (calls : List Arrival)
    → All FitsV ms
    → AllArrive calls
    → length (joined ms) ≤ length calls
    → (s : DataSocketV) × (receive_v calls (joined ms) new_socket_v
        ≡ done (record { answer = true; messages = ms; pending = []; socket = s }))
delivered_completely_v ms calls a =
    delivered_in_time data_socket_v data_socket_v-laws ms (joined ms) new_socket_v calls
      (new_socket_v-ReadyV ms a)
