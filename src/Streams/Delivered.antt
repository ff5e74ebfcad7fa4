-- ===== src/Streams/Delivered.antt =====
-- DataSocket.h: a new socket, and a row of messages that arrives in pieces of any sizes.
use lu.Base.{
  ℕ, ◌≤◌, ◌<◌, ◌≡◌, refl, ap, true, List, [], ◌∷◌, ◌++◌, All, length, length-append, replicate,
  length-replicate, arith,
}
use lu.Streams.Receiving.{Arrival, done}
use lu.Streams.Loop.{Outcome, receive}
use lu.Streams.Cutting.{Partly, joined}
use lu.Streams.DataSocket.{PlainHandler, DataSocket, data_socket, new_socket}
use lu.Streams.Arrivals.{PlainLaws, Fits, Ready, short_rest, take_bytes-Turn}
use lu.Streams.Delivery.{AllArrive, ReceiverLaws, delivered, delivered_in_time}

module _ (p : PlainHandler) (l : PlainLaws p) where
  pub new_socket-Ready :
      (ms : List (List ℕ)) → All (Fits p l) ms → Ready p l ms (joined ms) (new_socket p)
  unfolding new_socket
  new_socket-Ready ms a = record {
    rest = [];
    sized = length-replicate p.buffer_size 0;
    at_front = refl;
    left_is = refl;
    shows = record { behind = replicate p.buffer_size 0; shown = refl };
    bytes_are = refl;
    partly = nothing_left ms a;
    room = omega arith;
    all_fit = a;
  }
    where
      nothing_left : (ms : List (List ℕ)) → All (Fits p l) ms → Partly ms 0
      nothing_left [] a = refl
      nothing_left (m ∷ ms) a = omega (arith, a.0.0.whole_header, l.some_header)

  -- Where all bytes have come, no message is left.
  pub none_later :
      (ms : List (List ℕ)) (u : List ℕ) (s : DataSocket) → Ready p l ms u s → u ≡ [] → ms ≡ []
  none_later [] u s r e = refl
  none_later (m ∷ ms) u s r e = absurd (
      omega (
        arith,
        r.partly,
        ap length r.bytes_are,
        length-append r.rest u,
        ap length e,
        length-append m (joined ms),
      ))

  pub some_left :
      (ms : List (List ℕ)) (u : List ℕ) (s : DataSocket) → Ready p l ms u s → 0 < s.left_to_recv
  some_left ms u s r = omega (arith, r.room, l.shift_fits, short_rest p l ms _ r.all_fit r.partly)

  abbrev pub data_socket-laws : ReceiverLaws (data_socket p)
  data_socket-laws = record {
    Ready = Ready p l;
    some_room = some_left;
    turn = take_bytes-Turn p l;
    none_later = none_later;
  }

  -- Messages that tell their sizes, fit the object that the handler makes of one, and have at
  -- most one byte more than what the socket moves to the front of its buffer, which is less than
  -- the buffer, are sent to a new `DataSocket`. Whatever happens at the calls of `recv`, and
  -- however many bytes each one finds, `Receive` returns and stays within its buffer; the
  -- messages handed to `onData` are the first ones sent, whole and in order, and all of them when
  -- no byte is pending.
  pub messages_delivered :
      (ms : List (List ℕ)) (calls : List Arrival)
      → All (Fits p l) ms
      → (o : Outcome DataSocket) × (receive (data_socket p) calls (joined ms) (new_socket p)
          ≡ done o)
        × ((later : List (List ℕ)) × (ms ≡ o.messages ++ later))
        × (o.pending ≡ [] → o.messages ≡ ms)
  messages_delivered ms calls a =
      delivered (data_socket p) data_socket-laws ms (joined ms) (new_socket p) calls
        (new_socket-Ready ms a)

  -- Where each call of `recv` finds a byte while one is pending, `Receive` of a new `DataSocket`
  -- has handed over all messages after as many calls as bytes were sent, each once and in order,
  -- and answers true. The messages tell their sizes, fit the object that the handler makes of
  -- one, and have at most one byte more than what the socket moves to the front of its buffer,
  -- which is less than the buffer.
  pub delivered_completely :
      (ms : List (List ℕ)) (calls : List Arrival)
      → All (Fits p l) ms
      → AllArrive calls
      → length (joined ms) ≤ length calls
      → (s : DataSocket) × (receive (data_socket p) calls (joined ms) (new_socket p)
          ≡ done (record { answer = true; messages = ms; pending = []; socket = s }))
  delivered_completely ms calls a =
      delivered_in_time (data_socket p) data_socket-laws ms (joined ms) (new_socket p) calls
        (new_socket-Ready ms a)
