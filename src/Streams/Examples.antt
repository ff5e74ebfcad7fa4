-- ===== src/Streams/Examples.antt =====
-- Runs of the sockets, and the theorems on them, at small inputs.
use lu.Base.{
  none, take, ◌≤◌, ℕ, zero, suc, ◌≡◌, refl, List, [], ◌∷◌, ◌++◌, All, true, map, length, some,
  slice, of_le_bytes, arith,
}
use lu.Streams.Receiving.{Arrival, arrived, recv, read_data_socket, done, overruns, spins}
use lu.Streams.Messages.{cut_messages}
use lu.Streams.Loop.{Outcome, receive}
use lu.Streams.Cutting.{joined}
use lu.Streams.DataSocket.{
  quarter, PlainHandler, handler, DataSocket, data_socket, new_socket, take_bytes, make_room,
}
use lu.Streams.DataSocketV.{DataSocketV, receive_v, new_socket_v}
use lu.Streams.EventChannel.{
  EventData, event_bytes, receive_events, new_channel, read_events, on_new_connection, on_app_msg,
}
use lu.Streams.Events.{events_arrive}
use lu.Streams.BaseSocket.{send, send_loop, took, fails, again, other, returned, count}
use lu.Streams.SendBytes.{send-prefix}
use lu.Streams.SendFile.{sendfile, file_loop}
use lu.Streams.StringHandler.{string_handler, get_string, read_header, read_message}
use lu.Streams.Texts.{IsText, texts_arrive, new_messages, string-laws}
use lu.Streams.Arrivals.{Fits}
use lu.Streams.Delivery.{AllArrive}
use lu.Streams.Delivered.{messages_delivered, delivered_completely}
use lu.Streams.DeliveredV.{FitsV, messages_delivered_v, delivered_completely_v}
use lu.Streams.Endless.{zero_size_spins}

-- Two messages of 5 and 4 bytes.
abbrev two : List (List ℕ)
two = (5 ∷ 0 ∷ 0 ∷ 0 ∷ 9 ∷ []) ∷ (4 ∷ 0 ∷ 0 ∷ 0 ∷ []) ∷ []

-- 3 bytes have come, then nothing for a moment, then more than there are.
abbrev some_calls : List Arrival
some_calls = arrived 3 ∷ arrived 4 ∷ arrived 50 ∷ []

times_arrived : ℕ → List Arrival
times_arrived zero = []
times_arrived (suc n) = arrived 7 ∷ times_arrived n

times-AllArrive : (n : ℕ) → AllArrive (times_arrived n)
unfolding times_arrived
times-AllArrive zero = tt
times-AllArrive (suc n) = (omega arith, times-AllArrive n)

length-times : (n : ℕ) → length (times_arrived n) ≡ n
unfolding times_arrived
length-times zero = refl
length-times (suc n) = omega (arith, length-times n)

two-Fits : All (Fits string_handler string-laws) two
two-Fits = (
  (record { whole_header = omega arith; size_told = refl; in_room = omega arith }, omega arith),
  (
    (record { whole_header = omega arith; size_told = refl; in_room = omega arith }, omega arith),
    tt,
  ),
)

two-FitsV : All FitsV two
two-FitsV = (
  record { whole_header = omega arith; size_told = refl; in_room = omega arith },
  (record { whole_header = omega arith; size_told = refl; in_room = omega arith }, tt),
)

messages_delivered_example :
    (o : Outcome DataSocket) × (receive
        (data_socket string_handler)
        some_calls
        (joined two)
        (new_socket string_handler)
      ≡ done o)
    × ((later : List (List ℕ)) × (two ≡ o.messages ++ later))
    × (o.pending ≡ [] → o.messages ≡ two)
messages_delivered_example = messages_delivered string_handler string-laws two some_calls two-Fits

delivered_completely_example :
    (s : DataSocket) × (receive
        (data_socket string_handler)
        (times_arrived 9)
        (joined two)
        (new_socket string_handler)
      ≡ done (record { answer = true; messages = two; pending = []; socket = s }))
delivered_completely_example =
    delivered_completely string_handler string-laws two (times_arrived 9) two-Fits
      (times-AllArrive 9) (omega (arith, length-times 9))

messages_delivered_v_example :
    (o : Outcome DataSocketV) × (receive_v some_calls (joined two) new_socket_v ≡ done o)
    × ((later : List (List ℕ)) × (two ≡ o.messages ++ later))
    × (o.pending ≡ [] → o.messages ≡ two)
messages_delivered_v_example = messages_delivered_v two some_calls two-FitsV

delivered_completely_v_example :
    (s : DataSocketV) × (receive_v (times_arrived 9) (joined two) new_socket_v
      ≡ done (record { answer = true; messages = two; pending = []; socket = s }))
delivered_completely_v_example =
    delivered_completely_v two (times_arrived 9) two-FitsV (times-AllArrive 9)
      (omega (arith, length-times 9))

abbrev hello : List ℕ
hello = 104 ∷ 101 ∷ 108 ∷ 108 ∷ 111 ∷ []

hello-IsText : IsText hello
hello-IsText =
    (omega arith, (omega arith, (omega arith, (omega arith, (omega arith, (omega arith, tt))))))

texts_arrive_example :
    (ms : List (List ℕ)) × (new_messages (hello ∷ []) ≡ some ms)
    × ((o : Outcome DataSocket) × (receive
            (data_socket string_handler)
            (times_arrived 68)
            (joined ms)
            (new_socket string_handler)
          ≡ done o)
        × (map get_string o.messages ≡ hello ∷ []))
texts_arrive_example =
    texts_arrive (hello ∷ []) (times_arrived 68) (hello-IsText, tt) (times-AllArrive 68)
      (omega (arith, length-times 68))

abbrev two_events : List EventData
two_events =
    record { event_type = 1; channel_id = 0; address = 0x7f00 }
    ∷ record { event_type = 2; channel_id = 5; address = 0x7f10 }
    ∷ []

events_arrive_example :
    (o : Outcome DataSocket) × (receive_events
        (times_arrived 32)
        (joined (map event_bytes two_events))
        new_channel
      ≡ done o)
    × (o.answer ≡ true)
    × (read_events o.messages ≡ on_new_connection 0x7f00 ∷ on_app_msg 0x7f10 5 ∷ [])
events_arrive_example =
    events_arrive two_events (times_arrived 32)
      (
        record { type_size = omega arith; channel_size = omega arith; address_size = omega arith },
        (
          record {
            type_size = omega arith;
            channel_size = omega arith;
            address_size = omega arith;
          },
          tt,
        ),
      )
      (times-AllArrive 32) (omega (arith, length-times 32))

abbrev zeros : List ℕ
zeros = 0 ∷ 0 ∷ 0 ∷ 0 ∷ []

zero_header : (handler string_handler).read_header zeros 0 ≡ 0
unfolding read_header
zero_header = refl

zero_size_spins_example : cut_messages (handler string_handler) zeros 5 0 4 ≡ spins
zero_size_spins_example =
    zero_size_spins (handler string_handler) zeros 5 0 4 (omega arith) zero_header

-- A handler with a small buffer; the first byte of a message is its size.
abbrev small : PlainHandler
small = record {
  buffer_size = 8;
  shift_size = quarter 8;
  header_size = 1;
  read_header = λ memory offset. of_le_bytes (slice memory offset 1);
  read_message = λ memory offset size. some (slice memory offset size);
  empty_fits = λ memory offset. (slice memory offset 0, refl);
}

-- Three bytes of a message of six are more than a quarter of the buffer: the next call asks for as many
-- bytes as the whole buffer has.
long_message : List ℕ
long_message = 6 ∷ 1 ∷ 2 ∷ 3 ∷ 4 ∷ 5 ∷ 2 ∷ 1 ∷ 2 ∷ 1 ∷ []

writes_past_the_end :
    receive (data_socket small) (arrived 3 ∷ arrived 8 ∷ []) long_message (new_socket small)
    ≡ overruns
unfolding receive long_message new_socket read_data_socket recv take_bytes make_room cut_messages
writes_past_the_end = refl

send-prefix_example :
    (let s = send true again (took 2 ∷ fails again ∷ took 9 ∷ []) hello 5 in
      (s.1 ≡ take (length s.1) hello) × (count s.0 ≤ length s.1) × (length s.1 ≤ 5))
send-prefix_example = send-prefix true again (took 2 ∷ fails again ∷ took 9 ∷ []) hello

-- After three of five bytes the loop ends: two are never sent.
stops_early : send true again (took 3 ∷ took 9 ∷ []) hello 5 ≡ (returned 3, take 3 hello)
unfolding send send_loop
stops_early = refl

-- Where `errno` says nothing, the bytes of a part are not counted.
counts_none : send true other (took 3 ∷ []) hello 5 ≡ (returned 0, take 3 hello)
unfolding send send_loop
counts_none = refl

-- The part of the first call is not counted: a file that it sends whole gives an answer of 0.
whole_file : sendfile other (took 9 ∷ took 9 ∷ []) hello 5 ≡ (returned 0, hello)
unfolding sendfile file_loop
whole_file = refl

-- When the loop ends, the answer is what the first call sent, here nothing.
first_only : sendfile again (took 0 ∷ took 9 ∷ []) hello 5 ≡ (returned 0, hello)
unfolding sendfile file_loop
first_only = refl

-- A header that tells one byte more than a message has makes the copy go past the message.
past_message : read_message hello 0 69 ≡ none
unfolding read_message
past_message = refl
