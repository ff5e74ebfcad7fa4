-- ===== src/Frame/Examples.antt =====
-- Runs of the frame code, and the theorems on it, at small inputs.
use lu.Base.{
  get_or, bit_xor, drop, ℕ, ◌+◌, ◌≤◌, ◌<◌, ◌^◌, ◌≡◌, refl, ap, ◌⊎◌, true, false, List, [], ◌∷◌,
  ◌++◌, map, some, length, arith,
}
use lu.Crypto.DataWrap.{DataWrap, contents}
use lu.Crypto.DataWrap
use lu.Frame.Types.{
  done, text, binary, ping, close, Frame, SocketData, fresh, is_control_frame,
  is_continuation_frame, is_control_code, is_op_code_reserved,
}
use lu.Frame.Reader.{advance, mask_from, mask, read_frame}
use lu.Frame.Message.{on_data, payload, process_frame, leave, more, Outcome, process_message}
use lu.Frame.Writer.{
  send_from, frame_count, frame_bytes, append_length, first_byte, get_frame_header, send_msg,
}
use lu.Frame.Progress.{InData, rank, Settled, Reads, read_frame-returns}
use lu.Frame.Termination.{Ends, process_message-returns}
use lu.Frame.Layout.{header_list, contents-get_frame_header}
use lu.Frame.Masking.{mask-bytes}
use lu.Frame.Parsing.{Sees, accepted, IsLegal, in_two}
use lu.Frame.Reading.{read_frame-header_list}
use lu.Frame.Delivery.{IsData, Between, Sending, wire, messages_arrive}
use lu.Frame.Fragments.{fragment_cases}

abbrev data_of : List ℕ → SocketData
data_of bs = record { bytes = bs; size = length bs; read_offset = 0 }

abbrev keys : ℕ → ℕ
keys i = 0x01020304

abbrev two_messages : List Sending
two_messages =
    record { message = 1 ∷ 2 ∷ 3 ∷ 4 ∷ 5 ∷ []; keys = keys }
    ∷ record { message = []; keys = keys }
    ∷ []

abbrev sent : SocketData
sent = data_of (wire 100 binary true two_messages)

binary-IsData : IsData binary
unfolding is_control_code is_op_code_reserved
binary-IsData = record {
  data_code = refl;
  first = refl;
  legal = λ last n. record { known = refl; control = λ e. ground arith };
}

fresh-Between : Between 100 (fresh 100)
unfolding fresh
fresh-Between = record { at_header = refl; whole_message = refl; limit = refl; no_code = refl }

sent_size : length (wire 100 binary true two_messages) ≡ 17
unfolding wire send_msg send_from frame_count frame_bytes get_frame_header append_length first_byte
    mask mask_from DataWrap.append DataWrap.create
sent_size = refl

sent-Sees : Sees sent (wire 100 binary true two_messages)
sent-Sees = record { small = omega (arith, sent_size); ahead = refl; exact = omega arith }

-- Two binary messages, one of them empty, masked.
messages_arrive_example :
    (o : Outcome) × (process_message (fresh 100) sent ≡ some o)
    × (o.events ≡ map (λ m. on_data m.message) two_messages)
    × (o.rest.read_offset ≡ o.rest.size)
    × Between 100 o.frame
messages_arrive_example =
    messages_arrive 100 binary true two_messages (fresh 100) sent binary-IsData
      (
        record {
          some_limit = omega arith;
          within_limit = omega arith;
          on_wire = in_two (omega arith);
          key_size = λ i. omega arith;
        },
        (
          record {
            some_limit = omega arith;
            within_limit = omega arith;
            on_wire = in_two (omega arith);
            key_size = λ i. omega arith;
          },
          tt,
        ),
      )
      fresh-Between sent-Sees

header_and_body : SocketData
header_and_body = data_of (header_list ping 2 0x01020304 true ++ 8 ∷ 9 ∷ [])

ping-IsLegal : IsLegal ping true 2
unfolding is_control_code is_op_code_reserved
ping-IsLegal = record { known = refl; control = λ e. (omega arith, refl) }

-- A masked ping of two bytes.
read_frame-header_list_example :
    (t : SocketData) × (read_frame (fresh 100) header_and_body
      ≡ some (accepted (fresh 100) ping true 0x01020304 2 done, t))
    × Sees t (mask (8 ∷ 9 ∷ []) 2 0x01020304)
unfolding header_and_body
read_frame-header_list_example =
    read_frame-header_list (fresh 100) ping true 0x01020304 2 (8 ∷ 9 ∷ []) header_and_body
      (fresh-Between.at_header) (omega (arith, fresh-Between.limit)) (omega arith) (omega arith)
      ping-IsLegal (in_two (omega arith))
      (record { small = omega arith; ahead = refl; exact = refl })

fresh-Settled : (s : SocketData) → Settled (fresh 100) s
unfolding fresh
fresh-Settled s d = absurd (omega (arith, ap rank d))

-- Three bytes that are not a whole frame.
abbrev some_bytes : SocketData
some_bytes = data_of (0x82 ∷ 0x05 ∷ 7 ∷ [])

some_bytes-InData : InData some_bytes
some_bytes-InData = record { small = omega arith; within = omega arith }

process_message-returns_example :
    (o : Outcome) × (process_message (fresh 100) some_bytes ≡ some o) × Ends some_bytes o
process_message-returns_example =
    process_message-returns (fresh 100) some_bytes some_bytes-InData
      (omega (arith, ap rank (fresh-Between.at_header))) (fresh-Settled some_bytes)

read_frame-returns_example :
    (g : Frame) × (t : SocketData) × (read_frame (fresh 100) some_bytes ≡ some (g, t))
    × Reads some_bytes g t
read_frame-returns_example =
    read_frame-returns (fresh 100) some_bytes some_bytes-InData
      (omega (arith, ap rank (fresh-Between.at_header))) (fresh-Settled some_bytes)

contents-get_frame_header_example :
    contents (get_frame_header text 200 7 true) ≡ header_list text 200 7 true
contents-get_frame_header_example = contents-get_frame_header text 200 7 true (omega arith)

mask-bytes_example :
    (get_or (mask (1 ∷ 2 ∷ 9 ∷ []) 2 0x01020304) 1 0 ≡ bit_xor 2 2)
    × (drop 2 (mask (1 ∷ 2 ∷ 9 ∷ []) 2 0x01020304) ≡ 9 ∷ [])
    × (mask (mask (1 ∷ 2 ∷ 9 ∷ []) 2 0x01020304) 2 0x01020304 ≡ 1 ∷ 2 ∷ 9 ∷ [])
mask-bytes_example = mask-bytes (1 ∷ 2 ∷ []) (9 ∷ []) 0x01020304 1 (omega arith)

-- A first fragment of two bytes, ready to be processed.
abbrev fragment : Frame
fragment = record (fresh 100) {
  processing_state = done;
  is_valid = true;
  is_fragmented = false;
  is_final_frame = false;
  op_code = binary;
  size = 2;
}

abbrev fragment_data : SocketData
fragment_data = data_of (5 ∷ 6 ∷ [])

fragment-is_data : is_control_frame fragment ≡ false
unfolding is_control_code
fragment-is_data = refl

fragment-small : fragment.size + fragment.message.offset < 2 ^ 64
unfolding fresh DataWrap.create
fragment-small = omega arith

fragment_cases_example :
    ((is_continuation_frame fragment ≡ true)
      × (process_frame fragment fragment_data
          ≡ leave [] (record fragment { op_code = close }) fragment_data))
    ⊎ ((fragment.is_final_frame ≡ false)
        × (fragment.size + fragment.message.offset ≤ fragment.message.capacity)
        × (g : Frame) × (process_frame fragment fragment_data ≡ leave [] g fragment_data)
        × (g.op_code ≡ close))
    ⊎ ((fragment.is_final_frame ≡ false)
        × (fragment.message.capacity < fragment.size + fragment.message.offset)
        × (g : Frame) × (process_frame fragment fragment_data
            ≡ more [] g (advance fragment_data fragment.size))
        × (g.message ≡ fragment.message)
        × (g.is_fragmented ≡ false))
    ⊎ ((fragment.is_final_frame ≡ true)
        × (is_continuation_frame fragment ≡ false)
        × (g : Frame) × (process_frame fragment fragment_data
            ≡ more
                (on_data (payload fragment fragment_data) ∷ [])
                g
                (advance fragment_data fragment.size)))
fragment_cases_example =
    fragment_cases fragment fragment_data refl refl refl fragment-is_data fragment-small
