-- ===== src/Frame/Reader.antt =====
-- Frame.cpp, the parser: `readFrame` and the functions that it calls, and `mask`.
use lu.Base.{
  ℕ, zero, suc, ◌+◌, ◌-◌, ◌%◌, ◌^◌, Bool, true, not, ◌||◌, List, [], ◌∷◌, ◌++◌, Option, none, some,
  ltb, leb, ◌==◌, if◌then◌else◌, bit_and, bit_xor, get_or, take, drop, slice, u8, u32, ◌>>>◌,
  byte_swap, of_le_bytes,
}
use lu.Frame.Types.{
  ProcessingState, read_header, read_payload_length, read_mask, read_payload, wait_for_data, done,
  error, of_code, close_code_protocol_error, close_code_too_much_data, SocketData,
  get_data_left_to_read, Frame, set_error, is_op_code_reserved, is_control_frame, has_mask,
}

-- `socketData.readOffset += n`
abbrev pub advance : SocketData → ℕ → SocketData
advance s n = record s { read_offset = u32 (s.read_offset + n) }

-- The byte at `socketData.data[socketData.readOffset + i]`.
abbrev pub byte_ahead : SocketData → ℕ → ℕ
byte_ahead s i = get_or s.bytes (s.read_offset + i) 0

-- `memcpy` of `w` bytes at the read offset into a word, in host order.
abbrev pub word_ahead : SocketData → ℕ → ℕ
word_ahead s w = of_le_bytes (slice s.bytes s.read_offset w)

-- Both results of `checkValidity`: the frame, whose `is_valid` is also what is returned.
unfoldable pub check_validity : Frame → Frame
check_validity f =
    if f.rsv1 || (f.rsv2 || f.rsv3)
    then set_error f close_code_protocol_error "Rsv field is non-zero"
    else if is_op_code_reserved f.op_code
    then set_error f close_code_protocol_error "Used reserved opcode"
    else if is_control_frame f
    then if ltb 125 f.size
      then set_error f close_code_protocol_error "Control frame is larger than 125 bytes"
      else if not f.is_final_frame
      then set_error f close_code_protocol_error "Control frames cannot be fragmented"
      else record f { is_valid = true }
    else record f { is_valid = true }

-- Where the parser goes once it knows the length.
abbrev pub after_length : Frame → ProcessingState
after_length f = if has_mask f then read_mask else read_payload

-- A handler's result: the state that it returns, the frame and the data that it leaves.
abbrev pub Handled : Type 0
Handled = ProcessingState × Frame × SocketData

-- The fields that the first two bytes give.
unfoldable pub header_fields : Frame → ℕ → ℕ → Frame
header_fields f b0 b1 = record f {
  is_final_frame = ltb 0 (bit_and b0 0x80);
  rsv1 = ltb 0 (bit_and b0 0x40);
  rsv2 = ltb 0 (bit_and b0 0x20);
  rsv3 = ltb 0 (bit_and b0 0x10);
  op_code = of_code (bit_and b0 0x0f);
  mask_key = bit_and b1 0x80;
  size = bit_and b1 0x7f;
}

-- What `readFrameHeader` returns for a frame that it has read and checked.
abbrev pub after_header : Frame → ProcessingState
after_header f =
    if not f.is_valid
    then done
    else if f.size == 126
    then read_payload_length
    else if f.size == 127
    then read_payload_length
    else after_length f

unfoldable pub read_frame_header : Frame → SocketData → Handled
read_frame_header f s =
    if leb 2 (get_data_left_to_read s)
    then (after_header g, g, advance s 2)
    else (wait_for_data, f, s)
  where
    g : Frame
    g = check_validity (header_fields f (byte_ahead s 0) (byte_ahead s 1))

-- The 16-bit length, and the check of it.
unfoldable pub accept_length16 : Frame → ℕ → ProcessingState × Frame
accept_length16 f size16 =
    if ltb size16 126
    then (
      done,
      set_error g close_code_protocol_error
          "Lengths smaller than 126 must be expressed as one byte.",
    )
    else (after_length g, g)
  where
    g : Frame
    g = record f { size = size16 }

unfoldable pub read_length16 : Frame → SocketData → Handled
read_length16 f s =
    if leb 2 (get_data_left_to_read s) then (read.0, read.1, advance s 2) else (wait_for_data, f, s)
  where
    read : ProcessingState × Frame
    read = accept_length16 f (byte_swap 2 (word_ahead s 2))

-- The 64-bit length, and its two checks. The mask is that of the code.
abbrev pub too_long : ℕ → Bool
too_long size64 = ltb (2 ^ 32 - 1) size64 || ltb 0 (bit_and (u32 size64) 0b1000000000000000)

unfoldable pub accept_length64 : Frame → ℕ → ProcessingState × Frame
accept_length64 f size64 =
    if too_long size64
    then (done, set_error g close_code_protocol_error "Highest bit of payload length is not 0.")
    else if leb g.size 0xffff
    then (
      done,
      set_error g close_code_protocol_error
          "Lengths smaller than 65536 (2^16) must be expressed as 2 bytes.",
    )
    else (after_length g, g)
  where
    g : Frame
    g = record f { size = u32 size64 }

unfoldable pub read_length64 : Frame → SocketData → Handled
read_length64 f s =
    if leb 8 (get_data_left_to_read s) then (read.0, read.1, advance s 8) else (wait_for_data, f, s)
  where
    read : ProcessingState × Frame
    read = accept_length64 f (byte_swap 8 (word_ahead s 8))

unfoldable pub read_frame_payload_length : Frame → SocketData → Handled
read_frame_payload_length f s =
    if f.size == 126
    then read_length16 f s
    else if f.size == 127
    then read_length64 f s
    else (wait_for_data, f, s)

unfoldable pub read_frame_mask : Frame → SocketData → Handled
read_frame_mask f s =
    if leb 4 (get_data_left_to_read s)
    then (read_payload, record f { mask_key = byte_swap 4 (word_ahead s 4) }, advance s 4)
    else (wait_for_data, f, s)

-- `const uint8_t mask[]`
abbrev pub mask_bytes : ℕ → List ℕ
mask_bytes key =
    u8 (bit_and key 0xff000000 >>> 24)
    ∷ u8 (bit_and key 0x00ff0000 >>> 16)
    ∷ u8 (bit_and key 0x0000ff00 >>> 8)
    ∷ u8 (bit_and key 0x000000ff)
    ∷ []

-- The loop of `mask`, at index `i` with `n` bytes left.
unfoldable pub mask_from : List ℕ → ℕ → ℕ → List ℕ → List ℕ
mask_from ks i zero xs = xs
mask_from ks i (suc n) [] = []
mask_from ks i (suc n) (x ∷ xs) = bit_xor x (get_or ks (i % 4) 0) ∷ mask_from ks (i + 1) n xs

-- `mask(payload, size, maskingKey)`: the memory from `payload` on, after the call.
unfoldable pub mask : List ℕ → ℕ → ℕ → List ℕ
mask payload size key = mask_from (mask_bytes key) 0 size payload

-- `mask(socketData)`
unfoldable pub mask_payload : Frame → SocketData → SocketData
mask_payload f s = record s {
  bytes = take s.read_offset s.bytes ++ mask (drop s.read_offset s.bytes) f.size f.mask_key;
}

unfoldable pub read_frame_payload : Frame → SocketData → Handled
read_frame_payload f s =
    if f.size == 0
    then (done, f, s)
    else if ltb f.max_allowed_message_size f.size
    then (done, set_error f close_code_too_much_data "Maximum framesize exceeded.", s)
    else if leb f.size (get_data_left_to_read s)
    then (done, f, if has_mask f then mask_payload f s else s)
    else (wait_for_data, f, s)

-- One turn of the loop of `readFrame`: it returns, or goes round once more.
pub data Progress : Type 0 where
  stop : Frame → SocketData → Progress
  again : Frame → SocketData → Progress

-- What the loop does with a handler's result: after `WaitForData` the state stays as it was.
abbrev pub resume : ProcessingState → Handled → Progress
resume st (wait_for_data, f, s) = stop (record f { processing_state = st }) s
resume st (next, f, s) = again (record f { processing_state = next }) s

unfoldable pub step_in : ProcessingState → Frame → SocketData → Progress
step_in read_header f s = resume read_header (read_frame_header f s)
step_in read_payload_length f s = resume read_payload_length (read_frame_payload_length f s)
step_in read_mask f s = resume read_mask (read_frame_mask f s)
step_in read_payload f s = resume read_payload (read_frame_payload f s)
step_in done f s = stop f s
step_in wait_for_data f s = again f s
step_in error f s = again f s

-- The loop, with fuel; `none` means that the fuel ran out.
unfoldable pub read_loop : ℕ → Frame → SocketData → Option (Frame × SocketData)
read_loop zero f s = none
read_loop (suc n) f s = elim (step_in f.processing_state f s) [
  | stop g t ↦ some (g, t)
  | again g t ↦ read_loop n g t
]

-- Header, length, mask, payload and the test for `Done`.
abbrev pub read_fuel : ℕ
read_fuel = 5

unfoldable pub read_frame : Frame → SocketData → Option (Frame × SocketData)
read_frame f s = read_loop read_fuel f s
