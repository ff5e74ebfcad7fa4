-- ===== src/Frame/Writer.antt =====
-- Frame.cpp `getFrameHeader` and Frame.h `sendMsg`: how messages become frames.
use lu.Base.{
  ℕ, zero, suc, ◌+◌, ◌/◌, ◌%◌, min, Bool, Option, none, some, List, [], ◌++◌, ltb, leb, ◌==◌,
  if◌then◌else◌, bit_and, bit_or, take, drop, length, u8, u16, le_bytes, byte_swap,
}
use lu.Crypto.DataWrap.{DataWrap, create, contents}
use lu.Crypto.DataWrap
use lu.Frame.Types.{OpCode, continue, to_code}
use lu.Frame.Reader.{mask}

-- `header.append(&word, w)`: the bytes of a `w`-byte word in host order.
abbrev pub append_word : DataWrap → ℕ → ℕ → DataWrap
append_word h w x = (DataWrap.append h (le_bytes w x) w).0

-- FIN and the opcode.
unfoldable pub first_byte : OpCode → Bool → ℕ
first_byte code last = u8 (bit_or (bit_and (to_code code) 0x0f) (if last then 0x80 else 0x00))

-- The mask bit.
abbrev pub mask_bit : ℕ → ℕ
mask_bit key = if key == 0 then 0x00 else 0x80

-- The second byte and the length.
unfoldable pub append_length : DataWrap → ℕ → ℕ → DataWrap
append_length h size key =
    if leb size 125
    then append_word h 1 (bit_or (mask_bit key) (u8 size))
    else if leb size 0xffff
    then append_word (append_word h 1 (bit_or (mask_bit key) 126)) 2 (byte_swap 2 (u16 size))
    else if leb size 0x7fffffffffffffff
    then append_word (append_word h 1 (bit_or (mask_bit key) 127)) 8 (byte_swap 8 size)
    else h

abbrev pub append_mask : DataWrap → ℕ → DataWrap
append_mask h key = if key == 0 then h else append_word h 4 (byte_swap 4 key)

-- `getFrameHeader`. Its buffer is returned without a move.
unfoldable pub get_frame_header : OpCode → ℕ → ℕ → Bool → DataWrap
get_frame_header code size key last =
    if leb size 0x7fffffffffffffff
    then append_mask (append_length (append_word (create 14) 1 (first_byte code last)) size key) key
    else create 14

-- The number of frames; one for an empty message. For a limit of 0 the division has no result.
unfoldable pub frame_count : ℕ → ℕ → Option ℕ
frame_count size max_size = if max_size == 0 then none else some (if count == 0 then 1 else count)
  where
    count : ℕ
    count = if size % max_size == 0 then size / max_size else size / max_size + 1

-- One frame: its header, and its payload unless that is empty.
unfoldable pub frame_bytes : OpCode → ℕ → Bool → Bool → List ℕ → List ℕ
frame_bytes code key masked last chunk =
    contents (get_frame_header code (length chunk) key last)
    ++ (if ltb 0 (length chunk)
        then (if masked then mask chunk (length chunk) key else chunk)
        else [])

-- The loop of `sendMsg` at frame `i`, with `left` frames to go: the bytes sent, in order. `keys i` is
-- the `i`th value of `generateRandomUint32`. The list is what the message has left.
unfoldable pub send_from : ℕ → (ℕ → ℕ) → Bool → OpCode → ℕ → ℕ → List ℕ → List ℕ
send_from max_size keys masked code zero i message = []
send_from max_size keys masked code (suc left) i message =
    frame_bytes (if i == 0 then code else continue) (if masked then keys i else 0) masked
      (left == 0) (take (min (length message) max_size) message)
    ++ send_from max_size keys masked code left (i + 1)
        (drop (min (length message) max_size) message)

abbrev pub send_frames : List ℕ → ℕ → (ℕ → ℕ) → OpCode → Bool → Option ℕ → Option (List ℕ)
send_frames message max_size keys code masked none = none
send_frames message max_size keys code masked (some n) =
    some (send_from max_size keys masked code n 0 message)

unfoldable pub send_msg : List ℕ → ℕ → (ℕ → ℕ) → OpCode → Bool → Option (List ℕ)
send_msg message max_size keys code masked =
    send_frames message max_size keys code masked (frame_count (length message) max_size)
