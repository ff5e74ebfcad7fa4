-- ===== src/Frame/Parsing.antt =====
-- What `readFrame` makes of a header that `getFrameHeader` wrote, step by step.
use lu.Base.{
  ℕ, ◌+◌, ◌*◌, ◌/◌, ◌%◌, ◌^◌, ◌≤◌, ◌<◌, ◌≡◌, refl, ap, ◌∙◌, Bool, true, false, List, ◌∷◌, ◌++◌,
  length, get_or, take, drop, length-append, drop-append, drop-drop, get_or-drop, take-append, ltb,
  ◌==◌, if◌then◌else◌, bit_and, le_bytes, of_le_bytes, byte_swap, arith,
}
use lu.Base.Bytes.{length-le_bytes, swapped_load}
use lu.Base.Tables.{all_below, all_below_holds}
use lu.Frame.Types.{
  ProcessingState, read_header, read_payload_length, read_mask, read_payload, OpCode, continue,
  of_code, SocketData, get_data_left_to_read, Frame, is_op_code_reserved, is_control_code,
}
use lu.Frame.Reader.{
  advance, byte_ahead, word_ahead, again, check_validity, header_fields, read_frame_header,
  accept_length16, read_length16, accept_length64, read_length64, read_frame_payload_length,
  read_frame_mask, step_in,
}
use lu.Frame.Writer.{first_byte, mask_bit}

-- The bytes from the read offset to the end of the data.
pub record Sees (s : SocketData) (bs : List ℕ) : Type 0 where
  pub small : s.size < 2 ^ 32
  pub ahead : drop s.read_offset s.bytes ≡ bs
  pub exact : s.read_offset + length bs ≡ s.size

pub advance-Sees :
    {s : SocketData} (xs ys : List ℕ) (n : ℕ)
    → length xs ≡ n
    → Sees s (xs ++ ys)
    → Sees (advance s n) ys
advance-Sees {s} xs ys n e v = record {
  small = v.small;
  ahead =
      ap (λ k. drop k s.bytes) (omega (arith, v.small, v.exact, length-append xs ys))
      ∙ (drop-drop s.read_offset n s.bytes ∙ (ap (drop n) v.ahead ∙ drop-append n xs ys e));
  exact = omega (arith, v.small, v.exact, length-append xs ys);
}

pub Sees-left : {s : SocketData} {bs : List ℕ} → Sees s bs → get_data_left_to_read s ≡ length bs
Sees-left v = omega (arith, v.small, v.exact)

-- A frame whose header is read, at one of the parser's states.
abbrev pub accepted : Frame → OpCode → Bool → ℕ → ℕ → ProcessingState → Frame
accepted f code last key n st = record f {
  processing_state = st;
  is_final_frame = last;
  rsv1 = false;
  rsv2 = false;
  rsv3 = false;
  is_valid = true;
  mask_key = key;
  size = n;
  op_code = code;
}

-- What the parser accepts: no reserved opcode, and control frames short and whole.
pub record IsLegal (code : OpCode) (last : Bool) (n : ℕ) : Type 0 where
  pub known : is_op_code_reserved code ≡ false
  pub control : is_control_code code ≡ true → (n ≤ 125) × (last ≡ true)

record FirstBits (code : OpCode) (last : Bool) : Type 0 where
  final : ltb 0 (bit_and (first_byte code last) 0x80) ≡ last
  bit1 : ltb 0 (bit_and (first_byte code last) 0x40) ≡ false
  bit2 : ltb 0 (bit_and (first_byte code last) 0x20) ≡ false
  bit3 : ltb 0 (bit_and (first_byte code last) 0x10) ≡ false
  code_bits : of_code (bit_and (first_byte code last) 0x0f) ≡ code

first_bits : (code : OpCode) (last : Bool) → FirstBits code last
unfolding first_byte
first_bits continue true = record {
  final = refl;
  bit1 = refl;
  bit2 = refl;
  bit3 = refl;
  code_bits = refl;
}
first_bits _ true = record { final = refl; bit1 = refl; bit2 = refl; bit3 = refl; code_bits = refl }
first_bits continue false = record {
  final = refl;
  bit1 = refl;
  bit2 = refl;
  bit3 = refl;
  code_bits = refl;
}
first_bits _ false = record {
  final = refl;
  bit1 = refl;
  bit2 = refl;
  bit3 = refl;
  code_bits = refl;
}

low_table : all_below 256 (λ b. bit_and b 0x7f == b % 128) ≡ true
unfolding all_below
low_table = refl

high_table : all_below 256 (λ b. bit_and b 0x80 == b / 128 * 128) ≡ true
unfolding all_below
high_table = refl

second_bits :
    (key low : ℕ)
    → low < 128
    → (bit_and (mask_bit key + low) 0x7f ≡ low) × (bit_and (mask_bit key + low) 0x80 ≡ mask_bit key)
second_bits key low h = (
  ground (arith, all_below_holds 256 _ (mask_bit key + low) low_table),
  ground (arith, all_below_holds 256 _ (mask_bit key + low) high_table),
)

-- The fields of a header that `getFrameHeader` wrote, and the check of them.
fields-IsLegal :
    (f : Frame) (code : OpCode) (last : Bool) (key low : ℕ)
    → low < 128
    → IsLegal code last low
    → check_validity (header_fields f (first_byte code last) (mask_bit key + low))
      ≡ accepted f code last (mask_bit key) low f.processing_state
unfolding check_validity header_fields
fields-IsLegal f code last key low h legal =
    ground
      (arith, b.final, b.bit1, b.bit2, b.bit3, b.code_bits, second_bits key low h, legal.control)
  where
    b : FirstBits code last
    b = first_bits code last

-- Where the parser goes from an accepted length.
abbrev pub next_state : ℕ → ProcessingState
next_state key = if key == 0 then read_payload else read_mask

abbrev pub length_state : ℕ → ℕ → ProcessingState
length_state key low =
    if low == 126
    then read_payload_length
    else if low == 127
    then read_payload_length
    else next_state key

pub header_step :
    (f : Frame) {s : SocketData} (code : OpCode) (last : Bool) (key low : ℕ) (rest : List ℕ)
    → low < 128
    → IsLegal code last low
    → Sees s (first_byte code last ∷ (mask_bit key + low) ∷ rest)
    → step_in read_header f s
      ≡ again (accepted f code last (mask_bit key) low (length_state key low)) (advance s 2)
unfolding step_in read_frame_header
header_step f {s} code last key low rest h legal v =
    ground (arith, Sees-left v, b0, b1, fields-IsLegal f code last key low h legal)
  where
    b0 : byte_ahead s 0 ≡ first_byte code last
    b0 = get_or-drop s.read_offset 0 s.bytes 0 ∙ ap (λ bs. get_or bs 0 0) v.ahead

    b1 : byte_ahead s 1 ≡ mask_bit key + low
    b1 = get_or-drop s.read_offset 1 s.bytes 0 ∙ ap (λ bs. get_or bs 1 0) v.ahead

word_ahead-Sees :
    {s : SocketData} (w x : ℕ) (rest : List ℕ)
    → x < 256 ^ w
    → Sees s (le_bytes w (byte_swap w x) ++ rest)
    → byte_swap w (word_ahead s w) ≡ x
word_ahead-Sees {s} w x rest h v =
    ap (λ bs. byte_swap w (of_le_bytes bs))
      (ap (take w) v.ahead ∙ take-append w _ rest (length-le_bytes w (byte_swap w x)))
    ∙ swapped_load w x h

Sees-room :
    {s : SocketData} (w x : ℕ) (rest : List ℕ)
    → Sees s (le_bytes w x ++ rest)
    → w ≤ get_data_left_to_read s
Sees-room w x rest v =
    omega (arith, Sees-left v, length-append (le_bytes w x) rest, length-le_bytes w x)

-- The lengths that the parser accepts: bit 15 of a length in eight bytes must be 0.
pub data WireLength (n : ℕ) : Type 0 where
  in_two : n ≤ 0xffff → WireLength n
  in_eight : 0xffff < n → n < 2 ^ 32 → bit_and n 0b1000000000000000 ≡ 0 → WireLength n

pub length16_step :
    (f : Frame) {s : SocketData} (code : OpCode) (last : Bool) (key n : ℕ) (rest : List ℕ)
    → 125 < n
    → n ≤ 0xffff
    → Sees s (le_bytes 2 (byte_swap 2 n) ++ rest)
    → step_in read_payload_length (accepted f code last (mask_bit key) 126 read_payload_length) s
      ≡ again (accepted f code last (mask_bit key) n (next_state key)) (advance s 2)
unfolding step_in read_frame_payload_length read_length16 accept_length16
length16_step f code last key n rest h k v =
    ground (arith, Sees-room 2 (byte_swap 2 n) rest v, word_ahead-Sees 2 n rest (omega arith) v)

pub length64_step :
    (f : Frame) {s : SocketData} (code : OpCode) (last : Bool) (key n : ℕ) (rest : List ℕ)
    → 0xffff < n
    → n < 2 ^ 32
    → bit_and n 0b1000000000000000 ≡ 0
    → Sees s (le_bytes 8 (byte_swap 8 n) ++ rest)
    → step_in read_payload_length (accepted f code last (mask_bit key) 127 read_payload_length) s
      ≡ again (accepted f code last (mask_bit key) n (next_state key)) (advance s 8)
unfolding step_in read_frame_payload_length read_length64 accept_length64
length64_step f code last key n rest h k b v =
    ground (arith, Sees-room 8 (byte_swap 8 n) rest v, word_ahead-Sees 8 n rest (omega arith) v, b)

pub mask_step :
    (f : Frame) {s : SocketData} (code : OpCode) (last : Bool) (old key n : ℕ) (rest : List ℕ)
    → key < 2 ^ 32
    → Sees s (le_bytes 4 (byte_swap 4 key) ++ rest)
    → step_in read_mask (accepted f code last old n read_mask) s
      ≡ again (accepted f code last key n read_payload) (advance s 4)
unfolding step_in read_frame_mask
mask_step f code last old key n rest h v =
    ground (arith, Sees-room 4 (byte_swap 4 key) rest v, word_ahead-Sees 4 key rest (omega arith) v)
