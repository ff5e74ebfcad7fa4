-- ===== src/Frame/Layout.antt =====
-- What `getFrameHeader` writes, as a list of bytes.
use lu.Base.{
  ℕ, ◌+◌, ◌≤◌, ◌<◌, ◌≡◌, refl, ap, subst, sym, ◌∙◌, Bool, true, List, [], ◌∷◌, ◌++◌, length,
  length-append, leb, le→leb, dec_le, ℕ_discrete, append-nil, ◌==◌, if◌then◌else◌, bit_or, le_bytes,
  byte_swap, arith,
}
use mathlib.Core.Path.{subst₂}
use lu.Base.Bytes.{length-le_bytes}
use lu.Base.Bits.{zero-bit_or}
use lu.Base.Tables.{all_below, all_below_holds}
use lu.Crypto.DataWrap.{DataWrap, create, contents, IsWell}
use lu.Crypto.Filling.{create-IsWell, append_whole}
use lu.Frame.Types.{OpCode}
use lu.Frame.Writer.{
  append_word, first_byte, mask_bit, append_length, append_mask, get_frame_header,
}

abbrev pub length_part : ℕ → ℕ → List ℕ
length_part size key =
    if leb size 125
    then (mask_bit key + size) ∷ []
    else if leb size 0xffff
    then (mask_bit key + 126) ∷ le_bytes 2 (byte_swap 2 size)
    else (mask_bit key + 127) ∷ le_bytes 8 (byte_swap 8 size)

abbrev pub mask_part : ℕ → List ℕ
mask_part key = if key == 0 then [] else le_bytes 4 (byte_swap 4 key)

abbrev pub header_list : OpCode → ℕ → ℕ → Bool → List ℕ
header_list code size key last = first_byte code last ∷ (length_part size key ++ mask_part key)

mask_bit_table : all_below 128 (λ x. bit_or 0x80 x == 0x80 + x) ≡ true
unfolding all_below
mask_bit_table = refl

-- The mask bit is above the length.
or_mask_bit : (key x : ℕ) → x < 128 → bit_or (mask_bit key) x ≡ mask_bit key + x
or_mask_bit key x h = ground (arith, all_below_holds 128 _ x mask_bit_table h, zero-bit_or x)

-- A header under construction: the bytes so far, in a buffer of 14.
record Filled (w : DataWrap) (bs : List ℕ) : Type 0 where
  holds : contents w ≡ bs
  well : IsWell w
  count : w.offset ≡ length bs
  room : w.capacity ≡ 14

create-Filled : Filled (create 14) []
unfolding create
create-Filled = record { holds = refl; well = create-IsWell 14; count = refl; room = refl }

word-Filled :
    {w : DataWrap} {bs : List ℕ} (k x : ℕ)
    → Filled w bs
    → length bs + k ≤ 14
    → Filled (append_word w k x) (bs ++ le_bytes k x)
word-Filled {w} {bs} k x f fits =
    let (holds, well, count, room) =
      append_whole w (le_bytes k x) k f.well (omega (arith, f.room)) (length-le_bytes k x)
        (omega (arith, f.room, f.count)) in
    record {
      holds = holds ∙ ap (λ t. t ++ le_bytes k x) f.holds;
      well = well;
      count = omega (arith, count, f.count, length-append bs (le_bytes k x), length-le_bytes k x);
      room = room ∙ f.room;
    }

byte-Filled :
    {w : DataWrap} {bs : List ℕ} (x : ℕ)
    → Filled w bs
    → length bs + 1 ≤ 14
    → x < 256
    → Filled (append_word w 1 x) (bs ++ x ∷ [])
byte-Filled {w} {bs} x f fits small =
    subst (λ y. Filled (append_word w 1 x) (bs ++ y ∷ [])) (omega arith) (word-Filled 1 x f fits)

mask_bit-lt : (key : ℕ) → mask_bit key ≤ 128
mask_bit-lt key = ground arith

flag-Filled :
    {w : DataWrap} {b : ℕ} (key x : ℕ)
    → x < 128
    → Filled w (b ∷ [])
    → Filled (append_word w 1 (bit_or (mask_bit key) x)) (b ∷ (mask_bit key + x) ∷ [])
flag-Filled key x h f =
    rw (or_mask_bit key x h) (byte-Filled _ f (omega arith) (omega (arith, mask_bit-lt key)))

Filled-eq : {v w : DataWrap} {bs cs : List ℕ} → v ≡ w → bs ≡ cs → Filled w cs → Filled v bs
Filled-eq p q f = subst₂ Filled (sym p) (sym q) f

length-Filled :
    {w : DataWrap} {b : ℕ} (size key : ℕ)
    → size ≤ 0x7fffffffffffffff
    → Filled w (b ∷ [])
    → Filled (append_length w size key) (b ∷ length_part size key)
unfolding append_length
length-Filled {w} {b} size key h f = elim (dec_le size 125) [
  | yes short ↦
      Filled-eq {w = append_word w 1 (bit_or (mask_bit key) size)} (ground arith) (ground arith)
        (flag-Filled key size (omega arith) f)
  | no long ↦ elim (dec_le size 0xffff) [
    | yes middle ↦
        Filled-eq
          {w = append_word (append_word w 1 (bit_or (mask_bit key) 126)) 2 (byte_swap 2 size)}
          (ground arith) (ground arith)
          (word-Filled 2 _ (flag-Filled key 126 (omega arith) f) (omega arith))
    | no large ↦
        Filled-eq
          {w = append_word (append_word w 1 (bit_or (mask_bit key) 127)) 8 (byte_swap 8 size)}
          (ground arith) (ground arith)
          (word-Filled 8 _ (flag-Filled key 127 (omega arith) f) (omega arith))
  ]
]

length-length_part : (size key : ℕ) → length (length_part size key) ≤ 9
length-length_part size key =
    ground (arith, length-le_bytes 2 (byte_swap 2 size), length-le_bytes 8 (byte_swap 8 size))

mask-Filled :
    {w : DataWrap} {bs : List ℕ} (key : ℕ)
    → length bs ≤ 10
    → Filled w bs
    → Filled (append_mask w key) (bs ++ mask_part key)
mask-Filled {w} {bs} key h f = elim (ℕ_discrete key 0) [
  | yes e ↦ Filled-eq {w = w} (ground arith) (ground (arith, append-nil bs)) f
  | no e ↦
      Filled-eq {w = append_word w 4 (byte_swap 4 key)} (ground arith) (ground arith)
        (word-Filled 4 _ f (omega arith))
]

first_byte-lt : (code : OpCode) (last : Bool) → first_byte code last < 256
unfolding first_byte
first_byte-lt code last = omega arith

-- For a payload length below 2^63 the header buffer holds the first byte, the length in one,
-- three or nine bytes with the mask bit, and the masking key unless it is 0.
pub contents-get_frame_header :
    (code : OpCode) (size key : ℕ) (last : Bool)
    → size ≤ 0x7fffffffffffffff
    → contents (get_frame_header code size key last) ≡ header_list code size key last
unfolding get_frame_header
contents-get_frame_header code size key last h = rw (le→leb size 0x7fffffffffffffff h) (whole.holds)
  where
    first : Filled (append_word (create 14) 1 (first_byte code last)) (first_byte code last ∷ [])
    first = byte-Filled _ create-Filled (omega arith) (first_byte-lt code last)

    whole :
        Filled
          (append_mask
            (append_length (append_word (create 14) 1 (first_byte code last)) size key)
            key)
          (header_list code size key last)
    whole =
        mask-Filled key (omega (arith, length-length_part size key))
          (length-Filled size key h first)
