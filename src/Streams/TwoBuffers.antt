-- ===== src/Streams/TwoBuffers.antt =====
-- StringV as one row of bytes: the first buffer, then the second.
use lu.Base.{
  ℕ, ◌+◌, ◌-◌, ◌≤◌, ◌<◌, ◌≡◌, refl, sym, ap, ap₂, subst, ◌∙◌, some, List, [], ◌++◌, append_assoc,
  length, length-drop, length-take, take, drop, take_all, take-append-drop, overwrite, slice,
  of_le_bytes, dec_le, dec_lt, lt→ltb, not_ltb, length-overwrite, arith,
}
use lu.Streams.Cutting.{HandlerLaws, Shows}
use lu.Streams.Overwrites.{
  slice_first, slice_both, slice_second, overwrite_nothing, overwrite_first, overwrite_second,
  overwrite_both, drop_less, drop_more, drop_all,
}
use lu.Streams.StringHandler.{message_size}
use lu.Streams.StringV.{
  StringV, IoVec, single_buffer_size, header_size, read_header, copied, read_message, across,
  get_number_of_buffers, scatter, swap, string_v,
}

abbrev pub both : StringV → List ℕ
both v = v.buffer1 ++ v.buffer2

abbrev pub IsSized : StringV → Type 0
IsSized v = (length v.buffer1 ≡ single_buffer_size) × (length v.buffer2 ≡ single_buffer_size)

across-slice :
    (v : StringV) (offset size : ℕ)
    → IsSized v
    → offset ≤ single_buffer_size
    → single_buffer_size ≤ offset + size
    → across v offset size ≡ slice (both v) offset size
across-slice v offset size sized h h' =
    subst
      (λ k.
        slice v.buffer1 offset (k - offset) ++ slice v.buffer2 0 (size - (k - offset))
        ≡ slice (both v) offset size)
      sized.0
      (sym (
        slice_both v.buffer1 v.buffer2 offset size (omega (arith, sized.0, h))
          (omega (arith, sized.0, h'))))

second-slice :
    (v : StringV) (offset size : ℕ)
    → IsSized v
    → single_buffer_size ≤ offset
    → slice v.buffer2 (offset - single_buffer_size) size ≡ slice (both v) offset size
second-slice v offset size sized h =
    subst (λ k. slice v.buffer2 (offset - k) size ≡ slice (both v) offset size) sized.0
      (sym (slice_second v.buffer1 v.buffer2 offset size (omega (arith, sized.0, h))))

-- Wherever a message stands, the handler gives its bytes.
pub copied-slice :
    (v : StringV) (offset size : ℕ) → IsSized v → copied v offset size ≡ slice (both v) offset size
unfolding copied
copied-slice v offset size sized = elim (dec_lt offset single_buffer_size) [
  | no far ↦ ground (arith, far, second-slice v offset size sized (omega (arith, far)))
  | yes near ↦ elim (dec_le single_buffer_size (offset + size)) [
    | yes long ↦
        ground (arith, near, long, across-slice v offset size sized (omega (arith, near)) long)
    | no short ↦ ground (
      arith,
      near,
      short,
      slice_first v.buffer1 v.buffer2 offset size (omega (arith, short, sized.0)),
    )
  ]
]

pub read_message-slice :
    (v : StringV) (offset size : ℕ)
    → IsSized v
    → size ≤ message_size
    → read_message v offset size ≡ some (slice (both v) offset size)
unfolding read_message
read_message-slice v offset size sized h =
    rw (not_ltb message_size size h) (ap some (copied-slice v offset size sized))

-- A header is read as a message of its size is.
header-message :
    (v : StringV) (offset : ℕ) → read_header v offset ≡ of_le_bytes (copied v offset header_size)
unfolding read_header copied
header-message v offset = ground arith

pub read_header-slice :
    (v : StringV) (offset : ℕ)
    → IsSized v
    → read_header v offset ≡ of_le_bytes (slice (both v) offset header_size)
read_header-slice v offset sized =
    header-message v offset ∙ ap of_le_bytes (copied-slice v offset header_size sized)

abbrev pub windows_near : ℕ → IoVec
windows_near offset = record {
  base1 = offset;
  len1 = single_buffer_size - offset;
  base2 = 0;
  len2 = single_buffer_size;
}

abbrev pub windows_far : ℕ → IoVec
windows_far offset = record {
  base1 = 0;
  len1 = 0;
  base2 = offset - single_buffer_size;
  len2 = single_buffer_size - (offset - single_buffer_size);
}

pub buffers-near :
    (offset : ℕ) → offset < single_buffer_size → get_number_of_buffers offset ≡ windows_near offset
unfolding get_number_of_buffers
buffers-near offset h = rw (lt→ltb offset single_buffer_size h) refl

pub buffers-far :
    (offset : ℕ) → single_buffer_size ≤ offset → get_number_of_buffers offset ≡ windows_far offset
unfolding get_number_of_buffers
buffers-far offset h = rw (not_ltb offset single_buffer_size h) refl

scatter-far :
    (v : StringV) (offset : ℕ) (c : List ℕ)
    → IsSized v
    → single_buffer_size ≤ offset
    → both (scatter v (windows_far offset) c) ≡ overwrite (both v) offset c
scatter-far v offset c sized h =
    ap (λ b. b ++ overwrite v.buffer2 (offset - single_buffer_size) c)
      (overwrite_nothing v.buffer1 0)
    ∙ (sym (overwrite_second v.buffer1 c v.buffer2 (offset - single_buffer_size))
        ∙ ap (λ k. overwrite (both v) k c) (omega (arith, sized.0, h)))

scatter-near :
    (v : StringV) (offset : ℕ) (c : List ℕ)
    → IsSized v
    → offset < single_buffer_size
    → both (scatter v (windows_near offset) c) ≡ overwrite (both v) offset c
scatter-near v offset c sized h = elim (dec_le (length c) (single_buffer_size - offset)) [
  | yes short ↦
      ap₂ (λ a b. overwrite v.buffer1 offset a ++ overwrite v.buffer2 0 b)
        (take_all (single_buffer_size - offset) c short)
        (drop_all (single_buffer_size - offset) c short)
      ∙ (ap (λ b. overwrite v.buffer1 offset c ++ b) (overwrite_nothing v.buffer2 0)
          ∙ sym (overwrite_first v.buffer1 c v.buffer2 offset (omega (arith, short, h, sized.0))))
  | no long ↦
      sym (
        overwrite_both v.buffer1 (take (single_buffer_size - offset) c) v.buffer2
          (drop (single_buffer_size - offset) c) offset
          (omega (arith, long, h, sized.0, length-take (single_buffer_size - offset) c)))
      ∙ ap (overwrite (both v) offset) (take-append-drop (single_buffer_size - offset) c)
]

-- On two buffers of 1000 bytes, what `readv` writes at the windows that `getNumberOfBuffers`
-- gives is what one write at the offset does to the row of both buffers.
pub scatter-both :
    (v : StringV) (offset : ℕ) (c : List ℕ)
    → IsSized v
    → both (scatter v (get_number_of_buffers offset) c) ≡ overwrite (both v) offset c
scatter-both v offset c sized = elim (dec_lt offset single_buffer_size) [
  | yes near ↦
      ap (λ io. both (scatter v io c)) (buffers-near offset near)
      ∙ scatter-near v offset c sized near
  | no far ↦
      ap (λ io. both (scatter v io c)) (buffers-far offset (omega (arith, far)))
      ∙ scatter-far v offset c sized (omega (arith, far))
]

pub scatter-IsSized :
    (v : StringV) (offset : ℕ) (c : List ℕ)
    → IsSized v
    → offset + length c ≤ single_buffer_size + single_buffer_size
    → IsSized (scatter v (get_number_of_buffers offset) c)
scatter-IsSized v offset c sized h = elim (dec_lt offset single_buffer_size) [
  | yes near ↦ rw (buffers-near offset near) (
    length-overwrite v.buffer1 offset (take (single_buffer_size - offset) c)
          (omega (arith, near, sized.0, length-take (single_buffer_size - offset) c))
        ∙ sized.0,
    length-overwrite v.buffer2 0 (drop (single_buffer_size - offset) c)
          (omega (arith, near, h, sized.1, length-drop (single_buffer_size - offset) c))
        ∙ sized.1,
  )
  | no far ↦ rw (buffers-far offset (omega (arith, far))) (
    length-overwrite v.buffer1 0 [] (omega arith) ∙ sized.0,
    length-overwrite v.buffer2 (offset - single_buffer_size) c (omega (arith, far, h, sized.1))
        ∙ sized.1,
  )
]

pub header_size-pos : 0 < header_size
header_size-pos = omega arith

abbrev pub string_v-laws : HandlerLaws string_v
string_v-laws = record {
  flat = both;
  IsSized = IsSized;
  size_of = of_le_bytes;
  message_room = message_size;
  some_header = header_size-pos;
  header_is = λ v offset sized h. read_header-slice v offset sized;
  message_is = λ v offset size sized h room. read_message-slice v offset size sized room;
}

-- The second buffer, shown from the front after a swap.
pub swap-Shows :
    (v : StringV) (offset : ℕ) (p : List ℕ)
    → IsSized v
    → single_buffer_size ≤ offset
    → offset < single_buffer_size + single_buffer_size
    → Shows (both v) offset p
    → Shows (both (swap v)) (offset - single_buffer_size) p
swap-Shows v offset p sized h h' s = record {
  behind = s.behind ++ v.buffer1;
  shown =
      drop_less (offset - single_buffer_size) v.buffer2 v.buffer1 (omega (arith, h', sized.1))
      ∙ (ap (λ t. t ++ v.buffer1)
            (sym (
                drop_more (length v.buffer1) (offset - single_buffer_size) v.buffer1 v.buffer2 refl)
              ∙ (ap (λ k. drop k (both v)) (omega (arith, h, sized.0)) ∙ s.shown))
          ∙ append_assoc p s.behind v.buffer1);
}
