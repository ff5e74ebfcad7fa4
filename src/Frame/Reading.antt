-- ===== src/Frame/Reading.antt =====
-- `readFrame` over a frame that `getFrameHeader` and `mask` wrote: all its steps together.
use lu.Base.{
  ℕ, suc, ◌+◌, ◌^◌, ◌≤◌, ◌<◌, ◌≡◌, refl, ap, subst, sym, ◌∙◌, Bool, List, [], ◌∷◌, ◌++◌, some,
  length, take, drop, length-take, length-drop, drop-append, append_assoc, ltb, ◌==◌, if◌then◌else◌,
  le_bytes, byte_swap, bit_and, dec_le, ℕ_discrete, arith,
}
use mathlib.Core.Path.{subst₂}
use lu.Base.Bytes.{length-le_bytes}
use lu.Frame.Types.{
  ProcessingState, read_header, read_mask, read_payload, done, OpCode, SocketData, Frame,
}
use lu.Frame.Reader.{
  advance, again, mask, mask_payload, read_frame_payload, step_in, read_loop, read_frame,
}
use lu.Frame.Writer.{first_byte, mask_bit}
use lu.Frame.Layout.{length_part, mask_part, header_list}
use lu.Frame.Masking.{length-mask, mask_zero_key, mask_nothing}
use lu.Frame.Parsing.{
  Sees, advance-Sees, Sees-left, accepted, IsLegal, next_state, length_state, WireLength, in_two,
  in_eight, header_step, length16_step, length64_step, mask_step,
}

-- The data after the payload is unmasked, if there is a mask.
unmasked : SocketData → ℕ → ℕ → SocketData
unmasked s n key =
    if n == 0
    then s
    else if ltb 0 key
    then record s { bytes = take s.read_offset s.bytes ++ mask (drop s.read_offset s.bytes) n key }
    else s

masked-Sees :
    {s : SocketData} (body : List ℕ) (n key : ℕ)
    → 0 < n
    → n ≤ length body
    → Sees s body
    → Sees
        (record s { bytes = take s.read_offset s.bytes ++ mask (drop s.read_offset s.bytes) n key })
        (mask body n key)
masked-Sees {s} body n key pos room v = record {
  small = v.small;
  ahead =
      drop-append s.read_offset (take s.read_offset s.bytes) _ front
      ∙ ap (λ bs. mask bs n key) v.ahead;
  exact = omega (arith, v.exact, length-mask body n key);
}
  where
    front : length (take s.read_offset s.bytes) ≡ s.read_offset
    front = omega (
      arith,
      length-take s.read_offset s.bytes,
      length-drop s.read_offset s.bytes,
      ap length v.ahead,
    )

Sees-eq : {s t : SocketData} {bs cs : List ℕ} → s ≡ t → bs ≡ cs → Sees t cs → Sees s bs
Sees-eq p q v = subst₂ Sees (sym p) (sym q) v

unmasked-Sees :
    {s : SocketData} (body : List ℕ) (n key : ℕ)
    → n ≤ length body
    → Sees s body
    → Sees (unmasked s n key) (mask body n key)
unfolding unmasked
unmasked-Sees {s} body n key room v = elim (ℕ_discrete n 0) [
  | yes empty ↦
      Sees-eq {t = s} (ground arith) (ap (λ k. mask body k key) empty ∙ mask_nothing body key) v
  | no full ↦ elim (ℕ_discrete key 0) [
    | yes plain ↦ Sees-eq {t = s} (ground arith) (ap (mask body n) plain ∙ mask_zero_key body n) v
    | no keyed ↦ Sees-eq (ground arith) refl (masked-Sees body n key (omega arith) room v)
  ]
]

payload_step :
    (f : Frame) {s : SocketData} (code : OpCode) (last : Bool) (key n : ℕ) (body : List ℕ)
    → n ≤ f.max_allowed_message_size
    → n ≤ length body
    → Sees s body
    → step_in read_payload (accepted f code last key n read_payload) s
      ≡ again (accepted f code last key n done) (unmasked s n key)
unfolding step_in read_frame_payload mask_payload unmasked
payload_step f code last key n body small room v = ground (arith, Sees-left v)

-- One step of the loop.
loop_step :
    (n : ℕ) (f g : Frame) (s t : SocketData)
    → step_in f.processing_state f s ≡ again g t
    → read_loop (suc n) f s ≡ read_loop n g t
unfolding read_loop
loop_step n f g s t e = rw (e, read_loop)

loop_stop :
    (n : ℕ) (f : Frame) (s : SocketData)
    → f.processing_state ≡ done
    → read_loop (suc n) f s ≡ some (f, s)
unfolding read_loop step_in
loop_stop n f s e = ground arith

-- The parser from a state on: it ends with the frame done and the data behind the header unmasked.
abbrev Completes : ℕ → Frame → SocketData → Frame → List ℕ → Type 0
Completes n f s g bs = (t : SocketData) × (read_loop n f s ≡ some (g, t)) × Sees t bs

step-Completes :
    (n : ℕ) (f g : Frame) (s t : SocketData) {h : Frame} {bs : List ℕ}
    → step_in f.processing_state f s ≡ again g t
    → Completes n g t h bs
    → Completes (suc n) f s h bs
step-Completes n f g s t e (u, found, v) = (u, loop_step n f g s t e ∙ found, v)

payload-Completes :
    (f : Frame) (code : OpCode) (last : Bool) (key n : ℕ) (body : List ℕ)
    → n ≤ f.max_allowed_message_size
    → n ≤ length body
    → (k : ℕ) (s : SocketData) → Sees s body
    → Completes
        (suc (suc k))
        (accepted f code last key n read_payload)
        s
        (accepted f code last key n done)
        (mask body n key)
payload-Completes f code last key n body small room k s v =
    step-Completes (suc k) _ _ s (unmasked s n key)
      (payload_step f code last key n body small room v)
      (unmasked s n key, loop_stop k _ _ refl, unmasked-Sees body n key room v)

mask-Completes :
    (f : Frame) (code : OpCode) (last : Bool) (key n : ℕ) (body : List ℕ)
    → n ≤ f.max_allowed_message_size
    → n ≤ length body
    → key < 2 ^ 32
    → (k : ℕ) (s : SocketData) → Sees s (mask_part key ++ body)
    → Completes
        (suc (suc (suc k)))
        (accepted f code last (mask_bit key) n (next_state key))
        s
        (accepted f code last key n done)
        (mask body n key)
mask-Completes f code last key n body small room fits k s v = elim (ℕ_discrete key 0) [
  | yes plain ↦ with_mask 0 read_payload [] (ground arith) (ground arith) (ground arith) λ w.
      subst
        (λ j. Completes (suc (suc (suc k))) (accepted f code last j n read_payload) s whole masked)
        plain (payload-Completes f code last key n body small room (suc k) s w)
  | no keyed ↦
      with_mask 128 read_mask (le_bytes 4 (byte_swap 4 key)) (ground arith) (ground arith)
        (ground arith)
        λ w.
          step-Completes (suc (suc k)) _ _ s (advance s 4)
            (mask_step f code last 128 key n body fits w)
            (payload-Completes f code last key n body small room k _ (
              advance-Sees (le_bytes 4 (byte_swap 4 key)) body 4
                (length-le_bytes 4 (byte_swap 4 key)) w))
]
  where
    whole : Frame
    whole = accepted f code last key n done

    masked : List ℕ
    masked = mask body n key

    with_mask :
        (bit : ℕ) (st : ProcessingState) (part : List ℕ)
        → mask_bit key ≡ bit
        → next_state key ≡ st
        → mask_part key ≡ part
        → (Sees s (part ++ body)
            → Completes (suc (suc (suc k))) (accepted f code last bit n st) s whole masked)
        → Completes
            (suc (suc (suc k)))
            (accepted f code last (mask_bit key) n (next_state key))
            s
            whole
            masked
    with_mask bit st part p q r go =
        subst₂ (λ b t. Completes (suc (suc (suc k))) (accepted f code last b n t) s whole masked)
          (sym p) (sym q) (go (subst (λ m. Sees s (m ++ body)) r v))

-- The three forms of a length, behind the first byte.
module _ (f : Frame) (code : OpCode) (last : Bool) (key n : ℕ) (body : List ℕ)
    (small : n ≤ f.max_allowed_message_size) (room : n ≤ length body) (fits : key < 2 ^ 32)
    (s : SocketData) (start : f.processing_state ≡ read_header) where
  first_step :
      (low : ℕ) (rest : List ℕ)
      → low < 128
      → IsLegal code last low
      → Sees s (first_byte code last ∷ (mask_bit key + low) ∷ rest)
      → step_in f.processing_state f s
        ≡ again (accepted f code last (mask_bit key) low (length_state key low)) (advance s 2)
  first_step low rest h legal v =
      ap (λ st. step_in st f s) start ∙ header_step f code last key low rest h legal v

  past_header :
      (low : ℕ) (rest : List ℕ)
      → Sees s (first_byte code last ∷ (mask_bit key + low) ∷ rest)
      → Sees (advance s 2) rest
  past_header low rest v =
      advance-Sees (first_byte code last ∷ (mask_bit key + low) ∷ []) rest 2 refl v

  short-Completes :
      n ≤ 125
      → IsLegal code last n
      → Sees s (first_byte code last ∷ (mask_bit key + n) ∷ (mask_part key ++ body))
      → Completes 5 f s (accepted f code last key n done) (mask body n key)
  short-Completes h legal v =
      step-Completes 4 f _ s (advance s 2) (first_step n _ (omega arith) legal v) (
        subst
          (λ st.
            Completes 4 (accepted f code last (mask_bit key) n st) (advance s 2)
              (accepted f code last key n done) (mask body n key))
          (ground arith)
          (mask-Completes f code last key n body small room fits 1 _ (past_header n _ v)))

  middle-Completes :
      125 < n
      → n ≤ 0xffff
      → IsLegal code last 126
      → Sees s (
          first_byte code last
          ∷ (mask_bit key + 126)
          ∷ (le_bytes 2 (byte_swap 2 n) ++ (mask_part key ++ body)))
      → Completes 5 f s (accepted f code last key n done) (mask body n key)
  middle-Completes h k legal v =
      let past = past_header 126 _ v in
      step-Completes 4 f _ s (advance s 2) (first_step 126 _ (omega arith) legal v) (
        step-Completes 3 _ _ _ (advance (advance s 2) 2)
          (length16_step f code last key n _ h k past)
          (mask-Completes f code last key n body small room fits 0 _ (
            advance-Sees (le_bytes 2 (byte_swap 2 n)) _ 2 (length-le_bytes 2 (byte_swap 2 n))
              past)))

  large-Completes :
      0xffff < n
      → n < 2 ^ 32
      → bit_and n 0b1000000000000000 ≡ 0
      → IsLegal code last 127
      → Sees s (
          first_byte code last
          ∷ (mask_bit key + 127)
          ∷ (le_bytes 8 (byte_swap 8 n) ++ (mask_part key ++ body)))
      → Completes 5 f s (accepted f code last key n done) (mask body n key)
  large-Completes h k b legal v =
      let past = past_header 127 _ v in
      step-Completes 4 f _ s (advance s 2) (first_step 127 _ (omega arith) legal v) (
        step-Completes 3 _ _ _ (advance (advance s 2) 8)
          (length64_step f code last key n _ h k b past)
          (mask-Completes f code last key n body small room fits 0 _ (
            advance-Sees (le_bytes 8 (byte_swap 8 n)) _ 8 (length-le_bytes 8 (byte_swap 8 n))
              past)))

control-IsLegal :
    (code : OpCode) (last : Bool) (n low : ℕ)
    → low ≤ n
    → IsLegal code last n
    → IsLegal code last low
control-IsLegal code last n low h legal = record {
  known = legal.known;
  control = λ c. (omega (arith, (legal.control c).0), (legal.control c).1);
}

-- The bytes of a header, regrouped behind its first two.
laid_out :
    (code : OpCode) (last : Bool) (n key c : ℕ) (rest body : List ℕ) {s : SocketData}
    → length_part n key ≡ c ∷ rest
    → Sees s (header_list code n key last ++ body)
    → Sees s (first_byte code last ∷ c ∷ (rest ++ (mask_part key ++ body)))
laid_out code last n key c rest body {s} e = subst (Sees s) (
    ap (λ part. first_byte code last ∷ ((part ++ mask_part key) ++ body)) e
    ∙ ap (λ bs. first_byte code last ∷ c ∷ bs) (append_assoc rest (mask_part key) body))

-- The header of a frame in the layout of `getFrameHeader`, followed by at least its payload, is
-- read by one call of `readFrame` from the header state: the fields are those written, and the
-- payload is unmasked in place. The opcode is not reserved, a control frame is whole and has at
-- most 125 bytes, the length is within the limit and one that the parser accepts, and the key is
-- a 32-bit word.
pub read_frame-header_list :
    (f : Frame) (code : OpCode) (last : Bool) (key n : ℕ) (body : List ℕ) (s : SocketData)
    → f.processing_state ≡ read_header
    → n ≤ f.max_allowed_message_size
    → n ≤ length body
    → key < 2 ^ 32
    → IsLegal code last n
    → WireLength n
    → Sees s (header_list code n key last ++ body)
    → (t : SocketData) × (read_frame f s ≡ some (accepted f code last key n done, t))
      × Sees t (mask body n key)
unfolding read_frame
read_frame-header_list f code last key n body s start small room fits legal (in_two h) v =
    elim (dec_le n 125) [
      | yes short ↦
          short-Completes f code last key n body small room fits s start short legal
            (laid_out code last n key (mask_bit key + n) [] body (ground arith) v)
      | no long ↦
          middle-Completes f code last key n body small room fits s start (omega arith) h
            (control-IsLegal code last n 126 (omega arith) legal)
            (laid_out code last n key (mask_bit key + 126) (le_bytes 2 (byte_swap 2 n)) body
              (ground arith) v)
    ]
read_frame-header_list f code last key n body s start small room fits legal (in_eight h k b) v =
    large-Completes f code last key n body small room fits s start h k b
      (control-IsLegal code last n 127 (omega arith) legal)
      (laid_out code last n key (mask_bit key + 127) (le_bytes 8 (byte_swap 8 n)) body
        (ground arith) v)
