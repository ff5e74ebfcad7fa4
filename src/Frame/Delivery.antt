-- ===== src/Frame/Delivery.antt =====
-- `sendMsg` at one end and `processMessage` at the other: messages that fit one frame arrive.
use lu.Base.{
  ℕ, zero, suc, ◌^◌, ◌≤◌, ◌<◌, ◌≡◌, refl, ap, ap₂, subst, dec_lt, ℕ_discrete, sym, ◌∙◌, Bool, true,
  false, min, List, [], ◌∷◌, ◌++◌, map, Option, none, some, length, take, length-append,
  take-append, take_all, append_assoc, append-nil, ltb, ◌==◌, if◌then◌else◌, All, arith,
}
use native.Mathlib.Nat.{mod-eq_of_lt, mod_self, div-eq_of_lt, div_self}
use lu.Frame.Types.{
  read_header, done, reserved_c, OpCode, continue, to_code, SocketData, get_data_left_to_read,
  Frame, reset, is_control_code, is_continuation_frame,
}
use lu.Frame.Reader.{advance, mask, read_frame}
use lu.Frame.Message.{
  on_data, payload, deliver, store, process_data_frame, process_frame, Turn, leave, more, turn,
  Outcome, prepend, process_loop, process_message,
}
use lu.Frame.Writer.{frame_count, frame_bytes, send_from, send_msg}
use lu.Frame.Layout.{header_list, contents-get_frame_header}
use lu.Frame.Masking.{length-mask, mask-mask, mask_zero_key, mask_nothing}
use lu.Frame.Parsing.{
  Sees, advance-Sees, Sees-left, accepted, IsLegal, WireLength, in_two, in_eight,
}
use lu.Frame.Reading.{read_frame-header_list}

-- An opcode that starts a data message.
pub record IsData (code : OpCode) : Type 0 where
  pub data_code : is_control_code code ≡ false
  pub first : (to_code code == to_code continue) ≡ false
  pub legal : (last : Bool) (n : ℕ) → IsLegal code last n

pub WireLength-lt : {n : ℕ} → WireLength n → n < 2 ^ 32
WireLength-lt (in_two h) = omega arith
WireLength-lt (in_eight h k b) = k

-- The payload part of a frame is the masked chunk, also where nothing is masked or there is nothing.
payload_part :
    (masked : Bool) (chunk : List ℕ) (key : ℕ)
    → (masked ≡ false → key ≡ 0)
    → (if ltb 0 (length chunk)
        then (if masked then mask chunk (length chunk) key else chunk)
        else [])
      ≡ mask chunk (length chunk) key
payload_part masked [] key e = sym (mask_nothing [] key)
payload_part true (x ∷ xs) key e = ground arith
payload_part false (x ∷ xs) key e =
    rw (e refl) (ground (arith, mask_zero_key (x ∷ xs) (suc (length xs))))

pub frame_bytes-eq :
    (code : OpCode) (key : ℕ) (masked last : Bool) (chunk : List ℕ)
    → length chunk < 2 ^ 32
    → (masked ≡ false → key ≡ 0)
    → frame_bytes code key masked last chunk
      ≡ header_list code (length chunk) key last ++ mask chunk (length chunk) key
unfolding frame_bytes
frame_bytes-eq code key masked last chunk h k =
    ap₂ ◌++◌ (contents-get_frame_header code (length chunk) key last (omega arith))
      (payload_part masked chunk key k)

-- The data frame that `readFrame` leaves is handed to `onData`.
data_frame_delivered :
    (f : Frame) (code : OpCode) (key n : ℕ) (t : SocketData)
    → IsData code
    → f.is_fragmented ≡ false
    → process_frame (accepted f code true key n done) t
      ≡ more
          (on_data (payload (accepted f code true key n done) t) ∷ [])
          (reset (reset (record (accepted f code true key n done) { is_fragmented = false })))
          (advance t n)
unfolding process_frame process_data_frame store deliver is_continuation_frame
data_frame_delivered f code key n t d e = ground (arith, d.data_code, d.first)

frame_count_one : (n max_size : ℕ) → 0 < max_size → n ≤ max_size → frame_count n max_size ≡ some 1
unfolding frame_count
frame_count_one n max_size l h = elim (dec_lt n max_size) [
  | yes below ↦ ground (arith, l, mod-eq_of_lt below, div-eq_of_lt below)
  | no equal ↦ elim (ℕ_discrete n 0) [
    | yes e ↦ absurd (omega (arith, l, equal, e))
    | no pos ↦ ground (arith, l, div_self {n = n} (omega arith), mod_self n)
  ]
]

-- A message that fits one frame is that frame.
send_msg-one :
    (message : List ℕ) (max_size : ℕ) (keys : ℕ → ℕ) (code : OpCode) (masked : Bool)
    → 0 < max_size
    → length message ≤ max_size
    → length message < 2 ^ 32
    → let key = if masked then keys 0 else 0 in
      send_msg message max_size keys code masked
      ≡ some (header_list code (length message) key true ++ mask message (length message) key)
unfolding send_msg send_from
send_msg-one message max_size keys code masked l h small =
    rw (frame_count_one (length message) max_size l h) (
      ap some (
        append-nil _
        ∙ (ap (frame_bytes code key masked true) chunk
            ∙ frame_bytes-eq code key masked true message small
                (λ e. ap (λ b. if b then keys 0 else 0) e))))
  where
    key : ℕ
    key = if masked then keys 0 else 0

    chunk : take (min (length message) max_size) message ≡ message
    chunk = take_all _ message (omega arith)

-- A parser between messages, as `reset` leaves it.
pub record Between (max_size : ℕ) (f : Frame) : Type 0 where
  pub at_header : f.processing_state ≡ read_header
  pub whole_message : f.is_fragmented ≡ false
  pub limit : f.max_allowed_message_size ≡ max_size
  pub no_code : f.op_code ≡ reserved_c

-- One turn over one message in one frame.
abbrev Delivers : ℕ → List ℕ → List ℕ → Turn → Type 0
Delivers max_size message rest u =
    (g : Frame) × (t : SocketData) × (u ≡ more (on_data message ∷ []) g t)
    × Between max_size g
    × Sees t rest

-- The turn once the frame is read.
turn_after_read :
    (f : Frame) (code : OpCode) (max_size key : ℕ) (message rest : List ℕ) (s t : SocketData)
    → Between max_size f
    → IsData code
    → 0 < get_data_left_to_read s
    → read_frame f s ≡ some (accepted f code true key (length message) done, t)
    → Sees t (message ++ rest)
    → Delivers max_size message rest (turn f s)
unfolding turn reset
turn_after_read f code max_size key message rest s t b d some_left found seen = (
  reset (reset (record g { is_fragmented = false })),
  advance t (length message),
  ground
      (arith, found, data_frame_delivered f code key (length message) t d b.whole_message, spans),
  record { at_header = refl; whole_message = refl; limit = b.limit; no_code = refl },
  advance-Sees message rest (length message) refl seen,
)
  where
    g : Frame
    g = accepted f code true key (length message) done

    spans : payload g t ≡ message
    spans = ap (take (length message)) seen.ahead ∙ take-append (length message) message rest refl

turn-Delivers :
    (f : Frame) (code : OpCode) (max_size key : ℕ) (message rest : List ℕ) (s : SocketData)
    → Between max_size f
    → IsData code
    → length message ≤ max_size
    → WireLength (length message)
    → key < 2 ^ 32
    → Sees s
        ((header_list code (length message) key true ++ mask message (length message) key) ++ rest)
    → Delivers max_size message rest (turn f s)
turn-Delivers f code max_size key message rest s b d small wire fits v =
    let (t, found, seen) =
      read_frame-header_list f code true key (length message)
        (mask message (length message) key ++ rest) s b.at_header (omega (arith, b.limit))
        (omega (
          arith,
          length-append (mask message (length message) key) rest,
          length-mask message (length message) key,
        ))
        fits (d.legal true (length message)) wire
        (subst (Sees s)
          (append_assoc (header_list code (length message) key true)
            (mask message (length message) key) rest)
          v) in
    turn_after_read f code max_size key message rest s t b d (omega (arith, Sees-left v)) found
      (subst (Sees t) (mask-mask message rest key) seen)

turn_at_end : (f : Frame) (s : SocketData) → get_data_left_to_read s ≡ 0 → turn f s ≡ leave [] f s
unfolding turn
turn_at_end f s e = ground arith

-- Messages that were sent one after the other, each with its own random values.
pub record Sending : Type 0 where
  pub message : List ℕ
  pub keys : ℕ → ℕ

-- What the network gets; a call without a result sends nothing.
abbrev pub sent_bytes : Option (List ℕ) → List ℕ
sent_bytes none = []
sent_bytes (some bytes) = bytes

unfoldable pub wire : ℕ → OpCode → Bool → List Sending → List ℕ
wire max_size code masked [] = []
wire max_size code masked (m ∷ ms) =
    sent_bytes (send_msg m.message max_size m.keys code masked) ++ wire max_size code masked ms

-- A message that one frame can carry, in a length that the parser accepts.
pub record FitsFrame (max_size : ℕ) (m : Sending) : Type 0 where
  pub some_limit : 0 < max_size
  pub within_limit : length m.message ≤ max_size
  pub on_wire : WireLength (length m.message)
  pub key_size : (i : ℕ) → m.keys i < 2 ^ 32

-- A message that fits one frame fits it under a larger limit, with the same bytes.
pub FitsFrame-above :
    (a b : ℕ) (ms : List Sending) → a ≤ b → All (FitsFrame a) ms → All (FitsFrame b) ms
FitsFrame-above a b [] h f = tt
FitsFrame-above a b (m ∷ ms) h f = (
  record {
    some_limit = omega (arith, h, f.0.some_limit);
    within_limit = omega (arith, h, f.0.within_limit);
    on_wire = f.0.on_wire;
    key_size = f.0.key_size;
  },
  FitsFrame-above a b ms h f.1,
)

pub wire-above :
    (a b : ℕ) (code : OpCode) (masked : Bool) (ms : List Sending)
    → a ≤ b
    → All (FitsFrame a) ms
    → wire a code masked ms ≡ wire b code masked ms
unfolding wire
wire-above a b code masked [] h f = refl
wire-above a b code masked (m ∷ ms) h f =
    let small = WireLength-lt f.0.on_wire in
    ap₂ ◌++◌
      (ap sent_bytes (
        send_msg-one m.message a m.keys code masked f.0.some_limit f.0.within_limit small
        ∙ sym (
            send_msg-one m.message b m.keys code masked (omega (arith, h, f.0.some_limit))
              (omega (arith, h, f.0.within_limit)) small)))
      (wire-above a b code masked ms h f.1)

-- The parser has read everything and is between messages.
abbrev Drains : ℕ → List Sending → Option Outcome → Type 0
Drains max_size ms r =
    (o : Outcome) × (r ≡ some o)
    × (o.events ≡ map (λ m. on_data m.message) ms)
    × (o.rest.read_offset ≡ o.rest.size)
    × Between max_size o.frame

pub key_used-lt :
    (masked : Bool) (keys : ℕ → ℕ)
    → ((i : ℕ) → keys i < 2 ^ 32)
    → (if masked then keys 0 else 0) < 2 ^ 32
key_used-lt true keys h = h 0
key_used-lt false keys h = omega arith

loop-Drains :
    (max_size : ℕ) (code : OpCode) (masked : Bool) (ms : List Sending) (n : ℕ) (f : Frame)
    (s : SocketData)
    → IsData code
    → All (FitsFrame max_size) ms
    → Between max_size f
    → Sees s (wire max_size code masked ms)
    → length (wire max_size code masked ms) < n
    → Drains max_size ms (process_loop n f s)
unfolding wire process_loop prepend
loop-Drains max_size code masked ms zero f s d h b v enough = absurd (omega arith)
loop-Drains max_size code masked [] (suc n) f s d h b v enough = (
  record { events = []; frame = f; rest = s },
  ground (arith, turn_at_end f s (omega (arith, Sees-left v))),
  refl,
  omega (arith, v.exact),
  b,
)
loop-Drains max_size code masked (m ∷ ms) (suc n) f s d h b v enough =
    let sent = ap sent_bytes (
      send_msg-one m.message max_size m.keys code masked h.0.some_limit h.0.within_limit
        (WireLength-lt h.0.on_wire)) in
    let (g, t, e, b', v') =
      turn-Delivers f code max_size (if masked then m.keys 0 else 0) m.message
        (wire max_size code masked ms) s b d h.0.within_limit h.0.on_wire
        (key_used-lt masked m.keys h.0.key_size)
        (subst (λ bs. Sees s (bs ++ wire max_size code masked ms)) sent v) in
    let (o, found, events, all_read, between) =
      loop-Drains max_size code masked ms n g t d h.1 b' v' (
        omega (
          arith,
          enough,
          length-append (sent_bytes (send_msg m.message max_size m.keys code masked))
              (wire max_size code masked ms),
          ap length sent,
        )) in
    (
      record o { events = on_data m.message ∷ o.events },
      rw (e, process_loop, found) refl,
      ap (λ es. on_data m.message ∷ es) events,
      all_read,
      between,
    )

-- Messages of one data opcode that each fit one frame, sent one after the other by `sendMsg`,
-- masked or not, and read in one call of `processMessage` by a parser between messages, as
-- `reset` leaves it, with the same size limit, which is above 0, reach `onData` exactly and in
-- order; everything is read and the parser is between messages again. The masking keys are 32-bit
-- words, and a length that takes eight bytes is below 2^32 and has bit 15 clear.
pub messages_arrive :
    (max_size : ℕ) (code : OpCode) (masked : Bool) (ms : List Sending) (f : Frame) (s : SocketData)
    → IsData code
    → All (FitsFrame max_size) ms
    → Between max_size f
    → Sees s (wire max_size code masked ms)
    → (o : Outcome) × (process_message f s ≡ some o)
      × (o.events ≡ map (λ m. on_data m.message) ms)
      × (o.rest.read_offset ≡ o.rest.size)
      × Between max_size o.frame
unfolding process_message
messages_arrive max_size code masked ms f s d h b v =
    loop-Drains max_size code masked ms _ f s d h b v (omega (arith, Sees-left v))
