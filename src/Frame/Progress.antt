-- ===== src/Frame/Progress.antt =====
-- One turn of the loop of `readFrame`, and the loop: it ends, stays within the data, and leaves a
-- whole payload behind a valid frame.
use lu.Base.{ℕ, zero, suc, ◌+◌, ◌-◌, ◌^◌, ◌≤◌, ◌<◌, ◌≡◌, refl, true, Option, some, ap, arith}
use lu.Frame.Types.{
  ProcessingState, read_header, read_payload_length, read_mask, read_payload, wait_for_data, done,
  error, SocketData, get_data_left_to_read, Frame, set_error,
}
use lu.Frame.Reader.{
  Handled, Progress, stop, again, read_frame_header, accept_length16, read_length16,
  accept_length64, read_length64, read_frame_payload_length, read_frame_mask, mask_payload,
  read_frame_payload, resume, step_in, read_loop, read_frame,
}

-- The read offset lies within the data, whose size is a 32-bit number.
pub record InData (s : SocketData) : Type 0 where
  pub small : s.size < 2 ^ 32
  pub within : s.read_offset ≤ s.size

-- The states that the loop gives a meaning to: `WaitForData` and `Error` only spin.
abbrev pub rank : ProcessingState → ℕ
rank read_header = 0
rank read_payload_length = 1
rank read_mask = 2
rank read_payload = 3
rank done = 4
rank wait_for_data = 5
rank error = 5

-- What a handler guarantees: it waits with nothing changed, or it moves on to a later state; a frame
-- that is done and valid has its payload in the data.
pub record Handles (from : ℕ) (s : SocketData) (h : Handled) : Type 0 where
  pub same_size : h.2.size ≡ s.size
  pub forward : s.read_offset ≤ h.2.read_offset
  pub within : h.2.read_offset ≤ s.size
  pub later : from < rank h.0
  pub whole : h.0 ≡ done → h.1.is_valid ≡ true → h.2.read_offset + h.1.size ≤ s.size
  pub no_error : h.0 ≡ error → ⊥

left-eq : {s : SocketData} → InData s → get_data_left_to_read s ≡ s.size - s.read_offset
left-eq i = omega arith

header-Handles : (f : Frame) {s : SocketData} → InData s → Handles 0 s (read_frame_header f s)
unfolding read_frame_header
header-Handles f {s} i = record {
  same_size = ground arith;
  forward = ground arith;
  within = ground arith;
  later = ground arith;
  whole = ground arith;
  no_error = ground arith;
}

length16-Handles : (f : Frame) {s : SocketData} → InData s → Handles 1 s (read_length16 f s)
unfolding read_length16 accept_length16 set_error
length16-Handles f i = record {
  same_size = ground arith;
  forward = ground arith;
  within = ground arith;
  later = ground arith;
  whole = ground arith;
  no_error = ground arith;
}

length64-Handles : (f : Frame) {s : SocketData} → InData s → Handles 1 s (read_length64 f s)
unfolding read_length64 accept_length64 set_error
length64-Handles f i = record {
  same_size = ground arith;
  forward = ground arith;
  within = ground arith;
  later = ground arith;
  whole = ground arith;
  no_error = ground arith;
}

length-Handles :
    (f : Frame) {s : SocketData} → InData s → Handles 1 s (read_frame_payload_length f s)
unfolding read_frame_payload_length
length-Handles f {s} i = ground (arith, length16-Handles f i, length64-Handles f i)

mask-Handles : (f : Frame) {s : SocketData} → InData s → Handles 2 s (read_frame_mask f s)
unfolding read_frame_mask
mask-Handles f i = record {
  same_size = ground arith;
  forward = ground arith;
  within = ground arith;
  later = ground arith;
  whole = ground arith;
  no_error = ground arith;
}

payload-Handles : (f : Frame) {s : SocketData} → InData s → Handles 3 s (read_frame_payload f s)
unfolding read_frame_payload mask_payload set_error
payload-Handles f i = record {
  same_size = ground arith;
  forward = ground arith;
  within = ground arith;
  later = ground arith;
  whole = ground arith;
  no_error = ground arith;
}

-- What a run of the reader from `s` guarantees of the frame and the data that it leaves.
pub record Reads (s : SocketData) (g : Frame) (t : SocketData) : Type 0 where
  pub same_size : t.size ≡ s.size
  pub forward : s.read_offset ≤ t.read_offset
  pub within : t.read_offset ≤ s.size
  pub resumable : rank g.processing_state ≤ 4
  pub whole : g.processing_state ≡ done → g.is_valid ≡ true → t.read_offset + g.size ≤ t.size

abbrev Steps : ProcessingState → SocketData → Progress → Type 0
Steps from s (stop g t) = Reads s g t
Steps from s (again g t) = Reads s g t × (rank from < rank g.processing_state)

resume-Steps :
    (st : ProcessingState) {s : SocketData} (h : Handled)
    → rank st ≤ 3
    → InData s
    → Handles (rank st) s h
    → Steps st s (resume st h)
resume-Steps st (wait_for_data, g, t) low i r = record {
  same_size = r.same_size;
  forward = r.forward;
  within = r.within;
  resumable = omega arith;
  whole = λ e v. absurd (omega (arith, ap rank e));
}
resume-Steps st (error, g, t) low i r = absurd (r.no_error refl)
resume-Steps st (next, g, t) low i r = (
  record {
    same_size = r.same_size;
    forward = r.forward;
    within = r.within;
    resumable = omega arith;
    whole = λ e v. omega (arith, r.whole e v, r.same_size);
  },
  r.later,
)

-- A frame that is done already must have its payload in the data.
abbrev pub Settled : Frame → SocketData → Type 0
Settled f s = f.processing_state ≡ done → f.is_valid ≡ true → s.read_offset + f.size ≤ s.size

step-Steps :
    (st : ProcessingState) (f : Frame) {s : SocketData}
    → f.processing_state ≡ st
    → rank st ≤ 4
    → InData s
    → Settled f s
    → Steps st s (step_in st f s)
unfolding step_in
step-Steps read_header f e low i w = resume-Steps read_header _ (omega arith) i (header-Handles f i)
step-Steps read_payload_length f e low i w =
    resume-Steps read_payload_length _ (omega arith) i (length-Handles f i)
step-Steps read_mask f e low i w = resume-Steps read_mask _ (omega arith) i (mask-Handles f i)
step-Steps read_payload f e low i w =
    resume-Steps read_payload _ (omega arith) i (payload-Handles f i)
step-Steps done f e low i w = record {
  same_size = refl;
  forward = omega arith;
  within = i.within;
  resumable = omega (arith, ap rank e);
  whole = λ d v. w e v;
}
step-Steps wait_for_data f e low i w = absurd (omega arith)
step-Steps error f e low i w = absurd (omega arith)

abbrev Finds : SocketData → Option (Frame × SocketData) → Type 0
Finds s r = (g : Frame) × (t : SocketData) × (r ≡ some (g, t)) × Reads s g t

Reads-trans :
    {s : SocketData} {g : Frame} {t : SocketData} {h : Frame} {u : SocketData}
    → Reads s g t
    → Reads t h u
    → Reads s h u
Reads-trans r q = record {
  same_size = omega (arith, r.same_size, q.same_size);
  forward = omega (arith, r.forward, q.forward);
  within = omega (arith, r.same_size, q.within);
  resumable = q.resumable;
  whole = q.whole;
}

Reads-InData : {s : SocketData} {g : Frame} {t : SocketData} → InData s → Reads s g t → InData t
Reads-InData i r = record {
  small = omega (arith, i.small, r.same_size);
  within = omega (arith, r.within, r.same_size);
}

-- The loop goes on from a step.
continue-Reads :
    (n : ℕ) (f : Frame) {s : SocketData}
    → ((g : Frame) (t : SocketData)
        → InData t
        → rank g.processing_state ≤ 4
        → 4 < n + rank g.processing_state
        → Settled g t
        → Finds t (read_loop n g t))
    → InData s
    → 4 < suc n + rank f.processing_state
    → (p : Progress) → step_in f.processing_state f s ≡ p
    → Steps f.processing_state s p
    → Finds s (read_loop (suc n) f s)
unfolding read_loop
continue-Reads n f ih i enough (stop g t) e r = (g, t, rw (e, read_loop), r)
continue-Reads n f ih i enough (again g t) e (r, up) =
    let (h, u, found, q) = ih g t (Reads-InData i r) r.resumable (omega arith) r.whole in
    (h, u, rw (e, read_loop) found, Reads-trans r q)

read_loop-Reads :
    (n : ℕ) (f : Frame) (s : SocketData)
    → InData s
    → rank f.processing_state ≤ 4
    → 4 < n + rank f.processing_state
    → Settled f s
    → Finds s (read_loop n f s)
read_loop-Reads zero f s i low enough w = absurd (omega arith)
read_loop-Reads (suc n) f s i low enough w =
    continue-Reads n f (read_loop-Reads n) i enough (step_in f.processing_state f s) refl
      (step-Steps f.processing_state f refl low i w)

-- From every state that it can be left in, with the read offset within data of a 32-bit size,
-- `readFrame` returns: it stays within the data, ends in such a state again, and a frame that is
-- done and valid has its whole payload behind the read offset.
pub read_frame-returns :
    (f : Frame) (s : SocketData)
    → InData s
    → rank f.processing_state ≤ 4
    → Settled f s
    → (g : Frame) × (t : SocketData) × (read_frame f s ≡ some (g, t)) × Reads s g t
unfolding read_frame
read_frame-returns f s i low w = read_loop-Reads 5 f s i low (omega arith) w

-- The first step from a header waits there, or takes two bytes.
abbrev Takes : SocketData → Progress → Type 0
Takes s (stop g t) = g.processing_state ≡ read_header
Takes s (again g t) = s.read_offset + 2 ≤ t.read_offset

header-Takes : (f : Frame) (s : SocketData) → InData s → Takes s (step_in read_header f s)
unfolding step_in read_frame_header
header-Takes f s i = ground arith

abbrev Consumes : SocketData → Option (Frame × SocketData) → Type 0
Consumes s r =
    (g : Frame) × (t : SocketData) × (r ≡ some (g, t))
    × Reads s g t
    × (g.processing_state ≡ done → s.read_offset + 2 ≤ t.read_offset)

loop-Consumes :
    (n : ℕ) (f : Frame) (s : SocketData)
    → InData s
    → 3 < n
    → (p : Progress) → step_in f.processing_state f s ≡ p
    → Steps read_header s p
    → Takes s p
    → Consumes s (read_loop (suc n) f s)
unfolding read_loop
loop-Consumes n f s i enough (stop g t) e r c =
    (g, t, rw (e, read_loop), r, λ d. absurd (omega (arith, ap rank d, ap rank c)))
loop-Consumes n f s i enough (again g t) e (r, up) c =
    let (h, u, found, q) =
      read_loop-Reads n g t (Reads-InData i r) r.resumable (omega arith) r.whole in
    (h, u, rw (e, read_loop) found, Reads-trans r q, λ d. omega (arith, q.forward))

-- From a header `readFrame` takes two bytes before a frame is done.
pub read_frame-consumes :
    (f : Frame) (s : SocketData)
    → InData s
    → f.processing_state ≡ read_header
    → (g : Frame) × (t : SocketData) × (read_frame f s ≡ some (g, t))
      × Reads s g t
      × (g.processing_state ≡ done → s.read_offset + 2 ≤ t.read_offset)
unfolding read_frame
read_frame-consumes f s i e =
    loop-Consumes 4 f s i (omega arith) (step_in read_header f s) (ap (λ st. step_in st f s) e)
      (step-Steps read_header f e (omega arith) i
        (λ d. absurd (omega (arith, ap rank e, ap rank d))))
      (header-Takes f s i)
