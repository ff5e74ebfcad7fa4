-- ===== src/Frame/Fragments.antt =====
-- Messages of several frames: what the parser does with a frame that does not stand alone.
use lu.Base.{
  ◌+◌, ◌^◌, ◌≤◌, ◌<◌, ◌≡◌, refl, true, false, [], ◌∷◌, drop, ◌⊎◌, inl, inr, Bool-cases, dec_le,
  arith,
}
use lu.Frame.Types.{done, close, SocketData, Frame, reset, is_continuation_frame, is_control_frame}
use lu.Frame.Reader.{advance}
use lu.Frame.Message.{
  on_data, payload, append, deliver, store, process_data_frame, process_frame, leave, more,
}

-- A valid data frame that reaches an unfragmented parser is refused when it is a continuation,
-- refused when it is a first fragment that fits the message buffer, dropped when it is a first
-- fragment that does not fit, and handed to `onData` only when it is final. Its size and the
-- buffer's count do not overflow together.
pub fragment_cases :
    (f : Frame) (s : SocketData)
    → f.processing_state ≡ done
    → f.is_valid ≡ true
    → f.is_fragmented ≡ false
    → is_control_frame f ≡ false
    → f.size + f.message.offset < 2 ^ 64
    → ((is_continuation_frame f ≡ true)
        × (process_frame f s ≡ leave [] (record f { op_code = close }) s))
      ⊎ ((f.is_final_frame ≡ false)
          × (f.size + f.message.offset ≤ f.message.capacity)
          × (g : Frame) × (process_frame f s ≡ leave [] g s)
          × (g.op_code ≡ close))
      ⊎ ((f.is_final_frame ≡ false)
          × (f.message.capacity < f.size + f.message.offset)
          × (g : Frame) × (process_frame f s ≡ more [] g (advance s f.size))
          × (g.message ≡ f.message)
          × (g.is_fragmented ≡ false))
      ⊎ ((f.is_final_frame ≡ true)
          × (is_continuation_frame f ≡ false)
          × (g : Frame) × (process_frame f s
              ≡ more (on_data (payload f s) ∷ []) g (advance s f.size)))
unfolding process_frame process_data_frame store append deliver reset
fragment_cases f s e v u c small = elim (Bool-cases (is_continuation_frame f)) [
  | inl more_of ↦ inl (more_of, ground arith)
  | inr first ↦ elim (Bool-cases f.is_final_frame) [
    | inl final ↦
        inr (
          inr
            (inr (final, first, reset (reset (record f { is_fragmented = false })), ground arith)))
    | inr open_end ↦ elim (dec_le (f.size + f.message.offset) f.message.capacity) [
      | yes fits ↦ inr (
          inl (
            open_end,
            fits,
            record (append (record f { is_fragmented = true }) (drop s.read_offset s.bytes)).0 {
              op_code = close;
            },
            ground arith,
            refl,
          ))
      | no full ↦ inr (
          inr (
            inl (
              open_end,
              omega arith,
              reset (reset (record f { is_fragmented = true })),
              ground arith,
              refl,
              refl,
            )))
    ]
  ]
]
