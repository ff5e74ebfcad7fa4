-- ===== src/Frame/Message.antt =====
-- Frame.h: `processMessage` and `processControlFrame`, and `append` of Frame.cpp. The calls of the
-- callback are a list of events; logging is left out.
use lu.Base.{
  ℕ, zero, suc, ◌+◌, ◌%◌, ◌^◌, Bool, true, false, not, ◌&&◌, List, [], ◌∷◌, ◌++◌, Option, none,
  some, ltb, ◌==◌, if◌then◌else◌, drop, slice, byte_swap,
}
use lu.Crypto.DataWrap
use lu.Frame.Types.{
  done, close, ping, pong, close_code_normal, close_code_protocol_error, SocketData,
  get_data_left_to_read, Frame, reset, is_control_frame, is_continuation_frame, is_close_code_valid,
}
use lu.Frame.Reader.{advance, word_ahead, read_frame}

-- What the callback is told: `onData`, `onPing`, `onPong`, `onClose`.
pub data Event : Type 0 where
  on_data : List ℕ → Event
  on_ping : List ℕ → Event
  on_pong : Event
  on_close : ℕ → Event

-- The span of `m_length` bytes at the read offset.
abbrev pub payload : Frame → SocketData → List ℕ
payload f s = slice s.bytes s.read_offset f.size

-- The close code that `processControlFrame` reports.
unfoldable pub reported_close_code : Frame → SocketData → ℕ
reported_close_code f s =
    if f.size == 1
    then close_code_protocol_error
    else if ltb 1 f.size
    then (if is_close_code_valid code then code else close_code_protocol_error)
    else close_code_normal
  where
    code : ℕ
    code = byte_swap 2 (word_ahead s 2)

-- The events of `processControlFrame`; it changes nothing and always returns true.
unfoldable pub process_control_frame : Frame → SocketData → List Event
process_control_frame f s = elim f.op_code [
  | ping ↦ on_ping (payload f s) ∷ []
  | pong ↦ on_pong ∷ []
  | close ↦ on_close (reported_close_code f s) ∷ []
  | _ ↦ []
]

-- `append`: true when the bytes were stored.
unfoldable pub append : Frame → List ℕ → Frame × Bool
append f bytes =
    if ltb f.message.capacity ((f.size + f.message.offset) % 2 ^ 64)
    then (f, false)
    else (record f { message = (DataWrap.append f.message bytes f.size).0 }, true)

-- One turn of the inner loop of `processMessage`: it returns, or goes round. (The outer loop only
-- starts the inner one again.) `hung` means that `readFrame` did not return.
pub data Turn : Type 0 where
  leave : List Event → Frame → SocketData → Turn
  more : List Event → Frame → SocketData → Turn
  hung : Turn

-- `m_opCode = Close; return`
abbrev pub reject : Frame → SocketData → Turn
reject f s = leave [] (record f { op_code = close }) s

-- The end of a data frame: `readOffset += m_length`, and `reset()` twice.
abbrev pub finish : List Event → Frame → SocketData → Turn
finish es f s = more es (reset (reset f)) (advance s f.size)

-- What follows `append`, for a final and for another frame.
unfoldable pub deliver : Frame → SocketData → Turn
deliver f s =
    if not f.is_final_frame
    then finish [] f s
    else if f.is_fragmented
    then finish (on_data (slice f.message.bytes 0 f.size) ∷ [])
        (record f { message = DataWrap.clear f.message }) s
    else finish (on_data (payload f s) ∷ []) f s

-- The fragment is stored first; the code returns when `append` says true.
unfoldable pub store : Frame → SocketData → Turn
store f s =
    if f.is_fragmented
    then (if stored.1 then reject stored.0 s else deliver stored.0 s)
    else deliver f s
  where
    stored : Frame × Bool
    stored = append f (drop s.read_offset s.bytes)

-- A valid data frame.
unfoldable pub process_data_frame : Frame → SocketData → Turn
process_data_frame f s =
    if not f.is_fragmented && is_continuation_frame f
    then reject f s
    else if f.is_fragmented && (not (is_control_frame f) && not (is_continuation_frame f))
    then reject f s
    else store
        (if is_continuation_frame f then f else record f { is_fragmented = not f.is_final_frame }) s

-- What one turn does with the frame that `readFrame` leaves.
unfoldable pub process_frame : Frame → SocketData → Turn
process_frame f s = elim f.processing_state [
  | done ↦
      if not f.is_valid
      then reject f s
      else if is_control_frame f
      then more (process_control_frame f s) (reset f) (advance s f.size)
      else process_data_frame f s
  | _ ↦ leave [] f s
]

unfoldable pub turn : Frame → SocketData → Turn
turn f s =
    if get_data_left_to_read s == 0
    then leave [] f s
    else elim (read_frame f s) [ none ↦ hung | some (g, t) ↦ process_frame g t ]

-- What a call reports, the frame and the data afterwards; `processMessage` returns the read offset.
pub record Outcome : Type 0 where
  pub events : List Event
  pub frame : Frame
  pub rest : SocketData

unfoldable pub prepend : List Event → Option Outcome → Option Outcome
prepend es none = none
prepend es (some o) = some (record o { events = es ++ o.events })

-- `processMessage` with fuel; `none` means that the fuel ran out or that `readFrame` hung.
unfoldable pub process_loop : ℕ → Frame → SocketData → Option Outcome
process_loop zero f s = none
process_loop (suc n) f s = elim (turn f s) [
  | leave es g t ↦ some (record { events = es; frame = g; rest = t })
  | more es g t ↦ prepend es (process_loop n g t)
  | hung ↦ none
]

-- Each turn but the first reads a header of two bytes, so one turn for each byte is enough.
unfoldable pub process_message : Frame → SocketData → Option Outcome
process_message f s = process_loop (get_data_left_to_read s + 2) f s
