-- ===== src/Web/Socket.antt =====
-- include/platform/socket/WebSocket.h: the handshake of a server's socket, then its frames.
use lu.Base.{
  ℕ, zero, suc, ◌+◌, ◌-◌, ◌*◌, ◌/◌, Bool, true, false, List, [], ◌∷◌, ◌++◌, map, Option, none, some,
  length, slice, overwrite, replicate, leb, ltb, ◌==◌, if◌then◌else◌,
}
use lu.Text.Bytes.{codes, find_from}
use lu.Frame.Types.{Frame, to_code, close, fresh}
use lu.Frame.Message.{Event, Outcome, process_message}
use lu.Handshake.Types.{Answer, answers, overruns, spins, then_answer, crlf}
use lu.Handshake.Opening.{supported_versions}
use lu.Handshake.Request.{get_response}

-- `MAX_HEADER_LINE_LENGTH * MAX_HEADER_LINES` and the length of `END_OF_HEADER_MARKER`.
abbrev pub buffer_size : ℕ
buffer_size = 8 * 1024 * 100 + 4

abbrev pub resource : List ℕ
resource = codes "/comms"

abbrev pub protocol : List ℕ
protocol = codes "LuBinary"

-- The members that `Receive` uses. The status is `Connected` or `Connecting`.
pub record WebSocket : Type 0 where
  pub memory : List ℕ
  pub read_offset : ℕ
  pub left_to_read : ℕ
  pub left_to_recv : ℕ
  pub connected : Bool
  pub frame : Frame
  pub header_offset : ℕ

-- The frame's reference to its size limit is bound to a temporary that ends with the constructor, so
-- what it gives later is an argument, `limit_read`. The buffer of fragments has the size meant.
unfoldable pub new_web_socket : ℕ → ℕ → WebSocket
new_web_socket limit_read max_message_size = record {
  memory = replicate buffer_size 0;
  read_offset = 0;
  left_to_read = 0;
  left_to_recv = buffer_size;
  connected = false;
  frame = record (fresh max_message_size) { max_allowed_message_size = limit_read };
  header_offset = 0;
}

-- What the socket does: `send`, `onOpen`, what `processMessage` tells the callback, and `stop`.
pub data WebEvent : Type 0 where
  sent : List ℕ → WebEvent
  opened : WebEvent
  framed : Event → WebEvent
  stopped : WebEvent

abbrev pub Turned : Type 0
Turned = Answer (List WebEvent × WebSocket)

abbrev pub update_for_data_read : ℕ → WebSocket → WebSocket
update_for_data_read n s = record s {
  read_offset = s.read_offset + n;
  left_to_read = s.left_to_read - n;
}

abbrev pub stop_at : WebSocket → Turned
stop_at s = answers (stopped ∷ [], s)

-- The answer of `getResponse`, when the header ends at `header_offset`.
abbrev pub reply : WebSocket → List ℕ → Turned
reply s [] = stop_at s
reply s (b ∷ response) = answers (
  sent (b ∷ response) ∷ opened ∷ [],
  record (update_for_data_read s.header_offset s) { header_offset = 0; connected = true },
)

-- A header that is not complete, and may be too large.
abbrev pub wait_for_more : WebSocket → Turned
wait_for_more s = if s.left_to_recv == 0 then stop_at s else answers ([], s)

module _ (get_base64_hash : List ℕ → List ℕ) (below : List ℕ → Option Bool) where
  abbrev pub end_of_header : WebSocket → Turned
  end_of_header s =
      then_answer
        (get_response get_base64_hash protocol supported_versions below resource
          (slice s.memory 0 s.header_offset))
        (reply s)

  -- The loop of `processHandshake` on its view of the buffer.
  abbrev pub scan_at : (WebSocket → Turned) → WebSocket → Option ℕ → Turned
  scan_at go s none = wait_for_more s
  scan_at go s (some location) =
      let later = go (record s { header_offset = location + 2 }) in
      if location == s.header_offset
      then end_of_header (record s { header_offset = s.header_offset + 2 })
      else later

  unfoldable pub scan : ℕ → List ℕ → WebSocket → Turned
  scan zero view s = spins
  scan (suc n) view s = scan_at (scan n view) s (find_from crlf view s.header_offset)

  -- The fuel is a turn for each byte of the view, and two more.
  unfoldable pub process_handshake : WebSocket → Turned
  process_handshake s =
      let view = slice s.memory s.header_offset (s.left_to_read - s.header_offset) in
      scan (length view + 2) view s

  abbrev pub after_frames : WebSocket → Option Outcome → Turned
  after_frames s none = spins
  after_frames s (some o) = answers (
    map framed o.events ++ (if to_code o.frame.op_code == to_code close then stopped ∷ [] else []),
    record (update_for_data_read o.rest.read_offset s) {
      memory = overwrite s.memory s.read_offset o.rest.bytes;
      frame = o.frame;
    },
  )

  -- `readMessages` of a socket that is connected.
  abbrev pub read_frames : WebSocket → Turned
  read_frames s = after_frames s (
      process_message s.frame (record {
        bytes = slice s.memory s.read_offset s.left_to_read;
        size = s.left_to_read;
        read_offset = 0;
      }))

  abbrev pub then_frames : List WebEvent × WebSocket → Turned
  then_frames (es, s) =
      let frames = then_answer (read_frames s) (λ r. answers (es ++ r.0, r.1)) in
      if s.connected then frames else answers (es, s)

  unfoldable pub read_web_messages : WebSocket → Turned
  read_web_messages s =
      let handshake = then_answer (process_handshake s) then_frames in
      if s.connected then read_frames s else handshake

  -- The end of a turn of `Receive`.
  unfoldable pub shift : WebSocket → WebSocket
  shift s =
      if s.left_to_read == 0
      then record s { read_offset = 0; left_to_recv = buffer_size }
      else if leb s.left_to_read (buffer_size / 4)
      then record s {
        memory = overwrite s.memory 0 (slice s.memory s.read_offset s.left_to_read);
        read_offset = 0;
        left_to_recv = buffer_size - s.left_to_read;
      }
      else s

  -- A turn of `Receive` after a read of some bytes.
  unfoldable pub receive_bytes : WebSocket → List ℕ → Turned
  receive_bytes s c =
      let at = s.read_offset + s.left_to_read in
      let filled = record s {
        memory = overwrite s.memory at c;
        left_to_read = s.left_to_read + length c;
      } in
      let turn = then_answer (read_web_messages filled) (λ r. answers (r.0, shift r.1)) in
      if ltb (length s.memory) (at + length c) then overruns else turn
