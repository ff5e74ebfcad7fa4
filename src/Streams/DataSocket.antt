-- ===== src/Streams/DataSocket.antt =====
-- include/platform/socket/DataSocket.h: the receive buffer of a socket whose messages tell their size.
use lu.Base.{
  ℕ, ◌+◌, ◌-◌, ◌/◌, ◌%◌, ◌^◌, ◌≡◌, List, Option, some, length, overwrite, replicate, slice, leb,
  ltb, ◌==◌, if◌then◌else◌,
}
use lu.Streams.Receiving.{Ending, done, overruns, and_then}
use lu.Streams.Loop.{Receiver}
use lu.Streams.Messages.{DataHandler, read_messages}

-- A data handler with one buffer of bytes, and the number of unread bytes that its socket moves to the
-- front, `m_receiveBufferShiftSize`.
pub record PlainHandler : Type 0 where
  pub buffer_size : ℕ
  pub shift_size : ℕ
  pub header_size : ℕ
  pub read_header : List ℕ → ℕ → ℕ
  pub read_message : List ℕ → ℕ → ℕ → Option (List ℕ)
  pub empty_fits :
      (memory : List ℕ) (offset : ℕ) → (m : List ℕ) × (read_message memory offset 0 ≡ some m)

-- `expectedMsgSize` is an `unsigned int`.
abbrev pub handler : PlainHandler → DataHandler
handler p = record {
  Memory = List ℕ;
  buffer_size = p.buffer_size;
  header_size = p.header_size;
  read_header = λ memory offset. p.read_header memory offset % 2 ^ 32;
  read_message = p.read_message;
  empty_fits = p.empty_fits;
}

-- The members that `Receive` uses. `memory` is the handler's buffer.
pub record DataSocket : Type 0 where
  pub memory : List ℕ
  pub read_offset : ℕ
  pub left_to_read : ℕ
  pub left_to_recv : ℕ

-- What `DataSocket` sets it to.
abbrev pub quarter : ℕ → ℕ
quarter receive_buffer_size = receive_buffer_size / 4

module _ (p : PlainHandler) where
  unfoldable pub new_socket : DataSocket
  new_socket = record {
    memory = replicate p.buffer_size 0;
    read_offset = 0;
    left_to_read = 0;
    left_to_recv = p.buffer_size;
  }

  -- The end of a turn of `Receive`. `memcpy` to the front of the buffer is a move.
  unfoldable pub make_room : DataSocket → DataSocket
  make_room s =
      if s.left_to_read == 0
      then record s { read_offset = 0; left_to_recv = p.buffer_size }
      else if leb s.left_to_read p.shift_size
      then record s {
        memory = overwrite s.memory 0 (slice s.memory s.read_offset s.left_to_read);
        read_offset = 0;
        left_to_recv = p.buffer_size - s.left_to_read;
      }
      else s

  -- A turn of `Receive` after a read of some bytes: the messages handed to `onData`, and the socket.
  unfoldable pub take_bytes : DataSocket → List ℕ → Ending (List (List ℕ) × DataSocket)
  take_bytes s c =
      if ltb (length s.memory) (s.read_offset + s.left_to_read + length c)
      then overruns
      else and_then (read_messages (handler p) filled s.read_offset (s.left_to_read + length c))
          (λ r. done (
            r.messages,
            make_room (record s {
              memory = filled;
              read_offset = r.read_offset;
              left_to_read = r.left_to_read;
            }),
          ))
    where
      filled : List ℕ
      filled = overwrite s.memory (s.read_offset + s.left_to_read) c

  abbrev pub data_socket : Receiver
  data_socket = record { Socket = DataSocket; room = left_to_recv; take_bytes = take_bytes }
    where
      left_to_recv : DataSocket → ℕ
      left_to_recv s = s.left_to_recv
