-- ===== src/Streams/DataSocketV.antt =====
-- include/platform/socket/DataSocketV.h: the socket that reads into two buffers and swaps them.
use lu.Base.{ℕ, ◌+◌, ◌-◌, List, leb, ◌==◌, if◌then◌else◌, length, replicate}
use lu.Streams.Receiving.{Ending, done, and_then, Arrival}
use lu.Streams.Messages.{read_messages}
use lu.Streams.Loop.{Receiver, Outcome, receive}
use lu.Streams.StringV.{StringV, single_buffer_size, get_number_of_buffers, scatter, swap, string_v}

-- The members that `Receive` uses.
pub record DataSocketV : Type 0 where
  pub handler : StringV
  pub read_offset : ℕ
  pub left_to_read : ℕ
  pub left_to_recv : ℕ

unfoldable pub new_socket_v : DataSocketV
new_socket_v = record {
  handler = record {
    buffer1 = replicate single_buffer_size 0;
    buffer2 = replicate single_buffer_size 0;
  };
  read_offset = 0;
  left_to_read = 0;
  left_to_recv = single_buffer_size + single_buffer_size;
}

-- The end of a turn.
unfoldable pub swap_buffers : DataSocketV → DataSocketV
swap_buffers s =
    if s.left_to_read == 0
    then record s { read_offset = 0; left_to_recv = single_buffer_size + single_buffer_size }
    else if leb single_buffer_size s.read_offset
    then record s {
      handler = swap s.handler;
      read_offset = s.read_offset - single_buffer_size;
      left_to_recv = single_buffer_size + single_buffer_size - s.left_to_read;
    }
    else s

-- The bytes that `readv` may read.
unfoldable pub room_v : DataSocketV → ℕ
room_v s = let io = get_number_of_buffers (s.read_offset + s.left_to_read) in io.len1 + io.len2

unfoldable pub take_bytes_v : DataSocketV → List ℕ → Ending (List (List ℕ) × DataSocketV)
take_bytes_v s c =
    and_then (read_messages string_v filled s.read_offset (s.left_to_read + length c)) (λ r. done (
      r.messages,
      swap_buffers (record s {
        handler = filled;
        read_offset = r.read_offset;
        left_to_read = r.left_to_read;
      }),
    ))
  where
    filled : StringV
    filled = scatter s.handler (get_number_of_buffers (s.read_offset + s.left_to_read)) c

abbrev pub data_socket_v : Receiver
data_socket_v = record { Socket = DataSocketV; room = room_v; take_bytes = take_bytes_v }

-- `Receive`
abbrev pub receive_v : List Arrival → List ℕ → DataSocketV → Ending (Outcome DataSocketV)
receive_v = receive data_socket_v
