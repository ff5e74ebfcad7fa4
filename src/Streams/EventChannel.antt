-- ===== src/Streams/EventChannel.antt =====
-- include/platform/EventChannel.h: events that one thread writes to a pipe and another one reads.
use lu.Base.{
  ℕ, ◌*◌, ◌≡◌, refl, Option, some, List, [], ◌∷◌, ◌++◌, slice, take, drop, le_bytes, of_le_bytes,
  ◌==◌, if◌then◌else◌,
}
use lu.Streams.Receiving.{Arrival, Ending}
use lu.Streams.Loop.{Outcome, receive}
use lu.Streams.DataSocket.{PlainHandler, DataSocket, data_socket, new_socket}

-- `EventData`: the type is its number, and the data an address.
pub record EventData : Type 0 where
  pub event_type : ℕ
  pub channel_id : ℕ
  pub address : ℕ

abbrev pub new_connection : ℕ
new_connection = 1

abbrev pub app_message : ℕ
app_message = 2

-- The 16 bytes of the packed struct, that `notify` writes.
unfoldable pub event_bytes : EventData → List ℕ
event_bytes e = le_bytes 4 e.event_type ++ (le_bytes 4 e.channel_id ++ le_bytes 8 e.address)

unfoldable pub read_event : List ℕ → EventData
read_event bytes = record {
  event_type = of_le_bytes (take 4 bytes);
  channel_id = of_le_bytes (take 4 (drop 4 bytes));
  address = of_le_bytes (drop 8 bytes);
}

-- The calls of the handler.
pub data HandlerCall : Type 0 where
  on_new_connection : ℕ → HandlerCall
  on_app_msg : ℕ → ℕ → HandlerCall

abbrev pub dispatch : EventData → List HandlerCall
dispatch e =
    if e.event_type == new_connection
    then on_new_connection e.address ∷ []
    else if e.event_type == app_message
    then on_app_msg e.address e.channel_id ∷ []
    else []

abbrev pub dispatch_all : List EventData → List HandlerCall
dispatch_all [] = []
dispatch_all (e ∷ es) = dispatch e ++ dispatch_all es

-- The calls for the structs that were cut from the buffer.
abbrev pub read_events : List (List ℕ) → List HandlerCall
read_events [] = []
read_events (m ∷ ms) = dispatch (read_event m) ++ read_events ms

-- `readMessages` takes a struct of 16 bytes whenever as many are left, where it stands in the buffer.
unfoldable pub next_event : List ℕ → ℕ → ℕ → Option (List ℕ)
next_event memory offset size = some (slice memory offset size)

pub next_event-some :
    (memory : List ℕ) (offset : ℕ) → (m : List ℕ) × (next_event memory offset 0 ≡ some m)
unfolding next_event
next_event-some memory offset = (_, refl)

-- `BUFFER_SIZE` and `READ_BUFFER_SHIFT_SIZE`.
abbrev pub event_handler : PlainHandler
event_handler = record {
  buffer_size = 16 * 200;
  shift_size = 16 * 10;
  header_size = 16;
  read_header = λ memory offset. 16;
  read_message = next_event;
  empty_fits = next_event-some;
}

-- `Receive`, which is the loop of DataSocket.h on `read`.
abbrev pub receive_events : List Arrival → List ℕ → DataSocket → Ending (Outcome DataSocket)
receive_events = receive (data_socket event_handler)

abbrev pub new_channel : DataSocket
new_channel = new_socket event_handler
