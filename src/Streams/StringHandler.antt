-- ===== src/Streams/StringHandler.antt =====
-- platform/socket/data_handler/String: the handler with one buffer, and its messages of text.
use lu.Base.{
  ℕ, ◌-◌, List, ◌++◌, Option, none, some, length, drop, set, replicate, overwrite, slice, le_bytes,
  of_le_bytes, ◌≡◌, refl, leb, ltb, if◌then◌else◌,
}
use lu.Text.Bytes.{until_zero}
use lu.Streams.DataSocket.{PlainHandler, quarter}

-- `Header::getSize` at an offset.
unfoldable pub read_header : List ℕ → ℕ → ℕ
read_header memory offset = of_le_bytes (slice memory offset 4)

-- The bytes of `m_data`, and those of a message.
abbrev pub data_size : ℕ
data_size = 64

abbrev pub message_size : ℕ
message_size = 68

-- `memcpy` of `size` bytes to a new message; more than it has go past its end.
unfoldable pub read_message : List ℕ → ℕ → ℕ → Option (List ℕ)
read_message memory offset size =
    if ltb message_size size then none else some (slice memory offset size)

pub read_message-empty :
    (memory : List ℕ) (offset : ℕ) → (m : List ℕ) × (read_message memory offset 0 ≡ some m)
unfolding read_message
read_message-empty memory offset = (_, refl)

abbrev pub string_handler : PlainHandler
string_handler = record {
  buffer_size = 1000;
  shift_size = quarter 1000;
  header_size = 4;
  read_header = read_header;
  read_message = read_message;
  empty_fits = read_message-empty;
}

-- `strncpy` of a text's own length: zeros from its first zero byte on.
unfoldable pub strncpy : List ℕ → List ℕ
strncpy text = until_zero text ++ replicate (length text - length (until_zero text)) 0

-- `Message(data)`. A text that does not fit is written past the end of the message.
unfoldable pub new_message : List ℕ → Option (List ℕ)
new_message text =
    if leb data_size (length text)
    then none
    else some (
        le_bytes 4 message_size
        ++ set (overwrite (replicate data_size 0) 0 (strncpy text)) (length text) 0)

-- `getString`: what stands in `m_data` up to its first zero byte.
unfoldable pub get_string : List ℕ → List ℕ
get_string message = until_zero (drop 4 message)
