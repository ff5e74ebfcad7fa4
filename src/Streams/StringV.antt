-- ===== src/Streams/StringV.antt =====
-- platform/socket/data_handler/StringV: a data handler with two buffers, the first before the second.
use lu.Base.{
  ℕ, ◌+◌, ◌-◌, ◌&&◌, ◌≡◌, refl, Option, none, some, List, ◌++◌, take, drop, overwrite, slice,
  of_le_bytes, leb, ltb, if◌then◌else◌,
}
use lu.Streams.Messages.{DataHandler}
use lu.Streams.StringHandler.{message_size}

abbrev pub single_buffer_size : ℕ
single_buffer_size = 1000

-- `sizeof(Header)`
abbrev pub header_size : ℕ
header_size = 4

pub record StringV : Type 0 where
  pub buffer1 : List ℕ
  pub buffer2 : List ℕ

-- `m_readIOVec`: where `readv` writes in each buffer, and how much.
pub record IoVec : Type 0 where
  pub base1 : ℕ
  pub len1 : ℕ
  pub base2 : ℕ
  pub len2 : ℕ

-- `size` bytes, of which the first stand in the first buffer.
abbrev pub across : StringV → ℕ → ℕ → List ℕ
across v offset size =
    let in_first = single_buffer_size - offset in
    slice v.buffer1 offset in_first ++ slice v.buffer2 0 (size - in_first)

unfoldable pub read_header : StringV → ℕ → ℕ
read_header v offset =
    if ltb offset single_buffer_size && leb single_buffer_size (offset + header_size)
    then of_le_bytes (across v offset header_size)
    else if ltb offset single_buffer_size
    then of_le_bytes (slice v.buffer1 offset header_size)
    else of_le_bytes (slice v.buffer2 (offset - single_buffer_size) header_size)

-- The bytes that `readMessage` copies.
unfoldable pub copied : StringV → ℕ → ℕ → List ℕ
copied v offset size =
    if ltb offset single_buffer_size && leb single_buffer_size (offset + size)
    then across v offset size
    else if ltb offset single_buffer_size
    then slice v.buffer1 offset size
    else slice v.buffer2 (offset - single_buffer_size) size

-- They go to a new `Message`; more than it has are written past its end.
unfoldable pub read_message : StringV → ℕ → ℕ → Option (List ℕ)
read_message v offset size = if ltb message_size size then none else some (copied v offset size)

pub read_message-empty :
    (v : StringV) (offset : ℕ) → (m : List ℕ) × (read_message v offset 0 ≡ some m)
unfolding read_message
read_message-empty v offset = (_, refl)

-- `getNumberOfBuffers`; the answer is always 2.
unfoldable pub get_number_of_buffers : ℕ → IoVec
get_number_of_buffers writeable_offset =
    if ltb writeable_offset single_buffer_size
    then record {
      base1 = writeable_offset;
      len1 = single_buffer_size - writeable_offset;
      base2 = 0;
      len2 = single_buffer_size;
    }
    else record {
      base1 = 0;
      len1 = 0;
      base2 = writeable_offset - single_buffer_size;
      len2 = single_buffer_size - (writeable_offset - single_buffer_size);
    }

-- What `readv` does with the bytes it reads.
abbrev pub scatter : StringV → IoVec → List ℕ → StringV
scatter v io c = record {
  buffer1 = overwrite v.buffer1 io.base1 (take io.len1 c);
  buffer2 = overwrite v.buffer2 io.base2 (drop io.len1 c);
}

abbrev pub swap : StringV → StringV
swap v = record { buffer1 = v.buffer2; buffer2 = v.buffer1 }

abbrev pub string_v : DataHandler
string_v = record {
  Memory = StringV;
  buffer_size = single_buffer_size + single_buffer_size;
  header_size = header_size;
  read_header = read_header;
  read_message = read_message;
  empty_fits = read_message-empty;
}
