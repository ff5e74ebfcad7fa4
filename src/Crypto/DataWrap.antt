-- ===== src/Crypto/DataWrap.antt =====
-- include/crypto/DataWrap.h and src/crypto/DataWrap.cpp: an owned byte buffer filled from the front.
use lu.Base.{
  ℕ, ◌+◌, ◌%◌, ◌^◌, ◌≤◌, Bool, true, false, List, [], ltb, if◌then◌else◌, length, take, replicate,
  overwrite,
}

-- `bytes` is what `m_data` points to: `capacity` (`m_length`) bytes, or none after a move. `offset`
-- (`m_offset`) counts the bytes appended so far.
pub record DataWrap : Type 0 where
  pub bytes : List ℕ
  pub capacity : ℕ
  pub offset : ℕ

unfoldable pub create : ℕ → DataWrap
create n = record { bytes = replicate n 0; capacity = n; offset = 0 }

-- `append(data, length)`: `data` is given as the bytes from the pointer on. `size_t` addition wraps.
unfoldable pub append : DataWrap → List ℕ → ℕ → DataWrap × Bool
append w bytes n = if ltb w.capacity ((w.offset + n) % 2 ^ 64) then (w, false) else (
  record w { bytes = overwrite w.bytes w.offset (take n bytes); offset = (w.offset + n) % 2 ^ 64 },
  true,
)

unfoldable pub clear : DataWrap → DataWrap
clear w = record w { offset = 0 }

-- The move constructor: the new buffer, and what is left of the old one. `m_offset` is not moved.
unfoldable pub move_from : DataWrap → DataWrap × DataWrap
move_from other = (
  record { bytes = other.bytes; capacity = other.capacity; offset = 0 },
  record other { bytes = [] },
)

-- Move assignment swaps the buffers and lengths, and no offsets.
unfoldable pub move_assign : DataWrap → DataWrap → DataWrap × DataWrap
move_assign this other = (
  record this { bytes = other.bytes; capacity = other.capacity },
  record other { bytes = this.bytes; capacity = this.capacity },
)

-- The bytes appended so far: `getData()` up to `getDataLength()`.
abbrev pub contents : DataWrap → List ℕ
contents w = take w.offset w.bytes

pub record IsWell (w : DataWrap) : Type 0 where
  pub sized : length w.bytes ≤ w.capacity
  pub full : w.capacity ≤ length w.bytes
  pub within : w.offset ≤ w.capacity
