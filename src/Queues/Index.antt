-- ===== src/Queues/Index.antt =====
-- include/common/Common.h: the sizes of queues and the shuffled order of their slots.
use lu.Base.{
  ℕ, ◌+◌, ◌-◌, ◌*◌, ◌^◌, leb, ◌==◌, Bool, ◌&&◌, if◌then◌else◌, bit_and, bit_or, bit_xor, u32,
  sub_u32, ◌<<<◌, ◌>>>◌,
}

-- `GetCacheLineIndexBitsSize`
unfoldable pub index_bits_size : ℕ → ℕ
index_bits_size n =
    if n == 256
    then 8
    else if n == 128
    then 7
    else if n == 64
    then 6
    else if n == 32
    then 5
    else if n == 16
    then 4
    else if n == 8
    then 3
    else if n == 4
    then 2
    else if n == 2
    then 1
    else 0

-- `GetIndexShuffleBits`
unfoldable pub index_shuffle_bits : Bool → ℕ → ℕ → ℕ
unfolding index_bits_size
index_shuffle_bits minimize_contention array_size n =
    if minimize_contention && leb (1 <<< (index_bits_size n * 2)) array_size
    then index_bits_size n
    else 0

-- `remapIndex<Bits>`
unfoldable pub remap_index : ℕ → ℕ → ℕ
remap_index bits index =
    if bits == 0 then index else bit_xor (bit_xor index mix) (u32 (mix <<< bits))
  where
    mix : ℕ
    mix = bit_and (bit_xor index (index >>> bits)) (2 ^ bits - 1)

-- `n |= n >> k`
abbrev pub smear : ℕ → ℕ → ℕ
smear k n = bit_or n (n >>> k)

-- `nextPowerOfTwo<unsigned>`
unfoldable pub next_power_of_two : ℕ → ℕ
next_power_of_two n = u32 (smear 16 (smear 8 (smear 4 (smear 2 (smear 1 (sub_u32 n 1))))) + 1)
