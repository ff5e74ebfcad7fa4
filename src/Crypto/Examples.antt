-- ===== src/Crypto/Examples.antt =====
-- The theorems on `DataWrap` at a small buffer.
use lu.Base.{◌+◌, ◌<◌, ◌≤◌, ◌≡◌, ◌⊎◌, [], ◌∷◌, ◌++◌, true, false, take, arith}
use lu.Crypto.DataWrap.{DataWrap, append, contents, IsWell}
use lu.Crypto.Filling.{append-contents}

-- Two of four bytes filled.
abbrev half : DataWrap
half = record { bytes = 1 ∷ 2 ∷ 0 ∷ 0 ∷ []; capacity = 4; offset = 2 }

half-IsWell : IsWell half
half-IsWell = record { sized = omega arith; full = omega arith; within = omega arith }

append-contents_example :
    ((half.offset + 2 ≤ half.capacity)
      × ((append half (7 ∷ 8 ∷ []) 2).1 ≡ true)
      × (contents (append half (7 ∷ 8 ∷ []) 2).0 ≡ contents half ++ take 2 (7 ∷ 8 ∷ []))
      × IsWell (append half (7 ∷ 8 ∷ []) 2).0)
    ⊎ ((half.capacity < half.offset + 2) × (append half (7 ∷ 8 ∷ []) 2 ≡ (half, false)))
append-contents_example =
    append-contents half (7 ∷ 8 ∷ []) 2 half-IsWell (omega arith) (omega arith) (omega arith)
