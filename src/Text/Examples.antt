-- ===== src/Text/Examples.antt =====
-- Runs of the parser of items, and the theorem on it, at small inputs.
use lu.Base.{◌≡◌, refl, []}
use lu.Text.Bytes.{codes}
use lu.Text.Numbers.{negsuc}
use lu.Text.Parser.{ok, no_number, new_parser, next, next_int, cleaned}

-- `null` is an empty item, spaces around an item are dropped, and -12 is a number.
cleaned_null : cleaned (codes " null ") ≡ []
unfolding cleaned
cleaned_null = refl

cleaned_spaces : cleaned (codes "  a b ") ≡ codes "a b"
unfolding cleaned
cleaned_spaces = refl

reads_int :
    next_int (new_parser (codes "-12;x") (codes ";") 1)
    ≡ ok (
      negsuc 11,
      record (new_parser (codes "-12;x") (codes ";") 1) { start_pos = 4; current_index = 2 },
    )
unfolding next cleaned
reads_int = refl

no_int : next_int (new_parser (codes "x") (codes ";") 7) ≡ no_number (codes "x") 2 7
unfolding next cleaned
no_int = refl
