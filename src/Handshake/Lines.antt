-- ===== src/Handshake/Lines.antt =====
-- The loop over the lines of a request (HandshakeRequest.cpp) or of a response (HandshakeSeverResponse.cpp).
use lu.Base.{
  ℕ, zero, suc, ◌+◌, List, [], ◌∷◌, Option, none, some, length, take, drop, ltb, if◌then◌else◌,
}
use lu.Text.Bytes.{codes, find, to_lower}
use lu.Handshake.Types.{Keys, Answer, answers, throws, overruns, spins, crlf, emplace}

-- A line of a key and a value. A line that ends at its colon makes `substr` throw.
abbrev pub key_line :
    List ℕ → Keys → (Keys → Answer (Option Keys)) → Option ℕ → Answer (Option Keys)
key_line line keys go none = answers none
key_line line keys go (some p) =
    let rest = go (emplace (to_lower (take p line)) (drop (p + 2) line) keys) in
    if ltb (length line) (p + 2) then throws else rest

-- The first line: nothing, where it is refused, or its entry.
abbrev pub opened : (Keys → Answer (Option Keys)) → Option (List ℕ × List ℕ) → Answer (Option Keys)
opened go none = answers none
opened go (some e) = go (e ∷ [])

module _ (first : List ℕ → Option (List ℕ × List ℕ)) where
  abbrev pub take_line : List ℕ → Keys → (Keys → Answer (Option Keys)) → Answer (Option Keys)
  take_line line [] go = opened go (first line)
  take_line line (e ∷ keys) go = key_line line (e ∷ keys) go (find (codes ":") line)

  -- `location`: where the line ends. At none the view of the line is longer than the text.
  abbrev pub line_at :
      (List ℕ → Keys → Answer (Option Keys)) → List ℕ → Keys → Option ℕ → Answer (Option Keys)
  line_at go text keys none = overruns
  line_at go text keys (some zero) = answers (some keys)
  line_at go text keys (some (suc n)) =
      take_line (take (suc n) text) keys (go (drop (suc n + 2) text))

  -- The text is what is behind `readHeader`; the fuel is a turn for each line.
  unfoldable pub read_lines : ℕ → List ℕ → Keys → Answer (Option Keys)
  read_lines zero text keys = spins
  read_lines (suc n) text keys = line_at (read_lines n) text keys (find crlf text)
