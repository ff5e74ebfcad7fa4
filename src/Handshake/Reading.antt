-- ===== src/Handshake/Reading.antt =====
-- The lines of a handshake, read one by one.
use lu.Base.{
  ℕ, zero, suc, ◌+◌, ◌<◌, ◌≡◌, refl, sym, ap, ap₂, ◌∙◌, List, [], ◌∷◌, ◌++◌, All, Option, some,
  append_assoc, append-nil, length, length-append, drop, take-append, drop-append, drop-drop,
  not_ltb, arith,
}
use lu.Text.Bytes.{codes, to_lower}
use lu.Text.Finding.{Without, find-append, Without-append}
use lu.Handshake.Types.{Keys, answers, crlf, emplace}
use lu.Handshake.Lines.{key_line, take_line, line_at, read_lines}
use lu.Handshake.Request.{header_lines}

abbrev pub lowered : Keys → Keys
lowered [] = []
lowered ((k, v) ∷ hs) = (to_lower k, v) ∷ lowered hs

-- A header that is one line, with its first colon behind the key.
abbrev pub IsHeader : List ℕ × List ℕ → Type 0
IsHeader (k, v) = Without 58 k × (Without 13 k × Without 13 v)

module _ (first : List ℕ → Option (List ℕ × List ℕ)) where
  pub line_any :
      (n : ℕ) (l rest : List ℕ) (keys : Keys)
      → 0 < length l
      → Without 13 l
      → read_lines first (suc n) (l ++ (crlf ++ rest)) keys
        ≡ take_line first l keys (read_lines first n rest)
  unfolding read_lines
  line_any n [] rest keys h w = absurd (omega arith)
  line_any n (c ∷ l) rest keys h w =
      ap (line_at first (read_lines first n) ((c ∷ l) ++ (crlf ++ rest)) keys)
        (find-append 13 (10 ∷ []) (c ∷ l) rest w)
      ∙ ap₂ (λ t r. take_line first t keys (read_lines first n r))
          (take-append (suc (length l)) (c ∷ l) (crlf ++ rest) refl)
          (drop-drop (suc (length l)) 2 ((c ∷ l) ++ (crlf ++ rest))
            ∙ ap (drop 2) (drop-append (suc (length l)) (c ∷ l) (crlf ++ rest) refl))

  pub line_first :
      (n : ℕ) (l rest : List ℕ) (e : List ℕ × List ℕ)
      → 0 < length l
      → Without 13 l
      → first l ≡ some e
      → read_lines first (suc n) (l ++ (crlf ++ rest)) [] ≡ read_lines first n rest (e ∷ [])
  line_first n l rest e h w f = line_any n l rest [] h w ∙ rw f refl

  line_key :
      (n : ℕ) (k v rest : List ℕ) (e : List ℕ × List ℕ) (keys : Keys)
      → IsHeader (k, v)
      → read_lines first (suc n) ((k ++ (codes ": " ++ v)) ++ (crlf ++ rest)) (e ∷ keys)
        ≡ read_lines first n rest (emplace (to_lower k) v (e ∷ keys))
  line_key n k v rest e keys h =
      line_any n (k ++ (codes ": " ++ v)) rest (e ∷ keys)
        (omega (arith, length-append k (codes ": " ++ v)))
        (Without-append 13 k (codes ": " ++ v) h.1.0 (omega arith, (omega arith, h.1.1)))
      ∙ (ap (key_line (k ++ (codes ": " ++ v)) (e ∷ keys) (read_lines first n rest))
            (find-append 58 [] k (32 ∷ v) h.0)
          ∙ (let long =
                not_ltb (length (k ++ (codes ": " ++ v))) (length k + 2)
                  (omega (arith, length-append k (codes ": " ++ v))) in
              rw long (
                ap₂ (λ a b. read_lines first n rest (emplace (to_lower a) b (e ∷ keys)))
                  (take-append (length k) k (codes ": " ++ v) refl)
                  (drop-drop (length k) 2 (k ++ (codes ": " ++ v))
                    ∙ ap (drop 2) (drop-append (length k) k (codes ": " ++ v) refl)))))

  line_end :
      (n : ℕ) (rest : List ℕ) (keys : Keys)
      → read_lines first (suc n) (crlf ++ rest) keys ≡ answers (some keys)
  unfolding read_lines
  line_end n rest keys = refl

  -- All headers of a text are read, their keys in lower case.
  pub read_lines-headers :
      (hs : Keys) (n : ℕ) (e : List ℕ × List ℕ) (keys : Keys)
      → length hs < n
      → All IsHeader hs
      → read_lines first n (header_lines hs ++ crlf) (e ∷ keys)
        ≡ answers (some ((e ∷ keys) ++ lowered hs))
  read_lines-headers hs zero e keys h a = absurd (omega (arith, h))
  read_lines-headers [] (suc n) e keys h a =
      line_end n [] (e ∷ keys) ∙ ap (λ k. answers (some k)) (sym (append-nil (e ∷ keys)))
  read_lines-headers ((k, v) ∷ hs) (suc n) e keys h a =
      ap (λ t. read_lines first (suc n) t (e ∷ keys)) text
      ∙ (line_key n k v (header_lines hs ++ crlf) e keys a.0
          ∙ (read_lines-headers hs n e (keys ++ ((to_lower k, v) ∷ [])) (omega (arith, h)) a.1
              ∙ ap (λ k. answers (some k))
                  (append_assoc (e ∷ keys) ((to_lower k, v) ∷ []) (lowered hs))))
    where
      text :
          header_lines ((k, v) ∷ hs) ++ crlf
          ≡ (k ++ (codes ": " ++ v)) ++ (crlf ++ (header_lines hs ++ crlf))
      text = simp append_assoc
