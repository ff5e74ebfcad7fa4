-- ===== src/Web/Header.antt =====
-- `processHandshake` on a request that has arrived whole.
use lu.Base.{
  ℕ, zero, suc, ◌+◌, ◌≤◌, ◌<◌, ◌≡◌, refl, sym, ap, subst, ◌∙◌, Bool, true, false, List, [], ◌∷◌,
  ◌++◌, All, Option, some, append_assoc, length, length-append, length-drop, drop, drop-append,
  drop-drop, ◌==◌, le→leb, arith,
}
use lu.Text.Bytes.{codes, plus, find, find_from}
use lu.Text.Finding.{Without, Without-append, find-append}
use lu.Handshake.Types.{Keys, crlf}
use lu.Handshake.Request.{header_lines}
use lu.Handshake.Reading.{IsHeader}
use lu.Web.Socket.{WebSocket, scan_at, scan, end_of_header}

-- What the view shows from the header offset on.
record Shown (view : List ℕ) (s : WebSocket) (r : List ℕ) : Type 0 where
  inside : s.header_offset ≤ length view
  shown : drop s.header_offset view ≡ r

abbrev pub moved_on : WebSocket → ℕ → WebSocket
moved_on s n = record s { header_offset = s.header_offset + n }

Shown-moved :
    (view : List ℕ) (s : WebSocket) (xs ys : List ℕ)
    → Shown view s (xs ++ ys)
    → Shown view (moved_on s (length xs)) ys
Shown-moved view s xs ys v = record {
  inside =
      omega
        (arith, ap length v.shown, length-drop s.header_offset view, length-append xs ys, v.inside);
  shown =
      drop-drop s.header_offset (length xs) view
      ∙ (ap (drop (length xs)) v.shown ∙ drop-append (length xs) xs ys refl);
}

find_from-Shown :
    (view : List ℕ) (s : WebSocket) (l rest : List ℕ)
    → Shown view s (l ++ (crlf ++ rest))
    → Without 13 l
    → find_from crlf view s.header_offset ≡ some (s.header_offset + length l)
find_from-Shown view s l rest v w = rw (le→leb s.header_offset (length view) v.inside) (
    ap (λ t. plus s.header_offset (find crlf t)) v.shown
    ∙ ap (plus s.header_offset) (find-append 13 (10 ∷ []) l rest w))

module _ (get_base64_hash : List ℕ → List ℕ) (below : List ℕ → Option Bool) where
  scan-line :
      (n : ℕ) (view : List ℕ) (s : WebSocket) (l rest : List ℕ)
      → Shown view s (l ++ (crlf ++ rest))
      → 0 < length l
      → Without 13 l
      → scan get_base64_hash below (suc n) view s
        ≡ scan get_base64_hash below n view (moved_on s (length (l ++ crlf)))
  unfolding scan
  scan-line n view s l rest v h w =
      ap (scan_at get_base64_hash below (scan get_base64_hash below n view) s)
        (find_from-Shown view s l rest v w)
      ∙ (let later : (s.header_offset + length l == s.header_offset) ≡ false = ground (arith, h) in
          rw later (
            ap (λ k. scan get_base64_hash below n view (record s { header_offset = k }))
              (omega (arith, length-append l crlf))))

  scan-end :
      (n : ℕ) (view : List ℕ) (s : WebSocket) (rest : List ℕ)
      → Shown view s (crlf ++ rest)
      → scan get_base64_hash below (suc n) view s
        ≡ end_of_header get_base64_hash below (moved_on s 2)
  unfolding scan
  scan-end n view s rest v =
      ap (scan_at get_base64_hash below (scan get_base64_hash below n view) s)
        (find_from-Shown view s [] rest v tt)
      ∙ (let here : (s.header_offset + 0 == s.header_offset) ≡ true = ground arith in rw here refl)

  scan-headers :
      (hs : Keys) (n : ℕ) (view : List ℕ) (s : WebSocket) (rest : List ℕ)
      → Shown view s (header_lines hs ++ (crlf ++ rest))
      → length hs < n
      → All IsHeader hs
      → scan get_base64_hash below n view s
        ≡ end_of_header get_base64_hash below (moved_on s (length (header_lines hs) + 2))
  scan-headers hs zero view s rest v h a = absurd (omega (arith, h))
  scan-headers [] (suc n) view s rest v h a = scan-end n view s rest v
  scan-headers ((k, value) ∷ hs) (suc n) view s rest v h a =
      let line = k ++ (codes ": " ++ value) in
      let more = header_lines hs ++ (crlf ++ rest) in
      let text : header_lines ((k, value) ∷ hs) ++ (crlf ++ rest) ≡ line ++ (crlf ++ more) =
        simp append_assoc in
      let next = moved_on s (length (line ++ crlf)) in
      let v' : Shown view s (line ++ (crlf ++ more)) = subst (Shown view s) text v in
      scan-line n view s line more v' (omega (arith, length-append k (codes ": " ++ value)))
        (Without-append 13 k (codes ": " ++ value) a.0.1.0 (omega arith, (omega arith, a.0.1.1)))
      ∙ (scan-headers hs n view next rest
            (Shown-moved view s (line ++ crlf) more
              (subst (Shown view s) (sym (append_assoc line crlf more)) v'))
            (omega (arith, h)) a.1
          ∙ ap (λ m. end_of_header get_base64_hash below (record s { header_offset = m }))
              (omega (
                arith,
                length-append line crlf,
                length-append k (codes ": " ++ value),
                length-append k (codes ": " ++ (value ++ (crlf ++ header_lines hs))),
                length-append value (crlf ++ header_lines hs),
              )))

  -- The whole request is found at the front of the buffer.
  pub scan-request :
      (l : List ℕ) (hs : Keys) (rest : List ℕ) (n : ℕ) (s : WebSocket)
      → s.header_offset ≡ 0
      → 0 < length l
      → Without 13 l
      → All IsHeader hs
      → length hs + 1 < n
      → (let text = l ++ (crlf ++ (header_lines hs ++ crlf)) in
          scan get_base64_hash below n (text ++ rest) s
          ≡ end_of_header get_base64_hash below (record s { header_offset = length text }))
  scan-request l hs rest zero s z h w a enough = absurd (omega (arith, enough))
  scan-request l hs rest (suc n) s z h w a enough =
      let more = header_lines hs ++ (crlf ++ rest) in
      let text = l ++ (crlf ++ (header_lines hs ++ crlf)) in
      let parts : text ++ rest ≡ l ++ (crlf ++ more) = simp append_assoc in
      let v : Shown (text ++ rest) s (l ++ (crlf ++ more)) = record {
        inside = omega (arith, z);
        shown = ap (λ k. drop k (text ++ rest)) z ∙ parts;
      } in
      let next = moved_on s (length (l ++ crlf)) in
      scan-line n (text ++ rest) s l more v h w
      ∙ (scan-headers hs n (text ++ rest) next rest
            (Shown-moved (text ++ rest) s (l ++ crlf) more
              (subst (Shown (text ++ rest) s) (sym (append_assoc l crlf more)) v))
            (omega (arith, enough)) a
          ∙ ap (λ m. end_of_header get_base64_hash below (record s { header_offset = m }))
              (omega (
                arith,
                z,
                length-append l crlf,
                length-append l (crlf ++ (header_lines hs ++ crlf)),
                length-append (header_lines hs) crlf,
              )))
