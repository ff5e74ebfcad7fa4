-- ===== src/Handshake/Exceptions.antt =====
-- `getResponse` at a header without a value.
use lu.Base.{
  ℕ, suc, ◌+◌, ◌-◌, ◌≡◌, refl, ap, ◌∙◌, Bool, false, List, [], ◌∷◌, ◌++◌, Option, some, length,
  length-append, lt→ltb, arith,
}
use lu.Text.Bytes.{codes}
use lu.Text.Numbers.{ℤ}
use lu.Text.Finding.{Without, Without-append, find-append}
use lu.Text.Parser.{cleaned}
use lu.Handshake.Types.{throws, crlf, then_answer}
use lu.Handshake.Lines.{key_line, read_lines}
use lu.Handshake.Request.{request_line, answer_keys, get_response}
use lu.Handshake.Reading.{line_any, line_first}
use lu.Handshake.Protocols.{first_line, request_line-accepted}

no_value_throws :
    (first : List ℕ → Option (List ℕ × List ℕ)) (n : ℕ) (k rest : List ℕ) (e : List ℕ × List ℕ)
    → Without 58 k
    → Without 13 k
    → read_lines first (suc n) ((k ++ codes ":") ++ (crlf ++ rest)) (e ∷ []) ≡ throws
no_value_throws first n k rest e w w' =
    line_any first n (k ++ codes ":") rest (e ∷ []) (omega (arith, length-append k (codes ":")))
      (Without-append 13 k (codes ":") w' (omega arith))
    ∙ (ap (key_line (k ++ codes ":") (e ∷ []) (read_lines first n rest)) (find-append 58 [] k [] w)
        ∙ (let past =
              lt→ltb (length (k ++ codes ":")) (length k + 2)
                (omega (arith, length-append k (codes ":"))) in
            rw past refl))

-- A request whose first line is accepted, and whose first header ends at its first colon, makes
-- `getResponse` throw an exception that it does not catch, whatever stands behind. 1.1 is not
-- below 1.1F, and the resource is one word that the parser keeps as it is.
pub empty_header_throws :
    (get_base64_hash : List ℕ → List ℕ) (protocol : List ℕ) (versions : List ℤ)
    (below : List ℕ → Option Bool) (resource k rest : List ℕ)
    → below (codes "1.1") ≡ some false
    → Without 32 resource
    → Without 13 resource
    → cleaned resource ≡ resource
    → Without 58 k
    → Without 13 k
    → get_response get_base64_hash protocol versions below resource
        (first_line resource ++ (crlf ++ ((k ++ codes ":") ++ (crlf ++ rest))))
      ≡ throws
unfolding get_response
empty_header_throws get_base64_hash protocol versions below resource k rest h one_word one_line
      clean w w' =
    let text = first_line resource ++ (crlf ++ ((k ++ codes ":") ++ (crlf ++ rest))) in
    let m = length text in
    let two_more : m + 1 ≡ suc (suc (m - 1)) = omega arith in
    ap (λ a. then_answer a (answer_keys get_base64_hash protocol versions))
      (ap (λ n. read_lines (request_line below resource) n text []) two_more
        ∙ (line_first (request_line below resource) (suc (m - 1)) (first_line resource)
              ((k ++ codes ":") ++ (crlf ++ rest)) _ (omega arith)
              (
                omega arith,
                (
                  omega arith,
                  (
                    omega arith,
                    (
                      omega arith,
                      Without-append 13 resource (codes " HTTP/1.1") one_line (omega arith),
                    ),
                  ),
                ),
              )
              (request_line-accepted below resource h one_word clean)
            ∙ no_value_throws (request_line below resource) (m - 1) k rest _ w w'))
