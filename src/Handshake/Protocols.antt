-- ===== src/Handshake/Protocols.antt =====
-- The protocols that a request offers, and its first line, as the server reads them.
use lu.Base.{
  ℕ, zero, suc, ◌+◌, ◌≤◌, ◌<◌, ◌≡◌, ◌≢◌, refl, ap, subst, ◌∙◌, Bool, false, List, [], ◌∷◌, ◌++◌,
  All, Option, some, length, length-append, append-nil, arith,
}
use lu.Text.Bytes.{codes, until_zero}
use lu.Text.Finding.{Without, Without-append, text_eq_refl, until_zero-Without}
use lu.Text.Items.{At, At-next, next-item, next-last, next-end, moved_to}
use lu.Text.Parser.{TextParser, ok, then_parse, new_parser, next, cleaned}
use lu.Handshake.Request.{
  before_rest, item_or_end, read_protocols, more_protocols, protocols_parser, all_protocols,
  or_throw, http_version, accepted_line, request_line,
}
use lu.Handshake.Types.{Answer, answers}

-- A name that the parser gives back as it is: no comma, line end or zero byte, no space at its ends, and not `null`.
pub record IsName (t : List ℕ) : Type 0 where
  pub nonempty : 0 < length t
  pub clean : cleaned t ≡ t
  pub no_comma : Without 44 t
  pub no_return : Without 13 t
  pub no_zero : Without 0 t

abbrev pub offer : List ℕ → List (List ℕ) → List ℕ
offer p ps = p ++ more_protocols ps

item-kept :
    (t : List ℕ) (go : TextParser → Answer (List (List ℕ))) (p : TextParser)
    → 0 < length t
    → item_or_end go (ok (t, p)) ≡ before_rest t (go p)
item-kept [] go p h = absurd (omega (arith, h))
item-kept (c ∷ t) go p h = refl

read_protocols-end :
    (n : ℕ) (parser : TextParser)
    → 0 < n
    → length parser.line < parser.start_pos
    → read_protocols n parser ≡ answers []
unfolding read_protocols
read_protocols-end zero parser more h = absurd (omega (arith, more))
read_protocols-end (suc n) parser more h = ap (item_or_end (read_protocols n)) (next-end parser h)

pub read_protocols-offer :
    (n : ℕ) (p : List ℕ) (ps : List (List ℕ)) (parser : TextParser)
    → length ps + 1 < n
    → parser.delimiter ≡ codes ", "
    → At parser (offer p ps)
    → IsName p
    → All IsName ps
    → read_protocols n parser ≡ answers (p ∷ ps)
unfolding read_protocols
read_protocols-offer zero p ps parser h e a i is = absurd (omega (arith, h))
read_protocols-offer (suc n) p [] parser h e a i is =
    let at : At parser p = subst (At parser) (append-nil p) a in
    ap (item_or_end (read_protocols n)) (
      next-last parser 44 (32 ∷ []) p e at i.nonempty i.no_comma
      ∙ ap (λ t. ok (t, moved_to parser (length parser.line))) i.clean)
    ∙ (item-kept p (read_protocols n) _ i.nonempty
        ∙ ap (before_rest p) (
            read_protocols-end n (moved_to parser (length parser.line)) (omega (arith, h))
              (omega (arith, ap length e))))
read_protocols-offer (suc n) p (q ∷ qs) parser h e a i is =
    ap (item_or_end (read_protocols n)) (
      next-item parser 44 (32 ∷ []) p (offer q qs) e a i.no_comma
      ∙ ap (λ t. ok (t, moved_to parser (parser.start_pos + length p))) i.clean)
    ∙ (item-kept p (read_protocols n) _ i.nonempty
        ∙ ap (before_rest p) (
            read_protocols-offer n q qs (moved_to parser (parser.start_pos + length p))
              (omega (arith, h)) e (At-next parser (codes ", ") p (offer q qs) e a) is.0 is.1))

offer-Without :
    (c : ℕ) (p : List ℕ) (ps : List (List ℕ))
    → c ≢ 44
    → c ≢ 32
    → Without c p
    → All (Without c) ps
    → Without c (offer p ps)
offer-Without c p [] h h' w a = Without-append c p [] w tt
offer-Without c p (q ∷ qs) h h' w a =
    Without-append c p (codes ", " ++ offer q qs) w
      (omega (arith, h), (omega (arith, h'), offer-Without c q qs h h' a.0 a.1))

names-Without : (ps : List (List ℕ)) → All IsName ps → All (Without 0) ps × All (Without 13) ps
names-Without [] a = (tt, tt)
names-Without (p ∷ ps) a =
    let (z, r) = names-Without ps a.1 in ((a.0.no_zero, z), (a.0.no_return, r))

pub offer-one_line :
    (p : List ℕ) (ps : List (List ℕ)) → IsName p → All IsName ps → Without 13 (offer p ps)
offer-one_line p ps i a =
    offer-Without 13 p ps (omega arith) (omega arith) i.no_return (names-Without ps a).1

pub length-offer : (p : List ℕ) (ps : List (List ℕ)) → length ps ≤ length (offer p ps)
length-offer p [] = omega arith
length-offer p (q ∷ qs) =
    omega (arith, length-append p (codes ", " ++ offer q qs), length-offer q qs)

parser-offer :
    (p : List ℕ) (ps : List (List ℕ))
    → IsName p
    → All IsName ps
    → At (protocols_parser (offer p ps)) (offer p ps)
parser-offer p ps i a = record {
  inside = omega arith;
  reads =
      until_zero-Without (offer p ps)
        (offer-Without 0 p ps (omega arith) (omega arith) i.no_zero (names-Without ps a).0);
}

next-offer :
    (p : List ℕ) (ps : List (List ℕ)) (parser : TextParser)
    → parser.delimiter ≡ codes ", "
    → At parser (offer p ps)
    → IsName p
    → (q : TextParser) × (next parser ≡ ok (p, q))
next-offer p [] parser e a i = (
  _,
  next-last parser 44 (32 ∷ []) p e (subst (At parser) (append-nil p) a) i.nonempty i.no_comma
      ∙ ap (λ t. ok (t, moved_to parser (length parser.line))) i.clean,
)
next-offer p (q ∷ qs) parser e a i = (
  _,
  next-item parser 44 (32 ∷ []) p (offer q qs) e a i.no_comma
      ∙ ap (λ t. ok (t, moved_to parser (parser.start_pos + length p))) i.clean,
)

pub first_protocol :
    (p : List ℕ) (ps : List (List ℕ))
    → IsName p
    → All IsName ps
    → (q : TextParser) × (next (protocols_parser (offer p ps)) ≡ ok (p, q))
first_protocol p ps i a =
    next-offer p ps (protocols_parser (offer p ps)) refl (parser-offer p ps i a) i

-- The server reads the protocols that the client offers.
pub all_protocols-offer :
    (p : List ℕ) (ps : List (List ℕ))
    → IsName p
    → All IsName ps
    → all_protocols (offer p ps) ≡ answers (p ∷ ps)
all_protocols-offer p ps i a =
    let (q, e) = first_protocol p ps i a in
    ap (λ r. or_throw r (read_protocols (length (offer p ps) + 2) (protocols_parser (offer p ps))))
      e
    ∙ read_protocols-offer _ p ps (protocols_parser (offer p ps)) (omega (arith, length-offer p ps))
        refl (parser-offer p ps i a) i a

-- The first line of a request, for a resource without spaces.
abbrev pub first_line : List ℕ → List ℕ
first_line resource = codes "GET " ++ (resource ++ codes " HTTP/1.1")

version-http :
    (below : List ℕ → Option Bool)
    → below (codes "1.1") ≡ some false
    → http_version below (codes "HTTP/1.1") ≡ ok false
unfolding next cleaned until_zero
version-http below h = rw h refl

three_items :
    (below : List ℕ → Option Bool) (resource line : List ℕ) (p0 p1 p2 p3 : TextParser)
    → next p0 ≡ ok (codes "GET", p1)
    → next p1 ≡ ok (resource, p2)
    → next p2 ≡ ok (codes "HTTP/1.1", p3)
    → below (codes "1.1") ≡ some false
    → accepted_line resource line (
        then_parse (next p0) (λ verb. then_parse (next verb.1) (λ asked.
          then_parse (next asked.1) (λ http_protocol.
            then_parse (http_version below http_protocol.0) (λ old. ok (verb.0, asked.0, old))))))
      ≡ some (codes "request-method", line)
three_items below resource line p0 p1 p2 p3 a b c h =
    rw (a, b, c)
      (ap (λ r. accepted_line resource line (then_parse r (λ old. ok (codes "GET", resource, old))))
          (version-http below h)
        ∙ rw (text_eq_refl resource) refl)

no_spaces : Without 32 (codes "GET")
no_spaces = (omega arith, (omega arith, (omega arith, tt)))

no_spaces_behind : Without 32 (codes "HTTP/1.1")
no_spaces_behind = (
  omega arith,
  (
    omega arith,
    (omega arith, (omega arith, (omega arith, (omega arith, (omega arith, (omega arith, tt)))))),
  ),
)

pub request_line-accepted :
    (below : List ℕ → Option Bool) (resource : List ℕ)
    → below (codes "1.1") ≡ some false
    → Without 32 resource
    → cleaned resource ≡ resource
    → request_line below resource (first_line resource)
      ≡ some (codes "request-method", first_line resource)
unfolding request_line cleaned
request_line-accepted below resource h w clean =
    let p0 = new_parser (first_line resource) (codes " ") 1 in
    let a0 : At p0 (codes "GET" ++ (codes " " ++ (resource ++ codes " HTTP/1.1"))) = record {
      inside = omega arith;
      reads = refl;
    } in
    let p1 = moved_to p0 (0 + 3) in
    let a1 : At p1 (resource ++ (codes " " ++ codes "HTTP/1.1")) =
      At-next p0 (codes " ") (codes "GET") (resource ++ codes " HTTP/1.1") refl a0 in
    let p2 = moved_to p1 (p1.start_pos + length resource) in
    let a2 : At p2 (codes "HTTP/1.1") =
      At-next p1 (codes " ") resource (codes "HTTP/1.1") refl a1 in
    three_items below resource (first_line resource) p0 p1 p2 (moved_to p2 (length p2.line))
      (next-item p0 32 [] (codes "GET") (resource ++ codes " HTTP/1.1") refl a0 no_spaces)
      (next-item p1 32 [] resource (codes "HTTP/1.1") refl a1 w ∙ ap (λ t. ok (t, p2)) clean)
      (next-last p2 32 [] (codes "HTTP/1.1") refl a2 (omega arith) no_spaces_behind) h
