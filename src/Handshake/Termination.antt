-- ===== src/Handshake/Termination.antt =====
-- The ends of `getResponse` and of `readServerResponse`.
use lu.Base.{
  ℕ, zero, suc, ◌+◌, ◌<◌, ◌≢◌, Bool, true, false, not, List, [], ◌∷◌, Option, none, some, length,
  length-drop, take, drop, ltb, arith,
}
use lu.Text.Bytes.{codes, find, text_eq, to_lower}
use lu.Text.Numbers.{ℤ}
use lu.Handshake.Types.{Keys, Answer, throws, spins, then_answer, crlf, find_key}
use lu.Handshake.Lines.{key_line, opened, take_line, line_at, read_lines}
use lu.Handshake.Response.{is_empty}
use lu.Handshake.Request.{
  request_line, with_key, responded, offered, upgraded, answer_keys, all_protocols, all_versions,
  get_response,
}
use lu.Handshake.Fuel.{
  Ends, ends_answers, ends_throws, ends_overruns, if-Ends, or_throw-Ends, all_protocols-Ends,
  all_versions-Ends,
}
use lu.Handshake.Client.{status_line, with_value, skip_protocols, check_keys, read_server_response}

Ends-ne : {A : Type 0} (a : Answer A) → Ends a → a ≢ spins
Ends-ne a (ends_answers x) h = cc
Ends-ne a ends_throws h = cc
Ends-ne a ends_overruns h = cc

then_answer-Ends :
    {A B : Type 0} (a : Answer A) (f : A → Answer B)
    → Ends a
    → ((x : A) → Ends (f x))
    → Ends (then_answer a f)
then_answer-Ends a f (ends_answers x) h = h x
then_answer-Ends a f ends_throws h = ends_throws
then_answer-Ends a f ends_overruns h = ends_overruns

key_line-Ends :
    (line : List ℕ) (keys : Keys) (go : Keys → Answer (Option Keys)) (p : Option ℕ)
    → ((k : Keys) → Ends (go k))
    → Ends (key_line line keys go p)
key_line-Ends line keys go none h = ends_answers none
key_line-Ends line keys go (some p) h =
    if-Ends (ltb (length line) (p + 2)) throws _ ends_throws (h _)

opened-Ends :
    (go : Keys → Answer (Option Keys)) (e : Option (List ℕ × List ℕ))
    → ((k : Keys) → Ends (go k))
    → Ends (opened go e)
opened-Ends go none h = ends_answers none
opened-Ends go (some e) h = h (e ∷ [])

module _ (first : List ℕ → Option (List ℕ × List ℕ)) where
  take_line-Ends :
      (line : List ℕ) (keys : Keys) (go : Keys → Answer (Option Keys))
      → ((k : Keys) → Ends (go k))
      → Ends (take_line first line keys go)
  take_line-Ends line [] go h = opened-Ends go (first line) h
  take_line-Ends line (e ∷ keys) go h = key_line-Ends line (e ∷ keys) go (find (codes ":") line) h

  line_at-Ends :
      (go : List ℕ → Keys → Answer (Option Keys)) (text : List ℕ) (keys : Keys) (p : Option ℕ)
      → ((k : ℕ) (keys' : Keys) → Ends (go (drop (suc k + 2) text) keys'))
      → Ends (line_at first go text keys p)
  line_at-Ends go text keys none h = ends_overruns
  line_at-Ends go text keys (some zero) h = ends_answers (some keys)
  line_at-Ends go text keys (some (suc k)) h =
      take_line-Ends (take (suc k) text) keys (go (drop (suc k + 2) text)) (h k)

  -- Each line takes two bytes at least.
  read_lines-Ends :
      (n : ℕ) (text : List ℕ) (keys : Keys) → length text < n → Ends (read_lines first n text keys)
  unfolding read_lines
  read_lines-Ends zero text keys h = absurd (omega (arith, h))
  read_lines-Ends (suc n) [] keys h = ends_overruns
  read_lines-Ends (suc n) (c ∷ text) keys h =
      line_at-Ends (read_lines first n) (c ∷ text) keys (find crlf (c ∷ text)) (λ k keys'.
        read_lines-Ends n (drop (suc k + 2) (c ∷ text)) keys'
          (omega (arith, h, length-drop (suc k + 2) (c ∷ text))))

with_key-Ends :
    (o : Option (List ℕ)) (f : List ℕ → Answer (List ℕ))
    → ((v : List ℕ) → Ends (f v))
    → Ends (with_key o f)
with_key-Ends none f h = ends_answers []
with_key-Ends (some v) f h = h v

with_value-Ends :
    (o : Option (List ℕ)) (f : List ℕ → Answer Bool)
    → ((v : List ℕ) → Ends (f v))
    → Ends (with_value o f)
with_value-Ends none f h = ends_answers false
with_value-Ends (some v) f h = h v

module _ (get_base64_hash : List ℕ → List ℕ) (protocol : List ℕ) (versions : List ℤ) where
  responded-Ends :
      (upgrade key : List ℕ) (ps : List (List ℕ)) (vs : List ℤ)
      → Ends (responded get_base64_hash protocol versions upgrade key ps vs)
  responded-Ends upgrade key ps vs = if-Ends (is_empty ps) _ _ (ends_answers []) (ends_answers _)

  offered-Ends :
      (keys : Keys) (upgrade key protocols : List ℕ)
      → Ends (offered get_base64_hash protocol versions keys upgrade key protocols)
  offered-Ends keys upgrade key protocols = if-Ends (is_empty protocols) _ _ (ends_answers []) (
      then_answer-Ends (all_protocols protocols) _ (all_protocols-Ends protocols) (λ ps.
        with_key-Ends (find_key (codes "sec-websocket-version") keys) _ (λ v.
          then_answer-Ends (all_versions protocols v) _ (all_versions-Ends protocols v)
            (responded-Ends upgrade key ps))))

  upgraded-Ends :
      (keys : Keys) (upgrade : List ℕ)
      → Ends (upgraded get_base64_hash protocol versions keys upgrade)
  upgraded-Ends keys upgrade = if-Ends (text_eq upgrade (codes "tcp")) _ _ (ends_answers _) (
      if-Ends (not (text_eq upgrade (codes "websocket"))) _ _ (ends_answers []) (
        with_key-Ends (find_key (codes "sec-websocket-key") keys) _ (λ key.
          with_key-Ends (find_key (codes "connection") keys) _ (λ connection.
            if-Ends (not (text_eq (to_lower connection) (codes "upgrade"))) _ _ (ends_answers []) (
              with_key-Ends (find_key (codes "sec-websocket-protocol") keys) _
                (offered-Ends keys upgrade key))))))

  answer_keys-Ends : (o : Option Keys) → Ends (answer_keys get_base64_hash protocol versions o)
  answer_keys-Ends none = ends_answers []
  answer_keys-Ends (some keys) =
      with_key-Ends (find_key (codes "upgrade") keys) _ (upgraded-Ends keys)

  -- On every text, `getResponse` comes to an end, with its loops over lines, protocols and
  -- versions: with a response, with an exception, or at a line that has no end in the text.
  pub get_response-returns :
      (below : List ℕ → Option Bool) (resource text : List ℕ)
      → get_response get_base64_hash protocol versions below resource text ≢ spins
  unfolding get_response
  get_response-returns below resource text = Ends-ne _ (
      then_answer-Ends _ _
        (read_lines-Ends (request_line below resource) (length text + 1) text [] (omega arith))
        answer_keys-Ends)

skip_protocols-Ends : (o : Option (List ℕ)) → Ends (skip_protocols o)
skip_protocols-Ends none = ends_answers true
skip_protocols-Ends (some []) = ends_answers true
skip_protocols-Ends (some (c ∷ t)) = or_throw-Ends _ _ (ends_answers true)

module _ (get_base64_hash : List ℕ → List ℕ) (key : List ℕ) where
  check_keys-Ends : (o : Option Keys) → Ends (check_keys get_base64_hash key o)
  check_keys-Ends none = ends_answers false
  check_keys-Ends (some keys) = with_value-Ends (find_key (codes "upgrade") keys) _ (λ upgrade.
      if-Ends (text_eq upgrade (codes "tcp")) _ _ (ends_answers true) (
        if-Ends (not (text_eq upgrade (codes "websocket"))) _ _ (ends_answers false) (
          with_value-Ends (find_key (codes "connection") keys) _ (λ connection.
            if-Ends (not (text_eq (to_lower connection) (codes "upgrade"))) _ _ (ends_answers false)
              (then_answer-Ends _ _ (skip_protocols-Ends _) (λ b.
                with_value-Ends (find_key (codes "sec-websocket-accept") keys) _
                  (λ accept. ends_answers _)))))))

  -- `readServerResponse` comes to an end on every text.
  pub read_server_response-returns :
      (below : List ℕ → Option Bool) (text : List ℕ)
      → read_server_response get_base64_hash key below text ≢ spins
  unfolding read_server_response
  read_server_response-returns below text = Ends-ne _ (
      then_answer-Ends _ _
        (read_lines-Ends (status_line below) (length text + 1) text [] (omega arith))
        check_keys-Ends)
