-- ===== src/Handshake/Types.antt =====
-- platform/socket/websocket: the texts of a handshake, and what reading one gives.
use lu.Base.{ℕ, List, [], ◌∷◌, ◌++◌, Option, none, some, if◌then◌else◌}
use lu.Text.Bytes.{text_eq}
use lu.Text.Numbers.{ℤ}

abbrev pub Keys : Type 0
Keys = List (List ℕ × List ℕ)

-- `InitialRequestInfo`, but for the port, which no code reads.
pub record InitialRequestInfo : Type 0 where
  pub resource_name : List ℕ
  pub host : List ℕ
  pub upgrade : List ℕ
  pub origin : List ℕ
  pub ws_version : List ℕ
  pub extensions : List ℕ
  pub protocols : List (List ℕ)
  pub headers : Keys

-- The members of `HandshakeRequest` that a response is made from.
pub record HandshakeRequest : Type 0 where
  pub protocols : List (List ℕ)
  pub websocket_versions : List ℤ
  pub key : List ℕ
  pub upgrade : List ℕ

-- A result; or an exception that nothing catches, or a view past the end of the text, or no end.
pub data Answer (A : Type 0) : Type 0 where
  answers : A → Answer A
  throws overruns spins : Answer A

abbrev pub then_answer : {A B : Type 0} → Answer A → (A → Answer B) → Answer B
then_answer (answers a) f = f a
then_answer throws f = throws
then_answer overruns f = overruns
then_answer spins f = spins

abbrev pub crlf : List ℕ
crlf = 13 ∷ 10 ∷ []

-- `m_keyValue`: `emplace` keeps what a key has, so the first entry counts.
abbrev pub find_key : List ℕ → Keys → Option (List ℕ)
find_key k [] = none
find_key k ((a, v) ∷ keys) = let rest = find_key k keys in if text_eq a k then some v else rest

abbrev pub emplace : List ℕ → List ℕ → Keys → Keys
emplace k v keys = keys ++ ((k, v) ∷ [])
