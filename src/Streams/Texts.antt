-- ===== src/Streams/Texts.antt =====
-- Messages of text, from `Message(data)` on one side to `getString` on the other.
use lu.Base.{
  ℕ, zero, suc, ◌+◌, ◌-◌, ◌≤◌, ◌<◌, ◌*◌, ◌≡◌, ◌≢◌, refl, sym, ap, ap₂, ◌∙◌, List, [], ◌∷◌, ◌++◌,
  map, All, Option, none, some, append-nil, length, length-append, drop, set, replicate,
  length-replicate, overwrite, slice, le_bytes, of_le_bytes, not_leb, not_ltb, arith,
}
use lu.Text.Bytes.{until_zero}
use lu.Streams.Receiving.{Arrival, done}
use lu.Streams.Loop.{Outcome, receive}
use lu.Streams.Cutting.{joined}
use lu.Streams.DataSocket.{DataSocket, data_socket, new_socket}
use lu.Streams.StringHandler.{
  read_header, read_message, string_handler, data_size, message_size, strncpy, new_message,
  get_string,
}
use lu.Streams.Arrivals.{PlainLaws, Fits}
use lu.Streams.Delivery.{AllArrive}
use lu.Streams.Delivered.{delivered_completely}

abbrev pub IsText : List ℕ → Type 0
IsText text = (length text < data_size) × All (λ b. b ≢ 0) text

until_zero-text :
    (text zeros : List ℕ)
    → All (λ b. b ≢ 0) text
    → until_zero zeros ≡ []
    → until_zero (text ++ zeros) ≡ text
unfolding until_zero
until_zero-text [] zeros a e = e
until_zero-text (b ∷ bs) zeros a e = ground (arith, a.0, until_zero-text bs zeros a.1 e)

until_zero-replicate : (n : ℕ) → until_zero (replicate n 0) ≡ []
unfolding until_zero
until_zero-replicate zero = refl
until_zero-replicate (suc n) = refl

strncpy-text : (text : List ℕ) → All (λ b. b ≢ 0) text → strncpy text ≡ text
unfolding strncpy
strncpy-text text a =
    let e : until_zero text ≡ text =
      ap until_zero (sym (append-nil text)) ∙ until_zero-text text [] a (until_zero-replicate 0) in
    let none_left : length text - length (until_zero text) ≡ 0 = omega (arith, ap length e) in
    rw (none_left, e) (append-nil text)

abbrev zeros : ℕ → List ℕ
zeros n = replicate n 0

-- The text and zeros behind it.
abbrev text_bytes : List ℕ → List ℕ
text_bytes text = text ++ replicate (data_size - length text) 0

zeroed : (n k : ℕ) → k < n → set (zeros n) k 0 ≡ zeros n
zeroed zero k h = absurd (omega arith)
zeroed (suc n) zero h = refl
zeroed (suc n) (suc k) h = ap (λ t. 0 ∷ t) (zeroed n k (omega arith))

terminated :
    (text : List ℕ) (n : ℕ)
    → 0 < n
    → set (text ++ replicate n 0) (length text) 0 ≡ text ++ replicate n 0
terminated [] n h = zeroed n 0 h
terminated (b ∷ bs) n h = ap (λ t. b ∷ t) (terminated bs n h)

drop-replicate : (n k : ℕ) → drop k (zeros n) ≡ zeros (n - k)
drop-replicate n zero = ap zeros (omega arith)
drop-replicate zero (suc k) = ap zeros {x = 0} (omega arith)
drop-replicate (suc n) (suc k) =
    let e : suc n - suc k ≡ n - k = omega arith in drop-replicate n k ∙ ap zeros (sym e)

abbrev header : List ℕ
header = le_bytes 4 message_size

new_message-text :
    (text : List ℕ) → IsText text → new_message text ≡ some (header ++ text_bytes text)
unfolding new_message
new_message-text text t =
    let bytes_are : overwrite (replicate data_size 0) 0 (strncpy text) ≡ text_bytes text =
      rw (strncpy-text text t.1) (
        ap (λ z. text ++ z)
          (drop-replicate data_size (0 + length text)
            ∙ ap (λ j. zeros (data_size - j)) (omega arith))) in
    let kept : set (text_bytes text) (length text) 0 ≡ text_bytes text =
      terminated text (data_size - length text) (omega (arith, t.0)) in
    rw (not_leb data_size (length text) t.0, bytes_are, kept) refl

get_string-text : (text : List ℕ) → IsText text → get_string (header ++ text_bytes text) ≡ text
unfolding get_string
get_string-text text t = until_zero-text text _ t.1 (until_zero-replicate (data_size - length text))

length-message : (text : List ℕ) → IsText text → length (header ++ text_bytes text) ≡ message_size
length-message text t = omega (
  arith,
  length-append header (text_bytes text),
  length-append text (replicate (data_size - length text) 0),
  length-replicate {A = ℕ} (data_size - length text) 0,
  t.0,
)

pub header-pos : 0 < string_handler.header_size
header-pos = omega arith

pub shift-lt : string_handler.shift_size < string_handler.buffer_size
shift-lt = omega arith

pub header_slice :
    (memory : List ℕ) (offset : ℕ) → read_header memory offset ≡ of_le_bytes (slice memory offset 4)
unfolding read_header
header_slice memory offset = refl

pub message_slice :
    (memory : List ℕ) (offset size : ℕ)
    → size ≤ message_size
    → read_message memory offset size ≡ some (slice memory offset size)
unfolding read_message
message_slice memory offset size h = rw (not_ltb message_size size h) refl

abbrev pub string-laws : PlainLaws string_handler
string-laws = record {
  size_of = of_le_bytes;
  message_room = message_size;
  some_header = header-pos;
  shift_fits = shift-lt;
  header_is = λ memory offset sized h. header_slice memory offset;
  message_is = λ memory offset size sized h room. message_slice memory offset size room;
}

message-Fits :
    (text : List ℕ) → IsText text → Fits string_handler string-laws (header ++ text_bytes text)
message-Fits text t = (
  record {
    whole_header = omega (arith, length-message text t);
    size_told = sym (length-message text t);
    in_room = omega (arith, length-message text t);
  },
  omega (arith, length-message text t),
)

abbrev pub first_and : Option (List ℕ) → Option (List (List ℕ)) → Option (List (List ℕ))
first_and none r = none
first_and (some m) none = none
first_and (some m) (some ms) = some (m ∷ ms)

-- The messages of some texts, where each fits.
abbrev pub new_messages : List (List ℕ) → Option (List (List ℕ))
new_messages [] = some []
new_messages (text ∷ texts) = first_and (new_message text) (new_messages texts)

text_messages : List (List ℕ) → List (List ℕ)
text_messages = map (λ text. header ++ text_bytes text)

new_messages-texts :
    (texts : List (List ℕ)) → All IsText texts → new_messages texts ≡ some (text_messages texts)
unfolding text_messages
new_messages-texts [] a = refl
new_messages-texts (text ∷ texts) a =
    ap₂ first_and (new_message-text text a.0) (new_messages-texts texts a.1)

map-get_string :
    (texts : List (List ℕ)) → All IsText texts → map get_string (text_messages texts) ≡ texts
unfolding text_messages
map-get_string [] a = refl
map-get_string (text ∷ texts) a = ap₂ ◌∷◌ (get_string-text text a.0) (map-get_string texts a.1)

texts-Fits :
    (texts : List (List ℕ))
    → All IsText texts
    → All (Fits string_handler string-laws) (text_messages texts)
unfolding text_messages
texts-Fits [] a = tt
texts-Fits (text ∷ texts) a = (message-Fits text a.0, texts-Fits texts a.1)

length-joined :
    (texts : List (List ℕ))
    → All IsText texts
    → length (joined (text_messages texts)) ≡ message_size * length texts
unfolding text_messages
length-joined [] a = refl
length-joined (text ∷ texts) a = omega (
  arith,
  length-append (header ++ text_bytes text) (joined (text_messages texts)),
  length-message text a.0,
  length-joined texts a.1,
)

-- Texts of fewer than 64 bytes, none of them zero, make messages by `Message(data)`; sent to a
-- new `DataSocket` with `String`, where each call of `recv` finds a byte while one is pending and
-- there are at least as many calls as bytes, they are handed over as messages of which
-- `getString` gives the texts, in order.
pub texts_arrive :
    (texts : List (List ℕ)) (calls : List Arrival)
    → All IsText texts
    → AllArrive calls
    → message_size * length texts ≤ length calls
    → (ms : List (List ℕ)) × (new_messages texts ≡ some ms)
      × ((o : Outcome DataSocket) × (receive
              (data_socket string_handler)
              calls
              (joined ms)
              (new_socket string_handler)
            ≡ done o)
          × (map get_string o.messages ≡ texts))
texts_arrive texts calls a all enough =
    let (s, e) =
      delivered_completely string_handler string-laws (text_messages texts) calls
        (texts-Fits texts a) all (omega (arith, enough, length-joined texts a)) in
    (text_messages texts, new_messages-texts texts a, (_, e, map-get_string texts a))
