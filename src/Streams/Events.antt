-- ===== src/Streams/Events.antt =====
-- EventChannel.h: events from `notify` to the calls of the handler.
use lu.Base.{
  ℕ, ◌*◌, ◌≤◌, ◌<◌, ◌^◌, ◌≡◌, refl, sym, ap, ap₂, ◌∙◌, true, some, List, [], ◌∷◌, ◌++◌, map, All,
  length, length-append, take, drop, take-append, drop-append, drop-drop, slice, le_bytes,
  of_le_bytes, arith,
}
use lu.Base.Bytes.{length-le_bytes, of_le_bytes-le_bytes}
use lu.Streams.Receiving.{Arrival, done}
use lu.Streams.Loop.{Outcome}
use lu.Streams.Cutting.{joined}
use lu.Streams.DataSocket.{DataSocket}
use lu.Streams.EventChannel.{
  EventData, event_bytes, read_event, dispatch, dispatch_all, read_events, next_event,
  event_handler, receive_events, new_channel,
}
use lu.Streams.Arrivals.{PlainLaws, Fits}
use lu.Streams.Delivery.{AllArrive}
use lu.Streams.Delivered.{delivered_completely}

-- The widths of the members.
pub record IsEvent (e : EventData) : Type 0 where
  pub type_size : e.event_type < 2 ^ 32
  pub channel_size : e.channel_id < 2 ^ 32
  pub address_size : e.address < 2 ^ 64

length-event_bytes : (e : EventData) → length (event_bytes e) ≡ 16
unfolding event_bytes
length-event_bytes e = omega (
  arith,
  length-append (le_bytes 4 e.event_type) (le_bytes 4 e.channel_id ++ le_bytes 8 e.address),
  length-append (le_bytes 4 e.channel_id) (le_bytes 8 e.address),
  length-le_bytes 4 e.event_type,
  length-le_bytes 4 e.channel_id,
  length-le_bytes 8 e.address,
)

read_event-event_bytes : (e : EventData) → IsEvent e → read_event (event_bytes e) ≡ e
unfolding event_bytes read_event
read_event-event_bytes e i =
    λ j. record { event_type = kind j; channel_id = channel j; address = place j }
  where
    behind : List ℕ
    behind = le_bytes 4 e.channel_id ++ le_bytes 8 e.address

    kind : of_le_bytes (take 4 (le_bytes 4 e.event_type ++ behind)) ≡ e.event_type
    kind =
        ap of_le_bytes
          (take-append 4 (le_bytes 4 e.event_type) behind (length-le_bytes 4 e.event_type))
        ∙ of_le_bytes-le_bytes 4 e.event_type i.type_size

    channel : of_le_bytes (take 4 (drop 4 (le_bytes 4 e.event_type ++ behind))) ≡ e.channel_id
    channel =
        ap (λ t. of_le_bytes (take 4 t))
          (drop-append 4 (le_bytes 4 e.event_type) behind (length-le_bytes 4 e.event_type))
        ∙ (ap of_le_bytes (
              take-append 4 (le_bytes 4 e.channel_id) (le_bytes 8 e.address)
                (length-le_bytes 4 e.channel_id))
            ∙ of_le_bytes-le_bytes 4 e.channel_id i.channel_size)

    place : of_le_bytes (drop 8 (le_bytes 4 e.event_type ++ behind)) ≡ e.address
    place =
        ap of_le_bytes (
          drop-drop 4 4 (le_bytes 4 e.event_type ++ behind)
          ∙ (ap (drop 4)
                (drop-append 4 (le_bytes 4 e.event_type) behind (length-le_bytes 4 e.event_type))
              ∙ drop-append 4 (le_bytes 4 e.channel_id) (le_bytes 8 e.address)
                  (length-le_bytes 4 e.channel_id)))
        ∙ of_le_bytes-le_bytes 8 e.address i.address_size

event_slice :
    (memory : List ℕ) (offset size : ℕ)
    → next_event memory offset size ≡ some (slice memory offset size)
unfolding next_event
event_slice memory offset size = refl

shift-lt : event_handler.shift_size < event_handler.buffer_size
shift-lt = omega arith

header-pos : 0 < event_handler.header_size
header-pos = omega arith

event-laws : PlainLaws event_handler
event-laws = record {
  size_of = λ header. 16;
  message_room = 16;
  some_header = header-pos;
  shift_fits = shift-lt;
  header_is = λ memory offset sized h. refl;
  message_is = λ memory offset size sized h room. event_slice memory offset size;
}

events-Fits : (es : List EventData) → All (Fits event_handler event-laws) (map event_bytes es)
unfolding event-laws
events-Fits [] = tt
events-Fits (e ∷ es) = (
  (
    record {
      whole_header = omega (arith, length-event_bytes e);
      size_told = sym (length-event_bytes e);
      in_room = omega (arith, length-event_bytes e);
    },
    omega (arith, length-event_bytes e),
  ),
  events-Fits es,
)

length-joined : (es : List EventData) → length (joined (map event_bytes es)) ≡ 16 * length es
length-joined [] = refl
length-joined (e ∷ es) = omega (
  arith,
  length-append (event_bytes e) (joined (map event_bytes es)),
  length-event_bytes e,
  length-joined es,
)

read_events-map :
    (es : List EventData) → All IsEvent es → read_events (map event_bytes es) ≡ dispatch_all es
read_events-map [] a = refl
read_events-map (e ∷ es) a =
    ap₂ (λ x y. dispatch x ++ y) (read_event-event_bytes e a.0) (read_events-map es a.1)

-- Events that `notify` writes to the pipe of a new `EventChannel`, where each call of `read`
-- finds a byte while one is pending and there are at least as many calls as bytes, become calls
-- of the handler, one for each new connection and each application message, in order and with the
-- address and the channel that were notified. The members of an event fit their widths.
pub events_arrive :
    (es : List EventData) (calls : List Arrival)
    → All IsEvent es
    → AllArrive calls
    → 16 * length es ≤ length calls
    → (o : Outcome DataSocket) × (receive_events calls (joined (map event_bytes es)) new_channel
        ≡ done o)
      × (o.answer ≡ true)
      × (read_events o.messages ≡ dispatch_all es)
events_arrive es calls a all enough =
    let (s, e) =
      delivered_completely event_handler event-laws (map event_bytes es) calls (events-Fits es) all
        (omega (arith, enough, length-joined es)) in
    (_, e, refl, read_events-map es a)
