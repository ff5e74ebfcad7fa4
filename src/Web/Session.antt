-- ===== src/Web/Session.antt =====
-- WebSocket.h: a request and messages behind it that arrive together.
use lu.Base.{
  ℕ, ◌+◌, ◌-◌, ◌≤◌, ◌<◌, ◌^◌, ◌≡◌, refl, sym, ap, ap₂, subst, ◌∙◌, Bool, true, false, List, [], ◌∷◌,
  ◌++◌, map, All, Option, some, append_assoc, append-nil, length, length-append, length-replicate,
  take, drop, slice, take-append, drop-append, replicate, overwrite, ◌==◌, not_ltb, if◌then◌else◌,
  arith,
}
use lu.Text.Bytes.{codes}
use lu.Text.Finding.{Without-append}
use lu.Frame.Types.{OpCode, SocketData, to_code, close, Frame, fresh}
use lu.Frame.Message.{on_data, Outcome}
use lu.Frame.Parsing.{Sees}
use lu.Frame.Delivery.{
  IsData, Between, Sending, wire, FitsFrame, FitsFrame-above, wire-above, messages_arrive,
}
use lu.Handshake.Types.{InitialRequestInfo, answers, then_answer, crlf}
use lu.Handshake.Response.{contains, websocket_response, get_accept_key}
use lu.Handshake.Request.{header_lines, create_handshake_request, get_response}
use lu.Handshake.Protocols.{first_line, offer}
use lu.Handshake.Opening.{
  IsRequest, supported_versions, headers_with, headers-IsHeader, headers-are, request-text,
  length-header_lines,
}
use lu.Handshake.Agreement.{get_response-offer}
use lu.Web.Socket.{
  buffer_size, resource, protocol, WebSocket, new_web_socket, WebEvent, sent, opened, framed,
  stopped, Turned, reply, scan, end_of_header, process_handshake, after_frames, then_frames,
  read_web_messages, shift, receive_bytes,
}
use lu.Web.Header.{scan-request}

shift-keeps :
    (h : List ℕ → List ℕ) (b : List ℕ → Option Bool) (s : WebSocket)
    → ((shift h b s).connected ≡ s.connected) × ((shift h b s).frame ≡ s.frame)
unfolding shift
shift-keeps h b s = ground arith

module _ (get_base64_hash : List ℕ → List ℕ) (below : List ℕ → Option Bool)
    (info : InitialRequestInfo) (key : List ℕ) (r : IsRequest info key) (own_size max_size : ℕ)
    (code : OpCode) (masked : Bool) (ms : List Sending) where
  abbrev response : List ℕ
  response = websocket_response (get_accept_key get_base64_hash key) protocol

  -- The handshake is done, and the messages were handed over.
  record Session (t : Turned) : Type 0 where
    after : WebSocket
    ends : t ≡ answers (sent response ∷ opened ∷ map (λ m. framed (on_data m.message)) ms, after)
    is_connected : after.connected ≡ true
    between : Between max_size after.frame

  abbrev request : List ℕ
  request =
      first_line info.resource_name
      ++ (crlf
          ++ (header_lines (headers_with info key (offer r.first_offer r.other_offers)) ++ crlf))

  request-is : create_handshake_request info key ≡ request
  request-is =
      request-text info key
      ∙ ap (λ hs. first_line info.resource_name ++ (crlf ++ (header_lines hs ++ crlf)))
          (headers-are info key r)

  abbrev new_frame : Frame
  new_frame = record (fresh own_size) { max_allowed_message_size = max_size }

  -- A socket in whose buffer the bytes have come.
  abbrev filled : List ℕ → ℕ → ℕ → WebSocket
  filled memory left room = record {
    memory = memory;
    read_offset = 0;
    left_to_read = left;
    left_to_recv = room;
    connected = false;
    frame = new_frame;
    header_offset = 0;
  }

  new_frame-Between : Between max_size new_frame
  unfolding fresh
  new_frame-Between = record {
    at_header = refl;
    whole_message = refl;
    limit = refl;
    no_code = refl;
  }

  header-found :
      (memory w behind : List ℕ) (left room : ℕ)
      → memory ≡ (request ++ w) ++ behind
      → left ≡ length (request ++ w)
      → process_handshake get_base64_hash below (filled memory left room)
        ≡ end_of_header get_base64_hash below
            (record (filled memory left room) { header_offset = length request })
  unfolding process_handshake
  header-found memory w behind left room e n =
      let view : slice memory 0 (left - 0) ≡ request ++ w =
        ap (take (left - 0)) e ∙ take-append (left - 0) (request ++ w) behind (omega (arith, n)) in
      ap (λ v. scan get_base64_hash below (length v + 2) v (filled memory left room)) view
      ∙ scan-request get_base64_hash below (first_line info.resource_name)
          (headers_with info key (offer r.first_offer r.other_offers)) w (length (request ++ w) + 2)
          (filled memory left room) refl (omega arith)
          (
            omega arith,
            (
              omega arith,
              (
                omega arith,
                (
                  omega arith,
                  Without-append 13 info.resource_name (codes " HTTP/1.1") r.resource_one_line
                      (omega arith),
                ),
              ),
            ),
          )
          (headers-IsHeader info key r)
          (omega (
            arith,
            length-append request w,
            length-append (first_line info.resource_name) (
                crlf
                ++ (header_lines (headers_with info key (offer r.first_offer r.other_offers))
                    ++ crlf)),
            length-append
                (header_lines (headers_with info key (offer r.first_offer r.other_offers))) crlf,
            length-header_lines (headers_with info key (offer r.first_offer r.other_offers)),
          ))

  abbrev open_at : List ℕ → ℕ → ℕ → WebSocket
  open_at memory left room = record {
    memory = memory;
    read_offset = 0 + length request;
    left_to_read = left - length request;
    left_to_recv = room;
    connected = true;
    frame = new_frame;
    header_offset = 0;
  }

  reply-is :
      (s : WebSocket)
      → reply s response
        ≡ answers (
          sent response ∷ opened ∷ [],
          record s {
            read_offset = s.read_offset + s.header_offset;
            left_to_read = s.left_to_read - s.header_offset;
            header_offset = 0;
            connected = true;
          },
        )
  unfolding websocket_response
  reply-is s = refl

  handshake-done :
      (memory w behind : List ℕ) (left room : ℕ)
      → memory ≡ (request ++ w) ++ behind
      → left ≡ length (request ++ w)
      → info.resource_name ≡ resource
      → contains protocol info.protocols ≡ true
      → below (codes "1.1") ≡ some false
      → process_handshake get_base64_hash below (filled memory left room)
        ≡ answers (sent response ∷ opened ∷ [], open_at memory left room)
  handshake-done memory w behind left room e n res c h =
      let view : slice memory 0 (length request) ≡ request =
        ap (take (length request)) (e ∙ append_assoc request w behind)
        ∙ take-append (length request) request (w ++ behind) refl in
      let answer : get_response get_base64_hash protocol supported_versions below resource request
          ≡ answers response =
        ap₂ (λ a b. get_response get_base64_hash protocol supported_versions below a b) (sym res)
          (sym request-is)
        ∙ (get_response-offer get_base64_hash protocol info key r below h (omega arith)
            ∙ ap (λ b. answers (if b then response else [])) c) in
      let s = record (filled memory left room) { header_offset = length request } in
      header-found memory w behind left room e n
      ∙ (ap
            (λ t.
              then_answer
                (get_response get_base64_hash protocol supported_versions below resource t)
                (reply s))
            view
          ∙ (ap (λ a. then_answer a (reply s)) answer ∙ reply-is s))

  delivered_events : List WebEvent
  delivered_events = map (λ m. framed (on_data m.message)) ms

  session_data : List ℕ → ℕ → SocketData
  session_data memory left = record {
    bytes = slice memory (0 + length request) (left - length request);
    size = left - length request;
    read_offset = 0;
  }

  data-Sees :
      (memory w behind : List ℕ) (left : ℕ)
      → memory ≡ (request ++ w) ++ behind
      → left ≡ length (request ++ w)
      → left < 2 ^ 32
      → Sees (session_data memory left) w
  unfolding session_data
  data-Sees memory w behind left e n small = record {
    small = omega (arith, small);
    ahead =
        ap (λ k. slice memory k (left - length request)) {y = length request} (omega arith)
        ∙ (ap (take (left - length request)) (
              ap (drop (length request)) (e ∙ append_assoc request w behind)
              ∙ drop-append (length request) request (w ++ behind) refl)
            ∙ take-append (left - length request) w behind
                (omega (arith, n, length-append request w)));
    exact = omega (arith, n, length-append request w);
  }

  framed-messages :
      (ms : List Sending)
      → map framed (map (λ m. on_data m.message) ms) ≡ map (λ m. framed (on_data m.message)) ms
  framed-messages [] = refl
  framed-messages (m ∷ ms) = ap (λ t. framed (on_data m.message) ∷ t) (framed-messages ms)

  event_list :
      (o : Outcome)
      → o.events ≡ map (λ m. on_data m.message) ms
      → Between max_size o.frame
      → map framed o.events
          ++ (if to_code o.frame.op_code == to_code close then stopped ∷ [] else [])
        ≡ delivered_events
  unfolding delivered_events
  event_list o e b =
      ap₂ (λ es c. map framed es ++ (if to_code c == to_code close then stopped ∷ [] else [])) e
        b.no_code
      ∙ (append-nil (map framed (map (λ m. on_data m.message) ms)) ∙ framed-messages ms)

  frames-Session :
      (memory w behind : List ℕ) (left room : ℕ)
      → memory ≡ (request ++ w) ++ behind
      → left ≡ length (request ++ w)
      → left < 2 ^ 32
      → IsData code
      → All (FitsFrame max_size) ms
      → w ≡ wire max_size code masked ms
      → Session (
          then_frames get_base64_hash below (sent response ∷ opened ∷ [], open_at memory left room))
  unfolding session_data delivered_events
  frames-Session memory w behind left room e n small d fits ws =
      let s = open_at memory left room in
      let (o, found, events, off, between) =
        messages_arrive max_size code masked ms new_frame (session_data memory left) d fits
          new_frame-Between
          (subst (Sees (session_data memory left)) ws (data-Sees memory w behind left e n small)) in
      record {
        after = record s {
          memory = overwrite memory (0 + length request) o.rest.bytes;
          read_offset = 0 + length request + o.rest.read_offset;
          left_to_read = left - length request - o.rest.read_offset;
          frame = o.frame;
        };
        ends =
            ap
              (λ p.
                then_answer (after_frames get_base64_hash below s p)
                  (λ q. answers (sent response ∷ opened ∷ q.0, q.1)))
              found
            ∙ ap
                (λ es. answers (
                  sent response ∷ opened ∷ es,
                  record s {
                    memory = overwrite memory (0 + length request) o.rest.bytes;
                    read_offset = 0 + length request + o.rest.read_offset;
                    left_to_read = left - length request - o.rest.read_offset;
                    frame = o.frame;
                  },
                ))
                (event_list o events between);
        is_connected = refl;
        between = between;
      }

  shift-Session :
      (t : Turned)
      → Session t
      → Session (then_answer t (λ q. answers (q.0, shift get_base64_hash below q.1)))
  shift-Session t s =
      let (same, frame) = shift-keeps get_base64_hash below s.after in
      record {
        after = shift get_base64_hash below s.after;
        ends = ap (λ t. then_answer t (λ q. answers (q.0, shift get_base64_hash below q.1))) s.ends;
        is_connected = same ∙ s.is_connected;
        between = subst (Between max_size) (sym frame) s.between;
      }

  messages_read :
      (memory w behind : List ℕ) (left room : ℕ)
      → memory ≡ (request ++ w) ++ behind
      → left ≡ length (request ++ w)
      → left < 2 ^ 32
      → info.resource_name ≡ resource
      → contains protocol info.protocols ≡ true
      → below (codes "1.1") ≡ some false
      → IsData code
      → All (FitsFrame max_size) ms
      → w ≡ wire max_size code masked ms
      → Session (read_web_messages get_base64_hash below (filled memory left room))
  unfolding read_web_messages
  messages_read memory w behind left room e n small res c h d fits ws =
      subst Session
        (sym (
          ap (λ t. then_answer t (then_frames get_base64_hash below))
            (handshake-done memory w behind left room e n res c h)))
        (frames-Session memory w behind left room e n small d fits ws)

  received :
      (memory w : List ℕ)
      → length memory ≡ buffer_size
      → length (request ++ w) ≤ buffer_size
      → info.resource_name ≡ resource
      → contains protocol info.protocols ≡ true
      → below (codes "1.1") ≡ some false
      → IsData code
      → All (FitsFrame max_size) ms
      → w ≡ wire max_size code masked ms
      → Session (
          receive_bytes get_base64_hash below
            (filled memory 0 buffer_size)
            (create_handshake_request info key ++ w))
  unfolding receive_bytes
  received memory w sized fits_in res c h d fits ws =
      let bytes = create_handshake_request info key ++ w in
      let same : bytes ≡ request ++ w = ap (λ t. t ++ w) request-is in
      let inside =
        not_ltb (length memory) (0 + 0 + length bytes)
          (omega (arith, sized, fits_in, ap length same)) in
      rw inside (
        shift-Session _ (
          messages_read (overwrite memory (0 + 0) bytes) w (drop (0 + 0 + length bytes) memory)
            (0 + length bytes) buffer_size (ap (λ t. t ++ drop (0 + 0 + length bytes) memory) same)
            (omega (arith, ap length same)) (omega (arith, fits_in, ap length same)) res c h d fits
            ws))

-- A new server socket that receives, in one read that fits its buffer, the request of a client
-- and data messages that each fit one frame of a limit above 0, sends the response with the
-- accept key, calls `onOpen`, and hands the messages to `onData` in order; it is connected then
-- and its parser is between messages. What the socket reads through its dangling reference, the
-- same each time, is at least the sender's size limit. The request is for version 13 and the
-- resource of the server, offers its protocol, and has fields as the parser keeps them; a masking
-- key is a 32-bit word; 1.1 is not below 1.1F.
pub session_opens :
    (get_base64_hash : List ℕ → List ℕ) (below : List ℕ → Option Bool) (info : InitialRequestInfo)
    (key : List ℕ) (limit_read own_size max_size : ℕ) (code : OpCode) (masked : Bool)
    (ms : List Sending)
    → IsRequest info key
    → info.resource_name ≡ resource
    → contains protocol info.protocols ≡ true
    → below (codes "1.1") ≡ some false
    → IsData code
    → All (FitsFrame max_size) ms
    → max_size ≤ limit_read
    → length (create_handshake_request info key ++ wire max_size code masked ms) ≤ buffer_size
    → (s : WebSocket) × (receive_bytes get_base64_hash below
          (new_web_socket limit_read own_size)
          (create_handshake_request info key ++ wire max_size code masked ms)
        ≡ answers (
          sent (websocket_response (get_accept_key get_base64_hash key) protocol)
              ∷ opened
              ∷ map (λ m. framed (on_data m.message)) ms,
          s,
        ))
      × (s.connected ≡ true)
      × Between limit_read s.frame
unfolding new_web_socket
session_opens get_base64_hash below info key limit own_size max_size code masked ms r res c h d fits
      reads small =
    let t =
      received get_base64_hash below info key r own_size limit code masked ms
        (replicate buffer_size 0) (wire max_size code masked ms)
        (length-replicate {0} {A = ℕ} buffer_size 0)
        (omega (
          arith,
          small,
          ap (λ t. length (t ++ wire max_size code masked ms))
              (request-is get_base64_hash below info key r own_size limit code masked ms),
        ))
        res c h d (FitsFrame-above max_size limit ms reads fits)
        (wire-above max_size limit code masked ms reads fits) in
    (t.after, t.ends, t.is_connected, t.between)
