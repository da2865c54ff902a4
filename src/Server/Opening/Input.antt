-- ===== src/Server/Opening/Input.antt =====
-- InputChannelHandler::handleMessageFromClient of AAServer/src/InputChannelHandler.cpp behind its
-- first request: the waits and the handshake request.
use aacs.Prelude.{
  ℕ, Bool, true, false, List, [], ◌∷◌, ◌++◌, Option, none, some, ◌≡◌, refl, ◌==◌, if◌then◌else◌,
  ◌||◌, All, arith,
}
use aacs.Proto.{Proto}
use aacs.Wire.Codes.{
  code, channel_open_response, input_code, handshake_request, handshake_response, event,
}
use aacs.Wire.Bytes.{front16, push_back_int16}
use aacs.Frame.{Message}
use aacs.Server.Handlers.{
  Emit, to_headunit, InputState, Handler, default_handler, video_handler, input_handler,
  encrypted_bulk, insert_client, open_request, handle_from_headunit, handle_from_client,
}
use aacs.Server.Opening.{Opener, finished, begin, proceed}
use aacs.Server.Opening.Answers.{has_type, answered, answered_finishes}

-- The state of the handler after a message of the head unit.
input_state : InputState → Handler → InputState
input_state h (default_handler id) = h
input_state h (video_handler v) = h
input_state h (input_handler h1) = h1

-- Whether the message is handled, and the state behind it.
unfoldable pub hear_input : Message → InputState → Bool × InputState
unfolding input_state
hear_input m h =
    let answer = handle_from_headunit (input_handler h) m in
    (answer.handled, input_state h answer.handler)

-- The messages that the handler handles.
abbrev pub is_input_type : ℕ → Bool
is_input_type t =
    t == code channel_open_response || (t == input_code handshake_response || t == input_code event)

-- `sendHandshakeRequest`; `none` where `SerializeToArray` fails, which throws.
handshake_message : ℕ → Option (List ℕ) → Option Emit
handshake_message id none = none
handshake_message id (some bytes) =
    some
      (to_headunit id encrypted_bulk (push_back_int16 [] (input_code handshake_request) ++ bytes))

send_handshake_request : Proto → ℕ → List ℕ → Option Emit
unfolding handshake_message
send_handshake_request proto id buttons = handshake_message id (proto.handshake_request buttons)

handshake_request_sent :
    (proto : Proto) (id : ℕ) (buttons bytes : List ℕ)
    → proto.handshake_request buttons ≡ some bytes
    → send_handshake_request proto id buttons
      ≡ some (
          to_headunit id encrypted_bulk
            (push_back_int16 [] (input_code handshake_request) ++ bytes))
unfolding send_handshake_request
handshake_request_sent proto id buttons bytes e = rw e refl

pub hear_input_known :
    (m : Message) (h : InputState) → (hear_input m h).0 ≡ is_input_type (front16 m.content)
unfolding hear_input handle_from_headunit
hear_input_known m h = ground arith

pub hear_input_open :
    (m : Message) (h : InputState)
    → (hear_input m h).1.got_input_open
      ≡ (if front16 m.content == code channel_open_response then true else h.got_input_open)
unfolding hear_input handle_from_headunit
hear_input_open m h = ground arith

pub hear_input_handshake :
    (m : Message) (h : InputState)
    → (hear_input m h).1.got_handshake_response ≡ (
        if front16 m.content == input_code handshake_response
        then true
        else h.got_handshake_response)
unfolding hear_input handle_from_headunit
hear_input_handshake m h = ground arith

-- `gotChannelOpenResponse` and `gotHandshakeResponse`, where they are cleared, and the requests.
unfoldable pub input_opener : Proto → ℕ → List ℕ → Opener InputState
unfolding send_handshake_request
input_opener proto id buttons = record {
  first_flag = λ h. h.got_input_open;
  second_flag = λ h. h.got_handshake_response;
  is_open = λ h. true;
  clear_first = λ h. record h { got_input_open = false };
  clear_second = λ h. record h { got_handshake_response = false };
  hear = hear_input;
  is_known = is_input_type;
  hear_known = λ m h o. hear_input_known m h;
  first_type = code channel_open_response;
  second_type = input_code handshake_response;
  first_request = open_request proto id;
  second_request = send_handshake_request proto id buttons;
  at_end = [];
  hear_first = λ m h o. hear_input_open m h;
  hear_second = λ m h o. hear_input_handshake m h;
  hear_open = λ m h o. refl;
  opens = λ h. refl;
  keeps_open = λ h. refl;
}

-- A client's request to an input channel comes to its end if the head unit answers: the call sends
-- the request to open the channel, waits, and, once a message of the head unit is the response to
-- it, sends the handshake request, and returns once a message behind that is the handshake response.
-- Just these two requests are sent, in this order, whatever the head unit says on the channel before
-- each of them, between its answers and together with them, as long as the handler handles it: the
-- two responses and the events. (Any other message ends the thread of the endpoint.) The handshake
-- request can be serialized, and no other client opens the channel meanwhile.
pub input_opening_finishes :
    (proto : Proto) (h : InputState) (client channel : ℕ) (is_spec : Bool)
    (data_bytes bytes : List ℕ) (early ms between ns : List Message)
    → All (λ m. is_input_type (front16 m.content) ≡ true) early
    → All (λ m. is_input_type (front16 m.content) ≡ true) ms
    → All (λ m. is_input_type (front16 m.content) ≡ true) between
    → All (λ m. is_input_type (front16 m.content) ≡ true) ns
    → proto.handshake_request h.available_buttons ≡ some bytes
    → has_type (code channel_open_response) ms ≡ true
    → has_type (input_code handshake_response) ns ≡ true
    → let opener = input_opener proto h.input_id h.available_buttons in
      let registered = record h {
        registered_clients = insert_client client h.registered_clients;
      } in
      let call = handle_from_client proto (input_handler h) client channel is_spec data_bytes in
      (call.next_handler ≡ input_handler (begin opener registered).state)
      × (call.signals ≡ (proceed opener (begin opener registered)).sent)
      × ((answered opener early ms between ns registered).phase ≡ finished)
      × ((answered opener early ms between ns registered).sent
          ≡ open_request proto h.input_id
            ∷ to_headunit h.input_id encrypted_bulk
                (push_back_int16 [] (input_code handshake_request) ++ bytes)
            ∷ [])
unfolding input_opener handle_from_client begin proceed
input_opening_finishes proto h client channel is_spec data_bytes bytes early ms between ns k1 k2 k3
      k4 e f g =
    let opener = input_opener proto h.input_id h.available_buttons in
    let registered = record h { registered_clients = insert_client client h.registered_clients } in
    let done =
      answered_finishes opener early ms between ns registered
        (to_headunit h.input_id encrypted_bulk
          (push_back_int16 [] (input_code handshake_request) ++ bytes))
        k1 k2 k3 k4 (handshake_request_sent proto h.input_id h.available_buttons bytes e) f g in
    (refl, refl, done.0, done.1)
