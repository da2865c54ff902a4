-- ===== src/Examples/Opening.antt =====
-- Channels that are opened, with the head unit's answers among other messages.
use aacs.Prelude.{false, [], ◌∷◌, ◌++◌, ◌≡◌, refl}
use aacs.Wire.Codes.{media_code, setup_request, input_code, handshake_request}
use aacs.Wire.Bytes.{front16, push_back_int16}
use aacs.Frame.{Message, message}
use aacs.Server.Handlers.{
  InputState, VideoState, input_handler, to_headunit, encrypted_bulk, open_request, insert_client,
  handle_from_client,
}
use aacs.Server.Handlers.Sample.{sample_message}
use aacs.Server.Opening.{finished, begin, proceed}
use aacs.Server.Opening.Answers.{answered}
use aacs.Server.Opening.Input.{input_opener, input_opening_finishes}
use aacs.Server.Opening.Video.{video_opener, first_sample_sent}
use aacs.Examples.Server.{proto}

abbrev open_response : Message
open_response = message 3 15 (0 ∷ 8 ∷ 8 ∷ 0 ∷ [])

abbrev event_message : Message
event_message = message 3 11 (0x80 ∷ 1 ∷ 7 ∷ [])

abbrev handshake_answer : Message
handshake_answer = message 3 11 (0x80 ∷ 3 ∷ 8 ∷ 0 ∷ [])

abbrev closed_input : InputState
closed_input = record {
  input_id = 3;
  got_input_open = false;
  got_handshake_response = false;
  registered_clients = [];
  available_buttons = 4 ∷ [];
}

abbrev closed_video : VideoState
closed_video = record {
  video_id = 2;
  channel_opened = false;
  got_video_open = false;
  got_setup_response = false;
}

input_opening_finishes_example :
    let opener = input_opener proto 3 (4 ∷ []) in
    let registered = record closed_input { registered_clients = insert_client 7 [] } in
    let call = handle_from_client proto (input_handler closed_input) 7 3 false [] in
    (call.next_handler ≡ input_handler (begin opener registered).state)
    × (call.signals ≡ (proceed opener (begin opener registered)).sent)
    × ((answered opener []
          (event_message ∷ open_response ∷ [])
          (event_message ∷ [])
          (handshake_answer ∷ [])
          registered).phase
        ≡ finished)
    × ((answered opener []
          (event_message ∷ open_response ∷ [])
          (event_message ∷ [])
          (handshake_answer ∷ [])
          registered).sent
        ≡ open_request proto 3
          ∷ to_headunit 3 encrypted_bulk
              (push_back_int16 [] (input_code handshake_request) ++ 4 ∷ [])
          ∷ [])
unfolding front16
input_opening_finishes_example =
    input_opening_finishes proto closed_input 7 3 false [] (4 ∷ []) []
      (event_message ∷ open_response ∷ []) (event_message ∷ []) (handshake_answer ∷ []) tt
      (refl, (refl, tt)) (refl, tt) (refl, tt) refl refl refl

abbrev focus_message : Message
focus_message = message 2 11 (0x80 ∷ 8 ∷ [])

first_sample_sent_example :
    let o =
      answered
        (video_opener proto 2 200000000 (1 ∷ []))
        []
        (focus_message ∷ open_response ∷ [])
        (focus_message ∷ [])
        (handshake_answer ∷ [])
        closed_video in
    (o.phase ≡ finished)
    × (o.sent
        ≡ open_request proto 2
          ∷ to_headunit 2 encrypted_bulk
              (push_back_int16 [] (media_code setup_request) ++ 0x08 ∷ 0x03 ∷ [])
          ∷ to_headunit 2 encrypted_bulk (sample_message 200000000 (1 ∷ []))
          ∷ [])
unfolding front16
first_sample_sent_example =
    first_sample_sent proto closed_video 200000000 (1 ∷ []) [] (focus_message ∷ open_response ∷ [])
      (focus_message ∷ []) (handshake_answer ∷ []) tt (refl, (refl, tt)) (refl, tt) (refl, tt) refl
      refl
