-- ===== src/Server/Opening/Video.antt =====
-- `new_sample` and `openChannel` of AAServer/src/VideoChannelHandler.cpp: the first sample of the
-- encoder opens the channel, and is sent when the head unit has answered.
use aacs.Prelude.{
  ℕ, Bool, ◌||◌, All, true, false, List, [], ◌∷◌, ◌++◌, some, ◌≡◌, refl, ◌==◌, if◌then◌else◌, arith,
}
use aacs.Proto.{Proto}
use aacs.Wire.Codes.{
  code, channel_open_response, media_code, setup_request, setup_response, video_focus_indication,
  media_ack_indication,
}
use aacs.Wire.Bytes.{front16, push_back_int16}
use aacs.Frame.{Message}
use aacs.Server.Handlers.{
  Emit, to_headunit, VideoState, Handler, default_handler, video_handler, input_handler,
  encrypted_bulk, open_request, handle_from_headunit,
}
use aacs.Server.Handlers.Sample.{sample_message}
use aacs.Server.Opening.{Opener, finished}
use aacs.Server.Opening.Answers.{has_type, answered, answered_finishes}

video_state : VideoState → Handler → VideoState
video_state v (default_handler id) = v
video_state v (video_handler v1) = v1
video_state v (input_handler h) = v

-- Whether the message is handled, and the state behind it.
unfoldable pub hear_video : Message → VideoState → Bool × VideoState
unfolding video_state
hear_video m v =
    let answer = handle_from_headunit (video_handler v) m in
    (answer.handled, video_state v answer.handler)

-- The messages that the handler handles once the channel is open.
abbrev pub is_video_type : ℕ → Bool
is_video_type t =
    t == code channel_open_response
    || (t == media_code setup_response
        || (t == media_code video_focus_indication || t == media_code media_ack_indication))

pub hear_video_known :
    (m : Message) (v : VideoState)
    → v.channel_opened ≡ true
    → (hear_video m v).0 ≡ is_video_type (front16 m.content)
unfolding hear_video handle_from_headunit
hear_video_known m v o = ground arith

pub hear_video_open :
    (m : Message) (v : VideoState)
    → v.channel_opened ≡ true
    → (hear_video m v).1.got_video_open
      ≡ (if front16 m.content == code channel_open_response then true else v.got_video_open)
unfolding hear_video handle_from_headunit
hear_video_open m v o = ground arith

pub hear_video_setup :
    (m : Message) (v : VideoState)
    → v.channel_opened ≡ true
    → (hear_video m v).1.got_setup_response
      ≡ (if front16 m.content == media_code setup_response then true else v.got_setup_response)
unfolding hear_video handle_from_headunit
hear_video_setup m v o = ground arith

pub hear_video_opened :
    (m : Message) (v : VideoState)
    → v.channel_opened ≡ true
    → (hear_video m v).1.channel_opened ≡ true
unfolding hear_video handle_from_headunit
hear_video_opened m v o = ground arith

-- `sendSetupRequest`.
send_setup_request : ℕ → Emit
send_setup_request id =
    to_headunit id encrypted_bulk
      (push_back_int16 [] (media_code setup_request) ++ 0x08 ∷ 0x03 ∷ [])

-- The end of `new_sample`: a sample with its time is sent. (For a sample that is not the first,
-- this is all that happens.)
send_sample : ℕ → ℕ → List ℕ → Emit
send_sample id pts bytes = to_headunit id encrypted_bulk (sample_message pts bytes)

-- `channelOpened`, `gotChannelOpenResponse` and `gotSetupResponse` for the first sample. The two writes
-- before the first request are one step: a message between them could only set the flag that is
-- cleared next.
unfoldable pub video_opener : Proto → ℕ → ℕ → List ℕ → Opener VideoState
unfolding send_setup_request send_sample
video_opener proto id pts bytes = record {
  first_flag = λ v. v.got_video_open;
  second_flag = λ v. v.got_setup_response;
  is_open = λ v. v.channel_opened;
  clear_first = λ v. record v { channel_opened = true; got_video_open = false };
  clear_second = λ v. record v { got_setup_response = false };
  hear = hear_video;
  is_known = is_video_type;
  hear_known = hear_video_known;
  first_type = code channel_open_response;
  second_type = media_code setup_response;
  first_request = open_request proto id;
  second_request = some (send_setup_request id);
  at_end = send_sample id pts bytes ∷ [];
  hear_first = hear_video_open;
  hear_second = hear_video_setup;
  hear_open = hear_video_opened;
  opens = λ v. refl;
  keeps_open = λ v. refl;
}

-- The first sample of the encoder is sent if the head unit answers: the channel is opened and set
-- up first, each request waiting for its answer, and the encoder's thread sends the two requests and
-- the sample, with its time and content, in this order and nothing else, whatever the head unit says
-- on the channel before each request, between its answers and together with them, as long as the
-- handler handles it: the two responses, indications of the video focus, and acknowledgements. (Any
-- other message ends the thread of the endpoint.) No other thread opens the channel meanwhile.
pub first_sample_sent :
    (proto : Proto) (v : VideoState) (pts : ℕ) (bytes : List ℕ) (early ms between ns : List Message)
    → All (λ m. is_video_type (front16 m.content) ≡ true) early
    → All (λ m. is_video_type (front16 m.content) ≡ true) ms
    → All (λ m. is_video_type (front16 m.content) ≡ true) between
    → All (λ m. is_video_type (front16 m.content) ≡ true) ns
    → has_type (code channel_open_response) ms ≡ true
    → has_type (media_code setup_response) ns ≡ true
    → let o = answered (video_opener proto v.video_id pts bytes) early ms between ns v in
      (o.phase ≡ finished)
      × (o.sent
          ≡ open_request proto v.video_id
            ∷ to_headunit v.video_id encrypted_bulk
                (push_back_int16 [] (media_code setup_request) ++ 0x08 ∷ 0x03 ∷ [])
            ∷ to_headunit v.video_id encrypted_bulk (sample_message pts bytes)
            ∷ [])
unfolding video_opener
first_sample_sent proto v pts bytes early ms between ns k1 k2 k3 k4 f g =
    answered_finishes (video_opener proto v.video_id pts bytes) early ms between ns v
      (send_setup_request v.video_id) k1 k2 k3 k4 refl f g
