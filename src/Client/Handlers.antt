-- ===== src/Client/Handlers.antt =====
-- The channel handlers of AAClient/src: ChannelHandler, DefaultChannelHandler, VideoChannelHandler
-- and InputChannelHandler. GStreamer is seen only through the buffers that are pushed to it.
use aacs.Prelude.{
  ℕ, ◌+◌, ◌-◌, ◌*◌, ◌%◌, ◌^◌, bit_and, bit_or, Bool, true, false, not, List, [], ◌∷◌, ◌++◌, drop,
  ◌==◌, if◌then◌else◌,
}
use aacs.Wire.Codes.{
  encrypted, bulk, specific, control, code, channel_open_request, channel_open_response, media_code,
  media_with_timestamp_indication, media_indication, setup_request, start_indication,
  setup_response, media_ack_indication, video_focus_indication, input_code, handshake_request,
  handshake_response,
}
use aacs.Wire.Bytes.{
  front16, push_back_int16, Uint64Result, value, vector_too_small, out_of_bounds, bytes_to_uint64,
}
use aacs.Proto.{Proto}

-- The signals `sendToServer` and `sendToMobile`, and a buffer pushed into the pipeline with its
-- timestamp (0 for none).
pub data Emit : Type 0 where
  to_server : ℕ → Bool → List ℕ → Emit
  to_mobile : ℕ → ℕ → List ℕ → Emit
  push_buffer : ℕ → List ℕ → Emit

pub record VideoState : Type 0 where
  pub video_id : ℕ
  pub start_timestamp : ℕ
  -- Whether `createAppSource` has set `app_source`.
  pub has_source : Bool

pub data Handler : Type 0 where
  default_handler : ℕ → Handler
  video_handler : VideoState → Handler
  input_handler : ℕ → Handler

-- How a call ends: it returns whether the message was handled, `bytesToUInt64` throws, or it does
-- what the source leaves undefined (an access out of bounds, a pipeline that was never made).
pub data Ending : Type 0 where
  handled : Bool → Ending
  vector_too_small_thrown undefined_access : Ending

pub record Answer : Type 0 where
  pub ending : Ending
  pub handler : Handler
  pub emitted : List Emit

unfoldable pub is_specific : ℕ → Bool
is_specific flags = not (bit_and flags specific == 0)

abbrev pub encrypted_bulk : ℕ
encrypted_bulk = bit_or encrypted bulk

-- `sendChannelOpenResponse` of both classes.
abbrev channel_open_reply : ℕ → Emit
channel_open_reply id =
    to_mobile id (bit_or encrypted_bulk specific)
      (push_back_int16 [] (code channel_open_response) ++ 0x08 ∷ 0x00 ∷ [])

setup_reply : Proto → ℕ → Emit
setup_reply proto id =
    to_mobile id encrypted_bulk
      (push_back_int16 [] (media_code setup_response) ++ proto.media_setup_response 2 1 0)

video_focus : ℕ → Emit
video_focus id =
    to_mobile id encrypted_bulk
      (push_back_int16 [] (media_code video_focus_indication) ++ 0x08 ∷ 0x01 ∷ 0x10 ∷ 0x00 ∷ [])

pub ack : ℕ → Emit
ack id =
    to_mobile id encrypted_bulk
      (push_back_int16 [] (media_code media_ack_indication) ++ 0x08 ∷ 0x00 ∷ 0x10 ∷ 0x01 ∷ [])

-- Differences and products of uint64_t wrap around.
abbrev pub sub64 : ℕ → ℕ → ℕ
sub64 a b = (a + 2 ^ 64 - b) % 2 ^ 64

-- `startTimestamp` after a message stamped `ts`.
unfoldable pub start_after : ℕ → ℕ → ℕ
start_after start ts = if start == 0 then sub64 ts 100000 else start

-- MediaWithTimestampIndication, from the number read on.
stamped : VideoState → List ℕ → Uint64Result → Answer
unfolding start_after ack
stamped v bytes vector_too_small = record {
  ending = vector_too_small_thrown;
  handler = video_handler v;
  emitted = [];
}
stamped v bytes out_of_bounds = record {
  ending = undefined_access;
  handler = video_handler v;
  emitted = [];
}
stamped v bytes (value ts) =
    let started = video_handler (record v { start_timestamp = start_after v.start_timestamp ts }) in
    let local = sub64 ts (start_after v.start_timestamp ts) in
    if v.has_source
    then record {
      ending = handled true;
      handler = started;
      emitted = push_buffer (local * 1000 % 2 ^ 64) (drop 10 bytes) ∷ ack v.video_id ∷ [];
    }
    else record { ending = undefined_access; handler = started; emitted = [] }

answer_with : Bool → Handler → List Emit → Answer
answer_with done h es = record { ending = handled done; handler = h; emitted = es }

video_from_mobile : Proto → VideoState → ℕ → ℕ → List ℕ → Answer
unfolding stamped answer_with setup_reply video_focus
video_from_mobile proto v channel flags bytes =
    if message_type == code channel_open_request
    then answer_with true (video_handler v) (channel_open_reply v.video_id ∷ [])
    else if message_type == media_code setup_request
    then answer_with true (video_handler v)
        (setup_reply proto v.video_id ∷ video_focus v.video_id ∷ [])
    else if message_type == media_code start_indication
    then answer_with true (video_handler v) []
    else if message_type == media_code media_indication
    then answer_with true (video_handler (record v { has_source = true }))
        (push_buffer 0 (drop 2 bytes) ∷ ack v.video_id ∷ [])
    else if message_type == media_code media_with_timestamp_indication
    then stamped v bytes (bytes_to_uint64 bytes 2)
    else answer_with false (video_handler v) []
  where
    message_type : ℕ
    message_type = front16 bytes

input_from_mobile : ℕ → ℕ → ℕ → List ℕ → Answer
unfolding answer_with
input_from_mobile id channel flags bytes =
    if message_type == code channel_open_request
    then answer_with true (input_handler id)
        (channel_open_reply id ∷ to_server channel false [] ∷ [])
    else if message_type == input_code handshake_request
    then answer_with true (input_handler id) (
        to_mobile id (bit_or encrypted_bulk control)
          (push_back_int16 [] (input_code handshake_response) ++ 0x08 ∷ 0x00 ∷ [])
        ∷ [])
    else answer_with false (input_handler id) []
  where
    message_type : ℕ
    message_type = front16 bytes

-- `handleMessageFromMobile`.
unfoldable pub handle_from_mobile : Proto → Handler → ℕ → ℕ → List ℕ → Answer
unfolding video_from_mobile input_from_mobile is_specific answer_with
handle_from_mobile proto (default_handler id) channel flags bytes =
    answer_with true (default_handler id) (to_server channel (is_specific flags) bytes ∷ [])
handle_from_mobile proto (video_handler v) channel flags bytes =
    video_from_mobile proto v channel flags bytes
handle_from_mobile proto (input_handler id) channel flags bytes =
    input_from_mobile id channel flags bytes

-- `handleMessageFromServer`, which is the same in the three classes.
unfoldable pub handle_from_server : Handler → ℕ → Bool → List ℕ → Emit
handle_from_server h channel is_spec bytes =
    to_mobile channel (if is_spec then bit_or encrypted_bulk specific else encrypted_bulk) bytes
