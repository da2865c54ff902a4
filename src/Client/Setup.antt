-- ===== src/Client/Setup.antt =====
-- AAClient/src/AaCommunicator.cpp: the session with the phone, from the version request to the
-- message loop of `setup`.
pub mod Channels
pub mod Faults
pub mod Forwarding
pub mod Shake
use aacs.Prelude.{
  ℕ, zero, suc, ◌+◌, ◌-◌, ◌<◌, bit_or, Bool, true, false, not, List, [], ◌∷◌, ◌++◌, drop, length,
  Option, none, some, ltb, leb, ◌==◌, ◌&&◌, ◌||◌, if◌then◌else◌,
}
use aacs.Proto.{Proto, ChannelDescription, media_stream_video}
use aacs.Frame.{Message, message}
use aacs.Wire.Codes.{
  encrypted, plain, bulk, control, code, version_request, version_response, ssl_handshake,
  auth_complete, service_discovery_request, service_discovery_response, audio_focus_request,
  navigation_focus_request, voice_session_request,
}
use aacs.Wire.Bytes.{byte_at, front16, uint8, push_back_int16}
use aacs.Client.Handlers.{
  Emit, to_server, to_mobile, push_buffer, Handler, default_handler, video_handler, input_handler,
  Ending, handled, Answer, is_specific, handle_from_mobile, handle_from_server,
}

-- `sendVersionRequest`, whose bytes and flags `sendMessage` puts on the queue of channel 0.
unfoldable pub version_request_message : ℕ → ℕ → Message
version_request_message major minor =
    message 0 (bit_or (bit_or plain bulk) control)
      (push_back_int16 (push_back_int16 (push_back_int16 [] (code version_request)) major) minor)

-- `expectVersionResponse`: false stands for the exception.
unfoldable pub expect_version_response : Message → Bool
expect_version_response m =
    length m.content == 8
    && front16 m.content == code version_response
    && byte_at m.content 6 == 0
    && byte_at m.content 7 == 0

unfoldable pub auth_complete_message : Message
auth_complete_message =
    message 0 (bit_or (bit_or bulk plain) control)
      (push_back_int16 [] (code auth_complete) ++ 0x08 ∷ 0x00 ∷ [])

-- A message for AAServer, as the signal `channelMessage` carries it.
pub record ChannelMessage : Type 0 where
  pub channel_number : ℕ
  pub is_specific_message : Bool
  pub payload : List ℕ

pub record Client : Type 0 where
  pub handlers : ℕ → Option Handler
  pub service_description : List ℕ
  pub queue : List Message
  pub channel_messages : List ChannelMessage
  pub pushed : List (ℕ × List ℕ)

-- `undefined` covers what the handlers leave undefined and a call through a pointer of the array
-- that was never set.
pub data Step : Type 0 where
  done unexpected_message vector_too_small undefined : Step

pub send_message : ℕ → ℕ → List ℕ → Client → Client
send_message channel flags buf c = record c { queue = c.queue ++ message channel flags buf ∷ [] }

pub channel_message : ℕ → Bool → List ℕ → Client → Client
channel_message channel is_spec bytes c = record c {
  channel_messages =
      c.channel_messages
      ++ record { channel_number = channel; is_specific_message = is_spec; payload = bytes } ∷ [];
}

unfoldable pub connect_signals : List Emit → Client → Client
unfolding send_message channel_message
connect_signals [] c = c
connect_signals (to_server channel is_spec bytes ∷ es) c =
    connect_signals es (channel_message channel is_spec bytes c)
connect_signals (to_mobile channel flags bytes ∷ es) c =
    connect_signals es (send_message channel flags bytes c)
connect_signals (push_buffer ts bytes ∷ es) c =
    connect_signals es (record c { pushed = c.pushed ++ (ts, bytes) ∷ [] })

abbrev put_handler : ℕ → Handler → Client → Client
put_handler n h c = record c { handlers = λ k. if k == n then some h else c.handlers k }

ending_step : Ending → Step
ending_step (handled b) = done
ending_step Ending.vector_too_small_thrown = vector_too_small
ending_step Ending.undefined_access = undefined

-- The result of the handler is not looked at.
pub handle_channel_message : Proto → Message → Client → Step × Client
unfolding ending_step connect_signals
handle_channel_message proto m c = elim (c.handlers m.channel) [
  | none ↦ (undefined, c)
  | some h ↦ (
    ending_step (handle_from_mobile proto h m.channel m.flags m.content).ending,
    connect_signals (handle_from_mobile proto h m.channel m.flags m.content).emitted
        (put_handler m.channel (handle_from_mobile proto h m.channel m.flags m.content).handler c),
  )
]

-- `sendMessagePublic`.
unfoldable pub send_message_public : ℕ → Bool → List ℕ → Client → Step × Client
send_message_public channel is_spec buf c = elim (c.handlers channel) [
  | none ↦ (undefined, c)
  | some h ↦ (done, connect_signals (handle_from_server h channel is_spec buf ∷ []) c)
]

is_video : ChannelDescription → Bool
is_video ch = elim ch.media_channel [ none ↦ false | some media ↦ media == media_stream_video ]

unfoldable pub handler_for : ChannelDescription → Handler
unfolding is_video
handler_for ch =
    if is_video ch
    then video_handler
        (record { video_id = uint8 ch.channel_id; start_timestamp = 0; has_source = false })
    else elim ch.input_channel [
      | some buttons ↦ input_handler (uint8 ch.channel_id)
      | none ↦ default_handler (uint8 ch.channel_id)
    ]

-- `channelHandlers` has UINT8_MAX elements, so 254 is the last index.
pub add_channels : List ChannelDescription → Client → Step × Client
unfolding handler_for
add_channels [] c = (done, c)
add_channels (ch ∷ chs) c =
    let rest = add_channels chs (put_handler ch.channel_id (handler_for ch) c) in
    if ltb ch.channel_id 255 then rest else (undefined, c)

after_channels : Step × Client → Step × Client
after_channels (done, c) = (
  done,
  send_message 0 (bit_or (bit_or encrypted bulk) control)
      (push_back_int16 [] (code service_discovery_response) ++ c.service_description) c,
)
after_channels (unexpected_message, c) = (unexpected_message, c)
after_channels (vector_too_small, c) = (vector_too_small, c)
after_channels (undefined, c) = (undefined, c)

pub handle_service_discovery_request : Proto → Client → Step × Client
unfolding after_channels
handle_service_discovery_request proto c =
    after_channels (add_channels (proto.service_channels c.service_description) c)

pub is_forwarded : ℕ → Bool
is_forwarded message_type =
    message_type == code audio_focus_request
    || message_type == code navigation_focus_request
    || message_type == code voice_session_request

-- One message in the loop of `setup`.
unfoldable pub handle_message : Proto → Message → Client → Step × Client
unfolding is_forwarded
handle_message proto m c =
    if message_type == code service_discovery_request
    then handle_service_discovery_request proto c
    else if not (m.channel == 0)
    then handle_channel_message proto m c
    else if is_forwarded message_type
    then (done, channel_message m.channel (is_specific m.flags) m.content c)
    else (unexpected_message, c)
  where
    message_type : ℕ
    message_type = front16 m.content

-- A result of `getMessage` in the loop: a message, or a runtime_error.
pub data Arrival : Type 0 where
  message_arrives : Message → Arrival
  fault : Arrival

-- How the loop ends: the arrivals so far are used up, 30 faults in a row, or an exception.
pub data LoopEnd : Type 0 where
  listening given_up : LoopEnd
  failed : Step → LoopEnd

-- `for (; faultCount < 30;)`, with the count. `next` is the loop on the other arrivals.
unfoldable after_step : (Client → LoopEnd × Client) → Step × Client → LoopEnd × Client
after_step next (done, c) = next c
after_step next (unexpected_message, c) = (failed unexpected_message, c)
after_step next (vector_too_small, c) = (failed vector_too_small, c)
after_step next (undefined, c) = (failed undefined, c)

pub message_loop : Proto → List Arrival → ℕ → Client → LoopEnd × Client
unfolding after_step
message_loop proto [] faults c = (if ltb faults 30 then listening else given_up, c)
message_loop proto (fault ∷ later) faults c =
    let rest = message_loop proto later (faults + 1) c in
    if ltb faults 30 then rest else (given_up, c)
message_loop proto (message_arrives m ∷ later) faults c =
    let rest = after_step (λ c1. message_loop proto later 0 c1) (handle_message proto m c) in
    if ltb faults 30 then rest else (given_up, c)
