-- ===== src/Server/Control/Discovery.antt =====
-- `handleServiceDiscoveryResponse`, `getChannelNumberByChannelType` and `getServiceDescriptor`.
use aacs.Prelude.{ℕ, Bool, false, List, [], ◌∷◌, none, some, ◌==◌, ltb, leb, if◌then◌else◌}
use aacs.Tls.{Tls}
use aacs.Proto.{Proto, ChannelDescription, media_stream_video}
use aacs.Wire.Bytes.{uint8}
use aacs.Server.Handlers.{Handler, default_handler, video_handler, input_handler}
use aacs.Server.Control.Signals.{
  Server, Result, ok, threw, out_of_bounds, invalid_channel_id, put_handler,
}

-- ChannelType.h. A client's request may hold any other number.
abbrev pub video_type : ℕ
video_type = 0

abbrev pub input_type : ℕ
input_type = 1

abbrev pub max_type : ℕ
max_type = 2

abbrev pub new_video : ℕ → Handler
new_video id = video_handler (record {
  video_id = id;
  channel_opened = false;
  got_video_open = false;
  got_setup_response = false;
})

abbrev pub new_input : ℕ → List ℕ → Handler
new_input id buttons = input_handler (record {
  input_id = id;
  got_input_open = false;
  got_handshake_response = false;
  registered_clients = [];
  available_buttons = buttons;
})

unfoldable pub is_video : ChannelDescription → Bool
is_video ch = elim ch.media_channel [ none ↦ false | some media ↦ media == media_stream_video ]

module _ (tls : Tls) where
  input_or_default : ChannelDescription → Server tls → Server tls
  input_or_default ch s = elim ch.input_channel [
    | some buttons ↦
        put_handler tls ch.channel_id (new_input (uint8 ch.channel_id) buttons)
          (record s { input_channel = uint8 ch.channel_id })
    | none ↦ put_handler tls ch.channel_id (default_handler (uint8 ch.channel_id)) s
  ]

  -- The loop's body. The flags that a new handler's constructor leaves unset are false here.
  unfoldable pub add_channel : ChannelDescription → Server tls → Server tls
  unfolding is_video input_or_default
  add_channel ch s =
      if is_video ch
      then put_handler tls ch.channel_id (new_video (uint8 ch.channel_id))
          (record s { video_channel = uint8 ch.channel_id })
      else input_or_default ch s

  -- An id of 256 or more is behind the end of `channelHandlers`.
  unfoldable pub add_channels :
      List ChannelDescription → Server tls → Result (Unit {0}) × Server tls
  add_channels [] s = (ok tt, s)
  add_channels (ch ∷ chs) s =
      let rest = add_channels chs (add_channel ch s) in
      if ltb ch.channel_id 256 then rest else (threw out_of_bounds, s)

  unfoldable pub handle_service_discovery_response :
      Proto → List ℕ → Server tls → Result (Unit {0}) × Server tls
  handle_service_discovery_response proto buf s =
      add_channels (proto.service_channels buf) (record s { service_descriptor = buf })

  -- `channelTypeToChannelNumber[ct]` behind the array's end is an access out of bounds.
  -- `auto channelId` is a uint8_t, so `channelId < 0` never holds.
  unfoldable pub get_channel_number_by_channel_type : ℕ → Server tls → Result ℕ
  get_channel_number_by_channel_type ct s =
      if leb max_type ct
      then threw out_of_bounds
      else if ltb channel_id 0
      then threw invalid_channel_id
      else ok channel_id
    where
      channel_id : ℕ
      channel_id = if ct == video_type then s.video_channel else s.input_channel

  unfoldable pub get_service_descriptor : Server tls → List ℕ
  get_service_descriptor s = s.service_descriptor
