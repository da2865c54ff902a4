-- ===== src/Proto.antt =====
-- The protocol buffers of proto/: protoc generates their code, so reading and writing them is a
-- parameter. A record of this type has one function for each call that the program makes.
use aacs.Prelude.{ℕ, List, Option}

-- What the program reads of a Channel of proto/Channel.proto: `media_channel` holds the media type,
-- and `input_channel` the available buttons, where the message has them.
pub record ChannelDescription : Type 0 where
  pub channel_id : ℕ
  pub media_channel : Option ℕ
  pub input_channel : Option (List ℕ)

-- MediaStreamType_Enum_Video.
abbrev pub media_stream_video : ℕ
media_stream_video = 3

pub record Proto : Type 0 where
  -- ChannelOpenRequest: the channel id, and 0 in the unknown field.
  pub channel_open_request : ℕ → List ℕ
  -- InputChannelHandshakeRequest; `none` where `SerializeToArray` fails.
  pub handshake_request : List ℕ → Option (List ℕ)
  -- ServiceDiscoveryRequest with the manufacturer "TAG" and the model "AAServer".
  pub service_discovery_request : List ℕ
  -- The channels of a ServiceDiscoveryResponse.
  pub service_channels : List ℕ → List ChannelDescription
  -- The timestamp of a PingRequest.
  pub ping_timestamp : List ℕ → ℕ
  -- PingResponse; `none` where `SerializeToArray` fails.
  pub ping_response : ℕ → Option (List ℕ)
  -- MediaChannelSetupResponse.
  pub media_setup_response : ℕ → ℕ → ℕ → List ℕ
