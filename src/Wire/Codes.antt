-- ===== src/Wire/Codes.antt =====
-- include/enums.h: the flags of a frame and the message types, with their numbers.
use aacs.Prelude.{ℕ}

-- EncryptionType.
abbrev pub plain : ℕ
plain = 0

abbrev pub encrypted : ℕ
encrypted = 0x08

-- FrameType.
abbrev pub first : ℕ
first = 1

abbrev pub last : ℕ
last = 2

abbrev pub bulk : ℕ
bulk = 3

-- MessageTypeFlags.
abbrev pub control : ℕ
control = 0

abbrev pub specific : ℕ
specific = 0x04

pub data MessageType : Type 0 where
  version_request version_response ssl_handshake auth_complete : MessageType
  service_discovery_request service_discovery_response : MessageType
  channel_open_request channel_open_response : MessageType
  ping_request ping_response : MessageType
  navigation_focus_request navigation_focus_response : MessageType
  voice_session_request audio_focus_request audio_focus_response : MessageType

abbrev pub code : MessageType → ℕ
code version_request = 1
code version_response = 2
code ssl_handshake = 3
code auth_complete = 4
code service_discovery_request = 5
code service_discovery_response = 6
code channel_open_request = 7
code channel_open_response = 8
code ping_request = 0x0b
code ping_response = 0x0c
code navigation_focus_request = 0x0d
code navigation_focus_response = 0x0e
code voice_session_request = 0x11
code audio_focus_request = 0x12
code audio_focus_response = 0x13

pub data MediaMessageType : Type 0 where
  media_with_timestamp_indication media_indication : MediaMessageType
  setup_request start_indication setup_response : MediaMessageType
  media_ack_indication video_focus_indication : MediaMessageType

abbrev pub media_code : MediaMessageType → ℕ
media_code media_with_timestamp_indication = 0
media_code media_indication = 1
media_code setup_request = 0x8000
media_code start_indication = 0x8001
media_code setup_response = 0x8003
media_code media_ack_indication = 0x8004
media_code video_focus_indication = 0x8008

pub data InputMessageType : Type 0 where
  event handshake_request handshake_response : InputMessageType

abbrev pub input_code : InputMessageType → ℕ
input_code event = 0x8001
input_code handshake_request = 0x8002
input_code handshake_response = 0x8003
