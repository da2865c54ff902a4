-- ===== src/Examples/Server.antt =====
-- The theorems on AAServer at concrete inputs.
use aacs.Prelude.{
  ℕ, ◌≡◌, refl, true, false, List, [], ◌∷◌, ◌++◌, none, some, length, arith, if◌then◌else◌, ◌==◌,
}
use aacs.Proto.{Proto, ChannelDescription, media_stream_video}
use aacs.CheckError.{count}
use aacs.Server.Handlers.{everyone}
use aacs.Server.Control.Signals.{ClientMessage, initial}
use aacs.Server.Pump.{Call, returned, underrun, write_loop, pump_round}
use aacs.Server.Pump.Progress.{zero_count-underrun}
use aacs.Server.Pump.Frames.{WireFrame, all_bytes, usb_writer, handle_frames, pump_round-frames}
use aacs.Examples.Loopback.{loopback, handshake}

-- A descriptor here is a list of pairs, the kind of a channel (3 for video) and its id.
abbrev pub channel : ℕ → ℕ → ChannelDescription
channel k id = record {
  channel_id = id;
  media_channel = if k == media_stream_video then some k else none;
  input_channel = none;
}

abbrev channels : List ℕ → List ChannelDescription
channels [] = []
channels (k ∷ []) = []
channels (k ∷ id ∷ rest) = channel k id ∷ channels rest

abbrev pub proto : Proto
proto = record {
  channel_open_request = λ id. 0x08 ∷ id ∷ 0x10 ∷ 0 ∷ [];
  handshake_request = λ buttons. some buttons;
  service_discovery_request = 0x0a ∷ 0x03 ∷ [];
  service_channels = channels;
  ping_timestamp = length;
  ping_response = λ n. some (0x08 ∷ n ∷ []);
  media_setup_response = λ a b c. 0x08 ∷ a ∷ 0x10 ∷ b ∷ 0x18 ∷ c ∷ [];
}

-- A writer that never takes any byte.
abbrev dead_writer : List ℕ → ℕ → List ℕ → Call × List ℕ
dead_writer buf len s = (returned (count 0), s)

zero_count-underrun_example :
    (write_loop dead_writer (λ _. false) 3 (5 ∷ 6 ∷ 7 ∷ []) 2 1 []).0 ≡ underrun
zero_count-underrun_example =
    zero_count-underrun dead_writer (λ buf len s. refl) 3 (5 ∷ 6 ∷ 7 ∷ []) 2 1 [] (omega arith)
      (omega arith)

-- A version request, as the head unit sends it in one piece.
abbrev version_frame : WireFrame
version_frame = record { channel = 0; flags = 3; body = 0 ∷ 1 ∷ 0 ∷ 1 ∷ 0 ∷ 1 ∷ [] }

pump_round-frames_example :
    pump_round
      (usb_writer loopback handshake proto)
      (λ _. false)
      2
      (returned (count (length (all_bytes (version_frame ∷ version_frame ∷ [])))))
      (all_bytes (version_frame ∷ version_frame ∷ []) ++ 9 ∷ [])
      (initial loopback)
    ≡ handle_frames loopback handshake proto (version_frame ∷ version_frame ∷ []) (initial loopback)
pump_round-frames_example =
    pump_round-frames loopback handshake proto version_frame (version_frame ∷ []) (9 ∷ []) 2
      (initial loopback) (omega arith, (omega arith, tt)) (omega arith)

abbrev pub message_for_all : ClientMessage
message_for_all = record {
  target = everyone;
  channel_number = 4;
  is_specific_message = true;
  payload = 8 ∷ 9 ∷ [];
}
