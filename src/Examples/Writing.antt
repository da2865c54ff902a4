-- ===== src/Examples/Writing.antt =====
-- A write that is interrupted once, and then takes a part of the packet.
use aacs.Prelude.{arith, some, ◌≡◌, refl, false, [], ◌∷◌, map, true}
use aacs.CheckError.{count, failed}
use aacs.Client.Socket.Reading.{
  reading, reading_thread, read_of, interrupted, message_arrives, closed, messages_read_in_order,
}
use aacs.Server.Handlers.{everyone}
use aacs.Server.Control.Signals.{ClientMessage}
use aacs.Client.Setup.{ChannelMessage, Client}
use aacs.Client.Handlers.{default_handler}
use aacs.Frame.{message}
use aacs.Client.Socket.Writing.{threw, channel_message_written, first_result_decides}
use aacs.Client.Socket.{raw_packet}

abbrev two_bytes : ChannelMessage
two_bytes = record { channel_number = 2; is_specific_message = false; payload = 8 ∷ 0 ∷ [] }

first_result_decides_example :
    channel_message_written two_bytes (failed 4 ∷ count 3 ∷ count 5 ∷ []) ≡ threw
unfolding raw_packet
first_result_decides_example =
    first_result_decides two_bytes (failed 4 ∷ []) (count 3) (count 5 ∷ []) (refl, tt) refl

abbrev from_headunit : ClientMessage
from_headunit = record {
  target = everyone;
  channel_number = 4;
  is_specific_message = true;
  payload = 8 ∷ 9 ∷ [];
}

-- AAClient with a default handler for each channel.
abbrev described : Client
described = record {
  handlers = λ n. some (default_handler n);
  service_description = [];
  queue = [];
  channel_messages = [];
  pushed = [];
}

messages_read_in_order_example :
    reading_thread
      (map read_of (interrupted ∷ message_arrives from_headunit ∷ closed ∷ closed ∷ []))
      described
    ≡ (reading, record described { queue = message 4 15 (8 ∷ 9 ∷ []) ∷ [] })
messages_read_in_order_example =
    messages_read_in_order (interrupted ∷ message_arrives from_headunit ∷ closed ∷ closed ∷ [])
      described (tt, ((omega arith, (4, refl)), (tt, (tt, tt))))
