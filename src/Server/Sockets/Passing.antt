-- ===== src/Server/Sockets/Passing.antt =====
-- Raw data of a client, and messages of the head unit, on a channel with a default handler.
use aacs.Prelude.{ℕ, ◌≡◌, [], ◌∷◌, ◌++◌, not, some, bit_or, if◌then◌else◌, arith, ◌==◌}
use aacs.Tls.{Tls}
use aacs.Proto.{Proto}
use aacs.Frame.{Message, message}
use aacs.Wire.Codes.{specific}
use aacs.Server.Handlers.{
  everyone, default_handler, handle_from_client, handle_from_headunit, encrypted_bulk, is_specific,
}
use aacs.Server.Control.Signals.{Server, ok, connect_signals, handle_channel_message}
use aacs.Server.Sockets.{Packet}
use aacs.Server.Sockets.Requests.{Hub, served, raw_data, send_to_channel, got_packet}

module _ (tls : Tls) where
  pub raw_data_queued :
      (proto : Proto) (socket id : ℕ) (p : Packet) (h : Hub tls)
      → h.server.handlers p.channel_number ≡ some (default_handler id)
      → p.packet_type ≡ raw_data
      → ((got_packet tls proto socket p h).0 ≡ served)
        × ((got_packet tls proto socket p h).1.server.queue
            ≡ h.server.queue
              ++ message p.channel_number
                  (if not (p.specific_byte == 0)
                    then bit_or encrypted_bulk specific
                    else encrypted_bulk)
                  p.payload
                ∷ [])
  unfolding got_packet send_to_channel handle_from_client connect_signals
  raw_data_queued proto socket id p h e t = ground arith

  pub headunit_message_emitted :
      (m : Message) (id : ℕ) (s : Server tls)
      → s.handlers m.channel ≡ some (default_handler id)
      → ((handle_channel_message tls m s).0 ≡ ok tt)
        × ((handle_channel_message tls m s).1.got_messages
            ≡ s.got_messages
              ++ record {
                target = everyone;
                channel_number = m.channel;
                is_specific_message = is_specific m.flags;
                payload = m.content;
              }
                ∷ [])
  unfolding handle_channel_message handle_from_headunit connect_signals
  headunit_message_emitted m id s e = ground arith
