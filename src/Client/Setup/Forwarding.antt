-- ===== src/Client/Setup/Forwarding.antt =====
-- Messages on a channel that AAClient only passes on.
use aacs.Prelude.{ℕ, ◌≡◌, ◌≢◌, List, [], ◌∷◌, ◌++◌, Bool, some, bit_or, if◌then◌else◌, arith}
use aacs.Proto.{Proto}
use aacs.Frame.{Message, message}
use aacs.Wire.Codes.{code, service_discovery_request, specific}
use aacs.Wire.Bytes.{front16}
use aacs.Client.Handlers.{
  default_handler, is_specific, handle_from_mobile, handle_from_server, encrypted_bulk,
}
use aacs.Client.Setup.{
  Client, done, handle_message, handle_channel_message, connect_signals, send_message_public,
}

pub default_channel_forwards :
    (proto : Proto) (m : Message) (c : Client) (id : ℕ)
    → c.handlers m.channel ≡ some (default_handler id)
    → m.channel ≢ 0
    → front16 m.content ≢ code service_discovery_request
    → ((handle_message proto m c).0 ≡ done)
      × ((handle_message proto m c).1.channel_messages
          ≡ c.channel_messages
            ++ record {
              channel_number = m.channel;
              is_specific_message = is_specific m.flags;
              payload = m.content;
            }
              ∷ [])
unfolding handle_message handle_channel_message connect_signals handle_from_mobile
default_channel_forwards proto m c id e nz ns = ground arith

pub send_message_public_queue :
    (c : Client) (channel id : ℕ) (is_spec : Bool) (buf : List ℕ)
    → c.handlers channel ≡ some (default_handler id)
    → ((send_message_public channel is_spec buf c).0 ≡ done)
      × ((send_message_public channel is_spec buf c).1.queue
          ≡ c.queue
            ++ message channel
                (if is_spec then bit_or encrypted_bulk specific else encrypted_bulk)
                buf
              ∷ [])
unfolding send_message_public connect_signals handle_from_server
send_message_public_queue c channel id is_spec buf e = ground arith
