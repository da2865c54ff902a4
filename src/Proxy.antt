-- ===== src/Proxy.antt =====
-- The two programs together as a proxy: what the phone says to AAClient reaches the car's head unit
-- through AAServer, and back. Only channels with default handlers on both sides are passed through.
pub mod Version
pub mod Video
pub mod Discovery
pub mod Handshake
use aacs.Prelude.{ℕ, ◌≡◌, bit_or, List, length, if◌then◌else◌, arith}
use aacs.Tls.{Tls}
use aacs.Proto.{Proto}
use aacs.CheckError.{count, one_read}
use aacs.Wire.Codes.{specific}
use aacs.Server.Handlers
use aacs.Server.Control.Signals.{Server, ClientMessage}
use aacs.Server.Sockets.{Packet, Incoming, gone, packet, undefined, read_packet, client_bytes}
use aacs.Server.Sockets.Requests.{Hub, Served, served, waits, got_packet, raw_data}
use aacs.Client.Handlers as ClientHandlers
use aacs.Client.Setup.{Client, ChannelMessage}
use aacs.Client.Socket.{message_read, read_message}

-- What AAServer writes to a client, AAClient reads back: the same channel, kind and content.
pub read_message-client_bytes :
    (m : ClientMessage)
    → read_message (count (length (client_bytes m))) (client_bytes m)
      ≡ message_read m.channel_number m.is_specific_message m.payload
unfolding read_message client_bytes
read_message-client_bytes m = ground arith

-- The flags under which a default handler sends a message on.
abbrev pub relay_flags : ℕ → ℕ
relay_flags flags =
    if ClientHandlers.is_specific flags
    then bit_or ClientHandlers.encrypted_bulk specific
    else ClientHandlers.encrypted_bulk

module _ (tls : Tls) where
  serve_incoming : Proto → ℕ → Incoming → Hub tls → Served tls × Hub tls
  serve_incoming proto socket gone h = (served, h)
  serve_incoming proto socket undefined h = (waits, h)
  serve_incoming proto socket (packet p) h = got_packet tls proto socket p h

  -- The client's thread of AAServer on the bytes of one packet, of which it reads as many as its
  -- buffer of 2 MiB takes.
  unfoldable pub serve_bytes : Proto → ℕ → List ℕ → Hub tls → Served tls × Hub tls
  unfolding serve_incoming
  serve_bytes proto socket bytes h =
      let r = one_read 2097152 bytes in serve_incoming proto socket (read_packet r.0 r.1) h

  abbrev packet_of : ChannelMessage → Packet
  packet_of cm = record {
    packet_type = raw_data;
    channel_number = cm.channel_number;
    specific_byte = if cm.is_specific_message then 0xff else 0x00;
    payload = cm.payload;
  }
