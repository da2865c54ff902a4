-- ===== src/Server/Sockets.antt =====
-- The local side of AAServer: SocketClient.cpp, SocketCommunicator.cpp and the callbacks that
-- main.cpp connects. A client is known by its socket; the map of main.cpp gives it a number.
pub mod Clients
pub mod Registry
pub mod Registered
pub mod Loops
pub mod Ended
pub mod Closing
pub mod Replies
pub mod Requests
pub mod Passing
use aacs.Prelude.{
  ℕ, ◌+◌, ◌<◌, Bool, true, false, not, List, [], ◌∷◌, ◌++◌, drop, length, Option, none, some, ltb,
  ◌==◌, ◌&&◌, if◌then◌else◌,
}
use aacs.CheckError.{IoReturn, count, failed}
use aacs.Wire.Bytes.{byte_at}
use aacs.Server.Handlers.{Target, everyone, only}
use aacs.Server.Control.Signals.{ClientMessage}

-- Packet.h.
pub record Packet : Type 0 where
  pub packet_type : ℕ
  pub channel_number : ℕ
  pub specific_byte : ℕ
  pub payload : List ℕ

-- What the client's thread makes of a `read` that follows a `select` with a ready socket.
-- `undefined` is a copy whose end lies before its start: a packet of one or two bytes, or an error.
pub data Incoming : Type 0 where
  gone : Incoming
  packet : Packet → Incoming
  undefined : Incoming

unfoldable pub parse_packet : List ℕ → Packet
parse_packet buffer = record {
  packet_type = byte_at buffer 0;
  channel_number = byte_at buffer 1;
  specific_byte = byte_at buffer 2;
  payload = drop 3 buffer;
}

-- `clientThreadMethod` behind `read`: `failed` is a result of -1.
unfoldable pub read_packet : IoReturn → List ℕ → Incoming
unfolding parse_packet
read_packet (failed errno) buffer = undefined
read_packet (count n) buffer =
    if n == 0 then gone else if ltb n 3 then undefined else packet (parse_packet buffer)

abbrev pub econnreset : ℕ
econnreset = 104

-- `SocketClient::sendMessage`, by what `write` returned.
pub data SendEnd : Type 0 where
  delivered client_disconnected send_failed : SendEnd

unfoldable pub send_message : List ℕ → IoReturn → SendEnd
send_message msg (count n) = if n == length msg then delivered else send_failed
send_message msg (failed errno) = if errno == econnreset then client_disconnected else send_failed

-- The bytes of a message for a client: channel, 0xff or 0, content.
unfoldable pub client_bytes : ClientMessage → List ℕ
client_bytes m = m.channel_number ∷ (if m.is_specific_message then 0xff else 0x00) ∷ m.payload

abbrev pub is_target : Target → ℕ → Bool
is_target everyone n = true
is_target (only k) n = n == k

-- The sockets that were written to, and whether an exception left the loop.
pub record Broadcast : Type 0 where
  pub written : List (ℕ × List ℕ)
  pub raised : Bool

-- The loop of the `gotMessage` callback, over the map of sockets and numbers. Only a lost
-- connection is caught.
after_send : SendEnd → ℕ × List ℕ → Broadcast → Broadcast
after_send send_failed w rest = record { written = w ∷ []; raised = true }
after_send delivered w rest = record rest { written = w ∷ rest.written }
after_send client_disconnected w rest = record rest { written = w ∷ rest.written }

pub broadcast : (ℕ → IoReturn) → ClientMessage → List (ℕ × ℕ) → Broadcast
unfolding after_send client_bytes
broadcast write m [] = record { written = []; raised = false }
broadcast write m ((socket, number) ∷ clients) =
    let rest = broadcast write m clients in
    let sent_here =
      after_send (send_message (client_bytes m) (write socket)) (socket, client_bytes m) rest in
    if is_target m.target number then sent_here else rest
