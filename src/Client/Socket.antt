-- ===== src/Client/Socket.antt =====
-- AAClient/main.cpp: the bytes that AAClient and AAServer exchange over the local socket.
pub mod Writing
pub mod Reading
use aacs.Prelude.{ℕ, Bool, not, List, [], ◌∷◌, drop, ltb, ◌==◌, if◌then◌else◌}
use aacs.CheckError.{
  IoReturn, Checked, moved, minus_one, nothing, exception, eintr, eagain, check_error,
}
use aacs.Wire.Bytes.{byte_at}
use aacs.Client.Setup.{ChannelMessage}

-- What `channelMessage` writes: the packet type of raw data, channel, 0xff or 0, content.
unfoldable pub raw_packet : ChannelMessage → List ℕ
raw_packet m = 0x01 ∷ m.channel_number ∷ (if m.is_specific_message then 0xff else 0x00) ∷ m.payload

-- `getServiceDescriptor`.
unfoldable pub service_descriptor_packet : List ℕ
service_descriptor_packet = 0x02 ∷ 0x00 ∷ 0x00 ∷ []

-- The reading thread: nothing to do, a message for `sendMessagePublic`, or an exception (of
-- `checkError`, or of the vector's constructor for a packet of one byte).
pub data FromServer : Type 0 where
  nothing_read : FromServer
  message_read : ℕ → Bool → List ℕ → FromServer
  thread_error : FromServer

from_bytes : ℕ → List ℕ → FromServer
from_bytes n buffer =
    if ltb n 2
    then thread_error
    else message_read (byte_at buffer 0) (not (byte_at buffer 1 == 0)) (drop 2 buffer)

from_checked : Checked → List ℕ → FromServer
unfolding from_bytes
from_checked exception buffer = thread_error
from_checked minus_one buffer = nothing_read
from_checked nothing buffer = nothing_read
from_checked (moved n) buffer = from_bytes n buffer

-- `buffer` holds the bytes that were read, as many as the result says.
unfoldable pub read_message : IoReturn → List ℕ → FromServer
unfolding from_checked check_error
read_message r buffer = from_checked (check_error r (eintr ∷ eagain ∷ [])) buffer
