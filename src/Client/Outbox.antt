-- ===== src/Client/Outbox.antt =====
-- AAClient/src/AaCommunicator.cpp: `sendMessage`, `prepareMessage`, `writeThread` and `writeToUsb`.
use aacs.Prelude.{ℕ, ◌≤◌, ◌++◌, List, [], ◌∷◌, All, length, arith, ◌==◌, ◌&&◌, if◌then◌else◌, Bool}
use aacs.Tls.{Tls, Link}
use aacs.Frame.{Message, message, Sent, timed_out, sent, threw, Outbox, next_frame}
use aacs.Transport.Queue.{Emptied, frame_total, empty_queue}
use aacs.Transport.Single.{IsQueued}

-- What `libusb_bulk_transfer` answers: its result and `transferred`.
pub record UsbResult : Type 0 where
  pub result : ℕ
  pub transferred : ℕ

-- `writeToUsb`: false stands for the exception.
pub write_to_usb : List ℕ → UsbResult → Bool
write_to_usb buffer u = u.result == 0 && u.transferred == length buffer

-- One round of `writeThread`: what was handed to libusb, in order, and whether the thread goes on.
pub data Round : Type 0 where
  continues : List (List ℕ) → Round
  dies : List (List ℕ) → Round

-- `retry` is libusb's answer to the second attempt.
pub write_bytes : List ℕ → UsbResult → UsbResult → Round
unfolding write_to_usb
write_bytes msg attempt retry =
    if write_to_usb msg attempt
    then continues (msg ∷ [])
    else if write_to_usb msg retry
    then continues (msg ∷ msg ∷ [])
    else dies (msg ∷ msg ∷ [])

write_sent : Sent → UsbResult → UsbResult → Round
unfolding write_bytes
write_sent timed_out attempt retry = continues []
write_sent (sent bytes) attempt retry = write_bytes bytes attempt retry
write_sent (threw e) attempt retry = dies []

module _ (tls : Tls) where
  pub send_message : ℕ → ℕ → List ℕ → Outbox tls → Outbox tls
  send_message channel flags buf o = record o { queue = o.queue ++ message channel flags buf ∷ [] }

  -- `maxSize` is 10000, and `BIO_read` is always given 20000 bytes of room.
  pub prepare_message : Outbox tls → Sent × Outbox tls
  prepare_message o = next_frame tls 10000 (λ h. 20000) o

  -- An empty buffer is skipped, an exception of `prepareMessage` ends the thread, and one of
  -- `writeToUsb` is answered by one more attempt with the same bytes.
  pub write_round : Outbox tls → UsbResult → UsbResult → Round × Outbox tls
  unfolding write_sent
  write_round o attempt retry = let (x, o1) = prepare_message o in (write_sent x attempt retry, o1)

  -- A queue of whole messages is drained by `prepareMessage` in as many calls as their frames
  -- count, and these frames are reassembled by `getMessage` of AAClient to the same messages, in
  -- order and with nothing left over. The TLS sessions are established, a record is at most 1024
  -- bytes longer than its plaintext, each message has both frame bits set, and is encrypted with
  -- content of 1 to 2^31 - 1 bytes, or plain with less than 2^16 bytes.
  pub prepared_arrives :
      (link : Link tls) (queue : List Message) (s r : tls.Session)
      → link.overhead ≤ 1024
      → link.Synced s r
      → All IsQueued queue
      → Emptied tls link prepare_message (frame_total 10000 queue) queue s r
  unfolding prepare_message
  prepared_arrives link queue s r small sy q =
      empty_queue tls link 10000 (λ h. 20000)
        (record {
          positive = omega arith;
          record_size = omega arith;
          has_room = λ h le. omega arith;
          length_field = omega arith;
        })
        queue s r sy q
