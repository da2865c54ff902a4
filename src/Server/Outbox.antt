-- ===== src/Server/Outbox.antt =====
-- AAServer/src/AaCommunicator.cpp: the send queue, filled by `sendMessage` and drained by
-- `getMessage` for the USB endpoint.
use aacs.Prelude.{ℕ, ◌-◌, ◌*◌, ◌≤◌, ◌++◌, List, [], ◌∷◌, All, arith}
use aacs.Tls.{Tls, Link}
use aacs.Frame.{Message, message, Sent, Outbox, next_frame}
use aacs.Transport.Queue.{Emptied, frame_total, empty_queue}
use aacs.Transport.Single.{IsQueued}

-- `char buffer[100 * 1024]` of `dataPump`.
abbrev pub buffer_size : ℕ
buffer_size = 100 * 1024

module _ (tls : Tls) where
  pub send_message : ℕ → ℕ → List ℕ → Outbox tls → Outbox tls
  send_message channel flags buf o = record o { queue = o.queue ++ message channel flags buf ∷ [] }

  -- `maxSize` is 2000, and `BIO_read` may fill what the header leaves of the buffer.
  pub get_message : ℕ → Outbox tls → Sent × Outbox tls
  get_message nbytes o = next_frame tls 2000 (λ h. nbytes - h) o

  -- A queue of whole messages is drained by `getMessage` in as many calls as their frames count,
  -- and what these calls put on the wire is reassembled by `getMessage` of AAClient to the same
  -- messages, in order and with nothing left over. The TLS sessions are established, a record
  -- is at most 1024 bytes longer than its plaintext, each message has both frame bits set, and is
  -- encrypted with content of 1 to 2^31 - 1 bytes, or plain with less than 2^16 bytes.
  pub queue_arrives :
      (link : Link tls) (queue : List Message) (s r : tls.Session)
      → link.overhead ≤ 1024
      → link.Synced s r
      → All IsQueued queue
      → Emptied tls link (get_message buffer_size) (frame_total 2000 queue) queue s r
  unfolding get_message
  queue_arrives link queue s r small sy q =
      empty_queue tls link 2000 (λ h. buffer_size - h)
        (record {
          positive = omega arith;
          record_size = omega arith;
          has_room = λ h le. omega arith;
          length_field = omega arith;
        })
        queue s r sy q
