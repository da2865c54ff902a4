-- ===== src/Transport.antt =====
-- The two ends together: one side's queue, sent frame by frame, and the other side's reassembly.
-- Each transfer of the USB bulk endpoint carries the bytes of one frame.
pub mod Rest
pub mod Single
pub mod Queue
use aacs.Prelude.{ℕ, zero, suc, ◌+◌, ◌-◌, ◌/◌, ◌≤◌, ◌<◌, ◌≡◌, List, [], ◌∷◌, ◌++◌, length, bit_or}
use aacs.Tls.{Tls, Link}
use aacs.Frame.{Message, Sent, timed_out, sent, threw, Outbox, next_frame}
use aacs.Reassembly.{Transfer, received, got, receive_loop}

abbrev pub transfer_of : Sent → List Transfer
transfer_of timed_out = []
transfer_of (sent bytes) = received bytes ∷ []
transfer_of (threw e) = []

-- How many frames a message of `n` bytes takes.
abbrev pub frame_count : ℕ → ℕ → ℕ
frame_count max_size n = suc ((n - 1) / max_size)

module _ (tls : Tls) where
  -- A number of the sender's calls, and what they put on the wire.
  pub transmit : (Outbox tls → Sent × Outbox tls) → ℕ → Outbox tls → List Transfer × Outbox tls
  transmit step zero o = ([], o)
  transmit step (suc n) o =
      let (x, o1) = step o in let (ts, o2) = transmit step n o1 in (transfer_of x ++ ts, o2)

  -- The sender's sizes fit the record size of TLS, the ciphertext buffer and the 16-bit length.
  pub record Sizes (link : Link tls) (max_size : ℕ) (room : ℕ → ℕ) : Type 0 where
    pub positive : 0 < max_size
    pub record_size : max_size ≤ 16384
    pub has_room : (h : ℕ) → h ≤ 8 → max_size + link.overhead ≤ room h
    pub length_field : max_size + link.overhead < 65536

  -- `n` calls of the sender empty the front of the queue, and the receiver, with `full` read so
  -- far and the total `known`, makes the message `m` of just these frames.
  pub record Carried (link : Link tls) (max_size : ℕ) (room : ℕ → ℕ) (n : ℕ) (o : Outbox tls)
      (r : tls.Session) (full : List ℕ) (known : ℕ) (m : Message) (rest : List Message)
      : Type 0 where
    pub frames : List Transfer
    pub after : tls.Session
    pub opened : tls.Session
    pub on_transmit :
        transmit (next_frame tls max_size room) n o
        ≡ (frames, record { queue = rest; session = after })
    pub on_receive :
        (later : List Transfer)
        → receive_loop tls (frames ++ later) r full known ≡ (got m, opened, later)
    pub synced : link.Synced after opened
