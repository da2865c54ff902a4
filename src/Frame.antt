-- ===== src/Frame.antt =====
-- How a message is cut into frames: the body that AAServer/src/AaCommunicator.cpp (`getMessage`)
-- and AAClient/src/AaCommunicator.cpp (`prepareMessage`) share, up to the sizes.
pub mod Cuts
pub mod Sending
use aacs.Prelude.{
  ℕ, ◌+◌, ◌-◌, ◌/◌, ◌%◌, ◌^◌, bit_and, bit_or, Bool, true, false, ◌&&◌, not, List, [], ◌∷◌, ◌++◌,
  length, drop, take, ltb, leb, ◌==◌, if◌then◌else◌, Option, none, some,
}
use aacs.Wire.Codes.{encrypted, first, last, bulk}
use aacs.Wire.Bytes.{uint8, push_back_int16}
use aacs.Tls.{Tls}

-- Message.h.
pub record Message : Type 0 where
  pub channel : ℕ
  pub flags : ℕ
  pub content : List ℕ
  pub offset : ℕ

abbrev pub message : ℕ → ℕ → List ℕ → Message
message channel flags content = record {
  channel = channel;
  flags = flags;
  content = content;
  offset = 0;
}

unfoldable pub is_encrypted : ℕ → Bool
is_encrypted flags = not (bit_and flags encrypted == 0)

-- `flags & FrameType::Bulk` as a condition.
has_frame_bits : ℕ → Bool
has_frame_bits flags = not (bit_and flags bulk == 0)

unfoldable pub is_first : ℕ → Bool
is_first flags = bit_and flags bulk == first

-- `msg.content.size() - msg.offset`, in 64 bits without sign.
size_left : Message → ℕ
size_left m = (length m.content + 2 ^ 64 - m.offset) % 2 ^ 64

-- One frame's flags and plaintext, and what stays of the message at the front of the queue.
pub record Cut : Type 0 where
  pub frame_flags : ℕ
  pub chunk : List ℕ
  pub remaining : List Message

-- `flags & ~FrameType::Bulk` of a uint8_t.
clear_bulk : ℕ → ℕ
clear_bulk flags = bit_and flags 0xfc

pub cut : ℕ → Message → Cut
unfolding has_frame_bits size_left clear_bulk
cut max_size m =
    if leb (size_left m) max_size && has_frame_bits m.flags
    -- full frame
    then record { frame_flags = m.flags; chunk = to_end; remaining = [] }
    else if ltb max_size (size_left m) && has_frame_bits m.flags
    -- first frame
    then record {
      frame_flags = first_flags;
      chunk = part;
      remaining = rest (clear_bulk first_flags) ∷ [];
    }
    else if ltb max_size (size_left m)
    -- intermediate frame
    then record { frame_flags = m.flags; chunk = part; remaining = rest (clear_bulk m.flags) ∷ [] }
    -- last frame
    else record { frame_flags = bit_or m.flags last; chunk = to_end; remaining = [] }
  where
    to_end : List ℕ
    to_end = drop m.offset m.content

    part : List ℕ
    part = take max_size to_end

    first_flags : ℕ
    first_flags = bit_or (clear_bulk m.flags) first

    rest : ℕ → Message
    rest flags = record m { flags = flags; offset = m.offset + max_size }

total_bytes : ℕ → List ℕ
total_bytes total =
    bit_and (total / 2 ^ 24) 0xff
    ∷ bit_and (total / 2 ^ 16) 0xff
    ∷ bit_and (total / 2 ^ 8) 0xff
    ∷ bit_and total 0xff
    ∷ []

-- `encBuf[0]` to `encBuf[3]`, and to `encBuf[7]` in a first frame.
unfoldable pub header : ℕ → ℕ → ℕ → ℕ → List ℕ
unfolding total_bytes is_first
header channel flags len total =
    channel
    ∷ flags
    ∷ uint8 (len / 2 ^ 8)
    ∷ bit_and len 0xff
    ∷ (if is_first flags then total_bytes total else [])

unfoldable pub header_size : ℕ → ℕ
unfolding is_first
header_size flags = if is_first flags then 8 else 4

pub data SendError : Type 0 where
  ssl_write_error bio_read_error : SendError

-- What one call gives its caller: nothing within a second, bytes for the USB endpoint, or an
-- exception.
pub data Sent : Type 0 where
  timed_out : Sent
  sent : List ℕ → Sent
  threw : SendError → Sent

pub plain_frame : Message → List ℕ
plain_frame m = push_back_int16 (m.channel ∷ m.flags ∷ []) (length m.content % 2 ^ 16) ++ m.content

module _ (tls : Tls) where
  open tls use {Session, ssl_write, bio_read}

  pub record Outbox : Type 0 where
    pub queue : List Message
    pub session : Session

  -- The header in front of what `BIO_read` gave.
  put_header : Message → ℕ → List Message → Option (List ℕ) × Session → Sent × Outbox
  put_header m flags queue (none, s) = (threw bio_read_error, record { queue = queue; session = s })
  put_header m flags queue (some body, s) = (
    sent (header m.channel flags (length body) (length m.content % 2 ^ 32) ++ body),
    record { queue = queue; session = s },
  )

  -- `room` gives the space for the ciphertext behind a header of some size.
  read_record : (room : ℕ → ℕ) → Message → ℕ → List Message → Bool × Session → Sent × Outbox
  unfolding put_header
  read_record room m flags queue (false, s) =
      (threw ssl_write_error, record { queue = queue; session = s })
  read_record room m flags queue (true, s) =
      put_header m flags queue (bio_read s (room (header_size flags)))

  pub send_front : ℕ → (room : ℕ → ℕ) → Message → List Message → Session → Sent × Outbox
  unfolding read_record is_encrypted
  send_front max_size room m rest s =
      if is_encrypted m.flags
      then read_record room m (cut max_size m).frame_flags ((cut max_size m).remaining ++ rest)
          (ssl_write s (cut max_size m).chunk)
      else (sent (plain_frame m), record { queue = rest; session = s })

  pub next_frame : ℕ → (room : ℕ → ℕ) → Outbox → Sent × Outbox
  next_frame max_size room o = elim o.queue [
    | [] ↦ (timed_out, o)
    | m ∷ rest ↦ send_front max_size room m rest o.session
  ]
