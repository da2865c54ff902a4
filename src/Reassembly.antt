-- ===== src/Reassembly.antt =====
-- How frames become a message again: `getMessage` of AAClient/src/AaCommunicator.cpp, over the USB
-- transfers that arrive.
pub mod Reading
use aacs.Prelude.{
  ℕ, ◌+◌, ◌-◌, ◌^◌, ◌<◌, bit_or, Bool, true, false, List, [], ◌∷◌, ◌++◌, length, drop, ltb, ◌==◌,
  if◌then◌else◌, Option, none, some, not, bit_and,
}
use aacs.Wire.Codes.{bulk}
use aacs.Wire.Bytes.{byte_at, join16, join32}
use aacs.Tls.{Tls}
use aacs.Frame.{Message, message, is_encrypted, is_first, header_size}

-- `libusb_bulk_transfer`: a result other than 0, or the bytes.
pub data Transfer : Type 0 where
  failed : ℕ → Transfer
  received : List ℕ → Transfer

-- `length_error` is what `vector(buffer + offset, buffer + transferred)` throws for an end before
-- the start; the others are the source's own.
pub data ReceiveError : Type 0 where
  in_transfer_failed length_error wrong_length bio_write_failed ssl_read_failed : ReceiveError

-- A frame as read: `total` is the number that a first frame announces.
pub record Frame : Type 0 where
  pub channel : ℕ
  pub flags : ℕ
  pub total : Option ℕ
  pub body : List ℕ

pub data FrameResult : Type 0 where
  frame : Frame → FrameResult
  bad : ReceiveError → FrameResult

-- An int of this bit pattern, converted to size_t.
int_to_size : ℕ → ℕ
int_to_size n = if ltb n (2 ^ 31) then n else n + 2 ^ 64 - 2 ^ 32

-- Bytes 2 and 3 of a transfer that is shorter are stale, and not used: the vector's range is then
-- empty in the wrong direction, and its constructor throws first.
pub read_frame : Transfer → FrameResult
unfolding int_to_size
read_frame (failed result) = bad in_transfer_failed
read_frame (received bytes) =
    if ltb (length bytes) 2
    then bad in_transfer_failed
    else if ltb (length bytes) start
    then bad length_error
    else if join16 (byte_at bytes 2) (byte_at bytes 3) == length (drop start bytes)
    then frame (record {
      channel = byte_at bytes 0;
      flags = flags;
      total =
          if is_first flags
          then some (
              int_to_size
                (join32 (byte_at bytes 4) (byte_at bytes 5) (byte_at bytes 6) (byte_at bytes 7)))
          else none;
      body = drop start bytes;
    })
    else bad wrong_length
  where
    flags : ℕ
    flags = byte_at bytes 1

    start : ℕ
    start = header_size flags

pub data Received : Type 0 where
  -- The transfers ran out: the call is still waiting.
  waiting : Received
  got : Message → Received
  threw : ReceiveError → Received

pub data Plain : Type 0 where
  plain : List ℕ → Plain
  error : ReceiveError → Plain

module _ (tls : Tls) where
  open tls use {Session, bio_write, ssl_read}

  read_plain : Option (List ℕ) × Session → Plain × Session
  read_plain (none, s) = (error ssl_read_failed, s)
  read_plain (some p, s) = (plain p, s)

  decrypt_with : ℕ → Bool × Session → Plain × Session
  unfolding read_plain
  decrypt_with size (false, s) = (error bio_write_failed, s)
  decrypt_with size (true, s) = read_plain (ssl_read s size)

  -- `decryptMessage`, with the size of its buffer.
  pub decrypt_message : ℕ → List ℕ → Session → Plain × Session
  unfolding decrypt_with
  decrypt_message size encrypted_msg s = decrypt_with size (bio_write s encrypted_msg)

  pub content_of : Frame → Session → Plain × Session
  content_of f s =
      if is_encrypted f.flags then decrypt_message 20000 f.body s else (plain f.body, s)

  abbrev pub total_after : Frame → ℕ → ℕ
  total_after f total = elim f.total [ none ↦ total | some n ↦ n ]

  -- `more` is the next round of the loop. The third part of the result is the transfers left.
  after_plain :
      (more : Session → List ℕ → ℕ → Received × Session × List Transfer)
      → List Transfer
      → Frame
      → List ℕ
      → ℕ
      → Plain × Session
      → Received × Session × List Transfer
  after_plain more ts f full total (error e, s) = (threw e, s, ts)
  after_plain more ts f full total (plain p, s) =
      let again = more s (full ++ p) (total_after f total) in
      if ltb (length (full ++ p)) (total_after f total)
      then again
      else (got (message f.channel (bit_or f.flags bulk) (full ++ p)), s, ts)

  after_frame :
      (more : Session → List ℕ → ℕ → Received × Session × List Transfer)
      → List Transfer
      → Session
      → List ℕ
      → ℕ
      → FrameResult
      → Received × Session × List Transfer
  unfolding after_plain
  after_frame more ts s full total (bad e) = (threw e, s, ts)
  after_frame more ts s full total (frame f) = after_plain more ts f full total (content_of f s)

  -- The loop of `getMessage`, with `fullContent` and `totalLength`.
  pub receive_loop : List Transfer → Session → List ℕ → ℕ → Received × Session × List Transfer
  unfolding after_frame
  receive_loop [] s full total = (waiting, s, [])
  receive_loop (t ∷ ts) s full total =
      after_frame (λ s' full' total'. receive_loop ts s' full' total') ts s full total
        (read_frame t)

  unfoldable pub get_message : List Transfer → Session → Received × Session × List Transfer
  get_message ts s = receive_loop ts s [] 0
