-- ===== src/Client/Socket/Writing.antt =====
-- The callback of `channelMessage` in AAClient/main.cpp: the packet is written until it is gone.
use aacs.Prelude.{
  ℕ, zero, suc, ◌≡◌, refl, Bool, true, false, ◌||◌, List, [], ◌∷◌, ◌++◌, length, All, ◌==◌,
  if◌then◌else◌, arith,
}
use aacs.CheckError.{
  IoReturn, count, failed, Checked, moved, minus_one, nothing, exception, eintr, eagain,
  check_error,
}
use aacs.Client.Setup.{ChannelMessage}
use aacs.Client.Socket.{raw_packet}

-- How the loop ends: by `break`, by an exception, or not yet, when the results so far are used up.
pub data WriteEnd : Type 0 where
  sent threw writing : WriteEnd

after_write : ℕ → Checked → WriteEnd → WriteEnd
after_write size nothing again = again
after_write size (moved n) again = if n == size then sent else threw
after_write size minus_one again = threw
after_write size exception again = threw

-- `while (true)` over what `write` returns, call by call.
write_packet : List ℕ → List IoReturn → WriteEnd
unfolding after_write
write_packet message [] = writing
write_packet message (r ∷ rs) =
    after_write (length message) (check_error r (eagain ∷ eintr ∷ [])) (write_packet message rs)

unfoldable pub channel_message_written : ChannelMessage → List IoReturn → WriteEnd
unfolding write_packet
channel_message_written m rs = write_packet (raw_packet m) rs

-- A failure that the loop answers with another try.
abbrev pub is_interrupted : IoReturn → Bool
is_interrupted (count n) = false
is_interrupted (failed e) = e == eagain || e == eintr

abbrev pub is_whole : ℕ → IoReturn → Bool
is_whole size (count n) = n == size
is_whole size (failed e) = false

tries_again :
    (message : List ℕ) (r : IoReturn) (rs : List IoReturn)
    → is_interrupted r ≡ true
    → write_packet message (r ∷ rs) ≡ write_packet message rs
unfolding write_packet check_error
tries_again message (count n) rs h = ground arith
tries_again message (failed e) rs h = ground arith

decides :
    (m : ChannelMessage) (r : IoReturn) (rs : List IoReturn)
    → is_interrupted r ≡ false
    → write_packet (raw_packet m) (r ∷ rs)
      ≡ (if is_whole (length (raw_packet m)) r then sent else threw)
unfolding write_packet check_error raw_packet
decides m (count zero) rs h = ground arith
decides m (count (suc n)) rs h = ground arith
decides m (failed e) rs h = ground arith

interrupted_writes :
    (message : List ℕ) (fails rs : List IoReturn)
    → All (λ r. is_interrupted r ≡ true) fails
    → write_packet message (fails ++ rs) ≡ write_packet message rs
interrupted_writes message [] rs h = refl
interrupted_writes message (r ∷ fails) rs (h, hs) =
    rw (tries_again message r (fails ++ rs) h) (interrupted_writes message fails rs hs)

-- However often `write` is interrupted or would block, AAClient tries again, and the first other
-- result decides: the loop is left when it is the size of the packet, and else, for a part of the
-- packet, for no bytes, or for any other error, an exception is thrown.
pub first_result_decides :
    (m : ChannelMessage) (fails : List IoReturn) (r : IoReturn) (later : List IoReturn)
    → All (λ f. is_interrupted f ≡ true) fails
    → is_interrupted r ≡ false
    → channel_message_written m (fails ++ r ∷ later)
      ≡ (if is_whole (length (raw_packet m)) r then sent else threw)
unfolding channel_message_written
first_result_decides m fails r later h e =
    rw (interrupted_writes (raw_packet m) fails (r ∷ later) h) (decides m r later e)
