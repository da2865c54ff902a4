-- ===== src/Frame/Sending.antt =====
-- One call of the sender over an established TLS link.
use aacs.Prelude.{ℕ, ◌≤◌, ◌≡◌, refl, ◌<◌, true, false, arith, List, [], ◌∷◌, ◌++◌, length, ◌%◌, ◌^◌}
use aacs.Prelude.Words.{bit_and_byte}
use aacs.Wire.Bytes.RoundTrip.{push_back_int16_bytes}
use aacs.Tls.{Tls, Delivery}
use aacs.Frame.{
  Message, is_encrypted, is_first, plain_frame, cut, header, header_size, sent, send_front,
  next_frame,
}

module _ (tls : Tls) (Synced : tls.Session → tls.Session → Type 0) (overhead : ℕ) where
  pub next_frame_encrypted :
      (max_size : ℕ) (room : ℕ → ℕ) (m : Message) (rest : List Message) (s r : tls.Session)
      (d : Delivery tls Synced overhead s r (cut max_size m).chunk)
      → is_encrypted m.flags ≡ true
      → length d.cipher ≤ room (header_size (cut max_size m).frame_flags)
      → next_frame tls max_size room (record { queue = m ∷ rest; session = s }) ≡ (
        sent (
            header m.channel
              (cut max_size m).frame_flags
              (length d.cipher)
              (length m.content % 2 ^ 32)
            ++ d.cipher),
        record { queue = (cut max_size m).remaining ++ rest; session = d.sent },
      )
  unfolding next_frame send_front
  next_frame_encrypted max_size room m rest s r d e h =
      rw (e, d.on_write, d.on_bio_read (room (header_size (cut max_size m).frame_flags)) h) refl

module _ (tls : Tls) where
  pub next_frame_plain :
      (max_size : ℕ) (room : ℕ → ℕ) (m : Message) (rest : List Message) (s : tls.Session)
      → is_encrypted m.flags ≡ false
      → is_first m.flags ≡ false
      → length m.content < 2 ^ 16
      → next_frame tls max_size room (record { queue = m ∷ rest; session = s }) ≡ (
        sent (header m.channel m.flags (length m.content) 0 ++ m.content),
        record { queue = rest; session = s },
      )
  unfolding next_frame send_front plain_frame header
  next_frame_plain max_size room m rest s e f h =
      let small : length m.content % 2 ^ 16 ≡ length m.content = omega arith in
      rw (e, f, small, push_back_int16_bytes (m.channel ∷ m.flags ∷ []) (length m.content))
        (rw (bit_and_byte (length m.content)) refl)
