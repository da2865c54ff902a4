-- ===== src/Frame/Cuts.antt =====
-- The four branches of the cut, by what they do to the flags and the offset of a message.
use aacs.Prelude.{
  ℕ, ◌+◌, ◌-◌, ◌/◌, ◌%◌, ◌^◌, ◌≤◌, ◌<◌, ◌≡◌, [], ◌∷◌, length, drop, take, ◌==◌, if◌then◌else◌,
  arith,
}
use aacs.Prelude.Bits.{frame_bits, clear_frame_bits, encrypted_bit, set_first, set_last}
use aacs.Frame.{Message, is_encrypted, is_first, size_left, cut, header_size}

-- The flag tests as arithmetic.
pub is_encrypted_iff : (f : ℕ) → f < 256 → is_encrypted f ≡ (f / 8 % 2 == 1)
unfolding is_encrypted
is_encrypted_iff f h = ground (arith, encrypted_bit f h)

pub is_first_iff : (f : ℕ) → f < 256 → is_first f ≡ (f % 4 == 1)
unfolding is_first
is_first_iff f h = ground (arith, frame_bits f h)

pub header_size_iff : (f : ℕ) → f < 256 → header_size f ≡ (if f % 4 == 1 then 8 else 4)
unfolding header_size
header_size_iff f h = ground (arith, is_first_iff f h)

-- A message that the sender can be in the middle of: a byte of flags, an offset within the content.
pub record IsSendable (m : Message) : Type 0 where
  pub byte_flags : m.flags < 256
  pub within : m.offset ≤ length m.content
  pub small : length m.content < 2 ^ 31

size_left-sub : (m : Message) → IsSendable m → size_left m ≡ length m.content - m.offset
unfolding size_left
size_left-sub m v = omega arith

module _ (max_size : ℕ) (m : Message) (v : IsSendable m) where
  pub cut_full :
      m.flags % 4 ≡ 3
      → length m.content - m.offset ≤ max_size
      → cut max_size m
        ≡ record { frame_flags = m.flags; chunk = drop m.offset m.content; remaining = [] }
  unfolding cut
  cut_full b h = ground (arith, frame_bits m.flags v.byte_flags, size_left-sub m v)

  pub cut_first :
      m.flags % 4 ≡ 3
      → max_size < length m.content - m.offset
      → cut max_size m ≡ record {
        frame_flags = m.flags - 2;
        chunk = take max_size (drop m.offset m.content);
        remaining = record m { flags = m.flags - 3; offset = m.offset + max_size } ∷ [];
      }
  unfolding cut
  cut_first b h = ground (
    arith,
    frame_bits m.flags v.byte_flags,
    size_left-sub m v,
    clear_frame_bits m.flags v.byte_flags,
    set_first (m.flags - 3) (omega arith),
    clear_frame_bits (m.flags - 2) (omega arith),
  )

  pub cut_middle :
      m.flags % 4 ≡ 0
      → max_size < length m.content - m.offset
      → cut max_size m ≡ record {
        frame_flags = m.flags;
        chunk = take max_size (drop m.offset m.content);
        remaining = record m { offset = m.offset + max_size } ∷ [];
      }
  unfolding cut
  cut_middle b h = ground (
    arith,
    frame_bits m.flags v.byte_flags,
    size_left-sub m v,
    clear_frame_bits m.flags v.byte_flags,
  )

  pub cut_last :
      m.flags % 4 ≡ 0
      → length m.content - m.offset ≤ max_size
      → cut max_size m
        ≡ record { frame_flags = m.flags + 2; chunk = drop m.offset m.content; remaining = [] }
  unfolding cut
  cut_last b h =
      ground
        (arith, frame_bits m.flags v.byte_flags, size_left-sub m v, set_last m.flags v.byte_flags)
