-- ===== src/Wire/Bytes.antt =====
-- src/utils.cpp: numbers written into a vector and read from it, highest byte first.
pub mod RoundTrip
use aacs.Prelude.{
  ℕ, ◌+◌, ◌-◌, ◌*◌, ◌/◌, ◌%◌, ◌^◌, ◌<◌, bit_and, bit_or, List, [], ◌∷◌, ◌++◌, length, get_or, ltb,
  if◌then◌else◌,
}

abbrev pub IsByte : ℕ → Type 0
IsByte b = b < 256

-- A uint8_t that a wider number is stored in.
abbrev pub uint8 : ℕ → ℕ
uint8 n = n % 256

-- The byte at an index. The callers that read past the end of a vector read what happens to stand
-- there; here that is 0.
abbrev pub byte_at : List ℕ → ℕ → ℕ
byte_at bytes i = get_or bytes i 0

unfoldable pub push_back_int16 : List ℕ → ℕ → List ℕ
push_back_int16 vec num = vec ++ bit_and (num / 2 ^ 8) 0xff ∷ bit_and num 0xff ∷ []

unfoldable pub push_back_int64 : List ℕ → ℕ → List ℕ
push_back_int64 vec num =
    vec
    ++ bit_and (num / 2 ^ 56) 0xff
      ∷ bit_and (num / 2 ^ 48) 0xff
      ∷ bit_and (num / 2 ^ 40) 0xff
      ∷ bit_and (num / 2 ^ 32) 0xff
      ∷ bit_and (num / 2 ^ 24) 0xff
      ∷ bit_and (num / 2 ^ 16) 0xff
      ∷ bit_and (num / 2 ^ 8) 0xff
      ∷ bit_and num 0xff
      ∷ []

-- `b0 << 8 | b1`, which is also what `be16_to_cpu` makes of the first two bytes of a buffer.
pub join16 : ℕ → ℕ → ℕ
join16 b0 b1 = bit_or (b0 * 2 ^ 8) b1

-- `b0 << 24 | b1 << 16 | b2 << 8 | b3` for bytes.
pub join32 : ℕ → ℕ → ℕ → ℕ → ℕ
join32 b0 b1 b2 b3 = bit_or (bit_or (bit_or (b0 * 2 ^ 24) (b1 * 2 ^ 16)) (b2 * 2 ^ 8)) b3

-- `be16_to_cpu(shortView[0])`.
unfoldable pub front16 : List ℕ → ℕ
unfolding join16
front16 bytes = join16 (byte_at bytes 0) (byte_at bytes 1)

pub data Uint64Result : Type 0 where
  value : ℕ → Uint64Result
  vector_too_small out_of_bounds : Uint64Result

-- `b0 << 56 | b1 << 48 | … | b7`.
join64 : (b0 b1 b2 b3 b4 b5 b6 b7 : ℕ) → ℕ
join64 b0 b1 b2 b3 b4 b5 b6 b7 =
    let b01 = bit_or (b0 * 2 ^ 56) (b1 * 2 ^ 48) in
    let b03 = bit_or (bit_or b01 (b2 * 2 ^ 40)) (b3 * 2 ^ 32) in
    let b05 = bit_or (bit_or b03 (b4 * 2 ^ 24)) (b5 * 2 ^ 16) in bit_or (bit_or b05 (b6 * 2 ^ 8)) b7

pub join64_at : List ℕ → ℕ → ℕ
join64_at vec offset =
    join64 (byte_at vec (offset + 0)) (byte_at vec (offset + 1)) (byte_at vec (offset + 2))
      (byte_at vec (offset + 3)) (byte_at vec (offset + 4)) (byte_at vec (offset + 5))
      (byte_at vec (offset + 6)) (byte_at vec (offset + 7))

-- `vec.size() - offset` is computed in 64 bits without sign. `out_of_bounds` stands for an access
-- behind the vector's end, which the source does not check.
pub bytes_to_uint64 : List ℕ → ℕ → Uint64Result
bytes_to_uint64 vec offset =
    if ltb ((length vec + 2 ^ 64 - offset) % 2 ^ 64) 8
    then vector_too_small
    else if ltb (length vec) (offset + 8)
    then out_of_bounds
    else value (join64_at vec offset)
