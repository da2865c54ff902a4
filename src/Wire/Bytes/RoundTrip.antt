-- ===== src/Wire/Bytes/RoundTrip.antt =====
-- What the byte helpers of src/utils.cpp write, they and their peers read back.
use aacs.Prelude.{
  ℕ, ◌+◌, ◌*◌, ◌/◌, ◌%◌, ◌^◌, ◌<◌, ◌≡◌, refl, ◌∙◌, bit_or, List, [], ◌∷◌, ◌++◌, length,
  get_or-append, length-append, append_assoc, leb, if◌then◌else◌, arith,
}
use aacs.Prelude.Words.{bit_and_byte, bit_or-shift}
use aacs.Wire.Bytes.{
  IsByte, byte_at, push_back_int16, push_back_int64, join16, join32, front16, value,
  vector_too_small, out_of_bounds, join64, join64_at, bytes_to_uint64,
}

pub join16-sum : (b0 b1 : ℕ) → IsByte b1 → join16 b0 b1 ≡ b0 * 256 + b1
unfolding join16
join16-sum b0 b1 h = bit_or-shift 8 b0 b1 h

or_group : (k a b c : ℕ) → c ≡ a * 2 ^ k → b < 2 ^ k → bit_or c b ≡ c + b
or_group k a b c e h = rw e (bit_or-shift k a b h)

pub join32-sum :
    (b0 b1 b2 b3 : ℕ)
    → IsByte b1
    → IsByte b2
    → IsByte b3
    → join32 b0 b1 b2 b3 ≡ b0 * 2 ^ 24 + b1 * 2 ^ 16 + b2 * 2 ^ 8 + b3
unfolding join32
join32-sum b0 b1 b2 b3 h1 h2 h3 =
    rw
      (
        or_group 24 b0 (b1 * 2 ^ 16) _ refl (omega arith),
        or_group 16 (b0 * 2 ^ 8 + b1) (b2 * 2 ^ 8) (b0 * 2 ^ 24 + b1 * 2 ^ 16) (omega arith)
            (omega arith),
        or_group 8 (b0 * 2 ^ 16 + b1 * 2 ^ 8 + b2) b3 (b0 * 2 ^ 24 + b1 * 2 ^ 16 + b2 * 2 ^ 8)
            (omega arith) h3,
      )
      refl

pub push_back_int16_bytes :
    (vec : List ℕ) (n : ℕ) → push_back_int16 vec n ≡ vec ++ n / 256 % 256 ∷ n % 256 ∷ []
unfolding push_back_int16
push_back_int16_bytes vec n = rw (bit_and_byte (n / 2 ^ 8), bit_and_byte n) refl

pub front16_bytes :
    (n : ℕ) (rest : List ℕ) → n < 2 ^ 16 → front16 (n / 256 % 256 ∷ n % 256 ∷ rest) ≡ n
unfolding front16
front16_bytes n rest h = join16-sum (n / 256 % 256) (n % 256) (omega arith) ∙ omega arith

-- The number that `pushBackInt16` puts in front of a message is what `be16_to_cpu` reads there,
-- for every 16-bit number and whatever follows it.
front16-push_back_int16 :
    (n : ℕ) (rest : List ℕ) → n < 2 ^ 16 → front16 (push_back_int16 [] n ++ rest) ≡ n
front16-push_back_int16 n rest h = rw (push_back_int16_bytes [] n) (front16_bytes n rest h)

-- The eight bytes of a 64-bit number, highest first.
abbrev bytes64 : ℕ → List ℕ
bytes64 n =
    n / 2 ^ 56 % 256
    ∷ n / 2 ^ 48 % 256
    ∷ n / 2 ^ 40 % 256
    ∷ n / 2 ^ 32 % 256
    ∷ n / 2 ^ 24 % 256
    ∷ n / 2 ^ 16 % 256
    ∷ n / 2 ^ 8 % 256
    ∷ n % 256
    ∷ []

push_back_int64_bytes : (vec : List ℕ) (n : ℕ) → push_back_int64 vec n ≡ vec ++ bytes64 n
unfolding push_back_int64
push_back_int64_bytes vec n =
    rw
      (
        bit_and_byte (n / 2 ^ 56),
        bit_and_byte (n / 2 ^ 48),
        bit_and_byte (n / 2 ^ 40),
        bit_and_byte (n / 2 ^ 32),
        bit_and_byte (n / 2 ^ 24),
        bit_and_byte (n / 2 ^ 16),
        bit_and_byte (n / 2 ^ 8),
        bit_and_byte n,
      )
      refl

join64-sum :
    (b0 b1 b2 b3 b4 b5 b6 b7 : ℕ)
    → IsByte b1
    → IsByte b2
    → IsByte b3
    → IsByte b4
    → IsByte b5
    → IsByte b6
    → IsByte b7
    → join64 b0 b1 b2 b3 b4 b5 b6 b7
      ≡ b0 * 2 ^ 56
        + b1 * 2 ^ 48
        + b2 * 2 ^ 40
        + b3 * 2 ^ 32
        + b4 * 2 ^ 24
        + b5 * 2 ^ 16
        + b6 * 2 ^ 8
        + b7
unfolding join64
join64-sum b0 b1 b2 b3 b4 b5 b6 b7 h1 h2 h3 h4 h5 h6 h7 =
    rw
      (
        or_group 56 b0 (b1 * 2 ^ 48) (b0 * 2 ^ 56) refl (omega arith),
        or_group 48 (b0 * 2 ^ 8 + b1) (b2 * 2 ^ 40) (b0 * 2 ^ 56 + b1 * 2 ^ 48) (omega arith)
            (omega arith),
        or_group 40 (b0 * 2 ^ 16 + b1 * 2 ^ 8 + b2) (b3 * 2 ^ 32)
            (b0 * 2 ^ 56 + b1 * 2 ^ 48 + b2 * 2 ^ 40) (omega arith) (omega arith),
        or_group 32 (b0 * 2 ^ 24 + b1 * 2 ^ 16 + b2 * 2 ^ 8 + b3) (b4 * 2 ^ 24)
            (b0 * 2 ^ 56 + b1 * 2 ^ 48 + b2 * 2 ^ 40 + b3 * 2 ^ 32) (omega arith) (omega arith),
        or_group 24 (b0 * 2 ^ 32 + b1 * 2 ^ 24 + b2 * 2 ^ 16 + b3 * 2 ^ 8 + b4) (b5 * 2 ^ 16)
            (b0 * 2 ^ 56 + b1 * 2 ^ 48 + b2 * 2 ^ 40 + b3 * 2 ^ 32 + b4 * 2 ^ 24) (omega arith)
            (omega arith),
        or_group 16 (b0 * 2 ^ 40 + b1 * 2 ^ 32 + b2 * 2 ^ 24 + b3 * 2 ^ 16 + b4 * 2 ^ 8 + b5)
            (b6 * 2 ^ 8)
            (b0 * 2 ^ 56 + b1 * 2 ^ 48 + b2 * 2 ^ 40 + b3 * 2 ^ 32 + b4 * 2 ^ 24 + b5 * 2 ^ 16)
            (omega arith) (omega arith),
        or_group 8
            (b0 * 2 ^ 48 + b1 * 2 ^ 40 + b2 * 2 ^ 32 + b3 * 2 ^ 24 + b4 * 2 ^ 16 + b5 * 2 ^ 8 + b6)
            b7
            (b0 * 2 ^ 56
              + b1 * 2 ^ 48
              + b2 * 2 ^ 40
              + b3 * 2 ^ 32
              + b4 * 2 ^ 24
              + b5 * 2 ^ 16
              + b6 * 2 ^ 8)
            (omega arith) (omega arith),
      )
      refl

at_append : (xs ys : List ℕ) (i : ℕ) → byte_at (xs ++ ys) (length xs + i) ≡ byte_at ys i
at_append xs ys i = get_or-append xs ys i (length xs + i) 0 refl

digits64 :
    (n : ℕ)
    → n < 2 ^ 64
    → n / 2 ^ 56 % 256 * 2 ^ 56
        + n / 2 ^ 48 % 256 * 2 ^ 48
        + n / 2 ^ 40 % 256 * 2 ^ 40
        + n / 2 ^ 32 % 256 * 2 ^ 32
        + n / 2 ^ 24 % 256 * 2 ^ 24
        + n / 2 ^ 16 % 256 * 2 ^ 16
        + n / 2 ^ 8 % 256 * 2 ^ 8
        + n % 256
      ≡ n
digits64 n h = omega arith

join64_at_bytes :
    (vec rest : List ℕ) (n : ℕ)
    → n < 2 ^ 64
    → join64_at (vec ++ (bytes64 n ++ rest)) (length vec) ≡ n
unfolding join64_at
join64_at_bytes vec rest n h = simp at_append (
    join64-sum (n / 2 ^ 56 % 256) (n / 2 ^ 48 % 256) (n / 2 ^ 40 % 256) (n / 2 ^ 32 % 256)
      (n / 2 ^ 24 % 256) (n / 2 ^ 16 % 256) (n / 2 ^ 8 % 256) (n % 256) (omega arith) (omega arith)
      (omega arith) (omega arith) (omega arith) (omega arith) (omega arith)
    ∙ digits64 n h)

-- `bytesToUInt64` at the end of what stood before reads the number that `pushBackInt64` appended,
-- for every 64-bit number, if the vector is one that fits memory.
pub bytes_to_uint64-push_back_int64 :
    (vec rest : List ℕ) (n : ℕ)
    → n < 2 ^ 64
    → length vec + 8 + length rest < 2 ^ 64
    → bytes_to_uint64 (push_back_int64 vec n ++ rest) (length vec) ≡ value n
unfolding bytes_to_uint64
bytes_to_uint64-push_back_int64 vec rest n h fits =
    rw
      (push_back_int64_bytes vec n, append_assoc vec (bytes64 n) rest, join64_at_bytes vec rest n h)
      (ground (arith, length-append vec (bytes64 n ++ rest)))

-- `bytesToUInt64` reads the eight bytes if they stand in the vector, and refuses a vector that is
-- too short if the offset is at most its size. Behind that the difference wraps around, the test
-- passes, and it reads outside. The vector is smaller than 2^32 bytes and the offset not negative.
pub bytes_to_uint64_cases :
    (vec : List ℕ) (offset : ℕ)
    → length vec < 2 ^ 32
    → offset < 2 ^ 31
    → bytes_to_uint64 vec offset ≡ (
        if leb (offset + 8) (length vec)
        then value (join64_at vec offset)
        else if leb offset (length vec)
        then vector_too_small
        else out_of_bounds)
unfolding bytes_to_uint64
bytes_to_uint64_cases vec offset small low = ground arith
