-- ===== src/Prelude/Bits.antt =====
-- The masks that the program puts on one byte, as arithmetic: each is checked on all 256 values.
use Prim.Native.Nat.{ℕ, zero, suc, ◌+◌, ◌-◌, ◌*◌, ◌/◌, ◌%◌, ◌<◌, bit_and, bit_or}
use mathlib.Core.Path.{◌≡◌, refl}
use mathlib.Core.Bool.{Bool, true, ◌&&◌}
use native.Mathlib.Omega.{arith}
use aacs.Prelude.Tests.{◌==◌, ==_iff}

-- A test on the `n` numbers from 0 on.
passes : (ℕ → Bool) → ℕ → Bool
passes test zero = true
passes test (suc n) = passes test n && test n

passes_at : (test : ℕ → Bool) (n x : ℕ) → x < n → passes test n ≡ true → test x ≡ true
unfolding passes
passes_at test zero x below all = absurd (omega arith)
passes_at test (suc n) x below all = ground (arith, passes_at test n x)

-- Two functions of a byte that agree on every byte.
agree : (f g : ℕ → ℕ) → passes (λ x. f x == g x) 256 ≡ true → (x : ℕ) → x < 256 → f x ≡ g x
agree f g h x lt = (==_iff _ _).0 (passes_at _ 256 x lt h)

pub frame_bits : (x : ℕ) → x < 256 → bit_and x 3 ≡ x % 4
unfolding passes
frame_bits = agree _ _ refl

pub clear_frame_bits : (x : ℕ) → x < 256 → bit_and x 0xfc ≡ x - x % 4
unfolding passes
clear_frame_bits = agree _ _ refl

pub encrypted_bit : (x : ℕ) → x < 256 → bit_and x 8 ≡ x / 8 % 2 * 8
unfolding passes
encrypted_bit = agree _ _ refl

pub specific_bit : (x : ℕ) → x < 256 → bit_and x 4 ≡ x / 4 % 2 * 4
unfolding passes
specific_bit = agree _ _ refl

pub set_first : (x : ℕ) → x < 256 → bit_or x 1 ≡ x - x % 2 + 1
unfolding passes
set_first = agree _ _ refl

pub set_last : (x : ℕ) → x < 256 → bit_or x 2 ≡ x + 2 - x / 2 % 2 * 2
unfolding passes
set_last = agree _ _ refl

pub set_bulk : (x : ℕ) → x < 256 → bit_or x 3 ≡ x - x % 4 + 3
unfolding passes
set_bulk = agree _ _ refl
