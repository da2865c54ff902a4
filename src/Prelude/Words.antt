-- ===== src/Prelude/Words.antt =====
-- Laws of `&` and `|` on words of any width, from the digits that the native operations stand for.
use Prim.Native.Nat.{
  ℕ, zero, suc, ◌+◌, ◌-◌, ◌*◌, ◌/◌, ◌%◌, ◌^◌, ◌≤◌, ◌<◌, min, max, bit_and, bit_or, digits,
  bit_and-bitwise, bit_or-bitwise,
}
use mathlib.Core.Path.{◌≡◌, refl, ◌∙◌}
use native.Mathlib.Omega.{arith}
use native.Mathlib.Nat.{pow-suc}

-- Any operation on binary digits: a count of digits that covers the first number is enough.
module _ (z : ℕ → ℕ) (op : ℕ → ℕ → ℕ) where
  one_more : (n x y : ℕ) → x ≤ n → digits z op (suc n) x y ≡ digits z op n x y
  one_more zero zero y covers = refl
  one_more (suc n) zero y covers = refl
  one_more zero (suc x) y covers = absurd (omega arith)
  one_more (suc n) (suc x) y covers = omega (arith, one_more n (suc x / 2) (y / 2) (omega arith))

  many_more : (k x y : ℕ) → digits z op (x + k) x y ≡ digits z op x x y
  many_more zero x y = let same : x + 0 ≡ x = omega arith in rw same refl
  many_more (suc k) x y =
      let next : x + suc k ≡ suc (x + k) = omega arith in
      rw next (one_more (x + k) x y (omega arith) ∙ many_more k x y)

  covered : (n x y : ℕ) → x ≤ n → digits z op n x y ≡ digits z op x x y
  covered n x y h =
      let spare : n ≡ x + (n - x) = omega arith in
      let all : digits z op (x + (n - x)) x y ≡ digits z op x x y = many_more (n - x) x y in
      rw spare all

  last_digit :
      (x y : ℕ)
      → digits z op (suc x) (suc x) y
        ≡ 2 * digits z op (suc x / 2) (suc x / 2) (y / 2) + op (suc x % 2) (y % 2)
  last_digit x y = let fewer = covered x (suc x / 2) (y / 2) (omega arith) in omega (arith, fewer)

no_ones : (n x : ℕ) → digits (λ y. 0) min n x 0 ≡ 0
no_ones zero x = refl
no_ones (suc n) zero = refl
no_ones (suc n) (suc x) = omega (arith, no_ones n (suc x / 2))

and_last : (x y : ℕ) → bit_and x y ≡ 2 * bit_and (x / 2) (y / 2) + min (x % 2) (y % 2)
and_last zero y = rw (bit_and-bitwise 0 y, bit_and-bitwise 0 (y / 2)) (omega arith)
and_last (suc x) y =
    let halves = bit_and-bitwise (suc x / 2) (y / 2) in
    omega (arith, last_digit (λ d. 0) min x y, bit_and-bitwise (suc x) y, halves)

and_nothing : (x : ℕ) → bit_and x 0 ≡ 0
and_nothing x = bit_and-bitwise x 0 ∙ no_ones x x

-- A mask of four ones keeps a hexadecimal digit.
and_nibble : (x : ℕ) → bit_and x 15 ≡ x % 16
and_nibble x = omega (
  arith,
  and_nothing (x / 2 / 2 / 2 / 2),
  and_last (x / 2 / 2 / 2) 1,
  and_last (x / 2 / 2) 3,
  and_last (x / 2) 7,
  and_last x 15,
)

pub bit_and_byte : (a : ℕ) → bit_and a 0xff ≡ a % 256
bit_and_byte x = omega (
  arith,
  and_nibble (x / 2 / 2 / 2 / 2),
  and_last (x / 2 / 2 / 2) 31,
  and_last (x / 2 / 2) 63,
  and_last (x / 2) 127,
  and_last x 255,
)

same_ones : (n x : ℕ) → x ≤ n → digits (λ y. y) max n x 0 ≡ x
same_ones zero zero h = refl
same_ones (suc n) zero h = refl
same_ones zero (suc x) h = absurd (omega arith)
same_ones (suc n) (suc x) h = omega (arith, same_ones n (suc x / 2) (omega arith))

or_nothing : (x : ℕ) → bit_or x 0 ≡ x
or_nothing x = bit_or-bitwise x 0 ∙ same_ones x x (omega arith)

or_last : (x y : ℕ) → bit_or x y ≡ 2 * bit_or (x / 2) (y / 2) + max (x % 2) (y % 2)
or_last zero y = rw (bit_or-bitwise 0 y, bit_or-bitwise 0 (y / 2)) (omega arith)
or_last (suc x) y =
    let halves = bit_or-bitwise (suc x / 2) (y / 2) in
    omega (arith, last_digit (λ d. d) max x y, bit_or-bitwise (suc x) y, halves)

bit_or_double : (x b : ℕ) → bit_or (x * 2) b ≡ bit_or x (b / 2) * 2 + b % 2
bit_or_double x b =
    let e : x * 2 / 2 ≡ x = omega arith in
    let step : bit_or (x * 2) b ≡ 2 * bit_or x (b / 2) + max (x * 2 % 2) (b % 2) =
      rw e at (or_last (x * 2) b) in
    omega arith

-- `a << k | b` is a sum where `b` has at most k digits.
pub bit_or-shift : (k a b : ℕ) → b < 2 ^ k → bit_or (a * 2 ^ k) b ≡ a * 2 ^ k + b
bit_or-shift zero a b h =
    let e : b ≡ 0 = omega arith in rw e (omega (arith, or_nothing (a * 2 ^ 0)))
bit_or-shift (suc k) a b h =
    let p : 2 ^ suc k ≡ 2 ^ k * 2 = pow-suc 2 k in
    let e : a * 2 ^ suc k ≡ a * 2 ^ k * 2 = rw p (omega arith) in
    rw e (omega (arith, bit_or_double (a * 2 ^ k) b, bit_or-shift k a (b / 2) (omega arith)))
