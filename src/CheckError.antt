-- ===== src/CheckError.antt =====
-- src/utils.cpp: `checkError`, which reads the result of a system call.
use aacs.Prelude.{
  ◌≤◌, ◌≡◌, refl, min, length, take, take_all, arith, ℕ, zero, suc, Bool, false, List, [], ◌∷◌,
  ◌||◌, ◌==◌, if◌then◌else◌,
}

-- A ssize_t result: a count, or a negative number with `errno`.
pub data IoReturn : Type 0 where
  count : ℕ → IoReturn
  failed : ℕ → IoReturn

-- What `checkError` makes of it: a positive count, -1, 0, or an exception.
pub data Checked : Type 0 where
  moved : ℕ → Checked
  minus_one nothing exception : Checked

abbrev pub eintr : ℕ
eintr = 4

abbrev pub eagain : ℕ
eagain = 11

is_ignored : ℕ → List ℕ → Bool
is_ignored errno [] = false
is_ignored errno (e ∷ es) = errno == e || is_ignored errno es

unfoldable pub check_error : IoReturn → List ℕ → Checked
unfolding is_ignored
check_error (count zero) ignored = minus_one
check_error (count (suc n)) ignored = moved (suc n)
check_error (failed errno) ignored = if is_ignored errno ignored then nothing else exception

-- One `read` of what the other side has written, into a buffer of so many bytes: what it returns,
-- and what is then in the buffer. What does not fit is left for the next read.
abbrev pub one_read : ℕ → List ℕ → IoReturn × List ℕ
one_read size bytes = (count (min size (length bytes)), take size bytes)

pub one_read-whole :
    (size : ℕ) (bytes : List ℕ)
    → length bytes ≤ size
    → one_read size bytes ≡ (count (length bytes), bytes)
one_read-whole size bytes fits =
    let all_bytes : min size (length bytes) ≡ length bytes = omega arith in
    rw (all_bytes, take_all size bytes fits) refl
