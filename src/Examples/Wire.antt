-- ===== src/Examples/Wire.antt =====
-- The byte helpers at concrete numbers.
use aacs.Prelude.{◌≡◌, [], ◌∷◌, arith}
use aacs.Wire.Bytes.{out_of_bounds, bytes_to_uint64}
use aacs.Wire.Bytes.RoundTrip.{bytes_to_uint64_cases}

-- A vector of one byte, read at offset 2: the test for the size passes.
bytes_to_uint64_cases_example : bytes_to_uint64 (0 ∷ []) 2 ≡ out_of_bounds
bytes_to_uint64_cases_example = bytes_to_uint64_cases (0 ∷ []) 2 (omega arith) (omega arith)
