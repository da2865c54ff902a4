-- ===== src/Server/Pump.antt =====
-- `dataPump` of AAServer/src/AaCommunicator.cpp: what one side gives is written to the other until
-- all of it is taken. The two sides are functions of the thread's descriptor.
pub mod Progress
pub mod Frames
use aacs.Prelude.{
  ℕ, zero, suc, ◌+◌, ◌-◌, Bool, true, false, List, [], ◌∷◌, ◌==◌, if◌then◌else◌, drop, length,
}
use aacs.CheckError.{
  IoReturn, Checked, moved, minus_one, nothing, exception, eintr, eagain, check_error,
}

-- A call of `readFun` or `writeFun`: it returns, an exception leaves it, or it does what the source
-- leaves undefined (a null pointer, an access out of bounds), of which nothing is said further.
pub data Call : Type 0 where
  returned : IoReturn → Call
  raised crashes : Call

-- How one round of the pump, or its inner loop, ends. `underrun` is no outcome of the source's
-- own: after a result of -1 at the start of the buffer it passes a pointer before it. `stuck`
-- means that the fuel ran out. `crashed`: a call crashes, and with it the program.
pub data RoundEnd : Type 0 where
  next_round terminated ended_by_error crashed underrun stuck : RoundEnd

checked : IoReturn → Checked
checked r = check_error r (eintr ∷ eagain ∷ [])

module _ {ℓ} {S : Type ℓ} (write_fun : List ℕ → ℕ → S → Call × S) (check_terminate : S → Bool) where
  -- `again` is the loop from another start and length on; a count above the length makes the
  -- length negative, which ends the loop as 0 does.
  after_write : (again : ℕ → ℕ → S → RoundEnd × S) → ℕ → ℕ → Checked → S → RoundEnd × S
  after_write again start len exception s = (ended_by_error, s)
  after_write again start len (moved n) s =
      let rest = again (start + n) (len - n) s in
      if check_terminate s then (terminated, s) else rest
  after_write again start len nothing s =
      let rest = again start len s in if check_terminate s then (terminated, s) else rest
  after_write again zero len minus_one s =
      if check_terminate s then (terminated, s) else (underrun, s)
  after_write again (suc start) len minus_one s =
      let rest = again start (len + 1) s in if check_terminate s then (terminated, s) else rest

  after_call : (again : ℕ → ℕ → S → RoundEnd × S) → ℕ → ℕ → Call → S → RoundEnd × S
  unfolding after_write checked
  after_call again start len (returned r) s = after_write again start len (checked r) s
  after_call again start len raised s = (ended_by_error, s)
  after_call again start len crashes s = (crashed, s)

  -- `while (length > 0)`.
  unfoldable pub write_loop : ℕ → List ℕ → ℕ → ℕ → S → RoundEnd × S
  unfolding after_call
  write_loop fuel buffer start zero s = (next_round, s)
  write_loop zero buffer start (suc len) s = (stuck, s)
  write_loop (suc fuel) buffer start (suc len) s =
      let (r, s1) = write_fun (drop start buffer) (suc len) s in
      after_call (λ start' len' s'. write_loop fuel buffer start' len' s') start (suc len) r s1

  round_of : ℕ → List ℕ → Checked → S → RoundEnd × S
  unfolding write_loop
  round_of fuel buffer exception s = (ended_by_error, s)
  round_of fuel buffer (moved n) s =
      let loop = write_loop fuel buffer 0 n s in if check_terminate s then (terminated, s) else loop
  round_of fuel buffer nothing s = (if check_terminate s then terminated else next_round, s)
  round_of fuel buffer minus_one s = (if check_terminate s then terminated else next_round, s)

  -- One round of `for (;;)`, on what `readFun` returned and left in the buffer.
  unfoldable pub pump_round : ℕ → Call → List ℕ → S → RoundEnd × S
  unfolding round_of checked
  pump_round fuel (returned r) buffer s = round_of fuel buffer (checked r) s
  pump_round fuel raised buffer s = (ended_by_error, s)
  pump_round fuel crashes buffer s = (crashed, s)

  -- The rounds over the reads that come, until one ends the thread.
  pub data_pump : ℕ → List (Call × List ℕ) → S → RoundEnd × S
  data_pump fuel [] s = (next_round, s)
  data_pump fuel ((read, buffer) ∷ reads) s =
      let (e, s1) = pump_round fuel read buffer s in
      let rest = data_pump fuel reads s1 in elim e [ next_round ↦ rest | other ↦ (other, s1) ]
