-- ===== src/Server/Pump/Progress.antt =====
-- The pump's inner loop with a writer that makes progress, and with one that returns 0.
use aacs.Prelude.{
  ℕ, zero, suc, ◌+◌, ◌-◌, ◌≤◌, ◌<◌, ◌≡◌, refl, sym, ap, ◌∙◌, false, List, ◌++◌, append_assoc,
  append-nil, take, drop, drop-drop, take-append-take, arith,
}
use aacs.CheckError.{count, check_error}
use aacs.Server.Pump.{
  Call, returned, next_round, underrun, write_loop, raised, ended_by_error, crashes, crashed,
}

module _ {ℓ} {S : Type ℓ} (write_fun : List ℕ → ℕ → S → Call × S) where
  -- A writer that takes between one byte and all that it is offered, the first ones, on each
  -- call. `taken` is what it has taken so far.
  pub record MakesProgress : Type ℓ where
    pub taken : S → List ℕ
    pub amount : List ℕ → ℕ → S → ℕ
    pub at_most : (buf : List ℕ) (len : ℕ) (s : S) → 0 < len → amount buf len s < len
    pub returns_count :
        (buf : List ℕ) (len : ℕ) (s : S)
        → 0 < len
        → (write_fun buf len s).0 ≡ returned (count (suc (amount buf len s)))
    pub takes :
        (buf : List ℕ) (len : ℕ) (s : S)
        → 0 < len
        → taken (write_fun buf len s).1 ≡ taken s ++ take (suc (amount buf len s)) buf

  -- The bytes of a call, and those of the later ones.
  taken_step :
      (buffer old : List ℕ) (start len n : ℕ)
      → n < len
      → (old ++ take (suc n) (drop start buffer))
          ++ take (len - suc n) (drop (start + suc n) buffer)
        ≡ old ++ take len (drop start buffer)
  taken_step buffer old start len n h =
      append_assoc old (take (suc n) (drop start buffer))
        (take (len - suc n) (drop (start + suc n) buffer))
      ∙ ap (λ t. old ++ t)
          (rw (← drop-drop (suc n) start (start + suc n) buffer refl)
            (take-append-take (suc n) (len - suc n) len (drop start buffer) (omega arith)))

  -- With a writer that makes progress on every call the loop ends normally, whatever the buffer,
  -- and the writer has then taken all of it, each byte once and in order: a round for each byte
  -- is enough. No other thread has ended the communication meanwhile.
  write_loop_delivers :
      (p : MakesProgress) (fuel : ℕ) (buffer : List ℕ) (start len : ℕ) (s : S)
      → len ≤ fuel
      → ((write_loop write_fun (λ _. false) fuel buffer start len s).0 ≡ next_round)
        × (p.taken (write_loop write_fun (λ _. false) fuel buffer start len s).1
            ≡ p.taken s ++ take len (drop start buffer))
  unfolding write_loop check_error
  write_loop_delivers p fuel buffer start zero s h = (refl, sym (append-nil (p.taken s)))
  write_loop_delivers p zero buffer start (suc len) s h = absurd (omega arith)
  write_loop_delivers p (suc fuel) buffer start (suc len) s h =
      let n = p.amount (drop start buffer) (suc len) s in
      let s1 = (write_fun (drop start buffer) (suc len) s).1 in
      let rest =
        write_loop_delivers p fuel buffer (start + suc n) (suc len - suc n) s1 (omega arith) in
      rw (p.returns_count (drop start buffer) (suc len) s (omega arith)) (
        rest.0,
        rest.1
            ∙ rw (p.takes (drop start buffer) (suc len) s (omega arith)) (
                taken_step buffer (p.taken s) start (suc len) n
                  (p.at_most (drop start buffer) (suc len) s (omega arith))),
      )

  -- One round of the loop, by what the writer does with the rest of the buffer.
  pub write_loop_moved :
      (fuel n start len : ℕ) (buffer : List ℕ) (s s1 : S)
      → write_fun (drop start buffer) len s ≡ (returned (count (suc n)), s1)
      → 0 < len
      → write_loop write_fun (λ _. false) (suc fuel) buffer start len s
        ≡ write_loop write_fun (λ _. false) fuel buffer (start + suc n) (len - suc n) s1
  unfolding write_loop check_error
  write_loop_moved fuel n start zero buffer s s1 e pos = absurd (omega arith)
  write_loop_moved fuel n start (suc len) buffer s s1 e pos = rw e refl

  pub write_loop_raised :
      (fuel start len : ℕ) (buffer : List ℕ) (s s1 : S)
      → write_fun (drop start buffer) len s ≡ (raised, s1)
      → 0 < len
      → write_loop write_fun (λ _. false) (suc fuel) buffer start len s ≡ (ended_by_error, s1)
  unfolding write_loop
  write_loop_raised fuel start zero buffer s s1 e pos = absurd (omega arith)
  write_loop_raised fuel start (suc len) buffer s s1 e pos = rw e refl

  pub write_loop_crashes :
      (fuel start len : ℕ) (buffer : List ℕ) (s s1 : S)
      → write_fun (drop start buffer) len s ≡ (crashes, s1)
      → 0 < len
      → write_loop write_fun (λ _. false) (suc fuel) buffer start len s ≡ (crashed, s1)
  unfolding write_loop
  write_loop_crashes fuel start zero buffer s s1 e pos = absurd (omega arith)
  write_loop_crashes fuel start (suc len) buffer s s1 e pos = rw e refl

  -- A writer that keeps returning 0 moves the loop back through the buffer, and at its start the
  -- next call is given a pointer before the buffer, whatever the buffer holds. Something is left to
  -- write, and a round for each byte passed and one more is enough.
  pub zero_count-underrun :
      ((buf : List ℕ) (len : ℕ) (s : S) → (write_fun buf len s).0 ≡ returned (count 0))
      → (fuel : ℕ) (buffer : List ℕ) (start len : ℕ) (s : S) → 0 < len
      → start < fuel
      → (write_loop write_fun (λ _. false) fuel buffer start len s).0 ≡ underrun
  unfolding write_loop check_error
  zero_count-underrun z fuel buffer start zero s pos h = absurd (omega arith)
  zero_count-underrun z zero buffer start (suc len) s pos h = absurd (omega arith)
  zero_count-underrun z (suc fuel) buffer zero (suc len) s pos h =
      rw (z (drop 0 buffer) (suc len) s) refl
  zero_count-underrun z (suc fuel) buffer (suc start) (suc len) s pos h =
      rw (z (drop (suc start) buffer) (suc len) s)
        (zero_count-underrun z fuel buffer start (suc len + 1) _ (omega arith) (omega arith))
