-- ===== src/Server/Threads/Ending.antt =====
-- How the threads of the communicator end, once one has.
use aacs.Prelude.{
  ℕ, zero, suc, ◌≡◌, refl, Bool, true, false, List, [], ◌∷◌, if◌then◌else◌, arith, ◌⊎◌, inl, inr,
  Bool-cases,
}
use aacs.CheckError.{count, failed, check_error}
use aacs.Server.Pump.{
  Call, returned, raised, crashes, RoundEnd, terminated, ended_by_error, crashed, pump_round,
}
use aacs.Server.Threads.{
  ThreadDescriptor, Communicator, leave, is_running, thread_terminated, after_round, round, turn,
  turns,
}

-- Every one of the first list is in the second.
unfoldable pub all_in : List ℕ → List ℕ → Bool
all_in [] ns = true
all_in (k ∷ ks) ns = let rest = all_in ks ns in if is_running k ns then rest else false

leave_absent : (n : ℕ) (ks : List ℕ) → is_running n ks ≡ false → leave n ks ≡ ks
unfolding is_running leave
leave_absent n [] h = refl
leave_absent n (k ∷ ks) h = let rest = leave_absent n ks in grind arith

all_in-leave : (n : ℕ) (ks ns : List ℕ) → all_in ks (n ∷ ns) ≡ true → all_in (leave n ks) ns ≡ true
unfolding all_in is_running leave
all_in-leave n [] ns h = refl
all_in-leave n (k ∷ ks) ns h = let rest = all_in-leave n ks ns in grind arith

all_in-empty : (ks : List ℕ) → all_in ks [] ≡ true → ks ≡ []
unfolding all_in is_running
all_in-empty [] h = refl
all_in-empty (k ∷ ks) h = ground arith

module _ {S : Type 0} where
  -- A round that finds the flag set is the thread's last, and writes nothing.
  last_round :
      (write_fun : List ℕ → ℕ → S → Call × S) (fuel : ℕ) (r : Call) (buffer : List ℕ) (s : S)
      → (pump_round write_fun (λ _. true) fuel r buffer s ≡ (terminated, s))
        ⊎ ((pump_round write_fun (λ _. true) fuel r buffer s ≡ (ended_by_error, s))
            ⊎ (pump_round write_fun (λ _. true) fuel r buffer s ≡ (crashed, s)))
  unfolding pump_round check_error
  last_round write_fun fuel raised buffer s = inr (inl refl)
  last_round write_fun fuel crashes buffer s = inr (inr refl)
  last_round write_fun fuel (returned (count zero)) buffer s = inl refl
  last_round write_fun fuel (returned (count (suc n))) buffer s = inl refl
  last_round write_fun fuel (returned (failed e)) buffer s = ground arith

  round_is_last :
      (fuel : ℕ) (t : ThreadDescriptor S) (s : S)
      → (round fuel t true s ≡ (terminated, (t.read_fun s).1))
        ⊎ ((round fuel t true s ≡ (ended_by_error, (t.read_fun s).1))
            ⊎ (round fuel t true s ≡ (crashed, (t.read_fun s).1)))
  unfolding round
  round_is_last fuel t s =
      last_round t.write_fun fuel (t.read_fun s).0.0 (t.read_fun s).0.1 (t.read_fun s).1

  -- Only threads are left that had no turn.
  abbrev Left : List ℕ → Communicator S → Type 0
  Left ns c = (all_in c.running ns ≡ true) × (c.thread_finished ≡ true)

  leaves :
      (n : ℕ) (ns : List ℕ) (s : S) (r : RoundEnd × S) (c : Communicator S)
      → c.thread_finished ≡ true
      → all_in c.running (n ∷ ns) ≡ true
      → (r ≡ (terminated, s)) ⊎ ((r ≡ (ended_by_error, s)) ⊎ (r ≡ (crashed, s)))
      → Left ns (after_round n r c)
  unfolding after_round thread_terminated
  leaves n ns s r c f h (inl e) = rw e (all_in-leave n c.running ns h, f)
  leaves n ns s r c f h (inr (inl e)) = rw e (all_in-leave n c.running ns h, refl)
  leaves n ns s r c f h (inr (inr e)) = rw e (unfold all_in in refl, f)

  turn_is_last :
      (fuel : ℕ) (threads : ℕ → ThreadDescriptor S) (n : ℕ) (ns : List ℕ) (c : Communicator S)
      → c.thread_finished ≡ true
      → all_in c.running (n ∷ ns) ≡ true
      → Left ns (turn fuel threads n c)
  unfolding turn
  turn_is_last fuel threads n ns c f h =
      let last =
        leaves n ns ((threads n).read_fun c.shared).1
          (round fuel (threads n) c.thread_finished c.shared) c f h
          (rw f (round_is_last fuel (threads n) c.shared)) in
      elim (Bool-cases (is_running n c.running)) [
        | inl e ↦ rw e last
        | inr e ↦
            let kept = all_in-leave n c.running ns h in
            rw e (rw (leave_absent n c.running e) at kept, f)
      ]

  -- Once `threadFinished` is set, all threads end that get a turn again, in whatever order.
  turns_end :
      (fuel : ℕ) (threads : ℕ → ThreadDescriptor S) (ns : List ℕ) (c : Communicator S)
      → c.thread_finished ≡ true
      → all_in c.running ns ≡ true
      → (turns fuel threads ns c).running ≡ []
  unfolding turns
  turns_end fuel threads [] c f h = all_in-empty c.running h
  turns_end fuel threads (n ∷ ns) c f h =
      let now = turn_is_last fuel threads n ns c f h in
      turns_end fuel threads ns (turn fuel threads n c) now.1 now.0

  -- A round that ends by an exception sets the flag, raises the signal `error`, and is the last of
  -- its thread.
  error_finishes :
      (fuel : ℕ) (threads : ℕ → ThreadDescriptor S) (n : ℕ) (c : Communicator S) (s : S)
      → is_running n c.running ≡ true
      → round fuel (threads n) c.thread_finished c.shared ≡ (ended_by_error, s)
      → turn fuel threads n c ≡ record {
        shared = s;
        thread_finished = true;
        running = leave n c.running;
        errors = suc c.errors;
      }
  unfolding turn after_round thread_terminated
  error_finishes fuel threads n c s r e = rw (r, e) refl

  -- An exception in the round of one thread ends all threads: it raises the signal `error`, and
  -- after it no thread is left once each of the others has had one more turn, in whatever order the
  -- turns come.
  pub error_ends_all :
      (fuel : ℕ) (threads : ℕ → ThreadDescriptor S) (n : ℕ) (ns : List ℕ) (c : Communicator S)
      (s : S)
      → is_running n c.running ≡ true
      → round fuel (threads n) c.thread_finished c.shared ≡ (ended_by_error, s)
      → all_in c.running (n ∷ ns) ≡ true
      → ((turn fuel threads n c).errors ≡ suc c.errors)
        × ((turn fuel threads n c).shared ≡ s)
        × ((turns fuel threads (n ∷ ns) c).running ≡ [])
  unfolding turns
  error_ends_all fuel threads n ns c s r e h =
      let first = error_finishes fuel threads n c s r e in
      (
        rw first refl,
        rw first refl,
        turns_end fuel threads ns (turn fuel threads n c) (rw first refl)
            (rw first (all_in-leave n c.running ns h)),
      )
