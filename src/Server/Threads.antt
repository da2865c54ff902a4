-- ===== src/Server/Threads.antt =====
-- The threads of AAServer/src/AaCommunicator.cpp: `startThread`, `dataPump` of each, and
-- `threadTerminated`. A thread's round, from its read to its last write, is one step.
pub mod Ending
pub mod Ep0
use aacs.Prelude.{ℕ, suc, Bool, true, false, List, [], ◌∷◌, ◌==◌, if◌then◌else◌}
use aacs.Server.Pump.{
  Call, RoundEnd, next_round, terminated, ended_by_error, crashed, underrun, stuck, pump_round,
}

-- `readFun` and `writeFun` of a ThreadDescriptor, over what the communicator shares.
pub record ThreadDescriptor (S : Type 0) : Type 0 where
  pub read_fun : S → (Call × List ℕ) × S
  pub write_fun : List ℕ → ℕ → S → Call × S

-- The shared state, `threadFinished`, the threads that run, by number, and how often the signal
-- `error` was raised.
pub record Communicator (S : Type 0) : Type 0 where
  pub shared : S
  pub thread_finished : Bool
  pub running : List ℕ
  pub errors : ℕ

unfoldable pub leave : ℕ → List ℕ → List ℕ
leave n [] = []
leave n (k ∷ ks) = let rest = leave n ks in if n == k then rest else k ∷ rest

unfoldable pub is_running : ℕ → List ℕ → Bool
is_running n [] = false
is_running n (k ∷ ks) = let rest = is_running n ks in if n == k then true else rest

module _ {S : Type 0} where
  -- `endFun`.
  pub thread_terminated : Communicator S → Communicator S
  thread_terminated c = record c { thread_finished = true; errors = suc c.errors }

  -- How the thread goes on after its round. A crash leaves no thread.
  -- `underrun` and `stuck` are no ends of the source's own.
  pub after_round : ℕ → RoundEnd × S → Communicator S → Communicator S
  unfolding leave thread_terminated
  after_round n (next_round, s) c = record c { shared = s }
  after_round n (terminated, s) c = record c { shared = s; running = leave n c.running }
  after_round n (ended_by_error, s) c =
      thread_terminated (record c { shared = s; running = leave n c.running })
  after_round n (crashed, s) c = record c { shared = s; running = [] }
  after_round n (underrun, s) c = record c { shared = s }
  after_round n (stuck, s) c = record c { shared = s }

  -- `checkTerminate` is the flag, which no round of a single thread changes before its end.
  pub round : ℕ → ThreadDescriptor S → Bool → S → RoundEnd × S
  round fuel t finished s =
      let ((read, buffer), s1) = t.read_fun s in
      pump_round t.write_fun (λ _. finished) fuel read buffer s1

  -- A thread gets its turn; one that has ended does nothing.
  pub turn : ℕ → (ℕ → ThreadDescriptor S) → ℕ → Communicator S → Communicator S
  unfolding is_running after_round round
  turn fuel threads n c =
      let next = after_round n (round fuel (threads n) c.thread_finished c.shared) c in
      if is_running n c.running then next else c

  -- The turns in an order of any kind.
  unfoldable pub turns : ℕ → (ℕ → ThreadDescriptor S) → List ℕ → Communicator S → Communicator S
  unfolding turn
  turns fuel threads [] c = c
  turns fuel threads (n ∷ ns) c = turns fuel threads ns (turn fuel threads n c)
