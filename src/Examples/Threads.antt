-- ===== src/Examples/Threads.antt =====
-- The three threads of the communicator, when endpoint 0 tells of a suspension.
use aacs.Prelude.{ℕ, suc, ◌≡◌, refl, false, List, [], ◌∷◌, ◌==◌, if◌then◌else◌}
use aacs.CheckError.{IoReturn, count}
use aacs.Server.Events.{other_event, all_events}
use aacs.Server.Pump.{returned}
use aacs.Server.Threads.{ThreadDescriptor, Communicator, turn, turns, is_running}
use aacs.Server.Threads.Ending.{all_in}
use aacs.Server.Threads.Ep0.{ep0_thread, has_suspend, suspend_ends_all}
use aacs.Examples.Switching.{cells, encodes}

-- The bus is enabled (2), then suspended (5).
abbrev read_events : ℕ → (IoReturn × List ℕ) × ℕ
read_events s = ((count 8, 3 ∷ 0 ∷ 0 ∷ 0 ∷ 6 ∷ 0 ∷ 0 ∷ 0 ∷ []), suc s)

abbrev idle : ThreadDescriptor ℕ
idle = record {
  read_fun = λ s. ((returned (count 0), []), s);
  write_fun = λ buf n s. (returned (count n), s);
}

threads : ℕ → ThreadDescriptor ℕ
threads n = if n == 0 then ep0_thread cells 5 read_events else idle

abbrev all_run : Communicator ℕ
all_run = record { shared = 0; thread_finished = false; running = 0 ∷ 1 ∷ 2 ∷ []; errors = 0 }

suspend_ends_all_example :
    ((turn 1 threads 0 all_run).errors ≡ 1)
    × ((turn 1 threads 0 all_run).shared ≡ 1)
    × ((turns 1 threads (0 ∷ 2 ∷ 1 ∷ []) all_run).running ≡ [])
unfolding threads is_running all_in has_suspend all_events
suspend_ends_all_example =
    suspend_ends_all cells 5 encodes 0 threads 0 (2 ∷ 1 ∷ []) all_run read_events
      (other_event 2 ∷ other_event 5 ∷ []) [] 1 refl refl refl refl refl refl
