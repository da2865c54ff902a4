-- ===== src/Examples/Switching.antt =====
-- The mode switch at concrete events.
use aacs.Prelude.{ℕ, zero, suc, ◌≡◌, refl, List, [], ◌∷◌, ◌++◌, length, arith}
use aacs.CheckError.{count, failed}
use aacs.Server.Events.{UsbEvent, setup, other_event, EventLayout, Encodes, all_events}
use aacs.Server.Switching.{left, switch_loop, handle_switch_message}
use aacs.Server.Switching.Events.{
  answers, events_answered, start_keeps_loop, queries, has_start, total_queries,
}

abbrev pub event_at : List ℕ → UsbEvent
event_at (zero ∷ request ∷ index ∷ size ∷ rest) =
    setup (record { request = request; index = index; size = size })
event_at (suc kind ∷ rest) = other_event kind
event_at other = other_event 0

-- Four cells for an event: the first is 0 for a set-up, and one more than the kind else.
abbrev pub cells : EventLayout
cells = record { event_size = 4; event_at = event_at }

abbrev pub cells_of : UsbEvent → List ℕ
cells_of (setup r) = 0 ∷ r.request ∷ r.index ∷ r.size ∷ []
cells_of (other_event kind) = suc kind ∷ 0 ∷ 0 ∷ 0 ∷ []

pub cells_size : (e : UsbEvent) → length (cells_of e) ≡ 4
cells_size (setup r) = refl
cells_size (other_event kind) = refl

pub cells_read : (e : UsbEvent) (rest : List ℕ) → event_at (cells_of e ++ rest) ≡ e
cells_read (setup r) rest = refl
cells_read (other_event kind) rest = refl

abbrev pub encodes : Encodes cells
encodes = record {
  event_bytes = cells_of;
  positive = omega arith;
  size = cells_size;
  reads = cells_read;
}

abbrev asks : ℕ → UsbEvent
asks n = setup (record { request = n; index = 0; size = 0 })

events_answered_example :
    handle_switch_message cells (0 ∷ 51 ∷ 0 ∷ 0 ∷ 0 ∷ 53 ∷ 0 ∷ 0 ∷ 0 ∷ 51 ∷ 0 ∷ 0 ∷ 9 ∷ []) 12
    ≡ record { result = 0; written = (2 ∷ 0 ∷ []) ∷ [] }
unfolding all_events answers queries has_start total_queries
events_answered_example = events_answered cells encodes (asks 51 ∷ asks 53 ∷ asks 51 ∷ []) (9 ∷ [])

start_keeps_loop_example :
    switch_loop cells (
      (count 4, 0 ∷ 53 ∷ 0 ∷ 0 ∷ [])
      ∷ (count 4, 0 ∷ 51 ∷ 0 ∷ 0 ∷ [])
      ∷ (count 0, [])
      ∷ (failed 5, [])
      ∷ [])
    ≡ (left, (2 ∷ 0 ∷ []) ∷ [])
unfolding all_events answers queries has_start total_queries
start_keeps_loop_example =
    start_keeps_loop cells encodes ((asks 53 ∷ [], []) ∷ (asks 51 ∷ [], []) ∷ []) []
      ((failed 5, []) ∷ []) (omega arith, (omega arith, tt))
