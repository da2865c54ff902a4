-- ===== src/Server/Switching.antt =====
-- AAServer/src/ModeSwitcher.cpp: `handleSwitchMessage`, and the loop of
-- `handleSwitchToAccessoryMode` over what is read from endpoint 0.
pub mod Events
use aacs.Prelude.{ℕ, zero, suc, ◌*◌, ◌/◌, List, [], ◌∷◌, ◌++◌, drop, ◌==◌, if◌then◌else◌}
use aacs.Server.Events.{ControlRequest, UsbEvent, setup, other_event, EventLayout}
use aacs.CheckError.{
  IoReturn, count, failed, Checked, moved, minus_one, nothing, exception, eintr, eagain,
  check_error,
}

-- What one call does: its result, and what it writes to the endpoint.
pub record Switched : Type 0 where
  pub result : ℕ
  pub written : List (List ℕ)

pub answering : Switched → Switched
answering s = record s { written = (2 ∷ 0 ∷ []) ∷ s.written }

-- How the loop ends: with no read left, by `break`, or by an exception of `checkError`.
pub data SwitchEnd : Type 0 where
  reading left threw : SwitchEnd

unfoldable pub after_handled :
    SwitchEnd × List (List ℕ) → List (List ℕ) → Checked → SwitchEnd × List (List ℕ)
after_handled later written exception = (threw, written)
after_handled later written (moved n) = (later.0, written ++ later.1)
after_handled later written nothing = (later.0, written ++ later.1)
after_handled later written minus_one = (later.0, written ++ later.1)

module _ (layout : EventLayout) where
  open layout use {event_size, event_at}

  -- The body of the loop on one event; `rest` is the loop on the others. The result of `write` is
  -- only printed.
  pub on_event : UsbEvent → Switched → Switched
  unfolding answering
  on_event (other_event kind) rest = rest
  on_event (setup r) rest =
      if r.request == 51
      then answering rest
      else if r.request == 52
      then rest
      else if r.request == 53
      then record { result = 0; written = [] }
      else rest

  -- `for (size_t n = nbytes / sizeof *event; n; --n, ++event)`.
  pub event_loop : ℕ → ℕ → List ℕ → Switched
  unfolding on_event
  event_loop nbytes zero buf = record { result = nbytes; written = [] }
  event_loop nbytes (suc n) buf =
      on_event (event_at buf) (event_loop nbytes n (drop event_size buf))

  unfoldable pub handle_switch_message : List ℕ → ℕ → Switched
  unfolding event_loop
  handle_switch_message buf nbytes = event_loop nbytes (nbytes / event_size) buf

  -- The result of `handleSwitchMessage`, which `checkError` reads, is not stored, and `length` is
  -- tested again.
  pub after_read : SwitchEnd × List (List ℕ) → Checked → List ℕ → SwitchEnd × List (List ℕ)
  unfolding handle_switch_message after_handled
  after_read later exception buf = (threw, [])
  after_read later nothing buf = later
  after_read later minus_one buf = (left, [])
  after_read later (moved n) buf =
      let s = handle_switch_message buf n in
      after_handled later s.written (check_error (count s.result) (eintr ∷ eagain ∷ []))

  -- The loop over the reads that come, with the buffer after each, and all that it writes.
  unfoldable pub switch_loop : List (IoReturn × List ℕ) → SwitchEnd × List (List ℕ)
  unfolding after_read
  switch_loop [] = (reading, [])
  switch_loop ((r, buf) ∷ reads) =
      after_read (switch_loop reads) (check_error r (eintr ∷ eagain ∷ [])) buf
