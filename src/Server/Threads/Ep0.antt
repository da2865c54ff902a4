-- ===== src/Server/Threads/Ep0.antt =====
-- `handleEp0Message` and `readWraper` of AAServer/src/AaCommunicator.cpp: the thread of endpoint 0.
use aacs.Prelude.{
  ℕ, zero, suc, ◌/◌, ◌<◌, ◌≡◌, refl, Bool, true, false, ◌||◌, List, [], ◌∷◌, ◌++◌, drop, length,
  ◌==◌, if◌then◌else◌, arith, append_assoc,
}
use aacs.CheckError.{IoReturn, count, failed, check_error}
use aacs.Server.Pump.{Call, returned, raised, ended_by_error, pump_round, write_loop}
use aacs.Server.Events.{
  UsbEvent, setup, other_event, EventLayout, Encodes, all_events, event_count, next_event,
  has_bytes,
}
use aacs.Server.Threads.{ThreadDescriptor, Communicator, round, turn, turns, is_running}
use aacs.Server.Threads.Ending.{all_in, error_ends_all}

-- What `select` returns, with `errno`.
pub data Selected : Type 0 where
  select_failed : ℕ → Selected
  timed_out ready : Selected

-- After a timeout `errno` is EINTR, but the result is 0.
read_wraper : Selected → IoReturn → IoReturn
read_wraper (select_failed errno) read = failed errno
read_wraper timed_out read = count 0
read_wraper ready read = read

-- An exception of the first `writeFun` ends the round.
write_raises :
    {S : Type 0} (write_fun : List ℕ → ℕ → S → Call × S) (fuel n : ℕ) (buffer : List ℕ) (s : S)
    → 0 < n
    → write_fun buffer n s ≡ (raised, s)
    → pump_round write_fun (λ _. false) (suc fuel) (returned (count n)) buffer s
      ≡ (ended_by_error, s)
unfolding pump_round write_loop check_error
write_raises write_fun fuel zero buffer s pos e = absurd (omega arith)
write_raises write_fun fuel (suc n) buffer s pos e = rw e refl

module _ (layout : EventLayout) (suspend : ℕ) where
  open layout use {event_size, event_at}

  -- The event is FUNCTIONFS_SUSPEND.
  is_suspend : UsbEvent → Bool
  is_suspend (setup r) = false
  is_suspend (other_event kind) = kind == suspend

  ep0_loop : ℕ → ℕ → List ℕ → Call
  unfolding is_suspend
  ep0_loop nbytes zero buf = returned (count nbytes)
  ep0_loop nbytes (suc n) buf =
      let rest = ep0_loop nbytes n (drop event_size buf) in
      if is_suspend (event_at buf) then raised else rest

  handle_ep0_message : List ℕ → ℕ → Call
  unfolding ep0_loop
  handle_ep0_message buf nbytes = ep0_loop nbytes (nbytes / event_size) buf

  unfoldable pub has_suspend : List UsbEvent → Bool
  unfolding is_suspend
  has_suspend [] = false
  has_suspend (e ∷ es) = is_suspend e || has_suspend es

  -- Endpoint 0 in the table of threads: `select` has found it ready.
  unfoldable pub ep0_thread : {S : Type 0} → (S → (IoReturn × List ℕ) × S) → ThreadDescriptor S
  unfolding handle_ep0_message read_wraper
  ep0_thread read = record {
    read_fun = λ s. ((returned (read_wraper ready (read s).0.0), (read s).0.1), (read s).1);
    write_fun = λ buf n s. (handle_ep0_message buf n, s);
  }

  module _ (enc : Encodes layout) where
    loop_raises :
        (nbytes : ℕ) (es : List UsbEvent) (stale : List ℕ)
        → ep0_loop nbytes (length es) (all_events layout enc es ++ stale)
          ≡ (if has_suspend es then raised else returned (count nbytes))
    unfolding ep0_loop has_suspend all_events
    loop_raises nbytes [] stale = refl
    loop_raises nbytes (e ∷ es) stale =
        rw
          (
            append_assoc (enc.event_bytes e) (all_events layout enc es) stale,
            enc.reads e (all_events layout enc es ++ stale),
            next_event layout enc e (all_events layout enc es ++ stale),
            loop_raises nbytes es stale,
          )
          (ground arith)

    -- `handleEp0Message` on a read of whole events: the exception if one of them says that the
    -- bus is suspended, and else all bytes count as handled.
    ep0_events :
        (es : List UsbEvent) (stale : List ℕ)
        → handle_ep0_message (all_events layout enc es ++ stale) (length (all_events layout enc es))
          ≡ (if has_suspend es
              then raised
              else returned (count (length (all_events layout enc es))))
    unfolding handle_ep0_message
    ep0_events es stale =
        rw (event_count layout enc es) (loop_raises (length (all_events layout enc es)) es stale)

    some_events : (es : List UsbEvent) → has_suspend es ≡ true → 0 < length es
    unfolding has_suspend
    some_events [] h = ground arith
    some_events (e ∷ es) h = omega arith

    -- A read of events with a suspension among them ends the round by the exception.
    suspend_raises :
        {S : Type 0} (fuel : ℕ) (read : S → (IoReturn × List ℕ) × S) (es : List UsbEvent)
        (stale : List ℕ) (s s1 : S)
        → has_suspend es ≡ true
        → read s
          ≡ ((count (length (all_events layout enc es)), all_events layout enc es ++ stale), s1)
        → round (suc fuel) (ep0_thread read) false s ≡ (ended_by_error, s1)
    unfolding round ep0_thread pump_round read_wraper
    suspend_raises fuel read es stale s s1 some_suspend e = rw e (
        write_raises (λ buf n s. (handle_ep0_message buf n, s)) fuel
          (length (all_events layout enc es)) (all_events layout enc es ++ stale) s1
          (has_bytes layout enc es (some_events es some_suspend))
          (rw (ep0_events es stale, some_suspend) refl))

    -- The suspension of the bus ends all threads of the communicator: the thread of endpoint 0,
    -- which reads it among other events, throws, the signal `error` is raised once by it, and no
    -- thread is left once each of the others has had one more turn, in whatever order. Before, no
    -- thread has failed.
    pub suspend_ends_all :
        {S : Type 0} (fuel : ℕ) (threads : ℕ → ThreadDescriptor S) (ep0 : ℕ) (ns : List ℕ)
        (c : Communicator S) (read : S → (IoReturn × List ℕ) × S) (es : List UsbEvent)
        (stale : List ℕ) (s1 : S)
        → threads ep0 ≡ ep0_thread read
        → c.thread_finished ≡ false
        → is_running ep0 c.running ≡ true
        → has_suspend es ≡ true
        → read c.shared
          ≡ ((count (length (all_events layout enc es)), all_events layout enc es ++ stale), s1)
        → all_in c.running (ep0 ∷ ns) ≡ true
        → ((turn (suc fuel) threads ep0 c).errors ≡ suc c.errors)
          × ((turn (suc fuel) threads ep0 c).shared ≡ s1)
          × ((turns (suc fuel) threads (ep0 ∷ ns) c).running ≡ [])
    suspend_ends_all fuel threads ep0 ns c read es stale s1 t f r some_suspend e h =
        error_ends_all (suc fuel) threads ep0 ns c s1 r
          (rw (t, f) (suspend_raises fuel read es stale c.shared s1 some_suspend e)) h
