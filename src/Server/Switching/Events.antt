-- ===== src/Server/Switching/Events.antt =====
-- The events of the mode switch, as a list in place of the bytes of the buffer.
use aacs.Prelude.{
  ℕ, zero, suc, ◌+◌, ◌<◌, ◌≡◌, refl, ◌∙◌, Bool, false, List, [], ◌∷◌, ◌++◌, length, ◌==◌, ◌||◌,
  if◌then◌else◌, arith, All, map, append_assoc,
}
use aacs.CheckError.{IoReturn, count, eintr, eagain, check_error}
use aacs.Server.Events.{
  UsbEvent, setup, other_event, EventLayout, Encodes, all_events, event_count, next_event,
  has_bytes,
}
use aacs.Server.Switching.{
  Switched, answering, on_event, event_loop, handle_switch_message, SwitchEnd, left, switch_loop,
  after_handled, after_read,
}

-- The requests 51 that come before a request 53.
unfoldable pub queries : List UsbEvent → ℕ
queries [] = 0
queries (other_event kind ∷ es) = queries es
queries (setup r ∷ es) =
    if r.request == 51 then suc (queries es) else if r.request == 53 then 0 else queries es

unfoldable pub has_start : List UsbEvent → Bool
has_start [] = false
has_start (other_event kind ∷ es) = has_start es
has_start (setup r ∷ es) = r.request == 53 || has_start es

-- So many answers, each with version 2 of the protocol.
unfoldable pub answers : ℕ → List (List ℕ)
answers zero = []
answers (suc n) = (2 ∷ 0 ∷ []) ∷ answers n

answers-append : (m n : ℕ) → answers m ++ answers n ≡ answers (m + n)
unfolding answers
answers-append zero n = let e : 0 + n ≡ n = omega arith in rw e refl
answers-append (suc m) n =
    let e : suc m + n ≡ suc (m + n) = omega arith in rw (e, answers-append m n) refl

module _ (layout : EventLayout) (enc : Encodes layout) where
  expected : ℕ → List UsbEvent → Switched
  expected nbytes es = record {
    result = if has_start es then 0 else nbytes;
    written = answers (queries es);
  }

  on_event-expected :
      (nbytes : ℕ) (e : UsbEvent) (es : List UsbEvent)
      → on_event layout e (expected nbytes es) ≡ expected nbytes (e ∷ es)
  unfolding on_event expected has_start queries answers answering
  on_event-expected nbytes (other_event kind) es = refl
  on_event-expected nbytes (setup r) es = ground arith

  loop_expected :
      (nbytes : ℕ) (es : List UsbEvent) (stale : List ℕ)
      → event_loop layout nbytes (length es) (all_events layout enc es ++ stale)
        ≡ expected nbytes es
  unfolding event_loop expected has_start queries answers all_events
  loop_expected nbytes [] stale = refl
  loop_expected nbytes (e ∷ es) stale =
      rw
        (
          append_assoc (enc.event_bytes e) (all_events layout enc es) stale,
          enc.reads e (all_events layout enc es ++ stale),
          next_event layout enc e (all_events layout enc es ++ stale),
          loop_expected nbytes es stale,
        )
        (on_event-expected nbytes e es)

  -- On a read of whole events `handleSwitchMessage` writes the version, 2, once for each request 51
  -- up to the first request 53, and returns 0 when there is a request 53, else the length of the
  -- read, whatever the buffer holds behind them. A pointer reads each event as the kernel wrote it.
  pub events_answered :
      (es : List UsbEvent) (stale : List ℕ)
      → handle_switch_message layout
          (all_events layout enc es ++ stale)
          (length (all_events layout enc es))
        ≡ record {
          result = if has_start es then 0 else length (all_events layout enc es);
          written = answers (queries es);
        }
  unfolding handle_switch_message expected
  events_answered es stale =
      rw (event_count layout enc es) (loop_expected (length (all_events layout enc es)) es stale)

  -- What a read of events returns and leaves in the buffer.
  abbrev pub read_of : List UsbEvent × List ℕ → IoReturn × List ℕ
  read_of (es, stale) =
      (count (length (all_events layout enc es)), all_events layout enc es ++ stale)

  unfoldable pub total_queries : List (List UsbEvent × List ℕ) → ℕ
  total_queries [] = 0
  total_queries ((es, stale) ∷ batches) = queries es + total_queries batches

  goes_on :
      (later : SwitchEnd × List (List ℕ)) (written : List (List ℕ)) (result : ℕ)
      → after_handled later written (check_error (count result) (eintr ∷ eagain ∷ []))
        ≡ (later.0, written ++ later.1)
  unfolding after_handled check_error
  goes_on later written zero = refl
  goes_on later written (suc n) = refl

  positive_read :
      (later : SwitchEnd × List (List ℕ)) (n : ℕ) (buf : List ℕ)
      → 0 < n
      → after_read layout later (check_error (count n) (eintr ∷ eagain ∷ [])) buf
        ≡ (later.0, (handle_switch_message layout buf n).written ++ later.1)
  unfolding after_read check_error
  positive_read later zero buf pos = absurd (omega arith)
  positive_read later (suc n) buf pos =
      goes_on later (handle_switch_message layout buf (suc n)).written
        (handle_switch_message layout buf (suc n)).result

  read_loop :
      (es : List UsbEvent) (stale : List ℕ) (reads : List (IoReturn × List ℕ))
      → 0 < length es
      → switch_loop layout (read_of (es, stale) ∷ reads)
        ≡ ((switch_loop layout reads).0, answers (queries es) ++ (switch_loop layout reads).1)
  unfolding switch_loop
  read_loop es stale reads pos =
      rw
        (
          positive_read (switch_loop layout reads) (length (all_events layout enc es))
              (all_events layout enc es ++ stale) (has_bytes layout enc es pos),
          events_answered es stale,
        )
        refl

  -- The loop of the mode switch answers every request 51 of all that it reads, save those that come
  -- behind a request 53 in the same read, and only a read of no bytes ends it: a request 53 does
  -- not. Each read before holds at least one event.
  pub start_keeps_loop :
      (batches : List (List UsbEvent × List ℕ)) (buf : List ℕ) (later : List (IoReturn × List ℕ))
      → All (λ b. 0 < length b.0) batches
      → switch_loop layout (map read_of batches ++ (count 0, buf) ∷ later)
        ≡ (left, answers (total_queries batches))
  unfolding switch_loop after_read check_error total_queries answers
  start_keeps_loop [] buf later some_events = refl
  start_keeps_loop ((es, stale) ∷ batches) buf later (pos, some_events) =
      read_loop es stale (map read_of batches ++ (count 0, buf) ∷ later) pos
      ∙ rw
          (
            start_keeps_loop batches buf later some_events,
            answers-append (queries es) (total_queries batches),
          )
          refl
