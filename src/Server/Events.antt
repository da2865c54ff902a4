-- ===== src/Server/Events.antt =====
-- The events that FunctionFS gives on endpoint 0, which AAServer/src/ModeSwitcher.cpp and
-- `handleEp0Message` of AAServer/src/AaCommunicator.cpp read.
use aacs.Prelude.{
  ℕ, ◌*◌, ◌/◌, ◌<◌, ◌≡◌, ◌∙◌, subst, List, [], ◌∷◌, ◌++◌, drop, length, length-append,
  drop-length_append, arith,
}
use native.Mathlib.Nat.{mul-div_cancel}

-- The members of `usb_ctrlrequest` that are looked at.
pub record ControlRequest : Type 0 where
  pub request : ℕ
  pub index : ℕ
  pub size : ℕ

pub data UsbEvent : Type 0 where
  setup : ControlRequest → UsbEvent
  other_event : ℕ → UsbEvent

-- `usb_functionfs_event` of the kernel's headers: its size, and what a pointer to it reads.
pub record EventLayout : Type 0 where
  pub event_size : ℕ
  pub event_at : List ℕ → UsbEvent

-- The kernel writes events one after the other, each in as many bytes as its size.
pub record Encodes (layout : EventLayout) : Type 0 where
  pub event_bytes : UsbEvent → List ℕ
  pub positive : 0 < layout.event_size
  pub size : (e : UsbEvent) → length (event_bytes e) ≡ layout.event_size
  pub reads : (e : UsbEvent) (rest : List ℕ) → layout.event_at (event_bytes e ++ rest) ≡ e

module _ (layout : EventLayout) (enc : Encodes layout) where
  unfoldable pub all_events : List UsbEvent → List ℕ
  all_events [] = []
  all_events (e ∷ es) = enc.event_bytes e ++ all_events es

  count_events : (es : List UsbEvent) → length (all_events es) ≡ length es * layout.event_size
  unfolding all_events
  count_events [] = omega arith
  count_events (e ∷ es) =
      length-append (enc.event_bytes e) (all_events es)
      ∙ rw (enc.size e, count_events es) (omega arith)

  -- How many events the bytes hold, as the source counts them.
  pub event_count : (es : List UsbEvent) → length (all_events es) / layout.event_size ≡ length es
  event_count es = rw (count_events es) (mul-div_cancel (length es) enc.positive)

  -- The pointer moves to the next event.
  pub next_event :
      (e : UsbEvent) (rest : List ℕ) → drop layout.event_size (enc.event_bytes e ++ rest) ≡ rest
  next_event e rest =
      subst (λ n. drop n (enc.event_bytes e ++ rest) ≡ rest) (enc.size e)
        (drop-length_append (enc.event_bytes e) rest)

  pub has_bytes : (es : List UsbEvent) → 0 < length es → 0 < length (all_events es)
  unfolding all_events
  has_bytes [] pos = absurd (omega arith)
  has_bytes (e ∷ es) pos =
      omega (arith, length-append (enc.event_bytes e) (all_events es), enc.size e, enc.positive)
