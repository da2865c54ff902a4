-- ===== src/GetEvents.antt =====
-- GetEvents/main.cpp: the program that opens the input channel of AAServer, and plays the touches
-- of the head unit on an X display.
pub mod Touches
pub mod Window
pub mod Registering
use aacs.Prelude.{
  ℕ, suc, ◌-◌, Bool, true, false, ◌||◌, List, [], ◌∷◌, ◌++◌, map, length, take, drop, Option, none,
  some, ltb, ◌==◌, if◌then◌else◌,
}
use aacs.CheckError.{IoReturn, count, failed}

-- What is read of a TouchLocation and of a TouchEvent.
pub record TouchLocation : Type 0 where
  pub x : ℕ
  pub y : ℕ

pub record TouchEvent : Type 0 where
  pub touch_location : List TouchLocation
  pub touch_action : ℕ

-- Libraries that are not part of the repository: `ParseFromArray` of an InputEvent, with `none`
-- where it has no touch event, and `XTranslateCoordinates` from the window to the root.
pub record Platform : Type 1 where
  pub touch_event : List ℕ → Option TouchEvent
  pub Point : Type 0
  pub translate_coordinates : ℕ → ℕ → Point

-- TouchAction.proto.
abbrev pub press : ℕ
press = 0

abbrev pub release : ℕ
release = 1

abbrev pub down : ℕ
down = 5

abbrev pub up : ℕ
up = 6

-- How `openChannel` ends: with the number, or by an exception of one of its calls.
pub data OpenEnd : Type 0 where
  opened : ℕ → OpenEnd
  write_failed read_failed : OpenEnd

-- A `write` or a `read` of so many bytes that moves them all.
abbrev pub moves : ℕ → IoReturn → Bool
moves size (count n) = n == size
moves size (failed errno) = false

abbrev pub number_packet : List ℕ
number_packet = 0 ∷ 1 ∷ 0 ∷ []

abbrev pub raw_packet : ℕ → List ℕ
raw_packet channel_number = 1 ∷ channel_number ∷ 0 ∷ []

-- `openChannel`, by what its three calls return and the byte that is read, with what it writes.
unfoldable pub open_channel : IoReturn → IoReturn → ℕ → IoReturn → OpenEnd × List (List ℕ)
open_channel write1 read1 channel_number write2 =
    if moves 3 write1
    then if moves 1 read1
      then if moves 3 write2
        then (opened channel_number, number_packet ∷ raw_packet channel_number ∷ [])
        else (write_failed, number_packet ∷ raw_packet channel_number ∷ [])
      else (read_failed, number_packet ∷ [])
    else (write_failed, number_packet ∷ [])

module _ (platform : Platform) where
  open platform use {Point, touch_event, translate_coordinates}

  -- The calls of X: `XTestFakeMotionEvent`, `XTestFakeButtonEvent` of button 1, and `XFlush`.
  pub data XCall : Type 0 where
    motion : Point → XCall
    button : Bool → XCall
    flush : XCall

  unfoldable pub press_calls : ℕ → List XCall
  press_calls action = if action == press || action == down then button true ∷ [] else []

  unfoldable pub release_calls : ℕ → List XCall
  release_calls action = if action == release || action == up then button false ∷ [] else []

  -- The body of the loop behind `ParseFromArray`.
  unfoldable pub play : Option TouchEvent → List XCall
  unfolding press_calls release_calls
  play none = []
  play (some t) =
      map (λ tl. motion (translate_coordinates tl.x tl.y)) t.touch_location
      ++ press_calls t.touch_action
      ++ release_calls t.touch_action
      ++ flush ∷ []

  -- One round of the loop. `undefined`: fewer than four bytes, so a negative size is parsed.
  pub data RoundEnd : Type 0 where
    played : List XCall → RoundEnd
    read_failure undefined : RoundEnd

  unfoldable pub event_round : IoReturn → List ℕ → RoundEnd
  unfolding play
  event_round (failed errno) buffer = read_failure
  event_round (count n) buffer =
      if n == 0
      then read_failure
      else if ltb n 4
      then undefined
      else played (play (touch_event (take (n - 4) (drop 4 buffer))))
