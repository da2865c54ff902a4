-- ===== src/Server/Opening.antt =====
-- The calls of AAServer/src that wait for the head unit: `openChannel`, then one more request and a
-- wait for its answer, in InputChannelHandler::handleMessageFromClient and in
-- VideoChannelHandler::openChannel. No lock covers the clearing of a flag and the request behind it,
-- so each of them is a step of its own.
pub mod Answers
pub mod Input
pub mod Video
use aacs.Prelude.{
  ℕ, Bool, true, false, List, [], ◌∷◌, ◌++◌, Option, none, some, ◌≡◌, ◌==◌, if◌then◌else◌,
}
use aacs.Wire.Bytes.{front16}
use aacs.Frame.{Message}
use aacs.Server.Handlers.{Emit}

-- What the two callers have in common: the two flags that the waits test, where they are cleared,
-- the requests, and what is sent at the end. A second request of `none` is an exception.
pub record Opener (S : Type 0) : Type 0 where
  pub first_flag : S → Bool
  pub second_flag : S → Bool
  pub is_open : S → Bool
  pub clear_first : S → S
  pub clear_second : S → S
  -- Whether the handler handled the message, and its next state.
  pub hear : Message → S → Bool × S
  pub is_known : ℕ → Bool
  pub first_type : ℕ
  pub second_type : ℕ
  pub first_request : Emit
  pub second_request : Option Emit
  pub at_end : List Emit
  -- Once the channel is open, the type of a message decides whether it is handled, and only the
  -- message of the right type sets a flag.
  pub hear_known :
      (m : Message) (s : S) → is_open s ≡ true → (hear m s).0 ≡ is_known (front16 m.content)
  pub hear_first :
      (m : Message) (s : S)
      → is_open s ≡ true
      → first_flag (hear m s).1 ≡ (if front16 m.content == first_type then true else first_flag s)
  pub hear_second :
      (m : Message) (s : S)
      → is_open s ≡ true
      → second_flag (hear m s).1
        ≡ (if front16 m.content == second_type then true else second_flag s)
  pub hear_open : (m : Message) (s : S) → is_open s ≡ true → is_open (hear m s).1 ≡ true
  pub opens : (s : S) → is_open (clear_first s) ≡ true
  pub keeps_open : (s : S) → is_open (clear_second s) ≡ is_open s

-- Where the thread stands: a flag is cleared and its request not yet sent, or the request is sent.
pub data Phase : Type 0 where
  first_unsent awaiting_first second_unsent awaiting_second finished failed : Phase

-- The handler's state, where the thread stands, what it has sent, and whether the thread of the USB
-- endpoint still hands messages to the handler: a message that is not handled ends it, by the
-- exception "Unknown packet" of AaCommunicator::handleChannelMessage.
pub record Opening (S : Type 0) : Type 0 where
  pub state : S
  pub phase : Phase
  pub sent : List Emit
  pub listening : Bool

module _ {S : Type 0} (op : Opener S) where
  open op use {
    first_flag, second_flag, clear_first, clear_second, hear, first_request, second_request, at_end,
  }

  -- Up to the first request.
  unfoldable pub begin : S → Opening S
  begin s = record { state = clear_first s; phase = first_unsent; sent = []; listening = true }

  ask_second : Option Emit → Opening S → Opening S
  ask_second none o = record o { phase = failed }
  ask_second (some e) o = record o { phase = awaiting_second; sent = o.sent ++ e ∷ [] }

  -- The thread sends the request, or looks at its condition and goes on if it holds.
  proceed_in : Phase → Opening S → Opening S
  unfolding ask_second
  proceed_in first_unsent o = record o {
    phase = awaiting_first;
    sent = o.sent ++ first_request ∷ [];
  }
  proceed_in awaiting_first o =
      if first_flag o.state
      then record o { state = clear_second o.state; phase = second_unsent }
      else o
  proceed_in second_unsent o = ask_second second_request o
  proceed_in awaiting_second o =
      if second_flag o.state then record o { phase = finished; sent = o.sent ++ at_end } else o
  proceed_in finished o = o
  proceed_in failed o = o

  unfoldable pub proceed : Opening S → Opening S
  unfolding proceed_in
  proceed o = proceed_in o.phase o

  -- The thread of the USB endpoint hands a message of the head unit to the handler, if it still
  -- runs.
  unfoldable pub hear_message : Message → Opening S → Opening S
  hear_message m o =
      if o.listening
      then record o { state = (hear m o.state).1; listening = (hear m o.state).0 }
      else o
