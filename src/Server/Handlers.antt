-- ===== src/Server/Handlers.antt =====
-- The channel handlers of AAServer/src: ChannelHandler, DefaultChannelHandler, VideoChannelHandler
-- and InputChannelHandler. A handler's state is a record, its signals are the values of `Emit`.
pub mod Sample
pub mod Clients
use aacs.Prelude.{
  ℕ, ◌+◌, ◌/◌, ◌<◌, bit_and, bit_or, Bool, true, false, not, List, [], ◌∷◌, ◌++◌, map, Option, none,
  some, ltb, ◌==◌, if◌then◌else◌,
}
use aacs.Wire.Codes.{
  encrypted, bulk, specific, code, channel_open_request, channel_open_response, media_code,
  media_with_timestamp_indication, media_indication, setup_request, start_indication,
  setup_response, media_ack_indication, video_focus_indication, input_code, event,
  handshake_request, handshake_response,
}
use aacs.Wire.Bytes.{front16, push_back_int16, push_back_int64}
use aacs.Frame.{Message}
use aacs.Proto.{Proto}

-- A client's number, or -1 for all clients.
pub data Target : Type 0 where
  everyone : Target
  only : ℕ → Target

-- The two signals of a handler, with their arguments.
pub data Emit : Type 0 where
  to_client : Target → ℕ → Bool → List ℕ → Emit
  to_headunit : ℕ → ℕ → List ℕ → Emit

-- `flags & MessageTypeFlags::Specific` as a bool.
unfoldable pub is_specific : ℕ → Bool
is_specific flags = not (bit_and flags specific == 0)

-- `Encrypted | Bulk`, and with `Specific`.
abbrev pub encrypted_bulk : ℕ
encrypted_bulk = bit_or encrypted bulk

pub record VideoState : Type 0 where
  pub video_id : ℕ
  pub channel_opened : Bool
  pub got_video_open : Bool
  pub got_setup_response : Bool

pub record InputState : Type 0 where
  pub input_id : ℕ
  pub got_input_open : Bool
  pub got_handshake_response : Bool
  -- A std::set<int>: ascending, with no number twice.
  pub registered_clients : List ℕ
  pub available_buttons : List ℕ

pub data Handler : Type 0 where
  default_handler : ℕ → Handler
  video_handler : VideoState → Handler
  input_handler : InputState → Handler

-- A handler's answer: whether the message was handled, its new state, and its signals.
pub record Answer : Type 0 where
  pub handled : Bool
  pub handler : Handler
  pub emitted : List Emit

unfoldable pub insert_client : ℕ → List ℕ → List ℕ
insert_client c [] = c ∷ []
insert_client c (d ∷ ds) =
    let rest = d ∷ insert_client c ds in
    if ltb c d then c ∷ d ∷ ds else if c == d then d ∷ ds else rest

unfoldable pub erase_client : ℕ → List ℕ → List ℕ
erase_client c [] = []
erase_client c (d ∷ ds) = let rest = d ∷ erase_client c ds in if c == d then ds else rest

-- DefaultChannelHandler::handleMessageFromHeadunit.
default_from_headunit : ℕ → Message → Answer
unfolding is_specific
default_from_headunit id m = record {
  handled = true;
  handler = default_handler id;
  emitted = to_client everyone m.channel (is_specific m.flags) m.content ∷ [];
}

-- `sendStartIndication`.
abbrev start_indication_bytes : List ℕ
start_indication_bytes =
    push_back_int16 [] (media_code start_indication) ++ 0x08 ∷ 0x00 ∷ 0x10 ∷ 0x00 ∷ []

-- VideoChannelHandler::handleMessageFromHeadunit: before the channel is opened a message goes to
-- all clients; afterwards the base class looks for its response first.
video_from_headunit : VideoState → Message → Answer
unfolding is_specific
video_from_headunit v m =
    if not v.channel_opened
    then record {
      handled = true;
      handler = video_handler v;
      emitted = to_client everyone m.channel (is_specific m.flags) m.content ∷ [];
    }
    else if message_type == code channel_open_response
    then record {
      handled = true;
      handler = video_handler (record v { got_video_open = true });
      emitted = [];
    }
    else if message_type == media_code setup_response
    then record {
      handled = true;
      handler = video_handler (record v { got_setup_response = true });
      emitted = [];
    }
    else if message_type == media_code video_focus_indication
    then record {
      handled = true;
      handler = video_handler v;
      emitted = to_headunit v.video_id encrypted_bulk start_indication_bytes ∷ [];
    }
    else record {
      handled = message_type == media_code media_ack_indication;
      handler = video_handler v;
      emitted = [];
    }
  where
    message_type : ℕ
    message_type = front16 m.content

-- InputChannelHandler::handleMessageFromHeadunit.
input_from_headunit : InputState → Message → Answer
input_from_headunit h m =
    if message_type == code channel_open_response
    then record {
      handled = true;
      handler = input_handler (record h { got_input_open = true });
      emitted = [];
    }
    else if message_type == input_code handshake_response
    then record {
      handled = true;
      handler = input_handler (record h { got_handshake_response = true });
      emitted = [];
    }
    else if message_type == input_code event
    then record {
      handled = true;
      handler = input_handler h;
      emitted = map (λ c. to_client (only c) h.input_id false m.content) h.registered_clients;
    }
    else record { handled = false; handler = input_handler h; emitted = [] }
  where
    message_type : ℕ
    message_type = front16 m.content

unfoldable pub handle_from_headunit : Handler → Message → Answer
unfolding default_from_headunit video_from_headunit input_from_headunit
handle_from_headunit (default_handler id) m = default_from_headunit id m
handle_from_headunit (video_handler v) m = video_from_headunit v m
handle_from_headunit (input_handler h) m = input_from_headunit h m

-- `disconnected`: only the input handler overrides it with an effect.
unfoldable pub disconnect : Handler → ℕ → Handler
disconnect (default_handler id) client = default_handler id
disconnect (video_handler v) client = video_handler v
disconnect (input_handler h) client =
    input_handler (record h { registered_clients = erase_client client h.registered_clients })

-- `sendChannelOpenRequest`.
pub open_request : Proto → ℕ → Emit
open_request proto id =
    to_headunit id (bit_or encrypted_bulk specific)
      (push_back_int16 [] (code channel_open_request) ++ proto.channel_open_request id)

-- What a call of `handleMessageFromClient` has done when it returns or first waits.
pub record FromClient : Type 0 where
  pub next_handler : Handler
  pub signals : List Emit
  -- The call waits for the head unit's answer to the request to open the channel.
  pub waits : Bool

default_from_client : ℕ → ℕ → Bool → List ℕ → FromClient
default_from_client id channel is_spec bytes = record {
  next_handler = default_handler id;
  signals =
      to_headunit channel (if is_spec then bit_or encrypted_bulk specific else encrypted_bulk) bytes
      ∷ [];
  waits = false;
}

-- The input handler registers the client, and opens the channel whatever the message says.
input_from_client : Proto → InputState → ℕ → FromClient
input_from_client proto h client = record {
  next_handler = input_handler (record h {
    registered_clients = insert_client client h.registered_clients;
    got_input_open = false;
  });
  signals = open_request proto h.input_id ∷ [];
  waits = true;
}

unfoldable pub handle_from_client : Proto → Handler → ℕ → ℕ → Bool → List ℕ → FromClient
unfolding default_from_client input_from_client open_request insert_client
handle_from_client proto (default_handler id) client channel is_spec bytes =
    default_from_client id channel is_spec bytes
handle_from_client proto (video_handler v) client channel is_spec bytes = record {
  next_handler = video_handler v;
  signals = [];
  waits = false;
}
handle_from_client proto (input_handler h) client channel is_spec bytes =
    input_from_client proto h client
