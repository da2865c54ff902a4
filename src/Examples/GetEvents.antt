-- ===== src/Examples/GetEvents.antt =====
-- A touch of one place, pressed, with two registered clients.
use aacs.Examples.Server.{proto}
use aacs.GetEvents.Registering.{numbered, open_channel_registers}
use aacs.Proxy.{serve_bytes}
use aacs.Server.Sockets.Requests.{Hub, Served, served, waits, number_of}
use aacs.Server.Handlers.Clients.{has_client}
use aacs.Prelude.{
  ℕ, ◌≡◌, refl, true, List, [], ◌∷◌, Option, none, some, ◌==◌, if◌then◌else◌, arith, false,
}
use aacs.CheckError.{count}
use aacs.Frame.{Message, message}
use aacs.Wire.Bytes.{front16}
use aacs.Server.Handlers.{InputState, input_handler, insert_client}
use aacs.Server.Control.Signals.{Server, ok, initial, handle_channel_message}
use aacs.Server.Sockets.{client_bytes}
use aacs.GetEvents.{
  Platform, TouchEvent, played, motion, button, flush, event_round, opened, open_channel,
}
use aacs.GetEvents.Touches.{input_message, touch_played}
use aacs.Examples.Loopback.{loopback}

abbrev touch_of : List ℕ → Option TouchEvent
touch_of (x ∷ y ∷ action ∷ []) =
    some (record { touch_location = record { x = x; y = y } ∷ []; touch_action = action })
touch_of other = none

abbrev platform : Platform
platform = record { touch_event = touch_of; Point = ℕ × ℕ; translate_coordinates = λ x y. (x, y) }

abbrev input : InputState
input = record {
  input_id = 3;
  got_input_open = true;
  got_handshake_response = true;
  registered_clients = 0 ∷ 1 ∷ [];
  available_buttons = [];
}

abbrev ready : Server loopback
ready = record (initial loopback) {
  handlers = λ n. if n == 3 then some (input_handler input) else none;
}

abbrev touch : Message
touch = message 3 0x0b (0x80 ∷ 0x01 ∷ 10 ∷ 20 ∷ 0 ∷ [])

touch_played_example :
    ((handle_channel_message loopback touch ready).0 ≡ ok tt)
    × ((handle_channel_message loopback touch ready).1.got_messages
        ≡ input_message input touch 0 ∷ input_message input touch 1 ∷ [])
    × (event_round platform (count 7) (3 ∷ 0 ∷ 0x80 ∷ 0x01 ∷ 10 ∷ 20 ∷ 0 ∷ [])
        ≡ played (motion (10, 20) ∷ button true ∷ flush ∷ []))
unfolding initial client_bytes front16
touch_played_example =
    touch_played loopback platform touch input ready 1
      (record { touch_location = record { x = 10; y = 20 } ∷ []; touch_action = 0 })
      (λ e. ground arith) refl refl (omega arith) (omega arith) refl

abbrev hub : Hub loopback
hub = record {
  server = record ready { input_channel = 3 };
  clients = (5, 4) ∷ (7, 2) ∷ [];
  client_count = 5;
  replies = [];
}

-- What the hub is after the two packets of the client with socket 7.
abbrev asked : Served loopback × Hub loopback
asked = serve_bytes loopback proto 7 (1 ∷ 3 ∷ 0 ∷ []) (numbered loopback proto 7 hub)

open_channel_registers_example :
    (open_channel (count 3) (count 1) 3 (count 3)
      ≡ (opened 3, (0 ∷ 1 ∷ 0 ∷ []) ∷ (1 ∷ 3 ∷ 0 ∷ []) ∷ []))
    × (serve_bytes loopback proto 7 (0 ∷ 1 ∷ 0 ∷ []) hub ≡ (served, numbered loopback proto 7 hub))
    × (asked.0 ≡ waits)
    × (asked.1.server.handlers 3
        ≡ some (
            input_handler
              (record input { registered_clients = 0 ∷ 1 ∷ 2 ∷ []; got_input_open = false })))
    × (has_client 2 (0 ∷ 1 ∷ 2 ∷ []) ≡ true)
unfolding number_of insert_client
open_channel_registers_example = open_channel_registers loopback proto 7 input hub refl
