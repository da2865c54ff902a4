-- ===== src/Examples/Discovery.antt =====
-- The description of the car's channels on its way, at a concrete description.
use aacs.Prelude.{ℕ, ◌≡◌, refl, List, [], ◌∷◌, ◌++◌, none, arith}
use aacs.Frame.{Message, message}
use aacs.Wire.Bytes.{front16, push_back_int16}
use aacs.Server.Control.Signals.{Server, initial}
use aacs.Server.Control.Discovery.{
  handle_service_discovery_response, get_service_descriptor, add_channels, add_channel,
}
use aacs.Server.Sockets.Requests.{Hub, served, got_packet}
use aacs.Client.Setup.{Client, done, handle_message}
use aacs.Client.Socket.{service_descriptor_packet}
use aacs.Client.Start as ClientStart
use aacs.Server.Sockets.{read_packet}
use aacs.Proxy.{serve_bytes}
use aacs.Proxy.Discovery.{description_passed}
use aacs.Examples.Loopback.{loopback}
use aacs.Examples.Server.{proto}

-- A default channel 5 and a video channel 2.
abbrev description : List ℕ
description = 0 ∷ 5 ∷ 3 ∷ 2 ∷ []

abbrev car_described : Server loopback
car_described = (handle_service_discovery_response loopback proto description (initial loopback)).1

abbrev hub : Hub loopback
hub = record { server = car_described; clients = (20, 0) ∷ []; client_count = 1; replies = [] }

abbrev client : Client
client = record {
  handlers = λ n. none;
  service_description = description;
  queue = [];
  channel_messages = [];
  pushed = [];
}

abbrev discovery_request : Message
discovery_request = message 0 11 (0 ∷ 5 ∷ 10 ∷ [])

abbrev relayed : Message
relayed = message 5 15 (0x80 ∷ 1 ∷ 42 ∷ [])

description_passed_example :
    ((serve_bytes loopback proto 20 service_descriptor_packet hub).0 ≡ served)
    × ((serve_bytes loopback proto 20 service_descriptor_packet hub).1.replies
        ≡ (20, description) ∷ [])
    × ((handle_message proto discovery_request client).0 ≡ done)
    × ((handle_message proto discovery_request client).1.queue
        ≡ message 0 11 (push_back_int16 [] 6 ++ description) ∷ [])
unfolding front16 serve_bytes ClientStart.get_service_descriptor service_descriptor_packet
    read_packet got_packet get_service_descriptor handle_service_discovery_response add_channels
    add_channel
description_passed_example =
    description_passed loopback proto description (initial loopback) hub 20 client discovery_request
      (omega arith, (omega arith, tt)) (omega arith) (omega arith) refl refl refl
