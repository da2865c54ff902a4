-- ===== src/Examples/Registered.antt =====
-- One client that opens the one input channel of a car.
use aacs.Server.Sockets.Replies.{writing_round, reply_write_decides}
use aacs.Server.Sockets.Loops.{thread_ends}
use aacs.CheckError.{count, failed}
use aacs.Prelude.{inl, ◌≡◌, refl, true, false, [], ◌∷◌, none, some, All}
use aacs.Proto.{Proto}
use aacs.Server.Handlers.{InputState, handle_from_client}
use aacs.Server.Handlers.Clients.{IsAscending}
use aacs.Server.Control.Signals.{initial, connect_signals}
use aacs.Server.Control.Discovery.{handle_service_discovery_response, add_channels, add_channel}
use aacs.Server.Sockets.{Packet, read_packet}
use aacs.Server.Sockets.Requests.{
  Hub, new_client, got_packet, insert_new, send_to_channel, number_of,
}
use aacs.Server.Sockets.Registered.{has_number}
use aacs.Server.Sockets.Registered.Steps.{
  Reach, start, started, later, connects, learns, asks, registered_are_in_map,
}
use aacs.Examples.Loopback.{loopback}
use aacs.Examples.Server as Stand

-- Its service discovery response describes an input channel with id 3.
abbrev input_proto : Proto
input_proto = record Stand.proto {
  service_channels =
      λ buf. record { channel_id = 3; media_channel = none; input_channel = some [] } ∷ [];
}

abbrev asking : Packet
asking = record { packet_type = 1; channel_number = 3; specific_byte = 0; payload = [] }

abbrev connected : Hub loopback
connected = new_client loopback 7 (start loopback input_proto)

abbrev described : Hub loopback
described = record connected {
  server = (handle_service_discovery_response loopback input_proto [] connected.server).1;
}

abbrev registered : Hub loopback
registered = (got_packet loopback input_proto 7 asking described).1

registered_reached : Reach loopback input_proto registered
unfolding new_client insert_new
registered_reached =
    later
      (later (later started (connects 7 (start loopback input_proto) refl)) (learns [] connected))
      (asks 7 0 asking described refl)

abbrev input : InputState
input = record {
  input_id = 3;
  got_input_open = false;
  got_handshake_response = false;
  registered_clients = 0 ∷ [];
  available_buttons = [];
}

registered_are_in_map_example :
    IsAscending (0 ∷ []) × All (λ c. has_number c registered.clients ≡ true) (0 ∷ [])
unfolding got_packet new_client handle_service_discovery_response initial send_to_channel
    add_channels add_channel handle_from_client connect_signals number_of insert_new
registered_are_in_map_example =
    registered_are_in_map loopback input_proto registered 3 input registered_reached refl

-- The client asks for the service descriptor, and the write of the reply fails.
abbrev descriptor_asked : Packet
descriptor_asked = record { packet_type = 2; channel_number = 0; specific_byte = 0; payload = [] }

reply_write_decides_example :
    writing_round loopback input_proto
      (failed 32)
      7
      (record { cancel = false; selected = true; returned = (count 3, 2 ∷ 0 ∷ 0 ∷ []) })
      described
    ≡ (thread_ends, described)
unfolding read_packet
reply_write_decides_example =
    reply_write_decides loopback input_proto (failed 32) (count 3) (2 ∷ 0 ∷ 0 ∷ []) 7
      descriptor_asked described described.server.service_descriptor refl (inl (refl, refl))
