-- ===== src/Examples/Clients.antt =====
-- A client of AAServer whose thread an exception ends.
use aacs.Prelude.{ℕ, List, ◌++◌, ◌==◌, if◌then◌else◌, ◌≡◌, refl, true, false, [], ◌∷◌, arith}
use aacs.CheckError.{IoReturn, count, failed}
use aacs.Server.Sockets.{client_bytes, broadcast, send_message, read_packet}
use aacs.Server.Sockets.Clients.{writes_for}
use aacs.Server.Sockets.Loops.{After, thread_ends}
use aacs.Server.Sockets.Ended.{Listening, ready_round, ended_client_stops_broadcast}
use aacs.Server.Handlers.{everyone}
use aacs.Server.Control.Signals.{initial}
use aacs.Server.Sockets.Requests.{Hub}
use aacs.Examples.Loopback.{loopback}
use aacs.Examples.Server.{proto, message_for_all}

abbrev hub : Hub loopback
hub = record {
  server = initial loopback;
  clients = (20, 1) ∷ (22, 0) ∷ [];
  client_count = 2;
  replies = [];
}

-- The client at socket 22 sends a packet of type 9.
abbrev closed_writes : List ℕ → ℕ → IoReturn
closed_writes [] socket = count 4
closed_writes (closed ∷ rest) socket = if socket == closed then failed 9 else count 4

abbrev ended : After × Listening loopback
ended =
    ready_round loopback proto 22
      (record { cancel = false; selected = true; returned = (count 3, 9 ∷ 0 ∷ 0 ∷ []) })
      (record { hub = hub; closed = [] })

ended_client_stops_broadcast_example :
    (ended.0 ≡ thread_ends)
    × (broadcast (closed_writes ended.1.closed) message_for_all ended.1.hub.clients ≡ record {
      written =
          writes_for everyone (client_bytes message_for_all) ((20, 1) ∷ [])
          ++ (22, client_bytes message_for_all) ∷ [];
      raised = true;
    })
unfolding send_message client_bytes read_packet
ended_client_stops_broadcast_example =
    ended_client_stops_broadcast loopback proto 22 0 ((20, 1) ∷ []) []
      (record { packet_type = 9; channel_number = 0; specific_byte = 0; payload = [] }) (count 3)
      (9 ∷ 0 ∷ 0 ∷ []) (record { hub = hub; closed = [] }) closed_writes message_for_all refl refl
      (omega arith) (λ closed. refl) (ground arith, tt) refl
