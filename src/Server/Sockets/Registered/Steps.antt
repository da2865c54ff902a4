-- ===== src/Server/Sockets/Registered/Steps.antt =====
-- The clients and the channels of AAServer as they change together: the callbacks of AAServer/main.cpp
-- and the messages of the head unit, in any order.
use aacs.Server.Handlers.Clients.{IsAscending}
use aacs.Prelude.{ℕ, ◌≡◌, refl, true, List, [], none, some, All, arith, subst}
use aacs.Tls.{Tls}
use aacs.Proto.{Proto}
use aacs.Frame.{Message}
use aacs.Server.Handlers.{InputState, input_handler}
use aacs.Server.Control.Signals.{initial, handle_channel_message}
use aacs.Server.Control.Discovery.{handle_service_discovery_response}
use aacs.Server.Sockets.{Packet}
use aacs.Server.Sockets.Requests.{Hub, new_client, client_gone, got_packet}
use aacs.Server.Sockets.Registry.{find_client}
use aacs.Server.Sockets.Registered.{has_number}
use aacs.Server.Sockets.Registered.Operations.{
  IsConnectedAt, AllConnected, joined, routed, gone_AllConnected, all_described, asked,
}

module _ (tls : Tls) (proto : Proto) where
  pub data Step : Hub tls → Hub tls → Type 0 where
    connects :
        (socket : ℕ) (h : Hub tls)
        → find_client socket h.clients ≡ none
        → Step h (new_client tls socket h)
    leaves :
        (socket n : ℕ) (h : Hub tls)
        → find_client socket h.clients ≡ some n
        → Step h (client_gone tls socket h)
    asks :
        (socket n : ℕ) (p : Packet) (h : Hub tls)
        → find_client socket h.clients ≡ some n
        → Step h (got_packet tls proto socket p h).1
    hears :
        (m : Message) (h : Hub tls)
        → Step h (record h { server = (handle_channel_message tls m h.server).1 })
    learns :
        (buf : List ℕ) (h : Hub tls)
        → Step h
            (record h { server = (handle_service_discovery_response tls proto buf h.server).1 })

  abbrev pub start : Hub tls
  start = record { server = initial tls; clients = []; client_count = 0; replies = [] }

  pub data Reach : Hub tls → Type 0 where
    started : Reach start
    later : {g h : Hub tls} → Reach g → Step g h → Reach h

  step_kept :
      (g h : Hub tls)
      → Step g h
      → AllConnected tls proto g.clients g.server
      → AllConnected tls proto h.clients h.server
  unfolding new_client client_gone handle_service_discovery_response
  step_kept g h (connects socket g1 f) all =
      λ n. joined g.clients socket g.client_count (g.server.handlers n) (all n)
  step_kept g h (leaves socket n g1 f) all =
      gone_AllConnected tls proto g.clients socket g.server all
  step_kept g h (asks socket n p g1 f) all = asked tls proto socket n p g f all
  step_kept g h (hears m g1) all =
      routed tls proto g.clients m g.server (g.server.handlers m.channel) refl all
  step_kept g h (learns buf g1) all =
      all_described tls proto g.clients (proto.service_channels buf)
        (record g.server { service_descriptor = buf }) all

  at_start : AllConnected tls proto [] (initial tls)
  unfolding initial
  at_start n = ground arith

  reach_kept : (h : Hub tls) → Reach h → AllConnected tls proto h.clients h.server
  reach_kept h started = at_start
  reach_kept h (later {g = g} r s) = step_kept g h s (reach_kept g r)

  -- However clients connect, ask and leave, and the head unit's messages and descriptions of its
  -- channels come in between, the clients that an input channel has registered ascend and have
  -- numbers of clients in the map. (A client whose thread an exception ended is still in the map.) A
  -- packet comes from a socket of the map, and so does a farewell.
  pub registered_are_in_map :
      (h : Hub tls) (channel : ℕ) (input : InputState)
      → Reach h
      → h.server.handlers channel ≡ some (input_handler input)
      → IsAscending input.registered_clients
        × All (λ c. has_number c h.clients ≡ true) input.registered_clients
  registered_are_in_map h channel input r e =
      subst (IsConnectedAt h.clients) e (reach_kept h r channel)
