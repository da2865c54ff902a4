-- ===== src/Server/Sockets/Ended.antt =====
-- The end of a client's thread by an exception: `SocketClient::ready` of AAServer/src/SocketClient.cpp,
-- and what the callbacks of AAServer/main.cpp make of the client afterwards.
use aacs.Prelude.{ℕ, ◌<◌, ◌≡◌, ◌≢◌, refl, ap, true, false, List, [], ◌∷◌, ◌++◌, All, ◌∙◌}
use aacs.Tls.{Tls}
use aacs.Proto.{Proto}
use aacs.CheckError.{IoReturn, failed}
use aacs.Server.Control.Signals.{ClientMessage}
use aacs.Server.Sockets.{
  Packet, packet, read_packet, client_bytes, broadcast, send_failed, send_message, is_target,
}
use aacs.Server.Sockets.Clients.{writes_for, broadcast_stops}
use aacs.Server.Sockets.Requests.{Hub}
use aacs.Server.Sockets.Loops.{
  Woken, After, goes_on, leaves_loop, thread_ends, blocked, out_of_range, client_round,
  ended_by_unknown,
}

-- EBADF, which `write` gives for a descriptor that is closed.
abbrev pub ebadf : ℕ
ebadf = 9

module _ (tls : Tls) where
  -- The clients with the descriptors that `ready` has closed, by socket.
  pub record Listening : Type 0 where
    pub hub : Hub tls
    pub closed : List ℕ

  -- The `catch` of `ready`.
  unfoldable pub close_ended : ℕ → List ℕ → After × Hub tls → After × Listening
  close_ended socket closed (thread_ends, h) =
      (thread_ends, record { hub = h; closed = socket ∷ closed })
  close_ended socket closed (goes_on, h) = (goes_on, record { hub = h; closed = closed })
  close_ended socket closed (leaves_loop, h) = (leaves_loop, record { hub = h; closed = closed })
  close_ended socket closed (blocked, h) = (blocked, record { hub = h; closed = closed })
  close_ended socket closed (out_of_range, h) = (out_of_range, record { hub = h; closed = closed })

  -- A round of the thread that `ready` starts.
  unfoldable pub ready_round : Proto → ℕ → Woken (IoReturn × List ℕ) → Listening → After × Listening
  unfolding close_ended
  ready_round proto socket w l = close_ended socket l.closed (client_round tls proto socket w l.hub)

closed_fails : (bytes : List ℕ) → send_message bytes (failed ebadf) ≡ send_failed
unfolding send_message
closed_fails bytes = refl

-- A packet of unknown type ends the client's thread and closes its socket, but leaves the client in
-- the map. So the next message from the head unit that names the client, or all, is written to the
-- closed socket: the write gives EBADF, and an exception ends the delivery. The clients in front of
-- the client in the map get the message, if it names them and no write to them fails so; those
-- behind it do not.
pub ended_client_stops_broadcast :
    (tls : Tls) (proto : Proto) (socket number : ℕ) (front back : List (ℕ × ℕ)) (p : Packet)
    (r : IoReturn) (buffer : List ℕ) (l : Listening tls) (write : List ℕ → ℕ → IoReturn)
    (m : ClientMessage)
    → l.hub.clients ≡ front ++ (socket, number) ∷ back
    → read_packet r buffer ≡ packet p
    → 2 < p.packet_type
    → ((closed : List ℕ) → write (socket ∷ closed) socket ≡ failed ebadf)
    → All (λ c. send_message (client_bytes m) (write (socket ∷ l.closed) c.0) ≢ send_failed) front
    → is_target m.target number ≡ true
    → let (a, l') =
        ready_round tls proto socket
          (record { cancel = false; selected = true; returned = (r, buffer) })
          l in
      (a ≡ thread_ends)
      × (broadcast (write l'.closed) m l'.hub.clients ≡ record {
        written = writes_for m.target (client_bytes m) front ++ (socket, client_bytes m) ∷ [];
        raised = true;
      })
unfolding ready_round
ended_client_stops_broadcast tls proto socket number front back p r buffer l write m e packet_read
      unknown closed_write before named =
    rw (ended_by_unknown tls proto socket p r buffer l.hub packet_read unknown) (
      refl,
      rw e (
          broadcast_stops (write (socket ∷ l.closed)) m front back socket number before named (
            ap (send_message (client_bytes m)) (closed_write l.closed)
            ∙ closed_fails (client_bytes m))),
    )
