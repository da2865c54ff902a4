-- ===== src/Server/Sockets/Clients.antt =====
-- The map of clients, and whom a message from the head unit reaches.
use aacs.Prelude.{ℕ, ◌≡◌, ◌≢◌, refl, List, [], ◌∷◌, ◌++◌, true, false, if◌then◌else◌, arith, All}
use aacs.CheckError.{IoReturn}
use aacs.Server.Handlers.{Target}
use aacs.Server.Control.Signals.{ClientMessage}
use aacs.Server.Sockets.{client_bytes, broadcast, send_failed, send_message, is_target}

-- The sockets whose number a target names, with the bytes for each.
abbrev pub writes_for : Target → List ℕ → List (ℕ × ℕ) → List (ℕ × List ℕ)
writes_for target bytes [] = []
writes_for target bytes ((socket, number) ∷ clients) =
    if is_target target number
    then (socket, bytes) ∷ writes_for target bytes clients
    else writes_for target bytes clients

-- A message from the head unit is written to exactly the clients that its target names, in the
-- order of the map, also where some of them have lost their connection, if no write fails in
-- another way.
broadcast_writes :
    (write : ℕ → IoReturn) (m : ClientMessage) (clients : List (ℕ × ℕ))
    → All (λ c. send_message (client_bytes m) (write c.0) ≢ send_failed) clients
    → broadcast write m clients
      ≡ record { written = writes_for m.target (client_bytes m) clients; raised = false }
unfolding broadcast
broadcast_writes write m [] h = refl
broadcast_writes write m ((socket, number) ∷ clients) (h, hs) =
    ground (arith, broadcast_writes write m clients hs)

-- A write to a client that the target names, if it fails otherwise than by a lost connection, ends
-- the loop: the clients in front of it have got the message, if they were named, and those behind
-- it in the map get nothing. No write in front of it failed so.
pub broadcast_stops :
    (write : ℕ → IoReturn) (m : ClientMessage) (front back : List (ℕ × ℕ)) (socket number : ℕ)
    → All (λ c. send_message (client_bytes m) (write c.0) ≢ send_failed) front
    → is_target m.target number ≡ true
    → send_message (client_bytes m) (write socket) ≡ send_failed
    → broadcast write m (front ++ (socket, number) ∷ back) ≡ record {
      written = writes_for m.target (client_bytes m) front ++ (socket, client_bytes m) ∷ [];
      raised = true;
    }
unfolding broadcast
broadcast_stops write m [] back socket number hs t e = ground arith
broadcast_stops write m ((s, n) ∷ front) back socket number (h, hs) t e =
    ground (arith, broadcast_stops write m front back socket number hs t e)
