-- ===== src/Server/Sockets/Loops.antt =====
-- The loops behind the local socket: `listenThreadMethod` of AAServer/src/SocketCommunicator.cpp, and
-- `clientThreadMethod` of AAServer/src/SocketClient.cpp with the callbacks of AAServer/main.cpp.
use aacs.Prelude.{
  ℕ, ◌≡◌, Bool, true, false, List, Option, none, some, if◌then◌else◌, ◌<◌, arith, ap,
}
use aacs.Tls.{Tls}
use aacs.Proto.{Proto}
use aacs.CheckError.{IoReturn}
use aacs.Server.Sockets.{Incoming, gone, packet, undefined, read_packet, Packet}
use aacs.Server.Sockets.Requests.{
  Hub, Served, served, waits, unknown_packet_type, raised, new_client, client_gone, got_packet,
}

-- What a round of either loop finds: the flag for its end, whether `select` gave more than 0, and
-- then what `accept` or `read` returns.
pub record Woken (A : Type 0) : Type 0 where
  pub cancel : Bool
  pub selected : Bool
  pub returned : A

-- How a round leaves its thread: the loop goes on, it is left, an exception ends the thread, the
-- call blocks, or the packet has fewer than three bytes.
pub data After : Type 0 where
  goes_on leaves_loop thread_ends blocked out_of_range : After

module _ (tls : Tls) (proto : Proto) where
  -- `none`: `accept` fails, which throws inside the try block.
  accept_client : Option ℕ → Hub tls → After × Hub tls
  accept_client none h = (goes_on, h)
  accept_client (some socket) h = (goes_on, new_client tls socket h)

  unfoldable pub listen_round : Woken (Option ℕ) → Hub tls → After × Hub tls
  unfolding accept_client
  listen_round w h =
      if w.cancel
      then (leaves_loop, h)
      else if w.selected
      then accept_client w.returned h
      else (goes_on, h)

  unfoldable pub after_served : Served tls × Hub tls → After × Hub tls
  after_served (served, h) = (goes_on, h)
  after_served (waits, h) = (blocked, h)
  after_served (unknown_packet_type, h) = (thread_ends, h)
  after_served (raised e, h) = (thread_ends, h)

  unfoldable pub after_incoming : ℕ → Incoming → Hub tls → After × Hub tls
  unfolding after_served
  after_incoming socket gone h = (leaves_loop, client_gone tls socket h)
  after_incoming socket (packet p) h = after_served (got_packet tls proto socket p h)
  after_incoming socket undefined h = (out_of_range, h)

  unfoldable pub client_round : ℕ → Woken (IoReturn × List ℕ) → Hub tls → After × Hub tls
  unfolding after_incoming
  client_round socket w h =
      if w.cancel
      then (leaves_loop, h)
      else if w.selected
      then after_incoming socket (read_packet w.returned.0 w.returned.1) h
      else (goes_on, h)

  got_unknown :
      (socket : ℕ) (p : Packet) (h : Hub tls)
      → 2 < p.packet_type
      → got_packet tls proto socket p h ≡ (unknown_packet_type, h)
  unfolding got_packet
  got_unknown socket p h unknown = ground arith

  -- A packet of unknown type ends the thread, and changes nothing else.
  pub ended_by_unknown :
      (socket : ℕ) (p : Packet) (r : IoReturn) (buffer : List ℕ) (h : Hub tls)
      → read_packet r buffer ≡ packet p
      → 2 < p.packet_type
      → client_round socket (record { cancel = false; selected = true; returned = (r, buffer) }) h
        ≡ (thread_ends, h)
  unfolding client_round
  ended_by_unknown socket p r buffer h e unknown =
      rw e (ap after_served (got_unknown socket p h unknown))
