-- ===== src/Server/Sockets/Requests.antt =====
-- The callbacks of main.cpp on a client's packets.
use aacs.Prelude.{
  ℕ, suc, Bool, true, false, not, List, [], ◌∷◌, ◌++◌, none, some, ltb, ◌==◌, if◌then◌else◌,
}
use aacs.Tls.{Tls}
use aacs.Proto.{Proto}
use aacs.Server.Handlers.{handle_from_client}
use aacs.Server.Control.Signals.{
  Server, Result, ok, threw, stuck, Error, no_handler, put_handler, connect_signals, disconnected,
}
use aacs.Server.Control.Discovery.{get_channel_number_by_channel_type, get_service_descriptor}
use aacs.Server.Sockets.{Packet}

-- `map<SocketClient *, int>`: insertion keeps an entry that is there.
unfoldable pub insert_new : ℕ → ℕ → List (ℕ × ℕ) → List (ℕ × ℕ)
insert_new socket number [] = (socket, number) ∷ []
insert_new socket number ((k, n) ∷ rest) =
    let tail = (k, n) ∷ insert_new socket number rest in
    if ltb socket k
    then (socket, number) ∷ (k, n) ∷ rest
    else if socket == k
    then (k, n) ∷ rest
    else tail

unfoldable pub erase_socket : ℕ → List (ℕ × ℕ) → List (ℕ × ℕ)
erase_socket socket [] = []
erase_socket socket ((k, n) ∷ rest) =
    let tail = (k, n) ∷ erase_socket socket rest in if socket == k then rest else tail

-- `clients[scl]` of a socket that is there. (Of any other, the operator would insert 0.)
unfoldable pub number_of : ℕ → List (ℕ × ℕ) → ℕ
number_of socket [] = 0
number_of socket ((k, n) ∷ rest) =
    let later = number_of socket rest in if socket == k then n else later

-- PacketType.h.
abbrev pub get_channel_number : ℕ
get_channel_number = 0

abbrev pub raw_data : ℕ
raw_data = 1

abbrev pub service_descriptor_request : ℕ
service_descriptor_request = 2

module _ (tls : Tls) where
  pub record Hub : Type 0 where
    pub server : Server tls
    pub clients : List (ℕ × ℕ)
    pub client_count : ℕ
    -- The answers, by socket.
    pub replies : List (ℕ × List ℕ)

  -- How the callback ends. `waits` is a call that blocks until the head unit answers.
  pub data Served : Type 0 where
    served waits unknown_packet_type : Served
    raised : Error → Served

  unfoldable pub new_client : ℕ → Hub → Hub
  new_client socket h = record h {
    clients = insert_new socket h.client_count h.clients;
    client_count = suc h.client_count;
  }

  -- The callback of `disconnected`.
  unfoldable pub client_gone : ℕ → Hub → Hub
  client_gone socket h = record h {
    server = disconnected tls (number_of socket h.clients) h.server;
    clients = erase_socket socket h.clients;
  }

  -- `scl->sendMessage`, where the write succeeds.
  unfoldable pub reply : ℕ → List ℕ → Hub → Served × Hub
  reply socket bytes h = (served, record h { replies = h.replies ++ (socket, bytes) ∷ [] })

  -- `sendToChannel`.
  unfoldable pub send_to_channel :
      Proto → ℕ → ℕ → Bool → List ℕ → Server tls → Result Bool × Server tls
  send_to_channel proto client channel is_spec bytes s = elim (s.handlers channel) [
    | none ↦ (threw no_handler, s)
    | some h ↦ (
      ok (handle_from_client proto h client channel is_spec bytes).waits,
      connect_signals tls (handle_from_client proto h client channel is_spec bytes).signals (
          put_handler tls channel
            (handle_from_client proto h client channel is_spec bytes).next_handler s),
    )
  ]

  -- The try block: an exception disconnects the client, and is thrown again.
  unfoldable pub after_raw : ℕ → Hub → Result Bool × Server tls → Served × Hub
  unfolding client_gone
  after_raw socket h (ok false, s) = (served, record h { server = s })
  after_raw socket h (ok true, s) = (waits, record h { server = s })
  after_raw socket h (threw e, s) = (raised e, client_gone socket (record h { server = s }))
  after_raw socket h (stuck, s) = (waits, record h { server = s })

  unfoldable pub answer_number : ℕ → Hub → Result ℕ → Served × Hub
  unfolding reply
  answer_number socket h (ok n) = reply socket (n ∷ []) h
  answer_number socket h (threw e) = (raised e, h)
  answer_number socket h stuck = (waits, h)

  unfoldable pub got_packet : Proto → ℕ → Packet → Hub → Served × Hub
  unfolding after_raw answer_number
  got_packet proto socket p h =
      if p.packet_type == get_channel_number
      then answer_number socket h (get_channel_number_by_channel_type tls p.channel_number h.server)
      else if p.packet_type == raw_data
      then after_raw socket h (
          send_to_channel proto (number_of socket h.clients) p.channel_number
            (not (p.specific_byte == 0)) p.payload h.server)
      else if p.packet_type == service_descriptor_request
      then reply socket (get_service_descriptor tls h.server) h
      else (unknown_packet_type, h)
