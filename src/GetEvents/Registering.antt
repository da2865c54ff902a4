-- ===== src/GetEvents/Registering.antt =====
-- `openChannel` of GetEvents/main.cpp against AAServer: its two packets, as the client's thread of
-- AAServer serves them.
use aacs.Prelude.{ℕ, ◌≡◌, refl, true, false, [], ◌∷◌, ◌++◌, some, arith, ltb}
use aacs.Tls.{Tls}
use aacs.Proto.{Proto}
use aacs.CheckError.{count}
use aacs.Server.Handlers.{
  InputState, input_handler, insert_client, open_request, handle_from_client,
}
use aacs.Server.Handlers.Clients.{has_client, has_client-insert_client}
use aacs.Server.Control.Signals.{Server, connect_signals, put_handler}
use aacs.Server.Control.Discovery.{get_channel_number_by_channel_type}
use aacs.Server.Sockets.{read_packet}
use aacs.Server.Sockets.Requests.{
  Hub, served, waits, number_of, got_packet, reply, answer_number, after_raw,
}
use aacs.Server.Sockets.Registered.Operations.{sent_to, connect_signals-handlers}
use aacs.Proxy.{serve_bytes}
use aacs.GetEvents.{opened, number_packet, raw_packet, open_channel}

module _ (tls : Tls) (proto : Proto) where
  number_replied :
      (socket : ℕ) (h : Hub tls)
      → serve_bytes tls proto socket number_packet h
        ≡ reply tls socket (h.server.input_channel ∷ []) h
  unfolding serve_bytes read_packet got_packet get_channel_number_by_channel_type answer_number
  number_replied socket h =
      let no : ltb h.server.input_channel 0 ≡ false = ground arith in rw no refl

  -- The server behind the raw packet: the client's request has gone to the input handler.
  abbrev after_request : Hub tls → InputState → ℕ → ℕ → Server tls
  after_request h input n client = connect_signals tls (open_request proto input.input_id ∷ []) (
      put_handler tls n
        (input_handler (record input {
          registered_clients = insert_client client input.registered_clients;
          got_input_open = false;
        }))
        h.server)

  raw_served :
      (socket n : ℕ) (input : InputState) (h : Hub tls)
      → h.server.handlers n ≡ some (input_handler input)
      → serve_bytes tls proto socket (raw_packet n) h
        ≡ (waits, record h { server = after_request h input n (number_of socket h.clients) })
  unfolding serve_bytes read_packet got_packet after_raw handle_from_client
  raw_served socket n input h e =
      rw
        (sent_to tls proto (number_of socket h.clients) n false [] h.server (input_handler input) e)
        refl

  abbrev pub numbered : ℕ → Hub tls → Hub tls
  numbered socket h = record h { replies = h.replies ++ (socket, h.server.input_channel ∷ []) ∷ [] }

  -- When the car has an input channel, the three calls of `openChannel` go through with AAServer at
  -- the other end: AAServer replies to the first packet with the number of the channel, and
  -- `openChannel`, which reads this number, returns it; on its second packet AAServer registers
  -- GetEvents, under its number in the map, for the input events of the channel, and waits for the
  -- head unit's answer. The two writes and the read move all their bytes.
  pub open_channel_registers :
      (socket : ℕ) (input : InputState) (h : Hub tls)
      → h.server.handlers h.server.input_channel ≡ some (input_handler input)
      → let n = h.server.input_channel in
        let client = number_of socket h.clients in
        let asked = serve_bytes tls proto socket (raw_packet n) (numbered socket h) in
        (open_channel (count 3) (count 1) n (count 3)
          ≡ (opened n, number_packet ∷ raw_packet n ∷ []))
        × (serve_bytes tls proto socket number_packet h ≡ (served, numbered socket h))
        × (asked.0 ≡ waits)
        × (asked.1.server.handlers n
            ≡ some (
                input_handler (record input {
                  registered_clients = insert_client client input.registered_clients;
                  got_input_open = false;
                })))
        × (has_client client (insert_client client input.registered_clients) ≡ true)
  unfolding open_channel reply
  open_channel_registers socket input h e =
      let n = h.server.input_channel in
      let client = number_of socket h.clients in
      let raw = raw_served socket n input (numbered socket h) e in
      (
        refl,
        number_replied socket h,
        rw raw refl,
        rw
            (
              raw,
              connect_signals-handlers tls proto (open_request proto input.input_id ∷ []) (
                  put_handler tls n
                    (input_handler (record input {
                      registered_clients = insert_client client input.registered_clients;
                      got_input_open = false;
                    }))
                    h.server),
            )
            (ground arith),
        has_client-insert_client client input.registered_clients,
      )
