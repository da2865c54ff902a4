-- ===== src/Server/Sockets/Registered/Operations.antt =====
-- What each callback of AAServer/main.cpp, and each message of the head unit, does to the clients that
-- the input handlers hold as registered.
use aacs.Prelude.{
  ℕ, ◌≡◌, refl, Bool, true, false, List, [], ◌∷◌, Option, none, some, ◌==◌, not, if◌then◌else◌,
  arith, Bool-cases, inl, inr, subst, sym,
}
use aacs.Tls.{Tls}
use aacs.Proto.{Proto, ChannelDescription}
use aacs.Frame.{Message}
use aacs.Server.Handlers.{
  Emit, to_client, to_headunit, Handler, handle_from_headunit, handle_from_client,
}
use aacs.Server.Control.Signals.{
  Server, Result, connect_signals, put_handler, handle_channel_message, disconnected, ok, threw,
  stuck, no_handler,
}
use aacs.Server.Control.Discovery.{add_channel, add_channels, get_channel_number_by_channel_type}
use aacs.Server.Sockets.{Packet}
use aacs.Server.Sockets.Requests.{
  Hub, number_of, client_gone, got_packet, send_to_channel, erase_socket, answer_number, after_raw,
  reply, get_channel_number, raw_data, service_descriptor_request, Served, insert_new,
}
use aacs.Server.Sockets.Registry.{find_client}
use aacs.Server.Sockets.Registered.{
  has_number, IsConnected, has_number-number_of, insert_new-IsConnected,
  handle_from_client-IsConnected, handle_from_headunit-IsConnected, disconnect-IsConnected,
}

abbrev pub IsConnectedAt : List (ℕ × ℕ) → Option Handler → Type 0
IsConnectedAt clients none = Unit {0}
IsConnectedAt clients (some h) = IsConnected clients h

pub joined :
    (clients : List (ℕ × ℕ)) (socket n : ℕ) (found : Option Handler)
    → IsConnectedAt clients found
    → IsConnectedAt (insert_new socket n clients) found
joined clients socket n none k = tt
joined clients socket n (some h) k = insert_new-IsConnected clients socket n h k

module _ (tls : Tls) (proto : Proto) where
  abbrev pub AllConnected : List (ℕ × ℕ) → Server tls → Type 0
  AllConnected clients s = (n : ℕ) → IsConnectedAt clients (s.handlers n)

  pub connect_signals-handlers :
      (es : List Emit) (s : Server tls) → (connect_signals tls es s).handlers ≡ s.handlers
  unfolding connect_signals
  connect_signals-handlers [] s = refl
  connect_signals-handlers (to_client target channel is_spec bytes ∷ es) s =
      connect_signals-handlers es _
  connect_signals-handlers (to_headunit channel flags bytes ∷ es) s = connect_signals-handlers es _

  put_handler-AllConnected :
      (clients : List (ℕ × ℕ)) (n : ℕ) (h : Handler) (s : Server tls)
      → IsConnected clients h
      → AllConnected clients s
      → AllConnected clients (put_handler tls n h s)
  put_handler-AllConnected clients n h s k all = λ j. ground (arith, k, all j)

  after_signals :
      (clients : List (ℕ × ℕ)) (es : List Emit) (n : ℕ) (h : Handler) (s : Server tls)
      → IsConnected clients h
      → AllConnected clients s
      → AllConnected clients (connect_signals tls es (put_handler tls n h s))
  after_signals clients es n h s k all =
      rw (connect_signals-handlers es (put_handler tls n h s))
        (put_handler-AllConnected clients n h s k all)

  -- The handler that a channel has, when it has one.
  pub routed :
      (clients : List (ℕ × ℕ)) (m : Message) (s : Server tls) (found : Option Handler)
      → s.handlers m.channel ≡ found
      → AllConnected clients s
      → AllConnected clients (handle_channel_message tls m s).1
  unfolding handle_channel_message
  routed clients m s none e all = λ n. elim (Bool-cases (m.channel == 0)) [
    | inl zero ↦ rw zero (all n)
    | inr other ↦ rw (other, e) (all n)
  ]
  routed clients m s (some h) e all = λ n.
      let k : IsConnected clients h = subst (IsConnectedAt clients) e (all m.channel) in
      let answer = handle_from_headunit h m in
      elim (Bool-cases (m.channel == 0)) [
        | inl zero ↦ rw zero (all n)
        | inr other ↦
            rw (other, e)
              (after_signals clients answer.emitted m.channel answer.handler s
                (handle_from_headunit-IsConnected clients h m k) all n)
      ]

  connected_gone :
      (clients : List (ℕ × ℕ)) (socket n : ℕ) (s : Server tls) (found : Option Handler)
      → s.handlers n ≡ found
      → IsConnectedAt clients found
      → IsConnectedAt
          (erase_socket socket clients)
          ((disconnected tls (number_of socket clients) s).handlers n)
  unfolding disconnected
  connected_gone clients socket n s none e k = rw e tt
  connected_gone clients socket n s (some h) e k = rw e (disconnect-IsConnected clients socket h k)

  pub gone_AllConnected :
      (clients : List (ℕ × ℕ)) (socket : ℕ) (s : Server tls)
      → AllConnected clients s
      → AllConnected (erase_socket socket clients) (disconnected tls (number_of socket clients) s)
  gone_AllConnected clients socket s all =
      λ n. connected_gone clients socket n s (s.handlers n) refl (all n)

  described :
      (clients : List (ℕ × ℕ)) (ch : ChannelDescription) (s : Server tls)
      → AllConnected clients s
      → AllConnected clients (add_channel tls ch s)
  unfolding add_channel
  described clients ch s all = λ n. ground (arith, all n)

  pub all_described :
      (clients : List (ℕ × ℕ)) (chs : List ChannelDescription) (s : Server tls)
      → AllConnected clients s
      → AllConnected clients (add_channels tls chs s).1
  unfolding add_channels
  all_described clients [] s all = all
  all_described clients (ch ∷ chs) s all = λ n. ground (
    arith,
    all n,
    all_described clients chs (add_channel tls ch s) (described clients ch s all) n,
  )

  abbrev pub IsServed : Served tls × Hub tls → Type 0
  IsServed (r, h) = AllConnected h.clients h.server

  either :
      (b : Bool) (x y : Served tls × Hub tls)
      → IsServed x
      → IsServed y
      → IsServed (if b then x else y)
  either true x y p q = p
  either false x y p q = q

  answered :
      (socket : ℕ) (h : Hub tls) (r : Result ℕ)
      → AllConnected h.clients h.server
      → IsServed (answer_number tls socket h r)
  unfolding answer_number reply
  answered socket h (ok n) all = all
  answered socket h (threw e) all = all
  answered socket h stuck all = all

  raw_handled :
      (socket : ℕ) (h : Hub tls) (r : Result Bool × Server tls)
      → AllConnected h.clients r.1
      → IsServed (after_raw tls socket h r)
  unfolding after_raw client_gone
  raw_handled socket h (ok false, s) all = all
  raw_handled socket h (ok true, s) all = all
  raw_handled socket h (threw e, s) all = gone_AllConnected h.clients socket s all
  raw_handled socket h (stuck, s) all = all

  not_sent :
      (client channel : ℕ) (is_spec : Bool) (bytes : List ℕ) (s : Server tls)
      → s.handlers channel ≡ none
      → send_to_channel tls proto client channel is_spec bytes s ≡ (threw no_handler, s)
  unfolding send_to_channel
  not_sent client channel is_spec bytes s e = ground (arith, e)

  pub sent_to :
      (client channel : ℕ) (is_spec : Bool) (bytes : List ℕ) (s : Server tls) (h : Handler)
      → s.handlers channel ≡ some h
      → let call = handle_from_client proto h client channel is_spec bytes in
        send_to_channel tls proto client channel is_spec bytes s ≡ (
          ok call.waits,
          connect_signals tls call.signals (put_handler tls channel call.next_handler s),
        )
  unfolding send_to_channel
  sent_to client channel is_spec bytes s h e = ground (arith, e)

  sent :
      (clients : List (ℕ × ℕ)) (client channel : ℕ) (is_spec : Bool) (bytes : List ℕ)
      (s : Server tls) (found : Option Handler)
      → s.handlers channel ≡ found
      → has_number client clients ≡ true
      → AllConnected clients s
      → AllConnected clients (send_to_channel tls proto client channel is_spec bytes s).1
  sent clients client channel is_spec bytes s none e c all =
      subst (λ r. AllConnected clients r.1) (sym (not_sent client channel is_spec bytes s e)) all
  sent clients client channel is_spec bytes s (some h) e c all =
      let k : IsConnected clients h = subst (IsConnectedAt clients) e (all channel) in
      let call = handle_from_client proto h client channel is_spec bytes in
      subst (λ r. AllConnected clients r.1) (sym (sent_to client channel is_spec bytes s h e))
        (after_signals clients call.signals channel call.next_handler s
          (handle_from_client-IsConnected proto clients h client channel is_spec bytes c k) all)

  pub asked :
      (socket n : ℕ) (p : Packet) (h : Hub tls)
      → find_client socket h.clients ≡ some n
      → AllConnected h.clients h.server
      → IsServed (got_packet tls proto socket p h)
  unfolding got_packet reply
  asked socket n p h f all =
      either (p.packet_type == get_channel_number) _ _
        (answered socket h (get_channel_number_by_channel_type tls p.channel_number h.server) all)
        (either (p.packet_type == raw_data) _ _
          (raw_handled socket h _ (
            sent h.clients (number_of socket h.clients) p.channel_number
              (not (p.specific_byte == 0)) p.payload h.server (h.server.handlers p.channel_number)
              refl (has_number-number_of socket n h.clients f) all))
          (either (p.packet_type == service_descriptor_request) _ _ all all))
