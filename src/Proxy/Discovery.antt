-- ===== src/Proxy/Discovery.antt =====
-- The description of the car's channels on its way: AAServer keeps it, AAClient asks AAServer for it
-- and answers the phone with it, and both fill their tables of handlers from it.
use aacs.Prelude.{
  ◌≤◌, sym, take_all, length, ℕ, ◌<◌, ◌≡◌, refl, ap, ◌∙◌, List, [], ◌∷◌, ◌++◌, bit_or, All, arith,
}
use aacs.Tls.{Tls}
use aacs.Proto.{Proto}
use aacs.Frame.{Message, message}
use aacs.Wire.Codes.{
  encrypted, bulk, control, code, service_discovery_request, service_discovery_response,
}
use aacs.Wire.Bytes.{front16, push_back_int16}
use aacs.Server.Handlers
use aacs.Server.Control.Signals.{Server}
use aacs.Server.Control.Discovery.{get_service_descriptor, handle_service_discovery_response}
use aacs.Server.Control.Numbers.{descriptor_kept}
use aacs.Server.Sockets.{read_packet}
use aacs.Server.Sockets.Requests.{Hub, served, reply, got_packet}
use aacs.Client.Handlers as ClientHandlers
use aacs.Client.Setup.{Client, done, handle_message, handle_service_discovery_request}
use aacs.Client.Setup.Channels.{IsInTable, request_answered}
use aacs.Client.Socket.{service_descriptor_packet}
use aacs.CheckError.{count, one_read, one_read-whole}
use aacs.Client.Start as ClientStart
use aacs.Client.Start.{Start, ok}
use aacs.Proxy.{serve_bytes}

module _ (tls : Tls) (proto : Proto) where
  request_replied :
      (socket : ℕ) (h : Hub tls)
      → serve_bytes tls proto socket service_descriptor_packet h
        ≡ (served, record h { replies = h.replies ++ (socket, h.server.service_descriptor) ∷ [] })
  unfolding serve_bytes service_descriptor_packet read_packet got_packet reply
      get_service_descriptor
  request_replied socket h = refl

  request_handled :
      (m : Message) (c : Client)
      → front16 m.content ≡ code service_discovery_request
      → handle_message proto m c ≡ handle_service_discovery_request proto c
  unfolding handle_message
  request_handled m c e = rw e refl

  -- `getServiceDescriptor` of AAClient, whose request has been written, on a reply of AAServer.
  abbrev pub descriptor_read : List ℕ → Start (List ℕ)
  descriptor_read reply =
      let r = one_read 10240 reply in ClientStart.get_service_descriptor (count 3) r.0 r.1

  abbrev pub last_reply : List (ℕ × List ℕ) → List ℕ
  last_reply [] = []
  last_reply ((socket, bytes) ∷ []) = bytes
  last_reply (r ∷ s ∷ rs) = last_reply (s ∷ rs)

  last_reply-append :
      (rs : List (ℕ × List ℕ)) (socket : ℕ) (bytes : List ℕ)
      → last_reply (rs ++ (socket, bytes) ∷ []) ≡ bytes
  last_reply-append [] socket bytes = refl
  last_reply-append (r ∷ []) socket bytes = refl
  last_reply-append (r ∷ s ∷ rs) socket bytes = last_reply-append (s ∷ rs) socket bytes

  descriptor_read_whole :
      (buf : List ℕ) → 0 < length buf → length buf ≤ 10240 → descriptor_read buf ≡ ok buf
  unfolding ClientStart.get_service_descriptor service_descriptor_packet
  descriptor_read_whole [] some_bytes fits = absurd (omega arith)
  descriptor_read_whole (b ∷ bs) some_bytes fits =
      ap (λ r. ClientStart.get_service_descriptor (count 3) r.0 r.1)
        (one_read-whole 10240 (b ∷ bs) fits)
      ∙ ap (λ bytes. ok (b ∷ bytes)) (take_all (length bs) bs (omega arith))

  value : Start (List ℕ) → List ℕ
  value (ok bytes) = bytes
  value other = []

  -- AAServer, once the car has described its channels by `buf`, replies to AAClient's request with
  -- just these bytes. AAClient, made with what `getServiceDescriptor` reads of that reply, answers
  -- the phone's service discovery request with them, unchanged behind the type of the answer. The
  -- description has at least one byte and no more than the buffer of 10240 bytes takes, and all ids
  -- are below 255.
  pub description_passed :
      (buf : List ℕ) (s : Server tls) (h : Hub tls) (socket : ℕ) (c : Client) (m : Message)
      → All IsInTable (proto.service_channels buf)
      → 0 < length buf
      → length buf ≤ 10240
      → h.server ≡ (handle_service_discovery_response tls proto buf s).1
      → descriptor_read
          (last_reply (serve_bytes tls proto socket service_descriptor_packet h).1.replies)
        ≡ ok c.service_description
      → front16 m.content ≡ code service_discovery_request
      → ((serve_bytes tls proto socket service_descriptor_packet h).0 ≡ served)
        × ((serve_bytes tls proto socket service_descriptor_packet h).1.replies
            ≡ h.replies ++ (socket, buf) ∷ [])
        × ((handle_message proto m c).0 ≡ done)
        × ((handle_message proto m c).1.queue
            ≡ c.queue
              ++ message 0
                  (bit_or (bit_or encrypted bulk) control)
                  (push_back_int16 [] (code service_discovery_response) ++ buf)
                ∷ [])
  unfolding value
  description_passed buf s h socket c m fit some_bytes size after made asks =
      let kept : h.server.service_descriptor ≡ buf =
        ap (λ (x : Server tls). x.service_descriptor) after ∙ descriptor_kept tls proto buf s in
      let replied : (serve_bytes tls proto socket service_descriptor_packet h).1.replies
          ≡ h.replies ++ (socket, buf) ∷ [] =
        rw (request_replied socket h, kept) refl in
      let read : descriptor_read
            (last_reply (serve_bytes tls proto socket service_descriptor_packet h).1.replies)
          ≡ ok buf =
        ap (λ rs. descriptor_read (last_reply rs)) replied
        ∙ ap descriptor_read (last_reply-append h.replies socket buf)
        ∙ descriptor_read_whole buf some_bytes size in
      let holds : c.service_description ≡ buf = ap value (sym made ∙ read) in
      let answered = request_answered proto c (rw holds fit) in
      (
        rw (request_replied socket h) refl,
        replied,
        rw (request_handled m c asks) answered.0,
        rw (request_handled m c asks) (answered.1 ∙ rw holds refl),
      )
