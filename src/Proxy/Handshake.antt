-- ===== src/Proxy/Handshake.antt =====
-- The TLS handshake between AAClient (`setup`, AAClient/src/AaCommunicator.cpp) and AAServer
-- (`handleMessageContent`, AAServer/src/AaCommunicator.cpp). In a round AAClient shakes hands, its
-- messages reach AAServer in order, and the first one that AAServer has queued reaches AAClient.
use aacs.Prelude.{
  ℕ, zero, suc, ◌≡◌, ◌≢◌, refl, ◌∙◌, true, false, List, [], ◌∷◌, ◌++◌, length, some, bit_or,
}
use aacs.Tls.{Tls, Handshake, HandshakeResult, finished, want_read, failure}
use aacs.Proto.{Proto}
use aacs.Drain.{Buffered, Drains}
use aacs.Frame.{Message, message}
use aacs.Wire.Codes.{plain, bulk, code, ssl_handshake}
use aacs.Wire.Bytes.{front16, push_back_int16}
use aacs.Server.Control.Signals.{Server, Result, ok, threw, stuck, send_message}
use aacs.Server.Control.Shake.{initialize_ssl as accept_session}
use aacs.Server.Control.Shake.Draining.{flight_answered}
use aacs.Server.Control.Dispatch.{
  handle_message_content, handle_control, send_service_discovery_request,
}
use aacs.Client.Setup.{auth_complete_message}
use aacs.Client.Setup.Shake as ClientShake
use aacs.Client.Setup.Shake.{
  Shaking, Shaken, returned, do_ssl_handshake, send_auth_complete, given, flight_queued,
  first_flight_queued, round_finished, initialize_ssl as connect_session,
}

-- How far the two sides get.
pub data Outcome : Type 0 where
  complete refused_by_client refused_by_server unfinished : Outcome

module _ (tls : Tls) (connect accept : Handshake tls) (proto : Proto) where
  after_handled :
      (Server tls → Result (Unit {0}) × Server tls)
      → Result (Unit {0}) × Server tls
      → Result (Unit {0}) × Server tls
  after_handled next (ok u, s) = next s
  after_handled next (threw e, s) = (threw e, s)
  after_handled next (stuck, s) = (stuck, s)

  -- Messages reach AAServer one after the other.
  unfoldable pub deliver : List Message → Server tls → Result (Unit {0}) × Server tls
  unfolding after_handled
  deliver [] s = (ok tt, s)
  deliver (m ∷ ms) s = after_handled (deliver ms) (handle_message_content tls accept proto m s)

  -- AAClient has said `AuthComplete`, and AAServer has it.
  finish : Shaking tls → Server tls → Outcome × Shaking tls × Server tls
  finish c s =
      (complete, record c { queue = [] }, (deliver (send_auth_complete tls connect c).queue s).1)

  -- `getMessage` of AAClient takes what AAServer has queued first.
  reply :
      (List ℕ → Shaking tls → Server tls → Outcome × Shaking tls × Server tls)
      → Shaking tls
      → List Message
      → Server tls
      → Outcome × Shaking tls × Server tls
  reply next c [] s = (unfinished, c, s)
  reply next c (m ∷ later) s = next m.content c (record s { queue = later })

  after_delivery :
      (List ℕ → Shaking tls → Server tls → Outcome × Shaking tls × Server tls)
      → Shaking tls
      → Result (Unit {0}) × Server tls
      → Outcome × Shaking tls × Server tls
  unfolding reply
  after_delivery next c (ok u, s) = reply next c s.queue s
  after_delivery next c (threw e, s) = (refused_by_server, c, s)
  after_delivery next c (stuck, s) = (unfinished, c, s)

  after_shaken :
      (List ℕ → Shaking tls → Server tls → Outcome × Shaking tls × Server tls)
      → Server tls
      → Shaken × Shaking tls
      → Outcome × Shaking tls × Server tls
  unfolding finish after_delivery
  after_shaken next s (returned true, c) = finish c s
  after_shaken next s (returned false, c) =
      after_delivery next (record c { queue = [] }) (deliver c.queue s)
  after_shaken next s (ClientShake.threw e, c) = (refused_by_client, c, s)
  after_shaken next s (ClientShake.stuck, c) = (unfinished, c, s)

  -- The handshake in at most so many rounds; `content` is what `doSslHandshake` is called with.
  unfoldable pub shake_hands :
      ℕ → List ℕ → Shaking tls → Server tls → Outcome × Shaking tls × Server tls
  unfolding after_shaken
  shake_hands zero content c s = (unfinished, c, s)
  shake_hands (suc rounds) content c s =
      after_shaken (shake_hands rounds) s (do_ssl_handshake tls connect content c)

  module _ (bio : Buffered tls) where
    -- The two sessions of OpenSSL come to the end of the handshake when, in each of so many rounds,
    -- `SSL_accept` is given all that `SSL_connect` left to send, and the other way round, and at
    -- last `SSL_connect` finishes. The last two sessions are those that this leaves.
    pub data Handshaking : ℕ → tls.Session → tls.Session → tls.Session → tls.Session → Type 0 where
      connected :
          {c s c1 : tls.Session} → connect.ssl_shake c ≡ (finished, c1) → Handshaking 0 c s c1 s
      exchanges :
          {n : ℕ} {c s c1 c2 s1 s2 c3 s3 : tls.Session} {r : HandshakeResult}
          → connect.ssl_shake c ≡ (want_read, c1)
          → Drains tls bio c1 c2
          → accept.ssl_shake (tls.bio_write s (bio.waiting c1)).1 ≡ (r, s1)
          → r ≢ failure
          → Drains tls bio s1 s2
          → Handshaking n (given tls connect bio (bio.waiting s1) c2) s2 c3 s3
          → Handshaking (suc n) c s c3 s3

    flight_handled :
        (flight : List ℕ) (s : Server tls) (s1 s2 : tls.Session) (r : HandshakeResult)
        → accept.ssl_shake (tls.bio_write (accept_session tls accept s.ssl) flight).1 ≡ (r, s1)
        → r ≢ failure
        → accept.pending s1 ≡ length (bio.waiting s1)
        → Drains tls bio s1 s2
        → deliver
            (message 0 (bit_or plain bulk) (push_back_int16 [] (code ssl_handshake) ++ flight) ∷ [])
            s
          ≡ (
            ok tt,
            send_message tls 0
                (bit_or plain bulk)
                (push_back_int16 [] (code ssl_handshake) ++ bio.waiting s1)
                (record s { ssl = some s2 }),
          )
    unfolding deliver after_handled handle_message_content handle_control push_back_int16 front16
    flight_handled flight s s1 s2 r e n p d =
        rw (flight_answered tls bio accept flight s s1 s2 r e n p d) refl

    auth_complete_handled :
        (s : Server tls)
        → (deliver (auth_complete_message ∷ []) s).1 ≡ send_service_discovery_request tls proto s
    unfolding deliver after_handled handle_message_content handle_control auth_complete_message
        push_back_int16 front16
    auth_complete_handled s = refl

    -- What a call of `doSslHandshake` leaves that has more to hear.
    abbrev Queued : List ℕ → Shaking tls → tls.Session → tls.Session → Type 0
    Queued content c c1 c2 = do_ssl_handshake tls connect content c ≡ (
      returned false,
      record {
        ssl = some c2;
        queue =
            c.queue
            ++ message 0 (bit_or plain bulk)
                (push_back_int16 [] (code ssl_handshake) ++ bio.waiting c1)
              ∷ [];
      },
    )

    -- A round in which both sides have something to say.
    round_passes :
        (rounds : ℕ) (content : List ℕ) (c : Shaking tls) (s : Server tls)
        (c1 c2 s1 s2 : tls.Session) (r : HandshakeResult)
        → accept.pending s1 ≡ length (bio.waiting s1)
        → c.queue ≡ []
        → s.queue ≡ []
        → Queued content c c1 c2
        → accept.ssl_shake (tls.bio_write (accept_session tls accept s.ssl) (bio.waiting c1)).1
          ≡ (r, s1)
        → r ≢ failure
        → Drains tls bio s1 s2
        → shake_hands (suc rounds) content c s
          ≡ shake_hands rounds
              (push_back_int16 [] (code ssl_handshake) ++ bio.waiting s1)
              (record { ssl = some c2; queue = [] })
              (record s { ssl = some s2; queue = [] })
    unfolding shake_hands after_shaken after_delivery reply send_message
    round_passes rounds content c s c1 c2 s1 s2 r pa qc qs q e1 ne d1 =
        rw (q, qc, flight_handled (bio.waiting c1) s s1 s2 r e1 ne pa d1, qs) refl

    round_ends :
        (rounds : ℕ) (body : List ℕ) (c : Shaking tls) (s : Server tls) (c1 : tls.Session)
        → c.queue ≡ []
        → connect.ssl_shake (given tls connect bio body (connect_session tls connect c.ssl))
          ≡ (finished, c1)
        → shake_hands (suc rounds) (push_back_int16 [] (code ssl_handshake) ++ body) c s ≡ (
          complete,
          record { ssl = some c1; queue = [] },
          send_service_discovery_request tls proto s,
        )
    unfolding shake_hands after_shaken finish send_auth_complete
    round_ends rounds body c s c1 qc e =
        rw (round_finished tls connect bio body c c1 e, qc, auth_complete_handled s) refl

    handshake_goes_on :
        (n : ℕ) (body : List ℕ) (c : Shaking tls) (s : Server tls) (c0 s0 c1 s1 : tls.Session)
        → ((x : tls.Session) → connect.pending x ≡ length (bio.waiting x))
        → ((x : tls.Session) → accept.pending x ≡ length (bio.waiting x))
        → c.queue ≡ []
        → given tls connect bio body (connect_session tls connect c.ssl) ≡ c0
        → Handshaking n c0 s0 c1 s1
        → shake_hands
            (suc n)
            (push_back_int16 [] (code ssl_handshake) ++ body)
            c
            (record s { ssl = some s0; queue = [] })
          ≡ (
            complete,
            record { ssl = some c1; queue = [] },
            send_service_discovery_request tls proto (record s { ssl = some s1; queue = [] }),
          )
    unfolding connect_session accept_session
    handshake_goes_on n body c s c0 s0 c1 s1 pc pa qc same (connected e) =
        round_ends 0 body c (record s { ssl = some s0; queue = [] }) c1 qc (rw same e)
    handshake_goes_on (suc n) body c s c0 s0 cz sz pc pa qc same
          (exchanges {c1 = c1} {c2 = c2} {s1 = s1} {s2 = s2} {r = r} e d e1 ne d1 k) =
        round_passes (suc n) (push_back_int16 [] (code ssl_handshake) ++ body) c
          (record s { ssl = some s0; queue = [] }) c1 c2 s1 s2 r (pa s1) qc refl
          (flight_queued tls connect bio body c c1 c2 (rw same e) (pc c1) d) e1 ne d1
        ∙ handshake_goes_on n (bio.waiting s1) (record { ssl = some c2; queue = [] }) s _ s2 cz sz
            pc pa refl refl k

    -- Between AAClient and AAServer the handshake comes to its end, from the first call of
    -- `doSslHandshake`, with empty content: when the sessions of OpenSSL complete it in some rounds,
    -- at least one, these and one more call of `doSslHandshake` are enough, AAClient ends with the
    -- session that has finished and with nothing left to send, AAServer with its session, and all
    -- that AAServer has to send is the request for the services, its answer to `AuthComplete`. The
    -- BIOs keep their bytes in order, the drains' fuel covers what waits in them, and nothing waits in
    -- either queue before.
    pub handshake_completes :
        (n : ℕ) (c : Shaking tls) (s : Server tls) (c1 s1 : tls.Session)
        → ((x : tls.Session) → connect.pending x ≡ length (bio.waiting x))
        → ((x : tls.Session) → accept.pending x ≡ length (bio.waiting x))
        → c.queue ≡ []
        → s.queue ≡ []
        → Handshaking
            (suc n)
            (connect_session tls connect c.ssl)
            (accept_session tls accept s.ssl)
            c1
            s1
        → shake_hands (suc (suc n)) [] c s ≡ (
          complete,
          record { ssl = some c1; queue = [] },
          send_service_discovery_request tls proto (record s { ssl = some s1; queue = [] }),
        )
    unfolding connect_session
    handshake_completes n c s cz sz pc pa qc qs
          (exchanges {c1 = c1} {c2 = c2} {s1 = s1} {s2 = s2} {r = r} e d e1 ne d1 k) =
        round_passes (suc n) [] c s c1 c2 s1 s2 r (pa s1) qc qs
          (first_flight_queued tls connect bio c c1 c2 e (pc c1) d) e1 ne d1
        ∙ handshake_goes_on n (bio.waiting s1) (record { ssl = some c2; queue = [] }) s _ s2 cz sz
            pc pa refl refl k
