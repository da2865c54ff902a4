-- ===== src/Client/Setup/Shake.antt =====
-- `initializeSsl`, `doSslHandshake`, `sendAuthComplete` and the handshake loop of `setup` in
-- AAClient/src/AaCommunicator.cpp.
use aacs.Prelude.{
  ℕ, suc, ◌≡◌, refl, bit_or, Bool, true, false, List, [], ◌∷◌, ◌++◌, drop, length, Option, none,
  some, ltb, ◌==◌, if◌then◌else◌, arith,
}
use aacs.Tls.{Tls, Handshake, HandshakeResult, finished, want_read, failure, refused}
use aacs.Drain.{drain, Buffered, Drains, drained}
use aacs.Frame.{Message, message}
use aacs.Wire.Codes.{plain, bulk, code, ssl_handshake}
use aacs.Wire.Bytes.{front16, push_back_int16}
use aacs.Client.Setup.{auth_complete_message}

-- The exceptions by their texts.
pub data Failure : Type 0 where
  expected_ssl_handshake ssl_connect_failed unknown_ssl_connect_failure : Failure

-- How a call of `doSslHandshake` ends. `stuck`: the drain outlasts its fuel.
pub data Shaken : Type 0 where
  returned : Bool → Shaken
  threw : Failure → Shaken
  stuck : Shaken

module _ (tls : Tls) where
  -- The members of the communicator that the handshake uses.
  pub record Shaking : Type 0 where
    pub ssl : Option tls.Session
    pub queue : List Message

  module _ (api : Handshake tls) where
    -- `initializeSsl` keeps a session that is there.
    unfoldable pub initialize_ssl : Option tls.Session → tls.Session
    initialize_ssl none = api.ssl_new
    initialize_ssl (some s) = s

    send_flight : Option (List ℕ × tls.Session) → Shaking → Shaken × Shaking
    send_flight none c = (stuck, c)
    send_flight (some (bytes, session)) c = (
      returned false,
      record {
        ssl = some session;
        queue =
            c.queue
            ++ message 0 (bit_or plain bulk) (push_back_int16 [] (code ssl_handshake) ++ bytes)
              ∷ [];
      },
    )

    after_connect : HandshakeResult × tls.Session → Shaking → Shaken × Shaking
    unfolding send_flight
    after_connect (finished, session) c = (returned true, record c { ssl = some session })
    after_connect (want_read, session) c =
        send_flight (drain tls (suc (api.pending session)) [] session) c
    after_connect (failure, session) c = (threw ssl_connect_failed, record c { ssl = some session })
    after_connect (refused, session) c =
        (threw unknown_ssl_connect_failure, record c { ssl = some session })

    -- The result of `BIO_write` is not looked at.
    unfoldable pub do_ssl_handshake : List ℕ → Shaking → Shaken × Shaking
    unfolding after_connect
    do_ssl_handshake msg_content c =
        if ltb 2 (length msg_content)
        then if front16 msg_content == code ssl_handshake
          then after_connect (api.ssl_shake (tls.bio_write session (drop 2 msg_content)).1) c
          else (threw expected_ssl_handshake, record c { ssl = some session })
        else after_connect (api.ssl_shake session) c
      where
        session : tls.Session
        session = initialize_ssl c.ssl

    unfoldable pub send_auth_complete : Shaking → Shaking
    send_auth_complete c = record c { queue = c.queue ++ auth_complete_message ∷ [] }

    module _ (bio : Buffered tls) where
      connect_sent :
          (c : Shaking) (s t : tls.Session)
          → api.pending s ≡ length (bio.waiting s)
          → Drains tls bio s t
          → after_connect (want_read, s) c ≡ (
            returned false,
            record {
              ssl = some t;
              queue =
                  c.queue
                  ++ message 0
                      (bit_or plain bulk)
                      (push_back_int16 [] (code ssl_handshake) ++ bio.waiting s)
                    ∷ [];
            },
          )
      unfolding after_connect send_flight
      connect_sent c s t p d =
          rw (drained tls bio (suc (api.pending s)) s t d (omega (arith, p))) refl

      -- What the call gives `SSL_connect`: the body of a handshake message, and nothing new where
      -- the content has no body.
      unfoldable pub given : List ℕ → tls.Session → tls.Session
      given [] s = s
      given (b ∷ body) s = (tls.bio_write s (b ∷ body)).1

      connects :
          (body : List ℕ) (c : Shaking)
          → do_ssl_handshake (push_back_int16 [] (code ssl_handshake) ++ body) c
            ≡ after_connect (api.ssl_shake (given body (initialize_ssl c.ssl))) c
      unfolding do_ssl_handshake given push_back_int16 front16
      connects [] c = refl
      connects (b ∷ body) c = ground arith

      -- A round that `SSL_connect` leaves with more to hear: what it left to send is queued.
      pub flight_queued :
          (body : List ℕ) (c : Shaking) (s t : tls.Session)
          → api.ssl_shake (given body (initialize_ssl c.ssl)) ≡ (want_read, s)
          → api.pending s ≡ length (bio.waiting s)
          → Drains tls bio s t
          → do_ssl_handshake (push_back_int16 [] (code ssl_handshake) ++ body) c ≡ (
            returned false,
            record {
              ssl = some t;
              queue =
                  c.queue
                  ++ message 0
                      (bit_or plain bulk)
                      (push_back_int16 [] (code ssl_handshake) ++ bio.waiting s)
                    ∷ [];
            },
          )
      flight_queued body c s t e p d = rw (connects body c, e) (connect_sent c s t p d)

      -- The first call, with empty content, starts the handshake.
      pub first_flight_queued :
          (c : Shaking) (s t : tls.Session)
          → api.ssl_shake (initialize_ssl c.ssl) ≡ (want_read, s)
          → api.pending s ≡ length (bio.waiting s)
          → Drains tls bio s t
          → do_ssl_handshake [] c ≡ (
            returned false,
            record {
              ssl = some t;
              queue =
                  c.queue
                  ++ message 0
                      (bit_or plain bulk)
                      (push_back_int16 [] (code ssl_handshake) ++ bio.waiting s)
                    ∷ [];
            },
          )
      unfolding do_ssl_handshake
      first_flight_queued c s t e p d = rw e (connect_sent c s t p d)

      -- A round in which `SSL_connect` finishes sends nothing.
      pub round_finished :
          (body : List ℕ) (c : Shaking) (s : tls.Session)
          → api.ssl_shake (given body (initialize_ssl c.ssl)) ≡ (finished, s)
          → do_ssl_handshake (push_back_int16 [] (code ssl_handshake) ++ body) c
            ≡ (returned true, record c { ssl = some s })
      unfolding after_connect
      round_finished body c s e = rw (connects body c, e) refl
