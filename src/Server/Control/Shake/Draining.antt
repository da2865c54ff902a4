-- ===== src/Server/Control/Shake/Draining.antt =====
-- The drain of the write BIO in `handleSslHandshake`, over a BIO that keeps its bytes in order.
use aacs.Prelude.{ℕ, suc, ◌≡◌, ◌≢◌, refl, List, [], ◌∷◌, ◌++◌, some, length, bit_or, arith}
use aacs.Tls.{Tls, Handshake, HandshakeResult, failure, finished, want_read, refused}
use aacs.Drain.{Buffered, Drains, drained, read_out}
use aacs.Frame.{message}
use aacs.Wire.Codes.{plain, bulk, code, ssl_handshake}
use aacs.Wire.Bytes.{push_back_int16}
use aacs.Server.Control.Signals.{Server, ok, send_message}
use aacs.Server.Control.Shake.{initialize_ssl, send_drained, after_accept, handle_ssl_handshake}

module _ (tls : Tls) (bio : Buffered tls) where
  flight_sent :
      (api : Handshake tls) (s : Server tls) (shaken t : tls.Session) (r : HandshakeResult)
      → r ≢ failure
      → api.pending shaken ≡ length (bio.waiting shaken)
      → Drains tls bio shaken t
      → after_accept tls api (r, shaken) s ≡ (
        ok tt,
        send_message tls 0
            (bit_or plain bulk)
            (push_back_int16 [] (code ssl_handshake) ++ bio.waiting shaken)
            (record s { ssl = some t }),
      )
  unfolding after_accept send_drained
  flight_sent api s shaken t failure n p d = absurd (n refl)
  flight_sent api s shaken t finished n p d =
      rw (drained tls bio (suc (api.pending shaken)) shaken t d (omega (arith, p))) refl
  flight_sent api s shaken t want_read n p d =
      rw (drained tls bio (suc (api.pending shaken)) shaken t d (omega (arith, p))) refl
  flight_sent api s shaken t refused n p d =
      rw (drained tls bio (suc (api.pending shaken)) shaken t d (omega (arith, p))) refl

  accepted :
      (api : Handshake tls) (s : Server tls) (shaken : tls.Session) (r : HandshakeResult)
      → r ≢ failure
      → api.pending shaken ≡ length (bio.waiting shaken)
      → ((after_accept tls api (r, shaken) s).0 ≡ ok tt)
        × ((after_accept tls api (r, shaken) s).1.queue
            ≡ s.queue
              ++ message 0
                  (bit_or plain bulk)
                  (push_back_int16 [] (code ssl_handshake) ++ bio.waiting shaken)
                ∷ [])
  unfolding send_message
  accepted api s shaken r n p =
      rw (flight_sent api s shaken (read_out tls bio shaken).0 r n p (read_out tls bio shaken).1)
        (refl, refl)

  -- A handshake message, with the session that answers it.
  pub flight_answered :
      (api : Handshake tls) (buf : List ℕ) (s : Server tls) (shaken t : tls.Session)
      (r : HandshakeResult)
      → api.ssl_shake (tls.bio_write (initialize_ssl tls api s.ssl) buf).1 ≡ (r, shaken)
      → r ≢ failure
      → api.pending shaken ≡ length (bio.waiting shaken)
      → Drains tls bio shaken t
      → handle_ssl_handshake tls api buf s ≡ (
        ok tt,
        send_message tls 0
            (bit_or plain bulk)
            (push_back_int16 [] (code ssl_handshake) ++ bio.waiting shaken)
            (record s { ssl = some t }),
      )
  unfolding handle_ssl_handshake
  flight_answered api buf s shaken t r e n p d = rw e (flight_sent api s shaken t r n p d)

  -- The answer to a handshake message of the head unit carries, behind its type, all that
  -- `SSL_accept` left to send, as one plain message on channel 0 behind those that wait: the drain
  -- comes to its end. The write BIO keeps its bytes in order, and `SSL_accept` did not fail.
  handshake_answered :
      (api : Handshake tls) (buf : List ℕ) (s : Server tls) (shaken : tls.Session)
      (r : HandshakeResult)
      → api.ssl_shake (tls.bio_write (initialize_ssl tls api s.ssl) buf).1 ≡ (r, shaken)
      → r ≢ failure
      → api.pending shaken ≡ length (bio.waiting shaken)
      → ((handle_ssl_handshake tls api buf s).0 ≡ ok tt)
        × ((handle_ssl_handshake tls api buf s).1.queue
            ≡ s.queue
              ++ message 0
                  (bit_or plain bulk)
                  (push_back_int16 [] (code ssl_handshake) ++ bio.waiting shaken)
                ∷ [])
  unfolding handle_ssl_handshake
  handshake_answered api buf s shaken r e n p = rw e (accepted api s shaken r n p)
