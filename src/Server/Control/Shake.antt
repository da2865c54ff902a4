-- ===== src/Server/Control/Shake.antt =====
-- `initializeSsl`, `handleSslHandshake` and `decryptMessage` of AAServer/src/AaCommunicator.cpp.
pub mod Draining
use aacs.Prelude.{ℕ, zero, suc, ◌*◌, Bool, true, false, List, [], ◌++◌, Option, none, some, bit_or}
use aacs.Tls.{Tls, Handshake, HandshakeResult, finished, want_read, failure, refused}
use aacs.Drain.{drain}
use aacs.Wire.Codes.{plain, bulk, code, ssl_handshake}
use aacs.Wire.Bytes.{push_back_int16}
use aacs.Server.Control.Signals.{
  Server, Result, ok, threw, stuck, bio_write_failed, ssl_read_failed, ssl_accept_failed,
  null_dereference, send_message,
}

module _ (tls : Tls) where
  open tls use {Session, bio_read, bio_write, ssl_read}

  module _ (api : Handshake tls) where
    -- `initializeSsl` keeps a session that is there.
    unfoldable pub initialize_ssl : Option Session → Session
    initialize_ssl none = api.ssl_new
    initialize_ssl (some s) = s

    pub send_drained : Option (List ℕ × Session) → Server tls → Result (Unit {0}) × Server tls
    send_drained none s = (stuck, s)
    send_drained (some (bytes, session)) s = (
      ok tt,
      send_message tls 0 (bit_or plain bulk) (push_back_int16 [] (code ssl_handshake) ++ bytes)
          (record s { ssl = some session }),
    )

    pub after_accept : HandshakeResult × Session → Server tls → Result (Unit {0}) × Server tls
    unfolding send_drained
    after_accept (failure, session) s = (threw ssl_accept_failed, record s { ssl = some session })
    after_accept (finished, session) s =
        send_drained (drain tls (suc (api.pending session)) [] session) s
    after_accept (want_read, session) s =
        send_drained (drain tls (suc (api.pending session)) [] session) s
    after_accept (refused, session) s =
        send_drained (drain tls (suc (api.pending session)) [] session) s

    -- The result of `BIO_write` is not looked at.
    unfoldable pub handle_ssl_handshake : List ℕ → Server tls → Result (Unit {0}) × Server tls
    unfolding initialize_ssl after_accept
    handle_ssl_handshake buf s =
        after_accept (api.ssl_shake (bio_write (initialize_ssl s.ssl) buf).1) s

  after_read : Option (List ℕ) × Session → Server tls → Result (List ℕ) × Server tls
  after_read (none, session) s = (threw ssl_read_failed, record s { ssl = some session })
  after_read (some bytes, session) s = (ok bytes, record s { ssl = some session })

  after_write : Bool × Session → Server tls → Result (List ℕ) × Server tls
  unfolding after_read
  after_write (false, session) s = (threw bio_write_failed, record s { ssl = some session })
  after_write (true, session) s = after_read (ssl_read session (100 * 1024)) s

  -- Before the handshake there is no session, and OpenSSL is given null pointers.
  pub decrypt_message : List ℕ → Server tls → Result (List ℕ) × Server tls
  unfolding after_write
  decrypt_message encrypted_msg s = elim s.ssl [
    | none ↦ (threw null_dereference, s)
    | some session ↦ after_write (bio_write session encrypted_msg) s
  ]
