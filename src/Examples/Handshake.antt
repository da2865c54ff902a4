-- ===== src/Examples/Handshake.antt =====
-- The handshake's answer over the stand-in for OpenSSL.
use aacs.Proxy.Handshake.{
  Handshaking, connected, exchanges, complete, shake_hands, handshake_completes,
}
use aacs.Client.Setup.Shake.{Shaking, given, initialize_ssl as connect_session}
use aacs.Server.Control.Dispatch.{send_service_discovery_request}
use aacs.Examples.Server.{proto}
use aacs.Prelude.{
  ℕ, ◌<◌, ◌≡◌, refl, List, [], ◌∷◌, zero, suc, some, length, take, drop, arith, none,
}
use aacs.Tls.{finished, Handshake, HandshakeResult, want_read}
use aacs.Server.Control.Signals.{initial}
use aacs.Server.Control.Shake.{initialize_ssl}
use aacs.Drain.{Buffered, finds_none, finds_some}
use aacs.Examples.Loopback.{Session, read_out, loopback, handshake, fresh}

read_out_first :
    (out : List ℕ) (size : ℕ) (s : Session)
    → 0 < length out
    → (read_out out size s).0 ≡ some (take size out)
read_out_first [] size s h = absurd (omega arith)
read_out_first (b ∷ out) size s h = refl

read_out_rest :
    (out : List ℕ) (size : ℕ) (s : Session)
    → s.outbound ≡ out
    → (read_out out size s).1.outbound ≡ drop size out
read_out_rest [] zero s e = e
read_out_rest [] (suc size) s e = e
read_out_rest (b ∷ out) size s e = refl

abbrev loopback_bio : Buffered loopback
loopback_bio = record {
  waiting = λ s. s.outbound;
  at_end = λ s size e. rw e refl;
  reads = λ s size pos some_wait. read_out_first s.outbound size s some_wait;
  leaves = λ s size. read_out_rest s.outbound size s refl;
}

abbrev shaken : Session
shaken = record { inbound = 5 ∷ []; outbound = 0x16 ∷ 0x03 ∷ [] }

connect_step : List ℕ → Session → HandshakeResult × Session
connect_step [] s = (want_read, record s { outbound = 0x16 ∷ 0x01 ∷ [] })
connect_step (b ∷ bs) s = (finished, record s { inbound = [] })

-- A client that says hello, and finishes when it has heard anything.
abbrev hello : Handshake loopback
hello = record {
  ssl_new = fresh;
  ssl_shake = λ s. connect_step s.inbound s;
  pending = λ s. length s.outbound;
}

abbrev unshaken : Shaking loopback
unshaken = record { ssl = none; queue = [] }

abbrev greeted : Session
greeted = record { inbound = 0x16 ∷ 0x01 ∷ []; outbound = [] }

hello_completes :
    Handshaking loopback hello handshake proto loopback_bio 1 fresh fresh fresh greeted
unfolding given connect_step
hello_completes =
    exchanges {c1 = record { inbound = []; outbound = 0x16 ∷ 0x01 ∷ [] }} {c2 = fresh}
      {s1 = record { inbound = 0x16 ∷ 0x01 ∷ []; outbound = 0x16 ∷ 0x03 ∷ [] }} {s2 = greeted}
      {r = finished} refl (finds_some (omega arith) (finds_none refl)) refl (λ e. ground arith)
      (finds_some (omega arith) (finds_none refl)) (connected refl)

handshake_completes_example :
    shake_hands loopback hello handshake proto 2 [] unshaken (initial loopback) ≡ (
      complete,
      record { ssl = some fresh; queue = [] },
      send_service_discovery_request loopback proto
          (record (initial loopback) { ssl = some greeted; queue = [] }),
    )
unfolding initial initialize_ssl connect_session given
handshake_completes_example =
    handshake_completes loopback hello handshake proto loopback_bio 0 unshaken (initial loopback)
      fresh greeted (λ x. refl) (λ x. refl) refl refl hello_completes
