-- ===== src/Examples/Loopback.antt =====
-- A stand-in for OpenSSL without a cipher: a record is its plaintext behind one byte.
use aacs.Prelude.{
  ℕ, ◌≤◌, ◌<◌, ◌≡◌, refl, true, List, [], ◌∷◌, ◌++◌, Option, none, some, length, take, drop,
  take_all, drop_all, arith,
}
use aacs.Tls.{Tls, Link, Delivery, Handshake, finished}

pub record Session : Type 0 where
  pub inbound : List ℕ
  pub outbound : List ℕ

abbrev pub read_out : List ℕ → ℕ → Session → Option (List ℕ) × Session
read_out [] size s = (none, s)
read_out (b ∷ bs) size s = (some (take size (b ∷ bs)), record s { outbound = drop size (b ∷ bs) })

abbrev pub read_in : List ℕ → ℕ → Session → Option (List ℕ) × Session
read_in [] size s = (none, s)
read_in (b ∷ bs) size s = (some (take size bs), record s { inbound = drop size bs })

abbrev pub loopback : Tls
loopback = record {
  Session = Session;
  ssl_write = λ s p. (true, record s { outbound = s.outbound ++ 0x17 ∷ p });
  bio_read = λ s size. read_out s.outbound size s;
  bio_write = λ s c. (true, record s { inbound = s.inbound ++ c });
  ssl_read = λ s size. read_in s.inbound size s;
}

abbrev pub fresh : Session
fresh = record { inbound = []; outbound = [] }

abbrev pub handshake : Handshake loopback
handshake = record {
  ssl_new = fresh;
  ssl_shake = λ s. (finished, record s { outbound = 0x16 ∷ 0x03 ∷ [] });
  pending = λ s. length s.outbound;
}

abbrev pub IsSynced : Session → Session → Type 0
IsSynced s r = (s.outbound ≡ []) × (r.inbound ≡ [])

pub loopback_deliver :
    (s r : Session) (p : List ℕ)
    → IsSynced s r
    → 0 < length p
    → length p ≤ 16384
    → Delivery loopback IsSynced 1 s r p
loopback_deliver s r p (out, inn) pos le = record {
  cipher = 0x17 ∷ p;
  written = record s { outbound = 0x17 ∷ p };
  sent = record s { outbound = [] };
  received = record r { inbound = 0x17 ∷ p };
  opened = record r { inbound = [] };
  cipher_length = omega arith;
  on_write = rw out refl;
  on_bio_read = λ size h. rw (take_all size (0x17 ∷ p) h, drop_all size (0x17 ∷ p) h) refl;
  on_bio_write = rw inn refl;
  on_read = λ size h. rw (take_all size p h, drop_all size p h) refl;
  synced = (refl, refl);
}

abbrev pub loopback_link : Link loopback
loopback_link = record { Synced = IsSynced; overhead = 1; deliver = loopback_deliver }
