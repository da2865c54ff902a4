-- ===== src/Tls.antt =====
-- OpenSSL as the program uses it: an SSL object over two memory BIOs. It is not part of the
-- repository, so it is a parameter: its calls as functions on a session, and as a law what the code
-- relies on, that an established pair of sessions carries each written record to the other side.
use aacs.Prelude.{ℕ, ◌+◌, ◌≤◌, ◌<◌, ◌≡◌, Bool, true, List, Option, some, length}

pub record Tls : Type 1 where
  pub Session : Type 0
  -- `SSL_write(ssl, …)`: false for a negative result.
  pub ssl_write : Session → List ℕ → Bool × Session
  -- `BIO_read(writeBio, …, size)`: `none` for a negative result.
  pub bio_read : Session → ℕ → Option (List ℕ) × Session
  -- `BIO_write(readBio, …)`: false for a negative result.
  pub bio_write : Session → List ℕ → Bool × Session
  -- `SSL_read(ssl, …, size)`: `none` for a negative result.
  pub ssl_read : Session → ℕ → Option (List ℕ) × Session

-- How `SSL_accept` and `SSL_connect` return: 1, -1 with `SSL_ERROR_WANT_READ`, -1 with another
-- error, or another number.
pub data HandshakeResult : Type 0 where
  finished want_read failure refused : HandshakeResult

-- The calls that set a session up.
pub record Handshake (tls : Tls) : Type 0 where
  -- `SSL_new` with two new memory BIOs, in the state that the side sets.
  pub ssl_new : tls.Session
  -- `SSL_accept` or `SSL_connect`.
  pub ssl_shake : tls.Session → HandshakeResult × tls.Session
  -- How many bytes wait in the write BIO.
  pub pending : tls.Session → ℕ

module _ (tls : Tls) where
  open tls use {Session, ssl_write, bio_read, bio_write, ssl_read}

  -- The plaintext `p`, written on one side, read out as `cipher`, and read on the other side.
  pub record Delivery (Synced : Session → Session → Type 0) (overhead : ℕ) (s r : Session)
      (p : List ℕ) : Type 0 where
    pub cipher : List ℕ
    pub written : Session
    pub sent : Session
    pub received : Session
    pub opened : Session
    pub cipher_length : length cipher ≤ length p + overhead
    pub on_write : ssl_write s p ≡ (true, written)
    pub on_bio_read :
        (size : ℕ) → length cipher ≤ size → bio_read written size ≡ (some cipher, sent)
    pub on_bio_write : bio_write r cipher ≡ (true, received)
    pub on_read : (size : ℕ) → length p ≤ size → ssl_read received size ≡ (some p, opened)
    pub synced : Synced sent opened

  -- `Synced s r`: the handshake is over, and `r` has read all that `s` has written. A record holds
  -- 1 to 16384 bytes of plaintext, and is longer by `overhead` bytes at most.
  pub record Link : Type 1 where
    pub Synced : Session → Session → Type 0
    pub overhead : ℕ
    pub deliver :
        (s r : Session) (p : List ℕ)
        → Synced s r
        → 0 < length p
        → length p ≤ 16384
        → Delivery Synced overhead s r p
