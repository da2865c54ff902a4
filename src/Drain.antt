-- ===== src/Drain.antt =====
-- The drain of the write BIO, which AAServer/src/AaCommunicator.cpp (`handleSslHandshake`) and
-- AAClient/src/AaCommunicator.cpp (`doSslHandshake`) share, over a BIO that keeps its bytes in order.
use aacs.Prelude.{
  ℕ, zero, suc, ◌≤◌, ◌<◌, ◌≡◌, refl, ◌∙◌, List, [], ◌∷◌, ◌++◌, Option, none, some, length,
  length-drop, take, drop, take-append-drop, append_assoc, append-nil, arith,
}
use aacs.Tls.{Tls}

module _ (tls : Tls) where
  open tls use {Session, bio_read}

  -- `while ((len = BIO_read(writeBio, buffer, 512)) != -1)`; `none` means that the fuel ran out.
  drain_step : ℕ → List ℕ → Option (List ℕ) × Session → Option (List ℕ × Session)
  drain_step fuel out (none, s) = some (out, s)
  drain_step zero out (some bytes, s) = none
  drain_step (suc fuel) out (some bytes, s) = drain_step fuel (out ++ bytes) (bio_read s 512)

  pub drain : ℕ → List ℕ → Session → Option (List ℕ × Session)
  unfolding drain_step
  drain fuel out s = drain_step fuel out (bio_read s 512)

-- A memory BIO of OpenSSL: `BIO_read` takes the first bytes that wait, and -1 says that none do.
pub record Buffered (tls : Tls) : Type 0 where
  pub waiting : tls.Session → List ℕ
  pub at_end : (s : tls.Session) (size : ℕ) → waiting s ≡ [] → (tls.bio_read s size).0 ≡ none
  pub reads :
      (s : tls.Session) (size : ℕ)
      → 0 < size
      → 0 < length (waiting s)
      → (tls.bio_read s size).0 ≡ some (take size (waiting s))
  pub leaves :
      (s : tls.Session) (size : ℕ) → waiting (tls.bio_read s size).1 ≡ drop size (waiting s)

module _ (tls : Tls) (bio : Buffered tls) where
  open tls use {Session, bio_read}

  -- The second session is the first one after the calls of `BIO_read` that find its bytes, and the
  -- one that finds none.
  pub data Drains : Session → Session → Type 0 where
    finds_none : {s : Session} → bio.waiting s ≡ [] → Drains s (bio_read s 512).1
    finds_some :
        {s t : Session} → 0 < length (bio.waiting s) → Drains (bio_read s 512).1 t → Drains s t

  drained_step :
      (fuel : ℕ) (out w : List ℕ) (s t : Session)
      → Drains s t
      → bio.waiting s ≡ w
      → length w ≤ fuel
      → drain_step tls fuel out (bio_read s 512) ≡ some (out ++ w, t)
  unfolding drain_step
  drained_step fuel out [] s t (finds_none e) h le = rw (bio.at_end s 512 e, append-nil out) refl
  drained_step fuel out (b ∷ w) s t (finds_none e) h le = absurd (ground (arith, e, h))
  drained_step fuel out [] s t (finds_some pos d) h le = absurd (ground (arith, pos, h))
  drained_step zero out (b ∷ w) s t (finds_some pos d) h le = absurd (omega arith)
  drained_step (suc fuel) out (b ∷ w) s t (finds_some pos d) h le =
      let first : (bio_read s 512).0 ≡ some (take 512 (b ∷ w)) =
        bio.reads s 512 (omega arith) pos ∙ rw h refl in
      rw first (
        drained_step fuel (out ++ take 512 (b ∷ w)) (drop 512 (b ∷ w)) (bio_read s 512).1 t d
          (bio.leaves s 512 ∙ rw h refl) (omega (arith, length-drop 512 (b ∷ w)))
        ∙ rw (append_assoc out (take 512 (b ∷ w)) (drop 512 (b ∷ w)), take-append-drop 512 (b ∷ w))
            refl)

  -- The drain takes all the bytes that wait.
  pub drained :
      (fuel : ℕ) (s t : Session)
      → Drains s t
      → length (bio.waiting s) ≤ fuel
      → drain tls fuel [] s ≡ some (bio.waiting s, t)
  unfolding drain
  drained fuel s t d le = drained_step fuel [] (bio.waiting s) s t d refl le

  read_out_by :
      (n : ℕ) (s : Session) (w : List ℕ)
      → bio.waiting s ≡ w
      → length w ≤ n
      → (t : Session) × Drains s t
  read_out_by n s [] e le = ((bio_read s 512).1, finds_none e)
  read_out_by zero s (b ∷ w) e le = absurd (omega arith)
  read_out_by (suc n) s (b ∷ w) e le =
      let rest =
        read_out_by n (bio_read s 512).1 (drop 512 (b ∷ w)) (bio.leaves s 512 ∙ rw e refl)
          (omega (arith, length-drop 512 (b ∷ w))) in
      (rest.0, finds_some (rw e (omega arith)) rest.1)

  -- Every session is drained by some number of calls.
  pub read_out : (s : Session) → (t : Session) × Drains s t
  read_out s = read_out_by (length (bio.waiting s)) s (bio.waiting s) refl (omega arith)
