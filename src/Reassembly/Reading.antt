-- ===== src/Reassembly/Reading.antt =====
-- A frame that the sender wrote, as the receiver reads it.
use aacs.Prelude.{
  ℕ, ◌/◌, ◌%◌, ◌^◌, ◌≤◌, ◌<◌, ◌≡◌, refl, ◌∙◌, bit_and, bit_or, true, false, List, [], ◌∷◌, ◌++◌,
  length, ltb, le→ltb, if◌then◌else◌, none, some, arith, Bool-cases, inl, inr,
}
use aacs.Prelude.Words.{bit_and_byte}
use aacs.Wire.Bytes.{uint8, join16, join32}
use aacs.Wire.Bytes.RoundTrip.{join16-sum, join32-sum}
use aacs.Wire.Codes.{bulk}
use aacs.Tls.{Tls, Delivery}
use aacs.Frame.{message, is_encrypted, is_first, header, header_size}
use aacs.Reassembly.{
  Transfer, received, Frame, frame, read_frame, got, plain, decrypt_message, content_of,
  receive_loop,
}

length_field : (n : ℕ) → n < 2 ^ 16 → join16 (uint8 (n / 2 ^ 8)) (bit_and n 0xff) ≡ n
length_field n h =
    rw (bit_and_byte n) (join16-sum (n / 256 % 256) (n % 256) (omega arith) ∙ omega arith)

total_field :
    (n : ℕ)
    → n < 2 ^ 31
    → join32
        (bit_and (n / 2 ^ 24) 0xff)
        (bit_and (n / 2 ^ 16) 0xff)
        (bit_and (n / 2 ^ 8) 0xff)
        (bit_and n 0xff)
      ≡ n
total_field n h =
    rw
      (
        bit_and_byte (n / 2 ^ 24),
        bit_and_byte (n / 2 ^ 16),
        bit_and_byte (n / 2 ^ 8),
        bit_and_byte n,
      )
      (join32-sum (n / 2 ^ 24 % 256) (n / 2 ^ 16 % 256) (n / 2 ^ 8 % 256) (n % 256) (omega arith)
          (omega arith) (omega arith)
        ∙ omega arith)

-- The length and the total that the header states are those that were put in.
pub read_frame-header :
    (channel flags total : ℕ) (body : List ℕ)
    → length body < 2 ^ 16
    → total < 2 ^ 31
    → read_frame (received (header channel flags (length body) total ++ body))
      ≡ frame (record {
        channel = channel;
        flags = flags;
        total = if is_first flags then some total else none;
        body = body;
      })
unfolding read_frame header header_size
read_frame-header channel flags total body hb ht = elim (Bool-cases (is_first flags)) [
  | inl e ↦ rw e (ground (arith, length_field (length body) hb, total_field total ht))
  | inr e ↦ rw e (ground (arith, length_field (length body) hb))
]

module _ (tls : Tls) where
  content_plain :
      (f : Frame) (s : tls.Session)
      → is_encrypted f.flags ≡ false
      → content_of tls f s ≡ (plain f.body, s)
  unfolding content_of
  content_plain f s e = rw e refl

  module _ (Synced : tls.Session → tls.Session → Type 0) (overhead : ℕ) where
    content_delivered :
        (f : Frame) (p : List ℕ) (s r : tls.Session) (d : Delivery tls Synced overhead s r p)
        → f.body ≡ d.cipher
        → is_encrypted f.flags ≡ true
        → length p ≤ 20000
        → content_of tls f r ≡ (plain p, d.opened)
    unfolding content_of decrypt_message
    content_delivered f p s r d e enc h = rw (enc, e, d.on_bio_write, d.on_read 20000 h) refl

    -- The receiver's round on a frame that carries `p` encrypted: it goes on while the content is
    -- shorter than the total that the first frame stated, and otherwise returns the message.
    pub receive_encrypted :
        (channel flags total : ℕ) (p full : List ℕ) (known : ℕ) (s r : tls.Session)
        (d : Delivery tls Synced overhead s r p) (ts : List Transfer)
        → length d.cipher < 2 ^ 16
        → total < 2 ^ 31
        → is_encrypted flags ≡ true
        → length p ≤ 20000
        → let n = if is_first flags then total else known in
          receive_loop tls
            (received (header channel flags (length d.cipher) total ++ d.cipher) ∷ ts)
            r
            full
            known
          ≡ (if ltb (length (full ++ p)) n
              then receive_loop tls ts d.opened (full ++ p) n
              else (got (message channel (bit_or flags bulk) (full ++ p)), d.opened, ts))
    unfolding receive_loop
    receive_encrypted channel flags total p full known s r d ts hb ht enc hp =
        rw (read_frame-header channel flags total d.cipher hb ht) (
          rw
            (content_delivered
              (record {
                channel = channel;
                flags = flags;
                total = if is_first flags then some total else none;
                body = d.cipher;
              })
              p s r d refl enc hp)
            (elim (Bool-cases (is_first flags)) [ inl e ↦ rw e refl | inr e ↦ rw e refl ]))

  -- The receiver's round on a plain message, with nothing read before.
  pub receive_plain :
      (channel flags : ℕ) (body : List ℕ) (r : tls.Session) (ts : List Transfer)
      → length body < 2 ^ 16
      → is_encrypted flags ≡ false
      → is_first flags ≡ false
      → receive_loop tls (received (header channel flags (length body) 0 ++ body) ∷ ts) r [] 0
        ≡ (got (message channel (bit_or flags bulk) body), r, ts)
  unfolding receive_loop content_of
  receive_plain channel flags body r ts h e f =
      rw (read_frame-header channel flags 0 body h (omega arith))
        (rw (e, f, le→ltb (length body) 0 (omega arith)) refl)
