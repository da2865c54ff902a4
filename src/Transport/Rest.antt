-- ===== src/Transport/Rest.antt =====
-- The frames behind a first frame, by induction on how many there are.
use aacs.Prelude.{
  ℕ, zero, suc, ◌+◌, ◌-◌, ◌*◌, ◌/◌, ◌%◌, ◌^◌, ◌≤◌, ◌<◌, ◌≡◌, refl, subst, ◌∙◌, bit_or, true, false,
  List, [], ◌∷◌, ◌++◌, length, take, drop, length-take, length-drop, take-append-drop,
  take-append-take, if◌then◌else◌, ltb, lt→ltb, arith,
}
use aacs.Prelude.Bits.{set_bulk}
use aacs.Wire.Codes.{bulk}
use aacs.Tls.{Tls, Link, Delivery}
use aacs.Frame.{
  Message, message, is_encrypted, is_first, header_size, header, cut, Cut, Outbox, next_frame, sent,
}
use aacs.Frame.Cuts.{IsSendable, is_encrypted_iff, cut_middle, cut_last}
use aacs.Frame.Sending.{next_frame_encrypted}
use aacs.Reassembly.{Transfer, received, got, receive_loop}
use aacs.Reassembly.Reading.{receive_encrypted}
use aacs.Transport.{transmit, Sizes, Carried}

module _ (tls : Tls) (link : Link tls) (max_size : ℕ) (room : ℕ → ℕ)
    (fits : Sizes tls link max_size room) where
  header_small : (f : ℕ) → header_size f ≤ 8
  unfolding header_size
  header_small f = ground arith

  -- One frame of an encrypted message on both sides.
  pub record Hop (m : Message) (rest : List Message) (s r : tls.Session) (c : Cut) : Type 0 where
    pub bytes : List ℕ
    pub after : tls.Session
    pub opened : tls.Session
    pub on_send :
        next_frame tls max_size room (record { queue = m ∷ rest; session = s })
        ≡ (sent bytes, record { queue = c.remaining ++ rest; session = after })
    pub on_receive :
        (full : List ℕ) (known : ℕ) (ts : List Transfer)
        → let n = if is_first c.frame_flags then length m.content else known in
          receive_loop tls (received bytes ∷ ts) r full known ≡ (
            if ltb (length (full ++ c.chunk)) n
            then receive_loop tls ts opened (full ++ c.chunk) n
            else (
              got (message m.channel (bit_or c.frame_flags bulk) (full ++ c.chunk)),
              opened,
              ts,
            ))
    pub synced : link.Synced after opened

  Hop-of_Delivery :
      (m : Message) (rest : List Message) (s r : tls.Session)
      → IsSendable m
      → is_encrypted m.flags ≡ true
      → is_encrypted (cut max_size m).frame_flags ≡ true
      → length (cut max_size m).chunk ≤ max_size
      → Delivery tls link.Synced link.overhead s r (cut max_size m).chunk
      → Hop m rest s r (cut max_size m)
  Hop-of_Delivery m rest s r v enc enc' small d =
      let total : length m.content % 2 ^ 32 ≡ length m.content = omega (arith, v.small) in
      record {
        bytes =
            header m.channel (cut max_size m).frame_flags (length d.cipher) (length m.content)
            ++ d.cipher;
        after = d.sent;
        opened = d.opened;
        on_send = rw total at (
            next_frame_encrypted tls link.Synced link.overhead max_size room m rest s r d enc (
              omega (
                arith,
                d.cipher_length,
                fits.has_room (header_size (cut max_size m).frame_flags) (header_small _),
              )));
        on_receive = λ full known ts.
            receive_encrypted tls link.Synced link.overhead m.channel (cut max_size m).frame_flags
              (length m.content) (cut max_size m).chunk full known s r d ts
              (omega (arith, d.cipher_length, fits.length_field)) v.small enc'
              (omega (arith, fits.record_size));
        synced = d.synced;
      }

  pub hop :
      (m : Message) (rest : List Message) (s r : tls.Session) (c : Cut)
      → cut max_size m ≡ c
      → IsSendable m
      → link.Synced s r
      → is_encrypted m.flags ≡ true
      → is_encrypted c.frame_flags ≡ true
      → 0 < length c.chunk
      → length c.chunk ≤ max_size
      → Hop m rest s r c
  hop m rest s r c e v sy enc enc' pos small = subst (Hop m rest s r) e (
      Hop-of_Delivery m rest s r v enc (rw e enc') (rw e small) (
        link.deliver s r (cut max_size m).chunk sy (rw e pos)
          (rw e (omega (arith, fits.record_size)))))

  abbrev sending : Message → List Message → tls.Session → Outbox tls
  sending m rest s = record { queue = m ∷ rest; session = s }

  -- The number that the receiver compares the content's length with, after a frame of `c`.
  abbrev target : Message → Cut → ℕ → ℕ
  target m c known = if is_first c.frame_flags then length m.content else known

  pub ends :
      (m : Message) (rest : List Message) (s r : tls.Session) (c : Cut) (full : List ℕ) (known : ℕ)
      (whole : Message)
      → Hop m rest s r c
      → c.remaining ≡ []
      → ltb (length (full ++ c.chunk)) (target m c known) ≡ false
      → message m.channel (bit_or c.frame_flags bulk) (full ++ c.chunk) ≡ whole
      → Carried tls link max_size room 1 (sending m rest s) r full known whole rest
  unfolding transmit
  ends m rest s r c full known whole h none_left test e = record {
    frames = received h.bytes ∷ [];
    after = h.after;
    opened = h.opened;
    on_transmit = rw (h.on_send, none_left) refl;
    on_receive = λ later. h.on_receive full known later ∙ rw (test, e) refl;
    synced = h.synced;
  }

  pub goes_on :
      (n : ℕ) (m m' : Message) (rest : List Message) (s r : tls.Session) (c : Cut)
      (full full' : List ℕ) (known known' : ℕ) (whole : Message) (h : Hop m rest s r c)
      → c.remaining ≡ m' ∷ []
      → full ++ c.chunk ≡ full'
      → target m c known ≡ known'
      → length full' < known'
      → Carried tls link max_size room n (sending m' rest h.after) h.opened full' known' whole rest
      → Carried tls link max_size room (suc n) (sending m rest s) r full known whole rest
  unfolding transmit
  goes_on n m m' rest s r c full full' known known' whole h one_left e t lt next = record {
    frames = received h.bytes ∷ next.frames;
    after = next.after;
    opened = next.opened;
    on_transmit = rw (h.on_send, one_left) (rw next.on_transmit refl);
    on_receive = λ later.
        h.on_receive full known (next.frames ++ later)
        ∙ rw (e, t, lt→ltb _ _ lt) (next.on_receive later);
    synced = next.synced;
  }

  module _ (m : Message) (rest : List Message) (v : IsSendable m) (b : m.flags % 4 ≡ 0)
      (en : m.flags / 8 % 2 ≡ 1) where
    -- The last frame.
    carry_last :
        (s r : tls.Session)
        → link.Synced s r
        → m.offset < length m.content
        → length m.content - m.offset ≤ max_size
        → Carried tls link max_size room 1
            (sending m rest s)
            r
            (take m.offset m.content)
            (length m.content)
            (message m.channel (m.flags + 3) m.content)
            rest
    carry_last s r sy lo hi =
        ends m rest s r
          (record { frame_flags = m.flags + 2; chunk = drop m.offset m.content; remaining = [] })
          (take m.offset m.content) (length m.content) _
          (hop m rest s r _ (cut_last max_size m v b hi) v sy
            (rw (is_encrypted_iff m.flags v.byte_flags) (ground arith))
            (rw (is_encrypted_iff (m.flags + 2) (omega arith)) (ground arith))
            (omega (arith, length-drop m.offset m.content))
            (omega (arith, length-drop m.offset m.content)))
          refl (rw (take-append-drop m.offset m.content) (ground arith))
          (ground
            (arith, set_bulk (m.flags + 2) (omega arith), take-append-drop m.offset m.content))

  -- All the frames behind the first: `k` more, and the last.
  pub carry_rest :
      (k : ℕ) (m : Message) (rest : List Message) (s r : tls.Session)
      → IsSendable m
      → link.Synced s r
      → m.flags % 4 ≡ 0
      → m.flags / 8 % 2 ≡ 1
      → max_size * k < length m.content - m.offset
      → length m.content - m.offset ≤ max_size * suc k
      → Carried tls link max_size room
          (suc k)
          (sending m rest s)
          r
          (take m.offset m.content)
          (length m.content)
          (message m.channel (m.flags + 3) m.content)
          rest
  carry_rest zero m rest s r v sy b en lo hi =
      carry_last m rest v b en s r sy (omega arith) (omega arith)
  carry_rest (suc k) m rest s r v sy b en lo hi =
      let more : max_size < length m.content - m.offset = grind arith in
      let next : Message = record m { offset = m.offset + max_size } in
      let h =
        hop m rest s r _ (cut_middle max_size m v b more) v sy
          (rw (is_encrypted_iff m.flags v.byte_flags) (ground arith))
          (rw (is_encrypted_iff m.flags v.byte_flags) (ground arith))
          (omega (
            arith,
            length-take max_size (drop m.offset m.content),
            length-drop m.offset m.content,
            fits.positive,
          ))
          (omega (arith, length-take max_size (drop m.offset m.content))) in
      goes_on (suc k) m next rest s r _ (take m.offset m.content) (take next.offset m.content)
        (length m.content) (length m.content) _ h refl
        (take-append-take m.offset max_size _ m.content refl) (ground arith)
        (omega (arith, length-take next.offset m.content))
        (carry_rest k next rest h.after h.opened
          (record { byte_flags = v.byte_flags; within = omega arith; small = v.small }) h.synced b
          en (omega arith) (omega arith))
