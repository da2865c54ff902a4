-- ===== src/Transport/Single.antt =====
-- One whole message, plain or encrypted, from the front of the queue to the other side.
use aacs.Prelude.{
  ℕ, zero, suc, ◌+◌, ◌-◌, ◌*◌, ◌/◌, ◌%◌, ◌^◌, ◌≤◌, ◌<◌, ◌≡◌, refl, ◌∙◌, false, List, [], ◌∷◌, ◌++◌,
  length, take, drop, length-take, length-drop, take-append-take, if◌then◌else◌, arith, ◌⊎◌, inl,
  inr,
}
use native.Mathlib.Nat.{div-add-mod, mod-lt}
use aacs.Prelude.Bits.{set_bulk}
use aacs.Tls.{Tls, Link}
use aacs.Frame.{Message, message, is_encrypted, is_first, header, Outbox}
use aacs.Frame.Cuts.{IsSendable, is_encrypted_iff, is_first_iff, cut_full, cut_first}
use aacs.Frame.Sending.{next_frame_plain}
use aacs.Reassembly.{received}
use aacs.Reassembly.Reading.{receive_plain}
use aacs.Transport.{transmit, frame_count, Sizes, Carried}
use aacs.Transport.Rest.{hop, ends, goes_on, carry_rest}

-- A message as `sendMessage` queues it: one byte of flags with both frame bits, and content that a
-- TLS record or a plain frame can hold.
pub record IsQueued (m : Message) : Type 0 where
  pub byte_flags : m.flags < 256
  pub whole : m.flags % 4 ≡ 3
  pub from_start : m.offset ≡ 0
  pub fits_kind :
      ((m.flags / 8 % 2 ≡ 1) × (0 < length m.content) × (length m.content < 2 ^ 31))
      ⊎ ((m.flags / 8 % 2 ≡ 0) × (length m.content < 2 ^ 16))

-- How many frames it takes.
abbrev pub frames_of : ℕ → Message → ℕ
frames_of max_size m = if is_encrypted m.flags then frame_count max_size (length m.content) else 1

quotient : (n d q : ℕ) → 0 < d → n / d ≡ q → (d * q ≤ n) × (n < d * suc q)
quotient n d q pos e =
    rw (← e)
      (omega (arith, div-add-mod n d, mod-lt n pos), omega (arith, div-add-mod n d, mod-lt n pos))

module _ (tls : Tls) (link : Link tls) (max_size : ℕ) (room : ℕ → ℕ)
    (fits : Sizes tls link max_size room) where
  abbrev sending : Message → List Message → tls.Session → Outbox tls
  sending m rest s = record { queue = m ∷ rest; session = s }

  module _ (m : Message) (rest : List Message) (s r : tls.Session) (sy : link.Synced s r)
      (v : IsSendable m) (b : m.flags % 4 ≡ 3) (o : m.offset ≡ 0) (en : m.flags / 8 % 2 ≡ 1) where
    carry_whole :
        0 < length m.content
        → length m.content ≤ max_size
        → Carried tls link max_size room 1
            (sending m rest s)
            r
            []
            0
            (message m.channel m.flags m.content)
            rest
    carry_whole pos le =
        ends tls link max_size room fits m rest s r _ [] 0 _
          (hop tls link max_size room fits m rest s r _ (cut_full max_size m v b (omega arith)) v sy
            (rw (is_encrypted_iff m.flags v.byte_flags) (ground arith))
            (rw (is_encrypted_iff m.flags v.byte_flags) (ground arith))
            (omega (arith, length-drop m.offset m.content))
            (omega (arith, length-drop m.offset m.content)))
          refl (ground (arith, is_first_iff m.flags v.byte_flags))
          (ground (arith, set_bulk m.flags v.byte_flags))

    carry_parts :
        (k : ℕ)
        → max_size * suc k < length m.content
        → length m.content ≤ max_size * suc (suc k)
        → Carried tls link max_size room
            (suc (suc k))
            (sending m rest s)
            r
            []
            0
            (message m.channel m.flags m.content)
            rest
    carry_parts k lo hi =
        let more : max_size < length m.content - m.offset = grind arith in
        let next : Message = record m { flags = m.flags - 3; offset = m.offset + max_size } in
        let h =
          hop tls link max_size room fits m rest s r _ (cut_first max_size m v b more) v sy
            (rw (is_encrypted_iff m.flags v.byte_flags) (ground arith))
            (rw (is_encrypted_iff (m.flags - 2) (omega arith)) (ground arith))
            (omega (
              arith,
              length-take max_size (drop m.offset m.content),
              length-drop m.offset m.content,
              fits.positive,
            ))
            (omega (arith, length-take max_size (drop m.offset m.content))) in
        let none_yet : take m.offset m.content ≡ [] = rw o refl in
        let back : m.flags - 3 + 3 ≡ m.flags = omega arith in
        goes_on tls link max_size room fits (suc k) m next rest s r _ []
          (take next.offset m.content) 0 (length m.content) _ h refl
          (rw none_yet at (take-append-take m.offset max_size next.offset m.content refl))
          (ground (arith, is_first_iff (m.flags - 2) (omega arith)))
          (omega (arith, length-take next.offset m.content))
          (rw back at (
            carry_rest tls link max_size room fits k next rest h.after h.opened
              (record { byte_flags = omega arith; within = omega arith; small = v.small }) h.synced
              (omega arith) (omega arith) (omega arith) (omega arith)))

    -- `sendMessage` with the encryption flag, drained by the frames that its length needs.
    carry_encrypted :
        0 < length m.content
        → Carried tls link max_size room
            (frame_count max_size (length m.content))
            (sending m rest s)
            r
            []
            0
            (message m.channel m.flags m.content)
            rest
    carry_encrypted pos = by_count ((length m.content - 1) / max_size) refl
      where
        by_count :
            (k : ℕ)
            → (length m.content - 1) / max_size ≡ k
            → Carried tls link max_size room
                (suc k)
                (sending m rest s)
                r
                []
                0
                (message m.channel m.flags m.content)
                rest
        by_count zero e =
            carry_whole pos
              (omega (arith, quotient (length m.content - 1) max_size _ fits.positive e))
        by_count (suc k) e =
            carry_parts k
              (omega (arith, quotient (length m.content - 1) max_size _ fits.positive e))
              (omega (arith, quotient (length m.content - 1) max_size _ fits.positive e))

  carry_plain :
      (m : Message) (rest : List Message) (s r : tls.Session)
      → link.Synced s r
      → IsQueued m
      → m.flags / 8 % 2 ≡ 0
      → length m.content < 2 ^ 16
      → Carried tls link max_size room 1
          (sending m rest s)
          r
          []
          0
          (message m.channel m.flags m.content)
          rest
  unfolding transmit
  carry_plain m rest s r sy q pl small =
      let e : is_encrypted m.flags ≡ false =
        rw (is_encrypted_iff m.flags q.byte_flags) (ground arith) in
      let f : is_first m.flags ≡ false = rw (is_first_iff m.flags q.byte_flags) (ground arith) in
      record {
        frames = received (header m.channel m.flags (length m.content) 0 ++ m.content) ∷ [];
        after = s;
        opened = r;
        on_transmit = rw (next_frame_plain tls max_size room m rest s e f small) refl;
        on_receive = λ later.
            receive_plain tls m.channel m.flags m.content r later small e f
            ∙ ground (arith, set_bulk m.flags q.byte_flags);
        synced = sy;
      }

  -- Every queued message arrives as it was queued, and in exactly the frames that it needs.
  pub carry_message :
      (m : Message) (rest : List Message) (s r : tls.Session)
      → link.Synced s r
      → IsQueued m
      → Carried tls link max_size room
          (frames_of max_size m)
          (sending m rest s)
          r
          []
          0
          (message m.channel m.flags m.content)
          rest
  carry_message m rest s r sy q = by_kind q.fits_kind
    where
      by_kind :
          ((m.flags / 8 % 2 ≡ 1) × (0 < length m.content) × (length m.content < 2 ^ 31))
            ⊎ ((m.flags / 8 % 2 ≡ 0) × (length m.content < 2 ^ 16))
          → Carried tls link max_size room
              (frames_of max_size m)
              (sending m rest s)
              r
              []
              0
              (message m.channel m.flags m.content)
              rest
      by_kind (inl (en, pos, small)) =
          rw (is_encrypted_iff m.flags q.byte_flags, en)
            (carry_encrypted m rest s r sy
              (record {
                byte_flags = q.byte_flags;
                within = omega (arith, q.from_start);
                small = small;
              })
              q.whole q.from_start en pos)
      by_kind (inr (pl, small)) =
          rw (is_encrypted_iff m.flags q.byte_flags, pl) (carry_plain m rest s r sy q pl small)
