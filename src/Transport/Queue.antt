-- ===== src/Transport/Queue.antt =====
-- The whole send queue, in order.
use aacs.Prelude.{
  ℕ, zero, suc, ◌+◌, ◌≡◌, refl, ap, sym, List, [], ◌∷◌, ◌++◌, append_assoc, map, All, length, arith,
}
use aacs.Tls.{Tls, Link}
use aacs.Frame.{Message, message, Outbox, Sent, next_frame}
use aacs.Reassembly.{Transfer, Received, got, get_message}
use aacs.Transport.{transmit, Sizes, transfer_of}
use aacs.Transport.Single.{IsQueued, frames_of, carry_message}

-- `getMessage` called a number of times.
module _ (tls : Tls) where
  pub receive_many : ℕ → List Transfer → tls.Session → List Received × tls.Session × List Transfer
  receive_many zero ts s = ([], s, ts)
  receive_many (suc k) ts s =
      let (m, s1, ts1) = get_message tls ts s in
      let (ms, s2, ts2) = receive_many k ts1 s1 in (m ∷ ms, s2, ts2)

-- What the other side makes of a queued message.
abbrev pub arrived : Message → Received
arrived m = got (message m.channel m.flags m.content)

abbrev pub frame_total : ℕ → List Message → ℕ
frame_total max_size [] = 0
frame_total max_size (m ∷ ms) = frames_of max_size m + frame_total max_size ms

module _ (tls : Tls) (link : Link tls) (step : Outbox tls → Sent × Outbox tls) where
  -- `n` calls of the sender empty the queue onto the wire, and the other side makes the same
  -- messages of the frames, in the same order, with nothing left over.
  pub record Emptied (n : ℕ) (queue : List Message) (s r : tls.Session) : Type 0 where
    pub frames : List Transfer
    pub after : tls.Session
    pub opened : tls.Session
    pub on_transmit :
        transmit tls step n (record { queue = queue; session = s })
        ≡ (frames, record { queue = []; session = after })
    pub on_receive : receive_many tls (length queue) frames r ≡ (map arrived queue, opened, [])
    pub synced : link.Synced after opened

  transmit_split :
      (n k : ℕ) (o : Outbox tls)
      → transmit tls step (n + k) o ≡ (
        (transmit tls step n o).0 ++ (transmit tls step k (transmit tls step n o).1).0,
        (transmit tls step k (transmit tls step n o).1).1,
      )
  unfolding transmit
  transmit_split zero k o = let e : 0 + k ≡ k = omega arith in rw e refl
  transmit_split (suc n) k o =
      let e : suc n + k ≡ suc (n + k) = omega arith in
      let o1 = step o in
      rw e (
        rw (transmit_split n k o1.1) (
          ap (λ (ts : List Transfer). (ts, (transmit tls step k (transmit tls step n o1.1).1).1))
            (sym (append_assoc (transfer_of o1.0) _ _))))

  transmit_add :
      (n k : ℕ) (o o1 o2 : Outbox tls) (ts us : List Transfer)
      → transmit tls step n o ≡ (ts, o1)
      → transmit tls step k o1 ≡ (us, o2)
      → transmit tls step (n + k) o ≡ (ts ++ us, o2)
  transmit_add n k o o1 o2 ts us e f = rw (transmit_split n k o) (rw e (rw f refl))

module _ (tls : Tls) (link : Link tls) (max_size : ℕ) (room : ℕ → ℕ)
    (fits : Sizes tls link max_size room) where
  pub empty_queue :
      (queue : List Message) (s r : tls.Session)
      → link.Synced s r
      → All IsQueued queue
      → Emptied tls link (next_frame tls max_size room) (frame_total max_size queue) queue s r
  unfolding receive_many get_message
  empty_queue [] s r sy q = record {
    frames = [];
    after = s;
    opened = r;
    on_transmit = unfold transmit in refl;
    on_receive = refl;
    synced = sy;
  }
  empty_queue (m ∷ ms) s r sy (q, qs) =
      let c = carry_message tls link max_size room fits m ms s r sy q in
      let n = empty_queue ms c.after c.opened c.synced qs in
      record {
        frames = c.frames ++ n.frames;
        after = n.after;
        opened = n.opened;
        on_transmit =
            transmit_add tls link (next_frame tls max_size room) _ _ _ _ _ c.frames n.frames
              c.on_transmit n.on_transmit;
        on_receive = rw (c.on_receive n.frames) (rw n.on_receive refl);
        synced = n.synced;
      }
