-- ===== src/Server/Sockets/Replies.antt =====
-- The callback of `gotPacket` in AAServer/main.cpp with what `write` returns for the reply, and a round
-- of a client's thread with it.
use aacs.Prelude.{
  ℕ, ◌≡◌, refl, Bool, true, false, not, List, [], ◌∷◌, ◌==◌, if◌then◌else◌, ◌⊎◌, inl, inr, ◌++◌,
  length, Bool-cases, ◌∙◌,
}
use aacs.Tls.{Tls}
use aacs.Proto.{Proto}
use aacs.CheckError.{IoReturn, count, failed}
use aacs.Server.Control.Signals.{Result, ok, threw, stuck}
use aacs.Server.Control.Discovery.{get_channel_number_by_channel_type, get_service_descriptor}
use aacs.Server.Sockets.{
  Packet, Incoming, gone, packet, undefined, read_packet, econnreset, SendEnd, delivered,
  client_disconnected, send_failed, send_message,
}
use aacs.Server.Sockets.Requests.{
  Hub, client_gone, reply, after_raw, send_to_channel, number_of, get_channel_number, raw_data,
  service_descriptor_request,
}
use aacs.Server.Sockets.Loops.{
  Woken, After, goes_on, leaves_loop, thread_ends, blocked, out_of_range, after_served,
}

-- Whether `write` returns just this number of bytes.
abbrev pub all_written : ℕ → IoReturn → Bool
all_written size (count n) = n == size
all_written size (failed errno) = false

module _ (tls : Tls) (proto : Proto) where
  after_reply : SendEnd → ℕ → List ℕ → Hub tls → After × Hub tls
  unfolding reply after_served
  after_reply delivered socket bytes h = after_served tls proto (reply tls socket bytes h)
  after_reply client_disconnected socket bytes h = (thread_ends, h)
  after_reply send_failed socket bytes h = (thread_ends, h)

  -- `scl->sendMessage`: either of its exceptions ends the thread.
  unfoldable pub write_reply : IoReturn → ℕ → List ℕ → Hub tls → After × Hub tls
  unfolding after_reply send_message
  write_reply r socket bytes h = after_reply (send_message bytes r) socket bytes h

  unfoldable pub write_number : IoReturn → ℕ → Hub tls → Result ℕ → After × Hub tls
  unfolding write_reply
  write_number r socket h (ok n) = write_reply r socket (n ∷ []) h
  write_number r socket h (threw e) = (thread_ends, h)
  write_number r socket h stuck = (blocked, h)

  unfoldable pub serve_packet : IoReturn → ℕ → Packet → Hub tls → After × Hub tls
  unfolding write_number after_raw after_served
  serve_packet r socket p h =
      if p.packet_type == get_channel_number
      then write_number r socket h
          (get_channel_number_by_channel_type tls p.channel_number h.server)
      else if p.packet_type == raw_data
      then after_served tls proto (
          after_raw tls socket h (
            send_to_channel tls proto (number_of socket h.clients) p.channel_number
              (not (p.specific_byte == 0)) p.payload h.server))
      else if p.packet_type == service_descriptor_request
      then write_reply r socket (get_service_descriptor tls h.server) h
      else (thread_ends, h)

  writing_incoming : IoReturn → ℕ → Incoming → Hub tls → After × Hub tls
  unfolding serve_packet
  writing_incoming r socket gone h = (leaves_loop, client_gone tls socket h)
  writing_incoming r socket (packet p) h = serve_packet r socket p h
  writing_incoming r socket undefined h = (out_of_range, h)

  -- A round of `clientThreadMethod`; `r` is what a write of a reply would return.
  unfoldable pub writing_round :
      IoReturn → ℕ → Woken (IoReturn × List ℕ) → Hub tls → After × Hub tls
  unfolding writing_incoming
  writing_round r socket w h =
      if w.cancel
      then (leaves_loop, h)
      else if w.selected
      then writing_incoming r socket (read_packet w.returned.0 w.returned.1) h
      else (goes_on, h)

  -- What a packet asks for, when it is answered.
  abbrev pub Asks : Packet → Hub tls → List ℕ → Type 0
  Asks p h bytes =
      ((p.packet_type ≡ service_descriptor_request) × (bytes ≡ h.server.service_descriptor))
      ⊎ ((n : ℕ) × (p.packet_type ≡ get_channel_number)
          × (get_channel_number_by_channel_type tls p.channel_number h.server ≡ ok n)
          × (bytes ≡ n ∷ []))

  -- The client has been sent the bytes, or its thread ends and nothing has changed.
  abbrev pub by_write : Bool → ℕ → List ℕ → Hub tls → After × Hub tls
  by_write true socket bytes h = (goes_on, record h { replies = h.replies ++ (socket, bytes) ∷ [] })
  by_write false socket bytes h = (thread_ends, h)

  write_reply-by_write :
      (r : IoReturn) (socket : ℕ) (bytes : List ℕ) (h : Hub tls)
      → write_reply r socket bytes h ≡ by_write (all_written (length bytes) r) socket bytes h
  unfolding write_reply
  write_reply-by_write (failed errno) socket bytes h = elim (Bool-cases (errno == econnreset)) [
    | inl e ↦ rw e refl
    | inr e ↦ rw e refl
  ]
  write_reply-by_write (count n) socket bytes h = elim (Bool-cases (n == length bytes)) [
    | inl e ↦ rw e refl
    | inr e ↦ rw e refl
  ]

  served_by_write :
      (r : IoReturn) (socket : ℕ) (p : Packet) (h : Hub tls) (bytes : List ℕ)
      → Asks p h bytes
      → serve_packet r socket p h ≡ write_reply r socket bytes h
  unfolding serve_packet write_number get_service_descriptor
  served_by_write r socket p h bytes (inl (kind, e)) = rw (kind, e) refl
  served_by_write r socket p h bytes (inr (n, kind, found, e)) = rw (kind, found, e) refl

  -- A client asks for the description of the car's channels, or for the number of a channel, and
  -- `getChannelNumberByChannelType` gives one: what `write` returns for the reply decides. When it
  -- is the length of the reply, the reply has been sent, the description as AAServer holds it or the
  -- one byte of the number, nothing else has changed, and the client's thread goes on. Any other
  -- result, a reply written in part as well as every error, ends the thread, and the clients and
  -- channels are as they were.
  pub reply_write_decides :
      (r read : IoReturn) (buffer : List ℕ) (socket : ℕ) (p : Packet) (h : Hub tls) (bytes : List ℕ)
      → read_packet read buffer ≡ packet p
      → Asks p h bytes
      → writing_round r socket
          (record { cancel = false; selected = true; returned = (read, buffer) })
          h
        ≡ by_write (all_written (length bytes) r) socket bytes h
  unfolding writing_round
  reply_write_decides r read buffer socket p h bytes got asks =
      rw got (served_by_write r socket p h bytes asks ∙ write_reply-by_write r socket bytes h)
