-- ===== src/Server/Control/Numbers.antt =====
-- What a service discovery response makes of the channel tables.
use aacs.Prelude.{
  ℕ, ◌<◌, ◌≡◌, ◌≢◌, refl, List, [], ◌∷◌, ◌++◌, false, none, some, if◌then◌else◌, arith, ◌==◌, All,
}
use aacs.Tls.{Tls}
use aacs.Proto.{Proto, ChannelDescription}
use aacs.Server.Handlers.{Handler, default_handler}
use aacs.Server.Control.Signals.{Server, ok, initial}
use aacs.Server.Control.Discovery.{
  is_video, add_channel, add_channels, new_video, new_input, handle_service_discovery_response,
  get_channel_number_by_channel_type, video_type,
}

abbrev pub IsAddressable : ChannelDescription → Type 0
IsAddressable ch = ch.channel_id < 256

-- The handler that a channel's description asks for.
abbrev pub kind : ChannelDescription → Handler
kind ch = if is_video ch then new_video ch.channel_id else elim ch.input_channel [
  | some buttons ↦ new_input ch.channel_id buttons
  | none ↦ default_handler ch.channel_id
]

module _ (tls : Tls) where
  add_channel_handlers :
      (ch : ChannelDescription) (s : Server tls) (n : ℕ)
      → IsAddressable ch
      → (add_channel tls ch s).handlers n
        ≡ (if n == ch.channel_id then some (kind ch) else s.handlers n)
  unfolding add_channel
  add_channel_handlers ch s n h = ground arith

  add_channels_other :
      (chs : List ChannelDescription) (s : Server tls) (n : ℕ)
      → All IsAddressable chs
      → All (λ ch. ch.channel_id ≢ n) chs
      → ((add_channels tls chs s).0 ≡ ok tt)
        × ((add_channels tls chs s).1.handlers n ≡ s.handlers n)
  unfolding add_channels
  add_channels_other [] s n h d = (refl, refl)
  add_channels_other (ch ∷ chs) s n (h, hs) (d, ds) =
      ground (
        arith,
        add_channels_other chs (add_channel tls ch s) n hs ds,
        add_channel_handlers ch s n h,
      )

  add_channels_described :
      (before : List ChannelDescription) (ch : ChannelDescription) (later : List ChannelDescription)
      (s : Server tls)
      → All IsAddressable before
      → IsAddressable ch
      → All IsAddressable later
      → All (λ c. c.channel_id ≢ ch.channel_id) later
      → ((add_channels tls (before ++ ch ∷ later) s).0 ≡ ok tt)
        × ((add_channels tls (before ++ ch ∷ later) s).1.handlers ch.channel_id ≡ some (kind ch))
  unfolding add_channels
  add_channels_described [] ch later s hb h hl d = ground (
    arith,
    add_channels_other later (add_channel tls ch s) ch.channel_id hl d,
    add_channel_handlers ch s ch.channel_id h,
  )
  add_channels_described (c ∷ before) ch later s (hc, hb) h hl d =
      ground (arith, add_channels_described before ch later (add_channel tls c s) hb h hl d)

  -- A service discovery response gives each channel that it describes the handler of its kind: for
  -- the last description of an id, whatever came before, if all ids fit the table of 256.
  pub described_channel_handler :
      (proto : Proto) (buf : List ℕ) (before : List ChannelDescription) (ch : ChannelDescription)
      (later : List ChannelDescription) (s : Server tls)
      → proto.service_channels buf ≡ before ++ ch ∷ later
      → All IsAddressable before
      → IsAddressable ch
      → All IsAddressable later
      → All (λ c. c.channel_id ≢ ch.channel_id) later
      → ((handle_service_discovery_response tls proto buf s).0 ≡ ok tt)
        × ((handle_service_discovery_response tls proto buf s).1.handlers ch.channel_id
            ≡ some (kind ch))
  unfolding handle_service_discovery_response
  described_channel_handler proto buf before ch later s e hb h hl d =
      rw e (add_channels_described before ch later _ hb h hl d)

  add_channel_descriptor :
      (ch : ChannelDescription) (s : Server tls)
      → (add_channel tls ch s).service_descriptor ≡ s.service_descriptor
  unfolding add_channel
  add_channel_descriptor ch s = ground arith

  add_channels_descriptor :
      (chs : List ChannelDescription) (s : Server tls)
      → (add_channels tls chs s).1.service_descriptor ≡ s.service_descriptor
  unfolding add_channels
  add_channels_descriptor [] s = refl
  add_channels_descriptor (ch ∷ chs) s =
      ground
        (arith, add_channels_descriptor chs (add_channel tls ch s), add_channel_descriptor ch s)

  pub descriptor_kept :
      (proto : Proto) (buf : List ℕ) (s : Server tls)
      → (handle_service_discovery_response tls proto buf s).1.service_descriptor ≡ buf
  unfolding handle_service_discovery_response
  descriptor_kept proto buf s =
      add_channels_descriptor (proto.service_channels buf) (record s { service_descriptor = buf })

  add_channel_video :
      (ch : ChannelDescription) (s : Server tls)
      → is_video ch ≡ false
      → (add_channel tls ch s).video_channel ≡ s.video_channel
  unfolding add_channel
  add_channel_video ch s e = ground arith

  add_channels_video :
      (chs : List ChannelDescription) (s : Server tls)
      → All (λ ch. is_video ch ≡ false) chs
      → (add_channels tls chs s).1.video_channel ≡ s.video_channel
  unfolding add_channels
  add_channels_video [] s h = refl
  add_channels_video (ch ∷ chs) s (h, hs) =
      ground (arith, add_channels_video chs (add_channel tls ch s) hs, add_channel_video ch s h)

  -- A head unit that describes no video channel has no number for it, and yet the request for the
  -- number is answered by 255, never by the exception: -1 was stored in a byte without sign.
  missing_video_number :
      (proto : Proto) (buf : List ℕ)
      → All (λ ch. is_video ch ≡ false) (proto.service_channels buf)
      → get_channel_number_by_channel_type tls video_type
          (handle_service_discovery_response tls proto buf (initial tls)).1
        ≡ ok 255
  unfolding get_channel_number_by_channel_type handle_service_discovery_response initial
  missing_video_number proto buf h = ground (
    arith,
    add_channels_video (proto.service_channels buf)
        (record (initial tls) { service_descriptor = buf }) h,
  )
