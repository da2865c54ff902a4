-- ===== src/Client/Setup/Channels.antt =====
-- What `handleServiceDiscoveryRequest` of AAClient/src/AaCommunicator.cpp makes of the head unit's
-- description: the table of handlers, and the answer to the phone.
use aacs.Prelude.{ℕ, ◌<◌, ◌≡◌, ◌≢◌, refl, List, [], ◌∷◌, ◌++◌, some, bit_or, All, arith}
use aacs.Proto.{Proto, ChannelDescription}
use aacs.Frame.{Message, message}
use aacs.Wire.Codes.{encrypted, bulk, control, code, service_discovery_response}
use aacs.Wire.Bytes.{push_back_int16}
use aacs.Client.Setup.{
  Client, Step, done, unexpected_message, vector_too_small, undefined, put_handler, handler_for,
  add_channels, after_channels, send_message, handle_service_discovery_request,
}

-- 254 is the last index of `channelHandlers`.
abbrev pub IsInTable : ChannelDescription → Type 0
IsInTable ch = ch.channel_id < 255

add_channels_other :
    (chs : List ChannelDescription) (c : Client) (n : ℕ)
    → All IsInTable chs
    → All (λ ch. ch.channel_id ≢ n) chs
    → ((add_channels chs c).0 ≡ done)
      × ((add_channels chs c).1.handlers n ≡ c.handlers n)
      × ((add_channels chs c).1.queue ≡ c.queue)
      × ((add_channels chs c).1.service_description ≡ c.service_description)
unfolding add_channels
add_channels_other [] c n h d = (refl, refl, refl, refl)
add_channels_other (ch ∷ chs) c n (h, hs) (d, ds) =
    ground (arith, add_channels_other chs (put_handler ch.channel_id (handler_for ch) c) n hs ds)

add_channels_described :
    (before : List ChannelDescription) (ch : ChannelDescription) (later : List ChannelDescription)
    (c : Client)
    → All IsInTable before
    → IsInTable ch
    → All IsInTable later
    → All (λ d. d.channel_id ≢ ch.channel_id) later
    → ((add_channels (before ++ ch ∷ later) c).0 ≡ done)
      × ((add_channels (before ++ ch ∷ later) c).1.handlers ch.channel_id ≡ some (handler_for ch))
      × ((add_channels (before ++ ch ∷ later) c).1.queue ≡ c.queue)
      × ((add_channels (before ++ ch ∷ later) c).1.service_description ≡ c.service_description)
unfolding add_channels
add_channels_described [] ch later c hb h hl d = ground (
  arith,
  add_channels_other later (put_handler ch.channel_id (handler_for ch) c) ch.channel_id hl d,
)
add_channels_described (b ∷ before) ch later c (hb, hbs) h hl d = ground (
  arith,
  add_channels_described before ch later (put_handler b.channel_id (handler_for b) c) hbs h hl d,
)

after_done :
    (r : Step × Client) (queue : List Message) (sd : List ℕ)
    → r.0 ≡ done
    → r.1.queue ≡ queue
    → r.1.service_description ≡ sd
    → ((after_channels r).0 ≡ done)
      × ((after_channels r).1.handlers ≡ r.1.handlers)
      × ((after_channels r).1.queue
          ≡ queue
            ++ message 0
                (bit_or (bit_or encrypted bulk) control)
                (push_back_int16 [] (code service_discovery_response) ++ sd)
              ∷ [])
unfolding after_channels send_message
after_done (done, c) queue sd e q d = ground arith
after_done (unexpected_message, c) queue sd e q d = ground arith
after_done (vector_too_small, c) queue sd e q d = ground arith
after_done (undefined, c) queue sd e q d = ground arith

-- A service discovery request of the phone gives each channel of the head unit's description the
-- handler of its kind (for the last description of an id, whatever came before), and is answered by
-- one message behind those that wait: the head unit's own description, unchanged. All ids are below
-- 255.
pub described_channel_answered :
    (proto : Proto) (before : List ChannelDescription) (ch : ChannelDescription)
    (later : List ChannelDescription) (c : Client)
    → proto.service_channels c.service_description ≡ before ++ ch ∷ later
    → All IsInTable before
    → IsInTable ch
    → All IsInTable later
    → All (λ d. d.channel_id ≢ ch.channel_id) later
    → ((handle_service_discovery_request proto c).0 ≡ done)
      × ((handle_service_discovery_request proto c).1.handlers ch.channel_id
          ≡ some (handler_for ch))
      × ((handle_service_discovery_request proto c).1.queue
          ≡ c.queue
            ++ message 0
                (bit_or (bit_or encrypted bulk) control)
                (push_back_int16 [] (code service_discovery_response) ++ c.service_description)
              ∷ [])
unfolding handle_service_discovery_request
described_channel_answered proto before ch later c e hb h hl d =
    let all = add_channels_described before ch later c hb h hl d in
    rw e (
      ground (
        arith,
        after_done (add_channels (before ++ ch ∷ later) c) c.queue c.service_description all.0 all.2
            all.3,
        all,
      ))

add_channels_queue :
    (chs : List ChannelDescription) (c : Client)
    → All IsInTable chs
    → ((add_channels chs c).0 ≡ done)
      × ((add_channels chs c).1.queue ≡ c.queue)
      × ((add_channels chs c).1.service_description ≡ c.service_description)
unfolding add_channels
add_channels_queue [] c h = (refl, refl, refl)
add_channels_queue (ch ∷ chs) c (h, hs) =
    ground (arith, add_channels_queue chs (put_handler ch.channel_id (handler_for ch) c) hs)

pub request_answered :
    (proto : Proto) (c : Client)
    → All IsInTable (proto.service_channels c.service_description)
    → ((handle_service_discovery_request proto c).0 ≡ done)
      × ((handle_service_discovery_request proto c).1.queue
          ≡ c.queue
            ++ message 0
                (bit_or (bit_or encrypted bulk) control)
                (push_back_int16 [] (code service_discovery_response) ++ c.service_description)
              ∷ [])
unfolding handle_service_discovery_request
request_answered proto c h =
    let chs = proto.service_channels c.service_description in
    let all = add_channels_queue chs c h in
    ground (arith, after_done (add_channels chs c) c.queue c.service_description all.0 all.1 all.2)
