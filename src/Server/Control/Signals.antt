-- ===== src/Server/Control/Signals.antt =====
-- The communicator's state, its two signal connections, and `handleChannelMessage`.
use aacs.Prelude.{ℕ, Bool, List, [], ◌∷◌, ◌++◌, Option, none, some, ◌==◌, if◌then◌else◌}
use mathlib.Core.Option
use aacs.Tls.{Tls}
use aacs.Frame.{Message, message}
use aacs.Server.Handlers.{
  Target, everyone, Emit, to_client, to_headunit, is_specific, Handler, default_handler, Answer,
  handle_from_headunit, disconnect,
}

-- A message for clients, as the signal `gotMessage` carries it.
pub record ClientMessage : Type 0 where
  pub target : Target
  pub channel_number : ℕ
  pub is_specific_message : Bool
  pub payload : List ℕ

-- The exceptions by their texts. `null_dereference` and `out_of_bounds` are no exceptions: there the
-- source calls a member function of a null pointer or OpenSSL without a session, or reads beyond a
-- table or an empty vector.
pub data Error : Type 0 where
  unsupported_version unknown_packet unhandled_message_type serialize_failed : Error
  bio_write_failed ssl_read_failed ssl_accept_failed too_short no_handler invalid_channel_id : Error
  null_dereference out_of_bounds : Error

-- How a call ends: normally, by an exception, or not at all (a loop outlasts its fuel).
pub data Result {ℓ} (A : Type ℓ) : Type ℓ where
  ok : A → Result A
  threw : Error → Result A
  stuck : Result A

module _ (tls : Tls) where
  pub record Server : Type 0 where
    pub handlers : ℕ → Option Handler
    pub video_channel : ℕ
    pub input_channel : ℕ
    pub service_descriptor : List ℕ
    pub queue : List Message
    pub ssl : Option tls.Session
    pub got_messages : List ClientMessage

  -- The constructor: `channelTypeToChannelNumber` is filled with -1, stored in a uint8_t, and
  -- channel 0 has a default handler.
  unfoldable pub initial : Server
  initial = record {
    handlers = λ n. if n == 0 then some (default_handler 0) else none;
    video_channel = 255;
    input_channel = 255;
    service_descriptor = [];
    queue = [];
    ssl = none;
    got_messages = [];
  }

  unfoldable pub send_message : ℕ → ℕ → List ℕ → Server → Server
  send_message channel flags buf s = record s { queue = s.queue ++ message channel flags buf ∷ [] }

  pub got_message : Target → ℕ → Bool → List ℕ → Server → Server
  got_message target channel is_spec bytes s = record s {
    got_messages =
        s.got_messages
        ++ record {
          target = target;
          channel_number = channel;
          is_specific_message = is_spec;
          payload = bytes;
        }
          ∷ [];
  }

  -- What the constructor and `handleServiceDiscoveryResponse` connect to a handler's signals.
  pub connect_signal : Emit → Server → Server
  unfolding send_message got_message
  connect_signal (to_client target channel is_spec bytes) s =
      got_message target channel is_spec bytes s
  connect_signal (to_headunit channel flags bytes) s = send_message channel flags bytes s

  unfoldable pub connect_signals : List Emit → Server → Server
  unfolding connect_signal
  connect_signals [] s = s
  connect_signals (e ∷ es) s = connect_signals es (connect_signal e s)

  abbrev pub put_handler : ℕ → Handler → Server → Server
  put_handler n h s = record s { handlers = λ k. if k == n then some h else s.handlers k }

  -- The state that a handler's answer leaves, and the test of `handled`.
  pub after_answer : ℕ → Answer → Server → Result (Unit {0}) × Server
  unfolding connect_signals
  after_answer n a s = (
    if a.handled then ok tt else threw unknown_packet,
    connect_signals a.emitted (put_handler n a.handler s),
  )

  unfoldable pub handle_channel_message : Message → Server → Result (Unit {0}) × Server
  unfolding after_answer got_message
  handle_channel_message m s =
      let routed : Result (Unit {0}) × Server = elim (s.handlers m.channel) [
        | none ↦ (threw null_dereference, s)
        | some h ↦ after_answer m.channel (handle_from_headunit h m) s
      ] in
      if m.channel == 0
      then (ok tt, got_message everyone m.channel (is_specific m.flags) m.content s)
      else routed

  -- `disconnected` of every handler.
  unfoldable pub disconnected : ℕ → Server → Server
  disconnected client s = record s {
    handlers = λ n. Option.map (λ h. disconnect h client) (s.handlers n);
  }
