-- ===== src/Server/Log/Read.antt =====
-- What the dissector of scripts/aasl.lua shows of messages that AAServer has logged.
use aacs.Prelude.{
  ℕ, ◌/◌, ◌%◌, ◌<◌, ◌^◌, ◌≡◌, refl, Bool, true, false, not, List, [], ◌∷◌, ◌++◌, drop, length, some,
  bit_and, ◌==◌, arith,
}
use aacs.Tls.{Tls}
use aacs.Frame.{Message, message, is_encrypted}
use aacs.Wire.Codes.{specific, bulk, version_response, code}
use aacs.Wire.Bytes.{front16, push_back_int16}
use aacs.Wire.Bytes.RoundTrip.{push_back_int16_bytes, front16_bytes}
use aacs.Server.Control.Signals.{Server, send_message}
use aacs.Server.Control.Dispatch.{send_version_response}
use aacs.Server.Log.{Captured, log_message, dissect, response_version}

-- A message that is logged in either direction is shown with its channel, its encryption, frame and
-- message flags, its direction and its message type.
log_read :
    (m : Message) (direction : Bool)
    → (c : Captured) × (log_message true m direction ≡ some c)
      × (c.len ≡ length c.buffer)
      × (dissect (drop 4 c.buffer)
          ≡ some (record {
            channel = m.channel;
            is_shown_encrypted = is_encrypted m.flags;
            is_shown_specific = not (bit_and m.flags specific == 0);
            frame_type = bit_and m.flags bulk;
            to_headunit = direction;
            message_type = front16 m.content;
            version_response = response_version (front16 m.content) (drop 2 m.content);
          }))
unfolding log_message dissect is_encrypted
log_read m true = (_, refl, omega arith, refl)
log_read m false = (_, refl, omega arith, refl)

abbrev response_bytes : ℕ → ℕ → List ℕ
response_bytes major minor =
    0 ∷ 2 ∷ major / 256 % 256 ∷ major % 256 ∷ minor / 256 % 256 ∷ minor % 256 ∷ 0 ∷ 0 ∷ []

response_content :
    (major minor : ℕ)
    → push_back_int16
        (push_back_int16 (push_back_int16 (push_back_int16 [] (code version_response)) major) minor)
        0
      ≡ response_bytes major minor
response_content major minor =
    rw
      (
        push_back_int16_bytes [] 2,
        push_back_int16_bytes (0 ∷ 2 ∷ []) major,
        push_back_int16_bytes (0 ∷ 2 ∷ major / 256 % 256 ∷ major % 256 ∷ []) minor,
        push_back_int16_bytes
            (0 ∷ 2 ∷ major / 256 % 256 ∷ major % 256 ∷ minor / 256 % 256 ∷ minor % 256 ∷ []) 0,
      )
      refl

zero_read : front16 (0 ∷ 0 ∷ []) ≡ 0
unfolding front16
zero_read = refl

type_read : (major minor : ℕ) → front16 (response_bytes major minor) ≡ 2
unfolding front16
type_read major minor = refl

version_read :
    (major minor : ℕ)
    → major < 2 ^ 16
    → minor < 2 ^ 16
    → response_version 2 (drop 2 (response_bytes major minor))
      ≡ some (record { major = major; minor = minor; matched = true })
unfolding response_version
version_read major minor hm hn =
    rw (front16_bytes major _ hm, front16_bytes minor _ hn, zero_read) refl

-- The response to a version request that AAServer queues, once logged, is shown as a plain message
-- to the head unit on channel 0 with just the version that was given, as a match. Both parts of
-- the version are below 2^16.
pub response_shown :
    (tls : Tls) (major minor : ℕ) (s : Server tls)
    → major < 2 ^ 16
    → minor < 2 ^ 16
    → (m : Message) × (c : Captured) × ((send_version_response tls major minor s).queue
        ≡ s.queue ++ m ∷ [])
      × (log_message true m true ≡ some c)
      × (dissect (drop 4 c.buffer)
          ≡ some (record {
            channel = 0;
            is_shown_encrypted = false;
            is_shown_specific = false;
            frame_type = bulk;
            to_headunit = true;
            message_type = code version_response;
            version_response = some (record { major = major; minor = minor; matched = true });
          }))
unfolding send_version_response log_message send_message dissect
response_shown tls major minor s hm hn = (
  message 0 3 (response_bytes major minor),
  _,
  rw (response_content major minor) refl,
  refl,
  rw (type_read major minor, version_read major minor hm hn) refl,
)
