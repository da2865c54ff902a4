-- ===== src/Proxy/Version.antt =====
-- The version negotiation: the request of AAClient (`sendVersionRequest`), the answer of AAServer
-- (`handleVersionRequest`), and the test of AAClient (`expectVersionResponse`).
use aacs.Prelude.{ℕ, ◌/◌, ◌%◌, ◌<◌, ◌^◌, ◌≡◌, ◌≢◌, refl, [], ◌∷◌, ◌++◌, true, drop, bit_or, arith}
use aacs.Tls.{Tls}
use aacs.Frame.{Message, message}
use aacs.Wire.Codes.{plain, bulk}
use aacs.Wire.Bytes.{front16, push_back_int16}
use aacs.Wire.Bytes.RoundTrip.{front16_bytes, push_back_int16_bytes}
use aacs.Server.Control.Signals.{Server, ok, threw, unsupported_version, send_message}
use aacs.Server.Control.Dispatch.{send_version_response, handle_version_request}
use aacs.Client.Setup.{version_request_message, expect_version_response}

module _ (tls : Tls) where
  request_body :
      (major minor : ℕ)
      → drop 2 (version_request_message major minor).content
        ≡ major / 256 % 256 ∷ major % 256 ∷ minor / 256 % 256 ∷ minor % 256 ∷ []
  unfolding version_request_message
  request_body major minor =
      rw
        (
          push_back_int16_bytes [] 1,
          push_back_int16_bytes (0 ∷ 1 ∷ []) major,
          push_back_int16_bytes (0 ∷ 1 ∷ major / 256 % 256 ∷ major % 256 ∷ []) minor,
        )
        refl

  abbrev response : Message
  response = message 0 (bit_or plain bulk) (0 ∷ 2 ∷ 0 ∷ 1 ∷ 0 ∷ 5 ∷ 0 ∷ 0 ∷ [])

  -- AAServer accepts the request of AAClient for any version 1.x, and queues one plain message on
  -- channel 0 behind those that wait, and AAClient accepts just this message as the response.
  pub version_accepted :
      (minor : ℕ) (s : Server tls)
      → minor < 2 ^ 16
      → (m : Message) × ((handle_version_request tls
            (drop 2 (version_request_message 1 minor).content)
            s)
          ≡ (ok tt, record s { queue = s.queue ++ m ∷ [] }))
        × (m.channel ≡ 0)
        × (m.flags ≡ bit_or plain bulk)
        × (expect_version_response m ≡ true)
  unfolding handle_version_request expect_version_response send_version_response send_message
      push_back_int16 front16
  version_accepted minor s h = rw (request_body 1 minor) (response, refl, refl, refl, refl)

  -- AAServer refuses the request for any other major version, and queues nothing.
  version_refused :
      (major minor : ℕ) (s : Server tls)
      → major < 2 ^ 16
      → major ≢ 1
      → handle_version_request tls (drop 2 (version_request_message major minor).content) s
        ≡ (threw unsupported_version, s)
  unfolding handle_version_request
  version_refused major minor s h n =
      rw (request_body major minor, front16_bytes major (minor / 256 % 256 ∷ minor % 256 ∷ []) h)
        (ground (arith, n))
