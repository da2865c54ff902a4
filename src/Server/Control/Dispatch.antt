-- ===== src/Server/Control/Dispatch.antt =====
-- `handleMessageContent`, the control messages, and `handleMessage`, which takes a frame off the
-- bytes that the USB endpoint gave.
use aacs.Prelude.{
  ℕ, ◌+◌, not, bit_or, List, [], ◌++◌, none, some, ◌==◌, ltb, if◌then◌else◌, take, drop, ◌≡◌, arith,
}
use aacs.Tls.{Tls, Handshake}
use aacs.Proto.{Proto}
use aacs.Frame.{Message, message, is_encrypted}
use aacs.Wire.Codes.{
  encrypted, plain, bulk, code, version_request, version_response, ssl_handshake, auth_complete,
  service_discovery_request, service_discovery_response, ping_request, ping_response,
  navigation_focus_response, audio_focus_response,
}
use aacs.Wire.Bytes.{byte_at, front16, push_back_int16}
use aacs.Server.Control.Signals.{
  Server, Result, ok, threw, stuck, unsupported_version, unhandled_message_type, serialize_failed,
  too_short, send_message, handle_channel_message,
}
use aacs.Server.Control.Discovery.{handle_service_discovery_response}
use aacs.Server.Control.Shake.{handle_ssl_handshake, decrypt_message}

module _ (tls : Tls) where
  unfoldable pub send_version_response : ℕ → ℕ → Server tls → Server tls
  send_version_response major minor s =
      send_message tls 0 (bit_or plain bulk)
        (push_back_int16
          (push_back_int16 (push_back_int16 (push_back_int16 [] (code version_response)) major)
            minor)
          0)
        s

  unfoldable pub handle_version_request : List ℕ → Server tls → Result (Unit {0}) × Server tls
  unfolding send_version_response
  handle_version_request buf s =
      if front16 buf == 1
      then (ok tt, send_version_response 1 5 s)
      else (threw unsupported_version, s)

  unfoldable pub send_service_discovery_request : Proto → Server tls → Server tls
  send_service_discovery_request proto s =
      send_message tls 0 (bit_or encrypted bulk)
        (push_back_int16 [] (code service_discovery_request) ++ proto.service_discovery_request) s

  pub handle_ping_request : Proto → List ℕ → Server tls → Result (Unit {0}) × Server tls
  handle_ping_request proto buf s = elim (proto.ping_response (proto.ping_timestamp buf)) [
    | none ↦ (threw serialize_failed, s)
    | some bytes ↦ (
      ok tt,
      send_message tls 0 (bit_or encrypted bulk) (push_back_int16 [] (code ping_response) ++ bytes)
          s,
    )
  ]

  module _ (api : Handshake tls) (proto : Proto) where
    -- The branches of `handleMessageContent` on channel 0 behind those that forward.
    unfoldable pub handle_control : ℕ → List ℕ → Server tls → Result (Unit {0}) × Server tls
    unfolding send_service_discovery_request
    handle_control message_type buf s =
        if message_type == code version_request
        then handle_version_request buf s
        else if message_type == code ssl_handshake
        then handle_ssl_handshake tls api buf s
        else if message_type == code auth_complete
        then (ok tt, send_service_discovery_request proto s)
        else if message_type == code service_discovery_response
        then handle_service_discovery_response tls proto buf s
        else if message_type == code ping_request
        then handle_ping_request proto buf s
        else (threw unhandled_message_type, s)

    unfoldable pub handle_message_content : Message → Server tls → Result (Unit {0}) × Server tls
    unfolding handle_control
    handle_message_content m s =
        if not (m.channel == 0)
        then handle_channel_message tls m s
        else if message_type == code audio_focus_response
        then handle_channel_message tls m s
        else if message_type == code navigation_focus_response
        then handle_channel_message tls m s
        else handle_control message_type (drop 2 m.content) s
      where
        message_type : ℕ
        message_type = front16 m.content

    taken : ℕ → Result (Unit {0}) × Server tls → Result ℕ × Server tls
    taken len (ok u, s) = (ok (len + 4), s)
    taken len (threw e, s) = (threw e, s)
    taken len (stuck, s) = (stuck, s)

    after_decrypt : ℕ → ℕ → ℕ → Result (List ℕ) × Server tls → Result ℕ × Server tls
    unfolding taken
    after_decrypt channel flags len (threw e, s) = (threw e, s)
    after_decrypt channel flags len (stuck, s) = (stuck, s)
    after_decrypt channel flags len (ok content, s) =
        taken len (handle_message_content (message channel flags content) s)

    -- A frame's body, decrypted where the flags say so, handled as a message; the result is the
    -- number of bytes that the frame takes.
    pub open_frame : ℕ → ℕ → List ℕ → ℕ → Server tls → Result ℕ × Server tls
    unfolding after_decrypt
    open_frame channel flags msg len s =
        after_decrypt channel flags len
          (if is_encrypted flags then decrypt_message tls msg s else (ok msg, s))

    -- `buf` is the memory from the pointer on, and `nbytes` how much of it is new.
    unfoldable pub handle_message : List ℕ → ℕ → Server tls → Result ℕ × Server tls
    handle_message buf nbytes s =
        if ltb nbytes (4 + len)
        then (threw too_short, s)
        else open_frame (byte_at buf 0) (byte_at buf 1) (take len (drop 4 buf)) len s
      where
        len : ℕ
        len = front16 (drop 2 buf)

    taken_count :
        (len n : ℕ) (s : Server tls) (r : Result (Unit {0}) × Server tls)
        → taken len r ≡ (ok n, s)
        → n ≡ len + 4
    unfolding taken
    taken_count len n s (ok u, s1) e = ground arith
    taken_count len n s (threw x, s1) e = ground arith
    taken_count len n s (stuck, s1) e = ground arith

    after_decrypt_count :
        (channel flags len n : ℕ) (s : Server tls) (r : Result (List ℕ) × Server tls)
        → after_decrypt channel flags len r ≡ (ok n, s)
        → n ≡ len + 4
    unfolding after_decrypt
    after_decrypt_count channel flags len n s (ok c, s1) e = taken_count len n s _ e
    after_decrypt_count channel flags len n s (threw x, s1) e = ground arith
    after_decrypt_count channel flags len n s (stuck, s1) e = ground arith

    -- A frame that is handled takes its header and its body.
    pub open_frame_count :
        (channel flags len n : ℕ) (msg : List ℕ) (s s1 : Server tls)
        → open_frame channel flags msg len s ≡ (ok n, s1)
        → n ≡ len + 4
    unfolding open_frame
    open_frame_count channel flags len n msg s s1 e = after_decrypt_count channel flags len n s1 _ e
