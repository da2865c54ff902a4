-- ===== src/Examples/Ends.antt =====
-- The theorems on how AAServer begins and ends, and on its log, at concrete inputs.
use aacs.Prelude.{◌≡◌, true, false, List, [], ◌∷◌, ◌++◌, drop, length, some, arith}
use aacs.CheckError.{count}
use aacs.Frame.{Message, message}
use aacs.Wire.Codes.{bulk, version_response, code}
use aacs.SslContext.{
  server_method, ContextAnswers, initialize_ssl_context, params_failed, new_context, set_ecdh_auto,
  use_certificate, use_private_key, open_params, read_params, close_params, is_positive,
}
use aacs.SslContext.Order.{up_to, first_failure, context_stops_at_failure}
use aacs.Server.Control.Signals.{initial}
use aacs.Server.Control.Dispatch.{send_version_response}
use aacs.Server.Log.{Captured, log_message, dissect}
use aacs.Server.Log.Read.{response_shown}
use aacs.Server.Event.{
  Act, enter, spurious, raise_flag, notify_all, acts, unset, calls, no_wait_lost,
}
use aacs.Server.Sockets.Closing.{accepted, lost, ended, closed_at_end, closes_by_fate}
use aacs.Examples.Loopback.{loopback}

-- The file of parameters is opened, and holds none.
abbrev no_params : ContextAnswers
no_params = record {
  context_made = true;
  certificate = count 1;
  private_key = count 1;
  params_opened = true;
  params_made = false;
  tmp_dh_set = true;
}

context_stops_at_failure_example : initialize_ssl_context server_method no_params ≡ (
  params_failed,
  new_context server_method
      ∷ set_ecdh_auto
      ∷ use_certificate
      ∷ use_private_key
      ∷ open_params
      ∷ read_params
      ∷ close_params
      ∷ [],
)
unfolding up_to first_failure is_positive
context_stops_at_failure_example = context_stops_at_failure server_method no_params

abbrev ping : Message
ping = message 0 11 (0 ∷ 11 ∷ 8 ∷ 1 ∷ [])

response_shown_example :
    (m : Message) × (c : Captured) × ((send_version_response loopback 1 5 (initial loopback)).queue
      ≡ (initial loopback).queue ++ m ∷ [])
    × (log_message true m true ≡ some c)
    × (dissect (drop 4 c.buffer)
        ≡ some (record {
          channel = 0;
          is_shown_encrypted = false;
          is_shown_specific = false;
          frame_type = bulk;
          to_headunit = true;
          message_type = code version_response;
          version_response = some (record { major = 1; minor = 5; matched = true });
        }))
response_shown_example = response_shown loopback 1 5 (initial loopback) (omega arith) (omega arith)

-- One thread waits before `set`, one in the middle of it, and one behind it.
abbrev history : List Act
history = enter 1 ∷ spurious 1 ∷ raise_flag ∷ (enter 2 ∷ notify_all ∷ enter 3 ∷ [])

no_wait_lost_example :
    ((acts history unset).waiting ≡ []) × (length (acts history unset).returned ≡ calls history)
no_wait_lost_example = no_wait_lost (enter 1 ∷ spurious 1 ∷ []) (enter 2 ∷ []) (enter 3 ∷ [])

closes_by_fate_example :
    (closed_at_end 7 (accepted 6 ∷ accepted 7 ∷ lost 6 ∷ []) ≡ 1)
    × (closed_at_end 7 (accepted 6 ∷ accepted 7 ∷ lost 6 ∷ lost 7 ∷ accepted 8 ∷ []) ≡ 0)
    × (closed_at_end 7 (accepted 6 ∷ accepted 7 ∷ lost 6 ∷ ended 7 ∷ accepted 8 ∷ []) ≡ 2)
closes_by_fate_example =
    closes_by_fate 7 (accepted 6 ∷ []) (lost 6 ∷ []) (accepted 8 ∷ []) ((λ e. omega arith), tt)
      ((λ e. omega arith), tt) ((λ e. omega arith), tt)
