-- ===== src/Server/Pump/Frames/Any.antt =====
-- The pump with `handleMessage` of AAServer/src/AaCommunicator.cpp as its writer, on any bytes.
use aacs.Prelude.{◌≡◌, ◌⊎◌}
use aacs.Tls.{Tls}
use aacs.Proto.{Proto}
use aacs.Server.Control.Signals.{Server}
use aacs.Server.Pump.{RoundEnd, next_round, ended_by_error, crashed}

-- The loop neither runs back before the buffer nor outlasts its fuel.
abbrev pub IsOrderly : RoundEnd → Type 0
IsOrderly e = (e ≡ next_round) ⊎ ((e ≡ ended_by_error) ⊎ (e ≡ crashed))
