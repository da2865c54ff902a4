-- ===== src/Examples/Device.antt =====
-- The switch of a phone that knows request 51, and no other.
use aacs.Prelude.{ℕ, zero, suc, ◌<◌, ◌≡◌, refl, [], ◌∷◌, Option, none, some, arith, get_or}
use aacs.CheckError.{count}
use aacs.Client.Device.Search.{UsbId}
use aacs.Client.Start.{StartAnswers, ok, start, start_transfers}
use aacs.Client.Start.Found.{start_finds}
use aacs.Client.Device.{
  switch_to_aoa, not_aoa, ask_version, send_string, all_transfers, string_transfers, size_at,
  switch_stops_at_failure,
}

abbrev knows_51 : ℕ → Option ℕ
knows_51 zero = some 2
knows_51 (suc n) = none

first_answered : (j : ℕ) → j < 1 → knows_51 j ≡ some (size_at all_transfers j)
unfolding all_transfers string_transfers
first_answered zero h = refl
first_answered (suc j) h = absurd (omega arith)

switch_stops_at_failure_example : switch_to_aoa knows_51 ≡ (
  not_aoa 52,
  ask_version ∷ send_string 0 (0x41 ∷ 0x6e ∷ 0x64 ∷ 0x72 ∷ 0x6f ∷ 0x69 ∷ 0x64 ∷ []) ∷ [],
)
unfolding all_transfers string_transfers
switch_stops_at_failure_example =
    switch_stops_at_failure knows_51 1 (omega arith) first_answered (λ e. ground arith)

abbrev phone : UsbId
phone = record { vid = 0x04e8; pid = 0x6860 }

abbrev in_accessory_mode : UsbId
in_accessory_mode = record { vid = 0x18d1; pid = 0x2d00 }

-- A mouse that answers nothing, in front of the phone.
abbrev mouse : UsbId
mouse = record { vid = 1; pid = 2 }

abbrev only_phone : ℕ → ℕ → Option ℕ
only_phone zero j = none
only_phone (suc k) j = some (size_at all_transfers j)

abbrev start_answers : StartAnswers
start_answers = record {
  initialized = count 0;
  first_list = some (some mouse ∷ some phone ∷ []);
  handles = λ k. some 1;
  transfers = only_phone;
  second_list = some (some mouse ∷ some in_accessory_mode ∷ []);
  socket = count 5;
  connected = count 0;
  written = count 3;
  answer = count 2;
  buffer = 8 ∷ 9 ∷ 7 ∷ [];
}

start_finds_example :
    (get_or (start_transfers start_answers) 1 [] ≡ all_transfers)
    × (start start_answers ≡ ok (in_accessory_mode, 5, 8 ∷ 9 ∷ []))
start_finds_example =
    start_finds start_answers (mouse ∷ []) phone [] (mouse ∷ []) in_accessory_mode [] (λ k. 1) 0 5 0
      1 refl refl (λ k h. refl) (λ j h. refl) refl refl tt refl refl refl refl
