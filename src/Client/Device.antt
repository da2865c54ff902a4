-- ===== src/Client/Device.antt =====
-- `Device::switchToAOA` of AAClient/src/Device.cpp.
pub mod Search
pub mod Handle
use aacs.Prelude.{
  ℕ, zero, suc, ◌+◌, ◌<◌, ◌≡◌, ◌≢◌, refl, Bool, false, List, [], ◌∷◌, ◌++◌, length, get_or, take,
  Option, none, some, ◌==◌, if◌then◌else◌, arith, ◌∙◌,
}

-- The arguments of `libusb_control_transfer` that the calls differ in; wValue is always 0.
pub record ControlTransfer : Type 0 where
  pub request_type : ℕ
  pub request : ℕ
  pub index : ℕ
  pub sent : List ℕ
  pub size : ℕ

-- The end by itself, or by the exception that names this request.
pub data SwitchResult : Type 0 where
  switched : SwitchResult
  not_aoa : ℕ → SwitchResult

abbrev pub ask_version : ControlTransfer
ask_version = record { request_type = 0xc0; request = 51; index = 0; sent = []; size = 2 }

-- A string goes with the 0 behind it.
abbrev pub send_string : ℕ → List ℕ → ControlTransfer
send_string i str = record {
  request_type = 0x40;
  request = 52;
  index = i;
  sent = str ++ 0 ∷ [];
  size = length str + 1;
}

abbrev pub start_accessory : ControlTransfer
start_accessory = record { request_type = 0x40; request = 53; index = 0; sent = []; size = 0 }

abbrev pub strings : List (List ℕ)
strings =
    (0x41 ∷ 0x6e ∷ 0x64 ∷ 0x72 ∷ 0x6f ∷ 0x69 ∷ 0x64 ∷ [])
    ∷ (0x41 ∷ 0x6e ∷ 0x64 ∷ 0x72 ∷ 0x6f ∷ 0x69 ∷ 0x64 ∷ 0x20 ∷ 0x41 ∷ 0x75 ∷ 0x74 ∷ 0x6f ∷ [])
    ∷ (0x41 ∷ 0x6e ∷ 0x64 ∷ 0x72 ∷ 0x6f ∷ 0x69 ∷ 0x64 ∷ 0x20 ∷ 0x41 ∷ 0x75 ∷ 0x74 ∷ 0x6f ∷ [])
    ∷ (0x32 ∷ 0x2e ∷ 0x30 ∷ 0x2e ∷ 0x31 ∷ [])
    ∷ (0x68 ∷ 0x74 ∷ 0x74 ∷ 0x70 ∷ 0x3a ∷ 0x2f ∷ 0x2f ∷ 0x6d ∷ 0x79 ∷ 0x75 ∷ 0x72 ∷ 0x6c ∷ 0x2e
        ∷ 0x63 ∷ 0x6f ∷ 0x6d ∷ 0x2f ∷ [])
    ∷ (0x54 ∷ 0x41 ∷ 0x47 ∷ 0x53 ∷ 0x20 ∷ 0x53 ∷ 0x65 ∷ 0x72 ∷ 0x69 ∷ 0x61 ∷ 0x6c ∷ 0x20 ∷ 0x30
        ∷ 0x31 ∷ [])
    ∷ []

answers_with : Option ℕ → ℕ → Bool
answers_with none n = false
answers_with (some m) n = m == n

-- A transfer, and an exception unless libusb answers with its size; `next` is what comes after.
transfer :
    Option ℕ
    → ControlTransfer
    → SwitchResult × List ControlTransfer
    → SwitchResult × List ControlTransfer
unfolding answers_with
transfer answer t next =
    if answers_with answer t.size then (next.0, t ∷ next.1) else (not_aoa t.request, t ∷ [])

-- `for (auto str : strings)`, with `i`. The k-th transfer of all is answered by `answer k`, a
-- negative result by `none`.
send_strings : (ℕ → Option ℕ) → ℕ → List (List ℕ) → SwitchResult × List ControlTransfer
unfolding transfer
send_strings answer i [] = transfer (answer (suc i)) start_accessory (switched, [])
send_strings answer i (str ∷ strs) =
    transfer (answer (suc i)) (send_string i str) (send_strings answer (suc i) strs)

-- Also the transfers that were made, in order.
unfoldable pub switch_to_aoa : (ℕ → Option ℕ) → SwitchResult × List ControlTransfer
unfolding send_strings
switch_to_aoa answer = transfer (answer 0) ask_version (send_strings answer 0 strings)

-- The transfers of a switch that succeeds.
unfoldable pub string_transfers : ℕ → List (List ℕ) → List ControlTransfer
string_transfers i [] = start_accessory ∷ []
string_transfers i (str ∷ strs) = send_string i str ∷ string_transfers (suc i) strs

unfoldable pub all_transfers : List ControlTransfer
all_transfers = ask_version ∷ string_transfers 0 strings

run : (ℕ → Option ℕ) → List ControlTransfer → SwitchResult × List ControlTransfer
unfolding transfer
run answer [] = (switched, [])
run answer (t ∷ ts) = transfer (answer 0) t (run (λ k. answer (suc k)) ts)

switch-run : (answer : ℕ → Option ℕ) → switch_to_aoa answer ≡ run answer all_transfers
unfolding switch_to_aoa send_strings run all_transfers string_transfers
switch-run answer = refl

abbrev pub size_at : List ControlTransfer → ℕ → ℕ
size_at ts i = (get_or ts i start_accessory).size

transfer_done :
    (answer : Option ℕ) (t : ControlTransfer) (next : SwitchResult × List ControlTransfer)
    → answer ≡ some t.size
    → transfer answer t next ≡ (next.0, t ∷ next.1)
unfolding transfer answers_with
transfer_done answer t next e = rw e (ground arith)

transfer_fails :
    (answer : Option ℕ) (t : ControlTransfer) (next : SwitchResult × List ControlTransfer)
    → answer ≢ some t.size
    → transfer answer t next ≡ (not_aoa t.request, t ∷ [])
unfolding transfer answers_with
transfer_fails none t next n = refl
transfer_fails (some m) t next n = ground arith

run_fails :
    (answer : ℕ → Option ℕ) (i : ℕ) (ts : List ControlTransfer)
    → i < length ts
    → ((j : ℕ) → j < i → answer j ≡ some (size_at ts j))
    → answer i ≢ some (size_at ts i)
    → run answer ts ≡ (not_aoa (get_or ts i start_accessory).request, take (suc i) ts)
unfolding run
run_fails answer i [] lt before here = absurd (omega arith)
run_fails answer zero (t ∷ ts) lt before here =
    transfer_fails (answer 0) t (run (λ k. answer (suc k)) ts) here
run_fails answer (suc i) (t ∷ ts) lt before here =
    transfer_done (answer 0) t (run (λ k. answer (suc k)) ts) (before 0 (omega arith))
    ∙ rw
        (run_fails (λ k. answer (suc k)) i ts (omega arith) (λ j h. before (suc j) (omega arith))
          here)
        refl

run_succeeds :
    (answer : ℕ → Option ℕ) (ts : List ControlTransfer)
    → ((j : ℕ) → j < length ts → answer j ≡ some (size_at ts j))
    → run answer ts ≡ (switched, ts)
unfolding run
run_succeeds answer [] all = refl
run_succeeds answer (t ∷ ts) all =
    transfer_done (answer 0) t (run (λ k. answer (suc k)) ts) (all 0 (omega arith))
    ∙ rw (run_succeeds (λ k. answer (suc k)) ts (λ j h. all (suc j) (omega arith))) refl

-- `switchToAOA` makes its eight transfers in order, 51, six times 52 with the strings, then 53, up
-- to the first that libusb does not answer with the transfer's size, and throws the exception that
-- names the request of this one.
pub switch_stops_at_failure :
    (answer : ℕ → Option ℕ) (i : ℕ)
    → i < 8
    → ((j : ℕ) → j < i → answer j ≡ some (size_at all_transfers j))
    → answer i ≢ some (size_at all_transfers i)
    → switch_to_aoa answer
      ≡ (not_aoa (get_or all_transfers i start_accessory).request, take (suc i) all_transfers)
unfolding all_transfers string_transfers
switch_stops_at_failure answer i lt before here =
    switch-run answer ∙ run_fails answer i all_transfers lt before here

-- `switchToAOA` ends without an exception when libusb answers each of the eight transfers with its
-- size, and has made all of them, in order.
pub switch_succeeds :
    (answer : ℕ → Option ℕ)
    → ((j : ℕ) → j < 8 → answer j ≡ some (size_at all_transfers j))
    → switch_to_aoa answer ≡ (switched, all_transfers)
unfolding all_transfers string_transfers
switch_succeeds answer all = switch-run answer ∙ run_succeeds answer all_transfers all
