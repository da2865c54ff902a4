-- ===== src/Client/Device/Handle.antt =====
-- The handle of `Device::switchToAOA` in AAClient/src/Device.cpp: a `unique_ptr` whose deleter closes it.
use aacs.Prelude.{ℕ, suc, ◌≡◌, refl, List, [], ◌∷◌, ◌++◌, map, Option, none, some}
use aacs.Client.Device.{ControlTransfer, SwitchResult, switch_to_aoa}

-- The calls on a handle. The string descriptor that is read is not looked at.
pub data HandleCall : Type 0 where
  get_string_descriptor : HandleCall
  control_transfer : ControlTransfer → HandleCall
  close_handle : HandleCall

-- How the function ends. `null_handle`: libusb could not open the device, and the calls would be made
-- on a null pointer.
pub data SwitchEnd : Type 0 where
  ended : SwitchResult → SwitchEnd
  null_handle : SwitchEnd

-- `libusb_open_device_with_vid_pid` gives a handle, or a null pointer by `none`; the calls on it, in
-- order. The deleter runs when the function is left, by an exception too.
unfoldable pub switch_device : Option ℕ → (ℕ → Option ℕ) → SwitchEnd × List (ℕ × HandleCall)
switch_device none answer = (null_handle, [])
switch_device (some handle) answer = (
  ended (switch_to_aoa answer).0,
  map (λ c. (handle, c))
      (get_string_descriptor ∷ map control_transfer (switch_to_aoa answer).1 ++ close_handle ∷ []),
)

unfoldable pub closings : List (ℕ × HandleCall) → ℕ
closings [] = 0
closings ((h, close_handle) ∷ cs) = suc (closings cs)
closings ((h, get_string_descriptor) ∷ cs) = closings cs
closings ((h, control_transfer t) ∷ cs) = closings cs

one_closing :
    (h : ℕ) (ts : List ControlTransfer)
    → closings (map (λ c. (h, c)) (map control_transfer ts ++ close_handle ∷ [])) ≡ 1
unfolding closings
one_closing h [] = refl
one_closing h (t ∷ ts) = one_closing h ts

-- A handle that is opened is closed exactly once, whichever transfer fails.
handle_closed_once :
    (handle : ℕ) (answer : ℕ → Option ℕ) → closings (switch_device (some handle) answer).1 ≡ 1
unfolding switch_device closings
handle_closed_once handle answer = one_closing handle (switch_to_aoa answer).1
