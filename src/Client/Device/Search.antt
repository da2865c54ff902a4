-- ===== src/Client/Device/Search.antt =====
-- The loop of AAClient/main.cpp that looks for the device in accessory mode.
use aacs.Prelude.{
  ℕ, ◌≡◌, refl, Bool, true, false, ◌&&◌, ◌||◌, List, [], ◌∷◌, ◌++◌, Option, none, some, All, ◌==◌,
  if◌then◌else◌,
}

-- What main reads of a device.
pub record UsbId : Type 0 where
  pub vid : ℕ
  pub pid : ℕ

abbrev pub is_accessory : UsbId → Bool
is_accessory d = d.vid == 0x18d1 && (d.pid == 0x2d00 || d.pid == 0x2d01)

-- `for (auto &dev : devices)`, with `device`.
unfoldable pub find_from : Option UsbId → List UsbId → Option UsbId
find_from device [] = device
find_from device (dev ∷ devices) = find_from (if is_accessory dev then some dev else device) devices

-- `none` where main throws "cannot find device".
unfoldable pub find_device : List UsbId → Option UsbId
unfolding find_from
find_device devices = find_from none devices

find_from_skipped :
    (device : Option UsbId) (ds : List UsbId)
    → All (λ d. is_accessory d ≡ false) ds
    → find_from device ds ≡ device
unfolding find_from
find_from_skipped device [] h = refl
find_from_skipped device (d ∷ ds) (h, hs) = rw h (find_from_skipped device ds hs)

find_from_last :
    (device : Option UsbId) (before : List UsbId) (d : UsbId) (behind : List UsbId)
    → is_accessory d ≡ true
    → All (λ e. is_accessory e ≡ false) behind
    → find_from device (before ++ d ∷ behind) ≡ some d
unfolding find_from
find_from_last device [] d behind e h =
    let found : find_from device (d ∷ behind) ≡ some d =
      rw e (find_from_skipped (some d) behind h) in
    found
find_from_last device (b ∷ before) d behind e h =
    find_from_last (if is_accessory b then some b else device) before d behind e h

-- main takes the last device in accessory mode, and none where there is none.
pub last_device_found :
    (before : List UsbId) (d : UsbId) (behind : List UsbId)
    → is_accessory d ≡ true
    → All (λ e. is_accessory e ≡ false) behind
    → (find_device (before ++ d ∷ behind) ≡ some d) × (find_device behind ≡ none)
unfolding find_device
last_device_found before d behind e h =
    (find_from_last none before d behind e h, find_from_skipped none behind h)
