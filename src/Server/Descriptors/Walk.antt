-- ===== src/Server/Descriptors/Walk.antt =====
-- What the heads of the tables of descriptors hold, and the order in which they are written.
use aacs.CheckError.{count, failed, check_error}
use aacs.Prelude.{ℕ, zero, suc, ◌+◌, ◌*◌, ◌≡◌, refl, List, [], ◌∷◌, length, get_or}
use aacs.Server.Descriptors.{
  UsbConstants, interface, endpoint, accessory_descs, default_descs, descriptors_accessory,
  descriptors_default, table, strings, write_descriptors_accessory, write_descriptors_default,
}

le32_at : List ℕ → ℕ → ℕ
le32_at bs i =
    get_or bs i 0
    + 256 * get_or bs (suc i) 0
    + 65536 * get_or bs (suc (suc i)) 0
    + 16777216 * get_or bs (suc (suc (suc i))) 0

-- The head of a table holds the length of the whole table and the numbers of its descriptors for
-- each of the two speeds, three for the accessory and one for the mode switch.
heads_written :
    (usb : UsbConstants)
    → (le32_at (descriptors_accessory usb) 4 ≡ length (descriptors_accessory usb))
      × (le32_at (descriptors_default usb) 4 ≡ length (descriptors_default usb))
      × (le32_at (descriptors_accessory usb) 12 ≡ 3)
      × (le32_at (descriptors_accessory usb) 16 ≡ 3)
      × (le32_at (descriptors_default usb) 12 ≡ 1)
      × (le32_at (descriptors_default usb) 16 ≡ 1)
unfolding le32_at descriptors_accessory descriptors_default table accessory_descs default_descs
    interface endpoint
heads_written usb = (refl, refl, refl, refl, refl, refl)

-- Both functions write their table and then the strings, whose head holds their length, and write no
-- strings when the first write fails.
strings_written :
    (usb : UsbConstants) (n e : ℕ)
    → (le32_at (strings usb) 4 ≡ length (strings usb))
      × (write_descriptors_accessory usb (count n) ≡ descriptors_accessory usb ∷ strings usb ∷ [])
      × (write_descriptors_accessory usb (failed e) ≡ descriptors_accessory usb ∷ [])
      × (write_descriptors_default usb (count n) ≡ descriptors_default usb ∷ strings usb ∷ [])
      × (write_descriptors_default usb (failed e) ≡ descriptors_default usb ∷ [])
unfolding le32_at strings write_descriptors_accessory write_descriptors_default check_error
strings_written usb zero e = (refl, refl, refl, refl, refl)
strings_written usb (suc n) e = (refl, refl, refl, refl, refl)
