-- ===== src/Server/Descriptors.antt =====
-- AAServer/src/descriptors.cpp: the descriptors and strings that are written to endpoint 0 before
-- the gadget is enabled. The packed structs are written byte by byte, little endian.
pub mod Walk
use aacs.Prelude.{
  ℕ, suc, ◌+◌, ◌*◌, ◌/◌, ◌%◌, ◌^◌, bit_or, List, [], ◌∷◌, ◌++◌, length, Bool, true, false,
}
use aacs.CheckError.{IoReturn, Checked, exception, moved, minus_one, nothing, check_error}

-- The constants of linux/usb/functionfs.h and linux/usb/ch9.h.
pub record UsbConstants : Type 0 where
  pub descriptors_magic_v2 : ℕ
  pub strings_magic : ℕ
  pub has_fs_desc : ℕ
  pub has_hs_desc : ℕ
  pub all_ctrl_recip : ℕ
  pub dt_interface : ℕ
  pub dt_endpoint : ℕ
  pub class_vendor_spec : ℕ
  pub subclass_vendor_spec : ℕ
  pub dir_in : ℕ
  pub dir_out : ℕ
  pub xfer_bulk : ℕ

-- `cpu_to_le16` and `cpu_to_le32`, as bytes.
abbrev pub le16 : ℕ → List ℕ
le16 n = n % 256 ∷ n / 256 % 256 ∷ []

abbrev pub le32 : ℕ → List ℕ
le32 n = n % 256 ∷ n / 256 % 256 ∷ n / 65536 % 256 ∷ n / 16777216 % 256 ∷ []

module _ (usb : UsbConstants) where
  -- `usb_interface_descriptor`: its 9 bytes, with 0 where the initializer names no member.
  pub interface : ℕ → List ℕ
  interface endpoints =
      9 ∷ usb.dt_interface ∷ 0 ∷ 0 ∷ endpoints ∷ usb.class_vendor_spec ∷ usb.subclass_vendor_spec
      ∷ 0 ∷ 1 ∷ []

  -- `usb_endpoint_descriptor_no_audio`: its 7 bytes.
  pub endpoint : ℕ → List ℕ
  endpoint address = 7 ∷ usb.dt_endpoint ∷ address ∷ usb.xfer_bulk ∷ le16 512 ++ 0 ∷ []

  -- The member `fs_descs` or `hs_descs` of `descriptors_accessory`.
  unfoldable pub accessory_descs : List ℕ
  unfolding interface endpoint
  accessory_descs = interface 2 ++ endpoint (bit_or 1 usb.dir_in) ++ endpoint (bit_or 2 usb.dir_out)

  -- The same of `descriptors_default`.
  unfoldable pub default_descs : List ℕ
  unfolding interface
  default_descs = interface 0

  -- A struct of the two tables: `usb_functionfs_descs_head_v2`, the two counts, and the two members.
  pub table : ℕ → ℕ → ℕ → List ℕ → List ℕ
  table size flags descs_count descs =
      le32 usb.descriptors_magic_v2
      ++ le32 size
      ++ le32 flags
      ++ le32 descs_count
      ++ le32 descs_count
      ++ descs
      ++ descs

  -- `sizeof descriptors_accessory` is 66, and `sizeof descriptors_default` is 38.
  unfoldable pub descriptors_accessory : List ℕ
  unfolding table
  descriptors_accessory = table 66 (bit_or usb.has_fs_desc usb.has_hs_desc) 3 accessory_descs

  unfoldable pub descriptors_default : List ℕ
  unfolding table
  descriptors_default =
      table 38 (bit_or (bit_or usb.has_fs_desc usb.has_hs_desc) usb.all_ctrl_recip) 1 default_descs

  -- "Android Accessory Interface", with the 0 behind it.
  abbrev pub str1 : List ℕ
  str1 =
      0x41 ∷ 0x6e ∷ 0x64 ∷ 0x72 ∷ 0x6f ∷ 0x69 ∷ 0x64 ∷ 0x20 ∷ 0x41 ∷ 0x63 ∷ 0x63 ∷ 0x65 ∷ 0x73
      ∷ 0x73 ∷ 0x6f ∷ 0x72 ∷ 0x79 ∷ 0x20 ∷ 0x49 ∷ 0x6e ∷ 0x74 ∷ 0x65 ∷ 0x72 ∷ 0x66 ∷ 0x61 ∷ 0x63
      ∷ 0x65 ∷ 0 ∷ []

  -- `usb_functionfs_strings_head` and the one language, of 46 bytes.
  unfoldable pub strings : List ℕ
  strings = le32 usb.strings_magic ++ le32 46 ++ le32 1 ++ le32 1 ++ le16 0x0409 ++ str1

  -- `checkError` with no errno ignored, and the call behind it.
  then_write : Checked → List (List ℕ) → List (List ℕ)
  then_write exception next = []
  then_write (moved n) next = next
  then_write minus_one next = next
  then_write nothing next = next

  -- What is written to the endpoint, when `write` returns this for the first table.
  unfoldable pub write_descriptors_accessory : IoReturn → List (List ℕ)
  unfolding then_write
  write_descriptors_accessory r =
      descriptors_accessory ∷ then_write (check_error r []) (strings ∷ [])

  unfoldable pub write_descriptors_default : IoReturn → List (List ℕ)
  unfolding then_write
  write_descriptors_default r = descriptors_default ∷ then_write (check_error r []) (strings ∷ [])
