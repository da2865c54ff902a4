-- ===== src/Server/Usb/Gadget.antt =====
-- The objects around libusbg: Library.cpp, Gadget.cpp, Function.cpp, FfsFunction.cpp,
-- MassStorageFunction.cpp, Configuration.cpp and Udc.cpp of AAServer/src.
use Prim.Native.String.{String}
use aacs.Prelude.{ℕ, zero, suc, none}
use aacs.CheckError.{IoReturn}
use aacs.Server.Descriptors.{UsbConstants, descriptors_accessory, descriptors_default, strings}
use aacs.Server.Usb.{
  FilePath, Answers, Action, World, MassStorageAttrs, functionfs, mass_storage, manufacturer,
  product, serial_number, init_usbg, cleanup_usbg, create_gadget, set_gadget_string, remove_gadget,
  create_function, create_config, add_config_function, first_udc, enable_gadget, mount_at, unmount,
  ask, usbg, ask_or_throw, checked_write, do_call, pure, raise, ◌>>=◌, ◌>>◌, wrong_udc,
  mounting_failed,
}

-- A function and its mount point.
pub record FfsFunction : Type 0 where
  pub function : ℕ
  pub mount_point : FilePath

unfoldable pub lun_attrs : FilePath → MassStorageAttrs
lun_attrs lun = record {
  id = none;
  cdrom = 1;
  read_only = 0;
  nofua = 0;
  removable = 1;
  file = lun;
  stall = 0;
  luns = 1;
}

module _ (answers : Answers) where
  -- `Library`, by the state of libusbg.
  unfoldable pub library : String → Action ℕ
  unfolding usbg
  library base_path = usbg answers (init_usbg base_path)

  unfoldable pub drop_library : ℕ → World → World
  unfolding do_call
  drop_library state = do_call answers (cleanup_usbg state)

  -- The constructor; the object is the handle.
  unfoldable pub gadget : ℕ → ℕ → String → Action ℕ
  unfolding usbg
  gadget vid pid name = usbg answers (create_gadget vid pid name)

  -- `~Gadget`.
  unfoldable pub drop_gadget : ℕ → World → World
  unfolding do_call
  drop_gadget g = do_call answers (remove_gadget g)

  unfoldable pub set_strings : ℕ → String → String → String → Action ℕ
  unfolding usbg ◌>>=◌
  set_strings g maker name serial = do
    usbg answers (set_gadget_string g manufacturer 0x409 maker)
    usbg answers (set_gadget_string g product 0x409 name)
    usbg answers (set_gadget_string g serial_number 0x409 serial)

  unfoldable pub enable : ℕ → ℕ → Action ℕ
  unfolding usbg
  enable g udc = usbg answers (enable_gadget g udc)

  unfoldable pub ffs_function : ℕ → String → FilePath → Action FfsFunction
  unfolding usbg ask_or_throw ◌>>=◌
  ffs_function g name mount_point = do
    f ← usbg answers (create_function g functionfs name)
    ask_or_throw answers (mount_at name mount_point) mounting_failed
    pure (record { function = f; mount_point = mount_point })

  -- `~FfsFunction`, which also `delete` of a `Function` calls: its destructor is virtual.
  unfoldable pub drop_ffs_function : FfsFunction → World → World
  unfolding do_call
  drop_ffs_function f = do_call answers (unmount f.mount_point)

  unfoldable pub mass_storage_function : ℕ → String → FilePath → Action ℕ
  unfolding usbg lun_attrs
  mass_storage_function g name lun =
      usbg answers (create_function g (mass_storage (lun_attrs lun)) name)

  unfoldable pub configuration : ℕ → String → Action ℕ
  unfolding usbg
  configuration g name = usbg answers (create_config g 1 name 0xc0 0x30)

  unfoldable pub add_function : ℕ → ℕ → String → Action ℕ
  unfolding usbg
  add_function config function name = usbg answers (add_config_function config name function)

  -- `Udc::getUdcById`.
  unfoldable pub get_udc_by_id : ℕ → Action ℕ
  unfolding ask ◌>>=◌
  get_udc_by_id zero = ask answers first_udc >>= λ a. pure a.handle
  get_udc_by_id (suc id) = raise wrong_udc

  module _ (usb : UsbConstants) where
    -- The writes of `write_descriptors_accessory` and `write_descriptors_default`, on a descriptor.
    unfoldable pub accessory_to : IoReturn → Action (Unit {0})
    unfolding checked_write ◌>>=◌
    accessory_to fd = do
      checked_write answers fd (descriptors_accessory usb)
      checked_write answers fd (strings usb)

    unfoldable pub default_to : IoReturn → Action (Unit {0})
    unfolding checked_write ◌>>=◌
    default_to fd = do
      checked_write answers fd (descriptors_default usb)
      checked_write answers fd (strings usb)
