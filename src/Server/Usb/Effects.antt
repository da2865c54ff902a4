-- ===== src/Server/Usb/Effects.antt =====
-- The gadgets, mounts and descriptors that the calls acquire and release, and what the objects of
-- AAServer/src do to them.
use Prim.Native.String.{String}
use aacs.Prelude.{ℕ, zero, suc, refl, Bool, true, false, List, if◌then◌else◌}
use aacs.CheckError.{IoReturn, count, failed}
use aacs.Server.Descriptors.{UsbConstants, descriptors_accessory, descriptors_default, strings}
use aacs.Server.Usb.{
  FilePath, Answers, Answer, Call, Members, create_gadget, remove_gadget, mount_at, unmount,
  open_file, close_file, is_success, ◌>>◌, checked_write, first_udc, wrong_udc,
}
use aacs.Server.Usb.Gadget.{
  gadget, drop_gadget, set_strings, enable, FfsFunction, ffs_function, drop_ffs_function,
  mass_storage_function, configuration, add_function, get_udc_by_id, accessory_to, default_to,
}
use aacs.Server.Usb.Held.{
  Effect, acquires, releases, neither, Keeps, Constructs, Destroys, Keeps-bind, Keeps-pure,
  Keeps-raise, Constructs-bind, Constructs-map,
}
use aacs.Server.Usb.Held.Calls.{
  Keeps-usbg, Keeps-ask, Keeps-checked_write, Constructs-usbg, Constructs-ask_or_throw,
  Destroys-call,
}

pub data Resource : Type 0 where
  usb_gadget : ℕ → Resource
  mounted : FilePath → Resource
  opened : ℕ → Resource

unfoldable pub opens : IoReturn → Effect Resource
opens (count n) = acquires (opened n)
opens (failed errno) = neither

unfoldable pub closes : IoReturn → Effect Resource
closes (count n) = releases (opened n)
closes (failed errno) = neither

unless_ignored : Bool → Effect Resource → Effect Resource
unless_ignored true e = e
unless_ignored false e = neither

-- Gadgets and mounts, and descriptors if `with_files` says so. A destructor's call counts as a
-- release, whatever it answers.
unfoldable pub effect : Bool → Call × Answer → Effect Resource
unfolding opens closes is_success unless_ignored
effect with_files (create_gadget vid pid name, a) =
    if is_success a.code then acquires (usb_gadget a.handle) else neither
effect with_files (remove_gadget g, a) = releases (usb_gadget g)
effect with_files (mount_at name path, a) =
    if is_success a.code then acquires (mounted path) else neither
effect with_files (unmount path, a) = releases (mounted path)
effect with_files (open_file path, a) = unless_ignored with_files (opens a.code)
effect with_files (close_file fd, a) = unless_ignored with_files (closes fd)
effect with_files (c, a) = neither

abbrev pub mounted_at : FfsFunction → Resource
mounted_at f = mounted f.mount_point

module _ (files : Bool) (fixed : Members) (waiting : Type 0) (answers : Answers) where
  pub Constructs-gadget :
      (vid pid : ℕ) (name : String)
      → Constructs (effect files) fixed waiting usb_gadget (gadget answers vid pid name)
  unfolding gadget effect
  Constructs-gadget vid pid name =
      Constructs-usbg (effect files) fixed waiting answers _ usb_gadget (λ a. refl)

  pub Destroys-gadget : Destroys (effect files) fixed waiting usb_gadget (drop_gadget answers)
  unfolding drop_gadget effect
  Destroys-gadget =
      Destroys-call (effect files) fixed waiting answers remove_gadget usb_gadget (λ g a. refl)

  pub Keeps-set_strings :
      (g : ℕ) (maker name serial : String)
      → Keeps (effect files) fixed waiting (set_strings answers g maker name serial)
  unfolding set_strings effect
  Keeps-set_strings g maker name serial =
      Keeps-bind (effect files) fixed waiting _ _
        (Keeps-usbg (effect files) fixed waiting answers _ (λ a. refl))
        (λ _.
          Keeps-bind (effect files) fixed waiting _ _
            (Keeps-usbg (effect files) fixed waiting answers _ (λ a. refl))
            (λ _. Keeps-usbg (effect files) fixed waiting answers _ (λ a. refl)))

  pub Keeps-enable : (g udc : ℕ) → Keeps (effect files) fixed waiting (enable answers g udc)
  unfolding enable effect
  Keeps-enable g udc = Keeps-usbg (effect files) fixed waiting answers _ (λ a. refl)

  pub Constructs-ffs_function :
      (g : ℕ) (name : String) (path : FilePath)
      → Constructs (effect files) fixed waiting mounted_at (ffs_function answers g name path)
  unfolding ffs_function effect
  Constructs-ffs_function g name path =
      Constructs-bind (effect files) fixed waiting mounted_at _ _
        (Keeps-usbg (effect files) fixed waiting answers _ (λ a. refl))
        (λ f.
          Constructs-map (effect files) fixed waiting (λ _. mounted path) mounted_at _ _ (λ a. refl)
            (Constructs-ask_or_throw (effect files) fixed waiting answers _ _ _ (λ a. refl)))

  pub Destroys-ffs_function :
      Destroys (effect files) fixed waiting mounted_at (drop_ffs_function answers)
  unfolding drop_ffs_function effect
  Destroys-ffs_function =
      Destroys-call (effect files) fixed waiting answers (λ f. unmount f.mount_point) mounted_at
        (λ f a. refl)

  pub Keeps-mass_storage_function :
      (g : ℕ) (name : String) (lun : FilePath)
      → Keeps (effect files) fixed waiting (mass_storage_function answers g name lun)
  unfolding mass_storage_function effect
  Keeps-mass_storage_function g name lun =
      Keeps-usbg (effect files) fixed waiting answers _ (λ a. refl)

  pub Keeps-configuration :
      (g : ℕ) (name : String) → Keeps (effect files) fixed waiting (configuration answers g name)
  unfolding configuration effect
  Keeps-configuration g name = Keeps-usbg (effect files) fixed waiting answers _ (λ a. refl)

  pub Keeps-add_function :
      (config function : ℕ) (name : String)
      → Keeps (effect files) fixed waiting (add_function answers config function name)
  unfolding add_function effect
  Keeps-add_function config function name =
      Keeps-usbg (effect files) fixed waiting answers _ (λ a. refl)

  pub Keeps-get_udc_by_id : (id : ℕ) → Keeps (effect files) fixed waiting (get_udc_by_id answers id)
  unfolding get_udc_by_id effect
  Keeps-get_udc_by_id zero =
      Keeps-bind (effect files) fixed waiting _ _
        (Keeps-ask (effect files) fixed waiting answers first_udc (λ a. refl))
        (λ a. Keeps-pure _ _ _ a.handle)
  Keeps-get_udc_by_id (suc id) = Keeps-raise _ _ _ wrong_udc

  writes :
      (fd : IoReturn) (a b : List ℕ)
      → Keeps
          (effect files)
          fixed
          waiting
          (checked_write answers fd a >> checked_write answers fd b)
  unfolding effect
  writes fd a b =
      Keeps-bind (effect files) fixed waiting _ _
        (Keeps-checked_write (effect files) fixed waiting answers fd a (λ a. refl))
        (λ _. Keeps-checked_write (effect files) fixed waiting answers fd b (λ a. refl))

  pub Keeps-accessory_to :
      (usb : UsbConstants) (fd : IoReturn)
      → Keeps (effect files) fixed waiting (accessory_to answers usb fd)
  unfolding accessory_to
  Keeps-accessory_to usb fd = writes fd (descriptors_accessory usb) (strings usb)

  pub Keeps-default_to :
      (usb : UsbConstants) (fd : IoReturn)
      → Keeps (effect files) fixed waiting (default_to answers usb fd)
  unfolding default_to
  Keeps-default_to usb fd = writes fd (descriptors_default usb) (strings usb)
