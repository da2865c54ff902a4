-- ===== src/Server/Usb/Mode.antt =====
-- `handleSwitchToAccessoryMode` of AAServer/src/ModeSwitcher.cpp: the gadget of the first mode, from
-- its set-up to its end. The loop in it is that of Switching. `rr` and `sr` give back their argument.
pub mod Released
use aacs.Prelude.{ℕ, ◌≡◌, refl, true, false, List, [], ◌∷◌, ◌++◌}
use aacs.CheckError.{IoReturn, count}
use aacs.Server.Descriptors.{UsbConstants}
use aacs.Server.Events.{EventLayout}
use aacs.Server.Switching.{SwitchEnd, reading, left, threw as loop_threw, switch_loop}
use aacs.Server.Usb.{
  FilePath, Answers, Action, World, Result, ok, threw, waits, create_directory, fill_file,
  open_file, close_file, write_file, ask, ask_or_throw, pure, raise, ◌>>=◌, ◌>>◌, scope, carry_on,
  check_failed, directory_failed,
}
use aacs.Server.Usb.Gadget.{
  gadget, drop_gadget, set_strings, enable, FfsFunction, ffs_function, drop_ffs_function,
  mass_storage_function, configuration, add_function, get_udc_by_id, default_to,
}

-- Below `tmp`, which is what `temp_directory_path` returns.
abbrev pub lun0_path : FilePath → FilePath
lun0_path tmp = tmp ++ "lun0" ∷ []

abbrev pub initial_mount : FilePath → FilePath
initial_mount tmp = tmp ++ "AAServer_mp_loopback_initial" ∷ []

module _ (answers : Answers) (usb : UsbConstants) (layout : EventLayout) where
  -- The writes of the loop, whose results are only printed.
  unfoldable pub write_all : IoReturn → List (List ℕ) → Action (Unit {0})
  unfolding ask ◌>>=◌
  write_all fd [] = pure tt
  write_all fd (bytes ∷ rest) = ask answers (write_file fd bytes) >> write_all fd rest

  unfoldable pub end_loop : SwitchEnd → Action (Unit {0})
  end_loop reading w = (waits, w)
  end_loop left w = (ok tt, w)
  end_loop loop_threw w = (threw check_failed, w)

  -- Between `open` and `close`; `reads` is what the reads of the loop find.
  unfoldable pub with_ep0 : ℕ → List (IoReturn × List ℕ) → IoReturn → Action (Unit {0})
  unfolding write_all end_loop default_to get_udc_by_id enable ◌>>=◌
  with_ep0 g reads fd = do
    default_to answers usb fd
    udc ← get_udc_by_id answers 0
    enable answers g udc
    write_all fd (switch_loop layout reads).1
    end_loop (switch_loop layout reads).0

  -- From `open` to `close`.
  unfoldable pub serve_ep0 : ℕ → FilePath → List (IoReturn × List ℕ) → Action (Unit {0})
  unfolding with_ep0 ask ◌>>=◌
  serve_ep0 g mount_point reads = do
    fd ← ask answers (open_file (mount_point ++ "ep0" ∷ []))
    with_ep0 g reads fd.code
    ask answers (close_file fd.code)
    pure tt

  unfoldable pub in_mount : ℕ → ℕ → List (IoReturn × List ℕ) → FfsFunction → Action (Unit {0})
  unfolding serve_ep0 configuration add_function ◌>>=◌
  in_mount g ms reads ffs = do
    c ← configuration answers g "c0"
    add_function answers c ms "massstorage_initial"
    add_function answers c ffs.function "loopback_initial"
    serve_ep0 g ffs.mount_point reads

  -- The stream makes a file of 4 MiB; whether it could is not tested.
  unfoldable pub in_gadget : FilePath → List (IoReturn × List ℕ) → ℕ → Action (Unit {0})
  unfolding in_mount set_strings ask ask_or_throw mass_storage_function ffs_function
      drop_ffs_function scope ◌>>=◌
  in_gadget tmp reads g = do
    set_strings answers g "TAG" "AAServer" "TAGAAS"
    ask answers (fill_file (lun0_path tmp) 4194304)
    ms ← mass_storage_function answers g "massstorage_initial" (lun0_path tmp)
    ask_or_throw answers (create_directory (initial_mount tmp)) directory_failed
    scope (ffs_function answers g "ffs_initial" (initial_mount tmp)) (drop_ffs_function answers)
        (in_mount g ms reads)

  unfoldable pub handle_switch_to_accessory_mode :
      FilePath → List (IoReturn × List ℕ) → Action (Unit {0})
  unfolding in_gadget gadget drop_gadget scope
  handle_switch_to_accessory_mode tmp reads =
      scope (gadget answers 0x12d1 0x107e "initial_state") (drop_gadget answers)
        (in_gadget tmp reads)
