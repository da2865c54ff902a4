-- ===== src/Examples/Usb.antt =====
-- The gadgets of AAServer with calls that succeed, and with one that fails.
use aacs.Prelude.{ℕ, ◌≡◌, refl, true, false, [], ◌∷◌, map, some, none, List}
use aacs.CheckError.{count, failed, check_error, IoReturn}
use aacs.Server.Usb.{
  Answers, Answer, World, ok, threw, open_file, write_file, enable_gadget, mount_at, create_gadget,
  remove_gadget, create_function, set_gadget_string, manufacturer, product, serial_number,
  functionfs, create_directory, fill_file, usbg_error, mass_storage, signal_thread, join_thread,
  close_file, unmount,
}
use aacs.Server.Switching.{switch_loop}
use aacs.Server.Usb.Held.{Holds, at_start, Kept}
use aacs.Server.Usb.Effects.{effect}
use aacs.Server.Usb.Gadget.{lun_attrs}
use aacs.Server.Usb.Communicator.Order.{in_order, calls_before, destroy_order}
use aacs.Server.Usb.Communicator.{destroy, fresh, lifetime}
use aacs.Server.Usb.Communicator.Lifetime.{lifetime-Holds}
use aacs.Server.Usb.Mode.{handle_switch_to_accessory_mode, serve_ep0}
use aacs.Server.Usb.Mode.Released.{
  StillReads, switch-Kept, serve_ep0-ClosedUnlessThrown, ClosedUnlessThrown,
}
use aacs.Examples.Descriptors.{linux}
use aacs.Examples.Switching.{cells}

abbrev start : World
start = record { log = []; members = fresh }

abbrev answer : ℕ → Answer
answer n = record { code = count n; handle = 7 }

-- Descriptor 3 for each file, and whole writes; the rest succeeds with handle 7.
abbrev good : Answers
good log (open_file path) = answer 3
good log (write_file fd bytes) = answer 1
good log other = answer 0

-- The gadget cannot be enabled.
abbrev no_enable : Answers
no_enable log (open_file path) = answer 3
no_enable log (write_file fd bytes) = answer 1
no_enable log (enable_gadget g udc) = record { code = failed 16; handle = 0 }
no_enable log other = answer 0

-- The function cannot be mounted.
abbrev no_mount : Answers
no_mount log (mount_at name path) = record { code = failed 19; handle = 0 }
no_mount log other = answer 0

lifetime-Holds_example :
    Holds (effect true) (lifetime no_enable linux (some "dump") ("tmp" ∷ []) start).log []
lifetime-Holds_example =
    lifetime-Holds no_enable linux (some "dump") ("tmp" ∷ []) start [] refl at_start

-- A request 53, and a read of no bytes.
abbrev exit_reads : List (IoReturn × List ℕ)
exit_reads = (count 4, 0 ∷ 53 ∷ 0 ∷ 0 ∷ []) ∷ (count 0, []) ∷ []

switch-Kept_example :
    Kept
      (effect false)
      fresh
      (StillReads cells exit_reads)
      []
      (handle_switch_to_accessory_mode good linux cells ("tmp" ∷ []) exit_reads start)
switch-Kept_example = switch-Kept good linux cells ("tmp" ∷ []) exit_reads start [] at_start

serve_ep0-ClosedUnlessThrown_example :
    ClosedUnlessThrown
      (StillReads cells exit_reads)
      3
      []
      (serve_ep0 no_enable linux cells 7 ("m" ∷ []) exit_reads start)
serve_ep0-ClosedUnlessThrown_example =
    serve_ep0-ClosedUnlessThrown no_enable linux cells 7 3 ("m" ∷ []) exit_reads start [] at_start
      refl

-- The exception of `enable_gadget` leaves the descriptor.
enable_fails :
    (serve_ep0 no_enable linux cells 7 ("m" ∷ []) [] start).0 ≡ threw (usbg_error (failed 16))
unfolding serve_ep0 check_error
enable_fails = refl

switched :
    (handle_switch_to_accessory_mode good linux cells ("tmp" ∷ []) ((count 0, []) ∷ []) start).0
    ≡ ok tt
unfolding handle_switch_to_accessory_mode check_error switch_loop
switched = refl

-- A mount that fails is not taken away, and the gadget is removed.
mount_fails :
    map (λ e. e.0) (handle_switch_to_accessory_mode no_mount linux cells [] [] start).1.log
    ≡ remove_gadget 7
      ∷ mount_at "ffs_initial" ("AAServer_mp_loopback_initial" ∷ [])
      ∷ create_function 7 functionfs "ffs_initial"
      ∷ create_directory ("AAServer_mp_loopback_initial" ∷ [])
      ∷ create_function 7 (mass_storage (lun_attrs ("lun0" ∷ []))) "massstorage_initial"
      ∷ fill_file ("lun0" ∷ []) 4194304
      ∷ set_gadget_string 7 serial_number 0x409 "TAGAAS"
      ∷ set_gadget_string 7 product 0x409 "AAServer"
      ∷ set_gadget_string 7 manufacturer 0x409 "TAG"
      ∷ create_gadget 0x12d1 0x107e "initial_state"
      ∷ []
unfolding handle_switch_to_accessory_mode
mount_fails = refl

-- A communicator that is set up, with two of its threads.
abbrev set_up : World
set_up = record {
  log = [];
  members = record {
    main_gadget = some 7;
    ffs_function = some ("m" ∷ []);
    ep0_fd = count 3;
    ep1_fd = count 4;
    ep2_fd = failed 2;
    threads = 8 ∷ 9 ∷ [];
    pcap = none;
    dumper = none;
  };
}

destroy_order_example :
    in_order (destroy good set_up).log
    ≡ signal_thread 8
      ∷ signal_thread 9
      ∷ join_thread 8
      ∷ join_thread 9
      ∷ close_file (count 4)
      ∷ close_file (count 3)
      ∷ unmount ("m" ∷ [])
      ∷ remove_gadget 7
      ∷ []
unfolding calls_before
destroy_order_example = destroy_order good set_up
