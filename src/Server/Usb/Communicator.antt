-- ===== src/Server/Usb/Communicator.antt =====
-- The life of an `AaCommunicator` of AAServer/src/AaCommunicator.cpp: what the constructor opens for
-- the dump file, `setup`, `startThread`, and the destructor with those of the members. `rr` and `sr`
-- give back their argument.
pub mod Destroyed
pub mod Runs
pub mod Lifetime
pub mod Order
use Prim.Native.String.{String}
use aacs.Prelude.{ℕ, zero, suc, List, [], ◌∷◌, ◌++◌, Option, none, some}
use aacs.CheckError.{IoReturn, count, failed}
use aacs.Server.Descriptors.{UsbConstants}
use aacs.Server.Usb.{
  FilePath, Answers, Action, Members, World, Result, open_file, close_file, create_directory,
  start_thread, signal_thread, join_thread, pcap_open, pcap_dump_open, pcap_dump_close, pcap_close,
  ask, ask_or_throw, do_call, pure, modify, gets, ◌>>=◌, ◌>>◌, directory_failed, thread_failed,
  unmount, remove_gadget, carry_on,
}
use aacs.Server.Usb.Gadget.{
  gadget, drop_gadget, set_strings, enable, FfsFunction, ffs_function, configuration, add_function,
  accessory_to, get_udc_by_id,
}

-- The members before the constructor: the descriptors are -1.
unfoldable pub fresh : Members
fresh = record {
  main_gadget = none;
  ffs_function = none;
  ep0_fd = failed 0;
  ep1_fd = failed 0;
  ep2_fd = failed 0;
  threads = [];
  pcap = none;
  dumper = none;
}

abbrev pub main_mount : FilePath → FilePath
main_mount tmp = tmp ++ "AAServer_mp_loopback_main" ∷ []

-- A pointer.
unfoldable pub pointer : ℕ → Option ℕ
pointer zero = none
pointer (suc n) = some (suc n)

module _ (answers : Answers) where
  -- The end of the constructor; `none` is the empty name.
  unfoldable pub open_dump : Option String → Action (Unit {0})
  unfolding ask pointer ◌>>=◌
  open_dump none = pure tt
  open_dump (some dumpfile) = do
    pd ← ask answers pcap_open
    modify (λ m. record m { pcap = pointer pd.handle })
    d ← ask answers (pcap_dump_open pd.handle dumpfile)
    modify (λ m. record m { dumper = pointer d.handle })

  -- `std::thread` may throw; the vector keeps the thread.
  unfoldable pub start_pump : IoReturn → Action (Unit {0})
  unfolding ask_or_throw ◌>>=◌
  start_pump fd = do
    t ← ask_or_throw answers (start_thread fd) thread_failed
    modify (λ m. record m { threads = m.threads ++ t ∷ [] })

  module _ (usb : UsbConstants) where
    -- The second half of `setup`: the endpoints, the threads on them, and the start of the gadget.
    unfoldable pub open_endpoints : FilePath → ℕ → ℕ → Action ℕ
    unfolding ask accessory_to start_pump enable ◌>>=◌
    open_endpoints mount_point g udc = do
      e0 ← ask answers (open_file (mount_point ++ "ep0" ∷ []))
      modify (λ m. record m { ep0_fd = e0.code })
      accessory_to answers usb e0.code
      e1 ← ask answers (open_file (mount_point ++ "ep1" ∷ []))
      modify (λ m. record m { ep1_fd = e1.code })
      e2 ← ask answers (open_file (mount_point ++ "ep2" ∷ []))
      modify (λ m. record m { ep2_fd = e2.code })
      start_pump e0.code
      start_pump e1.code
      start_pump e2.code
      enable answers g udc

    unfoldable pub setup : FilePath → ℕ → Action ℕ
    unfolding gadget set_strings ask_or_throw ffs_function configuration add_function open_endpoints
        ◌>>=◌
    setup tmp udc = do
      g ← gadget answers 0x18d1 0x2d00 "main_state"
      modify (λ m. record m { main_gadget = some g })
      set_strings answers g "TAG" "AAServer" "TAGAAS"
      ask_or_throw answers (create_directory (main_mount tmp)) directory_failed
      f ← ffs_function answers g "ffs_main" (main_mount tmp)
      modify (λ m. record m { ffs_function = some f.mount_point })
      c ← configuration answers g "c0"
      add_function answers c f.function "ffs_main"
      open_endpoints (main_mount tmp) g udc

  unfoldable pub signal_all : List ℕ → World → World
  unfolding do_call
  signal_all [] w = w
  signal_all (t ∷ ts) w = signal_all ts (do_call answers (signal_thread t) w)

  unfoldable pub join_all : List ℕ → World → World
  unfolding do_call
  join_all [] w = w
  join_all (t ∷ ts) w = join_all ts (do_call answers (join_thread t) w)

  -- `if (fd != -1) close(fd);`.
  unfoldable pub close_if : IoReturn → World → World
  unfolding do_call
  close_if (count n) w = do_call answers (close_file (count n)) w
  close_if (failed errno) w = w

  unfoldable pub close_dump : Option ℕ → Option ℕ → World → World
  unfolding do_call
  close_dump none none w = w
  close_dump none (some p) w = do_call answers (pcap_close p) w
  close_dump (some d) none w = do_call answers (pcap_dump_close d) w
  close_dump (some d) (some p) w =
      do_call answers (pcap_close p) (do_call answers (pcap_dump_close d) w)

  -- The `unique_ptr`s, the last declared first: `~FfsFunction`, then `~Gadget`.
  unfoldable pub drop_function : Option FilePath → World → World
  unfolding do_call
  drop_function none w = w
  drop_function (some path) w = do_call answers (unmount path) w

  unfoldable pub drop_main_gadget : Option ℕ → World → World
  unfolding drop_gadget
  drop_main_gadget none w = w
  drop_main_gadget (some g) w = drop_gadget answers g w

  -- `~AaCommunicator`, once `threadFinished` is set.
  unfoldable pub destroy : World → World
  unfolding signal_all join_all close_if close_dump drop_function drop_main_gadget
  destroy w =
      let m = w.members in
      drop_main_gadget m.main_gadget (
        drop_function m.ffs_function (
          close_dump m.dumper m.pcap (
            close_if m.ep0_fd (
              close_if m.ep1_fd
                (close_if m.ep2_fd (join_all m.threads (signal_all m.threads w)))))))

  -- What main.cpp does with the object: the constructor and `setup`, and, where it is left or an
  -- exception of `setup` caught further out, the destructor.
  unfoldable pub construct_and_setup : UsbConstants → Option String → FilePath → Action ℕ
  unfolding open_dump get_udc_by_id setup ◌>>=◌
  construct_and_setup usb dumpfile tmp = do
    open_dump dumpfile
    udc ← get_udc_by_id answers 0
    setup usb tmp udc

  unfoldable pub lifetime : UsbConstants → Option String → FilePath → World → World
  unfolding construct_and_setup destroy
  lifetime usb dumpfile tmp w = destroy (construct_and_setup usb dumpfile tmp w).1
