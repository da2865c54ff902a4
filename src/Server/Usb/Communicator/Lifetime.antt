-- ===== src/Server/Usb/Communicator/Lifetime.antt =====
-- The resources of an `AaCommunicator` of AAServer/src/AaCommunicator.cpp, from its constructor to its
-- destructor.
use Prim.Native.String.{String}
use aacs.Prelude.{ℕ, ◌≡◌, refl, ap, true, List, [], ◌∷◌, ◌++◌, Option, none, some}
use aacs.Server.Descriptors.{UsbConstants}
use aacs.Server.Usb.{
  FilePath, Answers, Members, World, Result, ok, threw, waits, create_directory, pcap_open,
  pcap_dump_open, ask, ◌>>=◌, carry_on, directory_failed,
}
use aacs.Server.Usb.Held.{Holds, untouched}
use aacs.Server.Usb.Held.Calls.{Keeps-ask_or_throw}
use aacs.Server.Usb.Gadget.{get_udc_by_id}
use aacs.Server.Usb.Effects.{
  Resource, effect, mounted_at, usb_gadget, Constructs-gadget, Keeps-set_strings, Keeps-enable,
  Constructs-ffs_function, Keeps-configuration, Keeps-add_function, Keeps-accessory_to,
  Keeps-get_udc_by_id,
}
use aacs.Server.Usb.Communicator.{
  fresh, main_mount, pointer, open_dump, open_endpoints, setup, construct_and_setup, lifetime,
  destroy,
}
use aacs.Server.Usb.Communicator.Destroyed.{
  owned, with_fd, with_mount, with_gadget, IsHeld, destroy-Holds,
}
use aacs.Server.Usb.Communicator.Runs.{
  Safe, Runs, Runs-Keeps, Runs-construct, Runs-open, Runs-last, Runs-start,
}

-- A communicator that has opened the dump file, or not.
unfoldable dumping : Option ℕ → Option ℕ → Members
unfolding fresh
dumping p d = record fresh { pcap = p; dumper = d }

module _ (answers : Answers) (held : List Resource) where
  module _ (p d : Option ℕ) (usb : UsbConstants) where
    with_objects : ℕ → FilePath → Members
    unfolding dumping
    with_objects g path = record (dumping p d) { main_gadget = some g; ffs_function = some path }

    open_endpoints-Runs :
        (point path : FilePath) (g udc : ℕ)
        → Runs answers held (with_objects g point) (open_endpoints answers usb path g udc)
    unfolding open_endpoints with_objects dumping fresh owned with_fd with_mount with_gadget
    open_endpoints-Runs point path g udc =
        Runs-open answers held _ (path ++ "ep0" ∷ []) (λ c m. record m { ep0_fd = c }) _ (λ c. refl)
          (λ e0.
            Runs-Keeps answers held _ _ _ (Keeps-accessory_to true _ ⊥ answers usb e0.code) (λ _.
              Runs-open answers held _ (path ++ "ep1" ∷ []) (λ c m. record m { ep1_fd = c }) _
                (λ c. refl)
                (λ e1.
                  Runs-open answers held _ (path ++ "ep2" ∷ []) (λ c m. record m { ep2_fd = c }) _
                    (λ c. refl)
                    (λ e2. Runs-start answers held _ e0.code _ (λ t0.
                      Runs-start answers held _ e1.code _ (λ t1.
                        Runs-start answers held _ e2.code _ (λ t2.
                          Runs-last answers held _ _ (Keeps-enable true _ ⊥ answers g udc))))))))

    setup-Runs :
        (tmp : FilePath) (udc : ℕ) → Runs answers held (dumping p d) (setup answers usb tmp udc)
    unfolding setup with_objects dumping fresh owned with_fd with_mount with_gadget effect
    setup-Runs tmp udc =
        Runs-construct answers held _ usb_gadget _ (λ g m. record m { main_gadget = some g }) _
          (Constructs-gadget true _ ⊥ answers _ _ _) (λ g. refl)
          (λ g.
            Runs-Keeps answers held _ _ _
              (Keeps-set_strings true _ ⊥ answers g "TAG" "AAServer" "TAGAAS")
              (λ _.
                Runs-Keeps answers held _ _ _
                  (Keeps-ask_or_throw (effect true) _ ⊥ answers (create_directory (main_mount tmp))
                    directory_failed (λ a. refl))
                  (λ _.
                    Runs-construct answers held _ mounted_at _
                      (λ f m. record m { ffs_function = some f.mount_point }) _
                      (Constructs-ffs_function true _ ⊥ answers g "ffs_main" (main_mount tmp))
                      (λ f. refl)
                      (λ f.
                        Runs-Keeps answers held _ _ _ (Keeps-configuration true _ ⊥ answers g "c0")
                          (λ c.
                            Runs-Keeps answers held _ _ _
                              (Keeps-add_function true _ ⊥ answers c f.function "ffs_main")
                              (λ _. open_endpoints-Runs f.mount_point (main_mount tmp) g udc))))))

    set_up-Runs :
        (tmp : FilePath)
        → Runs answers held
            (dumping p d)
            (get_udc_by_id answers 0 >>= λ udc. setup answers usb tmp udc)
    set_up-Runs tmp =
        Runs-Keeps answers held _ _ _ (Keeps-get_udc_by_id true _ ⊥ answers 0)
          (λ udc. setup-Runs tmp udc)

  construct-Runs :
      (usb : UsbConstants) (dumpfile : Option String) (tmp : FilePath)
      → Runs answers held fresh (construct_and_setup answers usb dumpfile tmp)
  unfolding construct_and_setup open_dump ◌>>=◌ carry_on ask effect dumping owned
  construct-Runs usb none tmp = record { at = λ w e h. (set_up-Runs none none usb tmp).at w e h }
  construct-Runs usb (some dumpfile) tmp = record {
    at = λ w e h.
        let a = answers w.log pcap_open in
        let d = answers ((pcap_open, a) ∷ w.log) (pcap_dump_open a.handle dumpfile) in
        (set_up-Runs (pointer a.handle) (pointer d.handle) usb tmp).at _
          (ap {A = Members} (λ m. record m { pcap = pointer a.handle; dumper = pointer d.handle })
            e)
          (untouched _ (untouched _ h refl) refl);
  }

  Safe-Holds :
      {A : Type 0} (r : Result A × World)
      → Safe answers held r
      → IsHeld answers held (destroy answers r.1)
  unfolding Safe
  Safe-Holds (ok a, w) h = destroy-Holds answers w held h
  Safe-Holds (threw e, w) h = destroy-Holds answers w held h
  Safe-Holds (waits, w) h = absurd h

-- Whatever the calls answer, and whichever of them fails, when an AaCommunicator has been
-- constructed and set up, or an exception has ended that, its destructor leaves exactly the
-- gadgets, mounts and descriptors that were there before: the endpoints that were opened are
-- closed, the mount is taken away and the gadget is removed, in the opposite of the order in which
-- they came. The members are unset before, and a call by which a destructor releases something
-- counts as done whatever it answers.
pub lifetime-Holds :
    (answers : Answers) (usb : UsbConstants) (dumpfile : Option String) (tmp : FilePath) (w : World)
    (held : List Resource)
    → w.members ≡ fresh
    → Holds (effect true) w.log held
    → Holds (effect true) (lifetime answers usb dumpfile tmp w).log held
unfolding lifetime owned fresh
lifetime-Holds answers usb dumpfile tmp w held e h =
    Safe-Holds answers held (construct_and_setup answers usb dumpfile tmp w)
      ((construct-Runs answers held usb dumpfile tmp).at w e h)
