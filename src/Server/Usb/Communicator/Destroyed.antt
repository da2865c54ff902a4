-- ===== src/Server/Usb/Communicator/Destroyed.antt =====
-- What the members of an `AaCommunicator` of AAServer/src/AaCommunicator.cpp own, and the destructor.
use aacs.Prelude.{ℕ, refl, true, List, [], ◌∷◌, Option, none, some}
use aacs.CheckError.{IoReturn, count, failed}
use aacs.Server.Usb.{FilePath, Answers, Members, World, ask, do_call}
use aacs.Server.Usb.Held.{Holds, released, untouched}
use aacs.Server.Usb.Gadget.{drop_gadget}
use aacs.Server.Usb.Effects.{Resource, opened, usb_gadget, mounted, closes, effect}
use aacs.Server.Usb.Communicator.{
  signal_all, join_all, close_if, close_dump, drop_function, drop_main_gadget, destroy,
}

-- The resources of a member, on top of others.
unfoldable pub with_fd : IoReturn → List Resource → List Resource
with_fd (count n) held = opened n ∷ held
with_fd (failed errno) held = held

unfoldable pub with_mount : Option FilePath → List Resource → List Resource
with_mount none held = held
with_mount (some path) held = mounted path ∷ held

unfoldable pub with_gadget : Option ℕ → List Resource → List Resource
with_gadget none held = held
with_gadget (some g) held = usb_gadget g ∷ held

-- What the members own.
unfoldable pub owned : Members → List Resource → List Resource
unfolding with_fd with_mount with_gadget
owned m held = with_fd m.ep2_fd (
    with_fd m.ep1_fd
      (with_fd m.ep0_fd (with_mount m.ffs_function (with_gadget m.main_gadget held))))

module _ (answers : Answers) where
  abbrev pub IsHeld : List Resource → World → Type 0
  IsHeld held w = Holds (effect true) w.log held

  signal_all-Holds :
      (ts : List ℕ) (w : World) (held : List Resource)
      → IsHeld held w
      → IsHeld held (signal_all answers ts w)
  unfolding signal_all do_call ask effect
  signal_all-Holds [] w held h = h
  signal_all-Holds (t ∷ ts) w held h = signal_all-Holds ts _ held (untouched _ h refl)

  join_all-Holds :
      (ts : List ℕ) (w : World) (held : List Resource)
      → IsHeld held w
      → IsHeld held (join_all answers ts w)
  unfolding join_all do_call ask effect
  join_all-Holds [] w held h = h
  join_all-Holds (t ∷ ts) w held h = join_all-Holds ts _ held (untouched _ h refl)

  close_if-Holds :
      (fd : IoReturn) (w : World) (held : List Resource)
      → IsHeld (with_fd fd held) w
      → IsHeld held (close_if answers fd w)
  unfolding close_if with_fd do_call ask effect closes
  close_if-Holds (count n) w held h = released _ (opened n) h refl
  close_if-Holds (failed errno) w held h = h

  close_dump-Holds :
      (d p : Option ℕ) (w : World) (held : List Resource)
      → IsHeld held w
      → IsHeld held (close_dump answers d p w)
  unfolding close_dump do_call ask effect
  close_dump-Holds none none w held h = h
  close_dump-Holds none (some p) w held h = untouched _ h refl
  close_dump-Holds (some d) none w held h = untouched _ h refl
  close_dump-Holds (some d) (some p) w held h = untouched _ (untouched _ h refl) refl

  drop_function-Holds :
      (f : Option FilePath) (w : World) (held : List Resource)
      → IsHeld (with_mount f held) w
      → IsHeld held (drop_function answers f w)
  unfolding drop_function with_mount do_call ask effect
  drop_function-Holds none w held h = h
  drop_function-Holds (some path) w held h = released _ (mounted path) h refl

  drop_main_gadget-Holds :
      (g : Option ℕ) (w : World) (held : List Resource)
      → IsHeld (with_gadget g held) w
      → IsHeld held (drop_main_gadget answers g w)
  unfolding drop_main_gadget drop_gadget with_gadget do_call ask effect
  drop_main_gadget-Holds none w held h = h
  drop_main_gadget-Holds (some g) w held h = released _ (usb_gadget g) h refl

  -- The destructor lets go of what the members own, and of nothing else.
  pub destroy-Holds :
      (w : World) (held : List Resource)
      → IsHeld (owned w.members held) w
      → IsHeld held (destroy answers w)
  unfolding destroy owned
  destroy-Holds w held h =
      let m = w.members in
      drop_main_gadget-Holds m.main_gadget _ held (
        drop_function-Holds m.ffs_function _ _ (
          close_dump-Holds m.dumper m.pcap _ _ (
            close_if-Holds m.ep0_fd _ _ (
              close_if-Holds m.ep1_fd _ _ (
                close_if-Holds m.ep2_fd _ _
                  (join_all-Holds m.threads _ _ (signal_all-Holds m.threads w _ h)))))))
