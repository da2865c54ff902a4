-- ===== src/Server/Usb/Mode/Released.antt =====
-- What `handleSwitchToAccessoryMode` of AAServer/src/ModeSwitcher.cpp releases.
use aacs.Prelude.{ℕ, ◌≡◌, refl, ap, Bool, true, false, List, [], ◌∷◌, ◌++◌, subst, sym}
use aacs.CheckError.{IoReturn, count}
use aacs.Server.Descriptors.{UsbConstants}
use aacs.Server.Events.{EventLayout}
use aacs.Server.Switching.{SwitchEnd, reading, left, threw as loop_threw, switch_loop}
use aacs.Server.Usb.{
  FilePath, Answers, Members, World, Result, ok, threw, waits, open_file, close_file, write_file,
  ask, pure, ◌>>=◌, ◌>>◌, carry_on, create_directory, directory_failed,
}
use aacs.Server.Usb.Gadget.{FfsFunction}
use aacs.Server.Usb.Held.{
  Holds, released, acquired, Kept, Keeps, Keeps-bind, Keeps-pure, Keeps-scope,
}
use aacs.Server.Usb.Held.Calls.{Keeps-ask, Keeps-ask_or_throw}
use aacs.Server.Usb.Effects.{
  Resource, opened, usb_gadget, opens, closes, effect, mounted_at, Constructs-gadget,
  Destroys-gadget, Keeps-set_strings, Keeps-enable, Constructs-ffs_function, Destroys-ffs_function,
  Keeps-mass_storage_function, Keeps-configuration, Keeps-add_function, Keeps-get_udc_by_id,
  Keeps-default_to,
}
use aacs.Server.Usb.Mode.{
  lun0_path, initial_mount, write_all, end_loop, with_ep0, serve_ep0, in_mount, in_gadget,
  handle_switch_to_accessory_mode,
}

-- The loop has not ended, for want of reads.
abbrev pub StillReads : EventLayout → List (IoReturn × List ℕ) → Type 0
StillReads layout reads = (switch_loop layout reads).0 ≡ reading

module _ (fixed : Members) (answers : Answers) (usb : UsbConstants) (layout : EventLayout)
    (reads : List (IoReturn × List ℕ)) where
  module _ (files : Bool) where
    Keeps-write_all :
        (fd : IoReturn) (bs : List (List ℕ))
        → Keeps (effect files) fixed (StillReads layout reads) (write_all answers usb layout fd bs)
    unfolding write_all effect
    Keeps-write_all fd [] = Keeps-pure _ _ _ tt
    Keeps-write_all fd (b ∷ bs) =
        Keeps-bind (effect files) fixed (StillReads layout reads) _ _
          (Keeps-ask (effect files) fixed (StillReads layout reads) answers (write_file fd b)
            (λ a. refl))
          (λ _. Keeps-write_all fd bs)

    Keeps-end_loop :
        (e : SwitchEnd)
        → (switch_loop layout reads).0 ≡ e
        → Keeps (effect files) fixed (StillReads layout reads) (end_loop answers usb layout e)
    unfolding end_loop Kept
    Keeps-end_loop reading p = record { at = λ w held h. p }
    Keeps-end_loop left p = record { at = λ w held h. h }
    Keeps-end_loop loop_threw p = record { at = λ w held h. h }

    Keeps-with_ep0 :
        (g : ℕ) (fd : IoReturn)
        → Keeps
            (effect files)
            fixed
            (StillReads layout reads)
            (with_ep0 answers usb layout g reads fd)
    unfolding with_ep0
    Keeps-with_ep0 g fd =
        Keeps-bind (effect files) fixed (StillReads layout reads) _ _
          (Keeps-default_to files fixed (StillReads layout reads) answers usb fd)
          (λ _.
            Keeps-bind (effect files) fixed (StillReads layout reads) _ _
              (Keeps-get_udc_by_id files fixed (StillReads layout reads) answers 0)
              (λ udc.
                Keeps-bind (effect files) fixed (StillReads layout reads) _ _
                  (Keeps-enable files fixed (StillReads layout reads) answers g udc)
                  (λ _.
                    Keeps-bind (effect files) fixed (StillReads layout reads) _ _
                      (Keeps-write_all fd (switch_loop layout reads).1)
                      (λ _. Keeps-end_loop (switch_loop layout reads).0 refl))))

  Keeps-serve_ep0 :
      (g : ℕ) (path : FilePath)
      → Keeps
          (effect false)
          fixed
          (StillReads layout reads)
          (serve_ep0 answers usb layout g path reads)
  unfolding serve_ep0 effect
  Keeps-serve_ep0 g path =
      Keeps-bind (effect false) fixed (StillReads layout reads) _ _
        (Keeps-ask (effect false) fixed (StillReads layout reads) answers (open_file _) (λ a. refl))
        (λ fd.
          Keeps-bind (effect false) fixed (StillReads layout reads) _ _
            (Keeps-with_ep0 false g fd.code)
            (λ _.
              Keeps-bind (effect false) fixed (StillReads layout reads) _ _
                (Keeps-ask (effect false) fixed (StillReads layout reads) answers
                  (close_file fd.code) (λ a. refl))
                (λ _. Keeps-pure _ _ _ tt)))

  Keeps-in_mount :
      (g ms : ℕ) (f : FfsFunction)
      → Keeps
          (effect false)
          fixed
          (StillReads layout reads)
          (in_mount answers usb layout g ms reads f)
  unfolding in_mount
  Keeps-in_mount g ms f =
      Keeps-bind (effect false) fixed (StillReads layout reads) _ _
        (Keeps-configuration false fixed (StillReads layout reads) answers g _)
        (λ c.
          Keeps-bind (effect false) fixed (StillReads layout reads) _ _
            (Keeps-add_function false fixed (StillReads layout reads) answers c ms _)
            (λ _.
              Keeps-bind (effect false) fixed (StillReads layout reads) _ _
                (Keeps-add_function false fixed (StillReads layout reads) answers c f.function _)
                (λ _. Keeps-serve_ep0 g f.mount_point)))

  Keeps-in_gadget :
      (tmp : FilePath) (g : ℕ)
      → Keeps
          (effect false)
          fixed
          (StillReads layout reads)
          (in_gadget answers usb layout tmp reads g)
  unfolding in_gadget effect
  Keeps-in_gadget tmp g =
      Keeps-bind (effect false) fixed (StillReads layout reads) _ _
        (Keeps-set_strings false fixed (StillReads layout reads) answers g _ _ _)
        (λ _.
          Keeps-bind (effect false) fixed (StillReads layout reads) _ _
            (Keeps-ask (effect false) fixed (StillReads layout reads) answers _ (λ a. refl))
            (λ _.
              Keeps-bind (effect false) fixed (StillReads layout reads) _ _
                (Keeps-mass_storage_function false fixed (StillReads layout reads) answers g
                  "massstorage_initial" (lun0_path tmp))
                (λ ms.
                  Keeps-bind (effect false) fixed (StillReads layout reads) _ _
                    (Keeps-ask_or_throw (effect false) fixed (StillReads layout reads) answers
                      (create_directory (initial_mount tmp)) directory_failed (λ a. refl))
                    (λ _.
                      Keeps-scope (effect false) fixed (StillReads layout reads) mounted_at _ _ _
                        (Constructs-ffs_function false fixed (StillReads layout reads) answers g
                          "ffs_initial" (initial_mount tmp))
                        (Destroys-ffs_function false fixed (StillReads layout reads) answers)
                        (λ f. Keeps-in_mount g ms f)))))

  Keeps-handle_switch :
      (tmp : FilePath)
      → Keeps
          (effect false)
          fixed
          (StillReads layout reads)
          (handle_switch_to_accessory_mode answers usb layout tmp reads)
  unfolding handle_switch_to_accessory_mode
  Keeps-handle_switch tmp =
      Keeps-scope (effect false) fixed (StillReads layout reads) usb_gadget _ _ _
        (Constructs-gadget false fixed (StillReads layout reads) answers _ _ _)
        (Destroys-gadget false fixed (StillReads layout reads) answers) (λ g. Keeps-in_gadget tmp g)

-- Whatever the calls answer, and whichever of them fails, when `handleSwitchToAccessoryMode` ends,
-- with or without an exception, it leaves the gadgets and mounts that were there when it began:
-- its own gadget is removed and its own mount is taken away, in the opposite of the order in which
-- they came. A call by which a destructor releases something counts as done whatever it answers. If it has not ended, the loop still reads.
pub switch-Kept :
    (answers : Answers) (usb : UsbConstants) (layout : EventLayout) (tmp : FilePath)
    (reads : List (IoReturn × List ℕ)) (w : World) (held : List Resource)
    → Holds (effect false) w.log held
    → Kept
        (effect false)
        w.members
        (StillReads layout reads)
        held
        (handle_switch_to_accessory_mode answers usb layout tmp reads w)
switch-Kept answers usb layout tmp reads w held h =
    (Keeps-handle_switch w.members answers usb layout reads tmp).at w held (h, refl)

-- By how the part from `open` to `close` ends: the descriptor is closed, or it is still open. `waiting`
-- is what is claimed of a part that has not ended.
unfoldable pub ClosedUnlessThrown : Type 0 → ℕ → List Resource → Result (Unit {0}) × World → Type 0
ClosedUnlessThrown waiting n held (ok a, w) = Holds (effect true) w.log held
ClosedUnlessThrown waiting n held (threw e, w) = Holds (effect true) w.log (opened n ∷ held)
ClosedUnlessThrown waiting n held (waits, w) = waiting

close_last :
    (waiting : Type 0) (answers : Answers) (n : ℕ) (held : List Resource) (fixed : Members)
    (r : Result (Unit {0}) × World)
    → Kept (effect true) fixed waiting (opened n ∷ held) r
    → ClosedUnlessThrown waiting n held
        (carry_on (λ _. ask answers (close_file (count n)) >> pure tt) r)
unfolding ClosedUnlessThrown Kept carry_on ask ◌>>=◌ effect closes
close_last waiting answers n held fixed (ok a, w) h = released _ (opened n) h.0 refl
close_last waiting answers n held fixed (threw e, w) h = h.0
close_last waiting answers n held fixed (waits, w) h = h

-- Endpoint 0 of the first gadget, once `open` has given a descriptor for it, is closed when the
-- loop is left, but not when an exception ends the loop or what comes before it: then the
-- descriptor stays open. Other descriptors are as they were. If the code has not ended, the loop
-- still reads.
pub serve_ep0-ClosedUnlessThrown :
    (answers : Answers) (usb : UsbConstants) (layout : EventLayout) (g n : ℕ)
    (mount_point : FilePath) (reads : List (IoReturn × List ℕ)) (w : World) (held : List Resource)
    → Holds (effect true) w.log held
    → (answers w.log (open_file (mount_point ++ "ep0" ∷ []))).code ≡ count n
    → ClosedUnlessThrown
        (StillReads layout reads)
        n
        held
        (serve_ep0 answers usb layout g mount_point reads w)
unfolding serve_ep0 ◌>>=◌ ask carry_on effect opens
serve_ep0-ClosedUnlessThrown answers usb layout g n mount_point reads w held h e =
    let c = open_file (mount_point ++ "ep0" ∷ []) in
    let a = answers w.log c in
    let w' : World = record w { log = (c, a) ∷ w.log } in
    subst
      (λ fd.
        ClosedUnlessThrown (StillReads layout reads) n held
          ((with_ep0 answers usb layout g reads fd >> (ask answers (close_file fd) >> pure tt)) w'))
      (sym e)
      (close_last (StillReads layout reads) answers n held w.members
        (with_ep0 answers usb layout g reads (count n) w')
        ((Keeps-with_ep0 w.members answers usb layout reads true g (count n)).at w'
          (opened n ∷ held) (acquired (c, a) (opened n) h (ap opens e), refl)))
