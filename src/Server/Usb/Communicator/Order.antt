-- ===== src/Server/Usb/Communicator/Order.antt =====
-- The order of the destructor's calls in AAServer/src/AaCommunicator.cpp.
use aacs.Prelude.{
  ℕ, ◌≡◌, refl, ap, sym, ◌∙◌, List, [], ◌∷◌, ◌++◌, map, append_assoc, append-nil, Option, none,
  some,
}
use aacs.CheckError.{IoReturn, count, failed}
use aacs.Server.Usb.{
  FilePath, Answers, Call, Log, Members, World, signal_thread, join_thread, close_file,
  pcap_dump_close, pcap_close, unmount, remove_gadget, do_call, ask,
}
use aacs.Server.Usb.Gadget.{drop_gadget}
use aacs.Server.Usb.Communicator.{
  signal_all, join_all, close_if, close_dump, drop_function, drop_main_gadget, destroy,
}

-- The calls of a log, the first one first.
unfoldable pub calls_before : Log → List Call → List Call
calls_before [] later = later
calls_before ((c, a) ∷ log) later = calls_before log (c ∷ later)

abbrev pub in_order : Log → List Call
in_order log = calls_before log []

abbrev pub each : {A : Type 0} → (A → Call) → Option A → List Call
each c none = []
each c (some x) = c x ∷ []

abbrev pub close_of : IoReturn → List Call
close_of (count n) = close_file (count n) ∷ []
close_of (failed errno) = []

-- The calls in the order of the source: all threads are woken, then all are joined, then the endpoints
-- are closed, from the last to the first, and the dump file; then the members are destroyed.
abbrev pub destructor_calls : Members → List Call
destructor_calls m =
    map signal_thread m.threads
    ++ (map join_thread m.threads
        ++ (close_of m.ep2_fd
            ++ (close_of m.ep1_fd
                ++ (close_of m.ep0_fd
                    ++ ((each pcap_dump_close m.dumper ++ each pcap_close m.pcap)
                        ++ (each unmount m.ffs_function ++ each remove_gadget m.main_gadget))))))

module _ (answers : Answers) where
  -- The log of the first world has, behind these calls, that of the second.
  Adds : List Call → World → World → Type 0
  Adds cs w w' = (later : List Call) → calls_before w'.log later ≡ calls_before w.log (cs ++ later)

  signal-Adds : (ts : List ℕ) (w : World) → Adds (map signal_thread ts) w (signal_all answers ts w)
  unfolding Adds signal_all do_call ask calls_before
  signal-Adds [] w later = refl
  signal-Adds (t ∷ ts) w later = signal-Adds ts _ later

  join-Adds : (ts : List ℕ) (w : World) → Adds (map join_thread ts) w (join_all answers ts w)
  unfolding Adds join_all do_call ask calls_before
  join-Adds [] w later = refl
  join-Adds (t ∷ ts) w later = join-Adds ts _ later

  close-Adds : (fd : IoReturn) (w : World) → Adds (close_of fd) w (close_if answers fd w)
  unfolding Adds close_if do_call ask calls_before
  close-Adds (count n) w later = refl
  close-Adds (failed errno) w later = refl

  dump-Adds :
      (d p : Option ℕ) (w : World)
      → Adds (each pcap_dump_close d ++ each pcap_close p) w (close_dump answers d p w)
  unfolding Adds close_dump do_call ask calls_before
  dump-Adds none none w later = refl
  dump-Adds none (some p) w later = refl
  dump-Adds (some d) none w later = refl
  dump-Adds (some d) (some p) w later = refl

  function-Adds :
      (f : Option FilePath) (w : World) → Adds (each unmount f) w (drop_function answers f w)
  unfolding Adds drop_function do_call ask calls_before
  function-Adds none w later = refl
  function-Adds (some path) w later = refl

  gadget-Adds :
      (g : Option ℕ) (w : World) → Adds (each remove_gadget g) w (drop_main_gadget answers g w)
  unfolding Adds drop_main_gadget drop_gadget do_call ask calls_before
  gadget-Adds none w later = refl
  gadget-Adds (some g) w later = refl

  both :
      (cs ds : List Call) (w w' w'' : World) → Adds cs w w' → Adds ds w' w'' → Adds (cs ++ ds) w w''
  unfolding Adds
  both cs ds w w' w'' first second later =
      second later ∙ first (ds ++ later) ∙ ap (calls_before w.log) (sym (append_assoc cs ds later))

  -- `~AaCommunicator` makes just its calls, in the one order, whatever they answer: it wakes all
  -- threads, joins them, closes the endpoints that are open, from the last to the first, and the
  -- dump file, unmounts the function and removes the gadget. So no endpoint is closed before all
  -- threads have been joined.
  pub destroy_order :
      (w : World)
      → in_order (destroy answers w).log ≡ calls_before w.log (destructor_calls w.members)
  unfolding destroy Adds
  destroy_order w =
      let m = w.members in
      let w1 = signal_all answers m.threads w in
      let w2 = join_all answers m.threads w1 in
      let w3 = close_if answers m.ep2_fd w2 in
      let w4 = close_if answers m.ep1_fd w3 in
      let w5 = close_if answers m.ep0_fd w4 in
      let w6 = close_dump answers m.dumper m.pcap w5 in
      let w7 = drop_function answers m.ffs_function w6 in
      let w8 = drop_main_gadget answers m.main_gadget w7 in
      let added : Adds (destructor_calls m) w (destroy answers w) =
        both _ _ w w1 w8 (signal-Adds m.threads w) (
          both _ _ w1 w2 w8 (join-Adds m.threads w1) (
            both _ _ w2 w3 w8 (close-Adds m.ep2_fd w2) (
              both _ _ w3 w4 w8 (close-Adds m.ep1_fd w3) (
                both _ _ w4 w5 w8 (close-Adds m.ep0_fd w4) (
                  both _ _ w5 w6 w8 (dump-Adds m.dumper m.pcap w5) (
                    both _ _ w6 w7 w8 (function-Adds m.ffs_function w6)
                      (gadget-Adds m.main_gadget w7))))))) in
      added [] ∙ ap (calls_before w.log) (append-nil (destructor_calls m))
