-- ===== src/Client/Start/Found.antt =====
-- What AAClient has found when it has started.
use aacs.Prelude.{
  ℕ, suc, ◌≡◌, refl, ap, true, false, List, [], ◌∷◌, ◌++◌, map, take, length, Option, none, some,
  All, ◌<◌, arith, ◌∙◌, get_or,
}
use aacs.CheckError.{count}
use aacs.Client.Device.{all_transfers, size_at, switch_succeeds}
use aacs.Client.Device.Search.{UsbId, is_accessory, last_device_found}
use aacs.Client.Socket.{service_descriptor_packet}
use aacs.Client.Start.{
  ok, descriptor_failed, push_devices, get_device_list, switch_all, switch_next, all_tried, start,
  start_transfers, StartAnswers, get_service_descriptor, after_devices, transfers_to, init_library,
  and_then,
}

listed : (ds : List UsbId) → push_devices (map some ds) ≡ some ds
unfolding push_devices
listed [] = refl
listed (d ∷ ds) = rw (listed ds) refl

unlisted :
    (ds : List UsbId) (rest : List (Option UsbId))
    → push_devices (map some ds ++ none ∷ rest) ≡ none
unfolding push_devices
unlisted [] rest = refl
unlisted (d ∷ ds) rest = rw (unlisted ds rest) refl

-- `getDeviceList` gives all devices in libusb's order when each has a descriptor. When one has none,
-- it throws. In both cases it frees libusb's list exactly once.
list_freed_once :
    (ds : List UsbId) (rest : List (Option UsbId))
    → (get_device_list (some (map some ds)) ≡ (ok ds, 1))
      × (get_device_list (some (map some ds ++ none ∷ rest)) ≡ (descriptor_failed, 1))
unfolding get_device_list
list_freed_once ds rest = (ap after_devices (listed ds), ap after_devices (unlisted ds rest))

all_opened :
    (handles : ℕ → Option ℕ) (opened : ℕ → ℕ) (answers : ℕ → ℕ → Option ℕ) (ds : List UsbId)
    → ((k : ℕ) → k < length ds → handles k ≡ some (opened k))
    → (switch_all handles answers ds).0 ≡ all_tried
unfolding switch_all switch_next
all_opened handles opened answers [] open_all = refl
all_opened handles opened answers (d ∷ ds) open_all = rw (open_all 0 (omega arith)) (
    all_opened (λ k. handles (suc k)) (λ k. opened (suc k)) (λ k. answers (suc k)) ds
      (λ k h. open_all (suc k) (omega arith)))

switched_at :
    (handles : ℕ → Option ℕ) (opened : ℕ → ℕ) (answers : ℕ → ℕ → Option ℕ) (before : List UsbId)
    (d : UsbId) (behind : List UsbId)
    → ((k : ℕ) → k < length (before ++ d ∷ behind) → handles k ≡ some (opened k))
    → ((j : ℕ) → j < 8 → answers (length before) j ≡ some (size_at all_transfers j))
    → get_or (switch_all handles answers (before ++ d ∷ behind)).1 (length before) []
      ≡ all_transfers
unfolding switch_all switch_next
switched_at handles opened answers [] d behind open_all all =
    rw (open_all 0 (omega arith)) (ap (λ r. r.1) (switch_succeeds (answers 0) all))
switched_at handles opened answers (b ∷ before) d behind open_all all =
    rw (open_all 0 (omega arith)) (
      switched_at (λ k. handles (suc k)) (λ k. opened (suc k)) (λ k. answers (suc k)) before d
        behind (λ k h. open_all (suc k) (omega arith)) all)

transfers_made :
    (a : StartAnswers) (context : ℕ) (ds : List UsbId)
    → a.initialized ≡ count context
    → a.first_list ≡ some (map some ds)
    → start_transfers a ≡ (switch_all a.handles a.transfers ds).1
unfolding start_transfers
transfers_made a context ds i e =
    ap
      (λ x.
        transfers_to a.handles a.transfers
          (and_then (init_library x) (λ _. (get_device_list a.first_list).0)))
      i
    ∙ ap (λ l. transfers_to a.handles a.transfers (get_device_list l).0) e
    ∙ ap (λ r. transfers_to a.handles a.transfers r.0) (list_freed_once ds []).0

-- AAClient starts, whatever the transfers to other devices give. A device of the first list that
-- answers all eight transfers with their sizes gets all of them. The device it then speaks to is the
-- last of the second list in accessory mode, and what it takes for the service descriptor is the
-- packet that answers its request. libusb opens every device of the first list (on one that it does
-- not open the program crashes), and libusb's set-up and the calls for the two lists, the socket, the
-- request and the answer succeed.
pub start_finds :
    (a : StartAnswers) (before : List UsbId) (phone : UsbId) (behind front : List UsbId)
    (device : UsbId) (back : List UsbId) (opened : ℕ → ℕ) (context fd n k : ℕ)
    → a.initialized ≡ count context
    → a.first_list ≡ some (map some (before ++ phone ∷ behind))
    → ((i : ℕ) → i < length (before ++ phone ∷ behind) → a.handles i ≡ some (opened i))
    → ((j : ℕ) → j < 8 → a.transfers (length before) j ≡ some (size_at all_transfers j))
    → a.second_list ≡ some (map some (front ++ device ∷ back))
    → is_accessory device ≡ true
    → All (λ e. is_accessory e ≡ false) back
    → a.socket ≡ count fd
    → a.connected ≡ count n
    → a.written ≡ count 3
    → a.answer ≡ count (suc k)
    → (get_or (start_transfers a) (length before) [] ≡ all_transfers)
      × (start a ≡ ok (device, fd, take (suc k) a.buffer))
unfolding start get_device_list get_service_descriptor service_descriptor_packet
start_finds a before phone behind front device back opened context fd n k i l1 o t l2 acc others s c
      w r =
    (
      ap (λ ts. get_or ts (length before) [])
            (transfers_made a context (before ++ phone ∷ behind) i l1)
          ∙ switched_at a.handles opened a.transfers before phone behind o t,
      rw
          (
            i,
            l1,
            listed (before ++ phone ∷ behind),
            all_opened a.handles opened a.transfers (before ++ phone ∷ behind) o,
            l2,
            listed (front ++ device ∷ back),
            (last_device_found front device back acc others).0,
            s,
            c,
            w,
            r,
          )
          refl,
    )
