-- ===== src/Client/Start.antt =====
-- How AAClient starts: `Library::getDeviceList` of AAClient/src/Library.cpp with the constructor of
-- AAClient/src/Device.cpp, and AAClient/main.cpp up to the communicator.
pub mod Found
use aacs.Prelude.{
  ℕ, zero, suc, List, [], ◌∷◌, take, length, Option, none, some, ◌==◌, if◌then◌else◌,
}
use aacs.CheckError.{IoReturn, count, failed}
use aacs.Client.Device.{ControlTransfer, switch_to_aoa}
use aacs.Client.Device.Search.{UsbId, find_device}
use aacs.Client.Socket.{service_descriptor_packet}

-- A call that gives a value or throws.
pub data Start (A : Type 0) : Type 0 where
  ok : A → Start A
  init_failed list_failed descriptor_failed no_device socket_failed connect_failed write_failed
        read_failed crashed :
      Start A

-- The loop of `getDeviceList`: `none` is a device whose descriptor libusb does not give, for which the
-- constructor of Device throws.
unfoldable pub push_devices : List (Option UsbId) → Option (List UsbId)
push_devices [] = some []
push_devices (none ∷ devs) = none
push_devices (some d ∷ devs) = elim (push_devices devs) [ none ↦ none | some ds ↦ some (d ∷ ds) ]

-- With how often `libusb_free_device_list` is called.
pub after_devices : Option (List UsbId) → Start (List UsbId) × ℕ
after_devices none = (descriptor_failed, 1)
after_devices (some ds) = (ok ds, 1)

-- `none`: `libusb_get_device_list` fails.
unfoldable pub get_device_list : Option (List (Option UsbId)) → Start (List UsbId) × ℕ
unfolding push_devices after_devices
get_device_list none = (list_failed, 0)
get_device_list (some devs) = after_devices (push_devices devs)

-- How the first loop of main ends. `null_handle`: libusb could not open a device, and the calls on
-- its null handle crash the program, which no `catch` prevents.
pub data Tried : Type 0 where
  all_tried null_handle : Tried

unfoldable pub switch_next :
    Option ℕ
    → List ControlTransfer
    → Tried × List (List ControlTransfer)
    → Tried × List (List ControlTransfer)
switch_next none transfers rest = (null_handle, [])
switch_next (some handle) transfers rest = (rest.0, transfers ∷ rest.1)

-- The first loop of main, whose `catch (...)` goes on with the next device. The k-th device has the
-- handle `handles k`, `none` for a null pointer, and answers its transfers by `answers k`.
unfoldable pub switch_all :
    (ℕ → Option ℕ) → (ℕ → ℕ → Option ℕ) → List UsbId → Tried × List (List ControlTransfer)
unfolding switch_next
switch_all handles answers [] = (all_tried, [])
switch_all handles answers (d ∷ ds) =
    switch_next (handles 0) (switch_to_aoa (answers 0)).1
      (switch_all (λ k. handles (suc k)) (λ k. answers (suc k)) ds)

-- `getSocketFd`, by what `socket` and `connect` return. A result of `connect` other than -1 is success.
unfoldable pub get_socket_fd : IoReturn → IoReturn → Start ℕ
get_socket_fd (failed errno) connected = socket_failed
get_socket_fd (count fd) (failed errno) = connect_failed
get_socket_fd (count fd) (count n) = ok fd

-- `getServiceDescriptor`, by what `write` and `read` return; `buffer` is what was read, 10240 bytes at
-- most.
unfoldable pub read_descriptor : IoReturn → List ℕ → Start (List ℕ)
read_descriptor (failed errno) buffer = read_failed
read_descriptor (count zero) buffer = read_failed
read_descriptor (count (suc n)) buffer = ok (take (suc n) buffer)

unfoldable pub get_service_descriptor : IoReturn → IoReturn → List ℕ → Start (List ℕ)
unfolding read_descriptor
get_service_descriptor (failed errno) answer buffer = write_failed
get_service_descriptor (count n) answer buffer =
    if n == length service_descriptor_packet then read_descriptor answer buffer else write_failed

pub and_then : {A B : Type 0} → Start A → (A → Start B) → Start B
and_then (ok a) f = f a
and_then init_failed f = init_failed
and_then list_failed f = list_failed
and_then descriptor_failed f = descriptor_failed
and_then no_device f = no_device
and_then socket_failed f = socket_failed
and_then connect_failed f = connect_failed
and_then write_failed f = write_failed
and_then read_failed f = read_failed
and_then crashed f = crashed

-- What the first loop leaves main to do.
pub went_on : Tried → Start (Unit {0})
went_on all_tried = ok tt
went_on null_handle = crashed

unfoldable pub or_no_device : Option UsbId → Start UsbId
or_no_device none = no_device
or_no_device (some d) = ok d

-- What the calls return: of libusb, before and after the second of sleep, and of the socket.
pub record StartAnswers : Type 0 where
  pub initialized : IoReturn
  pub first_list : Option (List (Option UsbId))
  pub handles : ℕ → Option ℕ
  pub transfers : ℕ → ℕ → Option ℕ
  pub second_list : Option (List (Option UsbId))
  pub socket : IoReturn
  pub connected : IoReturn
  pub written : IoReturn
  pub answer : IoReturn
  pub buffer : List ℕ

-- The constructor of Library, by what `libusb_init` returns.
unfoldable pub init_library : IoReturn → Start ℕ
init_library (failed error) = init_failed
init_library (count n) = ok n

-- main up to the communicator: the device, the socket and the service descriptor that it gets.
unfoldable pub start : StartAnswers → Start (UsbId × ℕ × List ℕ)
unfolding and_then init_library get_device_list or_no_device get_socket_fd get_service_descriptor
    switch_all went_on
start a = and_then (init_library a.initialized) (λ context.
    and_then (get_device_list a.first_list).0 (λ first.
      and_then (went_on (switch_all a.handles a.transfers first).0) (λ tried.
        and_then (get_device_list a.second_list).0 (λ devices.
          and_then (or_no_device (find_device devices)) (λ device.
            and_then (get_socket_fd a.socket a.connected) (λ fd.
              and_then (get_service_descriptor a.written a.answer a.buffer)
                (λ sd. ok (device, fd, sd))))))))

unfoldable pub transfers_to :
    (ℕ → Option ℕ) → (ℕ → ℕ → Option ℕ) → Start (List UsbId) → List (List ControlTransfer)
unfolding switch_all
transfers_to handles answers listed = elim listed [
  | ok devices ↦ (switch_all handles answers devices).1
  | other ↦ []
]

-- The transfers that are made before.
unfoldable pub start_transfers : StartAnswers → List (List ControlTransfer)
unfolding transfers_to and_then init_library get_device_list
start_transfers a =
    transfers_to a.handles a.transfers
      (and_then (init_library a.initialized) (λ context. (get_device_list a.first_list).0))
