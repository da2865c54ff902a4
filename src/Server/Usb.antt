-- ===== src/Server/Usb.antt =====
-- The calls that AAServer makes to libusbg and to the system while it sets its gadgets up and takes
-- them down, as actions: the calls and their answers so far, exceptions, and scopes with destructors.
-- ServerUtils.cpp of AAServer/src is here.
pub mod Gadget
pub mod Held
pub mod Effects
pub mod Communicator
pub mod Mode
use Prim.Native.String.{String}
use aacs.Prelude.{ℕ, zero, suc, Bool, true, false, List, [], ◌∷◌, Option, if◌then◌else◌}
use aacs.CheckError.{
  IoReturn, count, failed, Checked, exception, moved, minus_one, nothing, check_error,
}

-- A path, by its components.
abbrev pub FilePath : Type 0
FilePath = List String

-- `usbg_f_ms_lun_attrs` of the one LUN, and `stall` and `nluns` of `usbg_f_ms_attrs`. The id -1 is
-- `none`.
pub record MassStorageAttrs : Type 0 where
  pub id : Option ℕ
  pub cdrom : ℕ
  pub read_only : ℕ
  pub nofua : ℕ
  pub removable : ℕ
  pub file : FilePath
  pub stall : ℕ
  pub luns : ℕ

pub data FunctionType : Type 0 where
  functionfs : FunctionType
  mass_storage : MassStorageAttrs → FunctionType

pub data GadgetString : Type 0 where
  manufacturer product serial_number : GadgetString

-- The calls. A gadget, a function, a configuration, a controller and a thread are named by the
-- handle that came with the answer to the call that made it; a descriptor by what `open` returned.
pub data Call : Type 0 where
  init_usbg : String → Call
  cleanup_usbg : ℕ → Call
  create_gadget : ℕ → ℕ → String → Call
  set_gadget_string : ℕ → GadgetString → ℕ → String → Call
  remove_gadget : ℕ → Call
  create_function : ℕ → FunctionType → String → Call
  create_config : ℕ → ℕ → String → ℕ → ℕ → Call
  add_config_function : ℕ → String → ℕ → Call
  first_udc : Call
  enable_gadget : ℕ → ℕ → Call
  mount_at : String → FilePath → Call
  unmount : FilePath → Call
  create_directory : FilePath → Call
  fill_file : FilePath → ℕ → Call
  open_file : FilePath → Call
  write_file : IoReturn → List ℕ → Call
  close_file : IoReturn → Call
  start_thread : IoReturn → Call
  signal_thread : ℕ → Call
  join_thread : ℕ → Call
  pcap_open : Call
  pcap_dump_open : ℕ → String → Call
  pcap_dump_close : ℕ → Call
  pcap_close : ℕ → Call

-- What a call returns, and the handle it leaves behind its pointer argument.
pub record Answer : Type 0 where
  pub code : IoReturn
  pub handle : ℕ

-- The calls so far, the last one first.
abbrev pub Log : Type 0
Log = List (Call × Answer)

-- The members of `AaCommunicator` that own something: the gadget, the mount point of its function,
-- the descriptors, -1 by `failed`, the threads, and the two pointers of pcap.
pub record Members : Type 0 where
  pub main_gadget : Option ℕ
  pub ffs_function : Option FilePath
  pub ep0_fd : IoReturn
  pub ep1_fd : IoReturn
  pub ep2_fd : IoReturn
  pub threads : List ℕ
  pub pcap : Option ℕ
  pub dumper : Option ℕ

pub record World : Type 0 where
  pub log : Log
  pub members : Members

-- The exceptions: of `checkUsbgError`, of `checkError`, of the constructors, of `getUdcById`, and of
-- the calls that throw by themselves.
pub data Error : Type 0 where
  usbg_error : IoReturn → Error
  check_failed mounting_failed wrong_udc directory_failed thread_failed : Error

-- `waits`: the code has not ended, for want of something to read.
pub data Result (A : Type 0) : Type 0 where
  ok : A → Result A
  threw : Error → Result A
  waits : Result A

abbrev pub Action : Type 0 → Type 0
Action A = World → Result A × World

module _ {A : Type 0} where
  abbrev pub pure : A → Action A
  pure a w = (ok a, w)

  abbrev pub raise : Error → Action A
  raise e w = (threw e, w)

  abbrev pub gets : (Members → A) → Action A
  gets f w = (ok (f w.members), w)

abbrev pub modify : (Members → Members) → Action (Unit {0})
modify f w = (ok tt, record w { members = f w.members })

pub carry_on : {A B : Type 0} → (A → Action B) → Result A × World → Result B × World
carry_on f (ok a, w) = f a w
carry_on f (threw e, w) = (threw e, w)
carry_on f (waits, w) = (waits, w)

infixl 5 ◌>>=◌ ◌>>◌
pub ◌>>=◌ : {A B : Type 0} → Action A → (A → Action B) → Action B
unfolding carry_on
◌>>=◌ m f w = carry_on f (m w)

abbrev pub ◌>>◌ : {A B : Type 0} → Action A → Action B → Action B
m >> k = m >>= λ _. k

-- A local object: its destructor runs when its scope is left, with a result or with an exception
-- that is caught further out. No destructor here throws.
pub leave : {B : Type 0} → (World → World) → Result B × World → Result B × World
leave destroy (ok b, w) = (ok b, destroy w)
leave destroy (threw e, w) = (threw e, destroy w)
leave destroy (waits, w) = (waits, w)

pub scope : {A B : Type 0} → Action A → (A → World → World) → (A → Action B) → Action B
unfolding leave ◌>>=◌
scope construct destroy body = construct >>= λ a w. leave (destroy a) (body a w)

-- What the world answers to a call, after the calls before it.
abbrev pub Answers : Type 0
Answers = Log → Call → Answer

unfoldable pub is_success : IoReturn → Bool
is_success (count zero) = true
is_success (count (suc n)) = false
is_success (failed errno) = false

-- `checkUsbgError`: USBG_SUCCESS is 0.
pub check_usbg_error : Answer → Action ℕ
unfolding is_success
check_usbg_error a = if is_success a.code then pure a.handle else raise (usbg_error a.code)

-- `checkError` with no errno ignored, and its result not looked at.
pub check_write : Checked → Action (Unit {0})
check_write exception = raise check_failed
check_write (moved n) = pure tt
check_write minus_one = pure tt
check_write nothing = pure tt

module _ (answers : Answers) where
  pub ask : Call → Action Answer
  ask c w = let a = answers w.log c in (ok a, record w { log = (c, a) ∷ w.log })

  -- A call in the argument of `checkUsbgError`.
  pub usbg : Call → Action ℕ
  unfolding ask check_usbg_error ◌>>=◌
  usbg c = ask c >>= check_usbg_error

  -- A call that throws this exception unless it returns 0.
  pub or_throw : Error → Answer → Action ℕ
  unfolding is_success
  or_throw e a = if is_success a.code then pure a.handle else raise e

  pub ask_or_throw : Call → Error → Action ℕ
  unfolding ask or_throw ◌>>=◌
  ask_or_throw c e = ask c >>= or_throw e

  -- `checkError(write(fd, ...), {})`.
  pub checked_write : IoReturn → List ℕ → Action (Unit {0})
  unfolding ask check_write ◌>>=◌
  checked_write fd bytes = ask (write_file fd bytes) >>= λ a. check_write (check_error a.code [])

  -- A destructor's call, whose answer is at most printed.
  pub do_call : Call → World → World
  unfolding ask
  do_call c w = (ask c w).1
