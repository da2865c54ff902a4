-- ===== src/Server/Event.antt =====
-- AAServer/src/ManualResetEvent.cpp, for which `main` waits before it ends. What the mutex guards is
-- one step; `notify_all` comes behind it, and other threads may act in between.
use aacs.Prelude.{
  ℕ, suc, ◌==◌, ◌+◌, ◌≡◌, refl, ap, ◌∙◌, Bool, true, false, List, [], ◌∷◌, ◌++◌, length,
  length-append, if◌then◌else◌, arith, Bool-cases, inl, inr, subst, sym,
}
use aacs.Server.Threads.{is_running}

-- The flag, the threads that sleep in `cv.wait`, and those whose `wait` has returned.
pub record ManualResetEvent : Type 0 where
  pub signaled : Bool
  pub waiting : List ℕ
  pub returned : List ℕ

unfoldable pub unset : ManualResetEvent
unset = record { signaled = false; waiting = []; returned = [] }

-- The steps: the two of `set`, a thread that enters `wait`, and one that the system wakes.
pub data Act : Type 0 where
  raise_flag notify_all : Act
  enter spurious : ℕ → Act

-- `cv.wait(lk, ...)`, once the thread has the lock.
unfoldable pub test_flag : ℕ → Bool → List ℕ → List ℕ → ManualResetEvent
test_flag t true waiting returned = record {
  signaled = true;
  waiting = waiting;
  returned = t ∷ returned;
}
test_flag t false waiting returned = record {
  signaled = false;
  waiting = t ∷ waiting;
  returned = returned;
}

-- The threads that are woken test the flag one after the other.
unfoldable pub wake_all : Bool → List ℕ → List ℕ → ManualResetEvent
wake_all true waiting returned = record {
  signaled = true;
  waiting = [];
  returned = waiting ++ returned;
}
wake_all false waiting returned = record {
  signaled = false;
  waiting = waiting;
  returned = returned;
}

unfoldable pub remove_one : ℕ → List ℕ → List ℕ
remove_one t [] = []
remove_one t (k ∷ ks) = let rest = remove_one t ks in if t == k then ks else k ∷ rest

unfoldable pub act : Act → ManualResetEvent → ManualResetEvent
unfolding test_flag wake_all remove_one is_running
act raise_flag e = record e { signaled = true }
act notify_all e = wake_all e.signaled e.waiting e.returned
act (enter t) e = test_flag t e.signaled e.waiting e.returned
act (spurious t) e =
    if is_running t e.waiting then test_flag t e.signaled (remove_one t e.waiting) e.returned else e

unfoldable pub acts : List Act → ManualResetEvent → ManualResetEvent
unfolding act
acts [] e = e
acts (a ∷ rest) e = acts rest (act a e)

-- The calls of `wait`.
unfoldable pub calls : List Act → ℕ
calls [] = 0
calls (enter t ∷ rest) = suc (calls rest)
calls (raise_flag ∷ rest) = calls rest
calls (notify_all ∷ rest) = calls rest
calls (spurious t ∷ rest) = calls rest

acts-append :
    (rest bs : List Act) (e : ManualResetEvent) → acts (rest ++ bs) e ≡ acts bs (acts rest e)
unfolding acts
acts-append [] bs e = refl
acts-append (a ∷ rest) bs e = acts-append rest bs (act a e)

remove_one-length :
    (t : ℕ) (ks : List ℕ) → is_running t ks ≡ true → suc (length (remove_one t ks)) ≡ length ks
unfolding remove_one is_running
remove_one-length t [] e = ground (arith, e)
remove_one-length t (k ∷ ks) e = elim (Bool-cases (t == k)) [
  | inl same ↦ rw same refl
  | inr other ↦ rw other (
      omega (
        arith,
        remove_one-length t ks (subst (λ b. (if b then true else is_running t ks) ≡ true) other e),
      ))
]

-- Every call of `wait` sleeps or has returned.
abbrev total : ManualResetEvent → ℕ
total e = length e.waiting + length e.returned

tested :
    (t : ℕ) (b : Bool) (ws rs : List ℕ) → total (test_flag t b ws rs) ≡ suc (length ws + length rs)
unfolding test_flag
tested t true ws rs = omega arith
tested t false ws rs = omega arith

woken : (b : Bool) (ws rs : List ℕ) → total (wake_all b ws rs) ≡ length ws + length rs
unfolding wake_all
woken true ws rs = omega (arith, length-append ws rs)
woken false ws rs = refl

woken_one :
    (t : ℕ) (e : ManualResetEvent)
    → total (
        if is_running t e.waiting
        then test_flag t e.signaled (remove_one t e.waiting) e.returned
        else e)
      ≡ total e
woken_one t e = elim (Bool-cases (is_running t e.waiting)) [
  | inl r ↦ rw r (
      tested t e.signaled (remove_one t e.waiting) e.returned
      ∙ omega (arith, remove_one-length t e.waiting r))
  | inr r ↦ rw r refl
]

acts_total : (rest : List Act) (e : ManualResetEvent) → total (acts rest e) ≡ total e + calls rest
unfolding acts act calls
acts_total [] e = omega arith
acts_total (raise_flag ∷ rest) e = acts_total rest (record e { signaled = true })
acts_total (notify_all ∷ rest) e =
    acts_total rest (wake_all e.signaled e.waiting e.returned)
    ∙ omega (arith, woken e.signaled e.waiting e.returned)
acts_total (enter t ∷ rest) e =
    acts_total rest (test_flag t e.signaled e.waiting e.returned)
    ∙ omega (arith, tested t e.signaled e.waiting e.returned)
acts_total (spurious t ∷ rest) e =
    acts_total rest (act (spurious t) e) ∙ omega (arith, woken_one t e)

stays_signaled :
    (rest : List Act) (e : ManualResetEvent) → e.signaled ≡ true → (acts rest e).signaled ≡ true
unfolding acts act test_flag wake_all
stays_signaled [] e h = h
stays_signaled (raise_flag ∷ rest) e h = stays_signaled rest _ refl
stays_signaled (notify_all ∷ rest) e h = stays_signaled rest _ (rw h refl)
stays_signaled (enter t ∷ rest) e h = stays_signaled rest _ (rw h refl)
stays_signaled (spurious t ∷ rest) e h = stays_signaled rest _ (ground (arith, h))

-- None sleeps any more.
abbrev IsOpen : ManualResetEvent → Type 0
IsOpen e = (e.signaled ≡ true) × (e.waiting ≡ [])

opened : (e : ManualResetEvent) → e.signaled ≡ true → IsOpen (act notify_all e)
unfolding act wake_all
opened e s = rw s (refl, refl)

stays-IsOpen : (rest : List Act) (e : ManualResetEvent) → IsOpen e → IsOpen (acts rest e)
unfolding acts act test_flag is_running
stays-IsOpen [] e h = h
stays-IsOpen (raise_flag ∷ rest) e (s, w) = stays-IsOpen rest _ (refl, w)
stays-IsOpen (notify_all ∷ rest) e (s, w) = stays-IsOpen rest _ (opened e s)
stays-IsOpen (enter t ∷ rest) e (s, w) = stays-IsOpen rest _ (rw (s, w) (refl, refl))
stays-IsOpen (spurious t ∷ rest) e (s, w) = stays-IsOpen rest _ (
    subst
      (λ b. IsOpen (if b then test_flag t e.signaled (remove_one t e.waiting) e.returned else e))
      (sym (ap (is_running t) w)) (s, w))

all_returned :
    (e : ManualResetEvent) (done : List Act)
    → e.waiting ≡ []
    → total e ≡ total unset + calls done
    → length e.returned ≡ calls done
unfolding unset
all_returned e done w t = let none_waiting : length e.waiting ≡ 0 = ap length w in omega arith

-- No call of `wait` is lost. Once one call of `set` has run both its steps, with any steps of other
-- threads before, between and behind them, no thread sleeps, and each call of `wait` so far has
-- returned.
pub no_wait_lost :
    (before between behind : List Act)
    → let e = acts (before ++ raise_flag ∷ (between ++ notify_all ∷ behind)) unset in
      (e.waiting ≡ [])
      × (length e.returned ≡ calls (before ++ raise_flag ∷ (between ++ notify_all ∷ behind)))
unfolding acts
no_wait_lost before between behind =
    let e1 = act raise_flag (acts before unset) in
    let split : acts (before ++ raise_flag ∷ (between ++ notify_all ∷ behind)) unset
        ≡ acts behind (act notify_all (acts between e1)) =
      acts-append before (raise_flag ∷ (between ++ (notify_all ∷ behind))) unset
      ∙ acts-append between (notify_all ∷ behind) e1 in
    let is_open : IsOpen (acts (before ++ raise_flag ∷ (between ++ notify_all ∷ behind)) unset) =
      subst IsOpen (sym split)
        (stays-IsOpen behind _ (opened (acts between e1) (stays_signaled between e1 refl))) in
    (
      is_open.1,
      all_returned (acts (before ++ raise_flag ∷ (between ++ notify_all ∷ behind)) unset)
          (before ++ raise_flag ∷ (between ++ notify_all ∷ behind)) is_open.1
          (acts_total (before ++ raise_flag ∷ (between ++ notify_all ∷ behind)) unset),
    )
