-- ===== src/Server/Usb/Communicator/Runs.antt =====
-- Actions that set an AaCommunicator of AAServer/src/AaCommunicator.cpp up, by what the members own
-- before and behind them: a rule for each way to build one.
use aacs.Prelude.{ℕ, ◌≡◌, refl, ap, sym, subst, true, List, [], ◌∷◌, ◌++◌}
use aacs.CheckError.{IoReturn, count, failed}
use aacs.Server.Usb.{
  FilePath, Answers, Answer, Action, Members, World, Result, ok, threw, waits, open_file,
  start_thread, ask, ask_or_throw, modify, ◌>>=◌, ◌>>◌, carry_on, thread_failed,
}
use aacs.Server.Usb.Held.{Holds, acquired, untouched, Kept, Got, Keeps, Constructs}
use aacs.Server.Usb.Held.Calls.{Keeps-ask_or_throw}
use aacs.Server.Usb.Effects.{Resource, opened, opens, effect}
use aacs.Server.Usb.Communicator.{start_pump}
use aacs.Server.Usb.Communicator.Destroyed.{owned, with_fd, IsHeld}

module _ (answers : Answers) (held : List Resource) where
  -- However the action ends, it leaves behind what the members own; and it does end.
  unfoldable pub Safe : {A : Type 0} → Result A × World → Type 0
  Safe (ok a, w) = IsHeld answers (owned w.members held) w
  Safe (threw e, w) = IsHeld answers (owned w.members held) w
  Safe (waits, w) = ⊥

  pub record Runs {A : Type 0} (before : Members) (m : Action A) : Type 0 where
    pub at : (w : World) → w.members ≡ before → IsHeld answers (owned before held) w → Safe (m w)

  module _ {A B : Type 0} (before : Members) where
    carry_on-Safe :
        (f : A → Action B)
        → ((a : A) → Runs before (f a))
        → (r : Result A × World) → Kept (effect true) before ⊥ (owned before held) r
        → Safe (carry_on f r)
    unfolding Kept Safe carry_on
    carry_on-Safe f k (ok a, w) h = (k a).at w h.1 h.0
    carry_on-Safe f k (threw e, w) h = subst (λ m. IsHeld answers (owned m held) w) (sym h.1) h.0
    carry_on-Safe f k (waits, w) h = h

    -- An action that keeps the resources and the members comes first.
    pub Runs-Keeps :
        (m : Action A) (f : A → Action B)
        → Keeps (effect true) before ⊥ m
        → ((a : A) → Runs before (f a))
        → Runs before (m >>= f)
    unfolding ◌>>=◌
    Runs-Keeps m f k kf = record {
      at = λ w e h. carry_on-Safe f kf (m w) (k.at w (owned before held) (h, e));
    }

    construct-Safe :
        (resource : A → Resource) (change : A → Members → Members) (f : A → Action B)
        → ((a : A) → owned (change a before) held ≡ resource a ∷ owned before held)
        → ((a : A) → Runs (change a before) (f a))
        → (r : Result A × World) → Got (effect true) before ⊥ resource (owned before held) r
        → Safe (carry_on (λ a. modify (change a) >> f a) r)
    unfolding Got Safe carry_on ◌>>=◌
    construct-Safe resource change f e k (ok a, w) h =
        (k a).at _ (ap (change a) h.1) (subst (λ l. IsHeld answers l w) (sym (e a)) h.0)
    construct-Safe resource change f e k (threw x, w) h =
        subst (λ m. IsHeld answers (owned m held) w) (sym h.1) h.0
    construct-Safe resource change f e k (waits, w) h = h

    -- A constructor, whose object a member then owns.
    pub Runs-construct :
        (resource : A → Resource) (m : Action A) (change : A → Members → Members) (f : A → Action B)
        → Constructs (effect true) before ⊥ resource m
        → ((a : A) → owned (change a before) held ≡ resource a ∷ owned before held)
        → ((a : A) → Runs (change a before) (f a))
        → Runs before (m >>= λ a. modify (change a) >> f a)
    unfolding ◌>>=◌
    Runs-construct resource m change f c e k = record {
      at = λ w i h. construct-Safe resource change f e k (m w) (c.at w (owned before held) (h, i));
    }

  module _ (before : Members) where
    opened-Holds :
        (c : IoReturn) (path : FilePath) (a : Answer) (w : World)
        → a.code ≡ c
        → IsHeld answers (owned before held) w
        → Holds (effect true) ((open_file path, a) ∷ w.log) (with_fd c (owned before held))
    unfolding with_fd effect opens
    opened-Holds (count n) path a w e h = acquired _ (opened n) h (ap opens e)
    opened-Holds (failed errno) path a w e h = untouched _ h (ap opens e)

    -- A descriptor, which a member keeps.
    pub Runs-open :
        {B : Type 0} (path : FilePath) (change : IoReturn → Members → Members)
        (f : Answer → Action B)
        → ((c : IoReturn) → owned (change c before) held ≡ with_fd c (owned before held))
        → ((a : Answer) → Runs (change a.code before) (f a))
        → Runs before (ask answers (open_file path) >>= λ a. modify (change a.code) >> f a)
    unfolding ◌>>=◌ carry_on ask
    Runs-open path change f e k = record {
      at = λ w i h.
          let a = answers w.log (open_file path) in
          (k a).at _ (ap (change a.code) i) (
            subst (λ l. Holds (effect true) ((open_file path, a) ∷ w.log) l) (sym (e a.code))
              (opened-Holds a.code path a w refl h));
    }

    Kept-Safe :
        {A : Type 0} (r : Result A × World)
        → Kept (effect true) before ⊥ (owned before held) r
        → Safe r
    unfolding Kept Safe
    Kept-Safe (ok a, w) h = subst (λ m. IsHeld answers (owned m held) w) (sym h.1) h.0
    Kept-Safe (threw x, w) h = subst (λ m. IsHeld answers (owned m held) w) (sym h.1) h.0
    Kept-Safe (waits, w) h = h

    pub Runs-last : {A : Type 0} (m : Action A) → Keeps (effect true) before ⊥ m → Runs before m
    Runs-last m k = record { at = λ w e h. Kept-Safe (m w) (k.at w (owned before held) (h, e)) }

    abbrev with_thread : ℕ → Members → Members
    with_thread t m = record m { threads = m.threads ++ t ∷ [] }

    started-Safe :
        {B : Type 0} (f : Unit {0} → Action B)
        → ((t : ℕ) → Runs (with_thread t before) (f tt))
        → (r : Result ℕ × World) → Kept (effect true) before ⊥ (owned before held) r
        → Safe (carry_on f (carry_on (λ t. modify (with_thread t)) r))
    unfolding Kept Safe carry_on owned
    started-Safe f k (ok t, w) h = (k t).at _ (ap (with_thread t) h.1) h.0
    started-Safe f k (threw x, w) h = subst (λ m. IsHeld answers (owned m held) w) (sym h.1) h.0
    started-Safe f k (waits, w) h = h

    pub Runs-start :
        {B : Type 0} (fd : IoReturn) (rest : Action B)
        → ((t : ℕ) → Runs (with_thread t before) rest)
        → Runs before (start_pump answers fd >> rest)
    unfolding start_pump ◌>>=◌ effect
    Runs-start fd rest k = record {
      at = λ w e h.
          started-Safe (λ _. rest) k (ask_or_throw answers (start_thread fd) thread_failed w)
            ((Keeps-ask_or_throw (effect true) before ⊥ answers (start_thread fd) thread_failed
                (λ a. refl)).at
              w (owned before held) (h, e));
    }
