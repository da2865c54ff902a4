-- ===== src/Server/Usb/Held.antt =====
-- Which resources the calls of a log hold: those that were acquired and not yet released, and the
-- rules by which actions keep them.
pub mod Calls
pub mod Unique
use aacs.Prelude.{
  ℕ, ◌≡◌, Bool, true, false, List, [], ◌∷◌, inl, inr, Bool-cases, sym, subst, if◌then◌else◌,
}
use aacs.CheckError.{IoReturn, Checked, exception, moved, minus_one, nothing, check_error}
use aacs.Server.Usb.{
  Answers, Answer, Call, Log, Action, Members, World, Result, Error, usbg_error, ok, threw, waits,
  pure, raise, ◌>>=◌, scope, carry_on, leave, ask, usbg, or_throw, ask_or_throw, check_usbg_error,
  check_write, checked_write, write_file, do_call, is_success,
}

-- What an entry of the log does to the resources.
pub data Effect (R : Type 0) : Type 0 where
  acquires : R → Effect R
  releases : R → Effect R
  neither : Effect R

-- The resources that a log holds, the last acquired first. They are released in the opposite of the
-- order in which they were acquired: no rule lets another go than the first of the list.
pub data Holds {R : Type 0} (effect : Call × Answer → Effect R) : Log → List R → Type 0 where
  at_start : Holds effect [] []
  acquired :
      {log : Log} {held : List R} (e : Call × Answer) (r : R)
      → Holds effect log held
      → effect e ≡ acquires r
      → Holds effect (e ∷ log) (r ∷ held)
  released :
      {log : Log} {held : List R} (e : Call × Answer) (r : R)
      → Holds effect log (r ∷ held)
      → effect e ≡ releases r
      → Holds effect (e ∷ log) held
  untouched :
      {log : Log} {held : List R} (e : Call × Answer)
      → Holds effect log held
      → effect e ≡ neither
      → Holds effect (e ∷ log) held

module _ {R : Type 0} (effect : Call × Answer → Effect R) (fixed : Members) (waiting : Type 0) where
  -- The log holds these resources, and the members of the communicator are as they were.
  abbrev pub Owns : List R → World → Type 0
  Owns held w = Holds effect w.log held × (w.members ≡ fixed)

  -- What holds behind an action that began with these resources; `waiting` is what is claimed of one
  -- that waits.
  unfoldable pub Kept : {A : Type 0} → List R → Result A × World → Type 0
  Kept held (ok a, w) = Owns held w
  Kept held (threw e, w) = Owns held w
  Kept held (waits, w) = waiting

  -- An action that ends with the resources with which it began, also by an exception.
  pub record Keeps {A : Type 0} (m : Action A) : Type 0 where
    pub at : (w : World) (held : List R) → Owns held w → Kept held (m w)

  unfoldable pub Got : {A : Type 0} → (A → R) → List R → Result A × World → Type 0
  Got resource held (ok a, w) = Owns (resource a ∷ held) w
  Got resource held (threw e, w) = Owns held w
  Got resource held (waits, w) = waiting

  -- A constructor: it acquires one resource more, or throws and holds nothing.
  pub record Constructs {A : Type 0} (resource : A → R) (m : Action A) : Type 0 where
    pub at : (w : World) (held : List R) → Owns held w → Got resource held (m w)

  -- A destructor, which lets it go.
  pub record Destroys {A : Type 0} (resource : A → R) (destroy : A → World → World) : Type 0 where
    pub at :
        (a : A) (w : World) (held : List R) → Owns (resource a ∷ held) w → Owns held (destroy a w)

  module _ {A B : Type 0} where
    carry_on-Kept :
        (held : List R) (f : A → Action B)
        → ((a : A) → Keeps (f a))
        → (r : Result A × World) → Kept held r
        → Kept held (carry_on f r)
    unfolding Kept carry_on
    carry_on-Kept held f k (ok a, w) h = (k a).at w held h
    carry_on-Kept held f k (threw e, w) h = h
    carry_on-Kept held f k (waits, w) h = h

    pub Keeps-bind :
        (m : Action A) (f : A → Action B) → Keeps m → ((a : A) → Keeps (f a)) → Keeps (m >>= f)
    unfolding ◌>>=◌
    Keeps-bind m f km kf = record {
      at = λ w held h. carry_on-Kept held f kf (m w) (km.at w held h);
    }

    carry_on-Got :
        (resource : B → R) (held : List R) (f : A → Action B)
        → ((a : A) → Constructs resource (f a))
        → (r : Result A × World) → Kept held r
        → Got resource held (carry_on f r)
    unfolding Kept Got carry_on
    carry_on-Got resource held f k (ok a, w) h = (k a).at w held h
    carry_on-Got resource held f k (threw e, w) h = h
    carry_on-Got resource held f k (waits, w) h = h

    -- What comes before in a constructor holds nothing.
    pub Constructs-bind :
        (resource : B → R) (m : Action A) (f : A → Action B)
        → Keeps m
        → ((a : A) → Constructs resource (f a))
        → Constructs resource (m >>= f)
    unfolding ◌>>=◌
    Constructs-bind resource m f km kf = record {
      at = λ w held h. carry_on-Got resource held f kf (m w) (km.at w held h);
    }

    leave-Kept :
        (resource : A → R) (destroy : A → World → World) (a : A) (held : List R)
        → Destroys resource destroy
        → (r : Result B × World) → Kept (resource a ∷ held) r
        → Kept held (leave (destroy a) r)
    unfolding Kept leave
    leave-Kept resource destroy a held d (ok b, w) h = d.at a w held h
    leave-Kept resource destroy a held d (threw e, w) h = d.at a w held h
    leave-Kept resource destroy a held d (waits, w) h = h

    scope-Kept :
        (resource : A → R) (destroy : A → World → World) (body : A → Action B) (held : List R)
        → Destroys resource destroy
        → ((a : A) → Keeps (body a))
        → (r : Result A × World) → Got resource held r
        → Kept held (carry_on (λ a w. leave (destroy a) (body a w)) r)
    unfolding Kept Got carry_on
    scope-Kept resource destroy body held d k (ok a, w) h =
        leave-Kept resource destroy a held d (body a w) ((k a).at w (resource a ∷ held) h)
    scope-Kept resource destroy body held d k (threw e, w) h = h
    scope-Kept resource destroy body held d k (waits, w) h = h

    -- A local object whose destructor lets go what its constructor acquired keeps the resources.
    pub Keeps-scope :
        (resource : A → R) (construct : Action A) (destroy : A → World → World)
        (body : A → Action B)
        → Constructs resource construct
        → Destroys resource destroy
        → ((a : A) → Keeps (body a))
        → Keeps (scope construct destroy body)
    unfolding scope ◌>>=◌
    Keeps-scope resource construct destroy body c d k = record {
      at = λ w held h. scope-Kept resource destroy body held d k (construct w) (c.at w held h);
    }

  module _ {A : Type 0} where
    pub Keeps-pure : (a : A) → Keeps (pure a)
    unfolding Kept
    Keeps-pure a = record { at = λ w held h. h }

    pub Keeps-raise : (e : Error) → Keeps (raise {A = A} e)
    unfolding Kept
    Keeps-raise e = record { at = λ w held h. h }

    pub Keeps-if :
        (b : Bool) (m n : Action A) → Keeps m → Keeps n → Keeps (λ w. (if b then m else n) w)
    Keeps-if true m n km kn = km
    Keeps-if false m n km kn = kn

  module _ {A B : Type 0} where
    map-Got :
        (resource : A → R) (resource' : B → R) (g : A → B) (held : List R)
        → ((a : A) → resource' (g a) ≡ resource a)
        → (r : Result A × World) → Got resource held r
        → Got resource' held (carry_on (λ a. pure (g a)) r)
    unfolding Got carry_on
    map-Got resource resource' g held k (ok a, w) h = subst (λ x. Owns (x ∷ held) w) (sym (k a)) h
    map-Got resource resource' g held k (threw e, w) h = h
    map-Got resource resource' g held k (waits, w) h = h

    pub Constructs-map :
        (resource : A → R) (resource' : B → R) (g : A → B) (m : Action A)
        → ((a : A) → resource' (g a) ≡ resource a)
        → Constructs resource m
        → Constructs resource' (m >>= λ a. pure (g a))
    unfolding ◌>>=◌
    Constructs-map resource resource' g m k c = record {
      at = λ w held h. map-Got resource resource' g held k (m w) (c.at w held h);
    }
