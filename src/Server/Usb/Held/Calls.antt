-- ===== src/Server/Usb/Held/Calls.antt =====
-- The rules of Held for single calls: those that keep the resources, that acquire one, and that let one go.
use aacs.Prelude.{ℕ, ◌≡◌, List, [], ◌∷◌, inl, inr, Bool-cases, subst, if◌then◌else◌}
use aacs.CheckError.{IoReturn, Checked, exception, moved, minus_one, nothing, check_error}
use aacs.Server.Usb.{
  Answers, Answer, Call, Members, World, Error, usbg_error, pure, raise, ◌>>=◌, carry_on, ask, usbg,
  or_throw, ask_or_throw, check_usbg_error, check_write, checked_write, write_file, do_call,
  is_success,
}
use aacs.Server.Usb.Held.{
  Effect, acquires, releases, neither, acquired, released, untouched, Owns, Kept, Keeps, Got,
  Constructs, Destroys, Keeps-bind, Keeps-pure, Keeps-raise, Keeps-if,
}

module _ {R : Type 0} (effect : Call × Answer → Effect R) (fixed : Members) (waiting : Type 0) where
  -- A call that neither acquires nor releases, whatever its answer is.
  abbrev pub IsNeutral : Call → Type 0
  IsNeutral c = (a : Answer) → effect (c, a) ≡ neither

  module _ (answers : Answers) where
    pub Keeps-ask : (c : Call) → IsNeutral c → Keeps effect fixed waiting (ask answers c)
    unfolding Kept ask
    Keeps-ask c n = record {
      at = λ w held (h, e). (untouched (c, answers w.log c) h (n (answers w.log c)), e);
    }

    Keeps-check : (a : Answer) → Keeps effect fixed waiting (check_usbg_error a)
    unfolding check_usbg_error
    Keeps-check a =
        Keeps-if effect fixed waiting (is_success a.code) (pure a.handle) _
          (Keeps-pure effect fixed waiting _) (Keeps-raise effect fixed waiting _)

    pub Keeps-usbg : (c : Call) → IsNeutral c → Keeps effect fixed waiting (usbg answers c)
    unfolding usbg
    Keeps-usbg c n = Keeps-bind effect fixed waiting (ask answers c) _ (Keeps-ask c n) Keeps-check

    Keeps-or_throw : (e : Error) (a : Answer) → Keeps effect fixed waiting (or_throw answers e a)
    unfolding or_throw
    Keeps-or_throw e a =
        Keeps-if effect fixed waiting (is_success a.code) (pure a.handle) _
          (Keeps-pure effect fixed waiting _) (Keeps-raise effect fixed waiting _)

    pub Keeps-ask_or_throw :
        (c : Call) (e : Error) → IsNeutral c → Keeps effect fixed waiting (ask_or_throw answers c e)
    unfolding ask_or_throw
    Keeps-ask_or_throw c e n =
        Keeps-bind effect fixed waiting (ask answers c) _ (Keeps-ask c n) (Keeps-or_throw e)

    Keeps-check_write : (c : Checked) → Keeps effect fixed waiting (check_write c)
    unfolding check_write
    Keeps-check_write exception = Keeps-raise effect fixed waiting _
    Keeps-check_write (moved n) = Keeps-pure effect fixed waiting tt
    Keeps-check_write minus_one = Keeps-pure effect fixed waiting tt
    Keeps-check_write nothing = Keeps-pure effect fixed waiting tt

    pub Keeps-checked_write :
        (fd : IoReturn) (bytes : List ℕ)
        → IsNeutral (write_file fd bytes)
        → Keeps effect fixed waiting (checked_write answers fd bytes)
    unfolding checked_write
    Keeps-checked_write fd bytes n =
        Keeps-bind effect fixed waiting (ask answers (write_file fd bytes)) _ (Keeps-ask _ n)
          (λ a. Keeps-check_write (check_error a.code []))

    constructed :
        (a : Answer) (c : Call) (resource : ℕ → R) (held : List R) (w : World)
        → effect (c, a) ≡ (if is_success a.code then acquires (resource a.handle) else neither)
        → Owns effect fixed waiting held w
        → (e : Error)
        → Got effect fixed waiting resource held (
            (if is_success a.code then pure a.handle else raise e)
              (record w { log = (c, a) ∷ w.log }))
    unfolding Got
    constructed a c resource held w k h e = elim (Bool-cases (is_success a.code)) [
      | inl t ↦ rw t (
        acquired (c, a) (resource a.handle) h.0
            (subst (λ b. effect (c, a) ≡ (if b then acquires (resource a.handle) else neither)) t
              k),
        h.1,
      )
      | inr t ↦ rw t (
        untouched (c, a) h.0
            (subst (λ b. effect (c, a) ≡ (if b then acquires (resource a.handle) else neither)) t
              k),
        h.1,
      )
    ]

    -- A call that acquires the resource of its handle when it succeeds, and throws otherwise.
    pub Constructs-usbg :
        (c : Call) (resource : ℕ → R)
        → ((a : Answer)
            → effect (c, a) ≡ (if is_success a.code then acquires (resource a.handle) else neither))
        → Constructs effect fixed waiting resource (usbg answers c)
    unfolding usbg ◌>>=◌ carry_on ask check_usbg_error
    Constructs-usbg c resource k = record {
      at = λ w held h.
          let a = answers w.log c in constructed a c resource held w (k a) h (usbg_error a.code);
    }

    pub Constructs-ask_or_throw :
        (c : Call) (e : Error) (resource : ℕ → R)
        → ((a : Answer)
            → effect (c, a) ≡ (if is_success a.code then acquires (resource a.handle) else neither))
        → Constructs effect fixed waiting resource (ask_or_throw answers c e)
    unfolding ask_or_throw ◌>>=◌ carry_on ask or_throw
    Constructs-ask_or_throw c e resource k = record {
      at = λ w held h. let a = answers w.log c in constructed a c resource held w (k a) h e;
    }

    pub Destroys-call :
        {A : Type 0} (c : A → Call) (resource : A → R)
        → ((x : A) (a : Answer) → effect (c x, a) ≡ releases (resource x))
        → Destroys effect fixed waiting resource (λ x. do_call answers (c x))
    unfolding do_call ask
    Destroys-call c resource k = record {
      at = λ x w held (h, e).
          (released (c x, answers w.log (c x)) (resource x) h (k x (answers w.log (c x))), e);
    }
