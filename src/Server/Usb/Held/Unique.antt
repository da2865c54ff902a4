-- ===== src/Server/Usb/Held/Unique.antt =====
-- The lists of resources that one log can hold.
use aacs.Prelude.{◌≡◌, refl, sym, ap, ◌∙◌, subst, List, [], ◌∷◌}
use aacs.Server.Usb.{Answer, Call, Log}
use aacs.Server.Usb.Held.{
  Effect, acquires, releases, neither, Holds, at_start, acquired, released, untouched,
}

module _ {R : Type 0} (effect : Call × Answer → Effect R) where
  -- What a log held before its last entry, by the effect of that entry.
  Before : Effect R → Log → List R → Type 0
  Before (acquires r) log held = (rest : List R) × Holds effect log rest × (held ≡ r ∷ rest)
  Before (releases r) log held = Holds effect log (r ∷ held)
  Before neither log held = Holds effect log held

  held-Before :
      (e : Call × Answer) (log : Log) (held : List R)
      → Holds effect (e ∷ log) held
      → Before (effect e) log held
  unfolding Before
  held-Before e log _ (acquired {held = held} e' r h p) =
      subst (λ x. Before x log (r ∷ held)) (sym p) (held, h, refl)
  held-Before e log held (released e' r h p) = subst (λ x. Before x log held) (sym p) h
  held-Before e log held (untouched e' h p) = subst (λ x. Before x log held) (sym p) h

  tail_of : List R → List R
  tail_of [] = []
  tail_of (r ∷ rs) = rs

  empty-Holds : (other : List R) → Holds effect [] other → [] ≡ other
  empty-Holds _ at_start = refl

  -- Two lists that a log holds are the same.
  Holds-unique :
      (log : Log) (held other : List R)
      → Holds effect log held
      → Holds effect log other
      → held ≡ other
  unfolding tail_of Before
  Holds-unique log held other at_start d = empty-Holds other d
  Holds-unique log _ other (acquired {log = before} {held = held} e r h p) d =
      let (rest, k, same) = subst (λ x. Before x before other) p (held-Before e before other d) in
      ap (λ xs. r ∷ xs) (Holds-unique before held rest h k) ∙ sym same
  Holds-unique log held other (released {log = before} e r h p) d = ap tail_of (
      Holds-unique before (r ∷ held) (r ∷ other) h
        (subst (λ x. Before x before other) p (held-Before e before other d)))
  Holds-unique log held other (untouched {log = before} e h p) d =
      Holds-unique before held other h
        (subst (λ x. Before x before other) p (held-Before e before other d))
