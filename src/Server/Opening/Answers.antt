-- ===== src/Server/Opening/Answers.antt =====
-- When the head unit answers, an opening comes to its end.
use aacs.Prelude.{
  ℕ, Bool, true, false, List, [], ◌∷◌, ◌++◌, some, ◌≡◌, refl, ◌∙◌, ◌==◌, if◌then◌else◌, Bool-cases,
  inl, inr, All, arith, subst, sym,
}
use aacs.Wire.Bytes.{front16}
use aacs.Frame.{Message}
use aacs.Server.Handlers.{Emit}
use aacs.Server.Opening.{
  Opener, first_unsent, awaiting_first, second_unsent, awaiting_second, finished, Opening, begin,
  proceed_in, proceed, hear_message,
}

abbrev pub has_type : ℕ → List Message → Bool
has_type t [] = false
has_type t (m ∷ ms) = if front16 m.content == t then true else has_type t ms

module _ {S : Type 0} (op : Opener S) where
  open op use {
    first_flag, second_flag, is_open, is_known, clear_first, clear_second, hear, first_type,
    second_type, first_request, second_request, at_end,
  }

  abbrev pub IsKnown : Message → Type 0
  IsKnown m = is_known (front16 m.content) ≡ true

  pub hear_all : List Message → Opening S → Opening S
  hear_all [] o = o
  hear_all (m ∷ ms) o = hear_all ms (hear_message op m o)

  heard_known :
      (m : Message) (o : Opening S)
      → is_open o.state ≡ true
      → o.listening ≡ true
      → IsKnown m
      → hear_message op m o ≡ record o { state = (hear m o.state).1; listening = true }
  unfolding hear_message
  heard_known m o h l k = rw (l, op.hear_known m o.state h, k) refl

  -- What the messages leave as it is, and how they set the flags.
  abbrev Heard : List Message → Opening S → Opening S → Type 0
  Heard ms o p =
      (is_open p.state ≡ true)
      × (p.listening ≡ true)
      × (p.phase ≡ o.phase)
      × (p.sent ≡ o.sent)
      × (first_flag o.state ≡ true → first_flag p.state ≡ true)
      × (second_flag o.state ≡ true → second_flag p.state ≡ true)
      × (has_type first_type ms ≡ true → first_flag p.state ≡ true)
      × (has_type second_type ms ≡ true → second_flag p.state ≡ true)

  hear_all_flags :
      (ms : List Message) (o : Opening S)
      → is_open o.state ≡ true
      → o.listening ≡ true
      → All IsKnown ms
      → Heard ms o (hear_all ms o)
  unfolding hear_all
  hear_all_flags [] o h l k = (h, l, refl, refl, λ e. e, λ e. e, λ e. cc, λ e. cc)
  hear_all_flags (m ∷ ms) o h l (k, ks) =
      let next : Opening S = record o { state = (hear m o.state).1; listening = true } in
      let rest = hear_all_flags ms next (op.hear_open m o.state h) refl ks in
      subst (λ x. Heard (m ∷ ms) o (hear_all ms x)) (sym (heard_known m o h l k))
        (
          rest.0,
          rest.1,
          rest.2,
          rest.3,
          λ e. rest.4 (ground (arith, op.hear_first m o.state h, e)),
          λ e. rest.5 (ground (arith, op.hear_second m o.state h, e)),
          λ e. elim (Bool-cases (front16 m.content == first_type)) [
            | inl yes_type ↦ rest.4 (rw (op.hear_first m o.state h, yes_type) refl)
            | inr no_type ↦ rest.6 (ground (arith, e, no_type))
          ],
          λ e. elim (Bool-cases (front16 m.content == second_type)) [
            | inl yes_type ↦ rest.5 (rw (op.hear_second m o.state h, yes_type) refl)
            | inr no_type ↦ rest.7 (ground (arith, e, no_type))
          ],
        )

  -- The call up to its second flag, by what the head unit says before the first request and before
  -- its wait ends.
  pub asked_first : List Message → List Message → S → Opening S
  unfolding hear_all begin proceed
  asked_first early ms s = proceed op (hear_all ms (proceed op (hear_all early (begin op s))))

  -- The whole call under a schedule: what the head unit says before each of the two requests is
  -- sent, and before each of the two waits ends.
  pub answered : List Message → List Message → List Message → List Message → S → Opening S
  unfolding hear_all asked_first proceed
  answered early ms between ns s =
      proceed op (hear_all ns (proceed op (hear_all between (asked_first early ms s))))

  send_first :
      (o : Opening S)
      → o.phase ≡ first_unsent
      → proceed op o ≡ record o { phase = awaiting_first; sent = o.sent ++ first_request ∷ [] }
  unfolding proceed proceed_in
  send_first o p = rw p refl

  end_first :
      (o : Opening S)
      → o.phase ≡ awaiting_first
      → first_flag o.state ≡ true
      → proceed op o ≡ record o { state = clear_second o.state; phase = second_unsent }
  unfolding proceed proceed_in
  end_first o p f = rw (p, proceed_in, f) refl

  send_second :
      (o : Opening S) (e : Emit)
      → o.phase ≡ second_unsent
      → second_request ≡ some e
      → proceed op o ≡ record o { phase = awaiting_second; sent = o.sent ++ e ∷ [] }
  unfolding proceed proceed_in
  send_second o e p r = rw (p, proceed_in, r) refl

  end_second :
      (o : Opening S)
      → o.phase ≡ awaiting_second
      → second_flag o.state ≡ true
      → proceed op o ≡ record o { phase = finished; sent = o.sent ++ at_end }
  unfolding proceed proceed_in
  end_second o p f = rw (p, proceed_in, f) refl

  first_asked :
      (early ms : List Message) (s : S)
      → All IsKnown early
      → All IsKnown ms
      → has_type first_type ms ≡ true
      → (is_open (asked_first early ms s).state ≡ true)
        × ((asked_first early ms s).listening ≡ true)
        × ((asked_first early ms s).phase ≡ second_unsent)
        × ((asked_first early ms s).sent ≡ first_request ∷ [])
  unfolding asked_first begin
  first_asked early ms s ks ls f =
      let heard = hear_all_flags early (begin op s) (op.opens s) refl ks in
      let o : Opening S = hear_all early (begin op s) in
      let sent : Opening S = record o {
        phase = awaiting_first;
        sent = o.sent ++ first_request ∷ [];
      } in
      let later = hear_all_flags ms sent heard.0 heard.1 ls in
      rw (send_first o heard.2, end_first (hear_all ms sent) later.2 (later.6 f))
        (op.keeps_open _ ∙ later.0, later.1, refl, later.3 ∙ rw heard.3 refl)

  pub answered_finishes :
      (early ms between ns : List Message) (s : S) (e : Emit)
      → All IsKnown early
      → All IsKnown ms
      → All IsKnown between
      → All IsKnown ns
      → second_request ≡ some e
      → has_type first_type ms ≡ true
      → has_type second_type ns ≡ true
      → ((answered early ms between ns s).phase ≡ finished)
        × ((answered early ms between ns s).sent ≡ first_request ∷ e ∷ at_end)
  unfolding answered
  answered_finishes early ms between ns s e k1 k2 k3 k4 req f g =
      let first = first_asked early ms s k1 k2 f in
      let o : Opening S = hear_all between (asked_first early ms s) in
      let heard = hear_all_flags between (asked_first early ms s) first.0 first.1 k3 in
      let sent : Opening S = record o { phase = awaiting_second; sent = o.sent ++ e ∷ [] } in
      let later = hear_all_flags ns sent heard.0 heard.1 k4 in
      let out : (hear_all ns sent).sent ≡ first_request ∷ e ∷ [] =
        later.3 ∙ rw (heard.3, first.3) refl in
      rw
        (send_second o e (heard.2 ∙ first.2) req, end_second (hear_all ns sent) later.2 (later.7 g))
        (refl, rw out refl)
