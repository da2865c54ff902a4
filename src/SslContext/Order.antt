-- ===== src/SslContext/Order.antt =====
-- The order of the calls that set the TLS context up.
use aacs.Prelude.{ℕ, ◌≡◌, refl, Bool, true, false, List, [], ◌∷◌, take}
use aacs.SslContext.{
  Method, ContextCall, new_context, set_ecdh_auto, use_certificate, use_private_key, open_params,
  read_params, close_params, set_tmp_dh, verify_peer, no_tls13, ContextEnd, no_context,
  certificate_failed, private_key_failed, no_params_file, params_failed, tmp_dh_failed, ready,
  ContextAnswers, is_positive, context_calls, initialize_ssl_context,
}

-- All calls, in their order.
abbrev pub all_calls : Method → List ContextCall
all_calls method =
    new_context method
    ∷ set_ecdh_auto
    ∷ use_certificate
    ∷ use_private_key
    ∷ open_params
    ∷ read_params
    ∷ close_params
    ∷ set_tmp_dh
    ∷ verify_peer
    ∷ no_tls13
    ∷ []

-- The tests in the order of the source: what each finds, the exception it throws, and how many of
-- the calls have been made when it is reached.
abbrev pub tests : Bool → Bool → Bool → Bool → Bool → Bool → List (Bool × ContextEnd × ℕ)
tests made certificate private_key opened params_made tmp_dh_set =
    (made, no_context, 1)
    ∷ (certificate, certificate_failed, 3)
    ∷ (private_key, private_key_failed, 4)
    ∷ (opened, no_params_file, 5)
    ∷ (params_made, params_failed, 7)
    ∷ (tmp_dh_set, tmp_dh_failed, 8)
    ∷ []

-- The exception of the first test that fails with the calls up to it, or `ready` with all ten.
unfoldable pub first_failure : List (Bool × ContextEnd × ℕ) → ContextEnd × ℕ
first_failure [] = (ready, 10)
first_failure ((true, e, n) ∷ ts) = first_failure ts
first_failure ((false, e, n) ∷ ts) = (e, n)

unfoldable pub up_to : Method → ContextEnd × ℕ → ContextEnd × List ContextCall
up_to method (e, n) = (e, take n (all_calls method))

by_answers :
    (method : Method) (made cert key opened params dh : Bool)
    → context_calls method made cert key opened params dh
      ≡ up_to method (first_failure (tests made cert key opened params dh))
unfolding up_to first_failure context_calls
by_answers method false cert key opened params dh = refl
by_answers method true false key opened params dh = refl
by_answers method true true false opened params dh = refl
by_answers method true true true false params dh = refl
by_answers method true true true true false dh = refl
by_answers method true true true true true false = refl
by_answers method true true true true true true = refl

-- Of AAServer and of AAClient: whatever the calls answer, the first of the six tests that fails
-- decides. `initializeSslContext` has then made the first 1, 3, 4, 5, 7 or 8 of its ten calls, in
-- the order of the source, no others, and throws the exception of that test; the file of parameters
-- is closed as soon as it has been read, before any test of what was read. When no test fails, all
-- ten calls are made and there is no exception.
pub context_stops_at_failure :
    (method : Method) (a : ContextAnswers)
    → initialize_ssl_context method a
      ≡ up_to method (
          first_failure (
            tests a.context_made
              (is_positive a.certificate)
              (is_positive a.private_key)
              a.params_opened
              a.params_made
              a.tmp_dh_set))
unfolding initialize_ssl_context
context_stops_at_failure method a =
    by_answers method a.context_made (is_positive a.certificate) (is_positive a.private_key)
      a.params_opened a.params_made a.tmp_dh_set
