-- ===== src/SslContext.antt =====
-- `initializeSslContext` and `verifyCertificate`, which AAServer/src/AaCommunicator.cpp and
-- AAClient/src/AaCommunicator.cpp share but for the method. What OpenSSL and `fopen` answer is an
-- argument.
pub mod Order
use aacs.Prelude.{ℕ, zero, suc, Bool, true, false, List, [], ◌∷◌, if◌then◌else◌}
use aacs.CheckError.{IoReturn, count, failed}

pub data Method : Type 0 where
  server_method client_method : Method

-- The calls, in the order of the source. Those before `SSL_CTX_new` only load tables.
pub data ContextCall : Type 0 where
  new_context : Method → ContextCall
  set_ecdh_auto use_certificate use_private_key : ContextCall
  open_params read_params close_params set_tmp_dh : ContextCall
  verify_peer no_tls13 : ContextCall

-- `ready`, or the exception.
pub data ContextEnd : Type 0 where
  no_context certificate_failed private_key_failed : ContextEnd
  no_params_file params_failed tmp_dh_failed ready : ContextEnd

pub record ContextAnswers : Type 0 where
  pub context_made : Bool
  pub certificate : IoReturn
  pub private_key : IoReturn
  pub params_opened : Bool
  pub params_made : Bool
  pub tmp_dh_set : Bool

-- Not `<= 0`.
unfoldable pub is_positive : IoReturn → Bool
is_positive (failed errno) = false
is_positive (count zero) = false
is_positive (count (suc n)) = true

abbrev pub then_call : ContextCall → ContextEnd × List ContextCall → ContextEnd × List ContextCall
then_call c rest = (rest.0, c ∷ rest.1)

unfoldable pub set_params : Bool → Bool → ContextEnd × List ContextCall
set_params params_made tmp_dh_set =
    if params_made
    then then_call set_tmp_dh
        (if tmp_dh_set then (ready, verify_peer ∷ no_tls13 ∷ []) else (tmp_dh_failed, []))
    else (params_failed, [])

unfoldable pub load_params : Bool → Bool → Bool → ContextEnd × List ContextCall
unfolding set_params
load_params opened params_made tmp_dh_set = then_call open_params (
    if opened
    then then_call read_params (then_call close_params (set_params params_made tmp_dh_set))
    else (no_params_file, []))

-- By what the tests of the calls find.
unfoldable pub context_calls :
    Method → Bool → Bool → Bool → Bool → Bool → Bool → ContextEnd × List ContextCall
unfolding load_params
context_calls method made certificate private_key opened params_made tmp_dh_set =
    then_call (new_context method) (
      if made
      then then_call set_ecdh_auto (
          then_call use_certificate (
            if certificate
            then then_call use_private_key (
                if private_key
                then load_params opened params_made tmp_dh_set
                else (private_key_failed, []))
            else (certificate_failed, [])))
      else (no_context, []))

unfoldable pub initialize_ssl_context : Method → ContextAnswers → ContextEnd × List ContextCall
unfolding is_positive context_calls
initialize_ssl_context method a =
    context_calls method a.context_made (is_positive a.certificate) (is_positive a.private_key)
      a.params_opened a.params_made a.tmp_dh_set

-- The callback of `SSL_CTX_set_verify`: 1 lets any certificate pass, whatever OpenSSL found.
unfoldable pub verify_certificate : ℕ → ℕ
verify_certificate preverify_ok = 1
