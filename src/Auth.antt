-- ===== src/Auth.antt =====
-- internal/platform/auth/tokens.go: the token that the worker shows to the API. The request of an
-- exchange is a parameter. Times are nanoseconds.
pub mod Tokens
pub mod Reuse
mod Examples
use releasea_worker.Prelude.{
  ℕ, ◌+◌, ◌*◌, ltb, String, Bool, true, false, not, Option, none, some, ◌==◌, ◌=ℕ◌, has_prefix,
  if◌then◌else◌,
}
use releasea_worker.Prelude.Int.{ℤ, pos, pos_part, ltb_ℤ}
use releasea_worker.Models.Failure.{Error, Result, ok, err, new_error}

-- An empty text stands for no token; `expires_at` is `none` where `IsZero`.
pub record TokenManager : Type 0 where
  pub bootstrap_token : String
  pub access_token : String
  pub expires_at : Option ℕ

unfoldable pub is_registration_token : String → Bool
is_registration_token token = has_prefix token "frg_reg_"

unfoldable pub new_token_manager : String → TokenManager
new_token_manager token =
    if is_registration_token token
    then record { bootstrap_token = token; access_token = ""; expires_at = none }
    else record { bootstrap_token = ""; access_token = token; expires_at = none }

-- The decoded body of the API's answer.
pub record Exchange : Type 0 where
  pub token : String
  pub expires_in : ℤ

-- `exchangeWorkerToken` from the decoding of the body on; the argument is an error of the request, an
-- answer's error status, an error of the decoding, or the decoded body.
unfoldable pub exchange_worker_token : Result Exchange → Result Exchange
exchange_worker_token (err e) = err e
exchange_worker_token (ok body) =
    if body.token == "" then err (new_error "worker auth returned empty token") else ok body

abbrev pub refresh_skew_or_default : ℕ → ℕ
refresh_skew_or_default skew = if skew =ℕ 0 then 120000000000 else skew

abbrev pub outlasts : Option ℕ → ℕ → Bool
outlasts none until = true
outlasts (some expires_at) until = ltb until expires_at

-- Is the token at hand good for longer than the margin?
unfoldable pub is_fresh : TokenManager → ℕ → ℕ → Bool
is_fresh tm skew now =
    if tm.access_token == ""
    then false
    else outlasts tm.expires_at (now + refresh_skew_or_default skew)

abbrev after_exchange : TokenManager → Result Exchange → ℕ → Result String × TokenManager
after_exchange tm (err e) later = (err e, tm)
after_exchange tm (ok body) later = (
  ok body.token,
  record tm {
    access_token = body.token;
    expires_at =
        if ltb_ℤ (pos 0) body.expires_in
        then some (later + pos_part body.expires_in * 1000000000)
        else tm.expires_at;
  },
)

-- `answer` is what the API would say to an exchange, `later` the time when it has.
unfoldable pub get_token : TokenManager → ℕ → ℕ → Result Exchange → ℕ → Result String × TokenManager
get_token tm skew now answer later =
    if is_fresh tm skew now
    then (ok tm.access_token, tm)
    else if tm.bootstrap_token == ""
    then (if tm.access_token == ""
        then (err (new_error "RELEASEA_WORKER_TOKEN not set"), tm)
        else (ok tm.access_token, tm))
    else after_exchange tm (exchange_worker_token answer) later

unfoldable pub invalidate : TokenManager → TokenManager
invalidate tm = record tm { access_token = ""; expires_at = none }
