-- ===== src/Auth/Examples.antt =====
-- A registration token that is exchanged, and the theorem applied to it.
use releasea_worker.Prelude.{arith, eq_iff, String, has_prefix, none, some, ◌≡◌, refl, ◌≢◌}
use releasea_worker.Prelude.Int.{pos}
use releasea_worker.Models.Failure.{Error, Result, ok, err}
use releasea_worker.Auth.{
  TokenManager, is_registration_token, new_token_manager, Exchange, exchange_worker_token, is_fresh,
  get_token, invalidate,
}
use releasea_worker.Auth.Reuse.{get_token_again}
use releasea_worker.Auth.Tokens.{IsFresh, IsGood, get_token_lem}

abbrev registered : TokenManager
registered = new_token_manager "frg_reg_x"

abbrev answered : Result Exchange
answered = ok (record { token = "t"; expires_in = pos 3600 })

abbrev holder : TokenManager
holder = record {
  bootstrap_token = "frg_reg_x";
  access_token = "t";
  expires_at = some 3600000000000;
}

exchanges : get_token registered 0 0 answered 0 ≡ (ok "t", holder)
unfolding get_token is_fresh new_token_manager is_registration_token exchange_worker_token
    has_prefix
exchanges = refl

-- The token that was exchanged is shown again, and the API is not asked.
remembers : get_token holder 0 3000000000000 answered 3000000000000 ≡ (ok "t", holder)
unfolding get_token is_fresh
remembers = refl

-- After `Invalidate` the registration token is left.
forgets :
    invalidate holder
    ≡ record { bootstrap_token = "frg_reg_x"; access_token = ""; expires_at = none }
unfolding invalidate
forgets = refl

get_token_lem_example :
    ((t : String)
      → (get_token registered 0 0 answered 0).0 ≡ ok t
      → (t ≢ "") × IsGood registered 0 0 answered 0 t (get_token registered 0 0 answered 0).1)
    × ((e : Error)
        → (get_token registered 0 0 answered 0).0 ≡ err e
        → ((get_token registered 0 0 answered 0).1 ≡ registered) × (IsFresh registered 0 0 → ⊥))
get_token_lem_example = get_token_lem registered 0 0 answered 0

abbrev renewed : Exchange
renewed = record { token = "u"; expires_in = pos 3600 }

-- A minute after the exchange.
get_token_again_example :
    let tm' = (get_token registered 0 0 answered 0).1 in
    (get_token tm' 0 60000000000 answered 60000000000 ≡ (ok "t", tm'))
    × ((get_token (invalidate tm') 0 60000000000 (ok renewed) 60000000000).0 ≡ ok "u")
unfolding new_token_manager is_registration_token has_prefix is_fresh
get_token_again_example =
    get_token_again registered 0 0 (record { token = "t"; expires_in = pos 3600 }) 0 60000000000
      answered renewed 60000000000 refl (λ e. ground (arith, eq_iff "frg_reg_x" "", e))
      (λ e. ground (arith, eq_iff "t" "", e)) (λ e. ground (arith, eq_iff "u" "", e)) (omega arith)
      (omega arith)
