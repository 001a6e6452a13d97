-- ===== src/Auth/Reuse.antt =====
-- How long a token that was exchanged is shown.
use releasea_worker.Prelude.{
  ℕ, ◌+◌, ◌*◌, ◌<◌, ltb, true, false, ◌≡◌, refl, ◌≢◌, ap, ◌==◌, eq_iff, arith,
}
use releasea_worker.Prelude.Int.{pos, pos_part, ltb_ℤ, ◌<ℤ◌}
use releasea_worker.Models.Failure.{Result, ok}
use releasea_worker.Auth.{
  TokenManager, Exchange, exchange_worker_token, refresh_skew_or_default, is_fresh, after_exchange,
  get_token, invalidate,
}

exchanged : (body : Exchange) → body.token ≢ "" → exchange_worker_token (ok body) ≡ ok body
unfolding exchange_worker_token
exchanged body full = ground (arith, eq_iff body.token "", full)

module _ (tm : TokenManager) (skew now : ℕ) (body : Exchange) (later : ℕ) where
  -- The manager once the exchange has succeeded.
  get_token_stale :
      is_fresh tm skew now ≡ false
      → tm.bootstrap_token ≢ ""
      → body.token ≢ ""
      → get_token tm skew now (ok body) later ≡ after_exchange tm (ok body) later
  unfolding get_token
  get_token_stale stale boot full =
      let known : (tm.bootstrap_token == "") ≡ false =
        ground (arith, eq_iff tm.bootstrap_token "", boot) in
      rw (stale, known, exchanged body full) refl

get_token_fresh :
    (tm : TokenManager)
    → (skew now : ℕ) → (answer : Result Exchange) → (later : ℕ) → is_fresh tm skew now ≡ true
    → get_token tm skew now answer later ≡ (ok tm.access_token, tm)
unfolding get_token
get_token_fresh tm skew now answer later fresh = rw fresh refl

fresh_after :
    (tm : TokenManager)
    → (skew : ℕ) → (body : Exchange) → (later now : ℕ) → body.token ≢ ""
    → pos 0 <ℤ body.expires_in
    → now + refresh_skew_or_default skew < later + pos_part body.expires_in * 1000000000
    → is_fresh (after_exchange tm (ok body) later).1 skew now ≡ true
unfolding is_fresh
fresh_after tm skew body later now full lasts early =
    let known : (body.token == "") ≡ false = ground (arith, eq_iff body.token "", full) in
    let live : ltb_ℤ (pos 0) body.expires_in ≡ true = ground arith in
    let soon : ltb (now + refresh_skew_or_default skew)
          (later + pos_part body.expires_in * 1000000000)
        ≡ true =
      ground arith in
    rw (known, live, soon) refl

after_invalidate :
    (tm : TokenManager)
    → (skew now : ℕ) → (body : Exchange) → (later : ℕ) → tm.bootstrap_token ≢ ""
    → body.token ≢ ""
    → (get_token (invalidate tm) skew now (ok body) later).0 ≡ ok body.token
unfolding invalidate is_fresh
after_invalidate tm skew now body later boot full =
    ap (λ r. r.0) (get_token_stale (invalidate tm) skew now body later refl boot full)

-- A token that was exchanged for the registration token is shown again, and the API is not asked,
-- until the margin before the end of its lifetime. Once it is invalidated, even before that time, the
-- next token that is shown is the one that a new exchange returns.
pub get_token_again :
    (tm : TokenManager)
    → (skew now : ℕ) → (body : Exchange) → (later now' : ℕ) → (answer : Result Exchange)
    → (body' : Exchange) → (later' : ℕ) → is_fresh tm skew now ≡ false
    → tm.bootstrap_token ≢ ""
    → body.token ≢ ""
    → body'.token ≢ ""
    → pos 0 <ℤ body.expires_in
    → now' + refresh_skew_or_default skew < later + pos_part body.expires_in * 1000000000
    → let tm' = (get_token tm skew now (ok body) later).1 in
      (get_token tm' skew now' answer later' ≡ (ok body.token, tm'))
      × ((get_token (invalidate tm') skew now' (ok body') later').0 ≡ ok body'.token)
get_token_again tm skew now body later now' answer body' later' stale boot full full' lasts early =
    rw (get_token_stale tm skew now body later stale boot full) (
      get_token_fresh _ skew now' answer later'
          (fresh_after tm skew body later now' full lasts early),
      after_invalidate _ skew now' body' later' boot full',
    )
