-- ===== src/Auth/Tokens.antt =====
-- What a token that the manager hands out is.
use releasea_worker.Prelude.{
  ℕ, ◌+◌, ◌<◌, ◌↔◌, ◌=ℕ◌, String, Option, none, some, true, false, ◌≡◌, refl, ◌≢◌, ◌⊎◌, inl, inr,
  ◌==◌, eq_iff, arith, if_split, Bool-cases,
}
use releasea_worker.Models.Failure.{Error, Result, ok, err}
use releasea_worker.Auth.{
  TokenManager, Exchange, exchange_worker_token, refresh_skew_or_default, outlasts, is_fresh,
  after_exchange, get_token,
}

answered :
    (a : Result Exchange)
    → (body : Exchange) → exchange_worker_token a ≡ ok body
    → (body.token ≢ "") × (a ≡ ok body)
unfolding exchange_worker_token
answered (err e) body h = absurd (cc)
answered (ok b) body h = elim (Bool-cases (b.token == "")) [
  | inl blank ↦ absurd (ground (arith, blank, h))
  | inr full ↦
      let same : ok b ≡ ok body = ground (arith, full, h) in
      (λ e. ground (arith, eq_iff b.token "", full, same, e), same)
]

-- The token at hand is there, and has no end or ends later than the margin from now. The margin is two
-- minutes where none is given.
abbrev pub IsFresh : TokenManager → ℕ → ℕ → Type 0
IsFresh tm skew now =
    (tm.access_token ≢ "")
    × ((tm.expires_at ≡ none)
        ⊎ ((end : ℕ) × (tm.expires_at ≡ some end)
            × (((skew ≡ 0) × (now + 120000000000 < end)) ⊎ ((skew ≢ 0) × (now + skew < end)))))

is_fresh_iff :
    (tm : TokenManager) (skew now : ℕ) → (is_fresh tm skew now ≡ true) ↔ IsFresh tm skew now
unfolding is_fresh
is_fresh_iff tm skew now =
    if_split (λ b. (b ≡ true) ↔ IsFresh tm skew now) (tm.access_token == "")
      (λ blank. (λ h. cc, λ h. absurd (h.0 ((eq_iff tm.access_token "").0 blank))))
      (λ full. by_end (λ e. ground (arith, eq_iff tm.access_token "", full, e)) tm.expires_at refl)
  where
    by_end :
        tm.access_token ≢ ""
        → (expires_at : Option ℕ) → tm.expires_at ≡ expires_at
        → (outlasts expires_at (now + refresh_skew_or_default skew) ≡ true) ↔ IsFresh tm skew now
    by_end full none same = (λ h. (full, inl same), λ h. refl)
    by_end full (some end) same = elim (Bool-cases (skew =ℕ 0)) [
      | inl default ↦ (
        λ h. (full, inr (end, same, inl (ground (arith, default), ground (arith, default, h)))),
        λ h. ground (arith, h.1, same, default),
      )
      | inr given ↦ (
        λ h. (full, inr (end, same, inr (λ e. ground (arith, given, e), ground (arith, given, h)))),
        λ h. ground (arith, h.1, same, given),
      )
    ]

module _ (tm : TokenManager) (skew now : ℕ) (answer : Result Exchange) (later : ℕ) where
  -- The token is the one at hand, which is fresh or cannot be exchanged, or has just been exchanged.
  abbrev pub IsGood : String → TokenManager → Type 0
  IsGood token tm' =
      ((token ≡ tm.access_token) × (tm' ≡ tm) × (IsFresh tm skew now ⊎ (tm.bootstrap_token ≡ "")))
      ⊎ ((body : Exchange) × (answer ≡ ok body)
          × (token ≡ body.token)
          × (tm'.access_token ≡ body.token)
          × (tm.bootstrap_token ≢ ""))

  -- Either a token that is not empty, or an error that leaves the manager as it was.
  record IsServed (r : Result String × TokenManager) : Type 0 where
    token : (t : String) → r.0 ≡ ok t → (t ≢ "") × IsGood t r.1
    failure : (e : Error) → r.0 ≡ err e → (r.1 ≡ tm) × (IsFresh tm skew now → ⊥)

  not_fresh : is_fresh tm skew now ≡ false → IsFresh tm skew now → ⊥
  not_fresh stale fresh = let up = (is_fresh_iff tm skew now).1 fresh in cc

  exchanged :
      (found : Result Exchange)
      → exchange_worker_token answer ≡ found
      → is_fresh tm skew now ≡ false
      → tm.bootstrap_token ≢ ""
      → IsServed (after_exchange tm found later)
  exchanged (err e) same stale boot = record {
    token = λ t u. cc;
    failure = λ e' u. (refl, not_fresh stale);
  }
  exchanged (ok body) same stale boot =
      let (full, given) = answered answer body same in
      record {
        token = λ t u. (λ e. full (cc), inr (body, given, cc, refl, boot));
        failure = λ e' u. cc;
      }

  get_token-IsServed : IsServed (get_token tm skew now answer later)
  unfolding get_token
  get_token-IsServed =
      if_split IsServed (is_fresh tm skew now)
        (λ fresh. record {
          token = λ t u. (
            λ e. ((is_fresh_iff tm skew now).0 fresh).0 (cc),
            inl (cc, refl, inl ((is_fresh_iff tm skew now).0 fresh)),
          );
          failure = λ e u. cc;
        })
        (λ stale.
          if_split IsServed (tm.bootstrap_token == "")
            (λ none_left.
              if_split IsServed (tm.access_token == "")
                (λ blank. record { token = λ t u. cc; failure = λ e u. (refl, not_fresh stale) })
                (λ full. record {
                  token = λ t u. (
                    λ e. ground (arith, eq_iff tm.access_token "", full, u, e),
                    inl (cc, refl, inr ((eq_iff tm.bootstrap_token "").0 none_left)),
                  );
                  failure = λ e u. cc;
                }))
            (λ boot.
              exchanged (exchange_worker_token answer) refl stale
                (λ e. ground (arith, eq_iff tm.bootstrap_token "", boot, e))))

  -- A token that the manager hands out is never empty. It is the token at hand, which then has no end,
  -- or ends later than the margin from now, or has nothing to be exchanged for; or it has just been
  -- exchanged and is kept. An error leaves the manager as it was, and comes only where there is no token
  -- at hand, or it ends within the margin. The margin is two minutes where none is given.
  pub get_token_lem :
      let r = get_token tm skew now answer later in
      ((t : String) → r.0 ≡ ok t → (t ≢ "") × IsGood t r.1)
      × ((e : Error) → r.0 ≡ err e → (r.1 ≡ tm) × (IsFresh tm skew now → ⊥))
  get_token_lem = let s = get_token-IsServed in (s.token, s.failure)
