-- ===== src/Workers/PoolControl/Loads.antt =====
-- What the cache answers over any sequence of calls.
use releasea_worker.Prelude.{
  ℕ, ◌+◌, ◌-◌, ◌<◌, ◌≤◌, ltb, true, false, ◌&&◌, ◌≡◌, refl, ◌⊎◌, inl, inr, arith, List, [], ◌∷◌,
  All, if_split,
}
use mathlib.Core.Path.{subst}
use releasea_worker.Models.Failure.{Error, Result, ok, err}
use releasea_worker.Workers.PoolControl.{PoolControl, Cache, pool_control_cache_ttl, load, get}

-- One call of `get`: the time, what a request would return, and the time after it.
pub record Ask : Type 0 where
  pub now : ℕ
  pub fetched : Result PoolControl
  pub later : ℕ

abbrev ask : Cache → Ask → Result PoolControl × Cache
ask c a = get c a.now a.fetched a.later

-- The cache after the asks of the list, of which the newest stands first.
unfoldable pub asked : Cache → List Ask → Cache
asked c [] = c
asked c (a ∷ past) = (ask (asked c past) a).1

-- The request would fail.
abbrev pub Fails : Ask → Type 0
Fails a = (e : Error) × (a.fetched ≡ err e)

-- The ask makes no new load, after one at that time: it comes within the limit, or its request fails.
abbrev pub Keeps : ℕ → Ask → Type 0
Keeps loaded_at a = (a.now < loaded_at + pool_control_cache_ttl) ⊎ Fails a

-- The last load of the asks was of that value and ended at that time. A load is made where no ask has
-- made one before, or the last one is past the limit.
abbrev pub LastLoad : PoolControl → ℕ → List Ask → Type 0
LastLoad v t [] = ⊥
LastLoad v t (a ∷ past) =
    ((a.fetched ≡ ok v)
      × (a.later ≡ t)
      × (All Fails past
          ⊎ ((u : PoolControl) × (r : ℕ) × LastLoad u r past
              × (r + pool_control_cache_ttl ≤ a.now))))
    ⊎ (LastLoad v t past × Keeps t a)

-- What the cache holds is the last load, and it holds nothing only if every request so far has failed.
abbrev Remembers : Cache → List Ask → Type 0
Remembers c past =
    ((c.has_value ≡ false) × All Fails past)
    ⊎ ((c.has_value ≡ true) × LastLoad c.value c.loaded_at past)

-- What an answer is, after those asks.
record Answers (past : List Ask) (a : Ask) (r : Result PoolControl × Cache) : Type 0 where
  value :
      (v : PoolControl)
      → r.0 ≡ ok v
      → ((a.fetched ≡ ok v)
          × (All Fails past
              ⊎ ((u : PoolControl) × (t : ℕ) × LastLoad u t past
                  × (t + pool_control_cache_ttl ≤ a.now))))
        ⊎ ((t : ℕ) × LastLoad v t past × Keeps t a)
  failure : (e : Error) → r.0 ≡ err e → All Fails past × (a.fetched ≡ err e)
  remembers : Remembers r.1 (a ∷ past)

load-Answers :
    (past : List Ask) (a : Ask) (c : Cache) (fetched : Result PoolControl)
    → a.fetched ≡ fetched
    → ((c.has_value ≡ false) × All Fails past)
      ⊎ ((c.has_value ≡ true)
          × LastLoad c.value c.loaded_at past
          × (c.loaded_at + pool_control_cache_ttl ≤ a.now))
    → Answers past a (load c fetched a.later)
unfolding load
load-Answers past a c (ok control) same (inl (none_yet, fails)) = record {
  value = λ v e. inl (cc, inl fails);
  failure = λ e u. cc;
  remembers = inr (refl, inl (same, refl, inl fails));
}
load-Answers past a c (ok control) same (inr (held, last, old)) = record {
  value = λ v e. inl (cc, inr (c.value, c.loaded_at, last, old));
  failure = λ e u. cc;
  remembers = inr (refl, inl (same, refl, inr (c.value, c.loaded_at, last, old)));
}
load-Answers past a c (err e) same (inl (none_yet, fails)) =
    if_split (Answers past a) c.has_value (λ held. absurd (ground (arith, held, none_yet)))
      (λ empty. record {
        value = λ v u. cc;
        failure = λ e' u. (fails, cc);
        remembers = inl (none_yet, ((e, same), fails));
      })
load-Answers past a c (err e) same (inr (held, last, old)) =
    if_split (Answers past a) c.has_value
      (λ yes. record {
        value = λ v u.
            inr (c.loaded_at, subst (λ w. LastLoad w c.loaded_at past) (cc) last, inr (e, same));
        failure = λ e' u. cc;
        remembers = inr (held, inr (last, inr (e, same)));
      })
      (λ empty. absurd (ground (arith, held, empty)))

ask-Answers : (past : List Ask) (a : Ask) (c : Cache) → Remembers c past → Answers past a (ask c a)
unfolding get
ask-Answers past a c (inl (none_yet, fails)) =
    if_split (Answers past a) (c.has_value && ltb (a.now - c.loaded_at) pool_control_cache_ttl)
      (λ young. absurd (ground (arith, young, none_yet)))
      (λ old. load-Answers past a c a.fetched refl (inl (none_yet, fails)))
ask-Answers past a c (inr (held, last)) =
    if_split (Answers past a) (c.has_value && ltb (a.now - c.loaded_at) pool_control_cache_ttl)
      (λ young.
        let within : a.now < c.loaded_at + pool_control_cache_ttl = ground (arith, young) in
        record {
          value = λ v u.
              inr (c.loaded_at, subst (λ w. LastLoad w c.loaded_at past) (cc) last, inl within);
          failure = λ e u. cc;
          remembers = inr (held, inr (last, inl within));
        })
      (λ old. load-Answers past a c a.fetched refl (inr (held, last, ground (arith, old, held))))

asked-Remembers :
    (c : Cache) (past : List Ask) → c.has_value ≡ false → Remembers (asked c past) past
unfolding asked
asked-Remembers c [] empty = inl (empty, tt)
asked-Remembers c (a ∷ past) empty =
    (ask-Answers past a (asked c past) (asked-Remembers c past empty)).remembers

-- From a cache with no value and after any calls, what `get` answers is what a request returns, which is
-- made where no request has been successful yet or the last load is five seconds old or older; or it is
-- the value of the last load, while that is younger or where the request fails. It fails only if the
-- requests of this call and of all calls before it fail.
pub get_lem :
    (c : Cache) (past : List Ask) (now : ℕ) (fetched : Result PoolControl) (later : ℕ)
    → c.has_value ≡ false
    → let r = get (asked c past) now fetched later in
      ((v : PoolControl)
        → r.0 ≡ ok v
        → ((fetched ≡ ok v)
            × (All Fails past
                ⊎ ((u : PoolControl) × (t : ℕ) × LastLoad u t past
                    × (t + pool_control_cache_ttl ≤ now))))
          ⊎ ((t : ℕ) × LastLoad v t past
              × ((now < t + pool_control_cache_ttl) ⊎ ((e : Error) × (fetched ≡ err e)))))
      × ((e : Error) → r.0 ≡ err e → All Fails past × (fetched ≡ err e))
get_lem c past now fetched later empty =
    let a : Ask = record { now = now; fetched = fetched; later = later } in
    let s = ask-Answers past a (asked c past) (asked-Remembers c past empty) in (s.value, s.failure)
