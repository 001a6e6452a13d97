-- ===== src/Rules/Cluster/Adds.antt =====
-- Which calls a run adds to the log.
use releasea_worker.Prelude.{Option, [], ◌∷◌, ◌++◌, ◌≡◌, refl, sym, ap, ◌∙◌, All, All-append}
use mathlib.Core.List.{append_assoc}
use releasea_worker.Models.Failure.{Error, Result, ok, err}
use releasea_worker.Rules.Cluster.{
  ClusterCall, CallEntry, Log, Surroundings, Act, continue, ◌>>=◌, ◌>>◌, perform,
}

-- The run makes calls that are all as `Q` says.
module _ (Q : CallEntry → Type 0) where
  abbrev pub Adds : Log → Log → Type 0
  Adds log log' = (added : Log) × (log' ≡ added ++ log) × All Q added

  pub Adds-trans : {a b c : Log} → Adds a b → Adds b c → Adds a c
  Adds-trans {a} {b} {c} (xs, e, h) (ys, f, k) = (
    ys ++ xs,
    f ∙ ap (λ (l : Log). ys ++ l) e ∙ sym (append_assoc ys xs a),
    All-append Q ys xs k h,
  )

  abbrev pub AddsAlways : {A : Type 0} → Act A → Type 0
  AddsAlways m = (log : Log) → Adds log (m log).1

  -- What comes next is looked at with the result that it is given.
  pub Adds-then :
      {A B : Type 0} (m : Act A) (k : A → Act B) (log : Log)
      → Adds log (m log).1
      → ((x : A) → (m log).0 ≡ ok x → Adds (m log).1 (k x (m log).1).1)
      → Adds log ((m >>= k) log).1
  Adds-then {A} m k log h i = by_result (m log).0 refl
    where
      by_result : (r : Result A) → (m log).0 ≡ r → Adds log (continue r k (m log).1).1
      by_result (ok x) e = Adds-trans h (i x e)
      by_result (err f) e = h

  pub Adds-bind : (m k : Act (Unit {0})) → AddsAlways m → AddsAlways k → AddsAlways (m >> k)
  Adds-bind m k h i log = Adds-then m (λ u. k) log (h log) (λ x e. i (m log).1)

  pub Adds-perform :
      (env : Surroundings) (call : ClusterCall)
      → ((failure : Option Error) → Q (record { call = call; failure = failure }))
      → AddsAlways (perform env call)
  unfolding perform
  Adds-perform env call h log = (
    record { call = call; failure = env.reply log call } ∷ [],
    refl,
    (h (env.reply log call), tt),
  )
