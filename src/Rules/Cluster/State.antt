-- ===== src/Rules/Cluster/State.antt =====
-- What a run of calls makes of the cluster. A call that succeeds sets or removes its resource; what one
-- that fails leaves of its resource is not known, and is a parameter.
use releasea_worker.Prelude.{
  String, false, Option, none, some, [], ◌∷◌, ◌≡◌, refl, ap, ◌∙◌, eq_refl, if◌then◌else◌, lookup,
  insert,
}
use releasea_worker.Models.Payload.{Value, str, obj, Payload, fields, object}
use releasea_worker.Models.Failure.{Error, Result, ok, err}
use releasea_worker.Rules.Cluster.{
  ResourceId, same_id, ClusterCall, apply, delete, ensure_namespace, Log, Surroundings, Act,
  continue, ◌>>=◌, ◌>>◌, outcome, perform, resource_id,
}

abbrev pub State : Type 0
State = ResourceId → Option Payload

abbrev text : Option Value → String
text (some (str s)) = s
text _ = ""

abbrev entries : Option Value → Payload
entries (some (obj fs)) = fields fs
entries _ = []

-- Where a manifest is stored.
unfoldable pub id_of : Payload → ResourceId
unfolding lookup
id_of resource =
    let metadata = entries (lookup "metadata" resource) in
    resource_id (text (lookup "kind" resource)) (text (lookup "namespace" metadata))
      (text (lookup "name" metadata))

abbrev pub put : ResourceId → Option Payload → State → State
put id value state x = if same_id x id then value else state x

-- A namespace has no namespace itself.
abbrev pub namespace_id : String → ResourceId
namespace_id name = resource_id "Namespace" "" name

-- What `EnsureNamespace` makes of a namespace: it is created where there is none, and its label is set.
unfoldable pub labelled : String → Option Payload → Payload
labelled name none =
    ("apiVersion", str "v1")
    ∷ ("kind", str "Namespace")
    ∷ (
      "metadata",
      object
          (("name", str name) ∷ ("labels", object (("istio-injection", str "enabled") ∷ [])) ∷ []),
    )
    ∷ []
labelled name (some resource) =
    let metadata = entries (lookup "metadata" resource) in
    let labels = insert "istio-injection" (str "enabled") (entries (lookup "labels" metadata)) in
    insert "metadata" (object (insert "labels" (object labels) metadata)) resource

abbrev pub effect : (Log → Option Payload) → ClusterCall → Option Error → Log → State → State
effect torn (apply resource) none log = put (id_of resource) (some resource)
effect torn (delete id) none log = put id none
effect torn (apply resource) (some e) log = put (id_of resource) (torn log)
effect torn (delete id) (some e) log = put id (torn log)
effect torn (ensure_namespace name) none log =
    λ state. put (namespace_id name) (some (labelled name (state (namespace_id name)))) state
effect torn (ensure_namespace name) (some e) log = put (namespace_id name) (torn log)

unfoldable pub after : (Log → Option Payload) → Log → State → State
after torn [] state = state
after torn (e ∷ log) state = effect torn e.call e.failure log (after torn log state)

pub put_self :
    (id : ResourceId) (value : Option Payload) (state : State) → put id value state id ≡ value
put_self id value state = rw (eq_refl id.kind, eq_refl id.namespace, eq_refl id.name)

pub continue_ok :
    {A B : Type 0} (r : Result A) (f : A → Act B) (log : Log) {b : B}
    → (continue r f log).0 ≡ ok b
    → (a : A) × (r ≡ ok a)
continue_ok (ok a) f log h = (a, refl)
continue_ok (err e) f log h = cc

module _ (torn : Log → Option Payload) (start : State) where
  abbrev now : Log → State
  now log = after torn log start

  -- If the run succeeds, it changes the cluster by `f`.
  pub record Does (m : Act (Unit {0})) (f : State → State) : Type 0 where
    pub result : (log : Log) → (m log).0 ≡ ok tt → now (m log).1 ≡ f (now log)

  pub Does-bind :
      {m k : Act (Unit {0})} {f g : State → State}
      → Does m f
      → Does k g
      → Does (m >> k) (λ state. g (f state))
  Does-bind {m} {k} {f} {g} h i = record {
    result = λ log done. go log (m log).0 (m log).1 refl (h.result log) done;
  }
    where
      go :
          (log : Log) (r : Result (Unit {0})) (log' : Log)
          → (m log).0 ≡ r
          → ((m log).0 ≡ ok tt → now log' ≡ f (now log))
          → (continue r (λ _. k) log').0 ≡ ok tt
          → now (continue r (λ _. k) log').1 ≡ g (f (now log))
      go log (ok a) log' e h' d = i.result log' d ∙ ap g (h' (e ∙ refl))
      go log (err e') log' e h' d = cc

  pub Does-apply :
      (env : Surroundings) (resource : Payload)
      → Does (perform env (apply resource)) (put (id_of resource) (some resource))
  unfolding perform after
  Does-apply env resource = record {
    result = λ log done. go log (env.reply log (apply resource)) done;
  }
    where
      go :
          (log : Log) (f : Option Error)
          → outcome f ≡ ok tt
          → effect torn (apply resource) f log (now log)
            ≡ put (id_of resource) (some resource) (now log)
      go log none d = refl
      go log (some e) d = cc

  pub Does-delete :
      (env : Surroundings) (id : ResourceId) → Does (perform env (delete id)) (put id none)
  unfolding perform after
  Does-delete env id = record { result = λ log done. go log (env.reply log (delete id)) done }
    where
      go :
          (log : Log) (f : Option Error)
          → outcome f ≡ ok tt
          → effect torn (delete id) f log (now log) ≡ put id none (now log)
      go log none d = refl
      go log (some e) d = cc

  -- Whether it succeeds or not, the run leaves the resources of `P` as they were.
  module _ (P : ResourceId → Type 0) where
    pub record Spares {A : Type 0} (m : Act A) : Type 0 where
      pub same : (log : Log) (x : ResourceId) → P x → now (m log).1 x ≡ now log x

    pub Spares-bind :
        {A B : Type 0} {m : Act A} {f : A → Act B}
        → Spares m
        → ((a : A) → Spares (f a))
        → Spares (m >>= f)
    Spares-bind {A} {m = m} {f = f} h i = record {
      same = λ log x p. go x p (m log).0 (m log).1 ∙ h.same log x p;
    }
      where
        go :
            (x : ResourceId)
            → P x
            → (r : Result A) (log' : Log) → now (continue r f log').1 x ≡ now log' x
        go x p (ok a) log' = (i a).same log' x p
        go x p (err e) log' = refl

    pub Spares-apply :
        (env : Surroundings) (resource : Payload)
        → ((x : ResourceId) → P x → same_id x (id_of resource) ≡ false)
        → Spares (perform env (apply resource))
    unfolding perform after
    Spares-apply env resource h = record {
      same = λ log x p. go log x p (env.reply log (apply resource));
    }
      where
        go :
            (log : Log) (x : ResourceId)
            → P x
            → (f : Option Error) → effect torn (apply resource) f log (now log) x ≡ now log x
        go log x p none = rw (h x p)
        go log x p (some e) = rw (h x p)

    pub Spares-delete :
        (env : Surroundings) (id : ResourceId)
        → ((x : ResourceId) → P x → same_id x id ≡ false)
        → Spares (perform env (delete id))
    unfolding perform after
    Spares-delete env id h = record { same = λ log x p. go log x p (env.reply log (delete id)) }
      where
        go :
            (log : Log) (x : ResourceId)
            → P x
            → (f : Option Error) → effect torn (delete id) f log (now log) x ≡ now log x
        go log x p none = rw (h x p)
        go log x p (some e) = rw (h x p)

    pub Spares-ensure :
        (env : Surroundings) (name : String)
        → ((x : ResourceId) → P x → same_id x (namespace_id name) ≡ false)
        → Spares (perform env (ensure_namespace name))
    unfolding perform after
    Spares-ensure env name h = record {
      same = λ log x p. go log x p (env.reply log (ensure_namespace name));
    }
      where
        go :
            (log : Log) (x : ResourceId)
            → P x
            → (f : Option Error) → effect torn (ensure_namespace name) f log (now log) x ≡ now log x
        go log x p none = rw (h x p)
        go log x p (some e) = rw (h x p)
