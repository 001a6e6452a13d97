-- ===== src/Deploys/Canary/Promote/Order.antt =====
-- The order of the calls of a promotion.
use releasea_worker.Prelude.{
  String, Bool, true, false, Option, none, some, List, [], ◌∷◌, ◌≡◌, refl, ◌⊎◌, inl, inr, All,
}
use releasea_worker.Models.Payload.{Value, Payload}
use releasea_worker.Models.Failure.{Error, Result, ok, err, new_error}
use releasea_worker.Rules.Cluster.{
  apply, CallEntry, Log, Act, continue, ◌>>◌, outcome, apply_resource,
}
use releasea_worker.Rules.Cluster.Adds.{Adds, AddsAlways, Adds-then, Adds-bind, Adds-perform}
use releasea_worker.Rules.Guard.Kept.{IsDue, cleanup_unused_strategy_workloads-IsDue}
use releasea_worker.Deploys.Canary.{promote_canary_virtual_service}
use releasea_worker.Deploys.Canary.Promote.{
  Promotion, listed, wrapping, wrapped_result, canary_name, shift_one, shift_each,
  shift_published_canary_traffic, remains, stop_if_remains, check_published, await_rollout,
  move_traffic, remove_canary, await_retired, promote_canary,
}

unwrapped :
    {A : Type 0} (text : String) (r : Result A) (a : A) → wrapped_result text r ≡ ok a → r ≡ ok a
unwrapped text (ok b) a e = e
unwrapped text (err f) a e = cc

succeeded : (o : Option Error) (u : Unit {0}) → outcome o ≡ ok u → o ≡ none
succeeded none u e = refl
succeeded (some f) u e = cc

module _ (sprint : Value → String) (env : Promotion) (namespace service_name : String)
    (deployment service : Payload) (log : Log) where
  -- After the stable deployment has been applied, and after the traffic has been moved.
  abbrev applied : Log
  applied = (apply_resource env.cluster deployment log).1

  abbrev moved : Log
  moved = (move_traffic sprint env namespace service_name service applied).1

  abbrev Rolled : Type 0
  Rolled = env.rollout applied namespace service_name ≡ none

  abbrev Cleared : Type 0
  Cleared =
      (services : List Payload) × (env.cluster.virtual_services moved namespace ≡ ok services)
      × (remains sprint env namespace service_name services ≡ false)

  abbrev IsApply : CallEntry → Type 0
  IsApply e = (resource : Payload) × (e.call ≡ apply resource)

  -- Nothing but the stable deployment is applied before it has been rolled out, and nothing is deleted
  -- before the published traffic was seen off the canary; what is deleted is a workload, or its service,
  -- of another strategy, to which nothing leads.
  abbrev pub IsJustified : CallEntry → Type 0
  IsJustified e =
      (e.call ≡ apply deployment)
      ⊎ ((Rolled × IsApply e)
          ⊎ (Rolled × Cleared × IsDue sprint env.cluster namespace service_name "rolling" moved e))

  abbrev Justified : {A : Type 0} → Act A → Type 0
  Justified m = AddsAlways IsJustified m

  apply-Justified : Rolled → (resource : Payload) → Justified (apply_resource env.cluster resource)
  apply-Justified rolled resource =
      Adds-perform IsJustified env.cluster (apply resource)
        (λ f. inr (inl (rolled, (resource, refl))))

  shift_one-Justified :
      Rolled → (r : Payload × Bool) → Justified (shift_one sprint env namespace service_name r)
  shift_one-Justified rolled (vs, false) l = ([], refl, tt)
  shift_one-Justified rolled (vs, true) l = apply-Justified rolled _ l

  shift_each-Justified :
      Rolled
      → (services : List Payload)
      → Justified (shift_each sprint env namespace service_name services)
  unfolding shift_each
  shift_each-Justified rolled [] = λ l. ([], refl, tt)
  shift_each-Justified rolled (vs ∷ rest) =
      Adds-bind IsJustified
        (shift_one sprint env namespace service_name
          (promote_canary_virtual_service sprint service_name namespace vs))
        (shift_each sprint env namespace service_name rest) (shift_one-Justified rolled _)
        (shift_each-Justified rolled rest)

  published-Justified :
      Rolled → Justified (shift_published_canary_traffic sprint env namespace service_name)
  unfolding shift_published_canary_traffic
  published-Justified rolled l =
      Adds-then IsJustified (listed sprint env namespace service_name)
        (shift_each sprint env namespace service_name) l ([], refl, tt)
        (λ services e. shift_each-Justified rolled services l)

  moving : Rolled → Adds IsJustified applied moved
  moving rolled =
      Adds-then IsJustified (wrapping "apply stable service: " (apply_resource env.cluster service))
        (λ u. shift_published_canary_traffic sprint env namespace service_name) applied
        (apply-Justified rolled service applied) (λ u e. published-Justified rolled _)

  weaken :
      Rolled
      → Cleared
      → (es : List CallEntry)
      → All (IsDue sprint env.cluster namespace service_name "rolling" moved) es
      → All IsJustified es
  weaken rolled cleared [] h = tt
  weaken rolled cleared (e ∷ es) h =
      (inr (inr (rolled, cleared, h.0)), weaken rolled cleared es h.1)

  removing :
      Rolled
      → Cleared
      → Adds IsJustified moved (remove_canary sprint env namespace service_name moved).1
  removing rolled cleared =
      let (es, e, h) =
        cleanup_unused_strategy_workloads-IsDue sprint env.cluster namespace service_name "rolling"
          moved in
      (es, e, weaken rolled cleared es h)

  abbrev check : Result (Unit {0}) × Log
  check = check_published sprint env namespace service_name moved

  checked : ((check ≡ (ok tt, moved)) × Cleared) ⊎ ((e : Error) × (check ≡ (err e, moved)))
  unfolding check_published
  checked = by_list (env.cluster.virtual_services moved namespace) refl
    where
      stop : List Payload → Act (Unit {0})
      stop = stop_if_remains sprint env namespace service_name

      by_remains :
          (services : List Payload) (b : Bool)
          → remains sprint env namespace service_name services ≡ b
          → env.cluster.virtual_services moved namespace ≡ ok services
          → ((stop services moved ≡ (ok tt, moved)) × Cleared)
            ⊎ ((e : Error) × (stop services moved ≡ (err e, moved)))
      by_remains services true r e =
          inr (new_error "published traffic still references the canary", rw r refl)
      by_remains services false r e = inl (rw r refl, (services, e, r))

      by_list :
          (r : Result (List Payload))
          → env.cluster.virtual_services moved namespace ≡ r
          → ((continue r stop moved ≡ (ok tt, moved)) × Cleared)
            ⊎ ((e : Error) × (continue r stop moved ≡ (err e, moved)))
      by_list (err f) e = inr (f, refl)
      by_list (ok services) e = by_remains services _ refl e

  abbrev finish : Act (Unit {0})
  finish =
      remove_canary sprint env namespace service_name
      >> await_retired sprint env namespace service_name

  abbrev unpublish : Act (Unit {0})
  unpublish = check_published sprint env namespace service_name >> finish

  abbrev shift : Act (Unit {0})
  shift = move_traffic sprint env namespace service_name service >> unpublish

  abbrev promotion : Act (Unit {0})
  promotion = promote_canary sprint env namespace service_name deployment service

  finishing : Rolled → Cleared → Adds IsJustified moved (finish moved).1
  finishing rolled cleared =
      Adds-then IsJustified (remove_canary sprint env namespace service_name)
        (λ u. await_retired sprint env namespace service_name) moved (removing rolled cleared)
        (λ u e. ([], refl, tt))

  unpublishing : Rolled → Adds IsJustified moved (unpublish moved).1
  unpublishing rolled = elim checked [
    | inl (same, cleared) ↦ rw same (finishing rolled cleared)
    | inr (e, same) ↦ rw same ([], refl, tt)
  ]

  -- The wait for the canary's pods came to its end.
  abbrev Retires : Act (Unit {0}) → Type 0
  Retires m =
      (l : Log)
      → (m l).0 ≡ ok tt
      → env.retired (m l).1 namespace (canary_name sprint env namespace service_name ∷ []) ≡ none

  Retires-then : (m k : Act (Unit {0})) → Retires k → Retires (m >> k)
  Retires-then m k h l = by_result (m l).0
    where
      by_result :
          (r : Result (Unit {0}))
          → (continue r (λ u. k) (m l).1).0 ≡ ok tt
          → env.retired
              (continue r (λ u. k) (m l).1).1
              namespace
              (canary_name sprint env namespace service_name ∷ [])
            ≡ none
      by_result (ok u) e = h (m l).1 e
      by_result (err f) e = cc

  await-Retires : Retires (await_retired sprint env namespace service_name)
  await-Retires l e = succeeded _ tt (unwrapped _ _ tt e)

  unpublish-Retires : Retires unpublish
  unpublish-Retires = Retires-then (check_published sprint env namespace service_name) finish (
      Retires-then (remove_canary sprint env namespace service_name)
        (await_retired sprint env namespace service_name) await-Retires)

  promotion-Retires : Retires promotion
  unfolding promote_canary
  promotion-Retires =
      Retires-then (wrapping "apply stable deployment: " (apply_resource env.cluster deployment))
        (await_rollout sprint env namespace service_name >> shift)
        (Retires-then (await_rollout sprint env namespace service_name) shift (
          Retires-then (move_traffic sprint env namespace service_name service) unpublish
            unpublish-Retires))

  -- Whatever the cluster and the API answer, a promotion applies nothing but the stable deployment before
  -- that has been rolled out. It deletes something only after a look at all published routes found none
  -- that leads to the canary, and then only a workload, or its service, of another strategy, to which
  -- nothing leads. It fails, or the canary has been seen gone.
  pub promote_canary-IsJustified :
      Adds IsJustified log (promotion log).1
      × (((e : Error) × ((promotion log).0 ≡ err e))
          ⊎ (env.retired
                (promotion log).1
                namespace
                (canary_name sprint env namespace service_name ∷ [])
              ≡ none))
  unfolding promote_canary
  promote_canary-IsJustified = (
    Adds-then IsJustified
        (wrapping "apply stable deployment: " (apply_resource env.cluster deployment))
        (λ u. await_rollout sprint env namespace service_name >> shift) log
        (Adds-perform IsJustified env.cluster (apply deployment) (λ f. inl refl) log)
        (λ u e.
          Adds-then IsJustified (await_rollout sprint env namespace service_name) (λ u. shift)
            applied ([], refl, tt)
            (λ u e.
              let rolled = succeeded _ u (unwrapped _ _ u e) in
              Adds-then IsJustified (move_traffic sprint env namespace service_name service)
                (λ u. unpublish) applied (moving rolled) (λ u e. unpublishing rolled))),
    failed_or_retired (promotion log).0 refl,
  )
    where
      failed_or_retired :
          (r : Result (Unit {0}))
          → (promotion log).0 ≡ r
          → ((e : Error) × ((promotion log).0 ≡ err e))
            ⊎ (env.retired
                  (promotion log).1
                  namespace
                  (canary_name sprint env namespace service_name ∷ [])
                ≡ none)
      failed_or_retired (ok tt) e = inr (promotion-Retires log e)
      failed_or_retired (err f) e = inl (f, e)
