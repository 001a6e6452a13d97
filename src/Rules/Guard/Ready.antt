-- ===== src/Rules/Guard/Ready.antt =====
-- Where the routes of a rule lead once the guard has looked at the workloads.
use releasea_worker.Prelude.{
  String, Bool, true, false, ◌&&◌, ◌||◌, ◌⧺◌, ◌≡◌, refl, sym, ◌⊎◌, inl, inr, ap, ◌∙◌, ◌==◌, arith,
  if_split, All, trim_space, to_lower, equal_fold,
}
use releasea_worker.Prelude.Int.{ℤ, pos, leb_ℤ}
use releasea_worker.Models.Payload.{Payload}
use releasea_worker.Models.Failure.{Result, ok, err}
use releasea_worker.Models.Service.{ServicePayload}
use releasea_worker.Shared.Strategy.{
  normalize_type, resolve_blue_green_slots, resolve_blue_green_slots_stable,
}
use releasea_worker.Rules.Names.{local_host}
use releasea_worker.Rules.Routes.{build_route_destination, build_strategy_destinations}
use releasea_worker.Rules.Cluster.{Log, Surroundings, resource_id}
use releasea_worker.Rules.Guard.{
  resolve_deploy_strategy_type, workload_target_ready, only_stable, with_primary, without_slots,
  guard_canary, guard_secondary, guard_primary, normalize_for_availability,
}

abbrev lowered : ServicePayload → String
lowered service = to_lower (trim_space service.deployment_strategy.kind)

abbrev primary_of : ServicePayload → String
primary_of service = (resolve_blue_green_slots service.deployment_strategy.blue_green_primary).0

abbrev secondary_of : ServicePayload → String
secondary_of service = (resolve_blue_green_slots service.deployment_strategy.blue_green_primary).1

module _ (env : Surroundings) (log : Log) (namespace service_name : String) (port : ℤ) where
  abbrev ready : String → Result Bool
  ready name = workload_target_ready env log namespace name

  abbrev slot : String → String
  slot color = service_name ⧺ "-" ⧺ color

  -- Neither slot is ready, and there is no service to fall back to.
  abbrev pub NothingLeft : ServicePayload → Type 0
  NothingLeft service =
      (ready (slot (primary_of service)) ≡ ok false)
      × (ready (slot (secondary_of service)) ≡ ok false)
      × (env.exists log (resource_id "Service" namespace service_name) ≡ ok false)

  -- The destination is the stable workload, or one that is ready.
  abbrev pub IsLed : Type 0 → Payload → Type 0
  IsLed exception d =
      (workload : String) × (weight : ℤ) × (d
        ≡ build_route_destination (local_host workload namespace) port weight)
      × ((workload ≡ service_name) ⊎ ((ready workload ≡ ok true) ⊎ exception))

  abbrev AllLed : Type 0 → ServicePayload → Type 0
  AllLed exception service =
      All (IsLed exception) (build_strategy_destinations service service_name namespace port)

  canary-AllLed :
      (E : Type 0) (service : ServicePayload)
      → (lowered service == "canary") ≡ true
      → (leb_ℤ service.deployment_strategy.canary_percent (pos 0) ≡ true)
        ⊎ (ready (service_name ⧺ "-canary") ≡ ok true)
      → AllLed E service
  unfolding build_strategy_destinations
  canary-AllLed E service c h = rw c (
      if_split (All (IsLed E)) (leb_ℤ service.deployment_strategy.canary_percent (pos 0))
        (λ e. ((service_name, pos 100, refl, inl refl), tt))
        (λ e. (
          (service_name, _, refl, inl refl),
          ((service_name ⧺ "-canary", _, refl, inr (inl (elim h [ inl u ↦ cc | inr r ↦ r ]))), tt),
        )))

  blue_green-AllLed :
      (E : Type 0) (service : ServicePayload)
      → (lowered service == "canary") ≡ false
      → (lowered service == "blue-green") ≡ true
      → (ready (slot (primary_of service)) ≡ ok true) ⊎ E
      → AllLed E service
  unfolding build_strategy_destinations
  blue_green-AllLed E service c b h =
      rw (c, b) ((slot (primary_of service), pos 100, refl, inr h), tt)

  other-AllLed :
      (E : Type 0) (service : ServicePayload)
      → (lowered service == "canary") ≡ false
      → (lowered service == "blue-green") ≡ false
      → AllLed E service
  unfolding build_strategy_destinations
  other-AllLed E service c b = rw (c, b) ((service_name, pos 100, refl, inl refl), tt)

  guard_canary-AllLed :
      (E : Type 0) (service : ServicePayload) (stable canary : Result Bool)
      → ready (service_name ⧺ "-canary") ≡ canary
      → (lowered service == "canary") ≡ true
      → (s : Bool) × (stable ≡ ok s)
      → (k : Bool) × (canary ≡ ok k)
      → AllLed E (guard_canary service stable canary)
  guard_canary-AllLed E service (err e) canary same c s k = cc (s.1)
  guard_canary-AllLed E service (ok s) (err e) same c _ k = cc (k.1)
  guard_canary-AllLed E service (ok s) (ok k) same c _ _ =
      if_split (AllLed E) (s && k)
        (λ both. canary-AllLed E service c (inr (same ∙ ap ok (ground (arith, both)))))
        (λ e. canary-AllLed E (only_stable service) c (inl refl))

  -- The slots of a service that has been moved to its other slot.
  moved :
      (service : ServicePayload)
      → primary_of (with_primary service (secondary_of service)) ≡ secondary_of service
  moved service =
      ap (λ (p : String × String). p.0)
        (resolve_blue_green_slots_stable service.deployment_strategy.blue_green_primary).2

  without_slots-AllLed : (E : Type 0) (service : ServicePayload) → AllLed E (without_slots service)
  unfolding to_lower trim_space
  without_slots-AllLed E service = other-AllLed E (without_slots service) refl refl

  guard_secondary-AllLed :
      (service : ServicePayload) (secondary canonical : Bool)
      → (lowered service == "canary") ≡ false
      → (lowered service == "blue-green") ≡ true
      → ready (slot (primary_of service)) ≡ ok false
      → ready (slot (secondary_of service)) ≡ ok secondary
      → env.exists log (resource_id "Service" namespace service_name) ≡ ok canonical
      → AllLed
          (NothingLeft service)
          (guard_secondary service (secondary_of service) (ok secondary) (ok canonical))
  guard_secondary-AllLed service true canonical c b first second there =
      blue_green-AllLed _ (with_primary service (secondary_of service)) c b
        (inl (ap (λ (color : String). ready (slot color)) (moved service) ∙ second))
  guard_secondary-AllLed service false true c b first second there = without_slots-AllLed _ service
  guard_secondary-AllLed service false false c b first second there =
      blue_green-AllLed _ service c b (inr (first, second, there))

  guard_primary-AllLed :
      (service : ServicePayload) (primary secondary canonical : Bool)
      → (lowered service == "canary") ≡ false
      → (lowered service == "blue-green") ≡ true
      → ready (slot (primary_of service)) ≡ ok primary
      → ready (slot (secondary_of service)) ≡ ok secondary
      → env.exists log (resource_id "Service" namespace service_name) ≡ ok canonical
      → AllLed
          (NothingLeft service)
          (guard_primary service (secondary_of service) (ok primary) (ok secondary) (ok canonical))
  guard_primary-AllLed service true secondary canonical c b first second there =
      blue_green-AllLed _ service c b (inl first)
  guard_primary-AllLed service false secondary canonical c b first second there =
      guard_secondary-AllLed service secondary canonical c b first second there

  guard_blue_green-AllLed :
      (service : ServicePayload) (primary secondary canonical : Result Bool)
      → (lowered service == "canary") ≡ false
      → (lowered service == "blue-green") ≡ true
      → ready (slot (primary_of service)) ≡ primary
      → ready (slot (secondary_of service)) ≡ secondary
      → env.exists log (resource_id "Service" namespace service_name) ≡ canonical
      → (p : Bool) × (primary ≡ ok p)
      → (s : Bool) × (secondary ≡ ok s)
      → (there : Bool) × (canonical ≡ ok there)
      → AllLed
          (NothingLeft service)
          (guard_primary service (secondary_of service) primary secondary canonical)
  guard_blue_green-AllLed service (ok p) (ok s) (ok t) c b first second there u v w =
      guard_primary-AllLed service p s t c b first second there
  guard_blue_green-AllLed service (err e) s t c b first second there u v w = cc (u.1)
  guard_blue_green-AllLed service (ok p) (err e) t c b first second there u v w = cc (v.1)
  guard_blue_green-AllLed service (ok p) (ok s) (err e) c b first second there u v w = cc (w.1)

  -- The guard's strategy is the one that the routes go by, but for a cron job's template.
  same_strategy :
      (service : ServicePayload) (target : String)
      → equal_fold service.deploy_template_id "tpl-cronjob" ≡ false
      → ("rolling" == target) ≡ false
      → ((lowered service == "canary"
              || lowered service == "blue-green"
              || lowered service == "rolling")
            ≡ false
          → (lowered service == target) ≡ false)
      → (resolve_deploy_strategy_type service == target) ≡ (lowered service == target)
  unfolding resolve_deploy_strategy_type normalize_type
  same_strategy service target h r k =
      if_split (λ s. (s == target) ≡ (lowered service == target))
        (equal_fold service.deploy_template_id "tpl-cronjob") (λ e. cc)
        (λ e.
          if_split (λ s. (s == target) ≡ (lowered service == target))
            (lowered service == "canary"
              || lowered service == "blue-green"
              || lowered service == "rolling")
            (λ f. refl) (λ f. r ∙ sym (k f)))

  -- Where every look at the cluster succeeds, each destination of the routes that are built after the
  -- guard is the service's own workload or one that was seen ready; the only exception is a blue-green
  -- service of which neither slot is ready and which has no service of its own name. The service is not
  -- of the cron job's template.
  pub normalize_for_availability-AllLed :
      (service : ServicePayload)
      → ((name : String) → (b : Bool) × (workload_target_ready env log namespace name ≡ ok b))
      → (there : Bool) × (env.exists log (resource_id "Service" namespace service_name) ≡ ok there)
      → equal_fold service.deploy_template_id "tpl-cronjob" ≡ false
      → All (IsLed (NothingLeft service)) (
          build_strategy_destinations
            (normalize_for_availability env log namespace service_name service)
            service_name
            namespace
            port)
  unfolding normalize_for_availability
  normalize_for_availability-AllLed service seen canonical template =
      let E = NothingLeft service in
      let canary_type = same_strategy service "canary" template refl (λ e. ground (arith, e)) in
      let blue_type = same_strategy service "blue-green" template refl (λ e. ground (arith, e)) in
      if_split (AllLed E) (resolve_deploy_strategy_type service == "canary")
        (λ c.
          if_split (AllLed E) (leb_ℤ service.deployment_strategy.canary_percent (pos 0))
            (λ e. canary-AllLed E service (sym canary_type ∙ c) (inl e))
            (λ e.
              guard_canary-AllLed E service _ _ refl (sym canary_type ∙ c) (seen service_name)
                (seen (service_name ⧺ "-canary"))))
        (λ c.
          if_split (AllLed E) (resolve_deploy_strategy_type service == "blue-green")
            (λ b.
              guard_blue_green-AllLed service _ _ _ (sym canary_type ∙ c) (sym blue_type ∙ b) refl
                refl refl (seen (slot (primary_of service))) (seen (slot (secondary_of service)))
                canonical)
            (λ b. other-AllLed E service (sym canary_type ∙ c) (sym blue_type ∙ b)))
