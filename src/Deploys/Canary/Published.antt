-- ===== src/Deploys/Canary/Published.antt =====
-- What a promotion makes of the routes that a rule publishes.
use releasea_worker.Prelude.{
  String, true, false, [], ◌∷◌, map, ◌≡◌, refl, eq_refl, arith, if◌then◌else◌, lookup, insert,
  remove, trim_space, to_lower,
}
use releasea_worker.Prelude.Int.{ℤ, pos, ◌<ℤ◌, ltb_ℤ, leb_ℤ, ◌-ℤ◌}
use releasea_worker.Models.Payload.{Value, num, str, object}
use releasea_worker.Models.Service.{ServicePayload}
use releasea_worker.Shared.KubeName.Laws.{IsKube}
use releasea_worker.Deploys.Hints.{string_value}
use releasea_worker.Rules.Names.{local_host}
use releasea_worker.Rules.Routes.{build_route_destination, build_strategy_destinations}
use releasea_worker.Deploys.Canary.{
  take_in, whole, stable_host, shift_entries, shift_weighted_route,
}
use releasea_worker.Deploys.Canary.Hosts.{
  trim_space_of_IsHost, stable-IsHost, host_of_canary, canary_host-IsHost, stable_host-lem,
  canary_host-lem, stable_host-full,
}

abbrev to_host : String → ℤ → ℤ → Value
to_host host port w = object (
    ("destination", object (("host", str host) ∷ ("port", object (("number", num port) ∷ [])) ∷ []))
    ∷ ("weight", num w)
    ∷ [])

module _ (sprint : Value → String) (service_name namespace : String) (name : IsKube service_name)
    (space : IsKube namespace) where
  abbrev stable : String
  stable = stable_host sprint service_name namespace

  abbrev canary : String
  canary = host_of_canary service_name namespace

  merged :
      (port v w : ℤ)
      → shift_weighted_route sprint service_name namespace
          (to_host stable port v ∷ to_host canary port w ∷ [])
        ≡ to_host stable port (pos 100) ∷ []
  unfolding shift_weighted_route shift_entries take_in whole string_value lookup insert remove
  merged port v w =
      rw
        (
          trim_space_of_IsHost stable (stable-IsHost sprint service_name namespace name space),
          trim_space_of_IsHost canary (canary_host-IsHost sprint service_name namespace name space),
          stable_host-lem sprint service_name namespace name space,
          canary_host-lem sprint service_name namespace name space,
          stable_host-full sprint service_name namespace name space,
          eq_refl stable,
        )
        refl

  -- A promotion turns the routes that a rule publishes for a canary service with a share into the one
  -- route of a service whose stable workload has all the traffic. The service and the namespace have
  -- names of small letters, digits and dashes.
  pub shift_weighted_route-build_strategy_destinations :
      (service : ServicePayload) (port : ℤ)
      → to_lower (trim_space service.deployment_strategy.kind) ≡ "canary"
      → pos 0 <ℤ service.deployment_strategy.canary_percent
      → shift_weighted_route sprint service_name namespace
          (map object (build_strategy_destinations service service_name namespace port))
        ≡ object (build_route_destination (local_host service_name namespace) port (pos 100)) ∷ []
  unfolding build_strategy_destinations build_route_destination
  shift_weighted_route-build_strategy_destinations service port kind share =
      let percent = service.deployment_strategy.canary_percent in
      let percent' = if ltb_ℤ (pos 50) percent then pos 50 else percent in
      let some_share : leb_ℤ percent (pos 0) ≡ false = ground (arith, share) in
      let rest : ltb_ℤ (pos 0) (pos 100 -ℤ percent') ≡ true = ground (arith, share) in
      let part : ltb_ℤ (pos 0) percent' ≡ true = ground (arith, share) in
      rw (kind, some_share, rest, part) (merged port (pos 100 -ℤ percent') percent')
