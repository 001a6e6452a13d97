-- ===== src/Deploys/Canary/Examples.antt =====
-- A shop whose canary has a tenth of the traffic, and the theorems at it.
use releasea_worker.Prelude.{
  String, true, false, ◌⧺◌, none, some, List, [], ◌∷◌, map, any, ◌≡◌, ◌≢◌, refl, ◌⊎◌, arith, length,
  lookup, insert, remove, trim_space, to_lower,
}
use releasea_worker.Prelude.Int.{ℤ, pos}
use releasea_worker.Models.Payload.{Value, num, str, Payload, object, array}
use releasea_worker.Models.Failure.{Error, ok, err}
use releasea_worker.Shared.KubeName.Laws.{IsKube}
use releasea_worker.Deploys.Hints.{map_value, string_value}
use releasea_worker.Rules.Cluster.Adds.{Adds}
use releasea_worker.Rules.Guard.{host_matches_workload_alias}
use releasea_worker.Rules.Names.{local_host}
use releasea_worker.Rules.Routes.{build_route_destination, build_strategy_destinations}
use releasea_worker.Rules.Shop.{service, willing}
use releasea_worker.Deploys.Canary.{
  promote_canary_virtual_service, virtual_service_references_workload, shift_weighted_route,
  is_canary_entry, shift_entries, take_in, whole, clear_canary_mirror, route_weight,
}
use releasea_worker.Deploys.Canary.Cleared.{promote_canary_virtual_service_lem}
use releasea_worker.Deploys.Canary.Weights.{total, shift_weighted_route-total}
use releasea_worker.Deploys.Canary.Published.{shift_weighted_route-build_strategy_destinations}
use releasea_worker.Deploys.Canary.Promote.{Promotion, promote_canary}
use releasea_worker.Deploys.Canary.Promote.Order.{IsJustified, promote_canary-IsJustified}

abbrev sprint : Value → String
sprint value = ""

abbrev destination : String → ℤ → Value
destination host weight =
    object (("destination", object (("host", str host) ∷ [])) ∷ ("weight", num weight) ∷ [])

abbrev shared : List Value
shared =
    destination "shop.apps.svc.cluster.local" (pos 90) ∷ destination "shop-canary" (pos 10) ∷ []

-- Two subsets of another service, which have the same host.
abbrev subsets : List Value
subsets = destination "cart" (pos 50) ∷ destination "cart" (pos 50) ∷ []

abbrev published : List (List Value) → Payload
published routes =
    ("metadata", object (("name", str "shop-rule") ∷ []))
    ∷ ("spec", object (("http", array (map (λ es. object (("route", array es) ∷ [])) routes)) ∷ []))
    ∷ []

shop_name : IsKube "shop"
shop_name = ground arith

apps_name : IsKube "apps"
apps_name = ground arith

promote_canary_virtual_service_lem_example :
    let (left, changed) =
      promote_canary_virtual_service sprint "shop" "apps" (published (shared ∷ [])) in
    (changed
      ≡ virtual_service_references_workload sprint
          (published (shared ∷ []))
          ("shop" ⧺ "-canary")
          "apps")
    × (virtual_service_references_workload sprint left ("shop" ⧺ "-canary") "apps" ≡ false)
    × (lookup "metadata" left ≡ lookup "metadata" (published (shared ∷ [])))
promote_canary_virtual_service_lem_example =
    promote_canary_virtual_service_lem sprint "shop" "apps" (published (shared ∷ [])) "metadata"
      shop_name apps_name refl

-- A route that does not lead to the canary is left as the loop has written it: the first destination has
-- the sum of the shares, the second one still has its own, and together they have 150 percent.
subsets_overflow :
    promote_canary_virtual_service sprint "shop" "apps" (published (shared ∷ subsets ∷ [])) ≡ (
      published (
          (destination "shop.apps.svc.cluster.local" (pos 100) ∷ [])
          ∷ (destination "cart" (pos 100) ∷ destination "cart" (pos 50) ∷ [])
          ∷ []),
      true,
    )
unfolding promote_canary_virtual_service shift_weighted_route shift_entries take_in whole
    clear_canary_mirror route_weight host_matches_workload_alias string_value trim_space to_lower
    lookup insert remove
subsets_overflow = refl

shared_canary : any (is_canary_entry sprint "shop" "apps") shared ≡ true
unfolding host_matches_workload_alias string_value trim_space to_lower lookup
shared_canary = refl

shift_weighted_route-total_example :
    (routes : List Payload) × (shift_weighted_route sprint "shop" "apps" shared ≡ map object routes)
    × (((length routes ≡ 1) × (total routes ≡ pos 100))
        ⊎ ((length routes ≢ 1)
            × (total routes ≡ total (map (λ (e : Value). map_value (some e)) shared))))
shift_weighted_route-total_example =
    shift_weighted_route-total sprint "shop" "apps" shared shared_canary

canary_kind : to_lower (trim_space service.deployment_strategy.kind) ≡ "canary"
unfolding trim_space to_lower
canary_kind = refl

shift_weighted_route-build_strategy_destinations_example :
    shift_weighted_route sprint "shop" "apps"
      (map object (build_strategy_destinations service "shop" "apps" (pos 80)))
    ≡ object (build_route_destination (local_host "shop" "apps") (pos 80) (pos 100)) ∷ []
shift_weighted_route-build_strategy_destinations_example =
    shift_weighted_route-build_strategy_destinations sprint "shop" "apps" shop_name apps_name
      service (pos 80) canary_kind (omega arith)

abbrev env : Promotion
env = record {
  cluster = willing;
  context = λ log id environment. ok service;
  rollout = λ log namespace name. none;
  retired = λ log namespace names. none;
  now = λ log. "2026-01-01T00:00:00Z";
}

promote_canary-IsJustified_example :
    Adds
      (IsJustified sprint env "apps" "shop" [] [] [])
      []
      (promote_canary sprint env "apps" "shop" [] [] []).1
    × (((e : Error) × ((promote_canary sprint env "apps" "shop" [] [] []).0 ≡ err e))
        ⊎ (env.retired
              (promote_canary sprint env "apps" "shop" [] [] []).1
              "apps"
              (("shop" ⧺ "-canary") ∷ [])
            ≡ none))
promote_canary-IsJustified_example = promote_canary-IsJustified sprint env "apps" "shop" [] [] []
