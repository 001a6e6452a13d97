-- ===== src/Rules/Routes/Weights.antt =====
-- How a rule shares the traffic out.
use releasea_worker.Prelude.{
  ℕ, ◌+◌, ◌≤◌, String, Option, some, List, [], ◌∷◌, ◌≡◌, refl, ◌==◌, arith, lookup, All, length,
  trim_space, to_lower, ◌⧺◌, if◌then◌else◌,
}
use releasea_worker.Prelude.Int.{ℤ, pos, pos_part, ◌<ℤ◌, ◌≤ℤ◌}
use releasea_worker.Models.Payload.{Value, num, str, Payload, object}
use releasea_worker.Models.Service.{ServicePayload}
use releasea_worker.Shared.Strategy.{resolve_blue_green_slots}
use releasea_worker.Rules.Routes.{build_route_destination}

abbrev number : Option Value → ℤ
number (some (num n)) = n
number _ = pos 0

-- The share of a destination; one with no weight has none.
unfoldable pub weight_of : Payload → ℤ
unfolding lookup
weight_of destination = number (lookup "weight" destination)

abbrev pub total : List Payload → ℕ
total [] = 0
total (d ∷ ds) = pos_part (weight_of d) + total ds

weight_of-build :
    (host : String) (port w : ℤ) → pos 0 <ℤ w → weight_of (build_route_destination host port w) ≡ w
unfolding weight_of build_route_destination
weight_of-build host port w h = ground arith

-- Does the destination have that host?
abbrev pub LeadsTo : String → Payload → Type 0
LeadsTo host destination =
    (target : Payload) × (lookup "destination" destination ≡ some (object target))
    × (lookup "host" target ≡ some (str host))

LeadsTo-build : (host : String) (port w : ℤ) → LeadsTo host (build_route_destination host port w)
unfolding build_route_destination lookup
LeadsTo-build host port w =
    (("host", str host) ∷ ("port", object (("number", num port) ∷ [])) ∷ [], refl, refl)

-- The workload that has most of a service's traffic.
abbrev pub main_workload : ServicePayload → String → String
main_workload service service_name =
    if to_lower (trim_space service.deployment_strategy.kind) == "blue-green"
    then service_name
      ⧺ "-"
      ⧺ (resolve_blue_green_slots service.deployment_strategy.blue_green_primary).0
    else service_name

module _ (main canary : String) where
  abbrev pub IsShared : List Payload → Type 0
  IsShared [] = ⊥
  IsShared (d ∷ ds) =
      (total (d ∷ ds) ≡ 100)
      × All (λ e. pos 0 <ℤ weight_of e) (d ∷ ds)
      × (length ds ≤ 1)
      × (pos 50 ≤ℤ weight_of d)
      × LeadsTo main d
      × All (LeadsTo canary) ds

  whole : (port : ℤ) → IsShared (build_route_destination main port (pos 100) ∷ [])
  whole port = rw (weight_of-build main port (pos 100) (omega arith)) (
    omega arith,
    (omega arith, tt),
    omega arith,
    omega arith,
    LeadsTo-build main port (pos 100),
    tt,
  )
