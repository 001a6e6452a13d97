-- ===== src/Deploys/Canary.antt =====
-- deploys_strategy_canary_promote.go: how the published traffic of a service is moved off its canary.
-- `sprint` is `fmt.Sprint`. Maps and lists are changed in place there; here each function returns what it
-- leaves.
pub mod Destinations
pub mod Cleared
pub mod Hosts
pub mod Weights
pub mod Published
pub mod Retarget
pub mod Promote
mod Examples
use releasea_worker.Prelude.{
  String, Bool, true, false, ◌||◌, ◌⧺◌, Option, none, some, List, [], ◌∷◌, ◌++◌, map, any, ◌==◌,
  is_empty, if◌then◌else◌, lookup, insert, remove,
}
use releasea_worker.Prelude.Int.{ℤ, pos, ◌+ℤ◌}
use releasea_worker.Models.Payload.{Value, num, str, arr, Payload, items, object, array}
use releasea_worker.Deploys.Hints.{map_value, string_value}
use releasea_worker.Rules.Guard.{host_matches_workload_alias}

-- A number of any of Go's types is the integer that it is cut to.
unfoldable pub route_weight : Option Value → ℤ
route_weight (some (num n)) = n
route_weight _ = pos 0

-- The items of a `[]interface{}`, and none of anything else.
abbrev pub list_of : Option Value → List Value
list_of (some (arr vs)) = items vs
list_of _ = []

abbrev pub protocols : List String
protocols = "http" ∷ "tcp" ∷ "tls" ∷ []

-- A destination of a route while the destinations are merged: one that is `taken` stands in `merged`
-- under its host, which is "" if it has none; one that is `left_out` is no map or has been added to an
-- earlier one. Both are the maps of the route itself, so that a change of one is a change of the route.
pub data Entry : Type 0 where
  taken : (host : String) → (route : Payload) → Entry
  left_out : (value : Value) → Entry

abbrev pub kept : List Entry → List Payload
kept [] = []
kept (taken host route ∷ rest) = route ∷ kept rest
kept (left_out value ∷ rest) = kept rest

abbrev pub values : List Entry → List Value
values [] = []
values (taken host route ∷ rest) = object route ∷ values rest
values (left_out value ∷ rest) = value ∷ values rest

abbrev pub add_weight : ℤ → Payload → Payload
add_weight weight route =
    insert "weight" (num (route_weight (lookup "weight" route) +ℤ weight)) route

-- A destination with a host: its weight goes to the first one with that host, if there is one.
unfoldable pub take_in : String → ℤ → Payload → List Entry → List Entry
take_in host weight route [] = taken host (insert "weight" (num weight) route) ∷ []
take_in host weight route (left_out value ∷ rest) = left_out value ∷ take_in host weight route rest
take_in host weight route (taken other first ∷ rest) =
    let later = take_in host weight route rest in
    if other == host
    then taken other (add_weight weight first) ∷ (rest ++ left_out (object route) ∷ [])
    else taken other first ∷ later

-- A single destination has all the traffic.
unfoldable pub whole : List Payload → List Payload
whole [] = []
whole (route ∷ []) = insert "weight" (num (pos 100)) route ∷ []
whole (route ∷ next ∷ rest) = route ∷ next ∷ rest

abbrev pub destination_of : Payload → Payload
destination_of route = map_value (lookup "destination" route)

module _ (sprint : Value → String) where
  abbrev pub host_of : Payload → String
  host_of route = string_value sprint (destination_of route) "host"

  abbrev pub mirror_host : Payload → String
  mirror_host route = string_value sprint (map_value (lookup "mirror" route)) "host"

  -- `virtualServiceReferencesWorkload`, for one of the routes.
  abbrev pub route_references : String → String → Value → Bool
  route_references workload namespace raw =
      let route = map_value (some raw) in
      host_matches_workload_alias (mirror_host route) workload namespace
      || any (λ e. host_matches_workload_alias (host_of (map_value (some e))) workload namespace)
          (list_of (lookup "route" route))

  abbrev pub spec_references : String → String → Payload → Bool
  spec_references workload namespace spec =
      any (λ key. any (route_references workload namespace) (list_of (lookup key spec))) protocols

  unfoldable pub virtual_service_references_workload : Payload → String → String → Bool
  virtual_service_references_workload vs workload namespace =
      spec_references workload namespace (map_value (lookup "spec" vs))

  module _ (service_name namespace : String) where
    abbrev pub is_canary : String → Bool
    is_canary host = host_matches_workload_alias host (service_name ⧺ "-canary") namespace

    abbrev pub stable_host : String
    stable_host = service_name ⧺ "." ⧺ namespace ⧺ ".svc.cluster.local"

    abbrev pub is_canary_entry : Value → Bool
    is_canary_entry e = is_canary (host_of (map_value (some e)))

    abbrev pub to_stable : Payload → Payload
    to_stable route =
        insert "destination"
          (object (remove "subset" (insert "host" (str stable_host) (destination_of route)))) route

    -- One round of the loop over the destinations.
    abbrev pub shift_entry : Value → List Entry → List Entry
    shift_entry e merged =
        let route = map_value (some e) in
        let host = host_of route in
        let weight = route_weight (lookup "weight" route) in
        if is_empty route
        then merged ++ left_out e ∷ []
        else if is_canary host
        then take_in stable_host weight (to_stable route) merged
        else if host == ""
        then merged ++ taken "" route ∷ []
        else take_in host weight route merged

    unfoldable pub shift_entries : List Value → List Entry → List Entry
    shift_entries [] merged = merged
    shift_entries (e ∷ es) merged = shift_entries es (shift_entry e merged)

    -- The destinations that the route has afterwards: where none is the canary's, they are the old ones,
    -- with what the loop has written into them.
    unfoldable pub shift_weighted_route : List Value → List Value
    shift_weighted_route es =
        let merged = shift_entries es [] in
        if any is_canary_entry es then map object (whole (kept merged)) else values merged

    unfoldable pub clear_canary_mirror : Payload → Payload
    clear_canary_mirror route =
        if is_canary (mirror_host route)
        then remove "mirrorPercentage" (remove "mirror" route)
        else route

    abbrev pub with_destinations : Option Value → Payload → Payload
    with_destinations (some (arr vs)) route =
        insert "route" (array (shift_weighted_route (items vs))) route
    with_destinations _ route = route

    abbrev pub shift_route : Value → Value
    shift_route raw =
        let route = map_value (some raw) in
        let cleared = clear_canary_mirror route in
        if is_empty route then raw else object (with_destinations (lookup "route" cleared) cleared)

    abbrev pub shift_routes : String → Option Value → Payload → Payload
    shift_routes key (some (arr vs)) spec = insert key (array (map shift_route (items vs))) spec
    shift_routes key _ spec = spec

    abbrev pub shift_spec : List String → Payload → Payload
    shift_spec [] spec = spec
    shift_spec (key ∷ keys) spec = shift_spec keys (shift_routes key (lookup key spec) spec)

    -- Has a mirror been cleared or a destination been shifted?
    abbrev pub route_changes : Value → Bool
    route_changes raw =
        let route = map_value (some raw) in
        if is_empty route
        then false
        else is_canary (mirror_host route)
          || any is_canary_entry (list_of (lookup "route" (clear_canary_mirror route)))

    -- What is left of the virtual service, and whether it was changed.
    unfoldable pub promote_canary_virtual_service : Payload → Payload × Bool
    promote_canary_virtual_service vs =
        let spec = map_value (lookup "spec" vs) in
        if is_empty spec then (vs, false) else (
          insert "spec" (object (shift_spec protocols spec)) vs,
          any (λ key. any route_changes (list_of (lookup key spec))) protocols,
        )
