-- ===== src/Shared/Examples.antt =====
-- Concrete values of the shared helpers and of the configuration, and the theorems applied to them.
use releasea_worker.Prelude.{
  ◌*◌, ◌≤◌, String, Option, none, some, List, [], ◌∷◌, map, ◌≡◌, refl, ◌≢◌, ◌↔◌, In, trim_space,
  lookup, insert, to_lower, contains, false,
}
use releasea_worker.Prelude.Int.{pos, pos_part, ◌≤ℤ◌}
use releasea_worker.Config.{
  operation_claim_lease_ttl, claim_heartbeat_interval, claim_heartbeat_interval_bounds,
}
use releasea_worker.Shared.KubeName.{to_kube_name, normalize_namespace}
use releasea_worker.Shared.KubeName.Laws.{IsName}
use releasea_worker.Shared.KubeName.Fixed.{IsLabel, to_kube_name_lem, normalize_namespace-IsLabel}
use releasea_worker.Shared.Unique.{unique_strings, unique_from, member}
use releasea_worker.Shared.Unique.Laws.{IsDistinct, unique_strings_lem}
use releasea_worker.Shared.Namespace.{
  namespace_production, namespace_system, resolve_app_namespace, validate_app_namespace,
  apply_override, apply_overrides, default_namespace_mapping, is_valid_app_namespace,
  load_namespace_mapping,
}
use releasea_worker.Shared.Namespace.Policy.{IsAppNamespace, resolve_app_namespace-validate}

-- One override that the policy refuses, and one that it takes.
abbrev overrides : Option (List (String × String))
overrides = some (("qa", namespace_system) ∷ ("Live ", namespace_production) ∷ [])

resolve_tests :
    (resolve_app_namespace overrides " LIVE" ≡ namespace_production)
    × (unique_strings (" a" ∷ "" ∷ "b" ∷ "a" ∷ []) ≡ "a" ∷ "b" ∷ [])
unfolding resolve_app_namespace apply_override apply_overrides default_namespace_mapping
    is_valid_app_namespace load_namespace_mapping lookup insert to_lower trim_space unique_strings
    unique_from member
resolve_tests = (refl, refl)

resolve_app_namespace-validate_example :
    IsAppNamespace (resolve_app_namespace overrides " LIVE")
    × (resolve_app_namespace overrides " LIVE" ≢ namespace_system)
    × (validate_app_namespace (resolve_app_namespace overrides " LIVE") ≡ none)
resolve_app_namespace-validate_example = resolve_app_namespace-validate overrides " LIVE"

unique_strings_lem_example :
    let values : List String = " a" ∷ "" ∷ "b" ∷ "a" ∷ [] in
    ((x : String) → In x (unique_strings values) ↔ ((x ≢ "") × In x (map trim_space values)))
    × IsDistinct (unique_strings values)
    × (unique_strings (unique_strings values) ≡ unique_strings values)
unique_strings_lem_example = unique_strings_lem (" a" ∷ "" ∷ "b" ∷ "a" ∷ [])

claim_heartbeat_interval_bounds_example :
    (claim_heartbeat_interval (operation_claim_lease_ttl (pos 90)) * 3
      ≤ pos_part (operation_claim_lease_ttl (pos 90)) * 1000000000)
    × (10000000000 ≤ claim_heartbeat_interval (operation_claim_lease_ttl (pos 90)))
    × (pos 30 ≤ℤ operation_claim_lease_ttl (pos 90))
    × (operation_claim_lease_ttl (pos 90) ≤ℤ pos 600)
claim_heartbeat_interval_bounds_example = claim_heartbeat_interval_bounds (pos 90)

to_kube_name_lem_example :
    IsName (to_kube_name " My_Shop  (v2)! ")
    × (contains (to_kube_name " My_Shop  (v2)! ") "--" ≡ false)
    × ((to_kube_name " My_Shop  (v2)! " ≡ " My_Shop  (v2)! ")
        ↔ (IsName " My_Shop  (v2)! " × (contains " My_Shop  (v2)! " "--" ≡ false)))
to_kube_name_lem_example = to_kube_name_lem " My_Shop  (v2)! "

normalize_namespace-IsLabel_example : IsLabel (normalize_namespace "__Team Red__")
normalize_namespace-IsLabel_example = normalize_namespace-IsLabel "__Team Red__"
