-- ===== src/Rules/Guard.antt =====
-- rules_strategy_guard_availability.go: which workloads a rule may lead traffic to, and which of the other
-- strategies' workloads are deleted. `sprint` is `fmt.Sprint`.
pub mod Ready
pub mod Kept
use releasea_worker.Prelude.{
  String, Bool, true, false, not, ◌&&◌, ◌||◌, ◌⧺◌, Option, none, some, List, [], ◌∷◌, ◌++◌, any,
  ◌==◌, is_empty, if◌then◌else◌, lookup, trim_space, to_lower, equal_fold,
}
use releasea_worker.Prelude.Int.{ℤ, pos, ltb_ℤ, leb_ℤ}
use releasea_worker.Models.Payload.{
  Value, null, bool, num, str, strs, arr, obj, Items, no_items, item, Fields, no_fields, field,
  Payload, to_fields,
}
use releasea_worker.Models.Failure.{Error, Result, ok, err}
use releasea_worker.Models.Runtime.{DeploymentInfo}
use releasea_worker.Models.Service.{ServicePayload}
use releasea_worker.Shared.Strategy.{normalize_type, resolve_blue_green_slots}
use releasea_worker.Deploys.Hints.{map_value, string_value}
use releasea_worker.Rules.Cluster.{
  Log, Surroundings, Act, pure, raise, continue, ◌>>=◌, ◌>>◌, resource_id, delete_resource,
}

unfoldable pub resolve_deploy_strategy_type : ServicePayload → String
resolve_deploy_strategy_type service =
    normalize_type service.deploy_template_id service.deployment_strategy.kind

abbrev available : Result DeploymentInfo → Result Bool
available (ok deploy) = ok (ltb_ℤ (pos 0) deploy.available_replicas)
available (err e) = if e.deployment_not_found then ok false else err e

abbrev if_there : Result Bool → Result Bool → Result Bool
if_there (err e) next = err e
if_there (ok false) next = ok false
if_there (ok true) next = next

unfoldable pub workload_target_ready : Surroundings → Log → String → String → Result Bool
workload_target_ready env log namespace name =
    if_there (env.exists log (resource_id "Service" namespace name))
      (available (env.deployment log namespace name))

-- `CanaryPercent = 0`, another `BlueGreenPrimary`, and the type `rolling`.
abbrev only_stable : ServicePayload → ServicePayload
only_stable service = record service {
  deployment_strategy = record service.deployment_strategy { canary_percent = pos 0 };
}

abbrev with_primary : ServicePayload → String → ServicePayload
with_primary service slot = record service {
  deployment_strategy = record service.deployment_strategy { blue_green_primary = slot };
}

abbrev without_slots : ServicePayload → ServicePayload
without_slots service = record service {
  deployment_strategy = record service.deployment_strategy {
    kind = "rolling";
    blue_green_primary = "";
  };
}

abbrev guard_canary : ServicePayload → Result Bool → Result Bool → ServicePayload
guard_canary service (err e) canary = service
guard_canary service (ok stable) (err e) = service
guard_canary service (ok stable) (ok canary) =
    if stable && canary then service else only_stable service

abbrev guard_canonical : ServicePayload → Result Bool → ServicePayload
guard_canonical service (err e) = service
guard_canonical service (ok there) = if there then without_slots service else service

abbrev guard_secondary : ServicePayload → String → Result Bool → Result Bool → ServicePayload
guard_secondary service slot (err e) canonical = service
guard_secondary service slot (ok ready) canonical =
    if ready then with_primary service slot else guard_canonical service canonical

abbrev guard_primary :
    ServicePayload → String → Result Bool → Result Bool → Result Bool → ServicePayload
guard_primary service slot (err e) secondary canonical = service
guard_primary service slot (ok ready) secondary canonical =
    if ready then service else guard_secondary service slot secondary canonical

unfoldable pub normalize_for_availability :
    Surroundings → Log → String → String → ServicePayload → ServicePayload
normalize_for_availability env log namespace service_name service =
    let strategy = resolve_deploy_strategy_type service in
    let ready = workload_target_ready env log namespace in
    let (primary, secondary) =
      resolve_blue_green_slots service.deployment_strategy.blue_green_primary in
    if strategy == "canary"
    then (if leb_ℤ service.deployment_strategy.canary_percent (pos 0)
        then service
        else guard_canary service (ready service_name) (ready (service_name ⧺ "-canary")))
    else if strategy == "blue-green"
    then guard_primary service secondary (ready (service_name ⧺ "-" ⧺ primary))
        (ready (service_name ⧺ "-" ⧺ secondary))
        (env.exists log (resource_id "Service" namespace service_name))
    else service

abbrev host_entry : Value → List String
host_entry (str host) =
    let normalized = to_lower (trim_space host) in if normalized == "" then [] else normalized ∷ []
host_entry _ = []

-- A set of hosts as a list.
unfoldable mutual
  pub collect_destination_hosts : Value → List String
  collect_destination_hosts (obj fs) = field_hosts fs
  collect_destination_hosts (arr vs) = item_hosts vs
  collect_destination_hosts null = []
  collect_destination_hosts (bool b) = []
  collect_destination_hosts (num n) = []
  collect_destination_hosts (str s) = []
  collect_destination_hosts (strs ss) = []

  pub field_hosts : Fields → List String
  field_hosts no_fields = []
  field_hosts (field key v fs) =
      (if equal_fold (trim_space key) "host" then host_entry v else collect_destination_hosts v)
      ++ field_hosts fs

  pub item_hosts : Items → List String
  item_hosts no_items = []
  item_hosts (item v vs) = collect_destination_hosts v ++ item_hosts vs

unfoldable pub all_hosts : List Payload → List String
all_hosts [] = []
all_hosts (vs ∷ rest) = field_hosts (to_fields vs) ++ all_hosts rest

unfoldable pub host_matches_workload_alias : String → String → String → Bool
host_matches_workload_alias raw_host raw_alias raw_namespace =
    let host = to_lower (trim_space raw_host) in
    let alias = to_lower (trim_space raw_alias) in
    let namespace = to_lower (trim_space raw_namespace) in
    if host == "" || alias == ""
    then false
    else host == alias
      || (host == alias ⧺ "." ⧺ namespace
          || (host == alias ⧺ "." ⧺ namespace ⧺ ".svc"
              || host == alias ⧺ "." ⧺ namespace ⧺ ".svc.cluster.local"))

unfoldable pub is_workload_alias_referenced : List String → String → String → Bool
is_workload_alias_referenced hosts alias namespace =
    any (λ host. host_matches_workload_alias host alias namespace) hosts

unfoldable pub cleanup_candidates_for_strategy : String → String → List String
cleanup_candidates_for_strategy service_name strategy_type =
    let strategy = to_lower (trim_space strategy_type) in
    if strategy == "rolling"
    then (service_name ⧺ "-canary") ∷ (service_name ⧺ "-blue") ∷ (service_name ⧺ "-green") ∷ []
    else if strategy == "canary"
    then (service_name ⧺ "-blue") ∷ (service_name ⧺ "-green") ∷ []
    else if strategy == "blue-green"
    then (service_name ⧺ "-canary") ∷ []
    else []

abbrev selected_app : (Value → String) → Result Payload → Result String
selected_app sprint (err e) = err e
selected_app sprint (ok service) = ok (
    trim_space (
      string_value sprint (map_value (lookup "selector" (map_value (lookup "spec" service))))
        "app"))

abbrev if_exists : Result Bool → Result String → Result String
if_exists (err e) next = err e
if_exists (ok false) next = ok ""
if_exists (ok true) next = next

unfoldable pub canonical_service_target :
    (Value → String) → Surroundings → Log → String → String → Result String
canonical_service_target sprint env log namespace service_name =
    let id = resource_id "Service" namespace service_name in
    if_exists (env.exists log id) (selected_app sprint (env.resource log id))

-- The loop over the candidates.
unfoldable pub delete_unused :
    Surroundings → String → List String → String → List String → Act (Unit {0})
delete_unused env namespace hosts canonical [] = pure tt
delete_unused env namespace hosts canonical (candidate ∷ candidates) =
    let rest = delete_unused env namespace hosts canonical candidates in
    if candidate == canonical
    then rest
    else if is_workload_alias_referenced hosts candidate namespace
    then rest
    else (delete_resource env "Deployment" namespace candidate
        >> delete_resource env "Service" namespace candidate
        >> rest)

abbrev pub after_hosts :
    (Value → String)
    → Surroundings
    → String
    → String
    → List String
    → Result (List Payload)
    → Act (Unit {0})
after_hosts sprint env namespace service_name candidates (err e) = raise e
after_hosts sprint env namespace service_name candidates (ok services) = λ log.
    continue (canonical_service_target sprint env log namespace service_name)
      (λ canonical. delete_unused env namespace (all_hosts services) canonical candidates) log

unfoldable pub cleanup_unused_strategy_workloads :
    (Value → String) → Surroundings → String → String → String → Act (Unit {0})
cleanup_unused_strategy_workloads sprint env namespace raw_name strategy log =
    let service_name = trim_space raw_name in
    let candidates = cleanup_candidates_for_strategy service_name strategy in
    if service_name == "" || is_empty candidates
    then (ok tt, log)
    else after_hosts sprint env namespace service_name candidates
        (env.virtual_services log namespace) log
