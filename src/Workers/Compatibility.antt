-- ===== src/Workers/Compatibility.antt =====
-- workers_operation_process.go: may this worker take this operation?
pub mod Laws
use releasea_worker.Prelude.{
  String, Bool, true, false, not, ◌&&◌, ◌||◌, List, [], ◌∷◌, is_empty, ◌==◌, if◌then◌else◌,
  trim_space,
}
use releasea_worker.Models.Payload.{Payload, payload_string, payload_string_slice}
use releasea_worker.Models.Operation.{
  OperationPayload, Config, type_service_delete, type_rule_delete,
}
use releasea_worker.Shared.Namespace.{resolve_app_namespace}
use releasea_worker.Shared.Unique.{member, unique_from}

unfoldable pub operation_allows_environment_fallback : String → Bool
operation_allows_environment_fallback kind = kind == type_service_delete || kind == type_rule_delete

-- The loop of `normalizeWorkerTags` is, statement for statement, that of `UniqueStrings`.
unfoldable pub normalize_worker_tags : List String → List String
normalize_worker_tags tags = unique_from [] tags

-- The loop over the required tags: is each of them among the available ones?
unfoldable pub has_all_tags : List String → List String → Bool
has_all_tags available [] = true
has_all_tags available (tag ∷ required) = member tag available && has_all_tags available required

unfoldable pub operation_compatible_with_worker : Config → OperationPayload → Bool × String
operation_compatible_with_worker cfg op =
    let operation_environment = trim_space (payload_string op.payload "environment") in
    let worker_namespace = resolve_app_namespace cfg.namespace_overrides cfg.environment in
    let operation_namespace = resolve_app_namespace cfg.namespace_overrides operation_environment in
    let preferred_cluster = trim_space (payload_string op.payload "preferredWorkerCluster") in
    let required_tags = normalize_worker_tags (payload_string_slice op.payload "workerTags") in
    let available_tags = normalize_worker_tags cfg.tags in
    if not (operation_environment == "")
      && not (operation_allows_environment_fallback op.kind)
      && not (worker_namespace == operation_namespace)
    then (false, "environment namespace mismatch")
    else if not (preferred_cluster == "") && not (trim_space cfg.cluster == preferred_cluster)
    then (false, "worker cluster does not match preferred cluster")
    else if is_empty required_tags
    then (true, "")
    else if has_all_tags available_tags required_tags
    then (true, "")
    else (false, "missing required worker tags")
