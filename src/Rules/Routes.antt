-- ===== src/Rules/Routes.antt =====
-- rules_rule_build_manifest.go: the destinations and the routes of a rule's virtual service.
pub mod Weights
pub mod Gated
use releasea_worker.Prelude.{
  String, Bool, true, false, not, ◌&&◌, ◌||◌, ◌⧺◌, Option, none, some, List, [], ◌∷◌, ◌++◌, map,
  ◌==◌, is_empty, if◌then◌else◌, lookup, insert, trim_space, to_lower, to_upper, equal_fold,
}
use releasea_worker.Prelude.Int.{ℤ, pos, ltb_ℤ, leb_ℤ, itoa, ◌-ℤ◌}
use releasea_worker.Models.Payload.{Value, num, str, strs, obj, Payload, fields, object, array}
use releasea_worker.Models.Operation.{Config}
use releasea_worker.Models.Service.{ServicePayload}
use releasea_worker.Models.Rule.{RulePayload}
use releasea_worker.Shared.Unique.{unique_strings}
use releasea_worker.Shared.Strategy.{resolve_blue_green_slots}
use releasea_worker.Rules.Names.{
  rule_action, denies, rule_auth_mode, or_default, edge_route_name, rule_virtual_service_name,
  normalize_policy_methods, normalize_header_names, normalize_rule_path, local_host,
  resolve_rule_hosts, static_nginx_host,
}
use releasea_worker.Rules.Policy.{
  prefix_match, method_matches, path_matches, build_rule_http_matches, header_or_default,
  api_key_constraint, with_match_headers, required_match, key_match, keyed_matches,
  edge_positive_matches, objects, allow_origins, or_list, or_positive, build_cors_policy,
  security_headers, has_key, set_if, set_some, apply_edge_http_policy,
}

unfoldable pub build_route_destination : String → ℤ → ℤ → Payload
build_route_destination host port weight =
    ("destination", object (("host", str host) ∷ ("port", object (("number", num port) ∷ [])) ∷ []))
    ∷ (if ltb_ℤ (pos 0) weight then ("weight", num weight) ∷ [] else [])

unfoldable pub build_strategy_destinations : ServicePayload → String → String → ℤ → List Payload
build_strategy_destinations service service_name namespace port =
    let strategy = to_lower (trim_space service.deployment_strategy.kind) in
    let stable = local_host service_name namespace in
    let percent = service.deployment_strategy.canary_percent in
    let percent' = if ltb_ℤ (pos 50) percent then pos 50 else percent in
    let (primary, _) = resolve_blue_green_slots service.deployment_strategy.blue_green_primary in
    if strategy == "canary"
    then (if leb_ℤ percent (pos 0)
        then build_route_destination stable port (pos 100) ∷ []
        else build_route_destination stable port (pos 100 -ℤ percent')
          ∷ build_route_destination (local_host (service_name ⧺ "-canary") namespace) port percent'
          ∷ [])
    else if strategy == "blue-green"
    then build_route_destination (local_host (service_name ⧺ "-" ⧺ primary) namespace) port
        (pos 100)
      ∷ []
    else build_route_destination stable port (pos 100) ∷ []

abbrev direct_response : ℤ → Value
direct_response status = object (("status", num status) ∷ [])

abbrev with_match : List Payload → Payload → Payload
with_match matches route = set_if (not (is_empty matches)) "match" (objects matches) route

abbrev gated_routes : RulePayload → Payload → List Payload → Option (List Payload) → List Payload
gated_routes rule primary matches none =
    apply_edge_http_policy rule (with_match matches primary) ∷ []
gated_routes rule primary matches (some positive) =
    let fallback =
      apply_edge_http_policy rule
        (with_match matches (("directResponse", direct_response (pos 401)) ∷ [])) in
    if is_empty positive
    then fallback ∷ []
    else apply_edge_http_policy rule (with_match positive primary) ∷ fallback ∷ []

unfoldable pub build_rule_http_routes : RulePayload → List Payload → Bool → List Payload
build_rule_http_routes rule destinations is_deny =
    let matches = build_rule_http_matches rule.paths rule.methods in
    let named = ("name", str (edge_route_name rule.id)) ∷ [] in
    if is_deny
    then apply_edge_http_policy rule
        (insert "directResponse" (direct_response (pos 403)) (with_match matches named))
      ∷ []
    else gated_routes rule (insert "route" (objects destinations) named) matches
        (edge_positive_matches rule)

abbrev service_port : RulePayload → ServicePayload → ℤ
service_port rule service =
    if leb_ℤ rule.port (pos 0)
    then (if ltb_ℤ (pos 0) service.port then service.port else pos 80)
    else rule.port

abbrev static_destination : Config → String → ℤ → Payload
static_destination cfg host port =
    let static_host = static_nginx_host cfg in
    if not (static_host == "")
    then build_route_destination static_host (pos 80) (pos 100)
    else build_route_destination host port (pos 100)

abbrev or_default_destination : List Payload → Payload → List Payload
or_default_destination [] fallback = fallback ∷ []
or_default_destination (d ∷ ds) fallback = d ∷ ds

abbrev virtual_service_destinations :
    RulePayload → ServicePayload → String → String → Config → List Payload
virtual_service_destinations rule service service_name namespace cfg =
    let port = service_port rule service in
    let host = local_host service_name namespace in
    if equal_fold service.kind "static-site"
    then static_destination cfg host port ∷ []
    else or_default_destination (build_strategy_destinations service service_name namespace port)
        (build_route_destination host port (pos 100))

abbrev pub rule_labels : String → RulePayload → ServicePayload → Value
rule_labels service_name rule service = object (
    ("app", str service_name)
    ∷ ("releasea.rule", str rule.id)
    ∷ ("releasea.service", str service.id)
    ∷ [])

-- The four entries that each manifest has.
abbrev pub manifest : String → String → Payload → Payload → Payload
manifest api_version kind metadata spec =
    ("apiVersion", str api_version)
    ∷ ("kind", str kind)
    ∷ ("metadata", object metadata)
    ∷ ("spec", object spec)
    ∷ []

abbrev pub rule_metadata : String → String → String → RulePayload → ServicePayload → Payload
rule_metadata name namespace service_name rule service =
    ("name", str name)
    ∷ ("namespace", str namespace)
    ∷ ("labels", rule_labels service_name rule service)
    ∷ []

abbrev tcp_route : List Payload → ℤ → Payload
tcp_route destinations port =
    ("route", objects destinations)
    ∷ (if ltb_ℤ (pos 0) port then ("match", objects ((("port", num port) ∷ []) ∷ [])) ∷ [] else [])

unfoldable pub build_rule_virtual_service :
    RulePayload → ServicePayload → String → String → Config → List String → Payload
build_rule_virtual_service rule service service_name namespace cfg gateways =
    let destinations = virtual_service_destinations rule service service_name namespace cfg in
    let protocol = to_lower (trim_space rule.protocol) in
    manifest "networking.istio.io/v1beta1" "VirtualService"
      (rule_metadata (rule_virtual_service_name service_name rule.id) namespace service_name rule
        service)
      (("hosts", strs (resolve_rule_hosts rule.hosts gateways service_name namespace cfg))
        ∷ ("gateways", strs gateways)
        ∷ (if protocol == "tcp"
            then ("tcp", objects (tcp_route destinations (service_port rule service) ∷ []))
            else ("http", objects (build_rule_http_routes rule destinations (denies rule))))
        ∷ [])
