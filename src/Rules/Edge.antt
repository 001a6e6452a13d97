-- ===== src/Rules/Edge.antt =====
-- rules_edge_manifest.go: the resources of a rule at the gateway and in the service's namespace.
use releasea_worker.Prelude.{
  String, Bool, not, ◌&&◌, ◌||◌, ◌⧺◌, Option, none, some, List, [], ◌∷◌, ◌++◌, map, ◌==◌, is_empty,
  if◌then◌else◌, trim_space, to_lower,
}
use releasea_worker.Prelude.Int.{ℤ, pos, ltb_ℤ, leb_ℤ, itoa}
use releasea_worker.Models.Payload.{Value, num, str, strs, Payload, object}
use releasea_worker.Models.Service.{ServicePayload}
use releasea_worker.Models.Rule.{RulePayload}
use releasea_worker.Shared.Unique.{unique_strings}
use releasea_worker.Rules.Names.{
  denies, rule_auth_mode, gateway_edge_policy_name, gateway_jwt_name, edge_destination_rule_name,
  edge_peer_authentication_name, edge_network_policy_name, normalize_scopes, local_host,
}
use releasea_worker.Rules.Policy.{api_key_constraint, objects, or_positive}
use releasea_worker.Rules.Routes.{manifest, rule_metadata}
use releasea_worker.Rules.Access.{
  strings_entry, match_app, jwt_rule, to_entry, from_entry, rule_operation, no_principal,
}

unfoldable pub requires_gateway_auth : RulePayload → Bool
requires_gateway_auth rule =
    let mode = rule_auth_mode rule in
    let ip = to_lower (trim_space rule.policy.ip_policy) in
    denies rule
    || (mode == "jwt" || mode == "apikey")
    || (ip == "allowlist" || ip == "blocklist")
    || not (is_empty (normalize_scopes rule.policy.required_scopes))

abbrev edge_labels : String → RulePayload → ServicePayload → Value
edge_labels service_name rule service = object (
    ("app", str service_name)
    ∷ ("releasea.rule", str rule.id)
    ∷ ("releasea.service", str service.id)
    ∷ ("releasea.edge", str "true")
    ∷ [])

unfoldable pub edge_metadata : String → String → String → RulePayload → ServicePayload → Payload
edge_metadata name namespace service_name rule service =
    ("name", str name)
    ∷ ("namespace", str namespace)
    ∷ ("labels", edge_labels service_name rule service)
    ∷ []

unfoldable pub edge_operation : RulePayload → List String → Payload
edge_operation rule hosts = rule_operation rule ++ strings_entry "hosts" (unique_strings hosts)

-- `when`: what the request's attributes have to be, each as a key with the values that it must not
-- have.
unfoldable pub deny_entry : Payload → Payload → List Payload → Payload
deny_entry operation source conditions =
    to_entry operation
    ++ (from_entry source
        ++ (if is_empty conditions then [] else ("when", objects conditions) ∷ []))

abbrev not_values : String → List String → Payload
not_values key values = ("key", str key) ∷ ("notValues", strs values) ∷ []

abbrev ip_rules : RulePayload → Payload → List Payload
ip_rules rule operation =
    let ip = to_lower (trim_space rule.policy.ip_policy) in
    let cidrs = unique_strings rule.policy.ip_list in
    if is_empty cidrs
    then []
    else if ip == "allowlist"
    then deny_entry operation (("notRemoteIpBlocks", strs cidrs) ∷ []) [] ∷ []
    else if ip == "blocklist"
    then deny_entry operation (("remoteIpBlocks", strs cidrs) ∷ []) [] ∷ []
    else []

abbrev scope_rule : Payload → String → Payload
scope_rule operation scope =
    deny_entry operation [] (not_values "request.auth.claims[scope]" (scope ∷ []) ∷ [])

abbrev jwt_rules : RulePayload → Payload → List Payload
jwt_rules rule operation =
    if rule_auth_mode rule == "jwt"
    then deny_entry operation no_principal []
      ∷ map (scope_rule operation) (normalize_scopes rule.policy.required_scopes)
    else []

abbrev key_rules : RulePayload → Payload → List Payload
key_rules rule operation =
    let (header, keys) = api_key_constraint rule in
    if not (header == "") && not (is_empty keys)
    then deny_entry operation [] (not_values ("request.headers[" ⧺ header ⧺ "]") keys ∷ []) ∷ []
    else []

unfoldable pub build_gateway_deny_rules : RulePayload → List String → List Payload
build_gateway_deny_rules rule hosts =
    let operation = edge_operation rule hosts in
    if denies rule
    then deny_entry operation [] [] ∷ []
    else ip_rules rule operation ++ (jwt_rules rule operation ++ key_rules rule operation)

abbrev match_ingress : Value
match_ingress = object (("matchLabels", object (("istio", str "ingress") ∷ [])) ∷ [])

abbrev gateway_policy : RulePayload → ServicePayload → String → String → List Payload → Payload
gateway_policy rule service service_name gateway_namespace rules =
    manifest "security.istio.io/v1beta1" "AuthorizationPolicy"
      (edge_metadata (gateway_edge_policy_name service_name rule.id) gateway_namespace service_name
        rule service)
      (("selector", match_ingress) ∷ ("action", str "DENY") ∷ ("rules", objects rules) ∷ [])

unfoldable pub build_gateway_authorization_policy :
    RulePayload → ServicePayload → String → String → List String → Option Payload
build_gateway_authorization_policy rule service service_name gateway_namespace hosts =
    let rules = build_gateway_deny_rules rule hosts in
    if is_empty rules
    then none
    else some (gateway_policy rule service service_name gateway_namespace rules)

-- The manifest of `buildJWTRequestAuthentication` with its name, its namespace and its selector
-- replaced.
unfoldable pub build_gateway_jwt_request_authentication :
    RulePayload → ServicePayload → String → String → Payload
build_gateway_jwt_request_authentication rule service service_name gateway_namespace =
    manifest "security.istio.io/v1beta1" "RequestAuthentication"
      (rule_metadata (gateway_jwt_name service_name rule.id) gateway_namespace service_name rule
        service)
      (("selector", match_ingress) ∷ ("jwtRules", objects (jwt_rule rule ∷ [])) ∷ [])

abbrev ejection : ℤ → ℤ
ejection v = if leb_ℤ v (pos 0) || ltb_ℤ (pos 100) v then pos 50 else v

abbrev breaker_entries : RulePayload → Payload
breaker_entries rule =
    let breaker = rule.policy.circuit_breaker in
    if ltb_ℤ (pos 0) breaker.consecutive_errors
    then (
      "outlierDetection",
      object (
          ("consecutive5xxErrors", num breaker.consecutive_errors)
          ∷ ("interval", str (itoa (or_positive breaker.interval_seconds (pos 10)) ⧺ "s"))
          ∷ (
            "baseEjectionTime",
            str (itoa (or_positive breaker.base_ejection_seconds (pos 30)) ⧺ "s"),
          )
          ∷ ("maxEjectionPercent", num (ejection breaker.max_ejection_percent))
          ∷ []),
    )
      ∷ (
        "connectionPool",
        object (
            (
              "http",
              object (
                  ("http1MaxPendingRequests", num (pos 64))
                  ∷ ("maxRequestsPerConnection", num (pos 0))
                  ∷ []),
            )
            ∷ []),
      )
      ∷ []
    else []

abbrev traffic_policy : RulePayload → Payload
traffic_policy rule =
    breaker_entries rule
    ++ (if rule_auth_mode rule == "mtls"
        then ("tls", object (("mode", str "ISTIO_MUTUAL") ∷ [])) ∷ []
        else [])

unfoldable pub build_edge_destination_rule :
    RulePayload → ServicePayload → String → String → Option Payload
build_edge_destination_rule rule service service_name namespace =
    if denies rule || is_empty (traffic_policy rule)
    then none
    else some (
        manifest "networking.istio.io/v1beta1" "DestinationRule"
          (edge_metadata (edge_destination_rule_name service_name rule.id) namespace service_name
            rule service)
          (("host", str (local_host service_name namespace))
            ∷ ("trafficPolicy", object (traffic_policy rule))
            ∷ []))

unfoldable pub build_edge_peer_authentication :
    RulePayload → ServicePayload → String → String → Option Payload
build_edge_peer_authentication rule service service_name namespace =
    if denies rule || not (rule_auth_mode rule == "mtls")
    then none
    else some (
        manifest "security.istio.io/v1beta1" "PeerAuthentication"
          (edge_metadata (edge_peer_authentication_name service_name rule.id) namespace service_name
            rule service)
          (("selector", match_app service_name)
            ∷ ("mtls", object (("mode", str "STRICT") ∷ []))
            ∷ []))

abbrev network_spec : String → String → Payload
network_spec service_name gateway_namespace =
    ("podSelector", match_app service_name)
    ∷ ("policyTypes", strs ("Ingress" ∷ []))
    ∷ (
      "ingress",
      objects (
          ((
            "from",
            objects (
                ((
                  "namespaceSelector",
                  object (
                      (
                        "matchLabels",
                        object (("kubernetes.io/metadata.name", str gateway_namespace) ∷ []),
                      )
                      ∷ []),
                )
                  ∷ [])
                ∷ (("podSelector", object []) ∷ [])
                ∷ []),
          )
            ∷ [])
          ∷ []),
    )
    ∷ []

unfoldable pub build_edge_network_policy :
    RulePayload → ServicePayload → String → String → String → Option Payload
build_edge_network_policy rule service service_name namespace gateway_namespace =
    let gateway =
      if trim_space gateway_namespace == "" then "istio-system" else gateway_namespace in
    if denies rule || not rule.policy.lock_network
    then none
    else some (
        manifest "networking.k8s.io/v1" "NetworkPolicy"
          (edge_metadata (edge_network_policy_name service_name rule.id) namespace service_name rule
            service)
          (network_spec service_name gateway))
