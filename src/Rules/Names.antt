-- ===== src/Rules/Names.antt =====
-- rules_rule_build_manifest.go and rules_edge_manifest.go: what a rule asks for, the names of its
-- resources, and its paths, hosts and gateways.
pub mod Labels
use releasea_worker.Prelude.{
  ℕ, ltb, leb, code, Char, String, Bool, true, false, not, ◌&&◌, ◌||◌, ◌⧺◌, List, [], ◌∷◌, ◌++◌,
  map, any, ◌==◌, ◌=ℕ◌, is_empty, if◌then◌else◌, trim, trim_right, trim_space, to_lower, to_upper,
  has_prefix, has_suffix, contains, trim_suffix, size, ◌≡◌, refl,
}
use Prim.Native.String
use releasea_worker.Models.Operation.{Config}
use releasea_worker.Models.Rule.{RulePayload}
use releasea_worker.Shared.Unique.{unique_strings, has_host_suffix}
use releasea_worker.Shared.KubeName.{is_dash, first, to_kube_name}

unfoldable pub rule_action : RulePayload → String
rule_action rule =
    let action = to_lower (trim_space rule.policy.action) in
    if action == "" then "allow" else action

abbrev pub denies : RulePayload → Bool
denies rule = rule_action rule == "deny"

unfoldable pub rule_auth_mode : RulePayload → String
rule_auth_mode rule =
    let mode = to_lower (trim_space rule.policy.auth_mode) in
    if mode == "jwt" || (mode == "apikey" || mode == "mtls") then mode else "public"

-- `if name == "" { name = fallback }`.
abbrev pub or_default : String → String → String
or_default name fallback = if name == "" then fallback else name

-- `strings.Trim(name[:63], "-")` where the name is longer than that.
unfoldable pub cut_name : String → String
cut_name name = if leb (size name) 63 then name else trim is_dash (first 63 name)

unfoldable pub build_security_resource_name : String → String → String → String
build_security_resource_name service_name rule_id suffix =
    let service_part = or_default (to_kube_name service_name) "service" in
    let rule_part = or_default (to_kube_name rule_id) "rule" in
    cut_name (service_part ⧺ "-" ⧺ rule_part ⧺ "-" ⧺ suffix)

unfoldable pub build_deny_policy_name : String → String → String → String
build_deny_policy_name service_name rule_name rule_id =
    let base_service = or_default (to_kube_name service_name) "service" in
    let base_rule =
      or_default (or_default (to_kube_name rule_name) (to_kube_name rule_id)) "rule" in
    cut_name (base_service ⧺ "-deny-" ⧺ base_rule)

unfoldable pub edge_route_name : String → String
edge_route_name rule_id = cut_name ("edge-" ⧺ or_default (to_kube_name rule_id) "rule")

unfoldable pub rule_virtual_service_name : String → String → String
rule_virtual_service_name service_name rule_id =
    let base = or_default (to_kube_name rule_id) "rule" in
    if has_prefix base (service_name ⧺ "-") then base else service_name ⧺ "-" ⧺ base

abbrev pub build_jwt_authentication_name : String → String → String
build_jwt_authentication_name service_name rule_id =
    build_security_resource_name service_name rule_id "jwt"

abbrev pub build_jwt_authorization_policy_name : String → String → String
build_jwt_authorization_policy_name service_name rule_id =
    build_security_resource_name service_name rule_id "require-auth"

abbrev pub gateway_edge_policy_name : String → String → String
gateway_edge_policy_name service_name rule_id =
    build_security_resource_name service_name rule_id "gw"

abbrev pub gateway_jwt_name : String → String → String
gateway_jwt_name service_name rule_id = build_security_resource_name service_name rule_id "gjwt"

abbrev pub edge_rate_limit_name : String → String → String
edge_rate_limit_name service_name rule_id = build_security_resource_name service_name rule_id "rl"

abbrev pub edge_destination_rule_name : String → String → String
edge_destination_rule_name service_name rule_id =
    build_security_resource_name service_name rule_id "dr"

abbrev pub edge_peer_authentication_name : String → String → String
edge_peer_authentication_name service_name rule_id =
    build_security_resource_name service_name rule_id "mtls"

abbrev pub edge_network_policy_name : String → String → String
edge_network_policy_name service_name rule_id =
    build_security_resource_name service_name rule_id "net"

-- The loops of `normalizePolicyMethods`, `normalizeHeaderNames` and `normalizeScopes`: the values,
-- cleaned, without those that are left empty.
unfoldable pub cleaned : (String → String) → List String → List String
cleaned clean [] = []
cleaned clean (value ∷ values) =
    let value' = clean (trim_space value) in
    let rest = cleaned clean values in if value' == "" then rest else value' ∷ rest

unfoldable pub normalize_policy_methods : List String → List String
normalize_policy_methods methods = unique_strings (cleaned to_upper methods)

unfoldable pub normalize_header_names : List String → List String
normalize_header_names values = unique_strings (cleaned to_lower values)

unfoldable pub normalize_scopes : List String → List String
normalize_scopes values = unique_strings (cleaned (λ s. s) values)

is_star : Char → Bool
is_star c = code c =ℕ b'*'

unfoldable pub normalize_rule_path : String → String
unfolding is_star
normalize_rule_path value =
    let path = trim_space value in
    let path' = trim_right is_star (trim_suffix path "/*") in
    if path == "" || path == "*"
    then "/"
    else if path' == ""
    then "/"
    else if not (has_prefix path' "/")
    then "/" ⧺ path'
    else path'

unfoldable pub expand_paths : List String → List String
expand_paths [] = []
expand_paths (raw ∷ paths) =
    let path = normalize_rule_path raw in
    let rest = expand_paths paths in
    if path == ""
    then rest
    else if path == "/"
    then "/" ∷ "/*" ∷ rest
    else if has_suffix path "/*"
    then path ∷ rest
    else path ∷ (path ⧺ "/*") ∷ rest

unfoldable pub expand_deny_policy_paths : List String → List String
expand_deny_policy_paths paths = unique_strings (expand_paths paths)

unfoldable pub environment_host_label : String → String
environment_host_label namespace =
    if contains namespace "production"
    then "prod"
    else if contains namespace "staging"
    then "staging"
    else "dev"

-- The label is never empty.
unfoldable pub environment_qualified_host : String → String → String → String
environment_qualified_host service_name namespace domain =
    service_name ⧺ "-" ⧺ environment_host_label namespace ⧺ "." ⧺ domain

-- `strings.Split(value, "/")`, its last part.
unfoldable pub last_part : String → String
last_part String.[] = ""
last_part (String.◌∷◌ c s) =
    let rest = last_part s in if contains (String.◌∷◌ c s) "/" then rest else String.◌∷◌ c s

unfoldable pub path_base : String → String
path_base value = last_part (trim_suffix value "/")

unfoldable pub gateway_matches : List String → String → Bool
gateway_matches gateways target =
    if target == ""
    then false
    else any (λ gateway. gateway == target || gateway == path_base target) gateways

abbrev with_domain : Bool → String → String → String → List String → List String
with_domain matches domain service_name namespace out =
    if matches && not (domain == "") && not (has_host_suffix out domain)
    then out ++ environment_qualified_host service_name namespace domain ∷ []
    else out

abbrev pub local_host : String → String → String
local_host service_name namespace = service_name ⧺ "." ⧺ namespace ⧺ ".svc.cluster.local"

unfoldable pub resolve_rule_hosts :
    List String → List String → String → String → Config → List String
resolve_rule_hosts hosts gateways service_name namespace cfg =
    let internal =
      with_domain (gateway_matches gateways cfg.internal_gateway) cfg.internal_domain service_name
        namespace (unique_strings hosts) in
    let out =
      with_domain (gateway_matches gateways cfg.external_gateway) cfg.external_domain service_name
        namespace internal in
    unique_strings (if is_empty out then local_host service_name namespace ∷ [] else out)

abbrev matches_gateway : String → String → Bool
matches_gateway configured value =
    not (configured == "") && (value == configured || value == path_base configured)

unfoldable pub mapped_gateways : List String → Config → List String
mapped_gateways [] cfg = []
mapped_gateways (gateway ∷ gateways) cfg =
    let value = trim_space gateway in
    let rest = mapped_gateways gateways cfg in
    if value == "" || value == "mesh"
    then rest
    else if matches_gateway cfg.internal_gateway value
    then cfg.internal_gateway ∷ rest
    else if matches_gateway cfg.external_gateway value
    then cfg.external_gateway ∷ rest
    else value ∷ rest

unfoldable pub map_rule_gateways : List String → Config → List String
map_rule_gateways gateways cfg = unique_strings (mapped_gateways gateways cfg)

-- The part before the first slash, where it is not empty and there is one.
before_slash : String → String
before_slash String.[] = ""
before_slash (String.◌∷◌ c s) =
    let rest = before_slash s in if code c =ℕ b'/' then "" else String.◌∷◌ c rest

slash_namespace : String → String
unfolding before_slash
slash_namespace ref = if contains ref "/" then before_slash ref else ""

unfoldable pub gateway_namespace : Config → String
unfolding slash_namespace
gateway_namespace cfg =
    or_default
      (or_default (slash_namespace (trim_space cfg.external_gateway))
        (slash_namespace (trim_space cfg.internal_gateway)))
      "istio-system"

unfoldable pub static_nginx_host : Config → String
static_nginx_host cfg =
    let service = trim_space cfg.static_nginx_service in
    let namespace = trim_space cfg.static_nginx_namespace in
    if service == "" then "" else if namespace == "" then service else local_host service namespace

names_tests :
    (normalize_rule_path " api/v1/* " ≡ "/api/v1")
    × (path_base "istio-system/external/" ≡ "external")
    × (expand_deny_policy_paths ("*" ∷ "/a" ∷ []) ≡ "/" ∷ "/*" ∷ "/a" ∷ "/a/*" ∷ [])
unfolding normalize_rule_path path_base last_part expand_deny_policy_paths expand_paths trim_suffix
    trim_right trim_space contains has_prefix has_suffix unique_strings
names_tests = (refl, refl, refl)
