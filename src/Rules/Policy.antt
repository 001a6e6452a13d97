-- ===== src/Rules/Policy.antt =====
-- rules_edge_manifest.go and rules_rule_build_manifest.go: which requests a route takes, and the policies of a
-- route. A manifest is a list of entries, with one entry for each key.
use releasea_worker.Prelude.{
  String, Bool, true, false, not, ◌&&◌, ◌||◌, ◌⧺◌, Option, none, some, List, [], ◌∷◌, ◌++◌, map,
  ◌==◌, is_empty, if◌then◌else◌, lookup, insert, trim_space, to_lower, to_upper,
}
use releasea_worker.Prelude.Int.{ℤ, pos, ltb_ℤ, leb_ℤ, itoa}
use releasea_worker.Models.Payload.{Value, num, str, strs, Payload, object, array}
use releasea_worker.Models.Rule.{RulePayload}
use releasea_worker.Shared.Unique.{unique_strings}
use releasea_worker.Rules.Names.{
  denies, rule_auth_mode, or_default, normalize_policy_methods, normalize_header_names,
  normalize_rule_path,
}

abbrev pub prefix_match : String → Payload
prefix_match path = ("uri", object (("prefix", str path) ∷ [])) ∷ []

unfoldable pub method_matches : String → List String → List Payload
method_matches path [] = []
method_matches path (raw ∷ methods) =
    let method = trim_space raw in
    let rest = method_matches path methods in
    if method == ""
    then rest
    else (prefix_match path ++ ("method", object (("exact", str (to_upper method)) ∷ [])) ∷ [])
      ∷ rest

unfoldable pub path_matches : List String → List String → List Payload
path_matches [] methods = []
path_matches (raw ∷ paths) methods =
    let path = normalize_rule_path raw in
    let rest = path_matches paths methods in
    if is_empty methods then prefix_match path ∷ rest else method_matches path methods ++ rest

unfoldable pub build_rule_http_matches : List String → List String → List Payload
build_rule_http_matches paths methods =
    if is_empty paths && is_empty methods
    then []
    else path_matches (if is_empty paths then "/" ∷ [] else paths) methods

abbrev pub header_or_default : RulePayload → String
header_or_default rule = or_default (to_lower (trim_space rule.policy.api_key_header)) "x-api-key"

unfoldable pub api_key_constraint : RulePayload → String × List String
api_key_constraint rule =
    if denies rule || not (rule_auth_mode rule == "apikey")
    then ("", [])
    else (header_or_default rule, unique_strings rule.policy.api_keys)

unfoldable pub with_match_headers : List Payload → Payload → List Payload
with_match_headers matches headers =
    map (λ (m : Payload). insert "headers" (object headers) m) matches

abbrev pub required_match : String → String × Value
required_match name = (name, object (("regex", str ".+") ∷ []))

abbrev pub key_match : String → Value
key_match key = object (("exact", str key) ∷ [])

unfoldable pub keyed_matches : List Payload → Payload → String → List String → List Payload
keyed_matches base required header [] = []
keyed_matches base required header (key ∷ keys) =
    with_match_headers base (insert header (key_match key) required)
    ++ keyed_matches base required header keys

-- `none` where the rule asks for no header.
unfoldable pub edge_positive_matches : RulePayload → Option (List Payload)
edge_positive_matches rule =
    let (header, keys) = api_key_constraint rule in
    let names = normalize_header_names rule.policy.required_headers in
    let matches = build_rule_http_matches rule.paths rule.methods in
    let base = if is_empty matches then [] ∷ [] else matches in
    let required = map required_match names in
    if header == "" && is_empty names
    then none
    else if is_empty keys
    then (if not (header == "") then some [] else some (with_match_headers base required))
    else some (keyed_matches base required header keys)

abbrev pub objects : List Payload → Value
objects entries = array (map object entries)

abbrev pub allow_origins : List String → List Payload
allow_origins [] = (("regex", str ".*") ∷ []) ∷ []
allow_origins (origin ∷ []) =
    if origin == "*" then (("regex", str ".*") ∷ []) ∷ [] else (("exact", str origin) ∷ []) ∷ []
allow_origins origins = map (λ (origin : String). ("exact", str origin) ∷ []) origins

abbrev pub or_list : List String → List String → List String
or_list [] fallback = fallback
or_list (x ∷ xs) fallback = x ∷ xs

abbrev pub or_positive : ℤ → ℤ → ℤ
or_positive v fallback = if leb_ℤ v (pos 0) then fallback else v

unfoldable pub build_cors_policy : RulePayload → Option Payload
build_cors_policy rule =
    let cors = rule.policy.cors in
    if not cors.enabled || denies rule
    then none
    else some (
        ("allowOrigins", objects (allow_origins (unique_strings cors.origins)))
        ∷ (
          "allowMethods",
          strs (
              or_list (normalize_policy_methods cors.methods)
                (normalize_policy_methods rule.methods)),
        )
        ∷ (
          "allowHeaders",
          strs (
              or_list (normalize_header_names cors.headers)
                ("authorization" ∷ "content-type" ∷ "x-requested-with" ∷ "x-api-key" ∷ [])),
        )
        ∷ ("maxAge", str (itoa (or_positive cors.max_age_seconds (pos 600)) ⧺ "s"))
        ∷ [])

abbrev pub security_headers : Value
security_headers = object (
    (
      "response",
      object (
          (
            "set",
            object (
                ("x-content-type-options", str "nosniff")
                ∷ ("x-frame-options", str "DENY")
                ∷ ("referrer-policy", str "no-referrer")
                ∷ ("x-xss-protection", str "0")
                ∷ ("strict-transport-security", str "max-age=31536000; includeSubDomains")
                ∷ []),
          )
          ∷ []),
    )
    ∷ [])

abbrev pub has_key : String → Payload → Bool
has_key key entries = elim (lookup key entries) [ none ↦ false | some v ↦ true ]

abbrev pub set_if : Bool → String → Value → Payload → Payload
set_if test key value entries = if test then insert key value entries else entries

abbrev pub set_some : Option Payload → String → Payload → Payload
set_some none key entries = entries
set_some (some value) key entries = insert key (object value) entries

unfoldable pub apply_edge_http_policy : RulePayload → Payload → Payload
apply_edge_http_policy rule route =
    let policy = rule.policy in
    let timed =
      set_if (ltb_ℤ (pos 0) policy.timeout_ms) "timeout" (str (itoa policy.timeout_ms ⧺ "ms"))
        route in
    let retried =
      set_if
        (ltb_ℤ (pos 0) policy.retries && not (denies rule) && not (has_key "directResponse" timed))
        "retries"
        (object (
          ("attempts", num policy.retries)
          ∷ ("perTryTimeout", str (itoa (or_positive policy.timeout_ms (pos 1000)) ⧺ "ms"))
          ∷ ("retryOn", str "gateway-error,connect-failure,refused-stream,reset")
          ∷ []))
        timed in
    set_if policy.security_headers "headers" security_headers
      (set_some (build_cors_policy rule) "corsPolicy" retried)
