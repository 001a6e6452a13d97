-- ===== src/Rules/Access.antt =====
-- rules_rule_build_manifest.go: the manifests that keep requests out of a service, by its sidecar.
use releasea_worker.Prelude.{String, List, [], ◌∷◌, ◌++◌, trim_space}
use releasea_worker.Models.Payload.{Value, str, strs, Payload, object}
use releasea_worker.Models.Service.{ServicePayload}
use releasea_worker.Models.Rule.{RulePayload}
use releasea_worker.Shared.Unique.{unique_strings}
use releasea_worker.Rules.Names.{
  build_jwt_authentication_name, build_jwt_authorization_policy_name, normalize_policy_methods,
  expand_deny_policy_paths,
}
use releasea_worker.Rules.Policy.{objects}
use releasea_worker.Rules.Routes.{manifest, rule_metadata}

-- An entry that is there where the list is not empty.
abbrev pub strings_entry : String → List String → Payload
strings_entry key [] = []
strings_entry key (x ∷ xs) = (key, strs (x ∷ xs)) ∷ []

abbrev pub match_app : String → Value
match_app service_name = object (("matchLabels", object (("app", str service_name) ∷ [])) ∷ [])

abbrev pub jwt_rule : RulePayload → Payload
jwt_rule rule =
    ("issuer", str (trim_space rule.policy.jwt_issuer))
    ∷ ("jwksUri", str (trim_space rule.policy.jwks_uri))
    ∷ strings_entry "audiences" (unique_strings rule.policy.audiences)

unfoldable pub build_jwt_request_authentication :
    RulePayload → ServicePayload → String → String → Payload
build_jwt_request_authentication rule service service_name namespace =
    manifest "security.istio.io/v1beta1" "RequestAuthentication"
      (rule_metadata (build_jwt_authentication_name service_name rule.id) namespace service_name
        rule service)
      (("selector", match_app service_name) ∷ ("jwtRules", objects (jwt_rule rule ∷ [])) ∷ [])

-- The entry `to`, where the operation says anything.
abbrev pub to_entry : Payload → Payload
to_entry [] = []
to_entry (e ∷ es) = ("to", objects ((("operation", object (e ∷ es)) ∷ []) ∷ [])) ∷ []

abbrev pub from_entry : Payload → Payload
from_entry [] = []
from_entry (e ∷ es) = ("from", objects ((("source", object (e ∷ es)) ∷ []) ∷ [])) ∷ []

abbrev pub rule_operation : RulePayload → Payload
rule_operation rule =
    strings_entry "methods" (normalize_policy_methods rule.methods)
    ++ strings_entry "paths" (expand_deny_policy_paths rule.paths)

abbrev pub no_principal : Payload
no_principal = ("notRequestPrincipals", strs ("*" ∷ [])) ∷ []

abbrev deny_policy : String → RulePayload → ServicePayload → String → String → Payload → Payload
deny_policy name rule service service_name namespace entry =
    manifest "security.istio.io/v1beta1" "AuthorizationPolicy"
      (rule_metadata name namespace service_name rule service)
      (("selector", match_app service_name)
        ∷ ("action", str "DENY")
        ∷ ("rules", objects (entry ∷ []))
        ∷ [])

unfoldable pub build_jwt_authorization_policy :
    RulePayload → ServicePayload → String → String → Payload
build_jwt_authorization_policy rule service service_name namespace =
    deny_policy (build_jwt_authorization_policy_name service_name rule.id) rule service service_name
      namespace (from_entry no_principal ++ to_entry (rule_operation rule))

unfoldable pub build_deny_authorization_policy :
    RulePayload → ServicePayload → String → String → String → Payload
build_deny_authorization_policy rule service service_name namespace policy_name =
    deny_policy policy_name rule service service_name namespace (to_entry (rule_operation rule))
