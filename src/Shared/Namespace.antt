-- ===== src/Shared/Namespace.antt =====
-- internal/platform/shared/namespace_validate_policy.go. The variable RELEASEA_NAMESPACE_MAPPING is an
-- argument: what its JSON decodes to, in the order in which the loop visits it, and `none` where the
-- variable is empty or does not decode.
pub mod Policy
use releasea_worker.Prelude.{
  String, Bool, true, false, not, ◌&&◌, ◌||◌, Option, none, some, List, [], ◌∷◌, if◌then◌else◌,
  ◌==◌, trim_space, to_lower, lookup, insert, ◌⧺◌,
}

abbrev pub namespace_production : String
namespace_production = "releasea-apps-production"

abbrev pub namespace_staging : String
namespace_staging = "releasea-apps-staging"

abbrev pub namespace_development : String
namespace_development = "releasea-apps-development"

abbrev pub namespace_system : String
namespace_system = "releasea-system"

unfoldable pub default_namespace_mapping : List (String × String)
default_namespace_mapping =
    ("prod", namespace_production)
    ∷ ("production", namespace_production)
    ∷ ("live", namespace_production)
    ∷ ("staging", namespace_staging)
    ∷ ("stage", namespace_staging)
    ∷ ("pre-prod", namespace_staging)
    ∷ ("preprod", namespace_staging)
    ∷ ("uat", namespace_staging)
    ∷ ("pre-release", namespace_staging)
    ∷ ("homol", namespace_staging)
    ∷ ("hml", namespace_staging)
    ∷ ("homolog", namespace_staging)
    ∷ ("homologation", namespace_staging)
    ∷ ("dev", namespace_development)
    ∷ ("development", namespace_development)
    ∷ ("qa", namespace_development)
    ∷ ("sandbox", namespace_development)
    ∷ ("test", namespace_development)
    ∷ ("testing", namespace_development)
    ∷ ("preview", namespace_development)
    ∷ ("feature", namespace_development)
    ∷ ("ci", namespace_development)
    ∷ ("local", namespace_development)
    ∷ []

unfoldable pub is_valid_app_namespace : String → Bool
is_valid_app_namespace namespace =
    namespace == namespace_production
    || namespace == namespace_staging
    || namespace == namespace_development

-- One round of the loop over the overrides.
unfoldable pub apply_override : List (String × String) → String × String → List (String × String)
apply_override merged (env, ns) =
    let env' = trim_space (to_lower env) in
    let ns' = trim_space ns in
    if not (env' == "") && not (ns' == "") && is_valid_app_namespace ns'
    then insert env' ns' merged
    else merged

unfoldable pub apply_overrides :
    List (String × String) → List (String × String) → List (String × String)
apply_overrides merged [] = merged
apply_overrides merged (o ∷ overrides) = apply_overrides (apply_override merged o) overrides

unfoldable pub load_namespace_mapping : Option (List (String × String)) → List (String × String)
unfolding apply_overrides apply_override default_namespace_mapping
load_namespace_mapping none = default_namespace_mapping
load_namespace_mapping (some overrides) = apply_overrides default_namespace_mapping overrides

abbrev or_development : Option String → String
or_development none = namespace_development
or_development (some ns) = ns

-- `resolveAppNamespace`, and `ResolveNamespace`, which calls it.
unfoldable pub resolve_app_namespace : Option (List (String × String)) → String → String
unfolding load_namespace_mapping lookup
resolve_app_namespace overrides environment =
    let environment' = trim_space (to_lower environment) in
    let environment'' = if environment' == "" then "prod" else environment' in
    or_development (lookup environment'' (load_namespace_mapping overrides))

unfoldable pub is_system_namespace : String → Bool
is_system_namespace namespace = trim_space (to_lower namespace) == namespace_system

-- The error that `validateAppNamespace` returns; `none` is nil.
unfoldable pub validate_app_namespace : String → Option String
unfolding is_system_namespace is_valid_app_namespace
validate_app_namespace namespace =
    if is_system_namespace namespace
    then some (
        "namespace \"" ⧺ namespace
        ⧺ "\" is reserved for platform components; application workloads cannot be deployed there")
    else if not (is_valid_app_namespace namespace)
    then some (
        "namespace \"" ⧺ namespace ⧺ "\" is not a valid application namespace; allowed: "
        ⧺ namespace_production ⧺ ", " ⧺ namespace_staging ⧺ ", " ⧺ namespace_development)
    else none
