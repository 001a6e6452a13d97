-- ===== src/Shared/Namespace/Policy.antt =====
-- Every environment resolves to one of the three application namespaces.
use releasea_worker.Prelude.{
  String, true, Option, none, some, List, [], ◌∷◌, ◌≡◌, refl, ◌⊎◌, inl, inr, ◌≢◌, All, eq_iff,
  arith, trim_space, to_lower, lookup, insert,
}
use releasea_worker.Shared.Namespace.{
  namespace_production, namespace_staging, namespace_development, namespace_system,
  default_namespace_mapping, is_valid_app_namespace, apply_override, apply_overrides,
  load_namespace_mapping, or_development, resolve_app_namespace, validate_app_namespace,
}

abbrev IsPolicy : List (String × String) → Type 0
IsPolicy m = All (λ entry. is_valid_app_namespace entry.1 ≡ true) m

default-IsPolicy : IsPolicy default_namespace_mapping
unfolding default_namespace_mapping is_valid_app_namespace
default-IsPolicy = ground arith

insert-IsPolicy :
    (k v : String) (m : List (String × String))
    → IsPolicy m
    → is_valid_app_namespace v ≡ true
    → IsPolicy (insert k v m)
unfolding insert
insert-IsPolicy k v [] h e = (e, tt)
insert-IsPolicy k v ((j, w) ∷ m) h e = ground (arith, insert-IsPolicy k v m h.1 e)

apply_override-IsPolicy :
    (m : List (String × String)) (env ns : String)
    → IsPolicy m
    → IsPolicy (apply_override m (env, ns))
unfolding apply_override
apply_override-IsPolicy m env ns h =
    ground (arith, insert-IsPolicy (trim_space (to_lower env)) (trim_space ns) m h)

apply_overrides-IsPolicy :
    (m overrides : List (String × String)) → IsPolicy m → IsPolicy (apply_overrides m overrides)
unfolding apply_overrides
apply_overrides-IsPolicy m [] h = h
apply_overrides-IsPolicy m ((env, ns) ∷ os) h =
    apply_overrides-IsPolicy (apply_override m (env, ns)) os (apply_override-IsPolicy m env ns h)

load-IsPolicy : (os : Option (List (String × String))) → IsPolicy (load_namespace_mapping os)
unfolding load_namespace_mapping
load-IsPolicy none = default-IsPolicy
load-IsPolicy (some os) = apply_overrides-IsPolicy default_namespace_mapping os default-IsPolicy

lookup-valid :
    (k : String) (m : List (String × String))
    → IsPolicy m
    → is_valid_app_namespace (or_development (lookup k m)) ≡ true
unfolding lookup
lookup-valid k [] h = unfold is_valid_app_namespace in refl
lookup-valid k ((j, v) ∷ m) h = ground (arith, lookup-valid k m h.1)

pub resolve-valid :
    (os : Option (List (String × String))) (environment : String)
    → is_valid_app_namespace (resolve_app_namespace os environment) ≡ true
unfolding resolve_app_namespace
resolve-valid os environment = lookup-valid _ (load_namespace_mapping os) (load-IsPolicy os)

abbrev pub IsAppNamespace : String → Type 0
IsAppNamespace ns =
    (ns ≡ namespace_production) ⊎ ((ns ≡ namespace_staging) ⊎ (ns ≡ namespace_development))

valid-IsAppNamespace : (ns : String) → is_valid_app_namespace ns ≡ true → IsAppNamespace ns
unfolding is_valid_app_namespace
valid-IsAppNamespace ns h = ground (
  arith,
  eq_iff ns namespace_production,
  eq_iff ns namespace_staging,
  eq_iff ns namespace_development,
)

IsAppNamespace-validate : (ns : String) → IsAppNamespace ns → validate_app_namespace ns ≡ none
unfolding validate_app_namespace trim_space to_lower
IsAppNamespace-validate ns (inl e) = rw e
IsAppNamespace-validate ns (inr (inl e)) = rw e
IsAppNamespace-validate ns (inr (inr e)) = rw e

IsAppNamespace-ne-system : (ns : String) → IsAppNamespace ns → ns ≢ namespace_system
IsAppNamespace-ne-system ns h = ground (
  arith,
  eq_iff namespace_production namespace_system,
  eq_iff namespace_staging namespace_system,
  eq_iff namespace_development namespace_system,
)

-- Whatever the overrides and whatever the environment's name, the resolved namespace is one of the
-- three application namespaces, is never the system namespace, and passes the validation that guards
-- a deploy.
pub resolve_app_namespace-validate :
    (os : Option (List (String × String))) (environment : String)
    → IsAppNamespace (resolve_app_namespace os environment)
      × (resolve_app_namespace os environment ≢ namespace_system)
      × (validate_app_namespace (resolve_app_namespace os environment) ≡ none)
resolve_app_namespace-validate os environment =
    let h = valid-IsAppNamespace _ (resolve-valid os environment) in
    (h, IsAppNamespace-ne-system _ h, IsAppNamespace-validate _ h)
