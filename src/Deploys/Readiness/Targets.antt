-- ===== src/Deploys/Readiness/Targets.antt =====
-- Which workloads a deploy waits for.
use releasea_worker.Prelude.{
  String, true, false, not, ◌&&◌, List, [], ◌∷◌, ◌≡◌, refl, ◌≢◌, ap, ◌∙◌, inl, inr, map, In, ◌==◌,
  eq_iff, is_empty, if_split, trim_space, trim_space_idem, arith,
}
use releasea_worker.Models.Service.{DeploymentStrategyConfig}
use releasea_worker.Shared.Unique.{unique_strings}
use releasea_worker.Shared.Unique.Laws.{IsDistinct, unique_strings_lem}
use releasea_worker.Shared.Strategy.{normalize_type}
use releasea_worker.Deploys.Readiness.{
  is_workload_readiness_required, DeploymentResourceHint, collect_hinted_deployment_names, first_or,
  strategy_targets, resolve_workload_targets_with_hints,
}

-- The targets are texts that are not empty, each once.
abbrev IsNamed : List String → Type 0
IsNamed targets = IsDistinct targets × ((x : String) → In x targets → x ≢ "")

unique_strings-IsNamed : (values : List String) → IsNamed (unique_strings values)
unique_strings-IsNamed values =
    let (found, distinct, again) = unique_strings_lem values in (distinct, λ x i. ((found x).0 i).0)

is_empty-no_list : (xs : List String) → xs ≢ [] → is_empty xs ≡ false
is_empty-no_list [] h = absurd (h refl)
is_empty-no_list (x ∷ xs) h = refl

rolling_targets :
    (primary name : String)
    → (hinted : List String) → is_empty hinted ≡ false
    → strategy_targets "rolling" primary name hinted ≡ hinted
unfolding strategy_targets
rolling_targets primary name hinted h = rw h

strategy_targets_first :
    (strategy primary name : String)
    → strategy ≢ "blue-green"
    → In name (strategy_targets strategy primary name [])
unfolding strategy_targets
strategy_targets_first strategy primary name h =
    if_split (In name) (strategy == "canary") (λ u. inl refl)
      (λ u.
        if_split (In name) (strategy == "blue-green")
          (λ v. absurd (h ((eq_iff strategy "blue-green").0 v))) (λ v. inl refl))

first_target :
    (hinted : List String)
    → (first strategy primary : String) → hinted ≡ []
    → strategy ≢ "blue-green"
    → In first (strategy_targets strategy primary (first_or first hinted) hinted)
first_target hinted first strategy primary none_hinted h =
    rw none_hinted (strategy_targets_first strategy primary first h)

stays_trimmed :
    (x : String) → (xs : List String) → trim_space x ≡ x → In x xs → In x (map trim_space xs)
stays_trimmed x [] h i = absurd i
stays_trimmed x (y ∷ ys) h (inl e) = inl (cc)
stays_trimmed x (y ∷ ys) h (inr i) = inr (stays_trimmed x ys h i)

module _ (kind template : String) (strategy : DeploymentStrategyConfig) (service_name : String)
    (hints : List DeploymentResourceHint) where
  resolve-IsNamed :
      IsNamed (resolve_workload_targets_with_hints kind template strategy service_name hints)
  unfolding resolve_workload_targets_with_hints
  resolve-IsNamed =
      let hinted = collect_hinted_deployment_names hints in
      let name = first_or (trim_space service_name) hinted in
      if_split IsNamed (name == "" && is_empty hinted) (λ u. (tt, λ x i. absurd i))
        (λ u.
          if_split IsNamed (not (is_workload_readiness_required kind template))
            (λ v. (tt, λ x i. absurd i)) (λ v. unique_strings-IsNamed _))

  not_required :
      is_workload_readiness_required kind template ≡ false
      → resolve_workload_targets_with_hints kind template strategy service_name hints ≡ []
  unfolding resolve_workload_targets_with_hints
  not_required h = ground arith

  required :
      let hinted = collect_hinted_deployment_names hints in
      let name = first_or (trim_space service_name) hinted in
      is_workload_readiness_required kind template ≡ true
      → (name == "" && is_empty hinted) ≡ false
      → resolve_workload_targets_with_hints kind template strategy service_name hints
        ≡ unique_strings (
            strategy_targets
              (normalize_type template strategy.kind)
              strategy.blue_green_primary
              name
              hinted)
  unfolding resolve_workload_targets_with_hints
  required h k = rw (h, k) refl

  again_hinted :
      unique_strings (collect_hinted_deployment_names hints) ≡ collect_hinted_deployment_names hints
  unfolding collect_hinted_deployment_names
  again_hinted = (unique_strings_lem (map (λ (hint : DeploymentResourceHint). hint.name) hints)).2

  as_hinted :
      is_workload_readiness_required kind template ≡ true
      → normalize_type template strategy.kind ≡ "rolling"
      → collect_hinted_deployment_names hints ≢ []
      → resolve_workload_targets_with_hints kind template strategy service_name hints
        ≡ collect_hinted_deployment_names hints
  as_hinted h r some_hints =
      let hinted = collect_hinted_deployment_names hints in
      let full = is_empty-no_list hinted some_hints in
      required h (ground (arith, full))
      ∙ ap unique_strings (
          ap
            (λ s.
              strategy_targets s strategy.blue_green_primary
                (first_or (trim_space service_name) hinted) hinted)
            r
          ∙ rolling_targets _ _ hinted full)
      ∙ again_hinted

  by_name :
      is_workload_readiness_required kind template ≡ true
      → collect_hinted_deployment_names hints ≡ []
      → trim_space service_name ≢ ""
      → normalize_type template strategy.kind ≢ "blue-green"
      → In
          (trim_space service_name)
          (resolve_workload_targets_with_hints kind template strategy service_name hints)
  by_name h none_hinted named s =
      let hinted = collect_hinted_deployment_names hints in
      let first = trim_space service_name in
      let targets =
        strategy_targets (normalize_type template strategy.kind) strategy.blue_green_primary
          (first_or first hinted) hinted in
      let among =
        stays_trimmed first targets (trim_space_idem service_name)
          (first_target hinted first _ _ none_hinted s) in
      rw (required h (ground (arith, eq_iff first "", named, none_hinted)))
        (((unique_strings_lem targets).0 first).1 (named, among))

-- The workloads that a deploy waits for are names, none empty and none twice. There are none if the
-- kind of service needs no readiness. Otherwise a rolling deploy waits for exactly the deployments
-- that the payload names, where it names any; and where it names none, a deploy that is not
-- blue-green waits for the service's own name, if that is not blank.
pub resolve_workload_targets_with_hints_lem :
    (kind template : String)
    → (strategy : DeploymentStrategyConfig) → (service_name : String)
    → (hints : List DeploymentResourceHint)
    → let targets = resolve_workload_targets_with_hints kind template strategy service_name hints in
      let hinted = collect_hinted_deployment_names hints in
      let required = is_workload_readiness_required kind template in
      let deploy = normalize_type template strategy.kind in
      (IsDistinct targets × ((x : String) → In x targets → x ≢ ""))
      × (required ≡ false → targets ≡ [])
      × (required ≡ true → deploy ≡ "rolling" → hinted ≢ [] → targets ≡ hinted)
      × (required ≡ true
          → hinted ≡ []
          → trim_space service_name ≢ ""
          → deploy ≢ "blue-green"
          → In (trim_space service_name) targets)
resolve_workload_targets_with_hints_lem kind template strategy service_name hints = (
  resolve-IsNamed kind template strategy service_name hints,
  not_required kind template strategy service_name hints,
  as_hinted kind template strategy service_name hints,
  by_name kind template strategy service_name hints,
)
