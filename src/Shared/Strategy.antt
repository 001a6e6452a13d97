-- ===== src/Shared/Strategy.antt =====
-- internal/platform/shared/deploy_strategy_normalize.go, source_type_normalize.go and the port of
-- kube_name_format.go.
use releasea_worker.Prelude.{
  String, ◌||◌, ◌≡◌, refl, sym, ◌≢◌, ◌⊎◌, inl, inr, if◌then◌else◌, ◌==◌, eq_iff, arith, Bool-cases,
  trim_space, to_lower, equal_fold,
}
use releasea_worker.Prelude.Int.{ℤ, pos, leb_ℤ, ltb_ℤ, ◌≤ℤ◌}

unfoldable pub normalize_type : String → String → String
normalize_type deploy_template_id strategy_type =
    let lowered = to_lower (trim_space strategy_type) in
    if equal_fold deploy_template_id "tpl-cronjob"
    then "rolling"
    else if lowered == "canary" || lowered == "blue-green" || lowered == "rolling"
    then lowered
    else "rolling"

unfoldable pub normalize_canary_percent : ℤ → ℤ
normalize_canary_percent value =
    let value' = if leb_ℤ value (pos 0) then pos 10 else value in
    if ltb_ℤ (pos 50) value' then pos 50 else value'

unfoldable pub resolve_blue_green_slots : String → String × String
resolve_blue_green_slots primary =
    if equal_fold (trim_space primary) "green" then ("green", "blue") else ("blue", "green")

unfoldable pub normalize_source_type : String → String
normalize_source_type source_type =
    let lowered = to_lower (trim_space source_type) in
    if lowered == "registry" || lowered == "docker"
    then "registry"
    else if lowered == "git"
    then "git"
    else ""

unfoldable pub resolve_port : ℤ → ℤ
resolve_port value = if leb_ℤ value (pos 0) then pos 80 else value

-- The three strategies.
abbrev pub IsStrategy : String → Type 0
IsStrategy s = (s ≡ "rolling") ⊎ ((s ≡ "canary") ⊎ (s ≡ "blue-green"))

pub normalize_type-IsStrategy :
    (template strategy : String) → IsStrategy (normalize_type template strategy)
unfolding normalize_type
normalize_type-IsStrategy template strategy =
    let lowered = to_lower (trim_space strategy) in
    ground (arith, eq_iff lowered "canary", eq_iff lowered "blue-green", eq_iff lowered "rolling")

-- A normalised strategy is normal.
pub normalize_type_of_IsStrategy : (s : String) → IsStrategy s → normalize_type "" s ≡ s
unfolding normalize_type trim_space to_lower equal_fold
normalize_type_of_IsStrategy s (inl e) = rw e
normalize_type_of_IsStrategy s (inr (inl e)) = rw e
normalize_type_of_IsStrategy s (inr (inr e)) = rw e

-- A canary takes between 1 and 50 percent of the traffic, and a value in that range is kept.
pub normalize_canary_percent_range :
    (v : ℤ)
    → (pos 1 ≤ℤ normalize_canary_percent v)
      × (normalize_canary_percent v ≤ℤ pos 50)
      × (pos 1 ≤ℤ v → v ≤ℤ pos 50 → normalize_canary_percent v ≡ v)
unfolding normalize_canary_percent
normalize_canary_percent_range v = ground arith

green_ne_blue : ◌≢◌ {A = String} "green" "blue"
green_ne_blue = ground (arith, eq_iff "green" "blue")

-- The two slots differ, and resolving either of them again gives the same two, with that slot first.
pub resolve_blue_green_slots_stable :
    (primary : String)
    → let (active, inactive) = resolve_blue_green_slots primary in
      (active ≢ inactive)
      × (resolve_blue_green_slots active ≡ (active, inactive))
      × (resolve_blue_green_slots inactive ≡ (inactive, active))
unfolding resolve_blue_green_slots trim_space equal_fold
resolve_blue_green_slots_stable primary =
    elim (Bool-cases (equal_fold (trim_space primary) "green")) [
      | inl green ↦ rw (green, resolve_blue_green_slots) (green_ne_blue, refl, refl)
      | inr blue ↦ rw (blue, resolve_blue_green_slots) (λ e. green_ne_blue (sym e), refl, refl)
    ]
