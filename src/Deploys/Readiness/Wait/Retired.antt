-- ===== src/Deploys/Readiness/Wait/Retired.antt =====
-- Waiting for the previous workloads to be gone.
use releasea_worker.Prelude.{
  ℕ, ◌≤◌, ltb, String, true, ◌||◌, Option, none, some, List, [], ◌∷◌, ◌≡◌, refl, ◌≢◌, ◌⊎◌, inl, inr,
  All, ◌==◌, ◌⧺◌, eq_iff, arith, Bool-cases, trim_space, to_lower,
}
use releasea_worker.Prelude.Int.{ℤ}
use releasea_worker.Models.Failure.{Error, Result, ok, err}
use releasea_worker.Models.Runtime.{DeploymentInfo, PodInfo}
use releasea_worker.Deploys.Readiness.{Look, with_pending}
use releasea_worker.Deploys.Readiness.Wait.{
  resolve_readiness_polling_config, Round, live_pod_count, after_retired_pods,
  after_retired_deployment, collect_retired, wait_for_retired_workloads,
}
use releasea_worker.Deploys.Readiness.Wait.Ends.{IsTimed, enough, wait_for_lem}

clear_of_pending : (line : String) (rest : Result (List String)) → with_pending line rest ≢ ok []
clear_of_pending line (err e) h = cc
clear_of_pending line (ok lines) h = cc

-- The pod has run to its end.
abbrev pub IsEnded : PodInfo → Type 0
IsEnded pod =
    (to_lower (trim_space pod.phase) ≡ "succeeded") ⊎ (to_lower (trim_space pod.phase) ≡ "failed")

live_pod_count_zero : (pods : List PodInfo) → live_pod_count pods ≡ 0 → All IsEnded pods
unfolding live_pod_count
live_pod_count_zero [] h = tt
live_pod_count_zero (pod ∷ pods) h =
    let phase = to_lower (trim_space pod.phase) in
    elim (Bool-cases (phase == "succeeded" || phase == "failed")) [
      | inl ended ↦ (
        ground (arith, eq_iff phase "succeeded", eq_iff phase "failed", ended),
        live_pod_count_zero pods (ground (arith, ended, h)),
      )
      | inr alive ↦ absurd (ground (arith, alive, h))
    ]

module _ (look : Look) where
  -- No deployment of that name is left, and its pods have ended; a blank name stands for none.
  abbrev pub IsGone : String → Type 0
  IsGone raw =
      (trim_space raw ≡ "")
      ⊎ (((e : Error) × (look.deployment (trim_space raw) ≡ err e)
            × (e.deployment_not_found ≡ true))
          × ((pods : List PodInfo) × (look.pods (trim_space raw) ≡ ok pods) × All IsEnded pods))

  pods_sound :
      (name : String) (found : Result (List PodInfo)) (rest : Result (List String))
      → after_retired_pods name found rest ≡ ok []
      → ((pods : List PodInfo) × (found ≡ ok pods) × All IsEnded pods) × (rest ≡ ok [])
  pods_sound name (err e) rest h = cc
  pods_sound name (ok pods) rest h = elim (Bool-cases (ltb 0 (live_pod_count pods))) [
    | inl alive ↦
        absurd (clear_of_pending (name ⧺ " pods are still running") rest (ground (arith, alive, h)))
    | inr none_left ↦ (
      (pods, refl, live_pod_count_zero pods (ground (arith, none_left))),
      ground (arith, none_left, h),
    )
  ]

  deployment_sound :
      (name : String) (found : Result DeploymentInfo) (rest : Result (List String))
      → after_retired_deployment look name found rest ≡ ok []
      → (((e : Error) × (found ≡ err e) × (e.deployment_not_found ≡ true))
          × ((pods : List PodInfo) × (look.pods name ≡ ok pods) × All IsEnded pods))
        × (rest ≡ ok [])
  deployment_sound name (ok deploy) rest h = absurd (clear_of_pending _ _ h)
  deployment_sound name (err e) rest h = elim (Bool-cases e.deployment_not_found) [
    | inl missing ↦
        let (ended, clear) = pods_sound name (look.pods name) rest (ground (arith, missing, h)) in
        (((e, refl, missing), ended), clear)
    | inr other ↦ absurd (ground (arith, other, h))
  ]

  collect_retired_sound :
      (names : List String) → collect_retired look names ≡ ok [] → All IsGone names
  unfolding collect_retired
  collect_retired_sound [] h = tt
  collect_retired_sound (raw ∷ names) h =
      let name = trim_space raw in
      elim (Bool-cases (name == "")) [
        | inl blank ↦
            (inl ((eq_iff name "").0 blank), collect_retired_sound names (ground (arith, blank, h)))
        | inr full ↦
            let (gone, clear) =
              deployment_sound name (look.deployment name) (collect_retired look names)
                (ground (arith, full, h)) in
            (inr gone, collect_retired_sound names clear)
      ]

-- Where the clock does not stand still while the loop waits, waiting for the previous workloads ends
-- within as many polls as the timeout has seconds, and two more. If it succeeds, one look at the
-- cluster found no deployment of any of the names, and no pod of theirs that had not ended.
pub wait_for_retired_workloads_ends :
    (start : ℕ) (timeout poll : ℤ) (names : List String) (rounds : ℕ → Round)
    → start ≤ (rounds 0).now
    → IsTimed (resolve_readiness_polling_config timeout poll).1 rounds
    → let seconds = (resolve_readiness_polling_config timeout poll).0 in
      (result : Option Error) × (wait_for_retired_workloads start seconds names rounds
          (enough seconds)
        ≡ some result)
      × (result ≡ none → (i : ℕ) × All (IsGone (rounds i).look) names)
unfolding wait_for_retired_workloads
wait_for_retired_workloads_ends start timeout poll names rounds begun timed =
    let (result, same, found) =
      wait_for_lem (λ look. collect_retired look names)
        "timeout waiting for previous deployments to finish: " start timeout poll rounds begun
        timed in
    (
      result,
      same,
      λ e. let (i, clear) = found e in (i, collect_retired_sound (rounds i).look names clear),
    )
