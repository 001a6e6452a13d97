-- ===== src/Deploys/Readiness/Looks.antt =====
-- What a look at the cluster says of the awaited workloads.
use releasea_worker.Prelude.{
  String, Option, none, some, List, [], ◌∷◌, ◌≡◌, refl, ◌≢◌, ◌↔◌, ◌⊎◌, inl, inr, ap, ◌∙◌, false,
  ◌==◌, eq_iff, if_split, All, arith, Bool-cases,
}
use releasea_worker.Prelude.Int.{pos, ltb_ℤ, ◌≤ℤ◌}
use releasea_worker.Models.Failure.{Error, Result, ok, err}
use releasea_worker.Models.Runtime.{PodInfo, DeploymentInfo}
use releasea_worker.Deploys.Readiness.{
  Look, or_else, evaluate_pod_failure, first_pod_failure, pod_failure, deployment_failure_reason,
  evaluate_deployment_pods, with_pending, after_pods, after_conditions, after_deployment,
  collect_pending_workload_readiness,
}

-- None of the workload's pods that the cluster lists has failed. A list that it does not give is none.
abbrev pub NoPodFails : Look → String → Type 0
NoPodFails look target =
    (target ≡ "")
    ⊎ (((e : Error) × (look.pods target ≡ err e))
        ⊎ ((pods : List PodInfo) × (look.pods target ≡ ok pods)
            × All (λ pod. evaluate_pod_failure pod ≡ none) pods))

first_pod_failure_iff :
    (pods : List PodInfo)
    → (first_pod_failure pods ≡ none) ↔ All (λ pod. evaluate_pod_failure pod ≡ none) pods
unfolding first_pod_failure
first_pod_failure_iff [] = (λ h. tt, λ h. refl)
first_pod_failure_iff (pod ∷ pods) =
    by_first (evaluate_pod_failure pod) (first_pod_failure_iff pods)
  where
    by_first :
        (first : Option String)
        → (first_pod_failure pods ≡ none) ↔ All (λ pod. evaluate_pod_failure pod ≡ none) pods
        → (or_else first (first_pod_failure pods) ≡ none)
          ↔ ((first ≡ none) × All (λ pod. evaluate_pod_failure pod ≡ none) pods)
    by_first none (down, up) = (λ h. (refl, down h), λ h. up h.1)
    by_first (some reason) (down, up) = (λ h. cc, λ h. cc (h.0))

pub evaluate_deployment_pods_iff :
    (look : Look) (target : String)
    → (evaluate_deployment_pods look target ≡ none) ↔ NoPodFails look target
unfolding evaluate_deployment_pods
evaluate_deployment_pods_iff look target =
    if_split (λ o. (o ≡ none) ↔ NoPodFails look target) (target == "")
      (λ e. (λ h. inl ((eq_iff target "").0 e), λ h. refl)) (λ n. by_list n (look.pods target) refl)
  where
    by_list :
        (target == "") ≡ false
        → (listed : Result (List PodInfo)) → look.pods target ≡ listed
        → (pod_failure listed ≡ none) ↔ NoPodFails look target
    by_list n (err e) same = (λ h. inr (inl (e, same)), λ h. refl)
    by_list n (ok pods) same = (
      λ h. inr (inr (pods, same, (first_pod_failure_iff pods).0 h)),
      λ h. elim h [
        | inl blank ↦ absurd (ground (arith, eq_iff target "", n, blank))
        | inr (inl (e, failed)) ↦ cc (failed, same)
        | inr (inr (pods', there, all)) ↦
            ap first_pod_failure (ground (arith, there, same)) ∙ (first_pod_failure_iff pods').1 all
      ],
    )

module _ (look : Look) where
  -- The workload exists, neither it nor one of its listed pods has failed, and a replica is available.
  abbrev pub IsReady : String → Type 0
  IsReady target =
      (deploy : DeploymentInfo) × (look.deployment target ≡ ok deploy)
      × (deployment_failure_reason deploy ≡ none)
      × NoPodFails look target
      × (pos 1 ≤ℤ deploy.available_replicas)

  pub not_ok_pending :
      (line : String) (rest : Result (List String)) → with_pending line rest ≢ ok []
  not_ok_pending line (err e) h = cc
  not_ok_pending line (ok lines) h = cc

  -- What one target adds to the answer for the others.
  target_iff :
      (target : String) (rest : Result (List String))
      → (after_deployment look target (look.deployment target) rest ≡ ok [])
        ↔ (IsReady target × (rest ≡ ok []))
  target_iff target rest = by_deployment (look.deployment target) refl
    where
      by_pods :
          (deploy : DeploymentInfo) (failure : Option String)
          → look.deployment target ≡ ok deploy
          → deployment_failure_reason deploy ≡ none
          → evaluate_deployment_pods look target ≡ failure
          → (after_pods target deploy failure rest ≡ ok []) ↔ (IsReady target × (rest ≡ ok []))
      by_pods deploy (some reason) d c p = (
        λ h. cc,
        λ h.
            let ((deploy', e, a, b, f), g) = h in
            cc ((evaluate_deployment_pods_iff look target).1 b, p),
      )
      by_pods deploy none d c p = elim (Bool-cases (ltb_ℤ deploy.available_replicas (pos 1))) [
        | inl few ↦ rw few (
          λ h. absurd (not_ok_pending _ rest h),
          λ h. let ((deploy', e, a, b, f), g) = h in absurd (ground (arith, few, f, e, d)),
        )
        | inr enough ↦ rw enough (
          λ h. (
            (deploy, d, c, (evaluate_deployment_pods_iff look target).0 p, ground (arith, enough)),
            h,
          ),
          λ h. h.1,
        )
      ]

      by_conditions :
          (deploy : DeploymentInfo) (failure : Option String)
          → look.deployment target ≡ ok deploy
          → deployment_failure_reason deploy ≡ failure
          → (after_conditions look target deploy failure rest ≡ ok [])
            ↔ (IsReady target × (rest ≡ ok []))
      by_conditions deploy (some reason) d c =
          (λ h. cc, λ h. let ((deploy', e, a, b, f), g) = h in absurd (ground (arith, a, c, e, d)))
      by_conditions deploy none d c = by_pods deploy (evaluate_deployment_pods look target) d c refl

      by_deployment :
          (found : Result DeploymentInfo)
          → look.deployment target ≡ found
          → (after_deployment look target found rest ≡ ok []) ↔ (IsReady target × (rest ≡ ok []))
      by_deployment (ok deploy) d = by_conditions deploy (deployment_failure_reason deploy) d refl
      by_deployment (err e) d = elim (Bool-cases e.deployment_not_found) [
        | inl missing ↦ rw missing (
          λ h. absurd (not_ok_pending _ rest h),
          λ h. let ((deploy', e, a, b, f), g) = h in cc (e, d),
        )
        | inr other ↦ rw other (λ h. cc, λ h. let ((deploy', e, a, b, f), g) = h in cc (e, d))
      ]

  -- A look finds nothing pending and no failure exactly when each target exists, neither it nor one of
  -- its pods that could be listed has failed, and a replica of it is available.
  pub collect_pending_workload_readiness_iff :
      (targets : List String)
      → (collect_pending_workload_readiness look targets ≡ ok []) ↔ All IsReady targets
  unfolding collect_pending_workload_readiness
  collect_pending_workload_readiness_iff [] = (λ h. tt, λ h. refl)
  collect_pending_workload_readiness_iff (target ∷ targets) =
      let (down, up) = target_iff target (collect_pending_workload_readiness look targets) in
      let (sound, complete) = collect_pending_workload_readiness_iff targets in
      (λ h. ((down h).0, sound (down h).1), λ h. up (h.0, complete h.1))
