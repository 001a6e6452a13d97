-- ===== src/Maintenance/Curator/Settled.antt =====
-- When the curator completes an operation, and when it fails one.
use releasea_worker.Prelude.{
  String, Bool, true, false, ◌&&◌, Option, none, some, List, [], ◌∷◌, ◌≡◌, refl, ◌≢◌, ◌⊎◌, inl, inr,
  All, In, ◌⧺◌, arith, if◌then◌else◌, Bool-cases,
}
use releasea_worker.Prelude.Int.{pos, ltb_ℤ, ◌≤ℤ◌}
use releasea_worker.Models.Failure.{Error, Result, ok, err}
use releasea_worker.Models.Runtime.{DeploymentInfo}
use releasea_worker.Deploys.Readiness.{Look, evaluate_deployment_pods}
use releasea_worker.Deploys.Readiness.Looks.{NoPodFails, evaluate_deployment_pods_iff}
use releasea_worker.Maintenance.Curator.{
  curated_conditions, Evaluation, ready, failing, waiting, evaluate_deployment_status, Verdict,
  failed, all_ready, undecided, not_ready, by_evaluation, by_deployment, curate_targets,
}

-- A replica is available and no listed pod has failed.
abbrev pub IsUp : Look → String → Type 0
IsUp look target =
    (deploy : DeploymentInfo) × (look.deployment target ≡ ok deploy)
    × (pos 1 ≤ℤ deploy.available_replicas)
    × NoPodFails look target

module _ (look : Look) (exceeded : Bool) where
  -- Nothing is available, and a condition says why or the operation is too old.
  abbrev pub IsStuck : DeploymentInfo → Type 0
  IsStuck deploy =
      (deploy.available_replicas ≤ℤ pos 0)
      × (((reason : String) × (curated_conditions deploy.conditions ≡ some reason))
          ⊎ (exceeded ≡ true))

  -- The target is missing for too long, stuck, or has a failed pod.
  abbrev pub IsBroken : String → Type 0
  IsBroken target =
      ((e : Error) × (look.deployment target ≡ err e)
        × (e.deployment_not_found ≡ true)
        × (exceeded ≡ true))
      ⊎ ((deploy : DeploymentInfo) × (look.deployment target ≡ ok deploy)
          × (IsStuck deploy
              ⊎ ((reason : String) × (evaluate_deployment_pods look target ≡ some reason))))

  -- What one target does to the verdict on the others.
  record Decides (target : String) (rest verdict : Verdict) : Type 0 where
    up : verdict ≡ all_ready → IsUp look target × (rest ≡ all_ready)
    broken : (m : String) → verdict ≡ failed m → IsBroken target ⊎ (rest ≡ failed m)

  not_ready_never : (rest : Verdict) → not_ready rest ≢ all_ready
  not_ready_never (failed m) e = cc
  not_ready_never all_ready e = cc
  not_ready_never undecided e = cc

  not_ready_failed : (rest : Verdict) (m : String) → not_ready rest ≡ failed m → rest ≡ failed m
  not_ready_failed (failed m') m e = e
  not_ready_failed all_ready m e = cc
  not_ready_failed undecided m e = cc

  evaluation_cases :
      (deploy : DeploymentInfo) (evaluation : Evaluation)
      → evaluate_deployment_status deploy exceeded ≡ evaluation
      → ((evaluation ≡ ready) × (pos 1 ≤ℤ deploy.available_replicas))
        ⊎ ((evaluation ≡ waiting) ⊎ IsStuck deploy)
  unfolding evaluate_deployment_status
  evaluation_cases deploy evaluation same = by_reason (curated_conditions deploy.conditions) refl
    where
      by_reason :
          (found : Option String)
          → curated_conditions deploy.conditions ≡ found
          → ((evaluation ≡ ready) × (pos 1 ≤ℤ deploy.available_replicas))
            ⊎ ((evaluation ≡ waiting) ⊎ IsStuck deploy)
      by_reason (some reason) c = elim (Bool-cases (ltb_ℤ (pos 0) deploy.available_replicas)) [
        | inl up ↦ inl (ground (arith, up, same), ground (arith, up))
        | inr down ↦ inr (inr (ground (arith, down), inl (reason, c)))
      ]
      by_reason none c = elim (Bool-cases (ltb_ℤ (pos 0) deploy.available_replicas)) [
        | inl up ↦ inl (ground (arith, up, same), ground (arith, up))
        | inr down ↦ elim (Bool-cases exceeded) [
          | inl old ↦ inr (inr (ground (arith, down), inr old))
          | inr young ↦ inr (inl (ground (arith, down, c, young, same)))
        ]
      ]

  target-Decides :
      (target : String) (rest : Verdict)
      → Decides target rest (by_deployment look exceeded target (look.deployment target) rest)
  target-Decides target rest = by_found (look.deployment target) refl
    where
      missing :
          (e : Error) (b : Bool)
          → look.deployment target ≡ err e
          → (b ≡ true → (e.deployment_not_found ≡ true) × (exceeded ≡ true))
          → Decides target rest
              (if b then failed ("deployment " ⧺ target ⧺ " not found") else not_ready rest)
      missing e true d h = record {
        up = λ u. cc;
        broken = λ m u. let (missing_there, old) = h refl in inl (inl (e, d, missing_there, old));
      }
      missing e false d h = record {
        up = λ u. absurd (not_ready_never rest u);
        broken = λ m u. inr (not_ready_failed rest m u);
      }

      by_both :
          (deploy : DeploymentInfo) (evaluation : Evaluation) (pods : Option String)
          → look.deployment target ≡ ok deploy
          → evaluate_deployment_status deploy exceeded ≡ evaluation
          → evaluate_deployment_pods look target ≡ pods
          → Decides target rest (by_evaluation target evaluation pods rest)
      by_both deploy (failing reason) pods d s p = record {
        up = λ u. cc;
        broken = λ m u. elim (evaluation_cases deploy (failing reason) s) [
          | inl (e, _) ↦ absurd (evaluation_ne e)
          | inr (inl e) ↦ absurd (waiting_ne e)
          | inr (inr stuck) ↦ inl (inr (deploy, d, inl stuck))
        ];
      }
        where
          evaluation_ne : failing reason ≢ ready
          evaluation_ne e = cc

          waiting_ne : failing reason ≢ waiting
          waiting_ne e = cc
      by_both deploy ready (some reason) d s p = record {
        up = λ u. cc;
        broken = λ m u. inl (inr (deploy, d, inr (reason, p)));
      }
      by_both deploy waiting (some reason) d s p = record {
        up = λ u. cc;
        broken = λ m u. inl (inr (deploy, d, inr (reason, p)));
      }
      by_both deploy ready none d s p = record {
        up = λ u. elim (evaluation_cases deploy ready s) [
          | inl (_, enough) ↦
              ((deploy, d, enough, (evaluate_deployment_pods_iff look target).0 p), u)
          | inr (inl e) ↦ absurd (ready_ne e)
          | inr (inr stuck) ↦ absurd (ready_ne (stuck_ne stuck))
        ];
        broken = λ m u. inr u;
      }
        where
          ready_ne : ready ≢ waiting
          ready_ne e = cc

          stuck_ne : IsStuck deploy → ready ≡ waiting
          stuck_ne (low, why) = unfold evaluate_deployment_status in ground (arith, low, s)
      by_both deploy waiting none d s p = record {
        up = λ u. absurd (not_ready_never rest u);
        broken = λ m u. inr (not_ready_failed rest m u);
      }

      by_found :
          (found : Result DeploymentInfo)
          → look.deployment target ≡ found
          → Decides target rest (by_deployment look exceeded target found rest)
      by_found (err e) d =
          missing e (e.deployment_not_found && exceeded) d
            (λ b. (ground (arith, b), ground (arith, b)))
      by_found (ok deploy) d = by_both deploy _ _ d refl refl

  pub curate_targets-IsUp :
      (targets : List String)
      → curate_targets look exceeded targets ≡ all_ready
      → All (IsUp look) targets
  unfolding curate_targets
  curate_targets-IsUp [] h = tt
  curate_targets-IsUp (target ∷ targets) h =
      let (here, rest) = (target-Decides target (curate_targets look exceeded targets)).up h in
      (here, curate_targets-IsUp targets rest)

  pub curate_targets-IsBroken :
      (targets : List String) (m : String)
      → curate_targets look exceeded targets ≡ failed m
      → (target : String) × In target targets × IsBroken target
  unfolding curate_targets
  curate_targets-IsBroken [] m h = cc
  curate_targets-IsBroken (target ∷ targets) m h =
      elim ((target-Decides target (curate_targets look exceeded targets)).broken m h) [
        | inl broken ↦ (target, inl refl, broken)
        | inr rest ↦ let (t, i, b) = curate_targets-IsBroken targets m rest in (t, inr i, b)
      ]
