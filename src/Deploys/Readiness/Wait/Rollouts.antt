-- ===== src/Deploys/Readiness/Wait/Rollouts.antt =====
-- Waiting for the new version of a set of workloads.
use releasea_worker.Prelude.{
  ℕ, ◌≤◌, String, Option, none, some, List, [], ◌∷◌, ◌≡◌, refl, ◌≢◌, ◌↔◌, ◌⊎◌, inl, inr, All, ◌==◌,
  eq_iff, arith, Bool-cases, trim_space,
}
use mathlib.Core.Path.{subst}
use releasea_worker.Prelude.Int.{ℤ}
use releasea_worker.Models.Failure.{Error, Result, ok, err}
use releasea_worker.Models.Runtime.{DeploymentInfo}
use releasea_worker.Deploys.Readiness.{Look, with_pending}
use releasea_worker.Deploys.Readiness.Wait.{
  resolve_readiness_polling_config, Round, rollout_pending_reason, with_reason,
  after_rollout_deployment, collect_pending_rollouts, wait_for_deployment_rollouts,
}
use releasea_worker.Deploys.Readiness.Wait.Ends.{IsTimed, enough, wait_for_lem}
use releasea_worker.Deploys.Readiness.Wait.Live.{IsLive, rollout_pending_reason_iff}

pending_ne_clear : (line : String) (rest : Result (List String)) → with_pending line rest ≢ ok []
pending_ne_clear line (err e) h = cc
pending_ne_clear line (ok lines) h = cc

module _ (look : Look) where
  -- The workload of that name is fully live; a blank name stands for none.
  abbrev pub IsRolledOut : String → Type 0
  IsRolledOut raw =
      (trim_space raw ≡ "")
      ⊎ ((deploy : DeploymentInfo) × (look.deployment (trim_space raw) ≡ ok deploy) × IsLive deploy)

  reason_iff :
      (reason : String) (rest : Result (List String))
      → (with_reason reason rest ≡ ok []) ↔ ((reason ≡ "") × (rest ≡ ok []))
  reason_iff reason rest = elim (Bool-cases (reason == "")) [
    | inl blank ↦ rw blank (λ h. ((eq_iff reason "").0 blank, h), λ h. h.1)
    | inr full ↦ rw full (
      λ h. absurd (pending_ne_clear reason rest h),
      λ h. absurd (ground (arith, eq_iff reason "", full, h.0)),
    )
  ]

  deployment_iff :
      (name : String) (found : Result DeploymentInfo) (rest : Result (List String))
      → (after_rollout_deployment name found rest ≡ ok [])
        ↔ (((deploy : DeploymentInfo) × (found ≡ ok deploy) × IsLive deploy) × (rest ≡ ok []))
  deployment_iff name (ok deploy) rest =
      let (down, up) = reason_iff (rollout_pending_reason name deploy) rest in
      let (live, reasons) = rollout_pending_reason_iff name deploy in
      (
        λ h. ((deploy, refl, live (down h).0), (down h).1),
        λ h.
            let ((deploy', same, l), r) = h in
            up (reasons (subst IsLive (ok_inj deploy' deploy same) l), r),
      )
    where
      ok_inj : (a b : DeploymentInfo) → ok b ≡ ok a → a ≡ b
      ok_inj a b e = cc
  deployment_iff name (err e) rest = elim (Bool-cases e.deployment_not_found) [
    | inl missing ↦
        rw missing
          (λ h. absurd (pending_ne_clear _ rest h), λ h. let ((deploy, same, l), r) = h in cc)
    | inr other ↦ rw other (λ h. cc, λ h. let ((deploy, same, l), r) = h in cc)
  ]

  pub collect_pending_rollouts_iff :
      (names : List String) → (collect_pending_rollouts look names ≡ ok []) ↔ All IsRolledOut names
  unfolding collect_pending_rollouts
  collect_pending_rollouts_iff [] = (λ h. tt, λ h. refl)
  collect_pending_rollouts_iff (raw ∷ names) =
      let name = trim_space raw in
      let (sound, complete) = collect_pending_rollouts_iff names in
      elim (Bool-cases (name == "")) [
        | inl blank ↦ rw blank (λ h. (inl ((eq_iff name "").0 blank), sound h), λ h. complete h.1)
        | inr full ↦ rw full (
          λ h.
              let (live, rest) = (deployment_iff name (look.deployment name) _).0 h in
              (inr live, sound rest),
          λ h.
              (deployment_iff name (look.deployment name) _).1
                (named (λ e. ground (arith, eq_iff name "", full, e)) h.0, complete h.1),
        )
      ]
    where
      named :
          trim_space raw ≢ ""
          → IsRolledOut raw
          → (deploy : DeploymentInfo) × (look.deployment (trim_space raw) ≡ ok deploy)
            × IsLive deploy
      named n (inl e) = absurd (n e)
      named n (inr h) = h

-- Where the clock does not stand still while the loop waits, waiting for a roll-out ends within as many
-- polls as the timeout has seconds, and two more. If it succeeds, one look at the cluster found the new
-- version of every named workload fully live: seen by the cluster, on every replica, available, and
-- with no other pod left.
pub wait_for_deployment_rollouts_ends :
    (start : ℕ) (timeout poll : ℤ) (names : List String) (rounds : ℕ → Round)
    → start ≤ (rounds 0).now
    → IsTimed (resolve_readiness_polling_config timeout poll).1 rounds
    → let seconds = (resolve_readiness_polling_config timeout poll).0 in
      (result : Option Error) × (wait_for_deployment_rollouts start seconds names rounds
          (enough seconds)
        ≡ some result)
      × (result ≡ none → (i : ℕ) × All (IsRolledOut (rounds i).look) names)
unfolding wait_for_deployment_rollouts
wait_for_deployment_rollouts_ends start timeout poll names rounds begun timed =
    let (result, same, found) =
      wait_for_lem (λ look. collect_pending_rollouts look names)
        "timeout waiting for the new version to be fully live: " start timeout poll rounds begun
        timed in
    (
      result,
      same,
      λ e.
          let (i, clear) = found e in
          (i, (collect_pending_rollouts_iff (rounds i).look names).0 clear),
    )
