-- ===== src/Deploys/Readiness/Wait/Live.antt =====
-- When a new version is fully live.
use Prim.Native.String.{[], ◌∷◌}
use text.Mathlib.TextLemmas.{nil-append, cons-append}
use releasea_worker.Prelude.{
  String, Bool, true, false, ◌&&◌, ◌||◌, ◌≡◌, refl, ◌≢◌, ◌↔◌, ◌⧺◌, sym, ◌∙◌, arith, if◌then◌else◌,
}
use releasea_worker.Prelude.Int.{pos, ◌≤ℤ◌, ◌<ℤ◌, ltb_ℤ, at_least}
use releasea_worker.Models.Runtime.{DeploymentInfo}
use releasea_worker.Deploys.Readiness.Wait.{rollout_desired, rollout_pending_reason}

append_left : (s t : String) → s ≢ "" → (s ⧺ t) ≢ ""
append_left [] t h e = h refl
append_left (c ∷ s) t h e = absurd (cons_ne (rw (← cons-append) e))
  where
    cons_ne : ((c ∷ (s ⧺ t)) ≡ "") → ⊥
    cons_ne e = cc

append_right : (s t : String) → t ≢ "" → (s ⧺ t) ≢ ""
append_right [] t h e = h (sym (nil-append t) ∙ e)
append_right (c ∷ s) t h e = append_left (c ∷ s) t (λ e'. cc) e

-- The whole of the new version is live: the cluster has seen the change, every replica runs the new
-- version and is available, and no other pod is left.
pub record IsLive (deploy : DeploymentInfo) : Type 0 where
  pub observed : pos 0 <ℤ deploy.generation → deploy.generation ≤ℤ deploy.observed_generation
  pub updated : rollout_desired deploy ≤ℤ deploy.updated_replicas
  pub ready : rollout_desired deploy ≤ℤ deploy.ready_replicas
  pub available : rollout_desired deploy ≤ℤ deploy.available_replicas
  pub alone : deploy.replicas ≤ℤ rollout_desired deploy
  pub settled : deploy.unavailable_replicas ≤ℤ pos 0

rollout_desired_pos : (deploy : DeploymentInfo) → pos 1 ≤ℤ rollout_desired deploy
unfolding rollout_desired at_least
rollout_desired_pos deploy = ground arith

-- A test that gives a reason, and the tests after it.
unless_iff :
    (b : Bool) (x y : String) → x ≢ "" → ((if b then x else y) ≡ "") ↔ ((b ≡ false) × (y ≡ ""))
unless_iff true x y n = (λ h. absurd (n h), λ h. cc)
unless_iff false x y n = (λ h. (refl, h), λ h. h.1)

-- The four tests, in their order.
abbrev unseen : DeploymentInfo → Bool
unseen deploy =
    ltb_ℤ (pos 0) deploy.generation && ltb_ℤ deploy.observed_generation deploy.generation

abbrev updating : DeploymentInfo → Bool
updating deploy = ltb_ℤ deploy.updated_replicas (rollout_desired deploy)

abbrev partly : DeploymentInfo → Bool
partly deploy =
    ltb_ℤ deploy.ready_replicas (rollout_desired deploy)
    || ltb_ℤ deploy.available_replicas (rollout_desired deploy)

abbrev crowded : DeploymentInfo → Bool
crowded deploy =
    ltb_ℤ (rollout_desired deploy) deploy.replicas || ltb_ℤ (pos 0) deploy.unavailable_replicas

tests-IsLive :
    (deploy : DeploymentInfo)
    → unseen deploy ≡ false
    → updating deploy ≡ false
    → partly deploy ≡ false
    → crowded deploy ≡ false
    → IsLive deploy
tests-IsLive deploy a b c d = record {
  observed = λ g. ground (arith, a, g);
  updated = ground (arith, b);
  ready = ground (arith, c);
  available = ground (arith, c);
  alone = ground (arith, d);
  settled = ground (arith, d);
}

IsLive-tests :
    (deploy : DeploymentInfo)
    → IsLive deploy
    → (unseen deploy ≡ false)
      × (updating deploy ≡ false)
      × (partly deploy ≡ false)
      × (crowded deploy ≡ false)
IsLive-tests deploy l = (
  ground (arith, l.observed),
  ground (arith, l.updated),
  ground (arith, l.ready, l.available),
  ground (arith, l.alone, l.settled),
)

-- Each reason is a text that is not empty.
pub rollout_pending_reason_iff :
    (name : String) (deploy : DeploymentInfo)
    → (rollout_pending_reason name deploy ≡ "") ↔ IsLive deploy
unfolding rollout_pending_reason
rollout_pending_reason_iff name deploy =
    let first =
      unless_iff (unseen deploy) _ _
        (append_right name " rollout has not observed the new spec yet" (λ e. cc)) in
    let second =
      unless_iff (updating deploy) _ _
        (append_right name _ (append_left " is still updating (" _ (λ e. cc))) in
    let third =
      unless_iff (partly deploy) _ _ (append_right name " is not fully available yet" (λ e. cc)) in
    let fourth =
      unless_iff (crowded deploy) _ _
        (append_right name " still has previous pods shutting down" (λ e. cc)) in
    (
      λ h.
          let (a, h1) = first.0 h in
          let (b, h2) = second.0 h1 in
          let (c, h3) = third.0 h2 in let (d, _) = fourth.0 h3 in tests-IsLive deploy a b c d,
      λ l.
          let (a, b, c, d) = IsLive-tests deploy l in
          first.1 (a, second.1 (b, third.1 (c, fourth.1 (d, refl)))),
    )
