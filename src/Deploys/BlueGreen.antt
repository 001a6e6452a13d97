-- ===== src/Deploys/BlueGreen.antt =====
-- deploys_strategy_blue_green_promote.go: moving the traffic of a service from one slot to the other. The
-- cluster and the API answer each call from the calls made so far; the log holds the newest call first.
-- The steps that are only reported and logged are left out, and of the resources only what they are
-- pointed at is kept.
pub mod Order
pub mod Promotion
use releasea_worker.Prelude.{
  String, Bool, true, false, not, Option, none, some, List, [], ◌∷◌, ◌⧺◌, ◌==◌, if◌then◌else◌,
}
use releasea_worker.Prelude.Int.{ℤ, pos, ltb_ℤ, at_least}
use releasea_worker.Models.Failure.{Error, Result, ok, err, wrap}
use releasea_worker.Shared.Strategy.{resolve_blue_green_slots}
use releasea_worker.Deploys.Strategy.{mark_rollback_performed}

pub data Resource : Type 0 where
  deployment service autoscaler : (name : String) → Resource

-- `fetch_service` and `point_service` read and apply the service that carries the traffic;
-- `record_slot` is `UpdateBlueGreenActiveSlot`; `observe` waits.
pub data SlotCall : Type 0 where
  await_ready : (name : String) → SlotCall
  await_rollout : (name : String) → SlotCall
  fetch_service : SlotCall
  point_service : (app : String) → SlotCall
  record_slot : (slot : String) → SlotCall
  observe : (seconds : ℤ) → SlotCall
  delete : Resource → SlotCall
  await_retired : (name : String) → SlotCall

pub record SlotEntry : Type 0 where
  pub call : SlotCall
  pub failure : Option Error

abbrev pub Log : Type 0
Log = List SlotEntry

-- The answers, and the value of the environment variable.
pub record Surroundings : Type 0 where
  pub reply : Log → SlotCall → Option Error
  pub observation_seconds : ℤ

abbrev pub entry : SlotCall → Option Error → SlotEntry
entry c f = record { call = c; failure = f }

-- Make a call, and go on with `fail` or with `next`.
abbrev pub continue :
    {A : Type 0} → SlotCall → Option Error → Log → (Error → Log → A) → (Log → A) → A
continue c none log fail next = next (entry c none ∷ log)
continue c (some e) log fail next = fail e (entry c (some e) ∷ log)

unfoldable pub attempt :
    {A : Type 0} → Surroundings → SlotCall → Log → (Error → Log → A) → (Log → A) → A
attempt env c log fail next = continue c (env.reply log c) log fail next

-- `switchBlueGreenCanonicalService`.
unfoldable pub switch_canonical_service :
    {A : Type 0} → Surroundings → String → Log → (Error → Log → A) → (Log → A) → A
switch_canonical_service env app log fail next =
    attempt env fetch_service log (λ e. fail (wrap "fetch canonical service failed: " e))
      (λ log. attempt env (point_service app) log fail next)

abbrev pub Outcome : Type 0
Outcome = Result String × Log

abbrev pub stopped : String → Error → Log → Outcome
stopped text e log = (err (wrap text e), log)

abbrev pub failed : Error → Log → Outcome
failed e log = (err e, log)

abbrev marked : Error → Error
marked e = record e { rollback_performed = true }

-- The two roll-backs: the result of each of their calls is ignored.
unfoldable pub roll_back_traffic : Surroundings → String → Error → Log → Outcome
roll_back_traffic env active e log =
    switch_canonical_service env active log (λ _ log. (err (marked e), log))
      (λ log. (err (marked e), log))

abbrev pub roll_back_slot : Surroundings → String → Error → Log → Outcome
roll_back_slot env slot e log =
    attempt env (record_slot slot) log (λ _ log. (err (marked e), log))
      (λ log. (err (marked e), log))

unfoldable pub roll_back_all : Surroundings → String → String → Error → Log → Outcome
roll_back_all env active slot e log =
    switch_canonical_service env active log (λ _. roll_back_slot env slot e)
      (roll_back_slot env slot e)

-- `cleanupBlueGreenSlot`, `cleanupLegacyRollingWorkload` and the wait for the retired slot.
unfoldable pub clean_up : Surroundings → String → String → String → Log → Outcome
clean_up env service_name active candidate_slot log =
    let slot_fails = stopped "previous blue-green slot did not delete: " in
    let legacy_fails = stopped "previous workload did not delete: " in
    attempt env (delete (deployment active)) log slot_fails (λ log.
      attempt env (delete (service active)) log slot_fails (λ log.
        attempt env (delete (deployment service_name)) log legacy_fails (λ log.
          attempt env (delete (autoscaler service_name)) log legacy_fails (λ log.
            attempt env (await_retired active) log failed (λ log. (ok candidate_slot, log))))))

-- From the second wait on.
unfoldable pub observe_candidate :
    Surroundings → String → String → String → String → String → Log → Outcome
observe_candidate env service_name active candidate active_slot candidate_slot log =
    let seconds = at_least (pos 0) env.observation_seconds in
    let finish = clean_up env service_name active candidate_slot in
    attempt env (await_ready candidate) log
      (λ e. roll_back_all env active active_slot (wrap "blue-green promoted slot unhealthy: " e))
      (λ log.
        if ltb_ℤ (pos 0) seconds
        then attempt env (observe seconds) log failed finish
        else finish log)

unfoldable pub promote_blue_green : Surroundings → String → String → Log → Outcome
promote_blue_green env service_name primary log =
    let (active_slot, candidate_slot) = resolve_blue_green_slots primary in
    let active = service_name ⧺ "-" ⧺ active_slot in
    let candidate = service_name ⧺ "-" ⧺ candidate_slot in
    attempt env (await_ready candidate) log
      (stopped "blue-green candidate is not ready, active traffic was kept: ")
      (λ log.
        attempt env (await_rollout candidate) log
          (stopped "blue-green candidate is not fully live, active traffic was kept: ")
          (λ log. switch_canonical_service env candidate log failed (λ log.
            attempt env (record_slot candidate_slot) log (roll_back_traffic env active)
              (observe_candidate env service_name active candidate active_slot candidate_slot))))
