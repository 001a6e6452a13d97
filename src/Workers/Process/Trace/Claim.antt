-- ===== src/Workers/Process/Trace/Claim.antt =====
-- No call for an operation without a claim of it.
use releasea_worker.Prelude.{
  ℕ, String, not, Option, none, some, List, [], ◌∷◌, ◌≡◌, refl, ◌⊎◌, inl, inr, In, ◌==◌, arith,
  if_keeps,
}
use releasea_worker.Prelude.Int.{pos, leb_ℤ}
use releasea_worker.Models.Failure.{Error}
use releasea_worker.Models.Operation.{OperationPayload, Config, status_queued}
use releasea_worker.Workers.Compatibility.{operation_compatible_with_worker}
use releasea_worker.Workers.Process.{
  Call, fetch, claim, renew, execute, wait, update_status, update_strategy, Entry, Env, Session,
  tick, heartbeat, lease_of, answer, perform, execute_with_retry, stop_heartbeat,
  execute_with_lease_heartbeat, update_deploy_failure_status, fail_operation, finish_operation,
  after_claim, process_operation,
}
use releasea_worker.Workers.Process.Trace.{
  entry, IsExecutionCall, heartbeat-keeps, perform-keeps, execute_with_retry-keeps,
}

-- The operation has been claimed, and the claim has been granted.
abbrev pub IsClaimed : String → List Entry → Type 0
IsClaimed id log = In (entry (claim id) none) log

-- What a call needs of the calls before it.
abbrev NeedsClaim : Call → List Entry → Type 0
NeedsClaim (execute id) log = IsClaimed id log
NeedsClaim (renew id) log = IsClaimed id log
NeedsClaim (update_status id st m) log = IsClaimed id log
NeedsClaim (wait d) log = Unit
NeedsClaim (fetch id) log = Unit
NeedsClaim (claim id) log = Unit
NeedsClaim (update_strategy d st ty ph su de) log = Unit

-- Each execution, renewal and final status of an operation comes after a granted claim of it.
abbrev pub IsGuarded : List Entry → Type 0
IsGuarded [] = Unit
IsGuarded (e ∷ log) = NeedsClaim e.call log × IsGuarded log

-- The state of a run that holds the claim.
abbrev HoldsClaim : String → Session → Type 0
HoldsClaim id s =
    IsClaimed id s.log × IsGuarded s.log × ((s.beating ≡ none) ⊎ (s.beating ≡ some id))

tick-HoldsClaim :
    (env : Env) (id : String) (s : Session) → HoldsClaim id s → HoldsClaim id (tick env s)
unfolding tick
tick-HoldsClaim env id s h = ground arith

answer-HoldsClaim :
    (env : Env) (id : String) (c : Call) (s : Session)
    → IsExecutionCall id c
    → HoldsClaim id s
    → HoldsClaim id (answer env c s).1
answer-HoldsClaim env id (execute id') s e (c, g, b) = (inr c, (ground arith, g), b)
answer-HoldsClaim env id (wait d) s e (c, g, b) = (inr c, (tt, g), b)
answer-HoldsClaim env id (update_strategy d st ty ph su de) s e (c, g, b) = (inr c, (tt, g), b)
answer-HoldsClaim env id (renew id') s e h = absurd e
answer-HoldsClaim env id (fetch id') s e h = absurd e
answer-HoldsClaim env id (claim id') s e h = absurd e
answer-HoldsClaim env id (update_status id' st m) s e h = absurd e

module _ (env : Env) (cfg : Config) (op : OperationPayload) where
  abbrev Holds : Session → Type 0
  Holds = HoldsClaim op.id

  beats : (n : ℕ) (s : Session) → Holds s → Holds (heartbeat env n s)
  beats = heartbeat-keeps env op Holds (tick-HoldsClaim env op.id) (answer-HoldsClaim env op.id)

  execution : (s : Session) → Holds s → Holds (execute_with_retry env op s).1
  execution =
      execute_with_retry-keeps env op Holds (tick-HoldsClaim env op.id)
        (answer-HoldsClaim env op.id)

  reporting :
      (c : Call) (s : Session) → IsExecutionCall op.id c → Holds s → Holds (perform env c s).1
  reporting = perform-keeps env op Holds (tick-HoldsClaim env op.id) (answer-HoldsClaim env op.id)

  stopping : (r : Option Error × Session) → Holds r.1 → Holds (stop_heartbeat env r).1
  stopping (exec_err, s) h =
      let (c, g, b) = beats (lease_of s.beating s.log env) s h in (c, g, inl refl)

  leased : (s : Session) → Holds s → Holds (execute_with_lease_heartbeat env cfg op s).1
  unfolding execute_with_lease_heartbeat
  leased s (c, g, b) =
      if_keeps (λ (r : Option Error × Session). Holds r.1)
        (leb_ℤ cfg.operation_claim_lease_ttl (pos 0)) (execution s (c, g, b))
        (stopping (execute_with_retry env op (record s { beating = some op.id; lost = none }))
          (execution (record s { beating = some op.id; lost = none }) (c, g, inr refl)))

  -- The last status comes after the claim, too.
  status_update :
      (st m : String) (s : Session)
      → Holds s
      → IsGuarded (perform env (update_status op.id st m) s).1.log
  unfolding perform
  status_update st m s h = let (c, g, b) = beats (lease_of s.beating s.log env) s h in (c, g)

  failure_update :
      (err : Error) (s : Session) → Holds s → Holds (update_deploy_failure_status env op err s)
  unfolding update_deploy_failure_status
  failure_update err s h =
      if_keeps Holds _ h (if_keeps Holds _ (reporting _ s tt h) (reporting _ s tt h))

  finishing : (r : Option Error × Session) → Holds r.1 → IsGuarded (finish_operation env op r).1.log
  unfolding finish_operation fail_operation
  finishing (none, s) h = status_update _ _ s h
  finishing (some err, s) h =
      if_keeps (λ (r : Option Error × Session). IsGuarded r.1.log) err.lease_lost h.1
        (status_update _ _ _ (failure_update err s h))

  claiming :
      (r : Option Error × Session)
      → (r.0 ≡ none → Holds r.1)
      → IsGuarded r.1.log
      → IsGuarded (after_claim env cfg op r).1.log
  claiming (none, s) h g = finishing _ (leased s (h refl))
  claiming (some err, s) h g = g

  claimed :
      (s : Session)
      → s.beating ≡ none
      → IsGuarded s.log
      → (let (failure, s') = perform env (claim op.id) s in
          (failure ≡ none → Holds s') × IsGuarded s'.log)
  unfolding perform heartbeat
  claimed s b g = ground arith

  -- Between two runs no heartbeat beats. From such a state with a guarded log, processing an operation
  -- leaves a guarded log: each execution, each renewal of a claim and each final status, of this and
  -- of the earlier operations, comes after a granted claim of that operation.
  pub process_operation-IsGuarded :
      (s : Session)
      → s.beating ≡ none
      → IsGuarded s.log
      → IsGuarded (process_operation env cfg op s).1.log
  unfolding process_operation
  process_operation-IsGuarded s b g =
      let (h, g') = claimed s b g in
      if_keeps (λ (r : Option Error × Session). IsGuarded r.1.log)
        (not (op.status == status_queued)) g
        (if_keeps (λ (r : Option Error × Session). IsGuarded r.1.log)
          (not (operation_compatible_with_worker cfg op).0) g (claiming _ h g'))
