-- ===== src/Workers/Process/Trace/Idle.antt =====
-- No heartbeat outlives the run that started it.
use releasea_worker.Prelude.{not, Option, none, some, ◌≡◌, refl, ◌==◌, arith, if_keeps}
use releasea_worker.Prelude.Int.{pos, leb_ℤ}
use releasea_worker.Models.Failure.{Error}
use releasea_worker.Models.Operation.{OperationPayload, Config, status_queued}
use releasea_worker.Workers.Compatibility.{operation_compatible_with_worker}
use releasea_worker.Workers.Process.{
  Call, claim, Env, Session, tick, lease_of, perform, execute_with_retry, stop_heartbeat,
  execute_with_lease_heartbeat, update_deploy_failure_status, fail_operation, finish_operation,
  after_claim, process_operation,
}
use releasea_worker.Workers.Process.Trace.Claim.{IsGuarded, process_operation-IsGuarded}
use releasea_worker.Workers.Process.Trace.{heartbeat-keeps, execute_with_retry-keeps}

-- Between two operations: no heartbeat beats, and the log is guarded.
abbrev pub IsBetween : Session → Type 0
IsBetween s = (s.beating ≡ none) × IsGuarded s.log

record IsIdle (s : Session) : Type 0 where
  silent : s.beating ≡ none

module _ (env : Env) (cfg : Config) (op : OperationPayload) where
  idle_tick : (s : Session) → s.beating ≡ none → (tick env s).beating ≡ none
  unfolding tick
  idle_tick s h = ground arith

  tick-IsIdle : (s : Session) → IsIdle s → IsIdle (tick env s)
  tick-IsIdle s h = record { silent = idle_tick s h.silent }

  execution-IsIdle : (s : Session) → IsIdle s → IsIdle (execute_with_retry env op s).1
  execution-IsIdle =
      execute_with_retry-keeps env op IsIdle tick-IsIdle (λ c s e h. record { silent = h.silent })

  call-IsIdle : (c : Call) (s : Session) → IsIdle s → IsIdle (perform env c s).1
  unfolding perform
  call-IsIdle c s h =
      let beaten =
        heartbeat-keeps env op IsIdle tick-IsIdle (λ c s e h. record { silent = h.silent })
          (lease_of s.beating s.log env) s h in
      record { silent = beaten.silent }

  stop-IsIdle : (r : Option Error × Session) → IsIdle (stop_heartbeat env r).1
  stop-IsIdle (exec_err, s) = record { silent = refl }

  lease-IsIdle : (s : Session) → IsIdle s → IsIdle (execute_with_lease_heartbeat env cfg op s).1
  unfolding execute_with_lease_heartbeat
  lease-IsIdle s h =
      if_keeps (λ (r : Option Error × Session). IsIdle r.1)
        (leb_ℤ cfg.operation_claim_lease_ttl (pos 0)) (execution-IsIdle s h)
        (stop-IsIdle (execute_with_retry env op (record s { beating = some op.id; lost = none })))

  finish-IsIdle : (r : Option Error × Session) → IsIdle r.1 → IsIdle (finish_operation env op r).1
  unfolding finish_operation fail_operation update_deploy_failure_status
  finish-IsIdle (none, s) h = call-IsIdle _ s h
  finish-IsIdle (some err, s) h =
      if_keeps (λ (r : Option Error × Session). IsIdle r.1) err.lease_lost h
        (call-IsIdle _ _
          (if_keeps IsIdle _ h (if_keeps IsIdle _ (call-IsIdle _ s h) (call-IsIdle _ s h))))

  claim-IsIdle : (r : Option Error × Session) → IsIdle r.1 → IsIdle (after_claim env cfg op r).1
  claim-IsIdle (none, s) h = finish-IsIdle _ (lease-IsIdle s h)
  claim-IsIdle (some err, s) h = h

  process-IsIdle : (s : Session) → IsIdle s → IsIdle (process_operation env cfg op s).1
  unfolding process_operation
  process-IsIdle s h =
      if_keeps (λ (r : Option Error × Session). IsIdle r.1) (not (op.status == status_queued)) h
        (if_keeps (λ (r : Option Error × Session). IsIdle r.1)
          (not (operation_compatible_with_worker cfg op).0) h
          (claim-IsIdle _ (call-IsIdle (claim op.id) s h)))

  -- A run that starts with no heartbeat ends with none.
  pub process_operation-idle :
      (s : Session) → s.beating ≡ none → (process_operation env cfg op s).1.beating ≡ none
  process_operation-idle s h = (process-IsIdle s (record { silent = h })).silent

  pub process_operation-IsBetween :
      (s : Session) → IsBetween s → IsBetween (process_operation env cfg op s).1
  process_operation-IsBetween s (b, g) =
      (process_operation-idle s b, process_operation-IsGuarded env cfg op s b g)
