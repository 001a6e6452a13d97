-- ===== src/Workers/Process/Trace/Reports.antt =====
-- What is reported of an operation, and how that fits its execution.
use releasea_worker.Prelude.{
  ℕ, ◌+◌, ◌≤◌, String, true, false, Option, none, some, ◌≡◌, refl, sym, ◌∙◌, ◌≢◌, ◌↔◌, inr, arith,
  if_keeps,
}
use releasea_worker.Prelude.Int.{pos, leb_ℤ}
use releasea_worker.Models.Failure.{Error}
use releasea_worker.Models.Operation.{OperationPayload, Config}
use releasea_worker.Workers.Process.{
  Call, fetch, claim, renew, execute, wait, update_status, update_strategy, Env, Session, tick,
  heartbeat, lease_of, answer, perform, max_attempts_for, execute_with_retry, lease_result,
  stop_heartbeat, execute_with_lease_heartbeat, deploy_retry_max_attempts,
}
use releasea_worker.Workers.Process.Trace.{
  is_some, executions, reports, last_report, last_execution, lease_failed, IsExecutionCall,
  heartbeat-keeps, perform-keeps, execute_with_retry-keeps,
}
use releasea_worker.Workers.Process.Trace.Attempts.{
  RetriesAreJustified, heartbeat-reading, heartbeat-justified,
}
use releasea_worker.Workers.Process.Trace.Loop.{Attempted, attempt_from-Attempted}

-- No final status has been reported, and the session knows of a lost lease.
abbrev pub IsQuiet : Option String → Session → Type 0
IsQuiet beating s =
    (reports s.log ≡ 0)
    × (last_report s.log ≡ none)
    × (s.beating ≡ beating)
    × (lease_failed s.log ≡ is_some s.lost)

tick-IsQuiet : (env : Env) (b : Option String) (s : Session) → IsQuiet b s → IsQuiet b (tick env s)
unfolding tick
tick-IsQuiet env b s h = ground arith

answer-IsQuiet :
    (env : Env) (id : String) (b : Option String) (c : Call) (s : Session)
    → IsExecutionCall id c
    → IsQuiet b s
    → IsQuiet b (answer env c s).1
answer-IsQuiet env id b (execute id') s e h = h
answer-IsQuiet env id b (wait d) s e h = h
answer-IsQuiet env id b (update_strategy d st ty ph su de) s e h = h
answer-IsQuiet env id b (renew id') s e h = absurd e
answer-IsQuiet env id b (fetch id') s e h = absurd e
answer-IsQuiet env id b (claim id') s e h = absurd e
answer-IsQuiet env id b (update_status id' st m) s e h = absurd e

module _ (env : Env) (cfg : Config) (op : OperationPayload) where
  retry-IsQuiet :
      (b : Option String) (s : Session) → IsQuiet b s → IsQuiet b (execute_with_retry env op s).1
  retry-IsQuiet b =
      execute_with_retry-keeps env op (IsQuiet b) (tick-IsQuiet env b) (answer-IsQuiet env op.id b)

  beats-IsQuiet :
      (b : Option String) (n : ℕ) (s : Session) → IsQuiet b s → IsQuiet b (heartbeat env n s)
  beats-IsQuiet b =
      heartbeat-keeps env op (IsQuiet b) (tick-IsQuiet env b) (answer-IsQuiet env op.id b)

  pub call-IsQuiet :
      (b : Option String) (c : Call) (s : Session)
      → IsExecutionCall op.id c
      → IsQuiet b s
      → IsQuiet b (perform env c s).1
  call-IsQuiet b =
      perform-keeps env op (IsQuiet b) (tick-IsQuiet env b) (answer-IsQuiet env op.id b)

  -- What is known when the execution is over, the heartbeat stopped included.
  pub record Executed (s : Session) (r : Option Error × Session) : Type 0 where
    pub bounded : executions r.1.log ≤ executions s.log + max_attempts_for env op
    pub justified : RetriesAreJustified r.1.log
    pub quiet : IsQuiet none r.1
    pub succeeded :
        (r.0 ≡ none) ↔ ((last_execution r.1.log ≡ some none) × (lease_failed r.1.log ≡ false))
    pub lost :
        lease_failed r.1.log ≡ true → (err : Error) × (r.0 ≡ some err) × (err.lease_lost ≡ true)

  attempts_positive : max_attempts_for env op ≢ 0
  unfolding max_attempts_for deploy_retry_max_attempts
  attempts_positive = ground arith

  -- The execution starts with no execution on record.
  abbrev pub IsFresh : Session → Type 0
  IsFresh s = RetriesAreJustified s.log × (last_execution s.log ≡ none)

  retried :
      (s : Session)
      → IsFresh s
      → Attempted env (max_attempts_for env op) s (execute_with_retry env op s)
  unfolding execute_with_retry
  retried s (j, fresh) =
      attempt_from-Attempted env op _ (max_attempts_for env op) 1 (max_attempts_for env op) none s
        (j, inr (fresh, attempts_positive))

  -- With no heartbeat no lease is lost.
  abbrev HasNoLease : Session → Type 0
  HasNoLease s = (s.beating ≡ none) × (s.lost ≡ none)

  tick-HasNoLease : (s : Session) → HasNoLease s → HasNoLease (tick env s)
  unfolding tick
  tick-HasNoLease s h = ground arith

  no_lease : (s : Session) → HasNoLease s → HasNoLease (execute_with_retry env op s).1
  no_lease = execute_with_retry-keeps env op HasNoLease tick-HasNoLease (λ c s e h. h)

  unleased-Executed :
      (s : Session)
      → IsFresh s
      → IsQuiet none s
      → s.lost ≡ none
      → Executed s (execute_with_retry env op s)
  unleased-Executed s fresh q n =
      let done = retried s fresh in
      let quiet = retry-IsQuiet none s q in
      let (_, kept) = no_lease s (q.2, n) in
      record {
        bounded = done.bounded;
        justified = done.justified;
        quiet = quiet;
        succeeded = (λ e. (done.sound e, cc (quiet.3, kept)), λ h. done.complete h.0);
        lost = λ e. cc (quiet.3, kept, e);
      }

  -- The `select` after the heartbeat: `l` is what it sent.
  selected-Executed :
      (s : Session) (exec_err : Option Error) (s1 s2 : Session) (l : Option Error)
      → Attempted env (max_attempts_for env op) s (exec_err, s1)
      → executions s2.log ≡ executions s1.log
      → last_execution s2.log ≡ last_execution s1.log
      → RetriesAreJustified s2.log
      → reports s2.log ≡ 0
      → last_report s2.log ≡ none
      → lease_failed s2.log ≡ is_some l
      → Executed s (lease_result l exec_err, record s2 { beating = none; lost = l })
  selected-Executed s exec_err s1 s2 none done count last just quiet silent failed = record {
    bounded = omega (arith, done.bounded);
    justified = just;
    quiet = (quiet, silent, refl, failed);
    succeeded = (λ e. (last ∙ done.sound e, failed), λ h. done.complete (sym last ∙ h.0));
    lost = λ e. cc;
  }
  selected-Executed s exec_err s1 s2 (some err) done count last just quiet silent failed = record {
    bounded = omega (arith, done.bounded);
    justified = just;
    quiet = (quiet, silent, refl, failed);
    succeeded = (λ e. cc, λ h. cc (h.1));
    lost = λ e. (_, refl, refl);
  }

  stopped-Executed :
      (s : Session) (r : Option Error × Session)
      → Attempted env (max_attempts_for env op) s r
      → IsQuiet (some op.id) r.1
      → Executed s (stop_heartbeat env r)
  stopped-Executed s (exec_err, s1) done q =
      let n = lease_of s1.beating s1.log env in
      let s2 = heartbeat env n s1 in
      let (count, last) = heartbeat-reading env n s1 in
      let (quiet, silent, _, failed) = beats-IsQuiet (some op.id) n s1 q in
      selected-Executed s exec_err s1 s2 s2.lost done count last
        (heartbeat-justified env n s1 done.justified) quiet silent failed

  pub execute_with_lease_heartbeat-Executed :
      (s : Session)
      → IsFresh s
      → IsQuiet none s
      → s.lost ≡ none
      → Executed s (execute_with_lease_heartbeat env cfg op s)
  unfolding execute_with_lease_heartbeat
  execute_with_lease_heartbeat-Executed s fresh q n =
      let s0 = record s { beating = some op.id; lost = none } in
      let done = retried s0 fresh in
      if_keeps (Executed s) (leb_ℤ cfg.operation_claim_lease_ttl (pos 0))
        (unleased-Executed s fresh q n)
        (stopped-Executed s (execute_with_retry env op s0)
          (record {
            bounded = done.bounded;
            sound = done.sound;
            complete = done.complete;
            justified = done.justified;
          })
          (retry-IsQuiet (some op.id) s0 (q.0, q.1, refl, cc (q.3, n))))
