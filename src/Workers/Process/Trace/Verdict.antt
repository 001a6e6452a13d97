-- ===== src/Workers/Process/Trace/Verdict.antt =====
-- What a whole run of `processOperation` reports, does and returns.
use releasea_worker.Prelude.{
  ◌≤◌, String, Bool, true, false, not, Option, none, some, [], ◌∷◌, ◌≡◌, refl, ◌≢◌, ◌↔◌, inl, inr,
  ◌==◌, arith, if_keeps, if_split, Bool-cases, eq_iff,
}
use releasea_worker.Models.Failure.{Error}
use releasea_worker.Models.Payload.{Payload}
use releasea_worker.Models.Operation.{
  OperationPayload, Config, status_queued, status_succeeded, status_failed,
}
use releasea_worker.Workers.Compatibility.{operation_compatible_with_worker}
use releasea_worker.Workers.Process.{
  claim, update_status, update_strategy, Env, Session, perform, max_attempts_for,
  update_deploy_failure_status, fail_operation, finish_operation, after_claim, process_operation,
  started, completed,
}
use releasea_worker.Workers.Process.Trace.{
  executions, reports, last_report, last_execution, lease_failed, perform_alone,
}
use releasea_worker.Workers.Process.Trace.Attempts.{RetriesAreJustified}
use releasea_worker.Workers.Process.Trace.Reports.{
  IsQuiet, Executed, execute_with_lease_heartbeat-Executed,
}

module _ (env : Env) (cfg : Config) (op : OperationPayload) where
  -- What is known of a run when it has returned.
  pub record Verdict (r : Option Error × Session) : Type 0 where
    pub once : reports r.1.log ≤ 1
    pub succeeded :
        (last_report r.1.log ≡ some status_succeeded)
        ↔ ((last_execution r.1.log ≡ some none) × (lease_failed r.1.log ≡ false))
    pub failed :
        last_report r.1.log ≡ some status_failed
        → (last_execution r.1.log ≢ some none) × (lease_failed r.1.log ≡ false)
    pub lost :
        lease_failed r.1.log ≡ true
        → (reports r.1.log ≡ 0) × ((err : Error) × (r.0 ≡ some err) × (err.lease_lost ≡ true))
    pub bounded : executions r.1.log ≤ max_attempts_for env op
    pub justified : RetriesAreJustified r.1.log

  -- The state between the execution and the final status.
  record Ended (failed : Bool) (s : Session) : Type 0 where
    bounded : executions s.log ≤ max_attempts_for env op
    justified : RetriesAreJustified s.log
    quiet : IsQuiet none s
    kept : lease_failed s.log ≡ false
    outcome : (last_execution s.log ≡ some none) ↔ (failed ≡ false)

  succeed-Verdict :
      (s : Session)
      → Ended false s
      → Verdict (completed (perform env (update_status op.id status_succeeded "") s))
  succeed-Verdict s e =
      rw (perform_alone env (update_status op.id status_succeeded "") s e.quiet.2) (record {
        once = omega (arith, e.quiet.0);
        succeeded = (λ _. (e.outcome.1 refl, e.kept), λ _. refl);
        failed = λ h. absurd (status_ne h);
        lost = λ h. cc (e.kept, h);
        bounded = e.bounded;
        justified = (tt, e.justified);
      })
    where
      status_ne : some status_succeeded ≢ some status_failed
      status_ne h = ground (arith, eq_iff status_succeeded status_failed)

  fail-Verdict :
      (s : Session) (message : String)
      → Ended true s
      → Verdict (completed (perform env (update_status op.id status_failed message) s))
  fail-Verdict s message e =
      rw (perform_alone env (update_status op.id status_failed message) s e.quiet.2) (record {
        once = omega (arith, e.quiet.0);
        succeeded = (λ h. absurd (status_ne h), λ h. cc (e.outcome.0 h.0));
        failed = λ _. ((λ h. cc (e.outcome.0 h)), e.kept);
        lost = λ h. cc (e.kept, h);
        bounded = e.bounded;
        justified = (tt, e.justified);
      })
    where
      status_ne : some status_failed ≢ some status_succeeded
      status_ne h = ground (arith, eq_iff status_failed status_succeeded)

  answer-Ended :
      (b : Bool) (d st ty ph su : String) (details : Payload) (s : Session)
      → Ended b s
      → Ended b (perform env (update_strategy d st ty ph su details) s).1
  answer-Ended b d st ty ph su details s e =
      rw (perform_alone env (update_strategy d st ty ph su details) s e.quiet.2) (record {
        bounded = e.bounded;
        justified = (tt, e.justified);
        quiet = e.quiet;
        kept = e.kept;
        outcome = e.outcome;
      })

  failure_update-Ended :
      (err : Error) (s : Session)
      → Ended true s
      → Ended true (update_deploy_failure_status env op err s)
  unfolding update_deploy_failure_status
  failure_update-Ended err s e = if_keeps (Ended true) _ e (
      if_keeps (Ended true) _ (answer-Ended true _ _ _ _ _ _ s e)
        (answer-Ended true _ _ _ _ _ _ s e))

  -- A run that has reported nothing, with its lease lost or its error marked so.
  unreported-Verdict :
      (s0 s : Session) (err : Error)
      → executions s0.log ≡ 0
      → Executed env cfg op s0 (some err, s)
      → err.lease_lost ≡ true
      → Verdict (some err, s)
  unreported-Verdict s0 s err zero_before x l = record {
    once = omega (arith, x.quiet.0);
    succeeded = (λ h. cc (x.quiet.1, h), λ h. cc (x.succeeded.1 h));
    failed = λ h. cc (x.quiet.1, h);
    lost = λ h. (x.quiet.0, x.lost h);
    bounded = omega (arith, x.bounded);
    justified = x.justified;
  }

  failure-Ended :
      (s0 s : Session) (err : Error)
      → executions s0.log ≡ 0
      → Executed env cfg op s0 (some err, s)
      → err.lease_lost ≡ false
      → Ended true s
  failure-Ended s0 s err zero_before x l =
      let kept : lease_failed s.log ≡ false = elim (Bool-cases (lease_failed s.log)) [
        | inl failed ↦ let (err', e, marked) = x.lost failed in cc (e, marked, l)
        | inr fine ↦ fine
      ] in
      record {
        bounded = omega (arith, x.bounded);
        justified = x.justified;
        quiet = x.quiet;
        kept = kept;
        outcome = (λ h. cc (x.succeeded.1 (h, kept)), λ h. cc);
      }

  finish-Verdict :
      (s0 : Session) (r : Option Error × Session)
      → executions s0.log ≡ 0
      → Executed env cfg op s0 r
      → Verdict (finish_operation env op r)
  unfolding finish_operation fail_operation
  finish-Verdict s0 (none, s) zero_before x =
      let (last, kept) = x.succeeded.0 refl in
      succeed-Verdict s (record {
        bounded = omega (arith, x.bounded);
        justified = x.justified;
        quiet = x.quiet;
        kept = kept;
        outcome = (λ h. refl, λ h. last);
      })
  finish-Verdict s0 (some err, s) zero_before x =
      if_split Verdict err.lease_lost (unreported-Verdict s0 s err zero_before x) (λ l.
        fail-Verdict (update_deploy_failure_status env op err s) err.message
          (failure_update-Ended err s (failure-Ended s0 s err zero_before x l)))

  -- A run that has done nothing but claim, at most.
  idle-Verdict :
      (failure f : Option Error)
      → Verdict (failure, started)
        × Verdict
            (failure, record started { log = record { call = claim op.id; failure = f } ∷ [] })
  idle-Verdict failure f = (
    record {
      once = omega arith;
      succeeded = (λ h. cc, λ h. cc (h.0));
      failed = λ h. cc;
      lost = λ h. cc;
      bounded = omega arith;
      justified = tt;
    },
    record {
      once = omega arith;
      succeeded = (λ h. cc, λ h. cc (h.0));
      failed = λ h. cc;
      lost = λ h. cc;
      bounded = omega arith;
      justified = (tt, tt);
    },
  )

  claim-Verdict :
      (f : Option Error)
      → Verdict (
          after_claim env cfg op
            (f, record started { log = record { call = claim op.id; failure = f } ∷ [] }))
  claim-Verdict none =
      let s0 : Session = record started {
        log = record { call = claim op.id; failure = none } ∷ [];
      } in
      finish-Verdict s0 _ refl (
        execute_with_lease_heartbeat-Executed env cfg op s0 ((tt, tt), refl)
          (refl, refl, refl, refl) refl)
  claim-Verdict (some err) = (idle-Verdict _ (some err)).1

  pub process_operation-Verdict : Verdict (process_operation env cfg op started)
  unfolding process_operation
  process_operation-Verdict =
      if_keeps Verdict (not (op.status == status_queued)) (idle-Verdict none none).0 (
        if_keeps Verdict (not (operation_compatible_with_worker cfg op).0) (idle-Verdict _ none).0 (
          rw (perform_alone env (claim op.id) started refl)
            (claim-Verdict (env.reply [] (claim op.id)))))

  -- A run reports at most one final status. It reports success exactly when the last execution returned
  -- no error and no renewal of the claim failed, and it reports failure only when the last execution
  -- did not succeed and no renewal of the claim failed.
  pub process_operation-reports :
      let log = (process_operation env cfg op started).1.log in
      (reports log ≤ 1)
      × ((last_report log ≡ some status_succeeded)
          ↔ ((last_execution log ≡ some none) × (lease_failed log ≡ false)))
      × (last_report log ≡ some status_failed
          → (last_execution log ≢ some none) × (lease_failed log ≡ false))
  process_operation-reports = let v = process_operation-Verdict in (v.once, v.succeeded, v.failed)

  -- Where a renewal of the claim has failed, the run reports no final status, whatever the execution
  -- returned, and ends with an error that is marked as a lost lease.
  pub process_operation_lease_lost :
      lease_failed (process_operation env cfg op started).1.log ≡ true
      → let r = process_operation env cfg op started in
        (reports r.1.log ≡ 0) × ((err : Error) × (r.0 ≡ some err) × (err.lease_lost ≡ true))
  process_operation_lease_lost = process_operation-Verdict.lost

  -- An operation is executed at most as often as its kind and the configuration allow, and each
  -- execution but the first follows one that failed with a transient error.
  pub process_operation_attempts :
      let log = (process_operation env cfg op started).1.log in
      (executions log ≤ max_attempts_for env op) × RetriesAreJustified log
  process_operation_attempts = let v = process_operation-Verdict in (v.bounded, v.justified)
