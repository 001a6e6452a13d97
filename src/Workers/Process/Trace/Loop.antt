-- ===== src/Workers/Process/Trace/Loop.antt =====
-- The retry loop: how many attempts it makes, after what, and what its result says.
use releasea_worker.Prelude.{
  ℕ, zero, suc, ◌+◌, ◌≤◌, String, true, Option, none, some, ◌≡◌, refl, ◌∙◌, ◌≢◌, ◌⊎◌, inl, inr,
  arith, Bool-cases,
}
use releasea_worker.Models.Failure.{Error}
use releasea_worker.Models.Operation.{OperationPayload}
use releasea_worker.Deploys.Strategy.{is_transient_deploy_error}
use releasea_worker.Workers.Process.{
  execute, wait, Env, Session, perform, should_retry_operation, update_retrying_status, retry_after,
  deploy_retry_delay, after_wait, after_attempt, attempt_from,
}
use releasea_worker.Workers.Process.Trace.{executions, last_execution}
use releasea_worker.Workers.Process.Trace.Attempts.{
  perform-execute, MayExecute, RetriesAreJustified, execute-justified, Follows, Follows-trans,
  perform-Follows, update_retrying_status-Follows,
}

module _ (env : Env) where
  -- The outcome of a loop that starts from `s` with `left` rounds.
  pub record Attempted (left : ℕ) (s : Session) (r : Option Error × Session) : Type 0 where
    pub bounded : executions r.1.log ≤ executions s.log + left
    pub sound : r.0 ≡ none → last_execution r.1.log ≡ some none
    pub complete : last_execution r.1.log ≡ some none → r.0 ≡ none
    pub justified : RetriesAreJustified r.1.log

  -- The loop's error variable holds what the last execution returned.
  abbrev pub Ready : ℕ → Option Error → Session → Type 0
  Ready left exec_err s =
      RetriesAreJustified s.log
      × (((err : Error) × (exec_err ≡ some err)
            × (last_execution s.log ≡ some exec_err)
            × (is_transient_deploy_error err ≡ true))
          ⊎ ((last_execution s.log ≡ none) × (left ≢ 0)))

  transient_of_retry :
      (op : OperationPayload) (err : Error) (a m : ℕ)
      → should_retry_operation op err a m ≡ true
      → is_transient_deploy_error err ≡ true
  unfolding should_retry_operation
  transient_of_retry op err a m h = ground arith

  -- After a failed attempt the loop stops with its error, or goes on from a state that is ready.
  after_failure-Attempted :
      (left : ℕ) (s s1 s2 : Session) (err : Error) (w : Option Error)
      (again : Session → Option Error × Session)
      → executions s1.log ≡ suc (executions s.log)
      → last_execution s1.log ≡ some (some err)
      → RetriesAreJustified s1.log
      → Follows env s1 s2
      → is_transient_deploy_error err ≡ true
      → ((s' : Session) → Ready left (some err) s' → Attempted left s' (again s'))
      → Attempted (suc left) s (after_wait (w, s2) again)
  after_failure-Attempted left s s1 s2 err (some w) again count last just f transient go = record {
    bounded = omega (arith, f.same_count);
    sound = λ e. cc;
    complete = λ e. cc (f.same_last, last, e);
    justified = f.justified just;
  }
  after_failure-Attempted left s s1 s2 err none again count last just f transient go =
      let done = go s2 (f.justified just, inl (err, refl, f.same_last ∙ last, transient)) in
      record {
        bounded = omega (arith, f.same_count, done.bounded);
        sound = done.sound;
        complete = done.complete;
        justified = done.justified;
      }

  after_attempt-Attempted :
      (op : OperationPayload) (ty : String) (m a left : ℕ) (s : Session)
      (r : Option Error × Session) (again : Error → Session → Option Error × Session)
      → executions r.1.log ≡ suc (executions s.log)
      → last_execution r.1.log ≡ some r.0
      → RetriesAreJustified r.1.log
      → ((err : Error) (s' : Session) → Ready left (some err) s' → Attempted left s' (again err s'))
      → Attempted (suc left) s (after_attempt env op ty a m r again)
  after_attempt-Attempted op ty m a left s (none, s1) again count last just go = record {
    bounded = omega arith;
    sound = λ e. last;
    complete = λ e. refl;
    justified = just;
  }
  after_attempt-Attempted op ty m a left s (some err, s1) again count last just go =
      elim (Bool-cases (should_retry_operation op err a m)) [
        | inl retry ↦ rw retry (retried retry)
        | inr stop ↦ rw stop stopped
      ]
    where
      stopped : Attempted (suc left) s (some err, s1)
      stopped = record {
        bounded = omega arith;
        sound = λ e. cc;
        complete = λ e. cc (last, e);
        justified = just;
      }

      retried :
          should_retry_operation op err a m ≡ true
          → Attempted (suc left) s (retry_after env op ty a m err s1 (again err))
      retried retry =
          unfold retry_after in
          let s2 = update_retrying_status env op ty a m err s1 in
          let (w, s3) = perform env (wait (deploy_retry_delay env)) s2 in
          after_failure-Attempted left s s1 s3 err w (again err) count last just
            (Follows-trans env (update_retrying_status-Follows env op ty a m err s1)
              (perform-Follows env (wait (deploy_retry_delay env)) s2 tt))
            (transient_of_retry op err a m retry) (go err)

  may_execute :
      (left : ℕ) (exec_err : Option Error) (s : Session) → Ready left exec_err s → MayExecute s.log
  may_execute left exec_err s (j, inl (err, e, last, transient)) =
      inr (err, rw (← e) last, transient)
  may_execute left exec_err s (j, inr (fresh, _)) = inl fresh

  pub attempt_from-Attempted :
      (op : OperationPayload) (ty : String) (m a left : ℕ) (exec_err : Option Error) (s : Session)
      → Ready left exec_err s
      → Attempted left s (attempt_from env op ty m a left exec_err s)
  unfolding attempt_from
  attempt_from-Attempted op ty m a zero exec_err s (j, inl (err, e, last, transient)) = record {
    bounded = omega arith;
    sound = λ z. cc;
    complete = λ z. cc (last, z);
    justified = j;
  }
  attempt_from-Attempted op ty m a zero exec_err s (j, inr (fresh, n)) = absurd (n refl)
  attempt_from-Attempted op ty m a (suc left) exec_err s ready =
      let (count, last) = perform-execute env op.id s in
      after_attempt-Attempted op ty m a left s (perform env (execute op.id) s) _ count last
        (execute-justified env op.id s (may_execute (suc left) exec_err s ready) ready.0)
        (λ err s' h. attempt_from-Attempted op ty m (suc a) left (some err) s' h)
