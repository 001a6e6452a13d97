-- ===== src/Workers/Process/Trace.antt =====
-- What a log of calls says, and how each step of a run extends it.
pub mod Claim
pub mod Idle
pub mod Attempts
pub mod Loop
pub mod Reports
pub mod Verdict
use releasea_worker.Prelude.{
  ℕ, zero, suc, ◌+◌, String, Bool, true, false, ◌||◌, Option, none, some, List, [], ◌∷◌, ◌≡◌, refl,
  ◌∙◌, arith, not, ◌==◌, if_keeps,
}
use releasea_worker.Prelude.Int.{ℤ}
use releasea_worker.Models.Failure.{Error}
use releasea_worker.Models.Payload.{Payload}
use releasea_worker.Models.Operation.{OperationPayload, type_service_deploy}
use releasea_worker.Workers.Process.{
  Call, fetch, claim, renew, execute, wait, update_status, update_strategy, Entry, Env, Session,
  renew_claim, tick_of, tick, heartbeat, lease_of, answer, perform, after_wait, retry_after,
  update_retrying_status, should_retry_operation, deploy_retry_delay, after_attempt, attempt_from,
  execute_with_retry,
}

abbrev pub is_some {ℓ} : {A : Type ℓ} → Option A → Bool
is_some none = false
is_some (some _) = true

abbrev pub entry : Call → Option Error → Entry
entry c f = record { call = c; failure = f }

abbrev count_execution : Call → ℕ → ℕ
count_execution (execute id) n = suc n
count_execution (fetch id) n = n
count_execution (claim id) n = n
count_execution (renew id) n = n
count_execution (wait d) n = n
count_execution (update_status id st m) n = n
count_execution (update_strategy d st ty ph su de) n = n

-- How often the operation was executed.
abbrev pub executions : List Entry → ℕ
executions [] = 0
executions (e ∷ log) = count_execution e.call (executions log)

abbrev count_report : Call → ℕ → ℕ
count_report (update_status id st m) n = suc n
count_report (execute id) n = n
count_report (fetch id) n = n
count_report (claim id) n = n
count_report (renew id) n = n
count_report (wait d) n = n
count_report (update_strategy d st ty ph su de) n = n

-- How often a final status was reported.
abbrev pub reports : List Entry → ℕ
reports [] = 0
reports (e ∷ log) = count_report e.call (reports log)

abbrev latest : Call → Option Error → Option (Option Error) → Option (Option Error)
latest (execute id) f rest = some f
latest (update_status id st m) f rest = rest
latest (fetch id) f rest = rest
latest (claim id) f rest = rest
latest (renew id) f rest = rest
latest (wait d) f rest = rest
latest (update_strategy d st ty ph su de) f rest = rest

abbrev newest : Call → Option String → Option String
newest (update_status id st m) rest = some st
newest (execute id) rest = rest
newest (fetch id) rest = rest
newest (claim id) rest = rest
newest (renew id) rest = rest
newest (wait d) rest = rest
newest (update_strategy d st ty ph su de) rest = rest

-- The final status that was reported last.
abbrev pub last_report : List Entry → Option String
last_report [] = none
last_report (e ∷ log) = newest e.call (last_report log)

-- What the last execution returned.
abbrev pub last_execution : List Entry → Option (Option Error)
last_execution [] = none
last_execution (e ∷ log) = latest e.call e.failure (last_execution log)

abbrev failed_renewal : Call → Option Error → Bool
failed_renewal (renew id) f = is_some f
failed_renewal (execute id) f = false
failed_renewal (update_status id st m) f = false
failed_renewal (fetch id) f = false
failed_renewal (claim id) f = false
failed_renewal (wait d) f = false
failed_renewal (update_strategy d st ty ph su de) f = false

-- Has a renewal of the claim failed?
abbrev pub lease_failed : List Entry → Bool
lease_failed [] = false
lease_failed (e ∷ log) = failed_renewal e.call e.failure || lease_failed log

-- A reading of the log that heartbeats do not change.
module _ {X : Type 0} (φ : List Entry → X)
    (ignores : (id : String) (f : Option Error) (log : List Entry)
      → φ (entry (renew id) f ∷ log) ≡ φ log)
    (env : Env) where
  tick-keeps_reading : (s : Session) → φ (tick env s).log ≡ φ s.log
  unfolding tick
  tick-keeps_reading s = go s.beating s.lost
    where
      go : (b : Option String) (l : Option Error) → φ (tick_of env b l s).log ≡ φ s.log
      go none l = refl
      go (some id) (some err) = refl
      go (some id) none = ignores id (env.reply s.log (renew id)) s.log

  pub heartbeat-keeps_reading : (n : ℕ) (s : Session) → φ (heartbeat env n s).log ≡ φ s.log
  unfolding heartbeat
  heartbeat-keeps_reading zero s = refl
  heartbeat-keeps_reading (suc n) s = heartbeat-keeps_reading n (tick env s) ∙ tick-keeps_reading s

-- With no heartbeat a call is answered at once.
pub perform_alone :
    (env : Env) (c : Call) (s : Session) → s.beating ≡ none → perform env c s ≡ answer env c s
unfolding perform heartbeat
perform_alone env c s b = ground arith

-- A property of the log that renewals keep, heartbeats keep.
module _ (Q : List Entry → Type 0)
    (renewed : (id : String) (f : Option Error) (log : List Entry)
      → Q log
      → Q (entry (renew id) f ∷ log))
    (env : Env) where
  tick-keeps_log : (s : Session) → Q s.log → Q (tick env s).log
  unfolding tick
  tick-keeps_log s h = go s.beating s.lost
    where
      go : (b : Option String) (l : Option Error) → Q (tick_of env b l s).log
      go none l = h
      go (some id) (some err) = h
      go (some id) none = renewed id (env.reply s.log (renew id)) s.log h

  pub heartbeat-keeps_log : (n : ℕ) (s : Session) → Q s.log → Q (heartbeat env n s).log
  unfolding heartbeat
  heartbeat-keeps_log zero s h = h
  heartbeat-keeps_log (suc n) s h = heartbeat-keeps_log n (tick env s) (tick-keeps_log s h)

-- The calls that an execution of the operation makes: everything but claims and final statuses.
abbrev pub IsExecutionCall : String → Call → Type 0
IsExecutionCall id (execute id') = id' ≡ id
IsExecutionCall id (wait d) = Unit
IsExecutionCall id (update_strategy d st ty ph su de) = Unit
IsExecutionCall id (renew id') = ⊥
IsExecutionCall id (fetch id') = ⊥
IsExecutionCall id (claim id') = ⊥
IsExecutionCall id (update_status id' st m) = ⊥

-- What ticks and execution calls keep, an execution keeps.
module _ (env : Env) (op : OperationPayload) (P : Session → Type 0)
    (tick_keeps : (s : Session) → P s → P (tick env s))
    (answer_keeps : (c : Call) (s : Session)
      → IsExecutionCall op.id c
      → P s
      → P (answer env c s).1) where
  pub heartbeat-keeps : (n : ℕ) (s : Session) → P s → P (heartbeat env n s)
  unfolding heartbeat
  heartbeat-keeps zero s h = h
  heartbeat-keeps (suc n) s h = heartbeat-keeps n (tick env s) (tick_keeps s h)

  pub perform-keeps :
      (c : Call) (s : Session) → IsExecutionCall op.id c → P s → P (perform env c s).1
  unfolding perform
  perform-keeps c s e h = answer_keeps c _ e (heartbeat-keeps (lease_of s.beating s.log env) s h)

  update_retrying_status-keeps :
      (ty : String) (a m : ℕ) (err : Error) (s : Session)
      → P s
      → P (update_retrying_status env op ty a m err s)
  unfolding update_retrying_status
  update_retrying_status-keeps ty a m err s h =
      if_keeps P (not (op.kind == type_service_deploy) || op.deploy_id == "") h
        (perform-keeps _ s tt h)

  after_wait-keeps :
      (r : Option Error × Session) (again : Session → Option Error × Session)
      → P r.1
      → ((s : Session) → P s → P (again s).1)
      → P (after_wait r again).1
  after_wait-keeps (none, s) again h k = k s h
  after_wait-keeps (some err, s) again h k = h

  after_attempt-keeps :
      (ty : String) (a m : ℕ) (r : Option Error × Session)
      (again : Error → Session → Option Error × Session)
      → P r.1
      → ((err : Error) (s : Session) → P s → P (again err s).1)
      → P (after_attempt env op ty a m r again).1
  unfolding retry_after
  after_attempt-keeps ty a m (none, s) again h k = h
  after_attempt-keeps ty a m (some err, s) again h k =
      let s' = update_retrying_status env op ty a m err s in
      if_keeps (λ (r : Option Error × Session). P r.1) (not (should_retry_operation op err a m)) h
        (after_wait-keeps (perform env (wait (deploy_retry_delay env)) s') (again err)
          (perform-keeps _ s' tt (update_retrying_status-keeps ty a m err s h)) (k err))

  pub attempt_from-keeps :
      (ty : String) (m a left : ℕ) (exec_err : Option Error) (s : Session)
      → P s
      → P (attempt_from env op ty m a left exec_err s).1
  unfolding attempt_from
  attempt_from-keeps ty m a zero exec_err s h = h
  attempt_from-keeps ty m a (suc left) exec_err s h =
      after_attempt-keeps ty a m (perform env (execute op.id) s) _
        (perform-keeps (execute op.id) s refl h)
        (λ err s' h'. attempt_from-keeps ty m (suc a) left (some err) s' h')

  pub execute_with_retry-keeps : (s : Session) → P s → P (execute_with_retry env op s).1
  unfolding execute_with_retry
  execute_with_retry-keeps s h = attempt_from-keeps _ _ 1 _ none s h
