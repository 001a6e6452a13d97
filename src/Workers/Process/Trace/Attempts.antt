-- ===== src/Workers/Process/Trace/Attempts.antt =====
-- How often an operation is executed, and after what.
use releasea_worker.Prelude.{
  ℕ, suc, String, true, Option, none, some, List, [], ◌∷◌, ◌≡◌, refl, ◌∙◌, ap, ◌⊎◌, if_keeps,
}
use releasea_worker.Models.Failure.{Error}
use releasea_worker.Models.Operation.{OperationPayload}
use releasea_worker.Deploys.Strategy.{is_transient_deploy_error}
use releasea_worker.Workers.Process.{
  Call, fetch, claim, renew, execute, wait, update_status, update_strategy, Entry, Env, Session,
  heartbeat, lease_of, perform, update_retrying_status,
}
use releasea_worker.Workers.Process.Trace.{
  entry, executions, last_execution, heartbeat-keeps_reading, heartbeat-keeps_log,
}

-- A call other than an execution.
abbrev pub IsOther : Call → Type 0
IsOther (execute id) = ⊥
IsOther (wait d) = Unit
IsOther (update_strategy d st ty ph su de) = Unit
IsOther (renew id) = Unit
IsOther (fetch id) = Unit
IsOther (claim id) = Unit
IsOther (update_status id st m) = Unit

entry-other :
    (c : Call) (f : Option Error) (log : List Entry)
    → IsOther c
    → (executions (entry c f ∷ log) ≡ executions log)
      × (last_execution (entry c f ∷ log) ≡ last_execution log)
entry-other (execute id) f log h = absurd h
entry-other (wait d) f log h = (refl, refl)
entry-other (update_strategy d st ty ph su de) f log h = (refl, refl)
entry-other (renew id) f log h = (refl, refl)
entry-other (fetch id) f log h = (refl, refl)
entry-other (claim id) f log h = (refl, refl)
entry-other (update_status id st m) f log h = (refl, refl)

module _ (env : Env) where
  pub heartbeat-reading :
      (n : ℕ) (s : Session)
      → (executions (heartbeat env n s).log ≡ executions s.log)
        × (last_execution (heartbeat env n s).log ≡ last_execution s.log)
  heartbeat-reading n s = (
    heartbeat-keeps_reading executions (λ id f log. refl) env n s,
    heartbeat-keeps_reading last_execution (λ id f log. refl) env n s,
  )

  -- A call other than an execution leaves the executions as they are.
  pub perform-other :
      (c : Call) (s : Session)
      → IsOther c
      → (executions (perform env c s).1.log ≡ executions s.log)
        × (last_execution (perform env c s).1.log ≡ last_execution s.log)
  unfolding perform
  perform-other c s h =
      let (a, b) = heartbeat-reading (lease_of s.beating s.log env) s in
      let s' = heartbeat env (lease_of s.beating s.log env) s in
      let (a', b') = entry-other c (env.reply s'.log c) s'.log h in (a' ∙ a, b' ∙ b)

  pub perform-execute :
      (id : String) (s : Session)
      → (executions (perform env (execute id) s).1.log ≡ suc (executions s.log))
        × (last_execution (perform env (execute id) s).1.log ≡ some (perform env (execute id) s).0)
  unfolding perform
  perform-execute id s =
      let (a, b) = heartbeat-reading (lease_of s.beating s.log env) s in (ap suc a, refl)

-- The operation has not been executed yet, or its last execution failed in a way that may pass.
abbrev pub MayExecute : List Entry → Type 0
MayExecute log =
    (last_execution log ≡ none)
    ⊎ ((err : Error) × (last_execution log ≡ some (some err))
        × (is_transient_deploy_error err ≡ true))

abbrev pub RetryAt : Call → List Entry → Type 0
RetryAt (execute id) log = MayExecute log
RetryAt (wait d) log = Unit
RetryAt (update_strategy d st ty ph su de) log = Unit
RetryAt (renew id) log = Unit
RetryAt (fetch id) log = Unit
RetryAt (claim id) log = Unit
RetryAt (update_status id st m) log = Unit

-- An operation is executed again only after a failure that may pass.
abbrev pub RetriesAreJustified : List Entry → Type 0
RetriesAreJustified [] = Unit
RetriesAreJustified (e ∷ log) = RetryAt e.call log × RetriesAreJustified log

RetryAt-other : (c : Call) (log : List Entry) → IsOther c → RetryAt c log
RetryAt-other (execute id) log h = absurd h
RetryAt-other (wait d) log h = tt
RetryAt-other (update_strategy d st ty ph su de) log h = tt
RetryAt-other (renew id) log h = tt
RetryAt-other (fetch id) log h = tt
RetryAt-other (claim id) log h = tt
RetryAt-other (update_status id st m) log h = tt

module _ (env : Env) where
  pub heartbeat-justified :
      (n : ℕ) (s : Session)
      → RetriesAreJustified s.log
      → RetriesAreJustified (heartbeat env n s).log
  heartbeat-justified = heartbeat-keeps_log RetriesAreJustified (λ id f log h. (tt, h)) env

  perform-justified :
      (c : Call) (s : Session)
      → IsOther c
      → RetriesAreJustified s.log
      → RetriesAreJustified (perform env c s).1.log
  unfolding perform
  perform-justified c s o h =
      (RetryAt-other c _ o, heartbeat-justified (lease_of s.beating s.log env) s h)

  pub execute-justified :
      (id : String) (s : Session)
      → MayExecute s.log
      → RetriesAreJustified s.log
      → RetriesAreJustified (perform env (execute id) s).1.log
  unfolding perform
  execute-justified id s m h =
      let n = lease_of s.beating s.log env in
      (rw ((heartbeat-reading env n s).1) m, heartbeat-justified n s h)

  -- What a session has that made no more executions than `s`.
  pub record Follows (s s' : Session) : Type 0 where
    pub same_count : executions s'.log ≡ executions s.log
    pub same_last : last_execution s'.log ≡ last_execution s.log
    pub justified : RetriesAreJustified s.log → RetriesAreJustified s'.log

  Follows-refl : (s : Session) → Follows s s
  Follows-refl s = record { same_count = refl; same_last = refl; justified = λ h. h }

  pub Follows-trans : {s t u : Session} → Follows s t → Follows t u → Follows s u
  Follows-trans f g = record {
    same_count = g.same_count ∙ f.same_count;
    same_last = g.same_last ∙ f.same_last;
    justified = λ h. g.justified (f.justified h);
  }

  pub perform-Follows : (c : Call) (s : Session) → IsOther c → Follows s (perform env c s).1
  perform-Follows c s o = record {
    same_count = (perform-other env c s o).0;
    same_last = (perform-other env c s o).1;
    justified = perform-justified c s o;
  }

  pub update_retrying_status-Follows :
      (op : OperationPayload) (ty : String) (a m : ℕ) (err : Error) (s : Session)
      → Follows s (update_retrying_status env op ty a m err s)
  unfolding update_retrying_status
  update_retrying_status-Follows op ty a m err s =
      if_keeps (Follows s) _ (Follows-refl s) (perform-Follows _ s tt)
