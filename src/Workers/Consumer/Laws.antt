-- ===== src/Workers/Consumer/Laws.antt =====
-- What the consumer keeps over any stream of deliveries.
use releasea_worker.Prelude.{
  ℕ, zero, suc, String, Bool, true, false, Option, none, some, List, [], ◌∷◌, length, ◌≡◌, refl, ap,
  inl, inr, if◌then◌else◌, ◌==◌, if_keeps, Bool-cases,
}
use releasea_worker.Models.Failure.{Error}
use releasea_worker.Models.Operation.{Config}
use releasea_worker.Workers.Process.{
  fetch, Env, Session, perform, after_fetch, process_operation_by_id,
}
use releasea_worker.Workers.Process.Trace.{perform_alone}
use releasea_worker.Workers.Process.Trace.Idle.{IsBetween, process_operation-IsBetween}
use releasea_worker.Workers.PoolControl.{blocks}
use releasea_worker.Workers.Consumer.{
  Disposition, requeue, Event, done, closed, delivered, process_job, Consumed, settle,
  after_requeue, consume,
}

abbrev is_none : Option Error → Bool
is_none none = true
is_none (some e) = false

-- How many deliveries the loop takes: it goes on past a delivery, unless the pool is blocked and the
-- wait is interrupted.
abbrev pub taken : List Event → ℕ
taken [] = 0
taken (done ∷ events) = 0
taken (closed ∷ events) = 0
taken (delivered d ∷ events) =
    suc (
      if blocks d.control
      then (if is_none d.interrupted then taken events else 0)
      else taken events)

length-after_requeue :
    (failure : Option Error) (s : Session) (rest : Consumed) (n : ℕ)
    → length rest.dispositions ≡ n
    → length (after_requeue failure s rest).dispositions ≡ (if is_none failure then n else 0)
length-after_requeue none s rest n h = h
length-after_requeue (some e) s rest n h = refl

-- Every delivery that the loop takes is acknowledged, given back or rejected, and only once.
length-consume :
    (env : Env) (cfg : Config) (events : List Event) (s : Session)
    → length (consume env cfg events s).dispositions ≡ taken events
unfolding consume
length-consume env cfg [] s = refl
length-consume env cfg (done ∷ events) s = refl
length-consume env cfg (closed ∷ events) s = refl
length-consume env cfg (delivered d ∷ events) s = elim (Bool-cases (blocks d.control)) [
  | inl blocked ↦ rw blocked (
      ap suc (
        length-after_requeue d.interrupted s (consume env cfg events s) (taken events)
          (length-consume env cfg events s)))
  | inr free ↦
      rw free
        (ap suc (length-consume env cfg events (process_job env cfg d.body d.operation_id s).1))
]

module _ (env : Env) (cfg : Config) where
  after_fetch-IsBetween :
      (id : String) (s : Session) (r : Option Error × Session)
      → IsBetween r.1
      → IsBetween (after_fetch env cfg (env.fetched s.log id) r).1
  after_fetch-IsBetween id s (none, s') (b, g) =
      process_operation-IsBetween env cfg (env.fetched s.log id) s' (b, g)
  after_fetch-IsBetween id s (some e, s') h = h

  fetch-IsBetween :
      (id : String) (s : Session) → IsBetween s → IsBetween (perform env (fetch id) s).1
  fetch-IsBetween id s h = rw (perform_alone env (fetch id) s h.0) (h.0, (tt, h.1))

  process_job-IsBetween :
      (body : String) (id : Option String) (s : Session)
      → IsBetween s
      → IsBetween (process_job env cfg body id s).1
  unfolding process_job process_operation_by_id
  process_job-IsBetween body none s h = h
  process_job-IsBetween body (some id) s h =
      if_keeps (λ (r : Option Error × Session). IsBetween r.1) (id == "") h
        (after_fetch-IsBetween id s (perform env (fetch id) s) (fetch-IsBetween id s h))

  after_requeue-IsBetween :
      (failure : Option Error) (s : Session) (rest : Consumed)
      → IsBetween s
      → IsBetween rest.session
      → IsBetween (after_requeue failure s rest).session
  after_requeue-IsBetween none s rest h k = k
  after_requeue-IsBetween (some e) s rest h k = h

  -- Over any stream of deliveries, an operation is executed, renewed and reported only after a granted
  -- claim of it, and no heartbeat is left beating.
  pub consume-IsBetween :
      (events : List Event) (s : Session)
      → IsBetween s
      → IsBetween (consume env cfg events s).session
  unfolding consume
  consume-IsBetween [] s h = h
  consume-IsBetween (done ∷ events) s h = h
  consume-IsBetween (closed ∷ events) s h = h
  consume-IsBetween (delivered d ∷ events) s h =
      let s' = (process_job env cfg d.body d.operation_id s).1 in
      if_keeps (λ (c : Consumed). IsBetween c.session) (blocks d.control)
        (after_requeue-IsBetween d.interrupted s (consume env cfg events s) h
          (consume-IsBetween events s h))
        (consume-IsBetween events s' (process_job-IsBetween d.body d.operation_id s h))

  abbrev pub given_back : ℕ → List Disposition
  given_back zero = []
  given_back (suc n) = requeue ∷ given_back n

  -- How many messages the loop takes of a blocked pool.
  abbrev pub taken_blocked : List Event → ℕ
  taken_blocked [] = 0
  taken_blocked (done ∷ events) = 0
  taken_blocked (closed ∷ events) = 0
  taken_blocked (delivered d ∷ events) =
      suc (if is_none d.interrupted then taken_blocked events else 0)

  -- Is every delivery met by a blocked pool?
  abbrev pub AreBlocked : List Event → Type 0
  AreBlocked [] = Unit
  AreBlocked (done ∷ events) = Unit
  AreBlocked (closed ∷ events) = Unit
  AreBlocked (delivered d ∷ events) = (blocks d.control ≡ true) × AreBlocked events

  -- While the pool is in maintenance or draining, each message that the loop takes goes back to the queue,
  -- once, and the worker makes no call: nothing is fetched, claimed or executed. The loop takes the
  -- messages up to the end of the stream, or up to the first after which the wait is interrupted.
  pub consume_blocked :
      (events : List Event) (s : Session)
      → AreBlocked events
      → ((consume env cfg events s).session ≡ s)
        × ((consume env cfg events s).dispositions ≡ given_back (taken_blocked events))
  unfolding consume
  consume_blocked [] s h = (refl, refl)
  consume_blocked (done ∷ events) s h = (refl, refl)
  consume_blocked (closed ∷ events) s h = (refl, refl)
  consume_blocked (delivered d ∷ events) s (b, h) =
      rw b (blocked d.interrupted (consume_blocked events s h))
    where
      blocked :
          (failure : Option Error)
          → ((consume env cfg events s).session ≡ s)
            × ((consume env cfg events s).dispositions ≡ given_back (taken_blocked events))
          → ((settle requeue (after_requeue failure s (consume env cfg events s))).session ≡ s)
            × ((settle requeue (after_requeue failure s (consume env cfg events s))).dispositions
                ≡ given_back (suc (if is_none failure then taken_blocked events else 0)))
      blocked none (same, all) = (same, ap (λ ds. requeue ∷ ds) all)
      blocked (some e) (same, all) = (refl, refl)
