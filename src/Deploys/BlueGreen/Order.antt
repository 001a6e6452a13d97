-- ===== src/Deploys/BlueGreen/Order.antt =====
-- What a promotion does before it moves traffic, and before it deletes anything.
use releasea_worker.Prelude.{
  String, Bool, true, false, ◌||◌, Option, none, some, [], ◌∷◌, ◌≡◌, refl, inl, inr, In, if_keeps,
}
use releasea_worker.Prelude.Int.{pos, ltb_ℤ, at_least}
use releasea_worker.Models.Failure.{Error, ok, err}
use releasea_worker.Deploys.BlueGreen.{
  Resource, deployment, service, autoscaler, SlotCall, await_ready, await_rollout, fetch_service,
  point_service, record_slot, observe, delete, await_retired, Log, Surroundings, entry, continue,
  attempt, switch_canonical_service, Outcome, stopped, roll_back_traffic, roll_back_slot,
  roll_back_all, clean_up, observe_candidate,
}

abbrev newest_app : SlotCall → Option Error → Option String → Option String
newest_app (point_service app) none rest = some app
newest_app (point_service app) (some e) rest = rest
newest_app (await_ready n) f rest = rest
newest_app (await_rollout n) f rest = rest
newest_app fetch_service f rest = rest
newest_app (record_slot s) f rest = rest
newest_app (observe s) f rest = rest
newest_app (delete r) f rest = rest
newest_app (await_retired n) f rest = rest

-- Where the promotion has pointed the traffic, if it has.
abbrev pub traffic : Log → Option String
traffic [] = none
traffic (e ∷ log) = newest_app e.call e.failure (traffic log)

abbrev newest_slot : SlotCall → Option Error → Option String → Option String
newest_slot (record_slot slot) none rest = some slot
newest_slot (record_slot slot) (some e) rest = rest
newest_slot (await_ready n) f rest = rest
newest_slot (await_rollout n) f rest = rest
newest_slot fetch_service f rest = rest
newest_slot (point_service app) f rest = rest
newest_slot (observe s) f rest = rest
newest_slot (delete r) f rest = rest
newest_slot (await_retired n) f rest = rest

-- The slot that the API has recorded last.
abbrev pub recorded : Log → Option String
recorded [] = none
recorded (e ∷ log) = newest_slot e.call e.failure (recorded log)

abbrev is_delete : SlotCall → Bool
is_delete (delete r) = true
is_delete (record_slot slot) = false
is_delete (await_ready n) = false
is_delete (await_rollout n) = false
is_delete fetch_service = false
is_delete (point_service app) = false
is_delete (observe s) = false
is_delete (await_retired n) = false

-- Has anything been deleted, or been tried to?
abbrev pub has_delete : Log → Bool
has_delete [] = false
has_delete (e ∷ log) = is_delete e.call || has_delete log

abbrev steady_since : SlotCall → Option Error → Bool → Bool
steady_since (await_ready n) none rest = true
steady_since (await_ready n) (some e) rest = rest
steady_since (point_service app) f rest = false
steady_since (await_rollout n) f rest = rest
steady_since fetch_service f rest = rest
steady_since (record_slot slot) f rest = rest
steady_since (observe s) f rest = rest
steady_since (delete r) f rest = rest
steady_since (await_retired n) f rest = rest

-- Has a wait for readiness succeeded since the traffic was last moved?
abbrev pub is_steady : Log → Bool
is_steady [] = false
is_steady (e ∷ log) = steady_since e.call e.failure (is_steady log)

module _ (env : Surroundings) {A : Type 0} (P : A → Type 0) where
  -- What holds after each answer to a call, holds of the call.
  pub attempt_keeps :
      (c : SlotCall) (log : Log) (fail : Error → Log → A) (next : Log → A)
      → ((e : Error) → P (fail e (entry c (some e) ∷ log)))
      → P (next (entry c none ∷ log))
      → P (attempt env c log fail next)
  unfolding attempt
  attempt_keeps c log fail next h k = by_answer (env.reply log c)
    where
      by_answer : (f : Option Error) → P (continue c f log fail next)
      by_answer none = k
      by_answer (some e) = h e

module _ (active candidate active_slot candidate_slot : String) where
  -- What a call needs of the calls before it.
  abbrev Needs : SlotCall → Log → Type 0
  Needs (point_service app) log =
      In (entry (await_ready candidate) none) log
      × In (entry (await_rollout candidate) none) log
      × (has_delete log ≡ false)
  Needs (delete r) log =
      (traffic log ≡ some candidate) × (recorded log ≡ some candidate_slot) × (is_steady log ≡ true)
  Needs (await_ready n) log = Unit
  Needs (await_rollout n) log = Unit
  Needs fetch_service log = Unit
  Needs (record_slot slot) log = Unit
  Needs (observe s) log = Unit
  Needs (await_retired n) log = Unit

  -- Traffic is moved only after the candidate was ready and rolled out, and never once something has
  -- been deleted; a deletion comes only while the traffic is at the candidate, the API has its slot on
  -- record, and it has been ready since the move.
  abbrev pub IsOrdered : Log → Type 0
  IsOrdered [] = Unit
  IsOrdered (e ∷ log) = Needs e.call log × IsOrdered log

  -- The order is kept; and a promotion that succeeds has moved the traffic, has recorded the
  -- candidate's slot, which it returns, and has waited until the previous slot was gone.
  pub record IsSafe (o : Outcome) : Type 0 where
    pub ordered : IsOrdered o.1
    pub complete :
        (slot : String)
        → o.0 ≡ ok slot
        → (slot ≡ candidate_slot)
          × (traffic o.1 ≡ some candidate)
          × (recorded o.1 ≡ some candidate_slot)
          × In (entry (await_retired active) none) o.1

  pub failure-IsSafe : (e : Error) (log : Log) → IsOrdered log → IsSafe (err e, log)
  failure-IsSafe e log h = record { ordered = h; complete = λ slot u. cc }

  -- The traffic has been moved or not, and nothing has been deleted.
  pub record IsPrepared (log : Log) : Type 0 where
    pub ordered : IsOrdered log
    pub ready : In (entry (await_ready candidate) none) log
    pub rolled : In (entry (await_rollout candidate) none) log
    pub whole : has_delete log ≡ false

  -- The traffic is at the candidate for good.
  record IsShifted (log : Log) : Type 0 where
    pub ordered : IsOrdered log
    at : traffic log ≡ some candidate
    slot : recorded log ≡ some candidate_slot
    steady : is_steady log ≡ true

  module _ (env : Surroundings) where
    pub switch-IsSafe :
        (app : String) (log : Log) (fail : Error → Log → Outcome) (next : Log → Outcome)
        → IsPrepared log
        → ((e : Error) (log' : Log) → IsPrepared log' → IsSafe (fail e log'))
        → IsSafe (next (entry (point_service app) none ∷ entry fetch_service none ∷ log))
        → IsSafe (switch_canonical_service env app log fail next)
    unfolding switch_canonical_service
    switch-IsSafe app log fail next p h k =
        attempt_keeps env IsSafe fetch_service log _ _
          (λ e. h _ _ (record {
            ordered = (tt, p.ordered);
            ready = inr p.ready;
            rolled = inr p.rolled;
            whole = p.whole;
          }))
          (attempt_keeps env IsSafe (point_service app) _ fail next
            (λ e. h _ _ (record {
              ordered = ((inr p.ready, inr p.rolled, p.whole), (tt, p.ordered));
              ready = inr (inr p.ready);
              rolled = inr (inr p.rolled);
              whole = p.whole;
            }))
            k)

    pub roll_back_traffic-IsSafe :
        (e : Error) (log : Log) → IsPrepared log → IsSafe (roll_back_traffic env active e log)
    unfolding roll_back_traffic
    roll_back_traffic-IsSafe e log p =
        switch-IsSafe active log _ _ p (λ _ log' p'. failure-IsSafe _ log' p'.ordered)
          (failure-IsSafe _ _ ((inr p.ready, inr p.rolled, p.whole), (tt, p.ordered)))

    slot-IsSafe :
        (e : Error) (log : Log) → IsOrdered log → IsSafe (roll_back_slot env active_slot e log)
    slot-IsSafe e log h =
        attempt_keeps env IsSafe (record_slot active_slot) log _ _ (λ _. failure-IsSafe _ _ (tt, h))
          (failure-IsSafe _ _ (tt, h))

    roll_back_all-IsSafe :
        (e : Error) (log : Log)
        → IsPrepared log
        → IsSafe (roll_back_all env active active_slot e log)
    unfolding roll_back_all
    roll_back_all-IsSafe e log p =
        switch-IsSafe active log _ _ p (λ _ log' p'. slot-IsSafe e log' p'.ordered)
          (slot-IsSafe e _ ((inr p.ready, inr p.rolled, p.whole), (tt, p.ordered)))

    -- A deletion that is allowed, with whatever answer, leaves the traffic where it is.
    deleted-IsShifted :
        (r : Resource) (f : Option Error) (log : Log)
        → IsShifted log
        → IsShifted (entry (delete r) f ∷ log)
    deleted-IsShifted r f log s = record {
      ordered = ((s.at, s.slot, s.steady), s.ordered);
      at = s.at;
      slot = s.slot;
      steady = s.steady;
    }

    clean_up-IsSafe :
        (service_name : String) (log : Log)
        → IsShifted log
        → IsSafe (clean_up env service_name active candidate_slot log)
    unfolding clean_up
    clean_up-IsSafe service_name log s =
        step (deployment active) log s "previous blue-green slot did not delete: " _ (λ log' s'.
          step (service active) log' s' "previous blue-green slot did not delete: " _ (λ log' s'.
            step (deployment service_name) log' s' "previous workload did not delete: " _
              (λ log' s'.
                step (autoscaler service_name) log' s' "previous workload did not delete: " _
                  (λ log' s'.
                    attempt_keeps env IsSafe (await_retired active) log' _ _
                      (λ e. failure-IsSafe e _ (tt, s'.ordered))
                      (record {
                        ordered = (tt, s'.ordered);
                        complete = λ slot u. (cc, s'.at, s'.slot, inl refl);
                      })))))
      where
        step :
            (r : Resource) (log : Log)
            → IsShifted log
            → (text : String) (next : Log → Outcome)
            → ((log' : Log) → IsShifted log' → IsSafe (next log'))
            → IsSafe (attempt env (delete r) log (stopped text) next)
        step r log s text next k =
            attempt_keeps env IsSafe (delete r) log _ _
              (λ e. failure-IsSafe _ _ (deleted-IsShifted r (some e) log s).ordered)
              (k _ (deleted-IsShifted r none log s))

    pub observe-IsSafe :
        (service_name : String) (log : Log)
        → IsPrepared log
        → traffic log ≡ some candidate
        → recorded log ≡ some candidate_slot
        → IsSafe
            (observe_candidate env service_name active candidate active_slot candidate_slot log)
    unfolding observe_candidate
    observe-IsSafe service_name log p t r =
        attempt_keeps env IsSafe (await_ready candidate) log _ _
          (λ e. roll_back_all-IsSafe _ _ (record {
            ordered = (tt, p.ordered);
            ready = inr p.ready;
            rolled = inr p.rolled;
            whole = p.whole;
          }))
          (if_keeps IsSafe (ltb_ℤ (pos 0) (at_least (pos 0) env.observation_seconds))
            (attempt_keeps env IsSafe (observe (at_least (pos 0) env.observation_seconds)) _ _ _
              (λ e. failure-IsSafe e _ (tt, (tt, p.ordered)))
              (clean_up-IsSafe service_name _
                (record { ordered = (tt, (tt, p.ordered)); at = t; slot = r; steady = refl })))
            (clean_up-IsSafe service_name _
              (record { ordered = (tt, p.ordered); at = t; slot = r; steady = refl })))
