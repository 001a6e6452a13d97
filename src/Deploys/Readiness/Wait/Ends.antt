-- ===== src/Deploys/Readiness/Wait/Ends.antt =====
-- Each polling loop ends, and what its success says.
use releasea_worker.Prelude.{
  ℕ, zero, suc, ◌+◌, ◌*◌, ◌≤◌, ◌<◌, ltb, String, false, Option, none, some, List, [], ◌∷◌, ◌≡◌,
  refl, ◌⊎◌, inl, inr, All, arith, ap, ◌∙◌, if_split, Bool-cases,
}
use releasea_worker.Prelude.Int.{ℤ, at_least}
use releasea_worker.Models.Failure.{Error, Result, ok, err}
use releasea_worker.Deploys.Readiness.{Look, collect_pending_workload_readiness}
use releasea_worker.Deploys.Readiness.Looks.{IsReady, collect_pending_workload_readiness_iff}
use releasea_worker.Deploys.Readiness.Wait.{
  resolve_readiness_polling_config, Round, after_timer, after_check, after_start, wait_for,
  deadline_of, wait_for_service_deploy_readiness,
}

-- A wait of `poll` seconds takes no less than that.
abbrev pub IsTimed : ℕ → (ℕ → Round) → Type 0
IsTimed poll rounds = (i : ℕ) → (rounds i).now + poll * 1000000000 ≤ (rounds (suc i)).now

-- The loop has returned something.
record Returned (r : Option (Option Error)) : Type 0 where
  result : Option Error
  same : r ≡ some result

module _ (check : Look → Result (List String)) (text : String) (deadline : ℕ)
    (rounds : ℕ → Round) where
  start-Returned :
      (cancelled : Option Error) (rest : Option (Option Error))
      → (cancelled ≡ none → Returned rest)
      → Returned (after_start cancelled rest)
  start-Returned (some e) rest h = record { result = some e; same = refl }
  start-Returned none rest h = h refl

  timer-Returned :
      (interrupted : Option Error) (rest : Option (Option Error))
      → Returned rest
      → Returned (after_timer interrupted rest)
  timer-Returned (some e) rest h = record { result = some e; same = refl }
  timer-Returned none rest h = h

  check-Returned :
      (round : Round) (found : Result (List String)) (again : Option (Option Error))
      → (ltb deadline round.now ≡ false → Returned again)
      → Returned (after_check text deadline round found again)
  check-Returned round (err e) again h = record { result = some e; same = refl }
  check-Returned round (ok []) again h = record { result = none; same = refl }
  check-Returned round (ok (line ∷ lines)) again h =
      if_split Returned (ltb deadline round.now) (λ past. record { result = some _; same = refl })
        (λ early. timer-Returned round.interrupted again (h early))

  -- Rounds that are a second apart reach the deadline.
  wait_for-Returned :
      (n i : ℕ)
      → ((j : ℕ) → (rounds j).now + 1000000000 ≤ (rounds (suc j)).now)
      → deadline < (rounds i).now + n * 1000000000
      → Returned (wait_for check text deadline rounds (suc n) i)
  unfolding wait_for
  wait_for-Returned zero i timed far =
      start-Returned (rounds i).cancelled _
        (λ c. check-Returned (rounds i) (check (rounds i).look) _ (λ early. absurd (ground arith)))
  wait_for-Returned (suc n) i timed far = start-Returned (rounds i).cancelled _ (λ c.
      check-Returned (rounds i) (check (rounds i).look) _
        (λ early. wait_for-Returned n (suc i) timed (omega (arith, timed i))))

  -- A look found nothing pending.
  record IsClear : Type 0 where
    found_at : ℕ
    clear : check (rounds found_at).look ≡ ok []

  timer-IsClear :
      (interrupted : Option Error) (again : Option (Option Error))
      → (again ≡ some none → IsClear)
      → after_timer interrupted again ≡ some none
      → IsClear
  timer-IsClear (some e) again h same = cc
  timer-IsClear none again h same = h same

  check-IsClear :
      (i : ℕ) (found : Result (List String)) (again : Option (Option Error))
      → (again ≡ some none → IsClear)
      → check (rounds i).look ≡ found
      → after_check text deadline (rounds i) found again ≡ some none
      → IsClear
  check-IsClear i (err e) again h look same = cc
  check-IsClear i (ok []) again h look same = record { found_at = i; clear = look }
  check-IsClear i (ok (line ∷ lines)) again h look same =
      elim (Bool-cases (ltb deadline (rounds i).now)) [
        | inl past ↦ absurd (ground (arith, past, same))
        | inr early ↦ timer-IsClear (rounds i).interrupted again h (ground (arith, early, same))
      ]

  start-IsClear :
      (cancelled : Option Error) (rest : Option (Option Error))
      → (rest ≡ some none → IsClear)
      → after_start cancelled rest ≡ some none
      → IsClear
  start-IsClear (some e) rest h same = cc
  start-IsClear none rest h same = h same

  -- A loop that succeeds has had a look that found nothing pending.
  wait_for-IsClear : (n i : ℕ) → wait_for check text deadline rounds n i ≡ some none → IsClear
  unfolding wait_for
  wait_for-IsClear zero i h = cc
  wait_for-IsClear (suc n) i h =
      start-IsClear (rounds i).cancelled _
        (check-IsClear i (check (rounds i).look) (wait_for check text deadline rounds n (suc i))
          (wait_for-IsClear n (suc i)) refl)
        h

-- The fuel that a loop of `timeout` seconds needs: its polls are at least a second apart.
abbrev pub enough : ℕ → ℕ
enough timeout = suc (suc timeout)

module _ (start timeout : ℕ) (rounds : ℕ → Round) (begun : start ≤ (rounds 0).now)
    (timed : (j : ℕ) → (rounds j).now + 1000000000 ≤ (rounds (suc j)).now) where
  loop-Returned :
      (check : Look → Result (List String)) (text : String)
      → Returned (wait_for check text (deadline_of start timeout) rounds (enough timeout) 0)
  loop-Returned check text =
      wait_for-Returned check text (deadline_of start timeout) rounds (suc timeout) 0 timed
        (omega (arith, begun))

polls_apart :
    (timeout poll : ℤ) (rounds : ℕ → Round)
    → IsTimed (resolve_readiness_polling_config timeout poll).1 rounds
    → (j : ℕ) → (rounds j).now + 1000000000 ≤ (rounds (suc j)).now
unfolding resolve_readiness_polling_config at_least
polls_apart timeout poll rounds h j = ground (arith, h j)

-- Any of the loops ends, and succeeds only after a look that found nothing pending.
pub wait_for_lem :
    (check : Look → Result (List String)) (text : String) (start : ℕ) (timeout poll : ℤ)
    (rounds : ℕ → Round)
    → start ≤ (rounds 0).now
    → IsTimed (resolve_readiness_polling_config timeout poll).1 rounds
    → let seconds = (resolve_readiness_polling_config timeout poll).0 in
      (result : Option Error) × (wait_for check text
          (deadline_of start seconds)
          rounds
          (enough seconds)
          0
        ≡ some result)
      × (result ≡ none → (i : ℕ) × (check (rounds i).look ≡ ok []))
wait_for_lem check text start timeout poll rounds begun timed =
    let seconds = (resolve_readiness_polling_config timeout poll).0 in
    let done =
      loop-Returned start seconds rounds begun (polls_apart timeout poll rounds timed) check text in
    (
      done.result,
      done.same,
      λ e.
          let found =
            wait_for-IsClear check text (deadline_of start seconds) rounds (enough seconds) 0
              (done.same ∙ ap some e) in
          (found.found_at, found.clear),
    )

-- Where the clock does not stand still while the loop waits, waiting for the workloads of a deploy ends
-- within as many polls as the timeout has seconds, and two more. If it succeeds, either there was
-- nothing to wait for, or one look at the cluster found every workload ready at once.
pub wait_for_service_deploy_readiness_ends :
    (start : ℕ) (timeout poll : ℤ) (targets : List String) (rounds : ℕ → Round)
    → start ≤ (rounds 0).now
    → IsTimed (resolve_readiness_polling_config timeout poll).1 rounds
    → let seconds = (resolve_readiness_polling_config timeout poll).0 in
      (result : Option Error) × (wait_for_service_deploy_readiness start seconds targets rounds
          (enough seconds)
        ≡ some result)
      × (result ≡ none → (targets ≡ []) ⊎ ((i : ℕ) × All (IsReady (rounds i).look) targets))
unfolding wait_for_service_deploy_readiness
wait_for_service_deploy_readiness_ends start timeout poll [] rounds begun timed =
    (none, refl, λ e. inl refl)
wait_for_service_deploy_readiness_ends start timeout poll (t ∷ ts) rounds begun timed =
    let (result, same, found) =
      wait_for_lem (λ look. collect_pending_workload_readiness look (t ∷ ts))
        "timeout waiting for workload readiness: " start timeout poll rounds begun timed in
    (
      result,
      same,
      λ e.
          let (i, clear) = found e in
          inr (i, (collect_pending_workload_readiness_iff (rounds i).look (t ∷ ts)).0 clear),
    )
