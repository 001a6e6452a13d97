-- ===== src/Maintenance/AutoDeploy/Spacing.antt =====
-- No commit is queued twice within the pending window.
use releasea_worker.Prelude.{
  ℕ, ◌+◌, ◌≤◌, ltb, String, Bool, true, false, not, none, some, List, [], ◌∷◌, ◌≡◌, refl, sym, ◌⊎◌,
  inl, inr, All, ◌==◌, eq_refl, arith, if◌then◌else◌, if_keeps, if_split, Bool-cases,
}
use mathlib.Core.Path.{subst}
use releasea_worker.Models.Failure.{Result, ok, err}
use releasea_worker.Models.Service.{ServicePayload}
use releasea_worker.Maintenance.AutoDeploy.State.{
  Table, update, DeploySnapshot, MonitorRuntime, normalize_worker_environment,
  auto_deploy_state_key, evict_expired, mark_queued, was_recently_queued, mark_service_cooldown,
  clear_service_cooldown, in_service_cooldown, should_auto_deploy_service,
}
use releasea_worker.Maintenance.AutoDeploy.Cycle.{
  QueueResponse, queue_outcome, Request, World, Cycle, Settings, queue_key, settle, consider,
  after_lookup, visit, visit_all, is_known, is_blocking, Tick, Monitor, scan, with_services,
  granted, run_auto_deploy_cycle, run_cycles,
}
use releasea_worker.Maintenance.AutoDeploy.Keys.{queue_key-not_blank}

-- Two accepted deploys with one key are at least `w` apart; the log's newest entry comes first.
abbrev pub AreSpaced : ℕ → List (String × ℕ) → Type 0
AreSpaced w [] = Unit
AreSpaced w ((k, t) ∷ log) = All (λ e. e.0 ≡ k → e.1 + w ≤ t) log × AreSpaced w log

-- An accepted deploy is out of its window, or the monitor remembers it for as long as the window lasts.
abbrev pub IsRemembered : ℕ → ℕ → Table ℕ → String × ℕ → Type 0
IsRemembered w now table e =
    (e.1 ≤ now) × ((e.1 + w ≤ now) ⊎ ((until : ℕ) × (table e.0 ≡ some until) × (e.1 + w ≤ until)))

-- The state of a monitor at time `now`.
abbrev pub IsWatched : ℕ → ℕ → Table ℕ → List (String × ℕ) → Type 0
IsWatched w now table log = AreSpaced w log × All (IsRemembered w now table) log

remembered_apart :
    (w now : ℕ) (runtime : MonitorRuntime) (k : String) (log : List (String × ℕ))
    → was_recently_queued k now runtime ≡ false
    → All (IsRemembered w now runtime.recently_queued) log
    → All (λ e. e.0 ≡ k → e.1 + w ≤ now) log
unfolding was_recently_queued
remembered_apart w now runtime k [] n h = tt
remembered_apart w now runtime k ((j, t) ∷ log) n ((le, inl out), h) =
    (λ e. out, remembered_apart w now runtime k log n h)
remembered_apart w now runtime k ((j, t) ∷ log) n ((le, inr (until, known, long)), h) =
    (λ e. ground arith, remembered_apart w now runtime k log n h)

-- Marking a key keeps what is remembered.
marked :
    (w now : ℕ) (table : Table ℕ) (k : String) (log : List (String × ℕ))
    → All (IsRemembered w now table) log
    → All (IsRemembered w now (update table k (now + w))) log
unfolding update
marked w now table k [] h = tt
marked w now table k ((j, t) ∷ log) ((le, inl out), h) = ((le, inl out), marked w now table k log h)
marked w now table k ((j, t) ∷ log) ((le, inr (until, known, long)), h) =
    elim (Bool-cases (k == j)) [
      | inl same ↦ ((le, inr (now + w, rw same refl, omega arith)), marked w now table k log h)
      | inr other ↦ ((le, inr (until, rw other known, long)), marked w now table k log h)
    ]

evicted :
    (w now : ℕ) (runtime : MonitorRuntime) (log : List (String × ℕ))
    → All (IsRemembered w now runtime.recently_queued) log
    → All (IsRemembered w now (evict_expired now runtime).recently_queued) log
unfolding evict_expired
evicted w now runtime [] h = tt
evicted w now runtime ((j, t) ∷ log) ((le, inl out), h) =
    ((le, inl out), evicted w now runtime log h)
evicted w now runtime ((j, t) ∷ log) ((le, inr (until, known, long)), h) =
    elim (Bool-cases (ltb now until)) [
      | inl later ↦ ((le, inr (until, rw (known, later) refl, long)), evicted w now runtime log h)
      | inr gone ↦ ((le, inl (ground arith)), evicted w now runtime log h)
    ]

later :
    (w now now' : ℕ) (table : Table ℕ) (log : List (String × ℕ))
    → now ≤ now'
    → All (IsRemembered w now table) log
    → All (IsRemembered w now' table) log
later w now now' table [] le h = tt
later w now now' table (e ∷ log) le ((a, inl out), h) =
    ((omega arith, inl (omega arith)), later w now now' table log le h)
later w now now' table (e ∷ log) le ((a, inr kept), h) =
    ((omega arith, inr kept), later w now now' table log le h)

module _ (w : World) (cfg : Settings) (now : ℕ) where
  record IsKept (c : Cycle) : Type 0 where
    watched : IsWatched cfg.recent_queue_ttl now c.runtime.recently_queued c.accepted

  -- The table of queued keys may be exchanged for an equal one.
  relabel :
      (log : List (String × ℕ)) {a b : Table ℕ}
      → a ≡ b
      → IsWatched cfg.recent_queue_ttl now b log
      → IsWatched cfg.recent_queue_ttl now a log
  relabel log e h = subst (λ t. IsWatched cfg.recent_queue_ttl now t log) (sym e) h

  mark_queued_lem :
      (state_key commit : String) (runtime : MonitorRuntime)
      → (mark_queued
          (queue_key state_key commit)
          (now + cfg.recent_queue_ttl)
          runtime).recently_queued
        ≡ update runtime.recently_queued (queue_key state_key commit) (now + cfg.recent_queue_ttl)
  unfolding mark_queued
  mark_queued_lem state_key commit runtime = rw (queue_key-not_blank state_key commit)

  cooldown_keeps :
      (id : String) (until : ℕ) (runtime : MonitorRuntime)
      → (mark_service_cooldown id until runtime).recently_queued ≡ runtime.recently_queued
  unfolding mark_service_cooldown
  cooldown_keeps id until runtime = ground arith

  clear_keeps :
      (id : String) (runtime : MonitorRuntime)
      → (clear_service_cooldown id runtime).recently_queued ≡ runtime.recently_queued
  unfolding clear_service_cooldown
  clear_keeps id runtime = refl

  accepted-IsWatched :
      (key : String) (runtime : MonitorRuntime) (log : List (String × ℕ))
      → was_recently_queued key now runtime ≡ false
      → IsWatched cfg.recent_queue_ttl now runtime.recently_queued log
      → IsWatched cfg.recent_queue_ttl now
          (update runtime.recently_queued key (now + cfg.recent_queue_ttl))
          ((key, now) ∷ log)
  accepted-IsWatched key runtime log n (spaced, h) = (
    (remembered_apart cfg.recent_queue_ttl now runtime key log n h, spaced),
    (
      (omega arith, inr (now + cfg.recent_queue_ttl, updated, omega arith)),
      marked cfg.recent_queue_ttl now runtime.recently_queued key log h,
    ),
  )
    where
      updated :
          update runtime.recently_queued key (now + cfg.recent_queue_ttl) key
          ≡ some (now + cfg.recent_queue_ttl)
      updated = unfold update in rw (eq_refl key) refl

  settle-IsKept :
      (state_key : String) (req : Request) (answer : Result QueueResponse) (c : Cycle)
      → was_recently_queued (queue_key state_key req.commit) now c.runtime ≡ false
      → IsKept c
      → IsKept (settle cfg now state_key req answer c)
  unfolding settle
  settle-IsKept state_key req (err e) c n h = record {
    watched =
        relabel c.accepted
          (cooldown_keeps req.service_id (now + cfg.queue_error_cooldown) c.runtime) h.watched;
  }
  settle-IsKept state_key req (ok response) c n h =
      if_keeps IsKept (not (queue_outcome req.commit response)) h (record {
        watched =
            relabel ((queue_key state_key req.commit, now) ∷ c.accepted)
              (mark_queued_lem state_key req.commit c.runtime)
              (accepted-IsWatched (queue_key state_key req.commit) c.runtime c.accepted n
                h.watched);
      })

  consider-IsKept :
      (state_key : String) (service : ServicePayload) (commit : String) (c : Cycle)
      → IsKept c
      → IsKept (consider w cfg now state_key service commit c)
  unfolding consider
  consider-IsKept state_key service commit c h = if_keeps IsKept (commit == "") h (
      if_keeps IsKept _ h (
        if_split IsKept (was_recently_queued (queue_key state_key commit) now c.runtime) (λ _. h)
          (λ n. settle-IsKept state_key _ _ _ n (record { watched = h.watched }))))

  after_lookup-IsKept :
      (state_key : String) (service : ServicePayload) (found : Result String) (c : Cycle)
      → IsKept c
      → IsKept (after_lookup w cfg now state_key service found c)
  after_lookup-IsKept state_key service (err e) c h = record {
    watched =
        relabel c.accepted (cooldown_keeps service.id (now + cfg.error_cooldown) c.runtime)
          h.watched;
  }
  after_lookup-IsKept state_key service (ok commit) c h =
      consider-IsKept state_key service _ _
        (record { watched = relabel c.accepted (clear_keeps service.id c.runtime) h.watched })

  visit-IsKept :
      (service : ServicePayload) (c : Cycle) → IsKept c → IsKept (visit w cfg now service c)
  unfolding visit
  visit-IsKept service c h =
      let environment = normalize_worker_environment cfg.environment in
      let state_key = auto_deploy_state_key service.id environment in
      let state = c.states state_key in
      if_keeps IsKept (not (should_auto_deploy_service service environment (is_known state))) h (
        if_keeps IsKept (is_blocking state) h (
          if_keeps IsKept (in_service_cooldown service.id now c.runtime) h
            (after_lookup-IsKept state_key service (w.latest_commit c.requests service) c h)))

  visit_all-IsKept :
      (services : List ServicePayload) (c : Cycle)
      → IsKept c
      → IsKept (visit_all w cfg now services c)
  unfolding visit_all
  visit_all-IsKept [] c h = h
  visit_all-IsKept (service ∷ services) c h =
      visit_all-IsKept services (visit w cfg now service c) (visit-IsKept service c h)

-- Between two cycles, at time `now`.
abbrev pub IsMonitored : Settings → ℕ → Monitor → Type 0
IsMonitored cfg now m = IsWatched cfg.recent_queue_ttl now m.runtime.recently_queued m.accepted

-- The clock does not run backwards from `now` on.
abbrev pub RunsForward : ℕ → List Tick → Type 0
RunsForward now [] = Unit
RunsForward now (t ∷ ts) = (now ≤ t.now) × RunsForward t.now ts

module _ (w : World) (cfg : Settings) where
  scan-IsMonitored :
      (now : ℕ) (services : List ServicePayload) (deploys : Result (List DeploySnapshot))
      (m : Monitor)
      → IsMonitored cfg now m
      → IsMonitored cfg now (scan w cfg now services deploys m)
  scan-IsMonitored now services (err e) m h = h
  scan-IsMonitored now services (ok deploys) m h =
      (visit_all-IsKept w cfg now services _ (record { watched = h })).watched

  with_services-IsMonitored :
      (now : ℕ) (services : Result (List ServicePayload)) (deploys : Result (List DeploySnapshot))
      (m : Monitor)
      → IsMonitored cfg now m
      → IsMonitored cfg now (with_services w cfg now services deploys m)
  with_services-IsMonitored now (err e) deploys m h = h
  with_services-IsMonitored now (ok []) deploys m h = h
  with_services-IsMonitored now (ok (s ∷ ss)) deploys m h =
      scan-IsMonitored now (s ∷ ss) deploys m h

  cycle-IsMonitored :
      (t : Tick) (m : Monitor)
      → IsMonitored cfg t.now m
      → IsMonitored cfg t.now (run_auto_deploy_cycle w cfg t m)
  unfolding run_auto_deploy_cycle
  cycle-IsMonitored t m (spaced, h) = by_lease (granted t.lease)
    where
      by_lease :
          (b : Bool)
          → IsMonitored cfg t.now (
              if not b
              then m
              else with_services w cfg t.now t.services t.deploys
                  (record m { runtime = evict_expired t.now m.runtime }))
      by_lease false = (spaced, h)
      by_lease true =
          with_services-IsMonitored t.now t.services t.deploys _
            (spaced, evicted cfg.recent_queue_ttl t.now m.runtime m.accepted h)

  run_cycles-AreSpaced :
      (now : ℕ) (ts : List Tick) (m : Monitor)
      → RunsForward now ts
      → IsMonitored cfg now m
      → AreSpaced cfg.recent_queue_ttl (run_cycles w cfg ts m).accepted
  unfolding run_cycles
  run_cycles-AreSpaced now [] m f h = h.0
  run_cycles-AreSpaced now (t ∷ ts) m (le, f) (spaced, h) =
      run_cycles-AreSpaced t.now ts (run_auto_deploy_cycle w cfg t m) f (
        cycle-IsMonitored t m
          (spaced, later cfg.recent_queue_ttl now t.now m.runtime.recently_queued m.accepted le h))

-- A monitor that has just started.
abbrev pub new_monitor : Monitor
new_monitor = record {
  runtime = record { recently_queued = λ k. none; service_cooldown_by_id = λ k. none };
  requests = [];
  accepted = [];
}

-- Over any number of cycles, whatever the API answers, as long as the clock does not run backwards: two
-- deploys of one commit of one service in one environment, both accepted by the API, are at least the
-- pending window apart.
pub run_cycles_spaced :
    (w : World) (cfg : Settings) (ts : List Tick)
    → RunsForward 0 ts
    → AreSpaced cfg.recent_queue_ttl (run_cycles w cfg ts new_monitor).accepted
run_cycles_spaced w cfg ts f = run_cycles-AreSpaced w cfg 0 ts new_monitor f (tt, tt)
