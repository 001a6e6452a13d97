-- ===== src/Maintenance/AutoDeploy/Cycle.antt =====
-- maintenance_autodeploy_control.go: one cycle of the monitor, and a sequence of them. The API's answers
-- come from a `World`, which sees the deploys requested so far.
use releasea_worker.Prelude.{
  ℕ, ◌+◌, String, Bool, true, false, not, ◌&&◌, ◌||◌, Option, none, some, List, [], ◌∷◌, ◌⧺◌, ◌==◌,
  any, is_empty, if◌then◌else◌,
}
use releasea_worker.Models.Failure.{Result, ok, err}
use releasea_worker.Models.Service.{ServicePayload}
use releasea_worker.Maintenance.AutoDeploy.State.{
  Table, update, DeploySnapshot, AutoDeployState, MonitorRuntime, normalize_commit_sha,
  normalize_worker_environment, auto_deploy_state_key, evict_expired, mark_queued,
  was_recently_queued, mark_service_cooldown, clear_service_cooldown, in_service_cooldown,
  should_auto_deploy_service, state_or_new, build_auto_deploy_states,
}

pub record QueueResponse : Type 0 where
  pub deploy_commit : String
  pub queued : Option Bool
  pub blocked_by_active_deploy : Bool

abbrev is_refused : Option Bool → Bool
is_refused none = false
is_refused (some b) = not b

-- What `queueAutoDeploy` makes of the API's answer.
unfoldable pub queue_outcome : String → QueueResponse → Bool
queue_outcome commit response =
    let requested = normalize_commit_sha commit in
    let answered = normalize_commit_sha response.deploy_commit in
    if requested == ""
    then true
    else if answered == ""
    then true
    else if not (answered == requested)
        && (response.blocked_by_active_deploy || is_refused response.queued)
    then false
    else answered == requested

pub record Request : Type 0 where
  pub service_id : String
  pub environment : String
  pub commit : String

pub record World : Type 0 where
  pub latest_commit : List Request → ServicePayload → Result String
  pub answer : List Request → Request → Result QueueResponse

-- The variables of `runAutoDeployCycle`; `accepted` holds the queue keys of the deploys that the API
-- has taken, each with the time of its cycle, the newest first.
pub record Cycle : Type 0 where
  pub runtime : MonitorRuntime
  pub states : Table AutoDeployState
  pub requests : List Request
  pub accepted : List (String × ℕ)

pub record Settings : Type 0 where
  pub environment : String
  pub error_cooldown : ℕ
  pub queue_error_cooldown : ℕ
  pub recent_queue_ttl : ℕ

abbrev pub is_blocking : Option AutoDeployState → Bool
is_blocking none = false
is_blocking (some state) = state.blocking

abbrev pub knows_commit : Option AutoDeployState → String → Bool
knows_commit none commit = false
knows_commit (some state) commit = any (λ known. known == commit) state.commits

abbrev pub is_known : Option AutoDeployState → Bool
is_known none = false
is_known (some state) = true

abbrev pub queue_key : String → String → String
queue_key state_key commit = state_key ⧺ "|" ⧺ commit

-- The API has answered the request.
unfoldable pub settle : Settings → ℕ → String → Request → Result QueueResponse → Cycle → Cycle
settle cfg now state_key req (err e) c = record c {
  runtime = mark_service_cooldown req.service_id (now + cfg.queue_error_cooldown) c.runtime;
}
settle cfg now state_key req (ok response) c =
    let key = queue_key state_key req.commit in
    let state = state_or_new (c.states state_key) in
    if not (queue_outcome req.commit response) then c else record c {
      runtime = mark_queued key (now + cfg.recent_queue_ttl) c.runtime;
      states = update c.states state_key (record state { commits = req.commit ∷ state.commits });
      accepted = (key, now) ∷ c.accepted;
    }

-- The latest commit is known.
unfoldable pub consider : World → Settings → ℕ → String → ServicePayload → String → Cycle → Cycle
consider w cfg now state_key service commit c =
    let environment = normalize_worker_environment cfg.environment in
    let req : Request = record {
      service_id = service.id;
      environment = environment;
      commit = commit;
    } in
    if commit == ""
    then c
    else if knows_commit (c.states state_key) commit
    then c
    else if was_recently_queued (queue_key state_key commit) now c.runtime
    then c
    else settle cfg now state_key req (w.answer c.requests req)
        (record c { requests = req ∷ c.requests })

abbrev pub after_lookup :
    World → Settings → ℕ → String → ServicePayload → Result String → Cycle → Cycle
after_lookup w cfg now state_key service (err e) c = record c {
  runtime = mark_service_cooldown service.id (now + cfg.error_cooldown) c.runtime;
}
after_lookup w cfg now state_key service (ok commit) c =
    consider w cfg now state_key service (normalize_commit_sha commit)
      (record c { runtime = clear_service_cooldown service.id c.runtime })

-- One round of the loop over the services.
unfoldable pub visit : World → Settings → ℕ → ServicePayload → Cycle → Cycle
visit w cfg now service c =
    let environment = normalize_worker_environment cfg.environment in
    let state_key = auto_deploy_state_key service.id environment in
    let state = c.states state_key in
    if not (should_auto_deploy_service service environment (is_known state))
    then c
    else if is_blocking state
    then c
    else if in_service_cooldown service.id now c.runtime
    then c
    else after_lookup w cfg now state_key service (w.latest_commit c.requests service) c

unfoldable pub visit_all : World → Settings → ℕ → List ServicePayload → Cycle → Cycle
visit_all w cfg now [] c = c
visit_all w cfg now (service ∷ services) c =
    visit_all w cfg now services (visit w cfg now service c)

-- What the API answers at the start of a cycle, and the time that the cycle reads.
pub record Tick : Type 0 where
  pub now : ℕ
  pub lease : Result Bool
  pub services : Result (List ServicePayload)
  pub deploys : Result (List DeploySnapshot)

-- What a monitor keeps between two cycles, with the record of what was requested and accepted.
pub record Monitor : Type 0 where
  pub runtime : MonitorRuntime
  pub requests : List Request
  pub accepted : List (String × ℕ)

abbrev pub scan :
    World → Settings → ℕ → List ServicePayload → Result (List DeploySnapshot) → Monitor → Monitor
scan w cfg now services (err e) m = m
scan w cfg now services (ok deploys) m =
    let c = visit_all w cfg now services (record {
      runtime = m.runtime;
      states = build_auto_deploy_states deploys;
      requests = m.requests;
      accepted = m.accepted;
    }) in
    record { runtime = c.runtime; requests = c.requests; accepted = c.accepted }

abbrev pub with_services :
    World
    → Settings
    → ℕ
    → Result (List ServicePayload)
    → Result (List DeploySnapshot)
    → Monitor
    → Monitor
with_services w cfg now (err e) deploys m = m
with_services w cfg now (ok services) deploys m =
    if is_empty services then m else scan w cfg now services deploys m

abbrev pub granted : Result Bool → Bool
granted (err e) = false
granted (ok b) = b

-- `runAutoDeployCycle`; its error is only logged.
unfoldable pub run_auto_deploy_cycle : World → Settings → Tick → Monitor → Monitor
run_auto_deploy_cycle w cfg t m =
    if not (granted t.lease)
    then m
    else with_services w cfg t.now t.services t.deploys
        (record m { runtime = evict_expired t.now m.runtime })

unfoldable pub run_cycles : World → Settings → List Tick → Monitor → Monitor
run_cycles w cfg [] m = m
run_cycles w cfg (t ∷ ts) m = run_cycles w cfg ts (run_auto_deploy_cycle w cfg t m)
