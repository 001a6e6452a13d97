-- ===== src/Maintenance/AutoDeploy/State.antt =====
-- maintenance_autodeploy_control.go: what the monitor remembers and how it reads the deploy history.
-- Times are nanoseconds; a Go map is a function from its keys.
use releasea_worker.Prelude.{
  ℕ, ◌*◌, ltb, String, Bool, true, false, not, ◌||◌, Option, none, some, List, [], ◌∷◌, ◌⧺◌, ◌==◌,
  if◌then◌else◌, trim_space, to_lower, equal_fold,
}
use releasea_worker.Prelude.Int.{ℤ, pos, pos_part, at_least, at_most}
use releasea_worker.Models.Service.{ServicePayload}
use releasea_worker.Shared.Strategy.{normalize_source_type}

abbrev pub Table : Type 0 → Type 0
Table V = String → Option V

unfoldable pub update : {V : Type 0} → Table V → String → V → Table V
update m k v j = if k == j then some v else m j

unfoldable pub remove : {V : Type 0} → Table V → String → Table V
remove m k j = if k == j then none else m j

pub record DeploySnapshot : Type 0 where
  pub service_id : String
  pub environment : String
  pub commit : String
  pub status : String

pub record AutoDeployState : Type 0 where
  pub blocking : Bool
  pub commits : List String

pub record MonitorRuntime : Type 0 where
  pub recently_queued : Table ℕ
  pub service_cooldown_by_id : Table ℕ

unfoldable pub normalize_commit_sha : String → String
normalize_commit_sha value = to_lower (trim_space value)

unfoldable pub normalize_deploy_status : String → String
normalize_deploy_status status =
    let value = to_lower (trim_space status) in
    if value == "queued"
    then "scheduled"
    else if value == "in-progress"
    then "deploying"
    else if value == "success"
    then "completed"
    else value

unfoldable pub is_auto_deploy_blocking_status : String → Bool
is_auto_deploy_blocking_status status =
    status == "requested"
    || status == "scheduled"
    || status == "preparing"
    || status == "deploying"
    || status == "retrying"

unfoldable pub normalize_worker_environment : String → String
normalize_worker_environment raw =
    let value = to_lower (trim_space raw) in
    if value == "" || value == "prod" || value == "production" || value == "live"
    then "prod"
    else if value == "staging"
        || value == "stage"
        || value == "pre-prod"
        || value == "preprod"
        || value == "uat"
    then "staging"
    else if value == "dev"
        || value == "development"
        || value == "qa"
        || value == "sandbox"
        || value == "test"
        || value == "testing"
        || value == "preview"
        || value == "local"
    then "dev"
    else value

unfoldable pub auto_deploy_state_key : String → String → String
auto_deploy_state_key service_id environment =
    trim_space service_id ⧺ "|" ⧺ normalize_worker_environment environment

-- `evictExpired`, on one of the two maps.
abbrev unless_expired : ℕ → Option ℕ → Option ℕ
unless_expired now none = none
unless_expired now (some expires_at) = if not (ltb now expires_at) then none else some expires_at

unfoldable pub evict_expired : ℕ → MonitorRuntime → MonitorRuntime
evict_expired now runtime = record {
  recently_queued = λ k. unless_expired now (runtime.recently_queued k);
  service_cooldown_by_id = λ k. unless_expired now (runtime.service_cooldown_by_id k);
}

unfoldable pub mark_queued : String → ℕ → MonitorRuntime → MonitorRuntime
mark_queued key until runtime =
    if trim_space key == ""
    then runtime
    else record runtime { recently_queued = update runtime.recently_queued key until }

abbrev is_after : Option ℕ → ℕ → Bool
is_after none now = false
is_after (some expires_at) now = ltb now expires_at

unfoldable pub was_recently_queued : String → ℕ → MonitorRuntime → Bool
was_recently_queued key now runtime = is_after (runtime.recently_queued key) now

unfoldable pub mark_service_cooldown : String → ℕ → MonitorRuntime → MonitorRuntime
mark_service_cooldown service_id until runtime =
    let trimmed = trim_space service_id in
    if trimmed == "" then runtime else record runtime {
      service_cooldown_by_id = update runtime.service_cooldown_by_id trimmed until;
    }

unfoldable pub clear_service_cooldown : String → MonitorRuntime → MonitorRuntime
clear_service_cooldown service_id runtime = record runtime {
  service_cooldown_by_id = remove runtime.service_cooldown_by_id (trim_space service_id);
}

unfoldable pub in_service_cooldown : String → ℕ → MonitorRuntime → Bool
in_service_cooldown service_id now runtime =
    is_after (runtime.service_cooldown_by_id (trim_space service_id)) now

-- The configured intervals, in seconds, from the value of the environment variable.
unfoldable pub resolve_lease_ttl : ℤ → ℤ
resolve_lease_ttl v = at_most (pos 600) (at_least (pos 30) v)

unfoldable pub resolve_error_cooldown : ℤ → ℤ
resolve_error_cooldown v = at_most (pos 900) (at_least (pos 20) v)

unfoldable pub resolve_queue_error_cooldown : ℤ → ℤ
resolve_queue_error_cooldown v = at_most (pos 300) (at_least (pos 10) v)

unfoldable pub resolve_recent_queue_ttl : ℤ → ℤ
resolve_recent_queue_ttl v = at_most (pos 900) (at_least (pos 30) v)

abbrev pub seconds : ℤ → ℕ
seconds v = pos_part v * 1000000000

unfoldable pub auto_deploy_enabled : Option Bool → Bool
auto_deploy_enabled none = true
auto_deploy_enabled (some b) = b

unfoldable pub should_auto_deploy_service : ServicePayload → String → Bool → Bool
should_auto_deploy_service service worker_environment has_known_state =
    let target = trim_space service.auto_deploy_environment in
    if not (auto_deploy_enabled service.auto_deploy)
    then false
    else if equal_fold service.deploy_template_id "tpl-cronjob"
    then false
    else if to_lower (trim_space service.status) == "deleting"
    then false
    else if trim_space service.repo_url == ""
    then false
    else if normalize_source_type service.source_type == "registry"
    then false
    else if not (target == "")
    then normalize_worker_environment target == normalize_worker_environment worker_environment
    else has_known_state

abbrev no_state : AutoDeployState
no_state = record { blocking = false; commits = [] }

abbrev pub state_or_new : Option AutoDeployState → AutoDeployState
state_or_new none = no_state
state_or_new (some state) = state

-- One round of the loop of `buildAutoDeployStates`.
unfoldable pub note_deploy : Table AutoDeployState → DeploySnapshot → Table AutoDeployState
note_deploy states deploy =
    let service_id = trim_space deploy.service_id in
    let key = auto_deploy_state_key service_id (normalize_worker_environment deploy.environment) in
    let state = state_or_new (states key) in
    let blocks = is_auto_deploy_blocking_status (normalize_deploy_status deploy.status) in
    let commit = normalize_commit_sha deploy.commit in
    if service_id == ""
    then states
    else update states key (record {
      blocking = if blocks then true else state.blocking;
      commits = if not (commit == "") then commit ∷ state.commits else state.commits;
    })

unfoldable pub note_deploys : Table AutoDeployState → List DeploySnapshot → Table AutoDeployState
note_deploys states [] = states
note_deploys states (deploy ∷ deploys) = note_deploys (note_deploy states deploy) deploys

unfoldable pub build_auto_deploy_states : List DeploySnapshot → Table AutoDeployState
build_auto_deploy_states deploys = note_deploys (λ k. none) deploys
