-- ===== src/Maintenance/Runtime.antt =====
-- maintenance_runtime_status_monitor.go: the runtime status of a service, from what the Kubernetes API
-- says of its deployments and pods.
pub mod Combine
use releasea_worker.Prelude.{
  ℕ, ltb, leb, String, Bool, true, false, not, ◌&&◌, ◌||◌, Option, none, some, List, [], ◌∷◌, ◌++◌,
  ◌⧺◌, ◌==◌, ◌=ℕ◌, if◌then◌else◌, trim_space, to_lower, equal_fold, has_suffix,
}
use releasea_worker.Prelude.Int.{ℤ, pos, ltb_ℤ, leb_ℤ, itoa}
use releasea_worker.Models.Failure.{Error, Result, ok, err}
use releasea_worker.Models.Runtime.{DeploymentInfo, Terminated, ContainerStatus, PodInfo}

pub record RuntimeIssue : Type 0 where
  pub status : String
  pub reason : String
  pub severity : ℕ

abbrev pub no_issue : RuntimeIssue
no_issue = record { status = ""; reason = ""; severity = 0 }

abbrev pub issue : String → String → ℕ → RuntimeIssue
issue status reason severity = record { status = status; reason = reason; severity = severity }

unfoldable pub max_issue : RuntimeIssue → RuntimeIssue → RuntimeIssue
max_issue current candidate = if ltb current.severity candidate.severity then candidate else current

unfoldable pub status_severity : String → ℕ
status_severity status =
    if status == "healthy"
    then 0
    else if status == "pending"
    then 1
    else if status == "degraded" || status == "unknown"
    then 2
    else if status == "error"
    then 3
    else if status == "crashloop"
    then 4
    else 1

-- The `switch` on the reason that a container waits for; `none` goes on to the next test.
unfoldable pub waiting_issue : String → Option RuntimeIssue
waiting_issue raw =
    let reason = trim_space raw in
    if reason == "CrashLoopBackOff"
    then some (issue "crashloop" reason 4)
    else if reason == "ImagePullBackOff"
        || reason == "ErrImagePull"
        || reason == "InvalidImageName"
        || reason == "RegistryUnavailable"
    then some (issue "error" reason 3)
    else if reason == "CreateContainerConfigError"
        || reason == "CreateContainerError"
        || reason == "RunContainerError"
    then some (issue "error" reason 3)
    else if reason == "ContainerCreating" || reason == "PodInitializing"
    then some (issue "pending" reason 1)
    else if not (reason == "")
    then some (issue "degraded" reason 2)
    else none

abbrev is_zero : ℤ → Bool
is_zero n = leb_ℤ n (pos 0) && leb_ℤ (pos 0) n

-- The reason of a container that ended, and its exit code where it gives none.
unfoldable pub exit_reason : Terminated → String
exit_reason term =
    let reason = trim_space term.reason in
    if reason == "" then "exit code " ⧺ itoa term.exit_code else reason

unfoldable pub terminated_issue : Terminated → Option RuntimeIssue
unfolding exit_reason
terminated_issue term =
    if is_zero term.exit_code then none else some (issue "crashloop" (exit_reason term) 4)

-- The last test of the loop over the containers.
unfoldable pub unready_issue : ContainerStatus → Option RuntimeIssue
unready_issue c =
    if not c.ready && not (equal_fold c.name "istio-proxy")
    then (if ltb_ℤ (pos 0) c.restart_count
        then some (issue "degraded" "container restarting" 2)
        else some (issue "pending" "container starting" 1))
    else none

abbrev and_then {ℓ κ} : {A : Type ℓ} {B : Type κ} → Option A → (A → Option B) → Option B
and_then none f = none
and_then (some a) f = f a

-- The first of the tests that finds an issue.
abbrev or_else {ℓ} : {A : Type ℓ} → Option A → Option A → Option A
or_else none next = next
or_else (some i) next = some i

unfoldable pub container_issue : ContainerStatus → Option RuntimeIssue
container_issue c = or_else (and_then c.waiting waiting_issue) (
    or_else (and_then c.terminated terminated_issue) (
      or_else
        (if ltb_ℤ (pos 0) c.restart_count
          then and_then c.last_terminated terminated_issue
          else none)
        (unready_issue c)))

unfoldable pub first_issue : List ContainerStatus → RuntimeIssue
first_issue [] = no_issue
first_issue (c ∷ cs) =
    let rest = first_issue cs in elim (container_issue c) [ none ↦ rest | some i ↦ i ]

unfoldable pub inspect_pod_runtime : PodInfo → RuntimeIssue
inspect_pod_runtime pod =
    if equal_fold pod.phase "Pending"
    then issue "pending" "pod pending" 1
    else first_issue (pod.init_container_statuses ++ pod.container_statuses)

unfoldable pub worst_issue : RuntimeIssue → List PodInfo → RuntimeIssue
worst_issue current [] = current
worst_issue current (pod ∷ pods) = worst_issue (max_issue current (inspect_pod_runtime pod)) pods

unfoldable pub detect_runtime_issue : List PodInfo → RuntimeIssue
detect_runtime_issue pods = worst_issue no_issue pods

-- What `assessRuntime` makes of the deployment and its pods.
unfoldable pub assess_workload : DeploymentInfo → List PodInfo → String × String
assess_workload deploy pods =
    let found = detect_runtime_issue pods in
    if ltb_ℤ (pos 0) deploy.available_replicas
    then (if found.severity =ℕ 0 then ("healthy", "") else ("degraded", found.reason))
    else (if ltb 0 found.severity
        then (found.status, found.reason)
        else ("pending", "waiting for pods"))

-- The two results are those of `fetchDeployment` and of `fetchPodsByLabel`.
unfoldable pub assess_runtime : Result DeploymentInfo → Result (List PodInfo) → String × String
assess_runtime (err e) pods =
    if e.deployment_not_found
    then ("pending", "deployment not found")
    else ("unknown", "deployment check failed")
assess_runtime (ok deploy) (err e) = ("unknown", "pod check failed")
assess_runtime (ok deploy) (ok pods) = assess_workload deploy pods

pub record RuntimeAssessment : Type 0 where
  pub target : String
  pub status : String
  pub reason : String

unfoldable pub is_removed_shadow_target : RuntimeAssessment → Bool
is_removed_shadow_target r =
    let name = to_lower (trim_space r.target) in
    if not (r.status == "pending") || not (trim_space r.reason == "deployment not found")
    then false
    else has_suffix name "-canary" || has_suffix name "-blue" || has_suffix name "-green"

-- The variables of the loop of `combineRuntimeAssessments`.
pub record Tally : Type 0 where
  pub worst : RuntimeIssue
  pub any_healthy : Bool
  pub saw_target : Bool

unfoldable pub tally_one : Tally → RuntimeAssessment → Tally
tally_one t r =
    if r.status == ""
    then t
    else if is_removed_shadow_target r
    then record t { saw_target = true }
    else if r.status == "healthy"
    then record t { any_healthy = true; saw_target = true }
    else record t {
      worst =
          max_issue t.worst
            (issue r.status (r.target ⧺ ": " ⧺ r.reason) (status_severity r.status));
      saw_target = true;
    }

unfoldable pub tally : Tally → List RuntimeAssessment → Tally
tally t [] = t
tally t (r ∷ rs) = tally (tally_one t r) rs

unfoldable pub conclude : Tally → String × String
conclude t =
    if not t.saw_target
    then ("", "")
    else if t.worst.severity =ℕ 0
    then (if t.any_healthy then ("healthy", "") else ("pending", "deployment not found"))
    else if t.any_healthy && leb t.worst.severity (status_severity "pending")
    then ("degraded", t.worst.reason)
    else (t.worst.status, t.worst.reason)

unfoldable pub combine_runtime_assessments : List RuntimeAssessment → String × String
combine_runtime_assessments results =
    conclude (tally (record { worst = no_issue; any_healthy = false; saw_target = false }) results)
