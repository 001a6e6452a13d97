-- ===== src/Models/Runtime.antt =====
-- internal/platform/models/runtime_define_status.go: what the Kubernetes API reports.
use releasea_worker.Prelude.{ℕ, String, Bool, Option, List}
use releasea_worker.Prelude.Int.{ℤ}

pub record Condition : Type 0 where
  pub kind : String  -- `Type`
  pub status : String
  pub reason : String
  pub message : String

-- `generation` and `replicas` of the metadata and the spec; the rest is the status.
pub record DeploymentInfo : Type 0 where
  pub generation : ℤ
  pub creation_timestamp : Option ℕ  -- nanoseconds; `none` where `IsZero`
  pub revision_annotation : String  -- `Annotations["releasea.io/deploy-revision"]`
  pub spec_replicas : Option ℤ
  pub observed_generation : ℤ
  pub replicas : ℤ
  pub updated_replicas : ℤ
  pub ready_replicas : ℤ
  pub available_replicas : ℤ
  pub unavailable_replicas : ℤ
  pub conditions : List Condition

pub record Terminated : Type 0 where
  pub reason : String
  pub exit_code : ℤ

-- `waiting` is the reason of `ContainerStateWaiting`, where there is one.
pub record ContainerStatus : Type 0 where
  pub name : String
  pub ready : Bool
  pub restart_count : ℤ
  pub waiting : Option String
  pub terminated : Option Terminated
  pub last_terminated : Option Terminated

pub record PodInfo : Type 0 where
  pub name : String
  pub phase : String
  pub init_container_statuses : List ContainerStatus
  pub container_statuses : List ContainerStatus
