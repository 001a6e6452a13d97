-- ===== src/Models/Service.antt =====
-- internal/platform/models/service_define_payload.go.
use releasea_worker.Prelude.{String, Bool, Option}
use releasea_worker.Prelude.Int.{ℤ}

pub record DeploymentStrategyConfig : Type 0 where
  pub kind : String  -- `Type`
  pub canary_percent : ℤ
  pub blue_green_primary : String

pub record ServicePayload : Type 0 where
  pub id : String
  pub name : String
  pub kind : String  -- `Type`
  pub status : String
  pub source_type : String
  pub repo_url : String
  pub branch : String
  pub project_id : String
  pub scm_credential_id : String
  pub auto_deploy : Option Bool
  pub auto_deploy_environment : String
  pub pause_on_idle : Bool
  pub pause_idle_timeout_seconds : ℤ
  pub is_active : Bool
  pub replicas : ℤ
  pub min_replicas : ℤ
  pub max_replicas : ℤ
  pub cpu : ℤ
  pub port : ℤ
  pub deploy_template_id : String
  pub deployment_strategy : DeploymentStrategyConfig
