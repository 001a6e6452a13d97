-- ===== src/Models/Operation.antt =====
-- internal/platform/models: operation_define_payload.go, operation_contract.go, and the fields of
-- config/config_load.go that the modelled code reads.
use releasea_worker.Prelude.{String, Bool, Option, List, [], ◌∷◌, any, ◌==◌}
use releasea_worker.Prelude.Int.{ℤ}
use releasea_worker.Models.Payload.{Payload}

pub record OperationPayload : Type 0 where
  pub kind : String  -- `Type`
  pub id : String
  pub status : String
  pub resource : String
  pub deploy_id : String
  pub rule_deploy_id : String
  pub service_name : String
  pub payload : Payload
  pub created_at : String
  pub started_at : String
  pub updated_at : String

abbrev pub status_queued : String
status_queued = "queued"

abbrev pub status_in_progress : String
status_in_progress = "in-progress"

abbrev pub status_succeeded : String
status_succeeded = "succeeded"

abbrev pub status_failed : String
status_failed = "failed"

abbrev pub type_service_deploy : String
type_service_deploy = "service.deploy"

abbrev pub type_service_scale : String
type_service_scale = "service.scale"

abbrev pub type_service_promote_canary : String
type_service_promote_canary = "service.promote-canary"

abbrev pub type_service_switch_blue_green : String
type_service_switch_blue_green = "service.switch-blue-green"

abbrev pub type_service_delete : String
type_service_delete = "service.delete"

abbrev pub type_rule_deploy : String
type_rule_deploy = "rule.deploy"

abbrev pub type_rule_publish : String
type_rule_publish = "rule.publish"

abbrev pub type_rule_delete : String
type_rule_delete = "rule.delete"

abbrev pub type_worker_restart : String
type_worker_restart = "worker.restart"

abbrev pub operation_type_catalog_order : List String
operation_type_catalog_order =
    type_service_deploy ∷ type_service_scale ∷ type_service_promote_canary
    ∷ type_service_switch_blue_green ∷ type_service_delete ∷ type_rule_deploy ∷ type_rule_publish
    ∷ type_rule_delete ∷ type_worker_restart ∷ []

unfoldable pub is_supported_operation_type : String → Bool
is_supported_operation_type kind = any (λ supported. supported == kind) operation_type_catalog_order

-- `namespace_overrides` stands for the variable RELEASEA_NAMESPACE_MAPPING.
pub record Config : Type 0 where
  pub worker_id : String
  pub worker_name : String
  pub environment : String
  pub cluster : String
  pub tags : List String
  pub operation_claim_lease_ttl : ℤ
  pub internal_domain : String
  pub external_domain : String
  pub internal_gateway : String
  pub external_gateway : String
  pub static_nginx_service : String
  pub static_nginx_namespace : String
  pub namespace_overrides : Option (List (String × String))
