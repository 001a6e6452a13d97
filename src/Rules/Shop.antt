-- ===== src/Rules/Shop.antt =====
-- A rule for a shop, a cluster and a configuration, as test data.
use releasea_worker.Prelude.{String, true, false, Option, none, some, List, [], ◌∷◌}
use releasea_worker.Prelude.Int.{pos}
use releasea_worker.Models.Payload.{str, Payload, object}
use releasea_worker.Models.Failure.{ok}
use releasea_worker.Models.Operation.{Config, OperationPayload}
use releasea_worker.Models.Runtime.{DeploymentInfo}
use releasea_worker.Models.Service.{ServicePayload}
use releasea_worker.Models.Rule.{RulePayload, RulePolicyPayload}
use releasea_worker.Rules.Cluster.{ResourceId, Log, Surroundings, resource_id}
use releasea_worker.Rules.Cluster.State.{State}

abbrev pub policy : RulePolicyPayload
policy = record {
  action = "";
  auth_mode = " APIKey";
  jwt_issuer = "";
  jwks_uri = "";
  audiences = [];
  required_scopes = [];
  api_key_header = "";
  api_keys = "k1" ∷ " k1" ∷ "k2" ∷ [];
  timeout_ms = pos 500;
  retries = pos 2;
  ip_policy = "";
  ip_list = [];
  required_headers = [];
  cors = record {
    enabled = false;
    origins = [];
    methods = [];
    headers = [];
    max_age_seconds = pos 0;
  };
  rate_limit = record { requests = pos 0; window_seconds = pos 0 };
  circuit_breaker = record {
    consecutive_errors = pos 0;
    interval_seconds = pos 0;
    base_ejection_seconds = pos 0;
    max_ejection_percent = pos 0;
  };
  max_body_bytes = pos 0;
  security_headers = false;
  lock_network = true;
}

abbrev pub rule : RulePayload
rule = record {
  id = "rule-1";
  name = "Shop";
  service_id = "service-1";
  environment = "prod";
  hosts = "shop.example.com" ∷ [];
  gateways = "istio-system/external" ∷ [];
  paths = "/api" ∷ [];
  methods = [];
  protocol = "http";
  port = pos 0;
  status = "published";
  policy = policy;
}

abbrev pub service : ServicePayload
service = record {
  id = "service-1";
  name = "Shop";
  kind = "microservice";
  status = "running";
  source_type = "git";
  repo_url = "";
  branch = "main";
  project_id = "project-1";
  scm_credential_id = "";
  auto_deploy = none;
  auto_deploy_environment = "prod";
  pause_on_idle = false;
  pause_idle_timeout_seconds = pos 0;
  is_active = true;
  replicas = pos 1;
  min_replicas = pos 1;
  max_replicas = pos 2;
  cpu = pos 100;
  port = pos 8080;
  deploy_template_id = "";
  deployment_strategy = record {
    kind = "canary";
    canary_percent = pos 80;
    blue_green_primary = "";
  };
}

-- A cluster that does all that it is asked to, with two available replicas of every workload.
abbrev pub deployed : DeploymentInfo
deployed = record {
  generation = pos 1;
  creation_timestamp = none;
  revision_annotation = "";
  spec_replicas = some (pos 2);
  observed_generation = pos 1;
  replicas = pos 2;
  updated_replicas = pos 2;
  ready_replicas = pos 2;
  available_replicas = pos 2;
  unavailable_replicas = pos 0;
  conditions = [];
}

-- A virtual service that leads to the blue slot.
abbrev pub blue_service : Payload
blue_service = ("spec", object (("Host", str "Shop-Blue.releasea-apps-production") ∷ [])) ∷ []

abbrev pub willing : Surroundings
willing = record {
  client = none;
  reply = λ log call. none;
  exists = λ log id. ok true;
  deployment = λ log namespace name. ok deployed;
  resource = λ log id. ok [];
  virtual_services = λ log namespace. ok (blue_service ∷ []);
  rule = λ log id. ok rule;
  service = λ log id. ok service;
}

abbrev pub cfg : Config
cfg = record {
  worker_id = "w-1";
  worker_name = "worker";
  environment = "prod";
  cluster = "";
  tags = [];
  operation_claim_lease_ttl = pos 60;
  internal_domain = "";
  external_domain = "example.com";
  internal_gateway = "";
  external_gateway = "istio-system/external";
  static_nginx_service = "";
  static_nginx_namespace = "";
  namespace_overrides = none;
}

abbrev pub empty_cluster : State
empty_cluster id = none

abbrev pub torn : Log → Option Payload
torn log = none

abbrev pub gateways : List String
gateways = "istio-system/external" ∷ []

abbrev pub elsewhere : ResourceId
elsewhere = resource_id "ConfigMap" "releasea-apps-production" "settings"

abbrev pub rule_delete : OperationPayload
rule_delete = record {
  kind = "rule.delete";
  id = "op-1";
  status = "in-progress";
  resource = "rule-1";
  deploy_id = "";
  rule_deploy_id = "";
  service_name = "Shop";
  payload = ("ruleName", str "Shop ") ∷ ("action", str "allow") ∷ [];
  created_at = "";
  started_at = "";
  updated_at = "";
}
