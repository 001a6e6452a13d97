-- ===== src/Models/Rule.antt =====
-- internal/platform/models/rule_define_payload.go.
use releasea_worker.Prelude.{String, Bool, List}
use releasea_worker.Prelude.Int.{ℤ}

pub record RuleCorsPayload : Type 0 where
  pub enabled : Bool
  pub origins : List String
  pub methods : List String
  pub headers : List String
  pub max_age_seconds : ℤ

pub record RuleRateLimitPayload : Type 0 where
  pub requests : ℤ
  pub window_seconds : ℤ

pub record RuleCircuitBreakerPayload : Type 0 where
  pub consecutive_errors : ℤ
  pub interval_seconds : ℤ
  pub base_ejection_seconds : ℤ
  pub max_ejection_percent : ℤ

pub record RulePolicyPayload : Type 0 where
  pub action : String
  pub auth_mode : String
  pub jwt_issuer : String
  pub jwks_uri : String
  pub audiences : List String
  pub required_scopes : List String
  pub api_key_header : String
  pub api_keys : List String
  pub timeout_ms : ℤ
  pub retries : ℤ
  pub ip_policy : String
  pub ip_list : List String
  pub required_headers : List String
  pub cors : RuleCorsPayload
  pub rate_limit : RuleRateLimitPayload
  pub circuit_breaker : RuleCircuitBreakerPayload
  pub max_body_bytes : ℤ
  pub security_headers : Bool
  pub lock_network : Bool

pub record RulePayload : Type 0 where
  pub id : String
  pub name : String
  pub service_id : String
  pub environment : String
  pub hosts : List String
  pub gateways : List String
  pub paths : List String
  pub methods : List String
  pub protocol : String
  pub port : ℤ
  pub status : String
  pub policy : RulePolicyPayload
