-- ===== src/Rules/Handle/Led.antt =====
-- Where the routes lead that a deploy of a rule applies.
use releasea_worker.Prelude.{Bool, false, String, none, ◌≡◌, All, lookup, equal_fold, refl, arith}
use releasea_worker.Prelude.Int.{ℤ}
use releasea_worker.Models.Payload.{Payload}
use releasea_worker.Models.Failure.{ok}
use releasea_worker.Models.Service.{ServicePayload}
use releasea_worker.Rules.Policy.{has_key}
use releasea_worker.Rules.Routes.{build_strategy_destinations}
use releasea_worker.Rules.Cluster.{Log, Surroundings, resource_id}
use releasea_worker.Rules.Guard.{workload_target_ready, normalize_for_availability}
use releasea_worker.Rules.Guard.Ready.{IsLed, NothingLeft, normalize_for_availability-AllLed}
use releasea_worker.Rules.Handle.{apply_rule_deploy_strategy_override}

-- An operation that gives no share leaves the service as it is.
no_override :
    (service : ServicePayload) (payload : Payload)
    → lookup "canaryPercentOverride" payload ≡ none
    → apply_rule_deploy_strategy_override service payload ≡ service
unfolding apply_rule_deploy_strategy_override
no_override service payload absent =
    let given : has_key "canaryPercentOverride" payload ≡ false = rw (absent, has_key) refl in
    ground (arith, given)

-- Where every look at the cluster succeeds and the operation does not override the canary's share, each
-- destination that the strategy gives the routes, after the guard and the override, is the service's own
-- workload or one that was seen ready; the only exception is a blue-green service of which neither slot
-- is ready and which has no service of its own name. The service is not of the cron job's template.
pub apply_rule_deploy_strategy_override-AllLed :
    (env : Surroundings) (log : Log) (namespace service_name : String) (port : ℤ)
    (service : ServicePayload) (payload : Payload)
    → ((name : String) → (b : Bool) × (workload_target_ready env log namespace name ≡ ok b))
    → (there : Bool) × (env.exists log (resource_id "Service" namespace service_name) ≡ ok there)
    → equal_fold service.deploy_template_id "tpl-cronjob" ≡ false
    → lookup "canaryPercentOverride" payload ≡ none
    → All
        (IsLed env log namespace service_name port
          (NothingLeft env log namespace service_name port service))
        (build_strategy_destinations
          (apply_rule_deploy_strategy_override
            (normalize_for_availability env log namespace service_name service)
            payload)
          service_name
          namespace
          port)
apply_rule_deploy_strategy_override-AllLed env log namespace service_name port service payload seen
      canonical template absent =
    rw
      (no_override (normalize_for_availability env log namespace service_name service) payload
        absent)
      (normalize_for_availability-AllLed env log namespace service_name port service seen canonical
        template)
