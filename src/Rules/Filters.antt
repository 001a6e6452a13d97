-- ===== src/Rules/Filters.antt =====
-- rules_edge_manifest.go: the Envoy filters, which limit the rate of requests and the size of a body.
use releasea_worker.Prelude.{
  String, ◌&&◌, ◌||◌, ◌⧺◌, Option, none, some, [], ◌∷◌, ◌++◌, if◌then◌else◌, map_text,
}
use releasea_worker.Prelude.Int.{ℤ, pos, ltb_ℤ, leb_ℤ, itoa}
use Prim.Native.Char.{Char}
use releasea_worker.Models.Payload.{Value, num, str, Payload, object}
use releasea_worker.Models.Service.{ServicePayload}
use releasea_worker.Models.Rule.{RulePayload}
use releasea_worker.Shared.KubeName.{is_dash, to_kube_name}
use releasea_worker.Rules.Names.{denies, edge_route_name, edge_rate_limit_name}
use releasea_worker.Rules.Policy.{objects, or_positive}
use releasea_worker.Rules.Routes.{manifest}
use releasea_worker.Rules.Edge.{edge_metadata}

unfoldable pub edge_percent : ℤ → Payload
edge_percent numerator =
    ("default_value", object (("numerator", num numerator) ∷ ("denominator", str "HUNDRED") ∷ []))
    ∷ []

unfoldable pub edge_http_filter_patch : String → Payload → Payload
edge_http_filter_patch name typed =
    ("applyTo", str "HTTP_FILTER")
    ∷ (
      "match",
      object (
          ("context", str "GATEWAY")
          ∷ (
            "listener",
            object (
                (
                  "filterChain",
                  object (
                      (
                        "filter",
                        object (
                            ("name", str "envoy.filters.network.http_connection_manager")
                            ∷ ("subFilter", object (("name", str "envoy.filters.http.router") ∷ []))
                            ∷ []),
                      )
                      ∷ []),
                )
                ∷ []),
          )
          ∷ []),
    )
    ∷ (
      "patch",
      object (
          ("operation", str "INSERT_BEFORE")
          ∷ ("value", object (("name", str name) ∷ ("typed_config", object typed) ∷ []))
          ∷ []),
    )
    ∷ []

abbrev rate_limit_type : String
rate_limit_type =
    "type.googleapis.com/envoy.extensions.filters.http.local_ratelimit.v3.LocalRateLimit"

abbrev rate_limit : String → ℤ → String → ℤ → Payload
rate_limit prefix tokens interval percent =
    ("@type", str rate_limit_type)
    ∷ ("stat_prefix", str prefix)
    ∷ (
      "token_bucket",
      object (
          ("max_tokens", num tokens)
          ∷ ("tokens_per_fill", num tokens)
          ∷ ("fill_interval", str interval)
          ∷ []),
    )
    ∷ ("filter_enabled", object (edge_percent percent))
    ∷ ("filter_enforced", object (edge_percent percent))
    ∷ []

abbrev select_ingress : Value
select_ingress = object (("labels", object (("istio", str "ingress") ∷ [])) ∷ [])

abbrev pub gateway_edge_filter_name : String
gateway_edge_filter_name = "releasea-gateway-edge-filters"

unfoldable pub build_global_edge_filter : String → Payload
build_global_edge_filter gateway_namespace =
    manifest "networking.istio.io/v1alpha3" "EnvoyFilter"
      (("name", str gateway_edge_filter_name)
        ∷ ("namespace", str gateway_namespace)
        ∷ ("labels", object (("releasea.edge", str "gateway") ∷ []))
        ∷ [])
      (("workloadSelector", select_ingress)
        ∷ (
          "configPatches",
          objects (
              edge_http_filter_patch "envoy.filters.http.local_ratelimit"
                (rate_limit "releasea_edge_rate_limit" (pos 1) "60s" (pos 0))
              ∷ edge_http_filter_patch "envoy.filters.http.lua" (
                  ("@type", str "type.googleapis.com/envoy.extensions.filters.http.lua.v3.Lua")
                  ∷ ("inline_code", str "function envoy_on_request(handle)\nend\n")
                  ∷ [])
              ∷ []),
        )
        ∷ [])

underscore : Char → Char
underscore c = if is_dash c then "_" else c

abbrev rate_entries : RulePayload → Payload
unfolding underscore
rate_entries rule =
    let limit = rule.policy.rate_limit in
    if ltb_ℤ (pos 0) limit.requests
    then (
      "envoy.filters.http.local_ratelimit",
      object (
          rate_limit ("releasea_edge_" ⧺ map_text underscore (to_kube_name rule.id)) limit.requests
            (itoa (or_positive limit.window_seconds (pos 60)) ⧺ "s") (pos 100)),
    )
      ∷ []
    else []

-- The program of the filter, before and after the limit.
abbrev body_limit_script : ℤ → String
body_limit_script limit =
    "function envoy_on_request(handle)\n  local length = handle:headers():get(\"content-length\")\n  local size = tonumber(length)\n  if size ~= nil and size > "
    ⧺ itoa limit
    ⧺ " then\n    handle:respond({[\":status\"] = \"413\", [\"content-type\"] = \"text/plain\"}, \"payload too large\")\n  end\nend\n"

abbrev body_entries : RulePayload → Payload
body_entries rule =
    if ltb_ℤ (pos 0) rule.policy.max_body_bytes
    then (
      "envoy.filters.http.lua",
      object (
          ("@type", str "type.googleapis.com/envoy.extensions.filters.http.lua.v3.LuaPerRoute")
          ∷ (
            "source_code",
            object (("inline_string", str (body_limit_script rule.policy.max_body_bytes)) ∷ []),
          )
          ∷ []),
    )
      ∷ []
    else []

abbrev route_patch : RulePayload → Payload
unfolding rate_entries
route_patch rule =
    ("applyTo", str "HTTP_ROUTE")
    ∷ (
      "match",
      object (
          ("context", str "GATEWAY")
          ∷ (
            "routeConfiguration",
            object (
                (
                  "vhost",
                  object (("route", object (("name", str (edge_route_name rule.id)) ∷ [])) ∷ []),
                )
                ∷ []),
          )
          ∷ []),
    )
    ∷ (
      "patch",
      object (
          ("operation", str "MERGE")
          ∷ (
            "value",
            object
                (("typed_per_filter_config", object (rate_entries rule ++ body_entries rule)) ∷ []),
          )
          ∷ []),
    )
    ∷ []

unfoldable pub build_route_edge_filter :
    RulePayload → ServicePayload → String → String → Option Payload
unfolding route_patch
build_route_edge_filter rule service service_name gateway_namespace =
    if denies rule
      || (leb_ℤ rule.policy.rate_limit.requests (pos 0) && leb_ℤ rule.policy.max_body_bytes (pos 0))
    then none
    else some (
        manifest "networking.istio.io/v1alpha3" "EnvoyFilter"
          (edge_metadata (edge_rate_limit_name service_name rule.id) gateway_namespace service_name
            rule service)
          (("workloadSelector", select_ingress)
            ∷ ("configPatches", objects (route_patch rule ∷ []))
            ∷ []))
