-- ===== src/Rules/Routes/Gated.antt =====
-- A rule that asks for a key lets no request through without one.
use releasea_worker.Prelude.{
  String, Bool, false, not, Option, none, some, List, [], ◌∷◌, ◌≡◌, refl, ◌≢◌, ◌⊎◌, inl, inr, ◌∙◌,
  ◌==◌, eq_refl, trim_space, to_lower, if_split, if_keeps, is_empty, lookup, insert, lookup-insert,
  All, All-append, In, Bool-cases, eq_iff,
}
use releasea_worker.Prelude.Int.{pos}
use releasea_worker.Models.Payload.{Value, strs, Payload, object}
use releasea_worker.Models.Rule.{RulePayload}
use releasea_worker.Shared.Unique.{unique_strings}
use releasea_worker.Rules.Names.{denies, rule_auth_mode, resolve_rule_hosts}
use releasea_worker.Rules.Policy.{
  header_or_default, api_key_constraint, build_rule_http_matches, with_match_headers, key_match,
  keyed_matches, edge_positive_matches, objects, set_if, set_some, build_cors_policy,
  apply_edge_http_policy,
}
use releasea_worker.Models.Operation.{Config}
use releasea_worker.Models.Service.{ServicePayload}
use releasea_worker.Rules.Routes.{
  direct_response, with_match, gated_routes, build_rule_http_routes, virtual_service_destinations,
  build_rule_virtual_service,
}

set_if_other :
    (test : Bool) (key : String) (value : Value) (entries : Payload) (other : String)
    → (key == other) ≡ false
    → lookup other (set_if test key value entries) ≡ lookup other entries
set_if_other test key value entries other h =
    if_keeps (λ e. lookup other e ≡ lookup other entries) test
      (lookup-insert key other value entries ∙ rw h) refl

set_some_other :
    (value : Option Payload) (key : String) (entries : Payload) (other : String)
    → (key == other) ≡ false
    → lookup other (set_some value key entries) ≡ lookup other entries
set_some_other none key entries other h = refl
set_some_other (some v) key entries other h = lookup-insert key other (object v) entries ∙ rw h

-- The policies leave all other fields of a route alone.
apply_edge_other :
    (rule : RulePayload) (route : Payload) (other : String)
    → ("timeout" == other) ≡ false
    → ("retries" == other) ≡ false
    → ("corsPolicy" == other) ≡ false
    → ("headers" == other) ≡ false
    → lookup other (apply_edge_http_policy rule route) ≡ lookup other route
unfolding apply_edge_http_policy
apply_edge_other rule route other a b c d =
    set_if_other _ "headers" _ _ other d
    ∙ set_some_other (build_cors_policy rule) "corsPolicy" _ other c
    ∙ set_if_other _ "retries" _ _ other b
    ∙ set_if_other _ "timeout" _ _ other a

module _ (header : String) (keys : List String) where
  -- The request has to show one of the keys in the header.
  abbrev pub Demands : Payload → Type 0
  Demands m =
      (key : String) × (headers : Payload) × In key keys
      × (lookup "headers" m ≡ some (object headers))
      × (lookup header headers ≡ some (key_match key))

  -- The route leads to no service, or only a request with a key takes it.
  abbrev pub IsGuarded : Payload → Type 0
  IsGuarded route =
      (lookup "route" route ≡ none)
      ⊎ ((matches : List Payload) × (lookup "match" route ≡ some (objects matches))
          × (matches ≢ [])
          × All Demands matches)

  with_headers-Demands :
      (base : List Payload) (key : String) (required : Payload)
      → In key keys
      → All Demands (with_match_headers base (insert header (key_match key) required))
  unfolding with_match_headers
  with_headers-Demands [] key required i = tt
  with_headers-Demands (m ∷ base) key required i =
      let headers = insert header (key_match key) required in
      (
        (
          key,
          headers,
          i,
          lookup-insert "headers" "headers" (object headers) m,
          lookup-insert header header (key_match key) required ∙ rw (eq_refl header),
        ),
        with_headers-Demands base key required i,
      )

  -- `rest` are the keys that the loop has yet to take.
  keyed-Demands :
      (base : List Payload) (required : Payload) (rest : List String)
      → ((k : String) → In k rest → In k keys)
      → All Demands (keyed_matches base required header rest)
  unfolding keyed_matches
  keyed-Demands base required [] h = tt
  keyed-Demands base required (key ∷ rest) h =
      All-append Demands _ _ (with_headers-Demands base key required (h key (inl refl)))
        (keyed-Demands base required rest (λ k i. h k (inr i)))

keyed-full :
    (m : Payload) (base : List Payload) (required : Payload) (header key : String)
    (keys : List String)
    → is_empty (keyed_matches (m ∷ base) required header (key ∷ keys)) ≡ false
unfolding keyed_matches with_match_headers
keyed-full m base required header key keys = refl

-- A route that answers that the request is not allowed.
abbrev pub Refuses : Payload → Type 0
Refuses route =
    (lookup "route" route ≡ none)
    × (lookup "directResponse" route ≡ some (direct_response (pos 401)))

abbrev pub key_list : RulePayload → List String
key_list rule = unique_strings rule.policy.api_keys

module _ (rule : RulePayload) (open_rule : denies rule ≡ false)
    (by_key : rule_auth_mode rule ≡ "apikey") where
  constraint : api_key_constraint rule ≡ (header_or_default rule, key_list rule)
  unfolding api_key_constraint
  constraint = rw (open_rule, by_key)

  header-full : (header_or_default rule == "") ≡ false
  header-full =
      if_split (λ h. (h == "") ≡ false) (to_lower (trim_space rule.policy.api_key_header) == "")
        (λ e. refl) (λ e. e)

  positive :
      (matches : List Payload) × (edge_positive_matches rule ≡ some matches)
      × All (Demands (header_or_default rule) (key_list rule)) matches
  unfolding edge_positive_matches
  positive =
      rw (constraint, header-full)
        (if_split
          (λ o.
            (matches : List Payload) × (o ≡ some matches)
            × All (Demands (header_or_default rule) (key_list rule)) matches)
          (is_empty (key_list rule)) (λ none_left. ([], refl, tt))
          (λ some_left. (
            _,
            refl,
            keyed-Demands (header_or_default rule) (key_list rule) _ _ (key_list rule) (λ k i. i),
          )))

  abbrev Guarded : Payload → Type 0
  Guarded = IsGuarded (header_or_default rule) (key_list rule)

  abbrev fallback : List Payload → Payload
  fallback matches =
      apply_edge_http_policy rule
        (with_match matches (("directResponse", direct_response (pos 401)) ∷ []))

  fallback-Refuses : (matches : List Payload) → Refuses (fallback matches)
  unfolding lookup
  fallback-Refuses matches =
      let test = not (is_empty matches) in
      let refusal : Payload = ("directResponse", direct_response (pos 401)) ∷ [] in
      let matched = with_match matches refusal in
      (
        apply_edge_other rule matched "route" refl refl refl refl
            ∙ set_if_other test "match" (objects matches) refusal "route" refl,
        apply_edge_other rule matched "directResponse" refl refl refl refl
            ∙ set_if_other test "match" (objects matches) refusal "directResponse" refl,
      )

  primary-IsGuarded :
      (primary : Payload) (matches : List Payload)
      → is_empty matches ≡ false
      → All (Demands (header_or_default rule) (key_list rule)) matches
      → Guarded (apply_edge_http_policy rule (with_match matches primary))
  primary-IsGuarded primary [] e h = cc
  primary-IsGuarded primary (m ∷ ms) e h = inr (
    m ∷ ms,
    apply_edge_other rule _ "match" refl refl refl refl ∙ lookup-insert "match" "match" _ primary,
    λ empty. cc,
    h,
  )

  gated-IsGuarded :
      (primary : Payload) (matches found : List Payload)
      → All (Demands (header_or_default rule) (key_list rule)) found
      → All Guarded (gated_routes rule primary matches (some found))
        × ((r : Payload) × In r (gated_routes rule primary matches (some found)) × Refuses r)
  gated-IsGuarded primary matches found h =
      let last = fallback-Refuses matches in
      if_split (λ rs. All Guarded rs × ((r : Payload) × In r rs × Refuses r)) (is_empty found)
        (λ e. ((inl last.0, tt), (fallback matches, inl refl, last)))
        (λ e. (
          (primary-IsGuarded primary found e h, (inl last.0, tt)),
          (fallback matches, inr (inl refl), last),
        ))

  build_rule_http_routes-IsGuarded :
      (destinations : List Payload)
      → All Guarded (build_rule_http_routes rule destinations false)
        × ((r : Payload) × In r (build_rule_http_routes rule destinations false) × Refuses r)
  unfolding build_rule_http_routes
  build_rule_http_routes-IsGuarded destinations =
      let (found, same, demands) = positive in
      rw same (gated-IsGuarded _ (build_rule_http_matches rule.paths rule.methods) found demands)

  -- Where a rule of a protocol other than TCP lets requests through by a key, its virtual service has no
  -- TCP routes, and every one of its HTTP routes either leads to no service, or is taken only by requests
  -- that show one of the rule's keys in its header; one of the routes answers 401.
  pub build_rule_virtual_service-IsGuarded :
      (service : ServicePayload) (service_name namespace : String) (cfg : Config)
      (gateways : List String)
      → to_lower (trim_space rule.protocol) ≢ "tcp"
      → (spec : Payload) × (routes : List Payload) × (lookup "spec"
            (build_rule_virtual_service rule service service_name namespace cfg gateways)
          ≡ some (object spec))
        × (lookup "tcp" spec ≡ none)
        × (lookup "http" spec ≡ some (objects routes))
        × All Guarded routes
        × ((r : Payload) × In r routes × Refuses r)
  unfolding build_rule_virtual_service lookup
  build_rule_virtual_service-IsGuarded service service_name namespace cfg gateways other =
      let protocol = to_lower (trim_space rule.protocol) in
      elim (Bool-cases (protocol == "tcp")) [
        | inl tcp ↦ absurd (other ((eq_iff protocol "tcp").0 tcp))
        | inr http ↦
            let ds = virtual_service_destinations rule service service_name namespace cfg in
            let (guarded, refused) = build_rule_http_routes-IsGuarded ds in
            rw (http, open_rule)
              (
                ("hosts", strs (resolve_rule_hosts rule.hosts gateways service_name namespace cfg))
                    ∷ ("gateways", strs gateways)
                    ∷ ("http", objects (build_rule_http_routes rule ds false))
                    ∷ [],
                build_rule_http_routes rule ds false,
                refl,
                refl,
                refl,
                guarded,
                refused,
              )
      ]
