-- ===== src/Deploys/Canary/Cleared.antt =====
-- After the shift, no route leads to the canary.
use releasea_worker.Prelude.{
  String, Bool, true, false, ◌||◌, ◌⧺◌, Option, none, some, List, [], ◌∷◌, ◌≡◌, refl, sym, ap, ◌∙◌,
  map, any, ◌==◌, is_empty, if_split, lookup, remove, lookup-insert, lookup-remove, eq_refl,
}
use releasea_worker.Models.Payload.{
  Value, null, bool, num, str, strs, arr, obj, Payload, items, object, array, fields-to_fields,
  items-to_items,
}
use releasea_worker.Deploys.Hints.{map_value, string_value}
use releasea_worker.Shared.KubeName.Laws.{IsKube}
use releasea_worker.Deploys.Canary.Destinations.{nowhere, shift_weighted_route-clear}
use releasea_worker.Deploys.Canary.Hosts.{stable_host-lem}
use releasea_worker.Deploys.Canary.{
  list_of, protocols, mirror_host, is_canary, stable_host, is_canary_entry, shift_weighted_route,
  clear_canary_mirror, with_destinations, shift_route, shift_routes, shift_spec, route_changes,
  route_references, spec_references, promote_canary_virtual_service,
  virtual_service_references_workload,
}

module _ (sprint : Value → String) (service_name namespace : String) where
  abbrev canary : String → Bool
  canary = is_canary sprint service_name namespace

  abbrev entries : List Value → Bool
  entries = any (is_canary_entry sprint service_name namespace)

  -- Does a route lead to the canary, by its mirror or by a destination?
  refs : Payload → Bool
  refs r = canary (mirror_host sprint r) || entries (list_of (lookup "route" r))

  refs-empty : (r : Payload) → is_empty r ≡ true → refs r ≡ false
  unfolding refs string_value lookup
  refs-empty [] e = rw (nowhere sprint service_name namespace) refl
  refs-empty (f ∷ r) e = cc

  mirror-cleared :
      (route : Payload)
      → canary (mirror_host sprint (clear_canary_mirror sprint service_name namespace route))
        ≡ false
  unfolding clear_canary_mirror string_value lookup
  mirror-cleared route =
      if_split (λ r. canary (mirror_host sprint r) ≡ false) (canary (mirror_host sprint route))
        (λ c.
          rw
            (
              lookup-remove "mirrorPercentage" "mirror" (remove "mirror" route),
              lookup-remove "mirror" "mirror" route,
            )
            no_mirror)
        (λ c. c)
    where
      no_mirror : canary (string_value sprint [] "host") ≡ false
      no_mirror = (nowhere sprint service_name namespace)

  abbrev references : Value → Bool
  references = route_references sprint (service_name ⧺ "-canary") namespace

  references_lem : (raw : Value) → references raw ≡ refs (map_value (some raw))
  unfolding refs
  references_lem raw = refl

  spec-empty :
      (spec : Payload)
      → is_empty spec ≡ true
      → spec_references sprint (service_name ⧺ "-canary") namespace spec ≡ false
  unfolding lookup
  spec-empty [] e = refl
  spec-empty (f ∷ spec) e = cc

  route-cleared :
      (route : Payload)
      → lookup "route" (clear_canary_mirror sprint service_name namespace route)
        ≡ lookup "route" route
  unfolding clear_canary_mirror
  route-cleared route =
      if_split (λ r. lookup "route" r ≡ lookup "route" route) (canary (mirror_host sprint route))
        (λ c.
          lookup-remove "mirrorPercentage" "route" (remove "mirror" route)
          ∙ lookup-remove "mirror" "route" route)
        (λ c. refl)

  changes_lem : (raw : Value) → route_changes sprint service_name namespace raw ≡ references raw
  unfolding refs
  changes_lem raw =
      let route = map_value (some raw) in
      if_split (λ b. b ≡ refs route) (is_empty route) (λ e. sym (refs-empty route e))
        (λ e. rw (route-cleared route) refl)

  any_changes_lem :
      (raws : List Value)
      → any (route_changes sprint service_name namespace) raws ≡ any references raws
  any_changes_lem [] = refl
  any_changes_lem (raw ∷ raws) = rw (changes_lem raw, any_changes_lem raws) refl

  module _ (stable : canary (stable_host sprint service_name namespace) ≡ false) where
    abbrev routed : Payload → Payload
    routed r = with_destinations sprint service_name namespace (lookup "route" r) r

    refs-routed : (r : Payload) → canary (mirror_host sprint r) ≡ false → refs (routed r) ≡ false
    unfolding refs
    refs-routed r m = by_destinations (lookup "route" r) refl
      where
        none_left : (o : Option Value) → lookup "route" r ≡ o → list_of o ≡ [] → refs r ≡ false
        none_left o e n = rw (m, e, n) refl

        by_destinations :
            (o : Option Value)
            → lookup "route" r ≡ o
            → refs (with_destinations sprint service_name namespace o r) ≡ false
        by_destinations none e = none_left none e refl
        by_destinations (some null) e = none_left _ e refl
        by_destinations (some (bool b)) e = none_left _ e refl
        by_destinations (some (num n)) e = none_left _ e refl
        by_destinations (some (str s)) e = none_left _ e refl
        by_destinations (some (strs ss)) e = none_left _ e refl
        by_destinations (some (obj fs)) e = none_left _ e refl
        by_destinations (some (arr vs)) e =
            let shifted = shift_weighted_route sprint service_name namespace (items vs) in
            rw
              (
                lookup-insert "route" "mirror" (array shifted) r,
                m,
                lookup-insert "route" "route" (array shifted) r,
                items-to_items shifted,
              )
              (shift_weighted_route-clear sprint service_name namespace stable (items vs))

    refs-shift_route :
        (raw : Value)
        → refs (map_value (some (shift_route sprint service_name namespace raw))) ≡ false
    refs-shift_route raw =
        let route = map_value (some raw) in
        let cleared = clear_canary_mirror sprint service_name namespace route in
        if_split (λ v. refs (map_value (some v)) ≡ false) (is_empty route) (λ e. refs-empty route e)
          (λ e.
            ap refs (fields-to_fields (routed cleared))
            ∙ refs-routed cleared (mirror-cleared route))

    abbrev shifted : Value → Value
    shifted = shift_route sprint service_name namespace

    shifted-clear : (vs : List Value) → any references (map shifted vs) ≡ false
    shifted-clear [] = refl
    shifted-clear (v ∷ vs) = rw (references_lem (shifted v), refs-shift_route v) (shifted-clear vs)

    abbrev put_routes : String → Option Value → Payload → Payload
    put_routes = shift_routes sprint service_name namespace

    put_routes-clear :
        (key : String) (o : Option Value) (spec : Payload)
        → lookup key spec ≡ o
        → any references (list_of (lookup key (put_routes key o spec))) ≡ false
    put_routes-clear key (some (arr vs)) spec e =
        rw
          (
            lookup-insert key key (array (map shifted (items vs))) spec,
            eq_refl key,
            items-to_items (map shifted (items vs)),
          )
          (shifted-clear (items vs))
    put_routes-clear key _ spec e = rw e refl

    put_routes-other :
        (key other : String) (o : Option Value) (spec : Payload)
        → (key == other) ≡ false
        → lookup other (put_routes key o spec) ≡ lookup other spec
    put_routes-other key other (some (arr vs)) spec e =
        lookup-insert key other (array (map shifted (items vs))) spec ∙ rw e refl
    put_routes-other key other _ spec e = refl

    abbrev refs_at : String → Payload → Bool
    refs_at key spec = any references (list_of (lookup key spec))

    abbrev put_key : String → Payload → Payload
    put_key key spec = put_routes key (lookup key spec) spec

    still-clear :
        (key other : String) (spec : Payload)
        → (key == other) ≡ false
        → refs_at other spec ≡ false
        → refs_at other (put_key key spec) ≡ false
    still-clear key other spec e h =
        ap (λ o. any references (list_of o)) (put_routes-other key other (lookup key spec) spec e)
        ∙ h

    shift_spec-clear :
        (spec : Payload)
        → spec_references sprint
            (service_name ⧺ "-canary")
            namespace
            (shift_spec sprint service_name namespace protocols spec)
          ≡ false
    shift_spec-clear spec =
        let http = put_key "http" spec in
        let tcp = put_key "tcp" http in
        rw
          (
            still-clear "tls" "http" tcp refl
                (still-clear "tcp" "http" http refl (put_routes-clear "http" _ spec refl)),
            still-clear "tls" "tcp" tcp refl (put_routes-clear "tcp" _ http refl),
            put_routes-clear "tls" _ tcp refl,
          )
          refl

-- The shift changes a virtual service exactly when it refers to the canary, and afterwards it does not;
-- nothing but its spec is changed. The service and the namespace have names of small letters, digits
-- and dashes.
pub promote_canary_virtual_service_lem :
    (sprint : Value → String) (service_name namespace : String) (vs : Payload) (other : String)
    → IsKube service_name
    → IsKube namespace
    → ("spec" == other) ≡ false
    → let (left, changed) = promote_canary_virtual_service sprint service_name namespace vs in
      (changed ≡ virtual_service_references_workload sprint vs (service_name ⧺ "-canary") namespace)
      × (virtual_service_references_workload sprint left (service_name ⧺ "-canary") namespace
          ≡ false)
      × (lookup other left ≡ lookup other vs)
unfolding promote_canary_virtual_service virtual_service_references_workload
promote_canary_virtual_service_lem sprint service_name namespace vs other name space e =
    let stable = stable_host-lem sprint service_name namespace name space in
    let workload = service_name ⧺ "-canary" in
    let spec = map_value (lookup "spec" vs) in
    let shifted = shift_spec sprint service_name namespace protocols spec in
    let changes = any_changes_lem sprint service_name namespace in
    if_split
      (λ (r : Payload × Bool).
        (r.1 ≡ spec_references sprint workload namespace spec)
        × (spec_references sprint workload namespace (map_value (lookup "spec" r.0)) ≡ false)
        × (lookup other r.0 ≡ lookup other vs))
      (is_empty spec)
      (λ n.
        let none_there = spec-empty sprint service_name namespace spec n in
        (sym none_there, none_there, refl))
      (λ n. (
        rw
            (
              changes (list_of (lookup "http" spec)),
              changes (list_of (lookup "tcp" spec)),
              changes (list_of (lookup "tls" spec)),
            )
            refl,
        rw (lookup-insert "spec" "spec" (object shifted) vs, fields-to_fields shifted)
            (shift_spec-clear sprint service_name namespace stable spec),
        lookup-insert "spec" other (object shifted) vs ∙ rw e refl,
      ))
