-- ===== src/Deploys/Canary/Destinations.antt =====
-- After the shift, no destination of a route is the canary's.
use releasea_worker.Prelude.{
  String, Bool, true, false, some, List, [], ◌∷◌, ◌≡◌, refl, sym, ap, ◌∙◌, map, any, ◌==◌, All,
  All-append, is_empty, if_split, lookup, insert, remove, lookup-insert, lookup-remove, trim_space,
  trim_space_idem, to_lower,
}
use releasea_worker.Prelude.Int.{ℤ, pos}
use releasea_worker.Models.Payload.{Value, num, str, Payload, object, fields-to_fields}
use releasea_worker.Deploys.Hints.{map_value, string_value}
use releasea_worker.Rules.Guard.{host_matches_workload_alias}
use releasea_worker.Deploys.Canary.{
  Entry, taken, left_out, kept, values, take_in, whole, host_of, is_canary, stable_host,
  is_canary_entry, to_stable, shift_entry, shift_entries, shift_weighted_route, destination_of,
}

host_matches-trim :
    (host alias namespace : String)
    → host_matches_workload_alias (trim_space host) alias namespace
      ≡ host_matches_workload_alias host alias namespace
unfolding host_matches_workload_alias
host_matches-trim host alias namespace = rw (trim_space_idem host) refl

module _ (sprint : Value → String) (service_name namespace : String) where
  abbrev canary : String → Bool
  canary = is_canary sprint service_name namespace

  abbrev entry_canary : Value → Bool
  entry_canary = is_canary_entry sprint service_name namespace

  pub nowhere : canary "" ≡ false
  unfolding host_matches_workload_alias to_lower trim_space
  nowhere = refl

  host-other :
      (key : String) (v : Value) (route : Payload)
      → (key == "destination") ≡ false
      → host_of sprint (insert key v route) ≡ host_of sprint route
  host-other key v route e =
      ap (λ o. string_value sprint (map_value o) "host")
        (lookup-insert key "destination" v route ∙ (rw e refl))

  host-to_stable :
      (route : Payload)
      → host_of sprint (to_stable sprint service_name namespace route)
        ≡ trim_space (stable_host sprint service_name namespace)
  unfolding string_value
  host-to_stable route =
      let moved =
        insert "host" (str (stable_host sprint service_name namespace)) (destination_of route) in
      rw
        (
          lookup-insert "destination" "destination" (object (remove "subset" moved)) route,
          fields-to_fields (remove "subset" moved),
          lookup-remove "subset" "host" moved,
          lookup-insert "host" "host" (str (stable_host sprint service_name namespace))
              (destination_of route),
        )
        refl

  -- An entry, as a destination, does not lead to the canary.
  abbrev IsClear : Entry → Type 0
  IsClear (taken host route) = canary (host_of sprint route) ≡ false
  IsClear (left_out value) = entry_canary value ≡ false

  entry-object : (route : Payload) → entry_canary (object route) ≡ canary (host_of sprint route)
  entry-object route = ap (λ r. canary (host_of sprint r)) (fields-to_fields route)

  take_in-IsClear :
      (host : String) (w : ℤ) (route : Payload) (merged : List Entry)
      → canary (host_of sprint route) ≡ false
      → All IsClear merged
      → All IsClear (take_in host w route merged)
  unfolding take_in
  take_in-IsClear host w route [] c h = (ap canary (host-other "weight" _ route refl) ∙ c, tt)
  take_in-IsClear host w route (left_out value ∷ rest) c h =
      (h.0, take_in-IsClear host w route rest c h.1)
  take_in-IsClear host w route (taken other first ∷ rest) c h =
      if_split (All IsClear) (other == host)
        (λ e. (
          ap canary (host-other "weight" _ first refl) ∙ h.0,
          All-append IsClear rest _ h.1 (entry-object route ∙ c, tt),
        ))
        (λ e. (h.0, take_in-IsClear host w route rest c h.1))

  pub empty-clear : (r : Payload) → is_empty r ≡ true → canary (host_of sprint r) ≡ false
  unfolding string_value lookup
  empty-clear [] e = nowhere
  empty-clear (f ∷ r) e = cc

  abbrev entries : List Value → Bool
  entries es = any entry_canary es

  values-clear : (es : List Entry) → All IsClear es → entries (values es) ≡ false
  values-clear [] h = refl
  values-clear (taken host route ∷ rest) h = rw (entry-object route, h.0) (values-clear rest h.1)
  values-clear (left_out value ∷ rest) h = rw h.0 (values-clear rest h.1)

  objects-clear : (es : List Entry) → All IsClear es → entries (map object (kept es)) ≡ false
  objects-clear [] h = refl
  objects-clear (taken host route ∷ rest) h = rw (entry-object route, h.0) (objects-clear rest h.1)
  objects-clear (left_out value ∷ rest) h = objects-clear rest h.1

  whole-clear :
      (routes : List Payload)
      → entries (map object routes) ≡ false
      → entries (map object (whole routes)) ≡ false
  unfolding whole
  whole-clear [] h = refl
  whole-clear (route ∷ next ∷ rest) h = h
  whole-clear (route ∷ []) h =
      rw
        (
          entry-object (insert "weight" (num (pos 100)) route),
          host-other "weight" (num (pos 100)) route refl,
          sym (entry-object route),
        )
        h

  module _ (stable : canary (stable_host sprint service_name namespace) ≡ false) where
    shift_entry-IsClear :
        (e : Value) (merged : List Entry)
        → All IsClear merged
        → All IsClear (shift_entry sprint service_name namespace e merged)
    shift_entry-IsClear e merged h =
        let route = map_value (some e) in
        let host = host_of sprint route in
        if_split (All IsClear) (is_empty route)
          (λ n. All-append IsClear merged _ h (empty-clear route n, tt))
          (λ n.
            if_split (All IsClear) (canary host)
              (λ c.
                take_in-IsClear _ _ _ merged
                  (ap canary (host-to_stable route) ∙ host_matches-trim _ _ _ ∙ stable) h)
              (λ c.
                if_split (All IsClear) (host == "") (λ b. All-append IsClear merged _ h (c, tt))
                  (λ b. take_in-IsClear host _ route merged c h)))

    shift_entries-IsClear :
        (es : List Value) (merged : List Entry)
        → All IsClear merged
        → All IsClear (shift_entries sprint service_name namespace es merged)
    unfolding shift_entries
    shift_entries-IsClear [] merged h = h
    shift_entries-IsClear (e ∷ es) merged h =
        shift_entries-IsClear es _ (shift_entry-IsClear e merged h)

    pub shift_weighted_route-clear :
        (es : List Value) → entries (shift_weighted_route sprint service_name namespace es) ≡ false
    unfolding shift_weighted_route
    shift_weighted_route-clear es =
        let clear = shift_entries-IsClear es [] tt in
        if_split (λ vs. entries vs ≡ false) (any entry_canary es)
          (λ c. whole-clear _ (objects-clear _ clear)) (λ c. values-clear _ clear)
