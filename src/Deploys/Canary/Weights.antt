-- ===== src/Deploys/Canary/Weights.antt =====
-- The shares of the destinations of a route, before and after the shift.
use releasea_worker.Prelude.{
  ◌+◌, String, true, some, List, [], ◌∷◌, ◌++◌, map, any, ◌≡◌, ◌≢◌, refl, sym, ap, ◌∙◌, ◌==◌, ◌⊎◌,
  inl, inr, arith, length, is_empty, if_split, lookup, insert, lookup-insert,
}
use releasea_worker.Prelude.Int.{ℤ, pos, negsuc, pos_part, neg_part, ◌+ℤ◌}
use releasea_worker.Models.Payload.{Value, num, Payload, object}
use releasea_worker.Deploys.Hints.{map_value}
use releasea_worker.Deploys.Canary.{
  route_weight, Entry, taken, left_out, kept, take_in, whole, host_of, is_canary, is_canary_entry,
  to_stable, shift_entry, shift_entries, shift_weighted_route,
}

ℤ_unique : (a b : ℤ) → pos_part a + neg_part b ≡ pos_part b + neg_part a → a ≡ b
ℤ_unique (pos a) (pos b) e = ap pos (omega (arith, e))
ℤ_unique (pos a) (negsuc b) e = absurd (omega (arith, e))
ℤ_unique (negsuc a) (pos b) e = absurd (omega (arith, e))
ℤ_unique (negsuc a) (negsuc b) e = ap negsuc (omega (arith, e))

parts :
    (a b : ℤ)
    → pos_part (a +ℤ b) + (neg_part a + neg_part b) ≡ neg_part (a +ℤ b) + (pos_part a + pos_part b)
parts a b = ground arith

add_assoc : (a b c : ℤ) → (a +ℤ b) +ℤ c ≡ a +ℤ (b +ℤ c)
add_assoc a b c =
    ℤ_unique _ _ (omega (arith, parts a b, parts b c, parts (a +ℤ b) c, parts a (b +ℤ c)))

add_comm : (a b : ℤ) → a +ℤ b ≡ b +ℤ a
add_comm a b = ℤ_unique _ _ (omega (arith, parts a b, parts b a))

add_zero : (a : ℤ) → a +ℤ pos 0 ≡ a
add_zero a = ℤ_unique _ _ (omega (arith, parts a (pos 0)))

abbrev weight : Payload → ℤ
weight route = route_weight (lookup "weight" route)

abbrev pub total : List Payload → ℤ
total [] = pos 0
total (route ∷ routes) = weight route +ℤ total routes

weight-insert : (w : ℤ) (route : Payload) → weight (insert "weight" (num w) route) ≡ w
unfolding route_weight
weight-insert w route = rw (lookup-insert "weight" "weight" (num w) route) refl

kept-left_out : (es : List Entry) (v : Value) → kept (es ++ left_out v ∷ []) ≡ kept es
kept-left_out [] v = refl
kept-left_out (taken host route ∷ es) v = ap (λ rs. route ∷ rs) (kept-left_out es v)
kept-left_out (left_out u ∷ es) v = kept-left_out es v

total-taken :
    (es : List Entry) (host : String) (route : Payload)
    → total (kept (es ++ taken host route ∷ [])) ≡ total (kept es) +ℤ weight route
total-taken [] host route = add_comm (weight route) (pos 0)
total-taken (taken other first ∷ es) host route =
    ap (λ n. weight first +ℤ n) (total-taken es host route) ∙ sym (add_assoc (weight first) _ _)
total-taken (left_out u ∷ es) host route = total-taken es host route

-- `take_in` adds its weight, whichever destination gets it.
total-take_in :
    (host : String) (w : ℤ) (route : Payload) (es : List Entry)
    → total (kept (take_in host w route es)) ≡ total (kept es) +ℤ w
unfolding take_in
total-take_in host w route [] = ap (λ n. n +ℤ pos 0) (weight-insert w route) ∙ add_comm w (pos 0)
total-take_in host w route (left_out v ∷ es) = total-take_in host w route es
total-take_in host w route (taken other first ∷ es) =
    if_split (λ es'. total (kept es') ≡ (weight first +ℤ total (kept es)) +ℤ w) (other == host)
      (λ e.
        rw (weight-insert (weight first +ℤ w) first, kept-left_out es (object route))
          (add_assoc (weight first) w _
            ∙ ap (λ n. weight first +ℤ n) (add_comm w _)
            ∙ sym (add_assoc (weight first) _ w)))
      (λ e.
        ap (λ n. weight first +ℤ n) (total-take_in host w route es)
        ∙ sym (add_assoc (weight first) _ w))

no_weight : (r : Payload) → is_empty r ≡ true → weight r ≡ pos 0
unfolding route_weight lookup
no_weight [] n = refl
no_weight (f ∷ r) n = cc

module _ (sprint : Value → String) (service_name namespace : String) where
  total-shift_entry :
      (e : Value) (es : List Entry)
      → total (kept (shift_entry sprint service_name namespace e es))
        ≡ total (kept es) +ℤ weight (map_value (some e))
  total-shift_entry e es =
      let route = map_value (some e) in
      let host = host_of sprint route in
      let Adds = λ (es' : List Entry). total (kept es') ≡ total (kept es) +ℤ weight route in
      if_split Adds (is_empty route)
        (λ n.
          ap total (kept-left_out es e)
          ∙ sym (ap (λ w. total (kept es) +ℤ w) (no_weight route n) ∙ add_zero _))
        (λ n.
          if_split Adds (is_canary sprint service_name namespace host)
            (λ c. total-take_in _ _ (to_stable sprint service_name namespace route) es)
            (λ c.
              if_split Adds (host == "") (λ b. total-taken es "" route)
                (λ b. total-take_in host _ route es)))

  abbrev maps : List Value → List Payload
  maps es = map (λ (e : Value). map_value (some e)) es

  total-shift_entries :
      (es : List Value) (merged : List Entry)
      → total (kept (shift_entries sprint service_name namespace es merged))
        ≡ total (kept merged) +ℤ total (maps es)
  unfolding shift_entries
  total-shift_entries [] merged = sym (add_zero _)
  total-shift_entries (e ∷ es) merged =
      total-shift_entries es _
      ∙ ap (λ n. n +ℤ total (maps es)) (total-shift_entry e merged)
      ∙ add_assoc _ (weight (map_value (some e))) _

  -- Where a destination of the route is the canary's, the route that is left has maps for destinations;
  -- a single one has 100 percent, and otherwise the shares make as much as they did before.
  pub shift_weighted_route-total :
      (es : List Value)
      → any (is_canary_entry sprint service_name namespace) es ≡ true
      → (routes : List Payload) × (shift_weighted_route sprint service_name namespace es
          ≡ map object routes)
        × (((length routes ≡ 1) × (total routes ≡ pos 100))
            ⊎ ((length routes ≢ 1) × (total routes ≡ total (maps es))))
  unfolding shift_weighted_route whole
  shift_weighted_route-total es c =
      let merged = kept (shift_entries sprint service_name namespace es []) in
      (
        whole merged,
        rw c refl,
        whole_total merged (total-shift_entries es [] ∙ add_comm (pos 0) _ ∙ add_zero _),
      )
    where
      whole_total :
          (routes : List Payload)
          → total routes ≡ total (maps es)
          → ((length (whole routes) ≡ 1) × (total (whole routes) ≡ pos 100))
            ⊎ ((length (whole routes) ≢ 1) × (total (whole routes) ≡ total (maps es)))
      whole_total [] h = inr (λ e. omega (arith, e), h)
      whole_total (route ∷ []) h = inl (refl, ap (λ n. n +ℤ pos 0) (weight-insert (pos 100) route))
      whole_total (route ∷ next ∷ rest) h = inr (λ e. omega (arith, e), h)
