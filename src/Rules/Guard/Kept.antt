-- ===== src/Rules/Guard/Kept.antt =====
-- Which workloads the clean-up after a rule's deploy deletes.
use releasea_worker.Prelude.{
  String, Bool, true, false, ◌||◌, List, [], ◌∷◌, ◌++◌, ◌≡◌, refl, sym, ◌≢◌, ◌⊎◌, inl, inr, ◌∙◌,
  ◌==◌, eq_iff, arith, Bool-cases, if_split, is_empty, any, All, In, In-append_left,
  In-append_right, trim_space, to_lower, equal_fold,
}
use releasea_worker.Models.Payload.{
  Value, null, bool, num, str, strs, arr, obj, Items, no_items, item, Fields, no_fields, field,
  Payload, to_fields,
}
use releasea_worker.Models.Failure.{Result, ok, err}
use releasea_worker.Rules.Cluster.Adds.{Adds, AddsAlways, Adds-bind, Adds-perform}
use releasea_worker.Rules.Cluster.{
  delete, CallEntry, Log, Surroundings, continue, ◌>>◌, resource_id, delete_resource,
}
use releasea_worker.Rules.Guard.{
  host_entry, collect_destination_hosts, all_hosts, host_matches_workload_alias,
  is_workload_alias_referenced, cleanup_candidates_for_strategy, canonical_service_target,
  delete_unused, after_hosts, cleanup_unused_strategy_workloads,
}

abbrev is_host_key : String → Bool
is_host_key key = equal_fold (trim_space key) "host"

-- A field `host` with that text, in any case and with blanks around it.
abbrev IsHost : String → String → Value → Type 0
IsHost host key v =
    (is_host_key key ≡ true)
    × ((raw : String) × (v ≡ str raw) × (to_lower (trim_space raw) ≡ host) × (host ≢ ""))

-- Somewhere in the value, outside of other `host` fields, a field `host` has that text.
unfoldable mutual
  pub Mentions : String → Value → Type 0
  Mentions host (obj fs) = MentionsField host fs
  Mentions host (arr vs) = MentionsItem host vs
  Mentions host null = ⊥
  Mentions host (bool b) = ⊥
  Mentions host (num n) = ⊥
  Mentions host (str s) = ⊥
  Mentions host (strs ss) = ⊥

  pub MentionsField : String → Fields → Type 0
  MentionsField host no_fields = ⊥
  MentionsField host (field key v fs) =
      (IsHost host key v ⊎ ((is_host_key key ≡ false) × Mentions host v)) ⊎ MentionsField host fs

  pub MentionsItem : String → Items → Type 0
  MentionsItem host no_items = ⊥
  MentionsItem host (item v vs) = Mentions host v ⊎ MentionsItem host vs

abbrev pub MentionsAny : String → List Payload → Type 0
MentionsAny host [] = ⊥
MentionsAny host (vs ∷ rest) = MentionsField host (to_fields vs) ⊎ MentionsAny host rest

host_entry-In : (host key : String) (v : Value) → IsHost host key v → In host (host_entry v)
host_entry-In host key v (k, (raw, e, l, f)) = rw e (
    if_split (In host) (to_lower (trim_space raw) == "")
      (λ blank. absurd (f (sym l ∙ (eq_iff (to_lower (trim_space raw)) "").0 blank)))
      (λ full. inl (sym l)))

mutual
  unfolding Mentions collect_destination_hosts

  Mentions-In :
      (host : String) (v : Value) → Mentions host v → In host (collect_destination_hosts v)
  Mentions-In host (obj fs) m = MentionsField-In host fs m
  Mentions-In host (arr vs) m = MentionsItem-In host vs m
  Mentions-In host null m = absurd m
  Mentions-In host (bool b) m = absurd m
  Mentions-In host (num n) m = absurd m
  Mentions-In host (str s) m = absurd m
  Mentions-In host (strs ss) m = absurd m

  MentionsField-In :
      (host : String) (fs : Fields)
      → MentionsField host fs
      → In host (collect_destination_hosts (obj fs))
  MentionsField-In host no_fields m = absurd m
  MentionsField-In host (field key v fs) (inl (inl h)) =
      In-append_left host _ _
        (if_split (In host) (is_host_key key) (λ e. host_entry-In host key v h) (λ e. cc (h.0)))
  MentionsField-In host (field key v fs) (inl (inr h)) =
      In-append_left host _ _
        (if_split (In host) (is_host_key key) (λ e. cc (h.0)) (λ e. Mentions-In host v h.1))
  MentionsField-In host (field key v fs) (inr m) =
      In-append_right host _ _ (MentionsField-In host fs m)

  MentionsItem-In :
      (host : String) (vs : Items)
      → MentionsItem host vs
      → In host (collect_destination_hosts (arr vs))
  MentionsItem-In host no_items m = absurd m
  MentionsItem-In host (item v vs) (inl m) = In-append_left host _ _ (Mentions-In host v m)
  MentionsItem-In host (item v vs) (inr m) = In-append_right host _ _ (MentionsItem-In host vs m)

MentionsAny-In :
    (host : String) (services : List Payload)
    → MentionsAny host services
    → In host (all_hosts services)
unfolding all_hosts collect_destination_hosts
MentionsAny-In host [] m = absurd m
MentionsAny-In host (vs ∷ rest) (inl m) =
    In-append_left host _ _ (MentionsField-In host (to_fields vs) m)
MentionsAny-In host (vs ∷ rest) (inr m) = In-append_right host _ _ (MentionsAny-In host rest m)

not_any :
    (p : String → Bool) (xs : List String) (x : String) → any p xs ≡ false → In x xs → p x ≡ false
not_any p [] x h i = absurd i
not_any p (y ∷ ys) x h (inl e) = elim (Bool-cases (p y)) [
  | inl yes' ↦ absurd (ground (arith, yes', h))
  | inr no' ↦ rw e no'
]
not_any p (y ∷ ys) x h (inr i) = elim (Bool-cases (p y)) [
  | inl yes' ↦ absurd (ground (arith, yes', h))
  | inr no' ↦ not_any p ys x (ground (arith, no', h)) i
]

module _ (sprint : Value → String) (env : Surroundings) (namespace raw_name strategy : String)
    (log : Log) where
  -- The call deletes a workload, or its service, of another strategy, to which no virtual service leads
  -- and which the service of the rule does not select.
  abbrev pub IsUnused : String → CallEntry → Type 0
  IsUnused c e =
      In c (cleanup_candidates_for_strategy (trim_space raw_name) strategy)
      × ((e.call ≡ delete (resource_id "Deployment" namespace c))
          ⊎ (e.call ≡ delete (resource_id "Service" namespace c)))
      × ((target : String) × (canonical_service_target sprint env log namespace
              (trim_space raw_name)
            ≡ ok target)
          × (c ≢ target))
      × ((services : List Payload) × (env.virtual_services log namespace ≡ ok services)
          × ((host : String)
              → MentionsAny host services
              → host_matches_workload_alias host c namespace ≡ false))

  abbrev pub IsDue : CallEntry → Type 0
  IsDue e = (c : String) × IsUnused c e

  -- A workload that nothing leads to is deleted, and then its service.
  delete_both-Adds :
      (c : String)
      → ((e : CallEntry)
          → (e.call ≡ delete (resource_id "Deployment" namespace c))
            ⊎ (e.call ≡ delete (resource_id "Service" namespace c))
          → IsUnused c e)
      → AddsAlways IsDue (
          delete_resource env "Deployment" namespace c >> delete_resource env "Service" namespace c)
  delete_both-Adds c unused =
      Adds-bind IsDue (delete_resource env "Deployment" namespace c)
        (delete_resource env "Service" namespace c)
        (Adds-perform IsDue env (delete (resource_id "Deployment" namespace c)) (λ f. (
          c,
          unused (record { call = delete (resource_id "Deployment" namespace c); failure = f })
              (inl refl),
        )))
        (Adds-perform IsDue env (delete (resource_id "Service" namespace c)) (λ f. (
          c,
          unused (record { call = delete (resource_id "Service" namespace c); failure = f })
              (inr refl),
        )))

  delete_unused-Adds :
      (services : List Payload) (target : String)
      → env.virtual_services log namespace ≡ ok services
      → canonical_service_target sprint env log namespace (trim_space raw_name) ≡ ok target
      → (cs : List String)
      → ((c : String)
          → In c cs
          → In c (cleanup_candidates_for_strategy (trim_space raw_name) strategy))
      → AddsAlways IsDue (delete_unused env namespace (all_hosts services) target cs)
  unfolding delete_unused is_workload_alias_referenced
  delete_unused-Adds services target same canonical [] sub = λ l. ([], refl, tt)
  delete_unused-Adds services target same canonical (c ∷ cs) sub =
      let rest = delete_unused-Adds services target same canonical cs (λ d i. sub d (inr i)) in
      if_split (AddsAlways IsDue) (c == target) (λ e. rest)
        (λ other.
          if_split (AddsAlways IsDue)
            (is_workload_alias_referenced (all_hosts services) c namespace) (λ e. rest)
            (λ free.
              Adds-bind IsDue
                (delete_resource env "Deployment" namespace c
                  >> delete_resource env "Service" namespace c)
                (delete_unused env namespace (all_hosts services) target cs)
                (delete_both-Adds c (λ e call. (
                  sub c (inl refl),
                  call,
                  (target, canonical, λ e. ground (arith, eq_iff c target, other, e)),
                  (
                    services,
                    same,
                    λ host m.
                        not_any (λ h. host_matches_workload_alias h c namespace)
                          (all_hosts services) host free (MentionsAny-In host services m),
                  ),
                )))
                rest))

  after_hosts-Adds :
      (services : Result (List Payload))
      → env.virtual_services log namespace ≡ services
      → Adds IsDue log
          (after_hosts sprint env namespace
            (trim_space raw_name)
            (cleanup_candidates_for_strategy (trim_space raw_name) strategy)
            services
            log).1
  after_hosts-Adds (err e) same = ([], refl, tt)
  after_hosts-Adds (ok services) same =
      go (canonical_service_target sprint env log namespace (trim_space raw_name)) refl
    where
      go :
          (r : Result String)
          → canonical_service_target sprint env log namespace (trim_space raw_name) ≡ r
          → Adds IsDue log
              (continue r
                (λ canonical.
                  delete_unused env namespace
                    (all_hosts services)
                    canonical
                    (cleanup_candidates_for_strategy (trim_space raw_name) strategy))
                log).1
      go (err e) canonical = ([], refl, tt)
      go (ok target) canonical =
          delete_unused-Adds services target same canonical
            (cleanup_candidates_for_strategy (trim_space raw_name) strategy) (λ c i. i) log

  -- Every call of the clean-up deletes a workload of another strategy, or its service. No host in a
  -- virtual service of the namespace names that workload, and the service's own selector does not
  -- choose it.
  pub cleanup_unused_strategy_workloads-IsDue :
      (added : Log) × ((cleanup_unused_strategy_workloads sprint env namespace raw_name strategy
          log).1
        ≡ added ++ log)
      × All IsDue added
  unfolding cleanup_unused_strategy_workloads
  cleanup_unused_strategy_workloads-IsDue =
      if_split (λ (r : Result (Unit {0}) × Log). Adds IsDue log r.1)
        (trim_space raw_name == ""
          || is_empty (cleanup_candidates_for_strategy (trim_space raw_name) strategy))
        (λ e. ([], refl, tt)) (λ e. after_hosts-Adds (env.virtual_services log namespace) refl)
