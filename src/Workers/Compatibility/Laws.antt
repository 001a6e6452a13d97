-- ===== src/Workers/Compatibility/Laws.antt =====
-- When a worker may take an operation, said without the code's tests.
use releasea_worker.Prelude.{
  String, true, ◌&&◌, ◌||◌, List, [], ◌∷◌, map, ◌≡◌, refl, ◌≢◌, ◌↔◌, ◌⊎◌, inl, inr, In, eq_iff,
  arith, Bool-cases, trim_space, is_empty,
}
use releasea_worker.Models.Payload.{payload_string, payload_string_slice}
use releasea_worker.Models.Operation.{
  OperationPayload, Config, type_service_delete, type_rule_delete,
}
use releasea_worker.Shared.Namespace.{resolve_app_namespace}
use releasea_worker.Shared.Unique.{member, unique_strings}
use releasea_worker.Shared.Unique.Laws.{member-In, In-member, unique_strings_lem}
use releasea_worker.Workers.Compatibility.{
  operation_allows_environment_fallback, normalize_worker_tags, has_all_tags,
  operation_compatible_with_worker,
}

has_all_tags_sound :
    (available required : List String)
    → has_all_tags available required ≡ true
    → (t : String) → In t required
    → In t available
unfolding has_all_tags
has_all_tags_sound available [] h t i = absurd i
has_all_tags_sound available (tag ∷ required) h t i = ground (
  arith,
  member-In t available,
  member-In tag available,
  has_all_tags_sound available required (and_right h) t,
)
  where
    and_right :
        (member tag available && has_all_tags available required) ≡ true
        → has_all_tags available required ≡ true
    and_right e = ground arith

has_all_tags_complete :
    (available required : List String)
    → ((t : String) → In t required → In t available)
    → has_all_tags available required ≡ true
unfolding has_all_tags
has_all_tags_complete available [] h = refl
has_all_tags_complete available (tag ∷ required) h = ground (
  arith,
  In-member tag available (h tag (inl refl)),
  has_all_tags_complete available required (λ t i. h t (inr i)),
)

tags-In :
    (x : String) (tags : List String)
    → In x (normalize_worker_tags tags) ↔ ((x ≢ "") × In x (map trim_space tags))
unfolding normalize_worker_tags unique_strings
tags-In x tags = (unique_strings_lem tags).0 x

module _ (cfg : Config) (op : OperationPayload) where
  -- The operation names no environment, may run from any, or is of the worker's namespace.
  abbrev pub MatchesEnvironment : Type 0
  MatchesEnvironment =
      (trim_space (payload_string op.payload "environment") ≡ "")
      ⊎ (((op.kind ≡ type_service_delete) ⊎ (op.kind ≡ type_rule_delete))
          ⊎ (resolve_app_namespace cfg.namespace_overrides cfg.environment
              ≡ resolve_app_namespace cfg.namespace_overrides
                  (trim_space (payload_string op.payload "environment"))))

  -- The operation prefers no cluster, or this one.
  abbrev pub MatchesCluster : Type 0
  MatchesCluster =
      (trim_space (payload_string op.payload "preferredWorkerCluster") ≡ "")
      ⊎ (trim_space cfg.cluster ≡ trim_space (payload_string op.payload "preferredWorkerCluster"))

  -- Each tag that the operation asks for is one of the worker's, up to white space.
  abbrev pub MatchesTags : Type 0
  MatchesTags =
      (t : String)
      → t ≢ ""
      → In t (map trim_space (payload_string_slice op.payload "workerTags"))
      → In t (map trim_space cfg.tags)

  abbrev required : List String
  required = normalize_worker_tags (payload_string_slice op.payload "workerTags")

  abbrev available : List String
  available = normalize_worker_tags cfg.tags

  abbrev HasTags : Type 0
  HasTags = (t : String) → In t required → In t available

  HasTags_iff : HasTags ↔ MatchesTags
  HasTags_iff = (
    λ h t full i.
        ((tags-In t cfg.tags).0
          (h t ((tags-In t (payload_string_slice op.payload "workerTags")).1 (full, i)))).1,
    λ h t i.
        let (full, j) = (tags-In t (payload_string_slice op.payload "workerTags")).0 i in
        (tags-In t cfg.tags).1 (full, h t full j),
  )

  no_tags : (tags : List String) → is_empty tags ≡ true → (t : String) → In t tags → In t available
  no_tags [] h t i = absurd i
  no_tags (x ∷ xs) h t i = cc

  tags_tested : ((is_empty required || has_all_tags available required) ≡ true) ↔ HasTags
  tags_tested = (
    λ h. elim (Bool-cases (is_empty required)) [
      | inl e ↦ no_tags required e
      | inr e ↦ has_all_tags_sound available required (ground arith)
    ],
    λ h. ground (arith, has_all_tags_complete available required h),
  )

  tests_iff : ((operation_compatible_with_worker cfg op).0 ≡ true) ↔ (
      MatchesEnvironment
      × MatchesCluster
      × ((is_empty required || has_all_tags available required) ≡ true))
  unfolding operation_compatible_with_worker operation_allows_environment_fallback
  tests_iff =
      let environment = trim_space (payload_string op.payload "environment") in
      let cluster = trim_space (payload_string op.payload "preferredWorkerCluster") in
      ground (
        arith,
        eq_iff environment "",
        eq_iff op.kind type_service_delete,
        eq_iff op.kind type_rule_delete,
        eq_iff (resolve_app_namespace cfg.namespace_overrides cfg.environment)
            (resolve_app_namespace cfg.namespace_overrides environment),
        eq_iff cluster "",
        eq_iff (trim_space cfg.cluster) cluster,
      )

  -- A worker takes an operation exactly when the operation's environment, preferred cluster and
  -- required tags all fit it.
  pub operation_compatible_with_worker_iff :
      ((operation_compatible_with_worker cfg op).0 ≡ true)
      ↔ (MatchesEnvironment × MatchesCluster × MatchesTags)
  operation_compatible_with_worker_iff = (
    λ h. let (e, c, t) = tests_iff.0 h in (e, c, HasTags_iff.0 (tags_tested.0 t)),
    λ h. let (e, c, t) = h in tests_iff.1 (e, c, tags_tested.1 (HasTags_iff.1 t)),
  )
