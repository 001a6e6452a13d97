-- ===== src/Maintenance/Runtime/Combine.antt =====
-- What the combined status of a service says of its targets.
use releasea_worker.Prelude.{
  ℕ, ◌≤◌, ◌<◌, String, true, false, not, ◌||◌, List, [], ◌∷◌, ◌≡◌, refl, ap, ◌≢◌, ◌↔◌, ◌⊎◌, inl,
  inr, All, any, ◌==◌, eq_iff, arith, Bool-cases,
}
use releasea_worker.Maintenance.Runtime.{
  RuntimeIssue, no_issue, max_issue, status_severity, RuntimeAssessment, is_removed_shadow_target,
  Tally, tally_one, tally, conclude, combine_runtime_assessments,
}

-- A target that counts against the service: it has a status, is not healthy, and is not the shadow of a
-- removed canary or slot.
abbrev pub IsUnhealthy : RuntimeAssessment → Type 0
IsUnhealthy r = (r.status ≢ "") × (r.status ≢ "healthy") × (is_removed_shadow_target r ≡ false)

severity-pos : (s : String) → s ≢ "healthy" → 0 < status_severity s
unfolding status_severity
severity-pos s h = ground (arith, eq_iff s "healthy")

severity-healthy : status_severity "healthy" ≡ 0
unfolding status_severity
severity-healthy = refl

severity-pending : (status_severity "pending" ≡ 1) × (status_severity "degraded" ≡ 2)
unfolding status_severity
severity-pending = (refl, refl)

shadow_is_pending :
    (r : RuntimeAssessment) → is_removed_shadow_target r ≡ true → r.status ≡ "pending"
unfolding is_removed_shadow_target
shadow_is_pending r h = ground (arith, eq_iff r.status "pending")

-- The worst issue so far is a real one, with its status's severity.
abbrev IsSound : Tally → Type 0
IsSound t =
    (t.worst.severity ≡ 0)
    ⊎ ((t.worst.severity ≡ status_severity t.worst.status)
        × (0 < t.worst.severity)
        × (t.worst.status ≢ "healthy")
        × (t.worst.status ≢ ""))

tally_one-IsSound : (t : Tally) (r : RuntimeAssessment) → IsSound t → IsSound (tally_one t r)
unfolding tally_one max_issue
tally_one-IsSound t r h =
    ground (arith, eq_iff r.status "", eq_iff r.status "healthy", severity-pos r.status)

tally_one-grows :
    (t : Tally) (r : RuntimeAssessment) → t.worst.severity ≤ (tally_one t r).worst.severity
unfolding tally_one max_issue
tally_one-grows t r = ground arith

tally_one-counts :
    (t : Tally) (r : RuntimeAssessment)
    → IsUnhealthy r
    → status_severity r.status ≤ (tally_one t r).worst.severity
unfolding tally_one max_issue
tally_one-counts t r h = ground (arith, eq_iff r.status "", eq_iff r.status "healthy")

tally_one-keeps :
    (t : Tally) (r : RuntimeAssessment) → ¬ IsUnhealthy r → (tally_one t r).worst ≡ t.worst
unfolding tally_one
tally_one-keeps t r h = ground (arith, eq_iff r.status "", eq_iff r.status "healthy")

tally_one-flags :
    (t : Tally) (r : RuntimeAssessment)
    → ((tally_one t r).any_healthy ≡ (r.status == "healthy" || t.any_healthy))
      × ((tally_one t r).saw_target ≡ (not (r.status == "") || t.saw_target))
unfolding tally_one
tally_one-flags t r = ground (
  arith,
  eq_iff r.status "",
  eq_iff r.status "healthy",
  eq_iff "" "healthy",
  eq_iff "pending" "healthy",
  shadow_is_pending r,
)

tally-IsSound : (t : Tally) (rs : List RuntimeAssessment) → IsSound t → IsSound (tally t rs)
unfolding tally
tally-IsSound t [] h = h
tally-IsSound t (r ∷ rs) h = tally-IsSound (tally_one t r) rs (tally_one-IsSound t r h)

tally-grows :
    (t : Tally) (rs : List RuntimeAssessment) → t.worst.severity ≤ (tally t rs).worst.severity
unfolding tally
tally-grows t [] = omega arith
tally-grows t (r ∷ rs) = omega (arith, tally_one-grows t r, tally-grows (tally_one t r) rs)

tally-counts :
    (t : Tally) (rs : List RuntimeAssessment)
    → All (λ r. IsUnhealthy r → status_severity r.status ≤ (tally t rs).worst.severity) rs
unfolding tally
tally-counts t [] = tt
tally-counts t (r ∷ rs) = (
  λ h. omega (arith, tally_one-counts t r h, tally-grows (tally_one t r) rs),
  tally-counts (tally_one t r) rs,
)

tally-flags :
    (t : Tally) (rs : List RuntimeAssessment)
    → ((tally t rs).any_healthy ≡ (any (λ r. r.status == "healthy") rs || t.any_healthy))
      × ((tally t rs).saw_target ≡ (any (λ r. not (r.status == "")) rs || t.saw_target))
unfolding tally
tally-flags t [] = (refl, refl)
tally-flags t (r ∷ rs) = ground (arith, tally_one-flags t r, tally-flags (tally_one t r) rs)

tally-keeps :
    (t : Tally) (rs : List RuntimeAssessment)
    → All (λ r. ¬ IsUnhealthy r) rs
    → (tally t rs).worst ≡ t.worst
unfolding tally
tally-keeps t [] h = refl
tally-keeps t (r ∷ rs) (n, h) = cc (tally-keeps (tally_one t r) rs h, tally_one-keeps t r n)

none-IsUnhealthy :
    (n : ℕ) (rs : List RuntimeAssessment)
    → n ≡ 0
    → All (λ r. IsUnhealthy r → status_severity r.status ≤ n) rs
    → All (λ r. ¬ IsUnhealthy r) rs
none-IsUnhealthy n [] z h = tt
none-IsUnhealthy n (r ∷ rs) z (b, h) =
    (λ u. omega (arith, b u, severity-pos r.status u.1), none-IsUnhealthy n rs z h)

abbrev start : Tally
start = record { worst = no_issue; any_healthy = false; saw_target = false }

-- What a conclusion says of its tally.
conclude-healthy :
    (t : Tally)
    → IsSound t
    → ((conclude t).0 ≡ "healthy")
      ↔ ((t.saw_target ≡ true) × (t.worst.severity ≡ 0) × (t.any_healthy ≡ true))
unfolding conclude
conclude-healthy t h =
    ground (arith, eq_iff "" "healthy", eq_iff "pending" "healthy", eq_iff "degraded" "healthy")

conclude-severity :
    (t : Tally)
    → IsSound t
    → t.saw_target ≡ true
    → t.worst.severity ≤ status_severity (conclude t).0
unfolding conclude
conclude-severity t h saw = ground (arith, severity-pending)

conclude-silent : (t : Tally) → IsSound t → ((conclude t).0 ≡ "") ↔ (t.saw_target ≡ false)
unfolding conclude
conclude-silent t h = ground (arith, eq_iff "healthy" "", eq_iff "pending" "", eq_iff "degraded" "")

any-nonempty :
    (rs : List RuntimeAssessment)
    → (any (λ r. not (r.status == "")) rs ≡ false) ↔ All (λ r. r.status ≡ "") rs
any-nonempty [] = (λ h. tt, λ h. refl)
any-nonempty (r ∷ rs) = ground (arith, eq_iff r.status "", any-nonempty rs)

silent_counts :
    (n : ℕ) (rs : List RuntimeAssessment)
    → All (λ r. r.status ≡ "") rs
    → All (λ r. IsUnhealthy r → status_severity r.status ≤ n) rs
silent_counts n [] h = tt
silent_counts n (r ∷ rs) (e, h) = (λ u. absurd (u.0 e), silent_counts n rs h)

counts_mono :
    (n m : ℕ) (rs : List RuntimeAssessment)
    → n ≤ m
    → All (λ r. IsUnhealthy r → status_severity r.status ≤ n) rs
    → All (λ r. IsUnhealthy r → status_severity r.status ≤ m) rs
counts_mono n m [] le h = tt
counts_mono n m (r ∷ rs) le (b, h) = (λ u. omega (arith, b u), counts_mono n m rs le h)

healthy_nonempty :
    (rs : List RuntimeAssessment)
    → any (λ r. r.status == "healthy") rs ≡ true
    → any (λ r. not (r.status == "")) rs ≡ true
healthy_nonempty [] h = h
healthy_nonempty (r ∷ rs) h =
    ground (
      arith,
      eq_iff r.status "",
      eq_iff r.status "healthy",
      eq_iff "" "healthy",
      healthy_nonempty rs,
    )

-- The combined status is at least as severe as that of every target that counts against the service:
-- one target in a crash loop makes the service's status as severe as a crash loop.
pub combine_runtime_assessments-severity :
    (results : List RuntimeAssessment)
    → All
        (λ r.
          IsUnhealthy r
          → status_severity r.status ≤ status_severity (combine_runtime_assessments results).0)
        results
unfolding combine_runtime_assessments
combine_runtime_assessments-severity results =
    let t = tally start results in
    elim (Bool-cases t.saw_target) [
      | inl saw ↦
          counts_mono _ _ results (conclude-severity t (tally-IsSound start results (inl refl)) saw)
            (tally-counts start results)
      | inr unseen ↦
          silent_counts _ results
            ((any-nonempty results).0 (ground (arith, (tally-flags start results).1)))
    ]

-- A service is reported healthy exactly when some target is healthy and no target counts against it;
-- nothing is reported exactly when no target has a status.
pub combine_runtime_assessments-healthy :
    (results : List RuntimeAssessment)
    → (((combine_runtime_assessments results).0 ≡ "healthy")
        ↔ ((any (λ r. r.status == "healthy") results ≡ true) × All (λ r. ¬ IsUnhealthy r) results))
      × (((combine_runtime_assessments results).0 ≡ "") ↔ All (λ r. r.status ≡ "") results)
unfolding combine_runtime_assessments
combine_runtime_assessments-healthy results =
    let t = tally start results in
    let sound = tally-IsSound start results (inl refl) in
    let (healthy, saw) = tally-flags start results in
    (
      (
        λ e.
            let (_, zero_worst, some_healthy) = (conclude-healthy t sound).0 e in
            (
              ground (arith, healthy),
              none-IsUnhealthy _ results zero_worst (tally-counts start results),
            ),
        λ h. (conclude-healthy t sound).1 (
          ground (arith, saw, healthy_nonempty results h.0),
          ap (λ (w : RuntimeIssue). w.severity) (tally-keeps start results h.1),
          ground (arith, healthy),
        ),
      ),
      (
        λ e. (any-nonempty results).0 (ground (arith, saw, (conclude-silent t sound).0 e)),
        λ a. (conclude-silent t sound).1 (ground (arith, saw, (any-nonempty results).1 a)),
      ),
    )
