-- ===== src/Deploys/Canary/Hosts.antt =====
-- The hosts of a service and of its canary in the cluster.
use releasea_worker.Prelude.{
  Char, code, String, Bool, true, false, ◌||◌, ◌⧺◌, ◌==◌, ◌=ℕ◌, ◌≡◌, refl, sym, ap, ◌∙◌, eq_iff,
  eq_refl, arith, if_keeps, ◌≢◌, Bool-cases, inl, inr, map_text, trim, trim_left, trim_right,
  trim_space, is_space, lower_char, to_lower,
}
use Prim.Native.String.{[], ◌∷◌}
use text.Mathlib.TextLemmas.{
  nil-append, cons-append, append_assoc, append_cancel_left, append-ne-nil_of_right_ne-nil,
  append-eq-nil_iff, cons≢nil, head-eq_of_cons-eq,
}
use releasea_worker.Models.Payload.{Value}
use releasea_worker.Shared.KubeName.{is_kube_char}
use releasea_worker.Shared.KubeName.Laws.{IsKube}
use releasea_worker.Rules.Names.{local_host}
use releasea_worker.Rules.Guard.{host_matches_workload_alias}
use releasea_worker.Deploys.Canary.{is_canary, stable_host}

abbrev is_host_char : Char → Bool
is_host_char c = is_kube_char c || code c =ℕ b'.'

-- Small letters, digits, dashes and dots.
abbrev pub IsHost : String → Type 0
IsHost [] = Unit
IsHost (c ∷ s) = (is_host_char c ≡ true) × IsHost s

IsHost-of_IsKube : (s : String) → IsKube s → IsHost s
IsHost-of_IsKube [] h = tt
IsHost-of_IsKube (c ∷ s) h = (rw h.0 refl, IsHost-of_IsKube s h.1)

IsHost-append : (s t : String) → IsHost s → IsHost t → IsHost (s ⧺ t)
IsHost-append [] t h k = rw (nil-append t) k
IsHost-append (c ∷ s) t h k = rw (cons-append c s t) (h.0, IsHost-append s t h.1 k)

lower_char_of_host : (c : Char) → is_host_char c ≡ true → lower_char c ≡ c
unfolding lower_char
lower_char_of_host c h = ground arith

space_of_host : (c : Char) → is_host_char c ≡ true → is_space c ≡ false
unfolding is_space
space_of_host c h = ground arith

to_lower_of_IsHost : (s : String) → IsHost s → to_lower s ≡ s
unfolding to_lower map_text
to_lower_of_IsHost [] h = refl
to_lower_of_IsHost (c ∷ s) h = rw (lower_char_of_host c h.0, to_lower_of_IsHost s h.1) refl

trim_right_of_IsHost : (s : String) → IsHost s → trim_right is_space s ≡ s
unfolding trim_right
trim_right_of_IsHost [] h = refl
trim_right_of_IsHost (c ∷ []) h = rw (space_of_host c h.0) refl
trim_right_of_IsHost (c ∷ d ∷ s) h = rw (trim_right_of_IsHost (d ∷ s) h.1) refl

pub trim_space_of_IsHost : (s : String) → IsHost s → trim_space s ≡ s
unfolding trim_space trim trim_left
trim_space_of_IsHost [] h = trim_right_of_IsHost [] tt
trim_space_of_IsHost (c ∷ s) h = rw (space_of_host c h.0) (trim_right_of_IsHost (c ∷ s) h)

normal : (s : String) → IsHost s → to_lower (trim_space s) ≡ s
normal s h = rw (trim_space_of_IsHost s h) (to_lower_of_IsHost s h)

differ : (s t : String) → s ≢ t → (s == t) ≡ false
differ s t h = elim (Bool-cases (s == t)) [ inl e ↦ absurd (h ((eq_iff s t).0 e)) | inr e ↦ e ]

dot_dash : (r q : String) → ("." ⧺ r) ≢ ("-canary" ⧺ q)
dot_dash r q e =
    let heads = head-eq_of_cons-eq (sym (cons-append "." [] r) ∙ e ∙ cons-append "-" "canary" q) in
    omega (arith, ap code heads)

-- The host to which a rule leads the canary's share.
abbrev pub host_of_canary : String → String → String
host_of_canary service_name namespace = local_host (service_name ⧺ "-canary") namespace

module _ (sprint : Value → String) (service_name namespace : String) (service : IsKube service_name)
    (space : IsKube namespace) where
  IsHost-text : (rest : String) → IsHost rest → IsHost (service_name ⧺ rest)
  IsHost-text rest h = IsHost-append service_name rest (IsHost-of_IsKube service_name service) h

  in_namespace : IsHost (namespace ⧺ ".svc.cluster.local")
  in_namespace =
      IsHost-append namespace ".svc.cluster.local" (IsHost-of_IsKube namespace space) (ground arith)

  pub stable-IsHost : IsHost (stable_host sprint service_name namespace)
  stable-IsHost =
      IsHost-text ("." ⧺ namespace ⧺ ".svc.cluster.local")
        (IsHost-append "." (namespace ⧺ ".svc.cluster.local") (ground arith) in_namespace)

  canary-IsHost : IsHost (service_name ⧺ "-canary")
  canary-IsHost = IsHost-text "-canary" (ground arith)

  apart :
      (q : String)
      → (stable_host sprint service_name namespace == service_name ⧺ "-canary" ⧺ q) ≡ false
  apart q = differ _ _ (λ e. dot_dash _ q (append_cancel_left service_name _ ("-canary" ⧺ q) e))

  -- The stable host is no name of the canary.
  pub stable_host-lem :
      is_canary sprint service_name namespace (stable_host sprint service_name namespace) ≡ false
  unfolding host_matches_workload_alias
  stable_host-lem =
      rw
        (
          normal (stable_host sprint service_name namespace) stable-IsHost,
          normal (service_name ⧺ "-canary") canary-IsHost,
          normal namespace (IsHost-of_IsKube namespace space),
          append_assoc service_name "-canary" ("." ⧺ namespace),
          append_assoc service_name "-canary" ("." ⧺ namespace ⧺ ".svc"),
          append_assoc service_name "-canary" ("." ⧺ namespace ⧺ ".svc.cluster.local"),
          apart ("." ⧺ namespace),
          apart ("." ⧺ namespace ⧺ ".svc"),
          apart ("." ⧺ namespace ⧺ ".svc.cluster.local"),
          apart "",
        )
        (if_keeps (λ b. b ≡ false) _ refl refl)

  abbrev canary_host : String
  canary_host = host_of_canary service_name namespace

  pub canary_host-IsHost : IsHost canary_host
  canary_host-IsHost =
      IsHost-append (service_name ⧺ "-canary") ("." ⧺ namespace ⧺ ".svc.cluster.local")
        canary-IsHost
        (IsHost-append "." (namespace ⧺ ".svc.cluster.local") (ground arith) in_namespace)

  -- It is a name of the canary.
  pub canary_host-lem : is_canary sprint service_name namespace canary_host ≡ true
  unfolding host_matches_workload_alias
  canary_host-lem =
      rw
        (
          normal canary_host canary_host-IsHost,
          normal (service_name ⧺ "-canary") canary-IsHost,
          normal namespace (IsHost-of_IsKube namespace space),
          eq_refl canary_host,
          differ canary_host "" (λ e. filled ((append-eq-nil_iff).0 e).0),
          differ (service_name ⧺ "-canary") "" filled,
        )
        (ground arith)
    where
      filled : (service_name ⧺ "-canary") ≢ ""
      filled = append-ne-nil_of_right_ne-nil service_name (λ e. cons≢nil e)

  pub stable_host-full : (stable_host sprint service_name namespace == "") ≡ false
  stable_host-full =
      differ _ "" (
        append-ne-nil_of_right_ne-nil service_name (λ e. cons≢nil (sym (cons-append "." [] _) ∙ e)))
