-- ===== src/Rules/Names/Labels.antt =====
-- The names of a rule's policies and of its edge route are names that Kubernetes takes.
use releasea_worker.Prelude.{
  leb, String, false, ◌⧺◌, ◌≡◌, refl, ◌≢◌, ◌==◌, eq_iff, arith, if_keeps, if_split, trim, trim_left,
  trim_right, join_char, size, StartsKept, Char,
}
use Prim.Native.String.{[], ◌∷◌}
use text.Mathlib.TextLemmas.{nil-append, cons-append}
use mathlib.Core.Path.{subst}
use releasea_worker.Shared.KubeName.{is_dash, first, to_kube_name}
use releasea_worker.Shared.KubeName.Laws.{
  IsKube, EndsSolid, IsName, to_kube_name-IsName, trim-IsName,
}
use releasea_worker.Shared.KubeName.Fixed.{IsLabel, first-IsKube, size-first, size-trim}
use releasea_worker.Rules.Names.{
  or_default, cut_name, build_security_resource_name, build_deny_policy_name, edge_route_name,
}

-- The first character is there, and no dash.
abbrev StartsSolid : String → Type 0
StartsSolid [] = ⊥
StartsSolid (c ∷ s) = is_dash c ≡ false

abbrev IsFull : String → Type 0
IsFull [] = ⊥
IsFull (c ∷ s) = Unit

-- What a part of a name is.
record IsPart (s : String) : Type 0 where
  chars : IsKube s
  starts : StartsSolid s
  ends : EndsSolid s

IsKube-append : (s t : String) → IsKube s → IsKube t → IsKube (s ⧺ t)
IsKube-append [] t h k = rw (nil-append t) k
IsKube-append (c ∷ s) t (h, i) k = rw (cons-append c s t) (h, IsKube-append s t i k)

StartsSolid-append : (s t : String) → StartsSolid s → StartsSolid (s ⧺ t)
StartsSolid-append [] t h = absurd h
StartsSolid-append (c ∷ s) t h = rw (cons-append c s t) h

EndsSolid-append : (s t : String) → IsFull t → EndsSolid t → EndsSolid (s ⧺ t)
EndsSolid-append [] t f h = rw (nil-append t) h
EndsSolid-append (c ∷ []) [] f h = absurd f
EndsSolid-append (c ∷ []) (d ∷ t) f h = rw (cons-append c [] (d ∷ t), nil-append (d ∷ t)) h
EndsSolid-append (c ∷ d ∷ s) t f h =
    rw (cons-append c (d ∷ s) t, cons-append d s t)
      (rw (cons-append d s t) at (EndsSolid-append (d ∷ s) t f h))

IsFull-of_StartsSolid : (s : String) → StartsSolid s → IsFull s
IsFull-of_StartsSolid [] h = absurd h
IsFull-of_StartsSolid (c ∷ s) h = tt

-- Two parts with a text of dashes, small letters and digits between them.
IsPart-append : (s m t : String) → IsPart s → IsKube m → IsPart t → IsPart (s ⧺ m ⧺ t)
IsPart-append s m t h k i = record {
  chars = IsKube-append s (m ⧺ t) h.chars (IsKube-append m t k i.chars);
  starts = StartsSolid-append s (m ⧺ t) h.starts;
  ends =
      EndsSolid-append s (m ⧺ t) (IsFull-append m t (IsFull-of_StartsSolid t i.starts))
        (EndsSolid-append m t (IsFull-of_StartsSolid t i.starts) i.ends);
}
  where
    IsFull-append : (m t : String) → IsFull t → IsFull (m ⧺ t)
    IsFull-append [] t f = rw (nil-append t) f
    IsFull-append (c ∷ m) t f = rw (cons-append c m t) tt

IsPart-of_name : (s : String) → IsName s → s ≢ "" → IsPart s
IsPart-of_name [] h f = absurd (f refl)
IsPart-of_name (c ∷ s) h f = record { chars = h.chars; starts = h.starts; ends = h.ends }

or_default-IsPart :
    (s fallback : String) → IsName s → IsPart fallback → IsPart (or_default s fallback)
or_default-IsPart s fallback h k =
    if_split IsPart (s == "") (λ e. k)
      (λ n. IsPart-of_name s h (λ e. ground (arith, eq_iff s "", n, e)))

join_char-IsFull : (c : Char) (s : String) → is_dash c ≡ false → IsFull (join_char is_dash c s)
join_char-IsFull c [] h = rw h tt
join_char-IsFull c (d ∷ s) h = tt

-- A name that starts solid is not empty once it is cut.
cut-IsFull : (s : String) → StartsSolid s → IsFull (trim is_dash (first 63 s))
unfolding trim trim_left trim_right first
cut-IsFull [] h = absurd h
cut-IsFull (c ∷ s) h = rw h (join_char-IsFull c _ h)

not_empty : (s : String) → IsFull s → s ≢ ""
not_empty s f e = absurd (subst IsFull e f)

cut_name-IsLabel : (name : String) → IsPart name → IsLabel (cut_name name)
unfolding cut_name
cut_name-IsLabel name h =
    if_split IsLabel (leb (size name) 63)
      (λ fits. record {
        name = record { chars = h.chars; starts = starts_kept name h.starts; ends = h.ends };
        full = not_empty name (IsFull-of_StartsSolid name h.starts);
        short = ground arith;
      })
      (λ long. record {
        name = trim-IsName (first 63 name) (first-IsKube 63 name h.chars);
        full = not_empty _ (cut-IsFull name h.starts);
        short = omega (arith, size-trim (first 63 name), size-first 63 name);
      })
  where
    starts_kept : (s : String) → StartsSolid s → StartsKept is_dash s
    starts_kept [] h = tt
    starts_kept (c ∷ s) h = h

deny_chars : IsKube "-deny-"
deny_chars = ground arith

edge_chars : IsKube "edge-"
edge_chars = ground arith

service_word : IsPart "service"
service_word = record { chars = ground arith; starts = refl; ends = refl }

rule_word : IsPart "rule"
rule_word = record { chars = ground arith; starts = refl; ends = refl }

or_default-IsName :
    (rule_name rule_id : String)
    → IsName (or_default (to_kube_name rule_name) (to_kube_name rule_id))
or_default-IsName rule_name rule_id =
    if_keeps IsName (to_kube_name rule_name == "") (to_kube_name-IsName rule_id)
      (to_kube_name-IsName rule_name)

part :
    (value fallback : String) → IsPart fallback → IsPart (or_default (to_kube_name value) fallback)
part value fallback k =
    or_default-IsPart (to_kube_name value) fallback (to_kube_name-IsName value) k

-- Whatever the names of the service and of the rule, the names of its security resources, of its deny
-- policy and of its edge route are labels that Kubernetes takes: of between one and 63 small letters,
-- digits and dashes, with no dash at either end. The suffix of a security resource's name has to be of
-- that form. The name of its virtual service, which is not cut, is not among them.
pub resource_names-IsLabel :
    (service_name rule_name rule_id suffix : String)
    → IsLabel suffix
    → IsLabel (build_security_resource_name service_name rule_id suffix)
      × IsLabel (build_deny_policy_name service_name rule_name rule_id)
      × IsLabel (edge_route_name rule_id)
unfolding build_security_resource_name build_deny_policy_name edge_route_name
resource_names-IsLabel service_name rule_name rule_id suffix h =
    let dash : IsKube "-" = (refl, tt) in
    let service = part service_name "service" service_word in
    let rule = part rule_id "rule" rule_word in
    let named = or_default-IsPart _ "rule" (or_default-IsName rule_name rule_id) rule_word in
    (
      cut_name-IsLabel _ (
          IsPart-append _ "-" _ service dash
            (IsPart-append _ "-" suffix rule dash (IsPart-of_name suffix h.name h.full))),
      cut_name-IsLabel _ (IsPart-append _ "-deny-" _ service deny_chars named),
      cut_name-IsLabel _ (record {
        chars = IsKube-append "edge-" _ edge_chars rule.chars;
        starts = StartsSolid-append "edge-" _ refl;
        ends = EndsSolid-append "edge-" _ (IsFull-of_StartsSolid _ rule.starts) rule.ends;
      }),
    )
