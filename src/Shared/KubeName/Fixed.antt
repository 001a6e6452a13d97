-- ===== src/Shared/KubeName/Fixed.antt =====
-- Normalising a name again, and cutting it to the length of a namespace.
use releasea_worker.Prelude.{
  ℕ, zero, suc, ◌≤◌, ltb, Char, String, true, false, ◌≡◌, refl, ◌≢◌, ◌==◌, eq_iff, arith, inl, inr,
  ◌⊎◌, ◌↔◌, if_keeps, if_split, map_text, trim, trim_left, trim_right, join_char, trim_space,
  is_space, lower_char, to_lower, contains, size,
}
use Prim.Native.String.{[], ◌∷◌}
use mathlib.Core.Path.{subst}
use releasea_worker.Shared.KubeName.{
  is_dash, is_kube_char, kube_char, dash_for, squeeze_all, to_kube_name, default_namespace, first,
  normalize_namespace,
}
use releasea_worker.Shared.KubeName.Laws.{
  IsKube, EndsSolid, IsName, to_kube_name-IsName, contains-to_kube_name, trim-IsName,
}

-- A function that changes no character of a name changes no name.
map_text_of_IsKube :
    (f : Char → Char) (s : String)
    → ((c : Char) → is_kube_char c ≡ true → f c ≡ c)
    → IsKube s
    → map_text f s ≡ s
unfolding map_text
map_text_of_IsKube f [] h k = refl
map_text_of_IsKube f (c ∷ s) h (i, k) = rw (h c i, map_text_of_IsKube f s h k)

lower_char_of_kube : (c : Char) → is_kube_char c ≡ true → lower_char c ≡ c
unfolding lower_char
lower_char_of_kube c h = ground arith

dash_for_of_kube :
    (n : ℕ) (c : Char) → (n ≡ b'_') ⊎ (n ≡ b' ') → is_kube_char c ≡ true → dash_for n c ≡ c
unfolding dash_for
dash_for_of_kube n c e h = ground arith

kube_char_of_kube : (c : Char) → is_kube_char c ≡ true → kube_char c ≡ c
unfolding kube_char
kube_char_of_kube c h = rw h

space_of_kube : (c : Char) → is_kube_char c ≡ true → is_space c ≡ false
unfolding is_space
space_of_kube c h = ground arith

trim_right_of_IsKube : (s : String) → IsKube s → trim_right is_space s ≡ s
unfolding trim_right
trim_right_of_IsKube [] h = refl
trim_right_of_IsKube (c ∷ []) (h, k) = rw (space_of_kube c h)
trim_right_of_IsKube (c ∷ d ∷ s) (h, k) = rw (trim_right_of_IsKube (d ∷ s) k)

trim_space_of_IsKube : (s : String) → IsKube s → trim_space s ≡ s
unfolding trim_space trim trim_left
trim_space_of_IsKube [] h = trim_right_of_IsKube [] tt
trim_space_of_IsKube (c ∷ s) h = rw (space_of_kube c h.0) (trim_right_of_IsKube (c ∷ s) h)

trim_right_of_EndsSolid : (s : String) → EndsSolid s → trim_right is_dash s ≡ s
unfolding trim_right
trim_right_of_EndsSolid [] h = refl
trim_right_of_EndsSolid (c ∷ []) h = rw h
trim_right_of_EndsSolid (c ∷ d ∷ s) h = rw (trim_right_of_EndsSolid (d ∷ s) h)

trim_of_IsName : (s : String) → IsName s → trim is_dash s ≡ s
unfolding trim trim_left
trim_of_IsName [] h = trim_right_of_EndsSolid [] tt
trim_of_IsName (c ∷ s) h = rw (h.starts) (trim_right_of_EndsSolid (c ∷ s) h.ends)

squeeze_all_of_contains : (n : ℕ) (s : String) → contains s "--" ≡ false → squeeze_all n s ≡ s
unfolding squeeze_all
squeeze_all_of_contains zero s h = refl
squeeze_all_of_contains (suc n) s h = rw h

to_kube_name_of_IsName : (s : String) → IsName s → contains s "--" ≡ false → to_kube_name s ≡ s
unfolding to_kube_name to_lower
to_kube_name_of_IsName s h n =
    rw
      (
        map_text_of_IsKube lower_char s lower_char_of_kube h.chars,
        trim_space_of_IsKube s h.chars,
        map_text_of_IsKube (dash_for b'_') s (λ c. dash_for_of_kube b'_' c (inl refl)) h.chars,
        map_text_of_IsKube (dash_for b' ') s (λ c. dash_for_of_kube b' ' c (inr refl)) h.chars,
        map_text_of_IsKube kube_char s kube_char_of_kube h.chars,
        trim_of_IsName s h,
        squeeze_all_of_contains (size s) s n,
      )
      refl

-- A name consists of small letters, digits and dashes, neither starts nor ends with a dash, and has no
-- two dashes in a row; a text is its own name exactly when it is of that form.
pub to_kube_name_lem :
    (value : String)
    → IsName (to_kube_name value)
      × (contains (to_kube_name value) "--" ≡ false)
      × ((to_kube_name value ≡ value) ↔ (IsName value × (contains value "--" ≡ false)))
to_kube_name_lem value = (
  to_kube_name-IsName value,
  contains-to_kube_name value,
  (
    λ e. (
      subst IsName e (to_kube_name-IsName value),
      subst (λ t. contains t "--" ≡ false) e (contains-to_kube_name value),
    ),
    λ h. to_kube_name_of_IsName value h.0 h.1,
  ),
)

pub first-IsKube : (n : ℕ) (s : String) → IsKube s → IsKube (first n s)
unfolding first
first-IsKube zero s h = tt
first-IsKube (suc n) [] h = tt
first-IsKube (suc n) (c ∷ s) h = (h.0, first-IsKube n s h.1)

pub size-first : (n : ℕ) (s : String) → size (first n s) ≤ n
unfolding first
size-first zero s = omega arith
size-first (suc n) [] = omega arith
size-first (suc n) (c ∷ s) = omega (arith, size-first n s)

size-trim_left : (s : String) → size (trim_left is_dash s) ≤ size s
unfolding trim_left
size-trim_left [] = omega arith
size-trim_left (c ∷ s) = ground (arith, size-trim_left s)

size-join_char : (c : Char) (s : String) → size (join_char is_dash c s) ≤ suc (size s)
size-join_char c [] = if_keeps (λ t. size t ≤ 1) (is_dash c) (omega arith) (omega arith)
size-join_char c (d ∷ s) = omega arith

size-trim_right : (s : String) → size (trim_right is_dash s) ≤ size s
unfolding trim_right
size-trim_right [] = omega arith
size-trim_right (c ∷ s) = omega (arith, size-join_char c (trim_right is_dash s), size-trim_right s)

pub size-trim : (s : String) → size (trim is_dash s) ≤ size s
unfolding trim
size-trim s = omega (arith, size-trim_right (trim_left is_dash s), size-trim_left s)

-- What Kubernetes asks of a namespace.
pub record IsLabel (s : String) : Type 0 where
  pub name : IsName s
  pub full : s ≢ ""
  pub short : size s ≤ 63

default-IsLabel : IsLabel default_namespace
default-IsLabel = record {
  name = record { chars = ground arith; starts = refl; ends = refl };
  full = ground (arith, eq_iff default_namespace "");
  short = omega arith;
}

-- Whatever the given text, the namespace is a label that Kubernetes takes: between one and 63 small
-- letters, digits and dashes, with no dash at either end.
pub normalize_namespace-IsLabel : (value : String) → IsLabel (normalize_namespace value)
unfolding normalize_namespace
normalize_namespace-IsLabel value =
    let name = to_kube_name value in
    let cut = trim is_dash (first 63 name) in
    let named = to_kube_name-IsName value in
    if_split IsLabel (name == "") (λ e. default-IsLabel)
      (λ n.
        if_split IsLabel (ltb 63 (size name))
          (λ long.
            if_split IsLabel (cut == "") (λ e. default-IsLabel)
              (λ m. record {
                name = trim-IsName (first 63 name) (first-IsKube 63 name named.chars);
                full = λ e. ground (arith, eq_iff cut "");
                short = omega (arith, size-trim (first 63 name), size-first 63 name);
              }))
          (λ fits. record {
            name = named;
            full = λ e. ground (arith, eq_iff name "");
            short = ground arith;
          }))
