-- ===== src/Shared/KubeName.antt =====
-- internal/platform/shared/kube_name_format.go: names that Kubernetes takes. The loop that squeezes
-- double dashes recurses on fuel, and the text's length is enough of it.
pub mod Laws
pub mod Fixed
use releasea_worker.Prelude.{
  ℕ, zero, suc, ltb, leb, code, Char, String, Bool, not, ◌&&◌, ◌||◌, ◌==◌, ◌=ℕ◌, if◌then◌else◌,
  map_text, trim, trim_space, to_lower, contains, size, ◌≡◌, refl,
}
use Prim.Native.String.{[], ◌∷◌}

abbrev pub is_dash : Char → Bool
is_dash c = code c =ℕ b'-'

-- A small letter, a digit or a dash.
abbrev pub is_kube_char : Char → Bool
is_kube_char c =
    (leb b'a' (code c) && leb (code c) b'z')
    || (leb b'0' (code c) && leb (code c) b'9')
    || is_dash c

-- The function that `strings.Map` applies.
unfoldable pub kube_char : Char → Char
kube_char c = if is_kube_char c then c else "-"

-- `strings.ReplaceAll` of one character by a dash.
unfoldable pub dash_for : ℕ → Char → Char
dash_for n c = if code c =ℕ n then "-" else c

-- `strings.ReplaceAll(value, "--", "-")`.
unfoldable pub squeeze : String → String
squeeze [] = []
squeeze (c ∷ []) = c ∷ []
squeeze (c ∷ d ∷ s) =
    let skipped = squeeze s in
    let rest = squeeze (d ∷ s) in if is_dash c && is_dash d then "-" ∷ skipped else c ∷ rest

unfoldable pub squeeze_all : ℕ → String → String
squeeze_all zero s = s
squeeze_all (suc n) s = let rest = squeeze_all n (squeeze s) in if contains s "--" then rest else s

unfoldable pub to_kube_name : String → String
to_kube_name value =
    let lowered = trim_space (to_lower value) in
    let dashed = map_text (dash_for b' ') (map_text (dash_for b'_') lowered) in
    let trimmed = trim is_dash (map_text kube_char dashed) in squeeze_all (size trimmed) trimmed

abbrev pub default_namespace : String
default_namespace = "releasea-apps-prod"

-- The first characters of a text.
unfoldable pub first : ℕ → String → String
first zero s = []
first (suc n) [] = []
first (suc n) (c ∷ s) = c ∷ first n s

unfoldable pub normalize_namespace : String → String
normalize_namespace value =
    let name = to_kube_name value in
    let cut = trim is_dash (first 63 name) in
    if name == ""
    then default_namespace
    else if ltb 63 (size name)
    then (if cut == "" then default_namespace else cut)
    else name

name_tests :
    (to_kube_name " My_Shop  (v2)! " ≡ "my-shop-v2")
    × (normalize_namespace "__" ≡ default_namespace)
unfolding to_kube_name normalize_namespace squeeze squeeze_all first dash_for kube_char map_text
    trim trim_space to_lower contains
name_tests = (refl, refl)
