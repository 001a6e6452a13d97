-- ===== src/Prelude/Text.antt =====
-- Go's `strings` functions over the native texts. A text is its code points; `strings.ToLower` and
-- `strings.EqualFold` change the ASCII letters only, and the names, statuses and identifiers that the
-- worker compares are ASCII.
pub mod Trim
use Prim.Native.Nat.{ℕ, zero, suc, ◌+◌, ◌-◌}
use Prim.Native.Char.{Char, code}
use Prim.Native.String
use Prim.Native.String.{String, [], ◌∷◌}
use mathlib.Core.Path.{◌≡◌, refl}
use mathlib.Core.Bool.{Bool, true, false, ◌&&◌, ◌||◌}
use mathlib.Core.List
use mathlib.Core.List.{List}
use text.Mathlib.Text.{◌==◌}
use releasea_worker.Prelude.Tests.{ltb, leb, ◌=ℕ◌, if◌then◌else◌}

infixr 66 ◌⧺◌
abbrev pub ◌⧺◌ : String → String → String
s ⧺ t = String.◌++◌ s t

-- `unicode.IsSpace`.
unfoldable pub is_space : Char → Bool
is_space c =
    (leb 9 (code c) && leb (code c) 13)
    || (code c =ℕ 32 || code c =ℕ 0x85 || code c =ℕ 0xa0 || code c =ℕ 0x1680)
    || (leb 0x2000 (code c) && leb (code c) 0x200a)
    || (code c =ℕ 0x2028 || code c =ℕ 0x2029 || code c =ℕ 0x202f || code c =ℕ 0x205f)
    || code c =ℕ 0x3000

char_or : String → ℕ → Char → Char
char_or [] i d = d
char_or (c ∷ s) zero d = c
char_or (c ∷ s) (suc i) d = char_or s i d

unfoldable pub lower_char : Char → Char
unfolding char_or
lower_char c =
    if leb b'A' (code c) && leb (code c) b'Z'
    then char_or "abcdefghijklmnopqrstuvwxyz" (code c - b'A') c
    else c

unfoldable pub map_text : (Char → Char) → String → String
map_text f [] = []
map_text f (c ∷ s) = f c ∷ map_text f s

unfoldable pub to_lower : String → String
unfolding map_text lower_char
to_lower s = map_text lower_char s

unfoldable pub upper_char : Char → Char
unfolding char_or
upper_char c =
    if leb b'a' (code c) && leb (code c) b'z'
    then char_or "ABCDEFGHIJKLMNOPQRSTUVWXYZ" (code c - b'a') c
    else c

unfoldable pub to_upper : String → String
unfolding map_text upper_char
to_upper s = map_text upper_char s

unfoldable pub equal_fold : String → String → Bool
unfolding to_lower
equal_fold s t = to_lower s == to_lower t

-- `strings.TrimLeft`, `strings.TrimRight` and `strings.Trim`, by the set of characters to drop.
unfoldable pub trim_left : (Char → Bool) → String → String
trim_left drops [] = []
trim_left drops (c ∷ s) = if drops c then trim_left drops s else c ∷ s

abbrev pub join_char : (Char → Bool) → Char → String → String
join_char drops c [] = if drops c then [] else c ∷ []
join_char drops c (d ∷ s) = c ∷ d ∷ s

unfoldable pub trim_right : (Char → Bool) → String → String
trim_right drops [] = []
trim_right drops (c ∷ s) = join_char drops c (trim_right drops s)

unfoldable pub trim : (Char → Bool) → String → String
unfolding trim_left trim_right
trim drops s = trim_right drops (trim_left drops s)

unfoldable pub trim_space : String → String
unfolding trim is_space
trim_space s = trim is_space s

unfoldable pub has_prefix : String → String → Bool
has_prefix s [] = true
has_prefix [] (d ∷ t) = false
has_prefix (c ∷ s) (d ∷ t) = code c =ℕ code d && has_prefix s t

unfoldable pub contains : String → String → Bool
unfolding has_prefix
contains [] t = t == ""
contains (c ∷ s) t = has_prefix (c ∷ s) t || contains s t

unfoldable pub has_suffix : String → String → Bool
has_suffix [] t = t == ""
has_suffix (c ∷ s) t = (c ∷ s) == t || has_suffix s t

-- `strings.TrimSuffix`, for a suffix that is not empty.
unfoldable pub trim_suffix : String → String → String
trim_suffix [] t = []
trim_suffix (c ∷ s) t = let rest = trim_suffix s t in if (c ∷ s) == t then [] else c ∷ rest

abbrev join_rest : String → List String → String
join_rest sep List.[] = ""
join_rest sep (List.◌∷◌ s rest) = sep ⧺ s ⧺ join_rest sep rest

unfoldable pub join : List String → String → String
join List.[] sep = ""
join (List.◌∷◌ s rest) sep = s ⧺ join_rest sep rest

text_tests :
    (trim_space "  A b \n" ≡ "A b")
    × (to_lower "Blue-Green 9" ≡ "blue-green 9")
    × (equal_fold "FALSE" "false" ≡ true)
    × (contains "an i/o timeout" "timeout" ≡ true)
    × (has_suffix "web-canary" "-canary" ≡ true)
    × (trim_suffix "/api/*/*" "/*" ≡ "/api/*")
    × (to_upper "get-1" ≡ "GET-1")
unfolding trim_space to_lower to_upper equal_fold contains has_suffix trim_suffix
text_tests = (refl, refl, refl, refl, refl, refl, refl)
