-- ===== src/Prelude/Text/Trim.antt =====
-- Laws of trimming and lowering.
use Prim.Native.Nat.{ℕ, zero, suc, ◌-◌, ◌<◌}
use Prim.Native.Char.{Char, code}
use Prim.Native.String.{String, [], ◌∷◌}
use mathlib.Core.Path.{◌≡◌, refl, ap, ap₂, ◌∙◌}
use mathlib.Core.Logic.{inl, inr}
use mathlib.Core.Bool.{Bool, true, false, ◌&&◌}
use native.Mathlib.Omega.{arith}
use releasea_worker.Prelude.Tests.{leb, Bool-cases}
use releasea_worker.Prelude.Text.{
  char_or, lower_char, map_text, to_lower, trim_left, join_char, trim_right, trim, trim_space,
}

module _ (drops : Char → Bool) where
  -- The first character, if there is one, is kept.
  abbrev pub StartsKept : String → Type 0
  StartsKept [] = Unit
  StartsKept (c ∷ s) = drops c ≡ false

  -- The last character, if there is one, is kept.
  abbrev pub EndsKept : String → Type 0
  EndsKept s = trim_right drops s ≡ s

  trim_left-StartsKept : (s : String) → StartsKept (trim_left drops s)
  unfolding trim_left
  trim_left-StartsKept [] = tt
  trim_left-StartsKept (c ∷ s) = ground (arith, trim_left-StartsKept s)

  join_char-StartsKept :
      (c : Char) (s : String) → drops c ≡ false → StartsKept (join_char drops c s)
  join_char-StartsKept c [] h = rw h h
  join_char-StartsKept c (d ∷ s) h = h

  trim_right-StartsKept : (s : String) → StartsKept s → StartsKept (trim_right drops s)
  unfolding trim_right
  trim_right-StartsKept [] h = tt
  trim_right-StartsKept (c ∷ s) h = join_char-StartsKept c (trim_right drops s) h

  join_char-EndsKept : (c : Char) (s : String) → EndsKept s → EndsKept (join_char drops c s)
  unfolding trim_right
  join_char-EndsKept c [] h = elim (Bool-cases (drops c)) [ inl e ↦ rw e | inr e ↦ rw e (rw e) ]
  join_char-EndsKept c (d ∷ s) h = rw h

  trim_right-EndsKept : (s : String) → EndsKept (trim_right drops s)
  unfolding trim_right
  trim_right-EndsKept [] = refl
  trim_right-EndsKept (c ∷ s) = join_char-EndsKept c (trim_right drops s) (trim_right-EndsKept s)

  trim_left_of_StartsKept : (s : String) → StartsKept s → trim_left drops s ≡ s
  unfolding trim_left
  trim_left_of_StartsKept [] h = refl
  trim_left_of_StartsKept (c ∷ s) h = rw h

  -- What `trim` returns starts and ends with characters that it keeps.
  pub trim_kept : (s : String) → StartsKept (trim drops s) × EndsKept (trim drops s)
  unfolding trim
  trim_kept s = (
    trim_right-StartsKept (trim_left drops s) (trim_left-StartsKept s),
    trim_right-EndsKept (trim_left drops s),
  )

  pub trim_idem : (s : String) → trim drops (trim drops s) ≡ trim drops s
  trim_idem s =
      let (starts, ends) = trim_kept s in
      unfold trim in (ap (trim_right drops) (trim_left_of_StartsKept _ starts) ∙ ends)

pub trim_space_idem : (s : String) → trim_space (trim_space s) ≡ trim_space s
unfolding trim_space
trim_space_idem s = trim_idem _ s

abbrev IsFixed : String → Type 0
IsFixed [] = Unit
IsFixed (c ∷ s) = (lower_char c ≡ c) × IsFixed s

abbrev pub size : String → ℕ
size [] = 0
size (c ∷ s) = suc (size s)

lower_char-char_or :
    (s : String) (i : ℕ) (d : Char)
    → IsFixed s
    → i < size s
    → lower_char (char_or s i d) ≡ char_or s i d
unfolding char_or
lower_char-char_or [] i d h lt = elim lt [ ]
lower_char-char_or (c ∷ s) zero d h lt = h.0
lower_char-char_or (c ∷ s) (suc i) d h lt = lower_char-char_or s i d h.1 (omega arith)

letters : IsFixed "abcdefghijklmnopqrstuvwxyz"
unfolding lower_char
letters = ground arith

abbrev is_upper : Char → Bool
is_upper c = leb b'A' (code c) && leb (code c) b'Z'

lower_char_of_upper :
    (c : Char)
    → is_upper c ≡ true
    → lower_char c ≡ char_or "abcdefghijklmnopqrstuvwxyz" (code c - b'A') c
unfolding lower_char
lower_char_of_upper c h = rw h

lower_char_of_other : (c : Char) → is_upper c ≡ false → lower_char c ≡ c
unfolding lower_char
lower_char_of_other c h = rw h

upper_index : (c : Char) → is_upper c ≡ true → code c - b'A' < 26
upper_index c h = ground arith

lower_char_idem : (c : Char) → lower_char (lower_char c) ≡ lower_char c
lower_char_idem c = elim (Bool-cases (is_upper c)) [
  | inl up ↦
      rw (lower_char_of_upper c up) (
        lower_char-char_or "abcdefghijklmnopqrstuvwxyz" (code c - b'A') c letters
          (upper_index c up))
  | inr other ↦ rw (lower_char_of_other c other) (lower_char_of_other c other)
]

map_text_idem :
    (f : Char → Char) (s : String)
    → ((c : Char) → f (f c) ≡ f c)
    → map_text f (map_text f s) ≡ map_text f s
unfolding map_text
map_text_idem f [] h = refl
map_text_idem f (c ∷ s) h = ap₂ ◌∷◌ (h c) (map_text_idem f s h)

pub to_lower_idem : (s : String) → to_lower (to_lower s) ≡ to_lower s
unfolding to_lower
to_lower_idem s = map_text_idem lower_char s lower_char_idem
