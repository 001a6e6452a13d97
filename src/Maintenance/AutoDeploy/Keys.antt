-- ===== src/Maintenance/AutoDeploy/Keys.antt =====
-- A queue key is never blank, so that `markQueued` always marks.
use Prim.Native.String.{[], ◌∷◌}
use text.Mathlib.TextLemmas.{nil-append, cons-append}
use releasea_worker.Prelude.{
  String, Char, Bool, true, false, not, ◌||◌, ◌≡◌, refl, ap, inl, inr, Bool-cases, ◌⧺◌, ◌==◌,
  eq_iff, arith, is_space, join_char, trim_left, trim_right, trim, trim_space,
}
use releasea_worker.Maintenance.AutoDeploy.Cycle.{queue_key}

-- Does the text hold a character that is no white space?
abbrev has_ink : String → Bool
has_ink [] = false
has_ink (c ∷ s) = not (is_space c) || has_ink s

has_ink-append_left : (s t : String) → has_ink t ≡ true → has_ink (s ⧺ t) ≡ true
has_ink-append_left [] t h = rw nil-append h
has_ink-append_left (c ∷ s) t h = rw cons-append (ground (arith, has_ink-append_left s t h))

has_ink-append_right : (s t : String) → has_ink s ≡ true → has_ink (s ⧺ t) ≡ true
has_ink-append_right [] t h = cc
has_ink-append_right (c ∷ s) t h = rw cons-append (ground (arith, has_ink-append_right s t))

has_ink-trim_left : (s : String) → has_ink s ≡ true → has_ink (trim_left is_space s) ≡ true
unfolding trim_left
has_ink-trim_left [] h = h
has_ink-trim_left (c ∷ s) h = ground (arith, has_ink-trim_left s)

has_ink-join_char :
    (c : Char) (s : String)
    → (not (is_space c) || has_ink s) ≡ true
    → has_ink (join_char is_space c s) ≡ true
has_ink-join_char c [] h = ground arith
has_ink-join_char c (d ∷ s) h = h

has_ink-trim_right : (s : String) → has_ink s ≡ true → has_ink (trim_right is_space s) ≡ true
unfolding trim_right
has_ink-trim_right [] h = h
has_ink-trim_right (c ∷ s) h =
    has_ink-join_char c (trim_right is_space s) (ground (arith, has_ink-trim_right s))

ne_nil_of_ink : (s : String) → has_ink s ≡ true → (s == "") ≡ false
ne_nil_of_ink s h = elim (Bool-cases (s == "")) [
  | inl e ↦ cc (ap has_ink ((eq_iff s "").0 e))
  | inr ne ↦ ne
]

trim_space-ne-nil : (s : String) → has_ink s ≡ true → (trim_space s == "") ≡ false
unfolding trim_space trim
trim_space-ne-nil s h =
    ne_nil_of_ink (trim_right is_space (trim_left is_space s))
      (has_ink-trim_right (trim_left is_space s) (has_ink-trim_left s h))

bar_inked : (s : String) → has_ink ("|" ⧺ s) ≡ true
unfolding is_space
bar_inked s = rw cons-append refl

pub queue_key-not_blank :
    (state_key commit : String) → (trim_space (queue_key state_key commit) == "") ≡ false
queue_key-not_blank state_key commit =
    trim_space-ne-nil _ (has_ink-append_left state_key ("|" ⧺ commit) (bar_inked commit))
