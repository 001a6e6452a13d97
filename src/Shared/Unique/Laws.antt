-- ===== src/Shared/Unique/Laws.antt =====
-- What `UniqueStrings` keeps, that it keeps it once, and that a second call changes nothing.
use releasea_worker.Prelude.{
  String, true, false, List, [], ◌∷◌, map, ◌≡◌, refl, sym, ap, ◌≢◌, ◌↔◌, inl, inr, In, All, ◌==◌,
  eq_iff, eq_refl, arith, Bool-cases, trim_space, trim_space_idem,
}
use releasea_worker.Shared.Unique.{member, unique_from, unique_strings}

pub member-In : (x : String) (ys : List String) → member x ys ≡ true → In x ys
unfolding member
member-In x [] h = cc
member-In x (y ∷ ys) h = elim (Bool-cases (y == x)) [
  | inl same ↦ inl (sym ((eq_iff y x).0 same))
  | inr other ↦ inr (member-In x ys (rw other at h))
]

pub In-member : (x : String) (ys : List String) → In x ys → member x ys ≡ true
unfolding member
In-member x [] h = absurd h
In-member x (y ∷ ys) (inl e) = rw (← e, eq_refl x)
In-member x (y ∷ ys) (inr h) = ground (arith, In-member x ys h)

pub not-member : (x : String) (ys : List String) → member x ys ≡ false → ¬ In x ys
not-member x ys h i = cc (In-member x ys i)

-- No text stands twice.
abbrev pub IsDistinct : List String → Type 0
IsDistinct [] = Unit
IsDistinct (x ∷ xs) = (¬ In x xs) × IsDistinct xs

-- What the loop appends from here on: the trimmed texts that are not empty and not in `seen`.
In-unique_from :
    (x : String) (seen values : List String)
    → In x (unique_from seen values)
    → (x ≢ "") × (member x seen ≡ false) × In x (map trim_space values)
unfolding unique_from member
In-unique_from x seen [] h = absurd h
In-unique_from x seen (value ∷ values) h =
    let v = trim_space value in
    ground (
      arith,
      eq_iff v "",
      eq_iff v x,
      In-unique_from x seen values,
      In-unique_from x (v ∷ seen) values,
    )

unique_from-In :
    (x : String) (seen values : List String)
    → x ≢ ""
    → member x seen ≡ false
    → In x (map trim_space values)
    → In x (unique_from seen values)
unfolding unique_from member
unique_from-In x seen [] full new h = absurd h
unique_from-In x seen (value ∷ values) full new h =
    let v = trim_space value in
    ground (
      arith,
      eq_iff v "",
      eq_iff v x,
      unique_from-In x seen values full new,
      unique_from-In x (v ∷ seen) values full,
    )

unique_from-IsDistinct : (seen values : List String) → IsDistinct (unique_from seen values)
unfolding unique_from
unique_from-IsDistinct seen [] = tt
unique_from-IsDistinct seen (value ∷ values) =
    let v = trim_space value in
    ground (
      arith,
      In-member v (v ∷ seen) (inl refl),
      In-unique_from v (v ∷ seen) values,
      unique_from-IsDistinct seen values,
      unique_from-IsDistinct (v ∷ seen) values,
    )

-- The loop returns a list as it is, if its texts are trimmed, not empty, distinct and new.
abbrev AreFresh : List String → List String → Type 0
AreFresh seen = All (λ x. (trim_space x ≡ x) × ((x == "") ≡ false) × (member x seen ≡ false))

AreFresh-cons :
    (v : String) (seen xs : List String) → AreFresh seen xs → ¬ In v xs → AreFresh (v ∷ seen) xs
unfolding member
AreFresh-cons v seen [] h n = tt
AreFresh-cons v seen (x ∷ xs) (f, h) n =
    ((f.0, f.1, ground (arith, eq_iff v x, n)), AreFresh-cons v seen xs h (λ i. n (inr i)))

unique_from_of_AreFresh :
    (seen xs : List String) → AreFresh seen xs → IsDistinct xs → unique_from seen xs ≡ xs
unfolding unique_from
unique_from_of_AreFresh seen [] h d = refl
unique_from_of_AreFresh seen (x ∷ xs) ((same, full, new), h) (n, d) =
    rw (same, full, new)
      (ap (λ t. x ∷ t) (unique_from_of_AreFresh (x ∷ seen) xs (AreFresh-cons x seen xs h n) d))

AreFresh-uncons : (v : String) (seen xs : List String) → AreFresh (v ∷ seen) xs → AreFresh seen xs
unfolding member
AreFresh-uncons v seen [] h = tt
AreFresh-uncons v seen (x ∷ xs) (f, h) = ((f.0, f.1, ground arith), AreFresh-uncons v seen xs h)

unique_from-AreFresh : (seen values : List String) → AreFresh seen (unique_from seen values)
unfolding unique_from member
unique_from-AreFresh seen [] = tt
unique_from-AreFresh seen (value ∷ values) =
    let v = trim_space value in
    ground (
      arith,
      trim_space_idem value,
      AreFresh-uncons v seen (unique_from (v ∷ seen) values)
          (unique_from-AreFresh (v ∷ seen) values),
      unique_from-AreFresh seen values,
    )

-- `UniqueStrings` returns exactly the texts that are some given value, trimmed, and that are not empty;
-- it returns each of them once; and calling it on its own result changes nothing.
pub unique_strings_lem :
    (values : List String)
    → ((x : String) → In x (unique_strings values) ↔ ((x ≢ "") × In x (map trim_space values)))
      × IsDistinct (unique_strings values)
      × (unique_strings (unique_strings values) ≡ unique_strings values)
unfolding unique_strings member
unique_strings_lem values = (
  λ x. (
    λ h. let (full, _, i) = In-unique_from x [] values h in (full, i),
    λ h. unique_from-In x [] values h.0 refl h.1,
  ),
  unique_from-IsDistinct [] values,
  unique_from_of_AreFresh [] _ (unique_from-AreFresh [] values) (unique_from-IsDistinct [] values),
)
