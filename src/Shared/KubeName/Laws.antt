-- ===== src/Shared/KubeName/Laws.antt =====
-- What a Kubernetes name of the worker consists of.
use releasea_worker.Prelude.{
  ℕ, zero, suc, ◌≤◌, ◌<◌, Char, String, true, false, ◌&&◌, ◌≡◌, refl, arith, inl, inr, if_keeps,
  if_split, Bool-cases, map_text, trim, trim_left, trim_right, join_char, has_prefix, contains,
  size, StartsKept, trim_kept,
}
use Prim.Native.String.{[], ◌∷◌}
use releasea_worker.Shared.KubeName.{
  is_dash, is_kube_char, kube_char, squeeze, squeeze_all, to_kube_name,
}

-- Each character is a small letter, a digit or a dash.
abbrev pub IsKube : String → Type 0
IsKube [] = Unit
IsKube (c ∷ s) = (is_kube_char c ≡ true) × IsKube s

-- The last character, if there is one, is no dash.
abbrev pub EndsSolid : String → Type 0
EndsSolid [] = Unit
EndsSolid (c ∷ []) = is_dash c ≡ false
EndsSolid (c ∷ d ∷ s) = EndsSolid (d ∷ s)

kube_char-IsKube : (c : Char) → is_kube_char (kube_char c) ≡ true
unfolding kube_char
kube_char-IsKube c = elim (Bool-cases (is_kube_char c)) [ inl e ↦ rw e e | inr e ↦ rw e refl ]

map_text-IsKube : (s : String) → IsKube (map_text kube_char s)
unfolding map_text
map_text-IsKube [] = tt
map_text-IsKube (c ∷ s) = (kube_char-IsKube c, map_text-IsKube s)

trim_left-IsKube : (s : String) → IsKube s → IsKube (trim_left is_dash s)
unfolding trim_left
trim_left-IsKube [] h = tt
trim_left-IsKube (c ∷ s) h = if_keeps IsKube (is_dash c) (trim_left-IsKube s h.1) h

join_char-IsKube :
    (c : Char) (s : String) → is_kube_char c ≡ true → IsKube s → IsKube (join_char is_dash c s)
join_char-IsKube c [] h k = if_keeps IsKube (is_dash c) tt (h, tt)
join_char-IsKube c (d ∷ s) h k = (h, k)

trim_right-IsKube : (s : String) → IsKube s → IsKube (trim_right is_dash s)
unfolding trim_right
trim_right-IsKube [] h = tt
trim_right-IsKube (c ∷ s) (h, k) =
    join_char-IsKube c (trim_right is_dash s) h (trim_right-IsKube s k)

trim-IsKube : (s : String) → IsKube s → IsKube (trim is_dash s)
unfolding trim
trim-IsKube s h = trim_right-IsKube _ (trim_left-IsKube s h)

join_char-EndsSolid : (c : Char) (s : String) → EndsSolid s → EndsSolid (join_char is_dash c s)
join_char-EndsSolid c [] h = if_split EndsSolid (is_dash c) (λ e. tt) (λ e. e)
join_char-EndsSolid c (d ∷ s) h = h

trim_right-EndsSolid : (s : String) → EndsSolid (trim_right is_dash s)
unfolding trim_right
trim_right-EndsSolid [] = tt
trim_right-EndsSolid (c ∷ s) = join_char-EndsSolid c (trim_right is_dash s) (trim_right-EndsSolid s)

trim-EndsSolid : (s : String) → EndsSolid (trim is_dash s)
unfolding trim
trim-EndsSolid s = trim_right-EndsSolid (trim_left is_dash s)

-- A text that has at least one character.
abbrev IsFull : String → Type 0
IsFull [] = ⊥
IsFull (c ∷ s) = Unit

EndsSolid-cons : (c : Char) (s : String) → IsFull s → EndsSolid s → EndsSolid (c ∷ s)
EndsSolid-cons c [] f h = absurd f
EndsSolid-cons c (d ∷ s) f h = h

squeeze-IsFull : (c : Char) (s : String) → IsFull (squeeze (c ∷ s))
unfolding squeeze
squeeze-IsFull c [] = tt
squeeze-IsFull c (d ∷ s) = if_keeps IsFull (is_dash c && is_dash d) tt tt

squeeze-IsKube : (s : String) → IsKube s → IsKube (squeeze s)
unfolding squeeze
squeeze-IsKube [] h = tt
squeeze-IsKube (c ∷ []) h = h
squeeze-IsKube (c ∷ d ∷ s) (h, (i, k)) =
    if_keeps IsKube (is_dash c && is_dash d) (refl, squeeze-IsKube s k)
      (h, squeeze-IsKube (d ∷ s) (i, k))

squeeze-StartsKept : (s : String) → StartsKept is_dash s → StartsKept is_dash (squeeze s)
unfolding squeeze
squeeze-StartsKept [] h = tt
squeeze-StartsKept (c ∷ []) h = h
squeeze-StartsKept (c ∷ d ∷ s) h = rw h h

squeeze-EndsSolid : (s : String) → EndsSolid s → EndsSolid (squeeze s)
unfolding squeeze
squeeze-EndsSolid [] h = tt
squeeze-EndsSolid (c ∷ []) h = h
squeeze-EndsSolid (c ∷ d ∷ []) h =
    rw h (elim (Bool-cases (is_dash c)) [ inl e ↦ rw e h | inr e ↦ rw e h ])
squeeze-EndsSolid (c ∷ d ∷ e ∷ s) h =
    if_keeps EndsSolid (is_dash c && is_dash d)
      (EndsSolid-cons "-" (squeeze (e ∷ s)) (squeeze-IsFull e s) (squeeze-EndsSolid (e ∷ s) h))
      (EndsSolid-cons c (squeeze (d ∷ e ∷ s)) (squeeze-IsFull d (e ∷ s))
        (squeeze-EndsSolid (d ∷ e ∷ s) h))

-- A pass never makes a text longer, and makes one shorter that has two dashes in a row.
size-squeeze :
    (s : String)
    → (size (squeeze s) ≤ size s) × (contains s "--" ≡ true → size (squeeze s) < size s)
unfolding squeeze contains has_prefix
size-squeeze [] = (omega arith, λ h. cc)
size-squeeze (c ∷ []) = (omega arith, λ h. ground arith)
size-squeeze (c ∷ d ∷ s) =
    let (short, _) = size-squeeze s in let (le, lt) = size-squeeze (d ∷ s) in ground arith

-- What a name is, apart from its length.
pub record IsName (s : String) : Type 0 where
  pub chars : IsKube s
  pub starts : StartsKept is_dash s
  pub ends : EndsSolid s

squeeze-IsName : (s : String) → IsName s → IsName (squeeze s)
squeeze-IsName s h = record {
  chars = squeeze-IsKube s h.chars;
  starts = squeeze-StartsKept s h.starts;
  ends = squeeze-EndsSolid s h.ends;
}

squeeze_all-IsName : (n : ℕ) (s : String) → IsName s → IsName (squeeze_all n s)
unfolding squeeze_all
squeeze_all-IsName zero s h = h
squeeze_all-IsName (suc n) s h =
    if_keeps IsName (contains s "--") (squeeze_all-IsName n (squeeze s) (squeeze-IsName s h)) h

-- The fuel is enough: the loop ends with no two dashes in a row.
squeeze_all-contains : (n : ℕ) (s : String) → size s ≤ n → contains (squeeze_all n s) "--" ≡ false
unfolding squeeze_all contains
squeeze_all-contains zero [] le = refl
squeeze_all-contains zero (c ∷ s) le = absurd (omega arith)
squeeze_all-contains (suc n) s le =
    if_split (λ t. contains t "--" ≡ false) (contains s "--")
      (λ e. squeeze_all-contains n (squeeze s) (omega (arith, (size-squeeze s).1 e))) (λ e. e)

pub trim-IsName : (s : String) → IsKube s → IsName (trim is_dash s)
trim-IsName s h = record {
  chars = trim-IsKube s h;
  starts = (trim_kept is_dash s).0;
  ends = trim-EndsSolid s;
}

pub to_kube_name-IsName : (value : String) → IsName (to_kube_name value)
unfolding to_kube_name
to_kube_name-IsName value = squeeze_all-IsName _ _ (trim-IsName _ (map_text-IsKube _))

pub contains-to_kube_name : (value : String) → contains (to_kube_name value) "--" ≡ false
unfolding to_kube_name
contains-to_kube_name value = squeeze_all-contains _ _ (omega arith)
