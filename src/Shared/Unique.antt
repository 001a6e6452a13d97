-- ===== src/Shared/Unique.antt =====
-- internal/platform/shared/collection_unique.go.
pub mod Laws
use releasea_worker.Prelude.{
  String, Bool, true, false, ◌||◌, List, [], ◌∷◌, if◌then◌else◌, ◌==◌, trim_space, has_suffix,
}

-- A lookup in `seen`, a set of texts.
unfoldable pub member : String → List String → Bool
member x [] = false
member x (y ∷ ys) = y == x || member x ys

-- The loop of `UniqueStrings`: what it appends to `out` from here on.
unfoldable pub unique_from : List String → List String → List String
unfolding member
unique_from seen [] = []
unique_from seen (value ∷ values) =
    let trimmed = trim_space value in
    let skipped = unique_from seen values in
    let kept = trimmed ∷ unique_from (trimmed ∷ seen) values in
    if trimmed == "" then skipped else if member trimmed seen then skipped else kept

unfoldable pub unique_strings : List String → List String
unfolding unique_from
unique_strings values = unique_from [] values

some_host_ends : List String → String → Bool
some_host_ends [] suffix = false
some_host_ends (host ∷ hosts) suffix =
    let rest = some_host_ends hosts suffix in
    let trimmed = trim_space host in
    if trimmed == "" then rest else if has_suffix trimmed suffix then true else rest

unfoldable pub has_host_suffix : List String → String → Bool
unfolding some_host_ends
has_host_suffix hosts suffix =
    let trimmed = trim_space suffix in if trimmed == "" then false else some_host_ends hosts trimmed
