-- ===== src/Leads/ResolveCache.antt =====
-- leads/app/resolve_cache.py: the markers of domains that have no organization, and the aliases that a
-- hit teaches. The collection of markers is a list of documents, and a call of the database may fail.
pub mod Key
pub mod Markers
pub mod Tests
use funnelmanager.Prelude.{
  Bool, List, Option, Text, [], after, any, before, codes, false, if◌then◌else◌, non_empty, none,
  not, some, starts_with, strip, text_eq, true, ℕ, ◌&&◌, ◌++◌, ◌∷◌,
}

-- The text after the first occurrence of `://`, `none` where there is none.
unfoldable pub after_scheme : Text → Option Text
after_scheme [] = none
after_scheme (c ∷ s) =
    let rest = after_scheme s in
    if starts_with (c ∷ s) (codes "://") then some (after b'/' (after b'/' s)) else rest

abbrev pub without_scheme : Text → Text
without_scheme s = elim (after_scheme s) [ none ↦ s | some rest ↦ rest ]

-- `cleaned[4:]` of a text that starts with `www.`
abbrev pub without_www : Text → Text
without_www s = if starts_with s (codes "www.") then after b'.' s else s

-- `normalize_resolve_key`, over Python's `lower`
unfoldable pub normalize_resolve_key : (Text → Text) → Text → Text
normalize_resolve_key lower value =
    let cleaned = without_www (without_scheme (lower (strip value))) in
    if non_empty (lower (strip value))
    then strip (before b'#' (before b'?' (before b'/' cleaned)))
    else []

-- A marker, with its time.
pub record Marker : Type 0 where
  pub value : Text
  pub created_at : ℕ

-- `find_one`
unfoldable pub marker_of : List Marker → Text → Option Marker
marker_of [] key = none
marker_of (m ∷ ms) key = if text_eq m.value key then some m else marker_of ms key

-- `delete_many`
unfoldable pub delete_markers : List Marker → Text → List Marker
delete_markers [] key = []
delete_markers (m ∷ ms) key =
    let rest = delete_markers ms key in if text_eq m.value key then rest else m ∷ rest

abbrev pub is_found : Option Marker → Bool
is_found none = false
is_found (some m) = true

-- `is_resolve_miss`: `up` says whether the database answers.
unfoldable pub is_resolve_miss : (Text → Text) → Bool → List Marker → Text → Bool
is_resolve_miss lower up ms value =
    let key = normalize_resolve_key lower value in
    non_empty key && up && is_found (marker_of ms key)

unfoldable pub mark_resolve_miss : (Text → Text) → Bool → ℕ → List Marker → Text → List Marker
mark_resolve_miss lower up now ms value =
    let key = normalize_resolve_key lower value in
    if non_empty key && up && not (is_found (marker_of ms key))
    then record { value = key; created_at = now } ∷ ms
    else ms

unfoldable pub clear_resolve_miss : (Text → Text) → Bool → List Marker → Text → List Marker
clear_resolve_miss lower up ms value =
    let key = normalize_resolve_key lower value in
    if non_empty key && up then delete_markers ms key else ms

-- `$addToSet`
unfoldable pub add_to_set : List Text → Text → List Text
add_to_set ws w = if any (λ v. text_eq v w) ws then ws else ws ++ w ∷ []

-- `learn_domain_alias`, on the aliases of the organization that the id finds: `is_id` says whether
-- `ObjectId` takes the id.
unfoldable pub learn_domain_alias :
    (Text → Text) → (Text → Bool) → Bool → Text → Text → List Text → List Text
learn_domain_alias lower is_id up org_mongo_id domain alias_domains =
    let key = normalize_resolve_key lower domain in
    if non_empty key && non_empty org_mongo_id && is_id org_mongo_id && up
    then add_to_set alias_domains key
    else alias_domains
