-- ===== src/Routes.antt =====
-- internal/routes/registry.go: the route table and the matching of request paths.
pub mod Default
pub mod Segments
pub mod First
mod Tests
use new_api_gateway.Prelude.{
  ℕ, ◌-◌, String, Bool, true, false, ◌&&◌, ◌||◌, List, [], ◌∷◌, Option, none, some, leb, ◌==◌,
  nat_eq, string_eq, if◌then◌else◌, length, take, drop, any,
}
use new_api_gateway.Text.{
  is_empty, has_prefix, has_suffix, trim_prefix, trim_suffix, contains, split, ◌<>◌,
}

pub data CaptureMode : Type 0 where
  raw_and_normalized raw_and_minimal raw_only : CaptureMode

pub record Entry : Type 0 where
  pub method : String
  pub path_pattern : String
  pub protocol_family : String
  pub body_kind : String
  pub capture_mode : CaptureMode
  pub normalizer : String
  pub minimal_extractor : String
  pub unsupported_alert_code : String

pub record Registry : Type 0 where
  pub entries : List Entry

unfoldable pub split_path : String → List String
unfolding trim_prefix split
split_path path =
    let without_leading_slash = trim_prefix "/" path in
    if is_empty without_leading_slash then [] else split b'/' without_leading_slash

-- The loop over the segments, both lists of one length.
unfoldable pub match_segments : List String → List String → Bool
unfolding has_prefix
match_segments (p ∷ ps) (s ∷ ss) =
    let rest = match_segments ps ss in
    if is_empty s then false else if has_prefix ":" p then rest else if p == s then rest else false
match_segments _ _ = true

-- `patternSegments[len(patternSegments)-1] == "*"`
unfoldable pub ends_in_star : List String → Bool
ends_in_star [] = false
ends_in_star (p ∷ []) = p == "*"
ends_in_star (p ∷ q ∷ ps) = ends_in_star (q ∷ ps)

-- The part of `matchSegmentPath` behind the wildcard: `same_slash` says whether the pattern and the
-- path agree on a trailing slash.
unfoldable pub match_fixed : Bool → List String → List String → Bool
unfolding match_segments
match_fixed same_slash ps ss =
    if same_slash then (if length ps == length ss then match_segments ps ss else false) else false

unfoldable pub match_split : Bool → List String → List String → Bool
unfolding match_fixed ends_in_star
match_split same_slash [] ss = false
match_split same_slash (p ∷ ps) [] = false
match_split same_slash (p ∷ ps) (s ∷ ss) =
    let fixed = length (p ∷ ps) - 1 in
    if ends_in_star (p ∷ ps)
    then (if leb (length (s ∷ ss)) fixed
        then false
        else if any is_empty (drop fixed (s ∷ ss))
        then false
        else match_fixed same_slash (take fixed (p ∷ ps)) (take fixed (s ∷ ss)))
    else if length (p ∷ ps) == length (s ∷ ss)
    then match_fixed same_slash (p ∷ ps) (s ∷ ss)
    else false

abbrev pub same_bool : Bool → Bool → Bool
same_bool true b = b
same_bool false true = false
same_bool false false = true

unfoldable pub match_segment_path : String → String → Bool
unfolding match_split split_path has_suffix
match_segment_path pattern path =
    match_split (same_bool (has_suffix "/" pattern) (has_suffix "/" path)) (split_path pattern)
      (split_path path)

unfoldable pub match_path : String → String → Bool
unfolding match_segment_path contains has_suffix trim_suffix has_prefix
match_path pattern path =
    if pattern == path
    then true
    else if contains ":" pattern
    then match_segment_path pattern path
    else if has_suffix "*" pattern
    then (let prefix = trim_suffix "*" pattern in
        if has_suffix "/" prefix
        then match_segment_path pattern path
        else path == prefix || has_prefix (prefix <> "/") path)
    else false

-- The loop of `Registry.Match`; an entry with `true` is `some`.
unfoldable pub match_entries : List Entry → String → String → Option Entry
unfolding match_path
match_entries [] method path = none
match_entries (entry ∷ entries) method path =
    let later = match_entries entries method path in
    if entry.method == method
    then (if match_path entry.path_pattern path then some entry else later)
    else later

unfoldable pub match : Registry → String → String → Option Entry
unfolding match_entries
match r method path = match_entries r.entries method path
