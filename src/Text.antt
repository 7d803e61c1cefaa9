-- ===== src/Text.antt =====
-- Go's `strings` functions that the gateway uses, over the native texts (sequences of code points;
-- the gateway splits and trims only at ASCII characters and Unicode spaces, where bytes and code
-- points agree).
use Prim.Native.Char.{Char, code}
use Prim.Native.String.{◌++◌ as append}
use new_api_gateway.Prelude.{
  ℕ, ◌+◌, String, Bool, true, false, ◌&&◌, ◌||◌, not, List, [], ◌∷◌, Option, none, some, leb, ◌==◌,
  nat_eq, string_eq, if◌then◌else◌,
}

-- `a + b` on Go strings.
infixl 65 ◌<>◌
abbrev pub ◌<>◌ : String → String → String
a <> b = append a b

abbrev pub is_empty : String → Bool
is_empty String.[] = true
is_empty (String.◌∷◌ c s) = false

abbrev pub is_char : ℕ → Char → Bool
is_char n c = code c == n

-- `unicode.IsSpace`
unfoldable pub is_space : Char → Bool
is_space ch =
    let c = code ch in
    (leb 9 c && leb c 13)
    || c == 32
    || c == 0x85
    || c == 0xa0
    || c == 0x1680
    || (leb 0x2000 c && leb c 0x200a)
    || c == 0x2028
    || c == 0x2029
    || c == 0x202f
    || c == 0x205f
    || c == 0x3000

module _ (p : Char → Bool) where
  -- `strings.TrimLeftFunc` and `strings.TrimRightFunc`
  unfoldable pub trim_left : String → String
  trim_left String.[] = ""
  trim_left (String.◌∷◌ c s) = let rest = trim_left s in if p c then rest else String.◌∷◌ c s

  unfoldable pub trim_right : String → String
  trim_right String.[] = ""
  trim_right (String.◌∷◌ c s) =
      let rest = trim_right s in if p c && is_empty rest then "" else String.◌∷◌ c rest

  unfoldable pub trim : String → String
  unfolding trim_left trim_right
  trim s = trim_right (trim_left s)

  -- No character passes the test.
  abbrev pub lacks : String → Bool
  lacks String.[] = true
  lacks (String.◌∷◌ c s) = not (p c) && lacks s

  -- Every character passes the test.
  abbrev pub all_chars : String → Bool
  all_chars String.[] = true
  all_chars (String.◌∷◌ c s) = p c && all_chars s

-- `strings.TrimSpace`
unfoldable pub trim_space : String → String
unfolding trim is_space
trim_space s = trim is_space s

-- `strings.CutPrefix`: what follows the prefix, if the text has it.
unfoldable pub cut_prefix : String → String → Option String
cut_prefix String.[] s = some s
cut_prefix (String.◌∷◌ c p) String.[] = none
cut_prefix (String.◌∷◌ c p) (String.◌∷◌ d s) =
    let rest = cut_prefix p s in if code c == code d then rest else none

-- `strings.HasPrefix` and `strings.TrimPrefix`, with the prefix first.
unfoldable pub has_prefix : String → String → Bool
unfolding cut_prefix
has_prefix p s = elim (cut_prefix p s) [ none ↦ false | some rest ↦ true ]

unfoldable pub trim_prefix : String → String → String
unfolding cut_prefix
trim_prefix p s = elim (cut_prefix p s) [ none ↦ s | some rest ↦ rest ]

-- `strings.CutSuffix`: what stands before the suffix. The suffix of a text that is longer than the
-- suffix is that of its tail.
unfoldable pub cut_suffix : String → String → Option String
cut_suffix p String.[] = if p == "" then some "" else none
cut_suffix p (String.◌∷◌ c s) =
    let rest = cut_suffix p s in
    if p == String.◌∷◌ c s
    then some ""
    else elim rest [ none ↦ none | some before ↦ some (String.◌∷◌ c before) ]

unfoldable pub has_suffix : String → String → Bool
unfolding cut_suffix
has_suffix p s = elim (cut_suffix p s) [ none ↦ false | some before ↦ true ]

unfoldable pub trim_suffix : String → String → String
unfolding cut_suffix
trim_suffix p s = elim (cut_suffix p s) [ none ↦ s | some before ↦ before ]

-- `strings.Contains`, with the part that is looked for first.
unfoldable pub contains : String → String → Bool
unfolding has_prefix
contains p String.[] = has_prefix p ""
contains p (String.◌∷◌ c s) = has_prefix p (String.◌∷◌ c s) || contains p s

-- What follows the first place of a part, as `s[strings.Index(s, p) + len(p):]`.
unfoldable pub cut_at : String → String → Option String
unfolding cut_prefix
cut_at p String.[] = cut_prefix p ""
cut_at p (String.◌∷◌ c s) = elim (cut_prefix p (String.◌∷◌ c s)) [
  | none ↦ cut_at p s
  | some rest ↦ some rest
]

-- `strings.Cut` at a character: what stands before and behind its first place.
unfoldable pub cut : ℕ → String → Option (String × String)
cut sep String.[] = none
cut sep (String.◌∷◌ c s) =
    let later = cut sep s in
    if is_char sep c
    then some ("", s)
    else elim later [ none ↦ none | some (a, b) ↦ some (String.◌∷◌ c a, b) ]

-- The part before the first place of a character, the whole text if there is none.
unfoldable pub before : ℕ → String → String
before sep String.[] = ""
before sep (String.◌∷◌ c s) =
    let rest = before sep s in if is_char sep c then "" else String.◌∷◌ c rest

abbrev pub prepend : Char → List String → List String
prepend c [] = String.◌∷◌ c "" ∷ []
prepend c (part ∷ parts) = String.◌∷◌ c part ∷ parts

-- `strings.Split` at a one-character separator.
unfoldable pub split : ℕ → String → List String
split sep String.[] = "" ∷ []
split sep (String.◌∷◌ c s) =
    let parts = split sep s in if is_char sep c then "" ∷ parts else prepend c parts

-- `strings.Join`
unfoldable pub join : String → List String → String
join sep [] = ""
join sep (part ∷ []) = part
join sep (part ∷ more ∷ parts) = part <> sep <> join sep (more ∷ parts)

-- `strings.Fields`: the runs of characters that are not spaces. `inside` says whether the character
-- before this one belongs to the first part.
unfoldable pub fields_from : String → List String × Bool
unfolding is_space
fields_from String.[] = ([], false)
fields_from (String.◌∷◌ c s) =
    let (parts, open_) = fields_from s in
    if is_space c
    then (parts, false)
    else (if open_ then prepend c parts else String.◌∷◌ c "" ∷ parts, true)

unfoldable pub fields : String → List String
unfolding fields_from
fields s = (fields_from s).0

-- `unicode.ToLower`, as far as the answer can be an ASCII character: the ASCII capitals, the
-- dotted capital I and the Kelvin sign. Every other character stays, so a lowered text meets an
-- ASCII text exactly when Go's does.
abbrev pub lower_code : ℕ → ℕ
lower_code c =
    if leb b'A' c && leb c b'Z'
    then c + 32
    else if c == 0x130
    then b'i'
    else if c == 0x212a
    then b'k'
    else c

-- The simple case folding of `strings.EqualFold`, in the same sense: the long s folds to s.
abbrev pub fold_code : ℕ → ℕ
fold_code c =
    if leb b'A' c && leb c b'Z'
    then c + 32
    else if c == 0x17f
    then b's'
    else if c == 0x212a
    then b'k'
    else c

-- The code points of a text, each changed by a function.
abbrev pub codes_with : (ℕ → ℕ) → String → List ℕ
codes_with f String.[] = []
codes_with f (String.◌∷◌ c s) = f (code c) ∷ codes_with f s

abbrev pub eq_codes : List ℕ → List ℕ → Bool
eq_codes [] [] = true
eq_codes (a ∷ as') (b ∷ bs) = a == b && eq_codes as' bs
eq_codes _ _ = false

-- `strings.EqualFold` against an ASCII text.
unfoldable pub equal_fold : String → String → Bool
equal_fold s t = eq_codes (codes_with fold_code s) (codes_with fold_code t)

-- `strings.ToLower(s) == t`, for an ASCII text `t` in lower case.
unfoldable pub lower_eq : String → String → Bool
lower_eq s t = eq_codes (codes_with lower_code s) (codes_with (λ n. n) t)

-- `strings.HasPrefix(strings.ToLower(s), p)` for an ASCII text `p` in lower case, with what follows
-- the prefix in `s` itself.
unfoldable pub cut_prefix_lower : String → String → Option String
cut_prefix_lower String.[] s = some s
cut_prefix_lower (String.◌∷◌ c p) String.[] = none
cut_prefix_lower (String.◌∷◌ c p) (String.◌∷◌ d s) =
    let rest = cut_prefix_lower p s in if code c == lower_code (code d) then rest else none

-- `strings.Contains(strings.ToLower(s), p)` for an ASCII text `p` in lower case.
unfoldable pub contains_lower : String → String → Bool
unfolding cut_prefix_lower
contains_lower p String.[] = p == ""
contains_lower p (String.◌∷◌ c s) = elim (cut_prefix_lower p (String.◌∷◌ c s)) [
  | none ↦ contains_lower p s
  | some rest ↦ true
]

abbrev pub Bytes : Type 0
Bytes = List ℕ

-- The code points of a text: its bytes, if it is ASCII.
abbrev pub codes : String → Bytes
codes s = codes_with (λ n. n) s
