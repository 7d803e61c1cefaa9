-- ===== src/AuthKeys/Canonical.antt =====
-- What every extracted key looks like.
use Prim.Native.Char.{Char}
use new_api_gateway.Prelude.{
  ℕ, String, Bool, true, false, List, [], ◌∷◌, Option, none, some, ◌≡◌, refl, inl, inr, arith,
  Bool-cases, not,
}
use new_api_gateway.Text.{
  is_empty, is_char, is_space, trim_left, trim_right, trim, trim_space, lacks, before, cut_prefix,
  split, fields, equal_fold, trim_prefix,
}
use new_api_gateway.AuthKeys.{
  Request, Source, bearer_key, part_or, authorization, anthropic, gemini_query, gemini_header,
  midjourney, realtime, canonicalize, canonical_key, authorization_bearer_key, realtime_key,
  try_source, extract, after_bearer,
}

module _ (p q : Char → Bool) where
  lacks-trim_left : (s : String) → lacks p s ≡ true → lacks p (trim_left q s) ≡ true
  unfolding trim_left
  lacks-trim_left String.[] h = refl
  lacks-trim_left (String.◌∷◌ c s) h = ground (arith, lacks-trim_left s)

  lacks-trim_right : (s : String) → lacks p s ≡ true → lacks p (trim_right q s) ≡ true
  unfolding trim_right
  lacks-trim_right String.[] h = refl
  lacks-trim_right (String.◌∷◌ c s) h = ground (arith, lacks-trim_right s)

lacks-before : (n : ℕ) (s : String) → lacks (is_char n) (before n s) ≡ true
unfolding before
lacks-before n String.[] = refl
lacks-before n (String.◌∷◌ c s) = elim (Bool-cases (is_char n c)) [
  | inl same ↦ rw same
  | inr other ↦ rw (other, other, lacks-before n s)
]

-- The text does not begin with a character of the class.
abbrev starts_outside : (Char → Bool) → String → Bool
starts_outside p String.[] = true
starts_outside p (String.◌∷◌ c s) = not (p c)

module _ (p : Char → Bool) where
  starts-trim_left : (s : String) → starts_outside p (trim_left p s) ≡ true
  unfolding trim_left
  starts-trim_left String.[] = refl
  starts-trim_left (String.◌∷◌ c s) = ground (arith, starts-trim_left s)

  trim_left-starts : (s : String) → starts_outside p s ≡ true → trim_left p s ≡ s
  unfolding trim_left
  trim_left-starts String.[] h = refl
  trim_left-starts (String.◌∷◌ c s) h = ground arith

  starts-trim_right :
      (s : String) → starts_outside p s ≡ true → starts_outside p (trim_right p s) ≡ true
  unfolding trim_right
  starts-trim_right String.[] h = refl
  starts-trim_right (String.◌∷◌ c s) h = ground arith

  trim_right_twice : (s : String) → trim_right p (trim_right p s) ≡ trim_right p s
  unfolding trim_right
  trim_right_twice String.[] = refl
  trim_right_twice (String.◌∷◌ c s) = ground (arith, trim_right_twice s)

  trim_twice : (s : String) → trim p (trim p s) ≡ trim p s
  unfolding trim
  trim_twice s =
      rw (trim_left-starts _ (starts-trim_right (trim_left p s) (starts-trim_left s)))
        (trim_right_twice (trim_left p s))

-- A key as the gateway looks it up: not empty, trimmed, without a dash.
pub record IsKey (key : String) : Type 0 where
  pub present : is_empty key ≡ false
  pub trimmed : trim_space key ≡ key
  pub no_dash : lacks (is_char b'-') key ≡ true

-- The text that is trimmed at the end.
abbrev bare : String → String
bare value = before b'-' (trim_prefix "sk-" (after_bearer (trim_space value)))

lacks-trim_space : (p : Char → Bool) (s : String) → lacks p s ≡ true → lacks p (trim_space s) ≡ true
unfolding trim_space trim
lacks-trim_space p s h =
    lacks-trim_right p is_space (trim_left is_space s) (lacks-trim_left p is_space s h)

trim_space_twice : (s : String) → trim_space (trim_space s) ≡ trim_space s
unfolding trim_space
trim_space_twice s = trim_twice is_space s

canonicalize-trim_space : (value : String) → trim_space (canonicalize value) ≡ canonicalize value
unfolding canonicalize
canonicalize-trim_space value = trim_space_twice (bare value)

canonicalize-lacks : (value : String) → lacks (is_char b'-') (canonicalize value) ≡ true
unfolding canonicalize
canonicalize-lacks value =
    lacks-trim_space (is_char b'-') (bare value)
      (lacks-before b'-' (trim_prefix "sk-" (after_bearer (trim_space value))))

-- The key that there may be is one.
abbrev KeyIn : Option String → Type 0
KeyIn none = Unit
KeyIn (some key) = IsKey key

abbrev FromKey : Option (String × Source) → Type 0
FromKey none = Unit
FromKey (some (key, source)) = IsKey key

canonical_key-KeyIn : (value : String) → KeyIn (canonical_key value)
unfolding canonical_key
canonical_key-KeyIn value = elim (Bool-cases (is_empty (canonicalize value))) [
  | inl empty ↦ rw empty tt
  | inr here ↦ rw here (record {
    present = here;
    trimmed = canonicalize-trim_space value;
    no_dash = canonicalize-lacks value;
  })
]

bearer_key-KeyIn : (parts : List String) → KeyIn (bearer_key parts)
unfolding bearer_key
bearer_key-KeyIn [] = tt
bearer_key-KeyIn (scheme ∷ []) = tt
bearer_key-KeyIn (scheme ∷ key ∷ []) = elim (Bool-cases (equal_fold scheme "Bearer")) [
  | inl bearer ↦ rw bearer (canonical_key-KeyIn key)
  | inr other ↦ rw other tt
]
bearer_key-KeyIn (scheme ∷ key ∷ more ∷ rest) = tt

bearer-KeyIn : (value : String) → KeyIn (authorization_bearer_key value)
unfolding authorization_bearer_key
bearer-KeyIn value = bearer_key-KeyIn (fields (trim_space value))

or_later-KeyIn :
    (o later : Option String)
    → KeyIn o
    → KeyIn later
    → KeyIn (elim o [ none ↦ later | some key ↦ some key ])
or_later-KeyIn none later h next = next
or_later-KeyIn (some key) later h next = h

part_or-KeyIn : (o later : Option String) → KeyIn later → KeyIn (part_or o later)
unfolding part_or
part_or-KeyIn none later next = next
part_or-KeyIn (some rest) later next =
    or_later-KeyIn (canonical_key rest) later (canonical_key-KeyIn rest) next

realtime_key-KeyIn : (parts : List String) → KeyIn (realtime_key parts)
unfolding realtime_key
realtime_key-KeyIn [] = tt
realtime_key-KeyIn (part ∷ parts) =
    part_or-KeyIn (cut_prefix "openai-insecure-api-key." (trim_space part)) (realtime_key parts)
      (realtime_key-KeyIn parts)

try_source-FromKey :
    (source : Source) (o : Option String) (next : Option (String × Source))
    → KeyIn o
    → FromKey next
    → FromKey (try_source source o next)
try_source-FromKey source none next mine later = later
try_source-FromKey source (some k) next mine later = mine

extract-FromKey : (r : Request) → FromKey (extract r)
unfolding extract
extract-FromKey r = try_source-FromKey authorization _ _ (bearer-KeyIn (r.header "Authorization")) (
    try_source-FromKey anthropic _ _ (canonical_key-KeyIn (r.header "x-api-key")) (
      try_source-FromKey gemini_query _ _ (canonical_key-KeyIn (r.query "key")) (
        try_source-FromKey gemini_header _ _ (canonical_key-KeyIn (r.header "x-goog-api-key")) (
          try_source-FromKey midjourney _ _ (canonical_key-KeyIn (r.header "mj-api-secret"))
            (elim (Bool-cases (is_empty (r.header "Sec-WebSocket-Protocol"))) [
              | inl empty ↦ rw empty tt
              | inr here ↦ rw here (
                  try_source-FromKey realtime _ none
                    (realtime_key-KeyIn (split b',' (r.header "Sec-WebSocket-Protocol"))) tt)
            ])))))

-- Whatever source a key is taken from, it is not empty, has no spaces at its ends and no dash.
pub extract-IsKey :
    (r : Request) {key : String} {source : Source} → extract r ≡ some (key, source) → IsKey key
extract-IsKey r h = rw h at (extract-FromKey r)
