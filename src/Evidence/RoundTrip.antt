-- ===== src/Evidence/RoundTrip.antt =====
-- internal/evidence/store.go: `Get` gives back what `Put` has stored.
pub mod Stored
use text.Mathlib.TextLemmas.{nil-append, cons-append, append_assoc}
use new_api_gateway.Prelude.{
  ℕ, String, Bool, true, false, not, ◌&&◌, ◌||◌, List, [], ◌∷◌, ◌++◌, Option, none, some, ◌≡◌, refl,
  sym, ap, ◌∙◌, inl, inr, arith, ◌==◌, string_eq, if◌then◌else◌, Bool-cases, any,
}
use new_api_gateway.Text.{◌<>◌, is_empty, is_char, lacks, has_prefix, contains, split, join}
use new_api_gateway.Evidence.{Names, clean, is_bad_part, is_bad_name, or_none, validate_object_ref}
use new_api_gateway.Evidence.Paths.{IsPlain, clean-IsPlain}
use new_api_gateway.Evidence.Parts.{
  starts, doubled, single, double, contains-single, contains-double, has_prefix-cons, doubled-glue,
  doubled-separator, lacks-append, split-lacks, split-glue,
}

-- A name that a reference can hold.
pub record IsPart (name : String) : Type 0 where
  pub no_slash : lacks (is_char b'/') name ≡ true
  pub no_backslash : lacks (is_char b'\\') name ≡ true
  pub no_dots : doubled b'.' name ≡ false
  pub good : is_bad_name name ≡ false

not-false : (b : Bool) → not b ≡ false → b ≡ true
not-false b h = ground arith

or_false : (a b : Bool) → (a || b) ≡ false → (a ≡ false) × (b ≡ false)
or_false a b h = (ground arith, ground arith)

three_false : (a b c : Bool) → (a || b || c) ≡ false → (a ≡ false) × (b ≡ false) × (c ≡ false)
three_false a b c h = (ground arith, ground arith, ground arith)

tests_false :
    (e p d dd s b t : Bool)
    → (e || (p || d || dd) || (s || b || t)) ≡ false
    → ((e || d || dd) ≡ false) × (s ≡ false) × (b ≡ false) × (t ≡ false)
tests_false e p d dd s b t h = (ground arith, ground arith, ground arith, ground arith)

-- What the validation of a part says of it.
pub is_bad_part-IsPart : (value : String) → is_bad_part value ≡ false → IsPart value
unfolding is_bad_part is_bad_name
is_bad_part-IsPart value h =
    let (good, s, b, t) =
      tests_false (is_empty value) (has_prefix "/" value) (value == ".") (value == "..")
        (contains "/" value) (contains "\\" value) (contains ".." value) h in
    record {
      no_slash = not-false (lacks (is_char b'/') value) (sym (contains-single "/" value) ∙ s);
      no_backslash = not-false (lacks (is_char b'\\') value) (sym (contains-single "\\" value) ∙ b);
      no_dots = sym (contains-double "." value) ∙ t;
      good = good;
    }

abbrev pub AreParts : Names → Type 0
AreParts [] = Unit
AreParts (name ∷ names) = IsPart name × AreParts names

pub AreParts-IsPlain : (names : Names) → AreParts names → IsPlain names
AreParts-IsPlain [] h = refl
AreParts-IsPlain (name ∷ names) (p, h) = rw (p.good, AreParts-IsPlain names h) refl

-- What holds of a reference that is joined from such names.
record IsJoined (names : Names) (text : String) : Type 0 where
  filled : is_empty text ≡ false
  backslash : lacks (is_char b'\\') text ≡ true
  dots : doubled b'.' text ≡ false
  slashes : doubled b'/' text ≡ false
  start : starts b'/' text ≡ false
  parts : split b'/' text ≡ names

lacks-starts : (k : ℕ) (s : String) → lacks (is_char k) s ≡ true → starts k s ≡ false
lacks-starts k String.[] h = refl
lacks-starts k (String.◌∷◌ c s) h = ground arith

lacks-doubled : (k : ℕ) (s : String) → lacks (is_char k) s ≡ true → doubled k s ≡ false
lacks-doubled k String.[] h = refl
lacks-doubled k (String.◌∷◌ c s) h = let rest = lacks-doubled k s (ground arith) in ground arith

bad_name-filled : (name : String) → is_bad_name name ≡ false → is_empty name ≡ false
unfolding is_bad_name
bad_name-filled name h = (three_false (is_empty name) (name == ".") (name == "..") h).0

part-IsJoined : (name : String) → IsPart name → IsJoined (name ∷ []) name
part-IsJoined name p = record {
  filled = bad_name-filled name p.good;
  backslash = p.no_backslash;
  dots = p.no_dots;
  slashes = lacks-doubled b'/' name p.no_slash;
  start = lacks-starts b'/' name p.no_slash;
  parts = split-lacks b'/' name p.no_slash;
}

filled-start :
    (s t : String)
    → is_empty s ≡ false
    → lacks (is_char b'/') s ≡ true
    → (is_empty (s <> t) ≡ false) × (starts b'/' (s <> t) ≡ false)
filled-start String.[] t h k = absurd (ground arith)
filled-start (String.◌∷◌ c s) t h k = rw (cons-append c s t) (refl, ground arith)

glue-IsJoined :
    (name text : String) (names : Names)
    → IsPart name
    → IsJoined names text
    → IsJoined (name ∷ names) (name <> String.◌∷◌ "/" text)
glue-IsJoined name text names p j =
    let (filled, start) =
      filled-start name (String.◌∷◌ "/" text) (bad_name-filled name p.good) p.no_slash in
    record {
      filled = filled;
      backslash =
          lacks-append (is_char b'\\') name (String.◌∷◌ "/" text)
          ∙ rw (p.no_backslash, j.backslash) refl;
      dots = doubled-glue b'.' "/" name text refl ∙ rw (p.no_dots, j.dots) refl;
      slashes = doubled-separator b'/' "/" name text p.no_slash j.start ∙ j.slashes;
      start = start;
      parts = split-glue b'/' "/" name text refl p.no_slash ∙ ap (λ l. name ∷ l) j.parts;
    }

join-glue :
    (a b : String) (l : Names) → join "/" (a ∷ b ∷ l) ≡ a <> String.◌∷◌ "/" (join "/" (b ∷ l))
unfolding join
join-glue a b l = rw (
  append_assoc a "/" (join "/" (b ∷ l)),
  cons-append "/" "" (join "/" (b ∷ l)),
  nil-append (join "/" (b ∷ l)),
)

join_one : (a : String) → join "/" (a ∷ []) ≡ a
unfolding join
join_one a = refl

join-IsJoined :
    (name : String) (names : Names)
    → AreParts (name ∷ names)
    → IsJoined (name ∷ names) (join "/" (name ∷ names))
join-IsJoined name [] (p, h) = rw (join_one name) (part-IsJoined name p)
join-IsJoined name (b ∷ l) (p, h) =
    rw (join-glue name b l) (glue-IsJoined name (join "/" (b ∷ l)) (b ∷ l) p (join-IsJoined b l h))

starts-has_prefix : (s : String) → starts b'/' s ≡ false → has_prefix "/" s ≡ false
unfolding has_prefix
starts-has_prefix String.[] h = refl
starts-has_prefix (String.◌∷◌ c s) h = rw (has_prefix-cons "/" c "" s) (ground arith)

-- A reference joined from parts is accepted, as these parts.
pub validate_object_ref-join :
    (name : String) (names : Names)
    → AreParts (name ∷ names)
    → validate_object_ref (join "/" (name ∷ names)) ≡ some (name ∷ names)
unfolding validate_object_ref
validate_object_ref-join name names h =
    let text = join "/" (name ∷ names) in
    let j = join-IsJoined name names h in
    let plain = AreParts-IsPlain (name ∷ names) h in
    rw
      (
        j.filled,
        contains-single "\\" text,
        contains-double "/" text,
        contains-double "." text,
        j.backslash,
        j.slashes,
        j.dots,
        starts-has_prefix text j.start,
        j.parts,
        plain,
        clean-IsPlain false (name ∷ names) plain,
      )
      refl
