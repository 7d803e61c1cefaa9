-- ===== src/Evidence/RoundTrip/Stored.antt =====
-- internal/evidence/store.go: `Put`, and `Get` of the reference that it gives.
use Prim.Native.Char.{code}
use text.Mathlib.TextLemmas.{nil-append, cons-append}
use new_api_gateway.Prelude.{
  String, Bool, true, false, not, ◌||◌, [], ◌∷◌, ◌++◌, Option, none, some, ◌≡◌, refl, sym, ap, ◌∙◌,
  inl, inr, arith, ◌==◌, string_eq, nat_eq, Bool-cases, append_assoc,
}
use new_api_gateway.Text.{
  ◌<>◌, is_empty, is_char, cut_prefix, has_prefix, trim_prefix, contains, join,
}
use new_api_gateway.Evidence.{
  Names, Files, join_path, split_all, is_bad_part, is_bad_name, is_within, open_within, open_ref,
  get_in, get, PutRequest, Object, same_path, write_file, named, write_object, put_object, put_in,
  put, absolute_root,
}
use new_api_gateway.Evidence.Paths.{IsPlain, clean-IsPlain, append-IsPlain, relative-append}
use new_api_gateway.Evidence.Parts.{doubled, contains-double, lacks-append, split-lacks}
use new_api_gateway.Evidence.Inside.{absolute_root-IsPlain}
use new_api_gateway.Evidence.RoundTrip.{
  IsPart, is_bad_part-IsPart, AreParts, AreParts-IsPlain, validate_object_ref-join,
}

cut_prefix-append : (p s : String) → cut_prefix p (p <> s) ≡ some s
unfolding cut_prefix
cut_prefix-append String.[] s = rw (nil-append s) refl
cut_prefix-append (String.◌∷◌ c p) s =
    rw (cons-append c p s, (nat_eq.same_iff (code c) (code c)).1 refl, cut_prefix-append p s) refl

has_prefix-append : (p s : String) → has_prefix p (p <> s) ≡ true
unfolding has_prefix
has_prefix-append p s = rw (has_prefix, cut_prefix-append p s) refl

trim_prefix-append : (p s : String) → trim_prefix p (p <> s) ≡ s
unfolding trim_prefix
trim_prefix-append p s = rw (trim_prefix, cut_prefix-append p s) refl

-- Names without a slash are the parts of their joined path.
split_all-AreParts : (names : Names) → AreParts names → split_all names ≡ names
split_all-AreParts [] h = refl
split_all-AreParts (name ∷ names) (p, h) =
    rw (split-lacks b'/' name p.no_slash, split_all-AreParts names h) refl

join_path-AreParts :
    (root names : Names) → IsPlain root → AreParts names → join_path root names ≡ root ++ names
unfolding join_path
join_path-AreParts root names r h =
    rw (split_all-AreParts names h)
      (clean-IsPlain true (root ++ names) (append-IsPlain root names r (AreParts-IsPlain names h)))

-- The name of the file of an object type.
abbrev longer : String → Bool
longer String.[] = false
longer (String.◌∷◌ c s) = not (is_empty s)

longer-bin : (s : String) → is_empty s ≡ false → longer (s <> ".bin") ≡ true
longer-bin String.[] h = absurd (ground arith)
longer-bin (String.◌∷◌ c String.[]) h = rw (cons-append c "" ".bin") refl
longer-bin (String.◌∷◌ c (String.◌∷◌ d s)) h =
    rw (cons-append c (String.◌∷◌ d s) ".bin", cons-append d s ".bin") refl

not_dot : (s : String) → longer s ≡ true → s == "." ≡ false
not_dot s h = elim (Bool-cases (s == ".")) [
  | inl dot ↦ absurd (ground (arith, sym (ap longer ((string_eq.same_iff s ".").0 dot)) ∙ h))
  | inr other ↦ other
]

not_dots : (s : String) → doubled b'.' s ≡ false → s == ".." ≡ false
not_dots s h = elim (Bool-cases (s == "..")) [
  | inl dots ↦
      absurd (ground (arith, sym (ap (doubled b'.') ((string_eq.same_iff s "..").0 dots)) ∙ h))
  | inr other ↦ other
]

longer-filled : (s : String) → longer s ≡ true → is_empty s ≡ false
longer-filled String.[] h = absurd (ground arith)
longer-filled (String.◌∷◌ c s) h = refl

first_false : (a b c : Bool) → (a || b || c) ≡ false → a ≡ false
first_false a b c h = ground arith

bad_filled : (s : String) → is_bad_name s ≡ false → is_empty s ≡ false
unfolding is_bad_name
bad_filled s h = first_false (is_empty s) (s == ".") (s == "..") h

bin-IsPart :
    (object_type : String)
    → IsPart object_type
    → contains ".." (object_type <> ".bin") ≡ false
    → IsPart (object_type <> ".bin")
unfolding is_bad_name
bin-IsPart object_type p h =
    let dots = sym (contains-double "." (object_type <> ".bin")) ∙ h in
    let long = longer-bin object_type (bad_filled object_type p.good) in
    record {
      no_slash = lacks-append (is_char b'/') object_type ".bin" ∙ rw p.no_slash refl;
      no_backslash = lacks-append (is_char b'\\') object_type ".bin" ∙ rw p.no_backslash refl;
      no_dots = dots;
      good =
          rw
            (
              longer-filled (object_type <> ".bin") long,
              not_dot (object_type <> ".bin") long,
              not_dots (object_type <> ".bin") dots,
            )
            refl;
    }

same_path_refl : (p : Names) → same_path p p ≡ true
same_path_refl [] = refl
same_path_refl (a ∷ p) = rw ((string_eq.same_iff a a).1 refl, same_path_refl p) refl

is_within-append : (root names : Names) → is_within root (root ++ names) ≡ true
unfolding is_within
is_within-append root names = rw (relative-append root names) refl

-- The reference of a file below the root reads the file.
get_in-ref :
    (root : Names) (name : String) (names : Names) (files : Files) (content : String)
    → IsPlain root
    → AreParts (name ∷ names)
    → get_in
        (write_file files (root ++ name ∷ names) content)
        ("file:///" <> join "/" (name ∷ names))
        (some root)
      ≡ some content
unfolding get_in open_ref open_within
get_in-ref root name names files content r h =
    let ref = join "/" (name ∷ names) in
    rw
      (
        has_prefix-append "file:///" ref,
        trim_prefix-append "file:///" ref,
        validate_object_ref-join name names h,
        clean-IsPlain true (root ++ name ∷ names)
            (append-IsPlain root (name ∷ names) r (AreParts-IsPlain (name ∷ names) h)),
        is_within-append root (name ∷ names),
        same_path_refl (root ++ name ∷ names),
      )
      refl

raw-IsPart : IsPart "raw"
unfolding is_bad_name
raw-IsPart = record { no_slash = refl; no_backslash = refl; no_dots = refl; good = refl }

-- What comes out of a storing.
abbrev Stored : PutRequest → Names → Option Object × Files → Type 0
Stored req root (none, files) = Unit
Stored req root (some o, files) =
    (req.reader ≡ some o.content) × (get_in files o.object_ref (some root) ≡ some o.content)

module _ (works : Bool) (files : Files) (req : PutRequest) (root : Names) (r : IsPlain root) where
  write_object-Stored :
      (content : String) (name : String) (names : Names)
      → req.reader ≡ some content
      → AreParts (name ∷ names)
      → Stored req root (write_object works files req content root (root ++ name ∷ names))
  unfolding write_object named
  write_object-Stored content name names e h = elim (Bool-cases works) [
    | inr broken ↦ rw (is_within-append root (name ∷ names), broken) tt
    | inl ok ↦
        rw (is_within-append root (name ∷ names), ok, relative-append root (name ∷ names))
          (e, get_in-ref root name names files content r h)
  ]

  module _ (year month day : String) (y : IsPart year) (m : IsPart month) (d : IsPart day)
      (bin : contains ".." (req.object_type <> ".bin") ≡ false) where
    put_object-Stored :
        (reader : Option String)
        → req.reader ≡ reader
        → IsPart req.trace_id
        → IsPart req.object_type
        → Stored req root (put_object works (year, month, day) files req root reader)
    unfolding put_object
    put_object-Stored none e t o = tt
    put_object-Stored (some content) e t o =
        let raw = raw-IsPart in
        let names = year ∷ month ∷ day ∷ req.trace_id ∷ [] in
        let file = req.object_type <> ".bin" in
        let b = bin-IsPart req.object_type o bin in
        let parts : AreParts ("raw" ∷ names) = (raw, (y, (m, (d, (t, tt))))) in
        rw
          (
            join_path-AreParts root ("raw" ∷ names) r parts,
            join_path-AreParts (root ++ "raw" ∷ names) (file ∷ [])
                (append-IsPlain root ("raw" ∷ names) r (AreParts-IsPlain ("raw" ∷ names) parts))
                (b, tt),
            append_assoc root ("raw" ∷ names) (file ∷ []),
          )
          (write_object-Stored content "raw" (names ++ file ∷ []) e
            (raw, (y, (m, (d, (t, (b, tt)))))))

    put_in-Stored : Stored req root (put_in works (year, month, day) files req (some root))
    unfolding put_in
    put_in-Stored = elim (Bool-cases (is_bad_part req.trace_id)) [
      | inl bad ↦ rw bad tt
      | inr t ↦ elim (Bool-cases (is_bad_part req.object_type)) [
        | inl bad ↦ rw (t, bad) tt
        | inr o ↦
            rw (t, o)
              (put_object-Stored req.reader refl (is_bad_part-IsPart req.trace_id t)
                (is_bad_part-IsPart req.object_type o))
      ]
    ]

abbrev object_or : Object → Option Object → Object
object_or o none = o
object_or o (some o') = o'

read-Stored :
    (req : PutRequest) (root : Names) (p : Option Object × Files) (o : Object)
    → Stored req root p
    → p.0 ≡ some o
    → (req.reader ≡ some o.content) × (get_in p.1 o.object_ref (some root) ≡ some o.content)
read-Stored req root (none, files) o s h = absurd (cc)
read-Stored req root (some o', files) o s h = rw (ap (object_or o') h) at s

-- An object that `Put` has stored is there: its content is the reader's, and `Get` of its reference gives the
-- content back. The store has a root, the three parts of the date can be names of directories, and the
-- object type does not end in a dot, since `Get` refuses a reference with two dots in a row.
pub get-put :
    (works : Bool) (year month day : String) (directory : Names) (root : String) (files : Files)
    (req : PutRequest) {r : Names} {o : Object}
    → absolute_root directory root ≡ some r
    → IsPart year
    → IsPart month
    → IsPart day
    → contains ".." (req.object_type <> ".bin") ≡ false
    → let p = put works (year, month, day) directory root files req in
      p.0 ≡ some o
      → (req.reader ≡ some o.content) × (get directory root p.1 o.object_ref ≡ some o.content)
unfolding put get
get-put works year month day directory root files req {r} {o} e y m d bin h = rw e (
    read-Stored req r (put_in works (year, month, day) files req (some r)) o
      (put_in-Stored works files req r (absolute_root-IsPlain directory root e) year month day y m d
        bin)
      (rw e at h))
