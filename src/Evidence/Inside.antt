-- ===== src/Evidence/Inside.antt =====
-- internal/evidence/store.go: what `Get` can read.
use new_api_gateway.Prelude.{
  String, Bool, true, false, ◌||◌, [], ◌∷◌, ◌++◌, Option, none, some, ◌≡◌, refl, inl, inr,
  string_eq, if◌then◌else◌, Bool-cases, any,
}
use new_api_gateway.Text.{is_empty, has_prefix, trim_prefix, contains, split}
use new_api_gateway.Evidence.{
  Names, Files, clean, join_path, split_all, absolute_root, is_bad_name, or_none,
  validate_object_ref, is_within, open_within, open_ref, get_in, get,
}
use new_api_gateway.Evidence.Paths.{IsPlain, clean-IsPlain, append-IsPlain, clean_true-IsPlain}

-- A file that is read: it stands below the root, by plain names of which there is at least one.
pub record IsInside (root : Names) (files : Files) (content : String) : Type 0 where
  pub name : String
  pub names : Names
  pub plain : IsPlain (name ∷ names)
  pub stored : files (root ++ name ∷ names) ≡ some content

abbrev RootPlain : Option Names → Type 0
RootPlain none = Unit
RootPlain (some root) = IsPlain root

absolute_root-RootPlain :
    (directory : Names) (root : String) → RootPlain (absolute_root directory root)
unfolding absolute_root join_path
absolute_root-RootPlain directory root = elim (Bool-cases (is_empty root)) [
  | inl empty ↦ rw empty tt
  | inr given ↦ elim (Bool-cases (has_prefix "/" root)) [
    | inl rooted ↦ rw (given, rooted) (clean_true-IsPlain (split b'/' root))
    | inr other ↦ rw (given, other) (clean_true-IsPlain (directory ++ split_all (root ∷ [])))
  ]
]

pub absolute_root-IsPlain :
    (directory : Names) (root : String) {r : Names}
    → absolute_root directory root ≡ some r
    → IsPlain r
absolute_root-IsPlain directory root h = rw h at (absolute_root-RootPlain directory root)

-- The names of a reference that is accepted.
abbrev RefPlain : Option Names → Type 0
RefPlain none = Unit
RefPlain (some []) = ⊥
RefPlain (some (name ∷ names)) = IsPlain (name ∷ names)

or_none-RefPlain : (names : Names) → IsPlain names → RefPlain (or_none names)
or_none-RefPlain [] h = tt
or_none-RefPlain (name ∷ names) h = h

if-RefPlain :
    (b : Bool) (o : Option Names) → (b ≡ false → RefPlain o) → RefPlain (if b then none else o)
if-RefPlain true o h = tt
if-RefPlain false o h = h refl

validate_object_ref-RefPlain : (ref : String) → RefPlain (validate_object_ref ref)
unfolding validate_object_ref
validate_object_ref-RefPlain ref =
    let names = or_none (clean false (split b'/' ref)) in
    let checked = if any is_bad_name (split b'/' ref) then none else names in
    let relative' = if has_prefix "/" ref then none else checked in
    let clear =
      if contains "\\" ref || contains "//" ref || contains ".." ref then none else relative' in
    if-RefPlain (is_empty ref) clear (λ filled.
      if-RefPlain (contains "\\" ref || contains "//" ref || contains ".." ref) relative' (λ c.
        if-RefPlain (has_prefix "/" ref) checked (λ r.
          if-RefPlain (any is_bad_name (split b'/' ref)) names (λ plain.
            or_none-RefPlain (clean false (split b'/' ref))
              (rw (clean-IsPlain false (split b'/' ref) plain) plain)))))

-- What comes out of a reading.
abbrev ReadInside : Names → Files → Option String → Type 0
ReadInside root files none = Unit
ReadInside root files (some content) = IsInside root files content

file-ReadInside :
    (root : Names) (files : Files) (name : String) (names : Names) (o : Option String)
    → IsPlain (name ∷ names)
    → files (root ++ name ∷ names) ≡ o
    → ReadInside root files o
file-ReadInside root files name names none p e = tt
file-ReadInside root files name names (some content) p e = record {
  name = name;
  names = names;
  plain = p;
  stored = e;
}

open_within-ReadInside :
    (root : Names) (files : Files) (name : String) (names : Names)
    → IsPlain (name ∷ names)
    → ReadInside root files (open_within root files (root ++ name ∷ names))
unfolding open_within
open_within-ReadInside root files name names p =
    elim (Bool-cases (is_within root (root ++ name ∷ names))) [
      | inl inside ↦ rw inside (file-ReadInside root files name names _ p refl)
      | inr outside ↦ rw outside tt
    ]

open_ref-ReadInside :
    (root : Names) (files : Files) (ref : Option Names)
    → IsPlain root
    → RefPlain ref
    → ReadInside root files (open_ref root files ref)
unfolding open_ref
open_ref-ReadInside root files none r h = tt
open_ref-ReadInside root files (some []) r h = absurd h
open_ref-ReadInside root files (some (name ∷ names)) r h =
    rw (clean-IsPlain true (root ++ name ∷ names) (append-IsPlain root (name ∷ names) r h))
      (open_within-ReadInside root files name names h)

get_in-ReadInside :
    (root : Names) (files : Files) (ref : String)
    → IsPlain root
    → ReadInside root files (get_in files ref (some root))
unfolding get_in
get_in-ReadInside root files ref r = elim (Bool-cases (has_prefix "file:///" ref)) [
  | inl file ↦ rw file (
      open_ref-ReadInside root files (validate_object_ref (trim_prefix "file:///" ref)) r
        (validate_object_ref-RefPlain (trim_prefix "file:///" ref)))
  | inr other ↦ rw other tt
]

-- Whatever the reference is, `Get` reads only a file that stands below the root, by names of which none is
-- empty, "." or "..".
pub get-IsInside :
    (directory : Names) (root : String) (files : Files) (ref : String) {r : Names}
    {content : String}
    → absolute_root directory root ≡ some r
    → get directory root files ref ≡ some content
    → IsInside r files content
unfolding get
get-IsInside directory root files ref {r} h g =
    rw (rw h at g) at (get_in-ReadInside r files ref (absolute_root-IsPlain directory root h))
