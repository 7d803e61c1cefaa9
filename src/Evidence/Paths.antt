-- ===== src/Evidence/Paths.antt =====
-- internal/evidence/store.go: paths of plain names, which `filepath.Clean` keeps.
use new_api_gateway.Prelude.{
  String, Bool, true, false, ◌||◌, [], ◌∷◌, ◌++◌, some, ◌≡◌, refl, inl, inr, arith, ◌==◌, string_eq,
  Bool-cases, any,
}
use new_api_gateway.Text.{is_empty}
use new_api_gateway.Evidence.{Names, up, push, unwind, clean_onto, clean, relative, is_bad_name}

-- No name is empty, "." or "..".
abbrev pub IsPlain : Names → Type 0
IsPlain names = any is_bad_name names ≡ false

or_false : (a b : Bool) → (a || b) ≡ false → (a ≡ false) × (b ≡ false)
or_false a b h = (ground arith, ground arith)

three_false : (a b c : Bool) → (a || b || c) ≡ false → (a ≡ false) × (b ≡ false) × (c ≡ false)
three_false a b c h = (ground arith, ground arith, ground arith)

two_and_false : (a b c : Bool) → (a || b) ≡ false → c ≡ false → (a || b || c) ≡ false
two_and_false a b c h k = ground arith

plain-push :
    (rooted : Bool) (above : Names) (name : String)
    → is_bad_name name ≡ false
    → push rooted above name ≡ name ∷ above
unfolding push is_bad_name
plain-push rooted above name h =
    let (filled, dot, dots) = three_false (is_empty name) (name == ".") (name == "..") h in
    rw (filled, dot, dots) refl

clean_onto-IsPlain :
    (rooted : Bool) (above names : Names)
    → IsPlain names
    → clean_onto rooted above names ≡ unwind above names
unfolding clean_onto
clean_onto-IsPlain rooted above [] h = refl
clean_onto-IsPlain rooted above (name ∷ names) h =
    let (here, rest) = or_false (is_bad_name name) (any is_bad_name names) h in
    rw (plain-push rooted above name here) (clean_onto-IsPlain rooted (name ∷ above) names rest)

pub clean-IsPlain : (rooted : Bool) (names : Names) → IsPlain names → clean rooted names ≡ names
unfolding clean
clean-IsPlain rooted names h = clean_onto-IsPlain rooted [] names h

pub append-IsPlain : (a b : Names) → IsPlain a → IsPlain b → IsPlain (a ++ b)
append-IsPlain [] b h k = k
append-IsPlain (name ∷ a) b h k =
    let (here, rest) = or_false (is_bad_name name) (any is_bad_name a) h in
    rw (here, append-IsPlain a b rest k) refl

-- An absolute path that has been cleaned is plain.
no_dots : (name : String) → is_bad_name name ≡ false → name == ".." ≡ false
unfolding is_bad_name
no_dots name h = (three_false (is_empty name) (name == ".") (name == "..") h).2

up-IsPlain : (above : Names) → IsPlain above → IsPlain (up true above)
unfolding up
up-IsPlain [] h = refl
up-IsPlain (top ∷ above) h =
    let (here, rest) = or_false (is_bad_name top) (any is_bad_name above) h in
    rw (no_dots top here) rest

good_name :
    (name : String)
    → (is_empty name || name == ".") ≡ false
    → name == ".." ≡ false
    → is_bad_name name ≡ false
unfolding is_bad_name
good_name name h k = two_and_false (is_empty name) (name == ".") (name == "..") h k

push-IsPlain : (above : Names) (name : String) → IsPlain above → IsPlain (push true above name)
unfolding push
push-IsPlain above name h = elim (Bool-cases (is_empty name || name == ".")) [
  | inl skip ↦ rw skip h
  | inr other ↦ elim (Bool-cases (name == "..")) [
    | inl dots ↦ rw (other, dots) (up-IsPlain above h)
    | inr plain ↦ rw (other, plain, good_name name other plain) h
  ]
]

unwind-IsPlain :
    (above names : Names) → IsPlain above → IsPlain names → IsPlain (unwind above names)
unwind-IsPlain [] names h k = k
unwind-IsPlain (name ∷ above) names h k =
    let (here, rest) = or_false (is_bad_name name) (any is_bad_name above) h in
    unwind-IsPlain above (name ∷ names) rest (rw (here, k) refl)

clean_onto_true-IsPlain :
    (above names : Names) → IsPlain above → IsPlain (clean_onto true above names)
unfolding clean_onto
clean_onto_true-IsPlain above [] h = unwind-IsPlain above [] h refl
clean_onto_true-IsPlain above (name ∷ names) h =
    clean_onto_true-IsPlain (push true above name) names (push-IsPlain above name h)

pub clean_true-IsPlain : (names : Names) → IsPlain (clean true names)
unfolding clean
clean_true-IsPlain names = clean_onto_true-IsPlain [] names refl

pub relative-append : (root names : Names) → relative root (root ++ names) ≡ some names
unfolding relative
relative-append [] names = refl
relative-append (name ∷ root) names =
    rw ((string_eq.same_iff name name).1 refl, relative-append root names) refl
