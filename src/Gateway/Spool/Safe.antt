-- ===== src/Gateway/Spool/Safe.antt =====
-- Which characters the name of a spool file can have.
use Prim.Native.Char.{Char}
use text.Mathlib.TextLemmas.{nil-append, cons-append}
use new_api_gateway.Prelude.{
  String, Bool, true, false, ◌≡◌, refl, inl, inr, arith, if◌then◌else◌, Bool-cases,
}
use new_api_gateway.Text.{is_empty, all_chars, trim_left, trim_right, trim, ◌<>◌}
use new_api_gateway.Gateway.Spool.{
  is_kept, is_dash, replace_unsafe, safe_spool_part, spool_stem, spool_filename,
}

module _ (p q : Char → Bool) where
  all_chars-trim_left : (s : String) → all_chars p s ≡ true → all_chars p (trim_left q s) ≡ true
  unfolding trim_left
  all_chars-trim_left String.[] h = refl
  all_chars-trim_left (String.◌∷◌ c s) h = ground (arith, all_chars-trim_left s)

  all_chars-trim_right : (s : String) → all_chars p s ≡ true → all_chars p (trim_right q s) ≡ true
  unfolding trim_right
  all_chars-trim_right String.[] h = refl
  all_chars-trim_right (String.◌∷◌ c s) h = ground (arith, all_chars-trim_right s)

all_chars-append :
    (p : Char → Bool) (s t : String)
    → all_chars p s ≡ true
    → all_chars p t ≡ true
    → all_chars p (s <> t) ≡ true
all_chars-append p String.[] t h k = rw (nil-append t) k
all_chars-append p (String.◌∷◌ c s) t h k =
    let rest = all_chars-append p s t (ground arith) k in rw (cons-append c s t) (ground arith)

underscore_kept : all_chars is_kept "_" ≡ true
unfolding is_kept
underscore_kept = refl

dash_kept : all_chars is_kept "-" ≡ true
unfolding is_kept
dash_kept = refl

trace_kept : all_chars is_kept "trace" ≡ true
unfolding is_kept
trace_kept = refl

all_chars-replace_unsafe : (s : String) → all_chars is_kept (replace_unsafe s) ≡ true
unfolding replace_unsafe
all_chars-replace_unsafe String.[] = refl
all_chars-replace_unsafe (String.◌∷◌ c s) = elim (Bool-cases (is_kept c)) [
  | inl kept ↦ rw (kept, kept, all_chars-replace_unsafe s)
  | inr other ↦
      rw other (
        all_chars-append is_kept "_" (replace_unsafe s) underscore_kept
          (all_chars-replace_unsafe s))
]

all_chars-safe_spool_part : (s : String) → all_chars is_kept (safe_spool_part s) ≡ true
unfolding safe_spool_part trim
all_chars-safe_spool_part s =
    all_chars-trim_right is_kept is_dash (trim_left is_dash (replace_unsafe s))
      (all_chars-trim_left is_kept is_dash (replace_unsafe s) (all_chars-replace_unsafe s))

all_chars_if :
    (b : Bool) (s t : String)
    → all_chars is_kept s ≡ true
    → all_chars is_kept t ≡ true
    → all_chars is_kept (if b then s else t) ≡ true
all_chars_if true s t h k = h
all_chars_if false s t h k = k

is_empty-append : (s t : String) → is_empty s ≡ false → is_empty (s <> t) ≡ false
is_empty-append String.[] t h = absurd (ground arith)
is_empty-append (String.◌∷◌ c s) t h = rw (cons-append c s t)

is_empty_start : (s : String) → is_empty (if is_empty s then "trace" else s) ≡ false
is_empty_start String.[] = refl
is_empty_start (String.◌∷◌ c s) = refl

is_empty_if :
    (b : Bool) (s t : String)
    → is_empty s ≡ false
    → is_empty t ≡ false
    → is_empty (if b then s else t) ≡ false
is_empty_if true s t h k = h
is_empty_if false s t h k = k

-- Whatever the identifier and the reason, the name of a spool file is a text that is not empty, of
-- letters, digits, dashes and underscores, and `.json` behind it: no separator gets into it.
pub spool_filename_safe :
    (trace_id reason : String)
    → let stem = spool_stem trace_id reason in
      (spool_filename trace_id reason ≡ stem <> ".json")
      × (is_empty stem ≡ false)
      × (all_chars is_kept stem ≡ true)
unfolding spool_stem spool_filename
spool_filename_safe trace_id reason =
    let name = safe_spool_part trace_id in
    let why = safe_spool_part reason in
    let present = is_empty_start name in
    let kept =
      all_chars_if (is_empty name) "trace" name trace_kept (all_chars-safe_spool_part trace_id) in
    (
      refl,
      is_empty_if (is_empty why) _ _ present (is_empty-append _ ("-" <> why) present),
      all_chars_if (is_empty why) _ _ kept (
          all_chars-append is_kept _ ("-" <> why) kept
            (all_chars-append is_kept "-" why dash_kept (all_chars-safe_spool_part reason))),
    )
