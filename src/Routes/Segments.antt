-- ===== src/Routes/Segments.antt =====
-- When the segments of a path fit a pattern, as a relation, and that the code decides it.
use new_api_gateway.Prelude.{
  ℕ, zero, suc, ◌<◌, String, Bool, true, false, List, [], ◌∷◌, ◌≡◌, ◌≢◌, ◌↔◌, inl, inr, refl, ap,
  sym, arith, eq_iff, length, take, drop, any, length-take, ◌-◌, Bool-cases, string_eq, nat_eq,
}
use new_api_gateway.Text.{is_empty, has_prefix, has_suffix}
use new_api_gateway.Routes.{
  match_segments, ends_in_star, match_split, match_segment_path, split_path, same_bool,
}

-- A path segment that a pattern segment accepts: never empty, and the same text unless the pattern
-- names a parameter.
pub data Accepts (p s : String) : Type 0 where
  parameter : has_prefix ":" p ≡ true → is_empty s ≡ false → Accepts p s
  literal : p ≡ s → is_empty s ≡ false → Accepts p s

-- The segments of a path fit those of a pattern: one by one, or up to a last `*`, which takes one or
-- more segments, none of them empty.
pub data Fits : List String → List String → Type 0 where
  done : Fits [] []
  one : {p s : String} {ps ss : List String} → Accepts p s → Fits ps ss → Fits (p ∷ ps) (s ∷ ss)
  star :
      {p s : String} {ss : List String}
      → p ≡ "*"
      → any is_empty (s ∷ ss) ≡ false
      → Fits (p ∷ []) (s ∷ ss)

segments_accept :
    (p s : String) (ps ss : List String)
    → match_segments (p ∷ ps) (s ∷ ss) ≡ true
    → Accepts p s × (match_segments ps ss ≡ true)
unfolding match_segments
segments_accept p s ps ss h = elim (Bool-cases (has_prefix ":" p)) [
  | inl named ↦ (parameter named (ground arith), ground arith)
  | inr plain ↦ (literal (ground (arith, eq_iff p s)) (ground arith), ground arith)
]

segments_of_accept :
    {p s : String} (ps ss : List String)
    → Accepts p s
    → match_segments ps ss ≡ true
    → match_segments (p ∷ ps) (s ∷ ss) ≡ true
unfolding match_segments
segments_of_accept ps ss (parameter named filled) h = ground arith
segments_of_accept {p} {s} ps ss (literal same filled) h = ground (arith, eq_iff p s)

match_segments_sound :
    (ps ss : List String) → length ps ≡ length ss → match_segments ps ss ≡ true → Fits ps ss
match_segments_sound [] [] e h = done
match_segments_sound [] (s ∷ ss) e h = absurd (omega arith)
match_segments_sound (p ∷ ps) [] e h = absurd (omega arith)
match_segments_sound (p ∷ ps) (s ∷ ss) e h =
    let (here, later) = segments_accept p s ps ss h in
    one here (match_segments_sound ps ss (omega arith) later)

-- The tests that the code makes behind a last `*`, which stands at the place `n`.
abbrev WildTests : ℕ → List String → List String → Type 0
WildTests n ps ss =
    (n < length ss)
    × (any is_empty (drop n ss) ≡ false)
    × (match_segments (take n ps) (take n ss) ≡ true)

wild_sound :
    (n : ℕ) (ps ss : List String)
    → length ps ≡ suc n
    → ends_in_star ps ≡ true
    → WildTests n ps ss
    → Fits ps ss
unfolding ends_in_star
wild_sound n [] ss k e h = absurd (omega arith)
wild_sound n (p ∷ ps) [] k e h = absurd (omega arith)
wild_sound zero (p ∷ []) (s ∷ ss) k e h = star ((eq_iff p "*").0 e) h.1
wild_sound zero (p ∷ q ∷ ps) (s ∷ ss) k e h = absurd (omega arith)
wild_sound (suc n) (p ∷ []) (s ∷ ss) k e h = absurd (omega arith)
wild_sound (suc n) (p ∷ q ∷ ps) (s ∷ ss) k e (more, filled, here) =
    let (first, rest) = segments_accept p s (take n (q ∷ ps)) (take n ss) here in
    one first (wild_sound n (q ∷ ps) ss (omega arith) e (omega arith, filled, rest))

Accepts-filled : {p s : String} → Accepts p s → is_empty s ≡ false
Accepts-filled (parameter named filled) = filled
Accepts-filled (literal same filled) = filled

star_complete :
    {ps ss : List String} (n : ℕ)
    → length ps ≡ suc n
    → ends_in_star ps ≡ true
    → Fits ps ss
    → WildTests n ps ss
unfolding ends_in_star
star_complete n k e done = cc
star_complete zero k e (one {s} {ps = []} {ss = []} here rest) =
    (omega arith, ground (arith, Accepts-filled here), unfold match_segments in refl)
star_complete (suc n) k e (one {ps = []} {ss = []} here rest) = absurd (omega arith)
star_complete n k e (one {ps = []} {ss = _ ∷ _} here rest) = elim rest [ ]
star_complete zero k e (one {ps = q ∷ ps} here rest) = absurd (omega arith)
star_complete (suc n) k e (one {ps = q ∷ ps} {ss} here rest) =
    let (more, filled, later) = star_complete n (omega arith) e rest in
    (omega arith, filled, segments_of_accept (take n (q ∷ ps)) (take n ss) here later)
star_complete zero k e (star same filled) = (omega arith, filled, unfold match_segments in refl)
star_complete (suc n) k e (star same filled) = absurd (omega arith)

fixed_complete :
    {ps ss : List String}
    → ends_in_star ps ≡ false
    → Fits ps ss
    → (length ps ≡ length ss) × (match_segments ps ss ≡ true)
unfolding ends_in_star
fixed_complete e done = (refl, unfold match_segments in refl)
fixed_complete e (one {ps = []} {ss = []} here rest) =
    (refl, segments_of_accept [] [] here (unfold match_segments in refl))
fixed_complete e (one {ps = []} {ss = _ ∷ _} here rest) = elim rest [ ]
fixed_complete e (one {ps = q ∷ ps} {ss} here rest) =
    let (same, later) = fixed_complete e rest in
    (ap suc same, segments_of_accept (q ∷ ps) ss here later)
fixed_complete e (star {p} same filled) = absurd (ground (arith, eq_iff p "*"))

same_bool_sound : (a b : Bool) → same_bool a b ≡ true → a ≡ b
same_bool_sound true b h = sym h
same_bool_sound false true h = cc
same_bool_sound false false h = refl

same_bool_of_eq : (a b : Bool) → a ≡ b → same_bool a b ≡ true
same_bool_of_eq a b e = ground arith

match_split_sound :
    (same : Bool) (ps ss : List String)
    → match_split same ps ss ≡ true
    → (same ≡ true) × (ps ≢ []) × Fits ps ss
match_split_sound same [] ss h = absurd (unfold match_split in cc)
match_split_sound same (p ∷ ps) [] h = absurd (unfold match_split in cc)
match_split_sound same (p ∷ ps) (s ∷ ss) h = elim (Bool-cases (ends_in_star (p ∷ ps))) [
  | inl wild ↦
      let tests : (same ≡ true) × WildTests (length ps) (p ∷ ps) (s ∷ ss) =
        unfold match_split in ground arith in
      (tests.0, (λ e. cc), wild_sound (length ps) (p ∷ ps) (s ∷ ss) refl wild tests.1)
  | inr plain ↦
      let tests : (same ≡ true)
          × (length (p ∷ ps) ≡ length (s ∷ ss))
          × (match_segments (p ∷ ps) (s ∷ ss) ≡ true) =
        unfold match_split in ground arith in
      (tests.0, (λ e. cc), match_segments_sound (p ∷ ps) (s ∷ ss) tests.1 tests.2)
]

match_split_complete : {ps ss : List String} → ps ≢ [] → Fits ps ss → match_split true ps ss ≡ true
match_split_complete {ps = []} filled f = absurd (filled refl)
match_split_complete {ps = p ∷ ps} {ss = []} filled f = elim f [ ]
match_split_complete {ps = p ∷ ps} {ss = s ∷ ss} filled f =
    elim (Bool-cases (ends_in_star (p ∷ ps))) [
      | inl wild ↦
          let (more, clear, later) = star_complete (length ps) refl wild f in
          let last : suc (length ps) - 1 ≡ length ps = omega arith in
          unfold match_split in
          rw last (
            ground (
              arith,
              wild,
              clear,
              later,
              length-take (length ps) (p ∷ ps),
              length-take (length ps) (s ∷ ss),
            ))
      | inr plain ↦ let (same, later) = fixed_complete plain f in unfold match_split in ground arith
    ]

match_segment_path_lem :
    (pattern path : String)
    → match_segment_path pattern path
      ≡ match_split
          (same_bool (has_suffix "/" pattern) (has_suffix "/" path))
          (split_path pattern)
          (split_path path)
unfolding match_segment_path
match_segment_path_lem pattern path = refl

-- `matchSegmentPath` accepts a path exactly when the pattern has a segment, the pattern and the path
-- agree on a trailing slash, and the segments of the path fit those of the pattern: each of them not
-- empty, and equal to the pattern's segment unless that begins with a colon or is a last `*`, which
-- takes the rest of the path.
pub match_segment_path_iff :
    (pattern path : String)
    → (match_segment_path pattern path ≡ true) ↔ (
        (has_suffix "/" pattern ≡ has_suffix "/" path)
        × (split_path pattern ≢ [])
        × Fits (split_path pattern) (split_path path))
match_segment_path_iff pattern path = (
  λ h.
      let (same, some_segment, fits) =
        match_split_sound _ (split_path pattern) (split_path path)
          (rw match_segment_path_lem at h) in
      (same_bool_sound _ _ same, some_segment, fits),
  λ (same, some_segment, fits).
      rw (match_segment_path_lem, same_bool_of_eq _ _ same)
        (match_split_complete some_segment fits),
)
