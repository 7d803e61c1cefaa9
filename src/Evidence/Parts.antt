-- ===== src/Evidence/Parts.antt =====
-- Texts that are joined from parts: what they contain, and how they are split again.
use Prim.Native.Char.{Char, code}
use text.Mathlib.TextLemmas.{nil-append, cons-append}
use new_api_gateway.Prelude.{
  ℕ, String, Bool, true, false, not, ◌&&◌, ◌||◌, [], ◌∷◌, Option, none, some, ◌≡◌, refl, arith,
  ◌==◌, string_eq, nat_eq, if◌then◌else◌,
}
use new_api_gateway.Text.{◌<>◌, is_char, lacks, cut_prefix, has_prefix, contains, split}

-- The text begins with the character, and has it twice in a row.
abbrev pub starts : ℕ → String → Bool
starts k String.[] = false
starts k (String.◌∷◌ c s) = is_char k c

abbrev pub doubled : ℕ → String → Bool
doubled k String.[] = false
doubled k (String.◌∷◌ c s) = (is_char k c && starts k s) || doubled k s

-- The patterns of the two forms.
abbrev pub single : Char → String
single c = String.◌∷◌ c ""

abbrev pub double : Char → String
double c = String.◌∷◌ c (String.◌∷◌ c "")

or_assoc : (a b c : Bool) → (a || (b || c)) ≡ ((a || b) || c)
or_assoc a b c = ground arith

and_assoc : (a b c : Bool) → (a && (b && c)) ≡ ((a && b) && c)
and_assoc a b c = ground arith

and_false : (a b : Bool) → (a && false || b) ≡ b
and_false a b = ground arith

some_if :
    (b : Bool) (o : Option String)
    → elim (if b then o else none) [ none ↦ false | some rest ↦ true ]
      ≡ (b && elim o [ none ↦ false | some rest ↦ true ])
some_if true o = refl
some_if false o = refl

pub has_prefix-cons :
    (p c : Char) (ps s : String)
    → has_prefix (String.◌∷◌ p ps) (String.◌∷◌ c s) ≡ (is_char (code c) p && has_prefix ps s)
unfolding has_prefix cut_prefix
has_prefix-cons p c ps s = some_if (code p == code c) (cut_prefix ps s)

has_prefix-nil : (s : String) → has_prefix "" s ≡ true
unfolding has_prefix cut_prefix
has_prefix-nil s = refl

same_code : (p c : Char) → is_char (code c) p ≡ is_char (code p) c
same_code p c = ground arith

has_prefix-single :
    (p c : Char) (s : String) → has_prefix (single p) (String.◌∷◌ c s) ≡ is_char (code p) c
has_prefix-single p c s =
    rw (has_prefix-cons p c "" s, has_prefix-nil s, same_code p c) (ground arith)

has_prefix-double :
    (p c : Char) (s : String)
    → has_prefix (double p) (String.◌∷◌ c s) ≡ (is_char (code p) c && starts (code p) s)
unfolding has_prefix cut_prefix
has_prefix-double p c String.[] =
    rw (has_prefix-cons p c (single p) "", same_code p c) (ground arith)
has_prefix-double p c (String.◌∷◌ d s) =
    rw (has_prefix-cons p c (single p) (String.◌∷◌ d s), has_prefix-single p d s, same_code p c)
      refl

pub contains-double : (p : Char) (s : String) → contains (double p) s ≡ doubled (code p) s
unfolding contains
contains-double p String.[] = refl
contains-double p (String.◌∷◌ c s) = rw (has_prefix-double p c s, contains-double p s) refl

not_and : (a b : Bool) → (a || not b) ≡ not (not a && b)
not_and a b = ground arith

pub contains-single :
    (p : Char) (s : String) → contains (single p) s ≡ not (lacks (is_char (code p)) s)
unfolding contains
contains-single p String.[] = refl
contains-single p (String.◌∷◌ c s) =
    rw (has_prefix-single p c s, contains-single p s)
      (not_and (is_char (code p) c) (lacks (is_char (code p)) s))

-- Two texts with a separator between them. No character is doubled across a separator that is another.
starts-glue :
    (k : ℕ) (c : Char) (s t : String)
    → is_char k c ≡ false
    → starts k (s <> String.◌∷◌ c t) ≡ starts k s
starts-glue k c String.[] t h = rw (nil-append (String.◌∷◌ c t)) h
starts-glue k c (String.◌∷◌ d s) t h = rw (cons-append d s (String.◌∷◌ c t)) refl

pub doubled-glue :
    (k : ℕ) (c : Char) (s t : String)
    → is_char k c ≡ false
    → doubled k (s <> String.◌∷◌ c t) ≡ (doubled k s || doubled k t)
doubled-glue k c String.[] t h = rw (nil-append (String.◌∷◌ c t), h) refl
doubled-glue k c (String.◌∷◌ d s) t h =
    rw (cons-append d s (String.◌∷◌ c t), starts-glue k c s t h, doubled-glue k c s t h)
      (or_assoc (is_char k d && starts k s) (doubled k s) (doubled k t))

-- A text without the separator, and one that does not begin with it.
pub doubled-separator :
    (k : ℕ) (c : Char) (s t : String)
    → lacks (is_char k) s ≡ true
    → starts k t ≡ false
    → doubled k (s <> String.◌∷◌ c t) ≡ doubled k t
doubled-separator k c String.[] t h b =
    rw (nil-append (String.◌∷◌ c t), b) (and_false (is_char k c) (doubled k t))
doubled-separator k c (String.◌∷◌ d s) t h b =
    let other : is_char k d ≡ false = ground arith in
    rw (cons-append d s (String.◌∷◌ c t), other) (doubled-separator k c s t (ground arith) b)

pub lacks-append : (p : Char → Bool) (s t : String) → lacks p (s <> t) ≡ (lacks p s && lacks p t)
lacks-append p String.[] t = rw (nil-append t) refl
lacks-append p (String.◌∷◌ c s) t =
    rw (cons-append c s t, lacks-append p s t) (and_assoc (not (p c)) (lacks p s) (lacks p t))

-- A split gives the parts back, if they lack the separator.
pub split-lacks : (k : ℕ) (s : String) → lacks (is_char k) s ≡ true → split k s ≡ s ∷ []
unfolding split
split-lacks k String.[] h = refl
split-lacks k (String.◌∷◌ c s) h =
    let other : is_char k c ≡ false = ground arith in
    rw (other, split-lacks k s (ground arith)) refl

pub split-glue :
    (k : ℕ) (c : Char) (s t : String)
    → is_char k c ≡ true
    → lacks (is_char k) s ≡ true
    → split k (s <> String.◌∷◌ c t) ≡ s ∷ split k t
unfolding split
split-glue k c String.[] t e h = rw (nil-append (String.◌∷◌ c t), e) refl
split-glue k c (String.◌∷◌ d s) t e h =
    let other : is_char k d ≡ false = ground arith in
    rw (cons-append d s (String.◌∷◌ c t), other, split-glue k c s t e (ground arith)) refl
