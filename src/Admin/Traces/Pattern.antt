-- ===== src/Admin/Traces/Pattern.antt =====
-- internal/admin/repository.go: what an escaped name finds.
use Prim.Native.Char.{Char}
use text.Mathlib.TextLemmas.{cons-append}
use new_api_gateway.Prelude.{
  String, Bool, true, false, ◌&&◌, ◌||◌, ◌≡◌, refl, ap, ◌∙◌, inl, inr, arith, Bool-cases, nat_eq,
}
use new_api_gateway.Text.{◌<>◌, is_char}
use new_api_gateway.Admin.Traces.{is_meta, escape_ilike, one_char, any_suffix, ilike}

module _ (same : Char → Char → Bool) where
  -- The text begins with the name, up to the case of the characters.
  abbrev pub begins : String → String → Bool
  begins String.[] t = true
  begins (String.◌∷◌ c s) String.[] = false
  begins (String.◌∷◌ c s) (String.◌∷◌ d t) = same c d && begins s t

  -- "%" finds every text.
  any_empty : (t : String) → any_suffix (λ s. ilike same false "" s) t ≡ true
  unfolding ilike
  any_empty String.[] = refl
  any_empty (String.◌∷◌ d t) = rw (any_empty t) refl

  ilike-percent : (t : String) → ilike same false "%" t ≡ true
  unfolding ilike
  ilike-percent t = any_empty t

  three_false : (a b c : Bool) → (a || b || c) ≡ false → (a ≡ false) × (b ≡ false) × (c ≡ false)
  three_false a b c h = (ground arith, ground arith, ground arith)

  -- A character that is none of the pattern's own stands for itself, and so does an escaped one.
  ilike-plain :
      (c : Char) (p t : String)
      → is_meta c ≡ false
      → ilike same false (String.◌∷◌ c p) t ≡ one_char (same c) (λ s. ilike same false p s) t
  unfolding ilike is_meta
  ilike-plain c p t h =
      let (a, b, d) = three_false (is_char b'\\' c) (is_char b'%' c) (is_char b'_' c) h in
      rw (a, b, d) refl

  ilike-escaped :
      (c : Char) (p t : String)
      → ilike same false (String.◌∷◌ "\\" (String.◌∷◌ c p)) t
        ≡ one_char (same c) (λ s. ilike same false p s) t
  unfolding ilike
  ilike-escaped c p t = refl

  escape_ilike-cons :
      (c : Char) (s t : String)
      → ilike same false (escape_ilike (String.◌∷◌ c s) <> "%") t
        ≡ one_char (same c) (λ u. ilike same false (escape_ilike s <> "%") u) t
  unfolding escape_ilike
  escape_ilike-cons c s t = elim (Bool-cases (is_meta c)) [
    | inl meta ↦
        rw
          (
            meta,
            cons-append "\\" (String.◌∷◌ c (escape_ilike s)) "%",
            cons-append c (escape_ilike s) "%",
          )
          (ilike-escaped c (escape_ilike s <> "%") t)
    | inr plain ↦
        rw (plain, cons-append c (escape_ilike s) "%")
          (ilike-plain c (escape_ilike s <> "%") t plain)
  ]

  escape_ilike-nil : (t : String) → ilike same false (escape_ilike "" <> "%") t ≡ true
  unfolding escape_ilike
  escape_ilike-nil t = ilike-percent t

  -- The escaped name with a "%" behind it finds the texts that begin with the name itself.
  pub escape_ilike-begins : (s t : String) → ilike same false (escape_ilike s <> "%") t ≡ begins s t
  escape_ilike-begins String.[] t = escape_ilike-nil t
  escape_ilike-begins (String.◌∷◌ c s) String.[] = escape_ilike-cons c s ""
  escape_ilike-begins (String.◌∷◌ c s) (String.◌∷◌ d t) =
      escape_ilike-cons c s (String.◌∷◌ d t) ∙ ap (λ b. same c d && b) (escape_ilike-begins s t)
