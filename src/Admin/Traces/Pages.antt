-- ===== src/Admin/Traces/Pages.antt =====
-- internal/admin/repository.go: the pages of the list of traces, one after the other.
use native.Mathlib.Nat.{lt-div-mul-add}
use Prim.Native.Char.{Char}
use new_api_gateway.Prelude.{
  ℕ, zero, suc, ◌+◌, ◌-◌, ◌*◌, ◌/◌, ◌≤◌, ◌<◌, Bool, true, false, not, ◌&&◌, ◌||◌, List, [], ◌∷◌,
  ◌++◌, Option, none, some, ◌≡◌, refl, sym, ap, ◌∙◌, inl, inr, arith, ltb, ◌==◌, nat_eq, string_eq,
  length, take, drop, take-append-drop, Bool-cases,
}
use new_api_gateway.Prelude.Int.{ℤ, pos, negsuc, int_eq}
use new_api_gateway.Admin.Traces.{
  TraceFilter, TraceSummary, TraceRow, Pagination, normalize_list_page, normalize_list_limit,
  pages_of, clamp_pagination, unless_empty, in_filter, keep, list_trace_rows, list_traces,
}
use new_api_gateway.Admin.Traces.Pattern.{begins, escape_ilike-begins}

module _ {A : Type 0} where
  drop-nil : (n : ℕ) → drop {A = A} n [] ≡ []
  drop-nil zero = refl
  drop-nil (suc n) = refl

  drop-drop : (a l : ℕ) (xs : List A) → drop l (drop a xs) ≡ drop (a + l) xs
  drop-drop zero l xs = let e : zero + l ≡ l = omega arith in rw e refl
  drop-drop (suc a) l [] = drop-nil l ∙ sym (drop-nil (suc a + l))
  drop-drop (suc a) l (x ∷ xs) =
      let e : suc a + l ≡ suc (a + l) = omega arith in rw e (drop-drop a l xs)

  drop-all : (n : ℕ) (xs : List A) → length xs ≤ n → drop n xs ≡ []
  drop-all zero [] h = refl
  drop-all zero (x ∷ xs) h = absurd (omega arith)
  drop-all (suc n) [] h = refl
  drop-all (suc n) (x ∷ xs) h = drop-all n xs (omega arith)

  -- So many pages of a list, from a place on.
  abbrev pages : ℕ → List A → ℕ → ℕ → List A
  pages limit xs from zero = []
  pages limit xs from (suc n) = take limit (drop from xs) ++ pages limit xs (from + limit) n

  pages-drop :
      (limit : ℕ) (xs : List A) (from n : ℕ)
      → length xs ≤ from + n * limit
      → pages limit xs from n ≡ drop from xs
  pages-drop limit xs from zero h = sym (drop-all from xs (omega (arith, h)))
  pages-drop limit xs from (suc n) h =
      ap (λ l. take limit (drop from xs) ++ l)
        (pages-drop limit xs (from + limit) n (omega (arith, h)) ∙ sym (drop-drop from limit xs))
      ∙ take-append-drop limit (drop from xs)

-- The last page reaches the end of the list.
pages_of-enough : (limit total : ℕ) → 0 < limit → total ≤ pages_of limit total * limit
unfolding pages_of
pages_of-enough limit zero h = omega arith
pages_of-enough limit (suc n) h =
    let last : suc n + limit - 1 < (suc n + limit - 1) / limit * limit + limit = lt-div-mul-add h in
    let some_ : ltb 0 (suc n) ≡ true = ground arith in rw some_ (omega (arith, last))

normalize_list_limit-positive : (limit : ℤ) → 0 < normalize_list_limit limit
unfolding normalize_list_limit
normalize_list_limit-positive (pos n) = ground arith
normalize_list_limit-positive (negsuc n) = omega arith

-- A page that there is, is the page that is shown.
clamp_pagination-page :
    (page limit total : ℕ)
    → 1 ≤ page
    → page ≤ pages_of limit total
    → (clamp_pagination page limit total).page ≡ page
unfolding clamp_pagination pages_of
clamp_pagination-page page limit total h k = elim (Bool-cases (ltb 0 total)) [
  | inl filled ↦
      let inside : ltb ((total + limit - 1) / limit) page ≡ false =
        ground (arith, rw filled at k) in
      rw (filled, inside) refl
  | inr empty ↦ absurd (omega (arith, h, rw empty at k))
]

normalize_list_page-pos : (page : ℕ) → 1 ≤ page → normalize_list_page (pos page) ≡ page
unfolding normalize_list_page
normalize_list_page-pos page h = let e : ltb page 1 ≡ false = ground arith in rw e refl

normalize_list_limit-again :
    (limit : ℤ)
    → normalize_list_limit (pos (normalize_list_limit limit)) ≡ normalize_list_limit limit
unfolding normalize_list_limit
normalize_list_limit-again (pos n) = ground arith
normalize_list_limit-again (negsuc n) = refl

-- What an answer shows, and how many pages it announces.
abbrev pub shown : Option (List TraceSummary × Pagination) → List TraceSummary
shown none = []
shown (some (traces, p)) = traces

abbrev pub announced : Option (List TraceSummary × Pagination) → ℕ
announced none = 0
announced (some (traces, p)) = p.total_pages

module _ (same : Char → Char → Bool) where
  -- The rows that a filter is for: the name is a beginning, and no pattern.
  abbrev pub fits : TraceFilter → TraceRow → Bool
  fits f r =
      unless_empty f.trace_id (r.summary.trace_id == f.trace_id)
      && unless_empty f.username (begins same f.username r.summary.username)
      && unless_empty f.token_fingerprint (r.token_fingerprint == f.token_fingerprint)
      && unless_empty f.route_pattern (r.summary.route_pattern == f.route_pattern)
      && unless_empty f.model (r.summary.model_requested == f.model)
      && (f.status_code == pos 0 || r.summary.status_code == f.status_code)
      && (not f.needs_review || r.summary.needs_review)

  in_filter-fits : (f : TraceFilter) (r : TraceRow) → in_filter same f r ≡ fits f r
  unfolding in_filter
  in_filter-fits f r = rw (escape_ilike-begins same f.username r.summary.username) refl

  keep-fits :
      (f : TraceFilter) (rows : List TraceRow) → keep (in_filter same f) rows ≡ keep (fits f) rows
  keep-fits f [] = refl
  keep-fits f (r ∷ rows) = rw (in_filter-fits f r, keep-fits f rows) refl

  -- The answers for so many pages from one on.
  abbrev pub page_at : TraceFilter → List TraceRow → ℕ → Option (List TraceSummary × Pagination)
  page_at f rows page = list_traces same true true (record f { page = pos page }) rows

  abbrev pub pages_from : TraceFilter → List TraceRow → ℕ → ℕ → List TraceSummary
  pages_from f rows page zero = []
  pages_from f rows page (suc n) = shown (page_at f rows page) ++ pages_from f rows (suc page) n

  page_at-take :
      (f : TraceFilter) (rows : List TraceRow) (page : ℕ)
      → let limit = normalize_list_limit f.limit in
        let found = keep (in_filter same f) rows in
        suc page ≤ pages_of limit (length found)
        → shown (page_at f rows (suc page)) ≡ take limit (drop (page * limit) found)
  unfolding list_traces list_trace_rows in_filter
  page_at-take f rows page h =
      let limit = normalize_list_limit f.limit in
      let found = keep (in_filter same f) rows in
      let e : suc page - 1 ≡ page = omega arith in
      rw
        (
          normalize_list_page-pos (suc page) (omega arith),
          clamp_pagination-page (suc page) limit (length found) (omega arith) h,
          normalize_list_page-pos (suc page) (omega arith),
          normalize_list_limit-again f.limit,
          e,
        )
        refl

  next_place : (page limit : ℕ) → page * limit + limit ≡ suc page * limit
  next_place page limit = omega arith

  pages_from-pages :
      (f : TraceFilter) (rows : List TraceRow) (page n : ℕ)
      → let limit = normalize_list_limit f.limit in
        let found = keep (in_filter same f) rows in
        page + n ≤ pages_of limit (length found)
        → pages_from f rows (suc page) n ≡ pages limit found (page * limit) n
  pages_from-pages f rows page zero h = refl
  pages_from-pages f rows page (suc n) h =
      let limit = normalize_list_limit f.limit in
      let found = keep (in_filter same f) rows in
      rw
        (
          page_at-take f rows page (omega (arith, h)),
          pages_from-pages f rows (suc page) n (omega (arith, h)),
          next_place page limit,
        )
        refl

  announced-pages_of :
      (f : TraceFilter) (rows : List TraceRow)
      → announced (list_traces same true true f rows)
        ≡ pages_of (normalize_list_limit f.limit) (length (keep (in_filter same f) rows))
  unfolding list_traces clamp_pagination
  announced-pages_of f rows = refl

  -- The pages of the list of traces, from the first to the last that the answer announces, show every trace
  -- that the filter is for exactly once, in the order of the table, and no other trace. The user name of the
  -- filter is the beginning of a name and no pattern, whatever characters it has. The two queries succeed.
  pub list_traces-fits :
      (f : TraceFilter) (rows : List TraceRow)
      → pages_from f rows 1 (announced (list_traces same true true f rows)) ≡ keep (fits f) rows
  list_traces-fits f rows =
      let limit = normalize_list_limit f.limit in
      let found = keep (in_filter same f) rows in
      let count = pages_of limit (length found) in
      let place : zero * limit ≡ zero = omega arith in
      rw (announced-pages_of f rows) (
        pages_from-pages f rows zero count (omega arith)
        ∙ ap (λ from. pages limit found from count) place
        ∙ pages-drop limit found zero count (
            omega
              (arith, pages_of-enough limit (length found) (normalize_list_limit-positive f.limit)))
        ∙ keep-fits f rows)
