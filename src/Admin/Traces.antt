-- ===== src/Admin/Traces.antt =====
-- internal/admin/repository.go: the list of traces, with its filter and its pages. The table lists the traces in
-- the order of the query, and its numbers stay below the bounds of the machine's integers.

pub mod Pattern
pub mod Pages
mod Tests
use Prim.Native.Char.{Char}
use new_api_gateway.Prelude.{
  ℕ, ◌+◌, ◌-◌, ◌*◌, ◌/◌, String, Bool, true, false, ◌&&◌, ◌||◌, not, List, [], ◌∷◌, Option, none,
  some, ltb, leb, ◌==◌, nat_eq, string_eq, if◌then◌else◌, length, take, drop,
}
use new_api_gateway.Prelude.Int.{ℤ, pos, negsuc, int_eq}
use new_api_gateway.Text.{◌<>◌, is_empty, is_char}

-- `TraceFilter`
pub record TraceFilter : Type 0 where
  pub trace_id : String
  pub username : String
  pub token_fingerprint : String
  pub route_pattern : String
  pub model : String
  pub status_code : ℤ
  pub needs_review : Bool
  pub page : ℤ
  pub limit : ℤ

-- `TraceSummary`, and the fingerprint of the token, which the filter reads.
pub record TraceSummary : Type 0 where
  pub trace_id : String
  pub method : String
  pub path : String
  pub route_pattern : String
  pub protocol_family : String
  pub status_code : ℤ
  pub username : String
  pub fingerprint_display : String
  pub model_requested : String
  pub usage_prompt_tokens : ℤ
  pub usage_completion_tokens : ℤ
  pub usage_cached_tokens : ℤ
  pub usage_total_tokens : ℤ
  pub created_at : String
  pub needs_review : Bool

pub record TraceRow : Type 0 where
  pub summary : TraceSummary
  pub token_fingerprint : String

-- `Pagination`
pub record Pagination : Type 0 where
  pub page : ℕ
  pub page_size : ℕ
  pub total_items : ℕ
  pub total_pages : ℕ
  pub has_prev : Bool
  pub has_next : Bool

-- `normalizeListPage` and `normalizeListLimit`
unfoldable pub normalize_list_page : ℤ → ℕ
normalize_list_page (pos n) = if ltb n 1 then 1 else n
normalize_list_page (negsuc n) = 1

unfoldable pub normalize_list_limit : ℤ → ℕ
normalize_list_limit (pos n) = if n == 0 || ltb 100 n then 100 else n
normalize_list_limit (negsuc n) = 100

-- `clampPagination`
unfoldable pub pages_of : ℕ → ℕ → ℕ
pages_of limit total = if ltb 0 total then (total + limit - 1) / limit else 0

unfoldable pub clamp_pagination : ℕ → ℕ → ℕ → Pagination
clamp_pagination page limit total =
    let total_pages = pages_of limit total in
    let clamped = if ltb 0 total then (if ltb total_pages page then total_pages else page) else 1 in
    record {
      page = clamped;
      page_size = limit;
      total_items = total;
      total_pages = total_pages;
      has_prev = ltb 0 total_pages && ltb 1 clamped;
      has_next = ltb 0 total_pages && ltb clamped total_pages;
    }

-- `escapeILIKE`
unfoldable pub is_meta : Char → Bool
is_meta c = is_char b'\\' c || is_char b'%' c || is_char b'_' c

unfoldable pub escape_ilike : String → String
escape_ilike String.[] = ""
escape_ilike (String.◌∷◌ c s) =
    let rest = escape_ilike s in
    if is_meta c then String.◌∷◌ "\\" (String.◌∷◌ c rest) else String.◌∷◌ c rest

-- PostgreSQL's ILIKE with the backslash for escapes, where `same` says which characters differ at most in their
-- case. The Boolean says that the character before has been a backslash.
abbrev pub one_char : (Char → Bool) → (String → Bool) → String → Bool
one_char p rest String.[] = false
one_char p rest (String.◌∷◌ d t) = p d && rest t

abbrev pub any_suffix : (String → Bool) → String → Bool
any_suffix p String.[] = p ""
any_suffix p (String.◌∷◌ d t) = p (String.◌∷◌ d t) || any_suffix p t

abbrev pub unless_empty : String → Bool → Bool
unless_empty value test = is_empty value || test

abbrev pub keep : (TraceRow → Bool) → List TraceRow → List TraceSummary
keep p [] = []
keep p (r ∷ rows) = let rest = keep p rows in if p r then r.summary ∷ rest else rest

module _ (same : Char → Char → Bool) where
  unfoldable pub ilike : Bool → String → String → Bool
  ilike escaped String.[] t = if escaped then false else is_empty t
  ilike true (String.◌∷◌ c p) t = one_char (same c) (λ s. ilike false p s) t
  ilike false (String.◌∷◌ c p) t =
      if is_char b'\\' c
      then ilike true p t
      else if is_char b'%' c
      then any_suffix (λ s. ilike false p s) t
      else if is_char b'_' c
      then one_char (λ d. true) (λ s. ilike false p s) t
      else one_char (same c) (λ s. ilike false p s) t

  -- `traceFilterWhereArgs`, as the condition on a row.
  unfoldable pub in_filter : TraceFilter → TraceRow → Bool
  in_filter f r =
      unless_empty f.trace_id (r.summary.trace_id == f.trace_id)
      && unless_empty f.username (ilike false (escape_ilike f.username <> "%") r.summary.username)
      && unless_empty f.token_fingerprint (r.token_fingerprint == f.token_fingerprint)
      && unless_empty f.route_pattern (r.summary.route_pattern == f.route_pattern)
      && unless_empty f.model (r.summary.model_requested == f.model)
      && (f.status_code == pos 0 || r.summary.status_code == f.status_code)
      && (not f.needs_review || r.summary.needs_review)

  -- `listTraceRows`
  unfoldable pub list_trace_rows : TraceFilter → List TraceRow → List TraceSummary
  list_trace_rows f rows =
      let limit = normalize_list_limit f.limit in
      take limit (drop ((normalize_list_page f.page - 1) * limit) (keep (in_filter f) rows))

  -- `ListTraces`, where the count and the query of the rows may fail.
  unfoldable pub list_traces :
      Bool → Bool → TraceFilter → List TraceRow → Option (List TraceSummary × Pagination)
  list_traces counts lists f rows =
      let limit = normalize_list_limit f.limit in
      let pagination =
        clamp_pagination (normalize_list_page f.page) limit (length (keep (in_filter f) rows)) in
      if counts
      then (if lists
          then some (
            list_trace_rows (record f { page = pos pagination.page; limit = pos limit }) rows,
            pagination,
          )
          else none)
      else none
