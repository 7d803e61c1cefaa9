-- ===== src/Admin/Traces/Tests.antt =====
-- Tests of the list of traces, and its theorem at a concrete table.
use Prim.Native.Char.{Char, code}
use new_api_gateway.Prelude.{
  String, Bool, true, false, List, [], ◌∷◌, some, ◌≡◌, refl, ◌==◌, nat_eq, string_eq,
}
use new_api_gateway.Prelude.Int.{pos}
use new_api_gateway.Text.{◌<>◌}
use new_api_gateway.Admin.Traces.{
  TraceFilter, TraceRow, normalize_list_page, normalize_list_limit, pages_of, clamp_pagination,
  is_meta, escape_ilike, ilike, in_filter, keep, list_trace_rows, list_traces,
}
use new_api_gateway.Admin.Traces.Pages.{fits, pages_from, list_traces-fits}

-- Characters with the same code.
abbrev same : Char → Char → Bool
same c d = code c == code d

abbrev row_of : String → String → TraceRow
row_of trace_id username = record {
  summary = record {
    trace_id = trace_id;
    method = "POST";
    path = "/v1/responses";
    route_pattern = "/v1/responses";
    protocol_family = "openai";
    status_code = pos 200;
    username = username;
    fingerprint_display = "";
    model_requested = "";
    usage_prompt_tokens = pos 0;
    usage_completion_tokens = pos 0;
    usage_cached_tokens = pos 0;
    usage_total_tokens = pos 0;
    created_at = "";
    needs_review = false;
  };
  token_fingerprint = "";
}

abbrev rows : List TraceRow
rows = row_of "t4" "a_da" ∷ row_of "t3" "anda" ∷ row_of "t2" "a_" ∷ row_of "t1" "a_b" ∷ []

-- The names that begin with "a_", two on a page.
abbrev filter_of : String → TraceFilter
filter_of username = record {
  trace_id = "";
  username = username;
  token_fingerprint = "";
  route_pattern = "";
  model = "";
  status_code = pos 0;
  needs_review = false;
  page = pos 9;
  limit = pos 2;
}

-- The page behind the last one is the last one.
last_page :
    list_traces same true true (filter_of "a_") rows
    ≡ some (
      (row_of "t1" "a_b").summary ∷ [],
      record {
        page = 2;
        page_size = 2;
        total_items = 3;
        total_pages = 2;
        has_prev = true;
        has_next = false;
      },
    )
unfolding list_traces list_trace_rows in_filter ilike escape_ilike is_meta clamp_pagination pages_of
    normalize_list_page normalize_list_limit
last_page = refl

literal_name : ilike same false (escape_ilike "a_" <> "%") "anda" ≡ false
unfolding ilike escape_ilike is_meta
literal_name = refl

list_traces-fits_example :
    pages_from same (filter_of "a_") rows 1 2 ≡ keep (fits same (filter_of "a_")) rows
unfolding list_traces in_filter ilike escape_ilike is_meta clamp_pagination pages_of
    normalize_list_limit
list_traces-fits_example = list_traces-fits same (filter_of "a_") rows
