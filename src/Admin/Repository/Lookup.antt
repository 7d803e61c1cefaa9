-- ===== src/Admin/Repository/Lookup.antt =====
-- internal/admin/repository.go: what is known of a token, from three tables that the gateway and the workers write.
use new_api_gateway.Prelude.{ℕ, String, List, Option, none, some}
use new_api_gateway.Prelude.Int.{ℤ, pos}
use new_api_gateway.Admin.Repository.{Answer, row, no_rows, failed}
use new_api_gateway.Admin.Traces.{TraceSummary}

-- The columns of the token's row in `token_identity_cache`.
pub record TokenRow : Type 0 where
  pub username : String
  pub new_api_token_id : ℤ
  pub token_name : String
  pub token_status : ℤ

-- What the database answers to the three queries: the row, the newest traces, and the count of anomalies; the
-- latter two are missing where the query fails.
pub record LookupAnswers : Type 0 where
  pub identity : Answer TokenRow
  pub traces : Option (List TraceSummary)
  pub open_anomalies : Option ℕ

-- `LookupSummary`
pub record LookupSummary : Type 0 where
  pub fingerprint_display : String
  pub token_fingerprint : String
  pub token : TokenRow
  pub recent_traces : List TraceSummary
  pub open_anomaly_count : ℕ

-- The summary, once all three queries have answered.
unfoldable pub summary_of :
    String → String → TokenRow → Option (List TraceSummary) → Option ℕ → Option LookupSummary
summary_of fingerprint display token none anomalies = none
summary_of fingerprint display token (some traces) none = none
summary_of fingerprint display token (some traces) (some anomalies) = some (record {
  fingerprint_display = display;
  token_fingerprint = fingerprint;
  token = token;
  recent_traces = traces;
  open_anomaly_count = anomalies;
})

abbrev pub no_token : TokenRow
no_token = record { username = ""; new_api_token_id = pos 0; token_name = ""; token_status = pos 0 }

-- The row that there is, which may be missing but must not fail.
unfoldable pub summary_with :
    String → String → LookupAnswers → Answer TokenRow → Option LookupSummary
summary_with fingerprint display a failed = none
summary_with fingerprint display a no_rows =
    summary_of fingerprint display no_token a.traces a.open_anomalies
summary_with fingerprint display a (row token) =
    summary_of fingerprint display token a.traces a.open_anomalies

-- `LookupTokenSummary`
unfoldable pub lookup_token_summary : String → String → LookupAnswers → Option LookupSummary
lookup_token_summary fingerprint display a = summary_with fingerprint display a a.identity
