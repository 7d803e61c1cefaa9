-- ===== src/Identity/Postgres.antt =====
-- internal/identity/postgres_cache.go: the cache in the table `token_identity_cache`, with what its statements
-- read and write of each column. The table has one row for a fingerprint; times are in seconds.
pub mod RoundTrip
use new_api_gateway.Prelude.{
  ℕ, ◌+◌, String, Bool, true, false, Option, none, some, ◌≡◌, refl, ◌∙◌, leb, ◌==◌, nat_eq,
  string_eq, if◌then◌else◌, Bool-cases, inl, inr,
}
use new_api_gateway.Prelude.Int.{ℤ, pos, negsuc}
use new_api_gateway.Identity.{Snapshot, Got, failed, missing, found, Cache}
use new_api_gateway.Identity.Honest.{Honest, Answers}

-- The columns; `expires_at` may be NULL.
pub record Row : Type 0 where
  pub fingerprint_display : String
  pub new_api_token_id : ℤ
  pub token_name_raw : String
  pub username : String
  pub token_status : ℤ
  pub token_group : String
  pub token_expired_time : ℤ
  pub token_accessed_time : ℤ
  pub remain_quota : ℤ
  pub used_quota : ℤ
  pub unlimited_quota : Bool
  pub model_limits_enabled : Bool
  pub model_limits : String
  pub resolved_at : ℕ
  pub refreshed_at : ℕ
  pub expires_at : Option ℕ
  pub last_seen_at : ℕ
  pub resolution_error : String

abbrev pub Table : Type 0
Table = String → Option Row

-- How the database takes the three statements: the error of the query, the success of the update, and the
-- error of the upsert.
pub record Statements : Type 0 where
  pub query_error : Option String
  pub updates : Bool
  pub upsert_error : Option String

-- `COALESCE(expires_at <= $2, true)`
unfoldable pub is_expired : ℕ → Option ℕ → Bool
is_expired now none = true
is_expired now (some expires_at) = leb expires_at now

-- The scanned columns, and the fields that are set behind them.
unfoldable pub scan : String → Row → Snapshot
scan fingerprint r = record {
  token_fingerprint = fingerprint;
  fingerprint_display = r.fingerprint_display;
  token = record {
    token_id = r.new_api_token_id;
    token_name = r.token_name_raw;
    username = r.username;
    token_status = r.token_status;
    token_group = r.token_group;
    expired_time = r.token_expired_time;
    accessed_time = r.token_accessed_time;
    remain_quota = r.remain_quota;
    used_quota = r.used_quota;
    unlimited_quota = r.unlimited_quota;
    model_limits_enabled = r.model_limits_enabled;
    model_limits = r.model_limits;
  };
  resolution_status = "resolved";
  identity_cache_status = "cache_hit";
}

unfoldable pub row_answer : ℕ → String → Option Row → Got
row_answer now fingerprint none = missing
row_answer now fingerprint (some r) =
    if is_expired now r.expires_at then missing else found (scan fingerprint r)

-- The update of `last_seen_at` behind a hit, whose failure is passed over.
abbrev pub touch : ℕ → Option Row → Option Row
touch now none = none
touch now (some r) = some (record r { last_seen_at = now })

abbrev pub touched : Bool → ℕ → String → Got → Table → Table
touched true now fingerprint (found s) table =
    λ asked. if asked == fingerprint then touch now (table asked) else table asked
touched updates now fingerprint answer table = table

-- `PostgresCache.Get`, with the statements of the database that there may be.
unfoldable pub get_with : Bool → ℕ → String → Table → Option String → Got × Table
get_with updates now fingerprint table (some e) = (failed e, table)
get_with updates now fingerprint table none =
    let answer = row_answer now fingerprint (table fingerprint) in
    (answer, touched updates now fingerprint answer table)

unfoldable pub get : Option Statements → ℕ → String → Table → Got × Table
get none now fingerprint table = (failed "identity postgres cache db is nil", table)
get (some db) now fingerprint table = get_with db.updates now fingerprint table db.query_error

-- A TTL that is not positive is 15 minutes.
unfoldable pub ttl_of : ℤ → ℕ
ttl_of (pos n) = if n == 0 then 900 else n
ttl_of (negsuc n) = 900

-- The row of the INSERT.
unfoldable pub row_of : ℤ → ℕ → Snapshot → Row
row_of ttl now s = record {
  fingerprint_display = s.fingerprint_display;
  new_api_token_id = s.token.token_id;
  token_name_raw = s.token.token_name;
  username = s.token.username;
  token_status = s.token.token_status;
  token_group = s.token.token_group;
  token_expired_time = s.token.expired_time;
  token_accessed_time = s.token.accessed_time;
  remain_quota = s.token.remain_quota;
  used_quota = s.token.used_quota;
  unlimited_quota = s.token.unlimited_quota;
  model_limits_enabled = s.token.model_limits_enabled;
  model_limits = s.token.model_limits;
  resolved_at = now;
  refreshed_at = now;
  expires_at = some (now + ttl_of ttl);
  last_seen_at = now;
  resolution_error = "";
}

-- `ON CONFLICT (token_fingerprint) DO UPDATE`, which sets all columns but `resolved_at`.
unfoldable pub upsert : Row → Option Row → Row
upsert excluded none = excluded
upsert excluded (some old) = record old {
  fingerprint_display = excluded.fingerprint_display;
  new_api_token_id = excluded.new_api_token_id;
  token_name_raw = excluded.token_name_raw;
  username = excluded.username;
  token_status = excluded.token_status;
  token_group = excluded.token_group;
  token_expired_time = excluded.token_expired_time;
  token_accessed_time = excluded.token_accessed_time;
  remain_quota = excluded.remain_quota;
  used_quota = excluded.used_quota;
  unlimited_quota = excluded.unlimited_quota;
  model_limits_enabled = excluded.model_limits_enabled;
  model_limits = excluded.model_limits;
  refreshed_at = excluded.refreshed_at;
  expires_at = excluded.expires_at;
  last_seen_at = excluded.last_seen_at;
  resolution_error = excluded.resolution_error;
}

-- `PostgresCache.Set`
unfoldable pub set_with : ℤ → ℕ → Snapshot → Table → Option String → Option String × Table
set_with ttl now s table (some e) = (some e, table)
set_with ttl now s table none = (
  none,
  λ asked.
      if asked == s.token_fingerprint
      then some (upsert (row_of ttl now s) (table asked))
      else table asked,
)

unfoldable pub set : Option Statements → ℤ → ℕ → Snapshot → Table → Option String × Table
set none ttl now s table = (some "identity postgres cache db is nil", table)
set (some db) ttl now s table = set_with ttl now s table db.upsert_error

-- The cache at one moment.
abbrev pub postgres_cache : Option Statements → ℤ → ℕ → Cache
postgres_cache db ttl now = record { State = Table; get = get db now; set = set db ttl now }
