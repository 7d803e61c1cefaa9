-- ===== src/Admin/Handlers/Lookup.antt =====
-- internal/admin/handlers.go: the lookup of an API key.
pub mod Private
use new_api_gateway.Prelude.{ℕ, String, Option, none, some, if◌then◌else◌}
use new_api_gateway.Text.{◌<>◌, is_empty}
use new_api_gateway.AuthKeys.{canonical_key}
use new_api_gateway.Admin.Limits.{Limiter, Counters, allow}
use new_api_gateway.Admin.Repository.{Principal, ActionLog, Store, Db, insert_audit_action_log}
use new_api_gateway.Admin.Repository.Lookup.{LookupAnswers, LookupSummary, lookup_token_summary}
use new_api_gateway.Admin.Handlers.{Services, Reply, reply, error, entry, lookup_body}
use new_api_gateway.Admin.Handlers.Records.{limited}

-- `lookupLimiter`: 20 requests of a user in an hour.
abbrev pub lookup_limiter : Limiter
lookup_limiter = record { limit = 20; window = 3600 }

-- `canonicalizeLookupKey`
abbrev pub or_empty : Option String → String
or_empty none = ""
or_empty (some key) = key

unfoldable pub canonicalize_lookup_key : String → String
canonicalize_lookup_key value = or_empty (canonical_key value)

-- The entry on who looks which fingerprint up; the key itself is not in it.
unfoldable pub lookup_entry : ℕ → Principal → String × String → ActionLog
lookup_entry now p (value, display) =
    let e =
      entry p.user_id p.username "api_key_lookup" "token" display "{\"plaintext_discarded\":true}"
        now in
    record e { token_fingerprint = value; fingerprint_display = display }

-- The answer, with the entry, whose failure is passed over.
unfoldable pub send_lookup :
    Db → ℕ → Principal → String × String → Option LookupSummary → Store → Reply × Store
send_lookup db now p fp none s = (error 500, s)
send_lookup db now p fp (some summary) s =
    (reply 200 (lookup_body summary), (insert_audit_action_log db now (lookup_entry now p fp) s).1)

unfoldable pub lookup_fingerprint :
    Db → ℕ → Principal → String × String → LookupAnswers → Store → Reply × Store
lookup_fingerprint db now p (value, display) a s =
    send_lookup db now p (value, display) (lookup_token_summary value display a) s

unfoldable pub lookup_key :
    Services → Db → ℕ → Option String → LookupAnswers → Principal → Store → Reply × Store
lookup_key x db now none a p s = (error 400, s)
lookup_key x db now (some api_key) a p s =
    let canonical = canonicalize_lookup_key api_key in
    if is_empty canonical
    then (error 400, s)
    else lookup_fingerprint db now p (x.fingerprint canonical) a s

-- `createAPIKeyLookup`: the key of the body, if it is JSON, and what the database will answer.
unfoldable pub create_api_key_lookup :
    Services
    → Db
    → ℕ
    → Option String
    → LookupAnswers
    → Principal
    → Store
    → Counters
    → Reply × Store × Counters
create_api_key_lookup x db now api_key a p s counters =
    let (ok, counters') = allow lookup_limiter (p.username <> ":api_key_lookup") now counters in
    limited counters' (lookup_key x db now api_key a p s) s ok
