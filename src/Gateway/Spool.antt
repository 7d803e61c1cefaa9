-- ===== src/Gateway/Spool.antt =====
-- internal/gateway/spool.go: the names of the spool's files.
pub mod Safe
mod Tests
use Prim.Native.Char.{Char, code}
use new_api_gateway.Prelude.{ℕ, String, Bool, ◌&&◌, ◌||◌, leb, ◌==◌, nat_eq, if◌then◌else◌}
use new_api_gateway.Text.{is_empty, is_char, trim, ◌<>◌}

-- The characters that `safeSpoolPart` keeps.
unfoldable pub is_kept : Char → Bool
is_kept ch =
    let c = code ch in
    (leb b'a' c && leb c b'z')
    || (leb b'A' c && leb c b'Z')
    || (leb b'0' c && leb c b'9')
    || c == b'_'
    || c == b'-'

-- The loop over the characters: every other one becomes an underscore.
unfoldable pub replace_unsafe : String → String
replace_unsafe String.[] = ""
replace_unsafe (String.◌∷◌ c s) =
    let rest = replace_unsafe s in if is_kept c then String.◌∷◌ c rest else "_" <> rest

-- The cutset of `strings.Trim(b.String(), "_-")`
abbrev pub is_dash : Char → Bool
is_dash c = is_char b'_' c || is_char b'-' c

unfoldable pub safe_spool_part : String → String
safe_spool_part value = trim is_dash (replace_unsafe value)

-- `spoolFilename`, of the trace's identifier and the reason, without its extension.
unfoldable pub spool_stem : String → String → String
spool_stem trace_id reason =
    let name = safe_spool_part trace_id in
    let why = safe_spool_part reason in
    let start = if is_empty name then "trace" else name in
    if is_empty why then start else start <> ("-" <> why)

unfoldable pub spool_filename : String → String → String
spool_filename trace_id reason = spool_stem trace_id reason <> ".json"
