-- ===== src/Identity/Tests.antt =====
-- Tests of identity resolution, and its theorems at concrete caches.
use new_api_gateway.Prelude.{
  ℕ, suc, ◌+◌, String, true, List, [], ◌∷◌, Option, none, some, ◌≡◌, refl, ◌==◌, string_eq, nat_eq,
  leb, if◌then◌else◌,
}
use new_api_gateway.Identity.{
  Snapshot, Cache, Looked, token_found, no_token, snapshot_of, resolve, resolve_from, settle,
  chain_get, missing, found,
}
use new_api_gateway.Identity.Honest.{
  AllHonest, honest_none, honest_skip, honest_more, Owes, chain_get-Owes, Sound, resolve-Sound,
  ChainGood,
}
use new_api_gateway.Prelude.Int.{pos}
use new_api_gateway.Identity.Postgres.{
  Table, Statements, postgres_cache, get_with, get, set_with, set, row_answer, row_of, ttl_of, scan,
  is_expired, upsert,
}
use new_api_gateway.Identity.Postgres.RoundTrip.{
  postgres_cache-Honest, postgres_good, stored, get-set,
}

abbrev person : Snapshot
person = snapshot_of "hmac:1" "fk_1" "miss_db_lookup" (token_found no_token)

abbrev empty_table : Table
empty_table = λ asked. none

abbrev up : Option Statements
up = some (record { query_error = none; updates = true; upsert_error = none })

abbrev filled : Table
filled = (set up (pos 890) 10 person empty_table).1

-- A database that knows every key, and counts the lookups.
abbrev database : String → ℕ → Looked × ℕ
database key calls = (token_found no_token, suc calls)

abbrev two_tables : List (Option Cache)
two_tables = some (postgres_cache up (pos 0) 10) ∷ none ∷ some (postgres_cache up (pos 0) 10) ∷ []

abbrev two_honest : AllHonest two_tables
two_honest =
    honest_more (postgres_cache-Honest up (pos 0) 10)
      (honest_skip (honest_more (postgres_cache-Honest up (pos 0) 10) honest_none))

-- The first request looks the token up, the second one does not.
looked_up_once :
    let cache = postgres_cache up (pos 0) 10 in
    let first = resolve cache database "k" "hmac:1" "fk_1" empty_table 0 in
    let second = resolve cache database "k" "hmac:1" "fk_1" first.cache_state first.lookup_state in
    (first.lookup_state ≡ 1)
    × (second.lookup_state ≡ 1)
    × (second.result.identity_cache_status ≡ "cache_hit")
unfolding resolve resolve_from settle snapshot_of get get_with set set_with row_answer row_of ttl_of
    scan is_expired upsert
looked_up_once = (refl, refl, refl)

chain_get-Owes_example :
    Owes two_honest "hmac:1" (chain_get two_tables "hmac:1" (empty_table, (filled, tt)))
unfolding ChainGood
chain_get-Owes_example =
    chain_get-Owes two_honest "hmac:1" (empty_table, (filled, tt))
      (postgres_good up (pos 0) 10 empty_table, (postgres_good up (pos 0) 10 filled, tt))

resolve-Sound_example :
    Sound
      (postgres_cache-Honest up (pos 0) 10)
      "hmac:1"
      (resolve (postgres_cache up (pos 0) 10) database "k" "hmac:1" "fk_1" filled 0)
resolve-Sound_example =
    resolve-Sound (postgres_cache-Honest up (pos 0) 10) database "k" "hmac:1" "fk_1" filled 0
      (postgres_good up (pos 0) 10 filled)

get-set_example :
    (get up 909 "hmac:1" (get none 20 "hmac:1" (set up (pos 0) 10 person filled).1).1).0 ≡ (
      if ◌==◌ {T = String} "hmac:1" person.token_fingerprint
      then (if leb (10 + ttl_of (pos 0)) 909 then missing else found (stored "hmac:1" person))
      else (get up 909 "hmac:1" filled).0)
unfolding set set_with
get-set_example =
    get-set up none (record { query_error = none; updates = true; upsert_error = none }) (pos 0) 10
      20 909 person filled "hmac:1" "hmac:1" refl refl
