-- ===== src/Identity/Postgres/RoundTrip.antt =====
-- internal/identity/postgres_cache.go: the cache is honest, and gives back what it has been given.
use new_api_gateway.Prelude.{
  ℕ, ◌+◌, String, Bool, true, false, Option, none, some, ◌≡◌, refl, ◌∙◌, leb, ◌==◌, string_eq,
  if◌then◌else◌, Bool-cases, inl, inr,
}
use new_api_gateway.Prelude.Int.{ℤ}
use new_api_gateway.Identity.{Snapshot, Got, failed, missing, found}
use new_api_gateway.Identity.Honest.{Honest, Answers}
use new_api_gateway.Identity.Postgres.{
  Row, Table, Statements, is_expired, scan, row_answer, touch, touched, get_with, get, ttl_of,
  row_of, upsert, set_with, set, postgres_cache,
}

row_answer-Answers :
    (now : ℕ) (fingerprint : String) (r : Option Row)
    → Answers fingerprint (row_answer now fingerprint r)
unfolding row_answer scan
row_answer-Answers now fingerprint none = tt
row_answer-Answers now fingerprint (some r) = elim (Bool-cases (is_expired now r.expires_at)) [
  | inl expired ↦ rw expired tt
  | inr fresh ↦ rw fresh (record { own = refl; resolved = refl })
]

get_with-Answers :
    (updates : Bool) (now : ℕ) (fingerprint : String) (table : Table) (e : Option String)
    → Answers fingerprint (get_with updates now fingerprint table e).0
unfolding get_with
get_with-Answers updates now fingerprint table (some e) = tt
get_with-Answers updates now fingerprint table none =
    row_answer-Answers now fingerprint (table fingerprint)

get-Answers :
    (db : Option Statements) (now : ℕ) (fingerprint : String) (table : Table)
    → Answers fingerprint (get db now fingerprint table).0
unfolding get
get-Answers none now fingerprint table = tt
get-Answers (some db) now fingerprint table =
    get_with-Answers db.updates now fingerprint table db.query_error

-- The cache is honest: it answers only with resolved snapshots of the fingerprint that it is asked for, whatever
-- its rows.
pub postgres_cache-Honest :
    (db : Option Statements) (ttl : ℤ) (now : ℕ) → Honest (postgres_cache db ttl now)
postgres_cache-Honest db ttl now = record {
  Good = λ table. Unit;
  get_answers = λ fingerprint table g. get-Answers db now fingerprint table;
  get_good = λ fingerprint table g. tt;
  set_good = λ s table e g. tt;
}

-- Every table is in a good state.
pub postgres_good :
    (db : Option Statements) (ttl : ℤ) (now : ℕ) (table : Table)
    → (postgres_cache-Honest db ttl now).Good table
unfolding postgres_cache-Honest
postgres_good db ttl now table = tt

-- The snapshot as the table gives it back for a fingerprint.
abbrev pub stored : String → Snapshot → Snapshot
stored fingerprint s = record s {
  token_fingerprint = fingerprint;
  resolution_status = "resolved";
  identity_cache_status = "cache_hit";
}

-- What is read of a row does not show when it was seen.
row_answer-touch :
    (now at : ℕ) (fingerprint : String) (r : Option Row)
    → row_answer now fingerprint (touch at r) ≡ row_answer now fingerprint r
unfolding row_answer scan
row_answer-touch now at fingerprint none = refl
row_answer-touch now at fingerprint (some r) = refl

row_answer-if :
    (now at : ℕ) (fingerprint : String) (r : Option Row) (b : Bool)
    → row_answer now fingerprint (if b then touch at r else r) ≡ row_answer now fingerprint r
row_answer-if now at fingerprint r true = row_answer-touch now at fingerprint r
row_answer-if now at fingerprint r false = refl

row_answer-touched :
    (updates : Bool) (now at : ℕ) (asked seen : String) (answer : Got) (table : Table)
    → row_answer now asked (touched updates at seen answer table asked)
      ≡ row_answer now asked (table asked)
row_answer-touched true now at asked seen (found s) table =
    row_answer-if now at asked (table asked) (asked == seen)
row_answer-touched true now at asked seen missing table = refl
row_answer-touched true now at asked seen (failed e) table = refl
row_answer-touched false now at asked seen answer table = refl

row_answer-get_with :
    (updates : Bool) (now at : ℕ) (asked seen : String) (table : Table) (e : Option String)
    → row_answer now asked ((get_with updates at seen table e).1 asked)
      ≡ row_answer now asked (table asked)
unfolding get_with
row_answer-get_with updates now at asked seen table (some e) = refl
row_answer-get_with updates now at asked seen table none =
    row_answer-touched updates now at asked seen (row_answer at seen (table seen)) table

row_answer-get :
    (db : Option Statements) (now at : ℕ) (asked seen : String) (table : Table)
    → row_answer now asked ((get db at seen table).1 asked) ≡ row_answer now asked (table asked)
unfolding get
row_answer-get none now at asked seen table = refl
row_answer-get (some db) now at asked seen table =
    row_answer-get_with db.updates now at asked seen table db.query_error

row_answer-upsert :
    (ttl : ℤ) (now later : ℕ) (asked : String) (s : Snapshot) (old : Option Row)
    → row_answer later asked (some (upsert (row_of ttl now s) old))
      ≡ (if leb (now + ttl_of ttl) later then missing else found (stored asked s))
unfolding row_answer upsert row_of scan is_expired
row_answer-upsert ttl now later asked s none = refl
row_answer-upsert ttl now later asked s (some old) = refl

row_answer-set_with :
    (ttl : ℤ) (now later : ℕ) (asked : String) (s : Snapshot) (table : Table) (e : Option String)
    → (set_with ttl now s table e).0 ≡ none
    → row_answer later asked ((set_with ttl now s table e).1 asked) ≡ (
        if asked == s.token_fingerprint
        then (if leb (now + ttl_of ttl) later then missing else found (stored asked s))
        else row_answer later asked (table asked))
unfolding set_with
row_answer-set_with ttl now later asked s table (some e) h = absurd (cc)
row_answer-set_with ttl now later asked s table none h =
    elim (Bool-cases (asked == s.token_fingerprint)) [
      | inl same ↦ rw same (row_answer-upsert ttl now later asked s (table asked))
      | inr other ↦ rw other refl
    ]

row_answer-set :
    (db : Option Statements) (ttl : ℤ) (now later : ℕ) (asked : String) (s : Snapshot)
    (table : Table)
    → (set db ttl now s table).0 ≡ none
    → row_answer later asked ((set db ttl now s table).1 asked) ≡ (
        if asked == s.token_fingerprint
        then (if leb (now + ttl_of ttl) later then missing else found (stored asked s))
        else row_answer later asked (table asked))
unfolding set
row_answer-set none ttl now later asked s table h = absurd (cc)
row_answer-set (some db) ttl now later asked s table h =
    row_answer-set_with ttl now later asked s table db.upsert_error h

get-row_answer :
    (updates : Bool) (now : ℕ) (asked : String) (table : Table)
    → (get_with updates now asked table none).0 ≡ row_answer now asked (table asked)
unfolding get_with
get-row_answer updates now asked table = refl

-- What `Set` has stored without an error is found with every column, as a hit, at every moment before the entry
-- expires, and missing from then on, by a query that runs without an error, whatever the row was before. The
-- other fingerprints' rows answer as before, and a `Get` in between, of whatever fingerprint, changes none of it.
pub get-set :
    (db between : Option Statements) (query : Statements) (ttl : ℤ) (now at later : ℕ)
    (s : Snapshot) (table : Table) (seen asked : String)
    → (set db ttl now s table).0 ≡ none
    → query.query_error ≡ none
    → (get (some query) later asked (get between at seen (set db ttl now s table).1).1).0 ≡ (
        if asked == s.token_fingerprint
        then (if leb (now + ttl_of ttl) later then missing else found (stored asked s))
        else (get (some query) later asked table).0)
unfolding get
get-set db between query ttl now at later s table seen asked h k =
    rw (k, get-row_answer query.updates later asked table)
      (get-row_answer query.updates later asked (get between at seen (set db ttl now s table).1).1
        ∙ row_answer-get between later at asked seen (set db ttl now s table).1
        ∙ row_answer-set db ttl now later asked s table h)
