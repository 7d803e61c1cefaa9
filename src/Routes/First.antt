-- ===== src/Routes/First.antt =====
-- `Registry.Match` returns the first entry that fits.
use new_api_gateway.Prelude.{
  String, Bool, true, false, List, [], ◌∷◌, ◌++◌, none, some, ◌≡◌, ◌↔◌, refl, arith, All, ◌==◌,
  string_eq, Bool-cases, ap, inl, inr, ◌&&◌, if◌then◌else◌,
}
use new_api_gateway.Routes.{Entry, Registry, match_entries, match, match_path}

-- The method is the entry's, and the path matches the entry's pattern.
abbrev pub serves : String → String → Entry → Bool
serves method path e = e.method == method && match_path e.path_pattern path

-- The entry is in the list, it serves the request, and no entry before it does.
pub record IsFirst (method path : String) (entries : List Entry) (e : Entry) : Type 0 where
  pub earlier : List Entry
  pub later : List Entry
  pub place : entries ≡ earlier ++ e ∷ later
  pub fits : serves method path e ≡ true
  pub passed : All (λ x. serves method path x ≡ false) earlier

match_entries-cons :
    (e : Entry) (entries : List Entry) (method path : String)
    → match_entries (e ∷ entries) method path
      ≡ (if serves method path e then some e else match_entries entries method path)
unfolding match_entries
match_entries-cons e entries method path = ground arith

match_entries-IsFirst :
    (entries : List Entry) (method path : String) {e : Entry}
    → match_entries entries method path ≡ some e
    → IsFirst method path entries e
match_entries-IsFirst [] method path h = absurd (unfold match_entries in cc)
match_entries-IsFirst (x ∷ entries) method path {e} h = elim (Bool-cases (serves method path x)) [
  | inl fits ↦
      let same : x ≡ e = ground (arith, match_entries-cons x entries method path) in
      record {
        earlier = [];
        later = entries;
        place = ap (λ y. y ∷ entries) same;
        fits = rw same at fits;
        passed = tt;
      }
  | inr passed ↦
      let below =
        match_entries-IsFirst entries method path {e = e}
          (ground (arith, match_entries-cons x entries method path)) in
      record {
        earlier = x ∷ below.earlier;
        later = below.later;
        place = ap (λ l. x ∷ l) below.place;
        fits = below.fits;
        passed = (passed, below.passed);
      }
]

match_entries-none :
    (entries : List Entry) (method path : String)
    → (match_entries entries method path ≡ none) ↔ All (λ x. serves method path x ≡ false) entries
match_entries-none [] method path = (λ h. tt, λ h. unfold match_entries in refl)
match_entries-none (x ∷ entries) method path =
    grind (arith, match_entries-cons x entries method path, match_entries-none entries method path)

-- What `Match` returns is the first entry of the table whose method is the request's and whose
-- pattern matches the path.
pub match-IsFirst :
    (r : Registry) (method path : String) {e : Entry}
    → match r method path ≡ some e
    → IsFirst method path r.entries e
unfolding match
match-IsFirst r method path h = match_entries-IsFirst r.entries method path h

-- `Match` finds nothing exactly when no entry has the request's method and a pattern that matches.
pub match-none_iff :
    (r : Registry) (method path : String)
    → (match r method path ≡ none) ↔ All (λ x. serves method path x ≡ false) r.entries
unfolding match
match-none_iff r method path = match_entries-none r.entries method path
