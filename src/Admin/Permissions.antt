-- ===== src/Admin/Permissions.antt =====
-- internal/admin/permissions.go: what each role may do.
use new_api_gateway.Prelude.{ℕ, Bool, true, false, ◌≡◌, ◌≤◌, arith}

-- `Role`; a role that the map lacks is `other`.
pub data Role : Type 0 where
  viewer auditor raw_access admin other : Role

-- `Permission`
pub data Permission : Type 0 where
  view_aggregates view_normalized_traces review raw_evidence api_key_lookup manage_users :
      Permission

-- `Role.Allows`, from `rolePermissions`.
unfoldable pub allows : Role → Permission → Bool
allows viewer view_aggregates = true
allows viewer p = false
allows auditor view_aggregates = true
allows auditor view_normalized_traces = true
allows auditor review = true
allows auditor p = false
allows raw_access manage_users = false
allows raw_access p = true
allows admin p = true
allows other p = false

-- The roles from the weakest to the strongest.
abbrev pub rank : Role → ℕ
rank other = 0
rank viewer = 1
rank auditor = 2
rank raw_access = 3
rank admin = 4

-- A stronger role may do all that a weaker one may.
pub allows-rank :
    (r s : Role) (p : Permission) → rank r ≤ rank s → allows r p ≡ true → allows s p ≡ true
unfolding allows
allows-rank r s p h k = ground arith
