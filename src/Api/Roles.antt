-- ===== src/Api/Roles.antt =====
-- The roles of users of api/src/vms/iam/domain.py: UserRole and User.has_permission. A ValueError of
-- `hierarchy.index` is none.
pub mod Order
mod Tests
use next_sec.Prelude.{
  ℕ, suc, Bool, true, false, Option, none, some, List, [], ◌∷◌, leb, if◌then◌else◌,
}

pub data UserRole : Type 0 where
  admin gestor operador operator viewer : UserRole

abbrev pub is_role : UserRole → UserRole → Bool
is_role admin admin = true
is_role gestor gestor = true
is_role operador operador = true
is_role operator operator = true
is_role viewer viewer = true
is_role _ _ = false

abbrev pub hierarchy : List UserRole
hierarchy = viewer ∷ operator ∷ admin ∷ []

-- `roles.index(role)`, counted from `at`
abbrev pub index : ℕ → UserRole → List UserRole → Option ℕ
index at role [] = none
index at role (r ∷ rs) = if is_role r role then some at else index (suc at) role rs

abbrev pub compare_levels : Option ℕ → Option ℕ → Option Bool
compare_levels none required = none
compare_levels (some user) none = none
compare_levels (some user) (some required) = some (leb required user)

-- The role of the user, then the required one.
unfoldable pub has_permission : UserRole → UserRole → Option Bool
has_permission role required_role =
    compare_levels (index 0 role hierarchy) (index 0 required_role hierarchy)
