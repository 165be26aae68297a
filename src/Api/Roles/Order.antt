-- ===== src/Api/Roles/Order.antt =====
-- What User.has_permission of api/src/vms/iam/domain.py compares.
use next_sec.Prelude.{◌≡◌, refl, Bool, true, false, none, some, if◌then◌else◌, not}
use next_sec.Api.Roles.{
  UserRole, has_permission, is_role, admin, gestor, operador, operator, viewer,
}

-- The two roles that the hierarchy of the code leaves out.
abbrev pub is_unranked : UserRole → Bool
is_unranked gestor = true
is_unranked operador = true
is_unranked admin = false
is_unranked operator = false
is_unranked viewer = false

-- The documented order of the three other roles: admin, operator, viewer.
abbrev pub grants : UserRole → UserRole → Bool
grants admin required = true
grants operator required = not (is_role admin required)
grants viewer required = is_role viewer required
grants gestor required = false
grants operador required = false

-- Where neither role is `gestor` or `operador` the check is the order admin, operator, viewer; where
-- one of them is, whichever it is, the check raises in place of answering.
pub has_permission-grants :
    (role required : UserRole)
    → has_permission role required ≡ (
        if is_unranked role
        then none
        else if is_unranked required
        then none
        else some (grants role required))
unfolding has_permission
has_permission-grants admin admin = refl
has_permission-grants admin gestor = refl
has_permission-grants admin operador = refl
has_permission-grants admin operator = refl
has_permission-grants admin viewer = refl
has_permission-grants gestor required = refl
has_permission-grants operador required = refl
has_permission-grants operator admin = refl
has_permission-grants operator gestor = refl
has_permission-grants operator operador = refl
has_permission-grants operator operator = refl
has_permission-grants operator viewer = refl
has_permission-grants viewer admin = refl
has_permission-grants viewer gestor = refl
has_permission-grants viewer operador = refl
has_permission-grants viewer operator = refl
has_permission-grants viewer viewer = refl
