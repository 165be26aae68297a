-- ===== src/Api/Roles/Tests.antt =====
-- Checks of roles of api/src/vms/iam/domain.py.
use next_sec.Prelude.{◌≡◌, refl, true, some}
use next_sec.Api.Roles.{UserRole, has_permission}

admin_over_operator : has_permission UserRole.admin UserRole.operator ≡ some true
unfolding has_permission
admin_over_operator = refl
