-- ===== src/Role/Tests.antt =====
-- The theorems on roles at concrete roles and names.
use godelayq.Prelude.{◌≡◌, refl, some}
use godelayq.Text.{codes, trim_space, equal_fold, equal_codes, fold_rune}
use godelayq.Role.{role_admin, role_name, parse_role, parse_role_from}

parses_admin : parse_role (codes " Admin") ≡ some role_admin
unfolding parse_role parse_role_from equal_fold equal_codes fold_rune role_name trim_space
parses_admin = refl
