-- ===== src/Role.antt =====
-- core/auth.go: the access roles and their order.
pub mod Ladder
mod Tests
use godelayq.Prelude.{
  ℕ, List, [], ◌∷◌, Bool, true, false, ◌&&◌, Option, none, some, String, leb, ◌==◌, not,
  if◌then◌else◌,
}
use godelayq.Text.{codes, trim_space, equal_fold}

-- Role is an int; the constants start at 1.
abbrev pub Role : Type 0
Role = ℕ

abbrev pub role_viewer : Role
role_viewer = 1

abbrev pub role_operator : Role
role_operator = 2

abbrev pub role_admin : Role
role_admin = 3

abbrev pub role_ops : Role
role_ops = 4

abbrev pub role_machine : Role
role_machine = 5

unfoldable pub rank : Role → ℕ
rank r = if r == role_machine then role_operator else r

unfoldable pub valid : Role → Bool
valid r = leb role_viewer r && leb r role_machine

unfoldable pub at_least : Role → Role → Bool
unfolding rank valid
at_least r min = if not (valid r) then false else leb (rank min) (rank r)

unfoldable pub role_name : Role → String
role_name r =
    if r == role_viewer
    then "viewer"
    else if r == role_operator
    then "operator"
    else if r == role_admin
    then "admin"
    else if r == role_ops
    then "ops"
    else if r == role_machine
    then "machine"
    else "unknown"

abbrev pub configurable : List Role
configurable = role_viewer ∷ role_operator ∷ role_admin ∷ role_ops ∷ []

-- The loop of ParseRole over the roles that are left.
unfoldable pub parse_role_from : List Role → List ℕ → Option Role
parse_role_from [] name = none
parse_role_from (role ∷ rest) name =
    if equal_fold (codes (role_name role)) (trim_space name)
    then some role
    else parse_role_from rest name

unfoldable pub parse_role : List ℕ → Option Role
unfolding parse_role_from
parse_role name = parse_role_from configurable name
