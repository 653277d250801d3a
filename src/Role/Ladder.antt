-- ===== src/Role/Ladder.antt =====
-- The order of the roles, and what a configuration can name.
use godelayq.Prelude.{
  ℕ, ◌≡◌, ◌<◌, refl, subst, inl, inr, List, [], ◌∷◌, map, true, false, some, arith, AllBelow,
  Bool-cases,
}
use godelayq.Text.{codes, trim_space, equal_fold, equal_codes_sound, fold_rune}
use godelayq.Role.{
  Role, role_operator, role_admin, role_ops, role_machine, valid, at_least, role_name, configurable,
  parse_role_from, parse_role,
}

-- A role that passes the check for a second role passes every check that the second role passes.
pub at_least_trans :
    (a b c : Role) → at_least a b ≡ true → at_least b c ≡ true → at_least a c ≡ true
unfolding at_least
at_least_trans a b c p q = ground arith

-- The machine passes exactly the checks that the operator passes, not those for admin and ops, and
-- a value outside the five roles passes none.
pub machine_ladder :
    (r c : Role)
    → valid r ≡ false
    → (at_least role_machine c ≡ at_least role_operator c)
      × (at_least role_machine role_admin ≡ false)
      × (at_least role_machine role_ops ≡ false)
      × (at_least r c ≡ false)
unfolding at_least
machine_ladder r c h = (ground arith, refl, refl, ground arith)

parse_role_from_sound :
    (n : ℕ) (l : List Role) (name : List ℕ) {r : Role}
    → AllBelow n l
    → parse_role_from l name ≡ some r
    → (r < n) × (map fold_rune (codes (role_name r)) ≡ map fold_rune (trim_space name))
unfolding parse_role_from equal_fold
parse_role_from_sound n [] name b e = absurd (cc)
parse_role_from_sound n (s ∷ l) name {r} b e =
    elim (Bool-cases (equal_fold (codes (role_name s)) (trim_space name))) [
      | inl same ↦
          let found : s ≡ r = ground arith in
          subst
            (λ u. (u < n) × (map fold_rune (codes (role_name u)) ≡ map fold_rune (trim_space name)))
            found (b.0, equal_codes_sound _ _ same)
      | inr other ↦ parse_role_from_sound n l name b.1 (rw other at e)
    ]

-- ParseRole never gives the machine role, and the role that it gives has the name that was parsed,
-- up to case and blanks around it.
pub parse_role_sound :
    (name : List ℕ) (r : Role)
    → parse_role name ≡ some r
    → (r < role_machine) × (map fold_rune (codes (role_name r)) ≡ map fold_rune (trim_space name))
unfolding parse_role
parse_role_sound name r e = parse_role_from_sound 5 configurable name (omega arith) e
