-- ===== src/Auth/Configured.antt =====
-- What NewAuthenticator makes of the accounts of a configuration.
use mathlib.Core.Option.{some_inj}
use godelayq.Prelude.{
  ℕ, ◌≡◌, refl, sym, ap, ◌∙◌, inl, inr, subst, Bool, true, false, Option, none, some, String, List,
  [], ◌∷◌, Bool-cases, Option-cases, if◌then◌else◌,
}
use godelayq.Text.{codes, trim_text, equal_fold, trim_space, equal_codes, fold_rune}
use godelayq.Dict
use godelayq.Dict.{Dict}
use godelayq.Role.{
  Role, role_viewer, role_operator, role_admin, role_ops, role_name, parse_role, parse_role_from,
}
use godelayq.Auth.{is_empty_text}
use godelayq.Auth.Accounts.{
  AuthConfig, UserConfig, Authenticator, Crypto, UserCredential, resolve_role, good_cost, add_users,
  new_authenticator,
}

-- A role whose name is read back as the role.
abbrev pub Configurable : Role → Type 0
Configurable r = parse_role (codes (role_name r)) ≡ some r

first_of :
    (role r : Role) (t : Bool) (rest : Option Role)
    → Configurable role
    → (rest ≡ some r → Configurable r)
    → (if t then some role else rest) ≡ some r
    → Configurable r
first_of role r true rest good later e = subst Configurable (let same : role ≡ r = cc in same) good
first_of role r false rest good later e = later e

role_names :
    Configurable role_viewer
    × Configurable role_operator
    × Configurable role_admin
    × Configurable role_ops
unfolding parse_role parse_role_from equal_fold equal_codes fold_rune role_name trim_space
role_names = (refl, refl, refl, refl)

parse_role-Configurable : (name : List ℕ) (r : Role) → parse_role name ≡ some r → Configurable r
unfolding parse_role parse_role_from
parse_role-Configurable name r e =
    let (viewer, operator, admin, ops) = role_names in
    first_of role_viewer r _ _ viewer
      (first_of role_operator r _ _ operator (
        first_of role_admin r _ _ admin
          (first_of role_ops r _ _ ops (λ (n : Path (Option Role) none (some r)). absurd (cc)))))
      e

-- Every account has a role that the configuration can name.
abbrev pub AllConfigurable : Dict UserCredential → Type 0
AllConfigurable m =
    (k : String) (cred : UserCredential) → Dict.lookup k m ≡ some cred → Configurable cred.role

insert-AllConfigurable :
    (k : String) (cred : UserCredential) (m : Dict UserCredential)
    → Configurable cred.role
    → AllConfigurable m
    → AllConfigurable (Dict.insert k cred m)
insert-AllConfigurable k cred m good all j found e = elim (Dict.insert_cases k j cred m) [
  | inl p ↦
      subst (λ (c : UserCredential). Configurable c.role) (let same : cred ≡ found = cc in same)
        good
  | inr p ↦ all j found (sym (p.1) ∙ e)
]

add_users-AllConfigurable :
    (crypto : Crypto) (us : List UserConfig) (m m' : Dict UserCredential)
    → AllConfigurable m
    → add_users crypto us m ≡ some m'
    → AllConfigurable m'
unfolding add_users
add_users-AllConfigurable crypto [] m m' all e =
    subst AllConfigurable (let same : m ≡ m' = cc in same) all
add_users-AllConfigurable crypto (u ∷ us) m m' all e =
    elim (Bool-cases (good_cost (crypto.cost u.password_bcrypt))) [
      | inl fine ↦
          let e = rw fine at e in
          elim (Option-cases (resolve_role u)) [
            | inl unknown ↦ let e = rw (unknown, add_users) at e in absurd (cc)
            | inr (role, known) ↦
                add_users-AllConfigurable crypto us _ m'
                  (insert-AllConfigurable (trim_text u.name) _ m
                    (parse_role-Configurable _ role known) all)
                  (rw (known, add_users) at e)
          ]
      | inr bad ↦ let e = rw bad at e in absurd (cc)
    ]

built :
    (crypto : Crypto) (cfg : AuthConfig) (a : Authenticator) (us : List UserConfig)
    → cfg.users ≡ us
    → new_authenticator crypto cfg ≡ some (some a)
    → add_users crypto us [] ≡ some a.users
unfolding new_authenticator
built crypto cfg a [] p e = let f = rw (p, new_authenticator) at e in absurd (cc)
built crypto cfg a (u ∷ us) p e =
    let f = rw (p, new_authenticator) at e in
    elim (Bool-cases (is_empty_text cfg.secret)) [
      | inl empty ↦ let g = rw empty at f in absurd (cc)
      | inr keyed ↦
          let g = rw keyed at f in
          elim (Option-cases (add_users crypto (u ∷ us) [])) [
            | inl bad ↦ let h = rw bad at g in absurd (cc)
            | inr (m, good) ↦
                let h = rw good at g in
                good ∙ ap (λ (b : Authenticator). some b.users) (some_inj.0 (some_inj.0 h))
          ]
    ]

pub new_authenticator-AllConfigurable :
    (crypto : Crypto) (cfg : AuthConfig) (a : Authenticator)
    → new_authenticator crypto cfg ≡ some (some a)
    → AllConfigurable a.users
unfolding Dict.lookup
new_authenticator-AllConfigurable crypto cfg a e =
    add_users-AllConfigurable crypto cfg.users [] a.users
      (λ k cred (n : Path (Option UserCredential) none (some cred)). absurd (cc))
      (built crypto cfg a cfg.users refl e)
