-- ===== src/Auth/Gate/Tokens.antt =====
-- What the tokens of a request are good for.
use godelayq.Prelude.{
  ℕ, ◌≡◌, ◌<◌, sym, ap, ◌∙◌, inl, inr, true, false, ◌||◌, some, String, arith, ltb, ◌==◌,
  Bool-cases, Option-cases, string_discrete, if_pos, if_neg,
}
use godelayq.Text.{codes}
use godelayq.Dict
use godelayq.Role.{Role, role_machine, parse_role}
use godelayq.Role.Ladder.{parse_role_sound}
use godelayq.Auth.{AuthStore, Principal, TicketRecord, is_revoked, is_empty_text}
use godelayq.Auth.Accounts.{
  Authenticator, Claims, Crypto, TokenInfo, UserCredential, verify_account, verify_access_token,
}
use godelayq.Auth.Gate.{Server, machine_principal, verify_machine_token, without_info}

-- An access token that is signed, names an account that is there with this role, and was not
-- logged out.
pub record GoodAccess (crypto : Crypto) (a : Authenticator) (shown : String) (s : AuthStore)
    (now : ℕ) (p : Principal) : Type 0 where
  pub claims : Claims
  pub cred : UserCredential
  pub signed : crypto.parse shown now ≡ some claims
  pub there : Dict.lookup claims.sub a.users ≡ some cred
  pub same_name : p.name ≡ claims.sub
  pub same_role : p.role ≡ cred.role
  pub claimed : parse_role (codes claims.role) ≡ some p.role
  pub no_machine : p.role < role_machine
  pub not_revoked : (is_revoked s claims.jti now).1 ≡ false

eq_num : (a b : ℕ) → a == b ≡ true → a ≡ b
eq_num a b h = ground arith

verify_account_sound :
    (crypto : Crypto) (a : Authenticator) (s : AuthStore) (c : Claims) (role : Role) (now : ℕ)
    {p : Principal} {info : TokenInfo} (shown : String)
    → crypto.parse shown now ≡ some c
    → parse_role (codes c.role) ≡ some role
    → (verify_account crypto a s c role now).1 ≡ some (p, info)
    → GoodAccess crypto a shown s now p
unfolding verify_account
verify_account_sound crypto a s c role now {p} {info} shown signed claimed h =
    elim (Option-cases (Dict.lookup c.sub a.users)) [
      | inl gone ↦ let e = rw (gone, verify_account) at h in absurd (cc)
      | inr (cred, there) ↦
          let e = rw (there, verify_account) at h in
          elim (Bool-cases (cred.role == role)) [
            | inl same ↦
                let e = rw same at e in
                elim (Bool-cases (is_revoked s c.jti now).1) [
                  | inl bad ↦ let e = rw bad at e in absurd (cc)
                  | inr good ↦
                      let e = rw good at e in
                      let found : record { name = c.sub; role = role } ≡ p = cc in
                      let role_claimed : parse_role (codes c.role) ≡ some p.role =
                        rw (sym (ap (λ (q : Principal). q.role) found)) claimed in
                      record {
                        claims = c;
                        cred = cred;
                        signed = signed;
                        there = there;
                        same_name = sym (ap (λ (q : Principal). q.name) found);
                        same_role =
                            sym (ap (λ (q : Principal). q.role) found)
                            ∙ sym (eq_num (cred.role) role same);
                        claimed = role_claimed;
                        no_machine = (parse_role_sound (codes c.role) p.role role_claimed).0;
                        not_revoked = good;
                      }
                ]
            | inr other ↦ let e = rw other at e in absurd (cc)
          ]
    ]

pub verify_access_sound :
    (crypto : Crypto) (a : Authenticator) (shown : String) (s : AuthStore) (now : ℕ) {p : Principal}
    {info : TokenInfo}
    → (verify_access_token crypto a shown s now).1 ≡ some (p, info)
    → GoodAccess crypto a shown s now p
unfolding verify_access_token
verify_access_sound crypto a shown s now h = elim (Option-cases (crypto.parse shown now)) [
  | inl bad ↦ let e = rw (bad, verify_access_token) at h in absurd (cc)
  | inr (c, signed) ↦
      let e = rw (signed, verify_access_token) at h in
      elim (Bool-cases (is_empty_text c.sub || is_empty_text c.jti)) [
        | inl empty ↦ let e = rw empty at e in absurd (cc)
        | inr named ↦
            let e = rw named at e in
            elim (Option-cases (parse_role (codes c.role))) [
              | inl unknown ↦ let f = rw unknown at e in absurd (cc)
              | inr (role, claimed) ↦
                  verify_account_sound crypto a s c role now shown signed claimed (rw claimed at e)
            ]
      ]
]

pub verify_machine_sound :
    (shown want : String) {p : Principal} {info : TokenInfo}
    → without_info (verify_machine_token shown want) ≡ some (p, info)
    → (is_empty_text want ≡ false) × (shown ≡ want) × (p ≡ machine_principal)
unfolding verify_machine_token
verify_machine_sound shown want h = elim (Bool-cases (is_empty_text want)) [
  | inl empty ↦ let e = rw empty at h in absurd (cc)
  | inr named ↦ elim (string_discrete shown want) [
    | yes same ↦
        (named, same, (let e = rw (named, if_pos (string_discrete shown want) same) at h in cc))
    | no other ↦ let e = rw (named, if_neg (string_discrete shown want) other) at h in absurd (cc)
  ]
]

-- The static token of the configuration, which is not empty.
pub record GoodToken (server : Server) (shown : String) (p : Principal) : Type 0 where
  pub kept : is_empty_text server.config.token ≡ false
  pub same : shown ≡ server.config.token
  pub machine : p ≡ machine_principal

-- A ticket that is there and has not expired.
pub record GoodTicket (s : AuthStore) (ticket : String) (now : ℕ) (p : Principal) : Type 0 where
  pub entry : TicketRecord
  pub there : Dict.lookup ticket s.tickets ≡ some entry
  pub in_time : ltb entry.exp now ≡ false
  pub owner : p ≡ entry.principal
