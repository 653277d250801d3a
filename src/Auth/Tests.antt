-- ===== src/Auth/Tests.antt =====
-- The theorems on tokens and requests at one account and one session.
use godelayq.Prelude.{
  ℕ, ◌≡◌, ◌*◌, refl, sym, ap, ◌∙◌, inl, inr, true, false, Option, none, some, String, [], ◌∷◌,
  arith, ltb, ◌==◌, Bool-cases, ite, if_pos, if_neg, string_discrete, if◌then◌else◌,
}
use mathlib.Core.Option.{some_inj}
use godelayq.Text.{
  trim_text, trim_front, trim_back, cut_prefix, is_space, equal_fold, equal_codes, fold_rune,
  trim_space,
}
use godelayq.Dict
use godelayq.Role.{role_admin, role_operator, role_name, parse_role, parse_role_from, at_least}
use godelayq.Auth.{
  AuthStore, Principal, new_auth_store, drop_expired, sweep_locked, put_refresh, take_subject,
  revoke, is_revoked, consume_ticket,
}
use godelayq.Auth.Steps.{AuthStep, no_call}
use godelayq.Auth.Spent.{refreshed, one_use}
use godelayq.Auth.Accounts.{
  AuthConfig, Authenticator, Claims, Crypto, Session, second, add_users, new_authenticator,
  authenticate, issue_session, verify_access_token, refresh, logout,
}
use godelayq.Auth.Sessions.{JwtLaws, session_verified}
use godelayq.Auth.Revoked.{Bounded, AuthStep-Bounded}
use godelayq.Auth.Revoked.Logout.{JwtReads, logged_out}
use godelayq.Auth.Revoked.Kept.{QuietSteps}
use godelayq.Auth.Gate.{
  Request, Server, admitted, header_credential, verify_machine_token, verify_presented,
  authenticate_request, auth_middleware, require_role,
}
use godelayq.Auth.Gate.Admits.{Served, require_role_lem}

abbrev demo_claims : Claims
demo_claims = record { sub = "ann"; role = "admin"; jti = "j1"; exp = some 900 }

abbrev sign_at : Option ℕ → Option String
sign_at none = none
sign_at (some e) = if e == 900 then some "jwt" else none

unfoldable sign_demo : Claims → Option String
sign_demo c =
    ite (string_discrete c.sub "ann")
      (ite (string_discrete c.role "admin") (ite (string_discrete c.jti "j1") (sign_at c.exp) none)
        none)
      none

unfoldable parse_demo : String → ℕ → Option Claims
parse_demo shown now =
    if ltb now (900 * second)
    then ite (string_discrete shown "jwt") (some demo_claims) none
    else none

abbrev demo_crypto : Crypto
demo_crypto = record {
  cost = λ h. some 12;
  compare = λ h p. ite (string_discrete p "pw") true false;
  sign = sign_demo;
  parse = parse_demo;
  parse_unverified = λ shown. ite (string_discrete shown "jwt") (some demo_claims) none;
}

abbrev demo_config : AuthConfig
demo_config = record {
  token = "static";
  secret = "key";
  access_ttl = 0;
  refresh_ttl = 0;
  users = record { name = " ann"; password_bcrypt = "hash"; role = "Admin" } ∷ [];
}

abbrev demo_accounts : Authenticator
demo_accounts = record {
  access_ttl = 900000000000;
  refresh_ttl = 43200000000000;
  users = ("ann", record { hash = "hash"; role = role_admin }) ∷ [];
}

abbrev ann : Principal
ann = record { name = "ann"; role = role_admin }

abbrev after_login : AuthStore
after_login = record {
  refresh = ("r1", record { subject = "ann"; exp = 43200000000005 }) ∷ [];
  revoked = [];
  tickets = [];
  last_sweep = 5;
}

abbrev demo_session : Session
demo_session = record {
  access_token = "jwt";
  refresh_token = "r1";
  expires_at = 900000000005;
  principal = ann;
  token_id = "j1";
}

accounts_made : new_authenticator demo_crypto demo_config ≡ some (some demo_accounts)
unfolding new_authenticator add_users trim_text trim_front trim_back is_space parse_role
    parse_role_from equal_fold equal_codes fold_rune role_name trim_space Dict.insert
    string_discrete
accounts_made = refl

ann_known : authenticate demo_crypto demo_accounts "ann " "pw" ≡ some ann
unfolding authenticate trim_text trim_front trim_back is_space Dict.lookup string_discrete
ann_known = refl

session_issued :
    issue_session demo_crypto demo_accounts ann new_auth_store (some "j1") (some "r1") 5
    ≡ (after_login, some demo_session)
unfolding issue_session sign_demo put_refresh sweep_locked drop_expired Dict.insert role_name
    string_discrete
session_issued = refl

signs_one :
    (exp : Option ℕ) (signed : String)
    → sign_at exp ≡ some signed
    → (exp ≡ some 900) × ("jwt" ≡ signed)
signs_one none signed e = absurd (cc)
signs_one (some n) signed e = elim (Bool-cases (n == 900)) [
  | inl same ↦ (ap some (ground arith), some_inj.0 (rw same at e))
  | inr other ↦ let f = rw other at e in absurd (cc)
]

sign_demo_sound :
    (c : Claims) (signed : String)
    → sign_demo c ≡ some signed
    → (c ≡ demo_claims) × ("jwt" ≡ signed)
unfolding sign_demo
sign_demo_sound c signed e = elim (string_discrete c.sub "ann") [
  | no n ↦ let f = rw (if_neg (string_discrete c.sub "ann") n) at e in absurd (cc)
  | yes sub ↦
      let f = rw (if_pos (string_discrete c.sub "ann") sub) at e in
      elim (string_discrete c.role "admin") [
        | no n ↦ let g = rw (if_neg (string_discrete c.role "admin") n) at f in absurd (cc)
        | yes role ↦
            let g = rw (if_pos (string_discrete c.role "admin") role) at f in
            elim (string_discrete c.jti "j1") [
              | no n ↦ let h = rw (if_neg (string_discrete c.jti "j1") n) at g in absurd (cc)
              | yes jti ↦
                  let (exp, text) =
                    signs_one c.exp signed (rw (if_pos (string_discrete c.jti "j1") jti) at g) in
                  ((λ i. record { sub = sub i; role = role i; jti = jti i; exp = exp i }), text)
            ]
      ]
]

demo_laws : JwtLaws demo_crypto
unfolding parse_demo string_discrete
demo_laws = record {
  parse-sign = λ c exp signed now ends made early.
      let (same, text) = sign_demo_sound c signed made in
      let last : 900 ≡ exp = some_inj.0 (sym (ap (λ (d : Claims). d.exp) same) ∙ ends) in
      let in_time : ltb now (900 * second) ≡ true = ground arith in
      rw (sym text, in_time, same) refl;
}

demo_reads : JwtReads demo_crypto
unfolding parse_demo
demo_reads = record {
  unverified = λ shown now c e. elim (Bool-cases (ltb now (900 * second))) [
    | inl early ↦ rw early at e
    | inr late ↦ let f = rw late at e in absurd (cc)
  ];
}

not_logged_out : (is_revoked after_login "j1" 60).1 ≡ false
unfolding is_revoked Dict.lookup
not_logged_out = refl

session_verified_example :
    (verify_access_token demo_crypto demo_accounts "jwt" after_login 60).1
    ≡ some (ann, record { id = "j1"; expires_at = 900000000000 })
unfolding string_discrete
session_verified_example =
    session_verified demo_crypto demo_config demo_accounts "ann " "pw" ann new_auth_store
      after_login after_login "j1" "r1" demo_session 5 60 demo_laws accounts_made ann_known
      session_issued refl refl not_logged_out (omega arith)

one_use_example :
    ((take_subject (take_subject after_login "r1" 60).0 "r1" 70).1 ≡ "")
    × ((consume_ticket (take_subject after_login "r1" 60).0 "r1" 70).1 ≡ none)
unfolding Dict.lookup string_discrete
one_use_example =
    one_use "r1" after_login (take_subject after_login "r1" 60).0
      (take_subject after_login "r1" 60).0 70 refl (refreshed 60 refl) no_call

AuthStep-Bounded_example : Bounded (revoke after_login "j1" 900000000000 60)
AuthStep-Bounded_example =
    AuthStep-Bounded "r1" after_login _ (omega arith) (AuthStep.revoked "j1" 900000000000 60)

logged_out_example :
    (verify_access_token demo_crypto demo_accounts "jwt"
      (logout demo_crypto after_login "jwt" "r1" 60)
      80).1
    ≡ none
unfolding string_discrete
logged_out_example =
    logged_out demo_crypto demo_accounts after_login (logout demo_crypto after_login "jwt" "r1" 60)
      "jwt" "r1" demo_claims 900 60 80 demo_reads refl refl refl refl (omega arith)
      QuietSteps.no_call (omega arith)

abbrev demo_server : Server
demo_server = record { config = demo_config; accounts = some demo_accounts }

abbrev by_script : Request
by_script = record {
  method = "POST";
  path = "/api/v1/jobs";
  authorization = "Bearer static";
  x_auth_token = "";
  ticket = "";
  token = "";
}

script_gets_in :
    require_role demo_server role_operator
      (auth_middleware demo_crypto demo_server by_script false after_login 60).1
    ≡ admitted
unfolding require_role auth_middleware authenticate_request header_credential cut_prefix trim_text
    trim_front trim_back is_space verify_presented verify_access_token parse_demo
    verify_machine_token at_least string_discrete
script_gets_in = refl

require_role_lem_example :
    Served demo_crypto demo_server by_script after_login 60 role_operator
      (auth_middleware demo_crypto demo_server by_script false after_login 60).1
unfolding string_discrete
require_role_lem_example =
    require_role_lem demo_crypto demo_server by_script false after_login 60 role_operator refl
      script_gets_in
