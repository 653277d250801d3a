-- ===== src/Auth/Accounts.antt =====
-- api/authenticator.go, and the account part of AuthConfig of core/config.go. bcrypt and the JWT
-- library are arguments, the signing key with them. The claim iat, which no code reads, is left out,
-- and so is the hash that only evens the time of a failed login; a claim that is missing or of another
-- type is the empty text.
use godelayq.Prelude.{
  ℕ, ◌+◌, ◌*◌, ◌/◌, List, [], ◌∷◌, Bool, true, false, ◌||◌, not, Option, none, some, String, ltb,
  ◌==◌, if◌then◌else◌, ◌>>=◌,
}
use godelayq.Int64.{positive64}
use godelayq.Text.{codes, trim_text}
use godelayq.Dict
use godelayq.Dict.{Dict}
use godelayq.Role.{Role, role_name, parse_role}
use godelayq.Auth.{
  AuthStore, Principal, put_refresh, take_subject, drop_refresh, revoke, is_revoked, is_empty_text,
}

pub record UserConfig : Type 0 where
  pub name : String
  pub password_bcrypt : String
  pub role : String

pub record AuthConfig : Type 0 where
  pub token : String
  pub secret : String
  pub access_ttl : ℕ
  pub refresh_ttl : ℕ
  pub users : List UserConfig

pub record UserCredential : Type 0 where
  pub hash : String
  pub role : Role

pub record Authenticator : Type 0 where
  pub access_ttl : ℕ
  pub refresh_ttl : ℕ
  pub users : Dict UserCredential

pub record Claims : Type 0 where
  pub sub : String
  pub role : String
  pub jti : String
  pub exp : Option ℕ  -- seconds

-- The cost of a hash; whether a password has the hash; the signature of claims; the claims of a
-- signed token that is valid at a time; the claims of any token.
pub record Crypto : Type 0 where
  pub cost : String → Option ℕ
  pub compare : String → String → Bool
  pub sign : Claims → Option String
  pub parse : String → ℕ → Option Claims
  pub parse_unverified : String → Option Claims

pub record Session : Type 0 where
  pub access_token : String
  pub refresh_token : String
  pub expires_at : ℕ
  pub principal : Principal
  pub token_id : String

pub record TokenInfo : Type 0 where
  pub id : String
  pub expires_at : ℕ

abbrev pub second : ℕ
second = 1000000000

abbrev pub default_access_ttl : ℕ
default_access_ttl = 900000000000

abbrev pub default_refresh_ttl : ℕ
default_refresh_ttl = 43200000000000

abbrev pub resolve_role : UserConfig → Option Role
resolve_role u = parse_role (codes u.role)

abbrev pub auth_enabled : AuthConfig → Bool
auth_enabled cfg = not (is_empty_text cfg.token) || (elim cfg.users [ [] ↦ false | _ ↦ true ])

abbrev pub good_cost : Option ℕ → Bool
good_cost none = false
good_cost (some cost) = not (ltb cost 10 || ltb 15 cost)

module _ (crypto : Crypto) where
  -- The loop of NewAuthenticator.
  unfoldable pub add_users : List UserConfig → Dict UserCredential → Option (Dict UserCredential)
  add_users [] m = some m
  add_users (u ∷ us) m =
      if not (good_cost (crypto.cost u.password_bcrypt)) then none else elim (resolve_role u) [
        | none ↦ none
        | some role ↦
            add_users us
              (Dict.insert (trim_text u.name) (record { hash = u.password_bcrypt; role = role }) m)
      ]

  -- None is an error; the inner none says that there are no accounts.
  unfoldable pub new_authenticator : AuthConfig → Option (Option Authenticator)
  new_authenticator cfg = elim cfg.users [
    | [] ↦ some none
    | u ∷ us ↦
        if is_empty_text cfg.secret
        then none
        else (add_users (u ∷ us) [] >>= λ users. some (
            some (record {
              access_ttl = if positive64 cfg.access_ttl then cfg.access_ttl else default_access_ttl;
              refresh_ttl =
                  if positive64 cfg.refresh_ttl then cfg.refresh_ttl else default_refresh_ttl;
              users = users;
            })))
  ]

  unfoldable pub authenticate : Authenticator → String → String → Option Principal
  authenticate a username password = elim (Dict.lookup (trim_text username) a.users) [
    | none ↦ none
    | some cred ↦
        if crypto.compare cred.hash password
        then some (record { name = trim_text username; role = cred.role })
        else none
  ]

  abbrev pub claims_of : Principal → String → ℕ → Claims
  claims_of p jti expires_at = record {
    sub = p.name;
    role = role_name p.role;
    jti = jti;
    exp = some (expires_at / second);
  }

  -- `jti` and `token` are what the two calls of randomTokenID give.
  unfoldable pub issue_session :
      Authenticator
      → Principal
      → AuthStore
      → Option String
      → Option String
      → ℕ
      → AuthStore × Option Session
  issue_session a p s none token now = (s, none)
  issue_session a p s (some jti) token now =
      let expires_at = now + a.access_ttl in
      elim (crypto.sign (claims_of p jti expires_at)) [
        | none ↦ (s, none)
        | some signed ↦
            let (s1, put) = put_refresh s p a.refresh_ttl token now in
            elim put [
              | none ↦ (s1, none)
              | some refresh ↦ (
                s1,
                some (record {
                  access_token = signed;
                  refresh_token = refresh;
                  expires_at = expires_at;
                  principal = p;
                  token_id = jti;
                }),
              )
            ]
      ]

  abbrev pub expiry : Option ℕ → ℕ
  expiry none = 0
  expiry (some exp) = exp * second

  -- The checks against the accounts and the tokens that were logged out.
  unfoldable pub verify_account :
      Authenticator → AuthStore → Claims → Role → ℕ → AuthStore × Option (Principal × TokenInfo)
  verify_account a s c role now = elim (Dict.lookup c.sub a.users) [
    | none ↦ (s, none)
    | some current ↦
        if not (current.role == role)
        then (s, none)
        else (let (s1, gone) = is_revoked s c.jti now in
            if gone then (s1, none) else (
              s1,
              some (
                record { name = c.sub; role = role },
                record { id = c.jti; expires_at = expiry c.exp },
              ),
            ))
  ]

  unfoldable pub verify_access_token :
      Authenticator → String → AuthStore → ℕ → AuthStore × Option (Principal × TokenInfo)
  verify_access_token a token s now = elim (crypto.parse token now) [
    | none ↦ (s, none)
    | some c ↦
        if is_empty_text c.sub || is_empty_text c.jti
        then (s, none)
        else elim (parse_role (codes c.role)) [
          | none ↦ (s, none)
          | some role ↦ verify_account a s c role now
        ]
  ]

  abbrev pub user_by_name : Authenticator → String → Option Principal
  user_by_name a name = elim (Dict.lookup name a.users) [
    | none ↦ none
    | some cred ↦ some (record { name = name; role = cred.role })
  ]

  unfoldable pub refresh :
      Authenticator
      → String
      → AuthStore
      → Option String
      → Option String
      → ℕ
      → AuthStore × Option Session
  refresh a refresh_token s jti token now =
      let (s1, subject) = take_subject s refresh_token now in
      elim (user_by_name a subject) [
        | none ↦ (s1, none)
        | some p ↦ issue_session a p s1 jti token now
      ]

  -- The access token of a logout.
  unfoldable pub revoke_access : AuthStore → String → ℕ → AuthStore
  revoke_access s access_token now =
      if is_empty_text access_token then s else elim (crypto.parse_unverified access_token) [
        | none ↦ s
        | some c ↦ elim c.exp [
          | none ↦ s
          | some exp ↦
              if is_empty_text c.jti || exp == 0 then s else revoke s c.jti (exp * second) now
        ]
      ]

  unfoldable pub logout : AuthStore → String → String → ℕ → AuthStore
  logout s access_token refresh_token now =
      revoke_access (if is_empty_text refresh_token then s else drop_refresh s refresh_token)
        access_token now
