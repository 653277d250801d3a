-- ===== src/Auth/Sessions.antt =====
-- What a login leads to: its access token is taken, and its refresh token gives the next session.
use mathlib.Core.Option.{some_inj}
use godelayq.Prelude.{
  ℕ, ◌≡◌, ◌<◌, ◌+◌, ◌*◌, ◌/◌, refl, sym, ap, ◌∙◌, inl, inr, subst, true, false, Option, some,
  String, [], ◌∷◌, arith, ltb, ◌==◌, Bool-cases, Option-cases, string_discrete, if_pos, if_neg,
}
use godelayq.Text.{codes, trim_text}
use godelayq.Dict
use godelayq.Dict.{Dict}
use godelayq.Role.{Role, parse_role}
use godelayq.Auth.{AuthStore, Principal, is_revoked, is_empty_text, drop_expired, put_refresh}
use godelayq.Auth.Accounts.{
  AuthConfig, Authenticator, Claims, Crypto, Session, UserCredential, second, new_authenticator,
  authenticate, claims_of, issue_session, expiry, verify_account, verify_access_token,
}
use godelayq.Auth.Configured.{Configurable, new_authenticator-AllConfigurable}

-- A token that was signed gives its claims back until the second in which it expires.
pub record JwtLaws (crypto : Crypto) : Type 0 where
  pub parse-sign :
      (c : Claims) (exp : ℕ) (signed : String) (now : ℕ)
      → c.exp ≡ some exp
      → crypto.sign c ≡ some signed
      → now < exp * second
      → crypto.parse signed now ≡ some c

authenticate_sound :
    (crypto : Crypto) (a : Authenticator) (username password : String) (p : Principal)
    → authenticate crypto a username password ≡ some p
    → (cred : UserCredential) × (Dict.lookup p.name a.users ≡ some cred) × (cred.role ≡ p.role)
unfolding authenticate
authenticate_sound crypto a username password p e =
    elim (Option-cases (Dict.lookup (trim_text username) a.users)) [
      | inl gone ↦ let f = rw (gone, authenticate) at e in absurd (cc)
      | inr (cred, there) ↦
          let f = rw (there, authenticate) at e in
          elim (Bool-cases (crypto.compare cred.hash password)) [
            | inl good ↦
                let found = some_inj.0 (rw good at f) in
                (
                  cred,
                  rw (sym (ap (λ (q : Principal). q.name) found)) there,
                  ap (λ (q : Principal). q.role) found,
                )
            | inr bad ↦ let g = rw bad at f in absurd (cc)
          ]
    ]

-- What a session is made of.
record Issued (crypto : Crypto) (a : Authenticator) (p : Principal) (s : AuthStore)
    (jti token : String) (now : ℕ) (s1 : AuthStore) (session : Session) : Type 0 where
  signed : crypto.sign (claims_of crypto p jti (now + a.access_ttl)) ≡ some session.access_token
  kept : (put_refresh s p a.refresh_ttl (some token) now).0 ≡ s1
  given : session.refresh_token ≡ token

issue_session_sound :
    (crypto : Crypto) (a : Authenticator) (p : Principal) (s : AuthStore) (jti token : String)
    (now : ℕ) (s1 : AuthStore) (session : Session)
    → issue_session crypto a p s (some jti) (some token) now ≡ (s1, some session)
    → Issued crypto a p s jti token now s1 session
unfolding issue_session put_refresh
issue_session_sound crypto a p s jti token now s1 session e =
    elim (Option-cases (crypto.sign (claims_of crypto p jti (now + a.access_ttl)))) [
      | inl bad ↦ let f = rw (bad, issue_session) at e in absurd (cc)
      | inr (text, good) ↦
          let f = rw (good, issue_session) at e in
          let made = some_inj.0 (ap (λ (r : AuthStore × Option Session). r.1) f) in
          record {
            signed = good ∙ ap (λ (v : Session). some v.access_token) made;
            kept = ap (λ (r : AuthStore × Option Session). r.0) f;
            given = sym (ap (λ (v : Session). v.refresh_token) made);
          }
    ]

same_num : (a b : ℕ) → a ≡ b → a == b ≡ true
same_num a b e = ground arith

verify_account_found :
    (crypto : Crypto) (a : Authenticator) (s : AuthStore) (c : Claims) (role : Role) (now : ℕ)
    (cred : UserCredential)
    → Dict.lookup c.sub a.users ≡ some cred
    → cred.role ≡ role
    → (is_revoked s c.jti now).1 ≡ false
    → (verify_account crypto a s c role now).1
      ≡ some (
        record { name = c.sub; role = role },
        record { id = c.jti; expires_at = expiry crypto c.exp },
      )
unfolding verify_account
verify_account_found crypto a s c role now cred there same live =
    rw (there, verify_account, same_num cred.role role same, live) refl

verify_access_found :
    (crypto : Crypto) (a : Authenticator) (shown : String) (s : AuthStore) (c : Claims)
    (role : Role) (now : ℕ)
    → crypto.parse shown now ≡ some c
    → is_empty_text c.sub ≡ false
    → is_empty_text c.jti ≡ false
    → parse_role (codes c.role) ≡ some role
    → (verify_access_token crypto a shown s now).1 ≡ (verify_account crypto a s c role now).1
unfolding verify_access_token
verify_access_found crypto a shown s c role now signed named fresh claimed =
    rw (signed, verify_access_token, named, fresh, claimed, verify_access_token) refl

-- The access token of a login is taken in any state of the store in which it is not logged out, until
-- the second in which it expires, as the identity of the login. The accounts are those that
-- NewAuthenticator made of the configuration, and the name and the id of the token are not empty.
pub session_verified :
    (crypto : Crypto) (cfg : AuthConfig) (a : Authenticator) (username password : String)
    (p : Principal) (s s1 s2 : AuthStore) (jti token : String) (session : Session) (now later : ℕ)
    → JwtLaws crypto
    → new_authenticator crypto cfg ≡ some (some a)
    → authenticate crypto a username password ≡ some p
    → issue_session crypto a p s (some jti) (some token) now ≡ (s1, some session)
    → is_empty_text p.name ≡ false
    → is_empty_text jti ≡ false
    → (is_revoked s2 jti later).1 ≡ false
    → later < (now + a.access_ttl) / second * second
    → (verify_access_token crypto a session.access_token s2 later).1
      ≡ some (p, record { id = jti; expires_at = (now + a.access_ttl) / second * second })
unfolding verify_access_token verify_account
session_verified crypto cfg a username password p s s1 s2 jti token session now later laws made
      known issued named fresh live early =
    let i = issue_session_sound crypto a p s jti token now s1 session issued in
    let (cred, there, same) = authenticate_sound crypto a username password p known in
    let c = claims_of crypto p jti (now + a.access_ttl) in
    let parsed = laws.parse-sign c _ session.access_token later refl i.signed early in
    let role : Configurable p.role =
      subst Configurable same
        (new_authenticator-AllConfigurable crypto cfg a made p.name cred there) in
    verify_access_found crypto a session.access_token s2 c p.role later parsed named fresh role
    ∙ verify_account_found crypto a s2 c p.role later cred there same live

pub lookup-drop_expired-some {ℓ} :
    {V : Type ℓ} (exp : V → ℕ) (now : ℕ) (k : String) (v : V) (m : Dict V)
    → Dict.lookup k m ≡ some v
    → ltb (exp v) now ≡ false
    → Dict.lookup k (drop_expired exp now m) ≡ some v
unfolding drop_expired Dict.lookup
lookup-drop_expired-some exp now k v [] e live = absurd (cc)
lookup-drop_expired-some exp now k v ((j, w) ∷ m) e live = elim (string_discrete j k) [
  | yes same ↦
      let found = some_inj.0 (rw (if_pos (string_discrete j k) same) at e) in
      let kept : ltb (exp w) now ≡ false = rw found live in
      rw kept (if_pos (string_discrete j k) same _ _ ∙ ap some found)
  | no other ↦
      let f = rw (if_neg (string_discrete j k) other) at e in
      let ih = lookup-drop_expired-some exp now k v m f live in
      elim (Bool-cases (ltb (exp w) now)) [
        | inl old ↦ rw old ih
        | inr new ↦ rw new (if_neg (string_discrete j k) other _ _ ∙ ih)
      ]
]
