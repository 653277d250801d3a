-- ===== src/Auth/Revoked/Logout.antt =====
-- An access token that was logged out is refused until it expires.
use mathlib.Core.Option.{some_inj}
use godelayq.Prelude.{
  ℕ, ◌≡◌, ◌<◌, ◌≤◌, ◌*◌, refl, sym, ◌∙◌, inl, inr, subst, true, false, ◌||◌, none, some, String,
  arith, ltb, ◌==◌, Bool-cases, Option-cases,
}
use godelayq.Text.{codes}
use godelayq.Dict
use godelayq.Dict.{Dict}
use godelayq.Role.{parse_role}
use godelayq.Auth.{AuthStore, revoke, is_revoked, is_empty_text}
use godelayq.Auth.Accounts.{
  Authenticator, Claims, Crypto, second, verify_account, verify_access_token, revoke_access, logout,
}
use godelayq.Auth.Revoked.Kept.{QuietSteps, Kept, QuietSteps-Kept}

-- A signed token that is valid has the claims that are read from it without the check.
pub record JwtReads (crypto : Crypto) : Type 0 where
  pub unverified :
      (shown : String) (now : ℕ) (c : Claims)
      → crypto.parse shown now ≡ some c
      → crypto.parse_unverified shown ≡ some c

revoke-new :
    (s : AuthStore) (jti : String) (expires_at now : ℕ)
    → is_empty_text jti ≡ false
    → now < expires_at
    → Kept jti expires_at (revoke s jti expires_at now)
unfolding revoke
revoke-new s jti expires_at now named early =
    let open_yet : ltb now expires_at ≡ true = ground arith in
    rw (named, open_yet)
      (record {
        exp = expires_at;
        there = Dict.lookup-insert_self jti expires_at _;
        late = omega arith;
      })

logout-Kept :
    (crypto : Crypto) (s : AuthStore) (access refresh_token : String) (c : Claims) (exp now : ℕ)
    → is_empty_text access ≡ false
    → crypto.parse_unverified access ≡ some c
    → c.exp ≡ some exp
    → is_empty_text c.jti ≡ false
    → now < exp * second
    → Kept c.jti (exp * second) (logout crypto s access refresh_token now)
unfolding logout revoke_access
logout-Kept crypto s access refresh_token c exp now shown read ends named early =
    let some_time : exp == 0 ≡ false = ground arith in
    rw (shown, read, revoke_access, ends, revoke_access, named, some_time)
      (revoke-new _ c.jti (exp * second) now named early)

is_revoked-true :
    (jti : String) (deadline : ℕ) (s : AuthStore) (now : ℕ)
    → now ≤ deadline
    → Kept jti deadline s
    → (is_revoked s jti now).1 ≡ true
unfolding is_revoked
is_revoked-true jti deadline s now early k =
    let live : ltb k.exp now ≡ false = (let l = k.late in ground arith) in
    rw (k.there, is_revoked, live) refl

verify_account_revoked :
    (crypto : Crypto) (a : Authenticator) (s : AuthStore) (c : Claims) (role now : ℕ)
    → (is_revoked s c.jti now).1 ≡ true
    → (verify_account crypto a s c role now).1 ≡ none
unfolding verify_account
verify_account_revoked crypto a s c role now gone =
    elim (Option-cases (Dict.lookup c.sub a.users)) [
      | inl absent ↦ rw (absent, verify_account) refl
      | inr (cred, there) ↦
          rw (there, verify_account, gone)
            (elim (Bool-cases (cred.role == role)) [
              | inl same ↦ rw same refl
              | inr other ↦ rw other refl
            ])
    ]

verify_access_revoked :
    (crypto : Crypto) (a : Authenticator) (access : String) (s : AuthStore) (c : Claims) (now : ℕ)
    → JwtReads crypto
    → crypto.parse_unverified access ≡ some c
    → (is_revoked s c.jti now).1 ≡ true
    → (verify_access_token crypto a access s now).1 ≡ none
unfolding verify_access_token
verify_access_revoked crypto a access s c now laws read gone =
    elim (Option-cases (crypto.parse access now)) [
      | inl bad ↦ rw (bad, verify_access_token) refl
      | inr (c', signed) ↦
          let same : c ≡ c' = some_inj.0 (sym read ∙ laws.unverified access now c' signed) in
          let gone' = subst (λ (x : Claims). (is_revoked s x.jti now).1 ≡ true) same gone in
          rw (signed, verify_access_token)
            (elim (Bool-cases (is_empty_text c'.sub || is_empty_text c'.jti)) [
              | inl empty ↦ rw empty refl
              | inr named ↦ rw named (elim (Option-cases (parse_role (codes c'.role))) [
                | inl unknown ↦ rw unknown refl
                | inr (role, claimed) ↦
                    rw claimed (verify_account_revoked crypto a s c' role now gone')
              ])
            ])
    ]

-- An access token that was logged out before it expired is refused at every time from then on up to
-- its expiry, through calls at times up to the expiry of which none logs out a token while the table
-- is full, and none the same token with an earlier expiry.
pub logged_out :
    (crypto : Crypto) (a : Authenticator) (s s2 : AuthStore) (access refresh_token : String)
    (c : Claims) (exp now later : ℕ)
    → JwtReads crypto
    → is_empty_text access ≡ false
    → crypto.parse_unverified access ≡ some c
    → c.exp ≡ some exp
    → is_empty_text c.jti ≡ false
    → now < exp * second
    → QuietSteps c.jti (exp * second) (logout crypto s access refresh_token now) s2
    → later ≤ exp * second
    → (verify_access_token crypto a access s2 later).1 ≡ none
logged_out crypto a s s2 access refresh_token c exp now later laws shown read ends named early calls
      late =
    verify_access_revoked crypto a access s2 c later laws read (
      is_revoked-true c.jti (exp * second) s2 later late (
        QuietSteps-Kept c.jti (exp * second) _ s2 calls
          (logout-Kept crypto s access refresh_token c exp now shown read ends named early)))
