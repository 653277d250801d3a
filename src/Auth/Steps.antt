-- ===== src/Auth/Steps.antt =====
-- The calls of the store as steps.
use godelayq.Prelude.{ℕ, ◌≢◌, Option, some, String}
use godelayq.Auth.{
  AuthStore, Principal, put_refresh, take_subject, drop_refresh, revoke, is_revoked, issue_ticket,
  consume_ticket,
}

-- A call in which randomTokenID does not give `t`.
pub data AuthStep (t : String) (s : AuthStore) : AuthStore → Type 0 where
  registered :
      (p : Principal) (ttl : ℕ) (token : Option String) (now : ℕ)
      → token ≢ some t
      → AuthStep t s (put_refresh s p ttl token now).0
  taken : (token : String) (now : ℕ) → AuthStep t s (take_subject s token now).0
  dropped : (token : String) → AuthStep t s (drop_refresh s token)
  revoked : (jti : String) (expires_at now : ℕ) → AuthStep t s (revoke s jti expires_at now)
  asked : (jti : String) (now : ℕ) → AuthStep t s (is_revoked s jti now).0
  issued :
      (p : Principal) (token : Option String) (now : ℕ)
      → token ≢ some t
      → AuthStep t s (issue_ticket s p token now).0
  consumed : (token : String) (now : ℕ) → AuthStep t s (consume_ticket s token now).0

pub data AuthSteps (t : String) (s : AuthStore) : AuthStore → Type 0 where
  no_call : AuthSteps t s s
  then_call : (s1 s2 : AuthStore) → AuthSteps t s s1 → AuthStep t s1 s2 → AuthSteps t s s2
