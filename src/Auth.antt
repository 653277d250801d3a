-- ===== src/Auth.antt =====
-- api/authstore.go: the refresh tokens, the access tokens that were logged out, and the tickets. The
-- mutex makes each call one step, and one call reads the clock once, `now`, a number of nanoseconds
-- whose 0 is the zero time. What randomTokenID gives is an argument.
pub mod Steps
pub mod Spent
pub mod Revoked
pub mod Accounts
pub mod Configured
pub mod Sessions
pub mod Gate
mod Tests
use godelayq.Prelude.{
  ℕ, suc, ◌+◌, ◌-◌, ◌/◌, List, [], ◌∷◌, Bool, true, false, ◌&&◌, not, Option, none, some, String,
  ltb, leb, ◌==◌, if◌then◌else◌, length, take, ite, string_discrete,
}
use godelayq.Dict
use godelayq.Dict.{Dict}
use godelayq.Role.{Role}

pub record Principal : Type 0 where
  pub name : String
  pub role : Role

pub record RefreshRecord : Type 0 where
  pub subject : String
  pub exp : ℕ

pub record TicketRecord : Type 0 where
  pub principal : Principal
  pub exp : ℕ

pub record AuthStore : Type 0 where
  pub refresh : Dict RefreshRecord
  pub revoked : Dict ℕ
  pub tickets : Dict TicketRecord
  pub last_sweep : ℕ

abbrev pub ticket_ttl : ℕ
ticket_ttl = 5000000000

abbrev pub sweep_interval : ℕ
sweep_interval = 60000000000

abbrev pub max_revoked_entries : ℕ
max_revoked_entries = 4096

abbrev pub new_auth_store : AuthStore
new_auth_store = record { refresh = []; revoked = []; tickets = []; last_sweep = 0 }

abbrev pub is_empty_text : String → Bool
is_empty_text s = ite (string_discrete s "") true false

-- The loop over one of the maps in sweepLocked.
unfoldable pub drop_expired {ℓ} : {V : Type ℓ} → (V → ℕ) → ℕ → Dict V → Dict V
drop_expired exp now [] = []
drop_expired exp now ((k, v) ∷ m) =
    let rest = drop_expired exp now m in if ltb (exp v) now then rest else (k, v) ∷ rest

-- A clock that went back makes the difference negative, and so smaller than the interval.
unfoldable pub sweep_locked : AuthStore → ℕ → AuthStore
unfolding drop_expired
sweep_locked s now =
    if not (s.last_sweep == 0) && ltb now (s.last_sweep + sweep_interval) then s else record {
      refresh = drop_expired (λ (r : RefreshRecord). r.exp) now s.refresh;
      revoked = drop_expired (λ exp. exp) now s.revoked;
      tickets = drop_expired (λ (r : TicketRecord). r.exp) now s.tickets;
      last_sweep = now;
    }

unfoldable pub put_refresh :
    AuthStore → Principal → ℕ → Option String → ℕ → AuthStore × Option String
put_refresh s p ttl none now = (s, none)
put_refresh s p ttl (some token) now =
    let swept = sweep_locked s now in
    (
      record swept {
        refresh = Dict.insert token (record { subject = p.name; exp = now + ttl }) swept.refresh;
      },
      some token,
    )

-- The subject of a record that has not expired, and else the empty text.
abbrev pub subject_at : ℕ → RefreshRecord → String
subject_at now r = if ltb r.exp now then "" else r.subject

unfoldable pub take_subject : AuthStore → String → ℕ → AuthStore × String
take_subject s token now =
    let swept = sweep_locked s now in
    if is_empty_text token then (s, "") else elim (Dict.lookup token swept.refresh) [
      | none ↦ (swept, "")
      | some r ↦ (record swept { refresh = Dict.delete token swept.refresh }, subject_at now r)
    ]

unfoldable pub drop_refresh : AuthStore → String → AuthStore
drop_refresh s token = record s { refresh = Dict.delete token s.refresh }

-- sort.Slice by the expiry.
unfoldable pub insert_oldest : String × ℕ → List (String × ℕ) → List (String × ℕ)
insert_oldest e [] = e ∷ []
insert_oldest e (d ∷ l) =
    let rest = insert_oldest e l in if ltb d.1 e.1 then d ∷ rest else e ∷ d ∷ l

unfoldable pub sort_oldest : List (String × ℕ) → List (String × ℕ)
unfolding insert_oldest
sort_oldest [] = []
sort_oldest (e ∷ l) = insert_oldest e (sort_oldest l)

unfoldable pub delete_each : List (String × ℕ) → Dict ℕ → Dict ℕ
delete_each [] m = m
delete_each (e ∷ l) m = delete_each l (Dict.delete e.0 m)

unfoldable pub drop_oldest_revoked_locked : Dict ℕ → Dict ℕ
unfolding sort_oldest delete_each
drop_oldest_revoked_locked m = delete_each (take (length m / 8 + 1) (sort_oldest m)) m

unfoldable pub revoke : AuthStore → String → ℕ → ℕ → AuthStore
revoke s jti expires_at now =
    if is_empty_text jti
    then s
    else if not (ltb now expires_at)
    then s
    else (let room =
          if leb max_revoked_entries (length s.revoked)
          then drop_oldest_revoked_locked s.revoked
          else s.revoked in
        record s { revoked = Dict.insert jti expires_at room })

unfoldable pub is_revoked : AuthStore → String → ℕ → AuthStore × Bool
is_revoked s jti now = elim (Dict.lookup jti s.revoked) [
  | none ↦ (s, false)
  | some exp ↦
      if ltb exp now then (record s { revoked = Dict.delete jti s.revoked }, false) else (s, true)
]

unfoldable pub issue_ticket : AuthStore → Principal → Option String → ℕ → AuthStore × Option String
issue_ticket s p none now = (s, none)
issue_ticket s p (some token) now =
    let swept = sweep_locked s now in
    (
      record swept {
        tickets =
            Dict.insert token (record { principal = p; exp = now + ticket_ttl }) swept.tickets;
      },
      some token,
    )

unfoldable pub consume_ticket : AuthStore → String → ℕ → AuthStore × Option Principal
consume_ticket s token now =
    if is_empty_text token then (s, none) else elim (Dict.lookup token s.tickets) [
      | none ↦ (s, none)
      | some r ↦ (
        record s { tickets = Dict.delete token s.tickets },
        (if ltb r.exp now then none else some r.principal),
      )
    ]

unfoldable pub counts : AuthStore → ℕ × ℕ × ℕ
counts s = (length s.refresh, length s.revoked, length s.tickets)
