-- ===== src/Auth/Gate/Admits.antt =====
-- What a request that gets through has shown.
use godelayq.Prelude.{
  ℕ, ◌≡◌, refl, ◌∙◌, inl, inr, Bool, true, Option, none, some, String, ltb, Bool-cases,
  Option-cases,
}
use godelayq.Dict
use godelayq.Role.{Role, at_least}
use godelayq.Auth.{AuthStore, Principal, consume_ticket, is_empty_text}
use godelayq.Auth.Accounts.{Authenticator, Crypto, TokenInfo, auth_enabled, verify_access_token}
use godelayq.Auth.Gate.{
  Request, Server, HeaderCredential, unseen, malformed, presented, Admission, anyone, refused,
  identified, admitted, header_credential, ticket_allowed_path, verify_machine_token, without_info,
  verify_presented, query_credential, authenticate_request, public_endpoint, admission_of,
  auth_middleware, require_role,
}
use godelayq.Auth.Gate.Tokens.{
  GoodAccess, GoodToken, GoodTicket, verify_access_sound, verify_machine_sound,
}

-- What an identity rests on. The query counts only where both headers are missing; it takes a ticket
-- only on the paths of the live channels, and no access token at all.
pub data Grounds (crypto : Crypto) (server : Server) (r : Request) (s : AuthStore) (now : ℕ)
    (p : Principal) : Type 0 where
  by_account :
      (shown : String) (a : Authenticator)
      → header_credential r ≡ presented shown
      → server.accounts ≡ some a
      → GoodAccess crypto a shown s now p
      → Grounds crypto server r s now p
  by_header :
      (shown : String)
      → header_credential r ≡ presented shown
      → GoodToken server shown p
      → Grounds crypto server r s now p
  by_ticket :
      header_credential r ≡ unseen
      → ticket_allowed_path r.path ≡ true
      → GoodTicket s r.ticket now p
      → Grounds crypto server r s now p
  by_query :
      header_credential r ≡ unseen
      → is_empty_text r.ticket ≡ true
      → GoodToken server r.token p
      → Grounds crypto server r s now p

good_token :
    (server : Server) (shown : String) {p : Principal} {info : TokenInfo}
    → without_info (verify_machine_token shown server.config.token) ≡ some (p, info)
    → GoodToken server shown p
good_token server shown h =
    let m = verify_machine_sound shown server.config.token h in
    record { kept = m.0; same = m.1; machine = m.2 }

consume_sound :
    (s : AuthStore) (ticket : String) (now : ℕ) {p : Principal} {info : TokenInfo}
    → without_info (consume_ticket s ticket now).1 ≡ some (p, info)
    → GoodTicket s ticket now p
unfolding consume_ticket
consume_sound s ticket now h = elim (Bool-cases (is_empty_text ticket)) [
  | inl empty ↦ let e = rw empty at h in absurd (cc)
  | inr named ↦
      let e = rw named at h in
      elim (Option-cases (Dict.lookup ticket s.tickets)) [
        | inl gone ↦ let f = rw (gone, consume_ticket) at e in absurd (cc)
        | inr (entry, there) ↦
            let f = rw (there, consume_ticket) at e in
            elim (Bool-cases (ltb entry.exp now)) [
              | inl old ↦ let g = rw old at f in absurd (cc)
              | inr live ↦
                  let g = rw live at f in
                  record { entry = entry; there = there; in_time = live; owner = cc }
            ]
      ]
]

verify_presented_sound :
    (crypto : Crypto) (server : Server) (r : Request) (shown : String) (s : AuthStore) (now : ℕ)
    {p : Principal} {info : TokenInfo}
    → header_credential r ≡ presented shown
    → (verify_presented crypto server shown s now).1 ≡ some (p, info)
    → Grounds crypto server r s now p
unfolding verify_presented
verify_presented_sound crypto server r shown s now seen h = elim (Option-cases server.accounts) [
  | inl nobody ↦
      let e = rw (nobody, verify_presented) at h in by_header shown seen (good_token server shown e)
  | inr (a, some_account) ↦
      let e = rw (some_account, verify_presented) at h in
      elim (Option-cases (verify_access_token crypto a shown s now).1) [
        | inl bad ↦ by_header shown seen (good_token server shown (rw bad at e))
        | inr (found, good) ↦
            by_account shown a seen some_account
              (verify_access_sound crypto a shown s now (good ∙ (rw good at e)))
      ]
]

query_credential_sound :
    (crypto : Crypto) (server : Server) (r : Request) (s : AuthStore) (now : ℕ) {p : Principal}
    {info : TokenInfo}
    → header_credential r ≡ unseen
    → (query_credential crypto server r s now).1 ≡ some (p, info)
    → Grounds crypto server r s now p
unfolding query_credential
query_credential_sound crypto server r s now seen h = elim (Bool-cases (is_empty_text r.ticket)) [
  | inl no_ticket ↦
      let e = rw no_ticket at h in
      elim (Bool-cases (is_empty_text r.token)) [
        | inl no_token ↦ let f = rw no_token at e in absurd (cc)
        | inr token ↦ by_query seen no_ticket (good_token server r.token (rw token at e))
      ]
  | inr ticket ↦
      let e = rw ticket at h in
      elim (Bool-cases (ticket_allowed_path r.path)) [
        | inl live ↦ by_ticket seen live (consume_sound s r.ticket now (rw live at e))
        | inr rest ↦ let f = rw rest at e in absurd (cc)
      ]
]

authenticate_request_sound :
    (crypto : Crypto) (server : Server) (r : Request) (s : AuthStore) (now : ℕ) {p : Principal}
    {info : TokenInfo} (seen : HeaderCredential)
    → header_credential r ≡ seen
    → (authenticate_request crypto server r s now).1 ≡ some (p, info)
    → Grounds crypto server r s now p
unfolding authenticate_request
authenticate_request_sound crypto server r s now malformed e h =
    let f = rw (e, authenticate_request) at h in absurd (cc)
authenticate_request_sound crypto server r s now (presented shown) e h =
    verify_presented_sound crypto server r shown s now e (rw (e, authenticate_request) at h)
authenticate_request_sound crypto server r s now unseen e h =
    query_credential_sound crypto server r s now e (rw (e, authenticate_request) at h)

-- The identity of a request that gets to its handler.
pub record Served (crypto : Crypto) (server : Server) (r : Request) (s : AuthStore) (now : ℕ)
    (min : Role) (admission : Admission) : Type 0 where
  pub principal : Principal
  pub info : TokenInfo
  pub known : admission ≡ identified principal info
  pub grounds : Grounds crypto server r s now principal
  pub high_enough : at_least principal.role min ≡ true

require_role_sound :
    (server : Server) (min : Role) (admission : Admission)
    → auth_enabled server.config ≡ true
    → require_role server min admission ≡ admitted
    → (p : Principal) × (info : TokenInfo) × (admission ≡ identified p info)
      × (at_least p.role min ≡ true)
unfolding require_role
require_role_sound server min refused on h = let e = rw on at h in absurd (cc)
require_role_sound server min anyone on h = let e = rw on at h in absurd (cc)
require_role_sound server min (identified p info) on h =
    let e = rw on at h in
    elim (Bool-cases (at_least p.role min)) [
      | inl high ↦ (p, info, refl, high)
      | inr low ↦ let f = rw low at e in absurd (cc)
    ]

admission_of_sound :
    (found : Option (Principal × TokenInfo)) {p : Principal} {info : TokenInfo}
    → admission_of found ≡ identified p info
    → found ≡ some (p, info)
admission_of_sound none h = absurd (cc)
admission_of_sound (some (q, i)) h = cc

auth_middleware_sound :
    (crypto : Crypto) (server : Server) (r : Request) (console : Bool) (s : AuthStore) (now : ℕ)
    {p : Principal} {info : TokenInfo}
    → auth_enabled server.config ≡ true
    → (auth_middleware crypto server r console s now).1 ≡ identified p info
    → Grounds crypto server r s now p
unfolding auth_middleware
auth_middleware_sound crypto server r console s now on h =
    let e = rw on at h in
    elim (Bool-cases (public_endpoint r)) [
      | inl public ↦ let f = rw public at e in absurd (cc)
      | inr closed ↦
          let f = rw closed at e in
          elim (Bool-cases console) [
            | inl asset ↦ let g = rw asset at f in absurd (cc)
            | inr call ↦
                authenticate_request_sound crypto server r s now (header_credential r) refl
                  (admission_of_sound _ (rw call at f))
          ]
    ]

-- Where authentication is on, a request gets through RequireRole only under an identity of a role
-- that is high enough, and an identity rests on one of four grounds: in a header, a signed access
-- token of an account that is there with the role of the token, never that of the machine, and that
-- was not logged out; in a header, the static token of the configuration; where both headers are
-- missing, a ticket, on the paths of the live channels only, that is there and has not expired; where
-- the ticket is missing too, the static token in the query.
pub require_role_lem :
    (crypto : Crypto) (server : Server) (r : Request) (console : Bool) (s : AuthStore) (now : ℕ)
    (min : Role)
    → auth_enabled server.config ≡ true
    → require_role server min (auth_middleware crypto server r console s now).1 ≡ admitted
    → Served crypto server r s now min (auth_middleware crypto server r console s now).1
require_role_lem crypto server r console s now min on h =
    let (p, info, known, high) = require_role_sound server min _ on h in
    record {
      principal = p;
      info = info;
      known = known;
      grounds = auth_middleware_sound crypto server r console s now on known;
      high_enough = high;
    }
