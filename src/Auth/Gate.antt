-- ===== src/Auth/Gate.antt =====
-- api/security.go: how a request shows who it comes from, and the check of its role. A request is
-- what this code reads of it; whether it asks for a file of the console is an argument.
pub mod Tokens
pub mod Admits
use godelayq.Prelude.{
  ℕ, List, [], ◌∷◌, Bool, true, false, ◌&&◌, ◌||◌, not, Option, none, some, String, ite,
  if◌then◌else◌, string_discrete,
}
use godelayq.Text.{codes, trim_text, cut_prefix, has_prefix}
use godelayq.Role.{Role, role_ops, role_machine, at_least}
use godelayq.Auth.{AuthStore, Principal, consume_ticket, is_empty_text}
use godelayq.Auth.Accounts.{
  AuthConfig, Authenticator, Crypto, TokenInfo, auth_enabled, verify_access_token,
}

-- A header or a key of the query that is missing is the empty text.
pub record Request : Type 0 where
  pub method : String
  pub path : String
  pub authorization : String
  pub x_auth_token : String
  pub ticket : String
  pub token : String

-- What the server keeps for the check: its configuration, and the accounts, if there are any.
pub record Server : Type 0 where
  pub config : AuthConfig
  pub accounts : Option Authenticator

pub data HeaderCredential : Type 0 where
  unseen malformed : HeaderCredential
  presented : String → HeaderCredential

pub data Admission : Type 0 where
  anyone refused : Admission
  identified : Principal → TokenInfo → Admission

pub data Verdict : Type 0 where
  admitted unauthorized forbidden : Verdict

abbrev pub no_info : TokenInfo
no_info = record { id = ""; expires_at = 0 }

abbrev pub machine_principal : Principal
machine_principal = record { name = "machine"; role = role_machine }

abbrev pub anonymous_principal : Principal
anonymous_principal = record { name = "anonymous"; role = role_ops }

abbrev pub same_text : String → String → Bool
same_text s t = ite (string_discrete s t) true false

-- The token behind "Bearer ".
abbrev pub bearer : Option String → HeaderCredential
bearer none = malformed
bearer (some rest) =
    if is_empty_text (trim_text rest) then malformed else presented (trim_text rest)

unfoldable pub header_credential : Request → HeaderCredential
header_credential r =
    if not (is_empty_text r.authorization)
    then bearer (cut_prefix r.authorization "Bearer ")
    else if not (is_empty_text r.x_auth_token)
    then presented r.x_auth_token
    else unseen

abbrev pub ticket_path_prefixes : List String
ticket_path_prefixes = "/ws" ∷ "/sse/" ∷ []

-- The loop of ticketAllowedPath.
unfoldable pub starts_with_one : List String → String → Bool
starts_with_one [] path = false
starts_with_one (prefix ∷ rest) path =
    same_text path prefix || has_prefix (codes path) (codes prefix) || starts_with_one rest path

abbrev pub ticket_allowed_path : String → Bool
ticket_allowed_path path = starts_with_one ticket_path_prefixes path

unfoldable pub verify_machine_token : String → String → Option Principal
verify_machine_token shown want =
    if is_empty_text want || not (same_text shown want) then none else some machine_principal

abbrev pub without_info : Option Principal → Option (Principal × TokenInfo)
without_info none = none
without_info (some p) = some (p, no_info)

abbrev pub public_endpoint : Request → Bool
public_endpoint r =
    same_text r.method "POST"
    && (same_text r.path "/api/v1/auth/login" || same_text r.path "/api/v1/auth/refresh")

abbrev pub admission_of : Option (Principal × TokenInfo) → Admission
admission_of none = refused
admission_of (some (p, info)) = identified p info

module _ (crypto : Crypto) (server : Server) where
  unfoldable pub verify_presented :
      String → AuthStore → ℕ → AuthStore × Option (Principal × TokenInfo)
  verify_presented shown s now = elim server.accounts [
    | none ↦ (s, without_info (verify_machine_token shown server.config.token))
    | some a ↦
        let (s1, found) = verify_access_token crypto a shown s now in
        elim found [
          | some found ↦ (s1, some found)
          | none ↦ (s1, without_info (verify_machine_token shown server.config.token))
        ]
  ]

  unfoldable pub query_credential :
      Request → AuthStore → ℕ → AuthStore × Option (Principal × TokenInfo)
  query_credential r s now =
      if not (is_empty_text r.ticket)
      then if not (ticket_allowed_path r.path)
        then (s, none)
        else (let (s1, p) = consume_ticket s r.ticket now in (s1, without_info p))
      else if not (is_empty_text r.token)
      then (s, without_info (verify_machine_token r.token server.config.token))
      else (s, none)

  unfoldable pub authenticate_request :
      Request → AuthStore → ℕ → AuthStore × Option (Principal × TokenInfo)
  authenticate_request r s now = elim (header_credential r) [
    | malformed ↦ (s, none)
    | presented shown ↦ verify_presented shown s now
    | unseen ↦ query_credential r s now
  ]

  unfoldable pub auth_middleware : Request → Bool → AuthStore → ℕ → AuthStore × Admission
  auth_middleware r console s now =
      if not (auth_enabled server.config)
      then (s, identified anonymous_principal no_info)
      else if public_endpoint r
      then (s, anyone)
      else if console
      then (s, anyone)
      else (let (s1, found) = authenticate_request r s now in (s1, admission_of found))

-- RequireRole, with `require`, behind the middleware, whose refusal has the same answer.
module _ (server : Server) where
  unfoldable pub require_role : Role → Admission → Verdict
  require_role min admission =
      if not (auth_enabled server.config) then admitted else elim admission [
        | refused ↦ unauthorized
        | anyone ↦ unauthorized
        | identified p info ↦ if not (at_least p.role min) then forbidden else admitted
      ]

  unfoldable pub allow_role : Role → Admission → Bool
  allow_role min admission = if not (auth_enabled server.config) then true else elim admission [
    | refused ↦ false
    | anyone ↦ false
    | identified p info ↦ at_least p.role min
  ]
