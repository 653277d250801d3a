-- ===== src/Auth/Spent.antt =====
-- A refresh token and a ticket are good for one use.
use godelayq.Prelude.{
  ℕ, ◌≡◌, ◌≢◌, refl, ap, ◌∙◌, inl, inr, [], ◌∷◌, false, ◌&&◌, not, Option, none, some, String, ltb,
  ◌==◌, ◌+◌, if_pos, if_neg, string_discrete, Bool-cases, Option-cases,
}
use godelayq.Dict
use godelayq.Dict.{Dict}
use godelayq.Auth.{
  AuthStore, Principal, is_empty_text, drop_expired, sweep_locked, put_refresh, take_subject,
  drop_refresh, revoke, is_revoked, issue_ticket, consume_ticket, sweep_interval,
}
use godelayq.Auth.Steps.{
  AuthStep, registered, taken, dropped, revoked, asked, issued, consumed, AuthSteps, no_call,
  then_call,
}

-- Nothing is kept under the token.
pub record Spent (t : String) (s : AuthStore) : Type 0 where
  pub no_refresh : Dict.lookup t s.refresh ≡ none
  pub no_ticket : Dict.lookup t s.tickets ≡ none

lookup-drop_expired {ℓ} :
    {V : Type ℓ} (exp : V → ℕ) (now : ℕ) (k : String) (m : Dict V)
    → Dict.lookup k m ≡ none
    → Dict.lookup k (drop_expired exp now m) ≡ none
unfolding drop_expired Dict.lookup
lookup-drop_expired exp now k [] e = refl
lookup-drop_expired exp now k ((j, v) ∷ m) e = elim (string_discrete j k) [
  | yes same ↦ let f = rw (if_pos (string_discrete j k) same) at e in absurd (cc)
  | no other ↦
      let f = rw (if_neg (string_discrete j k) other) at e in
      let ih = lookup-drop_expired exp now k m f in
      elim (Bool-cases (ltb (exp v) now)) [
        | inl old ↦ rw old ih
        | inr new ↦ rw (new) (if_neg (string_discrete j k) other _ _ ∙ ih)
      ]
]

lookup-delete-none {ℓ} :
    {V : Type ℓ} (k j : String) (m : Dict V)
    → Dict.lookup j m ≡ none
    → Dict.lookup j (Dict.delete k m) ≡ none
lookup-delete-none k j m e = elim (Dict.delete_cases k j m) [ inl p ↦ p.1 | inr p ↦ p.1 ∙ e ]

lookup-insert-none {ℓ} :
    {V : Type ℓ} (k j : String) (v : V) (m : Dict V)
    → k ≢ j
    → Dict.lookup j m ≡ none
    → Dict.lookup j (Dict.insert k v m) ≡ none
lookup-insert-none k j v m ne e = elim (Dict.insert_cases k j v m) [
  | inl p ↦ absurd (ne p.0)
  | inr p ↦ p.1 ∙ e
]

sweep_tickets :
    (t : String) (s : AuthStore) (now : ℕ)
    → Dict.lookup t s.tickets ≡ none
    → Dict.lookup t (sweep_locked s now).tickets ≡ none
unfolding sweep_locked
sweep_tickets t s now e =
    elim (Bool-cases (not (s.last_sweep == 0) && ltb now (s.last_sweep + sweep_interval))) [
      | inl soon ↦ rw soon e
      | inr late ↦ rw late (lookup-drop_expired _ now t s.tickets e)
    ]

sweep_locked-Spent :
    (t : String) (s : AuthStore) (now : ℕ) → Spent t s → Spent t (sweep_locked s now)
unfolding sweep_locked
sweep_locked-Spent t s now p =
    elim (Bool-cases (not (s.last_sweep == 0) && ltb now (s.last_sweep + sweep_interval))) [
      | inl soon ↦ rw soon p
      | inr late ↦ rw late (record {
        no_refresh = lookup-drop_expired _ now t s.refresh p.no_refresh;
        no_ticket = lookup-drop_expired _ now t s.tickets p.no_ticket;
      })
    ]

put_refresh-Spent :
    (t : String) (s : AuthStore) (p : Principal) (ttl : ℕ) (token : Option String) (now : ℕ)
    → token ≢ some t
    → Spent t s
    → Spent t (put_refresh s p ttl token now).0
unfolding put_refresh
put_refresh-Spent t s p ttl none now ne v = v
put_refresh-Spent t s p ttl (some token) now ne v =
    let w = sweep_locked-Spent t s now v in
    record {
      no_refresh = lookup-insert-none token t _ _ (λ e. ne (ap some e)) w.no_refresh;
      no_ticket = w.no_ticket;
    }

issue_ticket-Spent :
    (t : String) (s : AuthStore) (p : Principal) (token : Option String) (now : ℕ)
    → token ≢ some t
    → Spent t s
    → Spent t (issue_ticket s p token now).0
unfolding issue_ticket
issue_ticket-Spent t s p none now ne v = v
issue_ticket-Spent t s p (some token) now ne v =
    let w = sweep_locked-Spent t s now v in
    record {
      no_refresh = w.no_refresh;
      no_ticket = lookup-insert-none token t _ _ (λ e. ne (ap some e)) w.no_ticket;
    }

take_subject-Spent :
    (t : String) (s : AuthStore) (token : String) (now : ℕ)
    → Spent t s
    → Spent t (take_subject s token now).0
unfolding take_subject
take_subject-Spent t s token now v =
    let w = sweep_locked-Spent t s now v in
    elim (Bool-cases (is_empty_text token)) [
      | inl empty ↦ rw empty v
      | inr named ↦ rw named (elim (Option-cases (Dict.lookup token (sweep_locked s now).refresh)) [
        | inl gone ↦ rw (gone, take_subject) w
        | inr (r, found) ↦
            rw (found, take_subject)
              (record {
                no_refresh = lookup-delete-none token t _ w.no_refresh;
                no_ticket = w.no_ticket;
              })
      ])
    ]

consume_ticket-Spent :
    (t : String) (s : AuthStore) (token : String) (now : ℕ)
    → Spent t s
    → Spent t (consume_ticket s token now).0
unfolding consume_ticket
consume_ticket-Spent t s token now v = elim (Bool-cases (is_empty_text token)) [
  | inl empty ↦ rw empty v
  | inr named ↦ rw named (elim (Option-cases (Dict.lookup token s.tickets)) [
    | inl gone ↦ rw (gone, consume_ticket) v
    | inr (r, found) ↦
        rw (found, consume_ticket)
          (record {
            no_refresh = v.no_refresh;
            no_ticket = lookup-delete-none token t _ v.no_ticket;
          })
  ])
]

AuthStep-Spent : (t : String) (s s' : AuthStore) → AuthStep t s s' → Spent t s → Spent t s'
unfolding drop_refresh revoke is_revoked
AuthStep-Spent t s _ (registered p ttl token now ne) v = put_refresh-Spent t s p ttl token now ne v
AuthStep-Spent t s _ (taken token now) v = take_subject-Spent t s token now v
AuthStep-Spent t s _ (dropped token) v = record {
  no_refresh = lookup-delete-none token t s.refresh v.no_refresh;
  no_ticket = v.no_ticket;
}
AuthStep-Spent t s _ (revoked jti expires_at now) v = elim (Bool-cases (is_empty_text jti)) [
  | inl empty ↦ rw empty v
  | inr named ↦ rw named (elim (Bool-cases (not (ltb now expires_at))) [
    | inl late ↦ rw late v
    | inr early ↦ rw early (record { no_refresh = v.no_refresh; no_ticket = v.no_ticket })
  ])
]
AuthStep-Spent t s _ (asked jti now) v = elim (Option-cases (Dict.lookup jti s.revoked)) [
  | inl gone ↦ rw (gone, is_revoked) v
  | inr (exp, found) ↦
      rw (found, is_revoked)
        (elim (Bool-cases (ltb exp now)) [
          | inl old ↦ rw old (record { no_refresh = v.no_refresh; no_ticket = v.no_ticket })
          | inr live ↦ rw live v
        ])
]
AuthStep-Spent t s _ (issued p token now ne) v = issue_ticket-Spent t s p token now ne v
AuthStep-Spent t s _ (consumed token now) v = consume_ticket-Spent t s token now v

AuthSteps-Spent : (t : String) (s s' : AuthStore) → AuthSteps t s s' → Spent t s → Spent t s'
AuthSteps-Spent t s _ no_call v = v
AuthSteps-Spent t s s' (then_call s1 _ before step) v =
    AuthStep-Spent t s1 s' step (AuthSteps-Spent t s s1 before v)

-- No use of a token that is spent succeeds.
refused :
    (t : String) (s : AuthStore) (now : ℕ)
    → Spent t s
    → ((take_subject s t now).1 ≡ "") × ((consume_ticket s t now).1 ≡ none)
unfolding take_subject consume_ticket
refused t s now v =
    let w = sweep_locked-Spent t s now v in
    elim (Bool-cases (is_empty_text t)) [
      | inl empty ↦ rw empty (refl, refl)
      | inr named ↦ rw (named, w.no_refresh, take_subject, v.no_ticket, consume_ticket) (refl, refl)
    ]

-- The uses of a token: a refresh, a logout, and a handshake with a ticket.
pub data Used (t : String) (s : AuthStore) : AuthStore → Type 0 where
  refreshed : (now : ℕ) → Dict.lookup t s.tickets ≡ none → Used t s (take_subject s t now).0
  logged_out : Dict.lookup t s.tickets ≡ none → Used t s (drop_refresh s t)
  shown : (now : ℕ) → Dict.lookup t s.refresh ≡ none → Used t s (consume_ticket s t now).0

take_subject-gone :
    (t : String) (s : AuthStore) (now : ℕ)
    → is_empty_text t ≡ false
    → Dict.lookup t s.tickets ≡ none
    → Spent t (take_subject s t now).0
unfolding take_subject
take_subject-gone t s now named none_there =
    let w = sweep_tickets t s now none_there in
    rw named (elim (Option-cases (Dict.lookup t (sweep_locked s now).refresh)) [
      | inl gone ↦ rw (gone, take_subject) (record { no_refresh = gone; no_ticket = w })
      | inr (r, found) ↦
          rw (found, take_subject)
            (record {
              no_refresh = Dict.lookup-delete_self t (sweep_locked s now).refresh;
              no_ticket = w;
            })
    ])

consume_ticket-gone :
    (t : String) (s : AuthStore) (now : ℕ)
    → is_empty_text t ≡ false
    → Dict.lookup t s.refresh ≡ none
    → Spent t (consume_ticket s t now).0
unfolding consume_ticket
consume_ticket-gone t s now named none_there =
    rw named (elim (Option-cases (Dict.lookup t s.tickets)) [
      | inl gone ↦ rw (gone, consume_ticket) (record { no_refresh = none_there; no_ticket = gone })
      | inr (r, found) ↦
          rw (found, consume_ticket)
            (record { no_refresh = none_there; no_ticket = Dict.lookup-delete_self t s.tickets })
    ])

Used-Spent : (t : String) (s s' : AuthStore) → is_empty_text t ≡ false → Used t s s' → Spent t s'
unfolding drop_refresh
Used-Spent t s _ named (refreshed now none_there) = take_subject-gone t s now named none_there
Used-Spent t s _ named (logged_out none_there) = record {
  no_refresh = Dict.lookup-delete_self t s.refresh;
  no_ticket = none_there;
}
Used-Spent t s _ named (shown now none_there) = consume_ticket-gone t s now named none_there

-- A refresh token that was taken or dropped, and a ticket that was consumed, whether or not that
-- succeeded, is refused ever after, whatever calls come in between, as long as randomTokenID does not
-- give it again. The token is not empty, and it is not both a refresh token and a ticket.
pub one_use :
    (t : String) (s s1 s2 : AuthStore) (later : ℕ)
    → is_empty_text t ≡ false
    → Used t s s1
    → AuthSteps t s1 s2
    → ((take_subject s2 t later).1 ≡ "") × ((consume_ticket s2 t later).1 ≡ none)
one_use t s s1 s2 later named used calls =
    refused t s2 later (AuthSteps-Spent t s1 s2 calls (Used-Spent t s s1 named used))
