-- ===== src/Auth/Revoked/Kept.antt =====
-- The calls that leave a token in the table of those that were logged out.
use mathlib.Core.Option.{some_inj}
use godelayq.Prelude.{
  ℕ, ◌≡◌, ◌<◌, ◌≤◌, ◌+◌, sym, ◌∙◌, inl, inr, subst, false, ◌&&◌, not, Option, none, some, String,
  arith, ltb, leb, ◌==◌, Bool-cases, Option-cases, length,
}
use godelayq.Dict
use godelayq.Dict.{Dict}
use godelayq.Auth.{
  AuthStore, Principal, max_revoked_entries, sweep_locked, put_refresh, take_subject, drop_refresh,
  revoke, is_revoked, issue_ticket, consume_ticket, is_empty_text, sweep_interval,
}
use godelayq.Auth.Sessions.{lookup-drop_expired-some}

-- A call at a time up to the deadline. Another token is logged out only while the table has room, and
-- the token `jti` itself with no earlier expiry.
pub data QuietStep (jti : String) (deadline : ℕ) (s : AuthStore) : AuthStore → Type 0 where
  registered :
      (p : Principal) (ttl : ℕ) (token : Option String) (now : ℕ)
      → now ≤ deadline
      → QuietStep jti deadline s (put_refresh s p ttl token now).0
  taken :
      (token : String) (now : ℕ)
      → now ≤ deadline
      → QuietStep jti deadline s (take_subject s token now).0
  dropped : (token : String) → QuietStep jti deadline s (drop_refresh s token)
  revoked :
      (other : String) (expires_at now : ℕ)
      → length s.revoked < max_revoked_entries
      → (other ≡ jti → deadline ≤ expires_at)
      → QuietStep jti deadline s (revoke s other expires_at now)
  asked :
      (other : String) (now : ℕ)
      → now ≤ deadline
      → QuietStep jti deadline s (is_revoked s other now).0
  issued :
      (p : Principal) (token : Option String) (now : ℕ)
      → now ≤ deadline
      → QuietStep jti deadline s (issue_ticket s p token now).0
  consumed : (token : String) (now : ℕ) → QuietStep jti deadline s (consume_ticket s token now).0

pub data QuietSteps (jti : String) (deadline : ℕ) (s : AuthStore) : AuthStore → Type 0 where
  no_call : QuietSteps jti deadline s s
  then_call :
      (s1 s2 : AuthStore)
      → QuietSteps jti deadline s s1
      → QuietStep jti deadline s1 s2
      → QuietSteps jti deadline s s2

-- The token is kept in the table until the deadline.
pub record Kept (jti : String) (deadline : ℕ) (s : AuthStore) : Type 0 where
  pub exp : ℕ
  pub there : Dict.lookup jti s.revoked ≡ some exp
  pub late : deadline ≤ exp

pub sweep_locked-Kept :
    (jti : String) (deadline : ℕ) (s : AuthStore) (now : ℕ)
    → now ≤ deadline
    → Kept jti deadline s
    → Kept jti deadline (sweep_locked s now)
unfolding sweep_locked
sweep_locked-Kept jti deadline s now early k =
    elim (Bool-cases (not (s.last_sweep == 0) && ltb now (s.last_sweep + sweep_interval))) [
      | inl soon ↦ rw soon k
      | inr late ↦ rw late (record {
        exp = k.exp;
        there =
            lookup-drop_expired-some (λ exp. exp) now jti k.exp s.revoked k.there
              (let l = k.late in ground arith);
        late = k.late;
      })
    ]

take_subject-Kept :
    (jti : String) (deadline : ℕ) (s : AuthStore) (token : String) (now : ℕ)
    → now ≤ deadline
    → Kept jti deadline s
    → Kept jti deadline (take_subject s token now).0
unfolding take_subject
take_subject-Kept jti deadline s token now early k =
    let swept = sweep_locked-Kept jti deadline s now early k in
    elim (Bool-cases (is_empty_text token)) [
      | inl empty ↦ rw empty k
      | inr named ↦ rw named (elim (Option-cases (Dict.lookup token (sweep_locked s now).refresh)) [
        | inl gone ↦ rw (gone, take_subject) swept
        | inr (r, found) ↦
            rw (found, take_subject)
              (record { exp = swept.exp; there = swept.there; late = swept.late })
      ])
    ]

consume_ticket-Kept :
    (jti : String) (deadline : ℕ) (s : AuthStore) (token : String) (now : ℕ)
    → Kept jti deadline s
    → Kept jti deadline (consume_ticket s token now).0
unfolding consume_ticket
consume_ticket-Kept jti deadline s token now k = elim (Bool-cases (is_empty_text token)) [
  | inl empty ↦ rw empty k
  | inr named ↦ rw named (elim (Option-cases (Dict.lookup token s.tickets)) [
    | inl gone ↦ rw (gone, consume_ticket) k
    | inr (r, found) ↦
        rw (found, consume_ticket) (record { exp = k.exp; there = k.there; late = k.late })
  ])
]

is_revoked-Kept :
    (jti : String) (deadline : ℕ) (s : AuthStore) (other : String) (now : ℕ)
    → now ≤ deadline
    → Kept jti deadline s
    → Kept jti deadline (is_revoked s other now).0
unfolding is_revoked
is_revoked-Kept jti deadline s other now early k =
    elim (Option-cases (Dict.lookup other s.revoked)) [
      | inl gone ↦ rw (gone, is_revoked) k
      | inr (exp, found) ↦
          rw (found, is_revoked)
            (elim (Bool-cases (ltb exp now)) [
              | inl old ↦ rw old (elim (Dict.delete_cases other jti s.revoked) [
                | inl p ↦
                    let same : exp ≡ k.exp = some_inj.0 (
                      sym found
                      ∙ subst (λ x. Dict.lookup x s.revoked ≡ some k.exp) (sym p.0) k.there) in
                    let l = k.late in absurd (ground arith)
                | inr p ↦ record { exp = k.exp; there = p.1 ∙ k.there; late = k.late }
              ])
              | inr live ↦ rw live k
            ])
    ]

revoke-Kept :
    (jti : String) (deadline : ℕ) (s : AuthStore) (other : String) (expires_at now : ℕ)
    → length s.revoked < max_revoked_entries
    → (other ≡ jti → deadline ≤ expires_at)
    → Kept jti deadline s
    → Kept jti deadline (revoke s other expires_at now)
unfolding revoke
revoke-Kept jti deadline s other expires_at now room later k =
    elim (Bool-cases (is_empty_text other)) [
      | inl empty ↦ rw empty k
      | inr named ↦ rw named (elim (Bool-cases (not (ltb now expires_at))) [
        | inl old ↦ rw old k
        | inr early ↦
            let fits : leb max_revoked_entries (length s.revoked) ≡ false = ground arith in
            rw (early, fits)
              (elim (Dict.insert_cases other jti expires_at s.revoked) [
                | inl p ↦ record { exp = expires_at; there = p.1; late = later p.0 }
                | inr p ↦ record { exp = k.exp; there = p.1 ∙ k.there; late = k.late }
              ])
      ])
    ]

QuietStep-Kept :
    (jti : String) (deadline : ℕ) (s s' : AuthStore)
    → QuietStep jti deadline s s'
    → Kept jti deadline s
    → Kept jti deadline s'
unfolding put_refresh drop_refresh issue_ticket
QuietStep-Kept jti deadline s _ (registered p ttl none now early) k = k
QuietStep-Kept jti deadline s _ (registered p ttl (some token) now early) k =
    let w = sweep_locked-Kept jti deadline s now early k in
    record { exp = w.exp; there = w.there; late = w.late }
QuietStep-Kept jti deadline s _ (taken token now early) k =
    take_subject-Kept jti deadline s token now early k
QuietStep-Kept jti deadline s _ (dropped token) k = record {
  exp = k.exp;
  there = k.there;
  late = k.late;
}
QuietStep-Kept jti deadline s _ (revoked other expires_at now room later) k =
    revoke-Kept jti deadline s other expires_at now room later k
QuietStep-Kept jti deadline s _ (asked other now early) k =
    is_revoked-Kept jti deadline s other now early k
QuietStep-Kept jti deadline s _ (issued p none now early) k = k
QuietStep-Kept jti deadline s _ (issued p (some token) now early) k =
    let w = sweep_locked-Kept jti deadline s now early k in
    record { exp = w.exp; there = w.there; late = w.late }
QuietStep-Kept jti deadline s _ (consumed token now) k =
    consume_ticket-Kept jti deadline s token now k

pub QuietSteps-Kept :
    (jti : String) (deadline : ℕ) (s s' : AuthStore)
    → QuietSteps jti deadline s s'
    → Kept jti deadline s
    → Kept jti deadline s'
QuietSteps-Kept jti deadline s _ no_call k = k
QuietSteps-Kept jti deadline s s' (then_call s1 _ before step) k =
    QuietStep-Kept jti deadline s1 s' step (QuietSteps-Kept jti deadline s s1 before k)
