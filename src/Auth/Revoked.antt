-- ===== src/Auth/Revoked.antt =====
-- The access tokens that were logged out: how many are kept, and for how long.
pub mod Kept
pub mod Logout
use godelayq.Prelude.{
  ℕ, suc, ◌≡◌, ◌≢◌, ◌⊎◌, ◌<◌, ◌≤◌, ◌+◌, ◌/◌, refl, sym, ap, ◌∙◌, inl, inr, subst, Bool, true, false,
  ◌&&◌, not, Option, none, some, String, List, [], ◌∷◌, arith, ltb, leb, ◌==◌, Bool-cases,
  Option-cases, string_discrete, if_pos, if_neg, ite, length, take, ltb→lt, if◌then◌else◌,
}
use godelayq.Dict
use godelayq.Dict.{Dict}
use godelayq.Auth.{
  AuthStore, Principal, max_revoked_entries, drop_expired, sweep_locked, put_refresh, take_subject,
  drop_refresh, insert_oldest, sort_oldest, delete_each, drop_oldest_revoked_locked, revoke,
  is_revoked, issue_ticket, consume_ticket, is_empty_text, sweep_interval,
}
use godelayq.Auth.Steps.{AuthStep, registered, taken, dropped, revoked, asked, issued, consumed}

abbrev pub Bounded : AuthStore → Type 0
Bounded s = length s.revoked ≤ max_revoked_entries

length-drop_expired {ℓ} :
    {V : Type ℓ} (exp : V → ℕ) (now : ℕ) (m : Dict V) → length (drop_expired exp now m) ≤ length m
unfolding drop_expired
length-drop_expired exp now [] = omega arith
length-drop_expired exp now ((k, v) ∷ m) = ground (arith, length-drop_expired exp now m)

length-insert {ℓ} :
    {V : Type ℓ} (k : String) (v : V) (m : Dict V) → length (Dict.insert k v m) ≤ suc (length m)
unfolding Dict.insert
length-insert k v [] = omega arith
length-insert k v ((j, w) ∷ m) = ground (arith, length-insert k v m)

length-delete {ℓ} : {V : Type ℓ} (k : String) (m : Dict V) → length (Dict.delete k m) ≤ length m
unfolding Dict.delete
length-delete k [] = omega arith
length-delete k ((j, w) ∷ m) = ground (arith, length-delete k m)

-- An entry that is there is taken out.
length-delete-there {ℓ} :
    {V : Type ℓ} (k : String) (m : Dict V)
    → Dict.lookup k m ≢ none
    → length (Dict.delete k m) < length m
unfolding Dict.delete Dict.lookup
length-delete-there k [] there = absurd (there refl)
length-delete-there k ((j, w) ∷ m) there = elim (string_discrete j k) [
  | yes same ↦ rw (if_pos (string_discrete j k) same) (let l = length-delete k m in omega arith)
  | no other ↦
      let rest = rw (if_neg (string_discrete j k) other) at there in
      rw (if_neg (string_discrete j k) other) (let l = length-delete-there k m rest in omega arith)
]

length-delete_each : (l : List (String × ℕ)) (m : Dict ℕ) → length (delete_each l m) ≤ length m
unfolding delete_each
length-delete_each [] m = omega arith
length-delete_each (e ∷ l) m =
    let a = length-delete_each l (Dict.delete e.0 m) in let b = length-delete e.0 m in omega arith

-- The first of the sorted entries is one of the entries.
insert_oldest_head :
    (e : String × ℕ) (l : List (String × ℕ))
    → (d : String × ℕ) × (l' : List (String × ℕ)) × (insert_oldest e l ≡ d ∷ l')
      × ((d ≡ e) ⊎ ((r : List (String × ℕ)) × (l ≡ d ∷ r)))
unfolding insert_oldest
insert_oldest_head e [] = (e, [], refl, inl refl)
insert_oldest_head e (d ∷ l) = elim (Bool-cases (ltb d.1 e.1)) [
  | inl before ↦ (d, insert_oldest e l, rw before refl, inr (l, refl))
  | inr after ↦ (e, d ∷ l, rw after refl, inl refl)
]

head_there :
    (d : String × ℕ) (m : Dict ℕ) (e : String × ℕ)
    → (d ≡ e) ⊎ (Dict.lookup d.0 m ≢ none)
    → Dict.lookup d.0 (e ∷ m) ≢ none
unfolding Dict.lookup
head_there d m e (inl same) n =
    let e = rw (if_pos (string_discrete e.0 d.0) (sym (ap (λ (x : String × ℕ). x.0) same))) at n in
    absurd (cc)
head_there d m e (inr there) n = elim (string_discrete e.0 d.0) [
  | yes same ↦ let f = rw (if_pos (string_discrete e.0 d.0) same) at n in absurd (cc)
  | no other ↦ there (rw (if_neg (string_discrete e.0 d.0) other) at n)
]

pub sort_oldest_head :
    (e : String × ℕ) (m : Dict ℕ)
    → (d : String × ℕ) × (l : List (String × ℕ)) × (sort_oldest (e ∷ m) ≡ d ∷ l)
      × (Dict.lookup d.0 (e ∷ m) ≢ none)
unfolding sort_oldest insert_oldest
sort_oldest_head e [] = (e, [], refl, head_there e [] e (inl refl))
sort_oldest_head e (e2 ∷ m) =
    let (first, rest, sorted, there) = sort_oldest_head e2 m in
    let (d, l, made, from) = insert_oldest_head e (sort_oldest (e2 ∷ m)) in
    (
      d,
      l,
      made,
      head_there d (e2 ∷ m) e (elim from [
        | inl same ↦ inl same
        | inr (r, old) ↦
            let same : first ≡ d = cc in
            inr (subst (λ (x : String × ℕ). Dict.lookup x.0 (e2 ∷ m) ≢ none) same there)
      ]),
    )

-- Dropping the oldest makes room for one more.
length-drop_oldest : (m : Dict ℕ) → 0 < length m → length (drop_oldest_revoked_locked m) < length m
unfolding drop_oldest_revoked_locked delete_each
length-drop_oldest [] h = absurd (omega arith)
length-drop_oldest (e ∷ m) h =
    let (d, l, sorted, there) = sort_oldest_head e m in
    let one : (length (e ∷ m) / 8 + 1) ≡ suc (length (e ∷ m) / 8) = omega arith in
    let room = length-delete-there d.0 (e ∷ m) there in
    let more = length-delete_each (take (length (e ∷ m) / 8) l) (Dict.delete d.0 (e ∷ m)) in
    rw (one, sorted) (omega arith)

sweep_locked-Bounded : (s : AuthStore) (now : ℕ) → Bounded s → Bounded (sweep_locked s now)
unfolding sweep_locked
sweep_locked-Bounded s now b =
    elim (Bool-cases (not (s.last_sweep == 0) && ltb now (s.last_sweep + sweep_interval))) [
      | inl soon ↦ rw soon b
      | inr late ↦ rw late (let l = length-drop_expired (λ exp. exp) now s.revoked in omega arith)
    ]

revoke-Bounded :
    (s : AuthStore) (jti : String) (expires_at now : ℕ)
    → Bounded s
    → Bounded (revoke s jti expires_at now)
unfolding revoke
revoke-Bounded s jti expires_at now b = elim (Bool-cases (is_empty_text jti)) [
  | inl empty ↦ rw empty b
  | inr named ↦ rw named (elim (Bool-cases (not (ltb now expires_at))) [
    | inl late ↦ rw late b
    | inr early ↦ rw early (elim (Bool-cases (leb max_revoked_entries (length s.revoked))) [
      | inl full ↦ rw full (
          let l = length-insert jti expires_at (drop_oldest_revoked_locked s.revoked) in
          let r = length-drop_oldest s.revoked (ground arith) in omega arith)
      | inr room ↦ rw room (let l = length-insert jti expires_at s.revoked in ground arith)
    ])
  ])
]

take_subject-Bounded :
    (s : AuthStore) (token : String) (now : ℕ) → Bounded s → Bounded (take_subject s token now).0
unfolding take_subject
take_subject-Bounded s token now b = elim (Bool-cases (is_empty_text token)) [
  | inl empty ↦ rw empty b
  | inr named ↦ rw named (elim (Option-cases (Dict.lookup token (sweep_locked s now).refresh)) [
    | inl gone ↦ rw (gone, take_subject) (sweep_locked-Bounded s now b)
    | inr (r, found) ↦ rw (found, take_subject) (sweep_locked-Bounded s now b)
  ])
]

is_revoked-Bounded :
    (s : AuthStore) (jti : String) (now : ℕ) → Bounded s → Bounded (is_revoked s jti now).0
unfolding is_revoked
is_revoked-Bounded s jti now b = elim (Option-cases (Dict.lookup jti s.revoked)) [
  | inl gone ↦ rw (gone, is_revoked) b
  | inr (exp, found) ↦
      rw (found, is_revoked)
        (elim (Bool-cases (ltb exp now)) [
          | inl old ↦ rw old (let l = length-delete jti s.revoked in omega arith)
          | inr live ↦ rw live b
        ])
]

consume_ticket-Bounded :
    (s : AuthStore) (token : String) (now : ℕ) → Bounded s → Bounded (consume_ticket s token now).0
unfolding consume_ticket
consume_ticket-Bounded s token now b = elim (Bool-cases (is_empty_text token)) [
  | inl empty ↦ rw empty b
  | inr named ↦ rw named (elim (Option-cases (Dict.lookup token s.tickets)) [
    | inl gone ↦ rw (gone, consume_ticket) b
    | inr (r, found) ↦ rw (found, consume_ticket) b
  ])
]

-- No call makes the table of the tokens that were logged out longer than 4096 entries.
pub AuthStep-Bounded : (t : String) (s s' : AuthStore) → Bounded s → AuthStep t s s' → Bounded s'
unfolding put_refresh drop_refresh issue_ticket
AuthStep-Bounded t s _ b (registered p ttl none now ne) = b
AuthStep-Bounded t s _ b (registered p ttl (some token) now ne) = sweep_locked-Bounded s now b
AuthStep-Bounded t s _ b (taken token now) = take_subject-Bounded s token now b
AuthStep-Bounded t s _ b (dropped token) = b
AuthStep-Bounded t s _ b (revoked jti expires_at now) = revoke-Bounded s jti expires_at now b
AuthStep-Bounded t s _ b (asked jti now) = is_revoked-Bounded s jti now b
AuthStep-Bounded t s _ b (issued p none now ne) = b
AuthStep-Bounded t s _ b (issued p (some token) now ne) = sweep_locked-Bounded s now b
AuthStep-Bounded t s _ b (consumed token now) = consume_ticket-Bounded s token now b
