-- ===== src/RateLimit/Window.antt =====
-- The stamps under a key: in ascending order, so that those in the window are at the end.
use Prim.Native.String.{count}
use text.Mathlib.TextLemmas.{length-append as str_length-append}
use godelayq.Prelude.{
  ℕ, ◌+◌, ltb, ◌≤◌, ◌≡◌, ◌≢◌, refl, ap, inl, inr, List, [], ◌∷◌, ◌++◌, false, String, arith,
  if◌then◌else◌, Bool-cases, ite, if_pos, if_neg, string_discrete,
}
use godelayq.Dict
use godelayq.Dict.{Dict}
use godelayq.RateLimit.{
  LoginLimiter, expired, skip_expired, stamps_of, store_recent, recent_locked, ip_key, pair_key,
  record_failure, reject, reset, allow,
}

-- Every number of the list is at least `low`.
abbrev pub AllFrom : ℕ → List ℕ → Type 0
AllFrom low [] = Unit {0}
AllFrom low (t ∷ ts) = (low ≤ t) × AllFrom low ts

abbrev pub Ascending : List ℕ → Type 0
Ascending [] = Unit {0}
Ascending (t ∷ ts) = AllFrom t ts × Ascending ts

-- No number of the list is above `high`.
abbrev pub AllUpTo : ℕ → List ℕ → Type 0
AllUpTo high [] = Unit {0}
AllUpTo high (t ∷ ts) = (t ≤ high) × AllUpTo high ts

-- The stamps in the window, by a test of each.
abbrev pub in_window : ℕ → ℕ → List ℕ → List ℕ
in_window window now [] = []
in_window window now (t ∷ ts) =
    if ltb (t + window) now then in_window window now ts else t ∷ in_window window now ts

AllFrom-le : (a b : ℕ) (ts : List ℕ) → a ≤ b → AllFrom b ts → AllFrom a ts
AllFrom-le a b [] p h = tt
AllFrom-le a b (t ∷ ts) p h = (omega (arith, h.0), AllFrom-le a b ts p h.1)

in_window_all :
    (window now low : ℕ) (ts : List ℕ)
    → expired window now low ≡ false
    → AllFrom low ts
    → in_window window now ts ≡ ts
in_window_all window now low [] p h = refl
in_window_all window now low (t ∷ ts) p h = ground (arith, in_window_all window now low ts p h.1)

-- On ascending stamps the loop keeps those in the window.
pub skip_expired-eq-in_window :
    (window now : ℕ) (ts : List ℕ)
    → Ascending ts
    → skip_expired window now ts ≡ in_window window now ts
unfolding skip_expired
skip_expired-eq-in_window window now [] h = refl
skip_expired-eq-in_window window now (t ∷ ts) h = elim (Bool-cases (expired window now t)) [
  | inl old ↦ rw old (skip_expired-eq-in_window window now ts h.1)
  | inr new ↦ rw (new, in_window_all window now t ts new h.0)
]

pub skip_expired-Ascending :
    (window now : ℕ) (ts : List ℕ) → Ascending ts → Ascending (skip_expired window now ts)
unfolding skip_expired
skip_expired-Ascending window now [] h = tt
skip_expired-Ascending window now (t ∷ ts) h = elim (Bool-cases (expired window now t)) [
  | inl old ↦ rw old (skip_expired-Ascending window now ts h.1)
  | inr new ↦ rw new h
]

pub skip_expired-AllUpTo :
    (window now high : ℕ) (ts : List ℕ)
    → AllUpTo high ts
    → AllUpTo high (skip_expired window now ts)
unfolding skip_expired
skip_expired-AllUpTo window now high [] h = tt
skip_expired-AllUpTo window now high (t ∷ ts) h = elim (Bool-cases (expired window now t)) [
  | inl old ↦ rw old (skip_expired-AllUpTo window now high ts h.1)
  | inr new ↦ rw new h
]

AllFrom-snoc :
    (low now : ℕ) (ts : List ℕ) → low ≤ now → AllFrom low ts → AllFrom low (ts ++ now ∷ [])
AllFrom-snoc low now [] p h = (p, tt)
AllFrom-snoc low now (t ∷ ts) p h = (h.0, AllFrom-snoc low now ts p h.1)

Ascending-snoc :
    (now : ℕ) (ts : List ℕ) → Ascending ts → AllUpTo now ts → Ascending (ts ++ now ∷ [])
Ascending-snoc now [] h u = (tt, tt)
Ascending-snoc now (t ∷ ts) h u = (AllFrom-snoc t now ts u.0 h.0, Ascending-snoc now ts h.1 u.1)

AllUpTo-le : (a b : ℕ) (ts : List ℕ) → a ≤ b → AllUpTo a ts → AllUpTo b ts
AllUpTo-le a b [] p h = tt
AllUpTo-le a b (t ∷ ts) p h = (omega (arith, h.0), AllUpTo-le a b ts p h.1)

AllUpTo-snoc : (now : ℕ) (ts : List ℕ) → AllUpTo now ts → AllUpTo now (ts ++ now ∷ [])
AllUpTo-snoc now [] u = (omega arith, tt)
AllUpTo-snoc now (t ∷ ts) u = (u.0, AllUpTo-snoc now ts u.1)

-- The two keys of one attempt differ.
pub pair_key-ne-ip_key : (ip username : String) → pair_key ip username ≢ ip_key ip
unfolding pair_key
pair_key-ne-ip_key ip username e = absurd (
    omega (arith, ap count e, str_length-append (ip_key ip) _, str_length-append "|user|" username))

-- The stamps under a key.
abbrev pub stamps : LoginLimiter → String → List ℕ
stamps l key = stamps_of (Dict.lookup key l.attempts)

-- Under every key the stamps ascend and none lies after `now`.
pub record Ordered (now : ℕ) (l : LoginLimiter) : Type 0 where
  pub ascending : (key : String) → Ascending (stamps l key)
  pub past : (key : String) → AllUpTo now (stamps l key)

stamps-store_recent :
    (key j : String) (kept : List ℕ) (m : Dict (List ℕ))
    → stamps_of (Dict.lookup j (store_recent key kept m))
      ≡ ite (string_discrete key j) kept (stamps_of (Dict.lookup j m))
stamps-store_recent key j [] m = ground (arith, Dict.lookup-delete key j m)
stamps-store_recent key j (t ∷ ts) m = ground (arith, Dict.lookup-insert key j (t ∷ ts) m)

-- The stamps after recentLocked and after a failure: under the key, and under any other.
pub stamps-recent_locked :
    (l : LoginLimiter) (key j : String) (now : ℕ)
    → stamps (recent_locked l key now).1 j
      ≡ ite (string_discrete key j) (skip_expired l.window now (stamps l key)) (stamps l j)
unfolding recent_locked
stamps-recent_locked l key j now = stamps-store_recent key j _ l.attempts

pub stamps-record_failure :
    (l : LoginLimiter) (key j : String) (now : ℕ)
    → stamps (record_failure l key now) j
      ≡ ite
          (string_discrete key j)
          (skip_expired l.window now (stamps l key) ++ now ∷ [])
          (stamps l j)
unfolding record_failure recent_locked
stamps-record_failure l key j now =
    let kept = skip_expired l.window now (stamps l key) in
    ground (
      arith,
      Dict.lookup-insert key j (kept ++ now ∷ []) (store_recent key kept l.attempts),
      stamps-store_recent key j kept l.attempts,
    )

Ordered-recent_locked :
    (l : LoginLimiter) (key : String) (now : ℕ)
    → Ordered now l
    → Ordered now (recent_locked l key now).1
Ordered-recent_locked l key now v = record {
  ascending = λ j. elim (string_discrete key j) [
    | yes e ↦
        rw (stamps-recent_locked l key j now, if_pos (string_discrete key j) e)
          (skip_expired-Ascending l.window now (stamps l key) (v.ascending key))
    | no n ↦ rw (stamps-recent_locked l key j now, if_neg (string_discrete key j) n) (v.ascending j)
  ];
  past = λ j. elim (string_discrete key j) [
    | yes e ↦
        rw (stamps-recent_locked l key j now, if_pos (string_discrete key j) e)
          (skip_expired-AllUpTo l.window now now (stamps l key) (v.past key))
    | no n ↦ rw (stamps-recent_locked l key j now, if_neg (string_discrete key j) n) (v.past j)
  ];
}

Ordered-record_failure :
    (l : LoginLimiter) (key : String) (now : ℕ)
    → Ordered now l
    → Ordered now (record_failure l key now)
Ordered-record_failure l key now v =
    let up = skip_expired-AllUpTo l.window now now (stamps l key) (v.past key) in
    record {
      ascending = λ j. elim (string_discrete key j) [
        | yes e ↦
            rw (stamps-record_failure l key j now, if_pos (string_discrete key j) e)
              (Ascending-snoc now _
                (skip_expired-Ascending l.window now (stamps l key) (v.ascending key)) up)
        | no n ↦
            rw (stamps-record_failure l key j now, if_neg (string_discrete key j) n) (v.ascending j)
      ];
      past = λ j. elim (string_discrete key j) [
        | yes e ↦
            rw (stamps-record_failure l key j now, if_pos (string_discrete key j) e)
              (AllUpTo-snoc now _ up)
        | no n ↦ rw (stamps-record_failure l key j now, if_neg (string_discrete key j) n) (v.past j)
      ];
    }

pub Ordered-le : (a b : ℕ) (l : LoginLimiter) → a ≤ b → Ordered a l → Ordered b l
Ordered-le a b l p v = record {
  ascending = v.ascending;
  past = λ key. AllUpTo-le a b (stamps l key) p (v.past key);
}

pub reject-Ordered :
    (l : LoginLimiter) (ip username : String) (now : ℕ)
    → Ordered now l
    → Ordered now (reject l ip username now)
unfolding reject
reject-Ordered l ip username now v =
    Ordered-record_failure _ (ip_key ip) now (Ordered-record_failure l (pair_key ip username) now v)

pub allow-Ordered :
    (l : LoginLimiter) (ip username : String) (now : ℕ)
    → Ordered now l
    → Ordered now (allow l ip username now).1
unfolding allow
allow-Ordered l ip username now v =
    Ordered-recent_locked _ (ip_key ip) now (Ordered-recent_locked l (pair_key ip username) now v)

pub reset-Ordered :
    (l : LoginLimiter) (ip username : String) (now : ℕ)
    → Ordered now l
    → Ordered now (reset l ip username)
unfolding reset
reset-Ordered l ip username now v = record {
  ascending = λ j. elim (Dict.delete_cases (pair_key ip username) j l.attempts) [
    | inl p ↦ rw p.1 tt
    | inr p ↦ rw p.1 (v.ascending j)
  ];
  past = λ j. elim (Dict.delete_cases (pair_key ip username) j l.attempts) [
    | inl p ↦ rw p.1 tt
    | inr p ↦ rw p.1 (v.past j)
  ];
}
