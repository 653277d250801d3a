-- ===== src/RateLimit/Verdict.antt =====
-- What Allow answers: by the stamps in the window, and after failures in a row.
use godelayq.Prelude.{
  Bool, subst, leb, ◌-◌, ◌&&◌, ◌||◌, if◌then◌else◌, ℕ, ◌+◌, ◌≤◌, ◌<◌, ◌≡◌, ◌≢◌, refl, sym, ap, ◌∙◌,
  List, [], ◌∷◌, ◌++◌, false, not, String, arith, ltb, length, length-append, if_pos, if_neg,
  string_discrete,
}
use mathlib.Core.List.{append_assoc, append-nil}
use godelayq.RateLimit.{
  LoginLimiter, skip_expired, recent_locked, wait_for, max_of, ip_key, pair_key, record_failure,
  reject, allow,
}
use godelayq.RateLimit.Window.{
  AllFrom, AllUpTo, Ordered, stamps, in_window, skip_expired-eq-in_window, stamps-recent_locked,
  stamps-record_failure, pair_key-ne-ip_key, allow-Ordered,
}

-- The wait that the two limits ask for, each by the stamps in the window.
abbrev worst_wait : LoginLimiter → String → String → ℕ → ℕ
worst_wait l ip username now =
    max_of
      (wait_for l.window now l.pair_limit
        (in_window l.window now (stamps l (pair_key ip username))))
      (wait_for l.window now l.ip_limit (in_window l.window now (stamps l (ip_key ip))))

ip_stamps :
    (l : LoginLimiter) (ip username : String) (now : ℕ)
    → stamps (recent_locked l (pair_key ip username) now).1 (ip_key ip) ≡ stamps l (ip_key ip)
ip_stamps l ip username now =
    stamps-recent_locked l (pair_key ip username) (ip_key ip) now
    ∙ if_neg (string_discrete (pair_key ip username) (ip_key ip)) (pair_key-ne-ip_key ip username) _
        _

allow_waits :
    (l : LoginLimiter) (ip username : String) (now : ℕ)
    → Ordered now l
    → ((allow l ip username now).0
        ≡ (not (ltb 0 (worst_wait l ip username now)), worst_wait l ip username now))
      × Ordered now (allow l ip username now).1
unfolding allow recent_locked
allow_waits l ip username now v = (
  rw (← skip_expired-eq-in_window l.window now (stamps l (pair_key ip username)) (v.ascending _)) (
      rw (← skip_expired-eq-in_window l.window now (stamps l (ip_key ip)) (v.ascending _)) (
        ap
          (λ ts.
            let w =
              max_of
                (wait_for l.window now l.pair_limit
                  (skip_expired l.window now (stamps l (pair_key ip username))))
                (wait_for l.window now l.ip_limit (skip_expired l.window now ts)) in
            (not (ltb 0 w), w))
          (ip_stamps l ip username now))),
  allow-Ordered l ip username now v,
)

-- The stamps reach the limit, and the first of them leaves the window later than now.
abbrev pub blocked : ℕ → ℕ → ℕ → List ℕ → Bool
blocked window now limit [] = false
blocked window now limit (t ∷ ts) = leb limit (length (t ∷ ts)) && ltb now (t + window)

-- The time until the first stamp leaves the window, where they block.
abbrev pub time_left : ℕ → ℕ → ℕ → List ℕ → ℕ
time_left window now limit [] = 0
time_left window now limit (t ∷ ts) =
    if blocked window now limit (t ∷ ts) then t + window - now else 0

abbrev pub longer : ℕ → ℕ → ℕ
longer a b = if leb a b then b else a

wait_for-eq-time_left :
    (window now limit : ℕ) (ts : List ℕ)
    → wait_for window now limit ts ≡ time_left window now limit ts
unfolding wait_for
wait_for-eq-time_left window now limit [] = refl
wait_for-eq-time_left window now limit (t ∷ ts) = ground arith

left_or_not :
    (window now limit : ℕ) (ts : List ℕ)
    → ltb 0 (time_left window now limit ts) ≡ blocked window now limit ts
left_or_not window now limit [] = refl
left_or_not window now limit (t ∷ ts) = ground arith

longer_left : (a b : ℕ) → ltb 0 (longer a b) ≡ (ltb 0 a || ltb 0 b)
longer_left a b = ground arith

max_of-eq-longer : (a b : ℕ) → max_of a b ≡ longer a b
max_of-eq-longer a b = ground arith

-- What Allow says of the stamps of the two keys in the window.
pub record Answered (l : LoginLimiter) (ip username : String) (now : ℕ) (answer : Bool × ℕ)
    : Type 0 where
  pub allowed :
      answer.0
      ≡ not (
          blocked l.window now l.pair_limit
            (in_window l.window now (stamps l (pair_key ip username)))
          || blocked l.window now l.ip_limit (in_window l.window now (stamps l (ip_key ip))))
  pub wait :
      answer.1
      ≡ longer
          (time_left l.window now l.pair_limit
            (in_window l.window now (stamps l (pair_key ip username))))
          (time_left l.window now l.ip_limit (in_window l.window now (stamps l (ip_key ip))))

answered :
    (l : LoginLimiter) (ip username : String) (now : ℕ)
    → Answered l ip username now
        (not (ltb 0 (worst_wait l ip username now)), worst_wait l ip username now)
answered l ip username now =
    let pair = in_window l.window now (stamps l (pair_key ip username)) in
    let source = in_window l.window now (stamps l (ip_key ip)) in
    let same : worst_wait l ip username now
        ≡ longer (time_left l.window now l.pair_limit pair)
            (time_left l.window now l.ip_limit source) =
      max_of-eq-longer (wait_for l.window now l.pair_limit pair)
        (wait_for l.window now l.ip_limit source)
      ∙ (λ i.
          longer (wait_for-eq-time_left l.window now l.pair_limit pair i)
            (wait_for-eq-time_left l.window now l.ip_limit source i)) in
    record {
      allowed =
          ap (λ w. not (ltb 0 w)) same
          ∙ ap not (
              longer_left (time_left l.window now l.pair_limit pair)
                (time_left l.window now l.ip_limit source)
              ∙ (λ i.
                  left_or_not l.window now l.pair_limit pair i
                  || left_or_not l.window now l.ip_limit source i));
      wait = same;
    }

-- Where the stamps under each key ascend up to now, Allow answers by the stamps in the window: it
-- refuses exactly if, for one of the two keys, they are as many as its limit and the first of them leaves
-- the window later than now. The wait that it gives is the longer of the times until then, 0 for a key
-- that does not refuse. It keeps the order of the stamps.
pub allow_lem :
    (l : LoginLimiter) (ip username : String) (now : ℕ)
    → Ordered now l
    → Answered l ip username now (allow l ip username now).0
      × Ordered now (allow l ip username now).1
allow_lem l ip username now v =
    let (answer, order) = allow_waits l ip username now v in
    (subst (Answered l ip username now) (sym answer) (answered l ip username now), order)

-- Failures at the given times.
abbrev pub rejects : LoginLimiter → String → String → List ℕ → LoginLimiter
rejects l ip username [] = l
rejects l ip username (t ∷ ts) = rejects (reject l ip username t) ip username ts

keep_all :
    (window now first : ℕ) (ts : List ℕ)
    → AllFrom first ts
    → now ≤ first + window
    → skip_expired window now ts ≡ ts
unfolding skip_expired
keep_all window now first [] h p = refl
keep_all window now first (t ∷ ts) h p = ground arith

one_reject :
    (l : LoginLimiter) (ip username : String) (first t : ℕ)
    → AllFrom first (stamps l (pair_key ip username))
    → t ≤ first + l.window
    → stamps (reject l ip username t) (pair_key ip username)
      ≡ stamps l (pair_key ip username) ++ t ∷ []
unfolding reject
one_reject l ip username first t h p =
    let pair = pair_key ip username in
    let ip_ne : ip_key ip ≢ pair = λ e. pair_key-ne-ip_key ip username (sym e) in
    stamps-record_failure (record_failure l pair t) (ip_key ip) pair t
    ∙ if_neg (string_discrete (ip_key ip) pair) ip_ne _ _
    ∙ stamps-record_failure l pair pair t
    ∙ if_pos (string_discrete pair pair) refl _ _
    ∙ ap (λ ts. ts ++ t ∷ []) (keep_all l.window t first (stamps l pair) h p)

AllFrom-append :
    (low : ℕ) (ts us : List ℕ) → AllFrom low ts → AllFrom low us → AllFrom low (ts ++ us)
AllFrom-append low [] us h k = k
AllFrom-append low (t ∷ ts) us h k = (h.0, AllFrom-append low ts us h.1 k)

window-reject :
    (l : LoginLimiter) (ip username : String) (t : ℕ) → (reject l ip username t).window ≡ l.window
unfolding reject record_failure recent_locked
window-reject l ip username t = refl

limit-rejects :
    (l : LoginLimiter) (ip username : String) (ts : List ℕ)
    → ((rejects l ip username ts).window ≡ l.window)
      × ((rejects l ip username ts).pair_limit ≡ l.pair_limit)
unfolding reject record_failure recent_locked
limit-rejects l ip username [] = (refl, refl)
limit-rejects l ip username (t ∷ ts) = limit-rejects (reject l ip username t) ip username ts

all_stamps :
    (l : LoginLimiter) (ip username : String) (first now : ℕ) (ts : List ℕ)
    → AllFrom first (stamps l (pair_key ip username))
    → AllFrom first ts
    → AllUpTo now ts
    → now < first + l.window
    → stamps (rejects l ip username ts) (pair_key ip username)
      ≡ stamps l (pair_key ip username) ++ ts
all_stamps l ip username first now [] h k u p = sym (append-nil _)
all_stamps l ip username first now (t ∷ ts) h k u p =
    let one = one_reject l ip username first t h (omega (arith, u.0)) in
    all_stamps (reject l ip username t) ip username first now ts
      (rw one (AllFrom-append first _ (t ∷ []) h (k.0, tt))) k.1 u.1
      (rw (window-reject l ip username t) p)
    ∙ ap (λ us. us ++ ts) one
    ∙ append_assoc (stamps l (pair_key ip username)) (t ∷ []) ts

refused :
    (window now limit first other : ℕ) (ts : List ℕ)
    → AllFrom first ts
    → now < first + window
    → limit ≤ length ts
    → 0 < limit
    → not (ltb 0 (max_of (wait_for window now limit ts) other)) ≡ false
unfolding wait_for
refused window now limit first other [] h p q r = absurd (omega arith)
refused window now limit first other (t ∷ ts) h p q r = ground arith

-- Once as many failures as the limit for an account are recorded from one source, the times and
-- the stamps from before all within one window from `first`, Allow refuses that source and account
-- until the window from `first` has passed.
pub lockout :
    (l : LoginLimiter) (ip username : String) (first now : ℕ) (ts : List ℕ)
    → AllFrom first (stamps l (pair_key ip username))
    → AllFrom first ts
    → AllUpTo now ts
    → now < first + l.window
    → 0 < l.pair_limit
    → l.pair_limit ≤ length (stamps l (pair_key ip username)) + length ts
    → (allow (rejects l ip username ts) ip username now).0.0 ≡ false
unfolding allow recent_locked
lockout l ip username first now ts h k u p positive many =
    let l' = rejects l ip username ts in
    let whole = all_stamps l ip username first now ts h k u p in
    let from = AllFrom-append first _ ts h k in
    let same = limit-rejects l ip username ts in
    let now_in : now < first + l'.window = rw same.0 p in
    let all_from : AllFrom first (stamps l' (pair_key ip username)) = rw whole from in
    rw
      (keep_all l'.window now first (stamps l' (pair_key ip username)) all_from
        (omega (arith, now_in)))
      (refused l'.window now l'.pair_limit first _ (stamps l' (pair_key ip username)) all_from
        now_in
        (rw (same.1, whole) (omega (arith, length-append (stamps l (pair_key ip username)) ts)))
        (rw same.1 positive))
