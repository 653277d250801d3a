-- ===== src/RateLimit/Tests.antt =====
-- The theorems on the limiter at concrete attempts.
use godelayq.Prelude.{ℕ, ◌≡◌, List, [], ◌∷◌, false, arith}
use godelayq.Dict
use godelayq.RateLimit.{new_login_limiter, allow, reject}
use godelayq.RateLimit.Window.{Ordered, reject-Ordered, Ordered-le}
use godelayq.RateLimit.Verdict.{Answered, rejects, allow_lem, lockout}

abbrev five_failures : List ℕ
five_failures = 1 ∷ 2 ∷ 3 ∷ 4 ∷ 5 ∷ []

new_login_limiter-Ordered : Ordered 1 new_login_limiter
unfolding Dict.lookup
new_login_limiter-Ordered = record { ascending = λ key. tt; past = λ key. tt }

once-Ordered : Ordered 1 (reject new_login_limiter "10.0.0.1" "amy" 1)
once-Ordered = reject-Ordered new_login_limiter "10.0.0.1" "amy" 1 new_login_limiter-Ordered

allow_lem_example :
    let l = reject new_login_limiter "10.0.0.1" "amy" 1 in
    Answered l "10.0.0.1" "amy" 2 (allow l "10.0.0.1" "amy" 2).0
    × Ordered 2 (allow l "10.0.0.1" "amy" 2).1
allow_lem_example =
    allow_lem (reject new_login_limiter "10.0.0.1" "amy" 1) "10.0.0.1" "amy" 2
      (Ordered-le 1 2 _ (omega arith) once-Ordered)

lockout_example :
    (allow (rejects new_login_limiter "10.0.0.1" "amy" five_failures) "10.0.0.1" "amy" 9).0.0
    ≡ false
unfolding Dict.lookup
lockout_example =
    lockout new_login_limiter "10.0.0.1" "amy" 1 9 five_failures tt (omega arith) (omega arith)
      (omega arith) (omega arith) (omega arith)
