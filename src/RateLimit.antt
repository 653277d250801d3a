-- ===== src/RateLimit.antt =====
-- api/ratelimit.go: the counts of failed logins, for a source with an account and for a source.
-- A time is a number of nanoseconds. The mutex makes each call one step, and one call reads the
-- clock once, `now`.
pub mod Window
pub mod Verdict
mod Tests
use Prim.Native.String.{◌++◌ as str_append}
use godelayq.Prelude.{
  ℕ, ◌+◌, ◌-◌, List, [], ◌∷◌, ◌++◌, Bool, true, false, not, Option, none, some, String, ltb, leb,
  ◌==◌, if◌then◌else◌, length,
}
use godelayq.Dict
use godelayq.Dict.{Dict}

pub record LoginLimiter : Type 0 where
  pub window : ℕ
  pub pair_limit : ℕ
  pub ip_limit : ℕ
  pub attempts : Dict (List ℕ)

abbrev pub new_login_limiter : LoginLimiter
new_login_limiter = record { window = 60000000000; pair_limit = 5; ip_limit = 20; attempts = [] }

-- throttleKeys gives these two.
unfoldable pub ip_key : String → String
ip_key ip = str_append "ip|" ip

unfoldable pub pair_key : String → String → String
unfolding ip_key
pair_key ip username = str_append (ip_key ip) (str_append "|user|" username)

-- The stamp lies before now - window.
abbrev pub expired : ℕ → ℕ → ℕ → Bool
expired window now stamp = ltb (stamp + window) now

-- The loop of recentLocked: the list without the expired stamps at its front.
unfoldable pub skip_expired : ℕ → ℕ → List ℕ → List ℕ
skip_expired window now [] = []
skip_expired window now (stamp ∷ stamps) =
    if expired window now stamp then skip_expired window now stamps else stamp ∷ stamps

abbrev pub stamps_of : Option (List ℕ) → List ℕ
stamps_of none = []
stamps_of (some stamps) = stamps

-- What recentLocked leaves under its key: nothing where the list is empty.
abbrev pub store_recent : String → List ℕ → Dict (List ℕ) → Dict (List ℕ)
store_recent key [] m = Dict.delete key m
store_recent key (stamp ∷ stamps) m = Dict.insert key (stamp ∷ stamps) m

unfoldable pub recent_locked : LoginLimiter → String → ℕ → List ℕ × LoginLimiter
unfolding skip_expired
recent_locked l key now =
    let kept = skip_expired l.window now (stamps_of (Dict.lookup key l.attempts)) in
    (kept, record l { attempts = store_recent key kept l.attempts })

-- The wait of a list that has reached the limit: until its first stamp leaves the window.
unfoldable pub wait_for : ℕ → ℕ → ℕ → List ℕ → ℕ
wait_for window now limit [] = 0
wait_for window now limit (stamp ∷ stamps) =
    if ltb (length (stamp ∷ stamps)) limit then 0 else stamp + window - now

abbrev pub max_of : ℕ → ℕ → ℕ
max_of a b = if ltb a b then b else a

unfoldable pub allow : LoginLimiter → String → String → ℕ → (Bool × ℕ) × LoginLimiter
allow l ip username now =
    let (pair, l1) = recent_locked l (pair_key ip username) now in
    let (source, l2) = recent_locked l1 (ip_key ip) now in
    let worst =
      max_of (wait_for l.window now l.pair_limit pair) (wait_for l.window now l.ip_limit source) in
    ((not (ltb 0 worst), worst), l2)

-- One key of the loop of Reject.
unfoldable pub record_failure : LoginLimiter → String → ℕ → LoginLimiter
record_failure l key now =
    let (kept, l1) = recent_locked l key now in
    record l1 { attempts = Dict.insert key (kept ++ now ∷ []) l1.attempts }

unfoldable pub reject : LoginLimiter → String → String → ℕ → LoginLimiter
unfolding record_failure
reject l ip username now =
    record_failure (record_failure l (pair_key ip username) now) (ip_key ip) now

unfoldable pub reset : LoginLimiter → String → String → LoginLimiter
reset l ip username = record l { attempts = Dict.delete (pair_key ip username) l.attempts }
