-- ===== src/Int64.antt =====
-- Go's int, int64 and time.Duration: a number below 2 ^ 64 read as a two's complement pattern.
use godelayq.Prelude.{ℕ, ◌+◌, ◌*◌, ◌%◌, ◌<◌, ◌≡◌, Bool, ◌&&◌, arith, ltb}

abbrev pub two63 : ℕ
two63 = 9223372036854775808

abbrev pub two64 : ℕ
two64 = 18446744073709551616

-- a + b, a * b, a < b and 0 < a.
abbrev pub add64 : ℕ → ℕ → ℕ
add64 a b = (a + b) % two64

abbrev pub double64 : ℕ → ℕ
double64 a = (a * 2) % two64

abbrev pub lt64 : ℕ → ℕ → Bool
lt64 a b = ltb ((a + two63) % two64) ((b + two63) % two64)

abbrev pub positive64 : ℕ → Bool
positive64 a = ltb 0 a && ltb a two63

-- On patterns below 2 ^ 63 the signed order is the order of the numbers.
pub lt64-ltb : (a b : ℕ) → a < two63 → b < two63 → lt64 a b ≡ ltb a b
lt64-ltb a b p q = ground arith
