-- ===== src/Scheduler/Workers.antt =====
-- The number of workers: SetConcurrency, SetQueueCapacity, SetExecConcurrency, SetExecQueueCapacity
-- and ResizeWorkers of core/scheduler.go.
use godelayq.Prelude.{
  ℕ, ◌+◌, ◌-◌, ◌%◌, ◌<◌, ◌≡◌, Bool, true, false, not, ltb, ◌==◌, if◌then◌else◌, arith,
}
use godelayq.Int64.{two63, two64, lt64, positive64}
use godelayq.Scheduler.{Scheduler}
use godelayq.Scheduler.Loop.{should_retire}

abbrev pub default_concurrency : ℕ
default_concurrency = 100

-- int32(n) read as an int again: the low 32 bits with their sign.
abbrev pub to_int32 : ℕ → ℕ
to_int32 n =
    if ltb (n % 4294967296) 2147483648
    then n % 4294967296
    else n % 4294967296 + 18446744069414584320

-- A negative number is read as 0.
abbrev not_negative : ℕ → ℕ
not_negative n = if ltb n two63 then n else 0

-- n - m of two ints.
abbrev minus64 : ℕ → ℕ → ℕ
minus64 n m = (n + (two64 - m)) % two64

module _ {S : Type 0} where
  unfoldable set_concurrency : Scheduler S → ℕ → Scheduler S
  set_concurrency s n =
      let workers = if positive64 n then n else default_concurrency in
      if s.running then s else record s { concurrency = workers; target_workers = to_int32 workers }

  unfoldable set_queue_capacity : Scheduler S → ℕ → Scheduler S
  set_queue_capacity s n = if s.running then s else record s { queue_capacity = not_negative n }

  unfoldable set_exec_concurrency : Scheduler S → ℕ → Scheduler S
  set_exec_concurrency s n = if s.running then s else record s { exec_concurrency = not_negative n }

  unfoldable set_exec_queue_capacity : Scheduler S → ℕ → Scheduler S
  set_exec_queue_capacity s n =
      if s.running then s else record s { exec_queue_capacity = not_negative n }

  -- Whether the number is accepted, how many workers are started, and the new state.
  unfoldable pub resize_workers : Scheduler S → ℕ → Bool × ℕ × Scheduler S
  resize_workers s n =
      if not (positive64 n)
      then (false, 0, s)
      else if not s.running
      then (true, 0, record s { concurrency = n; target_workers = to_int32 n })
      else if n == s.target_workers
      then (true, 0, s)
      else if lt64 s.target_workers n
      then (true, minus64 n s.target_workers, record s { target_workers = to_int32 n })
      else (
        true,
        0,
        record s {
          target_workers = to_int32 n;
          retire_requests =
              (s.retire_requests + minus64 s.target_workers n % 4294967296) % 4294967296;
        },
      )

  -- The workers that live are those wanted and those asked to retire.
  abbrev pub Balanced : ℕ → Scheduler S → Type 0
  Balanced live s = live ≡ s.target_workers + s.retire_requests

  -- While the scheduler runs with fewer than 2 ^ 31 live workers and its counts balance, ResizeWorkers
  -- with a positive n below 2 ^ 31 is accepted and wants n workers, and the workers that live, those it starts included, are those
  -- wanted plus those asked to retire. The next worker that looks retires exactly if more than n
  -- live, and the counts balance again.
  pub resize_workers-Balanced :
      (s : Scheduler S) (live n : ℕ)
      → s.running ≡ true
      → s.target_workers < 2147483648
      → n < 2147483648
      → live < 2147483648
      → 0 < n
      → Balanced live s
      → let (accepted, started, s') = resize_workers s n in
        let (retires, s'') = should_retire s' in
        (accepted ≡ true)
        × (s'.target_workers ≡ n)
        × Balanced (live + started) s'
        × (retires ≡ ltb n (live + started))
        × Balanced (if retires then live + started - 1 else live + started) s''
  unfolding resize_workers should_retire
  resize_workers-Balanced s live n on t p few q b = ground arith
