-- ===== src/Lib.antt =====
-- godelayq: delayed and repeated jobs, run by worker pools in one process.
--
-- The program. A job waits in a 4-ary heap ordered by its time (core/heap.go). One loop takes the
-- due jobs out and sends them to two queues, the shared one and that of the executors; workers take
-- them from there and run their handlers (core/scheduler.go). The end of a run stores the job,
-- schedules its next try or its next cron round, or leaves it paused. Calls from outside put jobs
-- in, cancel, pause, resume and change them meanwhile. Jobs are kept as snapshots in a store
-- (core/store.go), and whatever happens is published as an event (core/event.go).
--
-- The files.
--   Prelude       the names of the library that the others use, the Boolean tests on numbers, and
--                 lemmas on lists and on `Returns P r`: r is some result, and the result has P
--   Dict          Go's maps with string keys, as association lists; Keys: one entry for each key
--   Int64, Text   Go's machine integers; strings as lists of code points, TrimSpace and EqualFold;
--                 bytes that are no UTF-8 replaced
--   Heap          core/heap.go. One function per method; sift_up_loop and sift_down_loop are the
--                 loops of siftUp and siftDown, each_due is the walk of eachDue, visit_best and
--                 pop_best are the closure and the end of PopIfDueWhere. Array and Order hold the
--                 invariant (heap order, and the index tells the place of each id), Up, Down,
--                 Insert, Remove, Due and Best the parts of the proofs, Calls and ById the methods
--   Job           core/job.go: Job, JobSnapshot, the statuses, CloneForRetry, TrimExecPreview
--   JsonStore     core/store.go: JSONFileStore, its retention of finished jobs, Flush and the load of
--                 a start. sweep, terminals and delete_all are the loops of trimTerminalLocked,
--                 sort_newest its sort.Slice. Live, Entries, Sorted and Deletes hold the lemmas on
--                 the map and the sorted list, Trim, Disk and Refines the theorems
--   Named         core/group_store.go and core/executor_profile_store.go: what the two stores share,
--                 with Groups and Profiles for what they check and convert. Agree, Alike, Reopen, Survives
--                 and Opened hold the parts of what a file gives when it is read again
--   JobName       core/job_name.go
--   EventBus      core/event.go: Subscribe, Unsubscribe, Publish and Close. A channel is an index
--                 into the list of those made. Owners holds the invariant, Drops the
--                 lemmas on the lists of Unsubscribe
--   RateLimit     api/ratelimit.go: Allow, Reject and Reset of the login limiter
--   Auth          api/authstore.go: refresh tokens, tickets and logged-out tokens. Accounts is
--                 api/authenticator.go, Gate is authMiddleware and RequireRole of api/security.go
--   Executor      executor/exit.go: ExitError, classifyExit, classifyFailure; Args is the check of
--                 the values of a payload and of its timeout, of executor/args.go
--   Role          core/auth.go: Role, AtLeast, ParseRole
--   Scheduler     the state of the scheduler, the interfaces of the store and of what else stands
--                 behind it, the registry, and Schedule, of core/scheduler.go
--   Scheduler/Calls     Cancel, Pause, Resume, ForcePause, UpdatePending, Suspend, Unsuspend;
--                       below it a file for the cases of each of the first five, and RoundTrip
--                       for a Resume after a Pause
--   Scheduler/Restore     SetRestoreGuard and Restore; Revived and Rounds hold the parts, Ends the
--                 theorem
--   Scheduler/Lifecycle   NewScheduler, Start, and Stop up to its wait for the goroutines
--   Scheduler/Groups      SetGroup, RetagGroup and PauseByHandlerKey
--   Scheduler/Laws      what the scheduler relies on in a store; JsonStore/Refines fulfils it
--   Scheduler/Execute   executeJob: begin up to the call of the handler, settle and finish after it,
--                 with handleSuccess, handleFailure, handleInterrupted and parkForcedPause
--   Scheduler/Loop      scheduleLoop, dispatch, dispatchExec, worker and shouldRetire, one turn each
--   Scheduler/Workers   SetConcurrency, SetQueueCapacity, their executor counterparts, ResizeWorkers
--   Tests files hold runs of the definitions and the theorems at concrete values.
--
-- How the state is modelled. An operation takes the state and returns the new one. Where the heap
-- could panic, the result is an Option, and none is the panic. A lock makes a call one step
-- (Publish, under its read lock, is seen with no other send in between); executeJob is two steps,
-- with other calls possible in between, and a turn of the loop that waits to send is seen as
-- holding its job. A channel is a list with its capacity, or a flag where the capacity is one. A
-- context is a number, and the list `cancelled` holds those that were cancelled. A time is a number
-- of nanoseconds, and one call reads the clock once. Of the job a handler may change, only the
-- summary of its execution is taken over, which is what the executors write.
--
-- The bounds. The loops of the heap run on fuel: siftUp has one round more than the index it starts
-- from, as each round moves to a smaller one; siftDown and the recursion of eachDue one more than
-- the number of items, as each step moves to a larger one. The integers of a job are patterns of 64
-- bits, with the wrap-around written out, the number of the workers asked to retire is one of 32
-- bits; the other counters of the scheduler and the indices are plain numbers. The search of
-- Subscribe for an id has as many rounds as the longest id has characters, and two more, as each
-- round makes the id longer.
--
-- What is a parameter. The store, the cron library and the retry policy are arguments of the
-- operations (the records Store and Env). encoding/json is the record Codec, with the law that what
-- it writes it reads back, but for bytes of a preview that are no UTF-8, which it replaces, and for
-- the order of the entries of a map; the errors of os/exec are the record ErrorKinds; the answers
-- of the disk and the ids that generateID and randomTokenID make are arguments. bcrypt and the JWT
-- library are the record Crypto, with the laws that what was signed is read back and that a valid
-- token has the claims that are read from it without a check. A handler is a number; what it
-- returned is an argument. strings.ToLower on the names of groups and profiles, the texts of
-- durations and the table of the Chinese characters are arguments too.
--
-- What is not modelled. The SQLite store, the rest of the executors and of the HTTP interface, the
-- reading of the configuration, the WebSocket hub and the logs; of the scheduler, the other setters
-- and the readers; of the JSON store, the ticker that calls Flush.
pub mod Prelude
pub mod Dict
pub mod Int64
pub mod Text
pub mod Heap
pub mod Job
pub mod Role
pub mod Scheduler
pub mod RateLimit
pub mod EventBus
pub mod JsonStore
pub mod Executor
pub mod Auth
pub mod Named
pub mod JobName
