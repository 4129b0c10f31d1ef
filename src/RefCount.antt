-- ===== src/RefCount.antt =====
-- `ReferenceCounter` of util/refcount/refcount.go, as a machine whose steps are its atomic operations,
-- so that the calls of several goroutines may interleave at each of them. An int32 is its two's
-- complement representation. Logging is left out, with the load that only a log line of Close reads.
pub mod Step
pub mod Balance
pub mod Closing
use fabric_snaps.Common.{ℕ, ◌+◌, ◌%◌, Bool, true, false, if◌then◌else◌, eqb, ltb, leb}

-- 2 ^ 31: from here on an int32 is negative
abbrev pub int32_min : ℕ
int32_min = 2147483648

-- 2 ^ 32 - 1: the int32 -1
abbrev pub minus_one : ℕ
minus_one = 4294967295

abbrev pub int32 : ℕ → ℕ
int32 n = n % 4294967296

-- `closes` counts the calls of the closer.
pub record ReferenceCounter : Type 0 where
  pub ref_count : ℕ
  pub closed : Bool
  pub closes : ℕ

-- `New`
abbrev pub new_counter : ReferenceCounter
new_counter = record { ref_count = 0; closed = false; closes = 0 }

-- Who called `checkAndCloseResource`.
pub data Caller : Type 0 where
  releasing closing : Caller

-- Where a goroutine stands in its call: each constructor is the atomic operation that comes next,
-- or the call's result.
pub data Pc : Type 0 where
  -- `Acquire`: `isClosed`, `count`, `setCount(refCount, refCount + 1)`
  acquire_check acquire_load : Pc
  acquire_cas : ℕ → Pc
  acquired : Bool → Pc
  -- `Release`: `count`, `setCount(refCount, refCount - 1)`
  release_load : Pc
  release_cas : ℕ → Pc
  released : Bool → Pc
  -- `Close`: `close`
  close_cas : Pc
  close_done : Bool → Pc
  -- `checkAndCloseResource`: `isClosed`, `setCount(0, -1)`, `closer()`
  check_closed close_set run_closer : Caller → Pc

-- The result of the call that ran `checkAndCloseResource`.
abbrev pub finish : Caller → Pc
finish releasing = released true
finish closing = close_done true

-- `setCount`: the result of the compare and swap, and the counter after it.
abbrev pub set_count : ℕ → ℕ → ReferenceCounter → Bool × ReferenceCounter
set_count expect value c =
    if eqb c.ref_count expect then (true, record c { ref_count = value }) else (false, c)

-- Whether an int32 is negative.
abbrev pub negative : ℕ → Bool
negative n = leb int32_min n

abbrev pub acquire_step : ℕ → ReferenceCounter → Pc × ReferenceCounter
acquire_step n c =
    let (swapped, c') = set_count n (int32 (n + 1)) c in
    (if swapped then acquired true else acquire_load, c')

abbrev pub release_step : ℕ → ReferenceCounter → Pc × ReferenceCounter
release_step n c =
    let (swapped, c') = set_count n (int32 (n + minus_one)) c in
    (
      if swapped
          then (if eqb (int32 (n + minus_one)) 0 then check_closed releasing else released true)
          else release_load,
      c',
    )

-- The next atomic operation of a call. A finished call stays as it is.
unfoldable pub step : Pc → ReferenceCounter → Pc × ReferenceCounter
step acquire_check c = (if c.closed then acquired false else acquire_load, c)
step acquire_load c = (if negative c.ref_count then acquired false else acquire_cas c.ref_count, c)
step (acquire_cas n) c = acquire_step n c
step (acquired r) c = (acquired r, c)
step release_load c = (
  if negative c.ref_count
      then released false
      else if eqb c.ref_count 0
      then released false
      else release_cas c.ref_count,
  c,
)
step (release_cas n) c = release_step n c
step (released r) c = (released r, c)
step close_cas c =
    if c.closed then (close_done false, c) else (check_closed closing, record c { closed = true })
step (close_done r) c = (close_done r, c)
step (check_closed by) c = (if c.closed then close_set by else finish by, c)
step (close_set by) c =
    let (swapped, c') = set_count 0 minus_one c in
    (if swapped then run_closer by else finish by, c')
step (run_closer by) c = (finish by, record c { closes = c.closes + 1 })

-- The first operation of each method.
abbrev pub acquire : Pc
acquire = acquire_check

abbrev pub release : Pc
release = release_load

abbrev pub close : Pc
close = close_cas
