-- ===== src/Bulkhead.antt =====
-- src/resilience/bulkhead.ts. A promise that `acquire` returns is named by its caller, a number. An
-- operation returns the answer that settles a promise, if it settles one. The timer and the abort
-- listener of a waiter are the operations `time_out` and `abort`; both are cleared once it leaves the
-- queue, so they do nothing for a caller that is not waiting.
pub mod Slots
pub mod Order
mod Tests
use boilerplate_express_ts.Prelude.{
  ℕ, ◌+◌, ◌-◌, Bool, true, false, Option, none, some, List, [], ◌∷◌, ◌++◌, ltb, leb, ◌==◌,
  if◌then◌else◌, length, Text,
}

pub record BulkheadOptions : Type 0 where
  pub name : Text
  pub max_concurrent : ℕ
  pub max_queue : ℕ
  pub queue_timeout_ms : ℕ

pub record Waiter : Type 0 where
  pub caller : ℕ
  pub queued_at : ℕ

pub record Bulkhead : Type 0 where
  pub options : BulkheadOptions
  pub waiters : List Waiter
  pub in_flight : ℕ

-- The field that a `RangeError` of the constructor names.
pub data BadOption : Type 0 where
  max_concurrent queue_timeout_ms : BadOption

pub data Created : Type 0 where
  created : Bulkhead → Created
  range_error : BadOption → Created

unfoldable pub create : BulkheadOptions → Created
create o =
    if ltb o.max_concurrent 1
    then range_error max_concurrent
    else if ltb o.queue_timeout_ms 1
    then range_error queue_timeout_ms
    else created (record { options = o; waiters = []; in_flight = 0 })

pub data Answer : Type 0 where
  admitted aborted queue_full : Answer
  queue_timeout : ℕ → Answer

enqueue : ℕ → ℕ → Bulkhead → Bulkhead
enqueue caller now b = record b {
  waiters = b.waiters ++ record { caller = caller; queued_at = now } ∷ [];
}

-- `none` is a promise that stays pending, in the queue.
unfoldable pub acquire : ℕ → Bool → ℕ → Bulkhead → Bulkhead × Option Answer
unfolding enqueue
acquire caller is_aborted now b =
    if is_aborted
    then (b, some aborted)
    else if ltb b.in_flight b.options.max_concurrent
    then (record b { in_flight = b.in_flight + 1 }, some admitted)
    else if leb b.options.max_queue (length b.waiters)
    then (b, some queue_full)
    else (enqueue caller now b, none)

-- The waiter that `leave` takes out, and the others.
unfoldable pub leave : ℕ → List Waiter → Option (Waiter × List Waiter)
leave caller [] = none
leave caller (w ∷ ws) =
    let rest = leave caller ws in
    if w.caller == caller
    then some (w, ws)
    else elim rest [ none ↦ none | some (v, vs) ↦ some (v, w ∷ vs) ]

unfoldable pub time_out : ℕ → ℕ → Bulkhead → Bulkhead × Option Answer
time_out caller now b = elim (leave caller b.waiters) [
  | none ↦ (b, none)
  | some (w, ws) ↦ (record b { waiters = ws }, some (queue_timeout (now - w.queued_at)))
]

unfoldable pub abort : ℕ → Bulkhead → Bulkhead × Option Answer
abort caller b = elim (leave caller b.waiters) [
  | none ↦ (b, none)
  | some (w, ws) ↦ (record b { waiters = ws }, some aborted)
]

-- The slot goes to the longest waiter, or is given back.
unfoldable pub hand_off : Bulkhead → Bulkhead × Option Waiter
hand_off b = elim b.waiters [
  | [] ↦ (record b { in_flight = b.in_flight - 1 }, none)
  | w ∷ ws ↦ (record b { waiters = ws }, some w)
]

pub record BulkheadPermit : Type 0 where
  pub holder : ℕ
  pub released : Bool

-- `none` is the error of a second release.
unfoldable pub release :
    BulkheadPermit → Bulkhead → Option (BulkheadPermit × (Bulkhead × Option Waiter))
unfolding hand_off
release p b = if p.released then none else some (record p { released = true }, hand_off b)

pub record BulkheadStats : Type 0 where
  pub in_flight : ℕ
  pub queued : ℕ
  pub max_concurrent : ℕ
  pub max_queue : ℕ

unfoldable pub stats : Bulkhead → BulkheadStats
stats b = record {
  in_flight = b.in_flight;
  queued = length b.waiters;
  max_concurrent = b.options.max_concurrent;
  max_queue = b.options.max_queue;
}

-- What becomes of `withBulkhead` at once: its callback has ended, whether with a value or an error, and
-- the slot is handed on; or the caller waits; or it was refused.
pub data Guarded (A : Type 0) : Type 0 where
  ended : A → Option Waiter → Guarded A
  waits : Guarded A
  refused : Answer → Guarded A

-- The callback changes the bulkhead by what happens to it meanwhile. No other code has the permit.
unfoldable pub under_permit :
    {A : Type 0} → (Bulkhead → Bulkhead × A) → Bulkhead → Bulkhead × Guarded A
unfolding hand_off
under_permit fn b = let (c, a) = fn b in let (d, next) = hand_off c in (d, ended a next)

unfoldable pub guard_with :
    {A : Type 0} → (Bulkhead → Bulkhead × A) → Bulkhead → Option Answer → Bulkhead × Guarded A
unfolding under_permit
guard_with fn b none = (b, waits)
guard_with fn b (some admitted) = under_permit fn b
guard_with fn b (some aborted) = (b, refused aborted)
guard_with fn b (some queue_full) = (b, refused queue_full)
guard_with fn b (some (queue_timeout ms)) = (b, refused (queue_timeout ms))

unfoldable pub with_bulkhead :
    {A : Type 0} → ℕ → Bool → ℕ → (Bulkhead → Bulkhead × A) → Bulkhead → Bulkhead × Guarded A
unfolding acquire guard_with
with_bulkhead caller is_aborted now fn b =
    let (c, answer) = acquire caller is_aborted now b in guard_with fn c answer
