-- ===== src/WorkerPool.antt =====
-- src/workers/worker-pool.ts. A promise is named by its caller, and the answers are kept in the order
-- of their settling. A worker record is in `workers` exactly until it is retired, so `retired` is its
-- absence there; what a record outside holds is `null`, and its events change nothing. The stack `idle`
-- has its top first. Threads are not modelled: what a worker, its timer or its exit does is an event,
-- and whether `postMessage` throws is a property of the task. Payloads are left out.
pub mod Workers
pub mod Idle
pub mod Posting
pub mod Slots
pub mod Histories
pub mod Accounts
pub mod Calls
pub mod Order
pub mod Serving
pub mod Orderly
pub mod Promises
pub mod Drains
pub mod Closing
mod Tests
use boilerplate_express_ts.Prelude.{
  ℕ, zero, suc, ◌+◌, Bool, true, false, not, ◌&&◌, Option, none, some, List, [], ◌∷◌, ◌++◌, leb,
  ◌==◌, if◌then◌else◌, length,
}

pub data WorkerPoolState : Type 0 where
  opened draining closed : WorkerPoolState

abbrev pub is_open : WorkerPoolState → Bool
is_open opened = true
is_open _ = false

abbrev pub is_draining : WorkerPoolState → Bool
is_draining draining = true
is_draining _ = false

abbrev pub is_closed : WorkerPoolState → Bool
is_closed closed = true
is_closed _ = false

pub data Answer (V : Type 0) : Type 0 where
  resolved task_error : V → Answer V
  timed_out crashed not_cloneable : Answer V
  pool_closed : WorkerPoolState → Answer V
  queue_full : ℕ → Answer V

pub record QueuedTask : Type 0 where
  pub caller : ℕ
  pub timeout_ms : ℕ
  pub cloneable : Bool

pub record InFlightTask : Type 0 where
  pub id : ℕ
  pub caller : ℕ
  pub timeout_ms : ℕ

pub record WorkerRecord : Type 0 where
  pub name : ℕ
  pub current : Option InFlightTask

-- The promise of `drain`.
pub data Drained : Type 0 where
  not_asked pending settled : Drained

pub record WorkerPool (V : Type 0) : Type 0 where
  pub size : ℕ
  pub max_queue_depth : ℕ
  pub workers : List WorkerRecord
  pub idle : List ℕ
  pub queue : List QueuedTask
  pub state : WorkerPoolState
  pub next_task_id : ℕ
  pub next_name : ℕ
  pub drained : Drained
  pub answers : List (ℕ × Answer V)

-- What a worker holds; `none` for a retired worker.
unfoldable pub current_of : ℕ → List WorkerRecord → Option (Option InFlightTask)
current_of w [] = none
current_of w (r ∷ rs) = let rest = current_of w rs in if r.name == w then some r.current else rest

unfoldable pub set_current : ℕ → Option InFlightTask → List WorkerRecord → List WorkerRecord
set_current w current [] = []
set_current w current (r ∷ rs) =
    let rest = set_current w current rs in
    if r.name == w then record r { current = current } ∷ rs else r ∷ rest

unfoldable pub remove : ℕ → List WorkerRecord → List WorkerRecord
remove w [] = []
remove w (r ∷ rs) = let rest = remove w rs in if r.name == w then rs else r ∷ rest

unfoldable pub splice : ℕ → List ℕ → List ℕ
splice w [] = []
splice w (i ∷ is) = let rest = splice w is in if i == w then is else i ∷ rest

abbrev pub busy : List WorkerRecord → List InFlightTask
busy [] = []
busy (r ∷ rs) = elim r.current [ none ↦ busy rs | some t ↦ t ∷ busy rs ]

abbrev pub is_empty {ℓ} : {A : Type ℓ} → List A → Bool
is_empty [] = true
is_empty (_ ∷ _) = false

abbrev pub queued_callers : List QueuedTask → List ℕ
queued_callers [] = []
queued_callers (t ∷ ts) = t.caller ∷ queued_callers ts

abbrev pub busy_callers : List InFlightTask → List ℕ
busy_callers [] = []
busy_callers (t ∷ ts) = t.caller ∷ busy_callers ts

module _ {V : Type 0} where
  -- `none` is a `RangeError` of the constructor; the options of timing are not state.
  unfoldable pub create : ℕ → ℕ → Option (WorkerPool V)
  create size max_queue_depth =
      if size == 0
      then none
      else some (record {
        size = size;
        max_queue_depth = max_queue_depth;
        workers = [];
        idle = [];
        queue = [];
        state = opened;
        next_task_id = 1;
        next_name = 0;
        drained = not_asked;
        answers = [];
      })

  abbrev pub answer : ℕ → Answer V → WorkerPool V → WorkerPool V
  answer caller a p = record p { answers = p.answers ++ (caller, a) ∷ [] }

  unfoldable pub acquire_worker : WorkerPool V → Option (ℕ × WorkerPool V)
  acquire_worker p = elim p.idle [
    | w ∷ ws ↦ some (w, record p { idle = ws })
    | [] ↦
        if leb p.size (length p.workers)
        then none
        else some (
          p.next_name,
          record p {
            workers = p.workers ++ record { name = p.next_name; current = none } ∷ [];
            next_name = suc p.next_name;
          },
        )
  ]

  -- `settleDrainIfIdle`, with the part of `destroyAll` that runs at once.
  unfoldable pub settle_drain_if_idle : WorkerPool V → WorkerPool V
  settle_drain_if_idle p =
      if is_draining p.state && (is_empty p.queue && is_empty (busy p.workers))
      then record p { state = closed; workers = []; idle = [] }
      else p

  -- The three that follow call `pump`, which is their argument.
  unfoldable pub retire : (WorkerPool V → WorkerPool V) → ℕ → WorkerPool V → WorkerPool V
  unfolding settle_drain_if_idle
  retire pump w p = elim (current_of w p.workers) [
    | none ↦ p
    | some _ ↦
        settle_drain_if_idle
          (pump (record p { workers = remove w p.workers; idle = splice w p.idle }))
  ]

  unfoldable pub release : (WorkerPool V → WorkerPool V) → ℕ → WorkerPool V → WorkerPool V
  unfolding retire settle_drain_if_idle
  release pump w p = elim (current_of w p.workers) [
    | none ↦ p
    | some _ ↦
        if is_closed p.state
        then retire pump w p
        else settle_drain_if_idle (pump (record p { idle = w ∷ p.idle }))
  ]

  abbrev pub in_flight : QueuedTask → WorkerPool V → InFlightTask
  in_flight t p = record { id = p.next_task_id; caller = t.caller; timeout_ms = t.timeout_ms }

  abbrev pub posted : ℕ → QueuedTask → WorkerPool V → WorkerPool V
  posted w t p = record p {
    next_task_id = suc p.next_task_id;
    workers = set_current w (some (in_flight t p)) p.workers;
  }

  -- A worker's task is answered, and the worker has none.
  abbrev pub answered : ℕ → InFlightTask → Answer V → WorkerPool V → WorkerPool V
  answered w t a p = answer t.caller a (record p { workers = set_current w none p.workers })

  unfoldable pub dispatch :
      (WorkerPool V → WorkerPool V) → ℕ → QueuedTask → WorkerPool V → WorkerPool V
  unfolding release
  dispatch pump w t p =
      if t.cloneable
      then posted w t p
      else release pump w (answered w (in_flight t p) not_cloneable (posted w t p))

  -- The body of the loop of `pump`, and then the rounds that follow: the queue, whether the pool is
  -- closed, and what `acquireWorker` answers.
  unfoldable pub pump_step :
      (WorkerPool V → WorkerPool V)
      → WorkerPool V
      → List QueuedTask
      → Bool
      → Option (ℕ × WorkerPool V)
      → WorkerPool V
  unfolding dispatch
  pump_step next p [] is_closed acquired = p
  pump_step next p (t ∷ ts) true acquired = p
  pump_step next p (t ∷ ts) false none = p
  pump_step next p (t ∷ ts) false (some (w, q)) = next (dispatch next w t (record q { queue = ts }))

  unfoldable pub pump_round : (WorkerPool V → WorkerPool V) → WorkerPool V → WorkerPool V
  unfolding acquire_worker pump_step
  pump_round next p = pump_step next p p.queue (is_closed p.state) (acquire_worker p)

  -- Each round takes a task from the queue, so its length is enough.
  unfoldable pub pump_for : ℕ → WorkerPool V → WorkerPool V
  unfolding pump_round
  pump_for zero p = p
  pump_for (suc rounds) p = pump_round (pump_for rounds) p

  unfoldable pub pump : WorkerPool V → WorkerPool V
  unfolding pump_for
  pump p = pump_for (length p.queue) p

  unfoldable pub place : QueuedTask → WorkerPool V → Option (ℕ × WorkerPool V) → WorkerPool V
  place t p (some (w, q)) = dispatch pump w t q
  place t p none =
      if leb p.max_queue_depth (length p.queue)
      then answer t.caller (queue_full (length p.queue)) p
      else record p { queue = p.queue ++ t ∷ [] }

  unfoldable pub run : QueuedTask → WorkerPool V → WorkerPool V
  unfolding acquire_worker place
  run t p =
      if not (is_open p.state)
      then answer t.caller (pool_closed p.state) p
      else place t p (acquire_worker p)

  abbrev pub outcome : Bool → V → Answer V
  outcome true value = resolved value
  outcome false value = task_error value

  -- The listener of a worker's messages, that of its timer, and that of its `error` and `exit`. The
  -- helper of each takes what the worker holds.
  unfoldable pub reply :
      ℕ → ℕ → Answer V → Option (Option InFlightTask) → WorkerPool V → WorkerPool V
  reply w id a none p = p
  reply w id a (some none) p = p
  reply w id a (some (some t)) p = if t.id == id then release pump w (answered w t a p) else p

  unfoldable pub on_message : ℕ → ℕ → Bool → V → WorkerPool V → WorkerPool V
  unfolding reply
  on_message w id is_ok value p = reply w id (outcome is_ok value) (current_of w p.workers) p

  unfoldable pub expire : ℕ → ℕ → Option (Option InFlightTask) → WorkerPool V → WorkerPool V
  expire w id none p = p
  expire w id (some none) p = p
  expire w id (some (some t)) p = if t.id == id then retire pump w (answered w t timed_out p) else p

  unfoldable pub on_timeout : ℕ → ℕ → WorkerPool V → WorkerPool V
  unfolding expire
  on_timeout w id p = expire w id (current_of w p.workers) p

  unfoldable pub lose : ℕ → Option (Option InFlightTask) → WorkerPool V → WorkerPool V
  lose w none p = p
  lose w (some none) p = retire pump w p
  lose w (some (some t)) p = retire pump w (answered w t crashed p)

  unfoldable pub on_worker_failure : ℕ → WorkerPool V → WorkerPool V
  unfolding lose
  on_worker_failure w p = lose w (current_of w p.workers) p

  unfoldable pub begin_draining : Drained → WorkerPool V → WorkerPool V
  unfolding settle_drain_if_idle
  begin_draining not_asked p =
      settle_drain_if_idle (record p { state = draining; drained = pending })
  begin_draining pending p = p
  begin_draining settled p = p

  unfoldable pub drain : WorkerPool V → WorkerPool V
  unfolding begin_draining
  drain p = if is_closed p.state then p else begin_draining p.drained p

  abbrev pub refusals : List ℕ → List (ℕ × Answer V)
  refusals [] = []
  refusals (c ∷ cs) = (c, pool_closed closed) ∷ refusals cs

  -- The queue is refused, and then the tasks at work.
  unfoldable pub terminate : WorkerPool V → WorkerPool V
  terminate p = if is_closed p.state then p else record p {
    state = closed;
    queue = [];
    workers = [];
    idle = [];
    answers = p.answers ++ refusals (queued_callers p.queue ++ busy_callers (busy p.workers));
  }

  unfoldable pub resolve_drained : Drained → WorkerPool V → WorkerPool V
  resolve_drained pending p = if is_closed p.state then record p { drained = settled } else p
  resolve_drained not_asked p = p
  resolve_drained settled p = p

  -- `resolveDrainedIfPending`, once the threads that a closed pool left are gone.
  unfoldable pub on_destroyed : WorkerPool V → WorkerPool V
  unfolding resolve_drained
  on_destroyed p = resolve_drained p.drained p
