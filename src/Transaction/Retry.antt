-- ===== src/Transaction/Retry.antt =====
-- src/db/retry-transaction.ts, with the codes of src/db/locking.ts. The fuel is the number of attempts, and
-- `random n` is the draw after attempt `n`.
use boilerplate_express_ts.Prelude.{
  ℕ, zero, suc, Bool, false, not, ◌||◌, Option, none, some, List, [], ◌∷◌, leb, if◌then◌else◌, Text,
  text_eq, codes,
}
use boilerplate_express_ts.Backoff.{full_jitter_delay}
use boilerplate_express_ts.Transaction.{
  Thrown, database, failure, range_error, Completion, Script, fulfilled, rejected, Driver, paused,
  Pool, TransactionOptions, with_transaction,
}

abbrev pub deadlock_detected : Text
deadlock_detected = codes "40P01"

abbrev pub serialization_failure : Text
serialization_failure = codes "40001"

abbrev pub lock_not_available : Text
lock_not_available = codes "55P03"

-- `RETRYABLE_SQLSTATES`.
abbrev pub retryable_sqlstates : List Text
retryable_sqlstates = deadlock_detected ∷ serialization_failure ∷ []

abbrev pub is_among : Text → List Text → Bool
is_among t [] = false
is_among t (x ∷ xs) = text_eq t x || is_among t xs

unfoldable pub sql_state_of : Thrown → Option Text
sql_state_of (database code) = code
sql_state_of (failure message) = none
sql_state_of range_error = none

abbrev pub state_among : Option Text → List Text → Bool
state_among none states = false
state_among (some state) states = is_among state states

unfoldable pub is_contention_error : Thrown → Bool
unfolding sql_state_of
is_contention_error err =
    state_among (sql_state_of err)
      (deadlock_detected ∷ serialization_failure ∷ lock_not_available ∷ [])

pub record RetryOptions : Type 0 where
  pub attempts : ℕ
  pub base_delay_ms : ℕ
  pub max_delay_ms : ℕ
  pub retry_on : List Text
  pub transaction : TransactionOptions

abbrev pub defaults : TransactionOptions → RetryOptions
defaults transaction = record {
  attempts = 3;
  base_delay_ms = 25;
  max_delay_ms = 250;
  retry_on = retryable_sqlstates;
  transaction = transaction;
}

module _ {D R T : Type 0} (driver : Driver D R) (fn : ℕ → Script R T) (options : RetryOptions)
    (random : ℕ → ℕ) where
  -- The error is thrown as it is.
  unfoldable pub gives_up : ℕ → Thrown → Bool
  unfolding sql_state_of
  gives_up attempt err =
      leb options.attempts attempt || not (state_among (sql_state_of err) options.retry_on)

  abbrev pub sleep : ℕ → Pool D → Pool D
  sleep attempt p = record p {
    notes =
        paused
          (full_jitter_delay attempt options.base_delay_ms options.max_delay_ms (random attempt))
        ∷ p.notes;
  }

  -- The loop from an attempt on; `none` is an end of the fuel.
  unfoldable pub attempt_from : ℕ → ℕ → Pool D → Option (Pool D × Completion T)
  unfolding with_transaction gives_up
  attempt_from zero attempt p = none
  attempt_from (suc fuel) attempt p =
      let (next, r) = with_transaction driver (fn attempt) options.transaction p in
      let rest = attempt_from fuel (suc attempt) (sleep attempt next) in
      elim r [
        | fulfilled v ↦ some (next, fulfilled v)
        | rejected err ↦ if gives_up attempt err then some (next, rejected err) else rest
      ]

  unfoldable pub with_retryable_transaction : Pool D → Option (Pool D × Completion T)
  unfolding attempt_from
  with_retryable_transaction p =
      let tried = attempt_from options.attempts 1 p in
      if leb 1 options.attempts then tried else some (p, rejected range_error)
