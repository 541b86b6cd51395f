-- ===== src/Transaction/Tests.antt =====
-- Runs of src/db/retry-transaction.ts. The server is the number of deadlocks that it still detects.
use boilerplate_express_ts.Prelude.{
  ℕ, zero, suc, ◌+◌, Text, if◌then◌else◌, List, ◌≡◌, refl, true, Option, none, some, [], ◌∷◌, codes,
  text_eq, print,
}
use boilerplate_express_ts.Transaction.{
  database, Completion, failure, commit, Script, done, and_then, query_one, query_count, counted,
  fulfilled, rejected, Driver, Pool, TransactionOptions, serializable, begin_statement,
  local_setting_statements, with_transaction,
}
use boilerplate_express_ts.Transaction.Retry.{
  deadlock_detected, retryable_sqlstates, lock_not_available, is_contention_error, defaults,
  with_retryable_transaction,
}
use boilerplate_express_ts.Transaction.Commits.{IsOneTransaction, with_transaction-IsOneTransaction}

-- The statement `"work"` meets a deadlock while one is left, and answers with two rows.
abbrev answer : Text → ℕ → ℕ × Completion (List ℕ)
answer sql zero = (zero, fulfilled (5 ∷ 6 ∷ []))
answer sql (suc d) =
    if text_eq sql (codes "work")
    then (d, rejected (database (some deadlock_detected)))
    else (suc d, fulfilled [])

abbrev driver : Driver ℕ ℕ
driver = record { connect = λ d. (d, fulfilled tt); query = answer; release = λ d. d }

abbrev work : ℕ → Script ℕ ℕ
work attempt =
    and_then (query_one (codes "work")) (λ row. done (fulfilled (attempt + counted (λ n. n) row)))

-- A connection that is lost while the COMMIT is in flight.
abbrev lost : Driver ℕ ℕ
lost = record driver {
  query = λ sql d.
      if text_eq sql commit
      then (d, rejected (failure (codes "ECONNRESET")))
      else (d, fulfilled []);
}

abbrev chosen : TransactionOptions
chosen = record {
  isolation_level = some serializable;
  lock_timeout_ms = some 500;
  deadlock_timeout_ms = none;
}

abbrev pool : ℕ → Pool ℕ
pool d = record { database = d; notes = [] }

abbrev answer_of : Option (Pool ℕ × Completion ℕ) → Option (Completion ℕ)
answer_of none = none
answer_of (some (p, r)) = some r

third_attempt :
    answer_of (with_retryable_transaction driver work (defaults chosen) (λ n. 0) (pool 2))
    ≡ some (fulfilled 8)
unfolding with_retryable_transaction local_setting_statements text_eq and_then begin_statement
third_attempt = refl

too_many :
    answer_of (with_retryable_transaction driver work (defaults chosen) (λ n. 0) (pool 3))
    ≡ some (rejected (database (some deadlock_detected)))
unfolding with_retryable_transaction local_setting_statements text_eq and_then begin_statement
too_many = refl

begin_chosen : begin_statement chosen ≡ codes "BEGIN ISOLATION LEVEL SERIALIZABLE"
unfolding begin_statement
begin_chosen = refl

settings_chosen : local_setting_statements chosen ≡ codes "SET LOCAL lock_timeout = '500ms'" ∷ []
unfolding local_setting_statements print
settings_chosen = refl

lock_timeout_contends : is_contention_error (database (some lock_not_available)) ≡ true
unfolding is_contention_error text_eq
lock_timeout_contends = refl

-- What was lost is not tried again.
lost_commit :
    answer_of (with_retryable_transaction lost work (defaults chosen) (λ n. 0) (pool 0))
    ≡ some (rejected (failure (codes "ECONNRESET")))
unfolding with_retryable_transaction local_setting_statements text_eq and_then begin_statement
lost_commit = refl

count_rows :
    (with_transaction driver (query_count (λ n. n) (codes "count")) chosen (pool 0)).1 ≡ fulfilled 5
unfolding with_transaction and_then local_setting_statements
count_rows = refl

one_transaction :
    IsOneTransaction driver retryable_sqlstates
      (pool 1)
      (with_transaction driver (work 1) chosen (pool 1))
one_transaction =
    with_transaction-IsOneTransaction driver retryable_sqlstates (work 1) chosen (pool 1)
