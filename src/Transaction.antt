-- ===== src/Transaction.antt =====
-- src/db/transaction.ts. The server and the pool are one `D`; a connection is taken, sent statements and
-- given back by functions that are given. The callback is a `Script`: it ends, or it sends a statement and
-- goes on by the rows or the error that come back. The parameters of a statement are part of its text.
-- `notes` is the trace of a run, the latest first: what was sent, and the error that it was answered with.
-- What the callback sends is `asked`, and what the transaction itself sends is `sent`.
pub mod Retry
mod Notes
mod Commits
mod Attempts
mod Tests
use boilerplate_express_ts.Prelude.{
  ℕ, zero, suc, ◌+◌, Bool, true, false, Option, none, some, List, [], ◌∷◌, ◌++◌, if◌then◌else◌,
  Text, text_eq, codes, print,
}

-- `DatabaseError`, with its `code`, and other errors.
pub data Thrown : Type 0 where
  database : Option Text → Thrown
  failure : Text → Thrown
  range_error : Thrown

pub data Completion (A : Type 0) : Type 0 where
  fulfilled : A → Completion A
  rejected : Thrown → Completion A

-- What a statement is answered with, without its rows.
abbrev pub error_of : {A : Type 0} → Completion A → Option Thrown
error_of (fulfilled a) = none
error_of (rejected e) = some e

abbrev pub without_rows : {A : Type 0} → Completion A → Completion Unit
without_rows (fulfilled a) = fulfilled tt
without_rows (rejected e) = rejected e

abbrev pub is_fulfilled : {A : Type 0} → Completion A → Bool
is_fulfilled (fulfilled a) = true
is_fulfilled (rejected e) = false

-- What `pg` does.
pub record Driver (D R : Type 0) : Type 0 where
  pub connect : D → D × Completion Unit
  pub query : Text → D → D × Completion (List R)
  pub release : D → D

pub data Note : Type 0 where
  connected released called : Note
  sent asked : Text → Option Thrown → Note
  paused : ℕ → Note

pub record Pool (D : Type 0) : Type 0 where
  pub database : D
  pub notes : List Note

-- A callback, given its `TransactionClient`.
pub data Script (R T : Type 0) : Type 0 where
  done : Completion T → Script R T
  ask : Text → (Completion (List R) → Script R T) → Script R T

-- `await`: an error of the first part ends the whole.
unfoldable pub and_then : {R A B : Type 0} → Script R A → (A → Script R B) → Script R B
and_then (done (fulfilled a)) f = f a
and_then (done (rejected e)) f = done (rejected e)
and_then (ask sql k) f = ask sql (λ r. and_then (k r) f)

-- The methods of the client.
abbrev pub query : {R : Type 0} → Text → Script R (List R)
query sql = ask sql done

abbrev pub first_row : {R : Type 0} → List R → Option R
first_row [] = none
first_row (row ∷ rows) = some row

abbrev pub query_one : {R : Type 0} → Text → Script R (Option R)
query_one sql = and_then (query sql) (λ rows. done (fulfilled (first_row rows)))

-- `parseInt` of the column `count` is `count_of`.
abbrev pub counted : {R : Type 0} → (R → ℕ) → Option R → ℕ
counted count_of none = 0
counted count_of (some row) = count_of row

abbrev pub query_count : {R : Type 0} → (R → ℕ) → Text → Script R ℕ
query_count count_of sql = and_then (query_one sql) (λ row. done (fulfilled (counted count_of row)))

pub data IsolationLevel : Type 0 where
  read_committed repeatable_read serializable : IsolationLevel

pub record TransactionOptions : Type 0 where
  pub isolation_level : Option IsolationLevel
  pub lock_timeout_ms : Option ℕ
  pub deadlock_timeout_ms : Option ℕ

-- `ISOLATION_SQL`.
abbrev pub isolation_sql : IsolationLevel → Text
isolation_sql read_committed = codes "READ COMMITTED"
isolation_sql repeatable_read = codes "REPEATABLE READ"
isolation_sql serializable = codes "SERIALIZABLE"

abbrev pub begin_for : Option IsolationLevel → Text
begin_for none = codes "BEGIN"
begin_for (some level) = codes "BEGIN ISOLATION LEVEL " ++ isolation_sql level

unfoldable pub begin_statement : TransactionOptions → Text
begin_statement options = begin_for options.isolation_level

abbrev pub setting : Text → Option ℕ → List Text
setting name none = []
setting name (some ms) =
    (codes "SET LOCAL " ++ name ++ codes " = '" ++ print ms ++ codes "ms'") ∷ []

-- The numbers are whole and not negative, so that nothing is thrown.
unfoldable pub local_setting_statements : TransactionOptions → List Text
local_setting_statements options =
    setting (codes "lock_timeout") options.lock_timeout_ms
    ++ setting (codes "deadlock_timeout") options.deadlock_timeout_ms

abbrev pub commit : Text
commit = codes "COMMIT"

abbrev pub statements : TransactionOptions → List Text
statements options = begin_statement options ∷ local_setting_statements options

module _ {D R : Type 0} (driver : Driver D R) where
  abbrev pub send : Text → Pool D → Pool D × Completion Unit
  send sql p =
      let (next, r) = driver.query sql p.database in
      (record { database = next; notes = sent sql (error_of r) ∷ p.notes }, without_rows r)

  -- Statements in turn, until one is rejected.
  unfoldable pub send_each : List Text → Pool D → Pool D × Completion Unit
  send_each [] p = (p, fulfilled tt)
  send_each (sql ∷ more) p =
      let (next, r) = send sql p in
      elim r [ fulfilled _ ↦ send_each more next | rejected e ↦ (next, rejected e) ]

  abbrev pub release : Pool D → Pool D
  release p = record { database = driver.release p.database; notes = released ∷ p.notes }

module _ {D R T : Type 0} (driver : Driver D R) where
  -- The callback, once the transaction is begun.
  unfoldable pub run_script : Script R T → Pool D → Pool D × Completion T
  run_script (done r) p = (p, r)
  run_script (ask sql k) p =
      let (next, r) = driver.query sql p.database in
      run_script (k r) (record { database = next; notes = asked sql (error_of r) ∷ p.notes })

  abbrev pub call : Script R T → Pool D × Completion Unit → Pool D × Completion T
  call fn (p, rejected e) = (p, rejected e)
  call fn (p, fulfilled _) = run_script fn (record p { notes = called ∷ p.notes })

  abbrev pub answer_with : T → Completion Unit → Completion T
  answer_with v (fulfilled _) = fulfilled v
  answer_with v (rejected e) = rejected e

  unfoldable pub finish : Pool D × Completion T → Pool D × Completion T
  finish (p, rejected e) = (p, rejected e)
  finish (p, fulfilled v) = let (next, r) = send driver commit p in (next, answer_with v r)

  -- The `catch` and the `finally`: an error of the rollback is dropped.
  unfoldable pub close : Pool D × Completion T → Pool D × Completion T
  close (p, fulfilled v) = (release driver p, fulfilled v)
  close (p, rejected e) = (release driver (send driver (codes "ROLLBACK") p).0, rejected e)

  unfoldable pub in_connection : Script R T → TransactionOptions → Pool D → Pool D × Completion T
  unfolding send_each run_script finish close
  in_connection fn options p = close (finish (call fn (send_each driver (statements options) p)))

  -- `connect` stands before the `try`: an error of it releases nothing.
  unfoldable pub with_transaction : Script R T → TransactionOptions → Pool D → Pool D × Completion T
  unfolding in_connection
  with_transaction fn options p =
      let (next, r) = driver.connect p.database in
      elim r [
        | fulfilled _ ↦
            in_connection fn options (record { database = next; notes = connected ∷ p.notes })
        | rejected e ↦ (record p { database = next }, rejected e)
      ]
