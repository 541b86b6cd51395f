-- ===== src/Transaction/Commits.antt =====
-- src/db/transaction.ts: what one transaction adds to the trace.
use boilerplate_express_ts.Prelude.{
  ℕ, ◌+◌, ◌≤◌, ◌≡◌, refl, Bool, false, not, Option, none, some, List, [], ◌∷◌, Text, text_eq, codes,
  All, All-append, arith,
}
use boilerplate_express_ts.Transaction.{
  Completion, fulfilled, rejected, error_of, without_rows, is_fulfilled, Driver, Note, connected,
  sent, asked, Pool, Script, done, ask, IsolationLevel, TransactionOptions, begin_for,
  begin_statement, setting, local_setting_statements, commit, statements, send, send_each,
  run_script, call, answer_with, finish, close, in_connection, with_transaction,
}
use boilerplate_express_ts.Transaction.Notes.{
  may_retry_after, commits_in, landed_in, connections_in, releases_in, calls_in, pauses_in, one_if,
  Adds, nothing, Adds-trans,
}

module _ {D R : Type 0} (driver : Driver D R) (states : List Text) where
  send_other-Adds :
      (sql : Text) (p : Pool D)
      → text_eq sql commit ≡ false
      → Adds states p.notes (send driver sql p).0.notes 0 0 0 0 0
  send_other-Adds sql p other = record {
    opens = omega arith;
    frees = omega arith;
    commits = rw other (omega arith);
    lands = rw other (omega arith);
    calls = omega arith;
    pauses = omega arith;
  }

  on_reply :
      (a : List Note) (r : Completion Unit) (next : Pool D) (more : Pool D × Completion Unit)
      → Adds states a next.notes 0 0 0 0 0
      → Adds states next.notes more.0.notes 0 0 0 0 0
      → Adds states a
          (elim r as (λ _. Pool D × Completion Unit) [
            | fulfilled _ ↦ more
            | rejected e ↦ (next, rejected e)
          ]).0.notes
          0
          0
          0
          0
          0
  on_reply a (fulfilled u) next more x y =
      Adds-trans states a next.notes more.0.notes 0 0 0 0 0 0 0 0 0 0 x y
  on_reply a (rejected e) next more x y = x

  send_each-Adds :
      (sqls : List Text) (p : Pool D)
      → All (λ sql. text_eq sql commit ≡ false) sqls
      → Adds states p.notes (send_each driver sqls p).0.notes 0 0 0 0 0
  unfolding send_each
  send_each-Adds [] p all = nothing states p.notes
  send_each-Adds (sql ∷ more) p all =
      let (next, r) = send driver sql p in
      on_reply p.notes r next (send_each driver more next) (send_other-Adds sql p all.0)
        (send_each-Adds more next all.1)

setting_other :
    (name : Text) (ms : Option ℕ) → All (λ sql. text_eq sql commit ≡ false) (setting name ms)
unfolding text_eq
setting_other name none = tt
setting_other name (some ms) = (refl, tt)

begin_other : (level : Option IsolationLevel) → text_eq (begin_for level) commit ≡ false
unfolding text_eq
begin_other none = refl
begin_other (some level) = refl

statements_other :
    (options : TransactionOptions) → All (λ sql. text_eq sql commit ≡ false) (statements options)
unfolding begin_statement local_setting_statements
statements_other options = (
  begin_other options.isolation_level,
  All-append (λ sql. text_eq sql commit ≡ false)
      (setting (codes "lock_timeout") options.lock_timeout_ms)
      (setting (codes "deadlock_timeout") options.deadlock_timeout_ms)
      (setting_other (codes "lock_timeout") options.lock_timeout_ms)
      (setting_other (codes "deadlock_timeout") options.deadlock_timeout_ms),
)

module _ {D R T : Type 0} (driver : Driver D R) (states : List Text) where
  run_script-Adds :
      (fn : Script R T) (p : Pool D)
      → Adds states p.notes (run_script driver fn p).0.notes 0 0 0 0 0
  unfolding run_script
  run_script-Adds (done r) p = nothing states p.notes
  run_script-Adds (ask sql k) p =
      let (next, r) = driver.query sql p.database in
      let rest =
        run_script-Adds (k r)
          (record { database = next; notes = asked sql (error_of r) ∷ p.notes }) in
      record {
        opens = rest.opens;
        frees = rest.frees;
        commits = rest.commits;
        lands = rest.lands;
        calls = rest.calls;
        pauses = rest.pauses;
      }

  call-Adds :
      (fn : Script R T) (r : Pool D × Completion Unit)
      → Adds states r.0.notes (call driver fn r).0.notes 0 0 0 0 1
  call-Adds fn (p, fulfilled u) =
      let rest = run_script-Adds fn (record p { notes = Note.called ∷ p.notes }) in
      record {
        opens = omega (arith, rest.opens);
        frees = omega (arith, rest.frees);
        commits = omega (arith, rest.commits);
        lands = omega (arith, rest.lands);
        calls = omega (arith, rest.calls);
        pauses = omega (arith, rest.pauses);
      }
  call-Adds fn (p, rejected e) = record {
    opens = omega arith;
    frees = omega arith;
    commits = omega arith;
    lands = omega arith;
    calls = omega arith;
    pauses = omega arith;
  }

  -- The error of an answer may be tried again after.
  abbrev pub may_retry : Completion T → Bool
  may_retry r = may_retry_after states (error_of r)

  -- A COMMIT lands, at most, when its error is not one to try again after.
  committed :
      (v : T) (r : Completion (List R)) (notes : List Note)
      → Adds states notes
          (sent commit (error_of r) ∷ notes)
          0
          0
          (one_if (is_fulfilled (answer_with driver v (without_rows r))))
          (one_if (not (may_retry (answer_with driver v (without_rows r)))))
          0
  unfolding text_eq
  committed v (fulfilled u) notes = record {
    opens = omega arith;
    frees = omega arith;
    commits = omega arith;
    lands = omega arith;
    calls = omega arith;
    pauses = omega arith;
  }
  committed v (rejected e) notes = record {
    opens = omega arith;
    frees = omega arith;
    commits = omega arith;
    lands = omega arith;
    calls = omega arith;
    pauses = omega arith;
  }

  finish-Adds :
      (r : Pool D × Completion T)
      → Adds states r.0.notes
          (finish driver r).0.notes
          0
          0
          (one_if (is_fulfilled (finish driver r).1))
          (one_if (not (may_retry (finish driver r).1)))
          0
  unfolding finish
  finish-Adds (p, rejected e) = record {
    opens = omega arith;
    frees = omega arith;
    commits = omega arith;
    lands = omega arith;
    calls = omega arith;
    pauses = omega arith;
  }
  finish-Adds (p, fulfilled v) = committed v (driver.query commit p.database).1 p.notes

  close-Adds :
      (r : Pool D × Completion T) → Adds states r.0.notes (close driver r).0.notes 0 1 0 0 0
  unfolding close text_eq
  close-Adds (p, fulfilled v) = record {
    opens = omega arith;
    frees = omega arith;
    commits = omega arith;
    lands = omega arith;
    calls = omega arith;
    pauses = omega arith;
  }
  close-Adds (p, rejected e) = record {
    opens = omega arith;
    frees = omega arith;
    commits = omega arith;
    lands = omega arith;
    calls = omega arith;
    pauses = omega arith;
  }

  close-answer : (r : Pool D × Completion T) → (close driver r).1 ≡ r.1
  unfolding close
  close-answer (p, fulfilled v) = refl
  close-answer (p, rejected e) = refl

  in_connection-Adds :
      (fn : Script R T) (options : TransactionOptions) (p : Pool D)
      → Adds states p.notes
          (in_connection driver fn options p).0.notes
          0
          1
          (one_if (is_fulfilled (in_connection driver fn options p).1))
          (one_if (not (may_retry (in_connection driver fn options p).1)))
          1
  unfolding in_connection
  in_connection-Adds fn options p =
      let begun = send_each driver (statements options) p in
      let ran = call driver fn begun in
      let ended = finish driver ran in
      let a = send_each-Adds driver states (statements options) p (statements_other options) in
      let b = call-Adds fn begun in
      let c = finish-Adds ran in
      let d = close-Adds ended in
      rw (close-answer ended) (record {
        opens = omega (arith, a.opens, b.opens, c.opens, d.opens);
        frees = omega (arith, a.frees, b.frees, c.frees, d.frees);
        commits = omega (arith, a.commits, b.commits, c.commits, d.commits);
        lands = omega (arith, a.lands, b.lands, c.lands, d.lands);
        calls = omega (arith, a.calls, b.calls, c.calls, d.calls);
        pauses = omega (arith, a.pauses, b.pauses, c.pauses, d.pauses);
      })

  -- What one transaction does to the trace.
  pub record IsOneTransaction (p : Pool D) (r : Pool D × Completion T) : Type 0 where
    pub frees :
        connections_in r.0.notes + releases_in p.notes
        ≡ connections_in p.notes + releases_in r.0.notes
    pub commits : commits_in r.0.notes ≡ one_if (is_fulfilled r.1) + commits_in p.notes
    pub lands : landed_in states r.0.notes ≤ one_if (not (may_retry r.1)) + landed_in states p.notes
    pub calls : calls_in r.0.notes ≤ 1 + calls_in p.notes
    pub pauses : pauses_in r.0.notes ≡ pauses_in p.notes

  connected-IsOneTransaction :
      (fn : Script R T) (options : TransactionOptions) (p : Pool D) (next : D) (r : Completion Unit)
      → IsOneTransaction p (elim r as (λ _. Pool D × Completion T) [
        | fulfilled _ ↦
            in_connection driver fn options
              (record { database = next; notes = connected ∷ p.notes })
        | rejected e ↦ (record p { database = next }, rejected e)
      ])
  connected-IsOneTransaction fn options p next (rejected e) = record {
    frees = omega arith;
    commits = omega arith;
    lands = omega arith;
    calls = omega arith;
    pauses = omega arith;
  }
  connected-IsOneTransaction fn options p next (fulfilled u) =
      let taken : Pool D = record { database = next; notes = connected ∷ p.notes } in
      let a = in_connection-Adds fn options taken in
      record {
        frees = omega (arith, a.opens, a.frees);
        commits = a.commits;
        lands = a.lands;
        calls = a.calls;
        pauses = a.pauses;
      }

  -- A transaction gives back every connection that it took, and runs its callback once at most. Of the
  -- COMMITs that it sends itself, one is acknowledged when it is fulfilled and none when it is rejected; and
  -- when it is rejected with one of the given SQLSTATEs, none was answered in any other way than by such an
  -- error. One that is rejected otherwise may have sent a COMMIT whose outcome is not known.
  pub with_transaction-IsOneTransaction :
      (fn : Script R T) (options : TransactionOptions) (p : Pool D)
      → IsOneTransaction p (with_transaction driver fn options p)
  unfolding with_transaction
  with_transaction-IsOneTransaction fn options p =
      let (next, r) = driver.connect p.database in connected-IsOneTransaction fn options p next r
