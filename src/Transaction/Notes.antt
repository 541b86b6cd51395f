-- ===== src/Transaction/Notes.antt =====
-- src/db/transaction.ts and src/db/retry-transaction.ts: what is counted of a trace.
use boilerplate_express_ts.Prelude.{
  ℕ, suc, ◌+◌, ◌≤◌, ◌≡◌, refl, Bool, true, false, not, ◌&&◌, Option, none, some, Text, List, [],
  ◌∷◌, if◌then◌else◌, text_eq, arith,
}
use boilerplate_express_ts.Transaction.{
  Thrown, Note, connected, released, called, sent, paused, commit,
}
use boilerplate_express_ts.Transaction.Retry.{state_among, sql_state_of}

-- An answer after which a transaction may be tried again, with one of the given SQLSTATEs.
abbrev pub may_retry_after : List Text → Option Thrown → Bool
may_retry_after states none = false
may_retry_after states (some err) = state_among (sql_state_of err) states

abbrev pub is_acknowledged : Option Thrown → Bool
is_acknowledged none = true
is_acknowledged (some err) = false

-- The COMMITs of the transactions themselves that were acknowledged.
abbrev pub commits_in : List Note → ℕ
commits_in [] = 0
commits_in (sent sql answer ∷ notes) =
    (if text_eq sql commit && is_acknowledged answer then 1 else 0) + commits_in notes
commits_in (_ ∷ notes) = commits_in notes

-- Those that may have landed: they were acknowledged, or their error does not say that the transaction
-- was rolled back.
abbrev pub landed_in : List Text → List Note → ℕ
landed_in states [] = 0
landed_in states (sent sql answer ∷ notes) =
    (if text_eq sql commit && not (may_retry_after states answer) then 1 else 0)
    + landed_in states notes
landed_in states (_ ∷ notes) = landed_in states notes

abbrev pub connections_in : List Note → ℕ
connections_in [] = 0
connections_in (connected ∷ notes) = suc (connections_in notes)
connections_in (_ ∷ notes) = connections_in notes

abbrev pub releases_in : List Note → ℕ
releases_in [] = 0
releases_in (released ∷ notes) = suc (releases_in notes)
releases_in (_ ∷ notes) = releases_in notes

abbrev pub calls_in : List Note → ℕ
calls_in [] = 0
calls_in (called ∷ notes) = suc (calls_in notes)
calls_in (_ ∷ notes) = calls_in notes

abbrev pub pauses_in : List Note → ℕ
pauses_in [] = 0
pauses_in (paused ms ∷ notes) = suc (pauses_in notes)
pauses_in (_ ∷ notes) = pauses_in notes

abbrev pub one_if : Bool → ℕ
one_if b = if b then 1 else 0

-- From one trace to a later one: the connections taken, those given back, the acknowledged COMMITs, and at
-- most the COMMITs that may have landed and the calls.
pub record Adds (states : List Text) (before after : List Note) (opened freed done landed ran : ℕ)
    : Type 0 where
  pub opens : connections_in after ≡ opened + connections_in before
  pub frees : releases_in after ≡ freed + releases_in before
  pub commits : commits_in after ≡ done + commits_in before
  pub lands : landed_in states after ≤ landed + landed_in states before
  pub calls : calls_in after ≤ ran + calls_in before
  pub pauses : pauses_in after ≡ pauses_in before

pub nothing : (states : List Text) (a : List Note) → Adds states a a 0 0 0 0 0
nothing states a = record {
  opens = omega arith;
  frees = omega arith;
  commits = omega arith;
  lands = omega arith;
  calls = omega arith;
  pauses = refl;
}

pub Adds-trans :
    (states : List Text) (a b c : List Note) (o f d l r o' f' d' l' r' : ℕ)
    → Adds states a b o f d l r
    → Adds states b c o' f' d' l' r'
    → Adds states a c (o + o') (f + f') (d + d') (l + l') (r + r')
Adds-trans states a b c o f d l r o' f' d' l' r' x y = record {
  opens = omega (arith, x.opens, y.opens);
  frees = omega (arith, x.frees, y.frees);
  commits = omega (arith, x.commits, y.commits);
  lands = omega (arith, x.lands, y.lands);
  calls = omega (arith, x.calls, y.calls);
  pauses = omega (arith, x.pauses, y.pauses);
}
