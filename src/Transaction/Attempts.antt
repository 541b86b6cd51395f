-- ===== src/Transaction/Attempts.antt =====
-- src/db/retry-transaction.ts: the attempts at one transaction.
use boilerplate_express_ts.Prelude.{ℕ, suc, ◌+◌, ◌≤◌, ◌≡◌, ◌⊎◌, Bool, false, not, Option, some}
use boilerplate_express_ts.Transaction.{Completion, Script, error_of, is_fulfilled, Driver, Pool}
use boilerplate_express_ts.Transaction.Retry.{RetryOptions}
use boilerplate_express_ts.Transaction.Notes.{
  may_retry_after, landed_in, commits_in, connections_in, releases_in, calls_in, pauses_in, one_if,
}

module _ {D R T : Type 0} (driver : Driver D R) (fn : ℕ → Script R T) (options : RetryOptions)
    (random : ℕ → ℕ) where
  -- An error after which another attempt is worth it.
  abbrev pub may_retry : Completion T → Bool
  may_retry r = may_retry_after options.retry_on (error_of r)

  -- How `more` further attempts end at most.
  pub record IsRun (more : ℕ) (p : Pool D) (r : Pool D × Completion T) : Type 0 where
    pub frees :
        connections_in r.0.notes + releases_in p.notes
        ≡ connections_in p.notes + releases_in r.0.notes
    pub commits : commits_in r.0.notes ≡ one_if (is_fulfilled r.1) + commits_in p.notes
    pub lands :
        landed_in options.retry_on r.0.notes
        ≤ one_if (not (may_retry r.1)) + landed_in options.retry_on p.notes
    pub calls : calls_in r.0.notes ≤ suc more + calls_in p.notes
    pub pauses : pauses_in r.0.notes ≤ more + pauses_in p.notes
    pub exhausts : (may_retry r.1 ≡ false) ⊎ (pauses_in r.0.notes ≡ more + pauses_in p.notes)

  abbrev pub Ends : ℕ → Pool D → Option (Pool D × Completion T) → Type 0
  Ends more p o = (r : Pool D × Completion T) × ((o ≡ some r) × IsRun more p r)
