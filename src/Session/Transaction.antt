-- ===== src/Session/Transaction.antt =====
-- `with session.begin():`, and the surroundings of one unit of work.
use global_ledger_consistenc.Base.{Bool, none, some, [], if◌then◌else◌}
use global_ledger_consistenc.Orm.{Db}
use global_ledger_consistenc.Orm.Flush.{flush}
use global_ledger_consistenc.Session.{Session, Action, Result, ok, err, rollback}

-- What the database does to one unit of work: whether it answers, what other units of work commit
-- between the unit's first read and its row locks, and whether the commit itself goes through.
pub record Conditions : Type 0 where
  pub reachable : Bool
  pub others : Db → Db
  pub commits : Bool

module _ {M E A : Type 0} (integrity unavailable : E) (c : Conditions) where
  -- The end of the block: an exception rolls back; otherwise the flush and the commit follow.
  unfoldable pub leave : Result E A × Session M → Result E A × Session M
  leave (err e, s) = (err e, rollback s)
  leave (ok a, s) = elim (flush s.pending s.db) [
    | none ↦ (err integrity, rollback s)
    | some db' ↦
        if c.commits
        then (ok a, record s { committed = db'; db = db'; pending = [] })
        else (err unavailable, rollback s)
  ]

  unfoldable pub begin : Action M E A → Action M E A
  unfolding leave
  begin body s = if c.reachable then leave (body s) else (err unavailable, rollback s)

-- The other units of work commit; under READ COMMITTED the next statement sees it.
unfoldable pub let_others_commit : {M E : Type 0} → Conditions → Action M E (Unit {0})
let_others_commit c s = (ok tt, record s { committed = c.others s.committed; db = c.others s.db })
