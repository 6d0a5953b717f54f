-- ===== src/Worker/Outbox.antt =====
-- ledger_worker/repositories/outbox_repository.py. Times are microseconds.
pub mod Untouched
pub mod Leases
pub mod Holds
pub mod Order
use Prim.Native.Nat.{compare, Ordering}
use global_ledger_consistenc.Base.{
  ℕ, suc, ◌+◌, String, Bool, true, false, not, ◌&&◌, ◌||◌, Option, none, some, List, [], ◌∷◌, leb,
  ltb, take, if◌then◌else◌,
}
use global_ledger_consistenc.Table.{modify}
use global_ledger_consistenc.Contracts.{OutboxStatus, pending, processing, processed, dead}
use global_ledger_consistenc.Orm.{OutboxEvent, Db, event_keyed}
use global_ledger_consistenc.Externals.{Externals}

-- `next_retry_at IS NULL OR next_retry_at <= now`
abbrev pub is_due : ℕ → Option ℕ → Bool
is_due now none = true
is_due now (some at) = leb at now

abbrev pub is_claimable : OutboxStatus → Bool
is_claimable pending = true
is_claimable processing = true
is_claimable _ = false

-- The `WHERE` clause: both arms of the `or_` have the same second condition.
unfoldable pub is_eligible : ℕ → OutboxEvent → Bool
is_eligible now e = is_claimable e.status && is_due now e.next_retry_at

abbrev pub leased : ℕ → OutboxEvent → OutboxEvent
leased until e = record e { status = processing; next_retry_at = some until }

-- `mark_processed`
unfoldable pub mark_processed : OutboxEvent → OutboxEvent
mark_processed e = record e { status = processed; next_retry_at = none }

-- `mark_retry`
unfoldable pub mark_retry : ℕ → OutboxEvent → OutboxEvent
mark_retry next_retry_at e =
    if leb 7 (e.attempts + 1)
    then record e { attempts = e.attempts + 1; status = dead; next_retry_at = none }
    else record e {
      attempts = e.attempts + 1;
      status = pending;
      next_retry_at = some next_retry_at;
    }

abbrev pub in_event : String → (OutboxEvent → OutboxEvent) → Db → Db
in_event id f db = record db { outbox_events = modify id f db.outbox_events }

-- The loop over the batch.
unfoldable pub lease_all : ℕ → List OutboxEvent → Db → Db
lease_all until [] db = db
lease_all until (e ∷ batch) db = lease_all until batch (in_event e.id (leased until) db)

module _ (lib : Externals) where
  -- `ORDER BY created_at ASC, id ASC`
  unfoldable pub sorts_before : OutboxEvent → OutboxEvent → Bool
  sorts_before a b = elim (compare a.created_at b.created_at) [
    | Ordering.lt ↦ true
    | Ordering.eq ↦ lib.collates_before a.id b.id
    | Ordering.gt ↦ false
  ]

  unfoldable pub insert_sorted : OutboxEvent → List OutboxEvent → List OutboxEvent
  unfolding sorts_before
  insert_sorted a [] = a ∷ []
  insert_sorted a (b ∷ rest) = if sorts_before b a then b ∷ insert_sorted a rest else a ∷ b ∷ rest

  module _ (now : ℕ) (locked : String → Bool) where
    -- The eligible rows in order; `SKIP LOCKED` leaves out those another transaction holds.
    unfoldable pub eligible_rows : List OutboxEvent → List OutboxEvent
    unfolding insert_sorted is_eligible
    eligible_rows [] = []
    eligible_rows (e ∷ rows) =
        let rest = eligible_rows rows in
        if is_eligible now e && not (locked e.id) then insert_sorted e rest else rest

    -- The rows that `fetch_batch_for_processing` returns.
    unfoldable pub batch_rows : ℕ → Db → List OutboxEvent
    unfolding eligible_rows
    batch_rows batch_size db = take batch_size (eligible_rows db.outbox_events)

    -- What `fetch_batch_for_processing` writes.
    unfoldable pub fetch_batch_for_processing : ℕ → ℕ → Db → Db
    unfolding batch_rows lease_all
    fetch_batch_for_processing batch_size processing_timeout db =
        lease_all (now + processing_timeout) (batch_rows batch_size db) db
