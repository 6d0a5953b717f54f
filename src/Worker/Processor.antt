-- ===== src/Worker/Processor.antt =====
-- `WorkerProcessor` of ledger_worker/services/processor.py: one poll of the outbox. Each method that
-- opens a session is one unit of work; other processes may commit between two of them.
use Prim.Native.Nat.{min}
use global_ledger_consistenc.Base.{
  ℕ, ◌+◌, ◌*◌, ◌^◌, String, Bool, Option, none, some, List, [], ◌∷◌, map, length, if◌then◌else◌,
}
use global_ledger_consistenc.Table.{get}
use global_ledger_consistenc.Contracts.{ConsistencyMode, dead}
use global_ledger_consistenc.Orm.{OutboxEvent, event_keyed}
use global_ledger_consistenc.Externals.{Externals}
use global_ledger_consistenc.Ledger.{is_dead}
use global_ledger_consistenc.Session.{
  Session, Result, ok, err, pure, raise_if, read, update, count, ◌>>=◌, ◌>>◌,
}
use global_ledger_consistenc.Session.Transaction.{Conditions, begin}
use global_ledger_consistenc.Session.Entries.{EntryDraws}
use global_ledger_consistenc.Worker.{
  Raised, worker, exception, Metrics, WorkerAction, FailureInjectorPort,
}
use global_ledger_consistenc.Worker.Payload.{parse_payload}
use global_ledger_consistenc.Worker.Outbox.{
  in_event, mark_retry, batch_rows, fetch_batch_for_processing,
}
use global_ledger_consistenc.Worker.Handlers.{process}

-- `self.session_factory()`: a session that sees what is committed by now.
abbrev pub open_session : Conditions → WorkerAction (Unit {0})
open_session c s =
    (ok tt, record s { committed = c.others s.committed; db = c.others s.committed; pending = [] })

-- One unit of work of the worker; a failing database raises no `WorkerError`.
unfoldable pub unit_of_work : {A : Type 0} → Conditions → WorkerAction A → WorkerAction A
unfolding begin
unit_of_work c body = do open_session c; begin exception exception c body

abbrev pub failed_once : Metrics → Metrics
failed_once m = record m { outbox_retry = m.outbox_retry + 1 }

abbrev pub violated : Metrics → Metrics
violated m = record m { invariant_violation = m.invariant_violation + 1 }

abbrev pub kill : OutboxEvent → OutboxEvent
kill e = record e { status = dead; next_retry_at = none }

unfoldable pub kill_event : Option OutboxEvent → WorkerAction (Unit {0})
kill_event none = pure tt
kill_event (some event) = do update (in_event event.id kill); count violated

-- The `with` block of `_handle_permanent_failure`.
abbrev pub permanent_body : String → WorkerAction (Unit {0})
permanent_body event_id = do db ← read; kill_event (get event_id db.outbox_events)

-- `_handle_permanent_failure`
unfoldable pub handle_permanent_failure : Conditions → String → WorkerAction (Unit {0})
unfolding unit_of_work kill_event
handle_permanent_failure c event_id = unit_of_work c (permanent_body event_id)

-- `2 ** min(event.attempts + 1, 6)` seconds, in microseconds.
unfoldable pub retry_delay : ℕ → ℕ
retry_delay attempts = 2 ^ min (attempts + 1) 6 * 1_000_000

unfoldable pub retry_event : ℕ → Option OutboxEvent → WorkerAction (Unit {0})
unfolding retry_delay mark_retry
retry_event now none = pure tt
retry_event now (some event) = do
  let at = now + retry_delay event.attempts
  update (in_event event.id (mark_retry at))
  count (if is_dead (mark_retry at event).status then (λ m. m) else failed_once)

-- The `with` block of `_handle_transient_failure`.
abbrev pub transient_body : ℕ → String → WorkerAction (Unit {0})
transient_body now event_id = do db ← read; retry_event now (get event_id db.outbox_events)

-- `_handle_transient_failure`
unfoldable pub handle_transient_failure : Conditions → ℕ → String → WorkerAction (Unit {0})
unfolding unit_of_work retry_event
handle_transient_failure c now event_id = unit_of_work c (transient_body now event_id)

abbrev pub lift : {A : Type 0} → Result Raised A → WorkerAction A
lift r s = (r, s)

-- What surrounds the processing of one event: the database during it and during the handling of a
-- failure, what it draws, and the clock when a failure is handled.
pub record Surroundings : Type 0 where
  pub during : Conditions
  pub on_failure : Conditions
  pub draws : EntryDraws
  pub failed_at : ℕ

module _ (lib : Externals) (mode : ConsistencyMode) (injector : FailureInjectorPort) where
  -- `_process_event`
  unfoldable pub process_event : EntryDraws → OutboxEvent → WorkerAction (Unit {0})
  unfolding process parse_payload
  process_event d event = do
    payload ← lift (parse_payload lib event.payload_json)
    raise_if (injector.should_raise_worker_exception event.id (event.attempts + 1)) exception
    raise_if (injector.should_fail_redis_simulation event.id (event.attempts + 1)) exception
    process d event payload mode

  unfoldable pub process_found : EntryDraws → Option OutboxEvent → WorkerAction (Unit {0})
  unfolding process_event
  process_found d none = pure tt
  process_found d (some event) = process_event d event

  abbrev pub attempt_body : EntryDraws → String → WorkerAction (Unit {0})
  attempt_body d event_id = do db ← read; process_found d (get event_id db.outbox_events)

  -- The `with` block of `_process_event_by_id`.
  unfoldable pub attempt : Surroundings → String → WorkerAction (Unit {0})
  unfolding unit_of_work process_found
  attempt e event_id = unit_of_work e.during (attempt_body e.draws event_id)

  -- Its two `except` clauses.
  unfoldable pub recover :
      Surroundings
      → String
      → Result Raised (Unit {0}) × Session Metrics
      → Result Raised (Unit {0}) × Session Metrics
  unfolding handle_permanent_failure handle_transient_failure
  recover e event_id (ok done, s) = (ok done, s)
  recover e event_id (err (worker w), s) = handle_permanent_failure e.on_failure event_id s
  recover e event_id (err exception, s) =
      handle_transient_failure e.on_failure e.failed_at event_id s

  -- `_process_event_by_id`
  unfoldable pub process_event_by_id : Surroundings → String → WorkerAction (Unit {0})
  unfolding attempt recover
  process_event_by_id e event_id s = recover e event_id (attempt e event_id s)

  -- The loop of `process_available_events`.
  unfoldable pub process_all : (String → Surroundings) → List String → WorkerAction (Unit {0})
  unfolding process_event_by_id
  process_all e [] = pure tt
  process_all e (event_id ∷ event_ids) = do
    process_event_by_id (e event_id) event_id
    process_all e event_ids

  abbrev pub acquire_body : ℕ → ℕ → (String → Bool) → ℕ → WorkerAction (List String)
  acquire_body now processing_timeout locked batch_size = do
    db ← read
    let batch = batch_rows lib now locked batch_size db
    update (fetch_batch_for_processing lib now locked batch_size processing_timeout)
    pure (map (λ e. e.id) batch)

  -- `_acquire_event_ids`; `locked` are the rows that another transaction holds.
  unfoldable pub acquire_event_ids :
      Conditions → ℕ → ℕ → (String → Bool) → ℕ → WorkerAction (List String)
  unfolding unit_of_work batch_rows fetch_batch_for_processing
  acquire_event_ids c now processing_timeout locked batch_size =
      unit_of_work c (acquire_body now processing_timeout locked batch_size)

  -- `process_available_events`
  unfoldable pub process_available_events :
      Conditions → ℕ → ℕ → (String → Bool) → (String → Surroundings) → ℕ → WorkerAction ℕ
  unfolding acquire_event_ids process_all
  process_available_events c now processing_timeout locked e batch_size = do
    event_ids ← acquire_event_ids c now processing_timeout locked batch_size
    process_all e event_ids
    pure (length event_ids)
