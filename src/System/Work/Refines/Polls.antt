-- ===== src/System/Work/Refines/Polls.antt =====
-- A poll of the outbox, as a run of the system.
use global_ledger_consistenc.Base.{
  ℕ, ◌+◌, String, Bool, true, false, ◌≡◌, refl, Option, none, some, List, [], ◌∷◌, arith, length,
}
use global_ledger_consistenc.Table.{get, key_of-get}
use global_ledger_consistenc.Contracts.{ConsistencyMode}
use global_ledger_consistenc.Orm.{OutboxEvent, Db, event_keyed}
use global_ledger_consistenc.Externals.{Externals}
use global_ledger_consistenc.Session.{Session, Result, ok, err, ◌>>=◌, ◌>>◌, raise_if, pure}
use global_ledger_consistenc.Session.Transaction.{Conditions}
use global_ledger_consistenc.Session.Entries.{EntryDraws}
use global_ledger_consistenc.Worker.{
  Raised, Metrics, WorkerAction, FailureInjectorPort, worker, exception,
}
use global_ledger_consistenc.Worker.Payload.{EventPayload, parse_payload}
use global_ledger_consistenc.Worker.Handlers.{process}
use global_ledger_consistenc.Worker.Processor.{
  Surroundings, kill_event, retry_event, process_found, attempt, recover, process_event_by_id,
  process_all, acquire_event_ids, process_available_events, handle_permanent_failure,
  handle_transient_failure, permanent_body, transient_body, attempt_body, acquire_body, retry_delay,
  lift, violated,
}
use global_ledger_consistenc.System.Steps.{Reach, here, next, leased, retried, killed, Reach-trans}
use global_ledger_consistenc.System.Intake.{fresh}
use global_ledger_consistenc.System.Intake.Commits.{OthersReach}
use global_ledger_consistenc.System.Work.Refines.{
  Lands, err-Lands, ok-Lands, process-Lands, unit-Reach,
}

-- What `get` finds it finds again by the row's own id.
loaded_again :
    (id : String) (event : OutboxEvent) (events : List OutboxEvent)
    → get id events ≡ some event
    → get event.id events ≡ some event
loaded_again id event events h = ground (arith, key_of-get id event events h, h)

module _ {lib : Externals} {A B : Type 0} (k : A → WorkerAction B) where
  result-Reach :
      (r : Result Raised A) (s : Session Metrics)
      → ((a : A) (s : Session Metrics) → Reach lib s.committed (k a s).1.committed)
      → Reach lib s.committed (((λ _. (r, s)) >>= k) s).1.committed
  result-Reach (ok a) s then_k = then_k a s
  result-Reach (err e) s then_k = here

  -- One action after another: a raise stops the run where it is.
  bind-Reach :
      (m : WorkerAction A) (s : Session Metrics)
      → Reach lib s.committed (m s).1.committed
      → ((a : A) (s : Session Metrics) → Reach lib s.committed (k a s).1.committed)
      → Reach lib s.committed ((m >>= k) s).1.committed
  bind-Reach m s r then_k = Reach-trans r (result-Reach (m s).0 (m s).1 then_k)

guard-Lands :
    {lib : Externals} (c : Conditions) {db : Db} (b : Bool) (k : WorkerAction (Unit {0}))
    (m : Metrics)
    → Lands lib c db (k (fresh db m))
    → Lands lib c db ((raise_if b exception >> k) (fresh db m))
guard-Lands {lib} c true k m h = err-Lands (Unit {0}) c exception (fresh _ m) refl
guard-Lands c false k m h = h

module _ (lib : Externals) where
  kill-Lands :
      (c : Conditions) (id : String) (db : Db) (m : Metrics) (o : Option OutboxEvent)
      → get id db.outbox_events ≡ o
      → Lands lib c db (kill_event o (fresh db m))
  unfolding kill_event
  kill-Lands c id db m none h = ok-Lands c tt db db m here
  kill-Lands c id db m (some e) h =
      ok-Lands c tt db _ (violated m)
        (next here (killed e db (loaded_again id e db.outbox_events h)))

  retry-Lands :
      (c : Conditions) (now : ℕ) (id : String) (db : Db) (m : Metrics) (o : Option OutboxEvent)
      → get id db.outbox_events ≡ o
      → Lands lib c db (retry_event now o (fresh db m))
  unfolding retry_event
  retry-Lands c now id db m none h = ok-Lands c tt db db m here
  retry-Lands c now id db m (some e) h = ok-Lands c tt db _ _ (
      next here
        (retried e (now + retry_delay e.attempts) db (loaded_again id e db.outbox_events h)))

  module _ (mode : ConsistencyMode) (injector : FailureInjectorPort) where
    recover-Reach :
        (e : Surroundings) (id : String) (r : Result Raised (Unit {0})) (s : Session Metrics)
        → OthersReach lib e.on_failure
        → Reach lib s.committed (recover lib mode injector e id (r, s)).1.committed
    unfolding recover handle_permanent_failure handle_transient_failure
    recover-Reach e id (ok done) s calm = here
    recover-Reach e id (err (worker w)) s calm =
        unit-Reach e.on_failure (permanent_body id) s calm
          (kill-Lands e.on_failure id _ s.metrics _ refl)
    recover-Reach e id (err exception) s calm =
        unit-Reach e.on_failure (transient_body e.failed_at id) s calm
          (retry-Lands e.on_failure e.failed_at id _ s.metrics _ refl)

    abbrev simulated : EntryDraws → OutboxEvent → EventPayload → WorkerAction (Unit {0})
    simulated d e p =
        raise_if (injector.should_fail_redis_simulation e.id (e.attempts + 1)) exception
        >> process d e p mode

    -- What `_process_event` does once the payload is read.
    abbrev guarded : EntryDraws → OutboxEvent → EventPayload → WorkerAction (Unit {0})
    guarded d e p =
        raise_if (injector.should_raise_worker_exception e.id (e.attempts + 1)) exception
        >> simulated d e p

    parsed-Lands :
        (c : Conditions) (d : EntryDraws) (db : Db) (m : Metrics) (e : OutboxEvent)
        (r : Result Raised EventPayload)
        → get e.id db.outbox_events ≡ some e
        → parse_payload lib e.payload_json ≡ r
        → Lands lib c db ((lift r >>= guarded d e) (fresh db m))
    parsed-Lands c d db m e (err x) h q = err-Lands (Unit {0}) c x (fresh db m) refl
    parsed-Lands c d db m e (ok p) h q =
        guard-Lands c (injector.should_raise_worker_exception e.id (e.attempts + 1))
          (simulated d e p) m
          (guard-Lands c (injector.should_fail_redis_simulation e.id (e.attempts + 1))
            (process d e p mode) m (process-Lands lib c d e p db m h q mode))

    found-Lands :
        (c : Conditions) (d : EntryDraws) (id : String) (db : Db) (m : Metrics)
        (o : Option OutboxEvent)
        → get id db.outbox_events ≡ o
        → Lands lib c db (process_found lib mode injector d o (fresh db m))
    unfolding process_found
    found-Lands c d id db m none h = ok-Lands c tt db db m here
    found-Lands c d id db m (some e) h =
        parsed-Lands c d db m e (parse_payload lib e.payload_json)
          (loaded_again id e db.outbox_events h) refl

    event-Reach :
        (e : Surroundings) (id : String) (s : Session Metrics)
        → OthersReach lib e.during
        → OthersReach lib e.on_failure
        → Reach lib s.committed (process_event_by_id lib mode injector e id s).1.committed
    unfolding process_event_by_id attempt
    event-Reach e id s during after =
        Reach-trans
          (unit-Reach e.during (attempt_body lib mode injector e.draws id) s during
            (found-Lands e.during e.draws id _ s.metrics _ refl))
          (recover-Reach e id (attempt lib mode injector e id s).0
            (attempt lib mode injector e id s).1 after)

    all-Reach :
        (e : String → Surroundings) (ids : List String) (s : Session Metrics)
        → ((id : String) → OthersReach lib (e id).during)
        → ((id : String) → OthersReach lib (e id).on_failure)
        → Reach lib s.committed (process_all lib mode injector e ids s).1.committed
    unfolding process_all
    all-Reach e [] s during after = here
    all-Reach e (id ∷ ids) s during after =
        bind-Reach (λ _. process_all lib mode injector e ids)
          (process_event_by_id lib mode injector (e id) id) s
          (event-Reach (e id) id s (during id) (after id)) (λ _ s'. all-Reach e ids s' during after)

    acquire-Reach :
        (c : Conditions) (now processing_timeout : ℕ) (locked : String → Bool) (batch_size : ℕ)
        (s : Session Metrics)
        → OthersReach lib c
        → Reach lib s.committed
            (acquire_event_ids lib mode injector c now processing_timeout locked batch_size
              s).1.committed
    unfolding acquire_event_ids
    acquire-Reach c now timeout locked size s calm =
        unit-Reach c (acquire_body lib mode injector now timeout locked size) s calm (
          ok-Lands {A = List String} c _ (c.others s.committed) _ s.metrics
            (next here (leased now timeout size locked (c.others s.committed))))

-- A poll of the worker commits a run of the system's steps, whichever events it takes and however the
-- processing of each ends, if what other processes commit meanwhile is such a run.
pub process_available_events-Reach :
    (lib : Externals) (mode : ConsistencyMode) (injector : FailureInjectorPort) (c : Conditions)
    (now processing_timeout : ℕ) (locked : String → Bool) (e : String → Surroundings)
    (batch_size : ℕ) (s : Session Metrics)
    → OthersReach lib c
    → ((id : String) → OthersReach lib (e id).during)
    → ((id : String) → OthersReach lib (e id).on_failure)
    → Reach lib s.committed
        (process_available_events lib mode injector c now processing_timeout locked e batch_size
          s).1.committed
unfolding process_available_events
process_available_events-Reach lib mode injector c now timeout locked e size s calm during after =
    bind-Reach (λ ids. process_all lib mode injector e ids >> pure (length ids))
      (acquire_event_ids lib mode injector c now timeout locked size) s
      (acquire-Reach lib mode injector c now timeout locked size s calm)
      (λ ids s'.
        bind-Reach (λ _. pure (length ids)) (process_all lib mode injector e ids) s'
          (all-Reach lib mode injector e ids s' during after) (λ _ s''. here))
