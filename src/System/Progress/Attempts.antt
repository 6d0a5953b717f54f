-- ===== src/System/Progress/Attempts.antt =====
-- What one attempt of processor.py at an event leaves of it.
use global_ledger_consistenc.Base.{
  ℕ, suc, ◌+◌, ◌<◌, Bool, true, false, ◌≡◌, refl, sym, subst, some, arith, eq_refl, inl, inr, ◌⊎◌,
  Bool-cases, leb,
}
use global_ledger_consistenc.Table.{get, get-modify}
use global_ledger_consistenc.Contracts.{ConsistencyMode}
use global_ledger_consistenc.Orm.{OutboxEvent, Db, event_keyed}
use global_ledger_consistenc.Orm.Flush.{flush}
use global_ledger_consistenc.Externals.{Externals}
use global_ledger_consistenc.Ledger.{is_open}
use global_ledger_consistenc.Session.{Session, Result, ok, err, raise_if, ◌>>=◌, ◌>>◌}
use global_ledger_consistenc.Session.Transaction.{Conditions, begin, leave}
use global_ledger_consistenc.Session.Entries.{EntryDraws}
use global_ledger_consistenc.Worker.{
  Raised, Metrics, WorkerAction, FailureInjectorPort, worker, exception,
}
use global_ledger_consistenc.Worker.Payload.{EventPayload, parse_payload}
use global_ledger_consistenc.Worker.Outbox.{in_event, mark_processed, mark_retry}
use global_ledger_consistenc.Worker.Handlers.{process}
use global_ledger_consistenc.Worker.Processor.{
  Surroundings, kill, kill_event, retry_event, retry_delay, process_event, process_found, attempt,
  recover, process_event_by_id, handle_permanent_failure, handle_transient_failure, unit_of_work,
  attempt_body, permanent_body, transient_body, lift,
}
use global_ledger_consistenc.System.Intake.{fresh}
use global_ledger_consistenc.System.Progress.{Marks, Marked, leave-Marked, process-Marks}

-- The database answers and commits, and nobody else writes meanwhile.
pub record IsUndisturbed (c : Conditions) : Type 0 where
  pub reachable : c.reachable ≡ true
  pub commits : c.commits ≡ true
  pub others : (db : Db) → c.others db ≡ db

unit_undisturbed :
    {A : Type 0} (c : Conditions) (body : WorkerAction A) (s : Session Metrics)
    → IsUndisturbed c
    → unit_of_work c body s ≡ leave exception exception c (body (fresh s.committed s.metrics))
unfolding unit_of_work begin
unit_undisturbed c body s u = rw (u.others s.committed, u.reachable) refl

module _ (lib : Externals) (mode : ConsistencyMode) (injector : FailureInjectorPort)
    (event : OutboxEvent) (db : Db) (loaded : get event.id db.outbox_events ≡ some event) where
  guard-Marks :
      (b : Bool) (k : WorkerAction (Unit {0})) (m : Metrics)
      → Marks event db (k (fresh db m))
      → Marks event db ((raise_if b exception >> k) (fresh db m))
  guard-Marks true k m h = refl
  guard-Marks false k m h = h

  abbrev simulated : EntryDraws → EventPayload → WorkerAction (Unit {0})
  simulated d p =
      raise_if (injector.should_fail_redis_simulation event.id (event.attempts + 1)) exception
      >> process d event p mode

  abbrev guarded : EntryDraws → EventPayload → WorkerAction (Unit {0})
  guarded d p =
      raise_if (injector.should_raise_worker_exception event.id (event.attempts + 1)) exception
      >> simulated d p

  parsed-Marks :
      (d : EntryDraws) (r : Result Raised EventPayload) (m : Metrics)
      → Marks event db ((lift r >>= guarded d) (fresh db m))
  parsed-Marks d (err e) m = refl
  parsed-Marks d (ok p) m =
      guard-Marks (injector.should_raise_worker_exception event.id (event.attempts + 1))
        (simulated d p) m
        (guard-Marks (injector.should_fail_redis_simulation event.id (event.attempts + 1))
          (process d event p mode) m (process-Marks d event p db m loaded mode))

  attempt-Marked :
      (e : Surroundings) (m : Metrics)
      → IsUndisturbed e.during
      → Marked event db (attempt lib mode injector e event.id (fresh db m))
  unfolding attempt process_found process_event
  attempt-Marked e m u =
      subst (Marked event db)
        (sym (
          unit_undisturbed e.during (attempt_body lib mode injector e.draws event.id) (fresh db m)
            u))
        (subst
          (λ o. Marked event db (
            leave exception exception e.during
              (process_found lib mode injector e.draws o (fresh db m))))
          (sym loaded)
          (leave-Marked event db e.during _ _
            (parsed-Marks e.draws (parse_payload lib event.payload_json) m)))

  -- The end of a unit of work that changed the event alone.
  killed_lem :
      (c : Conditions) (m : Metrics)
      → IsUndisturbed c
      → (leave exception exception c (permanent_body event.id (fresh db m))).1.committed
        ≡ in_event event.id kill db
  unfolding leave flush kill_event
  killed_lem c m u = rw (loaded, u.commits) refl

  retried_lem :
      (c : Conditions) (now : ℕ) (m : Metrics)
      → IsUndisturbed c
      → (leave exception exception c (transient_body now event.id (fresh db m))).1.committed
        ≡ in_event event.id (mark_retry (now + retry_delay event.attempts)) db
  unfolding leave flush retry_event
  retried_lem c now m u = rw (loaded, u.commits) refl

-- What has become of the event: it is processed or dead, or it waits with one more attempt on record.
abbrev pub Advances : OutboxEvent → OutboxEvent → Type 0
Advances e e' = (is_open e'.status ≡ false) ⊎ ((e'.attempts ≡ suc e.attempts) × (e'.attempts < 7))

abbrev pub IsAdvanced : OutboxEvent → Db → Type 0
IsAdvanced event db =
    (e : OutboxEvent) × (get event.id db.outbox_events ≡ some e)
    × (e.id ≡ event.id)
    × Advances event e

mark_retry-Advances :
    (at : ℕ) (e : OutboxEvent) → ((mark_retry at e).id ≡ e.id) × Advances e (mark_retry at e)
unfolding mark_retry
mark_retry-Advances at e = elim (Bool-cases (leb 7 (e.attempts + 1))) [
  | inl h ↦ (rw h refl, inl (rw h refl))
  | inr h ↦ (rw h refl, inr (ground (arith, h), ground (arith, h)))
]

module _ (lib : Externals) (mode : ConsistencyMode) (injector : FailureInjectorPort)
    (event : OutboxEvent) (db : Db) (loaded : get event.id db.outbox_events ≡ some event) where
  changed :
      (f : OutboxEvent → OutboxEvent)
      → ((e : OutboxEvent) → (f e).id ≡ e.id)
      → get event.id (in_event event.id f db).outbox_events ≡ some (f event)
  changed f keep =
      ground (arith, loaded, eq_refl event.id, get-modify event.id event.id f db.outbox_events keep)

  failed-IsAdvanced :
      (c : Conditions) (body : WorkerAction (Unit {0})) (f : OutboxEvent → OutboxEvent)
      (s : Session Metrics)
      → IsUndisturbed c
      → s.committed ≡ db
      → ((leave exception exception c (body (fresh db s.metrics))).1.committed
          ≡ in_event event.id f db)
      → ((e : OutboxEvent) → ((f e).id ≡ e.id) × Advances e (f e))
      → IsAdvanced event (unit_of_work c body s).1.committed
  failed-IsAdvanced c body f s u same done advances =
      subst (λ (x : Result Raised (Unit {0}) × Session Metrics). IsAdvanced event x.1.committed)
        (sym (unit_undisturbed c body s u))
        (subst
          (λ x.
            IsAdvanced event (leave exception exception c (body (fresh x s.metrics))).1.committed)
          (sym same)
          (subst (IsAdvanced event) (sym done)
            (f event, changed f (λ e. (advances e).0), (advances event).0, (advances event).1)))

  recover-IsAdvanced :
      (e : Surroundings) (r : Result Raised (Unit {0})) (s : Session Metrics)
      → IsUndisturbed e.on_failure
      → Marked event db (r, s)
      → IsAdvanced event (recover lib mode injector e event.id (r, s)).1.committed
  unfolding recover handle_permanent_failure handle_transient_failure mark_processed
  recover-IsAdvanced e (ok done) s u h = (mark_processed event, h, refl, inl refl)
  recover-IsAdvanced e (err (worker w)) s u h =
      failed-IsAdvanced e.on_failure (permanent_body event.id) kill s u h
        (killed_lem lib mode injector event db loaded e.on_failure s.metrics u)
        (λ x. (refl, inl refl))
  recover-IsAdvanced e (err exception) s u h =
      let at = e.failed_at + retry_delay event.attempts in
      failed-IsAdvanced e.on_failure (transient_body e.failed_at event.id) (mark_retry at) s u h
        (retried_lem lib mode injector event db loaded e.on_failure e.failed_at s.metrics u)
        (mark_retry-Advances at)

  pub process_event_by_id-IsAdvanced :
      (e : Surroundings) (m : Metrics)
      → IsUndisturbed e.during
      → IsUndisturbed e.on_failure
      → IsAdvanced event (process_event_by_id lib mode injector e event.id (fresh db m)).1.committed
  unfolding process_event_by_id
  process_event_by_id-IsAdvanced e m u u' =
      recover-IsAdvanced e _ _ u' (attempt-Marked lib mode injector event db loaded e m u)
