-- ===== src/System/Progress/Ends.antt =====
-- One event of processor.py, processed again until it is closed.
use global_ledger_consistenc.Base.{
  suc, ◌+◌, ◌≤◌, ◌<◌, String, Bool, false, ◌≡◌, refl, sym, subst, ap, ◌∙◌, none, some, List, [],
  ◌∷◌, arith, inl, inr, ◌⊎◌, Bool-cases, if◌then◌else◌, All, length,
}
use global_ledger_consistenc.Table.{get, key_of-get}
use global_ledger_consistenc.Contracts.{ConsistencyMode}
use global_ledger_consistenc.Orm.{OutboxEvent, Db, event_keyed}
use global_ledger_consistenc.Externals.{Externals}
use global_ledger_consistenc.Ledger.{is_open}
use global_ledger_consistenc.Session.{Session, Result}
use global_ledger_consistenc.Worker.{Raised, Metrics, FailureInjectorPort}
use global_ledger_consistenc.Worker.Processor.{
  Surroundings, attempt, process_event_by_id, unit_of_work,
}
use global_ledger_consistenc.System.Intake.{fresh}
use global_ledger_consistenc.System.Progress.Attempts.{
  IsUndisturbed, Advances, process_event_by_id-IsAdvanced,
}

pub record IsCalm (e : Surroundings) : Type 0 where
  pub during : IsUndisturbed e.during
  pub on_failure : IsUndisturbed e.on_failure

-- Whether the event with this id is there and still open.
abbrev pub is_open_at : String → Db → Bool
is_open_at id db = elim (get id db.outbox_events) [ none ↦ false | some e ↦ is_open e.status ]

-- The event is processed again, each time it is due, until it is no longer open: what the polls of a
-- worker do to one event.
unfoldable pub process_until_closed :
    Externals
    → ConsistencyMode
    → FailureInjectorPort
    → String
    → List Surroundings
    → Session Metrics
    → Session Metrics
unfolding process_event_by_id
process_until_closed lib mode injector id [] s = s
process_until_closed lib mode injector id (e ∷ es) s =
    let rest =
      process_until_closed lib mode injector id es
        (process_event_by_id lib mode injector e id s).1 in
    if is_open_at id s.committed then rest else s

-- Enough rounds are left for what the event has on record.
abbrev Closes : OutboxEvent → List Surroundings → Type 0
Closes e es = (is_open e.status ≡ false) ⊎ ((e.attempts < 7) × (7 ≤ e.attempts + length es))

module _ (lib : Externals) (mode : ConsistencyMode) (injector : FailureInjectorPort)
    (id : String) where
  still_enough :
      (event event' : OutboxEvent) (es : List Surroundings)
      → 7 ≤ event.attempts + suc (length es)
      → Advances event event'
      → Closes event' es
  still_enough event event' es enough (inl closed) = inl closed
  still_enough event event' es enough (inr (more, few)) = inr (few, omega arith)

  -- A unit of work begins with what is committed.
  restart :
      (e : Surroundings) (s : Session Metrics)
      → process_event_by_id lib mode injector e id s
        ≡ process_event_by_id lib mode injector e id (fresh s.committed s.metrics)
  unfolding process_event_by_id attempt unit_of_work
  restart e s = refl

  round-Closes :
      (e : Surroundings) (es : List Surroundings) (s : Session Metrics) (event : OutboxEvent)
      → IsCalm e
      → get id s.committed.outbox_events ≡ some event
      → event.attempts < 7
      → 7 ≤ event.attempts + length (e ∷ es)
      → (event' : OutboxEvent) × (get id
            (process_event_by_id lib mode injector e id s).1.committed.outbox_events
          ≡ some event')
        × Closes event' es
  round-Closes e es s event calm found few enough =
      let same = key_of-get id event s.committed.outbox_events found in
      let loaded : get event.id s.committed.outbox_events ≡ some event =
        ap (λ j. get j s.committed.outbox_events) same ∙ found in
      let (event', found', _id, advanced) =
        subst
          (λ j.
            (x : OutboxEvent) × (get j
                (process_event_by_id lib mode injector e j
                  (fresh s.committed s.metrics)).1.committed.outbox_events
              ≡ some x)
            × (x.id ≡ j)
            × Advances event x)
          same
          (process_event_by_id-IsAdvanced lib mode injector event s.committed loaded e s.metrics
            calm.during calm.on_failure) in
      (
        event',
        subst
            (λ (x : Result Raised (Unit {0}) × Session Metrics).
              get id x.1.committed.outbox_events ≡ some event')
            (sym (restart e s)) found',
        still_enough event event' es enough advanced,
      )

  closes :
      (es : List Surroundings) (s : Session Metrics) (event : OutboxEvent)
      → All IsCalm es
      → get id s.committed.outbox_events ≡ some event
      → Closes event es
      → is_open_at id (process_until_closed lib mode injector id es s).committed ≡ false
  unfolding process_until_closed
  closes [] s event calm found (inl closed) = ground (arith, found, closed)
  closes [] s event calm found (inr (few, enough)) = absurd (omega arith)
  closes (e ∷ es) s event calm found h = elim (Bool-cases (is_open event.status)) [
    | inr closed ↦ ground (arith, found, closed)
    | inl open_one ↦ elim h [
      | inl closed ↦ ground (arith, open_one, closed)
      | inr (few, enough) ↦
          let (event', found', h') = round-Closes e es s event calm.0 found few enough in
          ground (
            arith,
            found,
            open_one,
            closes es (process_event_by_id lib mode injector e id s).1 event' calm.1 found' h',
          )
    ]
  ]

  -- An event with fewer than seven attempts on record is closed, processed or dead, once it has been
  -- taken as often as it has attempts left, in any mode and whatever the injector decides, if the
  -- database answers and commits and nobody else writes meanwhile.
  pub process_until_closed-ends :
      (es : List Surroundings) (s : Session Metrics) (event : OutboxEvent)
      → All IsCalm es
      → get id s.committed.outbox_events ≡ some event
      → event.attempts < 7
      → 7 ≤ event.attempts + length es
      → is_open_at id (process_until_closed lib mode injector id es s).committed ≡ false
  process_until_closed-ends es s event calm found few enough =
      closes es s event calm found (inr (few, enough))
