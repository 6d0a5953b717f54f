-- ===== src/Worker/Outbox/Holds.antt =====
-- For how long `fetch_batch_for_processing` of outbox_repository.py keeps what it takes.
use global_ledger_consistenc.Base.{
  ℕ, ◌+◌, ◌≤◌, ◌<◌, String, Bool, true, false, ◌≡◌, refl, sym, ap, subst, ◌∙◌, Option, none, some,
  List, [], ◌∷◌, arith, ◌==◌, eq_iff, eq_refl, All, All-In, In, ◌⊎◌, inl, inr, Bool-cases,
  Option-cases,
}
use global_ledger_consistenc.Table.{get, get-modify}
use global_ledger_consistenc.Orm.{OutboxEvent, Db, event_keyed}
use global_ledger_consistenc.Externals.{Externals}
use global_ledger_consistenc.Worker.Outbox.{
  is_claimable, is_eligible, leased, mark_processed, mark_retry, in_event, lease_all, batch_rows,
  fetch_batch_for_processing,
}
use global_ledger_consistenc.Worker.Processor.{kill}
use global_ledger_consistenc.Worker.Outbox.Leases.{Passes, batch_rows-Passes}

-- What is done with the outbox: a poll, the closing of an event, its end by a permanent failure, the
-- retry of one that failed for once, or the insertion of a new one.
pub data Deed : Type 0 where
  polled : (now batch_size : ℕ) (locked : String → Bool) → Deed
  closed killed : (id : String) → Deed
  retried : (id : String) (next_retry_at : ℕ) → Deed
  added : OutboxEvent → Deed

-- One deed after another, by workers with the same processing timeout.
unfoldable pub after_deeds : Externals → ℕ → List Deed → Db → Db
unfolding fetch_batch_for_processing mark_processed mark_retry
after_deeds lib timeout [] db = db
after_deeds lib timeout (polled now batch_size locked ∷ deeds) db =
    after_deeds lib timeout deeds (fetch_batch_for_processing lib now locked batch_size timeout db)
after_deeds lib timeout (closed id ∷ deeds) db =
    after_deeds lib timeout deeds (in_event id mark_processed db)
after_deeds lib timeout (retried id at ∷ deeds) db =
    after_deeds lib timeout deeds (in_event id (mark_retry at) db)
after_deeds lib timeout (killed id ∷ deeds) db = after_deeds lib timeout deeds (in_event id kill db)
after_deeds lib timeout (added e ∷ deeds) db =
    after_deeds lib timeout deeds (record db { outbox_events = e ∷ db.outbox_events })

-- A poll is not earlier than the given time, and no retry or new event has this id.
abbrev pub IsSparing : ℕ → String → Deed → Type 0
IsSparing now id (polled later batch_size locked) = now ≤ later
IsSparing now id (closed j) = Unit
IsSparing now id (killed j) = Unit
IsSparing now id (added e) = (e.id == id) ≡ false
IsSparing now id (retried j at) = (j == id) ≡ false

-- The event found, if any, is closed or dead, or it is not due before the given time.
abbrev IsHeld : ℕ → Option OutboxEvent → Type 0
IsHeld until none = Unit
IsHeld until (some e) =
    (is_claimable e.status ≡ false) ⊎ ((at : ℕ) × ((e.next_retry_at ≡ some at) × (until ≤ at)))

held_refused :
    (until later : ℕ) (e : OutboxEvent)
    → IsHeld until (some e)
    → later < until
    → is_eligible later e ≡ false
unfolding is_eligible
held_refused until later e (inl closed_now) early = ground (arith, closed_now)
held_refused until later e (inr (at, (h, late))) early = ground (arith, h, late, early)

-- A change that leaves the event held keeps it held.
change-IsHeld :
    (until : ℕ) (j id : String) (f : OutboxEvent → OutboxEvent) (db : Db)
    → ((e : OutboxEvent) → (f e).id ≡ e.id)
    → ((e : OutboxEvent) → (j == id) ≡ true → IsHeld until (some (f e)))
    → IsHeld until (get id db.outbox_events)
    → IsHeld until (get id (in_event j f db).outbox_events)
change-IsHeld until j id f db keeps holds held =
    rw (get-modify j id f db.outbox_events keeps) (elim (Bool-cases (j == id)) [
      | inr other ↦ rw other held
      | inl same ↦ rw same (elim (Option-cases (get id db.outbox_events)) [
        | inl e ↦ rw e tt
        | inr (x, e) ↦ rw e (holds x same)
      ])
    ])

leased-IsHeld :
    (until later : ℕ) (e : OutboxEvent) → until ≤ later → IsHeld until (some (leased later e))
leased-IsHeld until later e h = inr (later, (refl, h))

lease_all-IsHeld :
    (until later : ℕ) (id : String) (batch : List OutboxEvent) (db : Db)
    → until ≤ later
    → IsHeld until (get id db.outbox_events)
    → IsHeld until (get id (lease_all later batch db).outbox_events)
unfolding lease_all
lease_all-IsHeld until later id [] db h held = held
lease_all-IsHeld until later id (e ∷ batch) db h held =
    lease_all-IsHeld until later id batch (in_event e.id (leased later) db) h (
      change-IsHeld until e.id id (leased later) db (λ x. refl)
        (λ x same. leased-IsHeld until later x h) held)

-- A lease holds every event of its batch.
lease_all_lem :
    (until : ℕ) (e : OutboxEvent) (batch : List OutboxEvent) (db : Db)
    → In e batch
    → IsHeld until (get e.id (lease_all until batch db).outbox_events)
unfolding lease_all
lease_all_lem until e [] db at = absurd at
lease_all_lem until e (x ∷ batch) db (inr at) =
    lease_all_lem until e batch (in_event x.id (leased until) db) at
lease_all_lem until e (x ∷ batch) db (inl same) =
    lease_all-IsHeld until until e.id batch (in_event x.id (leased until) db) (omega arith) (
      subst
        (λ (y : OutboxEvent).
          IsHeld until (get y.id (in_event x.id (leased until) db).outbox_events))
        (sym same)
        (rw (get-modify x.id x.id (leased until) db.outbox_events (λ y. refl), eq_refl x.id)
          (elim (Option-cases (get x.id db.outbox_events)) [
            | inl e ↦ rw e tt
            | inr (y, e) ↦ rw e (leased-IsHeld until until y (omega arith))
          ])))

mark_retry_id : (at : ℕ) (e : OutboxEvent) → (mark_retry at e).id ≡ e.id
unfolding mark_retry
mark_retry_id at e = ground arith

after_deeds-IsHeld :
    (lib : Externals) (now timeout : ℕ) (id : String) (deeds : List Deed) (db : Db)
    → All (IsSparing now id) deeds
    → IsHeld (now + timeout) (get id db.outbox_events)
    → IsHeld (now + timeout) (get id (after_deeds lib timeout deeds db).outbox_events)
unfolding after_deeds fetch_batch_for_processing mark_processed get
after_deeds-IsHeld lib now timeout id [] db sparing held = held
after_deeds-IsHeld lib now timeout id (polled later size locked ∷ deeds) db sparing held =
    after_deeds-IsHeld lib now timeout id deeds _ sparing.1 (
      lease_all-IsHeld (now + timeout) (later + timeout) id (batch_rows lib later locked size db) db
        (omega (arith, sparing.0)) held)
after_deeds-IsHeld lib now timeout id (closed j ∷ deeds) db sparing held =
    after_deeds-IsHeld lib now timeout id deeds _ sparing.1
      (change-IsHeld (now + timeout) j id mark_processed db (λ x. refl) (λ x same. inl refl) held)
after_deeds-IsHeld lib now timeout id (retried j at ∷ deeds) db sparing held =
    after_deeds-IsHeld lib now timeout id deeds _ sparing.1 (
      change-IsHeld (now + timeout) j id (mark_retry at) db (mark_retry_id at)
        (λ x same. absurd (ground (arith, same, sparing.0))) held)
after_deeds-IsHeld lib now timeout id (killed j ∷ deeds) db sparing held =
    after_deeds-IsHeld lib now timeout id deeds _ sparing.1
      (change-IsHeld (now + timeout) j id kill db (λ x. refl) (λ x same. inl refl) held)
after_deeds-IsHeld lib now timeout id (added e ∷ deeds) db sparing held =
    after_deeds-IsHeld lib now timeout id deeds _ sparing.1 (rw (get, sparing.0) held)

-- An event that a poll has taken is in no other batch before its processing timeout is over, whatever
-- polls that are not earlier and have the same timeout, closings and ends of any events, retries of
-- other events and insertions of other events come in between; the events of the later batch are the
-- ones found under their ids.
pub fetch_batch-excludes :
    (lib : Externals) (now timeout batch_size : ℕ) (locked : String → Bool) (db : Db)
    (deeds : List Deed) (later later_size : ℕ) (later_locked : String → Bool) (later_db : Db)
    (e x : OutboxEvent)
    → In e (batch_rows lib now locked batch_size db)
    → All (IsSparing now e.id) deeds
    → later_db
      ≡ after_deeds lib timeout deeds
          (fetch_batch_for_processing lib now locked batch_size timeout db)
    → later < now + timeout
    → In x (batch_rows lib later later_locked later_size later_db)
    → get x.id later_db.outbox_events ≡ some x
    → (x.id == e.id) ≡ false
unfolding fetch_batch_for_processing
fetch_batch-excludes lib now timeout batch_size locked db deeds later later_size later_locked
      later_db e x taken sparing reached early again found =
    elim (Bool-cases (x.id == e.id)) [
      | inr other ↦ other
      | inl same ↦
          let held =
            after_deeds-IsHeld lib now timeout e.id deeds _ sparing (
              lease_all_lem (now + timeout) e (batch_rows lib now locked batch_size db) db taken) in
          let here =
            subst (IsHeld (now + timeout))
              (ap (λ (y : Db). get e.id y.outbox_events) (sym reached)
                ∙ ap (λ id. get id later_db.outbox_events) (sym ((eq_iff x.id e.id).0 same))
                ∙ found)
              held in
          let passes =
            All-In (Passes later later_locked) x _
              (batch_rows-Passes lib later later_locked later_size later_db) again in
          absurd (ground (arith, passes.0, held_refused (now + timeout) later x here early))
    ]
