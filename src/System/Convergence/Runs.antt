-- ===== src/System/Convergence/Runs.antt =====
-- The events of unsettled payments, over the runs of the system.
use mathlib.Core.Option.{some-injective}
use global_ledger_consistenc.Base.{
  ℕ, ◌+◌, String, true, false, ◌≡◌, ◌≢◌, ◌⊎◌, refl, sym, ap, subst, ◌∙◌, some, List, [], ◌∷◌, arith,
  ◌==◌, eq_iff, Bool-cases, inl, inr,
}
use global_ledger_consistenc.Table.{get, has, modify, get-modify, key_of-get}
use global_ledger_consistenc.Contracts.{
  PaymentStatus, completed, rejected, reserved, received, payment_reserved, payment_requested,
}
use global_ledger_consistenc.Orm.{Payment, OutboxEvent, Db, event_keyed, payment_keyed}
use global_ledger_consistenc.Externals.{Externals}
use global_ledger_consistenc.Payments.UseCase.{new_payment}
use global_ledger_consistenc.Worker.Payload.{EventPayload}
use global_ledger_consistenc.Worker.Payload.RoundTrip.{PayloadRoundTrip}
use global_ledger_consistenc.Worker.Outbox.{
  in_event, mark_processed, mark_retry, lease_all, leased, fetch_batch_for_processing, batch_rows,
}
use global_ledger_consistenc.Worker.Handlers.{is_settled, with_status}
use global_ledger_consistenc.Worker.Processor.{kill}
use global_ledger_consistenc.System.Steps.{
  Reach, here, next, Step, IsOpen, IsRepeated, strong_paid, hybrid_paid, eventual_paid,
  leased as leased_step, reserved_settled, request_settled, request_rejected, redelivered, dropped,
  retried, killed,
}
use global_ledger_consistenc.System.Convergence.{
  IsAwaited, IsDistinct, IsDistinct-modify, IsAwaited-modify, IsAwaited-newer, IsAwaited-processed,
  new-IsAwaited, is_processed,
}

-- Every payment that is neither completed nor rejected has an event that is not processed.
pub record IsRemembered (lib : Externals) (db : Db) : Type 0 where
  pub distinct : IsDistinct db.payments
  pub awaited :
      (id : String) (p : Payment)
      → get id db.payments ≡ some p
      → is_settled p.status ≡ false
      → IsAwaited lib id db.outbox_events

found_first :
    (id : String) (new p : Payment) (ps : List Payment)
    → get id (new ∷ ps) ≡ some p
    → ((new.id ≡ id) × (new ≡ p)) ⊎ (get id ps ≡ some p)
unfolding get
found_first id new p ps h = elim (Bool-cases (new.id == id)) [
  | inl e ↦ inl ((eq_iff new.id id).0 e, some-injective new p (ground arith))
  | inr e ↦ inr (ground arith)
]

-- A payment that is open after another's settlement was open before.
still_open :
    (id : String) (pay p : Payment) (status : PaymentStatus) (ps : List Payment)
    → is_settled status ≡ true
    → is_settled p.status ≡ false
    → get id (modify pay.id (with_status status) ps) ≡ some p
    → (pay.id ≢ id) × (get id ps ≡ some p)
still_open id pay p status ps settled unsettled h =
    let e = get-modify pay.id id (with_status status) ps (λ x. refl) in
    elim (Bool-cases (pay.id == id)) [
      | inl k ↦ absurd (ground (arith, settled, unsettled, h, e, k))
      | inr k ↦ (ground (arith, k, eq_iff pay.id id), ground (arith, h, e, k))
    ]

module _ (lib : Externals) where
  event-IsRemembered :
      (id : String) (f : OutboxEvent → OutboxEvent) (db : Db)
      → ((e : OutboxEvent) → (f e).id ≡ e.id)
      → ((e : OutboxEvent) → (f e).payload_json ≡ e.payload_json)
      → ((e : OutboxEvent) → is_processed (f e).status ≡ false)
      → IsRemembered lib db
      → IsRemembered lib (in_event id f db)
  event-IsRemembered id f db same says open_one h = record {
    distinct = h.distinct;
    awaited = λ j p found unsettled.
        IsAwaited-modify lib j id f db.outbox_events same says open_one
          (h.awaited j p found unsettled);
  }

  lease_all-IsRemembered :
      (until : ℕ) (batch : List OutboxEvent) (db : Db)
      → IsRemembered lib db
      → IsRemembered lib (lease_all until batch db)
  unfolding lease_all
  lease_all-IsRemembered until [] db h = h
  lease_all-IsRemembered until (e ∷ batch) db h =
      lease_all-IsRemembered until batch (in_event e.id (leased until) db)
        (event-IsRemembered e.id (leased until) db (λ e. refl) (λ e. refl) (λ e. refl) h)

  -- A payment and its event are settled and closed together.
  closed-IsAwaited :
      (event : OutboxEvent) (q : EventPayload) (pay : Payment) (status : PaymentStatus) (db : Db)
      → IsRemembered lib db
      → IsOpen lib event q pay db
      → is_settled status ≡ true
      → (id : String) (p : Payment)
      → get id (modify pay.id (with_status status) db.payments) ≡ some p
      → is_settled p.status ≡ false
      → IsAwaited lib id (modify event.id mark_processed db.outbox_events)
  closed-IsAwaited event q pay status db h opened settled id p found unsettled =
      let (other, before) = still_open id pay p status db.payments settled unsettled found in
      IsAwaited-processed lib id event q db.outbox_events opened.loaded opened.parsed
        (λ same. other (key_of-get q.payment_id pay db.payments opened.found ∙ same))
        (h.awaited id p before unsettled)

  -- A payment that is settled at once needs no event.
  paid-IsAwaited :
      (new : Payment) (db : Db)
      → IsRemembered lib db
      → is_settled new.status ≡ true
      → (id : String) (p : Payment) → get id (new ∷ db.payments) ≡ some p
      → is_settled p.status ≡ false
      → IsAwaited lib id db.outbox_events
  paid-IsAwaited new db h settled id p found unsettled =
      elim (found_first id new p db.payments found) [
        | inl (_, same) ↦
            absurd (ground (arith, settled, unsettled, ap (λ (x : Payment). x.status) same))
        | inr before ↦ h.awaited id p before unsettled
      ]

  accepted-IsAwaited :
      (new : Payment) (event : OutboxEvent) (db : Db)
      → IsRemembered lib db
      → has event.id db.outbox_events ≡ false
      → IsAwaited lib new.id (event ∷ db.outbox_events)
      → (id : String) (p : Payment) → get id (new ∷ db.payments) ≡ some p
      → is_settled p.status ≡ false
      → IsAwaited lib id (event ∷ db.outbox_events)
  accepted-IsAwaited new event db h free own id p found unsettled =
      elim (found_first id new p db.payments found) [
        | inl (same, _) ↦ subst (λ x. IsAwaited lib x (event ∷ db.outbox_events)) same own
        | inr before ↦
            IsAwaited-newer lib id event db.outbox_events free (h.awaited id p before unsettled)
      ]

  repeated-IsAwaited :
      (event : OutboxEvent) (q : EventPayload) (pay : Payment) (db : Db)
      → IsRemembered lib db
      → IsRepeated lib event q pay db
      → (id : String) (p : Payment) → get id db.payments ≡ some p
      → is_settled p.status ≡ false
      → IsAwaited lib id (modify event.id mark_processed db.outbox_events)
  repeated-IsAwaited event q pay db h r id p found unsettled =
      IsAwaited-processed lib id event q db.outbox_events r.loaded r.parsed
        (λ same.
          let one : pay ≡ p =
            some-injective pay p (sym r.found ∙ ap (λ x. get x db.payments) same ∙ found) in
          ground (arith, r.settled, unsettled, ap (λ (x : Payment). x.status) one))
        (h.awaited id p found unsettled)

-- A step that is no worker in strong mode closing an event, and a run of such steps.
abbrev pub IsNoDrop : {lib : Externals} {db db' : Db} → Step lib db db' → Type 0
IsNoDrop (dropped e db loaded) = ⊥
IsNoDrop _ = Unit

abbrev pub IsUndropped : {lib : Externals} {db db' : Db} → Reach lib db db' → Type 0
IsUndropped here = Unit
IsUndropped (next run st) = IsUndropped run × IsNoDrop st

module _ (lib : Externals) (law : PayloadRoundTrip lib) where
  IsRemembered-Step :
      {db db' : Db} (st : Step lib db db')
      → IsNoDrop st
      → IsRemembered lib db
      → IsRemembered lib db'
  unfolding new_payment
  IsRemembered-Step (strong_paid d r hash a b db _ _ _ _ new) u h = record {
    distinct = (new.id, h.distinct);
    awaited = paid-IsAwaited lib (new_payment d r hash completed) db h refl;
  }
  IsRemembered-Step (hybrid_paid d r hash t a b db proper _ _ _ new free) u h = record {
    distinct = (new.id, h.distinct);
    awaited =
        accepted-IsAwaited lib (new_payment d r hash reserved) _ db h free
          (new-IsAwaited lib law d r hash t reserved payment_reserved db.outbox_events proper);
  }
  IsRemembered-Step (eventual_paid d r hash t db proper new free) u h = record {
    distinct = (new.id, h.distinct);
    awaited =
        accepted-IsAwaited lib (new_payment d r hash received) _ db h free
          (new-IsAwaited lib law d r hash t received payment_requested db.outbox_events proper);
  }
  IsRemembered-Step (leased_step now timeout size locked db) u h =
      unfold fetch_batch_for_processing in
      lease_all-IsRemembered lib (now + timeout) (batch_rows lib now locked size db) db h
  IsRemembered-Step (reserved_settled d e q pay a b db _ opened _ _ _) u h = record {
    distinct = IsDistinct-modify pay.id (with_status completed) db.payments (λ x. refl) h.distinct;
    awaited = closed-IsAwaited lib e q pay completed db h opened refl;
  }
  IsRemembered-Step (request_settled d e q pay a b db _ opened _ _ _) u h = record {
    distinct = IsDistinct-modify pay.id (with_status completed) db.payments (λ x. refl) h.distinct;
    awaited = closed-IsAwaited lib e q pay completed db h opened refl;
  }
  IsRemembered-Step (request_rejected e q pay a db _ opened _ _) u h = record {
    distinct = IsDistinct-modify pay.id (with_status rejected) db.payments (λ x. refl) h.distinct;
    awaited = closed-IsAwaited lib e q pay rejected db h opened refl;
  }
  IsRemembered-Step (redelivered e q pay db repeated) u h = record {
    distinct = h.distinct;
    awaited = repeated-IsAwaited lib e q pay db h repeated;
  }
  IsRemembered-Step (dropped e db _) u h = absurd u
  IsRemembered-Step (retried e at db _) u h =
      event-IsRemembered lib e.id (mark_retry at) db (λ x. unfold mark_retry in ground arith)
        (λ x. unfold mark_retry in ground arith) (λ x. unfold mark_retry in ground arith) h
  IsRemembered-Step (killed e db _) u h =
      event-IsRemembered lib e.id kill db (λ x. refl) (λ x. refl) (λ x. refl) h

  -- If at the start every payment that is neither completed nor rejected has an outbox event that is
  -- not processed, the same holds after any run in which no worker in strong mode closes an event,
  -- provided that `json.loads` gives back what `json.dumps` was given.
  pub IsRemembered-Reach :
      {db db' : Db} (run : Reach lib db db')
      → IsUndropped run
      → IsRemembered lib db
      → IsRemembered lib db'
  IsRemembered-Reach here u h = h
  IsRemembered-Reach (next run st) u h = IsRemembered-Step st u.1 (IsRemembered-Reach run u.0 h)
