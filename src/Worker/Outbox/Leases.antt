-- ===== src/Worker/Outbox/Leases.antt =====
-- What `fetch_batch_for_processing` of outbox_repository.py takes.
use global_ledger_consistenc.Base.{
  ℕ, zero, suc, ◌≤◌, String, Bool, true, false, ◌≡◌, refl, Option, none, some, List, [], ◌∷◌, arith,
  take, length, All, All-take, All-map, ◌⊎◌, inl, inr, Bool-cases,
}
use global_ledger_consistenc.Contracts.{OutboxStatus, pending, processing, processed, dead}
use global_ledger_consistenc.Orm.{OutboxEvent, Db}
use global_ledger_consistenc.Externals.{Externals}
use global_ledger_consistenc.Worker.Outbox.{
  is_claimable, is_due, is_eligible, insert_sorted, sorts_before, eligible_rows, batch_rows,
}

-- An event that a poll may take: open, due and not locked by another transaction.
abbrev pub IsFree : ℕ → (String → Bool) → OutboxEvent → Type 0
IsFree now locked e =
    ((e.status ≡ pending) ⊎ (e.status ≡ processing))
    × ((e.next_retry_at ≡ none) ⊎ ((at : ℕ) × ((e.next_retry_at ≡ some at) × (at ≤ now))))
    × (locked e.id ≡ false)

-- An event that the `WHERE` clause and `SKIP LOCKED` let through.
abbrev pub Passes : ℕ → (String → Bool) → OutboxEvent → Type 0
Passes now locked e = (is_eligible now e ≡ true) × (locked e.id ≡ false)

claimable_lem :
    (status : OutboxStatus)
    → is_claimable status ≡ true
    → (status ≡ pending) ⊎ (status ≡ processing)
claimable_lem pending h = inl refl
claimable_lem processing h = inr refl
claimable_lem processed h = absurd (ground (arith, h))
claimable_lem dead h = absurd (ground (arith, h))

due_lem :
    (now : ℕ) (at : Option ℕ)
    → is_due now at ≡ true
    → (at ≡ none) ⊎ ((t : ℕ) × ((at ≡ some t) × (t ≤ now)))
due_lem now none h = inl refl
due_lem now (some t) h = inr (t, (refl, ground (arith, h)))

Passes-IsFree :
    (now : ℕ) (locked : String → Bool) (e : OutboxEvent) → Passes now locked e → IsFree now locked e
unfolding is_eligible
Passes-IsFree now locked e (h, unlocked) = (
  claimable_lem e.status (ground (arith, h)),
  due_lem now e.next_retry_at (ground (arith, h)),
  unlocked,
)

pub IsFree-Passes :
    (now : ℕ) (locked : String → Bool) (e : OutboxEvent) → IsFree now locked e → Passes now locked e
unfolding is_eligible
IsFree-Passes now locked e (status, due, unlocked) = (ground (arith, status, due), unlocked)

module _ (lib : Externals) (now : ℕ) (locked : String → Bool) where
  All-insert_sorted :
      (P : OutboxEvent → Type 0) (a : OutboxEvent) (rows : List OutboxEvent)
      → P a
      → All P rows
      → All P (insert_sorted lib a rows)
  unfolding insert_sorted
  All-insert_sorted P a [] pa all = (pa, tt)
  All-insert_sorted P a (b ∷ rows) pa all = elim (Bool-cases (sorts_before lib b a)) [
    | inl e ↦ rw e (all.0, All-insert_sorted P a rows pa all.1)
    | inr e ↦ rw e (pa, all)
  ]

  All-eligible_rows :
      (rows : List OutboxEvent) → All (Passes now locked) (eligible_rows lib now locked rows)
  unfolding eligible_rows
  All-eligible_rows [] = tt
  All-eligible_rows (e ∷ rows) = elim (Bool-cases (is_eligible now e)) [
    | inr h ↦ rw h (All-eligible_rows rows)
    | inl h ↦ elim (Bool-cases (locked e.id)) [
      | inl h' ↦ rw (h, h') (All-eligible_rows rows)
      | inr h' ↦
          rw (h, h')
            (All-insert_sorted (Passes now locked) e (eligible_rows lib now locked rows) (h, h')
              (All-eligible_rows rows))
    ]
  ]

  length-take : (n : ℕ) (rows : List OutboxEvent) → length (take n rows) ≤ n
  length-take zero rows = omega arith
  length-take (suc n) [] = omega arith
  length-take (suc n) (a ∷ rows) = omega (arith, length-take n rows)

  pub batch_rows-Passes :
      (batch_size : ℕ) (db : Db) → All (Passes now locked) (batch_rows lib now locked batch_size db)
  unfolding batch_rows
  batch_rows-Passes batch_size db =
      All-take (Passes now locked) batch_size _ (All-eligible_rows db.outbox_events)

  -- A poll takes at most as many events as the batch size, and each of them is pending or processing,
  -- has no time before which it is not retried or one that is not later than now, and is not locked by
  -- another transaction.
  pub batch_rows_lem :
      (batch_size : ℕ) (db : Db)
      → (length (batch_rows lib now locked batch_size db) ≤ batch_size)
        × All (IsFree now locked) (batch_rows lib now locked batch_size db)
  unfolding batch_rows
  batch_rows_lem batch_size db =
      let batch = take batch_size (eligible_rows lib now locked db.outbox_events) in
      (
        length-take batch_size _,
        All-map batch (Passes-IsFree now locked) (batch_rows-Passes batch_size db),
      )
