-- ===== src/Worker/Outbox/Order.antt =====
-- The order in which `fetch_batch_for_processing` of outbox_repository.py takes events.
use global_ledger_consistenc.Base.{
  ℕ, zero, suc, String, Bool, true, false, not, ◌&&◌, ◌≡◌, refl, subst, List, [], ◌∷◌, arith, take,
  All, All-map, ◌<◌, In, All-take, All-In, ◌⊎◌, inl, inr, Bool-cases,
}
use global_ledger_consistenc.Orm.{OutboxEvent, Db}
use global_ledger_consistenc.Externals.{Externals}
use global_ledger_consistenc.Worker.Outbox.{
  is_eligible, sorts_before, insert_sorted, eligible_rows, batch_rows,
}
use global_ledger_consistenc.Worker.Outbox.Leases.{IsFree, Passes, IsFree-Passes}

-- The database's collation orders the ids: what is before another is not after it, and what is not
-- before a third by way of a second is not before it.
pub record IsCollation (lib : Externals) : Type 0 where
  pub asym : (a b : String) → lib.collates_before a b ≡ true → lib.collates_before b a ≡ false
  pub chain :
      (a b c : String)
      → lib.collates_before c b ≡ false
      → lib.collates_before b a ≡ false
      → lib.collates_before c a ≡ false

-- Each event may stand where it does: none that follows is before it.
abbrev IsOrdered : Externals → List OutboxEvent → Type 0
IsOrdered lib [] = Unit
IsOrdered lib (e ∷ rows) = All (λ x. sorts_before lib x e ≡ false) rows × IsOrdered lib rows

-- The first event is older, or as old and its id no later.
abbrev pub Precedes : Externals → OutboxEvent → OutboxEvent → Type 0
Precedes lib b e =
    (b.created_at < e.created_at)
    ⊎ ((b.created_at ≡ e.created_at) × (lib.collates_before e.id b.id ≡ false))

abbrev pub IsOldestFirst : Externals → List OutboxEvent → Type 0
IsOldestFirst lib [] = Unit
IsOldestFirst lib (e ∷ rows) = All (λ x. Precedes lib e x) rows × IsOldestFirst lib rows

module _ (lib : Externals) (order : IsCollation lib) where
  sorts_before-asym :
      (a b : OutboxEvent) → sorts_before lib a b ≡ true → sorts_before lib b a ≡ false
  unfolding sorts_before
  sorts_before-asym a b h = ground (arith, order.asym a.id b.id)

  sorts_before-chain :
      (a b c : OutboxEvent)
      → sorts_before lib c b ≡ false
      → sorts_before lib b a ≡ false
      → sorts_before lib c a ≡ false
  unfolding sorts_before
  sorts_before-chain a b c h k = ground (arith, order.chain a.id b.id c.id)

  After-chain :
      (a b : OutboxEvent) (rows : List OutboxEvent)
      → sorts_before lib b a ≡ false
      → All (λ x. sorts_before lib x b ≡ false) rows
      → All (λ x. sorts_before lib x a ≡ false) rows
  After-chain a b [] h all = tt
  After-chain a b (c ∷ rows) h all =
      (sorts_before-chain a b c all.0 h, After-chain a b rows h all.1)

  All-insert :
      (P : OutboxEvent → Type 0) (a : OutboxEvent) (rows : List OutboxEvent)
      → P a
      → All P rows
      → All P (insert_sorted lib a rows)
  unfolding insert_sorted
  All-insert P a [] pa all = (pa, tt)
  All-insert P a (b ∷ rows) pa all = elim (Bool-cases (sorts_before lib b a)) [
    | inl e ↦ rw e (all.0, All-insert P a rows pa all.1)
    | inr e ↦ rw e (pa, all)
  ]

  insert_sorted-IsOrdered :
      (a : OutboxEvent) (rows : List OutboxEvent)
      → IsOrdered lib rows
      → IsOrdered lib (insert_sorted lib a rows)
  unfolding insert_sorted
  insert_sorted-IsOrdered a [] h = (tt, tt)
  insert_sorted-IsOrdered a (b ∷ rows) h = elim (Bool-cases (sorts_before lib b a)) [
    | inl e ↦ rw e (
      All-insert (λ x. sorts_before lib x b ≡ false) a rows (sorts_before-asym b a e) h.0,
      insert_sorted-IsOrdered a rows h.1,
    )
    | inr e ↦ rw e ((e, After-chain a b rows e h.0), h)
  ]

  module _ (now : ℕ) (locked : String → Bool) where
    eligible_rows-IsOrdered :
        (rows : List OutboxEvent) → IsOrdered lib (eligible_rows lib now locked rows)
    unfolding eligible_rows
    eligible_rows-IsOrdered [] = tt
    eligible_rows-IsOrdered (e ∷ rows) =
        elim (Bool-cases (is_eligible now e && not (locked e.id))) [
          | inl h ↦ rw h (
              insert_sorted-IsOrdered e (eligible_rows lib now locked rows)
                (eligible_rows-IsOrdered rows))
          | inr h ↦ rw h (eligible_rows-IsOrdered rows)
        ]

  take-IsOrdered :
      (n : ℕ) (rows : List OutboxEvent) → IsOrdered lib rows → IsOrdered lib (take n rows)
  take-IsOrdered zero rows h = tt
  take-IsOrdered (suc n) [] h = tt
  take-IsOrdered (suc n) (a ∷ rows) h =
      (All-take (λ x. sorts_before lib x a ≡ false) n rows h.0, take-IsOrdered n rows h.1)

  -- What is not among the first is before none of them.
  In-take :
      (n : ℕ) (e : OutboxEvent) (rows : List OutboxEvent)
      → IsOrdered lib rows
      → In e rows
      → In e (take n rows) ⊎ All (λ b. sorts_before lib e b ≡ false) (take n rows)
  In-take zero e rows h at = inr tt
  In-take (suc n) e [] h at = absurd at
  In-take (suc n) e (a ∷ rows) h (inl same) = inl (inl same)
  In-take (suc n) e (a ∷ rows) h (inr at) = elim (In-take n e rows h.1 at) [
    | inl found ↦ inl (inr found)
    | inr after ↦ inr (All-In (λ x. sorts_before lib x a ≡ false) e rows h.0 at, after)
  ]

  In-insert :
      (e a : OutboxEvent) (rows : List OutboxEvent)
      → (e ≡ a) ⊎ In e rows
      → In e (insert_sorted lib a rows)
  unfolding insert_sorted
  In-insert e a [] at = at
  In-insert e a (b ∷ rows) at = elim (Bool-cases (sorts_before lib b a)) [
    | inr h ↦ rw h at
    | inl h ↦ rw h (elim at [
      | inl same ↦ inr (In-insert e a rows (inl same))
      | inr (inl same) ↦ inl same
      | inr (inr found) ↦ inr (In-insert e a rows (inr found))
    ])
  ]

  In-eligible_rows :
      (now : ℕ) (locked : String → Bool) (e : OutboxEvent) (rows : List OutboxEvent)
      → Passes now locked e
      → In e rows
      → In e (eligible_rows lib now locked rows)
  unfolding eligible_rows
  In-eligible_rows now locked e [] free at = absurd at
  In-eligible_rows now locked e (x ∷ rows) free (inl same) =
      let h : (is_eligible now x && not (locked x.id)) ≡ true =
        subst (λ y. (is_eligible now y && not (locked y.id)) ≡ true) same
          (rw (free.0, free.1) refl) in
      rw h (In-insert e x (eligible_rows lib now locked rows) (inl same))
  In-eligible_rows now locked e (x ∷ rows) free (inr at) =
      let rest = In-eligible_rows now locked e rows free at in
      elim (Bool-cases (is_eligible now x && not (locked x.id))) [
        | inl h ↦ rw h (In-insert e x (eligible_rows lib now locked rows) (inr rest))
        | inr h ↦ rw h rest
      ]

  not_after-Precedes : (b e : OutboxEvent) → sorts_before lib e b ≡ false → Precedes lib b e
  unfolding sorts_before
  not_after-Precedes b e h = ground (arith, h)

  IsOrdered-IsOldestFirst : (rows : List OutboxEvent) → IsOrdered lib rows → IsOldestFirst lib rows
  IsOrdered-IsOldestFirst [] h = tt
  IsOrdered-IsOldestFirst (e ∷ rows) h =
      (All-map rows (λ x. not_after-Precedes e x) h.0, IsOrdered-IsOldestFirst rows h.1)

  -- A poll takes the oldest events first, and those of the same age by their ids: each event of a batch
  -- precedes those taken after it, and precedes every open, due and unlocked event that was not taken,
  -- provided that the database's collation orders the ids.
  pub batch_rows-oldest :
      (now : ℕ) (locked : String → Bool) (batch_size : ℕ) (db : Db) (e : OutboxEvent)
      → In e db.outbox_events
      → IsFree now locked e
      → let batch = batch_rows lib now locked batch_size db in
        IsOldestFirst lib batch × (In e batch ⊎ All (λ b. Precedes lib b e) batch)
  unfolding batch_rows
  batch_rows-oldest now locked batch_size db e at free =
      let rows = eligible_rows lib now locked db.outbox_events in
      let ordered = eligible_rows-IsOrdered now locked db.outbox_events in
      let batch = take batch_size rows in
      (
        IsOrdered-IsOldestFirst batch (take-IsOrdered batch_size rows ordered),
        elim (In-take batch_size e rows ordered
            (In-eligible_rows now locked e db.outbox_events (IsFree-Passes now locked e free) at)) [
              | inl taken ↦ inl taken
              | inr left ↦ inr (All-map batch (λ b. not_after-Precedes b e) left)
            ],
      )
