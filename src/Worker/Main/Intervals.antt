-- ===== src/Worker/Main/Intervals.antt =====
-- When `run_loop` of ledger_worker/main.py reconciles.
use global_ledger_consistenc.Base.{
  ℕ, Bool, if◌then◌else◌, ◌+◌, ◌-◌, ◌≤◌, ◌<◌, true, false, ◌≡◌, refl, sym, ap, subst, ◌∙◌, List, [],
  ◌∷◌, ◌++◌, leb, arith, In, inl, inr, ◌⊎◌,
}
use global_ledger_consistenc.Externals.{Externals}
use global_ledger_consistenc.Session.{Session, Result, ok, err, pure, ◌>>=◌, ok-injective}
use global_ledger_consistenc.Session.Transaction.{begin}
use global_ledger_consistenc.Worker.{Metrics, Raised, WorkerAction}
use global_ledger_consistenc.Worker.Processor.{process_available_events, unit_of_work}
use global_ledger_consistenc.Worker.Reconciliation.{run_once}
use global_ledger_consistenc.Worker.Main.{Round, Loop, reconcile_if_due, run_round, run_loop}

-- The two parts of an action that succeeds.
record Succeeds {A B : Type 0} (m : WorkerAction A) (k : A → WorkerAction B) (s : Session Metrics)
    (b : B) (s'' : Session Metrics) : Type 0 where
  value : A
  middle : Session Metrics
  first : m s ≡ (ok value, middle)
  second : k value middle ≡ (ok b, s'')

bind_result :
    {A B : Type 0} (m : WorkerAction A) (k : A → WorkerAction B) (b : B) (s s'' : Session Metrics)
    (r : Result Raised A) (s' : Session Metrics)
    → m s ≡ (r, s')
    → ((λ (x : Session Metrics). (r, s')) >>= k) s ≡ (ok b, s'')
    → Succeeds m k s b s''
bind_result m k b s s'' (ok a) s' e h = record { value = a; middle = s'; first = e; second = h }
bind_result m k b s s'' (err x) s' e h = absurd (ground (arith, h))

bind_ok :
    {A B : Type 0} (m : WorkerAction A) (k : A → WorkerAction B) (b : B) (s s'' : Session Metrics)
    → (m >>= k) s ≡ (ok b, s'')
    → Succeeds m k s b s''
bind_ok m k b s s'' h = bind_result m k b s s'' (m s).0 (m s).1 refl h

pure_ok :
    {A : Type 0} (a b : A) (s s' : Session Metrics)
    → pure {M = Metrics} {E = Raised} a s ≡ (ok b, s')
    → a ≡ b
pure_ok a b s s' h = ok-injective (ap (λ p. p.0) h)

-- A reconciliation that succeeds has met the database.
run_once_reachable :
    (r : Round) (s : Session Metrics)
    → (a : _) (s' : Session Metrics) → run_once r.reconciling s ≡ (ok a, s')
    → r.reconciling.reachable ≡ true
unfolding run_once unit_of_work begin
run_once_reachable r s a s' h = ground (arith, h)

module _ (lib : Externals) (l : Loop) where
  -- The last reconciliation is still the one before, or it is at least an interval later, at the
  -- clock of one of the rounds, and met the database.
  abbrev pub Since : List Round → ℕ → ℕ → Type 0
  Since rounds last last' =
      (last' ≡ last)
      ⊎ ((last + l.reconciliation_interval ≤ last')
          × ((r : Round) × In r rounds × (r.monotonic ≡ last') × (r.reconciling.reachable ≡ true)))

  reconcile_Since :
      (b : Bool) (r : Round) (last last' : ℕ) (s s' : Session Metrics)
      → leb l.reconciliation_interval (r.monotonic - last) ≡ b
      → 0 < l.reconciliation_interval
      → (if b then (do found ← run_once r.reconciling; pure r.monotonic) else pure last) s
        ≡ (ok last', s')
      → (r.monotonic - last' < l.reconciliation_interval) × Since (r ∷ []) last last'
  reconcile_Since false r last last' s s' late positive h =
      let same = pure_ok last last' s s' h in
      let early : r.monotonic - last < l.reconciliation_interval = ground (arith, late) in
      (omega (arith, early, same, positive), inl (sym same))
  reconcile_Since true r last last' s s' due positive h =
      let parts = bind_ok (run_once r.reconciling) (λ found. pure r.monotonic) last' s s' h in
      let same = pure_ok r.monotonic last' parts.middle s' parts.second in
      let met = run_once_reachable r s parts.value parts.middle parts.first in
      (
        omega (arith, same, positive),
        inr (ground (arith, due, same, positive), (r, inl refl, same, met)),
      )

  -- One round that succeeds.
  round_Since :
      (r : Round) (last last' : ℕ) (s s' : Session Metrics)
      → 0 < l.reconciliation_interval
      → run_round lib l r last s ≡ (ok last', s')
      → (r.monotonic - last' < l.reconciliation_interval) × Since (r ∷ []) last last'
  unfolding run_round reconcile_if_due
  round_Since r last last' s s' positive h =
      let parts =
        bind_ok
          (process_available_events lib l.mode l.injector r.acquiring r.now l.processing_timeout
            r.locked r.events l.batch_size)
          (λ taken. reconcile_if_due lib l r last) last' s s' h in
      reconcile_Since (leb l.reconciliation_interval (r.monotonic - last)) r last last' parts.middle
        s' refl positive parts.second

  -- What holds of the first round and of those after it holds of all.
  Since-cons :
      (r : Round) (rounds : List Round) (last middle last' : ℕ)
      → Since (r ∷ []) last middle
      → Since rounds middle last'
      → Since (r ∷ rounds) last last'
  Since-cons r rounds last middle last' (inl e) (inl e') = inl (e' ∙ e)
  Since-cons r rounds last middle last' (inr (far, (x, inl at, clock, met))) (inl e) =
      inr (omega (arith, far, e), (x, inl at, clock ∙ sym e, met))
  Since-cons r rounds last middle last' (inr (far, (x, inr at, clock, met))) (inl e) = absurd at
  Since-cons r rounds last middle last' (inl e) (inr (far, (x, at, clock, met))) =
      inr (omega (arith, far, e), (x, inr at, clock, met))
  Since-cons r rounds last middle last' (inr (far, _)) (inr (far', (x, at, clock, met))) =
      inr (omega (arith, far, far'), (x, inr at, clock, met))

  -- After every round that the worker's loop makes without an exception, the last reconciliation is
  -- less than its interval ago by the round's clock, if the interval is positive; and it is the one from
  -- before the loop, or one that met the database, made at the clock of one of the rounds, and at least
  -- an interval after that.
  pub run_loop-reconciles :
      (before : List Round) (r : Round) (last last' : ℕ) (s s' : Session Metrics)
      → 0 < l.reconciliation_interval
      → run_loop lib l (before ++ (r ∷ [])) last s ≡ (ok last', s')
      → (r.monotonic - last' < l.reconciliation_interval) × Since (before ++ (r ∷ [])) last last'
  unfolding run_loop
  run_loop-reconciles [] r last last' s s' positive h =
      let parts = bind_ok (run_round lib l r last) (run_loop lib l []) last' s s' h in
      let same = pure_ok parts.value last' parts.middle s' parts.second in
      subst (λ n. (r.monotonic - n < l.reconciliation_interval) × Since (r ∷ []) last n) same
        (round_Since r last parts.value s parts.middle positive parts.first)
  run_loop-reconciles (x ∷ before) r last last' s s' positive h =
      let parts =
        bind_ok (run_round lib l x last) (run_loop lib l (before ++ (r ∷ []))) last' s s' h in
      let (recent, since) =
        run_loop-reconciles before r parts.value last' parts.middle s' positive parts.second in
      let (_, at_first) = round_Since x last parts.value s parts.middle positive parts.first in
      (recent, Since-cons x (before ++ (r ∷ [])) last parts.value last' at_first since)
