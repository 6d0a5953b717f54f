-- ===== src/Scripts/Waiting/Answers.antt =====
-- `wait_for_health` and `wait_outbox_drained` of scripts/run_experiment.py, by the answers they get.
use global_ledger_consistenc.Base.{ℕ, suc, ◌+◌, ◌≤◌, ◌<◌, ◌≡◌, ◌≢◌, none, some, arith, ◌⊎◌}
use global_ledger_consistenc.Ledger.{Stats}
use global_ledger_consistenc.Scripts.Waiting.{
  Answer, http_error, answered, Round, again, returned, raised, Waited, done, timed_out, failed,
  unfinished, IsEnding, IsOutcome, poll_until-IsOutcome, health_round, shown, outbox_round,
  wait_for_health, wait_outbox_drained, wait_outbox_drained-IsOutcome,
}

-- If what the rounds do implies what the predicates say, a loop's end may be told by the predicates.
IsOutcome-IsEnding :
    {A : Type 0} (timeout started : ℕ) (clock : ℕ → ℕ) (round : ℕ → Round A) (Goes : ℕ → Type 0)
    (Returns : ℕ → A → Type 0) (Raises : ℕ → Type 0)
    → ((k : ℕ) → round k ≡ again → Goes k)
    → ((k : ℕ) (a : A) → round k ≡ returned a → Returns k a)
    → ((k : ℕ) → round k ≡ raised → Raises k)
    → (w : Waited A) → IsOutcome timeout started clock round w
    → IsEnding timeout started clock Goes Returns Raises w
IsOutcome-IsEnding timeout started clock round Goes Returns Raises g r x (done a)
      (n, early, e, before) =
    (n, early, r n a e, λ j h. g j (before j h))
IsOutcome-IsEnding timeout started clock round Goes Returns Raises g r x timed_out
      (n, late, before) =
    (n, late, λ j h. g j (before j h))
IsOutcome-IsEnding timeout started clock round Goes Returns Raises g r x failed
      (n, early, e, before) =
    (n, early, x n e, λ j h. g j (before j h))
IsOutcome-IsEnding timeout started clock round Goes Returns Raises g r x unfinished h = absurd h

-- An answer of /health other than status 200, or none.
abbrev pub IsUnhealthy : Answer (Unit {0}) → Type 0
IsUnhealthy http_error = Unit
IsUnhealthy (answered status body) = status ≢ 200

abbrev pub IsHealthy : Answer (Unit {0}) → Type 0
IsHealthy http_error = ⊥
IsHealthy (answered status body) = status ≡ 200

health-again : (a : Answer (Unit {0})) → health_round a ≡ again → IsUnhealthy a
unfolding health_round
health-again http_error h = tt
health-again (answered status body) h = λ e. ground (arith, h, e)

health-returned : (a : Answer (Unit {0})) (u : Unit {0}) → health_round a ≡ returned u → IsHealthy a
unfolding health_round
health-returned http_error u h = absurd (ground (arith, h))
health-returned (answered status body) u h = ground (arith, h)

health-raised : (a : Answer (Unit {0})) → health_round a ≡ raised → ⊥
unfolding health_round
health-raised http_error h = ground (arith, h)
health-raised (answered status body) h = ground (arith, h)

-- `wait_for_health` ends within 68 rounds, each of which sleeps three tenths of a second: it returns
-- in the first round that is answered with status 200, and raises its error in the first after
-- twenty seconds if none was; no other answer and no HTTP error leaves it.
pub wait_for_health-ends :
    (started : ℕ) (clock : ℕ → ℕ) (answers : ℕ → Answer (Unit {0}))
    → started ≤ clock 0
    → ((k : ℕ) → clock k + 300_000 ≤ clock (suc k))
    → IsEnding 20_000_000 started clock
        (λ k. IsUnhealthy (answers k))
        (λ k u. IsHealthy (answers k))
        (λ k. ⊥)
        (wait_for_health started clock answers 68)
unfolding wait_for_health
wait_for_health-ends started clock answers since passes =
    IsOutcome-IsEnding 20_000_000 started clock (λ k. health_round (answers k))
      (λ k. IsUnhealthy (answers k)) (λ k u. IsHealthy (answers k)) (λ k. ⊥)
      (λ k. health-again (answers k)) (λ k. health-returned (answers k))
      (λ k. health-raised (answers k)) (wait_for_health started clock answers 68)
      (poll_until-IsOutcome 20_000_000 started clock (λ k. health_round (answers k)) 300_000 passes
        67 0 since (omega arith) (λ j h. absurd (omega (arith, h))))

-- An answer of /stats with a status of success whose statistics meet a condition.
abbrev pub Shows : Answer Stats → (Stats → Type 0) → Type 0
Shows http_error P = ⊥
Shows (answered status none) P = ⊥
Shows (answered status (some s)) P = (200 ≤ status) × (status < 300) × P s

-- An HTTP error, a status other than one of success, or a body that is not the statistics.
abbrev pub IsError : Answer Stats → Type 0
IsError http_error = Unit
IsError (answered status none) = Unit
IsError (answered status (some s)) = (status < 200) ⊎ (300 ≤ status)

outbox-again : (a : Answer Stats) → outbox_round a ≡ again → Shows a (λ s. s.outbox_pending ≢ 0)
unfolding outbox_round shown
outbox-again http_error h = absurd (ground (arith, h))
outbox-again (answered status none) h = absurd (ground (arith, h))
outbox-again (answered status (some s)) h =
    (ground (arith, h), ground (arith, h), λ e. ground (arith, h, e))

outbox-returned :
    (a : Answer Stats) (t : Stats)
    → outbox_round a ≡ returned t
    → Shows a (λ s. (s ≡ t) × (s.outbox_pending ≡ 0))
unfolding outbox_round shown
outbox-returned http_error t h = absurd (ground (arith, h))
outbox-returned (answered status none) t h = absurd (ground (arith, h))
outbox-returned (answered status (some s)) t h = ground (arith, h)

outbox-raised : (a : Answer Stats) → outbox_round a ≡ raised → IsError a
unfolding outbox_round shown
outbox-raised http_error h = tt
outbox-raised (answered status none) h = tt
outbox-raised (answered status (some s)) h = ground (arith, h)

-- `wait_outbox_drained` ends within 121 rounds, each of which sleeps half a second: it returns the
-- statistics of the first round that shows an empty outbox, raises its error in the first round after
-- a minute if none did, and leaves by an exception in the first round whose answer is an error: an
-- HTTP error, a status that is not one of success, or a body that is not the statistics. In each
-- round before that it was shown statistics with pending events.
pub wait_outbox_drained-ends :
    (started : ℕ) (clock : ℕ → ℕ) (answers : ℕ → Answer Stats)
    → started ≤ clock 0
    → ((k : ℕ) → clock k + 500_000 ≤ clock (suc k))
    → IsEnding 60_000_000 started clock
        (λ k. Shows (answers k) (λ s. s.outbox_pending ≢ 0))
        (λ k t. Shows (answers k) (λ s. (s ≡ t) × (s.outbox_pending ≡ 0)))
        (λ k. IsError (answers k))
        (wait_outbox_drained started clock answers 121)
wait_outbox_drained-ends started clock answers since passes =
    IsOutcome-IsEnding 60_000_000 started clock (λ k. outbox_round (answers k))
      (λ k. Shows (answers k) (λ s. s.outbox_pending ≢ 0))
      (λ k t. Shows (answers k) (λ s. (s ≡ t) × (s.outbox_pending ≡ 0))) (λ k. IsError (answers k))
      (λ k. outbox-again (answers k)) (λ k. outbox-returned (answers k))
      (λ k. outbox-raised (answers k)) (wait_outbox_drained started clock answers 121)
      (wait_outbox_drained-IsOutcome started clock answers since passes)
