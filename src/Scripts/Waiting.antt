-- ===== src/Scripts/Waiting.antt =====
-- The two waiting loops of scripts/run_experiment.py: `wait_for_health` and `wait_outbox_drained`.
-- Times are microseconds; `clock` is the monotonic clock at the head of each round, and the answers
-- are what the API says in each round.
pub mod Answers
use native.Mathlib.Nat.{mul-suc}
use global_ledger_consistenc.Base.{
  ℕ, zero, suc, ◌+◌, ◌-◌, ◌*◌, ◌≤◌, ◌<◌, Bool, ◌≡◌, ◌&&◌, refl, subst, Option, none, some, ltb, leb,
  if◌then◌else◌, arith, Bool-cases, inl, inr, ◌⊎◌,
}
use global_ledger_consistenc.Ledger.{Stats}

-- An `httpx.HTTPError`, or a response with its status and its decoded body.
pub data Answer (A : Type 0) : Type 0 where
  http_error : Answer A
  answered : ℕ → Option A → Answer A

-- What the body of a loop does: it sleeps and goes on, it returns, or an exception leaves it.
pub data Round (A : Type 0) : Type 0 where
  again : Round A
  returned : A → Round A
  raised : Round A

Round-cases :
    {A : Type 0} (r : Round A) → (r ≡ again) ⊎ ((r ≡ raised) ⊎ ((a : A) × (r ≡ returned a)))
Round-cases again = inl refl
Round-cases raised = inr (inl refl)
Round-cases (returned a) = inr (inr (a, refl))

-- The end of a loop: a returned value, the `RuntimeError` after the timeout, another exception, or
-- no end within the rounds given.
pub data Waited (A : Type 0) : Type 0 where
  done : A → Waited A
  timed_out : Waited A
  failed : Waited A
  unfinished : Waited A

abbrev pub equals : ℕ → ℕ → Bool
equals a b = leb a b && leb b a

-- How a loop may end: in the first round that does not go on, or in the first after the timeout.
-- The arguments say of a round that it goes on, that it returns a value and that it raises.
abbrev pub IsEnding :
    {A : Type 0} (timeout started : ℕ) (clock : ℕ → ℕ) (Goes : ℕ → Type 0)
    (Returns : ℕ → A → Type 0) (Raises : ℕ → Type 0)
    → Waited A
    → Type 0
IsEnding timeout started clock Goes Returns Raises (done a) =
    (n : ℕ) × (clock n - started < timeout) × Returns n a × ((j : ℕ) → j < n → Goes j)
IsEnding timeout started clock Goes Returns Raises timed_out =
    (n : ℕ) × (timeout ≤ clock n - started) × ((j : ℕ) → j < n → Goes j)
IsEnding timeout started clock Goes Returns Raises failed =
    (n : ℕ) × (clock n - started < timeout) × Raises n × ((j : ℕ) → j < n → Goes j)
IsEnding timeout started clock Goes Returns Raises unfinished = ⊥

module _ {A : Type 0} (timeout started : ℕ) (clock : ℕ → ℕ) (round : ℕ → Round A) where
  -- `while time.monotonic() - started < timeout_seconds`
  unfoldable pub poll_until : ℕ → ℕ → Waited A
  poll_until zero k = unfinished
  poll_until (suc rounds) k =
      let rest = poll_until rounds (suc k) in
      if ltb (clock k - started) timeout
      then elim (round k) [ again ↦ rest | returned a ↦ done a | raised ↦ failed ]
      else timed_out

  abbrev pub IsOutcome : Waited A → Type 0
  IsOutcome =
      IsEnding timeout started clock (λ j. round j ≡ again) (λ j a. round j ≡ returned a)
        (λ j. round j ≡ raised)

  still_again :
      (k : ℕ)
      → ((j : ℕ) → j < k → round j ≡ again)
      → round k ≡ again
      → (j : ℕ) → j < suc k
      → round j ≡ again
  still_again k before here j h = elim (Bool-cases (ltb j k)) [
    | inl e ↦ before j (ground (arith, e))
    | inr e ↦ subst (λ i. round i ≡ again) (ground (arith, e, h)) here
  ]

  -- One round, with how the loop ends if it goes on.
  one_round :
      (rounds k : ℕ)
      → ((j : ℕ) → j < k → round j ≡ again)
      → (clock k - started < timeout → round k ≡ again → IsOutcome (poll_until rounds (suc k)))
      → IsOutcome (poll_until (suc rounds) k)
  unfolding poll_until
  one_round rounds k before then_on = elim (Bool-cases (ltb (clock k - started) timeout)) [
    | inr late ↦ rw late (k, ground (arith, late), before)
    | inl early ↦ elim (Round-cases (round k)) [
      | inr (inl e) ↦ rw (early, e) (k, ground (arith, early), e, before)
      | inr (inr (a, e)) ↦ rw (early, e) (k, ground (arith, early), e, before)
      | inl e ↦ rw (early, e) (then_on (ground (arith, early)) e)
    ]
  ]

  module _ (pause : ℕ) (passes : (k : ℕ) → clock k + pause ≤ clock (suc k)) where
    -- One round more than the timeout has pauses is enough.
    pub poll_until-IsOutcome :
        (rounds k : ℕ)
        → started ≤ clock k
        → timeout ≤ (clock k - started) + pause * rounds
        → ((j : ℕ) → j < k → round j ≡ again)
        → IsOutcome (poll_until (suc rounds) k)
    poll_until-IsOutcome zero k since enough before =
        one_round zero k before (λ early e. absurd (omega (arith, enough, early)))
    poll_until-IsOutcome (suc rounds) k since enough before =
        one_round (suc rounds) k before (λ early e.
          poll_until-IsOutcome rounds (suc k) (omega (arith, since, passes k))
            (omega (arith, since, passes k, enough, mul-suc pause rounds)) (still_again k before e))

-- `wait_for_health`: one round.
unfoldable pub health_round : Answer (Unit {0}) → Round (Unit {0})
health_round http_error = again
health_round (answered status body) = if equals status 200 then returned tt else again

-- `wait_outbox_drained`: one round, with `raise_for_status` and `response.json()`.
unfoldable pub shown : Option Stats → Round Stats
shown none = raised
shown (some stats) = if equals stats.outbox_pending 0 then returned stats else again

unfoldable pub outbox_round : Answer Stats → Round Stats
unfolding shown
outbox_round http_error = raised
outbox_round (answered status body) =
    if leb 200 status && ltb status 300 then shown body else raised

-- `wait_for_health`, with at most the given number of rounds.
unfoldable pub wait_for_health :
    (started : ℕ) (clock : ℕ → ℕ) → (ℕ → Answer (Unit {0})) → ℕ → Waited (Unit {0})
unfolding poll_until health_round
wait_for_health started clock answers rounds =
    poll_until 20_000_000 started clock (λ k. health_round (answers k)) rounds 0

-- `wait_outbox_drained`, with at most the given number of rounds.
unfoldable pub wait_outbox_drained :
    (started : ℕ) (clock : ℕ → ℕ) → (ℕ → Answer Stats) → ℕ → Waited Stats
unfolding poll_until outbox_round
wait_outbox_drained started clock answers rounds =
    poll_until 60_000_000 started clock (λ k. outbox_round (answers k)) rounds 0

-- Statistics that `wait_outbox_drained` returns show an empty outbox.
pub returned-drained :
    (answer : Answer Stats) (stats : Stats)
    → outbox_round answer ≡ returned stats
    → stats.outbox_pending ≡ 0
unfolding outbox_round shown
returned-drained answer stats h = ground (arith, h)

-- The end of `wait_outbox_drained`, by what its rounds do.
pub wait_outbox_drained-IsOutcome :
    (started : ℕ) (clock : ℕ → ℕ) (answers : ℕ → Answer Stats)
    → started ≤ clock 0
    → ((k : ℕ) → clock k + 500_000 ≤ clock (suc k))
    → IsOutcome 60_000_000 started clock
        (λ k. outbox_round (answers k))
        (wait_outbox_drained started clock answers 121)
unfolding wait_outbox_drained
wait_outbox_drained-IsOutcome started clock answers since passes =
    poll_until-IsOutcome 60_000_000 started clock (λ k. outbox_round (answers k)) 500_000 passes 120
      0 since (omega arith) (λ j h. absurd (omega (arith, h)))
