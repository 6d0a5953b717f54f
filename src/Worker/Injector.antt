-- ===== src/Worker/Injector.antt =====
-- ledger_worker/services/failure_injector.py. What it calls enters as `Scoring`; a probability
-- is given in hundredths.
use Prim.Native.String.{◌++◌}
use global_ledger_consistenc.Base.{
  ℕ, suc, ◌+◌, ◌*◌, String, Bool, false, ◌≡◌, Option, none, some, List, [], ◌∷◌, take, ◌==◌,
  if◌then◌else◌,
}
use global_ledger_consistenc.Int.{ℤ, pos}
use global_ledger_consistenc.Worker.{FailureInjectorPort}

pub record Scoring (F : Type 0) : Type 0 where
  -- `str` of an integer, as an f-string formats it
  pub str : ℤ → String
  -- `sha256(text.encode("utf-8")).digest()`, its bytes
  pub sha256_digest : String → List ℕ
  -- `float` of a natural number, and `/` and `<` of floats
  pub float : ℕ → F
  pub div : F → F → F
  pub lt : F → F → Bool

-- The sign of floats: `float(0)` over a number is `float(0)`, and nothing is below zero that is made
-- of natural numbers by a division.
pub record SignLaws {F : Type 0} (sc : Scoring F) : Type 0 where
  pub zero-div : (n : ℕ) → sc.div (sc.float 0) (sc.float (suc n)) ≡ sc.float 0
  pub float_nonneg : (n : ℕ) → sc.lt (sc.float n) (sc.float 0) ≡ false
  pub div_nonneg :
      (x : F) (n : ℕ)
      → sc.lt x (sc.float 0) ≡ false
      → sc.lt (sc.div x (sc.float (suc n))) (sc.float 0) ≡ false

pub record FailurePreset : Type 0 where
  pub db_delay_probability : ℕ
  pub worker_exception_probability : ℕ
  pub redis_failure_probability : ℕ

abbrev pub none_preset : FailurePreset
none_preset = record {
  db_delay_probability = 0;
  worker_exception_probability = 0;
  redis_failure_probability = 0;
}

-- `PRESETS`
unfoldable pub preset_of : String → Option FailurePreset
preset_of profile =
    if profile == "none"
    then some none_preset
    else if profile == "mild"
    then some (record {
      db_delay_probability = 2;
      worker_exception_probability = 1;
      redis_failure_probability = 0;
    })
    else if profile == "harsh"
    then some (record {
      db_delay_probability = 10;
      worker_exception_probability = 5;
      redis_failure_probability = 5;
    })
    else none

-- `int.from_bytes(bytes, byteorder="big")`, after the bytes that gave `high`.
unfoldable pub from_bytes : ℕ → List ℕ → ℕ
from_bytes high [] = high
from_bytes high (b ∷ bytes) = from_bytes (high * 256 + b) bytes

module _ {F : Type 0} (sc : Scoring F) (profile : String) (seed : ℤ) where
  -- The integer that `_score` divides by `2**64`.
  unfoldable pub score_value : String → String → ℕ → ℕ
  unfolding from_bytes
  score_value namespace event_id attempt = from_bytes 0 (
      take 8 (
        sc.sha256_digest (
          sc.str seed
          ++ ":"
          ++ profile
          ++ ":"
          ++ namespace
          ++ ":"
          ++ event_id
          ++ ":"
          ++ sc.str (pos attempt))))

  -- `_score`, which divides by `float(2**64)`
  unfoldable pub score : String → String → ℕ → F
  unfolding score_value
  score namespace event_id attempt =
      sc.div (sc.float (score_value namespace event_id attempt))
        (sc.float 18_446_744_073_709_551_616)

  -- A probability of `PRESETS`, from its hundredths.
  abbrev pub probability : ℕ → F
  probability hundredths = sc.div (sc.float hundredths) (sc.float 100)

  -- The seconds that `maybe_apply_db_delay` sleeps, in microseconds.
  unfoldable pub maybe_apply_db_delay : FailurePreset → String → ℕ → ℕ
  unfolding score
  maybe_apply_db_delay preset event_id attempt =
      if sc.lt (score "db_delay" event_id attempt) (probability preset.db_delay_probability)
      then 20_000
      else 0

  unfoldable pub injector_with : FailurePreset → FailureInjectorPort
  unfolding score
  injector_with preset = record {
    should_raise_worker_exception = λ event_id attempt.
        sc.lt (score "worker_exception" event_id attempt)
          (probability preset.worker_exception_probability);
    should_fail_redis_simulation = λ event_id attempt.
        sc.lt (score "redis_failure" event_id attempt)
          (probability preset.redis_failure_probability);
  }

  -- `FailureInjector(profile, seed)`; `none` is the `ValueError` of an unknown profile.
  unfoldable pub failure_injector : Option FailureInjectorPort
  unfolding preset_of injector_with
  failure_injector = elim (preset_of profile) [
    | none ↦ none
    | some preset ↦ some (injector_with preset)
  ]

-- No score is below the probability zero.
pub score_nonneg :
    {F : Type 0} (sc : Scoring F) (profile : String) (seed : ℤ)
    → SignLaws sc
    → (namespace id : String) (attempt : ℕ)
    → sc.lt (score sc profile seed namespace id attempt) (probability sc profile seed 0) ≡ false
unfolding score
score_nonneg sc profile seed law namespace id attempt = rw (law.zero-div 99) (
    law.div_nonneg _ 18_446_744_073_709_551_615
      (law.float_nonneg (score_value sc profile seed namespace id attempt)))
