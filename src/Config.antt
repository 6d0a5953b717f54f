-- ===== src/Config.antt =====
-- core/config.py of both services: the settings that the environment gives.
use Prim.Native.String.{◌++◌}
use global_ledger_consistenc.Base.{String, ◌≡◌, Option, none, some, arith}
use global_ledger_consistenc.Int.{ℤ}
use global_ledger_consistenc.Contracts.{ConsistencyMode, mode_of_value}

-- `os.environ`
abbrev pub Environment : Type 0
Environment = String → Option String

-- `os.getenv(name, default)`
abbrev pub getenv : Environment → String → String → String
getenv env name default = elim (env name) [ none ↦ default | some value ↦ value ]

-- `_build_postgres_url`
unfoldable pub build_postgres_url : Environment → String
build_postgres_url env =
    "postgresql+psycopg://"
    ++ getenv env "POSTGRES_USER" "ledger"
    ++ ":"
    ++ getenv env "POSTGRES_PASSWORD" "ledger"
    ++ "@"
    ++ getenv env "POSTGRES_HOST" "localhost"
    ++ ":"
    ++ getenv env "POSTGRES_PORT" "5432"
    ++ "/"
    ++ getenv env "POSTGRES_DB" "ledgerlab"

-- `Settings` of payments-api.
pub record ApiSettings : Type 0 where
  pub database_url : String
  pub consistency_mode : ConsistencyMode

-- `load_settings` of payments-api; `none` is the `ValueError` of an unknown mode.
unfoldable pub load_api_settings : Environment → Option ApiSettings
unfolding mode_of_value build_postgres_url
load_api_settings env = elim (mode_of_value (getenv env "CONSISTENCY_MODE" "hybrid")) [
  | none ↦ none
  | some mode ↦ some (record {
    database_url = getenv env "DATABASE_URL" (build_postgres_url env);
    consistency_mode = mode;
  })
]

-- `Settings` of ledger-worker; `Float` is Python's.
pub record WorkerSettings (Float : Type 0) : Type 0 where
  pub database_url : String
  pub consistency_mode : ConsistencyMode
  pub fail_profile : String
  pub experiment_seed : ℤ
  pub poll_interval_seconds : Float
  pub reconciliation_interval_seconds : Float
  pub processing_timeout_seconds : Float

infixl 5 ◌>>=◌
abbrev pub ◌>>=◌ : {A B : Type 0} → Option A → (A → Option B) → Option B
none >>= f = none
some a >>= f = f a

-- `load_settings` of ledger-worker, with Python's `int` and `float` on texts; `none` is the
-- `ValueError` of a value that one of them or `ConsistencyMode` refuses.
unfoldable pub load_worker_settings :
    {Float : Type 0}
    → (String → Option ℤ)
    → (String → Option Float)
    → Environment
    → Option (WorkerSettings Float)
unfolding mode_of_value build_postgres_url
load_worker_settings int float env = do
  mode ← mode_of_value (getenv env "CONSISTENCY_MODE" "hybrid")
  seed ← int (getenv env "EXPERIMENT_SEED" "42")
  poll ← float (getenv env "OUTBOX_POLL_INTERVAL_SECONDS" "0.2")
  reconciliation ← float (getenv env "RECONCILIATION_INTERVAL_SECONDS" "5")
  timeout ← float (getenv env "OUTBOX_PROCESSING_TIMEOUT_SECONDS" "30")
  some (record {
    database_url = getenv env "DATABASE_URL" (build_postgres_url env);
    consistency_mode = mode;
    fail_profile = getenv env "FAIL_PROFILE" "none";
    experiment_seed = seed;
    poll_interval_seconds = poll;
    reconciliation_interval_seconds = reconciliation;
    processing_timeout_seconds = timeout;
  })

-- In an environment in which the worker can start, the API has settings too, and both services run in
-- the same mode on the same database.
pub load_settings-agree :
    {Float : Type 0} (int : String → Option ℤ) (float : String → Option Float) (env : Environment)
    (w : WorkerSettings Float)
    → load_worker_settings int float env ≡ some w
    → load_api_settings env
      ≡ some (record { database_url = w.database_url; consistency_mode = w.consistency_mode })
unfolding load_api_settings load_worker_settings
load_settings-agree int float env w h = ground arith
