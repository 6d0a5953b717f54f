-- ===== src/Lib.antt =====
-- global-ledger-consistency-lab: a payment API, an asynchronous ledger worker and the database they
-- share, verified.
--
-- The program. `services/payments-api` takes payment requests under an idempotency key and, by its
-- consistency mode, applies a payment at once (strong), reserves the funds (hybrid) or only records the
-- request (eventual); the last two leave an event in an outbox table in the same transaction.
-- `services/ledger-worker` leases batches of events, settles their payments, retries with backoff and
-- gives up on events that cannot be settled; a reconciliation checks the books. `shared` has the
-- contracts and the tables. The two services meet in the database only.
--
-- The files.
--   Base, Int, Table: shared names; Python's integers; a table as a list of rows with a primary key.
--   Contracts: shared/src/shared/contracts (enums, messages, requests and their validation).
--   Orm, Orm/Flush: shared/src/shared/db/orm_models.py; the rows, and the inserts of a commit under the
--     unique columns.
--   Externals: what is not in the repository (json, sha256, pydantic, Unicode digits, collation), as
--     parameters.
--   Session: SQLAlchemy's session as the program uses it, a state and exception monad. The counters of
--     the process are part of the state and survive a rollback. Session/Transaction is
--     `with session.begin()`; Session/Accounts the pair of account locks;
--     Session/Entries the two ledger rows of a transfer.
--   Payments: services/payments-api/payments_api. UseCase and CreatePayment are
--     use_cases/create_payment.py and api/routes_payments.py, Strategies is use_cases/mode_strategies.py,
--     Migrate is db/migrate.py. Config: core/config.py.
--   Worker: services/ledger-worker/ledger_worker. Payload, Handlers and Processor are
--     services/processor.py and services/mode_strategies.py, Outbox is
--     repositories/outbox_repository.py, Reconciliation is services/reconciliation.py, Main is
--     build_processor and the loop of main.py, Injector is services/failure_injector.py. Retries,
--     Outbox/Leases, Outbox/Holds and Outbox/Order state how events are retried, taken, kept and
--     ordered; Main/Intervals when the loop reconciles, Main/Profiles what processor a profile gives.
--   Ledger: the aggregate queries of both services and `GET /internal/stats`.
--   System: the abstract machine. Effects says what each unit of work changes, Steps makes a step
--     relation and its runs of them; Intake and Work relate the code of the two services to such steps;
--     Replay and Refusals are about answered and refused requests; Books,
--     Solvency, Postings, Finality, Start and Verdicts about invariants, by induction on runs. Reserves
--     is about the funds that hybrid mode sets aside and the events that settle them, Convergence about
--     the events of open payments and the drained outbox, Progress about one event until it is closed.
--   Scripts: the checks of scripts/run_application_tests.py. Scripts/Experiment is
--     scripts/run_experiment.py: requests, timeline and incidents, Experiment/Setup its environment and
--     its loop over the runs, Experiment/Totals the summary, Waiting its waiting loops (Waiting/Answers by what the API answers) and Percentile its
--     percentiles; Experiment/Incidents and Experiment/Verdicts state what a report tells.
--     Scripts/Report is the scenarios, commands and collected timeline of run_application_tests.py,
--     Report/Checklist its summary of a mode and its checklist.
--   Sorting: Python's `sorted`, with Sorting/Texts for `<` on texts.
--   Examples: concrete data and the theorems at it.
--
-- The correspondence. A unit of work is one function on a session: its reads see `db`, its changes to
-- loaded rows go to `db`, `session.add` puts rows into `pending`, and the end of the `with` block
-- flushes and commits, or rolls back. What surrounds it enters as arguments: `Conditions` (whether the
-- database answers and commits, and what other processes commit in between), `Draws` and `EntryDraws`
-- (uuid4 and the clock), `Externals`. Interleavings of processes are sequences of committed units of
-- work, in any order; inside a unit the row locks make it one step, except that others may commit
-- between the lookup of an idempotency key and the account locks, which `Conditions.others` stands for.
-- Amounts and balances are unbounded integers with a sign; times are microseconds. Only the two waiting
-- loops of the experiment run on a number of rounds: a round of theirs sleeps 0.3 and 0.5 seconds and they
-- time out after 20 and 60 seconds, so that 68 and 121 rounds are enough. Floats are a parameter with the
-- operations that the scripts use; laws of theirs are hypotheses.
--
-- Not modelled: FastAPI, SQLAlchemy, OpenTelemetry and Prometheus themselves, the DDL of the tables, the
-- processes and HTTP requests of the scripts, the text of the metrics, logging and HTML.
pub mod Base
pub mod Int
pub mod Sorting
pub mod Table
pub mod Config
pub mod Contracts
pub mod Orm
pub mod Externals
pub mod Scripts
pub mod Session
pub mod Payments
pub mod Worker
pub mod Ledger
pub mod System
pub mod Examples
