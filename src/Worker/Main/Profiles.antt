-- ===== src/Worker/Main/Profiles.antt =====
-- The processor that `build_processor` of ledger_worker/main.py makes of the profile `none`.
