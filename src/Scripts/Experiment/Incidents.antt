-- ===== src/Scripts/Experiment/Incidents.antt =====
-- The incidents in the timeline of a run of scripts/run_experiment.py.
use global_ledger_consistenc.Base.{
  ℕ, String, Bool, true, false, ◌≡◌, ◌∙◌, refl, ap, ◌||◌, ◌&&◌, not, ◌==◌, some, List, [], ◌∷◌, ltb,
  arith,
}
use global_ledger_consistenc.Int.{pos}
use global_ledger_consistenc.Contracts.{IncidentSeverity}
use global_ledger_consistenc.Ledger.{Stats}
use global_ledger_consistenc.Scripts.{eq_ℤ}
use global_ledger_consistenc.Scripts.Waiting.{equals}
use global_ledger_consistenc.Scripts.Experiment.{
  Args, Texts, TimelineEvent, append, add_timeline_event, add_if, add_incidents, started_timeline,
  loaded_timeline, run_timeline, RunResult, Met, run_single_experiment,
}

-- An event of this name stands in the timeline.
abbrev pub tells_of : String → List TimelineEvent → Bool
tells_of name [] = false
tells_of name (e ∷ timeline) = (e.event == name) || tells_of name timeline

tells_of-append :
    (name : String) (e : TimelineEvent) (timeline : List TimelineEvent)
    → tells_of name (append timeline e) ≡ ((e.event == name) || tells_of name timeline)
tells_of-append name e [] = refl
tells_of-append name e (x ∷ timeline) = ground (arith, tells_of-append name e timeline)

module _ (times : ℕ → String) (name : String) where
  tells_of-add :
      (timeline : List TimelineEvent) (event details : String) (severity : IncidentSeverity)
      → tells_of name (add_timeline_event times timeline event details severity)
        ≡ ((event == name) || tells_of name timeline)
  unfolding add_timeline_event
  tells_of-add timeline event details severity = tells_of-append name _ timeline

module _ {Float : Type 0} (int_of : Float → ℕ) (texts : Texts) (args : Args) (times : ℕ → String)
    (name : String) where
  tells_of-add_if :
      (test : Bool) (timeline : List TimelineEvent) (event details : String)
      (severity : IncidentSeverity)
      → tells_of name (add_if int_of texts args times test timeline event details severity)
        ≡ ((test && (event == name)) || tells_of name timeline)
  unfolding add_if
  tells_of-add_if true timeline event details severity =
      tells_of-add times name timeline event details severity
  tells_of-add_if false timeline event details severity = refl

  -- The incidents among the events of a timeline.
  tells_of-incidents :
      (timeline : List TimelineEvent) (retries : ℕ) (stats : Stats)
      → tells_of name (add_incidents int_of texts args times timeline retries stats) ≡ (
          (not (equals stats.negative_balance_detected 0)
            && ("incident_invariant_negative_balance" == name))
          || ((not (eq_ℤ stats.ledger_imbalance (pos 0))
                && ("incident_invariant_imbalance" == name))
              || ((ltb 0 stats.rejected && ("incident_business_rejections" == name))
                  || ((ltb 0 retries && ("incident_dependency_instability" == name))
                      || tells_of name timeline))))
  unfolding add_incidents
  tells_of-incidents timeline retries stats = simp tells_of-add_if refl

  -- No other event has the name.
  abbrev IsIncident : Type 0
  IsIncident =
      (("services_terminated" == name) ≡ false)
      × (("outbox_drained" == name) ≡ false)
      × (("load_completed" == name) ≡ false)
      × (("load_started" == name) ≡ false)
      × (("api_healthy" == name) ≡ false)
      × (("services_started" == name) ≡ false)
      × (("migration_completed" == name) ≡ false)
      × (("run_started" == name) ≡ false)

  tells_of-loaded :
      (run_label : String) (api_pid worker_pid : ℕ) (statuses : List ℕ) (stats : Stats)
      → IsIncident
      → tells_of name (
          loaded_timeline int_of texts args times
            (started_timeline int_of texts args times run_label api_pid worker_pid)
            statuses
            stats)
        ≡ false
  unfolding loaded_timeline started_timeline
  tells_of-loaded run_label api_pid worker_pid statuses stats
        (_, drained, completed, load, healthy, services, migration, run) =
      simp (drained, completed, load, healthy, services, migration, run) refl

  tells_of-run :
      (run_label : String) (api_pid worker_pid : ℕ) (statuses : List ℕ) (stats : Stats)
      (retries : ℕ)
      → IsIncident
      → tells_of name
          (run_timeline int_of texts args times run_label api_pid worker_pid statuses stats retries)
        ≡ ((not (equals stats.negative_balance_detected 0)
              && ("incident_invariant_negative_balance" == name))
            || ((not (eq_ℤ stats.ledger_imbalance (pos 0))
                  && ("incident_invariant_imbalance" == name))
                || ((ltb 0 stats.rejected && ("incident_business_rejections" == name))
                    || ((ltb 0 retries && ("incident_dependency_instability" == name)) || false))))
  tells_of-run run_label api_pid worker_pid statuses stats retries other =
      simp
        (
          tells_of-add times name,
          tells_of-incidents,
          tells_of-loaded run_label api_pid worker_pid statuses stats other,
          other.0,
        )
        refl

module _ {Float : Type 0} (int_of : Float → ℕ) (texts : Texts) (args : Args) where
  reported :
      (met : Met Float) (run_label : String) (r : RunResult Float)
      → run_single_experiment int_of texts args met run_label ≡ some r
      → r.timeline
        ≡ run_timeline int_of texts args met.times run_label met.api_pid met.worker_pid r.statuses
            r.stats
            (int_of r.metrics.outbox_retry_total)
  unfolding run_single_experiment
  reported met run_label r h = ground (arith, h)

  -- A run that is reported tells of an unstable dependency exactly if there were retries, of business
  -- rejections exactly if a payment was rejected, and of a broken invariant exactly if the ledger was
  -- not balanced or a balance was negative.
  pub run_single_experiment-incidents :
      (met : Met Float) (run_label : String) (r : RunResult Float)
      → run_single_experiment int_of texts args met run_label ≡ some r
      → (tells_of "incident_dependency_instability" r.timeline
          ≡ ltb 0 (int_of r.metrics.outbox_retry_total))
        × (tells_of "incident_business_rejections" r.timeline ≡ ltb 0 r.stats.rejected)
        × (tells_of "incident_invariant_imbalance" r.timeline
            ≡ not (eq_ℤ r.stats.ledger_imbalance (pos 0)))
        × (tells_of "incident_invariant_negative_balance" r.timeline
            ≡ not (equals r.stats.negative_balance_detected 0))
  run_single_experiment-incidents met run_label r h =
      let e = reported met run_label r h in
      let shows = λ (name : String) (other : IsIncident int_of texts args met.times name).
        ap (tells_of name) e
        ∙ tells_of-run int_of texts args met.times name run_label met.api_pid met.worker_pid
            r.statuses r.stats (int_of r.metrics.outbox_retry_total) other in
      (
        ground (
          arith,
          shows "incident_dependency_instability" (refl, refl, refl, refl, refl, refl, refl, refl),
        ),
        ground (
          arith,
          shows "incident_business_rejections" (refl, refl, refl, refl, refl, refl, refl, refl),
        ),
        ground (
          arith,
          shows "incident_invariant_imbalance" (refl, refl, refl, refl, refl, refl, refl, refl),
        ),
        ground (
          arith,
          shows "incident_invariant_negative_balance"
              (refl, refl, refl, refl, refl, refl, refl, refl),
        ),
      )
