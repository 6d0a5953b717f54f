-- ===== src/Scripts/Report/Timeline.antt =====
-- `collect_timeline_events` of scripts/run_application_tests.py.
use global_ledger_consistenc.Base.{
  String, Bool, true, ◌≡◌, refl, ◌&&◌, ◌||◌, not, Option, none, some, List, [], ◌∷◌, ◌++◌, All,
  Bool-cases, inl, inr, arith,
}
use global_ledger_consistenc.Contracts.{IncidentSeverity, severity_value}
use global_ledger_consistenc.Externals.{Json, Items, Fields, get_field}
use global_ledger_consistenc.Session.Accounts.{str_lt}
use global_ledger_consistenc.Sorting.{IsSorted, IsWeakOrder, sorted-IsSorted, All-sorted}
use global_ledger_consistenc.Sorting.Texts.{str_lt-IsWeakOrder}
use global_ledger_consistenc.Scripts.{Scenario}
use global_ledger_consistenc.Scripts.Experiment.Totals.{concat_map}
use global_ledger_consistenc.Scripts.Report.{
  ScenarioExecution, CollectedEvent, is_incident, infer_severity, text_of, collect_fields,
  collect_items, collect_execution, collect_timeline_events,
}

abbrev pub earlier : CollectedEvent → CollectedEvent → Bool
earlier a b = str_lt a.timestamp b.timestamp

earlier-IsWeakOrder : IsWeakOrder earlier
earlier-IsWeakOrder = record {
  asym = λ a b. str_lt-IsWeakOrder.asym a.timestamp b.timestamp;
  not_before = λ a b c. str_lt-IsWeakOrder.not_before a.timestamp b.timestamp c.timestamp;
}

-- An incident, if only those are wanted, with one of the three severities.
abbrev pub IsWanted : Bool → CollectedEvent → Type 0
IsWanted incidents_only e =
    ((not incidents_only || is_incident e.event) ≡ true)
    × ((s : IncidentSeverity) × (e.severity ≡ severity_value s))

module _ {A : Type 0} (P : A → Type 0) where
  All-append : (xs ys : List A) → All P xs → All P ys → All P (xs ++ ys)
  All-append [] ys h k = k
  All-append (x ∷ xs) ys h k = (h.0, All-append xs ys h.1 k)

  All-concat_map :
      {B : Type 0} (f : B → List A) (bs : List B)
      → ((b : B) → All P (f b))
      → All P (concat_map f bs)
  All-concat_map f [] h = tt
  All-concat_map f (b ∷ bs) h = All-append (f b) (concat_map f bs) (h b) (All-concat_map f bs h)

module _ (show : Json → String) (normal : String → String) (incidents_only : Bool) where
  collect_fields-IsWanted :
      (scenario : Scenario) (fields : Fields)
      → All (IsWanted incidents_only) (collect_fields show normal incidents_only scenario fields)
  unfolding collect_fields
  collect_fields-IsWanted scenario fields =
      let name = text_of show normal "unknown_event" (get_field "event" fields) in
      elim (Bool-cases (incidents_only && not (is_incident name))) [
        | inl e ↦ rw e tt
        | inr e ↦ rw e (
          (ground (arith, e), (infer_severity normal name (get_field "severity" fields), refl)),
          tt,
        )
      ]

  collect_items-IsWanted :
      (scenario : Scenario) (items : Items)
      → All (IsWanted incidents_only) (collect_items show normal incidents_only scenario items)
  unfolding collect_items
  collect_items-IsWanted scenario Items.nil = tt
  collect_items-IsWanted scenario (Items.cons (Json.object fields) rest) =
      All-append (IsWanted incidents_only)
        (collect_fields show normal incidents_only scenario fields)
        (collect_items show normal incidents_only scenario rest)
        (collect_fields-IsWanted scenario fields) (collect_items-IsWanted scenario rest)
  collect_items-IsWanted scenario (Items.cons Json.null rest) = collect_items-IsWanted scenario rest
  collect_items-IsWanted scenario (Items.cons (Json.bool b) rest) =
      collect_items-IsWanted scenario rest
  collect_items-IsWanted scenario (Items.cons (Json.int n) rest) =
      collect_items-IsWanted scenario rest
  collect_items-IsWanted scenario (Items.cons (Json.float s) rest) =
      collect_items-IsWanted scenario rest
  collect_items-IsWanted scenario (Items.cons (Json.str s) rest) =
      collect_items-IsWanted scenario rest
  collect_items-IsWanted scenario (Items.cons (Json.array items) rest) =
      collect_items-IsWanted scenario rest

  timeline-IsWanted :
      (scenario : Scenario) (timeline : Option Json)
      → All (IsWanted incidents_only) (elim timeline [
        | some (Json.array items) ↦ collect_items show normal incidents_only scenario items
        | _ ↦ []
      ])
  timeline-IsWanted scenario (some (Json.array items)) = collect_items-IsWanted scenario items
  timeline-IsWanted scenario none = tt
  timeline-IsWanted scenario (some Json.null) = tt
  timeline-IsWanted scenario (some (Json.bool b)) = tt
  timeline-IsWanted scenario (some (Json.int n)) = tt
  timeline-IsWanted scenario (some (Json.float s)) = tt
  timeline-IsWanted scenario (some (Json.str s)) = tt
  timeline-IsWanted scenario (some (Json.object fields)) = tt

  -- The collected timeline is in the order of the timestamps, tells of incidents only if only those
  -- are wanted, and gives each event one of the three severities, whatever JSON the summaries hold.
  pub collect_timeline_events-IsSorted :
      {Float : Type 0} (executions : List (ScenarioExecution Float))
      → IsSorted earlier (collect_timeline_events show normal executions incidents_only)
        × All
            (IsWanted incidents_only)
            (collect_timeline_events show normal executions incidents_only)
  unfolding collect_timeline_events
  collect_timeline_events-IsSorted executions =
      let collected = concat_map (collect_execution show normal incidents_only) executions in
      (
        sorted-IsSorted earlier earlier-IsWeakOrder collected,
        All-sorted earlier (IsWanted incidents_only) collected (
            All-concat_map (IsWanted incidents_only) (collect_execution show normal incidents_only)
              executions
              (λ x. unfold collect_execution in timeline-IsWanted x.scenario x.timeline)),
      )
