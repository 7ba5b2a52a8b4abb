-- ===== src/WorkSteps/Projection.antt =====
-- domain/work-steps.ts: `projectWorkFlow`, from a journal and the narrations of a model to the goal
-- and the steps that are shown.
pub mod Counting
pub mod Counts
pub mod Steps
use Prim.Native.String
use world_wide_woo.Common.{
  ℕ, zero, suc, ◌+◌, String, Bool, true, false, not, ◌&&◌, ◌||◌, Option, none, some, List, [], ◌∷◌,
  ◌++◌, map, length, take, drop, find, find_index, count, sum_of, ◌is◌, ltb, if◌then◌else◌, Result,
  ok, err, ◌>>=◌,
}
use world_wide_woo.Value.{Value, array, object, Fields, get, text_of, is_empty}
use world_wide_woo.Decimal.{append, decimal as print}
use world_wide_woo.Dict.{Dict, lookup}
use world_wide_woo.Activities.{ProjectActivity, ProjectActivityKind, text_is}
use world_wide_woo.Ledger.Native.{WorkStepStatus, pending, running, completed, last_n}
use world_wide_woo.WorkSteps.Runtime.{
  WorkRuntime, DplanError, record_at, public_text, technical_narration,
}
use world_wide_woo.WorkSteps.Journal.{has_method, validate_journal, CheckedJournal}
use world_wide_woo.WorkSteps.Entries.{
  PlanRevisionRef, DerivedPlanIdentity, PlanRetirement, PlanOrphan, PlanRejection,
  PlanReconciliation, Source, Association, State, thread_digest,
}
use world_wide_woo.WorkSteps.Flow.{Progress, text_eq, is_of_turn, project_all}
use world_wide_woo.WorkSteps.Views.{
  NarrationSource, WorkStepNarration, fallback_narration, WorkFlowProjectionInput, NativePlanSource,
  SemanticWorkStep, WorkFlowProjection, default_goal, waiting, empty_projection, model, plan,
  fallback, plan_of, pending_goal_of,
}
use world_wide_woo.WorkSteps.Turns.{
  is_turn_start, find_last, is_message, is_request, is_goal, starts, starts_another, interval,
}

abbrev pub has_parts : Value → Bool
has_parts (array vs) = true
has_parts (object fs) = true
has_parts _ = false

abbrev pub text_or : Value → Option String → Option String
text_or v other = elim (text_of v) [ none ↦ other | some s ↦ some s ]

abbrev pub nothing_done : Progress
nothing_done = record {
  current = [];
  current_revision = none;
  invalid = false;
  ordinal = 0;
  seeds = [];
  retirements = [];
  orphans = [];
  rejections = [];
}

abbrev pub is_completed : SemanticWorkStep → Bool
is_completed s = elim s.status [ completed ↦ true | _ ↦ false ]

abbrev pub is_running_step : SemanticWorkStep → Bool
is_running_step s = elim s.status [ running ↦ true | _ ↦ false ]

abbrev pub is_pending_step : SemanticWorkStep → Bool
is_pending_step s = elim s.status [ pending ↦ true | _ ↦ false ]

abbrev pub current_step : List SemanticWorkStep → Option SemanticWorkStep
current_step steps = elim (find is_running_step steps) [
  | some s ↦ some s
  | none ↦ find is_pending_step steps
]

abbrev pub has_ids : Association → Bool
has_ids a = ltb 0 (length a.actions) || ltb 0 (length a.observations)

abbrev pub summary_of : List SemanticWorkStep → String
unfolding append
summary_of [] = waiting
summary_of (s ∷ ss) =
    append (print (count is_completed (s ∷ ss)))
      (append "/" (append (print (length (s ∷ ss))) " 단계를 완료했습니다."))

-- What is returned after the loop.
unfoldable pub projection :
    String
    → String
    → String
    → List PlanRejection
    → List SemanticWorkStep
    → Progress
    → WorkFlowProjection
unfolding summary_of
projection turn thread goal rejections steps p = record {
  source = elim p.current_revision [
    | none ↦ none
    | some ref ↦
        some record { expected_thread_key_digest = thread; turn_id = turn; current_revision = ref }
  ];
  retirements = p.retirements;
  orphans = p.orphans;
  rejections = rejections ++ p.rejections;
  goal = goal;
  steps = steps;
  completed_count = count is_completed steps;
  current_step_number = elim (current_step steps) [ none ↦ none | some s ↦ some s.number ];
  observation_count = sum_of (λ s. s.observation_count) steps;
  summary = summary_of steps;
}

-- The rejection of the journal, if there is one.
abbrev pub journal_rejections : CheckedJournal → List PlanRejection
journal_rejections j = elim j.rejection [ none ↦ [] | some r ↦ r ∷ [] ]

module _ (rt : WorkRuntime) where
  abbrev pub goal_text : Option ProjectActivity → String
  unfolding public_text get
  goal_text none = default_goal
  goal_text (some a) = elim (text_of (get "text" a.payload)) [
    | none ↦ default_goal
    | some s ↦ public_text rt s
  ]

  unfoldable pub narration : Option WorkStepNarration → String → List String → WorkStepNarration
  unfolding technical_narration
  narration none title inputs = record {
    what = title;
    why = none;
    input_summary = inputs;
    source = plan;
  }
  narration (some given) title inputs =
      if technical_narration rt given.what || elim given.why [
        | none ↦ false
        | some why ↦ not (is_empty why) && technical_narration rt why
      ]
      then fallback_narration
      else given

  abbrev pub summarize_item : Value → Fields → List String
  unfolding get public_text append
  summarize_item method item =
      if has_parts (get "arguments" item)
      then append "args: " (public_text rt (rt.stringify (get "arguments" item))) ∷ []
      else elim (text_or (get "command" item)
          (text_or (get "tool" item) (text_or (get "toolName" item) (text_of method)))) [
            | none ↦ []
            | some s ↦ public_text rt s ∷ []
          ]

  unfoldable pub activity_summary : Option ProjectActivity → List String
  unfolding record_at summarize_item
  activity_summary none = []
  activity_summary (some a) = elim (record_at "params" a.payload) [
    | none ↦ []
    | some params ↦
        let item : Fields = elim (record_at "item" params) [ none ↦ params | some f ↦ f ] in
        summarize_item (get "method" a.payload) item
  ]

  -- The ids of the journal that is kept are distinct: the first with the id is the last.
  abbrev pub summaries : List ProjectActivity → List String → List String
  unfolding activity_summary
  summaries activities [] = []
  summaries activities (id ∷ ids) =
      activity_summary (find (λ a. a.id is id) activities) ++ summaries activities ids

  module _ (narrations : Dict WorkStepNarration) (activities : List ProjectActivity) where
    unfoldable pub step_of : ℕ → State → SemanticWorkStep
    unfolding lookup narration summaries
    step_of number s = record {
      identity = s.identity;
      current_revision = s.current_revision;
      reconciliation = s.reconciliation;
      association = if has_ids s.association then some s.association else none;
      number = number;
      title = s.entry.title;
      status = s.entry.status;
      activity_ids = s.association.actions;
      observation_count = length s.association.observations;
      narration =
          narration (lookup s.identity.value narrations) s.entry.title
            (summaries activities (last_n 8 (s.association.actions ++ s.association.observations)));
    }

    -- The steps, numbered from `n` on.
    unfoldable pub steps_from : ℕ → List State → List SemanticWorkStep
    unfolding step_of
    steps_from n [] = []
    steps_from n (s ∷ ss) = step_of n s ∷ steps_from (suc n) ss

  module _ (narrations : Dict WorkStepNarration) (key turn : String) where
    -- The turn that starts at the index `start` of a checked journal.
    unfoldable pub project_turn : CheckedJournal → ℕ → Result DplanError WorkFlowProjection
    unfolding interval goal_text thread_digest project_all steps_from projection get
    project_turn j start =
        let goal = goal_text (find_last (is_goal key turn) (take start j.activities)) in
        let thread = thread_digest rt key in
        project_all rt key turn thread (interval key turn start j.activities) nothing_done >>= λ p.
        ok (
          projection turn thread goal (journal_rejections j)
            (steps_from narrations j.activities 1 p.current) p)

    -- The same, where the turn may have no start.
    unfoldable pub project_from : CheckedJournal → Option ℕ → Result DplanError WorkFlowProjection
    unfolding project_turn
    project_from j none = ok (empty_projection default_goal (journal_rejections j))
    project_from j (some start) = project_turn j start

    unfoldable pub project_plan : List ProjectActivity → Result DplanError WorkFlowProjection
    unfolding validate_journal get starts project_from
    project_plan activities = validate_journal rt activities key >>= λ j.
        project_from j (find_index (starts key turn) j.activities)

  abbrev pub pending_goal : String → List ProjectActivity → Option ProjectActivity
  unfolding get
  pending_goal key = find_last (λ a. text_eq a.native_refs.thread_id key && is_request a)

  unfoldable pub project_work_flow :
      List ProjectActivity
      → Dict WorkStepNarration
      → Option WorkFlowProjectionInput
      → Result DplanError WorkFlowProjection
  unfolding project_plan get goal_text
  project_work_flow activities narrations none = ok (empty_projection default_goal [])
  project_work_flow activities narrations (some (pending_goal_of key)) =
      ok (empty_projection (goal_text (pending_goal key activities)) [])
  project_work_flow activities narrations (some (plan_of key turn)) =
      project_plan narrations key turn activities
