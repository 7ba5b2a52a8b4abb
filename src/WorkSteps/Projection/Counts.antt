-- ===== src/WorkSteps/Projection/Counts.antt =====
-- domain/work-steps.ts: what the numbers of a projection count, against a description of their own.
use world_wide_woo.Common.{
  ℕ, suc, ◌≡◌, refl, inl, inr, String, Option, none, some, List, [], ◌∷◌, find, find_index, length,
  sum_of, Option-cases, ok, >>=-eq-ok, ok_subst, arith, if◌then◌else◌,
}
use world_wide_woo.Dict.{Dict}
use world_wide_woo.Activities.{ProjectActivity}
use world_wide_woo.Ledger.Native.{pending, running, completed}
use world_wide_woo.WorkSteps.Runtime.{WorkRuntime}
use world_wide_woo.WorkSteps.Entries.{PlanRejection, Association, State, thread_digest}
use world_wide_woo.WorkSteps.Journal.{validate_journal, CheckedJournal}
use world_wide_woo.WorkSteps.Flow.{Progress, project_all}
use world_wide_woo.WorkSteps.Views.{
  WorkStepNarration, WorkFlowProjectionInput, plan_of, pending_goal_of, SemanticWorkStep,
  WorkFlowProjection, empty_projection, default_goal,
}
use world_wide_woo.WorkSteps.Turns.{starts, interval}
use world_wide_woo.WorkSteps.Projection.{
  journal_rejections, has_ids, is_completed, is_running_step, is_pending_step, current_step,
  step_of, steps_from, projection, project_turn, project_from, project_plan, project_work_flow,
  nothing_done,
}
use world_wide_woo.WorkSteps.Projection.Counting.{
  HaveStatus, no_steps, IsCurrent, runs, waits, all_done, AreNumbered, completed-Tests,
  running-Tests, pending-Tests, count-HaveStatus, find-HaveStatus, find-IsFirst,
}

-- The observations that a step is associated with.
abbrev pub observed : Option Association → ℕ
observed none = 0
observed (some a) = length a.observations

pub record IsCounted (w : WorkFlowProjection) : Type 0 where
  pub completed : HaveStatus completed w.steps w.completed_count
  pub current : IsCurrent w.steps w.current_step_number
  pub observations : w.observation_count ≡ sum_of (λ s. observed s.association) w.steps

current_step-IsCurrent :
    (ss : List SemanticWorkStep)
    → AreNumbered 1 ss
    → IsCurrent ss (elim (current_step ss) [ none ↦ none | some s ↦ some s.number ])
current_step-IsCurrent ss numbered = elim (Option-cases (find is_running_step ss)) [
  | inr (s, first) ↦
      rw first (runs (find-IsFirst is_running_step running running-Tests ss s numbered first))
  | inl none' ↦
      let idle = find-HaveStatus is_running_step running running-Tests ss none' in
      elim (Option-cases (find is_pending_step ss)) [
        | inl nothing ↦
            rw (none', nothing)
              (all_done idle (find-HaveStatus is_pending_step pending pending-Tests ss nothing))
        | inr (s, first) ↦
            rw (none', first)
              (waits idle (find-IsFirst is_pending_step pending pending-Tests ss s numbered first))
      ]
]

observed-has_ids :
    (a : Association) → observed (if has_ids a then some a else none) ≡ length a.observations
observed-has_ids a = ground arith

steps_from-observed :
    (rt : WorkRuntime) (narrations : Dict WorkStepNarration) (activities : List ProjectActivity)
    (n : ℕ) (ss : List State)
    → sum_of (λ s. s.observation_count) (steps_from rt narrations activities n ss)
      ≡ sum_of (λ s. observed s.association) (steps_from rt narrations activities n ss)
unfolding steps_from step_of
steps_from-observed rt narrations activities n [] = refl
steps_from-observed rt narrations activities n (s ∷ ss) =
    omega (
      arith,
      observed-has_ids s.association,
      steps_from-observed rt narrations activities (suc n) ss,
    )

steps_from-AreNumbered :
    (rt : WorkRuntime) (narrations : Dict WorkStepNarration) (activities : List ProjectActivity)
    (n : ℕ) (ss : List State)
    → AreNumbered n (steps_from rt narrations activities n ss)
unfolding steps_from step_of
steps_from-AreNumbered rt narrations activities n [] = tt
steps_from-AreNumbered rt narrations activities n (s ∷ ss) =
    (refl, steps_from-AreNumbered rt narrations activities (suc n) ss)

projection-IsCounted :
    (rt : WorkRuntime) (turn thread goal : String) (rejections : List PlanRejection)
    (steps : List SemanticWorkStep) (p : Progress)
    → AreNumbered 1 steps
    → sum_of (λ s. s.observation_count) steps ≡ sum_of (λ s. observed s.association) steps
    → IsCounted (projection turn thread goal rejections steps p)
unfolding projection
projection-IsCounted rt turn thread goal rejections steps p numbered observations = record {
  completed = count-HaveStatus is_completed completed completed-Tests steps;
  current = current_step-IsCurrent steps numbered;
  observations = observations;
}

project_turn-IsCounted :
    (rt : WorkRuntime) (narrations : Dict WorkStepNarration) (key turn : String)
    (j : CheckedJournal) (start : ℕ) {w : WorkFlowProjection}
    → project_turn rt narrations key turn j start ≡ ok w
    → IsCounted w
unfolding project_turn
project_turn-IsCounted rt narrations key turn j start {w} h =
    let (p, looped, h') =
      >>=-eq-ok
        (project_all rt key turn (thread_digest rt key) (interval key turn start j.activities)
          nothing_done)
        _ h in
    ok_subst IsCounted h' (
      projection-IsCounted rt turn (thread_digest rt key) _ _ _ p
        (steps_from-AreNumbered rt narrations j.activities 1 p.current)
        (steps_from-observed rt narrations j.activities 1 p.current))

empty-IsCounted :
    (goal : String) (rejections : List PlanRejection) → IsCounted (empty_projection goal rejections)
empty-IsCounted goal rejections = record {
  completed = no_steps;
  current = all_done no_steps no_steps;
  observations = refl;
}

project_from-IsCounted :
    (rt : WorkRuntime) (narrations : Dict WorkStepNarration) (key turn : String)
    (j : CheckedJournal) (start : Option ℕ) {w : WorkFlowProjection}
    → project_from rt narrations key turn j start ≡ ok w
    → IsCounted w
unfolding project_from
project_from-IsCounted rt narrations key turn j none h =
    ok_subst IsCounted h (empty-IsCounted default_goal (journal_rejections j))
project_from-IsCounted rt narrations key turn j (some start) h =
    project_turn-IsCounted rt narrations key turn j start h

-- In whatever is projected: the number of completed steps is that of the steps of this status, the
-- current step's number is the place of the first step that runs, or else of the first pending one,
-- and is missing only where no step runs or is pending, and the number of observations is that of
-- the observations in the steps' associations.
pub project_work_flow-IsCounted :
    (rt : WorkRuntime) (activities : List ProjectActivity) (narrations : Dict WorkStepNarration)
    (input : Option WorkFlowProjectionInput) {w : WorkFlowProjection}
    → project_work_flow rt activities narrations input ≡ ok w
    → IsCounted w
unfolding project_work_flow project_plan
project_work_flow-IsCounted rt activities narrations none h =
    ok_subst IsCounted h (empty-IsCounted default_goal [])
project_work_flow-IsCounted rt activities narrations (some (pending_goal_of key)) h =
    ok_subst IsCounted h (empty-IsCounted _ [])
project_work_flow-IsCounted rt activities narrations (some (plan_of key turn)) {w} h =
    let (j, checked, h') = >>=-eq-ok (validate_journal rt activities key) _ h in
    project_from-IsCounted rt narrations key turn j (find_index (starts key turn) j.activities) h'
