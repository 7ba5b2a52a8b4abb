-- ===== src/WorkSteps/Views.antt =====
-- domain/work-steps.ts: the types of what `projectWorkFlow` takes and returns.
use world_wide_woo.Common.{ℕ, String, Option, none, some, List, []}
use world_wide_woo.Ledger.Native.{WorkStepStatus}
use world_wide_woo.WorkSteps.Entries.{
  PlanRevisionRef, DerivedPlanIdentity, PlanRetirement, PlanOrphan, PlanRejection,
  PlanReconciliation, Association,
}

pub data NarrationSource : Type 0 where
  model plan fallback : NarrationSource

pub record WorkStepNarration : Type 0 where
  pub what : String
  pub why : Option String
  pub input_summary : List String
  pub source : NarrationSource

abbrev pub fallback_narration : WorkStepNarration
fallback_narration = record {
  what = "작업을 진행합니다.";
  why = some "요청을 안전하게 처리하고 결과를 확인하기 위해서입니다.";
  input_summary = [];
  source = fallback;
}

pub data WorkFlowProjectionInput : Type 0 where
  plan_of : String → String → WorkFlowProjectionInput
  pending_goal_of : String → WorkFlowProjectionInput

-- `source`: the digest of the thread's key, the turn and the last revision.
pub record NativePlanSource : Type 0 where
  pub expected_thread_key_digest : String
  pub turn_id : String
  pub current_revision : PlanRevisionRef

-- `id` is the identity's value. An association is shown as it was kept: the turn that the source adds
-- to each of its sources is the projection's.
pub record SemanticWorkStep : Type 0 where
  pub identity : DerivedPlanIdentity
  pub current_revision : PlanRevisionRef
  pub reconciliation : PlanReconciliation
  pub association : Option Association
  pub number : ℕ
  pub title : String
  pub status : WorkStepStatus
  pub activity_ids : List String
  pub observation_count : ℕ
  pub narration : WorkStepNarration

pub record WorkFlowProjection : Type 0 where
  pub source : Option NativePlanSource
  pub retirements : List PlanRetirement
  pub orphans : List PlanOrphan
  pub rejections : List PlanRejection
  pub goal : String
  pub steps : List SemanticWorkStep
  pub completed_count : ℕ
  pub current_step_number : Option ℕ
  pub observation_count : ℕ
  pub summary : String

abbrev pub default_goal : String
default_goal = "현재 요청을 처리합니다."

abbrev pub waiting : String
waiting = "의미 있는 실행 단계를 기다리고 있습니다."

abbrev pub empty_projection : String → List PlanRejection → WorkFlowProjection
empty_projection goal rejections = record {
  source = none;
  retirements = [];
  orphans = [];
  rejections = rejections;
  goal = goal;
  steps = [];
  completed_count = 0;
  current_step_number = none;
  observation_count = 0;
  summary = waiting;
}
