-- ===== src/WorkSteps/Projection/Steps.antt =====
-- domain/work-steps.ts: what the steps of a projection hold, and what its numbers count.
use world_wide_woo.Common.{
  ℕ, suc, ◌+◌, ◌≡◌, refl, ap, sym, ◌∙◌, String, Option, none, some, List, [], ◌∷◌, find_index,
  length, sum_of, if◌then◌else◌, ok, >>=-eq-ok, ok-injective, arith,
}
use world_wide_woo.Dict.{Dict}
use world_wide_woo.Activities.{ProjectActivity}
use world_wide_woo.WorkSteps.Runtime.{WorkRuntime}
use world_wide_woo.WorkSteps.Entries.{
  WorkActivityClass, action, observation, Association, State, thread_digest,
}
use world_wide_woo.WorkSteps.Journal.{validate_journal, CheckedJournal}
use world_wide_woo.WorkSteps.Reconcile.Conserving.{association_weight, state_weight, orphan_weight}
use world_wide_woo.WorkSteps.Flow.{project_all}
use world_wide_woo.WorkSteps.Flow.Accounting.{activity_weight, project_all-held}
use world_wide_woo.WorkSteps.Views.{
  WorkStepNarration, plan_of, SemanticWorkStep, WorkFlowProjection,
}
use world_wide_woo.WorkSteps.Turns.{starts, interval}
use world_wide_woo.WorkSteps.Projection.{
  has_ids, step_of, steps_from, projection, project_turn, project_from, project_plan,
  project_work_flow, nothing_done,
}

sum_of-nothing {ℓ} : {A : Type ℓ} (w : A → ℕ) (xs : List A) → length xs ≡ 0 → sum_of w xs ≡ 0
sum_of-nothing w [] h = refl
sum_of-nothing w (x ∷ xs) h = cc (h)

module _ (weight : WorkActivityClass → String → ℕ) where
  abbrev pub held_by : Option Association → ℕ
  held_by none = 0
  held_by (some a) = association_weight weight a

  abbrev pub step_weight : SemanticWorkStep → ℕ
  step_weight s = held_by s.association

  held_by-has_ids :
      (a : Association) → held_by (if has_ids a then some a else none) ≡ association_weight weight a
  held_by-has_ids a = ground (
    arith,
    sum_of-nothing (weight action) a.actions,
    sum_of-nothing (weight observation) a.observations,
  )

  module _ (rt : WorkRuntime) (narrations : Dict WorkStepNarration) where
    steps_from-weight :
        (activities : List ProjectActivity) (n : ℕ) (ss : List State)
        → sum_of step_weight (steps_from rt narrations activities n ss)
          ≡ sum_of (state_weight weight) ss
    unfolding steps_from step_of
    steps_from-weight activities n [] = refl
    steps_from-weight activities n (s ∷ ss) =
        omega (arith, held_by-has_ids s.association, steps_from-weight activities (suc n) ss)

    project_turn-weight :
        (key turn : String) (j : CheckedJournal) (start : ℕ) {w : WorkFlowProjection}
        → project_turn rt narrations key turn j start ≡ ok w
        → sum_of step_weight w.steps + sum_of (orphan_weight weight) w.orphans
          ≡ sum_of (activity_weight weight rt) (interval key turn start j.activities)
    unfolding project_turn projection
    project_turn-weight key turn j start {w} h =
        let (p, looped, h') =
          >>=-eq-ok
            (project_all rt key turn (thread_digest rt key) (interval key turn start j.activities)
              nothing_done)
            _ h in
        let same = ok-injective h' in
        let steps = ap (λ v. sum_of step_weight v.steps) same in
        let orphans = ap (λ v. sum_of (orphan_weight weight) v.orphans) same in
        let counted =
          project_all-held weight rt key turn (thread_digest rt key)
            (interval key turn start j.activities) nothing_done looped in
        omega (arith, steps, orphans, counted, steps_from-weight j.activities 1 p.current)

    -- However the activities are weighed: what the steps' associations and the orphans of a plan's
    -- projection weigh is what the actions and observations of the turn weigh, in the journal that
    -- is kept; so each of them is in the association of one step, or is one orphan.
    pub project_work_flow-accounts :
        (key turn : String) (activities : List ProjectActivity) {j : CheckedJournal} {start : ℕ}
        {w : WorkFlowProjection}
        → validate_journal rt activities key ≡ ok j
        → find_index (starts key turn) j.activities ≡ some start
        → project_work_flow rt activities narrations (some (plan_of key turn)) ≡ ok w
        → sum_of step_weight w.steps + sum_of (orphan_weight weight) w.orphans
          ≡ sum_of (activity_weight weight rt) (interval key turn start j.activities)
    unfolding project_work_flow project_from
    project_work_flow-accounts key turn activities {j} {start} {w} checked found h =
        let run : project_plan rt narrations key turn activities
            ≡ project_turn rt narrations key turn j start =
          rw (project_plan, checked) (ap (project_from rt narrations key turn j) found) in
        project_turn-weight key turn j start {w = w} (sym run ∙ h)
