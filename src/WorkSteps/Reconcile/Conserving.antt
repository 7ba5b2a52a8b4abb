-- ===== src/WorkSteps/Reconcile/Conserving.antt =====
-- domain/work-steps.ts: what becomes of the activities of a plan's items in `reconcile`.
use world_wide_woo.Common.{
  ℕ, suc, ◌+◌, ◌≡◌, refl, ap, String, List, [], ◌∷◌, ◌++◌, map, sum_of, sum_of-append, sum_of-map,
  ok, arith,
}
use world_wide_woo.Dict.{Dict}
use world_wide_woo.WorkSteps.Runtime.{WorkRuntime}
use world_wide_woo.WorkSteps.Entries.{
  WorkActivityClass, action, observation, Association, State, Entry, PlanOrphan, PlanRevisionRef,
}
use world_wide_woo.WorkSteps.Matches.{Revising, Matches, has_old, matches_of, unmatched_new}
use world_wide_woo.WorkSteps.Reconcile.{
  Reconciled, mint, orphaned, orphan_of, reconcile, retirement_reason, retain,
}
use world_wide_woo.WorkSteps.Reconcile.Weighing.{reconcile-weight, reconcile-orphaned}
use world_wide_woo.WorkSteps.Matches.Balancing.{left_weight, matches_of-Balances}

-- A weight of activities, by their kind and id. What holds of every weight holds of the multiset of
-- the activities: the weight that is 1 at one kind and id, and 0 elsewhere, counts them.
module _ (weight : WorkActivityClass → String → ℕ) where
  abbrev pub association_weight : Association → ℕ
  association_weight a =
      sum_of (weight action) a.actions + sum_of (weight observation) a.observations

  abbrev pub state_weight : State → ℕ
  state_weight s = association_weight s.association

  abbrev pub orphan_weight : PlanOrphan → ℕ
  orphan_weight o = weight o.activity_kind o.activity_id

  module _ (r : Revising) (ref : PlanRevisionRef) where
    orphaned-weight :
        (ms : Matches) (i : ℕ) (ss : List State)
        → sum_of orphan_weight (orphaned r ref ms i ss) ≡ left_weight state_weight r ms i ss
    unfolding orphaned left_weight has_old
    orphaned-weight ms i [] = refl
    orphaned-weight ms i (s ∷ ss) =
        let orphan =
          orphan_of (retirement_reason r (unmatched_new r ms) s.entry) s.identity.value ref in
        let actions = map (orphan action) s.association.actions in
        let observations = map (orphan observation) s.association.observations in
        let rest = orphaned r ref ms (suc i) ss in
        ground (
          arith,
          orphaned-weight ms (suc i) ss,
          sum_of-append orphan_weight actions (observations ++ rest),
          sum_of-append orphan_weight observations rest,
          sum_of-map orphan_weight (orphan action) s.association.actions,
          sum_of-map orphan_weight (orphan observation) s.association.observations,
        )

    module _ (rt : WorkRuntime) (thread : String) (ordinal : ℕ) where
      mint-weight :
          (position : ℕ) (e : Entry) {state : State}
          → mint rt thread ref ordinal position e ≡ ok state
          → state_weight state ≡ 0
      unfolding mint
      mint-weight position e h = ground arith

      -- However the activities are weighed, the states and the new orphans weigh what the old states did.
      pub reconcile-Conserves :
          (seeds : Dict String) {result : Reconciled}
          → reconcile rt thread ref ordinal r seeds ≡ ok result
          → sum_of state_weight result.states + sum_of orphan_weight result.orphans
            ≡ sum_of state_weight r.old
      unfolding retain
      reconcile-Conserves seeds {result} h = omega (
        arith,
        ap (sum_of orphan_weight) (reconcile-orphaned r ref rt thread ordinal seeds h),
        orphaned-weight (matches_of r) 0 r.old,
        reconcile-weight r ref rt thread ordinal state_weight state_weight (λ s e. refl)
            (λ position e state. mint-weight position e {state = state}) seeds h,
        matches_of-Balances state_weight r,
      )
