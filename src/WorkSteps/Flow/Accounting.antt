-- ===== src/WorkSteps/Flow/Accounting.antt =====
-- domain/work-steps.ts: where the actions and observations of a turn end.
use world_wide_woo.Common.{
  ℕ, suc, ◌+◌, ◌≡◌, refl, ap, inl, inr, String, true, List, [], ◌∷◌, map, count, sum_of,
  sum_of-append, ◌==◌, if◌then◌else◌, Bool-cases, Option-cases, Result-cases, ok, >>=-eq-ok,
  ok-injective, arith,
}
use world_wide_woo.Activities.{ProjectActivity}
use world_wide_woo.WorkSteps.Runtime.{WorkRuntime}
use world_wide_woo.WorkSteps.Classes.{classify_work_activity}
use world_wide_woo.WorkSteps.Journal.{has_method}
use world_wide_woo.WorkSteps.Entries.{
  WorkActivityClass, action, observation, control, PlanOrphanReason, source_mismatch,
  invalid_revision, pre_plan, no_unambiguous_running_item, Association, State, Entry, parse_plan,
  revision,
}
use world_wide_woo.WorkSteps.Reconcile.{reconcile}
use world_wide_woo.WorkSteps.Reconcile.Conserving.{
  association_weight, state_weight, orphan_weight, reconcile-Conserves,
}
use world_wide_woo.WorkSteps.Flow.{
  Progress, is_running, is_of_turn, emit_orphan, orphan_now, attach, close_sources, place,
  place_work, add_to_association, revised, reject, accept_plan, take_plan, project_activity,
  project_all,
}

module _ (weight : WorkActivityClass → String → ℕ) where
  -- What the states and the orphans hold.
  abbrev pub held : Progress → ℕ
  held p = sum_of (state_weight weight) p.current + sum_of (orphan_weight weight) p.orphans

  abbrev pub class_weight : WorkActivityClass → String → ℕ
  class_weight control id = 0
  class_weight kind id = weight kind id

  -- What an activity of the turn weighs: nothing if it is a plan or is classified as control.
  abbrev pub activity_weight : WorkRuntime → ProjectActivity → ℕ
  activity_weight rt a =
      if has_method "turn/plan/updated" a
      then 0
      else class_weight (classify_work_activity rt a) a.id

  emit-held :
      (kind : WorkActivityClass) (a : ProjectActivity) (reason : PlanOrphanReason) (p : Progress)
      → held (emit_orphan kind a reason p) ≡ held p + class_weight kind a.id
  unfolding emit_orphan
  emit-held control a reason p = omega arith
  emit-held action a reason p =
      omega
        (arith, sum_of-append (orphan_weight weight) p.orphans (orphan_now action a reason p ∷ []))
  emit-held observation a reason p = omega (
    arith,
    sum_of-append (orphan_weight weight) p.orphans (orphan_now observation a reason p ∷ []),
  )

  action-grows :
      (start : ℕ) (id : String) (a : Association)
      → association_weight weight (add_to_association start action id a)
        ≡ association_weight weight a + class_weight action id
  unfolding add_to_association
  action-grows start id a = omega (arith, sum_of-append (weight action) a.actions (id ∷ []))

  observation-grows :
      (start : ℕ) (id : String) (a : Association)
      → association_weight weight (add_to_association start observation id a)
        ≡ association_weight weight a + class_weight observation id
  unfolding add_to_association
  observation-grows start id a =
      omega (arith, sum_of-append (weight observation) a.observations (id ∷ []))

  attach-weight :
      (start : ℕ) (kind : WorkActivityClass) (id : String) (ss : List State)
      → ((a : Association)
          → association_weight weight (add_to_association start kind id a)
            ≡ association_weight weight a + class_weight kind id)
      → (count is_running ss == 1) ≡ true
      → sum_of (state_weight weight) (attach start kind id ss)
        ≡ sum_of (state_weight weight) ss + class_weight kind id
  unfolding attach
  attach-weight start kind id [] grows h = cc (h)
  attach-weight start kind id (s ∷ ss) grows h = elim (Bool-cases (is_running s)) [
    | inl here ↦ rw here (omega (arith, grows s.association))
    | inr later ↦ rw later (omega (arith, attach-weight start kind id ss grows (ground arith)))
  ]

  close-weight :
      (sequence : ℕ) (ss : List State)
      → sum_of (state_weight weight) (map (close_sources sequence) ss)
        ≡ sum_of (state_weight weight) ss
  close-weight sequence [] = refl
  close-weight sequence (s ∷ ss) = omega (arith, close-weight sequence ss)

  place_work-held :
      (key turn : String) (kind : WorkActivityClass) (a : ProjectActivity) (p : Progress)
      → ((start : ℕ) (b : Association)
          → association_weight weight (add_to_association start kind a.id b)
            ≡ association_weight weight b + class_weight kind a.id)
      → held (place_work key turn kind a p) ≡ held p + class_weight kind a.id
  unfolding place_work
  place_work-held key turn kind a p grows = elim (Bool-cases (is_of_turn key turn a)) [
    | inr other ↦ rw other (emit-held kind a source_mismatch p)
    | inl same ↦ elim (Bool-cases p.invalid) [
      | inl invalid ↦ ground (arith, emit-held kind a invalid_revision p)
      | inr valid ↦ elim (Option-cases p.current_revision) [
        | inl none' ↦ ground (arith, emit-held kind a pre_plan p)
        | inr (ref, some') ↦ elim (Bool-cases (count is_running p.current == 1)) [
          | inl one ↦
              ground
                (arith, attach-weight ref.sequence kind a.id p.current (grows ref.sequence) one)
          | inr many ↦ ground (arith, emit-held kind a no_unambiguous_running_item p)
        ]
      ]
    ]
  ]

  place-held :
      (key turn : String) (kind : WorkActivityClass) (a : ProjectActivity) (p : Progress)
      → held (place key turn kind a p) ≡ held p + class_weight kind a.id
  unfolding place
  place-held key turn control a p = omega arith
  place-held key turn action a p =
      place_work-held key turn action a p (λ start b. action-grows start a.id b)
  place-held key turn observation a p =
      place_work-held key turn observation a p (λ start b. observation-grows start a.id b)

  module _ (rt : WorkRuntime) (key turn thread : String) where
    accept_plan-held :
        (a : ProjectActivity) (entries : List Entry) (p : Progress) {q : Progress}
        → accept_plan rt key turn thread a entries p ≡ ok q
        → held q ≡ held p
    unfolding accept_plan
    accept_plan-held a entries p {q} h =
        let (ref, r, h') = >>=-eq-ok (revision rt a thread) _ h in
        let old = map (close_sources ref.sequence) p.current in
        let (result, s, h'') =
          >>=-eq-ok
            (reconcile rt thread ref (suc p.ordinal) (record { old = old; next = entries }) p.seeds)
            _ h' in
        let same : held (revised ref result p) ≡ held q = ap held (ok-injective h'') in
        omega (
          arith,
          same,
          close-weight ref.sequence p.current,
          sum_of-append (orphan_weight weight) p.orphans result.orphans,
          reconcile-Conserves weight (record { old = old; next = entries }) ref rt thread
              (suc p.ordinal) p.seeds s,
        )

    take_plan-held :
        (a : ProjectActivity) (p : Progress) {q : Progress}
        → take_plan rt key turn thread a p ≡ ok q
        → held q ≡ held p
    unfolding take_plan reject
    take_plan-held a p {q} h = elim (Bool-cases (is_of_turn key turn a)) [
      | inr other ↦ ground arith
      | inl same ↦ elim (Result-cases (parse_plan rt a)) [
        | inr (code, refused) ↦ ground arith
        | inl (entries, parsed) ↦ accept_plan-held a entries p {q = q} (ground arith)
      ]
    ]

    project_activity-held :
        (a : ProjectActivity) (p : Progress) {q : Progress}
        → project_activity rt key turn thread a p ≡ ok q
        → held q ≡ held p + activity_weight rt a
    unfolding project_activity
    project_activity-held a p {q} h = elim (Bool-cases (has_method "turn/plan/updated" a)) [
      | inl plan ↦ rw plan (omega (arith, take_plan-held a p {q = q} (ground arith)))
      | inr other ↦
          let same : place key turn (classify_work_activity rt a) a p ≡ q = ground arith in
          rw other
            (omega (arith, ap held same, place-held key turn (classify_work_activity rt a) a p))
    ]

    -- However the activities are weighed, the loop adds to the states and the orphans what the
    -- actions and the observations that it goes through weigh.
    pub project_all-held :
        (activities : List ProjectActivity) (p : Progress) {q : Progress}
        → project_all rt key turn thread activities p ≡ ok q
        → held q ≡ held p + sum_of (activity_weight rt) activities
    unfolding project_all
    project_all-held [] p {q} h = omega (arith, ap held (ok-injective h))
    project_all-held (a ∷ more) p {q} h =
        let (next, first, rest) = >>=-eq-ok (project_activity rt key turn thread a p) _ h in
        omega (arith, project_activity-held a p first, project_all-held more next rest)
