-- ===== src/WorkSteps/Flow.antt =====
-- domain/work-steps.ts: the loop of `projectWorkFlow` over the activities of a turn, which keeps the
-- states of the plan and gives each activity to the running step or to the orphans.
pub mod Accounting
use world_wide_woo.Common.{
  ℕ, zero, suc, ◌+◌, String, Bool, true, false, not, ◌&&◌, ◌||◌, Option, none, some, List, [], ◌∷◌,
  ◌++◌, map, count, ◌==◌, ◌is◌, if◌then◌else◌, Result, ok, err, ◌>>=◌,
}
use world_wide_woo.Value.{get}
use world_wide_woo.Dict.{Dict}
use world_wide_woo.Activities.{ProjectActivity}
use world_wide_woo.Ledger.Native.{WorkStepStatus, running}
use world_wide_woo.WorkSteps.Runtime.{WorkRuntime, DplanError}
use world_wide_woo.WorkSteps.Classes.{classify_work_activity}
use world_wide_woo.WorkSteps.Journal.{has_method}
use world_wide_woo.WorkSteps.Entries.{
  WorkActivityClass, action, observation, control, PlanRevisionRef, PlanOrphanReason, pre_plan,
  no_unambiguous_running_item, invalid_revision, source_mismatch, RevisionValidationCode,
  source_turn_mismatch, PlanRejection, revision_rejected, PlanRetirement, PlanOrphan, Entry, Source,
  Association, State, parse_plan, revision,
}
use world_wide_woo.WorkSteps.Matches.{Revising}
use world_wide_woo.WorkSteps.Reconcile.{Reconciled, reconcile}

-- The variables of the loop.
pub record Progress : Type 0 where
  pub current : List State
  pub current_revision : Option PlanRevisionRef
  pub invalid : Bool
  pub ordinal : ℕ
  pub seeds : Dict String
  pub retirements : List PlanRetirement
  pub orphans : List PlanOrphan
  pub rejections : List PlanRejection

abbrev pub text_eq : Option String → String → Bool
text_eq none s = false
text_eq (some t) s = t is s

abbrev pub is_of_turn : String → String → ProjectActivity → Bool
is_of_turn key turn a = text_eq a.native_refs.thread_id key && text_eq a.native_refs.turn_id turn

abbrev pub is_running : State → Bool
is_running s = elim s.entry.status [ running ↦ true | _ ↦ false ]

abbrev pub orphan_now :
    WorkActivityClass → ProjectActivity → PlanOrphanReason → Progress → PlanOrphan
orphan_now kind a reason p = record {
  activity_id = a.id;
  activity_kind = kind;
  reason = reason;
  prior_identity = none;
  current_revision = p.current_revision;
}

unfoldable pub emit_orphan :
    WorkActivityClass → ProjectActivity → PlanOrphanReason → Progress → Progress
emit_orphan control a reason p = p
emit_orphan kind a reason p = record p { orphans = p.orphans ++ orphan_now kind a reason p ∷ [] }

-- `push` on the list of the kind.
abbrev pub add_to_source : WorkActivityClass → String → Source → Source
add_to_source action id s = record s { actions = s.actions ++ id ∷ [] }
add_to_source kind id s = record s { observations = s.observations ++ id ∷ [] }

abbrev pub new_source : ℕ → Source
new_source start = record {
  start_sequence = start;
  end_sequence = none;
  actions = [];
  observations = [];
}

-- The last source, where it starts at `start`, or else a new one takes the activity.
unfoldable pub note_source : ℕ → WorkActivityClass → String → List Source → List Source
note_source start kind id [] = add_to_source kind id (new_source start) ∷ []
note_source start kind id (s ∷ []) =
    if s.start_sequence == start
    then add_to_source kind id s ∷ []
    else s ∷ add_to_source kind id (new_source start) ∷ []
note_source start kind id (s ∷ t ∷ ss) = s ∷ note_source start kind id (t ∷ ss)

abbrev pub add_to_association : ℕ → WorkActivityClass → String → Association → Association
unfolding note_source
add_to_association start action id a = record a {
  actions = a.actions ++ id ∷ [];
  sources = note_source start action id a.sources;
}
add_to_association start kind id a = record a {
  observations = a.observations ++ id ∷ [];
  sources = note_source start kind id a.sources;
}

-- `running[0]` takes the activity.
unfoldable pub attach : ℕ → WorkActivityClass → String → List State → List State
unfolding add_to_association
attach start kind id [] = []
attach start kind id (s ∷ ss) =
    let rest = attach start kind id ss in
    if is_running s
    then record s { association = add_to_association start kind id s.association } ∷ ss
    else s ∷ rest

abbrev pub close_source : ℕ → Source → Source
close_source sequence s = elim s.end_sequence [
  | none ↦ record s { end_sequence = some sequence }
  | some n ↦ s
]

abbrev pub close_sources : ℕ → State → State
close_sources sequence s = record s {
  association = record s.association {
    sources = map (close_source sequence) s.association.sources;
  };
}

-- An action or an observation.
unfoldable pub place_work :
    String → String → WorkActivityClass → ProjectActivity → Progress → Progress
unfolding emit_orphan attach
place_work key turn kind a p =
    if not (is_of_turn key turn a)
    then emit_orphan kind a source_mismatch p
    else if p.invalid
    then emit_orphan kind a invalid_revision p
    else elim p.current_revision [
      | none ↦ emit_orphan kind a pre_plan p
      | some ref ↦
          if count is_running p.current == 1
          then record p { current = attach ref.sequence kind a.id p.current }
          else emit_orphan kind a no_unambiguous_running_item p
    ]

-- An activity that is no plan, of its class.
unfoldable pub place : String → String → WorkActivityClass → ProjectActivity → Progress → Progress
unfolding place_work
place key turn control a p = p
place key turn kind a p = place_work key turn kind a p

unfoldable pub reject : RevisionValidationCode → ProjectActivity → Progress → Progress
reject code a p = record p {
  rejections = p.rejections ++ revision_rejected code a.id a.sequence ∷ [];
}

abbrev pub revised : PlanRevisionRef → Reconciled → Progress → Progress
revised ref result p = record p {
  current = result.states;
  current_revision = some ref;
  invalid = false;
  ordinal = suc p.ordinal;
  seeds = result.seeds;
  retirements = p.retirements ++ result.retired;
  orphans = p.orphans ++ result.orphans;
}

module _ (rt : WorkRuntime) (key turn thread : String) where
  unfoldable pub accept_plan : ProjectActivity → List Entry → Progress → Result DplanError Progress
  unfolding revision reconcile
  accept_plan a entries p = revision rt a thread >>= λ ref.
      reconcile rt thread ref (suc p.ordinal)
        (record { old = map (close_sources ref.sequence) p.current; next = entries }) p.seeds
      >>= λ result. ok (revised ref result p)

  unfoldable pub take_plan : ProjectActivity → Progress → Result DplanError Progress
  unfolding reject parse_plan accept_plan
  take_plan a p =
      if not (is_of_turn key turn a)
      then ok (reject source_turn_mismatch a p)
      else elim (parse_plan rt a) [
        | err code ↦ ok (record (reject code a p) { invalid = true })
        | ok entries ↦ accept_plan a entries p
      ]

  unfoldable pub project_activity : ProjectActivity → Progress → Result DplanError Progress
  unfolding get take_plan place classify_work_activity
  project_activity a p =
      if has_method "turn/plan/updated" a
      then take_plan a p
      else ok (place key turn (classify_work_activity rt a) a p)

  unfoldable pub project_all : List ProjectActivity → Progress → Result DplanError Progress
  unfolding project_activity
  project_all [] p = ok p
  project_all (a ∷ more) p = project_activity a p >>= λ next. project_all more next
