-- ===== src/WorkSteps/Entries.antt =====
-- domain/work-steps.ts: the types of a projected plan, and the entries that `parsePlan` reads.
use world_wide_woo.Common.{
  ℕ, String, Bool, true, false, ◌||◌, Option, none, some, List, [], ◌∷◌, map, length, any, ltb,
  if◌then◌else◌, Result, ok, err,
}
use world_wide_woo.Value.{Value, get, fields_of, text_of, elements_of, points, is_empty}
use world_wide_woo.Activities.{ProjectActivity, text_is}
use world_wide_woo.Ledger.Native.{WorkStepStatus, pending, running, completed, failed, cancelled}
use world_wide_woo.WorkSteps.Runtime.{
  WorkRuntime, DplanError, decimal, record_at, token, public_text,
}
use world_wide_woo.WorkSteps.Framing.{digest_texts}

pub data WorkActivityClass : Type 0 where
  observation action control : WorkActivityClass

pub record PlanRevisionRef : Type 0 where
  pub source_revision_key_digest : String
  pub activity_id : String
  pub sequence : ℕ
  pub source_digest : String

pub record DerivedPlanIdentity : Type 0 where
  pub value : String
  pub origin_revision : PlanRevisionRef

pub data PlanOrphanReason : Type 0 where
  pre_plan no_unambiguous_running_item deleted ambiguous_duplicate ambiguous_edit : PlanOrphanReason
  replacement invalid_revision source_mismatch : PlanOrphanReason

pub data JournalIntegrityCode : Type 0 where
  duplicate_activity_id duplicate_sequence sequence_gap : JournalIntegrityCode
  invalid_source_digest duplicate_revision_key : JournalIntegrityCode

pub data RevisionValidationCode : Type 0 where
  source_turn_mismatch non_string_entry blank_entry : RevisionValidationCode

pub data PlanRejection : Type 0 where
  journal_integrity : JournalIntegrityCode → String → ℕ → PlanRejection
  revision_rejected : RevisionValidationCode → String → ℕ → PlanRejection

-- `PlanRetirement` keeps to four of the reasons of an orphan.
pub record PlanRetirement : Type 0 where
  pub identity : DerivedPlanIdentity
  pub retired_by : PlanRevisionRef
  pub reason : PlanOrphanReason

pub record PlanOrphan : Type 0 where
  pub activity_id : String
  pub activity_kind : WorkActivityClass
  pub reason : PlanOrphanReason
  pub prior_identity : Option String
  pub current_revision : Option PlanRevisionRef

-- `minted`: the token's digest, the ordinal of the revision, the position. The two retained kinds:
-- the previous identity and revision, the token's digest, for an edit the distance and its limit.
pub data PlanReconciliation : Type 0 where
  minted : String → ℕ → ℕ → PlanReconciliation
  exact_unique : String → PlanRevisionRef → String → PlanReconciliation
  isolated_edit : String → PlanRevisionRef → String → ℕ → ℕ → PlanReconciliation

pub record Entry : Type 0 where
  pub raw : String
  pub title : String
  pub status : WorkStepStatus
  pub token_digest : String

pub record Source : Type 0 where
  pub start_sequence : ℕ
  pub end_sequence : Option ℕ
  pub actions : List String
  pub observations : List String

pub record Association : Type 0 where
  pub actions : List String
  pub observations : List String
  pub sources : List Source

pub record State : Type 0 where
  pub entry : Entry
  pub identity : DerivedPlanIdentity
  pub current_revision : PlanRevisionRef
  pub reconciliation : PlanReconciliation
  pub association : Association
  pub canonical_seed : String

unfoldable pub plan_status : Value → WorkStepStatus
plan_status v =
    if text_is v "completed"
    then completed
    else if text_is v "inProgress" || text_is v "running"
    then running
    else if text_is v "failed"
    then failed
    else if text_is v "cancelled"
    then cancelled
    else pending

-- `params.plan`, where it is an array.
abbrev pub plan_values : ProjectActivity → Option (List Value)
unfolding get record_at
plan_values a = elim (record_at "params" a.payload) [
  | none ↦ none
  | some params ↦ elements_of (get "plan" params)
]

-- `record(entry)?.step`, where it is a text.
abbrev pub step_text : Value → Option String
unfolding get
step_text v = elim (fields_of v) [ none ↦ none | some entry ↦ text_of (get "step" entry) ]

abbrev pub lacks_text : Value → Bool
lacks_text v = elim (step_text v) [ none ↦ true | some s ↦ false ]

module _ (rt : WorkRuntime) where
  abbrev pub is_blank : Value → Bool
  unfolding token
  is_blank v = elim (step_text v) [
    | none ↦ false
    | some s ↦ ltb 4096 (points s) || is_empty (token rt s)
  ]

  unfoldable pub plan_validation_error : ProjectActivity → Option RevisionValidationCode
  unfolding plan_values step_text is_blank
  plan_validation_error a = elim (plan_values a) [
    | none ↦ some non_string_entry
    | some values ↦
        if ltb 256 (length values) || any lacks_text values
        then some non_string_entry
        else if any is_blank values
        then some blank_entry
        else none
  ]

  abbrev pub is_parseable_plan_envelope : ProjectActivity → Bool
  unfolding plan_validation_error
  is_parseable_plan_envelope a = elim (plan_validation_error a) [ none ↦ true | some e ↦ false ]

  unfoldable pub entry_of : Value → Entry
  unfolding get token public_text digest_texts plan_status
  entry_of v =
      let step : String = elim (step_text v) [ none ↦ "" | some s ↦ s ] in
      let status : WorkStepStatus = elim (fields_of v) [
        | none ↦ pending
        | some entry ↦ plan_status (get "status" entry)
      ] in
      record {
        raw = token rt step;
        title = public_text rt step;
        status = status;
        token_digest = digest_texts rt (token rt step ∷ []);
      }

  unfoldable pub parse_plan : ProjectActivity → Result RevisionValidationCode (List Entry)
  unfolding plan_validation_error entry_of
  parse_plan a = elim (plan_validation_error a) [
    | some e ↦ err e
    | none ↦ ok (elim (plan_values a) [ none ↦ [] | some values ↦ map entry_of values ])
  ]

  -- `digest(hash, "dplan-v1", "native-thread", key)`.
  unfoldable pub thread_digest : String → String
  unfolding digest_texts
  thread_digest key = digest_texts rt ("dplan-v1" ∷ "native-thread" ∷ key ∷ [])

  unfoldable pub revision : ProjectActivity → String → Result DplanError PlanRevisionRef
  unfolding digest_texts decimal
  revision a thread = elim (decimal a.sequence) [
    | err e ↦ err e
    | ok sequence ↦ ok record {
      source_revision_key_digest =
          digest_texts rt
            ("dplan-v1" ∷ "source-revision" ∷ thread ∷ a.id ∷ sequence ∷ a.source_digest ∷ []);
      activity_id = a.id;
      sequence = a.sequence;
      source_digest = a.source_digest;
    }
  ]
