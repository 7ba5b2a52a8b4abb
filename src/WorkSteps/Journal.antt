-- ===== src/WorkSteps/Journal.antt =====
-- domain/work-steps.ts: `validateJournal`, which keeps the journal up to its first flaw.
pub mod Accepting
use world_wide_woo.Common.{
  ℕ, zero, suc, ◌+◌, String, Bool, true, false, not, ◌&&◌, Option, none, some, List, [], ◌∷◌, ◌==◌,
  if◌then◌else◌, Result, ok, err, any, includes,
}
use world_wide_woo.Value.{get, Fields}
use world_wide_woo.Decimal.{after_prefix}
use world_wide_woo.Activities.{ProjectActivity, text_is}
use world_wide_woo.Ledger.Native.{is_sha256_hex}
use world_wide_woo.WorkSteps.Runtime.{WorkRuntime, DplanError}
use world_wide_woo.WorkSteps.Entries.{
  JournalIntegrityCode, duplicate_activity_id, duplicate_sequence, sequence_gap,
  invalid_source_digest, duplicate_revision_key, PlanRejection, journal_integrity,
  is_parseable_plan_envelope, plan_validation_error, thread_digest, revision,
}

-- `activity.payload.method === name`.
abbrev pub has_method : String → ProjectActivity → Bool
unfolding get
has_method name a = text_is (get "method" a.payload) name

-- /^sha256:[0-9a-f]{64}$/u.
unfoldable pub is_source_digest : String → Bool
unfolding after_prefix is_sha256_hex
is_source_digest s = elim (after_prefix "sha256:" s) [ none ↦ false | some hex ↦ is_sha256_hex hex ]

-- The variables of the loop but for the list it builds.
pub record Seen : Type 0 where
  pub ids : List String
  pub sequences : List ℕ
  pub revision_keys : List String
  pub expected : ℕ

abbrev pub seen_nothing : Seen
seen_nothing = record { ids = []; sequences = []; revision_keys = []; expected = 1 }

abbrev pub with_key : String → Seen → Seen
with_key key seen = record seen { revision_keys = key ∷ seen.revision_keys }

-- The four sets after an activity that is accepted.
abbrev pub passed : ProjectActivity → Seen → Seen
passed a seen = record seen {
  ids = a.id ∷ seen.ids;
  sequences = a.sequence ∷ seen.sequences;
  expected = suc seen.expected;
}

pub record CheckedJournal : Type 0 where
  pub activities : List ProjectActivity
  pub rejection : Option PlanRejection

module _ (rt : WorkRuntime) (thread : String) where
  -- The checks of one activity: a flaw, or what has been seen after it.
  unfoldable pub check_activity :
      ProjectActivity → Seen → Result DplanError (Result JournalIntegrityCode Seen)
  unfolding has_method is_source_digest revision plan_validation_error
  check_activity a seen =
      let keyed : Result DplanError (Result JournalIntegrityCode Seen) =
        elim (revision rt a thread) [
          | err e ↦ err e
          | ok ref ↦
              if includes seen.revision_keys ref.source_revision_key_digest
              then ok (err duplicate_revision_key)
              else ok (ok (passed a (with_key ref.source_revision_key_digest seen)))
        ] in
      if includes seen.ids a.id
      then ok (err duplicate_activity_id)
      else if any (λ n. n == a.sequence) seen.sequences
      then ok (err duplicate_sequence)
      else if not (a.sequence == seen.expected)
      then ok (err sequence_gap)
      else if not (is_source_digest a.source_digest)
      then ok (err invalid_source_digest)
      else if has_method "turn/plan/updated" a && is_parseable_plan_envelope rt a
      then keyed
      else ok (ok (passed a seen))

  abbrev pub onto_checked :
      ProjectActivity → Result DplanError CheckedJournal → Result DplanError CheckedJournal
  onto_checked a (err e) = err e
  onto_checked a (ok j) = ok (record j { activities = a ∷ j.activities })

  unfoldable pub check_from : Seen → List ProjectActivity → Result DplanError CheckedJournal
  unfolding check_activity
  check_from seen [] = ok (record { activities = []; rejection = none })
  check_from seen (a ∷ more) = elim (check_activity a seen) [
    | err e ↦ err e
    | ok (err code) ↦
        ok record { activities = []; rejection = some (journal_integrity code a.id a.sequence) }
    | ok (ok after) ↦ onto_checked a (check_from after more)
  ]

unfoldable pub validate_journal :
    WorkRuntime → List ProjectActivity → String → Result DplanError CheckedJournal
unfolding check_from thread_digest
validate_journal rt activities key = check_from rt (thread_digest rt key) seen_nothing activities
