-- ===== src/WorkSteps/Journal/Accepting.antt =====
-- domain/work-steps.ts: what `validateJournal` keeps of a journal.
use world_wide_woo.Common.{
  ℕ, suc, ◌+◌, ◌≤◌, ◌==◌, ◌≡◌, ◌⊎◌, inl, inr, refl, ap, subst, String, true, false, ◌&&◌, Option,
  none, some, List, [], ◌∷◌, ◌++◌, map, length, All, Distinct, includes, any, ok, err, Bool-cases,
  Result-cases, arith,
}
use world_wide_woo.Activities.{ProjectActivity}
use world_wide_woo.WorkSteps.Runtime.{WorkRuntime, decimal}
use world_wide_woo.WorkSteps.Entries.{
  JournalIntegrityCode, duplicate_activity_id, duplicate_sequence, sequence_gap,
  invalid_source_digest, duplicate_revision_key, PlanRejection, journal_integrity,
  revision_rejected, PlanRevisionRef, revision, is_parseable_plan_envelope, thread_digest,
}
use world_wide_woo.WorkSteps.Journal.{
  Seen, passed, with_key, CheckedJournal, check_activity, check_from, is_source_digest, has_method,
  seen_nothing, validate_journal,
}

abbrev pub id_of : ProjectActivity → String
id_of a = a.id

-- The sequences are consecutive, from `n` on.
abbrev pub Numbered : ℕ → List ProjectActivity → Type 0
Numbered n [] = Unit
Numbered n (a ∷ more) = (a.sequence ≡ n) × Numbered (suc n) more

abbrev pub IsSealed : ProjectActivity → Type 0
IsSealed a = is_source_digest a.source_digest ≡ true

-- A rejection names the first activity that is left out; with none, nothing is left out.
abbrev pub Explains : Option PlanRejection → List ProjectActivity → Type 0
Explains none rest = rest ≡ []
Explains (some (journal_integrity code id sequence)) [] = ⊥
Explains (some (journal_integrity code id sequence)) (a ∷ more) =
    (a.id ≡ id) × (a.sequence ≡ sequence)
Explains (some (revision_rejected code id sequence)) rest = ⊥

-- The activities that are kept, after `seen` ones, and those that are left out.
pub record IsPrefix (ids : List String) (next : ℕ) (whole : List ProjectActivity)
    (j : CheckedJournal) : Type 0 where
  pub rest : List ProjectActivity
  pub split : whole ≡ j.activities ++ rest
  pub numbered : Numbered next j.activities
  pub distinct : Distinct ids (map id_of j.activities)
  pub sealed : All IsSealed j.activities
  pub explained : Explains j.rejection rest

module _ (rt : WorkRuntime) (thread : String) where
  revision_returns :
      (a : ProjectActivity)
      → a.sequence ≤ 9007199254740991
      → (ref : PlanRevisionRef) × (revision rt a thread ≡ ok ref)
  unfolding revision decimal
  revision_returns a h = elim (Result-cases (revision rt a thread)) [
    | inl (ref, returned) ↦ (ref, returned)
    | inr (e, thrown) ↦ absurd (ground arith)
  ]

  record Passes (a : ProjectActivity) (seen after : Seen) : Type 0 where
    result : check_activity rt thread a seen ≡ ok (ok after)
    new : includes seen.ids a.id ≡ false
    next : a.sequence ≡ seen.expected
    sealed : IsSealed a
    ids : after.ids ≡ a.id ∷ seen.ids
    expected : after.expected ≡ suc seen.expected

  check_activity_returns :
      (a : ProjectActivity) (seen : Seen)
      → seen.expected ≤ 9007199254740991
      → ((code : JournalIntegrityCode) × (check_activity rt thread a seen ≡ ok (err code)))
        ⊎ ((after : Seen) × Passes a seen after)
  unfolding check_activity
  check_activity_returns a seen h = elim (Bool-cases (includes seen.ids a.id)) [
    | inl old ↦ inl (duplicate_activity_id, rw old refl)
    | inr new ↦ elim (Bool-cases (any (λ n. n == a.sequence) seen.sequences)) [
      | inl old ↦ inl (duplicate_sequence, rw (new, old) refl)
      | inr fresh ↦ elim (Bool-cases (a.sequence == seen.expected)) [
        | inr gap ↦ inl (sequence_gap, rw (new, fresh, gap) refl)
        | inl next ↦ elim (Bool-cases (is_source_digest a.source_digest)) [
          | inr broken ↦ inl (invalid_source_digest, rw (new, fresh, next, broken) refl)
          | inl whole ↦
              elim (Bool-cases
                (has_method "turn/plan/updated" a && is_parseable_plan_envelope rt a)) [
                  | inr plain ↦ inr (
                    passed a seen,
                    record {
                      result = rw (new, fresh, next, whole, plain) refl;
                      new = new;
                      next = ground arith;
                      sealed = whole;
                      ids = refl;
                      expected = refl;
                    },
                  )
                  | inl plan ↦
                      let (ref, returned) = revision_returns a (ground arith) in
                      elim (Bool-cases
                        (includes seen.revision_keys ref.source_revision_key_digest)) [
                          | inl twice ↦ inl (
                            duplicate_revision_key,
                            rw (new, fresh, next, whole, plan, returned, twice) refl,
                          )
                          | inr once ↦ inr (
                            passed a (with_key ref.source_revision_key_digest seen),
                            record {
                              result = rw (new, fresh, next, whole, plan, returned, once) refl;
                              new = new;
                              next = ground arith;
                              sealed = whole;
                              ids = refl;
                              expected = refl;
                            },
                          )
                        ]
                ]
        ]
      ]
    ]
  ]

  check_from_returns :
      (seen : Seen) (whole : List ProjectActivity)
      → seen.expected + length whole ≤ 9007199254740992
      → (j : CheckedJournal) × (check_from rt thread seen whole ≡ ok j)
        × IsPrefix seen.ids seen.expected whole j
  unfolding check_from
  check_from_returns seen [] h = (
    record { activities = []; rejection = none },
    refl,
    record { rest = []; split = refl; numbered = tt; distinct = tt; sealed = tt; explained = refl },
  )
  check_from_returns seen (a ∷ more) h = elim (check_activity_returns a seen (omega arith)) [
    | inl (code, flaw) ↦ (
      record { activities = []; rejection = some (journal_integrity code a.id a.sequence) },
      rw (check_from, flaw) refl,
      record {
        rest = a ∷ more;
        split = refl;
        numbered = tt;
        distinct = tt;
        sealed = tt;
        explained = (refl, refl);
      },
    )
    | inr (after, passes) ↦
        let (j, returned, kept) = check_from_returns after more (omega (arith, passes.expected)) in
        (
          record j { activities = a ∷ j.activities },
          rw (check_from, passes.result, returned) refl,
          record {
            rest = kept.rest;
            split = ap (λ ys. a ∷ ys) kept.split;
            numbered =
                (passes.next, subst (λ n. Numbered n j.activities) passes.expected kept.numbered);
            distinct = (
              passes.new,
              subst (λ ids. Distinct ids (map id_of j.activities)) passes.ids kept.distinct,
            );
            sealed = (passes.sealed, kept.sealed);
            explained = kept.explained;
          },
        )
  ]

-- A journal of at most 2^53 - 1 activities is checked without an error: what is kept is a prefix of
-- it, numbered 1, 2, 3 and so on, with distinct ids and well-formed source digests; and either it is
-- the whole journal, or the rejection names the first activity that is left out.
pub validate_journal-IsPrefix :
    (rt : WorkRuntime) (key : String) (whole : List ProjectActivity)
    → length whole ≤ 9007199254740991
    → (j : CheckedJournal) × (validate_journal rt whole key ≡ ok j) × IsPrefix [] 1 whole j
unfolding validate_journal
validate_journal-IsPrefix rt key whole h =
    check_from_returns rt (thread_digest rt key) seen_nothing whole (omega arith)
