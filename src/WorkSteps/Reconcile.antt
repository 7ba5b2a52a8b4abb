-- ===== src/WorkSteps/Reconcile.antt =====
-- domain/work-steps.ts: `reconcile`, which carries the states of a plan over to its next revision.
pub mod Weighing
pub mod Conserving
pub mod Identities
use world_wide_woo.Common.{
  ℕ, zero, suc, ◌+◌, ◌*◌, ◌/◌, String, Bool, true, false, not, ◌&&◌, ◌||◌, Option, none, some, List,
  [], ◌∷◌, ◌++◌, map, length, any, keep, count, includes, ltb, leb, ◌==◌, ◌is◌, if◌then◌else◌,
  Result, ok, err, ◌>>=◌, ◌>>◌, refuse,
}
use world_wide_woo.Dict.{Dict, insert, lookup}
use world_wide_woo.Decimal.{append, decimal as print}
use world_wide_woo.WorkSteps.Runtime.{
  WorkRuntime, DplanError, identity_collision, decimal, codes, utf8,
}
use world_wide_woo.WorkSteps.Distance.{max, lev, edit_limit, is_edit_like}
use world_wide_woo.WorkSteps.Framing.{frame_texts, digest}
use world_wide_woo.WorkSteps.Entries.{
  WorkActivityClass, action, observation, PlanRevisionRef, DerivedPlanIdentity, PlanOrphanReason,
  deleted, ambiguous_duplicate, ambiguous_edit, replacement, PlanRetirement, PlanOrphan, minted,
  PlanReconciliation, exact_unique, isolated_edit, Entry, Association, State,
}
use world_wide_woo.WorkSteps.Matches.{
  Matches, has_new, has_old, match_of, get_elem?, matched, occurrences, entry_of_state, digest_of,
  has_collision, old_count, next_count, is_blocked, can_match, find_new, is_ambiguous, add_match,
  match_exact, unmatched, longer_of, edits, pairs, match_pair, match_left, unmatched_old,
  unmatched_new, matches_of, Revising,
}

abbrev pub some_edit : Revising → Entry → List ℕ → Bool
unfolding edits
some_edit r e news = any (λ n. elim (get_elem? r.next n) [ none ↦ false | some f ↦ edits e f ]) news

abbrev pub is_none_left : List ℕ → Bool
is_none_left [] = true
is_none_left (n ∷ ns) = false

unfoldable pub retirement_reason : Revising → List ℕ → Entry → PlanOrphanReason
unfolding is_blocked some_edit
retirement_reason r news e =
    if is_none_left news
    then deleted
    else if ltb 1 (old_count r e.token_digest)
        || ltb 1 (next_count r e.token_digest)
        || is_blocked r e.title
    then ambiguous_duplicate
    else if some_edit r e news
    then ambiguous_edit
    else replacement

abbrev pub orphan_of :
    PlanOrphanReason → String → PlanRevisionRef → WorkActivityClass → String → PlanOrphan
orphan_of reason identity ref kind id = record {
  activity_id = id;
  activity_kind = kind;
  reason = reason;
  prior_identity = some identity;
  current_revision = some ref;
}

-- What the loop over the old states without a match pushes, from the index `i` on.
unfoldable pub retire : Revising → PlanRevisionRef → Matches → ℕ → List State → List PlanRetirement
unfolding retirement_reason unmatched_new has_old
retire r ref ms i [] = []
retire r ref ms i (s ∷ ss) =
    let rest = retire r ref ms (suc i) ss in
    let reason = retirement_reason r (unmatched_new r ms) s.entry in
    if has_old i ms
    then rest
    else record { identity = s.identity; retired_by = ref; reason = reason } ∷ rest

unfoldable pub orphaned : Revising → PlanRevisionRef → Matches → ℕ → List State → List PlanOrphan
unfolding retirement_reason unmatched_new has_old
orphaned r ref ms i [] = []
orphaned r ref ms i (s ∷ ss) =
    let rest = orphaned r ref ms (suc i) ss in
    let orphan =
      orphan_of (retirement_reason r (unmatched_new r ms) s.entry) s.identity.value ref in
    if has_old i ms
    then rest
    else map (orphan action) s.association.actions
      ++ (map (orphan observation) s.association.observations ++ rest)

-- `known !== undefined && known !== seed`, and otherwise `seeds.set(value, seed)`.
unfoldable pub plant : String → String → Dict String → Result DplanError (Dict String)
unfolding lookup insert
plant value seed seeds =
    if elim (lookup value seeds) [ none ↦ false | some known ↦ not (known is seed) ]
    then err identity_collision
    else ok (insert value seed seeds)

unfoldable pub plant_all : List State → Dict String → Result DplanError (Dict String)
unfolding plant
plant_all [] seeds = ok seeds
plant_all (s ∷ ss) seeds = plant s.identity.value s.canonical_seed seeds >>= plant_all ss

abbrev pub evidence : State → Entry → PlanReconciliation
unfolding lev longer_of codes
evidence s e =
    let limit = edit_limit (longer_of s.entry e) in
    if s.entry.token_digest is e.token_digest
    then exact_unique s.identity.value s.current_revision e.token_digest
    else isolated_edit s.identity.value s.current_revision e.token_digest
        (lev (codes s.entry.raw) (codes e.raw) limit) limit

abbrev pub retain : PlanRevisionRef → State → Entry → State
unfolding evidence
retain ref s e = record s { entry = e; current_revision = ref; reconciliation = evidence s e }

abbrev pub no_association : Association
no_association = record { actions = []; observations = []; sources = [] }

-- `${key}:${digest}:${ordinal}:${position}`.
abbrev pub seed_of : PlanRevisionRef → Entry → ℕ → ℕ → String
unfolding append
seed_of ref e ordinal position = append ref.source_revision_key_digest (
    append ":"
      (append e.token_digest (append ":" (append (print ordinal) (append ":" (print position))))))

module _ (rt : WorkRuntime) (thread : String) (ref : PlanRevisionRef) (ordinal : ℕ) where
  unfoldable pub mint : ℕ → Entry → Result DplanError State
  unfolding decimal digest frame_texts utf8 seed_of
  mint position e = do
    ordinal_text ← decimal ordinal
    position_text ← decimal position
    let nonce =
        frame_texts
          ("source-revision-ordinal" ∷ ordinal_text ∷ "source-position" ∷ position_text ∷ [])
    let value = digest rt (
        utf8 "dplan-v1"
        ∷ utf8 "plan-item"
        ∷ utf8 thread
        ∷ utf8 ref.source_revision_key_digest
        ∷ utf8 e.token_digest
        ∷ nonce
        ∷ [])
    ok record {
      entry = e;
      identity = record { value = value; origin_revision = ref };
      current_revision = ref;
      reconciliation = minted e.token_digest ordinal position;
      association = no_association;
      canonical_seed = seed_of ref e ordinal position;
    }

  -- The state of the entry at `position`, given the old state that is its match, and the seeds.
  abbrev pub next_state :
      ℕ → Entry → Option State → Dict String → Result DplanError (State × Dict String)
  unfolding mint plant retain
  next_state position e (some s) seeds = ok (retain ref s e, seeds)
  next_state position e none seeds = do
    state ← mint position e
    planted ← plant state.identity.value state.canonical_seed seeds
    ok (state, planted)

  unfoldable pub next_states :
      List State
      → Matches
      → ℕ
      → List Entry
      → Dict String
      → Result DplanError (List State × Dict String)
  unfolding next_state matched
  next_states old ms position [] seeds = ok ([], seeds)
  next_states old ms position (e ∷ es) seeds =
      next_state position e (matched old ms position) seeds >>= λ first.
      next_states old ms (suc position) es first.1 >>= λ more. ok (first.0 ∷ more.0, more.1)

-- What `reconcile` returns and pushes.
pub record Reconciled : Type 0 where
  pub states : List State
  pub seeds : Dict String
  pub retired : List PlanRetirement
  pub orphans : List PlanOrphan

unfoldable pub reconcile :
    WorkRuntime
    → String
    → PlanRevisionRef
    → ℕ
    → Revising
    → Dict String
    → Result DplanError Reconciled
unfolding plant_all matches_of retire orphaned next_states
reconcile rt thread ref ordinal r seeds =
    let ms = matches_of r in
    plant_all r.old seeds >>= λ planted.
    next_states rt thread ref ordinal r.old ms 0 r.next planted >>= λ next. ok record {
      states = next.0;
      seeds = next.1;
      retired = retire r ref ms 0 r.old;
      orphans = orphaned r ref ms 0 r.old;
    }
