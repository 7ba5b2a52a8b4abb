-- ===== src/Tests/Steps.antt =====
-- The plan of a journal, its framing and its classes at concrete inputs.
use world_wide_woo.Common.{
  ℕ, ◌+◌, ◌*◌, ◌%◌, ◌≡◌, refl, String, Bool, true, false, none, some, List, [], ◌∷◌, length, sum_of,
  find_index, Result, ok, err, arith, ◌↔◌,
}
use world_wide_woo.Value.{Value, text, object, array, Values, nil, cons, Fields, end, field, get}
use world_wide_woo.Decimal.{decimal as print, after_prefix}
use world_wide_woo.Activities.{ProjectActivity, ProjectActivityKind, ProjectActivityPhase}
use world_wide_woo.WorkSteps.Runtime.{
  WorkRuntime, WorkPattern, read_command, acting_command, DplanError,
}
use world_wide_woo.WorkSteps.Entries.{
  WorkActivityClass, observation, State, PlanRevisionRef, minted,
}
use world_wide_woo.Ledger.Native.{pending, running}
use world_wide_woo.WorkSteps.Classes.{classify_work_activity, item_of}
use world_wide_woo.WorkSteps.Classes.Observing.{Observes, classify_work_activity-Observes}
use world_wide_woo.WorkSteps.Framing.Injectivity.{frame-injective}
use world_wide_woo.WorkSteps.Distance.{lev}
use world_wide_woo.WorkSteps.Distance.Reference.{IsCapped, edit_distance, lev-IsCapped}
use world_wide_woo.WorkSteps.Journal.{CheckedJournal, validate_journal}
use world_wide_woo.WorkSteps.Journal.Accepting.{IsPrefix, validate_journal-IsPrefix}
use world_wide_woo.WorkSteps.Matches.{Revising}
use world_wide_woo.WorkSteps.Reconcile.{Reconciled, reconcile}
use world_wide_woo.WorkSteps.Reconcile.Conserving.{state_weight, orphan_weight, reconcile-Conserves}
use world_wide_woo.WorkSteps.Reconcile.Identities.{
  identity_weight, retained_weight, retired_weight, reconcile_identities,
}
use world_wide_woo.WorkSteps.Flow.Accounting.{activity_weight}
use world_wide_woo.WorkSteps.Views.{WorkFlowProjection, plan_of, empty_projection}
use world_wide_woo.WorkSteps.Turns.{interval, starts}
use world_wide_woo.WorkSteps.Projection.{project_work_flow}
use world_wide_woo.WorkSteps.Projection.Counts.{IsCounted, project_work_flow-IsCounted}
use world_wide_woo.WorkSteps.Projection.Steps.{step_weight, project_work_flow-accounts}

-- A hash that mixes bytes, and patterns that look at how a text begins.
abbrev mixed : ℕ → List ℕ → ℕ
mixed n [] = n
mixed n (b ∷ bytes) = mixed ((n * 257 + b + 1) % 2147483647) bytes

abbrev begins : String → String → Bool
unfolding after_prefix
begins start s = elim (after_prefix start s) [ none ↦ false | some rest ↦ true ]

abbrev matches : WorkPattern → String → Bool
unfolding after_prefix
matches read_command s = begins "ls" s
matches acting_command s = begins "rm" s
matches _ s = false

abbrev runtime : WorkRuntime
unfolding after_prefix print
runtime = record {
  sha256_hex = λ bytes. print (mixed 7 bytes);
  nfkc = λ s. s;
  trim = λ s. s;
  collapse_spaces = λ s. s;
  lower_case = λ s. s;
  stringify = λ v. "json";
  matches = matches;
  without_null_redirections = λ s. s;
  split_commands = λ s. s ∷ [];
  without_assignments = λ s. s;
  without_parenthesis = λ s. s;
  terminal = record { replace = λ p s. s };
  redaction = record { strip = λ s. s; replace = λ p r s. (s, 0) };
}

abbrev sealed_by : String
sealed_by = "sha256:0123456789abcdef0123456789abcdef0123456789abcdef0123456789abcdef"

abbrev activity : String → ℕ → ProjectActivityKind → Fields → ProjectActivity
activity id sequence kind payload = record {
  id = id;
  project_id = "p";
  sequence = sequence;
  recorded_at = "now";
  kind = kind;
  phase = ProjectActivityPhase.completed;
  provider = "codex";
  native_refs = record { thread_id = some "t"; turn_id = some "u"; item_id = none };
  source_digest = sealed_by;
  payload = payload;
}

abbrev planned : String → String → Value
planned step status = object (field "step" (text step) (field "status" (text status) end))

abbrev plan_payload : Values → Fields
plan_payload entries =
    field "method" (text "turn/plan/updated")
      (field "params" (object (field "plan" (array entries) end)) end)

abbrev command_payload : String → Fields
command_payload command =
    field "params" (object (field "item" (object (field "command" (text command) end)) end)) end

abbrev listing : ProjectActivity
listing = activity "c" 4 ProjectActivityKind.tool (command_payload "ls")

-- A turn whose plan is revised once: the step that ran is gone from it.
abbrev journal : List ProjectActivity
journal =
    activity "a" 1 ProjectActivityKind.message
      (field "direction" (text "outbound") (field "text" (text "go") end))
    ∷ activity "b" 2 ProjectActivityKind.progress (field "method" (text "turn/start") end)
    ∷ activity "p" 3 ProjectActivityKind.progress (
        plan_payload
          (cons (planned "read" "inProgress") (cons (planned "write it all" "pending") nil)))
    ∷ listing
    ∷ activity "d" 5 ProjectActivityKind.file_change end
    ∷ activity "q" 6 ProjectActivityKind.progress
        (plan_payload (cons (planned "write it all" "inProgress") nil))
    ∷ activity "e" 7 ProjectActivityKind.file_change end
    ∷ []

abbrev checked_journal : CheckedJournal
checked_journal = record { activities = journal; rejection = none }

abbrev ok_or {ℓ κ} : {E : Type ℓ} {A : Type κ} → A → Result E A → A
ok_or a (ok b) = b
ok_or a (err e) = a

abbrev run : Result DplanError WorkFlowProjection
unfolding project_work_flow after_prefix print
run = project_work_flow runtime journal [] (some (plan_of "t" "u"))

abbrev shown : WorkFlowProjection
unfolding project_work_flow after_prefix print
shown = ok_or (empty_projection "" []) run

abbrev one : WorkActivityClass → String → ℕ
one kind id = 1

turn_starts : find_index (starts "t" "u") checked_journal.activities ≡ some 1
unfolding get starts
turn_starts = refl

journal_checked : validate_journal runtime journal "t" ≡ ok checked_journal
unfolding validate_journal after_prefix print
journal_checked = refl

run_ok : project_work_flow runtime journal [] (some (plan_of "t" "u")) ≡ ok shown
unfolding project_work_flow after_prefix print
run_ok = refl

shown_orphans : length shown.orphans ≡ 2
unfolding project_work_flow after_prefix print
shown_orphans = refl

validate_journal-IsPrefix_example :
    (j : CheckedJournal) × (validate_journal runtime journal "t" ≡ ok j) × IsPrefix [] 1 journal j
validate_journal-IsPrefix_example = validate_journal-IsPrefix runtime "t" journal (omega arith)

project_work_flow-accounts_example :
    sum_of (step_weight one) shown.steps + sum_of (orphan_weight one) shown.orphans
    ≡ sum_of (activity_weight one runtime) (interval "t" "u" 1 journal)
project_work_flow-accounts_example =
    project_work_flow-accounts one runtime [] "t" "u" journal {j = checked_journal} {start = 1}
      {w = shown} journal_checked turn_starts run_ok

project_work_flow-IsCounted_example : IsCounted shown
project_work_flow-IsCounted_example =
    project_work_flow-IsCounted runtime journal [] (some (plan_of "t" "u")) {w = shown} run_ok

listing_observed : classify_work_activity runtime listing ≡ observation
unfolding classify_work_activity after_prefix runtime
listing_observed = refl

classify_work_activity-Observes_example :
    (classify_work_activity runtime listing ≡ observation)
    ↔ ((listing.kind ≡ ProjectActivityKind.tool) × Observes runtime (item_of listing.payload))
classify_work_activity-Observes_example = classify_work_activity-Observes runtime listing

abbrev parts : List (List ℕ)
parts = (1 ∷ 2 ∷ []) ∷ [] ∷ []

frame-injective_example : parts ≡ parts
frame-injective_example =
    frame-injective parts parts (omega arith, (omega arith, tt)) (omega arith, (omega arith, tt))
      refl

kitten_sitting : lev (1 ∷ 2 ∷ 3 ∷ 3 ∷ 4 ∷ 5 ∷ []) (6 ∷ 2 ∷ 3 ∷ 3 ∷ 2 ∷ 5 ∷ 7 ∷ []) 8 ≡ 3
unfolding lev
kitten_sitting = refl

lev-IsCapped_example :
    IsCapped 2 (edit_distance (1 ∷ 2 ∷ 3 ∷ []) (1 ∷ 4 ∷ [])) (lev (1 ∷ 2 ∷ 3 ∷ []) (1 ∷ 4 ∷ []) 2)
lev-IsCapped_example = lev-IsCapped (1 ∷ 2 ∷ 3 ∷ []) (1 ∷ 4 ∷ []) 2

-- A plan of one step that ran, replaced.
abbrev first_revision : PlanRevisionRef
first_revision = record {
  source_revision_key_digest = "k";
  activity_id = "p";
  sequence = 3;
  source_digest = "s";
}

abbrev ran : State
ran = record {
  entry = record { raw = "read"; title = "read"; status = running; token_digest = "1" };
  identity = record { value = "i"; origin_revision = first_revision };
  current_revision = first_revision;
  reconciliation = minted "1" 1 0;
  association = record { actions = "d" ∷ []; observations = "c" ∷ []; sources = [] };
  canonical_seed = "k:1:1:0";
}

abbrev replaced : Revising
replaced = record {
  old = ran ∷ [];
  next =
      record { raw = "write it all"; title = "write it all"; status = pending; token_digest = "2" }
      ∷ [];
}

abbrev reconciled : Reconciled
unfolding reconcile after_prefix print
reconciled =
    ok_or (record { states = []; seeds = []; retired = []; orphans = [] })
      (reconcile runtime "t" first_revision 2 replaced [])

reconciled_ok : reconcile runtime "t" first_revision 2 replaced [] ≡ ok reconciled
unfolding reconcile after_prefix print
reconciled_ok = refl

reconcile-Conserves_example :
    sum_of (state_weight one) reconciled.states + sum_of (orphan_weight one) reconciled.orphans
    ≡ sum_of (state_weight one) replaced.old
reconcile-Conserves_example =
    reconcile-Conserves one replaced first_revision runtime "t" 2 [] {result = reconciled}
      reconciled_ok

abbrev each_identity : String → ℕ
each_identity value = 1

reconcile_identities_example :
    sum_of (retained_weight each_identity) reconciled.states
      + sum_of (retired_weight each_identity) reconciled.retired
    ≡ sum_of (identity_weight each_identity) replaced.old
reconcile_identities_example =
    reconcile_identities each_identity replaced first_revision runtime "t" 2 []
      {result = reconciled} reconciled_ok
