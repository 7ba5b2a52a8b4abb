-- ===== src/Tests/Texts.antt =====
-- Excerpts, redaction, envelopes, reasoning payloads and planning snapshots at concrete inputs.
use world_wide_woo.Common.{
  ◌≤◌, ◌≡◌, refl, String, Bool, true, false, Option, none, some, [], ◌∷◌, ◌++◌, arith, ◌is◌, ok,
  if◌then◌else◌,
}
use world_wide_woo.Value.{Value, text, object, end, field, points}
use world_wide_woo.Terminal.{TerminalRuntime, head_tail, sanitize_terminal_text_excerpt}
use world_wide_woo.Terminal.Bounds.{sanitize_terminal_text_excerpt_bound}
use world_wide_woo.Redaction.{
  RedactionRuntime, RedactionPattern, redact_for_external_review, replacement_for, EnvelopeRuntime,
  analysis, Tag, opens, closes, Envelope, outside, next, partial_lines, partial_round, shown, enter,
}
use world_wide_woo.Redaction.Findings.{redact_for_external_review-unchanged}
use world_wide_woo.Redaction.Envelopes.{after_lines, partial_lines-hides}
use world_wide_woo.Activities.{is_reasoning_activity_payload}
use world_wide_woo.Activities.Reasoning.{
  nodes, IsNarrow, has_marked, is_reasoning_activity_payload-has_marked,
}
use world_wide_woo.Planning.{
  PlanningStory, PlanningSnapshot, PlanningRuntime, validate_planning_snapshot, check_entries,
}
use world_wide_woo.Planning.Chains.{validate_planning_snapshot-check_entries}

abbrev plain_terminal : TerminalRuntime
plain_terminal = record { replace = λ p s. s }

sanitize_terminal_text_excerpt_bound_example :
    points
      (sanitize_terminal_text_excerpt plain_terminal head_tail 24 "a text of more than twenty-four")
    ≤ 24
sanitize_terminal_text_excerpt_bound_example =
    sanitize_terminal_text_excerpt_bound plain_terminal head_tail 24
      "a text of more than twenty-four" (omega arith)

-- A redaction that knows one secret.
abbrev one_secret : RedactionRuntime
one_secret = record {
  strip = λ s. s;
  replace = λ p r s. if s is "sk-1234567890" then (r, 1) else (s, 0);
}

one_secret_unmatched :
    (p : RedactionPattern) (r s : String)
    → (one_secret.replace p r s).1 ≡ 0
    → (one_secret.replace p r s).0 ≡ s
one_secret_unmatched p r s h = ground arith

nothing_found : (redact_for_external_review one_secret "hello").findings ≡ []
unfolding redact_for_external_review replacement_for
nothing_found = refl

redact_for_external_review-unchanged_example :
    (redact_for_external_review one_secret "hello").text ≡ "hello"
redact_for_external_review-unchanged_example =
    redact_for_external_review-unchanged one_secret one_secret_unmatched "hello" nothing_found

abbrev tags : String → Option Tag
tags s =
    if s is "<analysis>"
    then some (opens analysis)
    else if s is "</analysis>"
    then some (closes analysis)
    else none

abbrev bare_tags : EnvelopeRuntime
bare_tags = record {
  fence_open = λ s. none;
  fence_closes = λ f s. false;
  section = λ s. none;
  close_suffix = λ s. none;
  tag = tags;
  open_prefix = λ s. none;
  trim = λ s. s;
}

abbrev inside : Envelope
inside = enter analysis outside

analysis_entered : after_lines bare_tags ("<analysis>" ∷ []) outside ≡ next inside
unfolding after_lines partial_round
analysis_entered = refl

partial_lines-hides_example :
    shown bare_tags "x"
      (partial_lines bare_tags (("<analysis>" ∷ []) ++ ("one" ∷ "</analysis>" ∷ [])) outside)
    ≡ shown bare_tags "y"
        (partial_lines bare_tags (("<analysis>" ∷ []) ++ ("two" ∷ "</analysis>" ∷ [])) outside)
partial_lines-hides_example =
    partial_lines-hides bare_tags ("<analysis>" ∷ []) ("</analysis>" ∷ []) "one" "two" "x" "y"
      inside {s = analysis} analysis_entered refl refl refl
      (record {
        no_fence = refl;
        no_section = refl;
        no_suffix = refl;
        no_tag = refl;
        no_prefix = refl;
      })
      (record {
        no_fence = refl;
        no_section = refl;
        no_suffix = refl;
        no_tag = refl;
        no_prefix = refl;
      })

abbrev names_reasoning : String → Bool
names_reasoning s = s is "item/reasoning"

abbrev reasoning : Value
reasoning = object (field "params" (object (field "method" (text "item/reasoning") end)) end)

is_reasoning_activity_payload-has_marked_example :
    is_reasoning_activity_payload names_reasoning reasoning ≡ has_marked names_reasoning 9 reasoning
is_reasoning_activity_payload-has_marked_example =
    is_reasoning_activity_payload-has_marked names_reasoning reasoning
      (unfold IsNarrow in ((tt, tt), tt)) (unfold nodes in omega arith)

abbrev plain_planning : PlanningRuntime
plain_planning = record { replace = λ p s. s; trim = λ s. s; is_date = λ s. true }

abbrev story : String → Option String → PlanningStory
story id earlier = record {
  id = id;
  epic_id = "EP-001";
  title = "title";
  acceptance = "done";
  created_at = "2026-01-01";
  supersedes = earlier;
}

abbrev plans : PlanningSnapshot
plans = record {
  revision = 3;
  epics = record { id = "EP-001"; title = "title"; goal = "goal"; created_at = "2026-01-01" } ∷ [];
  stories = story "ST-001-01" none ∷ story "ST-001-02" (some "ST-001-01") ∷ [];
}

plans_accepted : validate_planning_snapshot plain_planning plans ≡ ok tt
unfolding validate_planning_snapshot
plans_accepted = refl

validate_planning_snapshot-check_entries_example :
    validate_planning_snapshot plain_planning plans ≡ check_entries plain_planning plans
validate_planning_snapshot-check_entries_example =
    validate_planning_snapshot-check_entries plain_planning plans
