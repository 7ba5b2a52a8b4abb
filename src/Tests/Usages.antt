-- ===== src/Tests/Usages.antt =====
-- The usage tracker at concrete inputs.
use world_wide_woo.Common.{ℕ, ◌+◌, String, ◌≡◌, refl, Bool, true, false, none, some, List, [], ◌∷◌}
use world_wide_woo.UsageTracker.{
  ModelUsage, UsageEvent, fresh, snapshot, sum_tokens, observe, bind_turn, count_total, attribute,
  attribute_to, settle, add, merge_all, merge_usage, sort_usage, insert_sorted, usage_key,
}
use world_wide_woo.UsageTracker.Sessions.{Call, observes, binds, calls, session_total}
use world_wide_woo.Dict.{lookup, insert, remove}
use world_wide_woo.Decimal.{append}

abbrev reading : ℕ → UsageEvent
reading n = record {
  thread_id = some "t";
  turn_id = some "turn-1";
  total_tokens = some n;
  context = none;
}

abbrev two_readings : List Call
two_readings =
    observes (reading 10) (some "t") none
    ∷ binds "turn-1" "gpt" none
    ∷ observes (reading 25) (some "t") none
    ∷ []

abbrev narration : ModelUsage
narration = record {
  model = "mini";
  effort = none;
  interactive_root_turns = 0;
  interactive_tokens = 0;
  detached_invocations = 1;
  detached_tokens = 7;
  total_tokens = 7;
}

abbrev any_order : String → String → Bool
any_order a b = true

two_readings_total :
    (snapshot any_order (calls two_readings (fresh false)) (narration ∷ [])).total_tokens ≡ 32
unfolding calls observe count_total attribute attribute_to bind_turn settle add snapshot merge_all
    merge_usage sort_usage insert_sorted usage_key lookup insert remove append
two_readings_total = refl

session_total_example :
    (n : ℕ) × ((calls two_readings (fresh false)).observed_thread_total ≡ some n)
    × ((snapshot any_order (calls two_readings (fresh false)) (narration ∷ [])).total_tokens
        ≡ n + sum_tokens (narration ∷ []))
session_total_example = session_total any_order two_readings (narration ∷ [])
