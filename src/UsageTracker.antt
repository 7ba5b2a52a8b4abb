-- ===== src/UsageTracker.antt =====
-- application/session/session-usage-tracker.ts: which model and turn used how many tokens. What the
-- two projections of an event's parameters return (`projectThreadTotalTokens` and
-- `projectContextUsage`, in double arithmetic) comes with the event.
pub mod Conservation
pub mod Sessions
use Prim.Native.Char.{nul}
use Prim.Native.String
use world_wide_woo.Common.{
  ℕ, ◌+◌, ◌-◌, String, Bool, true, false, not, ◌&&◌, ◌||◌, Option, none, some, List, [], ◌∷◌, ◌++◌,
  leb, ltb, ◌==◌, ◌is◌, any, includes, if◌then◌else◌,
}
use world_wide_woo.Decimal.{append}
use world_wide_woo.Dict.{Dict, lookup, insert, remove, values}

pub record ContextUsage : Type 0 where
  pub used_tokens : ℕ
  pub context_window : ℕ
  pub percent_tenths : ℕ

pub record ModelUsage : Type 0 where
  pub model : String
  pub effort : Option String
  pub interactive_root_turns : ℕ
  pub interactive_tokens : ℕ
  pub detached_invocations : ℕ
  pub detached_tokens : ℕ
  pub total_tokens : ℕ

pub record TurnModel : Type 0 where
  pub model : String
  pub effort : Option String

pub record Tracker : Type 0 where
  pub context_usage : Option ContextUsage
  pub observed_thread_total : Option ℕ
  pub interactive_usage_observed : Bool
  pub turn_models : Dict TurnModel
  pub observed_turns : List String
  pub model_usage : Dict ModelUsage
  pub pending_by_turn : Dict ℕ
  pub unattributed : ℕ

-- A notification: its thread and turn, where it names them, and what its parameters say.
pub record UsageEvent : Type 0 where
  pub thread_id : Option String
  pub turn_id : Option String
  pub total_tokens : Option ℕ
  pub context : Option ContextUsage

abbrev pub fresh : Bool → Tracker
fresh resumed = record {
  context_usage = none;
  observed_thread_total = if resumed then none else some 0;
  interactive_usage_observed = false;
  turn_models = [];
  observed_turns = [];
  model_usage = [];
  pending_by_turn = [];
  unattributed = 0;
}

abbrev pub text_or_empty : Option String → String
text_or_empty none = ""
text_or_empty (some s) = s

-- `${model}\u0000${effort ?? ""}`.
unfoldable pub usage_key : String → Option String → String
unfolding append
usage_key model effort = append model (String.◌∷◌ nul (text_or_empty effort))

abbrev pub number_or_0 : Option ℕ → ℕ
number_or_0 none = 0
number_or_0 (some n) = n

abbrev pub no_usage : String → Option String → ModelUsage
no_usage model effort = record {
  model = model;
  effort = effort;
  interactive_root_turns = 0;
  interactive_tokens = 0;
  detached_invocations = 0;
  detached_tokens = 0;
  total_tokens = 0;
}

abbrev pub usage_or : Option ModelUsage → ModelUsage → ModelUsage
usage_or none u = u
usage_or (some v) u = v

-- A usage with `turns` more turns and `delta` more tokens.
abbrev pub grown : ModelUsage → ℕ → ℕ → ModelUsage
grown u turns delta = record u {
  interactive_root_turns = u.interactive_root_turns + turns;
  interactive_tokens = u.interactive_tokens + delta;
  total_tokens = u.total_tokens + delta;
}

abbrev pub current_usage : String → Option String → Dict ModelUsage → ModelUsage
current_usage model effort m = usage_or (lookup (usage_key model effort) m) (no_usage model effort)

-- `add`.
unfoldable pub add : String → String → Option String → ℕ → Tracker → Tracker
add turn model effort delta t =
    let seen = includes t.observed_turns turn in
    record t {
      observed_turns = if seen then t.observed_turns else turn ∷ t.observed_turns;
      model_usage =
          insert (usage_key model effort)
            (grown (current_usage model effort t.model_usage) (if seen then 0 else 1) delta)
            t.model_usage;
    }

unfoldable pub attribute_to : String → Option TurnModel → ℕ → Tracker → Tracker
attribute_to turn (some b) delta t = add turn b.model b.effort delta t
attribute_to turn none delta t = record t {
  unattributed = t.unattributed + delta;
  pending_by_turn =
      insert turn (number_or_0 (lookup turn t.pending_by_turn) + delta) t.pending_by_turn;
}

-- `attribute`; an empty turn id counts as none.
unfoldable pub attribute : Option String → ℕ → Tracker → Tracker
unfolding attribute_to
attribute none delta t = record t { unattributed = t.unattributed + delta }
attribute (some turn) delta t =
    if turn is ""
    then record t { unattributed = t.unattributed + delta }
    else attribute_to turn (lookup turn t.turn_models) delta t

-- The first reading of a resumed thread is its baseline; a smaller one than the last is ignored.
unfoldable pub count_total : Option String → ℕ → Option ℕ → Tracker → Tracker
unfolding attribute
count_total turn reading none t = record t { observed_thread_total = some reading }
count_total turn reading (some last) t =
    let t' = record t { interactive_usage_observed = true; observed_thread_total = some reading } in
    if leb last reading
    then if ltb 0 (reading - last) then attribute turn (reading - last) t' else t'
    else t

abbrev pub count_reading : Option String → Option ℕ → Tracker → Tracker
count_reading turn none t = t
count_reading turn (some reading) t = count_total turn reading t.observed_thread_total t

-- `a && b && a !== b`, the empty text counting as none.
abbrev pub names_other : Option String → Option String → Bool
names_other (some a) (some b) = not (a is "") && not (b is "") && not (a is b)
names_other _ _ = false

abbrev pub names_same : Option String → Option String → Bool
names_same (some a) (some b) = not (a is "") && (a is b)
names_same _ _ = false

unfoldable pub observe : UsageEvent → Option String → Option String → Tracker → Tracker
unfolding count_total
observe e thread context_turn t =
    let counted = count_reading e.turn_id e.total_tokens t in
    if names_other e.thread_id thread
    then t
    else if names_same e.turn_id context_turn
    then record counted { context_usage = e.context }
    else counted

unfoldable pub settle : String → String → Option String → ℕ → Tracker → Tracker
settle turn model effort pending t =
    if pending == 0
    then t
    else add turn model effort pending (record t {
      pending_by_turn = remove turn t.pending_by_turn;
      unattributed = t.unattributed - pending;
    })

unfoldable pub bind_turn : String → String → Option String → Tracker → Tracker
unfolding settle
bind_turn turn model effort t =
    settle turn model effort (number_or_0 (lookup turn t.pending_by_turn)) (record t {
      turn_models = insert turn (record { model = model; effort = effort }) t.turn_models;
    })

-- One round of the loop of `snapshot`: usage of the same model and effort is added up.
unfoldable pub merge_usage : Dict ModelUsage → ModelUsage → Dict ModelUsage
merge_usage merged u =
    let key = usage_key u.model u.effort in
    let c = usage_or (lookup key merged) (no_usage u.model u.effort) in
    insert key
      (record {
        model = u.model;
        effort = u.effort;
        interactive_root_turns = c.interactive_root_turns + u.interactive_root_turns;
        interactive_tokens = c.interactive_tokens + u.interactive_tokens;
        detached_invocations = c.detached_invocations + u.detached_invocations;
        detached_tokens = c.detached_tokens + u.detached_tokens;
        total_tokens = c.total_tokens + u.total_tokens;
      })
      merged

unfoldable pub merge_all : Dict ModelUsage → List ModelUsage → Dict ModelUsage
merge_all merged [] = merged
merge_all merged (u ∷ us) = merge_all (merge_usage merged u) us

abbrev pub sum_tokens : List ModelUsage → ℕ
sum_tokens [] = 0
sum_tokens (u ∷ us) = u.total_tokens + sum_tokens us

pub record SessionUsage : Type 0 where
  pub total_tokens : ℕ
  pub observed_total_tokens : Option ℕ
  pub unattributed_tokens : ℕ
  pub models : List ModelUsage
  pub interactive : Bool
  pub detached : Bool

-- The order of `models`: most tokens first, then by `localeCompare`, which answers whether the
-- first name is not after the second.
module _ (not_after : String → String → Bool) where
  abbrev precedes : ModelUsage → ModelUsage → Bool
  precedes a b =
      ltb b.total_tokens a.total_tokens
      || (a.total_tokens == b.total_tokens && not_after a.model b.model)

  unfoldable pub insert_sorted : ModelUsage → List ModelUsage → List ModelUsage
  insert_sorted u [] = u ∷ []
  insert_sorted u (v ∷ vs) = if precedes u v then u ∷ v ∷ vs else v ∷ insert_sorted u vs

  unfoldable pub sort_usage : List ModelUsage → List ModelUsage
  unfolding insert_sorted
  sort_usage [] = []
  sort_usage (u ∷ us) = insert_sorted u (sort_usage us)

  unfoldable pub snapshot : Tracker → List ModelUsage → SessionUsage
  unfolding merge_all merge_usage sort_usage
  snapshot t auxiliary =
      let models = sort_usage (values (merge_all [] (values t.model_usage ++ auxiliary))) in
      let total = sum_tokens models + t.unattributed in
      let detached = any (λ u. ltb 0 u.detached_invocations) models in
      record {
        total_tokens = total;
        observed_total_tokens =
            if t.interactive_usage_observed || detached then some total else none;
        unattributed_tokens = t.unattributed;
        models = models;
        interactive = t.interactive_usage_observed;
        detached = detached;
      }
