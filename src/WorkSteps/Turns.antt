-- ===== src/WorkSteps/Turns.antt =====
-- domain/work-steps.ts: where a turn starts and ends in a journal, and the requests before it.
use world_wide_woo.Common.{
  ℕ, suc, String, Bool, true, false, not, ◌&&◌, ◌||◌, Option, none, some, List, [], ◌∷◌, take, drop,
  find_index, ◌is◌, if◌then◌else◌,
}
use world_wide_woo.Value.{get, text_of}
use world_wide_woo.Activities.{ProjectActivity, ProjectActivityKind, text_is}
use world_wide_woo.WorkSteps.Journal.{has_method}
use world_wide_woo.WorkSteps.Flow.{text_eq, is_of_turn}

abbrev pub is_turn_start : ProjectActivity → Bool
unfolding get
is_turn_start a = has_method "turn/start" a || has_method "turn/started" a

-- `slice().reverse().find(p)`.
abbrev pub find_last {ℓ} : {A : Type ℓ} → (A → Bool) → List A → Option A
find_last p [] = none
find_last p (x ∷ xs) = elim (find_last p xs) [
  | some y ↦ some y
  | none ↦ if p x then some x else none
]

abbrev pub is_message : ProjectActivityKind → Bool
is_message ProjectActivityKind.message = true
is_message _ = false

-- An outbound message with a text.
abbrev pub is_request : ProjectActivity → Bool
unfolding get
is_request a =
    is_message a.kind
    && text_is (get "direction" a.payload) "outbound"
    && elim (text_of (get "text" a.payload)) [ none ↦ false | some s ↦ true ]

-- The thread's requests of the turn, or of no turn.
abbrev pub is_goal : String → String → ProjectActivity → Bool
unfolding get
is_goal key turn a =
    text_eq a.native_refs.thread_id key
    && elim a.native_refs.turn_id [ none ↦ true | some t ↦ t is turn ]
    && is_request a

unfoldable pub starts : String → String → ProjectActivity → Bool
unfolding get
starts key turn a = is_turn_start a && is_of_turn key turn a

unfoldable pub starts_another : String → String → ProjectActivity → Bool
unfolding get
starts_another key turn a =
    is_turn_start a
    && text_eq a.native_refs.thread_id key
    && elim a.native_refs.turn_id [ none ↦ false | some t ↦ not (t is turn) ]

-- From the start of the turn to the next start of another, given where the turn starts.
unfoldable pub interval : String → String → ℕ → List ProjectActivity → List ProjectActivity
unfolding get starts_another
interval key turn start activities =
    elim (find_index (starts_another key turn) (drop (suc start) activities)) [
      | none ↦ drop start activities
      | some n ↦ take (suc n) (drop start activities)
    ]
