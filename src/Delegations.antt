-- ===== src/Delegations.antt =====
-- domain/work-steps.ts: `projectNativeDelegation`, the tasks that agents hand to one another, as a
-- provider's collaboration items show them.
pub mod Observed
use Prim.Native.String
use world_wide_woo.Common.{
  ℕ, String, Bool, true, false, not, ◌&&◌, ◌||◌, Option, none, some, List, [], ◌∷◌, ◌++◌, leb, ◌is◌,
  if◌then◌else◌,
}
use world_wide_woo.Value.{
  Value, undefined, text, Fields, end, get, fields_of, text_of, elements_of, is_empty,
}
use world_wide_woo.Dict.{Dict, lookup, insert}
use world_wide_woo.Activities.{ProjectActivity, text_is}
use world_wide_woo.WorkSteps.Runtime.{record_at}
use world_wide_woo.WorkSteps.Classes.{or_value}

-- `trim`, the removal of what is no letter, and `toLowerCase`.
pub record DelegationRuntime : Type 0 where
  pub trim : String → String
  pub letters_only : String → String
  pub lower_case : String → String

pub data NativeDelegationStatus : Type 0 where
  pending running completed failed : NativeDelegationStatus

pub record NativeDelegationActivity : Type 0 where
  pub activity_id : String
  pub item_id : String
  pub kind : String
  pub message : Option String
  pub turn_id : String

pub record NativeDelegatedTask : Type 0 where
  pub parent_id : Option String
  pub status : NativeDelegationStatus
  pub task : Option String
  pub model : Option String
  pub reasoning_effort : Option String
  pub activities : List NativeDelegationActivity

-- The tasks of a turn by their ids, in the order in which they came up.
pub record NativeDelegationProjection : Type 0 where
  pub turn_id : String
  pub tasks : Dict NativeDelegatedTask

unfoldable pub delegation_status : Value → NativeDelegationStatus
delegation_status v =
    if text_is v "completed"
    then completed
    else if text_is v "failed"
        || text_is v "errored"
        || text_is v "interrupted"
        || text_is v "cancelled"
        || text_is v "canceled"
    then failed
    else if text_is v "running"
        || text_is v "started"
        || text_is v "interacted"
        || text_is v "inProgress"
    then running
    else pending

-- `a ?? b` on texts or null.
abbrev pub or_text : Option String → Option String → Option String
or_text none b = b
or_text (some a) b = some a

-- A text that is truthy.
abbrev pub filled : Option String → Option String
filled none = none
filled (some s) = if is_empty s then none else some s

abbrev pub fields_at : String → Fields → Fields
unfolding record_at
fields_at key fs = elim (record_at key fs) [ none ↦ end | some inner ↦ inner ]

-- `record(record(activity.payload.params)?.item)`, `{}` where there is none.
unfoldable pub item_fields : ProjectActivity → Fields
unfolding record_at
item_fields a = fields_at "item" (fields_at "params" a.payload)

-- A stable sort by the sequence.
unfoldable pub place_in : ProjectActivity → List ProjectActivity → List ProjectActivity
place_in a [] = a ∷ []
place_in a (b ∷ bs) =
    let rest = place_in a bs in if leb a.sequence b.sequence then a ∷ b ∷ bs else b ∷ rest

unfoldable pub by_sequence : List ProjectActivity → List ProjectActivity
unfolding place_in
by_sequence [] = []
by_sequence (a ∷ more) = place_in a (by_sequence more)

module _ (rt : DelegationRuntime) where
  unfoldable pub delegation_text : Value → Option String
  delegation_text v = elim (text_of v) [
    | none ↦ none
    | some s ↦ if is_empty (rt.trim s) then none else some (rt.trim s)
  ]

  abbrev pub text_at : String → Fields → Option String
  unfolding delegation_text get
  text_at key fs = delegation_text (get key fs)

  -- The type of an item, in lower-case letters.
  unfoldable pub type_of : Fields → String
  unfolding text_at
  type_of item = elim (text_at "type" item) [
    | none ↦ rt.lower_case (rt.letters_only "")
    | some s ↦ rt.lower_case (rt.letters_only s)
  ]

  abbrev pub is_call : Fields → Bool
  unfolding type_of
  is_call item = type_of item is "collabagenttoolcall"

  abbrev pub is_collaboration : Fields → Bool
  unfolding type_of
  is_collaboration item = is_call item || type_of item is "subagentactivity"

  -- `byTurn`, and the activities that it keeps out.
  unfoldable pub group :
      List ProjectActivity → Dict (List ProjectActivity) → Dict (List ProjectActivity)
  unfolding is_collaboration item_fields lookup insert
  group [] turns = turns
  group (a ∷ more) turns =
      let kept : Dict (List ProjectActivity) = elim (filled a.native_refs.turn_id) [
        | none ↦ group more turns
        | some turn ↦ elim (filled a.native_refs.item_id) [
          | none ↦ group more turns
          | some item ↦
              let before : List ProjectActivity = elim (lookup turn turns) [
                | none ↦ []
                | some entries ↦ entries
              ] in
              group more (insert turn (before ++ a ∷ []) turns)
        ]
      ] in
      if is_collaboration (item_fields a) then kept else group more turns

  abbrev pub no_task : Option String → NativeDelegatedTask
  no_task parent = record {
    parent_id = parent;
    status = pending;
    task = none;
    model = none;
    reasoning_effort = none;
    activities = [];
  }

  -- `ensure(id, parentId)`.
  abbrev pub ensured : String → Option String → Dict NativeDelegatedTask → NativeDelegatedTask
  unfolding lookup
  ensured id parent tasks = elim (lookup id tasks) [ none ↦ no_task parent | some t ↦ t ]

  -- `none` is the error that it throws.
  unfoldable pub delegation_activity :
      ProjectActivity → Fields → Option String → Option NativeDelegationActivity
  unfolding text_at
  delegation_activity a item message = elim (filled a.native_refs.turn_id) [
    | none ↦ none
    | some turn ↦ elim (filled a.native_refs.item_id) [
      | none ↦ none
      | some id ↦ some record {
        activity_id = a.id;
        item_id = id;
        kind = elim (or_text (text_at "kind" item) (text_at "tool" item)) [
          | none ↦ "activity"
          | some kind ↦ kind
        ];
        message = message;
        turn_id = turn;
      }
    ]
  ]

  -- `task.activities.push(delegationActivity(activity, item, message))`, and the map of tasks.
  unfoldable pub push_activity :
      ProjectActivity
      → Fields
      → Option String
      → String
      → NativeDelegatedTask
      → Dict NativeDelegatedTask
      → Option (Dict NativeDelegatedTask)
  unfolding delegation_activity insert
  push_activity a item message id t tasks = elim (delegation_activity a item message) [
    | none ↦ none
    | some d ↦ some (insert id (record t { activities = t.activities ++ d ∷ [] }) tasks)
  ]

  -- A receiver's task after a call: what it lacks is filled in, and its status is the receiver's
  -- state, or else the item's.
  unfoldable pub called : String → Fields → NativeDelegatedTask → NativeDelegatedTask
  unfolding text_at fields_at delegation_status
  called id item t =
      let settings = fields_at "settings" item in
      let state = fields_at id (fields_at "agentsStates" item) in
      record t {
        task = or_text t.task (text_at "prompt" item);
        model = or_text t.model (or_text (text_at "model" item) (text_at "model" settings));
        reasoning_effort = or_text t.reasoning_effort (
            or_text (text_at "reasoningEffort" item)
              (or_text (text_at "reasoning_effort" item) (text_at "reasoning_effort" settings)));
        status = delegation_status (or_value (get "status" state) (get "status" item));
      }

  unfoldable pub call_message : String → Fields → Option String
  unfolding text_at fields_at
  call_message id item =
      or_text (text_at "message" (fields_at id (fields_at "agentsStates" item)))
        (or_text (text_at "message" item) (text_at "input" item))

  unfoldable pub hand_over :
      ProjectActivity
      → Fields
      → String
      → Dict NativeDelegatedTask
      → Option (Dict NativeDelegatedTask)
  unfolding called call_message push_activity ensured insert text_at
  hand_over a item id tasks =
      let t = called id item (ensured id (text_at "senderThreadId" item) tasks) in
      elim (call_message id item) [
        | none ↦ some (insert id t tasks)
        | some message ↦ push_activity a item (some message) id t tasks
      ]

  abbrev pub then_tasks :
      Option (Dict NativeDelegatedTask)
      → (Dict NativeDelegatedTask → Option (Dict NativeDelegatedTask))
      → Option (Dict NativeDelegatedTask)
  then_tasks none k = none
  then_tasks (some tasks) k = k tasks

  unfoldable pub hand_over_all :
      ProjectActivity
      → Fields
      → List Value
      → Dict NativeDelegatedTask
      → Option (Dict NativeDelegatedTask)
  unfolding hand_over delegation_text
  hand_over_all a item [] tasks = some tasks
  hand_over_all a item (v ∷ vs) tasks = elim (delegation_text v) [
    | none ↦ hand_over_all a item vs tasks
    | some id ↦ then_tasks (hand_over a item id tasks) (hand_over_all a item vs)
  ]

  abbrev pub receivers : Fields → List Value
  unfolding get
  receivers item = elim (elements_of (get "receiverThreadIds" item)) [ none ↦ [] | some vs ↦ vs ]

  -- A sub-agent's own activity.
  unfoldable pub follow :
      ProjectActivity → Fields → Dict NativeDelegatedTask → Option (Dict NativeDelegatedTask)
  unfolding text_at push_activity ensured delegation_status
  follow a item tasks = elim (text_at "agentThreadId" item) [
    | none ↦ some tasks
    | some id ↦
        push_activity a item (or_text (text_at "message" item) (text_at "text" item)) id
          (record (ensured id none tasks) { status = delegation_status (get "kind" item) }) tasks
  ]

  unfoldable pub take_item :
      ProjectActivity → Dict NativeDelegatedTask → Option (Dict NativeDelegatedTask)
  unfolding is_call item_fields hand_over_all receivers follow
  take_item a tasks =
      if is_call (item_fields a)
      then hand_over_all a (item_fields a) (receivers (item_fields a)) tasks
      else follow a (item_fields a) tasks

  unfoldable pub take_items :
      List ProjectActivity → Dict NativeDelegatedTask → Option (Dict NativeDelegatedTask)
  unfolding take_item
  take_items [] tasks = some tasks
  take_items (a ∷ more) tasks = then_tasks (take_item a tasks) (take_items more)

  abbrev pub onto_projections :
      String
      → Option (Dict NativeDelegatedTask)
      → Option (List NativeDelegationProjection)
      → Option (List NativeDelegationProjection)
  onto_projections turn none ps = none
  onto_projections turn (some tasks) none = none
  onto_projections turn (some tasks) (some ps) =
      some (record { turn_id = turn; tasks = tasks } ∷ ps)

  unfoldable pub project_turns :
      Dict (List ProjectActivity) → Option (List NativeDelegationProjection)
  unfolding take_items by_sequence
  project_turns [] = some []
  project_turns ((turn, entries) ∷ turns) =
      onto_projections turn (take_items (by_sequence entries) []) (project_turns turns)

  -- `projectNativeDelegation`; `none` is the error that `delegationActivity` throws.
  unfoldable pub project_native_delegation :
      List ProjectActivity → Option (List NativeDelegationProjection)
  unfolding group project_turns
  project_native_delegation activities = project_turns (group activities [])
