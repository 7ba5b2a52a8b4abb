-- ===== src/WorkSteps/Classes.antt =====
-- domain/work-steps.ts: `classifyWorkActivity` and `isReadOnlyShell`.
pub mod Observing
use Prim.Native.String
use world_wide_woo.Common.{
  ℕ, zero, suc, ◌+◌, String, Bool, true, false, not, ◌&&◌, ◌||◌, Option, none, some, List, [], ◌∷◌,
  map, all, keep, if◌then◌else◌,
}
use world_wide_woo.Value.{Value, undefined, null, Fields, get, text_of, is_empty}
use world_wide_woo.Activities.{ProjectActivity, ProjectActivityKind}
use world_wide_woo.WorkSteps.Runtime.{
  WorkRuntime, record_at, separators_to_spaces, acting_tool, reading_tool, acting_command,
  package_change, git_change, find_change, sed_change, redirection, read_command,
}
use world_wide_woo.WorkSteps.Entries.{WorkActivityClass, observation, action, control}

-- `a ?? b`.
abbrev pub or_value : Value → Value → Value
or_value undefined b = b
or_value null b = b
or_value a b = a

abbrev pub text_or_empty : Value → String
text_or_empty v = elim (text_of v) [ none ↦ "" | some s ↦ s ]

-- `record(record(payload.params)?.item) ?? record(payload.params) ?? payload`.
unfoldable pub item_of : Fields → Fields
unfolding record_at
item_of payload = elim (record_at "params" payload) [
  | none ↦ payload
  | some params ↦ elim (record_at "item" params) [ none ↦ params | some item ↦ item ]
]

unfoldable pub command_of : Fields → String
unfolding get
command_of item = text_or_empty (or_value (get "command" item) (get "cmd" item))

unfoldable pub tool_of : Fields → String
unfolding get
tool_of item =
    text_or_empty (or_value (or_value (get "tool" item) (get "toolName" item)) (get "name" item))

module _ (rt : WorkRuntime) where
  abbrev pub changes_something : String → Bool
  changes_something s =
      rt.matches acting_command s
      || rt.matches package_change s
      || rt.matches git_change s
      || rt.matches find_change s
      || rt.matches sed_change s
      || rt.matches redirection s

  abbrev pub segments_of : String → List String
  segments_of s = keep (λ part. not (is_empty part)) (map rt.trim (rt.split_commands s))

  abbrev pub reads : String → Bool
  reads part =
      rt.matches read_command (rt.trim (rt.without_parenthesis (rt.without_assignments part)))

  abbrev pub is_some_part : List String → Bool
  is_some_part [] = false
  is_some_part (part ∷ parts) = true

  unfoldable pub is_read_only_shell : String → Bool
  is_read_only_shell command =
      let value = rt.without_null_redirections (rt.trim command) in
      if is_empty value
      then true
      else if changes_something value
      then false
      else is_some_part (segments_of value) && all reads (segments_of value)

  unfoldable pub classify_tool : String → WorkActivityClass
  unfolding separators_to_spaces
  classify_tool tool =
      let normalized = rt.lower_case (separators_to_spaces tool) in
      if is_empty tool
      then action
      else if rt.matches acting_tool normalized
      then action
      else if rt.matches reading_tool normalized
      then observation
      else action

  unfoldable pub classify_item : Fields → WorkActivityClass
  unfolding command_of tool_of is_read_only_shell classify_tool
  classify_item item =
      if not (is_empty (command_of item))
      then if is_read_only_shell (command_of item) then observation else action
      else classify_tool (tool_of item)

  abbrev pub classify_kind : ProjectActivityKind → Fields → WorkActivityClass
  unfolding classify_item item_of
  classify_kind ProjectActivityKind.file_change payload = action
  classify_kind ProjectActivityKind.tool payload = classify_item (item_of payload)
  classify_kind _ payload = control

  unfoldable pub classify_work_activity : ProjectActivity → WorkActivityClass
  unfolding classify_kind
  classify_work_activity a = classify_kind a.kind a.payload
