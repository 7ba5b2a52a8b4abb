-- ===== src/WorkSteps/Classes/Observing.antt =====
-- domain/work-steps.ts: what `classifyWorkActivity` counts as an observation.
use world_wide_woo.Common.{
  ◌≡◌, inl, inr, refl, String, true, false, List, [], All, all, Bool-cases, arith, and_left,
  and_right, ◌∷◌, ◌↔◌, ◌≢◌, keep, not, map, length,
}
use world_wide_woo.Value.{is_empty, Fields}
use world_wide_woo.Activities.{ProjectActivity, ProjectActivityKind}
use world_wide_woo.WorkSteps.Runtime.{
  WorkRuntime, separators_to_spaces, acting_tool, reading_tool, acting_command, package_change,
  git_change, find_change, sed_change, redirection, read_command,
}
use world_wide_woo.WorkSteps.Entries.{observation}
use world_wide_woo.WorkSteps.Classes.{
  item_of, command_of, tool_of, segments_of, reads, is_some_part, is_read_only_shell, classify_tool,
  classify_item, classify_work_activity, classify_kind,
}

module _ (rt : WorkRuntime) where
  -- The parts of a command that are not blank.
  abbrev pub parts_of : String → List String
  parts_of value = keep (λ part. not (is_empty part)) (map rt.trim (rt.split_commands value))

  abbrev pub ReadsPart : String → Type 0
  ReadsPart part =
      rt.matches read_command (rt.trim (rt.without_parenthesis (rt.without_assignments part)))
      ≡ true

  -- A command, trimmed and without redirections to /dev/null, that does not change a thing: it is no
  -- match of any of the six patterns of a change, and has parts, each of which reads.
  pub record IsHarmless (value : String) : Type 0 where
    pub filled : is_empty value ≡ false
    pub acts : rt.matches acting_command value ≡ false
    pub packages : rt.matches package_change value ≡ false
    pub git : rt.matches git_change value ≡ false
    pub find : rt.matches find_change value ≡ false
    pub sed : rt.matches sed_change value ≡ false
    pub redirects : rt.matches redirection value ≡ false
    pub some_part : length (parts_of value) ≢ 0
    pub reading : All ReadsPart (parts_of value)

  abbrev pub value_of : String → String
  value_of command = rt.without_null_redirections (rt.trim command)

  abbrev pub ReadsTool : String → Type 0
  ReadsTool tool =
      (rt.matches acting_tool (rt.lower_case (separators_to_spaces tool)) ≡ false)
      × (rt.matches reading_tool (rt.lower_case (separators_to_spaces tool)) ≡ true)

  -- What an item of an observation has: a command of which nothing is left, or one that is harmless,
  -- or no command and a tool that reads.
  pub data Observes (item : Fields) : Type 0 where
    blank :
        is_empty (command_of item) ≡ false
        → is_empty (value_of (command_of item)) ≡ true
        → Observes item
    harmless :
        is_empty (command_of item) ≡ false → IsHarmless (value_of (command_of item)) → Observes item
    tool :
        is_empty (command_of item) ≡ true
        → is_empty (tool_of item) ≡ false
        → ReadsTool (tool_of item)
        → Observes item

  all-All : (parts : List String) → all (reads rt) parts ≡ true → All ReadsPart parts
  all-All [] h = tt
  all-All (part ∷ parts) h = (
    and_left (reads rt part) (all (reads rt) parts) h,
    all-All parts (and_right (reads rt part) (all (reads rt) parts) h),
  )

  All-all : (parts : List String) → All ReadsPart parts → all (reads rt) parts ≡ true
  All-all [] h = refl
  All-all (part ∷ parts) (h, hs) = ground (arith, h, All-all parts hs)

  has_part : (parts : List String) → is_some_part rt parts ≡ true → length parts ≢ 0
  has_part [] h e = cc (h)
  has_part (part ∷ parts) h e = cc (e)

  part_has : (parts : List String) → length parts ≢ 0 → is_some_part rt parts ≡ true
  part_has [] h = absurd (h refl)
  part_has (part ∷ parts) h = refl

  classify_item-Observes : (item : Fields) → classify_item rt item ≡ observation → Observes item
  unfolding classify_item is_read_only_shell classify_tool
  classify_item-Observes item h = elim (Bool-cases (is_empty (command_of item))) [
    | inl no_command ↦ tool no_command (ground arith) (ground arith, ground arith)
    | inr command ↦ elim (Bool-cases (is_empty (value_of (command_of item)))) [
      | inl empty ↦ blank command empty
      | inr filled ↦ harmless command record {
        filled = filled;
        acts = ground arith;
        packages = ground arith;
        git = ground arith;
        find = ground arith;
        sed = ground arith;
        redirects = ground arith;
        some_part = has_part (segments_of rt (value_of (command_of item))) (ground arith);
        reading = all-All (segments_of rt (value_of (command_of item))) (ground arith);
      }
    ]
  ]

  Observes-classify_item : (item : Fields) → Observes item → classify_item rt item ≡ observation
  unfolding classify_item is_read_only_shell classify_tool
  Observes-classify_item item (blank command empty) = ground (arith, command, empty)
  Observes-classify_item item (tool no_command named (idle, reading)) =
      ground (arith, no_command, named, idle, reading)
  Observes-classify_item item (harmless command h) =
      let parts = segments_of rt (value_of (command_of item)) in
      ground (
        arith,
        command,
        h.filled,
        h.acts,
        h.packages,
        h.git,
        h.find,
        h.sed,
        h.redirects,
        part_has parts h.some_part,
        All-all parts h.reading,
      )

  classify_kind-Observes :
      (kind : ProjectActivityKind) (payload : Fields)
      → classify_kind rt kind payload ≡ observation
      → (kind ≡ ProjectActivityKind.tool) × Observes (item_of payload)
  unfolding classify_kind
  classify_kind-Observes ProjectActivityKind.tool payload h =
      (refl, classify_item-Observes (item_of payload) h)
  classify_kind-Observes ProjectActivityKind.file_change payload h = cc (h)
  classify_kind-Observes ProjectActivityKind.message payload h = cc (h)
  classify_kind-Observes ProjectActivityKind.approval payload h = cc (h)
  classify_kind-Observes ProjectActivityKind.progress payload h = cc (h)

  Observes-classify_kind :
      (kind : ProjectActivityKind) (payload : Fields)
      → kind ≡ ProjectActivityKind.tool
      → Observes (item_of payload)
      → classify_kind rt kind payload ≡ observation
  unfolding classify_kind
  Observes-classify_kind ProjectActivityKind.tool payload h o =
      Observes-classify_item (item_of payload) o
  Observes-classify_kind ProjectActivityKind.file_change payload h o = cc (h)
  Observes-classify_kind ProjectActivityKind.message payload h o = cc (h)
  Observes-classify_kind ProjectActivityKind.approval payload h o = cc (h)
  Observes-classify_kind ProjectActivityKind.progress payload h o = cc (h)

  -- An activity is an observation if and only if it is a tool call of one of three kinds: it has a
  -- command of which nothing is left when it is trimmed and its redirections to /dev/null are taken
  -- away; or it has one that then matches none of the six patterns of a change and has parts, each a
  -- match of the pattern of a reading command; or it has no command, and a tool whose name matches the
  -- pattern of reading and not that of acting.
  pub classify_work_activity-Observes :
      (a : ProjectActivity)
      → (classify_work_activity rt a ≡ observation)
        ↔ ((a.kind ≡ ProjectActivityKind.tool) × Observes (item_of a.payload))
  unfolding classify_work_activity
  classify_work_activity-Observes a = (
    classify_kind-Observes a.kind a.payload,
    λ (same, o). Observes-classify_kind a.kind a.payload same o,
  )
