-- ===== src/Tests/Tasks.antt =====
-- Delegated tasks at concrete inputs.
use world_wide_woo.Common.{◌≡◌, refl, none, some, List, [], ◌∷◌, All}
use world_wide_woo.Value.{text, object, array, nil, cons, Fields, end, field}
use world_wide_woo.Activities.{ProjectActivity, ProjectActivityKind, ProjectActivityPhase}
use world_wide_woo.Delegations.{
  DelegationRuntime, NativeDelegationProjection, completed, project_native_delegation,
}
use world_wide_woo.Delegations.Observed.{IsObservedProjection, project_native_delegation-observed}

abbrev plain : DelegationRuntime
plain = record { trim = λ s. s; letters_only = λ s. s; lower_case = λ s. s }

abbrev item : Fields
item = field "type" (text "collabagenttoolcall") (
    field "senderThreadId" (text "main") (
      field "receiverThreadIds" (array (cons (text "helper") nil)) (
        field "prompt" (text "look")
          (field "status" (text "completed") (field "message" (text "done") end)))))

abbrev handed : ProjectActivity
handed = record {
  id = "a";
  project_id = "p";
  sequence = 1;
  recorded_at = "now";
  kind = ProjectActivityKind.tool;
  phase = ProjectActivityPhase.completed;
  provider = "codex";
  native_refs = record { thread_id = some "t"; turn_id = some "u"; item_id = some "i" };
  source_digest = "";
  payload = field "params" (object (field "item" (object item) end)) end;
}

abbrev shown_tasks : List NativeDelegationProjection
shown_tasks =
    record {
      turn_id = "u";
      tasks =
          (
            "helper",
            record {
              parent_id = some "main";
              status = completed;
              task = some "look";
              model = none;
              reasoning_effort = none;
              activities =
                  record {
                    activity_id = "a";
                    item_id = "i";
                    kind = "activity";
                    message = some "done";
                    turn_id = "u";
                  }
                  ∷ [];
            },
          )
          ∷ [];
    }
    ∷ []

tasks_projected : project_native_delegation plain (handed ∷ []) ≡ some shown_tasks
unfolding project_native_delegation
tasks_projected = refl

-- Whatever holds of the one activity holds of the origin of what is shown.
abbrev IsFirst : ProjectActivity → Type 0
IsFirst a = a.sequence ≡ 1

project_native_delegation-observed_example :
    (ps : List NativeDelegationProjection) × (project_native_delegation plain (handed ∷ [])
      ≡ some ps)
    × All (IsObservedProjection IsFirst plain) ps
project_native_delegation-observed_example =
    project_native_delegation-observed IsFirst plain (handed ∷ []) (refl, tt)
