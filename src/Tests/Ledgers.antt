-- ===== src/Tests/Ledgers.antt =====
-- The todo ledger at concrete inputs.
use world_wide_woo.Common.{◌≡◌, refl, some, [], ◌∷◌, ok, err, count}
use world_wide_woo.Todo.{is_id_text, sanitize_todo_text, is_iso_date, all_details}
use world_wide_woo.Todo.Validity.{active_detail}
use world_wide_woo.Todo.Validation.{
  validate_todo_document, validate_header, validate_items, validate_item, validate_entry,
  validate_details, validate_detail, check_details, sanitize_title,
}
use world_wide_woo.Todo.Validation.Soundness.{validate_todo_document-IsValid}
use world_wide_woo.Todo.Validation.Typed.{document_value}
use world_wide_woo.Decimal.{decimal, append, number_after}
use world_wide_woo.Decimal.Doubles.{double, number_text, unit_of}
use world_wide_woo.Ledger.State.{
  not_active, Draft, validate, document, record_written, commit, commit_draft,
}
use world_wide_woo.Ledger.State.Committing.{DraftWritten, IsSound}
use world_wide_woo.Ledger.Plans.{
  now, after, highest, is_id, add_to, plan_add, plan_transition, draft_of, complete_change,
}
use world_wide_woo.Ledger.Plans.Adding.{next_id, IsOnlyActive, add_to_now-IsOnlyActive}
use world_wide_woo.Ledger.Plans.Transitions.{complete, SameHeading, OneStep, plan_transition_step}
use world_wide_woo.Ledger.Operations
use world_wide_woo.Ledger.Requests.{adds, completes, mutates, disposes, mutate, run, planned}
use world_wide_woo.Ledger.Requests.Soundness.{mutate_written, run-IsSound}
use world_wide_woo.Ledger.Requests.Interrupting.{add_now_needs_idle_details}
use world_wide_woo.Samples.{
  plain, plain_ledger, memory_ports, working, two_items, three_items, second_item, first_done,
  urgent_items,
}

add_after : (mutate plain_ledger memory_ports (adds "three" after) working).0 ≡ ok three_items
unfolding mutate Operations.add plan_add add_to append decimal number_after highest double
    number_text commit_draft document validate commit record_written validate_todo_document
    validate_header validate_items validate_item validate_entry validate_details validate_detail
    check_details sanitize_title sanitize_todo_text is_id_text is_iso_date
add_after = refl

mutate_written_example :
    (draft : Draft) × (planned plain_ledger "s1" (some two_items) (adds "three" after) ≡ ok draft)
    × DraftWritten plain memory_ports draft working
        (mutate plain_ledger memory_ports (adds "three" after) working).1
        three_items
mutate_written_example =
    mutate_written plain_ledger memory_ports (adds "three" after) working three_items add_after

complete_refused : planned plain_ledger "s1" (some two_items) (completes "todo-2") ≡ err not_active
unfolding is_id is_id_text sanitize_todo_text plan_transition complete_change
complete_refused = refl

two_items_accepted : validate_todo_document plain (document_value two_items) ≡ ok two_items
unfolding validate_todo_document validate_header validate_items validate_item validate_entry
    validate_details validate_detail check_details sanitize_title sanitize_todo_text is_id_text
    is_iso_date
two_items_accepted = refl

run-IsSound_example :
    IsSound plain
      (run plain_ledger memory_ports working (mutates (completes "todo-1") ∷ disposes ∷ []))
run-IsSound_example =
    run-IsSound plain_ledger memory_ports working (mutates (completes "todo-1") ∷ disposes ∷ [])
      (validate_todo_document-IsValid plain (document_value two_items) two_items two_items_accepted)

complete_planned :
    plan_transition two_items "todo-1" complete_change
    ≡ ok (draft_of two_items (first_done ∷ second_item ∷ []))
unfolding plan_transition complete_change
complete_planned = refl

plan_transition_step_example :
    SameHeading two_items (draft_of two_items (first_done ∷ second_item ∷ []))
    × OneStep complete "todo-1" two_items.items (first_done ∷ second_item ∷ [])
plan_transition_step_example =
    plan_transition_step complete two_items "todo-1" (refl, (refl, tt))
      (draft_of two_items (first_done ∷ second_item ∷ [])) complete_planned

-- From 2 ^ 53 on the next id is that of the highest item.
repeated_id : next_id "todo-" ("todo-9007199254740992" ∷ []) ≡ "todo-9007199254740992"
unfolding highest number_after append number_text double unit_of decimal
repeated_id = refl

add_to_now-IsOnlyActive_example :
    IsOnlyActive "urgent" two_items.items (add_to now "urgent" two_items.items)
add_to_now-IsOnlyActive_example = add_to_now-IsOnlyActive "urgent" two_items.items

add_now : (mutate plain_ledger memory_ports (adds "urgent" now) working).0 ≡ ok urgent_items
unfolding mutate Operations.add plan_add add_to append decimal number_after highest double
    number_text commit_draft document validate commit record_written validate_todo_document
    validate_header validate_items validate_item validate_entry validate_details validate_detail
    check_details sanitize_title sanitize_todo_text is_id_text is_iso_date
add_now = refl

add_now_needs_idle_details_example : count active_detail (all_details two_items.items) ≡ 0
add_now_needs_idle_details_example =
    add_now_needs_idle_details plain_ledger memory_ports working two_items urgent_items "urgent"
      refl add_now
