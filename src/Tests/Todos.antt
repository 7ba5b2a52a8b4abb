-- ===== src/Tests/Todos.antt =====
-- The todo document at concrete inputs.
use world_wide_woo.Common.{◌≡◌, refl, ◌↔◌, [], ◌∷◌, ok, err}
use world_wide_woo.Value.{null}
use world_wide_woo.Todo.{
  pending, completed, progress_for, sanitize_todo_text, is_id_text, is_iso_date,
}
use world_wide_woo.Todo.Validity.{IsValid}
use world_wide_woo.Todo.Progress.{IsCounted, progress_for-IsCounted}
use world_wide_woo.Todo.Validation.{
  validate_todo_document, validate_header, validate_items, validate_item, validate_entry,
  validate_details, validate_detail, check_details, sanitize_title, bad_header,
}
use world_wide_woo.Todo.Validation.Typed.{document_value, clean_document}
use world_wide_woo.Todo.Validation.Soundness.{validate_todo_document-IsValid}
use world_wide_woo.Todo.Validation.Completeness.{validate_todo_document_iff}
use world_wide_woo.Samples.{plain, two_items}

two_items_accepted : validate_todo_document plain (document_value two_items) ≡ ok two_items
unfolding validate_todo_document validate_header validate_items validate_item validate_entry
    validate_details validate_detail check_details sanitize_title sanitize_todo_text is_id_text
    is_iso_date
two_items_accepted = refl

null_refused : validate_todo_document plain null ≡ err bad_header
unfolding validate_todo_document
null_refused = refl

validate_todo_document-IsValid_example : IsValid plain two_items
validate_todo_document-IsValid_example =
    validate_todo_document-IsValid plain (document_value two_items) two_items two_items_accepted

validate_todo_document_iff_example :
    (validate_todo_document plain (document_value two_items) ≡ ok two_items) ↔ (
      (two_items ≡ clean_document plain two_items) × IsValid plain (clean_document plain two_items))
validate_todo_document_iff_example = validate_todo_document_iff plain two_items two_items

progress_for-IsCounted_example :
    IsCounted (pending ∷ completed ∷ []) (progress_for (pending ∷ completed ∷ []))
progress_for-IsCounted_example = progress_for-IsCounted (pending ∷ completed ∷ [])
