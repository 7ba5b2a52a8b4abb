-- ===== src/Todo/Validation/Typed.antt =====
-- domain/todos.ts: `validateTodoDocument` on a document that already has the right types, as
-- application/todo-ledger.ts calls it: the value that it receives and the document that it returns.
use world_wide_woo.Common.{
  String, ◌≡◌, refl, ap, Bool, true, Option, none, some, List, [], ◌∷◌, map, all, All, ok, arith,
}
use world_wide_woo.Value.{
  Value, null, natural, text, array, object, Fields, end, field, get, elements, array_of,
}
use world_wide_woo.Todo.{
  TodoItemStatus, pending, in_progress, completed, blocked, TodoDetail, TodoItem, TodoDocument,
  TextRuntime, sanitize_todo_text, is_id_text,
}
use world_wide_woo.Todo.Validity.{FitsText, NoRepeats, IsValidEvidence}
use world_wide_woo.Todo.Validation.{
  Label, TodoEntry, status_named, status_name, texts_of, ids_of, no_repeats, evidence_fits,
  validate_evidence, validate_entry,
}

abbrev pub texts_value : List String → Value
texts_value ids = array (array_of (map text ids))

abbrev pub story_value : Option String → Value
story_value none = null
story_value (some s) = text s

abbrev pub detail_fields : TodoDetail → Fields
detail_fields t = field "id" (text t.id) (
    field "content" (text t.content) (
      field "status" (text (status_name t.status))
        (field "evidenceIds" (texts_value t.evidence_ids) end)))

abbrev pub detail_value : TodoDetail → Value
detail_value t = object (detail_fields t)

abbrev pub item_fields : TodoItem → Fields
item_fields i = field "id" (text i.id) (
    field "content" (text i.content) (
      field "status" (text (status_name i.status)) (
        field "evidenceIds" (texts_value i.evidence_ids)
          (field "details" (array (array_of (map detail_value i.details))) end))))

abbrev pub item_value : TodoItem → Value
item_value i = object (item_fields i)

abbrev pub document_fields : TodoDocument → Fields
document_fields d = field "version" (natural 1) (
    field "revision" (natural d.revision) (
      field "ownerSessionId" (text d.owner_session_id) (
        field "storyId" (story_value d.story_id) (
          field "title" (text d.title) (
            field "items" (array (array_of (map item_value d.items)))
              (field "updatedAt" (text d.updated_at) end))))))

abbrev pub document_value : TodoDocument → Value
document_value d = object (document_fields d)

pub elements-array_of : (vs : List Value) → elements (array_of vs) ≡ vs
elements-array_of [] = refl
elements-array_of (v ∷ vs) = ap (λ r. v ∷ r) (elements-array_of vs)

texts_of-map : (ids : List String) → texts_of (map text ids) ≡ some ids
texts_of-map [] = refl
texts_of-map (s ∷ ss) = rw (texts_of-map ss)

ids_of-texts_value : (ids : List String) → ids_of (texts_value ids) ≡ some ids
unfolding ids_of
ids_of-texts_value ids = rw (elements-array_of (map text ids)) (texts_of-map ids)

no_repeats_of : (ids : List String) → NoRepeats ids → no_repeats ids ≡ true
no_repeats_of [] h = refl
no_repeats_of (s ∷ ss) (p, h) = rw p (no_repeats_of ss h)

all_ids_of : (p : String → Bool) (ids : List String) → All (λ s. p s ≡ true) ids → all p ids ≡ true
all_ids_of p [] h = refl
all_ids_of p (s ∷ ss) (q, h) = rw q (all_ids_of p ss h)

evidence_complete : (ids : List String) → IsValidEvidence ids → evidence_fits ids ≡ true
evidence_complete ids e =
    ground (arith, no_repeats_of ids e.unique, all_ids_of is_id_text ids e.each, e.few)

validate_evidence_complete :
    (ids : List String) → IsValidEvidence ids → validate_evidence (texts_value ids) ≡ ok ids
unfolding validate_evidence
validate_evidence_complete ids e = ground (arith, ids_of-texts_value ids, evidence_complete ids e)

validate_evidence_same :
    (ids : List String) {r : List String} → validate_evidence (texts_value ids) ≡ ok r → r ≡ ids
unfolding validate_evidence
validate_evidence_same ids h = ground (arith, ids_of-texts_value ids)

pub status_named_name : (s : TodoItemStatus) → status_named (status_name s) ≡ some s
status_named_name pending = refl
status_named_name in_progress = refl
status_named_name completed = refl
status_named_name blocked = refl

-- What the checks make of a detail, an item and a document: they keep all but the texts.
abbrev pub clean_detail : TextRuntime → TodoDetail → TodoDetail
clean_detail js t = record t { content = sanitize_todo_text js t.content }

abbrev pub clean_item : TextRuntime → TodoItem → TodoItem
clean_item js i = record i {
  content = sanitize_todo_text js i.content;
  details = map (clean_detail js) i.details;
}

abbrev pub clean_document : TextRuntime → TodoDocument → TodoDocument
clean_document js d = record d {
  title = sanitize_todo_text js d.title;
  items = map (clean_item js) d.items;
}

-- The fields that an entry's checks read.
pub record Holds (raw : Fields) (content : String) (s : TodoItemStatus) (ids : List String)
    : Type 0 where
  pub content_field : get "content" raw ≡ text content
  pub status_field : get "status" raw ≡ text (status_name s)
  pub evidence_field : get "evidenceIds" raw ≡ texts_value ids

module _ (js : TextRuntime) where
  abbrev clean_entry : String → TodoItemStatus → List String → TodoEntry
  clean_entry content s ids = record {
    content = sanitize_todo_text js content;
    status = s;
    evidence_ids = ids;
  }

  pub validate_entry_same :
      (label : Label) (raw : Fields) (content : String) (s : TodoItemStatus) (ids : List String)
      {e : TodoEntry}
      → Holds raw content s ids
      → validate_entry js label raw ≡ ok e
      → e ≡ clean_entry content s ids
  unfolding validate_entry
  validate_entry_same label raw content s ids {e} f h = ground (
    arith,
    f.content_field,
    f.status_field,
    f.evidence_field,
    status_named_name s,
    validate_evidence_same ids {r = e.evidence_ids},
  )

  pub validate_entry_complete :
      (label : Label) (raw : Fields) (content : String) (s : TodoItemStatus) (ids : List String)
      → Holds raw content s ids
      → FitsText (sanitize_todo_text js content)
      → IsValidEvidence ids
      → validate_entry js label raw ≡ ok (clean_entry content s ids)
  unfolding validate_entry
  validate_entry_complete label raw content s ids f fit v = ground (
    arith,
    f.content_field,
    f.status_field,
    f.evidence_field,
    status_named_name s,
    validate_evidence_complete ids v,
  )
