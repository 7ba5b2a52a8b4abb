-- ===== src/Todo/Validation.antt =====
-- domain/todos.ts: `validateTodoDocument`. A failed check is an error, as `fail` throws one.
pub mod Details
pub mod Typed
pub mod Same
pub mod Completeness
pub mod Soundness
use world_wide_woo.Common.{
  ℕ, ◌+◌, String, Bool, true, false, not, ◌&&◌, ◌||◌, Option, none, some, List, [], ◌∷◌, map,
  length, includes, any, all, leb, ltb, ◌==◌, ◌is◌, if◌then◌else◌, Result, ok, err, ◌>>=◌, ◌>>◌,
  guard, refuse, or_fail,
}
use world_wide_woo.Value.{
  Value, undefined, null, natural, text, array, object, Fields, end, field, get, fields_of, text_of,
  elements_of, array_of, points, is_empty,
}
use world_wide_woo.Todo.{
  TodoItemStatus, pending, in_progress, completed, blocked, TodoDetail, TodoItem, TodoDocument,
  max_todo_evidence, is_in_progress, is_completed, is_id_text, TextRuntime, sanitize_todo_text,
  is_iso_date,
}

pub data Label : Type 0 where
  todo_item todo_detail : Label

pub data TodoFailure : Type 0 where
  bad_header bad_owner bad_story bad_title bad_updated_at bad_item_count bad_item_id : TodoFailure
  duplicate_id bad_evidence bad_detail_count bad_detail_id : TodoFailure
  two_active_details orphan_active_detail unfinished_details two_active_items : TodoFailure
  bad_content bad_status : Label → TodoFailure

-- `value.revision`, a safe integer that is not negative.
abbrev revision_of : Value → Option ℕ
revision_of (natural n) = if leb n 9007199254740991 then some n else none
revision_of _ = none

abbrev is_version_1 : Value → Bool
is_version_1 (natural n) = n == 1
is_version_1 _ = false

abbrev pub status_named : String → Option TodoItemStatus
status_named s =
    if s is "pending"
    then some pending
    else if s is "in_progress"
    then some in_progress
    else if s is "completed"
    then some completed
    else if s is "blocked"
    then some blocked
    else none

abbrev pub status_name : TodoItemStatus → String
status_name pending = "pending"
status_name in_progress = "in_progress"
status_name completed = "completed"
status_name blocked = "blocked"

-- The values that are all texts.
abbrev pub texts_of : List Value → Option (List String)
texts_of [] = some []
texts_of (v ∷ vs) = elim (text_of v) [
  | none ↦ none
  | some s ↦ elim (texts_of vs) [ none ↦ none | some ss ↦ some (s ∷ ss) ]
]

-- No text stands twice: `new Set(ids).size === ids.length`.
abbrev pub no_repeats : List String → Bool
no_repeats [] = true
no_repeats (s ∷ ss) = not (includes ss s) && no_repeats ss

unfoldable pub ids_of : Value → Option (List String)
ids_of v = elim (elements_of v) [ none ↦ none | some vs ↦ texts_of vs ]

abbrev pub evidence_fits : List String → Bool
evidence_fits ids = leb (length ids) max_todo_evidence && no_repeats ids && all is_id_text ids

-- All the ways for `evidenceIds` to be wrong have one message, so their order is free.
unfoldable pub validate_evidence : Value → Result TodoFailure (List String)
unfolding ids_of
validate_evidence v = do
  ids ← or_fail (ids_of v) bad_evidence
  guard (evidence_fits ids) bad_evidence
  ok ids

pub record TodoEntry : Type 0 where
  pub content : String
  pub status : TodoItemStatus
  pub evidence_ids : List String

abbrev pub content_fits : String → Bool
content_fits s = not (is_empty s) && leb (points s) 120

-- What the checks have seen so far: the ids, and the numbers of active items and details.
pub record Seen : Type 0 where
  pub ids : List String
  pub active : ℕ
  pub detail_active : ℕ

abbrev pub bump : TodoItemStatus → ℕ → ℕ
bump in_progress n = n + 1
bump _ n = n

abbrev pub id_of : Value → Option String
id_of v = elim (text_of v) [ none ↦ none | some s ↦ if is_id_text s then some s else none ]

abbrev pub story_of : Value → Option (Option String)
story_of null = some none
story_of (text s) = if is_id_text s then some (some s) else none
story_of _ = none

-- `raw.details`, with `undefined` for an empty array.
abbrev details_of : Value → Option (List Value)
details_of undefined = some []
details_of v = elements_of v

abbrev pub unseen : Seen
unseen = record { ids = []; active = 0; detail_active = 0 }

pub record Header : Type 0 where
  pub revision : ℕ
  pub owner : String
  pub story : Option String
  pub title : String
  pub updated : String
  pub raw_items : List Value

module _ (js : TextRuntime) where
  unfoldable pub validate_entry : Label → Fields → Result TodoFailure TodoEntry
  unfolding validate_evidence get
  validate_entry label raw = do
    given ← or_fail (text_of (get "content" raw)) (bad_content label)
    guard (content_fits (sanitize_todo_text js given)) (bad_content label)
    name ← or_fail (text_of (get "status" raw)) (bad_status label)
    status ← or_fail (status_named name) (bad_status label)
    evidence ← validate_evidence (get "evidenceIds" raw)
    ok (record { content = sanitize_todo_text js given; status = status; evidence_ids = evidence })

  unfoldable pub validate_detail : Seen → Value → Result TodoFailure (Seen × TodoDetail)
  unfolding get
  validate_detail seen v = do
    raw ← or_fail (fields_of v) bad_detail_id
    id ← or_fail (id_of (get "id" raw)) bad_detail_id
    refuse (includes seen.ids id) duplicate_id
    entry ← validate_entry todo_detail raw
    ok (
      record seen { ids = id ∷ seen.ids; detail_active = bump entry.status seen.detail_active },
      record {
        id = id;
        content = entry.content;
        status = entry.status;
        evidence_ids = entry.evidence_ids;
      },
    )

  unfoldable pub validate_details : Seen → List Value → Result TodoFailure (Seen × List TodoDetail)
  validate_details seen [] = ok (seen, [])
  validate_details seen (v ∷ vs) = do
    first ← validate_detail seen v
    rest ← validate_details first.0 vs
    ok (rest.0, first.1 ∷ rest.1)

  -- The three checks of an item against its details.
  unfoldable pub check_details :
      ℕ → TodoItemStatus → List TodoDetail → Result TodoFailure (Unit {0})
  check_details detail_active status details = do
    refuse (ltb 1 detail_active) two_active_details
    refuse (any (λ t. is_in_progress t.status) details && not (is_in_progress status))
        orphan_active_detail
    refuse (is_completed status && any (λ t. not (is_completed t.status)) details)
        unfinished_details

  unfoldable pub validate_item : Seen → Value → Result TodoFailure (Seen × TodoItem)
  unfolding get
  validate_item seen v = do
    raw ← or_fail (fields_of v) bad_item_id
    id ← or_fail (id_of (get "id" raw)) bad_item_id
    refuse (includes seen.ids id) duplicate_id
    entry ← validate_entry todo_item raw
    raw_details ← or_fail (details_of (get "details" raw)) bad_detail_count
    refuse (ltb 8 (length raw_details)) bad_detail_count
    found ←
        validate_details
          (record seen { ids = id ∷ seen.ids; active = bump entry.status seen.active }) raw_details
    check_details (found.0).detail_active entry.status found.1
    ok (
      found.0,
      record {
        id = id;
        content = entry.content;
        status = entry.status;
        evidence_ids = entry.evidence_ids;
        details = found.1;
      },
    )

  unfoldable pub validate_items : Seen → List Value → Result TodoFailure (Seen × List TodoItem)
  validate_items seen [] = ok (seen, [])
  validate_items seen (v ∷ vs) = do
    first ← validate_item seen v
    rest ← validate_items first.0 vs
    ok (rest.0, first.1 ∷ rest.1)

  unfoldable pub sanitize_title : String → Result TodoFailure String
  sanitize_title s = do
    guard (content_fits (sanitize_todo_text js s)) bad_title
    ok (sanitize_todo_text js s)

  -- The checks before the items.
  unfoldable pub validate_header : Fields → Result TodoFailure Header
  unfolding get
  validate_header value = do
    guard (is_version_1 (get "version" value)) bad_header
    revision ← or_fail (revision_of (get "revision" value)) bad_header
    owner ← or_fail (id_of (get "ownerSessionId" value)) bad_owner
    story ← or_fail (story_of (get "storyId" value)) bad_story
    title ← or_fail (text_of (get "title" value)) bad_title
    updated ← or_fail (text_of (get "updatedAt" value)) bad_updated_at
    guard (is_iso_date js updated) bad_updated_at
    raw_items ← or_fail (elements_of (get "items" value)) bad_item_count
    refuse (ltb 12 (length raw_items)) bad_item_count
    ok (record {
      revision = revision;
      owner = owner;
      story = story;
      title = title;
      updated = updated;
      raw_items = raw_items;
    })

  unfoldable pub validate_todo_document : Value → Result TodoFailure TodoDocument
  validate_todo_document v = do
    value ← or_fail (fields_of v) bad_header
    header ← validate_header value
    found ← validate_items unseen header.raw_items
    refuse (ltb 1 (found.0).active) two_active_items
    clean ← sanitize_title header.title
    ok (record {
      revision = header.revision;
      owner_session_id = header.owner;
      story_id = header.story;
      title = clean;
      items = found.1;
      updated_at = header.updated;
    })
