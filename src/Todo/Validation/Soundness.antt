-- ===== src/Todo/Validation/Soundness.antt =====
-- domain/todos.ts: the checks of `validateTodoDocument` are enough for a valid document.
use world_wide_woo.Common.{
  ltb, count-append, suc, ℕ, ◌+◌, ◌≤◌, String, ◌≡◌, refl, true, false, not, Option, none, some,
  List, [], ◌∷◌, length, includes, any, count, All, Distinct, ok, >>=-eq-ok, or_fail, refuse,
  ok_subst, ap, subst, arith,
}
use world_wide_woo.Value.{Value, Fields, get, fields_of}
use world_wide_woo.Todo.{
  TodoItemStatus, completed, TodoDetail, TodoItem, TodoDocument, is_in_progress, is_completed,
  TextRuntime, is_iso_date, all_details,
}
use world_wide_woo.Todo.Validation.{
  bad_item_id, bad_detail_count, details_of, bad_header, bad_story, two_active_items, story_of,
  unseen, Header, validate_header, duplicate_id, id_of, todo_item, Seen, bump, validate_entry,
  validate_details, check_details, validate_item, validate_items, sanitize_title,
  validate_todo_document,
}
use world_wide_woo.Todo.Validity.{
  active_item, active_detail, FitsText, IsId, IsValidItem, detail_ids, document_ids, OptIsId,
  IsValid,
}
use world_wide_woo.Todo.Validation.Details.{
  after, Distinct-append, content_fits_sound, validate_entry_sound, validate_details_sound,
  length-validate_details,
}

-- What one item adds, its details included.
record ItemFound (seen : Seen) (r : Seen × TodoItem) : Type 0 where
  ids : r.0.ids ≡ after (r.1.id ∷ seen.ids) (detail_ids r.1.details)
  active : r.0.active ≡ seen.active + count active_item (r.1 ∷ [])
  detail_active : r.0.detail_active ≡ seen.detail_active + count active_detail r.1.details
  few_active : r.0.detail_active ≤ 1
  distinct : Distinct seen.ids (r.1.id ∷ detail_ids r.1.details)
  valid : IsValidItem r.1

record ItemsFound (seen : Seen) (r : Seen × List TodoItem) : Type 0 where
  active : r.0.active ≡ seen.active + count active_item r.1
  detail_active : r.0.detail_active ≡ seen.detail_active + count active_detail (all_details r.1)
  few_active : seen.detail_active ≤ 1 → r.0.detail_active ≤ 1
  distinct : Distinct seen.ids (document_ids r.1)
  each : All IsValidItem r.1

ItemsFound-cons :
    (seen : Seen) (one : Seen × TodoItem) (rest : Seen × List TodoItem)
    → ItemFound seen one
    → ItemsFound one.0 rest
    → ItemsFound seen (rest.0, one.1 ∷ rest.1)
ItemsFound-cons seen one rest f fs = record {
  active = omega (arith, fs.active, f.active);
  detail_active = omega (
    arith,
    fs.detail_active,
    f.detail_active,
    count-append active_detail (one.1.details) (all_details rest.1),
  );
  few_active = λ _. fs.few_active f.few_active;
  distinct = (
    f.distinct.0,
    Distinct-append (one.1.id ∷ seen.ids) (detail_ids one.1.details) (document_ids rest.1)
        f.distinct.1 (subst (λ s. Distinct s (document_ids rest.1)) f.ids fs.distinct),
  );
  each = (f.valid, fs.each);
}

none_active : (ts : List TodoDetail) → any active_detail ts ≡ false → count active_detail ts ≡ 0
none_active [] h = refl
none_active (t ∷ ts) h = ground (arith, none_active ts)

All-completed :
    (ts : List TodoDetail)
    → any (λ t. not (is_completed t.status)) ts ≡ false
    → All (λ t. t.status ≡ completed) ts
All-completed [] h = tt
All-completed (t ∷ ts) h = (ground arith, All-completed ts (ground arith))

check_details_sound :
    (js : TextRuntime) (n : ℕ) (s : TodoItemStatus) (ts : List TodoDetail)
    → check_details js n s ts ≡ ok tt
    → (n ≤ 1)
      × (is_in_progress s ≡ false → count active_detail ts ≡ 0)
      × (s ≡ completed → All (λ t. t.status ≡ completed) ts)
unfolding check_details
check_details_sound js n s ts h =
    (ground arith, λ p. none_active ts (ground arith), λ p. All-completed ts (ground arith))

OptIsId-of :
    (v : Value) (story : Option String) → or_fail (story_of v) bad_story ≡ ok story → OptIsId story
OptIsId-of v none h = tt
OptIsId-of v (some s) h = ground arith

record IsValidHeader (js : TextRuntime) (header : Header) : Type 0 where
  revision : header.revision ≤ 9007199254740991
  owner : IsId header.owner
  story : OptIsId header.story
  date : is_iso_date js header.updated ≡ true
  few_items : length header.raw_items ≤ 12

few_of : (most n : ℕ) → refuse (ltb most n) bad_detail_count ≡ ok tt → n ≤ most
few_of most n h = ground arith

module _ (js : TextRuntime) where
  validate_item_sound :
      (seen : Seen) (v : Value) {r : Seen × TodoItem}
      → validate_item js seen v ≡ ok r
      → ItemFound seen r
  unfolding validate_item
  validate_item_sound seen v h =
      let (raw, _, h1) = >>=-eq-ok (or_fail (fields_of v) bad_item_id) _ h in
      let (id, is_id, h2) = >>=-eq-ok (or_fail (id_of (get "id" raw)) bad_item_id) _ h1 in
      let (_, fresh, h3) = >>=-eq-ok (refuse (includes seen.ids id) duplicate_id) _ h2 in
      let (e, checked, h4) = >>=-eq-ok (validate_entry js todo_item raw) _ h3 in
      let (vs, _, h5) =
        >>=-eq-ok (or_fail (details_of (get "details" raw)) bad_detail_count) _ h4 in
      let (_, few, h6) = >>=-eq-ok (refuse (ltb 8 (length vs)) bad_detail_count) _ h5 in
      let inner = record seen { ids = id ∷ seen.ids; active = bump e.status seen.active } in
      let (found, ran, h7) = >>=-eq-ok (validate_details js inner vs) _ h6 in
      let (_, agreed, h8) =
        >>=-eq-ok (check_details js found.0.detail_active e.status found.1) _ h7 in
      let (content, evidence) = validate_entry_sound js todo_item raw checked in
      let details = validate_details_sound js inner vs ran in
      let (few_active, parent, done) = check_details_sound js _ e.status found.1 agreed in
      ok_subst (ItemFound seen) h8 (record {
        ids = details.ids;
        active = ground arith;
        detail_active = details.detail_active;
        few_active = few_active;
        distinct = (ground arith, details.distinct);
        valid = record {
          id = ground arith;
          content = content;
          evidence = evidence;
          few_details =
              omega (arith, length-validate_details js inner vs ran, few_of 8 (length vs) few);
          each_detail = details.each;
          active_parent = parent;
          completed_details = done;
        };
      })

  validate_items_sound :
      (seen : Seen) (vs : List Value) {r : Seen × List TodoItem}
      → validate_items js seen vs ≡ ok r
      → ItemsFound seen r × (length r.1 ≡ length vs)
  unfolding validate_items
  validate_items_sound seen [] h =
      ok_subst (λ r. ItemsFound seen r × (length r.1 ≡ 0)) h
        (
          record {
            active = omega arith;
            detail_active = omega arith;
            few_active = λ k. k;
            distinct = tt;
            each = tt;
          },
          refl,
        )
  validate_items_sound seen (v ∷ vs) h =
      let (one, first, h1) = >>=-eq-ok (validate_item js seen v) _ h in
      let (rest, later, h2) = >>=-eq-ok (validate_items js one.0 vs) _ h1 in
      let (found, same) = validate_items_sound one.0 vs later in
      ok_subst (λ r. ItemsFound seen r × (length r.1 ≡ suc (length vs))) h2
        (ItemsFound-cons seen one rest (validate_item_sound seen v first) found, ap suc same)

  sanitize_title_sound : (s : String) {t : String} → sanitize_title js s ≡ ok t → FitsText t
  unfolding sanitize_title
  sanitize_title_sound s {t} h = content_fits_sound t (ground arith)

  validate_header_sound :
      (value : Fields) {header : Header}
      → validate_header js value ≡ ok header
      → IsValidHeader js header
  unfolding validate_header
  validate_header_sound value {header} h = record {
    revision = ground arith;
    owner = ground arith;
    story = OptIsId-of (get "storyId" value) header.story (ground arith);
    date = ground arith;
    few_items = ground arith;
  }

  -- A document that `validateTodoDocument` returns is valid, whatever value it was given.
  pub validate_todo_document-IsValid :
      (v : Value) (d : TodoDocument) → validate_todo_document js v ≡ ok d → IsValid js d
  unfolding validate_todo_document
  validate_todo_document-IsValid v d h =
      let (value, _, h1) = >>=-eq-ok (or_fail (fields_of v) bad_header) _ h in
      let (header, checked, h2) = >>=-eq-ok (validate_header js value) _ h1 in
      let (found, ran, h3) = >>=-eq-ok (validate_items js unseen header.raw_items) _ h2 in
      let (_, one, h4) = >>=-eq-ok (refuse (ltb 1 found.0.active) two_active_items) _ h3 in
      let (clean, cleaned, h5) = >>=-eq-ok (sanitize_title js header.title) _ h4 in
      let (facts, same) = validate_items_sound unseen header.raw_items ran in
      let head = validate_header_sound value checked in
      ok_subst (IsValid js) h5 (record {
        revision = head.revision;
        owner = head.owner;
        story = head.story;
        title = sanitize_title_sound header.title cleaned;
        date = head.date;
        few_items = omega (arith, head.few_items, same);
        each_item = facts.each;
        unique_ids = facts.distinct;
        one_active = ground (arith, facts.active);
        one_active_detail = omega (arith, facts.detail_active, facts.few_active);
      })
