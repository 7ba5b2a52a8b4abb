-- ===== src/Todo/Validation/Same.antt =====
-- domain/todos.ts: `validateTodoDocument` returns the document that it is given, its texts sanitized.
use world_wide_woo.Common.{
  String, ◌≡◌, refl, ap, subst, ◌∙◌, Option, none, some, List, [], ◌∷◌, map, length, includes, ltb,
  ok, refuse, or_fail, >>=-eq-ok, ok_subst, arith,
}
use world_wide_woo.Value.{get, elements, array_of}
use world_wide_woo.Todo.{TodoDetail, TodoItem, TodoDocument, TextRuntime}
use world_wide_woo.Todo.Validation.{
  todo_item, todo_detail, Seen, unseen, bump, validate_entry, validate_detail, validate_details,
  check_details, validate_item, validate_items, validate_header, sanitize_title,
  validate_todo_document, Header, story_of, id_of, bad_detail_id, bad_item_id, duplicate_id,
  bad_detail_count, two_active_items,
}
use world_wide_woo.Todo.Validation.Typed.{
  detail_value, detail_fields, item_value, item_fields, document_value, story_value,
  elements-array_of, clean_detail, clean_item, document_fields, Holds, clean_document,
  validate_entry_same,
}

pub detail_Holds : (t : TodoDetail) → Holds (detail_fields t) t.content t.status t.evidence_ids
unfolding get
detail_Holds t = record { content_field = refl; status_field = refl; evidence_field = refl }

pub item_Holds : (i : TodoItem) → Holds (item_fields i) i.content i.status i.evidence_ids
unfolding get
item_Holds i = record { content_field = refl; status_field = refl; evidence_field = refl }

story_same : (s r : Option String) → story_of (story_value s) ≡ some r → r ≡ s
story_same none r h = cc
story_same (some x) r h = ground arith

module _ (js : TextRuntime) where
  pub validate_detail_same :
      (seen : Seen) (t : TodoDetail) {r : Seen × TodoDetail}
      → validate_detail js seen (detail_value t) ≡ ok r
      → r.1 ≡ clean_detail js t
  unfolding validate_detail
  validate_detail_same seen t {r} h =
      let (id, found, h1) =
        >>=-eq-ok (or_fail (id_of (get "id" (detail_fields t))) bad_detail_id) _ h in
      let (_, _, h2) = >>=-eq-ok (refuse (includes seen.ids id) duplicate_id) _ h1 in
      let (e, checked, h3) = >>=-eq-ok (validate_entry js todo_detail (detail_fields t)) _ h2 in
      let same =
        validate_entry_same js todo_detail (detail_fields t) t.content t.status t.evidence_ids
          (detail_Holds t) checked in
      ok_subst (λ s. s.1 ≡ clean_detail js t) h3 (ground (arith, same))

  pub validate_details_same :
      (seen : Seen) (ts : List TodoDetail) {r : Seen × List TodoDetail}
      → validate_details js seen (map detail_value ts) ≡ ok r
      → r.1 ≡ map (clean_detail js) ts
  unfolding validate_details
  validate_details_same seen [] h = ok_subst (λ s. s.1 ≡ []) h refl
  validate_details_same seen (t ∷ ts) h =
      let (one, first, h1) = >>=-eq-ok (validate_detail js seen (detail_value t)) _ h in
      let (rest, later, h2) = >>=-eq-ok (validate_details js one.0 (map detail_value ts)) _ h1 in
      ok_subst (λ s. s.1 ≡ clean_detail js t ∷ map (clean_detail js) ts) h2
        (cc (validate_detail_same seen t first, validate_details_same one.0 ts later))

  validate_item_same :
      (seen : Seen) (i : TodoItem) {r : Seen × TodoItem}
      → validate_item js seen (item_value i) ≡ ok r
      → r.1 ≡ clean_item js i
  unfolding validate_item
  validate_item_same seen i {r} h =
      let (id, found, h1) =
        >>=-eq-ok (or_fail (id_of (get "id" (item_fields i))) bad_item_id) _ h in
      let (_, _, h2) = >>=-eq-ok (refuse (includes seen.ids id) duplicate_id) _ h1 in
      let (e, checked, h3) = >>=-eq-ok (validate_entry js todo_item (item_fields i)) _ h2 in
      let vs = elements (array_of (map detail_value i.details)) in
      let (_, _, h4) = >>=-eq-ok (refuse (ltb 8 (length vs)) bad_detail_count) _ h3 in
      let inner = record seen { ids = id ∷ seen.ids; active = bump e.status seen.active } in
      let (found, ran, h5) = >>=-eq-ok (validate_details js inner vs) _ h4 in
      let (_, _, h6) = >>=-eq-ok (check_details js found.0.detail_active e.status found.1) _ h5 in
      let same =
        validate_entry_same js todo_item (item_fields i) i.content i.status i.evidence_ids
          (item_Holds i) checked in
      let details = validate_details_same inner i.details (
        subst (λ ws. validate_details js inner ws ≡ ok found)
          (elements-array_of (map detail_value i.details)) ran) in
      ok_subst (λ s. s.1 ≡ clean_item js i) h6 (ground (arith, same, details))

  validate_items_same :
      (seen : Seen) (is_ : List TodoItem) {r : Seen × List TodoItem}
      → validate_items js seen (map item_value is_) ≡ ok r
      → r.1 ≡ map (clean_item js) is_
  unfolding validate_items
  validate_items_same seen [] h = ok_subst (λ s. s.1 ≡ []) h refl
  validate_items_same seen (i ∷ is_) h =
      let (one, first, h1) = >>=-eq-ok (validate_item js seen (item_value i)) _ h in
      let (rest, later, h2) = >>=-eq-ok (validate_items js one.0 (map item_value is_)) _ h1 in
      ok_subst (λ s. s.1 ≡ clean_item js i ∷ map (clean_item js) is_) h2
        (cc (validate_item_same seen i first, validate_items_same one.0 is_ later))

  header_same :
      (d : TodoDocument) {header : Header}
      → validate_header js (document_fields d) ≡ ok header
      → header ≡ record {
        revision = d.revision;
        owner = d.owner_session_id;
        story = d.story_id;
        title = d.title;
        updated = d.updated_at;
        raw_items = elements (array_of (map item_value d.items));
      }
  unfolding validate_header
  header_same d {header} h = ground (arith, story_same d.story_id header.story)

  -- The document that the checks return is the one given, its texts sanitized.
  pub validate_todo_document_same :
      (d d' : TodoDocument)
      → validate_todo_document js (document_value d) ≡ ok d'
      → d' ≡ clean_document js d
  unfolding validate_todo_document sanitize_title
  validate_todo_document_same d d' h =
      let (header, checked, h2) = >>=-eq-ok (validate_header js (document_fields d)) _ h in
      let (found, ran, h3) = >>=-eq-ok (validate_items js unseen header.raw_items) _ h2 in
      let (_, one, h4) = >>=-eq-ok (refuse (ltb 1 found.0.active) two_active_items) _ h3 in
      let (clean, cleaned, h5) = >>=-eq-ok (sanitize_title js header.title) _ h4 in
      let head = header_same d checked in
      let items = validate_items_same unseen d.items (
        subst (λ ws. validate_items js unseen ws ≡ ok found)
          (ap (λ (x : Header). x.raw_items) head ∙ elements-array_of (map item_value d.items))
          ran) in
      ok_subst (λ e. e ≡ clean_document js d) h5 (ground (arith, head, items))
