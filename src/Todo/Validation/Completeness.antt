-- ===== src/Todo/Validation/Completeness.antt =====
-- domain/todos.ts: the checks of `validateTodoDocument` refuse no valid document.
use world_wide_woo.Common.{
  ℕ, ◌+◌, ◌≤◌, String, ◌≡◌, refl, ap, sym, subst, false, not, Option, none, some, List, [], ◌∷◌,
  map, length-map, includes, any, count, count-append, All, Distinct, ok, arith, ◌↔◌,
}
use world_wide_woo.Value.{get}
use world_wide_woo.Todo.{
  completed, TodoDetail, TodoItem, TodoDocument, TextRuntime, is_completed, all_details,
}
use world_wide_woo.Todo.Validity.{
  active_item, active_detail, IsValidDetail, IsValidItem, detail_ids, document_ids, OptIsId,
  IsValid,
}
use world_wide_woo.Todo.Validation.{
  todo_item, todo_detail, Seen, unseen, bump, validate_detail, validate_details, check_details,
  validate_item, validate_items, validate_header, sanitize_title, validate_todo_document, story_of,
}
use world_wide_woo.Todo.Validation.Same.{detail_Holds, item_Holds, validate_todo_document_same}
use world_wide_woo.Todo.Validation.Details.{after, Distinct-split}
use world_wide_woo.Todo.Validation.Soundness.{validate_todo_document-IsValid}
use world_wide_woo.Todo.Validation.Typed.{
  detail_value, detail_fields, item_value, item_fields, document_value, document_fields,
  story_value, elements-array_of, clean_detail, clean_item, clean_document, validate_entry_complete,
}

-- What has been seen after a list of details.
abbrev after_details : Seen → List TodoDetail → Seen
after_details seen ts = record seen {
  ids = after seen.ids (detail_ids ts);
  detail_active = seen.detail_active + count active_detail ts;
}

module _ (js : TextRuntime) where
  validate_detail_complete :
      (seen : Seen) (t : TodoDetail)
      → IsValidDetail (clean_detail js t)
      → includes seen.ids t.id ≡ false
      → validate_detail js seen (detail_value t)
        ≡ ok (after_details seen (t ∷ []), clean_detail js t)
  unfolding validate_detail
  validate_detail_complete seen t v fresh = ground (
    arith,
    v.id,
    validate_entry_complete js todo_detail (detail_fields t) t.content t.status t.evidence_ids
        (detail_Holds t) v.content v.evidence,
  )

  validate_details_complete :
      (seen : Seen) (ts : List TodoDetail)
      → All IsValidDetail (map (clean_detail js) ts)
      → Distinct seen.ids (detail_ids ts)
      → validate_details js seen (map detail_value ts)
        ≡ ok (after_details seen ts, map (clean_detail js) ts)
  unfolding validate_details
  validate_details_complete seen [] v d = ground arith
  validate_details_complete seen (t ∷ ts) (v, vs) (d, ds) = ground (
    arith,
    validate_detail_complete seen t v d,
    validate_details_complete (after_details seen (t ∷ [])) ts vs ds,
  )

abbrev after_item : Seen → TodoItem → Seen
after_item seen i =
    after_details (record seen { ids = i.id ∷ seen.ids; active = bump i.status seen.active })
      i.details

abbrev after_items : Seen → List TodoItem → Seen
after_items seen [] = seen
after_items seen (i ∷ rest) = after_items (after_item seen i) rest

no_active_details :
    (ts : List TodoDetail) → count active_detail ts ≡ 0 → any active_detail ts ≡ false
no_active_details [] h = refl
no_active_details (t ∷ ts) h = ground (arith, no_active_details ts)

no_open_details :
    (ts : List TodoDetail)
    → All (λ t. t.status ≡ completed) ts
    → any (λ t. not (is_completed t.status)) ts ≡ false
no_open_details [] h = refl
no_open_details (t ∷ ts) (e, h) = rw e (no_open_details ts h)

story_complete : (s : Option String) → OptIsId s → story_of (story_value s) ≡ some s
story_complete none h = refl
story_complete (some x) h = rw h

module _ (js : TextRuntime) where
  check_details_complete :
      (n : ℕ) (i : TodoItem) → n ≤ 1 → IsValidItem i → check_details js n i.status i.details ≡ ok tt
  unfolding check_details
  check_details_complete n i few v = ground (
    arith,
    no_active_details i.details,
    no_open_details i.details,
    v.active_parent,
    v.completed_details,
  )

  count-clean :
      (ts : List TodoDetail)
      → count active_detail (map (clean_detail js) ts) ≡ count active_detail ts
  count-clean [] = refl
  count-clean (t ∷ ts) = omega (arith, count-clean ts)

  validate_item_complete :
      (seen : Seen) (i : TodoItem)
      → IsValidItem (clean_item js i)
      → Distinct seen.ids (i.id ∷ detail_ids i.details)
      → seen.detail_active + count active_detail i.details ≤ 1
      → validate_item js seen (item_value i) ≡ ok (after_item seen i, clean_item js i)
  unfolding validate_item
  validate_item_complete seen i v (fresh, distinct) few =
      let inner = record seen { ids = i.id ∷ seen.ids; active = bump i.status seen.active } in
      ground (
        arith,
        fresh,
        v.id,
        few,
        v.few_details,
        length-map (clean_detail js) i.details,
        length-map detail_value i.details,
        elements-array_of (map detail_value i.details),
        validate_entry_complete js todo_item (item_fields i) i.content i.status i.evidence_ids
            (item_Holds i) v.content v.evidence,
        validate_details_complete js inner i.details v.each_detail distinct,
        check_details_complete (seen.detail_active + count active_detail i.details)
            (clean_item js i) few v,
      )

  detail_ids-clean : (ts : List TodoDetail) → detail_ids (map (clean_detail js) ts) ≡ detail_ids ts
  detail_ids-clean [] = refl
  detail_ids-clean (t ∷ ts) = ap (λ r. t.id ∷ r) (detail_ids-clean ts)

  document_ids-clean :
      (items : List TodoItem) → document_ids (map (clean_item js) items) ≡ document_ids items
  document_ids-clean [] = refl
  document_ids-clean (i ∷ rest) = rw (detail_ids-clean i.details, document_ids-clean rest) refl

  all_details-clean :
      (items : List TodoItem)
      → count active_detail (all_details (map (clean_item js) items))
        ≡ count active_detail (all_details items)
  all_details-clean [] = refl
  all_details-clean (i ∷ rest) = omega (
    arith,
    all_details-clean rest,
    count-clean i.details,
    count-append active_detail i.details (all_details rest),
    count-append active_detail (map (clean_detail js) i.details)
        (all_details (map (clean_item js) rest)),
  )

  count_items-clean :
      (items : List TodoItem)
      → count active_item (map (clean_item js) items) ≡ count active_item items
  count_items-clean [] = refl
  count_items-clean (i ∷ rest) = omega (arith, count_items-clean rest)

  after_items_active :
      (seen : Seen) (items : List TodoItem)
      → (after_items seen items).active ≡ seen.active + count active_item items
  after_items_active seen [] = omega arith
  after_items_active seen (i ∷ rest) = ground (arith, after_items_active (after_item seen i) rest)

  validate_items_complete :
      (seen : Seen) (items : List TodoItem)
      → All IsValidItem (map (clean_item js) items)
      → Distinct seen.ids (document_ids items)
      → seen.detail_active + count active_detail (all_details items) ≤ 1
      → validate_items js seen (map item_value items)
        ≡ ok (after_items seen items, map (clean_item js) items)
  unfolding validate_items
  validate_items_complete seen [] v d few = refl
  validate_items_complete seen (i ∷ rest) (v, vs) (p, d) few =
      let (mine, later) =
        Distinct-split (i.id ∷ seen.ids) (detail_ids i.details) (document_ids rest) d in
      let total = count-append active_detail i.details (all_details rest) in
      rw
        (
          validate_item_complete seen i v (p, mine) (omega (arith, total, few)),
          validate_items_complete (after_item seen i) rest vs later (omega (arith, total, few)),
        )
        refl

  header_complete :
      (d : TodoDocument)
      → IsValid js (clean_document js d)
      → validate_header js (document_fields d)
        ≡ ok (record {
          revision = d.revision;
          owner = d.owner_session_id;
          story = d.story_id;
          title = d.title;
          updated = d.updated_at;
          raw_items = map item_value d.items;
        })
  unfolding validate_header get
  header_complete d v = ground (
    arith,
    v.revision,
    v.owner,
    v.date,
    v.few_items,
    story_complete d.story_id v.story,
    elements-array_of (map item_value d.items),
    length-map item_value d.items,
    length-map (clean_item js) d.items,
  )

  complete :
      (d : TodoDocument)
      → IsValid js (clean_document js d)
      → validate_todo_document js (document_value d) ≡ ok (clean_document js d)
  unfolding validate_todo_document sanitize_title
  complete d v =
      let ids = subst (Distinct []) (document_ids-clean d.items) v.unique_ids in
      let few : count active_detail (all_details d.items) ≤ 1 =
        omega (arith, all_details-clean d.items, v.one_active_detail) in
      ground (
        arith,
        header_complete d v,
        validate_items_complete unseen d.items v.each_item ids (omega arith),
        after_items_active unseen d.items,
        count_items-clean d.items,
        v.one_active,
        v.title,
      )

  -- A todo document is accepted exactly when, with its texts sanitized, it is valid; and what
  -- the checks return is then that sanitized document.
  pub validate_todo_document_iff :
      (d d' : TodoDocument)
      → (validate_todo_document js (document_value d) ≡ ok d')
        ↔ ((d' ≡ clean_document js d) × IsValid js (clean_document js d))
  validate_todo_document_iff d d' = (
    λ h.
        let same = validate_todo_document_same js d d' h in
        (same, subst (IsValid js) same (validate_todo_document-IsValid js (document_value d) d' h)),
    λ p.
        subst (λ e. validate_todo_document js (document_value d) ≡ ok e) (sym p.0) (complete d p.1),
  )
