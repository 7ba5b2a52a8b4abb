-- ===== src/Ledger/Plans/Replacing.antt =====
-- application/todo-ledger.ts: replacing by an id changes one place of a document with distinct ids.
use world_wide_woo.Common.{
  String, ◌≡◌, refl, ap, sym, subst, true, false, List, [], ◌∷◌, ◌++◌, includes, Distinct, ◌is◌,
  is→≡, is_refl, arith, Bool-cases, inl, inr,
}
use world_wide_woo.Todo.{TodoDetail, TodoItem}
use world_wide_woo.Todo.Validity.{detail_ids, document_ids}
use world_wide_woo.Todo.Validation.Details.{after, Distinct-split}
use world_wide_woo.Ledger.Plans.{replace_item, replace_detail}

includes-after :
    (x : String) (seen xs : List String)
    → includes seen x ≡ true
    → includes (after seen xs) x ≡ true
includes-after x seen [] h = h
includes-after x seen (y ∷ ys) h = includes-after x (y ∷ seen) ys (ground arith)

seen_ne :
    (x y : String) (seen : List String)
    → includes seen x ≡ true
    → includes seen y ≡ false
    → (y is x) ≡ false
seen_ne x y seen h k = elim (Bool-cases (y is x)) [
  | inl same ↦ let e = is→≡ y x same in cc (subst (λ z. includes seen z ≡ true) (sym e) h)
  | inr other ↦ other
]

is_sym : (x y : String) → (x is y) ≡ false → (y is x) ≡ false
is_sym x y h = elim (Bool-cases (y is x)) [
  | inl same ↦ let e = is→≡ y x same in cc (subst (λ z. (z is y) ≡ false) (sym e) h, is_refl y)
  | inr other ↦ other
]

-- What follows an item in the ids of a document, once its own ids are seen.
abbrev after_item : List String → TodoItem → List String
after_item seen i = after (i.id ∷ seen) (detail_ids i.details)

module _ (f : TodoItem → TodoItem) where
  replace_item_seen :
      (x : String) (seen : List String) (items : List TodoItem)
      → includes seen x ≡ true
      → Distinct seen (document_ids items)
      → replace_item x f items ≡ items
  replace_item_seen x seen [] h d = refl
  replace_item_seen x seen (i ∷ rest) h (new, d) =
      let later = (Distinct-split (i.id ∷ seen) (detail_ids i.details) (document_ids rest) d).1 in
      let ih =
        replace_item_seen x (after_item seen i) rest
          (includes-after x (i.id ∷ seen) (detail_ids i.details) (ground arith)) later in
      rw (seen_ne x i.id seen h new) (ap (λ r. i ∷ r) ih)

  item_ne :
      (x : String) (seen : List String) (before : List TodoItem) (i : TodoItem)
      (rest : List TodoItem)
      → includes seen x ≡ true
      → Distinct seen (document_ids (before ++ (i ∷ rest)))
      → (i.id is x) ≡ false
  item_ne x seen [] i rest h (new, d) = seen_ne x i.id seen h new
  item_ne x seen (j ∷ before) i rest h (new, d) =
      item_ne x (after_item seen j) before i rest
        (includes-after x (j.id ∷ seen) (detail_ids j.details) (ground arith))
        (Distinct-split (j.id ∷ seen) (detail_ids j.details) (document_ids (before ++ (i ∷ rest)))
          d).1

  -- Only the item of that id is replaced.
  pub replace_item_one :
      (seen : List String) (before : List TodoItem) (i : TodoItem) (rest : List TodoItem)
      → Distinct seen (document_ids (before ++ (i ∷ rest)))
      → replace_item i.id f (before ++ (i ∷ rest)) ≡ before ++ (f i ∷ rest)
  replace_item_one seen [] i rest (new, d) =
      let later = (Distinct-split (i.id ∷ seen) (detail_ids i.details) (document_ids rest) d).1 in
      rw (is_refl i.id) (
        ap (λ r. f i ∷ r)
          (replace_item_seen i.id (after_item seen i) rest
            (includes-after i.id (i.id ∷ seen) (detail_ids i.details)
              (ground (arith, is_refl i.id)))
            later))
  replace_item_one seen (j ∷ before) i rest (new, d) =
      let later =
        (Distinct-split (j.id ∷ seen) (detail_ids j.details) (document_ids (before ++ (i ∷ rest)))
          d).1 in
      let differs =
        item_ne j.id (after_item seen j) before i rest
          (includes-after j.id (j.id ∷ seen) (detail_ids j.details) (ground (arith, is_refl j.id)))
          later in
      rw (is_sym i.id j.id differs)
        (ap (λ r. j ∷ r) (replace_item_one (after_item seen j) before i rest later))

module _ (f : TodoDetail → TodoDetail) where
  replace_detail_seen :
      (x : String) (seen : List String) (ts : List TodoDetail)
      → includes seen x ≡ true
      → Distinct seen (detail_ids ts)
      → replace_detail x f ts ≡ ts
  replace_detail_seen x seen [] h d = refl
  replace_detail_seen x seen (t ∷ ts) h (new, d) =
      rw (seen_ne x t.id seen h new)
        (ap (λ r. t ∷ r) (replace_detail_seen x (t.id ∷ seen) ts (ground arith) d))

  detail_ne :
      (x : String) (seen : List String) (before : List TodoDetail) (t : TodoDetail)
      (rest : List TodoDetail)
      → includes seen x ≡ true
      → Distinct seen (detail_ids (before ++ (t ∷ rest)))
      → (t.id is x) ≡ false
  detail_ne x seen [] t rest h (new, d) = seen_ne x t.id seen h new
  detail_ne x seen (u ∷ before) t rest h (new, d) =
      detail_ne x (u.id ∷ seen) before t rest (ground arith) d

  -- Only the detail of that id is replaced.
  pub replace_detail_one :
      (seen : List String) (before : List TodoDetail) (t : TodoDetail) (rest : List TodoDetail)
      → Distinct seen (detail_ids (before ++ (t ∷ rest)))
      → replace_detail t.id f (before ++ (t ∷ rest)) ≡ before ++ (f t ∷ rest)
  replace_detail_one seen [] t rest (new, d) = rw (is_refl t.id) (
      ap (λ r. f t ∷ r)
        (replace_detail_seen t.id (t.id ∷ seen) rest (ground (arith, is_refl t.id)) d))
  replace_detail_one seen (u ∷ before) t rest (new, d) =
      let differs = detail_ne u.id (u.id ∷ seen) before t rest (ground (arith, is_refl u.id)) d in
      rw (is_sym t.id u.id differs)
        (ap (λ r. u ∷ r) (replace_detail_one (u.id ∷ seen) before t rest d))
