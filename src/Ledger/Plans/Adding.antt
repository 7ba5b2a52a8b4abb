-- ===== src/Ledger/Plans/Adding.antt =====
-- application/todo-ledger.ts: where `add` puts a new item, its id, and which item is active then.
use Prim.Native.Nat.{max}
use world_wide_woo.Common.{
  length, ◌+◌, ◌≤◌, ◌<◌, String, ◌≡◌, refl, ap, subst, sym, ◌∙◌, some, true, false, List, [], ◌∷◌,
  ◌++◌, map, includes, take, drop, take-append-drop, count, count-append, ◌is◌, is→≡, arith,
  Bool-cases, inl, inr, ok,
}
use world_wide_woo.Decimal.{decimal, append, number_after}
use world_wide_woo.Decimal.Doubles.{two_to_53, double, number_text, double_exact, number_text_exact}
use world_wide_woo.Decimal.RoundTrip.{number_after-append}
use world_wide_woo.Todo.{
  TodoItem, TodoItemStatus, pending, in_progress, TodoDocument, is_in_progress,
}
use world_wide_woo.Todo.Validity.{active_item}
use world_wide_woo.Ledger.State.{Draft}
use world_wide_woo.Ledger.Plans.Placing.{IsPlace, take-IsPlace}
use world_wide_woo.Ledger.Plans.{
  Placement, now, after, number_or_0, highest, item_ids, put_back, insertion, placed_status,
  new_item, add_to, plan_add,
}

highest_bound :
    (prefix : String) (ids : List String) (s : String)
    → includes ids s ≡ true
    → double (number_or_0 (number_after prefix s)) ≤ highest prefix ids
unfolding highest
highest_bound prefix [] s h = cc
highest_bound prefix (id ∷ ids) s h = elim (Bool-cases (id is s)) [
  | inl same ↦
      subst
        (λ x.
          double (number_or_0 (number_after prefix x))
          ≤ max (double (number_or_0 (number_after prefix id))) (highest prefix ids))
        (is→≡ id s same) (omega arith)
  | inr other ↦ omega (arith, highest_bound prefix ids s (ground arith))
]

abbrev pub next_id : String → List String → String
next_id prefix ids = append prefix (number_text (double (highest prefix ids + 1)))

next_id_exact :
    (prefix : String) (ids : List String)
    → highest prefix ids < two_to_53
    → next_id prefix ids ≡ append prefix (decimal (highest prefix ids + 1))
next_id_exact prefix ids h = ap (append prefix) (
    ap number_text (double_exact (highest prefix ids + 1) (omega arith))
    ∙ number_text_exact (highest prefix ids + 1) (omega arith))

-- While the numbers are below 2 ^ 53, the next id is not among those that were looked at.
pub next_id_fresh :
    (prefix : String) (ids : List String)
    → highest prefix ids < two_to_53
    → includes ids (next_id prefix ids) ≡ false
next_id_fresh prefix ids h = elim (Bool-cases (includes ids (next_id prefix ids))) [
  | inr fresh ↦ fresh
  | inl taken ↦
      let read : number_after prefix (next_id prefix ids) ≡ some (highest prefix ids + 1) =
        ap (number_after prefix) (next_id_exact prefix ids h)
        ∙ number_after-append prefix (highest prefix ids + 1) in
      absurd (
        omega (
          arith,
          highest_bound prefix ids (next_id prefix ids) taken,
          ap (λ o. double (number_or_0 o)) read,
          double_exact (highest prefix ids + 1) (omega arith),
        ))
]

pub none_active_after : (items : List TodoItem) → count active_item (map (put_back now) items) ≡ 0
none_active_after [] = refl
none_active_after (i ∷ rest) = ground (arith, none_active_after rest)

map-put_back-after : (items : List TodoItem) → map (put_back after) items ≡ items
map-put_back-after [] = refl
map-put_back-after (i ∷ rest) = ap (λ r. i ∷ r) (map-put_back-after rest)

-- What `add` makes of the items: the old ones in order, an active one back to pending and without
-- evidence where the new item is for now, with the new one between two of them.
pub record Placed (placement : Placement) (content : String) (items items' : List TodoItem)
    : Type 0 where
  pub before : List TodoItem
  pub rest : List TodoItem
  pub new : TodoItem
  pub others : before ++ rest ≡ map (put_back placement) items
  pub whole : items' ≡ before ++ (new ∷ rest)
  pub content_kept : new.content ≡ content
  pub named : new.id ≡ next_id "todo-" (item_ids items)
  pub status : new.status ≡ placed_status placement
  pub no_details : new.details ≡ []
  pub place : IsPlace items placement (length before)

pub add_to-Placed :
    (placement : Placement) (content : String) (items : List TodoItem)
    → Placed placement content items (add_to placement content items)
unfolding add_to
add_to-Placed placement content items =
    let put = map (put_back placement) items in
    let k = insertion placement items put in
    record {
      before = take k put;
      rest = drop k put;
      new = new_item (next_id "todo-" (item_ids items)) content (placed_status placement);
      others = take-append-drop k put;
      whole = refl;
      content_kept = refl;
      named = refl;
      status = refl;
      no_details = refl;
      place = take-IsPlace placement items;
    }

-- How an item is found again: as it was, or pending and without evidence where the new item is for
-- now and it was active.
pub data Kept : Placement → TodoItem → TodoItem → Type 0 where
  same : {placement : Placement} {i : TodoItem} → Kept placement i i
  put_off :
      {i i' : TodoItem}
      → i.status ≡ in_progress
      → i' ≡ record i { status = pending; evidence_ids = [] }
      → Kept now i i'

pub data EachKept (placement : Placement) : List TodoItem → List TodoItem → Type 0 where
  none_kept : EachKept placement [] []
  more_kept :
      {i i' : TodoItem} {items items' : List TodoItem}
      → Kept placement i i'
      → EachKept placement items items'
      → EachKept placement (i ∷ items) (i' ∷ items')

in_progress_lem : (s : TodoItemStatus) → is_in_progress s ≡ true → s ≡ in_progress
in_progress_lem s h = ground arith

put_back-Kept : (placement : Placement) (i : TodoItem) → Kept placement i (put_back placement i)
put_back-Kept after i = same
put_back-Kept now i = elim (Bool-cases (is_in_progress i.status)) [
  | inl active ↦ rw active (put_off (in_progress_lem i.status active) refl)
  | inr other ↦ rw other same
]

put_back-EachKept :
    (placement : Placement) (items : List TodoItem)
    → EachKept placement items (map (put_back placement) items)
put_back-EachKept placement [] = none_kept
put_back-EachKept placement (i ∷ items) =
    more_kept (put_back-Kept placement i) (put_back-EachKept placement items)

-- Active where the new item is for now, pending where it is for after.
abbrev pub status_at : Placement → TodoItemStatus
status_at now = in_progress
status_at after = pending

pub record Added (placement : Placement) (content : String) (items items' : List TodoItem)
    : Type 0 where
  pub before : List TodoItem
  pub rest : List TodoItem
  pub new : TodoItem
  pub whole : items' ≡ before ++ (new ∷ rest)
  pub kept : EachKept placement items (before ++ rest)
  pub content_kept : new.content ≡ content
  pub fresh : includes (item_ids items) new.id ≡ false
  pub status : new.status ≡ status_at placement
  pub place : IsPlace items placement (length before)

-- Among the old items is one more, which has this content and is active; no other item is.
pub record IsOnlyActive (content : String) (old items : List TodoItem) : Type 0 where
  pub before : List TodoItem
  pub rest : List TodoItem
  pub new : TodoItem
  pub whole : items ≡ before ++ (new ∷ rest)
  pub content_kept : new.content ≡ content
  pub kept : EachKept now old (before ++ rest)
  pub active : new.status ≡ in_progress
  pub none_before : count active_item before ≡ 0
  pub none_after : count active_item rest ≡ 0

-- Adding for now puts an item of the given content among the old ones, which stay in order: it is
-- active, and no other item is.
pub add_to_now-IsOnlyActive :
    (content : String) (items : List TodoItem)
    → IsOnlyActive content items (add_to now content items)
add_to_now-IsOnlyActive content items =
    let p = add_to-Placed now content items in
    let parts = count-append active_item p.before p.rest in
    let others = ap (count active_item) p.others ∙ none_active_after items in
    record {
      before = p.before;
      rest = p.rest;
      new = p.new;
      whole = p.whole;
      content_kept = p.content_kept;
      kept = subst (EachKept now items) (sym p.others) (put_back-EachKept now items);
      active = p.status;
      none_before = omega (arith, parts, others);
      none_after = omega (arith, parts, others);
    }

-- The items that `add` plans.
pub draft_items :
    (placement : Placement) (d : TodoDocument) (content : String) (draft : Draft)
    → plan_add d content placement ≡ ok draft
    → draft.items ≡ add_to placement content d.items
unfolding plan_add
draft_items placement d content draft h = ground arith
