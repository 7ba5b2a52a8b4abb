-- ===== src/Ledger/Requests/Interrupting.antt =====
-- application/todo-ledger.ts: `add` with "now" puts the active item back to pending but leaves its
-- details, and `validateTodoDocument` refuses an active detail under an item that is not active.
use world_wide_woo.Common.{
  ◌+◌, String, ◌≡◌, refl, ap, subst, ◌∙◌, Option, none, some, List, [], ◌∷◌, ◌++◌, map, count,
  count-append, All, ok, arith,
}
use world_wide_woo.Todo.{TodoDetail, TodoItem, TodoDocument, all_details, TextRuntime}
use world_wide_woo.Todo.Validity.{active_item, active_detail, IsValidItem}
use world_wide_woo.Todo.Validation.Typed.{clean_item, clean_detail}
use world_wide_woo.Ledger.State.{Ports, Ledger, Draft}
use world_wide_woo.Ledger.Plans.{now, put_back, plan_add}
use world_wide_woo.Ledger.Plans.Adding.{add_to-Placed, none_active_after, draft_items}
use world_wide_woo.Ledger.Native.{LedgerRuntime}
use world_wide_woo.Ledger.Requests.{adds, mutate, planned}
use world_wide_woo.Ledger.Requests.Soundness.{mutate_written}

module _ (js : TextRuntime) where
  count-clean_details :
      (ts : List TodoDetail)
      → count active_detail (map (clean_detail js) ts) ≡ count active_detail ts
  count-clean_details [] = refl
  count-clean_details (t ∷ ts) = omega (arith, count-clean_details ts)

  -- Valid items none of which is active have no active detail.
  idle_items :
      (items : List TodoItem)
      → All IsValidItem (map (clean_item js) items)
      → count active_item items ≡ 0
      → count active_detail (all_details items) ≡ 0
  idle_items [] v h = refl
  idle_items (i ∷ rest) (v, vs) h = ground (
    arith,
    v.active_parent,
    count-clean_details i.details,
    count-append active_detail i.details (all_details rest),
    idle_items rest vs,
  )

  split_valid :
      (before rest : List TodoItem) (new : TodoItem)
      → All IsValidItem (map (clean_item js) (before ++ (new ∷ rest)))
      → All IsValidItem (map (clean_item js) before) × All IsValidItem (map (clean_item js) rest)
  split_valid [] rest new (v, vs) = (tt, vs)
  split_valid (i ∷ before) rest new (v, vs) =
      let (a, b) = split_valid before rest new vs in ((v, a), b)

count_details-append :
    (xs ys : List TodoItem)
    → count active_detail (all_details (xs ++ ys))
      ≡ count active_detail (all_details xs) + count active_detail (all_details ys)
count_details-append [] ys = omega arith
count_details-append (i ∷ xs) ys = omega (
  arith,
  count-append active_detail i.details (all_details (xs ++ ys)),
  count-append active_detail i.details (all_details xs),
  count_details-append xs ys,
)

details-put_back : (i : TodoItem) → (put_back now i).details ≡ i.details
details-put_back i = ground arith

all_details-put_back :
    (items : List TodoItem) → all_details (map (put_back now) items) ≡ all_details items
all_details-put_back [] = refl
all_details-put_back (i ∷ rest) =
    rw (details-put_back i) (ap (λ r. i.details ++ r) (all_details-put_back rest))

planned_add :
    (js : LedgerRuntime) (session : String) (current : Option TodoDocument) (d : TodoDocument)
    (content : String) (draft : Draft)
    → current ≡ some d
    → planned js session current (adds content now) ≡ ok draft
    → plan_add d content now ≡ ok draft
planned_add js session none d content draft e h = cc
planned_add js session (some x) d content draft e h = ground arith

-- An `add` for now that returns found no detail in progress: over a document with an active
-- detail it always throws, whatever it adds.
pub add_now_needs_idle_details :
    (js : LedgerRuntime) {S : Type 0} (ports : Ports S) (l : Ledger S) (d d' : TodoDocument)
    (content : String)
    → l.current ≡ some d
    → (mutate js ports (adds content now) l).0 ≡ ok d'
    → count active_detail (all_details d.items) ≡ 0
add_now_needs_idle_details js ports l d d' content here h =
    let (draft, plan, (valid, clean, _)) = mutate_written js ports (adds content now) l d' h in
    let items =
      draft_items now d content draft
        (planned_add js l.session_id l.current d content draft here plan) in
    let added = add_to-Placed now content d.items in
    let whole =
      ap (λ (x : TodoDocument). x.items) clean
      ∙ ap (map (clean_item js.text)) (items ∙ added.whole) in
    let (bv, rv) =
      split_valid js.text added.before added.rest added.new
        (subst (All IsValidItem) whole valid.each_item) in
    let none_active = ap (count active_item) added.others ∙ none_active_after d.items in
    let parts = count-append active_item added.before added.rest in
    let first = idle_items js.text added.before bv (omega (arith, none_active, parts)) in
    let second = idle_items js.text added.rest rv (omega (arith, none_active, parts)) in
    omega (
      arith,
      first,
      second,
      count_details-append added.before added.rest,
      ap (λ xs. count active_detail (all_details xs)) added.others,
      ap (count active_detail) (all_details-put_back d.items),
    )
