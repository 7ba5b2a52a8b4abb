-- ===== src/Ledger/Plans.antt =====
-- application/todo-ledger.ts: the changes that the ledger's methods plan on the current document,
-- before the checks of `document` and the write of `commit`.
pub mod Adding
pub mod Placing
mod Replacing
pub mod Transitions
use Prim.Native.Nat.{max}
use world_wide_woo.Common.{
  ℕ, zero, suc, ◌+◌, String, Bool, true, false, not, ◌&&◌, ◌||◌, Option, none, some, List, [], ◌∷◌,
  ◌++◌, map, length, take, drop, any, all, find, find_index, includes, leb, ltb, ◌==◌, ◌is◌,
  if◌then◌else◌, Result, ok, err, ◌>>=◌, ◌>>◌, guard, refuse, or_fail,
}
use world_wide_woo.Decimal.{decimal, append, number_after}
use world_wide_woo.Decimal.Doubles.{double, number_text}
use world_wide_woo.Todo.{
  TodoItemStatus, pending, in_progress, completed, blocked, TodoDetail, TodoItem, TodoDocument,
  max_todo_evidence, is_pending, is_in_progress, is_completed, is_blocked, is_id_text, TextRuntime,
  sanitize_todo_text,
}
use world_wide_woo.Ledger.State.{
  LedgerError, unfinished_work, bad_items, item_limit, bad_item_id, bad_details, unknown_item,
  completed_parent, detail_limit, not_pending, inactive_parent, detail_active, item_active,
  not_active, no_evidence, unfinished_details, not_blockable, not_blocked, bad_evidence_id, Draft,
}

-- `isId`.
unfoldable pub is_id : TextRuntime → String → Bool
is_id js s = is_id_text s && sanitize_todo_text js s is s

abbrev pub draft_of : TodoDocument → List TodoItem → Draft
draft_of d items = record {
  owner_session_id = d.owner_session_id;
  story_id = d.story_id;
  title = d.title;
  items = items;
}

abbrev pub new_item : String → String → TodoItemStatus → TodoItem
new_item id content status = record {
  id = id;
  content = content;
  status = status;
  evidence_ids = [];
  details = [];
}

abbrev pub new_detail : String → String → TodoDetail
new_detail id content = record { id = id; content = content; status = pending; evidence_ids = [] }

-- `items.map((content, index) => …)`, the index from `n`.
abbrev pub numbered {ℓ} : {A : Type ℓ} → (ℕ → String → A) → ℕ → List String → List A
numbered f n [] = []
numbered f n (s ∷ ss) = f n s ∷ numbered f (suc n) ss

abbrev pub item_done : TodoItem → Bool
item_done i = is_completed i.status

abbrev pub item_active? : TodoItem → Bool
item_active? i = is_in_progress i.status

abbrev pub detail_active? : TodoDetail → Bool
detail_active? t = is_in_progress t.status

-- `create`: refused over unfinished work; the items are `todo-1`, `todo-2`, …, all pending.
unfoldable pub plan_create :
    String → Option TodoDocument → String → List String → Option String → Result LedgerError Draft
plan_create session current title items story = do
  guard (elim current [ none ↦ true | some d ↦ all item_done d.items ]) unfinished_work
  refuse (length items == 0 || ltb 12 (length items)) bad_items
  ok (record {
    owner_session_id = session;
    story_id = story;
    title = title;
    items = numbered (λ n s. new_item (append "todo-" (decimal n)) s pending) 1 items;
  })

pub data Placement : Type 0 where
  now after : Placement

-- The highest number of an id `prefix<number>`, or 0. `Number.parseInt` answers a double.
abbrev pub number_or_0 : Option ℕ → ℕ
number_or_0 none = 0
number_or_0 (some n) = n

unfoldable pub highest : String → List String → ℕ
unfolding double
highest prefix [] = 0
highest prefix (id ∷ ids) = max (double (number_or_0 (number_after prefix id))) (highest prefix ids)

abbrev pub item_ids : List TodoItem → List String
item_ids items = map (λ i. i.id) items

-- `add` with "now" puts the active item back to pending.
abbrev pub put_back : Placement → TodoItem → TodoItem
put_back after i = i
put_back now i =
    if is_in_progress i.status then record i { status = pending; evidence_ids = [] } else i

-- Where the new item goes: after the active item, or before it, or before the first item that is
-- not completed, or at the end.
unfoldable pub insertion : Placement → List TodoItem → List TodoItem → ℕ
insertion after old items = elim (find_index item_active? old) [
  | some k ↦ k + 1
  | none ↦ length items
]
insertion now old items = elim (find_index item_active? old) [
  | some k ↦ k
  | none ↦ elim (find_index (λ i. not (item_done i)) items) [ some k ↦ k | none ↦ length items ]
]

abbrev pub placed_status : Placement → TodoItemStatus
placed_status now = in_progress
placed_status after = pending

unfoldable pub add_to : Placement → String → List TodoItem → List TodoItem
unfolding insertion double number_text
add_to placement content old =
    let id = append "todo-" (number_text (double (highest "todo-" (item_ids old) + 1))) in
    let item = new_item id content (placed_status placement) in
    let items = map (put_back placement) old in
    let index = insertion placement old items in take index items ++ (item ∷ drop index items)

unfoldable pub plan_add : TodoDocument → String → Placement → Result LedgerError Draft
unfolding add_to
plan_add d content placement = do
  refuse (leb 12 (length d.items)) item_limit
  ok (draft_of d (add_to placement content d.items))

-- Every item with this id is replaced.
abbrev pub replace_item : String → (TodoItem → TodoItem) → List TodoItem → List TodoItem
replace_item id f [] = []
replace_item id f (i ∷ rest) = (if i.id is id then f i else i) ∷ replace_item id f rest

abbrev pub replace_detail : String → (TodoDetail → TodoDetail) → List TodoDetail → List TodoDetail
replace_detail id f [] = []
replace_detail id f (t ∷ rest) = (if t.id is id then f t else t) ∷ replace_detail id f rest

abbrev pub detail_prefix : String → String
detail_prefix id = append id "-detail-"

-- `${parent.id}-detail-${nextNumber + index + 1}`.
unfoldable pub detail_id : TodoItem → ℕ → String
unfolding append highest double number_text
detail_id i index =
    let next = highest (detail_prefix i.id) (map (λ t. t.id) i.details) in
    append (detail_prefix i.id) (number_text (double (double (next + index) + 1)))

abbrev pub with_details : List String → TodoItem → TodoItem
with_details contents i = record i {
  details = i.details ++ numbered (λ n s. new_detail (detail_id i n) s) 0 contents;
}

abbrev pub find_item : String → List TodoItem → Option TodoItem
find_item id items = find (λ i. i.id is id) items

-- `addDetails`, after the check of the id; the current document is `d`.
unfoldable pub plan_add_details : TodoDocument → String → List String → Result LedgerError Draft
plan_add_details d id contents = do
  parent ← or_fail (find_item id d.items) unknown_item
  refuse (is_completed parent.status) completed_parent
  refuse (ltb 8 (length parent.details + length contents)) detail_limit
  ok (draft_of d (replace_item parent.id (with_details contents) d.items))

-- What `transition` is given: how an item changes, and how a detail of an item does.
pub record Change : Type 0 where
  pub on_item : TodoItem → TodoDocument → Result LedgerError TodoItem
  pub on_detail : TodoDetail → TodoItem → TodoDocument → Result LedgerError TodoDetail

abbrev pub has_active_detail : TodoItem → Bool
has_active_detail i = any detail_active? i.details

unfoldable pub start_change : Change
start_change = record {
  on_item = λ i d. do
    guard (is_pending i.status) not_pending
    refuse (any item_active? d.items) item_active
    ok (record i { status = in_progress; evidence_ids = [] });
  on_detail = λ t parent d. do
    guard (is_pending t.status) not_pending
    guard (is_in_progress parent.status) inactive_parent
    refuse (any has_active_detail d.items) detail_active
    ok (record t { status = in_progress; evidence_ids = [] });
}

abbrev pub has_none {ℓ} : {A : Type ℓ} → List A → Bool
has_none [] = true
has_none (x ∷ xs) = false

unfoldable pub complete_change : Change
complete_change = record {
  on_item = λ i d. do
    guard (is_in_progress i.status) not_active
    if has_none i.details
        then refuse (has_none i.evidence_ids) no_evidence
        else guard (all (λ t. is_completed t.status) i.details) unfinished_details
    ok (record i { status = completed });
  on_detail = λ t parent d. do
    guard (is_in_progress t.status) not_active
    refuse (has_none t.evidence_ids) no_evidence
    ok (record t { status = completed });
}

abbrev pub block_detail : TodoDetail → TodoDetail
block_detail t = if is_in_progress t.status then record t { status = blocked } else t

unfoldable pub block_change : Change
block_change = record {
  on_item = λ i d. do
    guard (is_pending i.status || is_in_progress i.status) not_blockable
    ok (record i { status = blocked; details = map block_detail i.details });
  on_detail = λ t parent d. do
    guard (is_pending t.status || is_in_progress t.status) not_blockable
    ok (record t { status = blocked });
}

unfoldable pub reopen_change : Change
reopen_change = record {
  on_item = λ i d. do
    guard (is_blocked i.status) not_blocked
    ok (record i { status = pending });
  on_detail = λ t parent d. do
    guard (is_blocked t.status) not_blocked
    ok (record t { status = pending });
}

abbrev pub find_detail : String → List TodoDetail → Option TodoDetail
find_detail id ts = find (λ t. t.id is id) ts

-- `transition`, after the check of the id: an item of this id, or else the first item that has a
-- detail of this id.
unfoldable pub plan_transition : TodoDocument → String → Change → Result LedgerError Draft
plan_transition d id change = elim (find_item id d.items) [
  | some parent ↦ do
    changed ← change.on_item parent d
    ok (draft_of d (replace_item id (λ _. changed) d.items))
  | none ↦ do
    parent ← or_fail (find (λ i. any (λ t. t.id is id) i.details) d.items) unknown_item
    detail ← or_fail (find_detail id parent.details) unknown_item
    changed ← change.on_detail detail parent d
    ok (
        draft_of d (
          replace_item parent.id
            (λ i. record i { details = replace_detail id (λ _. changed) i.details }) d.items))
]

abbrev pub takes_evidence : String → List String → Bool
takes_evidence id ids = not (includes ids id) && not (leb max_todo_evidence (length ids))

-- `recordEvidence` on the current document: none where there is nothing to record it on.
unfoldable pub plan_evidence : TodoDocument → String → Option Draft
plan_evidence d id = elim (find item_active? d.items) [
  | none ↦ none
  | some active ↦ elim (find detail_active? active.details) [
    | some t ↦
        if takes_evidence id t.evidence_ids
        then some (
            draft_of d (
              replace_item active.id
                (λ i. record i {
                  details =
                      replace_detail t.id
                        (λ u. record u { evidence_ids = u.evidence_ids ++ (id ∷ []) }) i.details;
                })
                d.items))
        else none
    | none ↦
        if takes_evidence id active.evidence_ids
        then some (
            draft_of d (
              replace_item active.id (λ i. record i { evidence_ids = i.evidence_ids ++ (id ∷ []) })
                d.items))
        else none
  ]
]
