-- ===== src/Ledger/Plans/Transitions.antt =====
-- application/todo-ledger.ts: what a transition may do to the document.
use world_wide_woo.Common.{
  subst, Distinct, find-split, ok-injective, or_fail-ok, String, ◌≡◌, ap, sym, ◌∙◌, true, Result,
  ◌||◌, some, List, [], ◌∷◌, ◌++◌, map, any, find, ok, ◌>>=◌, >>=-eq-ok, or_fail, is→≡, ◌is◌, arith,
  Option-cases, inl, inr, ◌⊎◌,
}
use world_wide_woo.Todo.{
  TodoItemStatus, pending, in_progress, completed, blocked, TodoDetail, TodoItem, TodoDocument,
  is_pending, is_in_progress, is_blocked,
}
use world_wide_woo.Todo.Validity.{detail_ids, document_ids}
use world_wide_woo.Todo.Validation.Details.{after, Distinct-split}
use world_wide_woo.Ledger.State.{LedgerError, unknown_item, Draft}
use world_wide_woo.Ledger.Plans.{
  Change, start_change, complete_change, block_change, reopen_change, block_detail, replace_item,
  replace_detail, find_item, find_detail, draft_of, plan_transition,
}
use world_wide_woo.Ledger.Plans.Replacing.{replace_item_one, replace_detail_one}

-- The life of an item or a detail; nothing leads out of `completed`.
pub data Allowed : TodoItemStatus → TodoItemStatus → Type 0 where
  starts : Allowed pending in_progress
  completes : Allowed in_progress completed
  blocks_pending : Allowed pending blocked
  blocks_active : Allowed in_progress blocked
  reopens : Allowed blocked pending

pub data Action : Type 0 where
  start complete block reopen : Action

abbrev pub change_of : Action → Change
change_of start = start_change
change_of complete = complete_change
change_of block = block_change
change_of reopen = reopen_change

abbrev pub target : Action → TodoItemStatus
target start = in_progress
target complete = completed
target block = blocked
target reopen = pending

-- A start clears the evidence, nothing else touches it.
abbrev pub evidence_after : Action → List String → List String
evidence_after start ids = []
evidence_after complete ids = ids
evidence_after block ids = ids
evidence_after reopen ids = ids

-- A detail of an item that is blocked: blocked if it was active, else as it was.
abbrev pub status_under_block : TodoItemStatus → TodoItemStatus
status_under_block in_progress = blocked
status_under_block pending = pending
status_under_block completed = completed
status_under_block blocked = blocked

pub record DetailBlocked (t t' : TodoDetail) : Type 0 where
  pub id : t'.id ≡ t.id
  pub content : t'.content ≡ t.content
  pub evidence : t'.evidence_ids ≡ t.evidence_ids
  pub status : t'.status ≡ status_under_block t.status

pub data EachBlocked : List TodoDetail → List TodoDetail → Type 0 where
  none_left : EachBlocked [] []
  one_more :
      {t t' : TodoDetail} {ts ts' : List TodoDetail}
      → DetailBlocked t t'
      → EachBlocked ts ts'
      → EachBlocked (t ∷ ts) (t' ∷ ts')

-- The details of an item that is changed stay as they are, except where it is blocked.
abbrev pub DetailsAfter : Action → List TodoDetail → List TodoDetail → Type 0
DetailsAfter block ts ts' = EachBlocked ts ts'
DetailsAfter start ts ts' = ts' ≡ ts
DetailsAfter complete ts ts' = ts' ≡ ts
DetailsAfter reopen ts ts' = ts' ≡ ts

-- All that a change of one item does to it.
pub record ItemChanged (a : Action) (i i' : TodoItem) : Type 0 where
  pub id : i'.id ≡ i.id
  pub content : i'.content ≡ i.content
  pub evidence : i'.evidence_ids ≡ evidence_after a i.evidence_ids
  pub details : DetailsAfter a i.details i'.details
  pub status : i'.status ≡ target a
  pub allowed : Allowed i.status (target a)

pub record DetailChanged (a : Action) (t t' : TodoDetail) : Type 0 where
  pub id : t'.id ≡ t.id
  pub content : t'.content ≡ t.content
  pub evidence : t'.evidence_ids ≡ evidence_after a t.evidence_ids
  pub status : t'.status ≡ target a
  pub allowed : Allowed t.status (target a)

block_detail-Blocked : (t : TodoDetail) → DetailBlocked t (block_detail t)
block_detail-Blocked t = record {
  id = ground arith;
  content = ground arith;
  evidence = ground arith;
  status = ground arith;
}

map-block_detail : (ts : List TodoDetail) → EachBlocked ts (map block_detail ts)
map-block_detail [] = none_left
map-block_detail (t ∷ ts) = one_more (block_detail-Blocked t) (map-block_detail ts)

start-Allowed : (s : TodoItemStatus) → is_pending s ≡ true → Allowed s in_progress
start-Allowed pending h = starts
start-Allowed in_progress h = cc
start-Allowed completed h = cc
start-Allowed blocked h = cc

complete-Allowed : (s : TodoItemStatus) → is_in_progress s ≡ true → Allowed s completed
complete-Allowed in_progress h = completes
complete-Allowed pending h = cc
complete-Allowed completed h = cc
complete-Allowed blocked h = cc

block-Allowed : (s : TodoItemStatus) → (is_pending s || is_in_progress s) ≡ true → Allowed s blocked
block-Allowed pending h = blocks_pending
block-Allowed in_progress h = blocks_active
block-Allowed completed h = cc
block-Allowed blocked h = cc

reopen-Allowed : (s : TodoItemStatus) → is_blocked s ≡ true → Allowed s pending
reopen-Allowed blocked h = reopens
reopen-Allowed pending h = cc
reopen-Allowed in_progress h = cc
reopen-Allowed completed h = cc

pub on_item_changed :
    (a : Action) (i i' : TodoItem) (d : TodoDocument)
    → (change_of a).on_item i d ≡ ok i'
    → ItemChanged a i i'
unfolding start_change complete_change block_change reopen_change
on_item_changed start i i' d h = record {
  id = ground arith;
  content = ground arith;
  evidence = ground arith;
  details = ground arith;
  status = ground arith;
  allowed = start-Allowed i.status (ground arith);
}
on_item_changed complete i i' d h = record {
  id = ground arith;
  content = ground arith;
  evidence = ground arith;
  details = ground arith;
  status = ground arith;
  allowed = complete-Allowed i.status (ground arith);
}
on_item_changed block i i' d h = record {
  id = ground arith;
  content = ground arith;
  evidence = ground arith;
  details = subst (EachBlocked i.details) (ground arith) (map-block_detail i.details);
  status = ground arith;
  allowed = block-Allowed i.status (ground arith);
}
on_item_changed reopen i i' d h = record {
  id = ground arith;
  content = ground arith;
  evidence = ground arith;
  details = ground arith;
  status = ground arith;
  allowed = reopen-Allowed i.status (ground arith);
}

pub on_detail_changed :
    (a : Action) (t t' : TodoDetail) (parent : TodoItem) (d : TodoDocument)
    → (change_of a).on_detail t parent d ≡ ok t'
    → DetailChanged a t t'
unfolding start_change complete_change block_change reopen_change
on_detail_changed start t t' parent d h = record {
  id = ground arith;
  content = ground arith;
  evidence = ground arith;
  status = ground arith;
  allowed = start-Allowed t.status (ground arith);
}
on_detail_changed complete t t' parent d h = record {
  id = ground arith;
  content = ground arith;
  evidence = ground arith;
  status = ground arith;
  allowed = complete-Allowed t.status (ground arith);
}
on_detail_changed block t t' parent d h = record {
  id = ground arith;
  content = ground arith;
  evidence = ground arith;
  status = ground arith;
  allowed = block-Allowed t.status (ground arith);
}
on_detail_changed reopen t t' parent d h = record {
  id = ground arith;
  content = ground arith;
  evidence = ground arith;
  status = ground arith;
  allowed = reopen-Allowed t.status (ground arith);
}

-- One detail of `i` is changed, and nothing else of it.
pub record DetailStep (a : Action) (id : String) (i i' : TodoItem) : Type 0 where
  pub before : List TodoDetail
  pub rest : List TodoDetail
  pub old : TodoDetail
  pub new : TodoDetail
  pub details : i.details ≡ before ++ (old ∷ rest)
  pub same : i' ≡ record i { details = before ++ (new ∷ rest) }
  pub named : old.id ≡ id
  pub changed : DetailChanged a old new

-- One item is changed, it or one of its details being of the given id; the others stay, in order.
pub record OneStep (a : Action) (id : String) (items items' : List TodoItem) : Type 0 where
  pub before : List TodoItem
  pub rest : List TodoItem
  pub old : TodoItem
  pub new : TodoItem
  pub was : items ≡ before ++ (old ∷ rest)
  pub becomes : items' ≡ before ++ (new ∷ rest)
  pub step : ((old.id ≡ id) × ItemChanged a old new) ⊎ DetailStep a id old new

-- The heading of the draft is that of the document.
pub record SameHeading (d : TodoDocument) (draft : Draft) : Type 0 where
  pub owner : draft.owner_session_id ≡ d.owner_session_id
  pub story : draft.story_id ≡ d.story_id
  pub title : draft.title ≡ d.title

Distinct-details :
    (seen : List String) (before : List TodoItem) (i : TodoItem) (rest : List TodoItem)
    → Distinct seen (document_ids (before ++ (i ∷ rest)))
    → (seen' : List String) × Distinct seen' (detail_ids i.details)
Distinct-details seen [] i rest (new, d) =
    (i.id ∷ seen, (Distinct-split (i.id ∷ seen) (detail_ids i.details) (document_ids rest) d).0)
Distinct-details seen (j ∷ before) i rest (new, d) =
    Distinct-details (after (j.id ∷ seen) (detail_ids j.details)) before i rest
      (Distinct-split (j.id ∷ seen) (detail_ids j.details) (document_ids (before ++ (i ∷ rest)))
        d).1

module _ (a : Action) (d : TodoDocument) (id : String)
    (unique : Distinct [] (document_ids d.items)) where
  draft_of-SameHeading :
      (items : List TodoItem) {draft : Draft}
      → ◌≡◌ {A = Result LedgerError Draft} (ok (draft_of d items)) (ok draft)
      → SameHeading d draft
  draft_of-SameHeading items h =
      let same = sym (ok-injective h) in
      record {
        owner = ap (λ (x : Draft). x.owner_session_id) same;
        story = ap (λ (x : Draft). x.story_id) same;
        title = ap (λ (x : Draft). x.title) same;
      }

  item_step :
      (parent : TodoItem) (draft : Draft)
      → find_item id d.items ≡ some parent
      → ((change_of a).on_item parent d >>= λ changed.
          ok (draft_of d (replace_item id (λ _. changed) d.items)))
        ≡ ok draft
      → SameHeading d draft × OneStep a id d.items draft.items
  item_step parent draft found h =
      let (before, rest, split, named) = find-split (λ i. i.id is id) d.items found in
      let (changed, ran, done) = >>=-eq-ok ((change_of a).on_item parent d) _ h in
      let same = is→≡ parent.id id named in
      (
        draft_of-SameHeading _ done,
        record {
          before = before;
          rest = rest;
          old = parent;
          new = changed;
          was = split;
          becomes =
              ap (λ (x : Draft). x.items) (sym (ok-injective done))
              ∙ (ap (λ xs. replace_item id (λ _. changed) xs) split
                  ∙ (ap (λ x. replace_item x (λ _. changed) (before ++ (parent ∷ rest))) (sym same)
                      ∙ replace_item_one (λ _. changed) [] before parent rest
                          (subst (λ xs. Distinct [] (document_ids xs)) split unique)));
          step = inl (same, on_item_changed a parent changed d ran);
        },
      )

  detail_step :
      (parent : TodoItem) (t : TodoDetail) (draft : Draft)
      → find (λ i. any (λ u. u.id is id) i.details) d.items ≡ some parent
      → find_detail id parent.details ≡ some t
      → ((change_of a).on_detail t parent d >>= λ changed. ok (
          draft_of d (
            replace_item parent.id
              (λ i. record i { details = replace_detail id (λ _. changed) i.details })
              d.items)))
        ≡ ok draft
      → SameHeading d draft × OneStep a id d.items draft.items
  detail_step parent t draft found located h =
      let (before, rest, split, _) =
        find-split (λ i. any (λ u. u.id is id) i.details) d.items found in
      let (tb, ta, tsplit, named) = find-split (λ u. u.id is id) parent.details located in
      let (changed, ran, done) = >>=-eq-ok ((change_of a).on_detail t parent d) _ h in
      let same = is→≡ t.id id named in
      let distinct = subst (λ xs. Distinct [] (document_ids xs)) split unique in
      let (seen, inner) = Distinct-details [] before parent rest distinct in
      let f : TodoItem → TodoItem =
        λ i. record i { details = replace_detail id (λ _. changed) i.details } in
      let one : replace_detail id (λ _. changed) parent.details ≡ tb ++ (changed ∷ ta) =
        ap (λ xs. replace_detail id (λ _. changed) xs) tsplit
        ∙ (ap (λ x. replace_detail x (λ _. changed) (tb ++ (t ∷ ta))) (sym same)
            ∙ replace_detail_one (λ _. changed) seen tb t ta
                (subst (λ ts. Distinct seen (detail_ids ts)) tsplit inner)) in
      (
        draft_of-SameHeading _ done,
        record {
          before = before;
          rest = rest;
          old = parent;
          new = f parent;
          was = split;
          becomes =
              ap (λ (x : Draft). x.items) (sym (ok-injective done))
              ∙ (ap (λ xs. replace_item parent.id f xs) split
                  ∙ replace_item_one f [] before parent rest distinct);
          step = inr (record {
            before = tb;
            rest = ta;
            old = t;
            new = changed;
            details = tsplit;
            same = ap (λ ts. record parent { details = ts }) one;
            named = same;
            changed = on_detail_changed a t changed parent d ran;
          });
        },
      )

  -- On a document with distinct ids a planned transition changes one item, or one detail of one
  -- item: the one of the given id. Its status goes where the action leads, along an allowed step, its
  -- id and content stay, and its evidence is cleared by a start and stays otherwise. The details of
  -- an item stay, but those active are blocked with it. Owner, story, title and all other items and
  -- details stay as they are, in order.
  pub plan_transition_step :
      (draft : Draft)
      → plan_transition d id (change_of a) ≡ ok draft
      → SameHeading d draft × OneStep a id d.items draft.items
  unfolding plan_transition
  plan_transition_step draft h = elim (Option-cases (find_item id d.items)) [
    | inr (parent, found) ↦ item_step parent draft found (rw (found, plan_transition) at h)
    | inl missing ↦
        let h0 = rw (missing, plan_transition) at h in
        let (parent, p, h1) =
          >>=-eq-ok (or_fail (find (λ i. any (λ u. u.id is id) i.details) d.items) unknown_item) _
            h0 in
        let (t, q, h2) = >>=-eq-ok (or_fail (find_detail id parent.details) unknown_item) _ h1 in
        detail_step parent t draft
          (or_fail-ok (find (λ i. any (λ u. u.id is id) i.details) d.items) unknown_item p)
          (or_fail-ok (find_detail id parent.details) unknown_item q) h2
  ]
