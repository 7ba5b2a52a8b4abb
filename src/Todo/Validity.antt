-- ===== src/Todo/Validity.antt =====
-- domain/todos.ts: when a todo document is valid, stated apart from the code that checks it.
use world_wide_woo.Common.{
  ◌≤◌, String, ◌≡◌, Bool, true, false, Option, none, some, List, [], ◌∷◌, ◌++◌, map, length,
  includes, count, All, Distinct,
}
use world_wide_woo.Value.{points, is_empty}
use world_wide_woo.Todo.{
  completed, TodoDetail, TodoItem, TodoDocument, is_in_progress, is_id_text, TextRuntime,
  is_iso_date, all_details,
}

abbrev pub active_item : TodoItem → Bool
active_item i = is_in_progress i.status

abbrev pub active_detail : TodoDetail → Bool
active_detail t = is_in_progress t.status

-- The content is not empty and has at most 120 code points.
abbrev pub FitsText : String → Type 0
FitsText s = (is_empty s ≡ false) × (points s ≤ 120)

abbrev pub NoRepeats : List String → Type 0
NoRepeats [] = Unit
NoRepeats (s ∷ ss) = (includes ss s ≡ false) × NoRepeats ss

abbrev pub IsId : String → Type 0
IsId s = is_id_text s ≡ true

pub record IsValidEvidence (ids : List String) : Type 0 where
  pub few : length ids ≤ 8
  pub unique : NoRepeats ids
  pub each : All IsId ids

pub record IsValidDetail (t : TodoDetail) : Type 0 where
  pub id : IsId t.id
  pub content : FitsText t.content
  pub evidence : IsValidEvidence t.evidence_ids

pub record IsValidItem (i : TodoItem) : Type 0 where
  pub id : IsId i.id
  pub content : FitsText i.content
  pub evidence : IsValidEvidence i.evidence_ids
  pub few_details : length i.details ≤ 8
  pub each_detail : All IsValidDetail i.details
  pub active_parent : is_in_progress i.status ≡ false → count active_detail i.details ≡ 0
  pub completed_details : i.status ≡ completed → All (λ t. t.status ≡ completed) i.details

abbrev pub detail_ids : List TodoDetail → List String
detail_ids ts = map (λ t. t.id) ts

-- The ids of the items, each before those of its details.
abbrev pub document_ids : List TodoItem → List String
document_ids [] = []
document_ids (i ∷ rest) = i.id ∷ (detail_ids i.details ++ document_ids rest)

abbrev pub OptIsId : Option String → Type 0
OptIsId none = Unit
OptIsId (some s) = IsId s

pub record IsValid (js : TextRuntime) (d : TodoDocument) : Type 0 where
  pub revision : d.revision ≤ 9007199254740991
  pub owner : IsId d.owner_session_id
  pub story : OptIsId d.story_id
  pub title : FitsText d.title
  pub date : is_iso_date js d.updated_at ≡ true
  pub few_items : length d.items ≤ 12
  pub each_item : All IsValidItem d.items
  pub unique_ids : Distinct [] (document_ids d.items)
  pub one_active : count active_item d.items ≤ 1
  pub one_active_detail : count active_detail (all_details d.items) ≤ 1
