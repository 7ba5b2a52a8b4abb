-- ===== src/Todo.antt =====
-- domain/todos.ts: the todo document, its progress counts, and the texts that it admits.
pub mod Validation
pub mod Validity
pub mod Progress
use Prim.Native.Char.{code}
use Prim.Native.String
use world_wide_woo.Common.{
  ℕ, ◌+◌, String, Bool, true, false, ◌&&◌, Option, none, some, List, [], ◌∷◌, ◌++◌, map, length,
  leb, ◌==◌, ◌is◌, if◌then◌else◌,
}
use world_wide_woo.Value.{points, every, is_alphanumeric, is_id_tail, is_digit}

pub data TodoItemStatus : Type 0 where
  pending in_progress completed blocked : TodoItemStatus

abbrev pub max_todo_evidence : ℕ
max_todo_evidence = 8

pub record TodoDetail : Type 0 where
  pub id : String
  pub content : String
  pub status : TodoItemStatus
  pub evidence_ids : List String

pub record TodoItem : Type 0 where
  pub id : String
  pub content : String
  pub status : TodoItemStatus
  pub evidence_ids : List String
  pub details : List TodoDetail

-- `version` is always 1.
pub record TodoDocument : Type 0 where
  pub revision : ℕ
  pub owner_session_id : String
  pub story_id : Option String
  pub title : String
  pub items : List TodoItem
  pub updated_at : String

pub record TodoProgress : Type 0 where
  pub total : ℕ
  pub completed : ℕ
  pub active : ℕ
  pub pending : ℕ
  pub blocked : ℕ

abbrev pub is_pending : TodoItemStatus → Bool
is_pending pending = true
is_pending _ = false

abbrev pub is_in_progress : TodoItemStatus → Bool
is_in_progress in_progress = true
is_in_progress _ = false

abbrev pub is_completed : TodoItemStatus → Bool
is_completed completed = true
is_completed _ = false

abbrev pub is_blocked : TodoItemStatus → Bool
is_blocked blocked = true
is_blocked _ = false

-- One round of the loop of `progressFor`: what a status adds to the counts.
count_status : TodoItemStatus → TodoProgress → TodoProgress
count_status completed p = record p { completed = p.completed + 1 }
count_status in_progress p = record p { active = p.active + 1 }
count_status blocked p = record p { blocked = p.blocked + 1 }
count_status pending p = record p { pending = p.pending + 1 }

count_statuses : List TodoItemStatus → TodoProgress → TodoProgress
unfolding count_status
count_statuses [] p = p
count_statuses (s ∷ ss) p = count_statuses ss (count_status s p)

pub progress_for : List TodoItemStatus → TodoProgress
unfolding count_statuses
progress_for ss =
    count_statuses ss
      (record { total = length ss; completed = 0; active = 0; pending = 0; blocked = 0 })

abbrev pub item_statuses : TodoDocument → List TodoItemStatus
item_statuses d = map (λ i. i.status) d.items

abbrev pub all_details : List TodoItem → List TodoDetail
all_details [] = []
all_details (i ∷ rest) = i.details ++ all_details rest

pub todo_progress : TodoDocument → TodoProgress
unfolding progress_for
todo_progress d = progress_for (item_statuses d)

pub todo_detail_progress : TodoDocument → TodoProgress
unfolding progress_for
todo_detail_progress d = progress_for (map (λ t. t.status) (all_details d.items))

-- `idPattern`: an alphanumeric character and at most 63 that are alphanumeric, `_` or `-`.
unfoldable pub is_id_text : String → Bool
unfolding is_alphanumeric is_id_tail
is_id_text String.[] = false
is_id_text (String.◌∷◌ c s) = is_alphanumeric (code c) && every is_id_tail s && leb (points s) 63

-- The shape of `isoDatePattern`: a digit or one given character at each place.
pub data Place : Type 0 where
  digit : Place
  lit : ℕ → Place

fits : List Place → String → Bool
unfolding is_digit
fits [] String.[] = true
fits [] (String.◌∷◌ c s) = false
fits (p ∷ ps) String.[] = false
fits (digit ∷ ps) (String.◌∷◌ c s) = is_digit (code c) && fits ps s
fits (lit n ∷ ps) (String.◌∷◌ c s) = (code c == n) && fits ps s

abbrev to_seconds : List Place → List Place
to_seconds rest =
    digit
    ∷ digit
    ∷ digit
    ∷ digit
    ∷ lit b'-'
    ∷ digit
    ∷ digit
    ∷ lit b'-'
    ∷ digit
    ∷ digit
    ∷ lit b'T'
    ∷ digit
    ∷ digit
    ∷ lit b':'
    ∷ digit
    ∷ digit
    ∷ lit b':'
    ∷ digit
    ∷ digit
    ∷ rest

unfoldable pub is_iso_shape : String → Bool
unfolding fits
is_iso_shape s =
    if fits (to_seconds (lit b'Z' ∷ [])) s
    then true
    else fits (to_seconds (lit b'.' ∷ digit ∷ digit ∷ digit ∷ lit b'Z' ∷ [])) s

-- The regular expressions that `sanitizeTodoText` replaces, in the source's order.
pub data TodoPattern : Type 0 where
  osc ansi secret_assignment open_ai_key github_token google_api_key comment_mark control spaces :
      TodoPattern

-- What the JavaScript runtime does for this file: `text.replace` by each of the expressions,
-- `trim`, and whether `Date.parse` gives a number.
pub record TextRuntime : Type 0 where
  pub replace : TodoPattern → String → String
  pub trim : String → String
  pub parses_as_date : String → Bool

module _ (js : TextRuntime) where
  unfoldable pub sanitize_todo_text : String → String
  sanitize_todo_text s0 =
      let s1 = js.replace osc s0 in
      let s2 = js.replace ansi s1 in
      let s3 = js.replace secret_assignment s2 in
      let s4 = js.replace open_ai_key s3 in
      let s5 = js.replace github_token s4 in
      let s6 = js.replace google_api_key s5 in
      let s7 = js.replace comment_mark s6 in
      let s8 = js.replace control s7 in let s9 = js.replace spaces s8 in js.trim s9

  unfoldable pub is_iso_date : String → Bool
  unfolding is_iso_shape
  is_iso_date s = is_iso_shape s && js.parses_as_date s
