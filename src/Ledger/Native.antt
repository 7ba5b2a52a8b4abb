-- ===== src/Ledger/Native.antt =====
-- application/todo-ledger.ts: `syncNativePlan`, which mirrors the native plan of domain/work-steps.ts
-- into the todo document.
pub mod Mirrors
use Prim.Native.Char.{code}
use Prim.Native.String
use world_wide_woo.Common.{
  ℕ, zero, suc, ◌+◌, ◌-◌, String, Bool, true, false, not, ◌&&◌, ◌||◌, Option, none, some, List, [],
  ◌∷◌, ◌++◌, map, length, take, drop, keep, includes, all, leb, ltb, ◌==◌, ◌is◌, opt_is,
  if◌then◌else◌, Result, ok, err, guard,
}
use world_wide_woo.Value.{
  Value, natural, text, object, Fields, get, fields_of, text_of, every, is_digit, points, units,
  is_empty, take_points,
}
use world_wide_woo.Decimal.{append, after_prefix}
use world_wide_woo.Todo.{
  TodoItemStatus, TodoDetail, TodoItem, TodoDocument, max_todo_evidence, TextRuntime,
  sanitize_todo_text,
}
use world_wide_woo.Ledger.State.{
  LedgerError, bad_source, bad_identity, id_collision, Ports, Ledger, Exec, pure, throw, lift, gets,
  continue, ◌>>=◌, ◌>>◌, commit_draft, same_items, Draft,
}
use world_wide_woo.Ledger.Plans.{is_id}

-- domain/work-steps.ts: `WorkStepStatus`.
pub data WorkStepStatus : Type 0 where
  pending running completed failed cancelled : WorkStepStatus

-- What the ledger reads of a `SemanticWorkStep`. Values of unknown type stay such.
pub record SemanticWorkStep : Type 0 where
  pub identity : Value
  pub status : WorkStepStatus
  pub activity_ids : List String
  pub what : Value
  pub why : Value

-- What it reads of a `WorkFlowProjection`.
pub record WorkFlow : Type 0 where
  pub source : Value
  pub goal : Value
  pub steps : List SemanticWorkStep

-- The regular expressions of `isTechnicalInput`.
pub data TechnicalPattern : Type 0 where
  backtick assignment command_name file_path file_name long_option : TechnicalPattern

pub record LedgerRuntime : Type 0 where
  pub text : TextRuntime
  pub matches : TechnicalPattern → String → Bool

-- `[a-f0-9]`.
is_hex : ℕ → Bool
unfolding is_digit
is_hex c = is_digit c || (leb b'a' c && leb c b'f')

unfoldable pub is_sha256_hex : String → Bool
unfolding is_hex
is_sha256_hex s = every is_hex s && points s == 64

abbrev hex_value : Value → Bool
hex_value v = elim (text_of v) [ none ↦ false | some s ↦ is_sha256_hex s ]

-- /^sha256:[a-f0-9]{64}$/.
abbrev digest_value : Value → Bool
digest_value v = elim (text_of v) [
  | none ↦ false
  | some s ↦ elim (after_prefix "sha256:" s) [ none ↦ false | some rest ↦ is_sha256_hex rest ]
]

opaque_id : TextRuntime → Value → Bool
opaque_id js v = elim (text_of v) [
  | none ↦ false
  | some s ↦ not (is_empty s) && leb (units s) 512 && js.trim s is s
]

abbrev positive_integer : Value → Bool
positive_integer (natural n) = ltb 0 n && leb n 9007199254740991
positive_integer _ = false

abbrev text_is : Value → String → Bool
text_is v t = elim (text_of v) [ none ↦ false | some s ↦ s is t ]

-- `isNativePlanSource`.
pub is_native_plan_source : TextRuntime → Value → Bool
unfolding opaque_id get is_sha256_hex after_prefix
is_native_plan_source js v = elim (fields_of v) [
  | none ↦ false
  | some source ↦
      text_is (get "kind" source) "native-plan-derived"
      && text_is (get "algorithm" source) "dplan-v1"
      && opaque_id js (get "turnId" source)
      && hex_value (get "expectedThreadKeyDigest" source)
      && elim (fields_of (get "currentRevision" source)) [
        | none ↦ false
        | some revision ↦
            hex_value (get "sourceRevisionKeyDigest" revision)
            && opaque_id js (get "activityId" revision)
            && positive_integer (get "sequence" revision)
            && digest_value (get "sourceDigest" revision)
      ]
]

unfoldable pub native_todo_parent_id : String → String
unfolding append
native_todo_parent_id identity = append "native-" (take_points 48 identity)

unfoldable pub first_detail_id : String → String
unfolding append
first_detail_id id = append id "-detail-1"

pub todo_status : WorkStepStatus → TodoItemStatus
todo_status running = TodoItemStatus.in_progress
todo_status completed = TodoItemStatus.completed
todo_status failed = TodoItemStatus.blocked
todo_status cancelled = TodoItemStatus.blocked
todo_status pending = TodoItemStatus.pending

-- `detailStatus(parentStatus, isLast)`.
pub detail_status : TodoItemStatus → Bool → TodoItemStatus
detail_status TodoItemStatus.completed last = TodoItemStatus.completed
detail_status TodoItemStatus.blocked last = TodoItemStatus.blocked
detail_status TodoItemStatus.in_progress last =
    if last then TodoItemStatus.in_progress else TodoItemStatus.completed
detail_status TodoItemStatus.pending last = TodoItemStatus.pending

-- `[...new Set(values)]`: the first of each, in order; `seen` holds those already met.
abbrev pub unique : List String → List String → List String
unique seen [] = []
unique seen (s ∷ ss) = if includes seen s then unique seen ss else (s ∷ unique (s ∷ seen) ss)

-- `slice(-n)`.
abbrev pub last_n : ℕ → List String → List String
last_n n xs = drop (length xs - n) xs

pub valid_evidence_ids : TextRuntime → List String → List String
valid_evidence_ids js ids = last_n max_todo_evidence (unique [] (keep (is_id js) ids))

abbrev narration_what : String
narration_what = "작업을 진행합니다."

abbrev narration_why : String
narration_why = "요청을 안전하게 처리하고 결과를 확인하기 위해서입니다."

abbrev narration_goal : String
narration_goal = "현재 요청"

module _ (js : LedgerRuntime) where
  pub is_technical_input : String → Bool
  is_technical_input s =
      js.matches backtick s
      || js.matches assignment s
      || js.matches command_name s
      || js.matches file_path s
      || js.matches file_name s
      || js.matches long_option s

  abbrev or_else : String → String → String
  or_else s fallback = if is_empty s then fallback else s

  pub todo_narration_text : Value → String → String
  todo_narration_text v fallback = elim (text_of v) [
    | none ↦ fallback
    | some s ↦
        if is_technical_input s
        then fallback
        else take_points 120 (or_else (sanitize_todo_text js.text s) fallback)
  ]

  pub native_todo_item : String → SemanticWorkStep → TodoItemStatus → TodoItem
  unfolding native_todo_parent_id detail_status valid_evidence_ids todo_narration_text
      first_detail_id
  native_todo_item identity step status =
      let id = native_todo_parent_id identity in
      record {
        id = id;
        content = todo_narration_text step.what narration_what;
        status = status;
        evidence_ids = [];
        details =
            record {
              id = first_detail_id id;
              content = todo_narration_text step.why narration_why;
              status = detail_status status true;
              evidence_ids = valid_evidence_ids js.text step.activity_ids;
            }
            ∷ [];
      }

  -- The loop of `validateNativeTodoIds`: the identities that are texts of 64 hex digits, or the
  -- error. Its map of identities holds no id that `ids` does not hold.
  pub native_identities : List String → List SemanticWorkStep → Result LedgerError (List String)
  unfolding native_todo_parent_id first_detail_id
  native_identities ids [] = ok []
  native_identities ids (step ∷ steps) = elim (text_of step.identity) [
    | none ↦ err bad_identity
    | some identity ↦
        let parent = native_todo_parent_id identity in
        let detail = first_detail_id parent in
        let rest = native_identities (detail ∷ parent ∷ ids) steps in
        if not (is_sha256_hex identity)
        then err bad_identity
        else if includes ids parent || includes ids detail
        then err id_collision
        else elim rest [ err e ↦ err e | ok more ↦ ok (identity ∷ more) ]
  ]

  -- The items: only the first running step is in progress, a later one waits.
  abbrev pub demoted : Bool → TodoItemStatus → TodoItemStatus
  demoted assigned TodoItemStatus.in_progress =
      if assigned then TodoItemStatus.pending else TodoItemStatus.in_progress
  demoted assigned status = status

  abbrev pub assigns : Bool → TodoItemStatus → Bool
  assigns assigned TodoItemStatus.in_progress = true
  assigns assigned status = assigned

  pub native_items : Bool → List String → List SemanticWorkStep → List TodoItem
  unfolding native_todo_item todo_status
  native_items assigned [] steps = []
  native_items assigned (identity ∷ more) [] = []
  native_items assigned (identity ∷ more) (step ∷ steps) =
      native_todo_item identity step (demoted assigned (todo_status step.status))
      ∷ native_items (assigns assigned (todo_status step.status)) more steps

  abbrev pub same_content : TodoDocument → Draft → Bool
  same_content d draft =
      (d.owner_session_id is draft.owner_session_id)
      && opt_is d.story_id draft.story_id
      && (d.title is draft.title)
      && same_items d.items draft.items

  pub native_draft : String → WorkFlow → List String → Draft
  unfolding native_items
  native_draft session flow identities = record {
    owner_session_id = session;
    story_id = none;
    title = todo_narration_text flow.goal narration_goal;
    items = native_items false identities (take 12 flow.steps);
  }

  abbrev pub unchanged : Option TodoDocument → Draft → Option TodoDocument
  unchanged none draft = none
  unchanged (some d) draft = if same_content d draft then some d else none

  module _ {S : Type 0} (ports : Ports S) where
    pub sync_unless : Option TodoDocument → Draft → Exec S TodoDocument
    sync_unless (some d) draft = pure d
    sync_unless none draft = commit_draft js.text ports draft

    pub sync_native_plan : WorkFlow → Exec S TodoDocument
    unfolding native_draft native_identities is_native_plan_source sync_unless
    sync_native_plan flow = do
      lift (guard (is_native_plan_source js.text flow.source) bad_source)
      identities ← lift (native_identities [] (take 12 flow.steps))
      session ← gets (λ l. l.session_id)
      current ← gets (λ l. l.current)
      let draft = native_draft session flow identities
      sync_unless (unchanged current draft) draft
