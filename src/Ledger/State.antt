-- ===== src/Ledger/State.antt =====
-- application/todo-ledger.ts: the ledger's state, what it is given from outside (ports/index.ts), its
-- errors, and `commit`, through which every change goes.
pub mod Rules
pub mod Committing
use world_wide_woo.Common.{
  ℕ, ◌+◌, String, ◌≡◌, Bool, true, false, ◌&&◌, ◌||◌, Option, none, some, List, [], ◌∷◌, ◌++◌,
  Result, ok, err, or_fail, if◌then◌else◌, ◌is◌, opt_is, ◌==◌,
}
use world_wide_woo.Todo.{TodoItemStatus, TodoDetail, TodoItem, TodoDocument, TextRuntime}
use world_wide_woo.Todo.Validation.{TodoFailure, status_name, validate_todo_document}
use world_wide_woo.Todo.Validation.Typed.{document_value}

pub data LedgerError : Type 0 where
  unfinished_work bad_items item_limit bad_item_id bad_details unknown_item : LedgerError
  completed_parent detail_limit not_initialized : LedgerError
  not_pending inactive_parent detail_active item_active : LedgerError
  not_active no_evidence unfinished_details not_blockable not_blocked bad_evidence_id : LedgerError
  bad_source bad_identity id_collision : LedgerError
  invalid_document : TodoFailure → LedgerError
  write_conflict : Option String → TodoDocument → Option TodoDocument → LedgerError
  failed : String → LedgerError

-- `todoUpdatedEvent`: the title and the document; its other fields are constants.
pub record TodoEvent : Type 0 where
  pub body : String
  pub todo : TodoDocument

-- What is outside of the ledger, over the state `S` of that outside: the store (`compareAndSwap`
-- answers whether the document was written), the session's events and the clock. A call that
-- rejects gives the error's message. `read_source` is there or not, as in the source.
pub record Ports (S : Type 0) : Type 0 where
  pub read : S → Result String (Option TodoDocument) × S
  pub compare_and_swap : Option ℕ → TodoDocument → S → Result String Bool × S
  pub last_conflict_source : S → Option String
  pub read_source : Option (S → Result String (Option String) × S)
  pub append : String → TodoEvent → S → Result String (Unit {0}) × S
  pub now : S → String × S

-- `emitted` holds what the listeners were told, the last first.
pub record Ledger (S : Type 0) : Type 0 where
  pub session_id : String
  pub current : Option TodoDocument
  pub emitted : List (Option TodoDocument)
  pub watching : Bool
  pub outside : S

-- A method that changes the ledger and may throw: what it changed before a throw stays changed.
abbrev pub Exec : Type 0 → Type 0 → Type 0
Exec S A = Ledger S → Result LedgerError A × Ledger S

module _ {S A : Type 0} where
  abbrev pub pure : A → Exec S A
  pure a l = (ok a, l)

  abbrev pub throw : LedgerError → Exec S A
  throw e l = (err e, l)

  abbrev pub lift : Result LedgerError A → Exec S A
  lift r l = (r, l)

  abbrev pub gets : (Ledger S → A) → Exec S A
  gets f l = (ok (f l), l)

module _ {S A B : Type 0} where
  abbrev pub continue : Result LedgerError A → (A → Exec S B) → Exec S B
  continue (ok a) f l = f a l
  continue (err e) f l = (err e, l)

  infixl 5 ◌>>=◌
  abbrev pub ◌>>=◌ : Exec S A → (A → Exec S B) → Exec S B
  ◌>>=◌ m f l = continue (m l).0 f (m l).1

infixl 5 ◌>>◌
abbrev pub ◌>>◌ : {S B : Type 0} → Exec S (Unit {0}) → Exec S B → Exec S B
m >> k = m >>= λ _. k

abbrev pub modify : {S : Type 0} → (Ledger S → Ledger S) → Exec S (Unit {0})
modify f l = (ok tt, f l)

-- A port's answer, its rejection as the ledger's.
abbrev pub port_result {ℓ} : {A : Type ℓ} → Result String A → Result LedgerError A
port_result (ok a) = ok a
port_result (err m) = err (failed m)

abbrev pub call : {S A : Type 0} → (S → Result String A × S) → Exec S A
call f l = (port_result (f l.outside).0, record l { outside = (f l.outside).1 })

-- A call whose rejection is caught: `null` instead.
abbrev pub or_null : {A : Type 0} → Result String (Option A) → Option A
or_null (ok a) = a
or_null (err m) = none

abbrev pub call_or_null : {S A : Type 0} → (S → Result String (Option A) × S) → Exec S (Option A)
call_or_null f l = (ok (or_null (f l.outside).0), record l { outside = (f l.outside).1 })

abbrev pub require_current : {S : Type 0} → Exec S TodoDocument
require_current = do current ← gets (λ l. l.current); lift (or_fail current not_initialized)

-- `JSON.stringify(a) === JSON.stringify(b)` on documents: they agree in every field.
abbrev pub same_texts : List String → List String → Bool
same_texts [] [] = true
same_texts [] (t ∷ ts) = false
same_texts (s ∷ ss) [] = false
same_texts (s ∷ ss) (t ∷ ts) = (s is t) && same_texts ss ts

abbrev pub same_detail : TodoDetail → TodoDetail → Bool
same_detail a b =
    (a.id is b.id)
    && (a.content is b.content)
    && (status_name a.status is status_name b.status)
    && same_texts a.evidence_ids b.evidence_ids

abbrev pub same_details : List TodoDetail → List TodoDetail → Bool
same_details [] [] = true
same_details [] (t ∷ ts) = false
same_details (s ∷ ss) [] = false
same_details (s ∷ ss) (t ∷ ts) = same_detail s t && same_details ss ts

abbrev pub same_item : TodoItem → TodoItem → Bool
same_item a b =
    (a.id is b.id)
    && (a.content is b.content)
    && (status_name a.status is status_name b.status)
    && same_texts a.evidence_ids b.evidence_ids
    && same_details a.details b.details

abbrev pub same_items : List TodoItem → List TodoItem → Bool
same_items [] [] = true
same_items [] (t ∷ ts) = false
same_items (s ∷ ss) [] = false
same_items (s ∷ ss) (t ∷ ts) = same_item s t && same_items ss ts

abbrev pub same_document : TodoDocument → TodoDocument → Bool
same_document a b =
    (a.revision == b.revision)
    && (a.owner_session_id is b.owner_session_id)
    && opt_is a.story_id b.story_id
    && (a.title is b.title)
    && same_items a.items b.items
    && (a.updated_at is b.updated_at)

abbrev pub same_snapshot : Option TodoDocument → Option TodoDocument → Bool
same_snapshot none none = true
same_snapshot none (some b) = false
same_snapshot (some a) none = false
same_snapshot (some a) (some b) = same_document a b

abbrev pub checked : {A : Type 0} → Result TodoFailure A → Result LedgerError A
checked (ok a) = ok a
checked (err f) = err (invalid_document f)

-- What a plan leaves open of a document: all but the version, the revision and the time.
pub record Draft : Type 0 where
  pub owner_session_id : String
  pub story_id : Option String
  pub title : String
  pub items : List TodoItem

abbrev pub next_revision : Option TodoDocument → ℕ
next_revision none = 0
next_revision (some d) = d.revision + 1

abbrev pub revision_of : Option TodoDocument → Option ℕ
revision_of none = none
revision_of (some d) = some d.revision

module _ (js : TextRuntime) where
  unfoldable pub validate : TodoDocument → Result LedgerError TodoDocument
  validate d = checked (validate_todo_document js (document_value d))

  unfoldable pub immutable_snapshot : Option TodoDocument → Result LedgerError (Option TodoDocument)
  unfolding validate
  immutable_snapshot none = ok none
  immutable_snapshot (some d) = elim (validate d) [ ok e ↦ ok (some e) | err x ↦ err x ]

module _ {S : Type 0} where
  unfoldable pub emit : Exec S (Unit {0})
  emit = modify (λ l. record l { emitted = l.current ∷ l.emitted })

  abbrev pub set_current : Option TodoDocument → Exec S (Unit {0})
  set_current d = modify (λ l. record l { current = d })

  abbrev pub set_watching : Bool → Exec S (Unit {0})
  set_watching observable = modify (λ l. record l { watching = observable })

  -- `initialize`, once the document was read and checked.
  pub start_watching : Bool → Option TodoDocument → Exec S (Unit {0})
  unfolding emit
  start_watching observable current = do set_current current; set_watching observable; emit

  -- A snapshot that is the current one changes nothing and is not told.
  pub take_over : Option TodoDocument → Exec S (Unit {0})
  unfolding emit
  take_over snapshot = do
    same ← gets (λ l. same_snapshot snapshot l.current)
    if same then pure tt else (do set_current snapshot; emit)

  unfoldable pub dispose : Exec S (Unit {0})
  dispose = set_watching false

module _ (js : TextRuntime) {S : Type 0} (ports : Ports S) where
  -- `document(value)`: the draft with the next revision and the time of the clock, checked.
  unfoldable pub document : Draft → Exec S TodoDocument
  unfolding validate
  document draft l = (
    validate js (record {
      revision = next_revision l.current;
      owner_session_id = draft.owner_session_id;
      story_id = draft.story_id;
      title = draft.title;
      items = draft.items;
      updated_at = (ports.now l.outside).0;
    }),
    record l { outside = (ports.now l.outside).1 },
  )

  -- `inspectable.lastConflictSource ?? null`, else `readSource`, its rejection caught.
  unfoldable pub conflict_source : Exec S (Option String)
  conflict_source l = elim (ports.last_conflict_source l.outside) [
    | some s ↦ (ok (some s), l)
    | none ↦ elim ports.read_source [ none ↦ (ok none, l) | some f ↦ call_or_null f l ]
  ]

  -- What `commit` does when the store did not write: reload, tell the listeners, and throw.
  unfoldable pub throw_conflict : TodoDocument → Option TodoDocument → Exec S TodoDocument
  unfolding emit conflict_source
  throw_conflict next current = do
    set_current current
    emit
    source ← conflict_source
    throw (write_conflict source next current)

  unfoldable pub reload_and_throw : TodoDocument → Exec S TodoDocument
  unfolding immutable_snapshot throw_conflict
  reload_and_throw next = do
    stored ← call_or_null ports.read
    current ← lift (immutable_snapshot js stored)
    throw_conflict next current

  unfoldable pub record_written : TodoDocument → Exec S TodoDocument
  unfolding emit
  record_written next = do
    set_current (some next)
    emit
    session ← gets (λ l. l.session_id)
    call (ports.append session (record { body = next.title; todo = next }))
    pure next

  unfoldable pub commit : TodoDocument → Exec S TodoDocument
  unfolding reload_and_throw record_written
  commit next = do
    expected ← gets (λ l. revision_of l.current)
    written ← call (ports.compare_and_swap expected next)
    if written then record_written next else reload_and_throw next

  unfoldable pub commit_draft : Draft → Exec S TodoDocument
  unfolding document commit
  commit_draft draft = do next ← document draft; commit next

  -- `initialize`: read, check, watch the store (where it can be watched), tell the listeners.
  pub initialize : Bool → Exec S (Unit {0})
  unfolding immutable_snapshot start_watching
  initialize observable = do
    stored ← call ports.read
    current ← lift (immutable_snapshot js stored)
    start_watching observable current

module _ (js : TextRuntime) {S : Type 0} where
  -- The listener that `initialize` gives to the store's `watch`.
  pub observed : Option TodoDocument → Exec S (Unit {0})
  unfolding immutable_snapshot take_over
  observed stored = do snapshot ← lift (immutable_snapshot js stored); take_over snapshot
