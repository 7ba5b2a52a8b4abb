-- ===== src/Ledger/Operations.antt =====
-- application/todo-ledger.ts: the public methods of the ledger.
pub mod Outcomes
use world_wide_woo.Common.{
  ℕ, String, Bool, true, false, not, ◌||◌, Option, none, some, List, length, ltb, ◌==◌,
  if◌then◌else◌, Result, ok, err, guard, refuse,
}
use world_wide_woo.Todo.{TodoDocument, TextRuntime}
use world_wide_woo.Ledger.State.{
  LedgerError, bad_item_id, bad_details, bad_evidence_id, Ports, Ledger, Exec, pure, throw, lift,
  gets, continue, ◌>>=◌, ◌>>◌, require_current, commit_draft, Draft,
}
use world_wide_woo.Ledger.Plans.{
  is_id, plan_create, Placement, plan_add, plan_add_details, Change, plan_transition, start_change,
  complete_change, block_change, reopen_change, plan_evidence,
}

module _ (js : TextRuntime) {S : Type 0} (ports : Ports S) where
  unfoldable pub create : String → List String → Option String → Exec S TodoDocument
  create title items story = do
    session ← gets (λ l. l.session_id)
    current ← gets (λ l. l.current)
    draft ← lift (plan_create session current title items story)
    commit_draft js ports draft

  unfoldable pub add : String → Placement → Exec S TodoDocument
  add content placement = do
    d ← require_current
    draft ← lift (plan_add d content placement)
    commit_draft js ports draft

  unfoldable pub add_details : String → List String → Exec S TodoDocument
  add_details id contents = do
    lift (guard (is_id js id) bad_item_id)
    lift (refuse (length contents == 0 || ltb 8 (length contents)) bad_details)
    d ← require_current
    draft ← lift (plan_add_details d id contents)
    commit_draft js ports draft

  unfoldable pub transition : String → Change → Exec S TodoDocument
  transition id change = do
    lift (guard (is_id js id) bad_item_id)
    d ← require_current
    draft ← lift (plan_transition d id change)
    commit_draft js ports draft

  unfoldable pub start : String → Exec S TodoDocument
  unfolding transition
  start id = transition id start_change

  unfoldable pub complete : String → Exec S TodoDocument
  unfolding transition
  complete id = transition id complete_change

  unfoldable pub block : String → Exec S TodoDocument
  unfolding transition
  block id = transition id block_change

  unfoldable pub reopen : String → Exec S TodoDocument
  unfolding transition
  reopen id = transition id reopen_change

  pub commit_planned : Option Draft → Exec S (Option TodoDocument)
  commit_planned none = pure none
  commit_planned (some draft) = do next ← commit_draft js ports draft; pure (some next)

  -- `null` where there is no document, or nothing to record on it.
  pub record_planned : Option TodoDocument → String → Exec S (Option TodoDocument)
  unfolding commit_planned
  record_planned none id = pure none
  record_planned (some d) id = do
    lift (guard (is_id js id) bad_evidence_id)
    commit_planned (plan_evidence d id)

  pub record_evidence : String → Exec S (Option TodoDocument)
  unfolding record_planned
  record_evidence id = do current ← gets (λ l. l.current); record_planned current id
