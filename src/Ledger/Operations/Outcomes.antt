-- ===== src/Ledger/Operations/Outcomes.antt =====
-- application/todo-ledger.ts: on every way out the public methods keep the ledger's document valid,
-- and a method that returns has written what it returns.
use world_wide_woo.Common.{String, Option, none, some, List}
use world_wide_woo.Todo.{TodoDocument, TextRuntime}
use world_wide_woo.Ledger.State.{Ports, require_current, Draft}
use world_wide_woo.Ledger.State.Rules.{Keeps, keeps_rules}
use world_wide_woo.Ledger.State.Committing.{IsSound, commit_draft-IsSound}
use world_wide_woo.Ledger.Plans.{Placement, Change}
use world_wide_woo.Ledger.Operations.{
  create, add, add_details, transition, commit_planned, record_planned, record_evidence,
}

module _ (js : TextRuntime) {S : Type 0} (ports : Ports S) where
  require_current-IsSound : Keeps {S = S} (IsSound js) require_current
  require_current-IsSound = record { kept = λ l h. h }

  ruleset op_rules = (keeps_rules, require_current-IsSound, commit_draft-IsSound)

  pub create-IsSound :
      (title : String) (items : List String) (story : Option String)
      → Keeps (IsSound js) (create js ports title items story)
  unfolding create
  create-IsSound title items story = search op_rules

  pub add-IsSound :
      (content : String) (placement : Placement)
      → Keeps (IsSound js) (add js ports content placement)
  unfolding add
  add-IsSound content placement = search op_rules

  pub add_details-IsSound :
      (id : String) (contents : List String) → Keeps (IsSound js) (add_details js ports id contents)
  unfolding add_details
  add_details-IsSound id contents = search op_rules

  pub transition-IsSound :
      (id : String) (change : Change) → Keeps (IsSound js) (transition js ports id change)
  unfolding transition
  transition-IsSound id change = search op_rules

  pub commit_planned-IsSound :
      (draft : Option Draft) → Keeps (IsSound js) (commit_planned js ports draft)
  unfolding commit_planned
  commit_planned-IsSound none = search op_rules
  commit_planned-IsSound (some draft) = search op_rules

  record_planned-IsSound :
      (current : Option TodoDocument) (id : String)
      → Keeps (IsSound js) (record_planned js ports current id)
  unfolding record_planned
  record_planned-IsSound none id = search op_rules
  record_planned-IsSound (some d) id = search (op_rules, commit_planned-IsSound)

  pub record_evidence-IsSound : (id : String) → Keeps (IsSound js) (record_evidence js ports id)
  unfolding record_evidence
  record_evidence-IsSound id = search (op_rules, record_planned-IsSound)
