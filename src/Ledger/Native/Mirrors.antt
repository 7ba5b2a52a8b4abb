-- ===== src/Ledger/Native/Mirrors.antt =====
-- application/todo-ledger.ts: what `syncNativePlan` makes of a native plan.
use world_wide_woo.Common.{Option, none, some}
use world_wide_woo.Todo.{TodoDocument}
use world_wide_woo.Ledger.State.{Ports, Draft}
use world_wide_woo.Ledger.State.Rules.{Keeps, keeps_rules}
use world_wide_woo.Ledger.State.Committing.{IsSound, commit_draft-IsSound}
use world_wide_woo.Ledger.Native.{WorkFlow, LedgerRuntime, sync_unless, sync_native_plan}

module _ (js : LedgerRuntime) {S : Type 0} (ports : Ports S) where
  sync_unless-IsSound :
      (d : Option TodoDocument) (draft : Draft)
      → Keeps (IsSound js.text) (sync_unless js ports d draft)
  unfolding sync_unless
  sync_unless-IsSound none draft = search commit_draft-IsSound
  sync_unless-IsSound (some d) draft = search keeps_rules

  pub sync_native_plan-IsSound :
      (flow : WorkFlow) → Keeps (IsSound js.text) (sync_native_plan js ports flow)
  unfolding sync_native_plan
  sync_native_plan-IsSound flow = search (keeps_rules, sync_unless-IsSound)
