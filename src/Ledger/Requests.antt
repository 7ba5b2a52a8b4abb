-- ===== src/Ledger/Requests.antt =====
-- application/todo-ledger.ts: all the calls that a ledger takes, as one type, and runs of them.
pub mod Soundness
pub mod Interrupting
use world_wide_woo.Common.{
  String, Bool, Option, some, List, [], ◌∷◌, Result, ◌>>=◌, ◌>>◌, guard, refuse, or_fail, length,
  ltb, ◌==◌, ◌||◌,
}
use world_wide_woo.Todo.{TodoDocument, TextRuntime}
use world_wide_woo.Ledger.State.{
  Ports, Ledger, Exec, LedgerError, not_initialized, bad_item_id, bad_details, Draft, initialize,
  observed, dispose,
}
use world_wide_woo.Ledger.Plans.{
  Placement, Change, is_id, plan_create, plan_add, plan_add_details, plan_transition, start_change,
  complete_change, block_change, reopen_change,
}
use world_wide_woo.Ledger.Operations.{
  create, add, add_details, start, complete, block, reopen, record_evidence,
}
use world_wide_woo.Ledger.Native.{WorkFlow, LedgerRuntime, sync_native_plan}

-- The calls that return a document.
pub data Mutation : Type 0 where
  creates : String → List String → Option String → Mutation
  adds : String → Placement → Mutation
  adds_details : String → List String → Mutation
  starts completes blocks reopens : String → Mutation

-- The others, `observes` being the store's call of the listener that it was given.
pub data Request : Type 0 where
  mutates : Mutation → Request
  records_evidence : String → Request
  syncs : WorkFlow → Request
  initializes : Bool → Request
  observes : Option TodoDocument → Request
  disposes : Request

module _ (js : LedgerRuntime) {S : Type 0} (ports : Ports S) where
  unfoldable pub mutate : Mutation → Exec S TodoDocument
  mutate (creates title items story) = create js.text ports title items story
  mutate (adds content placement) = add js.text ports content placement
  mutate (adds_details id contents) = add_details js.text ports id contents
  mutate (starts id) = start js.text ports id
  mutate (completes id) = complete js.text ports id
  mutate (blocks id) = block js.text ports id
  mutate (reopens id) = reopen js.text ports id

  -- The ledger after a call, whether it returned or threw.
  pub after : Ledger S → Request → Ledger S
  unfolding mutate
  after l (mutates m) = (mutate m l).1
  after l (records_evidence id) = (record_evidence js.text ports id l).1
  after l (syncs flow) = (sync_native_plan js ports flow l).1
  after l (initializes observable) = (initialize js.text ports observable l).1
  after l (observes stored) = (observed js.text stored l).1
  after l disposes = (dispose l).1

  pub run : Ledger S → List Request → Ledger S
  run l [] = l
  run l (r ∷ rs) = run (after l r) rs

abbrev pub planned_transition :
    TextRuntime → Option TodoDocument → String → Change → Result LedgerError Draft
planned_transition js current id change = do
  guard (is_id js id) bad_item_id
  d ← or_fail current not_initialized
  plan_transition d id change

-- What a mutation plans over a ledger's session and document, or why it is refused.
abbrev pub planned :
    LedgerRuntime → String → Option TodoDocument → Mutation → Result LedgerError Draft
planned js session current (creates title items story) =
    plan_create session current title items story
planned js session current (adds content placement) = do
  d ← or_fail current not_initialized
  plan_add d content placement
planned js session current (adds_details id contents) = do
  guard (is_id js.text id) bad_item_id
  refuse (length contents == 0 || ltb 8 (length contents)) bad_details
  d ← or_fail current not_initialized
  plan_add_details d id contents
planned js session current (starts id) = planned_transition js.text current id start_change
planned js session current (completes id) = planned_transition js.text current id complete_change
planned js session current (blocks id) = planned_transition js.text current id block_change
planned js session current (reopens id) = planned_transition js.text current id reopen_change
