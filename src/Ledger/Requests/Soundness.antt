-- ===== src/Ledger/Requests/Soundness.antt =====
-- application/todo-ledger.ts: whatever calls a ledger takes, its document stays valid; and a call that
-- returns a document has planned, checked and written it.
use world_wide_woo.Common.{◌≡◌, ◌∙◌, refl, subst, sym, ap, List, [], ◌∷◌, Result, ok, arith}
use world_wide_woo.Todo.{TodoDocument}
use world_wide_woo.Ledger.State.{
  Ports, Ledger, LedgerError, lift, ◌>>=◌, commit_draft, Draft, dispose,
}
use world_wide_woo.Ledger.State.Rules.{Keeps, keeps_rules, bind-ok}
use world_wide_woo.Ledger.State.Committing.{
  IsSound, DraftWritten, commit_draft-IsSound, commit_draft_written, initialize-IsSound,
  observed-IsSound,
}
use world_wide_woo.Ledger.Operations.{create, add, add_details, start, complete, block, reopen}
use world_wide_woo.Ledger.Native.{LedgerRuntime}
use world_wide_woo.Ledger.Requests.{
  Mutation, creates, adds, adds_details, starts, completes, blocks, reopens, Request, mutates,
  records_evidence, syncs, initializes, observes, disposes, mutate, after, run, planned,
}
use world_wide_woo.Ledger.Operations.Outcomes.{record_evidence-IsSound}
use world_wide_woo.Ledger.Native.Mirrors.{sync_native_plan-IsSound}

module _ (js : LedgerRuntime) {S : Type 0} (ports : Ports S) where
  -- Each mutation plans first, changing nothing, and then commits what it planned.
  mutate-planned :
      (m : Mutation) (l : Ledger S)
      → mutate js ports m l
        ≡ (lift (planned js l.session_id l.current m) >>= commit_draft js.text ports) l
  unfolding mutate create add add_details start complete block reopen
  mutate-planned (creates title items story) l = refl
  mutate-planned (adds content placement) l = ground arith
  mutate-planned (adds_details id contents) l = ground arith
  mutate-planned (starts id) l = ground arith
  mutate-planned (completes id) l = ground arith
  mutate-planned (blocks id) l = ground arith
  mutate-planned (reopens id) l = ground arith

  -- A mutation that returns a document had planned a draft for it over the ledger's document;
  -- what it returns is that draft, its texts sanitized, with the next revision and the clock's
  -- time; it is valid, it is the ledger's document from then on, the listeners were told it,
  -- and the store had written it over the ledger's revision and the events had recorded it.
  pub mutate_written :
      (m : Mutation) (l : Ledger S) (d : TodoDocument)
      → (mutate js ports m l).0 ≡ ok d
      → (draft : Draft) × (planned js l.session_id l.current m ≡ ok draft)
        × DraftWritten js.text ports draft l (mutate js ports m l).1 d
  mutate_written m l d h =
      let same = mutate-planned m l in
      let (draft, plan, path) =
        bind-ok (lift (planned js l.session_id l.current m)) (commit_draft js.text ports) l
          (rw same at h) in
      let all = same ∙ path in
      (
        draft,
        plan,
        rw (ap (λ (r : Result LedgerError TodoDocument × Ledger S). r.1) all) (
            commit_draft_written js.text ports draft l
              (rw (ap (λ (r : Result LedgerError TodoDocument × Ledger S). r.0) all) at h)),
      )

  mutate-IsSound :
      (m : Mutation) (l : Ledger S) → IsSound js.text l → IsSound js.text (mutate js ports m l).1
  mutate-IsSound m l h =
      subst (λ r. IsSound js.text r.1) (sym (mutate-planned m l))
        ((plan_keeps (planned js l.session_id l.current m)).kept l h)
    where
      plan_keeps :
          (r : Result LedgerError Draft)
          → Keeps (IsSound js.text) (lift r >>= commit_draft js.text ports)
      plan_keeps r = search (keeps_rules, commit_draft-IsSound)

  after-IsSound :
      (l : Ledger S) (r : Request) → IsSound js.text l → IsSound js.text (after js ports l r)
  unfolding after dispose
  after-IsSound l (mutates m) h = mutate-IsSound m l h
  after-IsSound l (records_evidence id) h = (record_evidence-IsSound js.text ports id).kept l h
  after-IsSound l (syncs flow) h = (sync_native_plan-IsSound js ports flow).kept l h
  after-IsSound l (initializes observable) h =
      (initialize-IsSound js.text ports observable).kept l h
  after-IsSound l (observes stored) h = (observed-IsSound js.text ports stored).kept l h
  after-IsSound l disposes h = h

  -- From a ledger whose document, if any, is valid, no sequence of calls, whether they return or
  -- throw and whatever the store, the events and the clock answer, leads to an invalid document.
  pub run-IsSound :
      (l : Ledger S) (rs : List Request) → IsSound js.text l → IsSound js.text (run js ports l rs)
  unfolding run
  run-IsSound l [] h = h
  run-IsSound l (r ∷ rs) h = run-IsSound (after js ports l r) rs (after-IsSound l r h)
