-- ===== src/WorkSteps/Reconcile/Identities.antt =====
-- domain/work-steps.ts: what becomes of the identities of a plan's items in `reconcile`.
use world_wide_woo.Common.{
  ℕ, suc, ◌+◌, ◌≡◌, refl, ap, inl, inr, String, List, [], ◌∷◌, sum_of, ◌is◌, Bool-cases, ok, arith,
}
use world_wide_woo.Dict.{Dict}
use world_wide_woo.WorkSteps.Runtime.{WorkRuntime}
use world_wide_woo.WorkSteps.Entries.{
  State, Entry, PlanRevisionRef, PlanRetirement, PlanReconciliation, minted,
}
use world_wide_woo.WorkSteps.Matches.{Revising, Matches, has_old, matches_of}
use world_wide_woo.WorkSteps.Reconcile.{Reconciled, retain, evidence, mint, retire, reconcile}
use world_wide_woo.WorkSteps.Matches.Balancing.{left_weight, matches_of-Balances}
use world_wide_woo.WorkSteps.Reconcile.Weighing.{reconcile-weight, reconcile-retired}

-- A weight of identities: with 1 at one identity and 0 at the others, it counts that identity.
module _ (weight : String → ℕ) where
  abbrev pub identity_weight : State → ℕ
  identity_weight s = weight s.identity.value

  abbrev pub retained_by : PlanReconciliation → ℕ → ℕ
  retained_by (minted digest ordinal position) n = 0
  retained_by evidence n = n

  -- What a state weighs whose identity is one of the revision before.
  abbrev pub retained_weight : State → ℕ
  retained_weight s = retained_by s.reconciliation (weight s.identity.value)

  abbrev pub retired_weight : PlanRetirement → ℕ
  retired_weight t = weight t.identity.value

  retain-weight :
      (ref : PlanRevisionRef) (s : State) (e : Entry)
      → retained_weight (retain ref s e) ≡ identity_weight s
  unfolding retain evidence
  retain-weight ref s e = elim (Bool-cases (s.entry.token_digest is e.token_digest)) [
    | inl same ↦ rw same refl
    | inr edited ↦ rw edited refl
  ]

  module _ (r : Revising) (ref : PlanRevisionRef) where
    retire-weight :
        (ms : Matches) (i : ℕ) (ss : List State)
        → sum_of retired_weight (retire r ref ms i ss) ≡ left_weight identity_weight r ms i ss
    unfolding retire left_weight has_old
    retire-weight ms i [] = refl
    retire-weight ms i (s ∷ ss) = ground (arith, retire-weight ms (suc i) ss)

    module _ (rt : WorkRuntime) (thread : String) (ordinal : ℕ) where
      mint-weight :
          (position : ℕ) (e : Entry) {state : State}
          → mint rt thread ref ordinal position e ≡ ok state
          → retained_weight state ≡ 0
      unfolding mint
      mint-weight position e h = ground arith

      -- However identities are weighed: those of the states that a revision retains and those that it
      -- retires weigh what those of the old states weighed. So each old identity goes on with one new
      -- state, or is retired once.
      pub reconcile_identities :
          (seeds : Dict String) {result : Reconciled}
          → reconcile rt thread ref ordinal r seeds ≡ ok result
          → sum_of retained_weight result.states + sum_of retired_weight result.retired
            ≡ sum_of identity_weight r.old
      reconcile_identities seeds h = omega (
        arith,
        ap (sum_of retired_weight) (reconcile-retired r ref rt thread ordinal seeds h),
        retire-weight (matches_of r) 0 r.old,
        reconcile-weight r ref rt thread ordinal retained_weight identity_weight (retain-weight ref)
            (λ position e state. mint-weight position e {state = state}) seeds h,
        matches_of-Balances identity_weight r,
      )
