-- ===== src/WorkSteps/Reconcile/Weighing.antt =====
-- domain/work-steps.ts: what the states weigh that `reconcile` returns, whatever they are weighed by.
use world_wide_woo.Common.{
  ℕ, suc, ◌≡◌, sym, ap, ◌∙◌, String, Option, none, some, List, [], ◌∷◌, sum_of, ok, >>=-eq-ok,
  arith,
}
use world_wide_woo.Dict.{Dict}
use world_wide_woo.WorkSteps.Runtime.{WorkRuntime}
use world_wide_woo.WorkSteps.Entries.{State, Entry, PlanRevisionRef}
use world_wide_woo.WorkSteps.Matches.{Revising, Matches, matched, matches_of}
use world_wide_woo.WorkSteps.Reconcile.{
  Reconciled, retain, mint, plant, plant_all, next_state, next_states, retire, orphaned, reconcile,
}
use world_wide_woo.WorkSteps.Matches.Balancing.{weight_at, matched_weight}

module _ (r : Revising) (ref : PlanRevisionRef) (rt : WorkRuntime) (thread : String)
    (ordinal : ℕ) where
  -- A weight of the new states and one of the old states that agree on a state that is retained,
  -- where a minted state weighs nothing.
  module _ (new old : State → ℕ) (retained : (s : State) (e : Entry) → new (retain ref s e) ≡ old s)
      (minted : (position : ℕ) (e : Entry) (state : State)
        → mint rt thread ref ordinal position e ≡ ok state
        → new state ≡ 0) where
    next_state-weight :
        (position : ℕ) (e : Entry) (o : Option State) (seeds : Dict String)
        {first : State × Dict String}
        → next_state rt thread ref ordinal position e o seeds ≡ ok first
        → new first.0 ≡ weight_at old r o
    unfolding next_state
    next_state-weight position e (some s) seeds {first} h =
        let same : retain ref s e ≡ first.0 = cc (h) in ap new (sym same) ∙ retained s e
    next_state-weight position e none seeds {first} h =
        let (state, m, h') = >>=-eq-ok (mint rt thread ref ordinal position e) _ h in
        let (planted, q, h'') =
          >>=-eq-ok (plant state.identity.value state.canonical_seed seeds) _ h' in
        let same : state ≡ first.0 = cc (h'') in ap new (sym same) ∙ minted position e state m

    next_states-weight :
        (ms : Matches) (position : ℕ) (es : List Entry) (seeds : Dict String)
        {next : List State × Dict String}
        → next_states rt thread ref ordinal r.old ms position es seeds ≡ ok next
        → sum_of new next.0 ≡ matched_weight old r ms position es
    unfolding next_states matched_weight
    next_states-weight ms position [] seeds {next} h =
        let same : [] ≡ next.0 = cc (h) in ap (sum_of new) (sym same)
    next_states-weight ms position (e ∷ es) seeds {next} h =
        let o = matched r.old ms position in
        let (first, f, h') = >>=-eq-ok (next_state rt thread ref ordinal position e o seeds) _ h in
        let (more, m, h'') =
          >>=-eq-ok (next_states rt thread ref ordinal r.old ms (suc position) es first.1) _ h' in
        let same : first.0 ∷ more.0 ≡ next.0 = cc (h'') in
        omega (
          arith,
          ap (sum_of new) same,
          next_state-weight position e o seeds f,
          next_states-weight ms (suc position) es first.1 m,
        )

    pub reconcile-weight :
        (seeds : Dict String) {result : Reconciled}
        → reconcile rt thread ref ordinal r seeds ≡ ok result
        → sum_of new result.states ≡ matched_weight old r (matches_of r) 0 r.next
    unfolding reconcile
    reconcile-weight seeds {result} h =
        let (planted, p, h') = >>=-eq-ok (plant_all r.old seeds) _ h in
        let (next, n, h'') =
          >>=-eq-ok (next_states rt thread ref ordinal r.old (matches_of r) 0 r.next planted) _
            h' in
        let states : next.0 ≡ result.states = cc (h'') in
        ap (sum_of new) (sym states) ∙ next_states-weight (matches_of r) 0 r.next planted n

  module _ (seeds : Dict String) {result : Reconciled}
      (h : reconcile rt thread ref ordinal r seeds ≡ ok result) where
    pub reconcile-orphaned : orphaned r ref (matches_of r) 0 r.old ≡ result.orphans
    unfolding reconcile
    reconcile-orphaned =
        let (planted, p, h') = >>=-eq-ok (plant_all r.old seeds) _ h in
        let (next, n, h'') =
          >>=-eq-ok (next_states rt thread ref ordinal r.old (matches_of r) 0 r.next planted) _
            h' in
        cc (h'')

    pub reconcile-retired : retire r ref (matches_of r) 0 r.old ≡ result.retired
    unfolding reconcile
    reconcile-retired =
        let (planted, p, h') = >>=-eq-ok (plant_all r.old seeds) _ h in
        let (next, n, h'') =
          >>=-eq-ok (next_states rt thread ref ordinal r.old (matches_of r) 0 r.next planted) _
            h' in
        cc (h'')
