-- ===== src/Router/Selection.antt =====
-- application/router-service.ts: the router that `reconcileInitialRouter` settles on.
use world_wide_woo.Common.{
  ◌≡◌, refl, Bool, true, false, not, ◌||◌, List, [], ◌∷◌, includes, ◌⊎◌, inl, inr, arith, All,
  Bool-cases,
}
use world_wide_woo.Router.{
  Provider, Settings, providers, models_of, same_provider, candidates, only_one,
  reconcile_initial_router,
}

-- A router to move the selection to: another one, signed in, that has the model.
pub record IsCandidate (configured : Provider → Bool) (s c : Settings) : Type 0 where
  pub other : same_provider c.provider s.provider ≡ false
  pub signed_in : configured c.provider ≡ true
  pub has_model : includes (models_of c.provider) c.model ≡ true
  pub same_model : c.model ≡ s.model
  pub same_effort : c.effort ≡ s.effort

module _ (configured : Provider → Bool) where
  candidates-IsCandidate :
      (s : Settings) (ps : List Provider)
      → All (IsCandidate configured s) (candidates configured s ps)
  unfolding candidates
  candidates-IsCandidate s [] = tt
  candidates-IsCandidate s (p ∷ ps) =
      elim (Bool-cases (same_provider p s.provider || not (includes (models_of p) s.model))) [
        | inl skip ↦ rw skip (candidates-IsCandidate s ps)
        | inr fits ↦ rw fits (elim (Bool-cases (configured p)) [
          | inr out ↦ rw out (candidates-IsCandidate s ps)
          | inl signed ↦ rw signed (
            record {
              other = ground arith;
              signed_in = signed;
              has_model = ground arith;
              same_model = refl;
              same_effort = refl;
            },
            candidates-IsCandidate s ps,
          )
        ])
      ]

  one-IsCandidate :
      (s : Settings) (cs : List Settings)
      → All (IsCandidate configured s) cs
      → (only_one configured s cs ≡ s) ⊎ IsCandidate configured s (only_one configured s cs)
  one-IsCandidate s [] h = inl refl
  one-IsCandidate s (c ∷ []) h = inr h.0
  one-IsCandidate s (c ∷ d ∷ cs) h = inl refl

  -- The initial selection is kept, or its router alone is changed, to another one that is signed in
  -- and has the same model; and only where the selected router is not signed in.
  pub reconcile_initial_router-IsCandidate :
      (s : Settings)
      → (reconcile_initial_router configured s ≡ s)
        ⊎ ((configured s.provider ≡ false)
            × IsCandidate configured s (reconcile_initial_router configured s))
  unfolding reconcile_initial_router
  reconcile_initial_router-IsCandidate s = elim (Bool-cases (configured s.provider)) [
    | inl signed ↦ rw signed (inl refl)
    | inr out ↦
        rw out
          (elim (one-IsCandidate s (candidates configured s providers)
            (candidates-IsCandidate s providers)) [ inl same ↦ inl same | inr c ↦ inr (refl, c) ])
  ]
