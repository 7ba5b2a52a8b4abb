-- ===== src/PlanningService.antt =====
-- application/planning-service.ts: the service that keeps the planning snapshot and tells listeners.
-- A listener is a number here, and what it was told is a log, the latest first: what a listener does
-- with a snapshot, or throws, has no effect on the service. The store is an argument.
pub mod Telling
use world_wide_woo.Common.{
  ℕ, String, Bool, true, false, Option, none, some, List, [], ◌∷◌, ◌++◌, any, ◌==◌, if◌then◌else◌,
  Result, ok, err,
}
use world_wide_woo.Planning.{PlanningEpic, PlanningStory, PlanningSnapshot}

pub record PlanningCatalogStore (S : Type 0) : Type 0 where
  pub read : S → Result String PlanningSnapshot × S
  pub create_epic : String → String → S → Result String (PlanningSnapshot × PlanningEpic) × S
  pub create_story :
      String
      → String
      → String
      → Option String
      → S
      → Result String (PlanningSnapshot × PlanningStory) × S

pub record PlanningService (S : Type 0) : Type 0 where
  pub snapshot : Option PlanningSnapshot
  pub listeners : List ℕ
  pub told : List (ℕ × PlanningSnapshot)
  pub store : S

-- The loop of `publish`: each listener is notified.
unfoldable pub notify_all :
    List ℕ → PlanningSnapshot → List (ℕ × PlanningSnapshot) → List (ℕ × PlanningSnapshot)
notify_all [] s told = told
notify_all (l ∷ ls) s told = notify_all ls s ((l, s) ∷ told)

-- `set.delete(listener)`.
unfoldable pub without : ℕ → List ℕ → List ℕ
without l [] = []
without l (k ∷ ks) = let rest = without l ks in if k == l then rest else k ∷ rest

module _ {S : Type 0} where
  unfoldable pub publish : PlanningSnapshot → PlanningService S → PlanningService S
  unfolding notify_all
  publish s p = record p { snapshot = some s; told = notify_all p.listeners s p.told }

  abbrev pub listens : ℕ → PlanningService S → Bool
  listens l p = any (λ k. k == l) p.listeners

  -- A snapshot that is there is told to a new listener.
  abbrev pub announce : Option PlanningSnapshot → ℕ → PlanningService S → PlanningService S
  announce none l p = p
  announce (some s) l p = record p { told = (l, s) ∷ p.told }

  abbrev pub added : ℕ → PlanningService S → List ℕ
  added l p = if listens l p then p.listeners else p.listeners ++ l ∷ []

  -- `subscribe`, and the call of what it returns.
  unfoldable pub subscribe : ℕ → PlanningService S → PlanningService S
  subscribe l p = announce p.snapshot l (record p { listeners = added l p })

  unfoldable pub unsubscribe : ℕ → PlanningService S → PlanningService S
  unfolding without
  unsubscribe l p = record p { listeners = without l p.listeners }

  module _ (store : PlanningCatalogStore S) where
    -- `initialize` and `readSnapshot`.
    unfoldable pub read_snapshot :
        PlanningService S → Result String PlanningSnapshot × PlanningService S
    unfolding publish
    read_snapshot p =
        let answer = store.read p.store in
        let next : PlanningService S = record p { store = answer.1 } in
        elim (answer.0) [ err e ↦ (err e, next) | ok s ↦ (ok s, publish s next) ]

    unfoldable pub create_epic :
        String → String → PlanningService S → Result String PlanningEpic × PlanningService S
    unfolding publish
    create_epic title goal p =
        let answer = store.create_epic title goal p.store in
        let next : PlanningService S = record p { store = answer.1 } in
        elim (answer.0) [ err e ↦ (err e, next) | ok made ↦ (ok (made.1), publish made.0 next) ]

    unfoldable pub create_story :
        String
        → String
        → String
        → Option String
        → PlanningService S
        → Result String PlanningStory × PlanningService S
    unfolding publish
    create_story epic title acceptance supersedes p =
        let answer = store.create_story epic title acceptance supersedes p.store in
        let next : PlanningService S = record p { store = answer.1 } in
        elim (answer.0) [ err e ↦ (err e, next) | ok made ↦ (ok (made.1), publish made.0 next) ]
