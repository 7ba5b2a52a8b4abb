-- ===== src/Tests/Catalogs.antt =====
-- A planning service with two listeners, over a store that a failure leaves as it is.
use world_wide_woo.Common.{◌≡◌, refl, none, List, [], ◌∷◌, ok, err}
use world_wide_woo.Planning.{PlanningSnapshot}
use world_wide_woo.PlanningService.{PlanningCatalogStore, PlanningService}
use world_wide_woo.PlanningService.Telling.{
  IsInformed, Call, subscribes, unsubscribes, rereads, creates_epic, after, after-IsInformed,
}

abbrev catalog_of_kept : PlanningCatalogStore PlanningSnapshot
catalog_of_kept = record {
  read = λ s. (ok s, s);
  create_epic = λ title goal s. (err "catalog is locked", s);
  create_story = λ epic title acceptance supersedes s. (err "catalog is locked", s);
}

abbrev fresh_service : PlanningSnapshot → PlanningService PlanningSnapshot
fresh_service s = record { snapshot = none; listeners = []; told = []; store = s }

fresh_service-IsInformed : (s : PlanningSnapshot) → IsInformed (fresh_service s)
fresh_service-IsInformed s l t here same = cc (same)

abbrev some_calls : List Call
some_calls =
    subscribes 1
    ∷ rereads
    ∷ subscribes 2
    ∷ creates_epic "title" "goal"
    ∷ unsubscribes 1
    ∷ rereads
    ∷ []

abbrev no_plans : PlanningSnapshot
no_plans = record { revision = 0; epics = []; stories = [] }

after_told :
    (after catalog_of_kept some_calls (fresh_service no_plans)).told
    ≡ (2, no_plans) ∷ (2, no_plans) ∷ (1, no_plans) ∷ []
unfolding after
after_told = refl

after-IsInformed_example : IsInformed (after catalog_of_kept some_calls (fresh_service no_plans))
after-IsInformed_example =
    after-IsInformed catalog_of_kept some_calls (fresh_service no_plans)
      (fresh_service-IsInformed no_plans)
