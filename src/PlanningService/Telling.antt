-- ===== src/PlanningService/Telling.antt =====
-- application/planning-service.ts: what the listeners know after any calls.
use world_wide_woo.Common.{
  ℕ, ◌≡◌, refl, subst, ◌∙◌, inl, inr, String, true, false, ◌||◌, Option, none, some, List, [], ◌∷◌,
  ◌++◌, any, ◌==◌, if◌then◌else◌, Result-cases, Bool-cases, arith,
}
use world_wide_woo.Planning.{PlanningSnapshot}
use world_wide_woo.PlanningService.{
  PlanningCatalogStore, PlanningService, notify_all, without, publish, listens, announce, added,
  subscribe, unsubscribe, read_snapshot, create_epic, create_story,
}

-- What a listener was told last.
abbrev pub last_told : ℕ → List (ℕ × PlanningSnapshot) → Option PlanningSnapshot
last_told l [] = none
last_told l ((k, s) ∷ told) = if k == l then some s else last_told l told

notify_all-other :
    (ls : List ℕ) (s : PlanningSnapshot) (told : List (ℕ × PlanningSnapshot)) (l : ℕ)
    → last_told l told ≡ some s
    → last_told l (notify_all ls s told) ≡ some s
unfolding notify_all
notify_all-other [] s told l h = h
notify_all-other (k ∷ ls) s told l h =
    notify_all-other ls s ((k, s) ∷ told) l
      (elim (Bool-cases (k == l)) [ inl same ↦ rw same refl | inr other ↦ rw other h ])

notify_all-tells :
    (ls : List ℕ) (s : PlanningSnapshot) (told : List (ℕ × PlanningSnapshot)) (l : ℕ)
    → any (λ k. k == l) ls ≡ true
    → last_told l (notify_all ls s told) ≡ some s
unfolding notify_all
notify_all-tells [] s told l h = cc (h)
notify_all-tells (k ∷ ls) s told l h = elim (Bool-cases (k == l)) [
  | inl same ↦ notify_all-other ls s ((k, s) ∷ told) l (rw same refl)
  | inr other ↦ notify_all-tells ls s ((k, s) ∷ told) l (ground (arith, h, other))
]

any-append :
    (l : ℕ) (xs ys : List ℕ)
    → any (λ k. k == l) (xs ++ ys) ≡ (any (λ k. k == l) xs || any (λ k. k == l) ys)
any-append l [] ys = refl
any-append l (x ∷ xs) ys = ground (arith, any-append l xs ys)

any-without :
    (l k : ℕ) (ks : List ℕ) → any (λ j. j == l) (without k ks) ≡ true → any (λ j. j == l) ks ≡ true
unfolding without
any-without l k [] h = h
any-without l k (j ∷ ks) h = ground (arith, h, any-without l k ks)

-- Who listens was told the present snapshot last.
abbrev pub IsInformed : {S : Type 0} → PlanningService S → Type 0
IsInformed p =
    (l : ℕ) (s : PlanningSnapshot)
    → listens l p ≡ true
    → p.snapshot ≡ some s
    → last_told l p.told ≡ some s

-- Calls of the service.
pub data Call : Type 0 where
  subscribes unsubscribes : ℕ → Call
  rereads : Call
  creates_epic : String → String → Call
  creates_story : String → String → String → Option String → Call

module _ {S : Type 0} where
  publish-IsInformed : (s : PlanningSnapshot) (p : PlanningService S) → IsInformed (publish s p)
  unfolding publish
  publish-IsInformed s p l t here same =
      let e : s ≡ t = cc (same) in
      subst (λ u. last_told l (notify_all p.listeners s p.told) ≡ some u) e
        (notify_all-tells p.listeners s p.told l here)

  any-added :
      (l k : ℕ) (p : PlanningService S)
      → any (λ j. j == k) (added l p) ≡ true
      → (l == k) ≡ false
      → listens k p ≡ true
  any-added l k p h other = elim (Bool-cases (listens l p)) [
    | inl there ↦ ground (arith, h, there)
    | inr new ↦ ground (arith, h, new, other, any-append k p.listeners (l ∷ []))
  ]

  announce-IsInformed :
      (o : Option PlanningSnapshot) (l : ℕ) (p : PlanningService S)
      → o ≡ p.snapshot
      → IsInformed p
      → IsInformed (announce o l (record p { listeners = added l p }))
  announce-IsInformed none l p e h k s here same = cc (e, same)
  announce-IsInformed (some t) l p e h k s here same = elim (Bool-cases (l == k)) [
    | inl itself ↦ rw itself (e ∙ same)
    | inr other ↦ rw other (h k s (any-added l k p here other) same)
  ]

  subscribe-IsInformed : (l : ℕ) (p : PlanningService S) → IsInformed p → IsInformed (subscribe l p)
  unfolding subscribe
  subscribe-IsInformed l p h = announce-IsInformed p.snapshot l p refl h

  unsubscribe-IsInformed :
      (l : ℕ) (p : PlanningService S) → IsInformed p → IsInformed (unsubscribe l p)
  unfolding unsubscribe
  unsubscribe-IsInformed l p h k s here same = h k s (any-without k l p.listeners here) same

  module _ (store : PlanningCatalogStore S) where
    unfoldable pub step : Call → PlanningService S → PlanningService S
    unfolding subscribe unsubscribe read_snapshot create_epic create_story
    step (subscribes l) p = subscribe l p
    step (unsubscribes l) p = unsubscribe l p
    step rereads p = (read_snapshot store p).1
    step (creates_epic title goal) p = (create_epic store title goal p).1
    step (creates_story epic title acceptance supersedes) p =
        (create_story store epic title acceptance supersedes p).1

    unfoldable pub after : List Call → PlanningService S → PlanningService S
    unfolding step
    after [] p = p
    after (c ∷ calls) p = after calls (step c p)

    read-IsInformed : (p : PlanningService S) → IsInformed p → IsInformed (read_snapshot store p).1
    unfolding read_snapshot
    read-IsInformed p h =
        let answer = store.read p.store in
        elim (Result-cases answer.0) [
          | inr (e, failed) ↦ rw (read_snapshot, failed) h
          | inl (s, returned) ↦
              rw (read_snapshot, returned) (publish-IsInformed s (record p { store = answer.1 }))
        ]

    epic-IsInformed :
        (title goal : String) (p : PlanningService S)
        → IsInformed p
        → IsInformed (create_epic store title goal p).1
    unfolding create_epic
    epic-IsInformed title goal p h =
        let answer = store.create_epic title goal p.store in
        elim (Result-cases answer.0) [
          | inr (e, failed) ↦ rw (create_epic, failed) h
          | inl (made, returned) ↦
              rw (create_epic, returned) (publish-IsInformed made.0 (record p { store = answer.1 }))
        ]

    story-IsInformed :
        (epic title acceptance : String) (supersedes : Option String) (p : PlanningService S)
        → IsInformed p
        → IsInformed (create_story store epic title acceptance supersedes p).1
    unfolding create_story
    story-IsInformed epic title acceptance supersedes p h =
        let answer = store.create_story epic title acceptance supersedes p.store in
        elim (Result-cases answer.0) [
          | inr (e, failed) ↦ rw (create_story, failed) h
          | inl (made, returned) ↦
              rw (create_story, returned)
                (publish-IsInformed made.0 (record p { store = answer.1 }))
        ]

    -- From a service whose listeners were told its snapshot last, any calls, whether the store answers
    -- or throws, lead to one whose listeners were told its snapshot last.
    pub after-IsInformed :
        (calls : List Call) (p : PlanningService S) → IsInformed p → IsInformed (after calls p)
    unfolding after
    after-IsInformed [] p h = h
    after-IsInformed (subscribes l ∷ calls) p h =
        after-IsInformed calls (subscribe l p) (subscribe-IsInformed l p h)
    after-IsInformed (unsubscribes l ∷ calls) p h =
        after-IsInformed calls (unsubscribe l p) (unsubscribe-IsInformed l p h)
    after-IsInformed (rereads ∷ calls) p h =
        after-IsInformed calls (read_snapshot store p).1 (read-IsInformed p h)
    after-IsInformed (creates_epic title goal ∷ calls) p h =
        after-IsInformed calls (create_epic store title goal p).1 (epic-IsInformed title goal p h)
    after-IsInformed (creates_story epic title acceptance supersedes ∷ calls) p h =
        after-IsInformed calls (create_story store epic title acceptance supersedes p).1
          (story-IsInformed epic title acceptance supersedes p h)
