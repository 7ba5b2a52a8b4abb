-- ===== src/Planning/Chains.antt =====
-- domain/planning.ts: following `supersedes` from story to story.
use world_wide_woo.Common.{
  ℕ, zero, suc, ◌+◌, ◌≤◌, ◌<◌, ◌≡◌, refl, ap, subst, ◌∙◌, inl, inr, String, true, false, Option,
  none, some, List, [], ◌∷◌, length, find_index, includes, Distinct, ◌is◌, Result, ok, guard, ◌>>◌,
  >>=-eq-ok, Bool-cases, Option-cases, is_sym_false, map, arith, Result-cases,
}
use world_wide_woo.Planning.{
  PlanningStory, PlanningSnapshot, PlanningRuntime, PlanningError, ended, walk, story_of,
  check_target, check_supersedes, check_cycles, check_stories, check_entries, check_epics,
  validate_planning_snapshot, bad_supersedes,
}

abbrev pub id_of : PlanningStory → String
id_of s = s.id

abbrev pub get_elem? {ℓ} : {A : Type ℓ} → List A → ℕ → Option A
get_elem? [] i = none
get_elem? (x ∷ xs) zero = some x
get_elem? (x ∷ xs) (suc i) = get_elem? xs i

-- The story at an index supersedes nothing, or passes the check there.
abbrev pub Points : List PlanningStory → ℕ → PlanningStory → Option String → Type 0
Points stories index s none = Unit
Points stories index s (some target) = check_target stories index s target ≡ true

guarded :
    (stories : List PlanningStory) (index : ℕ) (s : PlanningStory) (o : Option String)
    (rest : Result PlanningError (Unit {0}))
    → (guard
          (elim o [ none ↦ true | some target ↦ check_target stories index s target ])
          bad_supersedes
        >> rest)
      ≡ ok tt
    → Points stories index s o
guarded stories index s none rest h = tt
guarded stories index s (some target) rest h = ground arith

check_supersedes-Points :
    (stories : List PlanningStory) (from : ℕ) (ss : List PlanningStory)
    → check_supersedes stories from ss ≡ ok tt
    → (k : ℕ) {s : PlanningStory} → get_elem? ss k ≡ some s
    → Points stories (from + k) s s.supersedes
unfolding check_supersedes
check_supersedes-Points stories from [] h k there = cc (there)
check_supersedes-Points stories from (t ∷ ss) h zero {s} there =
    let same : t ≡ s = cc (there) in
    let index : from ≡ from + 0 = omega arith in
    let first : Points stories from t t.supersedes = guarded stories from t t.supersedes _ h in
    subst (λ i. Points stories i s s.supersedes) index
      (subst (λ u. Points stories from u u.supersedes) same first)
check_supersedes-Points stories from (t ∷ ss) h (suc k) {s} there =
    let (u, g, rest) =
      >>=-eq-ok
        (guard
          (elim t.supersedes [ none ↦ true | some target ↦ check_target stories from t target ])
          bad_supersedes)
        _ h in
    let later = check_supersedes-Points stories (suc from) ss rest k {s = s} there in
    subst (λ i. Points stories i s s.supersedes) (omega arith) later

get_elem?-lt {ℓ} :
    {A : Type ℓ} (xs : List A) (i : ℕ) {a : A} → get_elem? xs i ≡ some a → i < length xs
get_elem?-lt [] i h = cc (h)
get_elem?-lt (x ∷ xs) zero h = omega arith
get_elem?-lt (x ∷ xs) (suc i) h = omega (arith, get_elem?-lt xs i h)

-- `find` and `findIndex` name the same story.
find-at :
    (stories : List PlanningStory) (id : String) {t : PlanningStory}
    → story_of stories id ≡ some t
    → (k : ℕ) × (find_index (λ s. s.id is id) stories ≡ some k) × (get_elem? stories k ≡ some t)
find-at [] id h = cc (h)
find-at (s ∷ ss) id {t} h = elim (Bool-cases (s.id is id)) [
  | inl here ↦ (0, rw here refl, ground arith)
  | inr later ↦
      let (k, index, there) = find-at ss id {t = t} (ground arith) in
      (suc k, rw (later, index) refl, there)
]

-- Stories at distinct places have distinct ids.
seen-below :
    (seen : List String) (ss : List PlanningStory) (k : ℕ) {s : PlanningStory}
    → Distinct seen (map id_of ss)
    → get_elem? ss k ≡ some s
    → includes seen s.id ≡ false
seen-below seen [] k d h = cc (h)
seen-below seen (t ∷ ss) zero {s} d h =
    let same : t ≡ s = cc (h) in subst (λ u. includes seen u.id ≡ false) same d.0
seen-below seen (t ∷ ss) (suc k) {s} d h =
    let later = seen-below (t.id ∷ seen) ss k {s = s} d.1 h in ground (arith, later)

earlier-differs :
    (seen : List String) (ss : List PlanningStory) (j k : ℕ) {s u : PlanningStory}
    → Distinct seen (map id_of ss)
    → j < k
    → get_elem? ss j ≡ some u
    → get_elem? ss k ≡ some s
    → (s.id is u.id) ≡ false
earlier-differs seen [] j k d lt h g = cc (h)
earlier-differs seen (t ∷ ss) j zero d lt h g = absurd (omega arith)
earlier-differs seen (t ∷ ss) zero (suc k) {s} {u} d lt h g =
    let same : t ≡ u = cc (h) in
    let later = seen-below (t.id ∷ seen) ss k {s = s} d.1 g in
    let differs : (t.id is s.id) ≡ false = ground (arith, later) in
    subst (λ v. (s.id is v.id) ≡ false) same (is_sym_false t.id s.id differs)
earlier-differs seen (t ∷ ss) (suc j) (suc k) d lt h g =
    earlier-differs (t.id ∷ seen) ss j k d.1 (omega (arith, lt)) h g

-- No story up to the index `k` is in `seen`.
abbrev pub IsAhead : List PlanningStory → List String → ℕ → Type 0
IsAhead stories seen k =
    (j : ℕ) (u : PlanningStory) → j ≤ k → get_elem? stories j ≡ some u → includes seen u.id ≡ false

module _ (stories : List PlanningStory) (distinct : Distinct [] (map id_of stories))
    (points : (k : ℕ) (s : PlanningStory)
      → get_elem? stories k ≡ some s
      → Points stories k s s.supersedes) where
  walk-nothing : (fuel : ℕ) (seen : List String) → walk stories fuel seen none ≡ ended
  unfolding walk
  walk-nothing fuel seen = refl

  -- From the story at the index `k` the walk ends in `suc k` rounds.
  walk-ends :
      (fuel k : ℕ) (seen : List String) (s : PlanningStory)
      → k < fuel
      → get_elem? stories k ≡ some s
      → IsAhead stories seen k
      → walk stories fuel seen (some s) ≡ ended
  unfolding walk check_target
  walk-ends zero k seen s h there ahead = absurd (omega arith)
  walk-ends (suc fuel) k seen s h there ahead =
      let new = ahead k s (omega arith) there in
      elim (Option-cases s.supersedes) [
        | inl last ↦ rw last refl
        | inr (target, more) ↦
            let pointed : check_target stories k s target ≡ true =
              subst (Points stories k s) more (points k s there) in
            elim (Option-cases (story_of stories target)) [
              | inl nothing ↦ rw (more, new, nothing) (walk-nothing fuel (s.id ∷ seen))
              | inr (t, found) ↦
                  let (k', index, there') = find-at stories target found in
                  let earlier : k' < k = ground (arith, pointed, found, index) in
                  let rest =
                    walk-ends fuel k' (s.id ∷ seen) t (omega (arith, earlier, h)) there'
                      (λ j u le g. ground (
                        arith,
                        ahead j u (omega (arith, le, earlier)) g,
                        earlier-differs [] stories j k {s = s} {u = u} distinct
                            (omega (arith, le, earlier)) g there,
                      )) in
                  rw (more, new, found) rest
            ]
      ]

  check_cycles-passes :
      (from : ℕ) (ss : List PlanningStory)
      → ((k : ℕ) → get_elem? stories (from + k) ≡ get_elem? ss k)
      → check_cycles stories ss ≡ ok tt
  unfolding check_cycles
  check_cycles-passes from [] h = refl
  check_cycles-passes from (s ∷ ss) h =
      let there : get_elem? stories from ≡ some s = ap (get_elem? stories) (omega arith) ∙ h 0 in
      let ends : walk stories (length stories) [] (some s) ≡ ended =
        walk-ends (length stories) from [] s (get_elem?-lt stories from there) there
          (λ j u le g. refl) in
      let rest =
        check_cycles-passes (suc from) ss (λ k. ap (get_elem? stories) (omega arith) ∙ h (suc k)) in
      rw (ends, rest) refl

check_stories-Distinct :
    (rt : PlanningRuntime) (epics seen : List String) (ss : List PlanningStory)
    → check_stories rt epics seen ss ≡ ok tt
    → Distinct seen (map id_of ss)
unfolding check_stories
check_stories-Distinct rt epics seen [] h = tt
check_stories-Distinct rt epics seen (s ∷ ss) h =
    let (u, passed, rest) = >>=-eq-ok _ (λ v. check_stories rt epics (s.id ∷ seen) ss) h in
    (
      elim (Bool-cases (includes seen s.id)) [ inr new ↦ new | inl old ↦ absurd (ground arith) ],
      check_stories-Distinct rt epics (s.id ∷ seen) ss rest,
    )

-- A snapshot that passes the first three loops passes the search for cycles: from each story the
-- walk ends, and it ends within the fuel, which is the number of stories. So a snapshot is accepted
-- exactly if the first three loops pass, and no result is an error of the search.
pub validate_planning_snapshot-check_entries :
    (rt : PlanningRuntime) (p : PlanningSnapshot)
    → validate_planning_snapshot rt p ≡ check_entries rt p
unfolding validate_planning_snapshot check_entries
validate_planning_snapshot-check_entries rt p = elim (Result-cases (check_entries rt p)) [
  | inr (e, thrown) ↦ rw thrown refl
  | inl (u, passed) ↦
      let (epics, e, stories) = >>=-eq-ok (check_epics rt [] p.epics) _ passed in
      let (v, distinct, targets) = >>=-eq-ok (check_stories rt epics [] p.stories) _ stories in
      let cycles =
        check_cycles-passes p.stories (check_stories-Distinct rt epics [] p.stories distinct)
          (λ k s there.
            subst (λ i. Points p.stories i s s.supersedes) (omega arith)
              (check_supersedes-Points p.stories 0 p.stories targets k {s = s} there))
          0 p.stories (λ k. ap (get_elem? p.stories) (omega arith)) in
      rw (passed, cycles) refl
]
