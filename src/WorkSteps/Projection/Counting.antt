-- ===== src/WorkSteps/Projection/Counting.antt =====
-- domain/work-steps.ts: the steps of one status, and the first of them, as a description apart from the
-- loops of a projection.
use world_wide_woo.Common.{
  ℕ, suc, ◌+◌, ◌≡◌, refl, ap, inl, inr, Bool, true, false, Option, none, some, List, [], ◌∷◌, ◌++◌,
  count, find, length, arith, subst, ◌⊎◌,
}
use world_wide_woo.Ledger.Native.{WorkStepStatus, pending, running, completed, failed, cancelled}
use world_wide_woo.WorkSteps.Views.{SemanticWorkStep}
use world_wide_woo.WorkSteps.Projection.{is_completed, is_running_step, is_pending_step}

-- As many of the steps as `n` have this status.
pub data HaveStatus (status : WorkStepStatus) : List SemanticWorkStep → ℕ → Type 0 where
  no_steps : HaveStatus status [] 0
  one_has :
      {s : SemanticWorkStep} {ss : List SemanticWorkStep} {n : ℕ}
      → s.status ≡ status
      → HaveStatus status ss n
      → HaveStatus status (s ∷ ss) (suc n)
  one_has_not :
      {s : SemanticWorkStep} {ss : List SemanticWorkStep} {n : ℕ}
      → ¬ (s.status ≡ status)
      → HaveStatus status ss n
      → HaveStatus status (s ∷ ss) n

-- The number is the place of the first step of this status.
pub record IsFirst (status : WorkStepStatus) (ss : List SemanticWorkStep) (n : ℕ) : Type 0 where
  pub before : List SemanticWorkStep
  pub rest : List SemanticWorkStep
  pub step : SemanticWorkStep
  pub split : ss ≡ before ++ (step ∷ rest)
  pub place : n ≡ length before + 1
  pub has : step.status ≡ status
  pub first : HaveStatus status before 0

-- The current step is the first that runs, else the first that is pending, else there is none.
pub data IsCurrent (ss : List SemanticWorkStep) : Option ℕ → Type 0 where
  runs : {n : ℕ} → IsFirst running ss n → IsCurrent ss (some n)
  waits : {n : ℕ} → HaveStatus running ss 0 → IsFirst pending ss n → IsCurrent ss (some n)
  all_done : HaveStatus running ss 0 → HaveStatus pending ss 0 → IsCurrent ss none

-- A test on steps that a status decides.
abbrev pub Tests : (SemanticWorkStep → Bool) → WorkStepStatus → Type 0
Tests p status =
    (s : SemanticWorkStep)
    → ((p s ≡ true) × (s.status ≡ status)) ⊎ ((p s ≡ false) × ¬ (s.status ≡ status))

-- The same of a test on statuses.
abbrev Decides : (WorkStepStatus → Bool) → WorkStepStatus → Type 0
Decides p status =
    (t : WorkStepStatus) → ((p t ≡ true) × (t ≡ status)) ⊎ ((p t ≡ false) × ¬ (t ≡ status))

completed-Decides : Decides (λ t. elim t [ completed ↦ true | _ ↦ false ]) completed
completed-Decides pending = inr (refl, λ h. cc (h))
completed-Decides running = inr (refl, λ h. cc (h))
completed-Decides completed = inl (refl, refl)
completed-Decides failed = inr (refl, λ h. cc (h))
completed-Decides cancelled = inr (refl, λ h. cc (h))

pub completed-Tests : Tests is_completed completed
completed-Tests s = completed-Decides s.status

running-Decides : Decides (λ t. elim t [ running ↦ true | _ ↦ false ]) running
running-Decides pending = inr (refl, λ h. cc (h))
running-Decides running = inl (refl, refl)
running-Decides completed = inr (refl, λ h. cc (h))
running-Decides failed = inr (refl, λ h. cc (h))
running-Decides cancelled = inr (refl, λ h. cc (h))

pub running-Tests : Tests is_running_step running
running-Tests s = running-Decides s.status

pending-Decides : Decides (λ t. elim t [ pending ↦ true | _ ↦ false ]) pending
pending-Decides pending = inl (refl, refl)
pending-Decides running = inr (refl, λ h. cc (h))
pending-Decides completed = inr (refl, λ h. cc (h))
pending-Decides failed = inr (refl, λ h. cc (h))
pending-Decides cancelled = inr (refl, λ h. cc (h))

pub pending-Tests : Tests is_pending_step pending
pending-Tests s = pending-Decides s.status

-- The steps are numbered from `n` on.
abbrev pub AreNumbered : ℕ → List SemanticWorkStep → Type 0
AreNumbered n [] = Unit
AreNumbered n (s ∷ ss) = (s.number ≡ n) × AreNumbered (suc n) ss

module _ (p : SemanticWorkStep → Bool) (status : WorkStepStatus) (tests : Tests p status) where
  pub count-HaveStatus : (ss : List SemanticWorkStep) → HaveStatus status ss (count p ss)
  count-HaveStatus [] = no_steps
  count-HaveStatus (s ∷ ss) = elim (tests s) [
    | inl (passes, same) ↦
        subst (HaveStatus status (s ∷ ss)) (ground (arith, passes))
          (one_has same (count-HaveStatus ss))
    | inr (fails, other) ↦
        subst (HaveStatus status (s ∷ ss)) (ground (arith, fails))
          (one_has_not other (count-HaveStatus ss))
  ]

  pub find-HaveStatus : (ss : List SemanticWorkStep) → find p ss ≡ none → HaveStatus status ss 0
  find-HaveStatus [] h = no_steps
  find-HaveStatus (s ∷ ss) h = elim (tests s) [
    | inl (passes, same) ↦ absurd (ground (arith, passes, h))
    | inr (fails, other) ↦ one_has_not other (find-HaveStatus ss (ground (arith, fails, h)))
  ]

  -- The step that is found among steps numbered from `n` on, and those before it.
  record Found (n : ℕ) (ss : List SemanticWorkStep) (s : SemanticWorkStep) : Type 0 where
    before : List SemanticWorkStep
    rest : List SemanticWorkStep
    split : ss ≡ before ++ (s ∷ rest)
    place : s.number ≡ length before + n
    has : s.status ≡ status
    first : HaveStatus status before 0

  find-Found :
      (n : ℕ) (ss : List SemanticWorkStep) (s : SemanticWorkStep)
      → AreNumbered n ss
      → find p ss ≡ some s
      → Found n ss s
  find-Found n [] s numbered h = cc (h)
  find-Found n (t ∷ ss) s numbered h = elim (tests t) [
    | inl (passes, same) ↦
        let e : t ≡ s = ground (arith, passes, h) in
        record {
          before = [];
          rest = ss;
          split = ap (λ x. x ∷ ss) e;
          place = omega (arith, ap (λ (x : SemanticWorkStep). x.number) e, numbered.0);
          has = subst (λ (x : SemanticWorkStep). x.status ≡ status) e same;
          first = no_steps;
        }
    | inr (fails, other) ↦
        let f = find-Found (suc n) ss s numbered.1 (ground (arith, fails, h)) in
        record {
          before = t ∷ f.before;
          rest = f.rest;
          split = ap (λ xs. t ∷ xs) f.split;
          place = omega (arith, f.place);
          has = f.has;
          first = one_has_not other f.first;
        }
  ]

  pub find-IsFirst :
      (ss : List SemanticWorkStep) (s : SemanticWorkStep)
      → AreNumbered 1 ss
      → find p ss ≡ some s
      → IsFirst status ss s.number
  find-IsFirst ss s numbered h =
      let f = find-Found 1 ss s numbered h in
      record {
        before = f.before;
        rest = f.rest;
        step = s;
        split = f.split;
        place = f.place;
        has = f.has;
        first = f.first;
      }
