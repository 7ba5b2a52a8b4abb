-- ===== src/Ledger/Plans/Placing.antt =====
-- application/todo-ledger.ts: the place at which `add` puts a new item.
use world_wide_woo.Common.{
  ℕ, zero, suc, ◌+◌, ◌≤◌, ◌≡◌, refl, ap, Bool, true, not, List, [], ◌∷◌, ◌++◌, map, length,
  length-map, length-append, take, subst, sym, count, find_index, none, some, Option-cases,
  Bool-cases, inl, inr, arith,
}
use world_wide_woo.Todo.{TodoItem}
use world_wide_woo.Ledger.Plans.{
  Placement, now, after, item_active?, item_done, put_back, insertion,
}

-- The first element that passes, with those before it; or none does.
pub record FirstAt {ℓ} {A : Type ℓ} (p : A → Bool) (xs : List A) (k : ℕ) : Type ℓ where
  pub before : List A
  pub it : A
  pub rest : List A
  pub split : xs ≡ before ++ (it ∷ rest)
  pub passes : p it ≡ true
  pub first : count p before ≡ 0
  pub place : length before ≡ k

find_index-FirstAt {ℓ} :
    {A : Type ℓ} (p : A → Bool) (xs : List A) (k : ℕ) → find_index p xs ≡ some k → FirstAt p xs k
find_index-FirstAt p [] k h = absurd (cc (h))
find_index-FirstAt p (x ∷ xs) k h = elim (Bool-cases (p x)) [
  | inl here ↦ record {
    before = [];
    it = x;
    rest = xs;
    split = refl;
    passes = here;
    first = refl;
    place = ground (arith, here, h);
  }
  | inr later ↦ elim (Option-cases (find_index p xs)) [
    | inl nowhere ↦ absurd (ground (arith, later, nowhere, h))
    | inr (j, found) ↦
        let f = find_index-FirstAt p xs j found in
        record {
          before = x ∷ f.before;
          it = f.it;
          rest = f.rest;
          split = ap (λ ys. x ∷ ys) f.split;
          passes = f.passes;
          first = ground (arith, later, f.first);
          place = ground (arith, later, found, h, f.place);
        }
  ]
]

find_index-none {ℓ} :
    {A : Type ℓ} (p : A → Bool) (xs : List A) → find_index p xs ≡ none → count p xs ≡ 0
find_index-none p [] h = refl
find_index-none p (x ∷ xs) h = elim (Bool-cases (p x)) [
  | inl here ↦ absurd (ground (arith, here, h))
  | inr later ↦ elim (Option-cases (find_index p xs)) [
    | inl nowhere ↦ ground (arith, later, find_index-none p xs nowhere)
    | inr (j, found) ↦ absurd (ground (arith, later, found, h))
  ]
]

abbrev pub is_open : TodoItem → Bool
is_open i = not (item_done i)

-- Putting the active item back opens and closes nothing.
open_put_back :
    (items : List TodoItem)
    → find_index is_open (map (put_back now) items) ≡ find_index is_open items
open_put_back [] = refl
open_put_back (i ∷ items) = ground (arith, open_put_back items)

-- For after: behind the first active item, or at the end where none is active. For now: before the
-- first active item; where none is active, before the first that is not completed, or at the end.
pub data IsPlace (items : List TodoItem) : Placement → ℕ → Type 0 where
  behind_active : {k : ℕ} → FirstAt item_active? items k → IsPlace items after (k + 1)
  behind_all : count item_active? items ≡ 0 → IsPlace items after (length items)
  at_active : {k : ℕ} → FirstAt item_active? items k → IsPlace items now k
  at_open : {k : ℕ} → count item_active? items ≡ 0 → FirstAt is_open items k → IsPlace items now k
  at_end : count item_active? items ≡ 0 → count is_open items ≡ 0 → IsPlace items now (length items)

insertion-IsPlace :
    (placement : Placement) (items : List TodoItem)
    → IsPlace items placement (insertion placement items (map (put_back placement) items))
unfolding insertion
insertion-IsPlace after items = elim (Option-cases (find_index item_active? items)) [
  | inr (k, found) ↦
      rw (insertion, found) (behind_active (find_index-FirstAt item_active? items k found))
  | inl nowhere ↦
      rw (insertion, nowhere, length-map (put_back after) items)
        (behind_all (find_index-none item_active? items nowhere))
]
insertion-IsPlace now items = elim (Option-cases (find_index item_active? items)) [
  | inr (k, found) ↦
      rw (insertion, found) (at_active (find_index-FirstAt item_active? items k found))
  | inl nowhere ↦
      let idle = find_index-none item_active? items nowhere in
      elim (Option-cases (find_index is_open items)) [
        | inr (k, found) ↦
            rw (insertion, nowhere, open_put_back items, found)
              (at_open idle (find_index-FirstAt is_open items k found))
        | inl closed ↦
            rw (insertion, nowhere, open_put_back items, closed, length-map (put_back now) items)
              (at_end idle (find_index-none is_open items closed))
      ]
]

FirstAt-lt {ℓ} :
    {A : Type ℓ} (p : A → Bool) (xs : List A) (k : ℕ) → FirstAt p xs k → k + 1 ≤ length xs
FirstAt-lt p xs k f =
    omega (arith, f.place, ap length f.split, length-append f.before (f.it ∷ f.rest))

IsPlace-le :
    (items : List TodoItem) (placement : Placement) (k : ℕ)
    → IsPlace items placement k
    → k ≤ length items
IsPlace-le items after _ (behind_active {k} f) = FirstAt-lt item_active? items k f
IsPlace-le items after _ (behind_all idle) = omega arith
IsPlace-le items now k (at_active f) = omega (arith, FirstAt-lt item_active? items k f)
IsPlace-le items now k (at_open idle f) = omega (arith, FirstAt-lt is_open items k f)
IsPlace-le items now _ (at_end idle closed) = omega arith

length-take {ℓ} : {A : Type ℓ} (k : ℕ) (xs : List A) → k ≤ length xs → length (take k xs) ≡ k
length-take zero xs h = refl
length-take (suc k) [] h = absurd (omega arith)
length-take (suc k) (x ∷ xs) h = ap suc (length-take k xs (omega arith))

pub take-IsPlace :
    (placement : Placement) (items : List TodoItem)
    → IsPlace items placement (
        length (
          take
            (insertion placement items (map (put_back placement) items))
            (map (put_back placement) items)))
take-IsPlace placement items =
    let put = map (put_back placement) items in
    let k = insertion placement items put in
    let place = insertion-IsPlace placement items in
    let short = IsPlace-le items placement k place in
    subst (IsPlace items placement)
      (sym (length-take k put (omega (arith, short, length-map (put_back placement) items)))) place
