-- ===== src/Dict.antt =====
-- A JavaScript `Map` with text keys, as an association list in the order of insertion: `set` on a
-- key that is there keeps its place.
pub mod Each
use world_wide_woo.Common.{
  ℕ, ◌+◌, String, ◌≡◌, Option, none, some, List, [], ◌∷◌, ◌is◌, if◌then◌else◌, arith, refl, subst,
  inl, inr, Bool-cases, is→≡, is_sym_false, false,
}

abbrev pub Dict {ℓ} : Type ℓ → Type ℓ
Dict V = List (String × V)

module _ {ℓ} {V : Type ℓ} where
  -- `map.delete(key)`.
  unfoldable pub remove : String → Dict V → Dict V
  remove key [] = []
  remove key ((other, w) ∷ rest) = if other is key then rest else (other, w) ∷ remove key rest

  -- `map.set(key, value)`.
  unfoldable pub insert : String → V → Dict V → Dict V
  insert key v [] = (key, v) ∷ []
  insert key v ((other, w) ∷ rest) =
      if other is key then (other, v) ∷ rest else (other, w) ∷ insert key v rest

  -- `map.get(key)`.
  unfoldable pub lookup : String → Dict V → Option V
  lookup key [] = none
  lookup key ((other, v) ∷ rest) = if other is key then some v else lookup key rest

  abbrev pub values : Dict V → List V
  values [] = []
  values ((k, v) ∷ m) = v ∷ values m

-- Sums over the values of a map.
module _ {ℓ} {V : Type ℓ} (weight : V → ℕ) where
  abbrev pub total : Dict V → ℕ
  total [] = 0
  total ((k, v) ∷ m) = weight v + total m

  abbrev pub weight_or_0 : Option V → ℕ
  weight_or_0 none = 0
  weight_or_0 (some v) = weight v

  pub total-insert :
      (k : String) (v : V) (m : Dict V)
      → total (insert k v m) + weight_or_0 (lookup k m) ≡ total m + weight v
  unfolding lookup insert
  total-insert k v [] = omega arith
  total-insert k v ((j, w) ∷ m) = ground (arith, total-insert k v m)

  pub total-remove :
      (k : String) (m : Dict V) → total (remove k m) + weight_or_0 (lookup k m) ≡ total m
  unfolding lookup remove
  total-remove k [] = omega arith
  total-remove k ((j, w) ∷ m) = ground (arith, total-remove k m)

-- Each key stands in the map once.
module _ {ℓ} {V : Type ℓ} where
  unfoldable pub HasOneEach : Dict V → Type ℓ
  unfolding lookup
  HasOneEach [] = Unit
  HasOneEach ((k, v) ∷ m) = (lookup k m ≡ none) × HasOneEach m

  lookup-remove_other :
      (j k : String) (m : Dict V) → lookup j m ≡ none → lookup j (remove k m) ≡ none
  unfolding lookup remove
  lookup-remove_other j k [] h = refl
  lookup-remove_other j k ((i, v) ∷ m) h = ground (arith, lookup-remove_other j k m)

  pub remove-HasOneEach : (k : String) (m : Dict V) → HasOneEach m → HasOneEach (remove k m)
  unfolding HasOneEach remove
  remove-HasOneEach k [] h = tt
  remove-HasOneEach k ((i, v) ∷ m) h = elim (Bool-cases (i is k)) [
    | inl here ↦ rw here h.1
    | inr later ↦ rw later (lookup-remove_other i k m h.0, remove-HasOneEach k m h.1)
  ]

  pub lookup-remove : (k : String) (m : Dict V) → HasOneEach m → lookup k (remove k m) ≡ none
  unfolding HasOneEach lookup remove
  lookup-remove k [] h = refl
  lookup-remove k ((i, v) ∷ m) h = elim (Bool-cases (i is k)) [
    | inl here ↦ rw here (subst (λ j. lookup j m ≡ none) (is→≡ i k here) h.0)
    | inr later ↦ rw (later, later) (lookup-remove k m h.1)
  ]

  lookup-insert_other :
      (j k : String) (v : V) (m : Dict V)
      → (k is j) ≡ false
      → lookup j m ≡ none
      → lookup j (insert k v m) ≡ none
  unfolding lookup insert
  lookup-insert_other j k v [] h e = rw h refl
  lookup-insert_other j k v ((i, w) ∷ m) h e = ground (arith, lookup-insert_other j k v m h)

  pub insert-HasOneEach :
      (k : String) (v : V) (m : Dict V) → HasOneEach m → HasOneEach (insert k v m)
  unfolding HasOneEach insert lookup
  insert-HasOneEach k v [] h = (refl, tt)
  insert-HasOneEach k v ((i, w) ∷ m) h = elim (Bool-cases (i is k)) [
    | inl here ↦ rw here h
    | inr later ↦
        rw later
          (lookup-insert_other i k v m (is_sym_false i k later) h.0, insert-HasOneEach k v m h.1)
  ]
