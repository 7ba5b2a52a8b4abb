-- ===== src/Dict/Each.antt =====
-- Maps each of whose entries has a property.
use world_wide_woo.Common.{
  ◌≡◌, sym, subst, inl, inr, String, some, [], ◌∷◌, ◌is◌, is→≡, Bool-cases, arith,
}
use world_wide_woo.Dict.{Dict, lookup, insert}

-- What holds of each entry of a map.
module _ {V : Type 0} (Q : String → V → Type 0) where
  unfoldable pub Each : Dict V → Type 0
  Each [] = Unit
  Each ((k, v) ∷ m) = Q k v × Each m

  pub insert-Each : (k : String) (v : V) (m : Dict V) → Each m → Q k v → Each (insert k v m)
  unfolding Each insert
  insert-Each k v [] h q = (q, tt)
  insert-Each k v ((j, w) ∷ m) h q = elim (Bool-cases (j is k)) [
    | inl here ↦ rw here (subst (λ i. Q i v) (sym (is→≡ j k here)) q, h.1)
    | inr later ↦ rw later (h.0, insert-Each k v m h.1 q)
  ]

  pub lookup-Each : (k : String) (m : Dict V) {v : V} → Each m → lookup k m ≡ some v → Q k v
  unfolding Each lookup
  lookup-Each k [] h e = cc (e)
  lookup-Each k ((j, w) ∷ m) {v} h e = elim (Bool-cases (j is k)) [
    | inl here ↦
        let same : w ≡ v = ground (arith, here, e) in
        subst (λ i. Q i v) (is→≡ j k here) (subst (Q j) same h.0)
    | inr later ↦ lookup-Each k m h.1 (ground (arith, later, e))
  ]
