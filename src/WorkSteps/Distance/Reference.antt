-- ===== src/WorkSteps/Distance/Reference.antt =====
-- domain/work-steps.ts: `lev` against the recursive definition of the edit distance.
use world_wide_woo.Common.{
  ℕ, suc, ◌+◌, ◌≤◌, ◌<◌, ◌≡◌, refl, sym, ap, subst, List, [], ◌∷◌, length, ltb, if◌then◌else◌, All,
  arith, ◌||◌, Bool-cases, inl, inr,
}
use world_wide_woo.WorkSteps.Distance.{min, cost, scan, first_row, minimum, last_or_0, rows, lev}

-- The fewest insertions, deletions and replacements between two words, read from their ends.
unfoldable pub distance : List ℕ → List ℕ → ℕ
distance [] b = length b
distance (x ∷ a) [] = suc (length a)
distance (x ∷ a) (y ∷ b) =
    min (min (distance (x ∷ a) b + 1) (distance a (y ∷ b) + 1)) (distance a b + cost x y)

abbrev pub reverse_onto : List ℕ → List ℕ → List ℕ
reverse_onto [] b = b
reverse_onto (y ∷ ys) b = reverse_onto ys (y ∷ b)

-- The row of `a` after the column of `b`.
row : List ℕ → List ℕ → List ℕ → List ℕ
row a b [] = []
row a b (y ∷ ys) = distance a (y ∷ b) ∷ row a (y ∷ b) ys

distance_nil : (a : List ℕ) → distance a [] ≡ length a
unfolding distance
distance_nil [] = refl
distance_nil (x ∷ a) = refl

scan-row :
    (x : ℕ) (a b ys : List ℕ)
    → scan x (distance (x ∷ a) b) ys (distance a b ∷ row a b ys) ≡ row (x ∷ a) b ys
unfolding scan row distance
scan-row x a b [] = refl
scan-row x a b (y ∷ ys) = ap (λ r. distance (x ∷ a) (y ∷ b) ∷ r) (scan-row x a (y ∷ b) ys)

first_row-row : (b ys : List ℕ) → first_row (length b) ys ≡ length b ∷ row [] b ys
unfolding first_row row distance
first_row-row b [] = refl
first_row-row b (y ∷ ys) = ap (λ r. length b ∷ r) (first_row-row (y ∷ b) ys)

-- The last entry of a row.
last-row :
    (a b ys : List ℕ) → last_or_0 (distance a b ∷ row a b ys) ≡ distance a (reverse_onto ys b)
unfolding row
last-row a b [] = refl
last-row a b (y ∷ ys) = last-row a (y ∷ b) ys

minimum_bound :
    (limit m : ℕ) (vs : List ℕ) → limit < minimum m vs → (limit < m) × All (λ v. limit < v) vs
unfolding minimum
minimum_bound limit m [] h = (h, tt)
minimum_bound limit m (v ∷ vs) h =
    let k = minimum_bound limit (min m v) vs h in (ground (arith, k.0), (ground (arith, k.0), k.1))

-- Where all of a row is above the limit, so is all of the next one.
rises :
    (limit x : ℕ) (a b ys : List ℕ)
    → limit < distance a b
    → limit < distance (x ∷ a) b
    → All (λ v. limit < v) (row a b ys)
    → All (λ v. limit < v) (row (x ∷ a) b ys)
unfolding row
rises limit x a b [] h k all = tt
rises limit x a b (y ∷ ys) h k all =
    let here : limit < distance (x ∷ a) (y ∷ b) = unfold distance in ground (arith, h, k, all.0) in
    (here, rises limit x a (y ∷ b) ys all.0 here all.1)

All-last :
    (limit m : ℕ) (vs : List ℕ) → limit < m → All (λ v. limit < v) vs → limit < last_or_0 (m ∷ vs)
All-last limit m [] h k = h
All-last limit m (v ∷ vs) h k = All-last limit v vs k.0 k.1

stays :
    (limit : ℕ) (xs a ys : List ℕ)
    → limit < length a
    → All (λ v. limit < v) (row a [] ys)
    → limit < distance (reverse_onto xs a) (reverse_onto ys [])
stays limit [] a ys h k =
    subst (λ n. limit < n) (last-row a [] ys)
      (All-last limit (distance a []) (row a [] ys) (rw (distance_nil a) h) k)
stays limit (x ∷ xs) a ys h k =
    stays limit xs (x ∷ a) ys (omega (arith, h)) (
      rises limit x a [] ys (rw (distance_nil a) h) (rw (distance_nil (x ∷ a)) (omega (arith, h)))
        k)

-- What the loops return for a distance: the distance itself up to the limit, above it something above.
abbrev pub IsCapped : ℕ → ℕ → ℕ → Type 0
IsCapped limit d n = (d ≤ limit → n ≡ d) × (limit < d → limit < n)

IsCapped-row :
    (limit D : ℕ) (b xs a : List ℕ) (x : ℕ) (rest : ℕ)
    → D ≡ distance (reverse_onto xs (x ∷ a)) (reverse_onto b [])
    → IsCapped limit D rest
    → IsCapped limit D
        (if ltb limit (minimum (suc (length a)) (row (x ∷ a) [] b)) then limit + 1 else rest)
IsCapped-row limit D b xs a x rest e h =
    elim (Bool-cases (ltb limit (minimum (suc (length a)) (row (x ∷ a) [] b)))) [
      | inr go_on ↦ rw go_on h
      | inl give_up ↦
          let k = minimum_bound limit (suc (length a)) (row (x ∷ a) [] b) (ground arith) in
          let far : limit < D = subst (λ n. limit < n) (sym e) (stays limit xs (x ∷ a) b k.0 k.1) in
          rw give_up (λ near. absurd (omega (arith, far, near)), λ _. omega arith)
    ]

rows-IsCapped :
    (limit : ℕ) (b xs a : List ℕ)
    → IsCapped limit
        (distance (reverse_onto xs a) (reverse_onto b []))
        (rows limit b (length a) xs (distance a [] ∷ row a [] b))
unfolding rows distance
rows-IsCapped limit b [] a =
    let e = last-row a [] b in (λ h. e, λ h. subst (λ n. limit < n) (sym e) h)
rows-IsCapped limit b (x ∷ xs) a =
    let inner : scan x (suc (length a)) b (distance a [] ∷ row a [] b) ≡ row (x ∷ a) [] b =
      unfold distance in scan-row x a [] b in
    let rest : IsCapped limit (distance (reverse_onto xs (x ∷ a)) (reverse_onto b []))
        (rows limit b (suc (length a)) xs (suc (length a) ∷ row (x ∷ a) [] b)) =
      rw (sym (distance_nil (x ∷ a))) (rows-IsCapped limit b xs (x ∷ a)) in
    rw inner (IsCapped-row limit _ b xs a x _ refl rest)

distance_lower :
    (a b : List ℕ) → (length a ≤ length b + distance a b) × (length b ≤ length a + distance a b)
unfolding distance
distance_lower [] b = (omega arith, omega arith)
distance_lower (x ∷ a) [] = (omega arith, omega arith)
distance_lower (x ∷ a) (y ∷ b) =
    let p = distance_lower (x ∷ a) b in
    let q = distance_lower a (y ∷ b) in
    let r = distance_lower a b in (ground (arith, p.0, q.0, r.0), ground (arith, p.1, q.1, r.1))

length-reverse_onto : (xs a : List ℕ) → length (reverse_onto xs a) ≡ length xs + length a
length-reverse_onto [] a = omega arith
length-reverse_onto (x ∷ xs) a = omega (arith, length-reverse_onto xs (x ∷ a))

-- The distance between two words.
abbrev pub edit_distance : List ℕ → List ℕ → ℕ
edit_distance a b = distance (reverse_onto a []) (reverse_onto b [])

-- The loops of `lev` return the edit distance where it is at most the limit, and something above the
-- limit where it is not.
pub lev-IsCapped : (a b : List ℕ) (limit : ℕ) → IsCapped limit (edit_distance a b) (lev a b limit)
unfolding lev distance
lev-IsCapped a b limit =
    elim (Bool-cases (ltb (length b + limit) (length a) || ltb (length a + limit) (length b))) [
      | inr near ↦ rw near (
          let start : first_row 0 b ≡ 0 ∷ row [] [] b = first_row-row [] b in
          rw start (rows-IsCapped limit b a []))
      | inl apart ↦
          let low = distance_lower (reverse_onto a []) (reverse_onto b []) in
          let far : limit < edit_distance a b =
            ground
              (arith, apart, low.0, low.1, length-reverse_onto a [], length-reverse_onto b []) in
          rw apart (λ h. absurd (omega (arith, far, h)), λ _. omega arith)
    ]
