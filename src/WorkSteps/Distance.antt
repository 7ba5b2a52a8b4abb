-- ===== src/WorkSteps/Distance.antt =====
-- domain/work-steps.ts: `lev`, the edit distance that gives up above a limit, on code points.
pub mod Reference
use world_wide_woo.Common.{
  ℕ, zero, suc, ◌+◌, ◌*◌, ◌/◌, Bool, true, false, ◌&&◌, ◌||◌, List, [], ◌∷◌, length, ltb, leb, ◌==◌,
  if◌then◌else◌,
}

abbrev pub min : ℕ → ℕ → ℕ
min a b = if ltb b a then b else a

abbrev pub max : ℕ → ℕ → ℕ
max a b = if ltb a b then b else a

abbrev pub cost : ℕ → ℕ → ℕ
cost x y = if x == y then 0 else 1

-- The inner loop: the entries of the next row after `left`, under those of the previous row.
unfoldable pub scan : ℕ → ℕ → List ℕ → List ℕ → List ℕ
scan x left (y ∷ ys) (p ∷ q ∷ ps) =
    let value = min (min (left + 1) (q + 1)) (p + cost x y) in value ∷ scan x value ys (q ∷ ps)
scan x left _ _ = []

-- The row before the first letter: 0, 1, 2 and so on.
unfoldable pub first_row : ℕ → List ℕ → List ℕ
first_row n [] = n ∷ []
first_row n (y ∷ ys) = n ∷ first_row (suc n) ys

unfoldable pub minimum : ℕ → List ℕ → ℕ
minimum m [] = m
minimum m (v ∷ vs) = minimum (min m v) vs

abbrev pub last_or_0 : List ℕ → ℕ
last_or_0 [] = 0
last_or_0 (v ∷ []) = v
last_or_0 (v ∷ w ∷ vs) = last_or_0 (w ∷ vs)

-- The outer loop, from its row `i`.
unfoldable pub rows : ℕ → List ℕ → ℕ → List ℕ → List ℕ → ℕ
unfolding scan minimum
rows limit b i [] previous = last_or_0 previous
rows limit b i (x ∷ xs) previous =
    let inner = scan x (suc i) b previous in
    let rest = rows limit b (suc i) xs (suc i ∷ inner) in
    if ltb limit (minimum (suc i) inner) then limit + 1 else rest

unfoldable pub lev : List ℕ → List ℕ → ℕ → ℕ
unfolding rows first_row
lev a b limit =
    if ltb (length b + limit) (length a) || ltb (length a + limit) (length b)
    then limit + 1
    else rows limit b 0 a (first_row 0 b)

-- `Math.min(8, Math.max(1, Math.floor(maxLength * .2)))`.
abbrev pub edit_limit : ℕ → ℕ
edit_limit longer = min 8 (max 1 (longer / 5))

-- `distance <= limit && distance / maxLength <= .2`; 0 / 0 is not a number.
unfoldable pub is_edit_like : List ℕ → List ℕ → Bool
unfolding lev
is_edit_like a b =
    let longer = max (length a) (length b) in
    let distance = lev a b (edit_limit longer) in
    leb distance (edit_limit longer) && ltb 0 longer && leb (5 * distance) longer
