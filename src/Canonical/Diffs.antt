-- ===== src/Canonical/Diffs.antt =====
-- domain/canonical-document.ts: the diff that a person approves, and the two texts.
use mathlib.Core.List.{reverse, reverse-append, reverse-reverse}
use world_wide_woo.Common.{
  ℕ, zero, suc, String, ◌≡◌, refl, sym, ap, ◌∙◌, List, [], ◌∷◌, ◌++◌, take, drop, length, ◌is◌,
  is→≡, Bool-cases, inl, inr,
}
use world_wide_woo.Canonical.{common, drop_last, Region, region}

-- Two texts as the lines around a region, which they share, and the region's own.
pub record Splits (xs ys : List String) (r : Region) : Type 0 where
  pub above : List String
  pub below : List String
  pub place : length above ≡ r.start
  pub before : xs ≡ above ++ (r.removed ++ below)
  pub after : ys ≡ above ++ (r.added ++ below)

take-drop {ℓ} : {A : Type ℓ} (n : ℕ) (xs : List A) → take n xs ++ drop n xs ≡ xs
take-drop zero xs = refl
take-drop (suc n) [] = refl
take-drop (suc n) (x ∷ xs) = ap (λ ys. x ∷ ys) (take-drop n xs)

take-common : (xs ys : List String) → take (common xs ys) xs ≡ take (common xs ys) ys
unfolding common
take-common [] ys = refl
take-common (x ∷ xs) [] = refl
take-common (x ∷ xs) (y ∷ ys) = elim (Bool-cases (x is y)) [
  | inl same ↦ rw same (cc (is→≡ x y same, take-common xs ys))
  | inr other ↦ rw other refl
]

length-take-common : (xs ys : List String) → length (take (common xs ys) xs) ≡ common xs ys
unfolding common
length-take-common [] ys = refl
length-take-common (x ∷ xs) [] = refl
length-take-common (x ∷ xs) (y ∷ ys) = elim (Bool-cases (x is y)) [
  | inl same ↦ rw same (ap suc (length-take-common xs ys))
  | inr other ↦ rw other refl
]

drop_last-append {ℓ} :
    {A : Type ℓ} (n : ℕ) (xs : List A) → drop_last n xs ++ reverse (take n (reverse xs)) ≡ xs
drop_last-append n xs =
    sym (reverse-append (take n (reverse xs)) (drop n (reverse xs)))
    ∙ ap reverse (take-drop n (reverse xs))
    ∙ reverse-reverse xs

-- The two texts are the same lines around what the diff shows as removed and as added, and the line
-- number of the diff is where these begin.
pub region-Splits : (xs ys : List String) → Splits xs ys (region xs ys)
unfolding region
region-Splits xs ys =
    let start = common xs ys in
    let left = drop start xs in
    let right = drop start ys in
    let tail = common (reverse left) (reverse right) in
    let below = reverse (take tail (reverse left)) in
    record {
      above = take start xs;
      below = below;
      place = length-take-common xs ys;
      before =
          sym (ap (λ zs. take start xs ++ zs) (drop_last-append tail left) ∙ take-drop start xs);
      after = sym (
          ap (λ zs. zs ++ (drop_last tail right ++ below)) (take-common xs ys)
          ∙ ap (λ zs. take start ys ++ zs)
              (ap (λ zs. drop_last tail right ++ reverse zs)
                  (take-common (reverse left) (reverse right))
                ∙ drop_last-append tail right)
          ∙ take-drop start ys);
    }
