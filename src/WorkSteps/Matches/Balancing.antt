-- ===== src/WorkSteps/Matches/Balancing.antt =====
-- domain/work-steps.ts: what the matched and the unmatched states of `reconcile` weigh.
use world_wide_woo.Common.{
  ℕ, zero, suc, ◌+◌, ◌≤◌, ◌<◌, ◌≡◌, refl, ap, subst, ◌∙◌, inl, inr, Bool, false, Option, none, some,
  List, [], ◌∷◌, length, All, sum_of, if◌then◌else◌, Bool-cases, Option-cases, arith,
}
use world_wide_woo.WorkSteps.Entries.{Entry, State}
use world_wide_woo.WorkSteps.Matches.{
  Revising, Matches, has_new, has_old, match_of, get_elem?, matched, find_new, can_match,
  is_ambiguous, pairs, match_exact, match_left, match_pair, unmatched, unmatched_old, unmatched_new,
  matches_of,
}

pub get_elem?-lt {ℓ} :
    {A : Type ℓ} (xs : List A) (i : ℕ) {a : A} → get_elem? xs i ≡ some a → i < length xs
get_elem?-lt [] i h = cc (h)
get_elem?-lt (x ∷ xs) zero h = omega arith
get_elem?-lt (x ∷ xs) (suc i) h = omega (arith, get_elem?-lt xs i h)

has_new-match_of : (n : ℕ) (ms : Matches) → has_new n ms ≡ false → match_of n ms ≡ none
unfolding has_new match_of
has_new-match_of n [] h = refl
has_new-match_of n ((new, old) ∷ ms) h = ground (arith, has_new-match_of n ms)

find_new-free :
    (r : Revising) (ms : Matches) (s : State) (j : ℕ) (es : List Entry) {n : ℕ}
    → find_new r ms s j es ≡ some n
    → (has_new n ms ≡ false) × (n < j + length es)
unfolding find_new
find_new-free r ms s j [] h = cc (h)
find_new-free r ms s j (e ∷ es) {n} h = elim (Bool-cases (can_match r ms s j e)) [
  | inl here ↦
      let same : j ≡ n = ground arith in
      let free : has_new j ms ≡ false = ground arith in
      (subst (λ i. has_new i ms ≡ false) same free, omega (arith, same))
  | inr later ↦
      let rest = find_new-free r ms s (suc j) es {n = n} (ground arith) in
      (rest.0, omega (arith, rest.1))
]

unmatched-All {ℓ} :
    {A : Type ℓ} (taken : ℕ → Bool) (i : ℕ) (xs : List A)
    → All (λ o. taken o ≡ false) (unmatched taken i xs)
unfolding unmatched
unmatched-All taken i [] = tt
unmatched-All taken i (x ∷ xs) = elim (Bool-cases (taken i)) [
  | inl gone ↦ rw gone (unmatched-All taken (suc i) xs)
  | inr here ↦ rw here (here, unmatched-All taken (suc i) xs)
]

-- A weight of the old states.
module _ (w : State → ℕ) (r : Revising) where
  abbrev pub weight_at : Option State → ℕ
  weight_at none = 0
  weight_at (some s) = w s

  -- What the old states without a match weigh, and the matches of the new entries.
  unfoldable pub left_weight : Matches → ℕ → List State → ℕ
  left_weight ms i [] = 0
  left_weight ms i (s ∷ ss) = (if has_old i ms then 0 else w s) + left_weight ms (suc i) ss

  unfoldable pub matched_weight : Matches → ℕ → List Entry → ℕ
  matched_weight ms j [] = 0
  matched_weight ms j (e ∷ es) = weight_at (matched r.old ms j) + matched_weight ms (suc j) es

  left_weight-before :
      (n o : ℕ) (ms : Matches) (i : ℕ) (ss : List State)
      → o < i
      → left_weight ((n, o) ∷ ms) i ss ≡ left_weight ms i ss
  unfolding left_weight has_old
  left_weight-before n o ms i [] h = refl
  left_weight-before n o ms i (s ∷ ss) h =
      ground (arith, left_weight-before n o ms (suc i) ss (omega arith))

  left_weight-add :
      (n o : ℕ) (ms : Matches) (i k : ℕ) (ss : List State) {s : State}
      → o ≡ i + k
      → get_elem? ss k ≡ some s
      → has_old o ms ≡ false
      → left_weight ((n, o) ∷ ms) i ss + w s ≡ left_weight ms i ss
  unfolding left_weight has_old
  left_weight-add n o ms i k [] e h free = cc (h)
  left_weight-add n o ms i zero (s ∷ ss) e h free =
      ground (arith, left_weight-before n o ms (suc i) ss (omega arith))
  left_weight-add n o ms i (suc k) (t ∷ ss) e h free =
      ground (arith, left_weight-add n o ms (suc i) k ss (omega arith) h free)

  matched_weight-before :
      (n o : ℕ) (ms : Matches) (j : ℕ) (es : List Entry)
      → n < j
      → matched_weight ((n, o) ∷ ms) j es ≡ matched_weight ms j es
  unfolding matched_weight matched match_of
  matched_weight-before n o ms j [] h = refl
  matched_weight-before n o ms j (e ∷ es) h =
      ground (arith, matched_weight-before n o ms (suc j) es (omega arith))

  matched_weight-add :
      (n o : ℕ) (ms : Matches) (j k : ℕ) (es : List Entry)
      → n ≡ j + k
      → k < length es
      → has_new n ms ≡ false
      → matched_weight ((n, o) ∷ ms) j es ≡ matched_weight ms j es + weight_at (get_elem? r.old o)
  unfolding matched_weight matched match_of
  matched_weight-add n o ms j k [] e h free = absurd (omega arith)
  matched_weight-add n o ms j zero (e' ∷ es) e h free =
      ground
        (arith, matched_weight-before n o ms (suc j) es (omega arith), has_new-match_of n ms free)
  matched_weight-add n o ms j (suc k) (e' ∷ es) e h free =
      ground (arith, matched_weight-add n o ms (suc j) k es (omega arith) (omega arith) free)

  abbrev pub Balances : Matches → Type 0
  Balances ms = matched_weight ms 0 r.next + left_weight ms 0 r.old ≡ sum_of w r.old

  add-Balances :
      (n o : ℕ) (ms : Matches) {s : State}
      → has_new n ms ≡ false
      → n < length r.next
      → has_old o ms ≡ false
      → get_elem? r.old o ≡ some s
      → Balances ms
      → Balances ((n, o) ∷ ms)
  add-Balances n o ms {s} new inside old there b =
      let left = left_weight-add n o ms 0 o r.old (omega arith) there old in
      let more = matched_weight-add n o ms 0 n r.next (omega arith) inside new in
      let weight : weight_at (get_elem? r.old o) ≡ w s = ap weight_at there in
      omega (arith, left, more, weight)

  nothing_left : (i : ℕ) (ss : List State) → left_weight [] i ss ≡ sum_of w ss
  unfolding left_weight has_old
  nothing_left i [] = refl
  nothing_left i (s ∷ ss) = omega (arith, nothing_left (suc i) ss)

  nothing_matched : (j : ℕ) (es : List Entry) → matched_weight [] j es ≡ 0
  unfolding matched_weight matched match_of
  nothing_matched j [] = refl
  nothing_matched j (e ∷ es) = omega (arith, nothing_matched (suc j) es)

  nothing-Balances : Balances []
  nothing-Balances = omega (arith, nothing_left 0 r.old, nothing_matched 0 r.next)

  -- The loop's `ss` are the old states from `i` on, and none of them has a match.
  match_exact-Balances :
      (i : ℕ) (ss : List State) (ms : Matches)
      → ((k : ℕ) → get_elem? r.old (i + k) ≡ get_elem? ss k)
      → ((k : ℕ) → i ≤ k → has_old k ms ≡ false)
      → Balances ms
      → Balances (match_exact r i ss ms)
  unfolding match_exact has_old
  match_exact-Balances i [] ms suffix free b = b
  match_exact-Balances i (s ∷ ss) ms suffix free b =
      let suffix' : (k : ℕ) → get_elem? r.old (suc i + k) ≡ get_elem? ss k =
        λ k. ap (get_elem? r.old) (omega arith) ∙ suffix (suc k) in
      let here : get_elem? r.old i ≡ some s = ap (get_elem? r.old) (omega arith) ∙ suffix 0 in
      let skipped = match_exact-Balances (suc i) ss ms suffix' (λ k h. free k (omega arith)) b in
      elim (Bool-cases (is_ambiguous r s)) [
        | inl skips ↦ rw skips skipped
        | inr tries ↦ elim (Option-cases (find_new r ms s 0 r.next)) [
          | inl nothing ↦ rw (tries, nothing) skipped
          | inr (n, found) ↦
              let new = find_new-free r ms s 0 r.next found in
              rw (tries, found)
                (match_exact-Balances (suc i) ss ((n, i) ∷ ms) suffix'
                  (λ k h. ground (arith, free k (omega arith)))
                  (add-Balances n i ms new.0 (omega (arith, new.1)) (free i (omega arith)) here b))
        ]
      ]

  match_pair-Balances :
      (o n : ℕ) (ms : Matches)
      → has_old o ms ≡ false
      → has_new n ms ≡ false
      → Balances ms
      → Balances (match_pair r o n (get_elem? r.old o) (get_elem? r.next n) ms)
  unfolding match_pair
  match_pair-Balances o n ms old new b = elim (Option-cases (get_elem? r.old o)) [
    | inl nothing ↦ rw nothing b
    | inr (s, there) ↦ elim (Option-cases (get_elem? r.next n)) [
      | inl nothing ↦ rw (there, nothing) b
      | inr (e, inside) ↦ elim (Bool-cases (pairs r s e)) [
        | inl yes' ↦
            let both = add-Balances n o ms new (get_elem?-lt r.next n inside) old there b in
            rw (there, inside, yes') both
        | inr no' ↦ rw (there, inside, no') b
      ]
    ]
  ]

  match_left-Balances :
      (olds news : List ℕ) (ms : Matches)
      → All (λ o. has_old o ms ≡ false) olds
      → All (λ n. has_new n ms ≡ false) news
      → Balances ms
      → Balances (match_left r olds news ms)
  unfolding match_left
  match_left-Balances (o ∷ []) (n ∷ []) ms h k b = match_pair-Balances o n ms h.0 k.0 b
  match_left-Balances [] news ms h k b = b
  match_left-Balances (o ∷ p ∷ olds) news ms h k b = b
  match_left-Balances (o ∷ []) [] ms h k b = b
  match_left-Balances (o ∷ []) (n ∷ m ∷ news) ms h k b = b

  pub matches_of-Balances : Balances (matches_of r)
  unfolding matches_of unmatched_old unmatched_new has_old has_new
  matches_of-Balances =
      let ms = match_exact r 0 r.old [] in
      match_left-Balances (unmatched_old r ms) (unmatched_new r ms) ms
        (unmatched-All (λ o. has_old o ms) 0 r.old) (unmatched-All (λ n. has_new n ms) 0 r.next)
        (match_exact-Balances 0 r.old [] (λ k. ap (get_elem? r.old) (omega arith)) (λ k h. refl)
          nothing-Balances)
