-- ===== src/WorkSteps/Matches.antt =====
-- domain/work-steps.ts: the first half of `reconcile`, which matches the new entries of a plan with
-- the old states. `matches` is a list of pairs, the new index first, the latest pair in front; the
-- loops over lists of indices are loops over the lists that the indices point into.
pub mod Balancing
use world_wide_woo.Common.{
  ℕ, zero, suc, ◌+◌, ◌*◌, ◌/◌, String, Bool, true, false, not, ◌&&◌, ◌||◌, Option, none, some, List,
  [], ◌∷◌, ◌++◌, map, length, any, keep, count, includes, ltb, leb, ◌==◌, ◌is◌, if◌then◌else◌,
  Result, ok, err, ◌>>=◌, ◌>>◌, refuse,
}
use world_wide_woo.Dict.{Dict, insert, lookup}
use world_wide_woo.Decimal.{append, decimal as print}
use world_wide_woo.WorkSteps.Runtime.{
  WorkRuntime, DplanError, identity_collision, decimal, codes, utf8,
}
use world_wide_woo.WorkSteps.Distance.{max, lev, edit_limit, is_edit_like}
use world_wide_woo.WorkSteps.Framing.{frame_texts, digest}
use world_wide_woo.WorkSteps.Entries.{
  WorkActivityClass, action, observation, PlanRevisionRef, DerivedPlanIdentity, PlanOrphanReason,
  deleted, ambiguous_duplicate, ambiguous_edit, replacement, PlanRetirement, PlanOrphan, minted,
  PlanReconciliation, exact_unique, isolated_edit, Entry, Association, State,
}

abbrev pub Matches : Type 0
Matches = List (ℕ × ℕ)

-- `matches.has(new)`, `[...matches.values()].includes(old)` and `matches.get(new)`.
unfoldable pub has_new : ℕ → Matches → Bool
has_new n [] = false
has_new n ((new, old) ∷ ms) = new == n || has_new n ms

unfoldable pub has_old : ℕ → Matches → Bool
has_old o [] = false
has_old o ((new, old) ∷ ms) = old == o || has_old o ms

unfoldable pub match_of : ℕ → Matches → Option ℕ
match_of n [] = none
match_of n ((new, old) ∷ ms) = if new == n then some old else match_of n ms

abbrev pub get_elem? {ℓ} : {A : Type ℓ} → List A → ℕ → Option A
get_elem? [] i = none
get_elem? (x ∷ xs) zero = some x
get_elem? (x ∷ xs) (suc i) = get_elem? xs i

-- `count(digests).get(digest) ?? 0`.
abbrev pub occurrences : String → List String → ℕ
occurrences s = count (λ t. t is s)

abbrev pub entry_of_state : State → Entry
entry_of_state s = s.entry

abbrev pub digest_of : Entry → String
digest_of e = e.token_digest

-- `collisionTitles(entries).has(title)`: two entries of the title have different digests.
unfoldable pub has_collision : List Entry → String → Bool
has_collision [] title = false
has_collision (e ∷ es) title =
    ((e.title is title)
      && any (λ f. (f.title is title) && not (f.token_digest is e.token_digest)) es)
    || has_collision es title

-- What the loops read of the two lists.
pub record Revising : Type 0 where
  pub old : List State
  pub next : List Entry

abbrev pub old_count : Revising → String → ℕ
old_count r s = occurrences s (map digest_of (map entry_of_state r.old))

abbrev pub next_count : Revising → String → ℕ
next_count r s = occurrences s (map digest_of r.next)

unfoldable pub is_blocked : Revising → String → Bool
unfolding has_collision
is_blocked r title = has_collision (map entry_of_state r.old ++ r.next) title

-- The test of `next.findIndex`, for the entry at the index `j`.
abbrev pub can_match : Revising → Matches → State → ℕ → Entry → Bool
unfolding has_new is_blocked
can_match r ms s j e =
    not (has_new j ms)
    && (e.token_digest is s.entry.token_digest)
    && next_count r e.token_digest == 1
    && not (is_blocked r e.title)

-- `next.findIndex`, from the index `j`.
unfoldable pub find_new : Revising → Matches → State → ℕ → List Entry → Option ℕ
unfolding can_match
find_new r ms s j [] = none
find_new r ms s j (e ∷ es) =
    let rest = find_new r ms s (suc j) es in if can_match r ms s j e then some j else rest

abbrev pub is_ambiguous : Revising → State → Bool
unfolding is_blocked
is_ambiguous r s = not (old_count r s.entry.token_digest == 1) || is_blocked r s.entry.title

abbrev pub add_match : ℕ → Option ℕ → Matches → Matches
add_match i none ms = ms
add_match i (some j) ms = (j, i) ∷ ms

-- The first loop, from the old index `i`: the matches of equal tokens.
unfoldable pub match_exact : Revising → ℕ → List State → Matches → Matches
unfolding find_new is_ambiguous
match_exact r i [] ms = ms
match_exact r i (s ∷ ss) ms =
    let skipped = match_exact r (suc i) ss ms in
    let tried = match_exact r (suc i) ss (add_match i (find_new r ms s 0 r.next) ms) in
    if is_ambiguous r s then skipped else tried

-- The indices, from `i` on, of those of a list that a test leaves: `unmatchedOld`, `unmatchedNew`.
unfoldable pub unmatched {ℓ} : {A : Type ℓ} → (ℕ → Bool) → ℕ → List A → List ℕ
unmatched taken i [] = []
unmatched taken i (x ∷ xs) =
    let rest = unmatched taken (suc i) xs in if taken i then rest else i ∷ rest

unfoldable pub longer_of : Entry → Entry → ℕ
unfolding codes
longer_of a b = max (length (codes a.raw)) (length (codes b.raw))

unfoldable pub edits : Entry → Entry → Bool
unfolding is_edit_like codes
edits a b = is_edit_like (codes a.raw) (codes b.raw)

abbrev pub pairs : Revising → State → Entry → Bool
unfolding is_blocked edits
pairs r prior candidate =
    not (is_blocked r prior.entry.title)
    && not (is_blocked r candidate.title)
    && edits prior.entry candidate

-- The one old and the one new that are left, where the one is an edit of the other.
abbrev pub match_pair : Revising → ℕ → ℕ → Option State → Option Entry → Matches → Matches
unfolding pairs
match_pair r o n (some prior) (some candidate) ms =
    if pairs r prior candidate then (n, o) ∷ ms else ms
match_pair r o n prior candidate ms = ms

abbrev pub match_left : Revising → List ℕ → List ℕ → Matches → Matches
unfolding match_pair
match_left r (o ∷ []) (n ∷ []) ms = match_pair r o n (get_elem? r.old o) (get_elem? r.next n) ms
match_left r olds news ms = ms

abbrev pub unmatched_old : Revising → Matches → List ℕ
unfolding unmatched has_old
unmatched_old r ms = unmatched (λ o. has_old o ms) 0 r.old

unfoldable pub unmatched_new : Revising → Matches → List ℕ
unfolding unmatched has_new
unmatched_new r ms = unmatched (λ n. has_new n ms) 0 r.next

-- Both steps of the matching.
unfoldable pub matches_of : Revising → Matches
unfolding match_exact match_left unmatched_old unmatched_new
matches_of r =
    let ms = match_exact r 0 r.old [] in match_left r (unmatched_old r ms) (unmatched_new r ms) ms

-- The old state that the entry at `position` is matched with.
unfoldable pub matched : List State → Matches → ℕ → Option State
unfolding match_of
matched old ms position = elim (match_of position ms) [ none ↦ none | some o ↦ get_elem? old o ]
