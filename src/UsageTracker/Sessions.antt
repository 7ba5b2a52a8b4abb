-- ===== src/UsageTracker/Sessions.antt =====
-- application/session/session-usage-tracker.ts: a session's notifications and turns, one after the
-- other, and what is counted in the end.
use world_wide_woo.Common.{
  ℕ, ◌+◌, ◌-◌, String, ◌≡◌, refl, ap, sym, ◌∙◌, Bool, false, Option, none, some, List, [], ◌∷◌,
  ◌++◌, ◌==◌, arith, Bool-cases, inl, inr,
}
use world_wide_woo.Dict.{
  lookup, insert, remove, values, total, weight_or_0, total-insert, total-remove,
}
use world_wide_woo.UsageTracker.{
  ModelUsage, Tracker, UsageEvent, fresh, number_or_0, no_usage, usage_or, usage_key, count_reading,
  observe, settle, bind_turn, add, names_other, names_same, merge_usage, merge_all, sum_tokens,
  insert_sorted, sort_usage, snapshot,
}
use world_wide_woo.UsageTracker.Conservation.{
  tokens_of, same_number, counted, IsBalanced, Follows, Kept, add-IsBalanced, counted-add,
  count_total_keeps,
}

same_keeps : (t : Tracker) → IsBalanced t → Kept t t
same_keeps t h = record { balanced = h; follows = λ base f. f; begins = λ w. inl w }

count_reading_keeps :
    (turn : Option String) (reading : Option ℕ) (t : Tracker)
    → IsBalanced t
    → Kept t (count_reading turn reading t)
count_reading_keeps turn none t h = same_keeps t h
count_reading_keeps turn (some reading) t h =
    count_total_keeps turn reading t.observed_thread_total t refl h

observe_keeps :
    (e : UsageEvent) (thread context_turn : Option String) (t : Tracker)
    → IsBalanced t
    → Kept t (observe e thread context_turn t)
unfolding observe
observe_keeps e thread context_turn t h =
    let k = count_reading_keeps e.turn_id e.total_tokens t h in
    elim (Bool-cases (names_other e.thread_id thread)) [
      | inl other ↦ rw other (same_keeps t h)
      | inr ours ↦ rw ours (elim (Bool-cases (names_same e.turn_id context_turn)) [
        | inl here ↦ rw here (record {
          balanced = record { pending = k.balanced.pending; turns = k.balanced.turns };
          follows = k.follows;
          begins = k.begins;
        })
        | inr elsewhere ↦ rw elsewhere k
      ])
    ]

settle_keeps :
    (turn model : String) (effort : Option String) (t : Tracker)
    → IsBalanced t
    → Kept t (settle turn model effort (number_or_0 (lookup turn t.pending_by_turn)) t)
unfolding settle
settle_keeps turn model effort t h =
    let pending : ℕ = number_or_0 (lookup turn t.pending_by_turn) in
    let waiting : weight_or_0 same_number (lookup turn t.pending_by_turn) ≡ pending =
      ground arith in
    let taken = total-remove same_number turn t.pending_by_turn in
    let t1 : Tracker = record t {
      pending_by_turn = remove turn t.pending_by_turn;
      unattributed = t.unattributed - pending;
    } in
    let b1 : IsBalanced t1 = record {
      pending = omega (arith, h.pending, taken, waiting);
      turns = h.turns;
    } in
    let same : counted (add turn model effort pending t1) ≡ counted t =
      omega (arith, h.pending, taken, waiting, counted-add turn model effort pending t1) in
    let observed : (add turn model effort pending t1).observed_thread_total
        ≡ t.observed_thread_total =
      unfold add in refl in
    elim (Bool-cases (pending == 0)) [
      | inl nothing ↦ rw nothing (same_keeps t h)
      | inr some_pending ↦ rw some_pending (record {
        balanced = add-IsBalanced turn model effort pending t1 b1;
        follows = λ base f. observed ∙ f ∙ ap (λ n. some (base + n)) (sym same);
        begins = λ w. inl (observed ∙ w.0, same ∙ w.1);
      })
    ]

bind_turn_keeps :
    (turn model : String) (effort : Option String) (t : Tracker)
    → IsBalanced t
    → Kept t (bind_turn turn model effort t)
unfolding bind_turn
bind_turn_keeps turn model effort t h =
    let t1 : Tracker = record t {
      turn_models = insert turn (record { model = model; effort = effort }) t.turn_models;
    } in
    let k = settle_keeps turn model effort t1 (record { pending = h.pending; turns = h.turns }) in
    record { balanced = k.balanced; follows = k.follows; begins = k.begins }

-- A call of the tracker: a notification, with the thread and the turn in view, or a turn's model.
pub data Call : Type 0 where
  observes : UsageEvent → Option String → Option String → Call
  binds : String → String → Option String → Call

abbrev pub call : Call → Tracker → Tracker
call (observes e thread context_turn) t = observe e thread context_turn t
call (binds turn model effort) t = bind_turn turn model effort t

unfoldable pub calls : List Call → Tracker → Tracker
calls [] t = t
calls (c ∷ cs) t = calls cs (call c t)

call_keeps : (c : Call) (t : Tracker) → IsBalanced t → Kept t (call c t)
call_keeps (observes e thread context_turn) t h = observe_keeps e thread context_turn t h
call_keeps (binds turn model effort) t h = bind_turn_keeps turn model effort t h

calls_follow :
    (cs : List Call) (base : ℕ) (t : Tracker)
    → IsBalanced t
    → Follows base t
    → IsBalanced (calls cs t) × Follows base (calls cs t)
unfolding calls
calls_follow [] base t h f = (h, f)
calls_follow (c ∷ cs) base t h f =
    let k = call_keeps c t h in calls_follow cs base (call c t) k.balanced (k.follows base f)

sum_tokens-values : (m : List (String × ModelUsage)) → sum_tokens (values m) ≡ total tokens_of m
sum_tokens-values [] = refl
sum_tokens-values ((k, u) ∷ m) = ap {B = ℕ} (λ n. u.total_tokens + n) (sum_tokens-values m)

sum_tokens-++ : (us vs : List ModelUsage) → sum_tokens (us ++ vs) ≡ sum_tokens us + sum_tokens vs
sum_tokens-++ [] vs = omega arith
sum_tokens-++ (u ∷ us) vs = omega (arith, sum_tokens-++ us vs)

merge_usage_tokens :
    (m : List (String × ModelUsage)) (u : ModelUsage)
    → total tokens_of (merge_usage m u) ≡ total tokens_of m + u.total_tokens
unfolding merge_usage
merge_usage_tokens m u =
    let key = usage_key u.model u.effort in
    let c = usage_or (lookup key m) (no_usage u.model u.effort) in
    ground (
      arith,
      total-insert tokens_of key
          (record {
            model = u.model;
            effort = u.effort;
            interactive_root_turns = c.interactive_root_turns + u.interactive_root_turns;
            interactive_tokens = c.interactive_tokens + u.interactive_tokens;
            detached_invocations = c.detached_invocations + u.detached_invocations;
            detached_tokens = c.detached_tokens + u.detached_tokens;
            total_tokens = c.total_tokens + u.total_tokens;
          })
          m,
    )

merge_all_tokens :
    (m : List (String × ModelUsage)) (us : List ModelUsage)
    → total tokens_of (merge_all m us) ≡ total tokens_of m + sum_tokens us
unfolding merge_all
merge_all_tokens m [] = omega arith
merge_all_tokens m (u ∷ us) =
    omega (arith, merge_all_tokens (merge_usage m u) us, merge_usage_tokens m u)

module _ (not_after : String → String → Bool) where
  insert_sorted_tokens :
      (u : ModelUsage) (us : List ModelUsage)
      → sum_tokens (insert_sorted not_after u us) ≡ u.total_tokens + sum_tokens us
  unfolding insert_sorted
  insert_sorted_tokens u [] = refl
  insert_sorted_tokens u (v ∷ vs) = ground (arith, insert_sorted_tokens u vs)

  sort_usage_tokens : (us : List ModelUsage) → sum_tokens (sort_usage not_after us) ≡ sum_tokens us
  unfolding sort_usage
  sort_usage_tokens [] = refl
  sort_usage_tokens (u ∷ us) =
      omega (arith, insert_sorted_tokens u (sort_usage not_after us), sort_usage_tokens us)

  -- A snapshot's total is all that the tracker has counted and all that the auxiliary source has,
  -- however the usages are merged and sorted.
  pub snapshot_total :
      (t : Tracker) (auxiliary : List ModelUsage)
      → (snapshot not_after t auxiliary).total_tokens ≡ counted t + sum_tokens auxiliary
  unfolding snapshot
  snapshot_total t auxiliary =
      let own = values t.model_usage in
      let merged = merge_all [] (own ++ auxiliary) in
      omega (
        arith,
        sort_usage_tokens (values merged),
        sum_tokens-values merged,
        merge_all_tokens [] (own ++ auxiliary),
        sum_tokens-++ own auxiliary,
        sum_tokens-values t.model_usage,
      )

  -- In a session that is not resumed, after any calls, the tracker has a last reading of the
  -- thread's total, and a snapshot's total is that reading and the auxiliary tokens.
  pub session_total :
      (cs : List Call) (auxiliary : List ModelUsage)
      → (reading : ℕ) × ((calls cs (fresh false)).observed_thread_total ≡ some reading)
        × ((snapshot not_after (calls cs (fresh false)) auxiliary).total_tokens
            ≡ reading + sum_tokens auxiliary)
  session_total cs auxiliary =
      let t = calls cs (fresh false) in
      let b : IsBalanced (fresh false) = record { pending = omega arith; turns = refl } in
      let f = (calls_follow cs 0 (fresh false) b refl).1 in
      (counted t, f ∙ ap some (omega arith), snapshot_total t auxiliary)
