-- ===== src/UsageTracker/Conservation.antt =====
-- application/session/session-usage-tracker.ts: no token that was observed is lost or counted twice.
use world_wide_woo.Common.{
  ℕ, ◌+◌, ◌-◌, ◌≤◌, String, ◌≡◌, refl, ap, sym, ◌∙◌, true, Option, none, some, length, includes,
  if◌then◌else◌, leb, ltb, ◌is◌, arith, Bool-cases, inl, inr, ◌⊎◌,
}
use world_wide_woo.Dict.{lookup, total, total-insert}
use world_wide_woo.UsageTracker.{
  ModelUsage, TurnModel, Tracker, usage_key, number_or_0, grown, current_usage, add, attribute_to,
  attribute, count_total,
}

abbrev pub tokens_of : ModelUsage → ℕ
tokens_of u = u.total_tokens

abbrev pub turns_of : ModelUsage → ℕ
turns_of u = u.interactive_root_turns

abbrev pub same_number : ℕ → ℕ
same_number n = n

-- All the tokens that a tracker has counted.
abbrev pub counted : Tracker → ℕ
counted t = total tokens_of t.model_usage + t.unattributed

pub record IsBalanced (t : Tracker) : Type 0 where
  pub pending : total same_number t.pending_by_turn ≤ t.unattributed
  pub turns : total turns_of t.model_usage ≡ length t.observed_turns

tokens-add :
    (turn model : String) (effort : Option String) (delta : ℕ) (t : Tracker)
    → total tokens_of (add turn model effort delta t).model_usage
      ≡ total tokens_of t.model_usage + delta
unfolding add
tokens-add turn model effort delta t =
    let old = current_usage model effort t.model_usage in
    let first : ℕ = if includes t.observed_turns turn then 0 else 1 in
    ground
      (arith, total-insert tokens_of (usage_key model effort) (grown old first delta) t.model_usage)

turns-add :
    (turn model : String) (effort : Option String) (delta : ℕ) (t : Tracker)
    → total turns_of t.model_usage ≡ length t.observed_turns
    → total turns_of (add turn model effort delta t).model_usage
      ≡ length (add turn model effort delta t).observed_turns
unfolding add
turns-add turn model effort delta t h =
    let old = current_usage model effort t.model_usage in
    let first : ℕ = if includes t.observed_turns turn then 0 else 1 in
    ground
      (arith, total-insert turns_of (usage_key model effort) (grown old first delta) t.model_usage)

pub add-IsBalanced :
    (turn model : String) (effort : Option String) (delta : ℕ) (t : Tracker)
    → IsBalanced t
    → IsBalanced (add turn model effort delta t)
add-IsBalanced turn model effort delta t h = record {
  pending = unfold add in h.pending;
  turns = turns-add turn model effort delta t h.turns;
}

pub counted-add :
    (turn model : String) (effort : Option String) (delta : ℕ) (t : Tracker)
    → counted (add turn model effort delta t) ≡ counted t + delta
counted-add turn model effort delta t =
    let same : (add turn model effort delta t).unattributed ≡ t.unattributed = unfold add in refl in
    omega (arith, tokens-add turn model effort delta t, same)

-- What attributing `delta` tokens does, whoever gets them.
record Attributed (delta : ℕ) (t t' : Tracker) : Type 0 where
  balanced : IsBalanced t'
  counts : counted t' ≡ counted t + delta
  observed : t'.observed_thread_total ≡ t.observed_thread_total

attribute_to_counts :
    (turn : String) (b : Option TurnModel) (delta : ℕ) (t : Tracker)
    → IsBalanced t
    → Attributed delta t (attribute_to turn b delta t)
unfolding attribute_to
attribute_to_counts turn (some b) delta t h = record {
  balanced = add-IsBalanced turn b.model b.effort delta t h;
  counts = counted-add turn b.model b.effort delta t;
  observed = unfold add in refl;
}
attribute_to_counts turn none delta t h = record {
  balanced = record {
    pending = ground (
      arith,
      h.pending,
      total-insert same_number turn (number_or_0 (lookup turn t.pending_by_turn) + delta)
          t.pending_by_turn,
    );
    turns = h.turns;
  };
  counts = omega arith;
  observed = refl;
}

attribute_counts :
    (turn : Option String) (delta : ℕ) (t : Tracker)
    → IsBalanced t
    → Attributed delta t (attribute turn delta t)
unfolding attribute
attribute_counts none delta t h = record {
  balanced = record { pending = omega (arith, h.pending); turns = h.turns };
  counts = omega arith;
  observed = refl;
}
attribute_counts (some turn) delta t h = elim (Bool-cases (turn is "")) [
  | inl empty ↦ rw empty (record {
    balanced = record { pending = omega (arith, h.pending); turns = h.turns };
    counts = omega arith;
    observed = refl;
  })
  | inr named ↦ rw named (attribute_to_counts turn (lookup turn t.turn_models) delta t h)
]

-- The thread's reading, over the reading `base` at which the counting began, is what was counted.
abbrev pub Follows : ℕ → Tracker → Type 0
Follows base t = t.observed_thread_total ≡ some (base + counted t)

-- Nothing is counted before the first reading of a resumed thread.
abbrev pub IsWaiting : Tracker → Type 0
IsWaiting t = (t.observed_thread_total ≡ none) × (counted t ≡ 0)

pub record Kept (t t' : Tracker) : Type 0 where
  pub balanced : IsBalanced t'
  pub follows : (base : ℕ) → Follows base t → Follows base t'
  pub begins : IsWaiting t → IsWaiting t' ⊎ ((base : ℕ) × Follows base t')

some-injective : {a b : ℕ} → ◌≡◌ {A = Option ℕ} (some a) (some b) → a ≡ b
some-injective h = ground arith

grown_keeps :
    (turn : Option String) (reading last : ℕ) (t : Tracker)
    → t.observed_thread_total ≡ some last
    → IsBalanced t
    → last ≤ reading
    → Kept t (
        if ltb 0 (reading - last)
        then attribute turn
            (reading - last)
            (record t { interactive_usage_observed = true; observed_thread_total = some reading })
        else (record t { interactive_usage_observed = true; observed_thread_total = some reading }))
grown_keeps turn reading last t here h le =
    let t1 : Tracker = record t {
      interactive_usage_observed = true;
      observed_thread_total = some reading;
    } in
    let b1 : IsBalanced t1 = record { pending = h.pending; turns = h.turns } in
    elim (Bool-cases (ltb 0 (reading - last))) [
      | inl more ↦
          let a = attribute_counts turn (reading - last) t1 b1 in
          rw more (record {
            balanced = a.balanced;
            follows = λ base f.
                a.observed ∙ ap some (omega (arith, a.counts, some-injective (sym here ∙ f)));
            begins = λ w. cc;
          })
      | inr same ↦ rw same (record {
        balanced = b1;
        follows = λ base f. ap some (ground (arith, some-injective (sym here ∙ f)));
        begins = λ w. cc;
      })
    ]

pub count_total_keeps :
    (turn : Option String) (reading : ℕ) (o : Option ℕ) (t : Tracker)
    → t.observed_thread_total ≡ o
    → IsBalanced t
    → Kept t (count_total turn reading o t)
unfolding count_total
count_total_keeps turn reading none t here h = record {
  balanced = record { pending = h.pending; turns = h.turns };
  follows = λ base f. cc;
  begins = λ w. inr (reading, ap some (omega (arith, w.1)));
}
count_total_keeps turn reading (some last) t here h = elim (Bool-cases (leb last reading)) [
  | inr smaller ↦ rw smaller (record { balanced = h; follows = λ base f. f; begins = λ w. cc })
  | inl grows ↦ rw grows (grown_keeps turn reading last t here h (ground arith))
]
