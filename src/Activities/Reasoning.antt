-- ===== src/Activities/Reasoning.antt =====
-- domain/project-activity.ts: the bounded search of `isReasoningActivityPayload` against a search
-- without bounds on its work.
use world_wide_woo.Common.{
  ℕ, zero, suc, ◌+◌, ◌-◌, ◌≤◌, ◌≡◌, refl, String, Bool, false, ◌||◌, ltb, if◌then◌else◌, arith,
  Bool-cases, inl, inr,
}
use world_wide_woo.Value.{
  Value, undefined, null, boolean, natural, other_number, text, array, object, Values, nil, cons,
  Fields, end, field,
}
use world_wide_woo.Activities.{
  Search, marks, contains, in_elements, in_fields, is_reasoning_activity_payload,
}

-- The number of arrays and records of a value.
unfoldable mutual
  pub nodes : Value → ℕ
  nodes (array vs) = suc (nodes_of vs)
  nodes (object fs) = suc (nodes_in fs)
  nodes _ = 0

  nodes_of : Values → ℕ
  nodes_of nil = 0
  nodes_of (cons v vs) = nodes v + nodes_of vs

  nodes_in : Fields → ℕ
  nodes_in end = 0
  nodes_in (field k v fs) = nodes v + nodes_in fs

-- Arrays and records of at most 64 entries.
unfoldable mutual
  pub IsNarrow : Value → Type 0
  IsNarrow (array vs) = AreNarrow 64 vs
  IsNarrow (object fs) = FieldsAreNarrow 64 fs
  IsNarrow _ = Unit

  AreNarrow : ℕ → Values → Type 0
  AreNarrow n nil = Unit
  AreNarrow zero (cons v vs) = ⊥
  AreNarrow (suc n) (cons v vs) = IsNarrow v × AreNarrow n vs

  FieldsAreNarrow : ℕ → Fields → Type 0
  FieldsAreNarrow n end = Unit
  FieldsAreNarrow zero (field k v fs) = ⊥
  FieldsAreNarrow (suc n) (field k v fs) = IsNarrow v × FieldsAreNarrow n fs

module _ (names_reasoning : String → Bool) where
  -- A record less than `depth` levels down has a marked field.
  unfoldable mutual
    unfolding marks

    pub has_marked : ℕ → Value → Bool
    has_marked zero (array vs) = false
    has_marked zero (object fs) = false
    has_marked (suc depth) (array vs) = some_marked depth vs
    has_marked (suc depth) (object fs) = marks names_reasoning fs || some_field_marked depth fs
    has_marked depth undefined = false
    has_marked depth null = false
    has_marked depth (boolean b) = false
    has_marked depth (natural m) = false
    has_marked depth (other_number s) = false
    has_marked depth (text s) = false

    some_marked : ℕ → Values → Bool
    some_marked depth nil = false
    some_marked depth (cons v vs) = has_marked depth v || some_marked depth vs

    some_field_marked : ℕ → Fields → Bool
    some_field_marked depth end = false
    some_field_marked depth (field k v fs) = has_marked depth v || some_field_marked depth fs

  -- A search finds what is there, and visits no more nodes than there are.
  abbrev Finds : Search → Bool → ℕ → ℕ → Type 0
  Finds s there size budget = (s.found ≡ there) × (budget ≤ s.remaining + size)

  -- The first of two searches, or the second with what the first left.
  both-Finds :
      (first rest : Search) (a b : Bool) (m n budget : ℕ)
      → Finds first a m budget
      → Finds rest b n first.remaining
      → Finds (if first.found then first else rest) (a || b) (m + n) budget
  both-Finds first rest a b m n budget f r = elim (Bool-cases first.found) [
    | inl found ↦ (ground arith, rw found (omega (arith, f.1)))
    | inr missing ↦ (ground arith, rw missing (omega (arith, f.1, r.1)))
  ]

  mutual
    unfolding contains has_marked nodes IsNarrow

    contains-Finds :
        (depth budget : ℕ) (v : Value)
        → IsNarrow v
        → nodes v ≤ budget
        → Finds (contains names_reasoning depth budget v) (has_marked depth v) (nodes v) budget
    contains-Finds depth budget undefined n h = (refl, omega arith)
    contains-Finds depth budget null n h = (refl, omega arith)
    contains-Finds depth budget (boolean b) n h = (refl, omega arith)
    contains-Finds depth budget (natural m) n h = (refl, omega arith)
    contains-Finds depth budget (other_number s) n h = (refl, omega arith)
    contains-Finds depth budget (text s) n h = (refl, omega arith)
    contains-Finds zero budget (array vs) n h = (refl, omega arith)
    contains-Finds zero budget (object fs) n h = (refl, omega arith)
    contains-Finds (suc d) budget (array vs) n h =
        let inner = in_elements-Finds d 64 (budget - 1) vs n (omega (arith, h)) in
        elim (Bool-cases (ltb 0 budget)) [
          | inr spent ↦ absurd (ground arith)
          | inl left ↦ rw left (inner.0, omega (arith, inner.1, h))
        ]
    contains-Finds (suc d) budget (object fs) n h =
        let inner = in_fields-Finds d 64 (budget - 1) fs n (omega (arith, h)) in
        elim (Bool-cases (ltb 0 budget)) [
          | inr spent ↦ absurd (ground arith)
          | inl left ↦ elim (Bool-cases (marks names_reasoning fs)) [
            | inl marked ↦ rw (left, marked) (refl, omega (arith, h))
            | inr plain ↦ rw (left, plain) (inner.0, omega (arith, inner.1, h))
          ]
        ]

    in_elements-Finds :
        (depth entries budget : ℕ) (vs : Values)
        → AreNarrow entries vs
        → nodes_of vs ≤ budget
        → Finds
            (in_elements names_reasoning depth entries budget vs)
            (some_marked depth vs)
            (nodes_of vs)
            budget
    in_elements-Finds depth entries budget nil n h = (refl, omega arith)
    in_elements-Finds depth zero budget (cons v vs) n h = absurd n
    in_elements-Finds depth (suc entries) budget (cons v vs) n h =
        let first = contains-Finds depth budget v n.0 (omega arith) in
        let left = (contains names_reasoning depth budget v).remaining in
        let rest = in_elements-Finds depth entries left vs n.1 (omega (arith, first.1)) in
        both-Finds (contains names_reasoning depth budget v)
          (in_elements names_reasoning depth entries left vs) (has_marked depth v)
          (some_marked depth vs) (nodes v) (nodes_of vs) budget first rest

    in_fields-Finds :
        (depth entries budget : ℕ) (fs : Fields)
        → FieldsAreNarrow entries fs
        → nodes_in fs ≤ budget
        → Finds
            (in_fields names_reasoning depth entries budget fs)
            (some_field_marked depth fs)
            (nodes_in fs)
            budget
    in_fields-Finds depth entries budget end n h = (refl, omega arith)
    in_fields-Finds depth zero budget (field k v fs) n h = absurd n
    in_fields-Finds depth (suc entries) budget (field k v fs) n h =
        let first = contains-Finds depth budget v n.0 (omega arith) in
        let left = (contains names_reasoning depth budget v).remaining in
        let rest = in_fields-Finds depth entries left fs n.1 (omega (arith, first.1)) in
        both-Finds (contains names_reasoning depth budget v)
          (in_fields names_reasoning depth entries left fs) (has_marked depth v)
          (some_field_marked depth fs) (nodes v) (nodes_in fs) budget first rest

  -- A payload of at most 512 arrays and records, each of at most 64 entries, is a reasoning payload
  -- exactly if one of its records less than nine levels down has a marked field.
  pub is_reasoning_activity_payload-has_marked :
      (v : Value)
      → IsNarrow v
      → nodes v ≤ 512
      → is_reasoning_activity_payload names_reasoning v ≡ has_marked 9 v
  unfolding is_reasoning_activity_payload
  is_reasoning_activity_payload-has_marked v n h = (contains-Finds 9 512 v n h).0
