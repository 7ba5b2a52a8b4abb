-- ===== src/Activities.antt =====
-- domain/project-activity.ts: the activities of a project's journal, and which payloads are reasoning.
-- A payload is a tree: the set of visited objects, which guards against sharing, never hits in one.
pub mod Reasoning
use Prim.Native.String
use world_wide_woo.Common.{
  ℕ, zero, suc, ◌+◌, ◌-◌, String, Bool, true, false, ◌||◌, Option, none, some, List, [], ◌∷◌, ltb,
  leb, ◌is◌, if◌then◌else◌,
}
use world_wide_woo.Value.{
  Value, undefined, null, boolean, natural, other_number, text, array, object, Values, nil, cons,
  Fields, end, field, get, text_of,
}

pub data ProjectActivityKind : Type 0 where
  message tool approval progress file_change : ProjectActivityKind

pub data ProjectActivityPhase : Type 0 where
  started updated completed failed cancelled : ProjectActivityPhase

pub record NativeRefs : Type 0 where
  pub thread_id : Option String
  pub turn_id : Option String
  pub item_id : Option String

pub record ProjectActivity : Type 0 where
  pub id : String
  pub project_id : String
  pub sequence : ℕ
  pub recorded_at : String
  pub kind : ProjectActivityKind
  pub phase : ProjectActivityPhase
  pub provider : String
  pub native_refs : NativeRefs
  pub source_digest : String
  pub payload : Fields

pub is_terminal_activity_phase : ProjectActivityPhase → Bool
is_terminal_activity_phase completed = true
is_terminal_activity_phase failed = true
is_terminal_activity_phase cancelled = true
is_terminal_activity_phase started = false
is_terminal_activity_phase updated = false

-- `typeof v === "string" && v === t`.
abbrev pub text_is : Value → String → Bool
text_is v t = elim (text_of v) [ none ↦ false | some s ↦ s is t ]

-- What a search found, and how many nodes it may still visit.
pub record Search : Type 0 where
  pub found : Bool
  pub remaining : ℕ

abbrev pub stop : ℕ → Search
stop n = record { found = false; remaining = n }

-- The field names of the three candidates, and /reasoning|thought|analysis/i.
module _ (names_reasoning : String → Bool) where
  abbrev pub is_marked : Value → Bool
  is_marked v = elim (text_of v) [ none ↦ false | some s ↦ names_reasoning s ]

  unfoldable pub marks : Fields → Bool
  unfolding get
  marks fs =
      is_marked (get "method" fs)
      || is_marked (get "type" fs)
      || is_marked (get "classification" fs)

  unfoldable mutual
    unfolding marks get

    -- `containsReasoningEnvelope` at a value, with `depth` levels left below its own, in an array's
    -- elements and in a record's fields, of which `entries` more are looked at.
    pub contains : ℕ → ℕ → Value → Search
    contains depth nodes undefined = stop nodes
    contains depth nodes null = stop nodes
    contains depth nodes (boolean b) = stop nodes
    contains depth nodes (natural n) = stop nodes
    contains depth nodes (other_number s) = stop nodes
    contains depth nodes (text s) = stop nodes
    contains zero nodes (array vs) = stop nodes
    contains (suc depth) nodes (array vs) =
        let inner = in_elements depth 64 (nodes - 1) vs in if ltb 0 nodes then inner else stop nodes
    contains zero nodes (object fs) = stop nodes
    contains (suc depth) nodes (object fs) =
        let inner = in_fields depth 64 (nodes - 1) fs in
        if ltb 0 nodes
        then if marks fs then record { found = true; remaining = nodes - 1 } else inner
        else stop nodes

    pub in_elements : ℕ → ℕ → ℕ → Values → Search
    in_elements depth entries nodes nil = stop nodes
    in_elements depth zero nodes (cons v vs) = stop nodes
    in_elements depth (suc entries) nodes (cons v vs) =
        let first = contains depth nodes v in
        let rest = in_elements depth entries first.remaining vs in
        if first.found then first else rest

    pub in_fields : ℕ → ℕ → ℕ → Fields → Search
    in_fields depth entries nodes end = stop nodes
    in_fields depth zero nodes (field k v fs) = stop nodes
    in_fields depth (suc entries) nodes (field k v fs) =
        let first = contains depth nodes v in
        let rest = in_fields depth entries first.remaining fs in if first.found then first else rest

  -- `isReasoningActivityPayload`: depths 0 to 8, at most 512 nodes.
  unfoldable pub is_reasoning_activity_payload : Value → Bool
  unfolding contains in_elements in_fields marks
  is_reasoning_activity_payload v = (contains 9 512 v).found
