-- ===== src/Planning.antt =====
-- domain/planning.ts: epics and stories, and what `validatePlanningSnapshot` accepts.
-- The regular expressions of `sanitizePlanningText`, `trim` and `Date.parse` are a record of functions.
pub mod Chains
use Prim.Native.String
use world_wide_woo.Common.{
  ℕ, zero, suc, ◌+◌, String, Bool, true, false, not, ◌&&◌, ◌||◌, Option, none, some, List, [], ◌∷◌,
  length, find, find_index, includes, ltb, leb, ◌==◌, ◌is◌, if◌then◌else◌, Result, ok, err, refuse,
  guard, ◌>>=◌, ◌>>◌,
}
use world_wide_woo.Value.{every, is_digit, points, take_points, drop_points}
use world_wide_woo.Decimal.{append, after_prefix}

pub record PlanningEpic : Type 0 where
  pub id : String
  pub title : String
  pub goal : String
  pub created_at : String

pub record PlanningStory : Type 0 where
  pub id : String
  pub epic_id : String
  pub title : String
  pub acceptance : String
  pub created_at : String
  pub supersedes : Option String

-- `revision` is a natural number here: the source refuses any other, and one past 2^53 - 1.
pub record PlanningSnapshot : Type 0 where
  pub revision : ℕ
  pub epics : List PlanningEpic
  pub stories : List PlanningStory

-- The replacements of `sanitizePlanningText`, in their order.
pub data PlanningPattern : Type 0 where
  escape comment control bearer assignment openai_key github_token google_key : PlanningPattern
  aws_key spaces : PlanningPattern

pub record PlanningRuntime : Type 0 where
  pub replace : PlanningPattern → String → String
  pub trim : String → String
  pub is_date : String → Bool

pub data PlanningError : Type 0 where
  bad_revision bad_epic_id bad_story_id no_epic wrong_epic unsafe_text bad_date : PlanningError
  bad_supersedes supersedes_cycle out_of_fuel : PlanningError

-- /^EP-\d{3}$/.
unfoldable pub is_epic_id : String → Bool
unfolding after_prefix is_digit
is_epic_id s = elim (after_prefix "EP-" s) [
  | none ↦ false
  | some digits ↦ points digits == 3 && every is_digit digits
]

-- /^ST-\d{3}-\d{2}$/.
unfoldable pub is_story_id : String → Bool
unfolding after_prefix is_digit
is_story_id s = elim (after_prefix "ST-" s) [
  | none ↦ false
  | some rest ↦
      every is_digit (take_points 3 rest) && elim (after_prefix "-" (drop_points 3 rest)) [
        | none ↦ false
        | some digits ↦ points digits == 2 && every is_digit digits
      ]
]

-- `startsWith`.
abbrev pub has_prefix : String → String → Bool
unfolding after_prefix
has_prefix start s = elim (after_prefix start s) [ none ↦ false | some rest ↦ true ]

-- What the walk along `supersedes` comes to.
pub data Walk : Type 0 where
  ended cycle unfinished : Walk

abbrev pub story_of : List PlanningStory → String → Option PlanningStory
story_of stories id = find (λ s. s.id is id) stories

-- The inner loop of the search for cycles, with fuel for its rounds.
unfoldable pub walk : List PlanningStory → ℕ → List String → Option PlanningStory → Walk
walk stories fuel seen none = ended
walk stories zero seen (some current) = unfinished
walk stories (suc fuel) seen (some current) = elim current.supersedes [
  | none ↦ ended
  | some target ↦
      let next = walk stories fuel (current.id ∷ seen) (story_of stories target) in
      if includes seen current.id then cycle else next
]

abbrev pub refuse_walk : Walk → Result PlanningError (Unit {0})
refuse_walk ended = ok tt
refuse_walk cycle = err supersedes_cycle
refuse_walk unfinished = err out_of_fuel

-- `throw`s unless the target is an earlier story of the same epic; `index` is the story's.
unfoldable pub check_target : List PlanningStory → ℕ → PlanningStory → String → Bool
check_target stories index story target = elim (story_of stories target) [
  | none ↦ false
  | some t ↦
      (t.epic_id is story.epic_id)
      && not (t.id is story.id)
      && elim (find_index (λ s. s.id is target) stories) [
        | none ↦ true
        | some target_index ↦ ltb target_index index
      ]
]

-- The third loop, from the story at `index`.
unfoldable pub check_supersedes :
    List PlanningStory → ℕ → List PlanningStory → Result PlanningError (Unit {0})
unfolding check_target
check_supersedes stories index [] = ok tt
check_supersedes stories index (s ∷ ss) =
    guard (elim s.supersedes [ none ↦ true | some target ↦ check_target stories index s target ])
      bad_supersedes
    >> check_supersedes stories (suc index) ss

-- The fourth loop; the fuel of a walk is the number of stories.
unfoldable pub check_cycles :
    List PlanningStory → List PlanningStory → Result PlanningError (Unit {0})
unfolding walk
check_cycles stories [] = ok tt
check_cycles stories (s ∷ ss) =
    refuse_walk (walk stories (length stories) [] (some s)) >> check_cycles stories ss

module _ (rt : PlanningRuntime) where
  unfoldable pub sanitize_planning_text : String → ℕ → String
  sanitize_planning_text s most =
      let cleaned = rt.replace control (rt.replace comment (rt.replace escape s)) in
      let headers = rt.replace assignment (rt.replace bearer cleaned) in
      let tokens = rt.replace github_token (rt.replace openai_key headers) in
      let keys = rt.replace aws_key (rt.replace google_key tokens) in
      take_points most (rt.trim (rt.replace spaces keys))

  unfoldable pub validate_text : String → ℕ → Result PlanningError (Unit {0})
  unfolding sanitize_planning_text
  validate_text s most = guard (s is sanitize_planning_text s most) unsafe_text

  abbrev pub validate_date : String → Result PlanningError (Unit {0})
  validate_date s = guard (rt.is_date s) bad_date

  unfoldable pub check_epics : List String → List PlanningEpic → Result PlanningError (List String)
  unfolding is_epic_id validate_text
  check_epics seen [] = ok seen
  check_epics seen (e ∷ es) =
      guard (is_epic_id e.id && not (includes seen e.id)) bad_epic_id
      >> validate_text e.title 120
      >> validate_text e.goal 500
      >> validate_date e.created_at
      >> check_epics (e.id ∷ seen) es

  -- The second loop: `seen` holds the keys of `stories`.
  unfoldable pub check_stories :
      List String → List String → List PlanningStory → Result PlanningError (Unit {0})
  unfolding is_story_id validate_text append has_prefix
  check_stories epics seen [] = ok tt
  check_stories epics seen (s ∷ ss) =
      guard (is_story_id s.id && not (includes seen s.id)) bad_story_id
      >> guard (includes epics s.epic_id) no_epic
      >> guard (has_prefix (append "ST-" (append (drop_points 3 s.epic_id) "-")) s.id) wrong_epic
      >> validate_text s.title 120
      >> validate_text s.acceptance 500
      >> validate_date s.created_at
      >> check_stories epics (s.id ∷ seen) ss

  -- The first three loops.
  unfoldable pub check_entries : PlanningSnapshot → Result PlanningError (Unit {0})
  unfolding check_epics check_stories check_supersedes
  check_entries p = check_epics [] p.epics >>= λ epics.
      check_stories epics [] p.stories >> check_supersedes p.stories 0 p.stories

  unfoldable pub validate_planning_snapshot : PlanningSnapshot → Result PlanningError (Unit {0})
  unfolding check_entries check_cycles
  validate_planning_snapshot p = check_entries p >> check_cycles p.stories p.stories

  unfoldable pub create_planning_snapshot :
      ℕ → List PlanningEpic → List PlanningStory → Result PlanningError PlanningSnapshot
  unfolding validate_planning_snapshot
  create_planning_snapshot revision epics stories =
      let p : PlanningSnapshot = record { revision = revision; epics = epics; stories = stories } in
      guard (leb revision 9007199254740991) bad_revision >> validate_planning_snapshot p >> ok p
