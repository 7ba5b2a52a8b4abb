-- ===== src/Redaction.antt =====
-- domain/redaction.ts: what may leave for another provider, and which part of a response is public.
-- The regular expressions are a record of functions.
pub mod Findings
pub mod Envelopes
use Prim.Native.Char.{code}
use Prim.Native.String
use world_wide_woo.Common.{
  ℕ, zero, suc, ◌+◌, String, Bool, true, false, not, ◌&&◌, ◌||◌, Option, none, some, List, [], ◌∷◌,
  ◌++◌, ◌==◌, if◌then◌else◌,
}
use world_wide_woo.Value.{is_empty}
use world_wide_woo.Decimal.{append}
use world_wide_woo.Lines.{split_crlf}

pub data ReviewSensitiveKind : Type 0 where
  secret local_path customer_identifier : ReviewSensitiveKind

pub record ReviewRedactionFinding : Type 0 where
  pub kind : ReviewSensitiveKind
  pub replacement : String

-- `ReviewRedactionResult`, and the state of the loops that build it.
pub record Redacted : Type 0 where
  pub text : String
  pub findings : List ReviewRedactionFinding

pub data RedactionPattern : Type 0 where
  private_key authorization bearer assignment key_token json_web_token : RedactionPattern
  absolute_path relative_path : RedactionPattern
  customer_field customer_token korean_customer email phone labelled_phone : RedactionPattern

abbrev pub secret_patterns : List RedactionPattern
secret_patterns =
    private_key ∷ authorization ∷ bearer ∷ assignment ∷ key_token ∷ json_web_token ∷ []

abbrev pub local_path_patterns : List RedactionPattern
local_path_patterns = absolute_path ∷ relative_path ∷ []

abbrev pub customer_identifier_patterns : List RedactionPattern
customer_identifier_patterns =
    customer_field ∷ customer_token ∷ korean_customer ∷ email ∷ phone ∷ labelled_phone ∷ []

-- `strip` is the two replacements of `stripControls`; `replace p r s` puts `r` for each match of `p`
-- in `s`, and says how many there were.
pub record RedactionRuntime : Type 0 where
  pub strip : String → String
  pub replace : RedactionPattern → String → String → String × ℕ

abbrev pub kind_name : ReviewSensitiveKind → String
kind_name secret = "secret"
kind_name local_path = "local-path"
kind_name customer_identifier = "customer-identifier"

unfoldable pub replacement_for : ReviewSensitiveKind → String
unfolding append
replacement_for kind = append "[redacted:" (append (kind_name kind) "]")

abbrev pub repeated {ℓ} : {A : Type ℓ} → ℕ → A → List A
repeated zero a = []
repeated (suc n) a = a ∷ repeated n a

module _ (rt : RedactionRuntime) where
  unfoldable pub redact : List RedactionPattern → ReviewSensitiveKind → Redacted → Redacted
  redact [] kind r = r
  redact (p ∷ ps) kind r =
      let replaced = rt.replace p (replacement_for kind) r.text in
      redact ps kind (record {
        text = replaced.0;
        findings =
            r.findings
            ++ repeated replaced.1 (record { kind = kind; replacement = replacement_for kind });
      })

  unfoldable pub redact_for_external_review : String → Redacted
  unfolding redact
  redact_for_external_review s = redact customer_identifier_patterns customer_identifier (
      redact local_path_patterns local_path
        (redact secret_patterns secret (record { text = rt.strip s; findings = [] })))

-- The sections of a completion envelope.
pub data Section : Type 0 where
  analysis results files answer next_steps : Section

abbrev pub same_section : Section → Section → Bool
same_section analysis analysis = true
same_section results results = true
same_section files files = true
same_section answer answer = true
same_section next_steps next_steps = true
same_section _ _ = false

abbrev pub is_answer : Section → Bool
is_answer s = same_section s answer

pub data Tag : Type 0 where
  opens closes : Section → Tag

pub record Fence : Type 0 where
  pub marker : String
  pub length : ℕ

-- What the expressions find in a line; a section's name comes without regard to its case.
pub record EnvelopeRuntime : Type 0 where
  pub fence_open : String → Option Fence
  pub fence_closes : Fence → String → Bool
  pub section : String → Option (Section × String)
  pub close_suffix : String → Option (String × Section)
  pub tag : String → Option Tag
  pub open_prefix : String → Option (Section × String)
  pub trim : String → String

-- The variables of the loop; the answer's lines come latest first.
pub record Envelope : Type 0 where
  pub active : Option Section
  pub fence : Option Fence
  pub answer_count : ℕ
  pub saw_envelope : Bool
  pub answer_lines : List String

abbrev pub outside : Envelope
outside = record {
  active = none;
  fence = none;
  answer_count = 0;
  saw_envelope = false;
  answer_lines = [];
}

-- How a round of the loop goes on: with the next line, or with a `return` of the whole text or of
-- the answer so far.
pub data Round : Type 0 where
  next : Envelope → Round
  whole : Round
  answer_of : Envelope → Round

abbrev pub in_answer : Option Section → Bool
in_answer none = false
in_answer (some s) = is_answer s

abbrev pub is_inside : Option Section → Bool
is_inside none = false
is_inside (some s) = true

abbrev pub push_if : Bool → String → Envelope → Envelope
push_if b l e = if b then record e { answer_lines = l ∷ e.answer_lines } else e

-- A section begins: an answer is counted.
abbrev pub counted : Section → Envelope → Envelope
counted s e = if is_answer s then record e { answer_count = e.answer_count + 1 } else e

abbrev pub enter : Section → Envelope → Envelope
enter s e = counted s (record e { saw_envelope = true; active = some s })

-- A whole section on one line.
abbrev pub one_line : Section → String → Envelope → Envelope
one_line s body e = push_if (is_answer s) body (counted s (record e { saw_envelope = true }))

module _ (rt : EnvelopeRuntime) where
  abbrev pub in_fence : Fence → String → Envelope → Envelope
  in_fence f l e =
      push_if (in_answer e.active) l (if rt.fence_closes f l then record e { fence = none } else e)

  abbrev pub open_fence : Fence → String → Envelope → Envelope
  open_fence f l e = push_if (in_answer e.active) l (record e { fence = some f })

  abbrev pub is_blank : String → Bool
  is_blank l = is_empty (rt.trim l)

  -- `return sawEnvelope ? projectedAnswer() : value`.
  abbrev pub give_up : Envelope → Round
  give_up e = if e.saw_envelope then answer_of e else whole

  abbrev pub on_tag : Tag → Envelope → (Envelope → Round) → Round
  on_tag (opens s) e refused =
      let seen = record e { saw_envelope = true } in
      if is_inside e.active then refused seen else next (enter s e)
  on_tag (closes s) e refused =
      let seen = record e { saw_envelope = true } in
      elim e.active [
        | none ↦ refused seen
        | some a ↦ if same_section a s then next (record seen { active = none }) else refused seen
      ]

  -- The last two lines of the loop.
  abbrev pub on_text : String → Envelope → (Envelope → Round) → Round
  on_text l e refused =
      if in_answer e.active
      then next (push_if true l e)
      else if not (is_inside e.active) && not (is_blank l)
      then refused e
      else next e

  abbrev pub on_prefix : String → Envelope → Round
  on_prefix l e = elim (rt.open_prefix l) [
    | none ↦ on_text l e give_up
    | some found ↦
        if is_inside e.active
        then answer_of e
        else next (push_if (is_answer found.0) found.1 (enter found.0 e))
  ]

  abbrev pub on_bare_tag : String → Envelope → Round
  on_bare_tag l e = elim (rt.tag l) [ some t ↦ on_tag t e answer_of | none ↦ on_prefix l e ]

  abbrev pub on_suffix : String → Envelope → Round
  on_suffix l e = elim e.active [
    | none ↦ on_bare_tag l e
    | some a ↦ elim (rt.close_suffix l) [
      | none ↦ on_bare_tag l e
      | some found ↦
          if same_section a found.1
          then next (record (push_if (is_answer a) found.0 e) { active = none })
          else answer_of e
    ]
  ]

  -- A round of `sanitizePartialAssistantResponse`.
  unfoldable pub partial_round : String → Envelope → Round
  partial_round l e = elim e.fence [
    | some f ↦ next (in_fence f l e)
    | none ↦ elim (rt.fence_open l) [
      | some f ↦ if is_inside e.active then next (open_fence f l e) else give_up e
      | none ↦ elim (rt.section l) [
        | some found ↦ if is_inside e.active then answer_of e else next (one_line found.0 found.1 e)
        | none ↦ on_suffix l e
      ]
    ]
  ]

  -- A round of `sanitizeCompletedAssistantResponse`, which returns the whole text where it returns.
  unfoldable pub completed_round : String → Envelope → Round
  completed_round l e = elim e.fence [
    | some f ↦ next (in_fence f l e)
    | none ↦ elim (rt.fence_open l) [
      | some f ↦ if is_inside e.active then next (open_fence f l e) else whole
      | none ↦ elim (rt.section l) [
        | some found ↦ if is_inside e.active then whole else next (one_line found.0 found.1 e)
        | none ↦ elim (rt.tag l) [
          | some t ↦ on_tag t e (λ _. whole)
          | none ↦ on_text l e (λ _. whole)
        ]
      ]
    ]
  ]

  abbrev pub then_round : Round → (Envelope → Round) → Round
  then_round (next e) k = k e
  then_round whole k = whole
  then_round (answer_of e) k = answer_of e

  -- The loop over the lines, and what stands after it.
  unfoldable pub partial_lines : List String → Envelope → Round
  partial_lines [] e = give_up e
  partial_lines (l ∷ ls) e = then_round (partial_round l e) (partial_lines ls)

  abbrev pub completed_end : Envelope → Round
  completed_end e =
      if e.saw_envelope && not (is_inside e.active) && e.answer_count == 1
      then answer_of e
      else whole

  unfoldable pub completed_lines : List String → Envelope → Round
  completed_lines [] e = completed_end e
  completed_lines (l ∷ ls) e = then_round (completed_round l e) (completed_lines ls)

  -- `answer.join("\n")`, the latest line first.
  abbrev pub joined : List String → String
  joined [] = ""
  joined (l ∷ []) = l
  joined (l ∷ m ∷ ls) = append (joined (m ∷ ls)) (append "\n" l)

  -- `projectedAnswer`.
  abbrev pub projected_answer : Envelope → String
  projected_answer e = if e.answer_count == 1 then rt.trim (joined e.answer_lines) else ""

  abbrev pub shown : String → Round → String
  shown value (next e) = value
  shown value whole = value
  shown value (answer_of e) = projected_answer e

  -- `sanitizePartialAssistantResponse` and `sanitizeCompletedAssistantResponse`.
  unfoldable pub sanitize_partial_assistant_response : String → String
  unfolding split_crlf partial_lines append
  sanitize_partial_assistant_response value = shown value (partial_lines (split_crlf value) outside)

  unfoldable pub sanitize_completed_assistant_response : String → String
  unfolding split_crlf completed_lines append
  sanitize_completed_assistant_response value =
      shown value (completed_lines (split_crlf value) outside)
