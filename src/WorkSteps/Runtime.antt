-- ===== src/WorkSteps/Runtime.antt =====
-- domain/work-steps.ts: what it takes from the language (regular expressions, NFKC, JSON) and from
-- its caller (the hash), the errors that it throws, and the texts that it shows.
use Prim.Native.Char.{code}
use world_wide_woo.Common.{
  ℕ, ◌+◌, ◌/◌, ◌%◌, String, Bool, ◌||◌, List, [], ◌∷◌, ◌++◌, ltb, leb, ◌==◌, if◌then◌else◌, Result,
  ok, err, Option,
}
use world_wide_woo.Value.{Value, Fields, get, fields_of}
use world_wide_woo.Decimal.{decimal as print}
use world_wide_woo.Lines.{starts_with_newline}
use world_wide_woo.Terminal.{TerminalRuntime, head_tail, sanitize_terminal_text_excerpt}
use world_wide_woo.Redaction.{RedactionRuntime, redact_for_external_review}

-- The tests of `technicalNarration`, `classifyWorkActivity` and `isReadOnlyShell`, in their order.
pub data WorkPattern : Type 0 where
  technical_label technical_command technical_path technical_file technical_option : WorkPattern
  acting_tool reading_tool : WorkPattern
  acting_command package_change git_change find_change sed_change redirection : WorkPattern
  read_command : WorkPattern

pub record WorkRuntime : Type 0 where
  pub sha256_hex : List ℕ → String
  pub nfkc : String → String
  pub trim : String → String
  pub collapse_spaces : String → String
  pub lower_case : String → String
  pub stringify : Value → String
  pub matches : WorkPattern → String → Bool
  pub without_null_redirections : String → String
  pub split_commands : String → List String
  pub without_assignments : String → String
  pub without_parenthesis : String → String
  pub terminal : TerminalRuntime
  pub redaction : RedactionRuntime

pub data DplanError : Type 0 where
  invalid_number identity_collision : DplanError

-- `decimal`: `Number.isSafeInteger`, of a number that is not negative.
unfoldable pub decimal : ℕ → Result DplanError String
decimal n = if leb n 9007199254740991 then ok (print n) else err invalid_number

-- `TextEncoder.encode`.
abbrev pub utf8_code : ℕ → List ℕ
utf8_code c =
    if ltb c 128
    then c ∷ []
    else if ltb c 2048
    then (192 + c / 64) ∷ (128 + c % 64) ∷ []
    else if ltb c 65536
    then (224 + c / 4096) ∷ (128 + (c / 64) % 64) ∷ (128 + c % 64) ∷ []
    else (240 + c / 262144) ∷ (128 + (c / 4096) % 64) ∷ (128 + (c / 64) % 64) ∷ (128 + c % 64) ∷ []

unfoldable pub utf8 : String → List ℕ
utf8 String.[] = []
utf8 (String.◌∷◌ c s) = utf8_code (code c) ++ utf8 s

-- `[...text]`.
unfoldable pub codes : String → List ℕ
codes String.[] = []
codes (String.◌∷◌ c s) = code c ∷ codes s

-- `.replace(/\r\n?/gu, "\n")`.
unfoldable pub single_newlines : String → String
single_newlines String.[] = ""
single_newlines (String.◌∷◌ c s) =
    let rest = single_newlines s in
    if code c == 13
    then if starts_with_newline s then rest else String.◌∷◌ "\n" rest
    else String.◌∷◌ c rest

-- `.replace(/[-_.]/gu, " ")`.
unfoldable pub separators_to_spaces : String → String
separators_to_spaces String.[] = ""
separators_to_spaces (String.◌∷◌ c s) =
    let rest = separators_to_spaces s in
    if code c == b'-' || code c == b'_' || code c == b'.'
    then String.◌∷◌ " " rest
    else String.◌∷◌ c rest

-- `record(fields.key)`.
unfoldable pub record_at : String → Fields → Option Fields
unfolding get
record_at key fs = fields_of (get key fs)

abbrev pub max_public_text : ℕ
max_public_text = 1200

module _ (rt : WorkRuntime) where
  unfoldable pub token : String → String
  unfolding single_newlines
  token s = rt.collapse_spaces (rt.trim (single_newlines (rt.nfkc s)))

  unfoldable pub public_text : String → String
  unfolding sanitize_terminal_text_excerpt redact_for_external_review
  public_text s =
      let excerpt = sanitize_terminal_text_excerpt rt.terminal head_tail max_public_text s in
      rt.trim (redact_for_external_review rt.redaction excerpt).text

  unfoldable pub technical_narration : String → Bool
  technical_narration s =
      rt.matches technical_label s
      || rt.matches technical_command s
      || rt.matches technical_path s
      || rt.matches technical_file s
      || rt.matches technical_option s
