-- ===== src/Terminal.antt =====
-- domain/terminal.ts: excerpts of untrusted terminal text. What the regular expressions replace is a
-- record of functions; a text is its code points, and `length` counts UTF-16 units.
pub mod Bounds
use Prim.Native.String
use world_wide_woo.Common.{
  ℕ, ◌+◌, ◌-◌, ◌/◌, String, Bool, true, false, ◌&&◌, leb, ltb, if◌then◌else◌,
}
use world_wide_woo.Value.{points, units, take_points, drop_points}
use world_wide_woo.Decimal.{append}

-- The expressions of `sanitizeTerminalTextUnbounded`, `redactTerminalSecrets` and
-- `discardCutTailToken`, each with its replacement.
pub data TerminalPattern : Type 0 where
  osc csi cut_csi charset other_escape control : TerminalPattern
  private_key url_password authorization bearer assignment : TerminalPattern
  openai_key github_token google_key aws_key json_web_token : TerminalPattern
  leading_token : TerminalPattern

pub record TerminalRuntime : Type 0 where
  pub replace : TerminalPattern → String → String

pub data ExcerptMode : Type 0 where
  head tail head_tail : ExcerptMode

abbrev pub truncation_marker : String
truncation_marker = "…[output truncated]\n"

abbrev pub boundary_context_code_points : ℕ
boundary_context_code_points = 512

-- `takeTailCodePoints`.
abbrev pub take_tail_points : ℕ → String → String
take_tail_points n s = drop_points (points s - n) s

module _ (rt : TerminalRuntime) where
  unfoldable pub redact_terminal_secrets : String → String
  redact_terminal_secrets s =
      let keys = rt.replace url_password (rt.replace private_key s) in
      let headers = rt.replace bearer (rt.replace authorization keys) in
      let assigned = rt.replace assignment headers in
      let tokens = rt.replace github_token (rt.replace openai_key assigned) in
      rt.replace json_web_token (rt.replace aws_key (rt.replace google_key tokens))

  unfoldable pub sanitize_terminal_text_unbounded : String → String
  unfolding redact_terminal_secrets
  sanitize_terminal_text_unbounded s =
      let sequences = rt.replace cut_csi (rt.replace csi (rt.replace osc s)) in
      redact_terminal_secrets
        (rt.replace control (rt.replace other_escape (rt.replace charset sequences)))

  -- The start of a long text, sanitized with some context and then cut.
  unfoldable pub safe_head : ℕ → String → String
  safe_head budget s =
      take_points budget
        (sanitize_terminal_text_unbounded (take_points (budget + boundary_context_code_points) s))

  -- Its end; a token that the cut may have split is left out.
  unfoldable pub safe_tail : ℕ → String → String
  safe_tail budget s =
      let raw = take_tail_points (budget + boundary_context_code_points) s in
      let safe = sanitize_terminal_text_unbounded raw in
      take_tail_points budget
        (if ltb (units raw) (units s) then rt.replace leading_token safe else safe)

  unfoldable pub long_excerpt : ExcerptMode → ℕ → String → String
  unfolding append safe_head safe_tail
  long_excerpt head budget s = append (safe_head budget s) truncation_marker
  long_excerpt tail budget s = append truncation_marker (safe_tail budget s)
  long_excerpt head_tail budget s =
      let half = (budget + 1) / 2 in
      append (safe_head half s) (append truncation_marker (safe_tail (budget - half) s))

  -- `sanitizeTerminalTextExcerpt`. A maximum of 0 stands for every one that is not positive.
  unfoldable pub sanitize_terminal_text_excerpt : ExcerptMode → ℕ → String → String
  unfolding long_excerpt sanitize_terminal_text_unbounded
  sanitize_terminal_text_excerpt mode max s =
      if leb max 0
      then ""
      else if leb (units s) max && leb (points s) max
      then sanitize_terminal_text_unbounded s
      else if leb max (points truncation_marker)
      then take_points max truncation_marker
      else long_excerpt mode (max - points truncation_marker) s

  unfoldable pub sanitize_terminal_text : ℕ → String → String
  unfolding sanitize_terminal_text_excerpt
  sanitize_terminal_text max s = sanitize_terminal_text_excerpt tail max s
