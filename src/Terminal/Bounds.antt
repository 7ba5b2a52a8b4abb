-- ===== src/Terminal/Bounds.antt =====
-- domain/terminal.ts: how long an excerpt is.
use world_wide_woo.Common.{ℕ, zero, suc, ◌+◌, ◌-◌, ◌/◌, ◌≤◌, ◌<◌, ◌≡◌, String, arith}
use world_wide_woo.Value.{points, units, take_points, drop_points}
use world_wide_woo.Decimal.{append}
use world_wide_woo.Terminal.{
  TerminalRuntime, ExcerptMode, head, tail, head_tail, truncation_marker, take_tail_points,
  safe_head, safe_tail, long_excerpt, sanitize_terminal_text_excerpt,
}

points-take : (n : ℕ) (s : String) → points (take_points n s) ≤ n
points-take zero s = omega arith
points-take (suc n) String.[] = omega arith
points-take (suc n) (String.◌∷◌ c s) = omega (arith, points-take n s)

points-drop : (n : ℕ) (s : String) → points (drop_points n s) ≡ points s - n
points-drop zero s = omega arith
points-drop (suc n) String.[] = omega arith
points-drop (suc n) (String.◌∷◌ c s) = omega (arith, points-drop n s)

points-take_tail : (n : ℕ) (s : String) → points (take_tail_points n s) ≤ n
points-take_tail n s = omega (arith, points-drop (points s - n) s)

points-append : (s t : String) → points (append s t) ≡ points s + points t
unfolding append
points-append String.[] t = omega arith
points-append (String.◌∷◌ c s) t = omega (arith, points-append s t)

module _ (rt : TerminalRuntime) where
  safe_head_bound : (budget : ℕ) (s : String) → points (safe_head rt budget s) ≤ budget
  unfolding safe_head
  safe_head_bound budget s = points-take budget _

  safe_tail_bound : (budget : ℕ) (s : String) → points (safe_tail rt budget s) ≤ budget
  unfolding safe_tail
  safe_tail_bound budget s = points-take_tail budget _

  long_excerpt_bound :
      (mode : ExcerptMode) (budget : ℕ) (s : String)
      → points (long_excerpt rt mode budget s) ≤ budget + points truncation_marker
  unfolding long_excerpt
  long_excerpt_bound head budget s =
      omega
        (arith, points-append (safe_head rt budget s) truncation_marker, safe_head_bound budget s)
  long_excerpt_bound tail budget s =
      omega
        (arith, points-append truncation_marker (safe_tail rt budget s), safe_tail_bound budget s)
  long_excerpt_bound head_tail budget s =
      let half = (budget + 1) / 2 in
      omega (
        arith,
        points-append (safe_head rt half s)
            (append truncation_marker (safe_tail rt (budget - half) s)),
        points-append truncation_marker (safe_tail rt (budget - half) s),
        safe_head_bound half s,
        safe_tail_bound (budget - half) s,
      )

  -- An excerpt of a text that is longer than its maximum has at most that many code points.
  pub sanitize_terminal_text_excerpt_bound :
      (mode : ExcerptMode) (max : ℕ) (s : String)
      → max < units s
      → points (sanitize_terminal_text_excerpt rt mode max s) ≤ max
  unfolding sanitize_terminal_text_excerpt
  sanitize_terminal_text_excerpt_bound mode max s h = ground (
    arith,
    points-take max truncation_marker,
    long_excerpt_bound mode (max - points truncation_marker) s,
  )
