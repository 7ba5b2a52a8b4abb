-- ===== src/ExitKeyPolicy/Presses.antt =====
-- presentation/tui/exit-key-policy.ts: what has to come before an exit.
use world_wide_woo.Common.{
  ℕ, ◌+◌, ◌≤◌, ◌<◌, ◌≡◌, ◌≢◌, refl, Bool, true, false, List, [], ◌∷◌, arith, Bool-cases, inl, inr,
  if◌then◌else◌,
}
use world_wide_woo.ExitKeyPolicy.{clear, abort, exit, Policy, untouched, is_double, ctrl_c, reset}

pub data Gesture : Type 0 where
  presses : Bool → ℕ → Gesture
  resets : Gesture

-- The policy after a history of gestures, the latest first.
unfoldable pub after : ℕ → List Gesture → Policy
unfolding ctrl_c reset
after window [] = untouched
after window (presses is_streaming now ∷ gs) = (ctrl_c window is_streaming now (after window gs)).1
after window (resets ∷ gs) = reset (after window gs)

-- The press that an exit answers to: the gesture right before, in the window, itself no exit.
pub record Doubled (window now : ℕ) (gs : List Gesture) : Type 0 where
  pub earlier : List Gesture
  pub was_streaming : Bool
  pub last : ℕ
  pub history : gs ≡ presses was_streaming last ∷ earlier
  pub no_exit : (ctrl_c window was_streaming last (after window earlier)).0 ≢ exit
  pub started : last ≤ now
  pub in_time : now < last + window

not_exit : (is_streaming : Bool) → (if is_streaming then abort else clear) ≢ exit
not_exit true h = cc
not_exit false h = cc

-- Ctrl-C exits only as the second of two presses with no gesture between them, less than the window
-- apart, the first of which did not exit.
pub exit-Doubled :
    (window : ℕ) (is_streaming : Bool) (now : ℕ) (gs : List Gesture)
    → (ctrl_c window is_streaming now (after window gs)).0 ≡ exit
    → Doubled window now gs
unfolding after ctrl_c reset
exit-Doubled window is_streaming now [] h = absurd (not_exit is_streaming h)
exit-Doubled window is_streaming now (resets ∷ gs) h = absurd (not_exit is_streaming h)
exit-Doubled window is_streaming now (presses b last ∷ gs) h =
    elim (Bool-cases (is_double window last (after window gs).last_ctrl_c_at)) [
      | inl twice ↦ absurd (ground (arith, twice, h, not_exit is_streaming))
      | inr once ↦ record {
        earlier = gs;
        was_streaming = b;
        last = last;
        history = refl;
        no_exit = rw once (not_exit b);
        started = ground (arith, once, h, not_exit is_streaming);
        in_time = ground (arith, once, h, not_exit is_streaming);
      }
    ]
