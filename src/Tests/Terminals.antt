-- ===== src/Tests/Terminals.antt =====
-- The terminal's render scheduler and exit keys at concrete inputs.
use world_wide_woo.Common.{◌<◌, ◌≡◌, refl, true, false, List, [], ◌∷◌}
use world_wide_woo.RenderScheduler.{
  streaming, immediate, idle, perform, stream, request, timer_fires, prioritize_input,
  microtask_runs, dispose, Step, requests, input_comes, step, steps,
}
use world_wide_woo.RenderScheduler.Keeping.{pending_drawn, dispose-silent}
use world_wide_woo.ExitKeyPolicy.{exit, ctrl_c, reset}
use world_wide_woo.ExitKeyPolicy.Presses.{Gesture, presses, resets, after, Doubled, exit-Doubled}

abbrev busy : List Step
busy = requests streaming 0 ∷ requests streaming 10 ∷ input_comes ∷ requests immediate 12 ∷ []

busy_pending : (steps 64 busy idle).pending ≡ true
unfolding steps step request stream perform prioritize_input
busy_pending = refl

pending_drawn_example :
    ((steps 64 busy idle).frames
      < (timer_fires 80 (microtask_runs 64 13 (steps 64 busy idle))).frames)
    × ((timer_fires 80 (microtask_runs 64 13 (steps 64 busy idle))).pending ≡ false)
pending_drawn_example = pending_drawn 64 busy 13 80 busy_pending

dispose-silent_example : (steps 64 busy (dispose idle)).frames ≡ 0
dispose-silent_example = dispose-silent 64 idle busy

abbrev pressed_once : List Gesture
pressed_once = presses true 100 ∷ resets ∷ []

exits : (ctrl_c 500 false 300 (after 500 pressed_once)).0 ≡ exit
unfolding after ctrl_c reset
exits = refl

exit-Doubled_example : Doubled 500 300 pressed_once
exit-Doubled_example = exit-Doubled 500 false 300 pressed_once exits
