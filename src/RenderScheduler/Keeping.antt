-- ===== src/RenderScheduler/Keeping.antt =====
-- presentation/tui/render-scheduler.ts: what becomes of a repaint that was asked for, and of one
-- after `dispose`.
use world_wide_woo.Common.{
  ℕ, ◌<◌, ◌≡◌, refl, Bool, true, false, ◌||◌, Option, none, some, List, [], ◌∷◌, arith, ◌∙◌,
}
use world_wide_woo.RenderScheduler.{
  RenderUrgency, Scheduler, idle, perform, flush, stream, request, timer_fires, prioritize_input,
  microtask_runs, dispose, Step, requests, input_comes, microtask, timer, flushes, disposes, step,
  steps,
}

abbrev pub has_timer : Option ℕ → Bool
has_timer none = false
has_timer (some d) = true

-- What is pending waits for a timer or for the microtask, which never wait together; after `dispose` nothing is pending.
pub record IsKept (s : Scheduler) : Type 0 where
  pub awaited : s.pending ≡ true → (has_timer s.timer || s.input_pending) ≡ true
  pub urgent : s.immediate_pending ≡ true → (s.pending ≡ true) × (s.input_pending ≡ true)
  pub alone : s.input_pending ≡ true → has_timer s.timer ≡ false
  pub gone : s.disposed ≡ true → (s.pending ≡ false) × (has_timer s.timer ≡ false)

flush-IsKept : (now : ℕ) (s : Scheduler) → IsKept s → IsKept (flush now s)
unfolding flush
flush-IsKept now s h = record {
  awaited = ground (arith, h.awaited, h.urgent, h.alone, h.gone);
  urgent = ground (arith, h.awaited, h.urgent, h.alone, h.gone);
  alone = ground (arith, h.awaited, h.urgent, h.alone, h.gone);
  gone = ground (arith, h.awaited, h.urgent, h.alone, h.gone);
}

prioritize_input-IsKept : (s : Scheduler) → IsKept s → IsKept (prioritize_input s)
unfolding prioritize_input
prioritize_input-IsKept s h = record {
  awaited = ground (arith, h.awaited, h.urgent, h.alone, h.gone);
  urgent = ground (arith, h.awaited, h.urgent, h.alone, h.gone);
  alone = ground (arith, h.awaited, h.urgent, h.alone, h.gone);
  gone = ground (arith, h.awaited, h.urgent, h.alone, h.gone);
}

timer_fires-IsKept : (now : ℕ) (s : Scheduler) → IsKept s → IsKept (timer_fires now s)
unfolding timer_fires perform
timer_fires-IsKept now s h = record {
  awaited = ground (arith, h.awaited, h.urgent, h.alone, h.gone);
  urgent = ground (arith, h.awaited, h.urgent, h.alone, h.gone);
  alone = ground (arith, h.awaited, h.urgent, h.alone, h.gone);
  gone = ground (arith, h.awaited, h.urgent, h.alone, h.gone);
}

module _ (interval : ℕ) where
  request-IsKept :
      (urgency : RenderUrgency) (now : ℕ) (s : Scheduler)
      → IsKept s
      → IsKept (request interval urgency now s)
  unfolding request stream perform flush
  request-IsKept urgency now s h = record {
    awaited = ground (arith, h.awaited, h.urgent, h.alone, h.gone);
    urgent = ground (arith, h.awaited, h.urgent, h.alone, h.gone);
    alone = ground (arith, h.awaited, h.urgent, h.alone, h.gone);
    gone = ground (arith, h.awaited, h.urgent, h.alone, h.gone);
  }

  microtask_runs-IsKept :
      (now : ℕ) (s : Scheduler) → IsKept s → IsKept (microtask_runs interval now s)
  unfolding microtask_runs request stream perform flush
  microtask_runs-IsKept now s h = record {
    awaited = ground (arith, h.awaited, h.urgent, h.alone, h.gone);
    urgent = ground (arith, h.awaited, h.urgent, h.alone, h.gone);
    alone = ground (arith, h.awaited, h.urgent, h.alone, h.gone);
    gone = ground (arith, h.awaited, h.urgent, h.alone, h.gone);
  }

  step-IsKept : (e : Step) (s : Scheduler) → IsKept s → IsKept (step interval e s)
  unfolding step dispose
  step-IsKept (requests urgency now) s h = request-IsKept urgency now s h
  step-IsKept input_comes s h = prioritize_input-IsKept s h
  step-IsKept (microtask now) s h = microtask_runs-IsKept now s h
  step-IsKept (timer now) s h = timer_fires-IsKept now s h
  step-IsKept (flushes now) s h = flush-IsKept now s h
  step-IsKept disposes s h = record {
    awaited = λ p. cc;
    urgent = λ p. cc;
    alone = λ p. refl;
    gone = λ p. (refl, refl);
  }

  steps-IsKept : (es : List Step) (s : Scheduler) → IsKept s → IsKept (steps interval es s)
  unfolding steps
  steps-IsKept [] s h = h
  steps-IsKept (e ∷ es) s h = steps-IsKept es (step interval e s) (step-IsKept e s h)

  settled :
      (s : Scheduler) (now later : ℕ)
      → IsKept s
      → s.pending ≡ true
      → (s.frames < (timer_fires later (microtask_runs interval now s)).frames)
        × ((timer_fires later (microtask_runs interval now s)).pending ≡ false)
  unfolding timer_fires microtask_runs request stream perform flush
  settled s now later h p = (
    ground (arith, h.awaited p, h.urgent, h.alone, h.gone, p),
    ground (arith, h.awaited p, h.urgent, h.alone, h.gone, p),
  )

  -- Whatever calls and callbacks came before, a repaint that is pending is drawn once the microtask
  -- and the timer that then run have run, and nothing is pending after that.
  pub pending_drawn :
      (es : List Step) (now later : ℕ)
      → (steps interval es idle).pending ≡ true
      → ((steps interval es idle).frames
          < (timer_fires later (microtask_runs interval now (steps interval es idle))).frames)
        × ((timer_fires later (microtask_runs interval now (steps interval es idle))).pending
            ≡ false)
  pending_drawn es now later p =
      let h : IsKept idle = record {
        awaited = λ q. cc;
        urgent = λ q. cc;
        alone = λ q. refl;
        gone = λ q. cc;
      } in
      settled (steps interval es idle) now later (steps-IsKept es idle h) p

  silent :
      (e : Step) (s : Scheduler)
      → s.disposed ≡ true
      → s.pending ≡ false
      → ((step interval e s).disposed ≡ true)
        × ((step interval e s).pending ≡ false)
        × ((step interval e s).frames ≡ s.frames)
  unfolding step request prioritize_input microtask_runs timer_fires flush dispose
  silent (requests urgency now) s d p = ground arith
  silent input_comes s d p = ground arith
  silent (microtask now) s d p = ground arith
  silent (timer now) s d p = ground arith
  silent (flushes now) s d p = ground arith
  silent disposes s d p = (refl, refl, refl)

  steps_silent :
      (es : List Step) (s : Scheduler)
      → s.disposed ≡ true
      → s.pending ≡ false
      → (steps interval es s).frames ≡ s.frames
  unfolding steps
  steps_silent [] s d p = refl
  steps_silent (e ∷ es) s d p =
      let q = silent e s d p in steps_silent es (step interval e s) q.0 q.1 ∙ q.2

  -- After `dispose` no call and no callback draws anything.
  pub dispose-silent :
      (s : Scheduler) (es : List Step) → (steps interval es (dispose s)).frames ≡ s.frames
  unfolding dispose
  dispose-silent s es = steps_silent es (dispose s) refl refl
