-- ===== src/RenderScheduler.antt =====
-- presentation/tui/render-scheduler.ts: which repaints happen at once, and which wait. A call to the
-- clock is an input of the step that reads it, in whole milliseconds; `frames` counts the calls of
-- `renderNow`. The timer and the microtask that the scheduler hands to its surroundings come back
-- as steps.
pub mod Keeping
use world_wide_woo.Common.{
  ℕ, suc, ◌+◌, ◌-◌, String, Bool, true, false, not, ◌&&◌, ◌||◌, Option, none, some, List, [], ◌∷◌,
  leb, ◌==◌, ◌is◌, if◌then◌else◌,
}

pub data RenderUrgency : Type 0 where
  streaming immediate : RenderUrgency

pub record WorkbenchRenderState : Type 0 where
  pub phase : String
  pub journal_sequence : ℕ

unfoldable pub workbench_render_urgency :
    WorkbenchRenderState → WorkbenchRenderState → RenderUrgency
workbench_render_urgency previous next =
    if (previous.phase is "working")
      && (next.phase is "working")
      && previous.journal_sequence == next.journal_sequence
    then streaming
    else immediate

abbrev pub is_immediate : RenderUrgency → Bool
is_immediate streaming = false
is_immediate immediate = true

-- The fields of `RenderScheduler`; `timer` is the delay of the timer that runs.
pub record Scheduler : Type 0 where
  pub last_render_at : Option ℕ
  pub timer : Option ℕ
  pub pending : Bool
  pub immediate_pending : Bool
  pub input_pending : Bool
  pub disposed : Bool
  pub frames : ℕ

abbrev pub idle : Scheduler
idle = record {
  last_render_at = none;
  timer = none;
  pending = false;
  immediate_pending = false;
  input_pending = false;
  disposed = false;
  frames = 0;
}

unfoldable pub perform : ℕ → Scheduler → Scheduler
perform timestamp s = record s {
  pending = false;
  last_render_at = some timestamp;
  frames = suc s.frames;
}

unfoldable pub flush : ℕ → Scheduler → Scheduler
flush now s = if s.disposed then s else record s {
  timer = none;
  pending = false;
  immediate_pending = false;
  last_render_at = some now;
  frames = suc s.frames;
}

-- `lastRenderAt === undefined || current - lastRenderAt >= intervalMs`.
abbrev pub is_due : ℕ → ℕ → Option ℕ → Bool
is_due interval now none = true
is_due interval now (some last) = leb (interval + last) now

-- `intervalMs - (current - lastRenderAt)`, which is not negative where a repaint is not due.
abbrev pub delay : ℕ → ℕ → Option ℕ → ℕ
delay interval now none = 0
delay interval now (some last) = interval + last - now

abbrev pub or_timer : Option ℕ → ℕ → Option ℕ
or_timer none d = some d
or_timer (some t) d = some t

-- The callback of the timer, where one runs.
unfoldable pub timer_fires : ℕ → Scheduler → Scheduler
unfolding perform
timer_fires now s = elim s.timer [
  | none ↦ s
  | some d ↦
      if s.pending && not s.disposed
      then perform now (record s { timer = none })
      else (record s { timer = none })
]

unfoldable pub prioritize_input : Scheduler → Scheduler
prioritize_input s =
    if s.disposed || s.input_pending then s else record s { input_pending = true; timer = none }

unfoldable pub dispose : Scheduler → Scheduler
dispose s = record s { disposed = true; pending = false; immediate_pending = false; timer = none }

-- A call of the scheduler, or a callback of its surroundings.
pub data Step : Type 0 where
  requests : RenderUrgency → ℕ → Step
  input_comes : Step
  microtask timer flushes : ℕ → Step
  disposes : Step

module _ (interval : ℕ) where
  -- What `request("streaming")` does where no input is pending.
  unfoldable pub stream : ℕ → Scheduler → Scheduler
  unfolding perform
  stream now s =
      if is_due interval now s.last_render_at
      then perform now (record s { pending = true })
      else record s {
        pending = true;
        timer = or_timer s.timer (delay interval now s.last_render_at);
      }

  unfoldable pub request : RenderUrgency → ℕ → Scheduler → Scheduler
  unfolding stream flush
  request urgency now s =
      if s.disposed
      then s
      else if s.input_pending
      then record s {
        pending = true;
        immediate_pending = s.immediate_pending || is_immediate urgency;
      }
      else if is_immediate urgency
      then flush now s
      else stream now s

  -- The microtask that `prioritizeInput` queues, where it waits.
  unfoldable pub microtask_runs : ℕ → Scheduler → Scheduler
  unfolding request flush
  microtask_runs now s =
      let s1 = record s { input_pending = false } in
      if not s.input_pending
      then s
      else if s.disposed || not s.pending
      then s1
      else if s.immediate_pending
      then flush now (record s1 { immediate_pending = false })
      else request streaming now s1

  unfoldable pub step : Step → Scheduler → Scheduler
  unfolding request timer_fires prioritize_input microtask_runs dispose flush
  step (requests urgency now) s = request urgency now s
  step input_comes s = prioritize_input s
  step (microtask now) s = microtask_runs now s
  step (timer now) s = timer_fires now s
  step (flushes now) s = flush now s
  step disposes s = dispose s

  unfoldable pub steps : List Step → Scheduler → Scheduler
  steps [] s = s
  steps (e ∷ es) s = steps es (step e s)
