-- ===== src/ExitKeyPolicy.antt =====
-- presentation/tui/exit-key-policy.ts: what Ctrl-C and Ctrl-D do. The clock's readings, in whole
-- milliseconds, come with the presses.
pub mod Presses
use world_wide_woo.Common.{
  ℕ, ◌-◌, Bool, true, false, ◌&&◌, Option, none, some, leb, ltb, if◌then◌else◌,
}

pub data CtrlCAction : Type 0 where
  clear abort exit : CtrlCAction

pub record Policy : Type 0 where
  pub last_ctrl_c_at : Option ℕ

abbrev pub untouched : Policy
untouched = record { last_ctrl_c_at = none }

-- `elapsed !== undefined && elapsed >= 0 && elapsed < this.doublePressMs`.
abbrev pub is_double : ℕ → ℕ → Option ℕ → Bool
is_double window now none = false
is_double window now (some last) = leb last now && ltb (now - last) window

unfoldable pub ctrl_c : ℕ → Bool → ℕ → Policy → CtrlCAction × Policy
ctrl_c window is_streaming now p =
    if is_double window now p.last_ctrl_c_at
    then (exit, record p { last_ctrl_c_at = none })
    else (if is_streaming then abort else clear, record p { last_ctrl_c_at = some now })

pub data CtrlDAction : Type 0 where
  ignore quit : CtrlDAction

pub ctrl_d : Bool → CtrlDAction
ctrl_d has_draft = if has_draft then ignore else quit

unfoldable pub reset : Policy → Policy
reset p = record p { last_ctrl_c_at = none }
