-- ===== src/SessionSettings.antt =====
-- application/session-runtime.ts: `updateSettings`, by which a session takes settings over. The check
-- of the sign-in and the session's log are arguments with the state `S`, as is the text that
-- `buildSessionSystemPrompt` makes of the settings; what listeners are told is a log of selections,
-- the latest first, and a listener that throws is dropped without any other effect.
pub mod Updating
use world_wide_woo.Common.{String, Bool, true, false, List, ◌∷◌, Result, ok, err, branch}
use world_wide_woo.Router.{Settings}

pub record SessionPorts (S : Type 0) : Type 0 where
  -- `checkAuth`: whether it is configured.
  pub check_auth : Settings → S → Result String Bool × S
  -- The event `model.changed`.
  pub append : Settings → Bool → S → Result String (Unit {0}) × S
  pub system_prompt : Settings → String

pub record Session (S : Type 0) : Type 0 where
  pub closed : Bool
  pub selection : Settings
  pub configured : Bool
  pub prompt : String
  pub told : List Settings
  pub outside : S

module _ {S : Type 0} (ports : SessionPorts S) where
  -- After the event is written.
  abbrev pub select : Settings → Bool → Session S → Session S
  select settings configured s = record s {
    selection = settings;
    configured = configured;
    prompt = ports.system_prompt settings;
    told = settings ∷ s.told;
  }

  unfoldable pub change_model : Settings → Bool → Session S → Result String (Unit {0}) × Session S
  change_model settings configured s =
      let appended = ports.append settings configured s.outside in
      let s' = record s { outside = appended.1 } in
      branch appended.0 (λ _. (ok tt, select settings configured s')) (λ m. (err m, s'))

  unfoldable pub check_model : Settings → Session S → Result String (Unit {0}) × Session S
  unfolding change_model
  check_model settings s =
      let checked = ports.check_auth settings s.outside in
      let s' = record s { outside = checked.1 } in
      branch checked.0 (λ configured. change_model settings configured s') (λ m. (err m, s'))

  -- A closed session throws.
  unfoldable pub check_unless : Bool → Settings → Session S → Result String (Unit {0}) × Session S
  unfolding check_model
  check_unless true settings s = (err "종료된 세션의 모델 설정은 변경할 수 없습니다.", s)
  check_unless false settings s = check_model settings s

  unfoldable pub update_settings : Settings → Session S → Result String (Unit {0}) × Session S
  unfolding check_unless
  update_settings settings s = check_unless s.closed settings s
