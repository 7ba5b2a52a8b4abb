-- ===== src/Tests/Routers.antt =====
-- The router's settings at concrete inputs.
use world_wide_woo.Common.{[], ◌≡◌, refl, Bool, true, false, ◌⊎◌, ok, err, arith, if◌then◌else◌}
use world_wide_woo.Router.{
  Provider, openai_codex, openai, google, same_provider, low, high, Settings, Services, Router,
  update, publish, roll_back, refused, models_of, candidates, reconcile_initial_router,
}
use world_wide_woo.Common.{includes}
use world_wide_woo.Value.{null}
use world_wide_woo.Router.{normalize_settings}
use world_wide_woo.Router.Normalizing.{settings_value, normalize_settings_stable}
use world_wide_woo.SettingsStore.{
  SettingsFile, json, Disk, same_settings, settings_in, load, write, with_lock, swap,
  compare_and_swap,
}
use world_wide_woo.SettingsStore.Keeping.{DiskLaws}
use world_wide_woo.SessionSettings.{
  SessionPorts, Session, change_model, check_model, check_unless, update_settings,
}
use world_wide_woo.SessionSettings.Updating.{PortLaws, session_services}
use world_wide_woo.Router.Selection.{IsCandidate, reconcile_initial_router-IsCandidate}

-- A settings file in memory. Only `openai` is signed in, and the log refuses a change to a model of
-- Google.
abbrev memory_disk : Disk SettingsFile
memory_disk = record {
  read = λ s. (ok s, s);
  write = λ v s. (ok tt, json v);
  lock = λ s. (ok tt, s);
  unlock = λ s. (ok tt, s);
}

abbrev memory_ports : SessionPorts SettingsFile
memory_ports = record {
  check_auth = λ n s. (ok (same_provider n.provider openai), s);
  append = λ n c s. if same_provider n.provider google then (err "no", s) else (ok tt, s);
  system_prompt = λ n. n.model;
}

memory_disk-DiskLaws : DiskLaws memory_disk (λ s. s)
memory_disk-DiskLaws = record {
  read = λ s h. cc (h);
  read_keeps = λ s. refl;
  written = λ v s h. refl;
  lock_keeps = λ s. refl;
  unlock_keeps = λ s. refl;
}

memory_ports-PortLaws : PortLaws memory_ports (λ s. s)
memory_ports-PortLaws = record { check_aside = λ n s. refl; append_aside = λ n c s. ground arith }

abbrev terra : Settings
terra = record { provider = openai_codex; model = "gpt-5.6-terra"; effort = high }

abbrev old : Settings
old = record { provider = openai; model = "gpt-5.4"; effort = low }

abbrev working_session : Session SettingsFile
working_session = record {
  closed = false;
  selection = old;
  configured = true;
  prompt = "gpt-5.4";
  told = [];
  outside = json (settings_value old);
}

abbrev before : Router (Session SettingsFile)
before = record { current = old; outside = working_session }

abbrev memory_services : Services (Session SettingsFile)
memory_services =
    session_services memory_disk memory_ports (λ s. s) memory_disk-DiskLaws memory_ports-PortLaws

updated : (update memory_services terra before).0 ≡ ok tt
unfolding update publish compare_and_swap with_lock swap load settings_in normalize_settings
    models_of same_settings write update_settings check_unless check_model change_model
updated = refl

abbrev gemini : Settings
gemini = record { provider = google; model = "gemini-3-flash-preview"; effort = low }

-- The session refuses, and the file is put back.
file_put_back : update memory_services gemini before ≡ (err (refused "no"), before)
unfolding update publish compare_and_swap with_lock swap load settings_in normalize_settings
    models_of same_settings write update_settings check_unless check_model change_model roll_back
file_put_back = refl

abbrev only_codex : Provider → Bool
only_codex p = same_provider p openai_codex

moved : (reconcile_initial_router only_codex old).provider ≡ openai_codex
unfolding reconcile_initial_router candidates models_of
moved = refl

reconcile_initial_router-IsCandidate_example :
    (reconcile_initial_router only_codex old ≡ old)
    ⊎ ((only_codex openai ≡ false)
        × IsCandidate only_codex old (reconcile_initial_router only_codex old))
reconcile_initial_router-IsCandidate_example = reconcile_initial_router-IsCandidate only_codex old

normalize_settings_stable_example :
    (includes (models_of (normalize_settings null).provider) (normalize_settings null).model ≡ true)
    × (normalize_settings (settings_value (normalize_settings null)) ≡ normalize_settings null)
normalize_settings_stable_example = normalize_settings_stable null
