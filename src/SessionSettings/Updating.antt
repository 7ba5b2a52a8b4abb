-- ===== src/SessionSettings/Updating.antt =====
-- application/router-service.ts with infrastructure/settings-store.ts and the `updateSettings` of
-- application/session-runtime.ts: an update of the model settings, from end to end.
use world_wide_woo.Common.{
  String, ◌≡◌, refl, ◌∙◌, Bool, true, false, Result, ok, err, Result-cases, inl, inr,
}
use world_wide_woo.Router.{Settings, Services, Router}
use world_wide_woo.Router.Agreement.{Laws}
use world_wide_woo.SettingsStore.{SettingsFile, Disk}
use world_wide_woo.SettingsStore.Keeping.{
  DiskLaws, SessionLaws, stored, file_services, file_services-Laws,
}
use world_wide_woo.SessionSettings.{
  SessionPorts, Session, change_model, check_model, check_unless, update_settings,
}

-- The check of the sign-in and the session's log do not write the settings file.
pub record PortLaws {S : Type 0} (ports : SessionPorts S) (content : S → SettingsFile)
    : Type 0 where
  pub check_aside : (n : Settings) (s : S) → content (ports.check_auth n s).1 ≡ content s
  pub append_aside :
      (n : Settings) (configured : Bool) (s : S)
      → content (ports.append n configured s).1 ≡ content s

module _ {S : Type 0} (disk : Disk S) (ports : SessionPorts S) (content : S → SettingsFile) where
  -- A call that only the outside sees.
  abbrev aside : {A : Type 0} → (S → Result String A × S) → Session S → Result String A × Session S
  aside call s = let done = call s.outside in (done.0, record s { outside = done.1 })

  abbrev pub session_disk : Disk (Session S)
  session_disk = record {
    read = aside disk.read;
    write = λ v. aside (disk.write v);
    lock = aside disk.lock;
    unlock = aside disk.unlock;
  }

  abbrev pub file_of : Session S → SettingsFile
  file_of s = content s.outside

  abbrev pub selected : Session S → Settings
  selected s = s.selection

  module _ (laws : DiskLaws disk content) (port_laws : PortLaws ports content) where
    pub session_disk-DiskLaws : DiskLaws session_disk file_of
    session_disk-DiskLaws = record {
      read = λ s h. laws.read s.outside h;
      read_keeps = λ s. laws.read_keeps s.outside;
      written = λ v s h. laws.written v s.outside h;
      lock_keeps = λ s. laws.lock_keeps s.outside;
      unlock_keeps = λ s. laws.unlock_keeps s.outside;
    }

    change-taken :
        (n : Settings) (c : Bool) (s : Session S)
        → (change_model ports n c s).0 ≡ ok tt
        → (change_model ports n c s).1.selection ≡ n
    unfolding change_model
    change-taken n c s h = elim (Result-cases (ports.append n c s.outside).0) [
      | inl (u, e) ↦ rw (change_model, e) refl
      | inr (m, e) ↦ absurd (cc (rw (change_model, e) at h))
    ]

    change-kept :
        (n : Settings) (c : Bool) (s : Session S) {m : String}
        → (change_model ports n c s).0 ≡ err m
        → (change_model ports n c s).1.selection ≡ s.selection
    unfolding change_model
    change-kept n c s h = elim (Result-cases (ports.append n c s.outside).0) [
      | inl (u, e) ↦ absurd (cc (rw (change_model, e) at h))
      | inr (m, e) ↦ rw (change_model, e) refl
    ]

    change-aside :
        (n : Settings) (c : Bool) (s : Session S) → file_of (change_model ports n c s).1 ≡ file_of s
    unfolding change_model
    change-aside n c s = elim (Result-cases (ports.append n c s.outside).0) [
      | inl (u, e) ↦ rw (change_model, e) (port_laws.append_aside n c s.outside)
      | inr (m, e) ↦ rw (change_model, e) (port_laws.append_aside n c s.outside)
    ]

    module _ (n : Settings) (s : Session S) where
      -- The session after the check of the sign-in.
      abbrev checked : Session S
      checked = record s { outside = (ports.check_auth n s.outside).1 }

      check-taken : (check_model ports n s).0 ≡ ok tt → (check_model ports n s).1.selection ≡ n
      unfolding check_model
      check-taken h = elim (Result-cases (ports.check_auth n s.outside).0) [
        | inl (c, e) ↦ rw (check_model, e) (change-taken n c checked (rw (check_model, e) at h))
        | inr (m, e) ↦ absurd (cc (rw (check_model, e) at h))
      ]

      check-kept :
          {m : String}
          → (check_model ports n s).0 ≡ err m
          → (check_model ports n s).1.selection ≡ s.selection
      unfolding check_model
      check-kept h = elim (Result-cases (ports.check_auth n s.outside).0) [
        | inl (c, e) ↦ rw (check_model, e) (change-kept n c checked (rw (check_model, e) at h))
        | inr (m, e) ↦ rw (check_model, e) refl
      ]

      check-aside : file_of (check_model ports n s).1 ≡ file_of s
      unfolding check_model
      check-aside = elim (Result-cases (ports.check_auth n s.outside).0) [
        | inl (c, e) ↦
            rw (check_model, e) (change-aside n c checked ∙ port_laws.check_aside n s.outside)
        | inr (m, e) ↦ rw (check_model, e) (port_laws.check_aside n s.outside)
      ]

      unless-taken :
          (closed : Bool)
          → (check_unless ports closed n s).0 ≡ ok tt
          → (check_unless ports closed n s).1.selection ≡ n
      unfolding check_unless
      unless-taken true h = absurd (cc (h))
      unless-taken false h = check-taken h

      unless-kept :
          (closed : Bool) {m : String}
          → (check_unless ports closed n s).0 ≡ err m
          → (check_unless ports closed n s).1.selection ≡ s.selection
      unfolding check_unless
      unless-kept true h = refl
      unless-kept false h = check-kept h

      unless-aside : (closed : Bool) → file_of (check_unless ports closed n s).1 ≡ file_of s
      unfolding check_unless
      unless-aside true = refl
      unless-aside false = check-aside

    pub update_settings-SessionLaws :
        SessionLaws session_disk file_of (update_settings ports) selected
    unfolding update_settings
    update_settings-SessionLaws = record {
      taken = λ n s h. unless-taken n s s.closed h;
      kept = λ n s h. unless-kept n s s.closed h;
      update_aside = λ n s. unless-aside n s s.closed;
      read_aside = λ s. refl;
      write_aside = λ v s. refl;
      lock_aside = λ s. refl;
      unlock_aside = λ s. refl;
    }

    abbrev pub stored_settings : Session S → Settings
    stored_settings = stored session_disk file_of session_disk-DiskLaws

    abbrev pub session_services : Services (Session S)
    session_services =
        file_services session_disk file_of session_disk-DiskLaws (update_settings ports) selected
          update_settings-SessionLaws

    pub session_services-Laws : Laws session_services stored_settings selected
    session_services-Laws =
        file_services-Laws session_disk file_of session_disk-DiskLaws (update_settings ports)
          selected update_settings-SessionLaws
