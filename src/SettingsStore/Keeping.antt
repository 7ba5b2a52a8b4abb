-- ===== src/SettingsStore/Keeping.antt =====
-- infrastructure/settings-store.ts with application/router-service.ts: the settings file keeps what
-- the router relies on.
use world_wide_woo.Common.{
  String, Bool, ◌≡◌, refl, ap, sym, ◌∙◌, true, false, ◌is◌, is→≡, Result, ok, err, Result-cases,
  inl, inr, arith, ok-injective,
}
use world_wide_woo.Value.{Value}
use world_wide_woo.Router.{
  Provider, Effort, Settings, Services, same_provider, normalize_settings, default_settings,
  first_model, models_of,
}
use world_wide_woo.Router.Normalizing.{
  settings_value, IsOffered, normalized_offered, normalize_settings_stable,
}
use world_wide_woo.Router.Agreement.{Laws}
use world_wide_woo.SettingsStore.{
  SettingsFile, missing, broken, json, Disk, same_effort, same_settings, settings_in, load, write,
  release, with_lock, swap_if, swap, compare_and_swap,
}

-- What a file system does, `content` being what reading the file would answer: no other process
-- writes the file in between.
pub record DiskLaws {S : Type 0} (disk : Disk S) (content : S → SettingsFile) : Type 0 where
  pub read : (s : S) {f : SettingsFile} → (disk.read s).0 ≡ ok f → f ≡ content s
  pub read_keeps : (s : S) → content (disk.read s).1 ≡ content s
  pub written :
      (v : Value) (s : S) → (disk.write v s).0 ≡ ok tt → content (disk.write v s).1 ≡ json v
  pub lock_keeps : (s : S) → content (disk.lock s).1 ≡ content s
  pub unlock_keeps : (s : S) → content (disk.unlock s).1 ≡ content s

-- What a session does with settings: it takes them over, or throws and keeps its own; the file is
-- not its concern, nor is the session that of the file system.
pub record SessionLaws {S : Type 0} (disk : Disk S) (content : S → SettingsFile)
    (update_settings : Settings → S → Result String (Unit {0}) × S) (applied : S → Settings)
    : Type 0 where
  pub taken :
      (n : Settings) (s : S) → (update_settings n s).0 ≡ ok tt → applied (update_settings n s).1 ≡ n
  pub kept :
      (n : Settings) (s : S) {m : String}
      → (update_settings n s).0 ≡ err m
      → applied (update_settings n s).1 ≡ applied s
  pub update_aside : (n : Settings) (s : S) → content (update_settings n s).1 ≡ content s
  pub read_aside : (s : S) → applied (disk.read s).1 ≡ applied s
  pub write_aside : (v : Value) (s : S) → applied (disk.write v s).1 ≡ applied s
  pub lock_aside : (s : S) → applied (disk.lock s).1 ≡ applied s
  pub unlock_aside : (s : S) → applied (disk.unlock s).1 ≡ applied s

-- The settings that a file stands for; one that cannot be read stands for the default ones.
abbrev pub settings_of_file : SettingsFile → Settings
settings_of_file missing = default_settings
settings_of_file broken = default_settings
settings_of_file (json v) = normalize_settings v

same_provider→≡ : (p q : Provider) → same_provider p q ≡ true → p ≡ q
same_provider→≡ p q h = ground arith

same_effort→≡ : (p q : Effort) → same_effort p q ≡ true → p ≡ q
same_effort→≡ p q h = ground arith

same_settings→≡ : (a b : Settings) → same_settings a b ≡ true → a ≡ b
unfolding same_settings
same_settings→≡ a b h =
    let p : same_provider a.provider b.provider ≡ true = ground (arith, h) in
    let m : (a.model is b.model) ≡ true = ground (arith, h) in
    let e : same_effort a.effort b.effort ≡ true = ground (arith, h) in
    cc (
      same_provider→≡ a.provider b.provider p,
      is→≡ a.model b.model m,
      same_effort→≡ a.effort b.effort e,
    )

default-IsOffered : IsOffered default_settings
unfolding default_settings first_model models_of
default-IsOffered = refl

file-IsOffered : (f : SettingsFile) → IsOffered (settings_of_file f)
file-IsOffered missing = default-IsOffered
file-IsOffered broken = default-IsOffered
file-IsOffered (json v) = normalized_offered v

settings_in-file : (f : SettingsFile) {c : Settings} → settings_in f ≡ ok c → settings_of_file f ≡ c
unfolding settings_in
settings_in-file missing h = ok-injective h
settings_in-file broken h = cc (h)
settings_in-file (json v) h = ok-injective h

module _ {S : Type 0} (disk : Disk S) (content : S → SettingsFile)
    (laws : DiskLaws disk content) where
  abbrev pub stored : S → Settings
  stored s = settings_of_file (content s)

  load-content : (s : S) → content (load disk s).1 ≡ content s
  unfolding load
  load-content s = elim (Result-cases (disk.read s).0) [
    | inl (f, e) ↦ rw (load, e) (laws.read_keeps s)
    | inr (m, e) ↦ rw (load, e) (laws.read_keeps s)
  ]

  load-stored : (s : S) {c : Settings} → (load disk s).0 ≡ ok c → stored s ≡ c
  unfolding load
  load-stored s {c} h = elim (Result-cases (disk.read s).0) [
    | inl (f, e) ↦
        let h' : settings_in f ≡ ok c = rw (load, e) at h in
        ap settings_of_file (sym (laws.read s e)) ∙ settings_in-file f h'
    | inr (m, e) ↦ absurd (cc (rw (load, e) at h))
  ]

  release-content :
      {A : Type 0} (done : Result String A × S) → content (release disk done).1 ≡ content done.1
  release-content done = elim (Result-cases (disk.unlock done.1).0) [
    | inl (u, e) ↦ rw e (laws.unlock_keeps done.1)
    | inr (m, e) ↦ rw e (laws.unlock_keeps done.1)
  ]

  release-ok :
      {A : Type 0} (done : Result String A × S) {a : A}
      → (release disk done).0 ≡ ok a
      → done.0 ≡ ok a
  release-ok done {a} h = elim (Result-cases (disk.unlock done.1).0) [
    | inl (u, e) ↦ rw e at h
    | inr (m, e) ↦ absurd (cc (rw e at h))
  ]

  with_lock-ok :
      {A : Type 0} (operation : S → Result String A × S) (s : S) {a : A}
      → (with_lock disk operation s).0 ≡ ok a
      → ((operation (disk.lock s).1).0 ≡ ok a)
        × (content (with_lock disk operation s).1 ≡ content (operation (disk.lock s).1).1)
  unfolding with_lock
  with_lock-ok operation s {a} h = elim (Result-cases (disk.lock s).0) [
    | inl (u, e) ↦ (
      release-ok (operation (disk.lock s).1) (rw (with_lock, e) at h),
      rw (with_lock, e) (release-content (operation (disk.lock s).1)),
    )
    | inr (m, e) ↦ absurd (cc (rw (with_lock, e) at h))
  ]

  written_value : Settings → Value
  written_value n = settings_value (normalize_settings (settings_value n))

  swap_if-written :
      (same : Bool) (n : Settings) (s : S)
      → (swap_if disk same n s).0 ≡ ok true
      → (same ≡ true) × (content (swap_if disk same n s).1 ≡ json (written_value n))
  unfolding write written_value
  swap_if-written false n s h = absurd (cc (h))
  swap_if-written true n s h = elim (Result-cases (disk.write (written_value n) s).0) [
    | inl (u, e) ↦ (refl, rw (write, e) (laws.written (written_value n) s e))
    | inr (m, e) ↦ absurd (cc (rw (write, e) at h))
  ]

  swap-written :
      (e n : Settings) (s : S)
      → (swap disk e n s).0 ≡ ok true
      → (stored s ≡ e) × (content (swap disk e n s).1 ≡ json (written_value n))
  unfolding swap
  swap-written expected n s h = elim (Result-cases (load disk s).0) [
    | inr (m, e) ↦ absurd (cc (rw (swap, e) at h))
    | inl (c, e) ↦
        let (same, done) =
          swap_if-written (same_settings c expected) n (load disk s).1 (rw (swap, e) at h) in
        (load-stored s e ∙ same_settings→≡ c expected same, rw (swap, e) done)
  ]

  compare_and_swap-written :
      (e n : Settings) (s : S)
      → (compare_and_swap disk e n s).0 ≡ ok true
      → (stored (compare_and_swap disk e n s).1 ≡ normalize_settings (settings_value n))
        × (stored s ≡ e)
  unfolding compare_and_swap written_value
  compare_and_swap-written e n s h =
      let (swapped, after) = with_lock-ok (swap disk e n) s h in
      let (found, written) = swap-written e n (disk.lock s).1 swapped in
      (
        ap settings_of_file (after ∙ written) ∙ (normalize_settings_stable (settings_value n)).1,
        ap settings_of_file (sym (laws.lock_keeps s)) ∙ found,
      )

  module _ (update_settings : Settings → S → Result String (Unit {0}) × S) (applied : S → Settings)
      (session : SessionLaws disk content update_settings applied) where
    abbrev pub file_services : Services S
    file_services = record {
      compare_and_swap = compare_and_swap disk;
      load = load disk;
      update_settings = update_settings;
    }

    load-applied : (s : S) → applied (load disk s).1 ≡ applied s
    unfolding load
    load-applied s = elim (Result-cases (disk.read s).0) [
      | inl (f, e) ↦ rw (load, e) (session.read_aside s)
      | inr (m, e) ↦ rw (load, e) (session.read_aside s)
    ]

    swap_if-applied :
        (same : Bool) (n : Settings) (s : S) → applied (swap_if disk same n s).1 ≡ applied s
    unfolding write written_value
    swap_if-applied false n s = refl
    swap_if-applied true n s = elim (Result-cases (disk.write (written_value n) s).0) [
      | inl (u, e) ↦ rw (write, e) (session.write_aside (written_value n) s)
      | inr (m, e) ↦ rw (write, e) (session.write_aside (written_value n) s)
    ]

    swap-applied : (e n : Settings) (s : S) → applied (swap disk e n s).1 ≡ applied s
    unfolding swap
    swap-applied expected n s = elim (Result-cases (load disk s).0) [
      | inr (m, e) ↦ rw (swap, e) (load-applied s)
      | inl (c, e) ↦
          rw (swap, e)
            (swap_if-applied (same_settings c expected) n (load disk s).1 ∙ load-applied s)
    ]

    release-applied :
        {A : Type 0} (done : Result String A × S) → applied (release disk done).1 ≡ applied done.1
    release-applied done = elim (Result-cases (disk.unlock done.1).0) [
      | inl (u, e) ↦ rw e (session.unlock_aside done.1)
      | inr (m, e) ↦ rw e (session.unlock_aside done.1)
    ]

    compare_and_swap-applied :
        (e n : Settings) (s : S) → applied (compare_and_swap disk e n s).1 ≡ applied s
    unfolding compare_and_swap with_lock
    compare_and_swap-applied expected n s = elim (Result-cases (disk.lock s).0) [
      | inr (m, e) ↦ rw (compare_and_swap, with_lock, e) (session.lock_aside s)
      | inl (u, e) ↦
          rw (compare_and_swap, with_lock, e)
            (release-applied (swap disk expected n (disk.lock s).1)
              ∙ (swap-applied expected n (disk.lock s).1 ∙ session.lock_aside s))
    ]

    pub file_services-Laws : Laws file_services stored applied
    file_services-Laws = record {
      swapped = compare_and_swap-written;
      offered = λ s. file-IsOffered (content s);
      swap_aside = compare_and_swap-applied;
      loaded = λ s h. ap settings_of_file (load-content s) ∙ load-stored s h;
      taken = session.taken;
      kept = session.kept;
      update_aside = λ n s. ap settings_of_file (session.update_aside n s);
    }
