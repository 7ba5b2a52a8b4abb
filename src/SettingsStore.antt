-- ===== src/SettingsStore.antt =====
-- infrastructure/settings-store.ts: the file of the model settings, and its compare-and-swap under a
-- lock. The file system is an argument with the state `S`: each call may throw. Reading answers what
-- `JSON.parse` makes of the file; waiting for the lock, and breaking one that is stale, is one call.
pub mod Keeping
use world_wide_woo.Common.{
  String, Bool, true, false, ◌&&◌, ◌is◌, Result, ok, err, branch, if◌then◌else◌,
}
use world_wide_woo.Value.{Value}
use world_wide_woo.Router.{
  Effort, low, medium, high, ultra, Settings, same_provider, normalize_settings, default_settings,
}
use world_wide_woo.Router.Normalizing.{settings_value}

pub data SettingsFile : Type 0 where
  missing broken : SettingsFile
  json : Value → SettingsFile

pub record Disk (S : Type 0) : Type 0 where
  pub read : S → Result String SettingsFile × S
  -- The directory, the temporary file, and the renaming of it.
  pub write : Value → S → Result String (Unit {0}) × S
  pub lock : S → Result String (Unit {0}) × S
  pub unlock : S → Result String (Unit {0}) × S

abbrev pub same_effort : Effort → Effort → Bool
same_effort low low = true
same_effort medium medium = true
same_effort high high = true
same_effort ultra ultra = true
same_effort _ _ = false

unfoldable pub same_settings : Settings → Settings → Bool
same_settings a b =
    (same_provider a.provider b.provider && (a.model is b.model)) && same_effort a.effort b.effort

unfoldable pub settings_in : SettingsFile → Result String Settings
settings_in missing = ok default_settings
settings_in broken = err "설정 파일의 JSON이 올바르지 않습니다"
settings_in (json v) = ok (normalize_settings v)

module _ {S : Type 0} (disk : Disk S) where
  unfoldable pub load : S → Result String Settings × S
  unfolding settings_in
  load s =
      let found = disk.read s in
      branch found.0 (λ f. (settings_in f, found.1)) (λ m. (err m, found.1))

  unfoldable pub write : Settings → S → Result String (Unit {0}) × S
  write settings s = disk.write (settings_value (normalize_settings (settings_value settings))) s

  -- `withLock`: the lock is released whether the operation returns or throws.
  abbrev pub release : {A : Type 0} → Result String A × S → Result String A × S
  release done =
      let freed = disk.unlock done.1 in
      branch freed.0 (λ _. (done.0, freed.1)) (λ m. (err m, freed.1))

  unfoldable pub with_lock : {A : Type 0} → (S → Result String A × S) → S → Result String A × S
  with_lock operation s =
      let locked = disk.lock s in
      branch locked.0 (λ _. release (operation locked.1)) (λ m. (err m, locked.1))

  unfoldable pub save : Settings → S → Result String (Unit {0}) × S
  unfolding with_lock write
  save settings s = with_lock (write settings) s

  abbrev pub swap_if : Bool → Settings → S → Result String Bool × S
  unfolding write
  swap_if false next s = (ok false, s)
  swap_if true next s =
      let written = write next s in
      branch written.0 (λ _. (ok true, written.1)) (λ m. (err m, written.1))

  -- The operation that `compareAndSwap` does under the lock.
  unfoldable pub swap : Settings → Settings → S → Result String Bool × S
  unfolding load same_settings
  swap expected next s =
      let seen = load s in
      branch seen.0 (λ c. swap_if (same_settings c expected) next seen.1) (λ m. (err m, seen.1))

  unfoldable pub compare_and_swap : Settings → Settings → S → Result String Bool × S
  unfolding with_lock swap
  compare_and_swap expected next s = with_lock (swap expected next) s
