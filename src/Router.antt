-- ===== src/Router.antt =====
-- domain/model-settings.ts and application/router-service.ts: which model and router a session uses,
-- and how a new selection reaches the settings file and the session together.
pub mod Agreement
pub mod Normalizing
pub mod Selection
use Prim.Native.String
use world_wide_woo.Value.{Value, Fields, get, fields_of, text_of}
use world_wide_woo.Common.{
  String, Bool, true, false, not, ◌||◌, ◌is◌, Option, none, some, List, [], ◌∷◌, Result, ok, err,
  branch, includes, if◌then◌else◌,
}

pub data Provider : Type 0 where
  openai_codex anthropic openai google : Provider

pub data Effort : Type 0 where
  low medium high ultra : Effort

pub record Settings : Type 0 where
  pub provider : Provider
  pub model : String
  pub effort : Effort

abbrev pub providers : List Provider
providers = openai_codex ∷ anthropic ∷ openai ∷ google ∷ []

-- `MODELS`.
unfoldable pub models_of : Provider → List String
models_of openai_codex = "gpt-5.6-sol" ∷ "gpt-5.6-terra" ∷ "gpt-5.6-luna" ∷ "gpt-5.4" ∷ []
models_of openai = "gpt-5.4" ∷ "gpt-5.3-codex" ∷ []
models_of anthropic = "claude-opus-4-6" ∷ "claude-sonnet-4-6" ∷ []
models_of google = "gemini-3.1-pro-preview" ∷ "gemini-3-flash-preview" ∷ []

abbrev pub same_provider : Provider → Provider → Bool
same_provider openai_codex openai_codex = true
same_provider anthropic anthropic = true
same_provider openai openai = true
same_provider google google = true
same_provider _ _ = false

-- The provider of `PROVIDERS` with this name, the default one where there is none.
abbrev pub provider_named : Value → Provider
provider_named v = elim (text_of v) [
  | none ↦ openai_codex
  | some s ↦
      if s is "anthropic"
      then anthropic
      else if s is "openai"
      then openai
      else if s is "google"
      then google
      else openai_codex
]

abbrev pub effort_named : Value → Effort
effort_named v = elim (text_of v) [
  | none ↦ ultra
  | some s ↦
      if s is "low"
      then low
      else if s is "medium"
      then medium
      else if s is "high"
      then high
      else ultra
]

-- `MODELS[provider][0]`.
unfoldable pub first_model : Provider → String
first_model openai_codex = "gpt-5.6-sol"
first_model openai = "gpt-5.4"
first_model anthropic = "claude-opus-4-6"
first_model google = "gemini-3.1-pro-preview"

abbrev pub model_or_first : Provider → Option String → String
model_or_first p none = first_model p
model_or_first p (some s) = if includes (models_of p) s then s else first_model p

unfoldable pub default_settings : Settings
unfolding first_model
default_settings = record {
  provider = openai_codex;
  model = first_model openai_codex;
  effort = ultra;
}

-- The settings that a record's fields give, the default ones where there is no record.
abbrev pub settings_of : Option Fields → Settings
settings_of none = default_settings
settings_of (some fields) =
    let provider = provider_named (get "provider" fields) in
    record {
      provider = provider;
      model = model_or_first provider (text_of (get "model" fields));
      effort = effort_named (get "effort" fields);
    }

-- `normalizeSettings`. An array has none of the fields.
unfoldable pub normalize_settings : Value → Settings
unfolding get models_of first_model default_settings
normalize_settings v = settings_of (fields_of v)

-- The settings file and the session, with the state `S` of what is outside. Each call may throw.
pub record Services (S : Type 0) : Type 0 where
  pub compare_and_swap : Settings → Settings → S → Result String Bool × S
  pub load : S → Result String Settings × S
  pub update_settings : Settings → S → Result String (Unit {0}) × S

pub data RouterError : Type 0 where
  -- Another process has written the settings; they were taken over.
  superseded : RouterError
  -- The session refused the selection; the file was put back.
  refused : String → RouterError
  -- The session refused the selection, and putting the file back failed.
  not_rolled_back : String → RouterError
  -- The first write, or taking over another's settings, threw.
  failed : String → RouterError

pub record Router (S : Type 0) : Type 0 where
  pub current : Settings
  pub outside : S

module _ {S : Type 0} (services : Services S) where
  -- `synchronizeObservedSettings`, after the settings were loaded.
  unfoldable pub apply_observed : Settings → Router S → Result String (Unit {0}) × Router S
  apply_observed observed r =
      let applied = services.update_settings observed r.outside in
      branch applied.0 (λ _. (ok tt, record { current = observed; outside = applied.1 }))
        (λ m. (err m, record r { outside = applied.1 }))

  unfoldable pub synchronize : Router S → Result String (Unit {0}) × Router S
  synchronize r =
      let loaded = services.load r.outside in
      let r' = record r { outside = loaded.1 } in
      branch loaded.0 (λ observed. apply_observed observed r') (λ m. (err m, r'))

  -- After a first swap that another process has beaten.
  unfoldable pub give_way : Router S → Result RouterError (Unit {0}) × Router S
  give_way r =
      let done = synchronize r in
      branch done.0 (λ _. (err superseded, done.1)) (λ m. (err (failed m), done.1))

  -- After the session has thrown `m`: back to the previous settings.
  unfoldable pub roll_back : String → Settings → Router S → Result RouterError (Unit {0}) × Router S
  roll_back m selection r =
      let swap = services.compare_and_swap selection r.current r.outside in
      let r' = record r { outside = swap.1 } in
      branch swap.0
        (λ swapped.
          if swapped then (err (refused m), r') else (err (not_rolled_back m), (synchronize r').1))
        (λ _. (err (not_rolled_back m), r'))

  unfoldable pub publish : Settings → Router S → Result RouterError (Unit {0}) × Router S
  publish selection r =
      let applied = services.update_settings selection r.outside in
      branch applied.0 (λ _. (ok tt, record { current = selection; outside = applied.1 }))
        (λ m. roll_back m selection (record r { outside = applied.1 }))

  -- `update`, one operation of the chain.
  unfoldable pub update : Settings → Router S → Result RouterError (Unit {0}) × Router S
  update selection r =
      let swap = services.compare_and_swap r.current selection r.outside in
      let r' = record r { outside = swap.1 } in
      branch swap.0 (λ swapped. if swapped then publish selection r' else give_way r')
        (λ m. (err (failed m), r'))

-- `reconcileInitialRouter`, up to the call of `save`: `configured` is what `checkAuth` answers.
module _ (configured : Provider → Bool) where
  unfoldable pub candidates : Settings → List Provider → List Settings
  unfolding models_of
  candidates selection [] = []
  candidates selection (p ∷ ps) =
      let rest = candidates selection ps in
      if same_provider p selection.provider || not (includes (models_of p) selection.model)
      then rest
      else if configured p
      then record selection { provider = p } ∷ rest
      else rest

  abbrev only_one : Settings → List Settings → Settings
  only_one selection (c ∷ []) = c
  only_one selection _ = selection

  unfoldable pub reconcile_initial_router : Settings → Settings
  unfolding candidates
  reconcile_initial_router selection =
      if configured selection.provider
      then selection
      else only_one selection (candidates selection providers)
