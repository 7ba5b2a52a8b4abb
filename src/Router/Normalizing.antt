-- ===== src/Router/Normalizing.antt =====
-- domain/model-settings.ts: what `normalizeSettings` makes of a stored value.
use world_wide_woo.Common.{
  String, ◌≡◌, refl, true, Option, none, some, includes, Bool-cases, inl, inr,
}
use world_wide_woo.Value.{Value, text, object, end, field, Fields, get, fields_of, text_of}
use world_wide_woo.Router.{
  Provider, openai_codex, anthropic, openai, google, Effort, low, medium, high, ultra, Settings,
  models_of, first_model, model_or_first, provider_named, effort_named, default_settings,
  settings_of, normalize_settings,
}

-- `JSON.parse(JSON.stringify(settings))`.
abbrev pub provider_name : Provider → String
provider_name openai_codex = "openai-codex"
provider_name anthropic = "anthropic"
provider_name openai = "openai"
provider_name google = "google"

abbrev pub effort_name : Effort → String
effort_name low = "low"
effort_name medium = "medium"
effort_name high = "high"
effort_name ultra = "ultra"

abbrev pub settings_value : Settings → Value
settings_value s = object (
    field "provider" (text (provider_name s.provider))
      (field "model" (text s.model) (field "effort" (text (effort_name s.effort)) end)))

first_model_offered : (p : Provider) → includes (models_of p) (first_model p) ≡ true
unfolding models_of first_model
first_model_offered openai_codex = refl
first_model_offered anthropic = refl
first_model_offered openai = refl
first_model_offered google = refl

model_offered :
    (p : Provider) (o : Option String) → includes (models_of p) (model_or_first p o) ≡ true
model_offered p none = first_model_offered p
model_offered p (some s) = elim (Bool-cases (includes (models_of p) s)) [
  | inl offered ↦ rw offered offered
  | inr other ↦ rw other (first_model_offered p)
]

offered_of :
    (o : Option Fields) → includes (models_of (settings_of o).provider) (settings_of o).model ≡ true
unfolding default_settings
offered_of none = first_model_offered openai_codex
offered_of (some fields) =
    model_offered (provider_named (get "provider" fields)) (text_of (get "model" fields))

provider_back : (p : Provider) → provider_named (text (provider_name p)) ≡ p
provider_back openai_codex = refl
provider_back anthropic = refl
provider_back openai = refl
provider_back google = refl

effort_back : (e : Effort) → effort_named (text (effort_name e)) ≡ e
effort_back low = refl
effort_back medium = refl
effort_back high = refl
effort_back ultra = refl

pub normalized_offered :
    (v : Value)
    → includes (models_of (normalize_settings v).provider) (normalize_settings v).model ≡ true
unfolding normalize_settings
normalized_offered v = offered_of (fields_of v)

abbrev pub IsOffered : Settings → Type 0
IsOffered s = includes (models_of s.provider) s.model ≡ true

pub settings_back :
    (s : Settings)
    → includes (models_of s.provider) s.model ≡ true
    → normalize_settings (settings_value s) ≡ s
unfolding normalize_settings get
settings_back s h = rw (provider_back s.provider, effort_back s.effort, h) refl

-- Whatever value is stored, the normalized settings name a model that their provider has, and they
-- come back unchanged when they are stored and normalized again.
pub normalize_settings_stable :
    (v : Value)
    → (includes (models_of (normalize_settings v).provider) (normalize_settings v).model ≡ true)
      × (normalize_settings (settings_value (normalize_settings v)) ≡ normalize_settings v)
normalize_settings_stable v =
    (normalized_offered v, settings_back (normalize_settings v) (normalized_offered v))
