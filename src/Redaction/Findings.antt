-- ===== src/Redaction/Findings.antt =====
-- domain/redaction.ts: texts in which nothing is found.
use world_wide_woo.Common.{ℕ, zero, suc, String, ◌≡◌, refl, ◌∙◌, List, [], ◌∷◌, ◌++◌}
use world_wide_woo.Redaction.{
  ReviewSensitiveKind, secret, local_path, customer_identifier, ReviewRedactionFinding, Redacted,
  RedactionPattern, RedactionRuntime, secret_patterns, local_path_patterns,
  customer_identifier_patterns, replacement_for, repeated, redact, redact_for_external_review,
}

no_more {ℓ} : {A : Type ℓ} (xs ys : List A) → xs ++ ys ≡ [] → (xs ≡ []) × (ys ≡ [])
no_more [] ys h = (refl, h)
no_more (x ∷ xs) ys h = cc

none_repeated {ℓ} : {A : Type ℓ} (n : ℕ) (a : A) → repeated n a ≡ [] → n ≡ 0
none_repeated zero a h = refl
none_repeated (suc n) a h = cc

-- `String.replace` changes nothing where nothing matches.
module _ (rt : RedactionRuntime)
    (unmatched : (p : RedactionPattern) (r s : String)
      → (rt.replace p r s).1 ≡ 0
      → (rt.replace p r s).0 ≡ s) where
  redact-unchanged :
      (ps : List RedactionPattern) (kind : ReviewSensitiveKind) (r : Redacted)
      → (redact rt ps kind r).findings ≡ []
      → (r.findings ≡ []) × ((redact rt ps kind r).text ≡ r.text)
  unfolding redact
  redact-unchanged [] kind r h = (h, refl)
  redact-unchanged (p ∷ ps) kind r h =
      let replaced = rt.replace p (replacement_for kind) r.text in
      let finding : ReviewRedactionFinding = record {
        kind = kind;
        replacement = replacement_for kind;
      } in
      let (found, same) =
        redact-unchanged ps kind
          (record { text = replaced.0; findings = r.findings ++ repeated replaced.1 finding }) h in
      let (before, now) = no_more r.findings (repeated replaced.1 finding) found in
      let nothing : replaced.1 ≡ 0 = none_repeated replaced.1 finding now in
      (before, same ∙ unmatched p (replacement_for kind) r.text nothing)

  -- A text in which the redaction finds nothing is returned as it is, its control sequences
  -- stripped.
  pub redact_for_external_review-unchanged :
      (s : String)
      → (redact_for_external_review rt s).findings ≡ []
      → (redact_for_external_review rt s).text ≡ rt.strip s
  unfolding redact_for_external_review
  redact_for_external_review-unchanged s h =
      let start : Redacted = record { text = rt.strip s; findings = [] } in
      let secrets = redact rt secret_patterns secret start in
      let paths = redact rt local_path_patterns local_path secrets in
      let c = redact-unchanged customer_identifier_patterns customer_identifier paths h in
      let l = redact-unchanged local_path_patterns local_path secrets c.0 in
      let k = redact-unchanged secret_patterns secret start l.0 in c.1 ∙ l.1 ∙ k.1
