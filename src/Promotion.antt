-- ===== src/Promotion.antt =====
-- application/canonical-promotion.ts: the service that promotes an accepted draft to a tracked
-- document. `sha256` and the draft's checks of dates are arguments, and so is the store, whose
-- methods return or throw. A method is one step here: calls of the service do not interleave.
pub mod Tokens
pub mod Runs
use Prim.Native.Char.{code}
use Prim.Native.String
use world_wide_woo.Common.{
  ℕ, String, Bool, true, false, not, ◌&&◌, ◌||◌, Option, none, some, List, [], ◌∷◌, leb, ◌==◌, ◌is◌,
  if◌then◌else◌, Result, ok, err, ◌>>=◌, ◌>>◌, guard,
}
use world_wide_woo.Value.{every, points, is_alphanumeric}
use world_wide_woo.Decimal.{append}
use world_wide_woo.Dict.{Dict, lookup, insert, remove}
use world_wide_woo.Terminal.{TerminalRuntime, sanitize_terminal_text}
use world_wide_woo.Ledger.Native.{is_sha256_hex}
use world_wide_woo.Canonical.{
  CanonicalDocumentKind, CanonicalDocumentProvenance, CanonicalDocumentDraft, CanonicalError,
  max_markdown_characters, assert_canonical_document_draft, target_for_canonical_document,
  canonical_markdown_diff,
}

pub record StoredCanonicalDocument : Type 0 where
  pub body : String
  pub digest : String

pub data CanonicalWriteResult : Type 0 where
  written conflict : StoredCanonicalDocument → CanonicalWriteResult

pub data PromotionError : Type 0 where
  bad_draft : CanonicalError → PromotionError
  unredacted no_person bad_stored_digest bad_target_digest : PromotionError
  store_failed : String → PromotionError

pub record CanonicalDocumentStore (S : Type 0) : Type 0 where
  pub read : String → S → Result String StoredCanonicalDocument × S
  pub write_atomic : String → String → String → S → Result String CanonicalWriteResult × S

pub record AcceptedCanonicalPromotion : Type 0 where
  pub token : String
  pub accepted_at : String
  pub accepted_by : String
  pub target : String
  pub before_digest : String
  pub after_digest : String
  pub diff : String

pub record PromotedCanonicalPromotion : Type 0 where
  pub target : String
  pub before_digest : String
  pub after_digest : String
  pub diff : String

pub data StaleReason : Type 0 where
  unknown_token draft_changed target_changed : StaleReason

pub record StaleCanonicalPromotion : Type 0 where
  pub reason : StaleReason
  pub target : String
  pub before_digest : String
  pub after_digest : String
  pub diff : String

pub data Promotion : Type 0 where
  promoted : PromotedCanonicalPromotion → Promotion
  gone_stale : StaleCanonicalPromotion → Promotion

pub record CanonicalDocumentFingerprint : Type 0 where
  pub body_digest : String
  pub source_digest : String
  pub target_digest : String
  pub digest : String

pub record PendingAcceptance : Type 0 where
  pub fingerprint : CanonicalDocumentFingerprint
  pub target : String

-- The service's map of acceptances, and the store.
pub record Promotions (S : Type 0) : Type 0 where
  pub pending : Dict PendingAcceptance
  pub store : S

pub record PromotionRuntime : Type 0 where
  pub sha256 : String → String
  pub parses_as_date : String → Bool
  pub terminal : TerminalRuntime

-- `[A-Za-z0-9._:@ -]`.
unfoldable pub is_person_tail : ℕ → Bool
unfolding is_alphanumeric
is_person_tail c =
    is_alphanumeric c || c == 46 || c == 95 || c == 58 || c == 64 || c == 32 || c == 45

unfoldable pub is_human_acceptance : String → Bool
unfolding is_person_tail is_alphanumeric
is_human_acceptance String.[] = false
is_human_acceptance (String.◌∷◌ c s) =
    is_alphanumeric (code c) && every is_person_tail s && leb (points s) 127

-- An accepted draft is still the one that was accepted.
abbrev pub is_same_draft :
    PendingAcceptance → CanonicalDocumentDraft → CanonicalDocumentFingerprint → Bool
is_same_draft a d actual =
    (a.target is d.target)
    && (a.fingerprint.body_digest is actual.body_digest)
    && (a.fingerprint.source_digest is actual.source_digest)

module _ (rt : PromotionRuntime) where
  abbrev pub drafted : Result CanonicalError (Unit {0}) → Result PromotionError (Unit {0})
  drafted (ok u) = ok u
  drafted (err e) = err (bad_draft e)

  unfoldable pub assert_promotion_draft : CanonicalDocumentDraft → Result PromotionError (Unit {0})
  unfolding assert_canonical_document_draft sanitize_terminal_text
  assert_promotion_draft d =
      drafted (assert_canonical_document_draft rt.parses_as_date d)
      >> guard
          (sanitize_terminal_text rt.terminal max_markdown_characters d.body is d.body
            && d.redaction.body_digest is rt.sha256 d.body)
          unredacted

  -- `assertStoredDigest`, as a test.
  abbrev pub is_sealed : StoredCanonicalDocument → Bool
  is_sealed stored = stored.digest is rt.sha256 stored.body

  unfoldable pub fingerprint_canonical_document :
      CanonicalDocumentDraft → String → Result PromotionError CanonicalDocumentFingerprint
  unfolding assert_promotion_draft is_sha256_hex append
  fingerprint_canonical_document d target_digest = do
    assert_promotion_draft d
    guard (is_sha256_hex target_digest) bad_target_digest
    ok record {
      body_digest = rt.sha256 d.body;
      source_digest = d.source.digest;
      target_digest = target_digest;
      digest = rt.sha256 (
          append (rt.sha256 d.body) (
            append "\n" (
              append d.source.digest (append "\n" (append target_digest (append "\n" d.target))))));
    }

  -- `createCanonicalDocumentDraft`, of declared types.
  unfoldable pub create_canonical_document_draft :
      CanonicalDocumentKind
      → String
      → String
      → String
      → CanonicalDocumentProvenance
      → Result PromotionError CanonicalDocumentDraft
  unfolding sanitize_terminal_text target_for_canonical_document assert_promotion_draft
  create_canonical_document_draft kind body source_id source_body provenance =
      let clean = sanitize_terminal_text rt.terminal max_markdown_characters body in
      elim (target_for_canonical_document kind (some source_id)) [
        | err e ↦ err (bad_draft e)
        | ok target ↦
            let d : CanonicalDocumentDraft = record {
              schema_version = 1;
              kind = kind;
              body = clean;
              source = record { id = source_id; kind = kind; digest = rt.sha256 source_body };
              provenance = provenance;
              redaction = record { policy = "www-v1"; body_digest = rt.sha256 clean };
              target = target;
            } in
            assert_promotion_draft d >> ok d
      ]

  abbrev pub stale : StaleReason → String → String → String → String → Promotion
  unfolding canonical_markdown_diff
  stale reason target before before_digest after = gone_stale record {
    reason = reason;
    target = target;
    before_digest = before_digest;
    after_digest = rt.sha256 after;
    diff = canonical_markdown_diff before after;
  }

  abbrev pub token_of : String → CanonicalDocumentFingerprint → String
  unfolding append
  token_of uuid f = append "www-promotion-v1." (append uuid (append "." f.digest))

  module _ {S : Type 0} (store : CanonicalDocumentStore S) where
    -- The rest of `accept` with the document that was read; `uuid` and `now` are what the platform
    -- gives.
    unfoldable pub accept_current :
        String
        → String
        → CanonicalDocumentDraft
        → String
        → StoredCanonicalDocument
        → Promotions S
        → Result PromotionError AcceptedCanonicalPromotion × Promotions S
    unfolding fingerprint_canonical_document token_of insert canonical_markdown_diff
    accept_current uuid now d person current p =
        if not (is_sealed current)
        then (err bad_stored_digest, p)
        else elim (fingerprint_canonical_document d current.digest) [
          | err e ↦ (err e, p)
          | ok f ↦ (
            ok record {
              token = token_of uuid f;
              accepted_at = now;
              accepted_by = person;
              target = d.target;
              before_digest = current.digest;
              after_digest = rt.sha256 d.body;
              diff = canonical_markdown_diff current.body d.body;
            },
            record p {
              pending =
                  insert (token_of uuid f) (record { fingerprint = f; target = d.target })
                    p.pending;
            },
          )
        ]

    unfoldable pub accept :
        String
        → String
        → CanonicalDocumentDraft
        → String
        → Promotions S
        → Result PromotionError AcceptedCanonicalPromotion × Promotions S
    unfolding assert_promotion_draft is_human_acceptance accept_current
    accept uuid now d person p =
        elim (assert_promotion_draft d >> guard (is_human_acceptance person) no_person) [
          | err e ↦ (err e, p)
          | ok u ↦
              let answer = store.read d.target p.store in
              elim (answer.0) [
                | err e ↦ (err (store_failed e), record p { store = answer.1 })
                | ok current ↦
                    accept_current uuid now d person current (record p { store = answer.1 })
              ]
        ]

    -- The end of `promote`, with what the store answered.
    unfoldable pub settle :
        CanonicalDocumentDraft
        → String
        → StoredCanonicalDocument
        → CanonicalWriteResult
        → Promotions S
        → Result PromotionError Promotion × Promotions S
    unfolding remove canonical_markdown_diff
    settle d token current (conflict document) p =
        if not (is_sealed document)
        then (err bad_stored_digest, p)
        else (ok (stale target_changed d.target document.body document.digest d.body), p)
    settle d token current (written document) p =
        if not (is_sealed document) then (err bad_stored_digest, p) else (
          ok (
              promoted (record {
                target = d.target;
                before_digest = current.digest;
                after_digest = document.digest;
                diff = canonical_markdown_diff current.body document.body;
              })),
          record p { pending = remove token p.pending },
        )

    unfoldable pub write_accepted :
        CanonicalDocumentDraft
        → String
        → StoredCanonicalDocument
        → Promotions S
        → Result PromotionError Promotion × Promotions S
    unfolding settle
    write_accepted d token current p =
        let answer = store.write_atomic d.target current.digest d.body p.store in
        elim (answer.0) [
          | err e ↦ (err (store_failed e), record p { store = answer.1 })
          | ok result ↦ settle d token current result (record p { store = answer.1 })
        ]

    unfoldable pub promote_accepted :
        PendingAcceptance
        → CanonicalDocumentDraft
        → String
        → StoredCanonicalDocument
        → Promotions S
        → Result PromotionError Promotion × Promotions S
    unfolding fingerprint_canonical_document canonical_markdown_diff write_accepted
    promote_accepted a d token current p = elim (fingerprint_canonical_document d current.digest) [
      | err e ↦ (err e, p)
      | ok actual ↦
          if not (is_same_draft a d actual)
          then (ok (stale draft_changed d.target current.body current.digest d.body), p)
          else if not (a.fingerprint.target_digest is actual.target_digest)
          then (ok (stale target_changed d.target current.body current.digest d.body), p)
          else write_accepted d token current p
    ]

    unfoldable pub promote_current :
        CanonicalDocumentDraft
        → String
        → StoredCanonicalDocument
        → Promotions S
        → Result PromotionError Promotion × Promotions S
    unfolding lookup canonical_markdown_diff promote_accepted
    promote_current d token current p =
        if not (is_sealed current)
        then (err bad_stored_digest, p)
        else elim (lookup token p.pending) [
          | none ↦ (ok (stale unknown_token d.target current.body current.digest d.body), p)
          | some a ↦ promote_accepted a d token current p
        ]

    unfoldable pub promote :
        CanonicalDocumentDraft
        → String
        → Promotions S
        → Result PromotionError Promotion × Promotions S
    unfolding assert_promotion_draft promote_current
    promote d token p = elim (assert_promotion_draft d) [
      | err e ↦ (err e, p)
      | ok u ↦
          let answer = store.read d.target p.store in
          elim (answer.0) [
            | err e ↦ (err (store_failed e), record p { store = answer.1 })
            | ok current ↦ promote_current d token current (record p { store = answer.1 })
          ]
    ]
