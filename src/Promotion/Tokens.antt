-- ===== src/Promotion/Tokens.antt =====
-- application/canonical-promotion.ts: what a call of `promote` does with the store and its token.
use world_wide_woo.Common.{
  ◌≡◌, refl, sym, ap, ◌∙◌, inl, inr, String, none, some, ◌is◌, is→≡, and_left, and_right, Result,
  ok, err, Result-cases, Bool-cases, Option-cases, guard, >>=-eq-ok, ok-injective,
}
use world_wide_woo.Dict.{lookup, remove, HasOneEach, lookup-remove}
use world_wide_woo.Canonical.{CanonicalDocumentDraft}
use world_wide_woo.Ledger.Native.{is_sha256_hex}
use world_wide_woo.Promotion.{
  bad_target_digest, StoredCanonicalDocument, CanonicalWriteResult, written, conflict,
  PromotionError, CanonicalDocumentStore, Promotion, promoted, gone_stale,
  CanonicalDocumentFingerprint, PendingAcceptance, Promotions, PromotionRuntime,
  assert_promotion_draft, fingerprint_canonical_document, is_sealed, is_same_draft, settle,
  write_accepted, promote_accepted, promote_current, promote,
}

module _ (rt : PromotionRuntime) {S : Type 0} (store : CanonicalDocumentStore S) where
  -- Before the write: the token's acceptance is for this draft and for the document that was read.
  pub record IsReady (d : CanonicalDocumentDraft) (token : String) (p : Promotions S)
      (current : StoredCanonicalDocument) (between : S) : Type 0 where
    pub acceptance : PendingAcceptance
    pub known : lookup token p.pending ≡ some acceptance
    pub same_target : acceptance.target ≡ d.target
    pub same_body : acceptance.fingerprint.body_digest ≡ rt.sha256 d.body
    pub same_source : acceptance.fingerprint.source_digest ≡ d.source.digest
    pub same_base : acceptance.fingerprint.target_digest ≡ current.digest
    pub was_read : store.read d.target p.store ≡ (ok current, between)

  -- A promotion: the draft's body was written over the document that was accepted, and the token is
  -- spent.
  pub record IsPromotion (d : CanonicalDocumentDraft) (token : String) (p after : Promotions S)
      : Type 0 where
    pub current : StoredCanonicalDocument
    pub between : S
    pub ready : IsReady d token p current between
    pub document : StoredCanonicalDocument
    pub wrote :
        store.write_atomic d.target current.digest d.body between
        ≡ (ok (written document), after.store)
    pub left : after.pending ≡ remove token p.pending
    pub spent : lookup token after.pending ≡ none

  abbrev pub Outcome :
      CanonicalDocumentDraft
      → String
      → Promotions S
      → Result PromotionError Promotion
      → Promotions S
      → Type 0
  Outcome d token p (ok (promoted q)) after = IsPromotion d token p after
  Outcome d token p (ok (gone_stale s)) after = after.pending ≡ p.pending
  Outcome d token p (err e) after = after.pending ≡ p.pending

  abbrev pub OutcomeOf :
      CanonicalDocumentDraft
      → String
      → Promotions S
      → Result PromotionError Promotion × Promotions S
      → Type 0
  OutcomeOf d token p r = Outcome d token p r.0 r.1

  fingerprint_fields :
      (d : CanonicalDocumentDraft) (base : String) {f : CanonicalDocumentFingerprint}
      → fingerprint_canonical_document rt d base ≡ ok f
      → (f.body_digest ≡ rt.sha256 d.body)
        × (f.source_digest ≡ d.source.digest)
        × (f.target_digest ≡ base)
  unfolding fingerprint_canonical_document
  fingerprint_fields d base h =
      let (u, drafted, rest) = >>=-eq-ok (assert_promotion_draft rt d) _ h in
      let (v, sealed, last) = >>=-eq-ok (guard (is_sha256_hex base) bad_target_digest) _ rest in
      let same = ok-injective last in
      (
        sym (ap (λ f. f.body_digest) same),
        sym (ap (λ f. f.source_digest) same),
        sym (ap (λ f. f.target_digest) same),
      )

  module _ (d : CanonicalDocumentDraft) (token : String) (p : Promotions S)
      (one : HasOneEach p.pending) (current : StoredCanonicalDocument) (between : S) where
    settle-Outcome :
        (ready : IsReady d token p current between) (result : CanonicalWriteResult) (s : S)
        → store.write_atomic d.target current.digest d.body between ≡ (ok result, s)
        → OutcomeOf d token p (settle rt store d token current result (record p { store = s }))
    unfolding settle
    settle-Outcome ready (conflict document) s h = elim (Bool-cases (is_sealed rt document)) [
      | inl good ↦ rw good refl
      | inr bad ↦ rw bad refl
    ]
    settle-Outcome ready (written document) s h = elim (Bool-cases (is_sealed rt document)) [
      | inr bad ↦ rw bad refl
      | inl good ↦ rw good record {
        current = current;
        between = between;
        ready = ready;
        document = document;
        wrote = h;
        left = refl;
        spent = lookup-remove token p.pending one;
      }
    ]

    write_accepted-Outcome :
        IsReady d token p current between
        → OutcomeOf d token p
            (write_accepted rt store d token current (record p { store = between }))
    unfolding write_accepted
    write_accepted-Outcome ready =
        let answer = store.write_atomic d.target current.digest d.body between in
        elim (Result-cases answer.0) [
          | inr (e, failed) ↦ rw (write_accepted, failed) refl
          | inl (result, returned) ↦
              rw (write_accepted, returned)
                (settle-Outcome ready result answer.1 (ap (λ r. (r, answer.1)) returned))
        ]

    promote_accepted-Outcome :
        (a : PendingAcceptance)
        → lookup token p.pending ≡ some a
        → store.read d.target p.store ≡ (ok current, between)
        → OutcomeOf d token p
            (promote_accepted rt store a d token current (record p { store = between }))
    unfolding promote_accepted
    promote_accepted-Outcome a known read =
        elim (Result-cases (fingerprint_canonical_document rt d current.digest)) [
          | inr (e, failed) ↦ rw (promote_accepted, failed) refl
          | inl (actual, made) ↦ elim (Bool-cases (is_same_draft a d actual)) [
            | inr changed ↦ rw (promote_accepted, made, changed) refl
            | inl same ↦ elim (Bool-cases (a.fingerprint.target_digest is actual.target_digest)) [
              | inr moved ↦ rw (promote_accepted, made, same, moved) refl
              | inl still ↦
                  let (body, source, base) = fingerprint_fields d current.digest made in
                  let both =
                    and_left _ (a.fingerprint.source_digest is actual.source_digest) same in
                  rw (promote_accepted, made, same, still)
                    (write_accepted-Outcome record {
                      acceptance = a;
                      known = known;
                      same_target = is→≡ a.target d.target (and_left _ _ both);
                      same_body =
                          is→≡ a.fingerprint.body_digest actual.body_digest (and_right _ _ both)
                          ∙ body;
                      same_source =
                          is→≡ a.fingerprint.source_digest actual.source_digest (and_right _ _ same)
                          ∙ source;
                      same_base =
                          is→≡ a.fingerprint.target_digest actual.target_digest still ∙ base;
                      was_read = read;
                    })
            ]
          ]
        ]

    promote_current-Outcome :
        store.read d.target p.store ≡ (ok current, between)
        → OutcomeOf d token p
            (promote_current rt store d token current (record p { store = between }))
    unfolding promote_current
    promote_current-Outcome read = elim (Bool-cases (is_sealed rt current)) [
      | inr bad ↦ rw (promote_current, bad) refl
      | inl good ↦ elim (Option-cases (lookup token p.pending)) [
        | inl unknown ↦ rw (promote_current, good, unknown) refl
        | inr (a, known) ↦ rw (promote_current, good, known) (promote_accepted-Outcome a known read)
      ]
    ]

  -- Where each token is pending once: a call that promotes had a pending acceptance of its token, for
  -- the draft's target, body and source and for the document that it read; it wrote the draft's body
  -- over that document and no other, and its token is spent. A call that does not promote leaves all
  -- tokens as they were.
  pub promote-Outcome :
      (d : CanonicalDocumentDraft) (token : String) (p : Promotions S)
      → HasOneEach p.pending
      → OutcomeOf d token p (promote rt store d token p)
  unfolding promote
  promote-Outcome d token p one = elim (Result-cases (assert_promotion_draft rt d)) [
    | inr (e, refused) ↦ rw (promote, refused) refl
    | inl (u, passed) ↦
        let answer = store.read d.target p.store in
        elim (Result-cases answer.0) [
          | inr (e, failed) ↦ rw (promote, passed, failed) refl
          | inl (current, returned) ↦
              rw (promote, passed, returned)
                (promote_current-Outcome d token p one current answer.1
                  (ap (λ r. (r, answer.1)) returned))
        ]
  ]
