-- ===== src/Promotion/Runs.antt =====
-- application/canonical-promotion.ts: sequences of calls of the service, and their tokens.
use world_wide_woo.Common.{
  ◌≡◌, sym, subst, inl, inr, String, none, List, [], ◌∷◌, Result, ok, err, Result-cases, Bool-cases,
  ◌>>◌, guard,
}
use world_wide_woo.Dict.{lookup, HasOneEach, remove-HasOneEach, insert-HasOneEach}
use world_wide_woo.Canonical.{CanonicalDocumentDraft}
use world_wide_woo.Promotion.{
  StoredCanonicalDocument, PromotionError, no_person, CanonicalDocumentStore, Promotion, promoted,
  gone_stale, Promotions, PromotionRuntime, assert_promotion_draft, fingerprint_canonical_document,
  is_human_acceptance, is_sealed, token_of, accept_current, accept, promote,
}
use world_wide_woo.Promotion.Tokens.{Outcome, promote-Outcome}

-- A call, with what the platform gives it.
pub data Call : Type 0 where
  accepts : String → String → CanonicalDocumentDraft → String → Call
  promotes : CanonicalDocumentDraft → String → Call

module _ (rt : PromotionRuntime) {S : Type 0} (store : CanonicalDocumentStore S) where
  unfoldable pub after : List Call → Promotions S → Promotions S
  unfolding accept promote
  after [] p = p
  after (accepts uuid now d person ∷ calls) p = after calls (accept rt store uuid now d person p).1
  after (promotes d token ∷ calls) p = after calls (promote rt store d token p).1

  accept_current-HasOneEach :
      (uuid now : String) (d : CanonicalDocumentDraft) (person : String)
      (current : StoredCanonicalDocument) (p : Promotions S)
      → HasOneEach p.pending
      → HasOneEach (accept_current rt store uuid now d person current p).1.pending
  unfolding accept_current
  accept_current-HasOneEach uuid now d person current p one =
      elim (Bool-cases (is_sealed rt current)) [
        | inr bad ↦ rw (accept_current, bad) one
        | inl good ↦ elim (Result-cases (fingerprint_canonical_document rt d current.digest)) [
          | inr (e, failed) ↦ rw (accept_current, good, failed) one
          | inl (f, made) ↦
              rw (accept_current, good, made)
                (insert-HasOneEach (token_of rt uuid f) _ p.pending one)
        ]
      ]

  accept-HasOneEach :
      (uuid now : String) (d : CanonicalDocumentDraft) (person : String) (p : Promotions S)
      → HasOneEach p.pending
      → HasOneEach (accept rt store uuid now d person p).1.pending
  unfolding accept
  accept-HasOneEach uuid now d person p one =
      elim (Result-cases
        (assert_promotion_draft rt d >> guard (is_human_acceptance person) no_person)) [
          | inr (e, refused) ↦ rw (accept, refused) one
          | inl (u, passed) ↦
              let answer = store.read d.target p.store in
              elim (Result-cases answer.0) [
                | inr (e, failed) ↦ rw (accept, passed, failed) one
                | inl (current, returned) ↦
                    rw (accept, passed, returned)
                      (accept_current-HasOneEach uuid now d person current
                        (record p { store = answer.1 }) one)
              ]
        ]

  kept :
      (d : CanonicalDocumentDraft) (token : String) (p next : Promotions S)
      (r : Result PromotionError Promotion)
      → HasOneEach p.pending
      → Outcome rt store d token p r next
      → HasOneEach next.pending
  kept d token p next (ok (promoted q)) one o =
      subst HasOneEach (sym o.left) (remove-HasOneEach token p.pending one)
  kept d token p next (ok (gone_stale s)) one o = subst HasOneEach (sym o) one
  kept d token p next (err e) one o = subst HasOneEach (sym o) one

  promote-HasOneEach :
      (d : CanonicalDocumentDraft) (token : String) (p : Promotions S)
      → HasOneEach p.pending
      → HasOneEach (promote rt store d token p).1.pending
  promote-HasOneEach d token p one =
      let r = promote rt store d token p in
      kept d token p r.1 r.0 one (promote-Outcome rt store d token p one)

  pub after-HasOneEach :
      (calls : List Call) (p : Promotions S)
      → HasOneEach p.pending
      → HasOneEach (after calls p).pending
  unfolding after
  after-HasOneEach [] p one = one
  after-HasOneEach (accepts uuid now d person ∷ calls) p one =
      after-HasOneEach calls (accept rt store uuid now d person p).1
        (accept-HasOneEach uuid now d person p one)
  after-HasOneEach (promotes d token ∷ calls) p one =
      after-HasOneEach calls (promote rt store d token p).1 (promote-HasOneEach d token p one)

  abbrev pub Promotes : Result PromotionError Promotion → Type 0
  Promotes (ok (promoted q)) = Unit
  Promotes (ok (gone_stale s)) = ⊥
  Promotes (err e) = ⊥

  known_first :
      (d : CanonicalDocumentDraft) (token : String) (p next : Promotions S)
      (r : Result PromotionError Promotion)
      → Outcome rt store d token p r next
      → lookup token p.pending ≡ none
      → ¬ Promotes r
  known_first d token p next (ok (promoted q)) o unknown promotes_it = cc (o.ready.known, unknown)
  known_first d token p next (ok (gone_stale s)) o unknown promotes_it = promotes_it
  known_first d token p next (err e) o unknown promotes_it = promotes_it

  spent_by :
      (d : CanonicalDocumentDraft) (token : String) (p next : Promotions S)
      (r : Result PromotionError Promotion)
      → Outcome rt store d token p r next
      → Promotes r
      → lookup token next.pending ≡ none
  spent_by d token p next (ok (promoted q)) o promotes_it = o.spent
  spent_by d token p next (ok (gone_stale s)) o promotes_it = absurd promotes_it
  spent_by d token p next (err e) o promotes_it = absurd promotes_it

  -- Whatever calls came before, a token that has promoted a draft promotes no draft in the next call.
  pub promote-promote :
      (calls : List Call) (s : S) (first second : CanonicalDocumentDraft) (token : String)
      → Promotes (promote rt store first token (after calls (record { pending = []; store = s }))).0
      → ¬ Promotes
          (promote rt store second token (
            after (promotes first token ∷ []) (after calls (record { pending = []; store = s })))).0
  unfolding after HasOneEach
  promote-promote calls s first second token promotes_it =
      let p = after calls (record { pending = []; store = s }) in
      let one = after-HasOneEach calls (record { pending = []; store = s }) tt in
      let r = promote rt store first token p in
      let spent =
        spent_by first token p r.1 r.0 (promote-Outcome rt store first token p one) promotes_it in
      let again = promote rt store second token r.1 in
      known_first second token r.1 again.1 again.0
        (promote-Outcome rt store second token r.1 (promote-HasOneEach first token p one)) spent
