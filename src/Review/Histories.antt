-- ===== src/Review/Histories.antt =====
-- application/review-service.ts: what the records hold after any sequence of deliveries.
use world_wide_woo.Common.{
  String, ◌≡◌, refl, ap, sym, ◌∙◌, subst, List, [], ◌∷◌, ◌++◌, Option, some, All, All-append,
  Result, ok, err,
}
use world_wide_woo.Review.{ReviewProvider}
use world_wide_woo.Review.Service.{
  ReviewProvenance, ReviewDelivery, ReviewAdapter, ApprovedReview, ReviewService, SendError,
  unapproved, no_adapter, bad_provenance, failed, Outcome, send, send-Outcome,
}

append_one {ℓ} :
    {A : Type ℓ} (xs : List A) (x : A) (ys : List A) → (xs ++ (x ∷ [])) ++ ys ≡ xs ++ (x ∷ ys)
append_one [] x ys = refl
append_one (z ∷ xs) x ys = ap (λ r. z ∷ r) (append_one xs x ys)

module _ {S : Type 0} (adapters : ReviewProvider → Option (ReviewAdapter S))
    (append : ReviewProvenance → S → Result String (Unit {0}) × S) where
  -- A call of `send` for each approval, in order.
  unfoldable pub send_all : List ApprovedReview → ReviewService S → ReviewService S
  send_all [] s = s
  send_all (approval ∷ approvals) s = send_all approvals (send adapters append approval s).1

  -- One of the approvals is for the packet whose digest the record has, and the record names the
  -- adapter that is configured for the provider of that approval.
  pub record IsBacked (approvals : List ApprovedReview) (r : ReviewProvenance) : Type 0 where
    pub before : List ApprovedReview
    pub rest : List ApprovedReview
    pub approval : ApprovedReview
    pub given : approvals ≡ before ++ (approval ∷ rest)
    pub approved : approval.accepted_digest ≡ approval.packet.digest
    pub digest : r.packet_digest ≡ approval.packet.digest
    pub adapter : ReviewAdapter S
    pub configured : adapters approval.provider ≡ some adapter
    pub provider : r.provider ≡ adapter.provider
    pub model : r.model ≡ adapter.model
    pub version : r.version ≡ adapter.version

  Outcome-IsBacked :
      (before rest : List ApprovedReview) (approval : ApprovedReview) (s s' : ReviewService S)
      (r : Result SendError ReviewDelivery)
      → Outcome adapters append approval s r s'
      → All (IsBacked (before ++ (approval ∷ rest))) s.records
      → All (IsBacked (before ++ (approval ∷ rest))) s'.records
  Outcome-IsBacked before rest approval s s' (ok d) o h =
      let backed : IsBacked (before ++ (approval ∷ rest)) o.kept = record {
        before = before;
        rest = rest;
        approval = approval;
        given = refl;
        approved = o.approved;
        digest = o.of_delivery.packet_digest ∙ (o.packet_digest ∙ o.approved);
        adapter = o.adapter;
        configured = o.configured;
        provider = o.of_delivery.provider ∙ o.provider;
        model = o.of_delivery.model ∙ o.model;
        version = o.of_delivery.version ∙ o.version;
      } in
      subst (All (IsBacked (before ++ (approval ∷ rest)))) (sym o.recorded)
        (All-append (IsBacked (before ++ (approval ∷ rest))) s.records (o.kept ∷ []) h (backed, tt))
  Outcome-IsBacked before rest approval s s' (err unapproved) o h =
      subst (All (IsBacked (before ++ (approval ∷ rest))))
        (ap (λ (x : ReviewService S). x.records) (sym o)) h
  Outcome-IsBacked before rest approval s s' (err no_adapter) o h =
      subst (All (IsBacked (before ++ (approval ∷ rest))))
        (ap (λ (x : ReviewService S). x.records) (sym o)) h
  Outcome-IsBacked before rest approval s s' (err bad_provenance) o h =
      subst (All (IsBacked (before ++ (approval ∷ rest)))) (sym o) h
  Outcome-IsBacked before rest approval s s' (err (failed m)) o h =
      subst (All (IsBacked (before ++ (approval ∷ rest)))) (sym o) h

  send_all-kept :
      (before rest : List ApprovedReview) (s : ReviewService S)
      → All (IsBacked (before ++ rest)) s.records
      → All (IsBacked (before ++ rest)) (send_all rest s).records
  unfolding send_all
  send_all-kept before [] s h = h
  send_all-kept before (approval ∷ rest) s h =
      let moved = append_one before approval rest in
      subst (λ xs. All (IsBacked xs) (send_all rest (send adapters append approval s).1).records)
        moved
        (send_all-kept (before ++ (approval ∷ [])) rest (send adapters append approval s).1 (
          subst (λ xs. All (IsBacked xs) (send adapters append approval s).1.records) (sym moved)
            (Outcome-IsBacked before rest approval s (send adapters append approval s).1
              (send adapters append approval s).0 (send-Outcome adapters append approval s) h)))

  -- Starting without records, after any calls of `send`, whatever the adapters and the store answer:
  -- each record is of a packet that one of the calls approved by its exact digest, and names the
  -- provider, the model and the version of the adapter configured for that approval.
  pub send_all-IsBacked :
      (approvals : List ApprovedReview) (s : ReviewService S)
      → s.records ≡ []
      → All (IsBacked approvals) (send_all approvals s).records
  send_all-IsBacked approvals s none_yet =
      send_all-kept [] approvals s (subst (All (IsBacked approvals)) (sym none_yet) tt)
