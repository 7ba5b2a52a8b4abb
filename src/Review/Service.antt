-- ===== src/Review/Service.antt =====
-- application/review-service.ts: which packets go to an adapter.
use world_wide_woo.Common.{
  ℕ, String, ◌≡◌, refl, Bool, true, false, ◌&&◌, Option, none, some, List, [], ◌∷◌, ◌++◌, ◌is◌,
  is→≡, Result, ok, err, branch, if◌then◌else◌, Bool-cases, Result-cases, Option-cases, inl, inr,
  ap, sym, ◌∙◌, arith,
}
use world_wide_woo.Review.{ReviewProvider, anthropic, google, ReviewPacket}

pub data Transport : Type 0 where
  provider_api claude_cli : Transport

pub record ReviewUsage : Type 0 where
  pub input_tokens : Option ℕ
  pub output_tokens : Option ℕ
  pub cache_creation_input_tokens : Option ℕ
  pub cache_read_input_tokens : Option ℕ

pub record ReviewDelivery : Type 0 where
  pub provider : ReviewProvider
  pub model : String
  pub version : String
  pub transport : Option Transport
  pub packet_digest : String
  pub sent_at : String
  pub received_at : String
  pub result : String
  pub result_digest : String
  pub usage : Option ReviewUsage

pub record ReviewProvenance : Type 0 where
  pub provider : ReviewProvider
  pub model : String
  pub version : String
  pub transport : Option Transport
  pub packet_digest : String
  pub result_digest : String
  pub sent_at : String
  pub received_at : String
  pub usage : Option ReviewUsage

pub record ReviewAdapter (S : Type 0) : Type 0 where
  pub provider : ReviewProvider
  pub model : String
  pub version : String
  pub review : ReviewPacket → S → Result String ReviewDelivery × S

pub record ApprovedReview : Type 0 where
  pub packet : ReviewPacket
  pub accepted_digest : String
  pub provider : ReviewProvider

pub record ReviewService (S : Type 0) : Type 0 where
  pub records : List ReviewProvenance
  pub outside : S

pub data SendError : Type 0 where
  unapproved no_adapter bad_provenance : SendError
  failed : String → SendError

abbrev pub same_provider : ReviewProvider → ReviewProvider → Bool
same_provider anthropic anthropic = true
same_provider google google = true
same_provider _ _ = false

abbrev pub provenance_of : ReviewDelivery → ReviewProvenance
provenance_of d = record {
  provider = d.provider;
  model = d.model;
  version = d.version;
  transport = d.transport;
  packet_digest = d.packet_digest;
  result_digest = d.result_digest;
  sent_at = d.sent_at;
  received_at = d.received_at;
  usage = d.usage;
}

module _ {S : Type 0} (adapters : ReviewProvider → Option (ReviewAdapter S))
    (append : ReviewProvenance → S → Result String (Unit {0}) × S) where
  abbrev pub is_faithful : ReviewPacket → ReviewAdapter S → ReviewDelivery → Bool
  is_faithful p a d =
      (d.packet_digest is p.digest)
      && same_provider d.provider a.provider
      && (d.model is a.model)
      && (d.version is a.version)

  -- `store?.append` and `records.push`; without a store, `append` answers at once.
  unfoldable pub record_delivery :
      ReviewDelivery → ReviewService S → Result SendError ReviewDelivery × ReviewService S
  record_delivery d s =
      let appended = append (provenance_of d) s.outside in
      branch appended.0
        (λ _. (ok d, record { records = s.records ++ provenance_of d ∷ []; outside = appended.1 }))
        (λ m. (err (failed m), record s { outside = appended.1 }))

  unfoldable pub ask :
      ReviewPacket
      → ReviewAdapter S
      → ReviewService S
      → Result SendError ReviewDelivery × ReviewService S
  ask p a s =
      let answer = a.review p s.outside in
      let s' = record s { outside = answer.1 } in
      branch answer.0
        (λ d. if is_faithful p a d then record_delivery d s' else (err bad_provenance, s'))
        (λ m. (err (failed m), s'))

  abbrev pub ask_adapter :
      Option (ReviewAdapter S)
      → ReviewPacket
      → ReviewService S
      → Result SendError ReviewDelivery × ReviewService S
  ask_adapter none p s = (err no_adapter, s)
  ask_adapter (some a) p s = ask p a s

  unfoldable pub send :
      ApprovedReview → ReviewService S → Result SendError ReviewDelivery × ReviewService S
  send approval s =
      if approval.accepted_digest is approval.packet.digest
      then ask_adapter (adapters approval.provider) approval.packet s
      else (err unapproved, s)

  -- The record of a delivery: all of it but the result.
  pub record IsRecordOf (r : ReviewProvenance) (d : ReviewDelivery) : Type 0 where
    pub provider : r.provider ≡ d.provider
    pub model : r.model ≡ d.model
    pub version : r.version ≡ d.version
    pub transport : r.transport ≡ d.transport
    pub packet_digest : r.packet_digest ≡ d.packet_digest
    pub result_digest : r.result_digest ≡ d.result_digest
    pub sent_at : r.sent_at ≡ d.sent_at
    pub received_at : r.received_at ≡ d.received_at
    pub usage : r.usage ≡ d.usage

  -- What was sent, where a delivery came back.
  pub record Sent (approval : ApprovedReview) (s s' : ReviewService S) (d : ReviewDelivery)
      : Type 0 where
    pub approved : approval.accepted_digest ≡ approval.packet.digest
    pub adapter : ReviewAdapter S
    pub configured : adapters approval.provider ≡ some adapter
    pub answered : (adapter.review approval.packet s.outside).0 ≡ ok d
    pub packet_digest : d.packet_digest ≡ approval.accepted_digest
    pub provider : d.provider ≡ adapter.provider
    pub model : d.model ≡ adapter.model
    pub version : d.version ≡ adapter.version
    pub kept : ReviewProvenance
    pub of_delivery : IsRecordOf kept d
    pub recorded : s'.records ≡ s.records ++ kept ∷ []

  -- What each end of `send` means: no record is kept of a review that throws.
  abbrev pub Outcome :
      ApprovedReview → ReviewService S → Result SendError ReviewDelivery → ReviewService S → Type 0
  Outcome approval s (ok d) s' = Sent approval s s' d
  Outcome approval s (err unapproved) s' = s' ≡ s
  Outcome approval s (err no_adapter) s' = s' ≡ s
  Outcome approval s (err bad_provenance) s' = s'.records ≡ s.records
  Outcome approval s (err (failed m)) s' = s'.records ≡ s.records

  provenance_of-IsRecordOf : (d : ReviewDelivery) → IsRecordOf (provenance_of d) d
  provenance_of-IsRecordOf d = record {
    provider = refl;
    model = refl;
    version = refl;
    transport = refl;
    packet_digest = refl;
    result_digest = refl;
    sent_at = refl;
    received_at = refl;
    usage = refl;
  }

  same_provider→≡ : (p q : ReviewProvider) → same_provider p q ≡ true → p ≡ q
  same_provider→≡ p q h = ground arith

  record_delivery-Outcome :
      (approval : ApprovedReview) (a : ReviewAdapter S) (d : ReviewDelivery) (s : ReviewService S)
      → approval.accepted_digest ≡ approval.packet.digest
      → adapters approval.provider ≡ some a
      → (a.review approval.packet s.outside).0 ≡ ok d
      → is_faithful approval.packet a d ≡ true
      → (s' : ReviewService S) → s'.records ≡ s.records
      → Outcome approval s (record_delivery d s').0 (record_delivery d s').1
  unfolding record_delivery
  record_delivery-Outcome approval a d s h c r f s' same =
      elim (Result-cases (append (provenance_of d) s'.outside).0) [
        | inl (u, e) ↦ rw e (record {
          approved = h;
          adapter = a;
          configured = c;
          answered = r;
          packet_digest = is→≡ d.packet_digest approval.packet.digest (ground (arith, f)) ∙ sym h;
          provider = same_provider→≡ d.provider a.provider (ground (arith, f));
          model = is→≡ d.model a.model (ground (arith, f));
          version = is→≡ d.version a.version (ground (arith, f));
          kept = provenance_of d;
          of_delivery = provenance_of-IsRecordOf d;
          recorded = ap (λ rs. rs ++ provenance_of d ∷ []) same;
        })
        | inr (m, e) ↦ rw e same
      ]

  ask-Outcome :
      (approval : ApprovedReview) (a : ReviewAdapter S) (s : ReviewService S)
      → approval.accepted_digest ≡ approval.packet.digest
      → adapters approval.provider ≡ some a
      → Outcome approval s (ask approval.packet a s).0 (ask approval.packet a s).1
  unfolding ask
  ask-Outcome approval a s h c = elim (Result-cases (a.review approval.packet s.outside).0) [
    | inr (m, e) ↦ rw e refl
    | inl (d, e) ↦ rw e (elim (Bool-cases (is_faithful approval.packet a d)) [
      | inl f ↦ rw f (
          record_delivery-Outcome approval a d s h c e f
            (record s { outside = (a.review approval.packet s.outside).1 }) refl)
      | inr f ↦ rw f refl
    ])
  ]

  -- A delivery comes back only for a packet whose exact digest was approved: it is the answer of the
  -- configured adapter, with the approved digest and that adapter's provider, model and version. Then
  -- one record is added, with all fields of the delivery but its result. A packet that is not approved or has no adapter changes nothing, and no other failure records
  -- anything.
  pub send-Outcome :
      (approval : ApprovedReview) (s : ReviewService S)
      → Outcome approval s (send approval s).0 (send approval s).1
  unfolding send
  send-Outcome approval s = elim (Bool-cases (approval.accepted_digest is approval.packet.digest)) [
    | inr other ↦ rw other refl
    | inl same ↦ rw same (elim (Option-cases (adapters approval.provider)) [
      | inl nobody ↦ rw nobody refl
      | inr (a, c) ↦ rw c (ask-Outcome approval a s (is→≡ _ _ same) c)
    ])
  ]
