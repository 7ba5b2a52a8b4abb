-- ===== src/Review/Packets.antt =====
-- domain/review.ts: what a created packet holds, and when it passes the check before it is sent.
use world_wide_woo.Common.{
  String, ◌≡◌, refl, ap, Bool, true, false, List, ◌↔◌, ok, guard, >>=-eq-ok, arith, ◌is◌, eq_iff,
  subst, ok-injective,
}
use world_wide_woo.Review.{
  public, ClassifiedReviewText, ReviewPacketInput, ReviewPacket, ReviewPacketPreview, ReviewRuntime,
  or_default, no_context, public_projection, stable_json, unsealed, sealed, create_review_packet,
  is_redacted, verify_review_packet, bad_created_at, bad_digest,
}
use world_wide_woo.Ledger.Native.{is_sha256_hex}

-- The packet of an input, whose texts are all classified as public, at a time.
pub record IsPacketOf {F : Type 0} (rt : ReviewRuntime F) (now : String) (input : ReviewPacketInput)
    (p : ReviewPacket) : Type 0 where
  pub purpose_public : input.purpose.sensitivity ≡ public
  pub request_public : input.request.sensitivity ≡ public
  pub context_public : (or_default input.context no_context).sensitivity ≡ public
  pub purpose : p.purpose ≡ (rt.redact input.purpose.value).0
  pub request : p.request ≡ (rt.redact input.request.value).0
  pub context : p.context ≡ (rt.redact (or_default input.context no_context).value).0
  pub dated : rt.parses_as_date p.created_at ≡ true
  pub version : p.schema_version ≡ 1
  pub digest : p.digest ≡ rt.digest (stable_json rt p)

module _ {F : Type 0} (rt : ReviewRuntime F) where
  projected :
      (t : ClassifiedReviewText) (allow_empty : Bool) {r : String × List F}
      → public_projection rt t allow_empty ≡ ok r
      → (t.sensitivity ≡ public) × (r ≡ rt.redact t.value)
  unfolding public_projection
  projected t allow_empty h = (ground (arith, h), ground (arith, h))

  stable_json-sealed : (p : ReviewPacket) → stable_json rt (sealed rt p) ≡ stable_json rt p
  unfolding stable_json
  stable_json-sealed p = refl

  -- A packet that is created holds only the redacted texts of an input classified as public, and the
  -- digest of its contents.
  pub create_review_packet-IsPacketOf :
      (now : String) (input : ReviewPacketInput) (preview : ReviewPacketPreview F)
      → create_review_packet rt now input ≡ ok preview
      → IsPacketOf rt now input preview.packet
  unfolding create_review_packet
  create_review_packet-IsPacketOf now input preview h =
      let (purpose, e1, h1) = >>=-eq-ok (public_projection rt input.purpose false) _ h in
      let (request, e2, h2) = >>=-eq-ok (public_projection rt input.request false) _ h1 in
      let (context, e3, h3) =
        >>=-eq-ok (public_projection rt (or_default input.context no_context) true) _ h2 in
      let (u, e4, h4) =
        >>=-eq-ok (guard (rt.parses_as_date (or_default input.created_at now)) bad_created_at) _
          h3 in
      let packet : ReviewPacket =
        sealed rt (unsealed rt (or_default input.created_at now) purpose.0 request.0 context.0) in
      let (v, e5, h5) = >>=-eq-ok (guard (is_sha256_hex packet.digest) bad_digest) _ h4 in
      let p = projected input.purpose false e1 in
      let r = projected input.request false e2 in
      let c = projected (or_default input.context no_context) true e3 in
      let same : packet ≡ preview.packet = ap (λ q. q.packet) (ok-injective h5) in
      subst (IsPacketOf rt now input) same (record {
        purpose_public = p.0;
        request_public = r.0;
        context_public = c.0;
        purpose = ap (λ q. q.0) p.1;
        request = ap (λ q. q.0) r.1;
        context = ap (λ q. q.0) c.1;
        dated = ground (arith, e4);
        version = refl;
        digest = ap rt.digest (unfold stable_json in refl);
      })

  verified :
      (p : ReviewPacket)
      → rt.parses_as_date p.created_at ≡ true
      → p.schema_version ≡ 1
      → p.digest ≡ rt.digest (stable_json rt p)
      → (verify_review_packet rt p ≡ ok tt) ↔ (
          (is_redacted rt p.purpose ≡ true)
          × (is_redacted rt p.request ≡ true)
          × (is_redacted rt p.context ≡ true))
  unfolding verify_review_packet
  verified p d v e =
      let same : (p.digest is rt.digest (stable_json rt p)) ≡ true = (eq_iff _ _).1 e in
      (
        λ h. (ground (arith, h), ground (arith, h), ground (arith, h)),
        λ h. ground (arith, same, d, v, h.0, h.1, h.2),
      )

  -- A created packet passes the check before it is sent exactly when the redaction, run again, finds
  -- nothing in its three texts.
  pub create_review_packet-verify :
      (now : String) (input : ReviewPacketInput) (preview : ReviewPacketPreview F)
      → create_review_packet rt now input ≡ ok preview
      → (verify_review_packet rt preview.packet ≡ ok tt) ↔ (
          (is_redacted rt preview.packet.purpose ≡ true)
          × (is_redacted rt preview.packet.request ≡ true)
          × (is_redacted rt preview.packet.context ≡ true))
  create_review_packet-verify now input preview h =
      let made = create_review_packet-IsPacketOf now input preview h in
      verified preview.packet made.dated made.version made.digest
