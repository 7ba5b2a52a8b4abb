-- ===== src/Review.antt =====
-- domain/review.ts: packets for a review by another provider, redacted and sealed by a digest.
-- JavaScript's `JSON.stringify` on texts, `Date.parse` and `trim`, the injected digest, and
-- `redactForExternalReview` of domain/redaction.ts are a record of functions.
pub mod Histories
pub mod Packets
pub mod Service
use Prim.Native.String
use world_wide_woo.Common.{
  ℕ, String, Bool, true, false, not, ◌&&◌, Option, none, some, List, [], ◌∷◌, ◌++◌, ◌==◌, ◌is◌,
  Result, ok, err, ◌>>=◌, ◌>>◌, guard, refuse, length,
}
use world_wide_woo.Value.{is_empty}
use world_wide_woo.Decimal.{append, decimal}
use world_wide_woo.Ledger.Native.{is_sha256_hex}

abbrev pub review_packet_version : ℕ
review_packet_version = 1

pub data ReviewProvider : Type 0 where
  anthropic google : ReviewProvider

pub data ReviewSensitivity : Type 0 where
  public secret credential customer unknown : ReviewSensitivity

pub record ClassifiedReviewText : Type 0 where
  pub value : String
  pub sensitivity : ReviewSensitivity

pub record ReviewPacketInput : Type 0 where
  pub purpose : ClassifiedReviewText
  pub request : ClassifiedReviewText
  pub context : Option ClassifiedReviewText
  pub created_at : Option String

pub record ReviewPacket : Type 0 where
  pub schema_version : ℕ
  pub created_at : String
  pub purpose : String
  pub request : String
  pub context : String
  pub digest : String

-- `ReviewRedactionFinding` is the type `F`.
pub record ReviewPacketPreview (F : Type 0) : Type 0 where
  pub packet : ReviewPacket
  pub findings : List F

pub record ReviewRuntime (F : Type 0) : Type 0 where
  pub redact : String → String × List F
  pub digest : String → String
  pub quote : String → String
  pub parses_as_date : String → Bool
  pub trim : String → String

pub data ReviewError : Type 0 where
  required denied bad_created_at bad_digest unsupported bad_timestamp unredacted altered :
      ReviewError

abbrev pub is_public : ReviewSensitivity → Bool
is_public public = true
is_public _ = false

abbrev pub concat : List String → String
concat [] = ""
concat (s ∷ ss) = append s (concat ss)

abbrev pub is_nothing {ℓ} : {A : Type ℓ} → List A → Bool
is_nothing [] = true
is_nothing (x ∷ xs) = false

abbrev pub or_default {ℓ} : {A : Type ℓ} → Option A → A → A
or_default none d = d
or_default (some a) d = a

abbrev pub no_context : ClassifiedReviewText
no_context = record { value = ""; sensitivity = public }

module _ {F : Type 0} (rt : ReviewRuntime F) where
  -- `publicProjection(value, name, allowEmpty)`.
  unfoldable pub public_projection :
      ClassifiedReviewText → Bool → Result ReviewError (String × List F)
  public_projection t allow_empty = do
    refuse (not allow_empty && is_empty (rt.trim t.value)) required
    guard (is_public t.sensitivity) denied
    ok (rt.redact t.value)

  -- `stableJson` of a packet without its digest: the keys in order.
  unfoldable pub stable_json : ReviewPacket → String
  unfolding append decimal
  stable_json p = concat (
      "{\"context\":"
      ∷ rt.quote p.context
      ∷ ",\"createdAt\":"
      ∷ rt.quote p.created_at
      ∷ ",\"purpose\":"
      ∷ rt.quote p.purpose
      ∷ ",\"request\":"
      ∷ rt.quote p.request
      ∷ ",\"schemaVersion\":"
      ∷ decimal p.schema_version
      ∷ "}"
      ∷ [])

  abbrev pub unsealed : String → String → String → String → ReviewPacket
  unsealed created_at purpose request context = record {
    schema_version = review_packet_version;
    created_at = created_at;
    purpose = purpose;
    request = request;
    context = context;
    digest = "";
  }

  abbrev pub sealed : ReviewPacket → ReviewPacket
  sealed p = record p { digest = rt.digest (stable_json p) }

  -- `createReviewPacket`; `now` is the time at the call.
  unfoldable pub create_review_packet :
      String → ReviewPacketInput → Result ReviewError (ReviewPacketPreview F)
  create_review_packet now input = do
    purpose ← public_projection input.purpose false
    request ← public_projection input.request false
    context ← public_projection (or_default input.context no_context) true
    let created_at = or_default input.created_at now
    guard (rt.parses_as_date created_at) bad_created_at
    let packet = sealed (unsealed created_at purpose.0 request.0 context.0)
    guard (is_sha256_hex packet.digest) bad_digest
    ok (record { packet = packet; findings = purpose.1 ++ request.1 ++ context.1 })

  abbrev pub is_redacted : String → Bool
  is_redacted s = is_nothing (rt.redact s).1

  unfoldable pub verify_review_packet : ReviewPacket → Result ReviewError (Unit {0})
  verify_review_packet p = do
    guard (p.schema_version == review_packet_version) unsupported
    guard (rt.parses_as_date p.created_at) bad_timestamp
    guard (is_redacted p.purpose) unredacted
    guard (is_redacted p.request) unredacted
    guard (is_redacted p.context) unredacted
    guard (p.digest is rt.digest (stable_json p)) altered

  -- The JSON object that `reviewPacketInput` writes, where the packet passes.
  unfoldable pub review_packet_input : ReviewPacket → Result ReviewError String
  unfolding verify_review_packet append decimal
  review_packet_input p = do
    verify_review_packet p
    ok (
        concat (
          "{\"packetVersion\":"
          ∷ decimal p.schema_version
          ∷ ",\"packetDigest\":"
          ∷ rt.quote p.digest
          ∷ ",\"purpose\":"
          ∷ rt.quote p.purpose
          ∷ ",\"request\":"
          ∷ rt.quote p.request
          ∷ ",\"context\":"
          ∷ rt.quote p.context
          ∷ "}"
          ∷ []))
