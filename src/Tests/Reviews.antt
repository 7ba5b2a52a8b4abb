-- ===== src/Tests/Reviews.antt =====
-- Reviews at concrete inputs.
use world_wide_woo.Common.{
  String, ◌≡◌, refl, true, Option, none, some, [], ◌↔◌, Result, ok, err, All, ◌∷◌,
}
use world_wide_woo.Decimal.{append, decimal}
use world_wide_woo.Ledger.Native.{is_sha256_hex}
use world_wide_woo.Review.{
  ReviewProvider, anthropic, google, public, secret, denied, ReviewPacketInput, ReviewPacket,
  ReviewPacketPreview, ReviewRuntime, public_projection, stable_json, create_review_packet,
  is_redacted, verify_review_packet,
}
use world_wide_woo.Review.Packets.{
  IsPacketOf, create_review_packet-IsPacketOf, create_review_packet-verify,
}
use world_wide_woo.Review.Histories.{send_all, IsBacked, send_all-IsBacked}
use world_wide_woo.Review.Service.{
  ReviewDelivery, ReviewAdapter, ApprovedReview, ReviewService, ReviewProvenance, send, ask,
  record_delivery, Outcome, provenance_of, send-Outcome,
}

abbrev seal : String
seal = "aaaaaaaaaaaaaaaaaaaaaaaaaaaaaaaaaaaaaaaaaaaaaaaaaaaaaaaaaaaaaaaa"

abbrev plain_review : ReviewRuntime String
plain_review = record {
  redact = λ s. (s, []);
  digest = λ s. seal;
  quote = λ s. s;
  parses_as_date = λ s. true;
  trim = λ s. s;
}

abbrev question : ReviewPacketInput
question = record {
  purpose = record { value = "plan"; sensitivity = public };
  request = record { value = "look"; sensitivity = public };
  context = none;
  created_at = none;
}

abbrev packet : ReviewPacket
packet = record {
  schema_version = 1;
  created_at = "now";
  purpose = "plan";
  request = "look";
  context = "";
  digest = seal;
}

abbrev shown : ReviewPacketPreview String
shown = record { packet = packet; findings = [] }

created : create_review_packet plain_review "now" question ≡ ok shown
unfolding create_review_packet public_projection stable_json is_sha256_hex append decimal
created = refl

secret_denied :
    create_review_packet plain_review "now"
      (record question { purpose = record { value = "plan"; sensitivity = secret } })
    ≡ err denied
unfolding create_review_packet public_projection
secret_denied = refl

create_review_packet-IsPacketOf_example : IsPacketOf plain_review "now" question packet
create_review_packet-IsPacketOf_example =
    create_review_packet-IsPacketOf plain_review "now" question shown created

create_review_packet-verify_example : (verify_review_packet plain_review packet ≡ ok tt) ↔ (
    (is_redacted plain_review "plan" ≡ true)
    × (is_redacted plain_review "look" ≡ true)
    × (is_redacted plain_review "" ≡ true))
create_review_packet-verify_example =
    create_review_packet-verify plain_review "now" question shown created

abbrev delivery : ReviewDelivery
delivery = record {
  provider = google;
  model = "m";
  version = "v";
  transport = none;
  packet_digest = seal;
  sent_at = "then";
  received_at = "now";
  result = "fine";
  result_digest = seal;
  usage = none;
}

-- The outside world counts nothing here.
abbrev adapter : ReviewAdapter (Unit {0})
adapter = record { provider = google; model = "m"; version = "v"; review = λ p s. (ok delivery, s) }

abbrev only_google : ReviewProvider → Option (ReviewAdapter (Unit {0}))
only_google anthropic = none
only_google google = some adapter

abbrev kept : ReviewProvenance → Unit {0} → Result String (Unit {0}) × Unit {0}
kept p s = (ok tt, s)

abbrev approval : ApprovedReview
approval = record { packet = packet; accepted_digest = seal; provider = google }

abbrev quiet : ReviewService (Unit {0})
quiet = record { records = []; outside = tt }

delivered : (send only_google kept approval quiet).0 ≡ ok delivery
unfolding send ask record_delivery
delivered = refl

send-Outcome_example :
    Outcome only_google kept approval quiet
      (send only_google kept approval quiet).0
      (send only_google kept approval quiet).1
send-Outcome_example = send-Outcome only_google kept approval quiet

send_all-IsBacked_example :
    All
      (IsBacked only_google kept (approval ∷ approval ∷ []))
      (send_all only_google kept (approval ∷ approval ∷ []) quiet).records
send_all-IsBacked_example = send_all-IsBacked only_google kept (approval ∷ approval ∷ []) quiet refl

all_kept :
    (send_all only_google kept (approval ∷ approval ∷ []) quiet).records
    ≡ provenance_of delivery ∷ provenance_of delivery ∷ []
unfolding send_all send ask record_delivery
all_kept = refl
