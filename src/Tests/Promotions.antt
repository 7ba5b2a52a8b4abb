-- ===== src/Tests/Promotions.antt =====
-- Promotions of a draft at concrete inputs.
use world_wide_woo.Common.{◌≡◌, refl, String, true, none, List, [], ◌∷◌, ok, ◌is◌, if◌then◌else◌}
use world_wide_woo.Value.{is_alphanumeric}
use world_wide_woo.Decimal.{append}
use world_wide_woo.Dict.{lookup, insert, remove, HasOneEach}
use world_wide_woo.Ledger.Native.{is_sha256_hex}
use world_wide_woo.Canonical.{
  tnote, CanonicalDocumentDraft, is_canonical_target_for, is_safe_note_id, is_identifier,
  is_control, is_note_tail, is_identifier_tail, note_target,
}
use world_wide_woo.Promotion.{
  StoredCanonicalDocument, written, conflict, CanonicalDocumentStore, Promotions, PromotionRuntime,
  is_person_tail, accept, promote,
}
use world_wide_woo.Promotion.Tokens.{OutcomeOf, promote-Outcome}
use world_wide_woo.Promotion.Runs.{Call, accepts, promotes, after, Promotes, promote-promote}

-- One document, and a hash that tells one text from the others.
abbrev seal_of : String → String
seal_of s =
    if s is "# Q"
    then "aaaaaaaaaaaaaaaaaaaaaaaaaaaaaaaaaaaaaaaaaaaaaaaaaaaaaaaaaaaaaaaa"
    else "bbbbbbbbbbbbbbbbbbbbbbbbbbbbbbbbbbbbbbbbbbbbbbbbbbbbbbbbbbbbbbbb"

abbrev one_document : CanonicalDocumentStore StoredCanonicalDocument
one_document = record {
  read = λ target s. (ok s, s);
  write_atomic = λ target expected body s.
      let next : StoredCanonicalDocument = record { body = body; digest = seal_of body } in
      if s.digest is expected then (ok (written next), next) else (ok (conflict s), s);
}

abbrev runtime : PromotionRuntime
runtime = record {
  sha256 = seal_of;
  parses_as_date = λ s. true;
  terminal = record { replace = λ p s. s };
}

abbrev draft : CanonicalDocumentDraft
draft = record {
  schema_version = 1;
  kind = tnote;
  body = "# Q";
  source = record { id = "note-1"; kind = tnote; digest = seal_of "" };
  provenance = record { session_id = "s1"; captured_at = "now"; turn_id = none };
  redaction = record { policy = "www-v1"; body_digest = seal_of "# Q" };
  target = ".www/vault/t-notes/note-1.md";
}

abbrev blank : StoredCanonicalDocument
blank = record { body = ""; digest = seal_of "" }

abbrev minted_token : String
minted_token = "www-promotion-v1.u.bbbbbbbbbbbbbbbbbbbbbbbbbbbbbbbbbbbbbbbbbbbbbbbbbbbbbbbbbbbbbbbb"

abbrev acceptance : List Call
acceptance = accepts "u" "now" draft "woo" ∷ []

abbrev accepted_state : Promotions StoredCanonicalDocument
accepted_state = record {
  pending =
      (
        minted_token,
        record {
          fingerprint = record {
            body_digest = seal_of "# Q";
            source_digest = seal_of "";
            target_digest = seal_of "";
            digest = seal_of "";
          };
          target = ".www/vault/t-notes/note-1.md";
        },
      )
      ∷ [];
  store = blank;
}

accepted_state_lem :
    after runtime one_document acceptance (record { pending = []; store = blank }) ≡ accepted_state
unfolding after accept is_canonical_target_for is_safe_note_id is_identifier is_control is_note_tail
    is_identifier_tail is_alphanumeric note_target append is_sha256_hex is_person_tail insert
accepted_state_lem = refl

promote-Outcome_example :
    OutcomeOf runtime one_document draft minted_token accepted_state
      (promote runtime one_document draft minted_token accepted_state)
promote-Outcome_example =
    promote-Outcome runtime one_document draft minted_token accepted_state
      (unfold HasOneEach lookup in (refl, tt))

promoted_first :
    Promotes runtime one_document
      (promote runtime one_document draft minted_token
        (after runtime one_document acceptance (record { pending = []; store = blank }))).0
unfolding after accept promote is_canonical_target_for is_safe_note_id is_identifier is_control
    is_note_tail is_identifier_tail is_alphanumeric note_target append is_sha256_hex is_person_tail
    insert lookup remove
promoted_first = tt

promote-promote_example :
    ¬ Promotes runtime one_document
      (promote runtime one_document draft minted_token (
        after runtime one_document
          (promotes draft minted_token ∷ [])
          (after runtime one_document acceptance (record { pending = []; store = blank })))).0
promote-promote_example =
    promote-promote runtime one_document acceptance blank draft draft minted_token promoted_first
