-- ===== src/Tests/Canonicals.antt =====
-- Tracked documents at concrete inputs.
use world_wide_woo.Common.{String, ◌≡◌, refl, Bool, true, none, some, List, [], ◌∷◌, ok}
use world_wide_woo.Decimal.{append, decimal}
use world_wide_woo.Value.{is_alphanumeric}
use world_wide_woo.Ledger.Native.{is_sha256_hex}
use world_wide_woo.Lines.{split_lines, join_lines}
use world_wide_woo.Canonical.{
  tnote, CanonicalDocumentDraft, target_for_canonical_document, assert_canonical_document_draft,
  is_canonical_target_for, is_safe_note_id, is_identifier, is_control, is_note_tail,
  is_identifier_tail, note_target, region, common, canonical_markdown_diff,
}
use world_wide_woo.Canonical.Diffs.{Splits, region-Splits}
use world_wide_woo.Canonical.Targets.{assert_canonical_document_draft-target}

abbrev seal : String
seal = "aaaaaaaaaaaaaaaaaaaaaaaaaaaaaaaaaaaaaaaaaaaaaaaaaaaaaaaaaaaaaaaa"

abbrev note : CanonicalDocumentDraft
note = record {
  schema_version = 1;
  kind = tnote;
  body = "# Q";
  source = record { id = "note-1"; kind = tnote; digest = seal };
  provenance = record { session_id = "s1"; captured_at = "now"; turn_id = none };
  redaction = record { policy = "www-v1"; body_digest = seal };
  target = ".www/vault/t-notes/note-1.md";
}

abbrev any_date : String → Bool
any_date s = true

note_accepted : assert_canonical_document_draft any_date note ≡ ok tt
unfolding assert_canonical_document_draft is_canonical_target_for is_safe_note_id is_identifier
    is_control is_note_tail is_identifier_tail is_alphanumeric note_target append is_sha256_hex
note_accepted = refl

assert_canonical_document_draft-target_example :
    target_for_canonical_document tnote (some "note-1") ≡ ok ".www/vault/t-notes/note-1.md"
assert_canonical_document_draft-target_example =
    assert_canonical_document_draft-target any_date note note_accepted

diff_shown : canonical_markdown_diff "a\nb\nc" "a\nx\nc" ≡ "@@ -2,1 +2,1 @@\n-b\n+x"
unfolding canonical_markdown_diff split_lines join_lines region common append decimal
diff_shown = refl

abbrev old_lines : List String
old_lines = "a" ∷ "b" ∷ "c" ∷ []

abbrev new_lines : List String
new_lines = "a" ∷ "x" ∷ "y" ∷ "c" ∷ []

region-Splits_example : Splits old_lines new_lines (region old_lines new_lines)
region-Splits_example = region-Splits old_lines new_lines
