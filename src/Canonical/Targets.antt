-- ===== src/Canonical/Targets.antt =====
-- domain/canonical-document.ts: the files that a draft can name.
use world_wide_woo.Common.{
  String, ◌≡◌, sym, ap, Bool, true, some, ok, is→≡, and_left, and_right, arith,
}
use world_wide_woo.Canonical.{
  CanonicalDocumentKind, todo, tnote, CanonicalDocumentDraft, todo_target, note_target,
  is_safe_note_id, target_for_canonical_document, is_canonical_target_for,
  assert_canonical_document_draft,
}

target_agrees :
    (target : String) (kind : CanonicalDocumentKind) (id : String)
    → is_canonical_target_for target kind id ≡ true
    → target_for_canonical_document kind (some id) ≡ ok target
unfolding is_canonical_target_for target_for_canonical_document
target_agrees target todo id h = ap ok (sym (is→≡ target todo_target h))
target_agrees target tnote id h =
    let safe : is_safe_note_id id ≡ true = and_left _ _ h in
    rw safe (ap ok (sym (is→≡ target (note_target id) (and_right _ _ h))))

-- A draft that passes the check names the target that its kind and source id have, so that a note's
-- id is a safe file name.
pub assert_canonical_document_draft-target :
    (parses_as_date : String → Bool) (d : CanonicalDocumentDraft)
    → assert_canonical_document_draft parses_as_date d ≡ ok tt
    → target_for_canonical_document d.kind (some d.source.id) ≡ ok d.target
unfolding assert_canonical_document_draft
assert_canonical_document_draft-target parses_as_date d h =
    target_agrees d.target d.kind d.source.id (ground (arith, h))
