-- ===== src/Canonical.antt =====
-- domain/canonical-document.ts: drafts of tracked Markdown documents, their targets, and the diff that
-- a person approves. A draft has the declared types here; `Date.parse` is an argument.
pub mod Diffs
pub mod Targets
use Prim.Native.Char.{Char, code}
use Prim.Native.String
use mathlib.Core.List.{reverse}
use world_wide_woo.Common.{
  ℕ, suc, ◌+◌, String, Bool, true, false, not, ◌&&◌, ◌||◌, Option, none, some, List, [], ◌∷◌, ◌++◌,
  map, length, drop, any, leb, ltb, ◌==◌, ◌is◌, if◌then◌else◌, Result, ok, err, ◌>>=◌, ◌>>◌, guard,
  refuse,
}
use world_wide_woo.Value.{units, every, points, is_alphanumeric, is_empty}
use world_wide_woo.Decimal.{append, decimal}
use world_wide_woo.Lines.{split_lines, join_lines}
use world_wide_woo.Ledger.Native.{is_sha256_hex}

pub data CanonicalDocumentKind : Type 0 where
  todo tnote : CanonicalDocumentKind

pub record CanonicalDocumentSource : Type 0 where
  pub id : String
  pub kind : CanonicalDocumentKind
  pub digest : String

pub record CanonicalDocumentProvenance : Type 0 where
  pub session_id : String
  pub captured_at : String
  pub turn_id : Option String

pub record CanonicalDocumentRedaction : Type 0 where
  pub policy : String
  pub body_digest : String

pub record CanonicalDocumentDraft : Type 0 where
  pub schema_version : ℕ
  pub kind : CanonicalDocumentKind
  pub body : String
  pub source : CanonicalDocumentSource
  pub provenance : CanonicalDocumentProvenance
  pub redaction : CanonicalDocumentRedaction
  pub target : String

pub data CanonicalError : Type 0 where
  bad_schema bad_body bad_source bad_provenance bad_redaction bad_target unsafe_id : CanonicalError

abbrev pub max_markdown_characters : ℕ
max_markdown_characters = 262144

-- `[A-Za-z0-9._-]` and `[A-Za-z0-9._:-]`.
unfoldable pub is_note_tail : ℕ → Bool
unfolding is_alphanumeric
is_note_tail c = is_alphanumeric c || c == 46 || c == 95 || c == 45

unfoldable pub is_identifier_tail : ℕ → Bool
unfolding is_note_tail
is_identifier_tail c = is_note_tail c || c == 58

unfoldable pub is_safe_note_id : String → Bool
unfolding is_note_tail is_alphanumeric
is_safe_note_id String.[] = false
is_safe_note_id (String.◌∷◌ c s) =
    is_alphanumeric (code c) && every is_note_tail s && leb (points s) 63

unfoldable pub is_identifier : String → Bool
unfolding is_identifier_tail is_alphanumeric
is_identifier String.[] = false
is_identifier (String.◌∷◌ c s) =
    is_alphanumeric (code c) && every is_identifier_tail s && leb (points s) 127

-- [\x00-\x08\x0B\x0C\x0E-\x1F\x7F-\x9F].
unfoldable pub is_control : ℕ → Bool
is_control c =
    leb c 8 || (leb 11 c && leb c 12) || (leb 14 c && leb c 31) || (leb 127 c && leb c 159)

abbrev pub todo_target : String
todo_target = ".www/vault/Todo.md"

unfoldable pub note_target : String → String
unfolding append
note_target id = append ".www/vault/t-notes/" (append id ".md")

-- `targetForCanonicalDocument`.
unfoldable pub target_for_canonical_document :
    CanonicalDocumentKind → Option String → Result CanonicalError String
target_for_canonical_document todo id = ok todo_target
target_for_canonical_document tnote none = err unsafe_id
target_for_canonical_document tnote (some id) =
    if is_safe_note_id id then ok (note_target id) else err unsafe_id

unfoldable pub is_canonical_target_for : String → CanonicalDocumentKind → String → Bool
is_canonical_target_for target todo id = target is todo_target
is_canonical_target_for target tnote id = is_safe_note_id id && target is note_target id

abbrev pub same_kind : CanonicalDocumentKind → CanonicalDocumentKind → Bool
same_kind todo todo = true
same_kind tnote tnote = true
same_kind _ _ = false

abbrev pub fits_turn : Option String → Bool
fits_turn none = true
fits_turn (some id) = is_identifier id

-- `assertCanonicalDocumentDraft`.
unfoldable pub assert_canonical_document_draft :
    (String → Bool) → CanonicalDocumentDraft → Result CanonicalError (Unit {0})
assert_canonical_document_draft parses_as_date d = do
  guard (d.schema_version == 1) bad_schema
  guard (leb (units d.body) max_markdown_characters && every (λ c. not (is_control c)) d.body)
      bad_body
  guard
      (same_kind d.source.kind d.kind && is_identifier d.source.id && is_sha256_hex d.source.digest)
      bad_source
  guard
      (is_identifier d.provenance.session_id
        && parses_as_date d.provenance.captured_at
        && fits_turn d.provenance.turn_id)
      bad_provenance
  guard (d.redaction.policy is "www-v1" && is_sha256_hex d.redaction.body_digest) bad_redaction
  guard (is_canonical_target_for d.target d.kind d.source.id) bad_target

-- How many lines two texts share at the start.
unfoldable pub common : List String → List String → ℕ
common [] ys = 0
common (x ∷ xs) [] = 0
common (x ∷ xs) (y ∷ ys) = let rest = common xs ys in if x is y then suc rest else 0

-- What lies before the last `n` elements.
abbrev pub drop_last {ℓ} : {A : Type ℓ} → ℕ → List A → List A
drop_last n xs = reverse (drop n (reverse xs))

-- The lines that differ, after the lines that both texts start with.
pub record Region : Type 0 where
  pub start : ℕ
  pub removed : List String
  pub added : List String

-- The two loops of `canonicalMarkdownDiff`: from the start, then from the end of what is left.
unfoldable pub region : List String → List String → Region
unfolding common
region before after =
    let start = common before after in
    let left = drop start before in
    let right = drop start after in
    let tail = common (reverse left) (reverse right) in
    record { start = start; removed = drop_last tail left; added = drop_last tail right }

abbrev pub hunk_header : Region → String
hunk_header r = append "@@ -" (
    append (decimal (r.start + 1)) (
      append "," (
        append (decimal (length r.removed)) (
          append " +" (
            append (decimal (r.start + 1))
              (append "," (append (decimal (length r.added)) " @@")))))))

abbrev pub hunk_lines : Region → List String
hunk_lines r = hunk_header r ∷ map (λ l. append "-" l) r.removed ++ map (λ l. append "+" l) r.added

unfoldable pub canonical_markdown_diff : String → String → String
unfolding split_lines join_lines region append decimal
canonical_markdown_diff before after =
    if before is after
    then ""
    else join_lines (hunk_lines (region (split_lines before) (split_lines after)))
