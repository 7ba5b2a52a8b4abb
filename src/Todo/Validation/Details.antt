-- ===== src/Todo/Validation/Details.antt =====
-- domain/todos.ts: what the checks of entries and details by `validateTodoDocument` give.
use world_wide_woo.Common.{
  suc, ◌+◌, String, ◌≡◌, refl, true, false, List, [], ◌∷◌, ◌++◌, length, includes, all, count, All,
  Distinct, ok, >>=-eq-ok, or_fail, refuse, ok_subst, ◌∙◌, ap, subst, arith,
}
use world_wide_woo.Value.{Value, Fields, get, fields_of}
use world_wide_woo.Todo.{TodoDetail, is_id_text, TextRuntime}
use world_wide_woo.Todo.Validation.{
  Label, bad_detail_id, duplicate_id, id_of, todo_detail, TodoEntry, Seen, evidence_fits,
  no_repeats, content_fits, validate_evidence, validate_entry, validate_detail, validate_details,
}
use world_wide_woo.Todo.Validity.{
  active_detail, FitsText, NoRepeats, IsId, IsValidEvidence, IsValidDetail, detail_ids,
}

-- The ids seen after a list of ids.
abbrev pub after : List String → List String → List String
after seen [] = seen
after seen (x ∷ xs) = after (x ∷ seen) xs

after-append : (seen xs ys : List String) → after seen (xs ++ ys) ≡ after (after seen xs) ys
after-append seen [] ys = refl
after-append seen (x ∷ xs) ys = after-append (x ∷ seen) xs ys

pub Distinct-append :
    (seen xs ys : List String)
    → Distinct seen xs
    → Distinct (after seen xs) ys
    → Distinct seen (xs ++ ys)
Distinct-append seen [] ys h k = k
Distinct-append seen (x ∷ xs) ys (p, h) k = (p, Distinct-append (x ∷ seen) xs ys h k)

pub Distinct-split :
    (seen xs ys : List String)
    → Distinct seen (xs ++ ys)
    → Distinct seen xs × Distinct (after seen xs) ys
Distinct-split seen [] ys h = (tt, h)
Distinct-split seen (x ∷ xs) ys (p, h) =
    let (a, b) = Distinct-split (x ∷ seen) xs ys h in ((p, a), b)

NoRepeats_of : (ids : List String) → no_repeats ids ≡ true → NoRepeats ids
NoRepeats_of [] h = tt
NoRepeats_of (s ∷ ss) h = (ground arith, NoRepeats_of ss (ground arith))

All-IsId_of : (ids : List String) → all is_id_text ids ≡ true → All IsId ids
All-IsId_of [] h = tt
All-IsId_of (s ∷ ss) h = (ground arith, All-IsId_of ss (ground arith))

evidence_fits_sound : (ids : List String) → evidence_fits ids ≡ true → IsValidEvidence ids
evidence_fits_sound ids h = record {
  few = ground arith;
  unique = NoRepeats_of ids (ground arith);
  each = All-IsId_of ids (ground arith);
}

pub content_fits_sound : (s : String) → content_fits s ≡ true → FitsText s
content_fits_sound s h = (ground arith, ground arith)

validate_evidence_sound :
    (v : Value) {ids : List String} → validate_evidence v ≡ ok ids → IsValidEvidence ids
unfolding validate_evidence
validate_evidence_sound v {ids} h = evidence_fits_sound ids (ground arith)

module _ (js : TextRuntime) where
  pub validate_entry_sound :
      (label : Label) (raw : Fields) {e : TodoEntry}
      → validate_entry js label raw ≡ ok e
      → FitsText e.content × IsValidEvidence e.evidence_ids
  unfolding validate_entry
  validate_entry_sound label raw {e} h = (
    content_fits_sound e.content (ground arith),
    validate_evidence_sound (get "evidenceIds" raw) (ground arith),
  )

-- What one detail adds to what has been seen.
pub record DetailFound (seen : Seen) (r : Seen × TodoDetail) : Type 0 where
  pub ids : r.0.ids ≡ r.1.id ∷ seen.ids
  pub active : r.0.active ≡ seen.active
  pub detail_active : r.0.detail_active ≡ seen.detail_active + count active_detail (r.1 ∷ [])
  pub fresh : includes seen.ids r.1.id ≡ false
  pub valid : IsValidDetail r.1

-- What a run over details adds.
pub record DetailsFound (seen : Seen) (r : Seen × List TodoDetail) : Type 0 where
  pub ids : r.0.ids ≡ after seen.ids (detail_ids r.1)
  pub active : r.0.active ≡ seen.active
  pub detail_active : r.0.detail_active ≡ seen.detail_active + count active_detail r.1
  pub distinct : Distinct seen.ids (detail_ids r.1)
  pub each : All IsValidDetail r.1

DetailsFound-cons :
    (seen : Seen) (one : Seen × TodoDetail) (rest : Seen × List TodoDetail)
    → DetailFound seen one
    → DetailsFound one.0 rest
    → DetailsFound seen (rest.0, one.1 ∷ rest.1)
DetailsFound-cons seen one rest f fs = record {
  ids = fs.ids ∙ ap (λ s. after s (detail_ids rest.1)) f.ids;
  active = fs.active ∙ f.active;
  detail_active = omega (arith, fs.detail_active, f.detail_active);
  distinct = (f.fresh, subst (λ s. Distinct s (detail_ids rest.1)) f.ids fs.distinct);
  each = (f.valid, fs.each);
}

module _ (js : TextRuntime) where
  validate_detail_sound :
      (seen : Seen) (v : Value) {r : Seen × TodoDetail}
      → validate_detail js seen v ≡ ok r
      → DetailFound seen r
  unfolding validate_detail
  validate_detail_sound seen v h =
      let (raw, _, h1) = >>=-eq-ok (or_fail (fields_of v) bad_detail_id) _ h in
      let (id, is_id, h2) = >>=-eq-ok (or_fail (id_of (get "id" raw)) bad_detail_id) _ h1 in
      let (_, fresh, h3) = >>=-eq-ok (refuse (includes seen.ids id) duplicate_id) _ h2 in
      let (e, checked, h4) = >>=-eq-ok (validate_entry js todo_detail raw) _ h3 in
      let (content, evidence) = validate_entry_sound js todo_detail raw checked in
      ok_subst (DetailFound seen) h4 (record {
        ids = refl;
        active = refl;
        detail_active = ground arith;
        fresh = ground arith;
        valid = record { id = ground arith; content = content; evidence = evidence };
      })

  pub validate_details_sound :
      (seen : Seen) (vs : List Value) {r : Seen × List TodoDetail}
      → validate_details js seen vs ≡ ok r
      → DetailsFound seen r
  unfolding validate_details
  validate_details_sound seen [] h =
      ok_subst (DetailsFound seen) h (record {
        ids = refl;
        active = refl;
        detail_active = omega arith;
        distinct = tt;
        each = tt;
      })
  validate_details_sound seen (v ∷ vs) h =
      let (one, first, h1) = >>=-eq-ok (validate_detail js seen v) _ h in
      let (rest, later, h2) = >>=-eq-ok (validate_details js one.0 vs) _ h1 in
      ok_subst (DetailsFound seen) h2 (
        DetailsFound-cons seen one rest (validate_detail_sound seen v first)
          (validate_details_sound one.0 vs later))

  pub length-validate_details :
      (seen : Seen) (vs : List Value) {r : Seen × List TodoDetail}
      → validate_details js seen vs ≡ ok r
      → length r.1 ≡ length vs
  unfolding validate_details
  length-validate_details seen [] h = ok_subst (λ r. length r.1 ≡ 0) h refl
  length-validate_details seen (v ∷ vs) h =
      let (one, _, h1) = >>=-eq-ok (validate_detail js seen v) _ h in
      let (rest, later, h2) = >>=-eq-ok (validate_details js one.0 vs) _ h1 in
      ok_subst (λ r. length r.1 ≡ suc (length vs)) h2
        (ap suc (length-validate_details one.0 vs later))
