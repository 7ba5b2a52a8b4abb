-- ===== src/Ledger/State/Committing.antt =====
-- application/todo-ledger.ts: what `document` and `commit` guarantee on every way out.
use world_wide_woo.Common.{
  String, ◌≡◌, ap, sym, subst, Bool, true, Option, none, some, ◌∷◌, Result, ok, arith,
}
use world_wide_woo.Todo.{TodoDocument, TextRuntime}
use world_wide_woo.Todo.Validity.{IsValid}
use world_wide_woo.Todo.Validation.Typed.{document_value, clean_document}
use world_wide_woo.Todo.Validation.Same.{validate_todo_document_same}
use world_wide_woo.Todo.Validation.Soundness.{validate_todo_document-IsValid}
use world_wide_woo.Ledger.State.{
  LedgerError, Ports, Ledger, Draft, next_revision, revision_of, validate, immutable_snapshot, emit,
  set_current, document, conflict_source, throw_conflict, reload_and_throw, record_written, commit,
  commit_draft, set_watching, start_watching, initialize, take_over, observed, call, call_or_null,
}
use world_wide_woo.Ledger.State.Rules.{
  bind-ok, Keeps, Keeps-bind, Keeps-bind-lift, Keeps-bind-when, keeps_rules,
}

-- The ledger holds no document, or a valid one.
abbrev pub OptIsValid : TextRuntime → Option TodoDocument → Type 0
OptIsValid js none = Unit
OptIsValid js (some d) = IsValid js d

abbrev pub drafted : Option TodoDocument → Draft → String → TodoDocument
drafted current draft now = record {
  revision = next_revision current;
  owner_session_id = draft.owner_session_id;
  story_id = draft.story_id;
  title = draft.title;
  items = draft.items;
  updated_at = now;
}

module _ (js : TextRuntime) where
  validate-IsValid : (d e : TodoDocument) → validate js d ≡ ok e → IsValid js e
  unfolding validate
  validate-IsValid d e h = validate_todo_document-IsValid js (document_value d) e (ground arith)

  pub validate_same : (d e : TodoDocument) → validate js d ≡ ok e → e ≡ clean_document js d
  unfolding validate
  validate_same d e h = validate_todo_document_same js d e (ground arith)

  snapshot-OptIsValid :
      (d e : Option TodoDocument) → immutable_snapshot js d ≡ ok e → OptIsValid js e
  unfolding immutable_snapshot
  snapshot-OptIsValid none none h = tt
  snapshot-OptIsValid none (some e) h = cc
  snapshot-OptIsValid (some d) none h = tt
  snapshot-OptIsValid (some d) (some e) h = validate-IsValid d e (ground arith)

-- What is so when `commit` has written `d` over the ledger `l`, in `l'`.
pub record Written (js : TextRuntime) {S : Type 0} (ports : Ports S) (l l' : Ledger S)
    (d : TodoDocument) : Type 0 where
  pub current : l'.current ≡ some d
  pub emitted : l'.emitted ≡ some d ∷ l.emitted
  pub session : l'.session_id ≡ l.session_id
  pub swapped : (ports.compare_and_swap (revision_of l.current) d l.outside).0 ≡ ok true
  pub outside :
      l'.outside
      ≡ (ports.append l.session_id
          (record { body = d.title; todo = d })
          (ports.compare_and_swap (revision_of l.current) d l.outside).1).1
  pub recorded :
      (ports.append l.session_id
        (record { body = d.title; todo = d })
        (ports.compare_and_swap (revision_of l.current) d l.outside).1).0
      ≡ ok tt

-- The ledger after the clock was read.
abbrev pub after_clock : {S : Type 0} → Ports S → Ledger S → Ledger S
after_clock ports l = record l { outside = (ports.now l.outside).1 }

-- What is so when a draft over `l` was checked and written as `d`.
abbrev pub DraftWritten :
    {S : Type 0} → TextRuntime → Ports S → Draft → Ledger S → Ledger S → TodoDocument → Type 0
DraftWritten js ports draft l l' d =
    IsValid js d
    × (d ≡ clean_document js (drafted l.current draft (ports.now l.outside).0))
    × Written js ports (after_clock ports l) l' d

module _ (js : TextRuntime) {S : Type 0} (ports : Ports S) where
  commit-Written :
      (next : TodoDocument) (l : Ledger S) {d : TodoDocument}
      → (commit js ports next l).0 ≡ ok d
      → (d ≡ next) × Written js ports l (commit js ports next l).1 next
  unfolding commit
  commit-Written next l {d} h = (
    ground arith,
    record {
      current = ground arith;
      emitted = ground arith;
      session = ground arith;
      swapped = ground arith;
      outside = ground arith;
      recorded = ground arith;
    },
  )

  document-IsValid :
      (draft : Draft) (l : Ledger S) {d : TodoDocument}
      → (document js ports draft l).0 ≡ ok d
      → IsValid js d × (d ≡ clean_document js (drafted l.current draft (ports.now l.outside).0))
  unfolding document
  document-IsValid draft l {d} h = (validate-IsValid js _ d h, validate_same js _ d h)

  -- A draft that is committed is valid, is the draft with its texts sanitized, and was written.
  pub commit_draft_written :
      (draft : Draft) (l : Ledger S) {d : TodoDocument}
      → (commit_draft js ports draft l).0 ≡ ok d
      → DraftWritten js ports draft l (commit_draft js ports draft l).1 d
  unfolding commit_draft
  commit_draft_written draft l {d} h =
      let (next, made, same) = bind-ok (document js ports draft) (commit js ports) l h in
      let (valid, clean) = document-IsValid draft l made in
      let (returned, written) =
        commit-Written next (after_clock ports l) (unfold document in rw same at h) in
      let path : (commit_draft js ports draft l).1
          ≡ (commit js ports next (after_clock ports l)).1 =
        unfold document in ap (λ (r : Result LedgerError TodoDocument × Ledger S). r.1) same in
      subst (λ e. DraftWritten js ports draft l (commit_draft js ports draft l).1 e) (sym returned)
        (
          valid,
          clean,
          subst (λ l'. Written js ports (after_clock ports l) l' next) (sym path) written,
        )

-- The ledger's document is valid, if there is one.
abbrev pub IsSound : {S : Type 0} → TextRuntime → Ledger S → Type 0
IsSound js l = OptIsValid js l.current

module _ (js : TextRuntime) {S : Type 0} (ports : Ports S) where
  pub call-IsSound : {A : Type 0} (f : S → Result String A × S) → Keeps (IsSound js) (call f)
  call-IsSound f = record { kept = λ l h. h }

  call_or_null-IsSound :
      {A : Type 0} (f : S → Result String (Option A) × S) → Keeps (IsSound js) (call_or_null f)
  call_or_null-IsSound f = record { kept = λ l h. h }

  set_current-IsSound :
      (d : Option TodoDocument) → OptIsValid js d → Keeps {S = S} (IsSound js) (set_current d)
  set_current-IsSound d v = record { kept = λ l h. v }

  emit-IsSound : Keeps {S = S} (IsSound js) emit
  unfolding emit
  emit-IsSound = record { kept = λ l h. h }

  conflict_source-current : (l : Ledger S) → (conflict_source js ports l).1.current ≡ l.current
  unfolding conflict_source
  conflict_source-current l = ground arith

  conflict_source-IsSound : Keeps (IsSound js) (conflict_source js ports)
  conflict_source-IsSound = record {
    kept = λ l h. subst (OptIsValid js) (sym (conflict_source-current l)) h;
  }

  ruleset sound_rules = (
    keeps_rules, call-IsSound, call_or_null-IsSound, set_current-IsSound, emit-IsSound,
    conflict_source-IsSound,
  )

  throw_conflict-IsSound :
      (next : TodoDocument) (current : Option TodoDocument)
      → OptIsValid js current
      → Keeps (IsSound js) (throw_conflict js ports next current)
  unfolding throw_conflict
  throw_conflict-IsSound next current v = search (sound_rules, v)

  reload_and_throw-IsSound :
      (next : TodoDocument) → Keeps (IsSound js) (reload_and_throw js ports next)
  unfolding reload_and_throw
  reload_and_throw-IsSound next =
      Keeps-bind (call_or_null ports.read) _ (call_or_null-IsSound ports.read) λ stored.
        Keeps-bind-lift (immutable_snapshot js stored) (throw_conflict js ports next)
          λ current fine.
            throw_conflict-IsSound next current (snapshot-OptIsValid js stored current fine)

  record_written-IsSound :
      (next : TodoDocument) → IsValid js next → Keeps (IsSound js) (record_written js ports next)
  unfolding record_written
  record_written-IsSound next v = search (sound_rules, v)

  commit-IsSound :
      (next : TodoDocument) → IsValid js next → Keeps (IsSound js) (commit js ports next)
  unfolding commit
  commit-IsSound next v = search (sound_rules, reload_and_throw-IsSound, record_written-IsSound, v)

  document-IsSound : (draft : Draft) → Keeps (IsSound js) (document js ports draft)
  unfolding document
  document-IsSound draft = record { kept = λ l h. h }

  -- A commit keeps the ledger sound on every way out.
  pub commit_draft-IsSound : (draft : Draft) → Keeps (IsSound js) (commit_draft js ports draft)
  unfolding commit_draft
  commit_draft-IsSound draft =
      Keeps-bind-when (IsValid js) (document js ports draft) (commit js ports)
        (document-IsSound draft) (λ l d made. (document-IsValid js ports draft l made).0)
        commit-IsSound

  watch-IsSound : (observable : Bool) → Keeps {S = S} (IsSound js) (set_watching observable)
  watch-IsSound observable = record { kept = λ l h. h }

  start_watching-IsSound :
      (observable : Bool) (current : Option TodoDocument)
      → OptIsValid js current
      → Keeps {S = S} (IsSound js) (start_watching observable current)
  unfolding start_watching
  start_watching-IsSound observable current v = search (sound_rules, watch-IsSound, v)

  pub initialize-IsSound : (observable : Bool) → Keeps (IsSound js) (initialize js ports observable)
  unfolding initialize
  initialize-IsSound observable = Keeps-bind (call ports.read) _ (call-IsSound ports.read) λ stored.
      Keeps-bind-lift (immutable_snapshot js stored) (start_watching observable) λ current fine.
        start_watching-IsSound observable current (snapshot-OptIsValid js stored current fine)

  take_over-IsSound :
      (snapshot : Option TodoDocument)
      → OptIsValid js snapshot
      → Keeps {S = S} (IsSound js) (take_over snapshot)
  unfolding take_over
  take_over-IsSound snapshot v = search (sound_rules, v)

  pub observed-IsSound :
      (stored : Option TodoDocument) → Keeps {S = S} (IsSound js) (observed js stored)
  unfolding observed
  observed-IsSound stored =
      Keeps-bind-lift (immutable_snapshot js stored) take_over
        λ snapshot fine. take_over-IsSound snapshot (snapshot-OptIsValid js stored snapshot fine)
