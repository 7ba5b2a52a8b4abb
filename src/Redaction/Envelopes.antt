-- ===== src/Redaction/Envelopes.antt =====
-- domain/redaction.ts: the sections of a response other than its answer.
use world_wide_woo.Common.{
  String, ◌≡◌, refl, sym, ap, ◌∙◌, subst, true, false, none, some, List, [], ◌∷◌, ◌++◌, arith,
}
use world_wide_woo.Redaction.{
  Section, is_answer, Envelope, EnvelopeRuntime, Round, next, whole, answer_of, is_inside, outside,
  partial_round, partial_lines, then_round, shown,
}

-- A line with no fence, no tag and no part of one.
pub record IsPlain (rt : EnvelopeRuntime) (l : String) : Type 0 where
  pub no_fence : rt.fence_open l ≡ none
  pub no_section : rt.section l ≡ none
  pub no_suffix : rt.close_suffix l ≡ none
  pub no_tag : rt.tag l ≡ none
  pub no_prefix : rt.open_prefix l ≡ none

-- Where a round goes on once an envelope was seen: never to the whole text.
abbrev IsSeen : Round → Type 0
IsSeen (next e) = e.saw_envelope ≡ true
IsSeen whole = ⊥
IsSeen (answer_of e) = Unit

-- Inside a section an envelope was seen.
abbrev IsTold : Envelope → Type 0
IsTold e = is_inside e.active ≡ true → e.saw_envelope ≡ true

abbrev IsToldNext : Round → Type 0
IsToldNext (next e) = IsTold e
IsToldNext whole = Unit
IsToldNext (answer_of e) = Unit

module _ (rt : EnvelopeRuntime) where
  -- The loop over the lines before its end.
  unfoldable pub after_lines : List String → Envelope → Round
  after_lines [] e = next e
  after_lines (l ∷ ls) e = then_round rt (partial_round rt l e) (after_lines ls)

  round-IsSeen : (l : String) (e : Envelope) → e.saw_envelope ≡ true → IsSeen (partial_round rt l e)
  unfolding partial_round
  round-IsSeen l e h = ground (arith, h)

  round-IsToldNext : (l : String) (e : Envelope) → IsTold e → IsToldNext (partial_round rt l e)
  unfolding partial_round
  round-IsToldNext l e h = ground (arith, h)

  then_IsTold :
      (k : Envelope → Round)
      → ((e : Envelope) → IsTold e → IsToldNext (k e))
      → (r : Round) → IsToldNext r
      → IsToldNext (then_round rt r k)
  then_IsTold k keeps (next e) h = keeps e h
  then_IsTold k keeps whole h = tt
  then_IsTold k keeps (answer_of e) h = tt

  lines_IsTold : (ls : List String) (e : Envelope) → IsTold e → IsToldNext (after_lines ls e)
  unfolding after_lines
  lines_IsTold [] e h = h
  lines_IsTold (l ∷ ls) e h =
      then_IsTold (after_lines ls) (λ e' h'. lines_IsTold ls e' h') (partial_round rt l e)
        (round-IsToldNext l e h)

  then_shown :
      (k : Envelope → Round) (v w : String)
      → ((e : Envelope) → e.saw_envelope ≡ true → shown rt v (k e) ≡ shown rt w (k e))
      → (r : Round) → IsSeen r
      → shown rt v (then_round rt r k) ≡ shown rt w (then_round rt r k)
  then_shown k v w same (next e) h = same e h
  then_shown k v w same whole h = elim h [ ]
  then_shown k v w same (answer_of e) h = refl

  lines_shown :
      (ls : List String) (e : Envelope) (v w : String)
      → e.saw_envelope ≡ true
      → shown rt v (partial_lines rt ls e) ≡ shown rt w (partial_lines rt ls e)
  unfolding partial_lines
  lines_shown [] e v w h = rw h refl
  lines_shown (l ∷ ls) e v w h =
      then_shown (partial_lines rt ls) v w (λ e' h'. lines_shown ls e' v w h')
        (partial_round rt l e) (round-IsSeen l e h)

  then_assoc :
      (k j both : Envelope → Round)
      → ((e : Envelope) → both e ≡ then_round rt (k e) j)
      → (r : Round) → then_round rt r both ≡ then_round rt (then_round rt r k) j
  then_assoc k j both same (next e) = same e
  then_assoc k j both same whole = refl
  then_assoc k j both same (answer_of e) = refl

  partial_lines-append :
      (ls ms : List String) (e : Envelope)
      → partial_lines rt (ls ++ ms) e ≡ then_round rt (after_lines ls e) (partial_lines rt ms)
  unfolding partial_lines after_lines
  partial_lines-append [] ms e = refl
  partial_lines-append (l ∷ ls) ms e =
      then_assoc (after_lines ls) (partial_lines rt ms) (partial_lines rt (ls ++ ms))
        (λ e'. partial_lines-append ls ms e') (partial_round rt l e)

  plain_skipped :
      (l : String) (e : Envelope) {s : Section}
      → IsPlain rt l
      → e.fence ≡ none
      → e.active ≡ some s
      → is_answer s ≡ false
      → partial_round rt l e ≡ next e
  unfolding partial_round
  plain_skipped l e p f a q =
      ground (arith, p.no_fence, p.no_section, p.no_suffix, p.no_tag, p.no_prefix, f, a, q)

  private_line :
      (before after : List String) (l : String) (e : Envelope) {s : Section}
      → after_lines before outside ≡ next e
      → e.fence ≡ none
      → e.active ≡ some s
      → is_answer s ≡ false
      → IsPlain rt l
      → partial_lines rt (before ++ (l ∷ after)) outside ≡ partial_lines rt after e
  private_line before after l e r f a q p =
      partial_lines-append before (l ∷ after) outside
      ∙ ap (λ x. then_round rt x (partial_lines rt (l ∷ after))) r
      ∙ (unfold partial_lines in
          ap (λ x. then_round rt x (partial_lines rt after)) (plain_skipped l e p f a q))

  -- Where the lines before lead into a section that is not the answer, outside a fence, another line
  -- without a fence or a tag in place of one there changes nothing in what a partial response
  -- shows.
  pub partial_lines-hides :
      (before after : List String) (l m v w : String) (e : Envelope) {s : Section}
      → after_lines before outside ≡ next e
      → e.fence ≡ none
      → e.active ≡ some s
      → is_answer s ≡ false
      → IsPlain rt l
      → IsPlain rt m
      → shown rt v (partial_lines rt (before ++ (l ∷ after)) outside)
        ≡ shown rt w (partial_lines rt (before ++ (m ∷ after)) outside)
  partial_lines-hides before after l m v w e r f a q pl pm =
      let told : IsTold outside = λ h. cc in
      let seen : e.saw_envelope ≡ true =
        subst IsToldNext r (lines_IsTold before outside told) (ap is_inside a) in
      ap (shown rt v) (private_line before after l e r f a q pl)
      ∙ lines_shown after e v w seen
      ∙ ap (shown rt w) (sym (private_line before after m e r f a q pm))
