-- ===== src/Benchmark/Adjudication.antt =====
-- What an adjudication preserves, and whom it takes for independent.
use Prim.Native.String.{◌++◌, count}
use text.Mathlib.TextLemmas.{cons-append, nil-append, length-append}
use ragbench_kr_implementati.Prelude.{
  ◌≡◌, ◌≢◌, ◌⊎◌, refl, ap, sym, ◌∙◌, Bool, true, false, not, not-false, ◌&&◌, ◌||◌, Option, none,
  some, String, arith, inl, inr, str_eq, eq_iff, Bool-cases,
}
use ragbench_kr_implementati.Prelude.Text.{is_blank, strip, lstrip}
use ragbench_kr_implementati.Prelude.Result.{ok, raise_if-eq-ok, ok-injective}
use ragbench_kr_implementati.Benchmark.{
  ReviewDecision, accept, correct, reject, same_decision, ReviewRecord, Ruling, validate_record,
  or_else, is_none, source_of, payload_of, adjudicate_reviews,
}

neq_of_test : (s t : String) → str_eq s t ≡ false → s ≢ t
neq_of_test s t h = ground (arith, eq_iff s t)

test_of_neq : (s t : String) → s ≢ t → str_eq s t ≡ false
test_of_neq s t h = ground (arith, eq_iff s t)

same_decision-eq : (a b : ReviewDecision) → same_decision a b ≡ true → a ≡ b
same_decision-eq accept accept h = refl
same_decision-eq accept correct h = absurd (cc)
same_decision-eq accept reject h = absurd (cc)
same_decision-eq correct accept h = absurd (cc)
same_decision-eq correct correct h = refl
same_decision-eq correct reject h = absurd (cc)
same_decision-eq reject accept h = absurd (cc)
same_decision-eq reject correct h = absurd (cc)
same_decision-eq reject reject h = refl

or_false : (a b c : Bool) → ((a || b) || c) ≡ false → (a ≡ false) × (b ≡ false) × (c ≡ false)
or_false a b c h = ground arith

or_false₂ : (a b : Bool) → (a || b) ≡ false → (a ≡ false) × (b ≡ false)
or_false₂ a b h = ground arith

and_false : (a b : Bool) → a ≡ true → (a && b) ≡ false → b ≡ false
and_false a b h k = ground arith

not-true : (a : Bool) → a ≡ false → not a ≡ true
not-true a h = ground arith

given :
    (decision : Option ReviewDecision)
    → is_none decision ≡ false
    → (d : ReviewDecision) × (decision ≡ some d)
given none h = absurd (cc)
given (some d) h = (d, refl)

-- Whom and what a returned record names.
abbrev pub IsAdjudicated : ReviewRecord → ReviewRecord → Ruling → ReviewRecord → Type 0
IsAdjudicated left right ruling out =
    (left.natural_question ≡ right.natural_question)
    × (left.reviewer_id ≢ right.reviewer_id)
    × (ruling.adjudicator_id ≢ left.reviewer_id)
    × (ruling.adjudicator_id ≢ right.reviewer_id)
    × (out.reviewer_decision ≡ or_else left.reviewer_decision ruling.decision)
    × ((left.reviewer_decision ≡ right.reviewer_decision)
        ⊎ ((is_blank ruling.notes ≡ false) × (ruling.decision ≡ some out.reviewer_decision)))

validated :
    (review : ReviewRecord) {out : ReviewRecord}
    → validate_record review ≡ ok out
    → review.reviewer_decision ≡ out.reviewer_decision
unfolding validate_record
validated review e =
    let (_, e₁) =
      raise_if-eq-ok (is_blank review.natural_question || is_blank review.reviewer_id) _ _ e in
    let (_, e₂) = raise_if-eq-ok (not review.timestamp.has_timezone) _ _ e₁ in
    let (_, e₃) =
      raise_if-eq-ok
        (same_decision review.reviewer_decision correct
          && is_blank review.corrected_answer
          && is_blank review.corrected_evidence)
        _ _ e₂ in
    ap (λ (r : ReviewRecord). r.reviewer_decision) (ok-injective e₃)

-- An adjudication that returns joins two reviews of one question by two reviewers; the given
-- adjudicator id differs from both of theirs; the decision is the one that is given, or else the first
-- review's; and where the reviews disagree, a decision is given, with notes that are not blank.
pub adjudicate_reviews-IsAdjudicated :
    (left right : ReviewRecord) (ruling : Ruling) (out : ReviewRecord)
    → adjudicate_reviews left right ruling ≡ ok out
    → IsAdjudicated left right ruling out
unfolding adjudicate_reviews
adjudicate_reviews-IsAdjudicated left right ruling out returned =
    let agree = same_decision left.reviewer_decision right.reviewer_decision in
    let (same, e₁) =
      raise_if-eq-ok (not (str_eq left.natural_question right.natural_question)) _ _ returned in
    let (apart, e₂) = raise_if-eq-ok (str_eq left.reviewer_id right.reviewer_id) _ _ e₁ in
    let (independent, e₃) =
      raise_if-eq-ok
        (is_blank ruling.adjudicator_id
          || str_eq ruling.adjudicator_id left.reviewer_id
          || str_eq ruling.adjudicator_id right.reviewer_id)
        _ _ e₂ in
    let (noted, e₄) = raise_if-eq-ok (not agree && is_blank ruling.notes) _ _ e₃ in
    let (decided, e₅) = raise_if-eq-ok (not agree && is_none ruling.decision) _ _ e₄ in
    let decision =
      validated
        (payload_of (source_of left right (or_else left.reviewer_decision ruling.decision)) ruling
          (or_else left.reviewer_decision ruling.decision))
        e₅ in
    let (_, not_left, not_right) =
      or_false (is_blank ruling.adjudicator_id) (str_eq ruling.adjudicator_id left.reviewer_id)
        (str_eq ruling.adjudicator_id right.reviewer_id) independent in
    (
      (eq_iff left.natural_question right.natural_question).0 (not-false _ same),
      neq_of_test left.reviewer_id right.reviewer_id apart,
      neq_of_test ruling.adjudicator_id left.reviewer_id not_left,
      neq_of_test ruling.adjudicator_id right.reviewer_id not_right,
      sym decision,
      elim (Bool-cases agree) [
        | inl same_way ↦
            inl (same_decision-eq left.reviewer_decision right.reviewer_decision same_way)
        | inr disagree ↦
            let (d, chosen) =
              given ruling.decision (and_false (not agree) _ (not-true agree disagree) decided) in
            inr (
              and_false (not agree) _ (not-true agree disagree) noted,
              chosen ∙ ap some (sym (ap (or_else left.reviewer_decision) chosen) ∙ decision),
            )
      ],
    )

same_decision_self : (d : ReviewDecision) → same_decision d d ≡ true
same_decision_self accept = refl
same_decision_self correct = refl
same_decision_self reject = refl

strip_pad : (s : String) → strip (" " ++ s) ≡ strip s
unfolding strip lstrip
strip_pad s = rw (cons-append " " "" s, nil-append s) refl

is_blank_pad : (s : String) → is_blank (" " ++ s) ≡ is_blank s
unfolding is_blank
is_blank_pad s = rw (cons-append " " "" s, nil-append s) refl

pad-ne : (s : String) → " " ++ s ≢ s
pad-ne s e = omega (arith, ap count e, length-append " " s)

-- The three parts of a validation that returns its own argument.
valid :
    (review : ReviewRecord)
    → validate_record review ≡ ok review
    → (is_blank review.natural_question || is_blank review.reviewer_id ≡ false)
      × (same_decision review.reviewer_decision correct
            && is_blank review.corrected_answer
            && is_blank review.corrected_evidence
          ≡ false)
      × (strip review.reviewer_id ≡ review.reviewer_id)
unfolding validate_record
valid review e =
    let (named, e₁) =
      raise_if-eq-ok (is_blank review.natural_question || is_blank review.reviewer_id) _ _ e in
    let (_, e₂) = raise_if-eq-ok (not review.timestamp.has_timezone) _ _ e₁ in
    let (corrected, e₃) =
      raise_if-eq-ok
        (same_decision review.reviewer_decision correct
          && is_blank review.corrected_answer
          && is_blank review.corrected_evidence)
        _ _ e₂ in
    (named, corrected, ap (λ (r : ReviewRecord). r.reviewer_id) (ok-injective e₃))

-- The ruling of a reviewer who writes a space before the own id.
abbrev pub padded_ruling : ReviewRecord → Ruling → Ruling
padded_ruling left ruling = record ruling {
  adjudicator_id = " " ++ left.reviewer_id;
  decision = none;
  corrected_answer = none;
  corrected_evidence = none;
}

-- The first reviewer of two reviews of one question that agree can adjudicate them: a ruling that has
-- no decision and no corrections, a timestamp with a timezone, and for its adjudicator id that
-- reviewer's with a space before it, passes the independence check, and the record that is returned
-- names the first reviewer as its reviewer. The first review is valid, the two reviewer ids differ, and
-- the id with the space is not the second reviewer's.
pub padded_adjudicator :
    (left right : ReviewRecord) (ruling : Ruling)
    → validate_record left ≡ ok left
    → left.natural_question ≡ right.natural_question
    → left.reviewer_id ≢ right.reviewer_id
    → " " ++ left.reviewer_id ≢ right.reviewer_id
    → same_decision left.reviewer_decision right.reviewer_decision ≡ true
    → ruling.timestamp.has_timezone ≡ true
    → (out : ReviewRecord) × (adjudicate_reviews left right (padded_ruling left ruling) ≡ ok out)
      × (out.reviewer_id ≡ left.reviewer_id)
unfolding adjudicate_reviews validate_record
padded_adjudicator left right ruling is_valid same apart not_right agree aware =
    let (named, corrected, stripped) = valid left is_valid in
    let (no_question, no_id) =
      or_false₂ (is_blank left.natural_question) (is_blank left.reviewer_id) named in
    let padded = strip_pad left.reviewer_id ∙ stripped in
    let again : strip (strip (" " ++ left.reviewer_id)) ≡ left.reviewer_id =
      ap strip padded ∙ stripped in
    let names : is_blank (strip (" " ++ left.reviewer_id)) ≡ false = ap is_blank padded ∙ no_id in
    (
      record left {
        natural_question = strip left.natural_question;
        reviewer_id = strip (strip (" " ++ left.reviewer_id));
        notes = strip ruling.notes;
        timestamp = ruling.timestamp;
      },
      rw
          (
            (eq_iff left.natural_question right.natural_question).1 same,
            test_of_neq left.reviewer_id right.reviewer_id apart,
            is_blank_pad left.reviewer_id,
            no_id,
            test_of_neq (" " ++ left.reviewer_id) left.reviewer_id (pad-ne left.reviewer_id),
            test_of_neq (" " ++ left.reviewer_id) right.reviewer_id not_right,
            agree,
            same_decision_self left.reviewer_decision,
            no_question,
            names,
            aware,
            corrected,
          )
          refl,
      again,
    )
