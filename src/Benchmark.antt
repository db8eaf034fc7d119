-- ===== src/Benchmark.antt =====
-- src/ragbench/benchmark/splits.py: reviews, their adjudication, and the gates of the gold split. A
-- timestamp is an instant and whether it has a timezone; the environment is an argument.
pub mod Adjudication
use ragbench_kr_implementati.Prelude.{
  Bool, true, false, not, ◌&&◌, ◌||◌, Option, none, some, String, List, [], ◌∷◌, str_eq,
}
use ragbench_kr_implementati.Prelude.Int.{ℤ}
use ragbench_kr_implementati.Prelude.Text.{is_blank, strip}
use ragbench_kr_implementati.Prelude.Result.{
  Result, ok, err, raise_if, value_error, permission_error, ◌>>=◌, ◌>>◌,
}

pub data ReviewDecision : Type 0 where
  accept correct reject : ReviewDecision

-- `left is right` of two members of the enumeration.
abbrev pub same_decision : ReviewDecision → ReviewDecision → Bool
same_decision accept accept = true
same_decision accept correct = false
same_decision accept reject = false
same_decision correct accept = false
same_decision correct correct = true
same_decision correct reject = false
same_decision reject accept = false
same_decision reject correct = false
same_decision reject reject = true

pub record Timestamp : Type 0 where
  pub instant : ℤ
  pub has_timezone : Bool

pub record ReviewRecord : Type 0 where
  pub natural_question : String
  pub answer_exists : Bool
  pub evidence_correct : Bool
  pub page_correct : Bool
  pub answer_unambiguous : Bool
  pub answerable_label_correct : Bool
  pub type_difficulty_correct : Bool
  pub reviewer_decision : ReviewDecision
  pub corrected_answer : String
  pub corrected_evidence : String
  pub notes : String
  pub reviewer_id : String
  pub timestamp : Timestamp

-- `ReviewRecord.model_validate`: the validators strip the identity fields.
unfoldable pub validate_record : ReviewRecord → Result ReviewRecord
unfolding is_blank strip
validate_record review = do
  raise_if (is_blank review.natural_question || is_blank review.reviewer_id)
      (value_error "review identity fields cannot be blank")
  raise_if (not review.timestamp.has_timezone)
      (value_error "review timestamp must include timezone")
  raise_if
      (same_decision review.reviewer_decision correct
        && is_blank review.corrected_answer
        && is_blank review.corrected_evidence)
      (value_error "correct decision requires a corrected answer or evidence")
  ok (record review {
    natural_question = strip review.natural_question;
    reviewer_id = strip review.reviewer_id;
  })

-- `value or other`, and the update of a key where a value is given.
abbrev pub or_else {ℓ} : {A : Type ℓ} → A → Option A → A
or_else other none = other
or_else other (some value) = value

abbrev pub is_none {ℓ} : {A : Type ℓ} → Option A → Bool
is_none none = true
is_none (some value) = false

abbrev pub source_of : ReviewRecord → ReviewRecord → ReviewDecision → ReviewRecord
source_of left right resolved = elim (same_decision resolved left.reviewer_decision) [
  | true ↦ left
  | false ↦ right
]

-- What the adjudicator is called with.
pub record Ruling : Type 0 where
  pub adjudicator_id : String
  pub notes : String
  pub decision : Option ReviewDecision
  pub corrected_answer : Option String
  pub corrected_evidence : Option String
  pub timestamp : Timestamp

abbrev pub payload_of : ReviewRecord → Ruling → ReviewDecision → ReviewRecord
unfolding strip
payload_of source ruling resolved = record source {
  reviewer_decision = resolved;
  reviewer_id = strip ruling.adjudicator_id;
  notes = strip ruling.notes;
  timestamp = ruling.timestamp;
  corrected_answer = or_else source.corrected_answer ruling.corrected_answer;
  corrected_evidence = or_else source.corrected_evidence ruling.corrected_evidence;
}

-- `adjudicate_reviews`; the clock is read for a ruling without a timestamp, which is then given.
unfoldable pub adjudicate_reviews : ReviewRecord → ReviewRecord → Ruling → Result ReviewRecord
unfolding payload_of validate_record is_blank
adjudicate_reviews left right ruling = do
  raise_if (not (str_eq left.natural_question right.natural_question))
      (value_error "adjudication reviews must identify the same natural question")
  raise_if (str_eq left.reviewer_id right.reviewer_id)
      (value_error "adjudication requires two distinct initial reviewers")
  raise_if
      (is_blank ruling.adjudicator_id
        || str_eq ruling.adjudicator_id left.reviewer_id
        || str_eq ruling.adjudicator_id right.reviewer_id)
      (value_error "adjudicator must be an identified independent reviewer")
  raise_if
      (not (same_decision left.reviewer_decision right.reviewer_decision) && is_blank ruling.notes)
      (value_error "disagreement requires written adjudication notes")
  raise_if
      (not (same_decision left.reviewer_decision right.reviewer_decision)
        && is_none ruling.decision)
      (value_error "disagreement requires an explicit adjudication decision")
  let resolved = or_else left.reviewer_decision ruling.decision
  validate_record (payload_of (source_of left right resolved) ruling resolved)

pub record GoldAuthorization : Type 0 where
  pub command : String

-- `authorize_gold_access`, by the value of ALLOW_GOLD_ACCESS.
unfoldable pub authorize_gold_access : Option String → String → Bool → Result GoldAuthorization
authorize_gold_access allow_gold_access command explicit = do
  raise_if (not (str_eq (or_else "" allow_gold_access) "1"))
      (permission_error "gold access requires ALLOW_GOLD_ACCESS=1")
  raise_if (not explicit) (permission_error "gold access requires an explicit gold command or flag")
  raise_if (not (str_eq command "evaluate-gold" || str_eq command "sealed-gold-test"))
      (permission_error "requested gold command is not permitted")
  ok (record { command = command })
