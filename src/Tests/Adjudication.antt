-- ===== src/Tests/Adjudication.antt =====
-- src/ragbench/benchmark/splits.py. Two reviews of one question, which agree or not.
use ragbench_kr_implementati.Prelude.{◌≡◌, ◌≢◌, refl, true, none, some, String, arith, eq_iff}
use ragbench_kr_implementati.Prelude.Int.{pos}
use ragbench_kr_implementati.Prelude.Result.{ok, err, permission_error}
use ragbench_kr_implementati.Benchmark.{
  ReviewDecision, accept, reject, ReviewRecord, Ruling, validate_record, adjudicate_reviews,
  authorize_gold_access,
}
use ragbench_kr_implementati.Benchmark.Adjudication.{
  IsAdjudicated, adjudicate_reviews-IsAdjudicated, padded_ruling, padded_adjudicator,
}

abbrev review : String → ReviewDecision → ReviewRecord
review reviewer_id decision = record {
  natural_question = "q?";
  answer_exists = true;
  evidence_correct = true;
  page_correct = true;
  answer_unambiguous = true;
  answerable_label_correct = true;
  type_difficulty_correct = true;
  reviewer_decision = decision;
  corrected_answer = "";
  corrected_evidence = "";
  notes = "";
  reviewer_id = reviewer_id;
  timestamp = record { instant = pos 1; has_timezone = true };
}

abbrev ruling : Ruling
ruling = record {
  adjudicator_id = " carol";
  notes = "page 3 ";
  decision = some reject;
  corrected_answer = none;
  corrected_evidence = none;
  timestamp = record { instant = pos 9; has_timezone = true };
}

abbrev adjudicated : ReviewRecord
adjudicated = record (review "bob" reject) {
  reviewer_id = "carol";
  notes = "page 3";
  timestamp = record { instant = pos 9; has_timezone = true };
}

resolved : adjudicate_reviews (review "ann" accept) (review "bob" reject) ruling ≡ ok adjudicated
unfolding adjudicate_reviews
resolved = refl

adjudicate_reviews-IsAdjudicated_example :
    IsAdjudicated (review "ann" accept) (review "bob" reject) ruling adjudicated
adjudicate_reviews-IsAdjudicated_example =
    adjudicate_reviews-IsAdjudicated (review "ann" accept) (review "bob" reject) ruling adjudicated
      resolved

ann_valid : validate_record (review "ann" accept) ≡ ok (review "ann" accept)
unfolding validate_record
ann_valid = refl

ann_not_bob : ◌≢◌ {A = String} "ann" "bob"
ann_not_bob = ground (arith, eq_iff "ann" "bob")

padded_not_bob : ◌≢◌ {A = String} " ann" "bob"
padded_not_bob = ground (arith, eq_iff " ann" "bob")

padded_adjudicator_example :
    (out : ReviewRecord) × (adjudicate_reviews
        (review "ann" accept)
        (review "bob" accept)
        (padded_ruling (review "ann" accept) ruling)
      ≡ ok out)
    × (out.reviewer_id ≡ "ann")
padded_adjudicator_example =
    padded_adjudicator (review "ann" accept) (review "bob" accept) ruling ann_valid refl ann_not_bob
      padded_not_bob refl refl

gate_closed :
    authorize_gold_access none "evaluate-gold" true
    ≡ err (permission_error "gold access requires ALLOW_GOLD_ACCESS=1")
unfolding authorize_gold_access
gate_closed = refl
