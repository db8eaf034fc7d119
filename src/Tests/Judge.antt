-- ===== src/Tests/Judge.antt =====
-- src/ragbench/evaluation/judge.py. An answer of one claim and one citation.
use ragbench_kr_implementati.Prelude.{
  ℕ, ◌≡◌, refl, true, false, Option, some, none, List, [], ◌∷◌, String,
}
use ragbench_kr_implementati.Prelude.Int.{pos}
use ragbench_kr_implementati.Prelude.Float.{fixed_point}
use ragbench_kr_implementati.Prelude.Result.{ok, err, value_error}
use ragbench_kr_implementati.Evaluation.Identifiers.{
  evidence_like_ids, rationale_mentions, is_machine_id,
}
use ragbench_kr_implementati.Evaluation.Judge.{
  JudgeInput, JudgeRecord, JudgeConfig, claim_ids, judge_policy, parse_judge_response,
}
use ragbench_kr_implementati.Evaluation.Judge.Provenance.{
  IsProvenanced, parse_judge_response-IsProvenanced,
}

found_ids : evidence_like_ids "e1이 맞다 -x2, ev_10 and abc" ≡ "e1" ∷ "ev_10" ∷ []
unfolding evidence_like_ids
found_ids = refl

mentioned : rationale_mentions "e1" "see e1이" ≡ true
unfolding rationale_mentions
mentioned = refl

inside_other : rationale_mentions "e1" "see e12 and re1" ≡ false
unfolding rationale_mentions
inside_other = refl

only_letters : is_machine_id "abc" ≡ false
unfolding is_machine_id
only_letters = refl

abbrev input : JudgeInput
input = record {
  question = "q";
  gold_answer = none;
  gold_evidence = record { evidence_id = "g1"; text = "t" } ∷ [];
  model_answer = "a";
  answer_claims = "c1: claim" ∷ [];
  model_citation_ids = "e1" ∷ [];
  retrieved_context = record { evidence_id = "e1"; text = "t" } ∷ [];
}

abbrev judged : List String → JudgeRecord ℕ
judged evidence_ids = record {
  correctness = 1000000;
  correctness_evidence_ids = "g1" ∷ [];
  claims =
      record {
        claim_id = "c1";
        supported = true;
        evidence_ids = evidence_ids;
        rationale = "e1 and g1";
      }
      ∷ [];
  citations =
      record {
        citation_id = "e1";
        claim_ids = "c1" ∷ [];
        supported = true;
        evidence_ids = "e1" ∷ [];
        rationale = "e1";
      }
      ∷ [];
  benchmark_defect = false;
  benchmark_defect_evidence_ids = [];
  rationale = "by g1";
}

abbrev reads : JudgeRecord ℕ → String → Option (JudgeRecord ℕ)
reads found raw = some found

accepted :
    parse_judge_response fixed_point (reads (judged ("e1" ∷ []))) "{}" input
    ≡ ok (judged ("e1" ∷ []))
unfolding parse_judge_response
accepted = refl

not_retrieved :
    parse_judge_response fixed_point (reads (judged ("g1" ∷ []))) "{}" input
    ≡ err (value_error "faithfulness and citation support require retrieved context")
unfolding parse_judge_response
not_retrieved = refl

abbrev config : JudgeConfig ℕ
config = record {
  model_id = "m";
  generator_model_id = "m";
  rubric_version = "judge-v1";
  temperature = some 0;
  max_output_tokens = pos 10;
  same_model_unavailability_reason = some " ";
  temperature_unsupported_reason = none;
}

same_model :
    judge_policy fixed_point config
    ≡ err (value_error "judge model must be distinct from generator when available")
unfolding judge_policy
same_model = refl

parse_judge_response-IsProvenanced_example :
    (expected : List String) × (claim_ids input.answer_claims ≡ ok expected)
    × IsProvenanced fixed_point input expected (judged ("e1" ∷ []))
parse_judge_response-IsProvenanced_example =
    parse_judge_response-IsProvenanced fixed_point (reads (judged ("e1" ∷ []))) "{}" input
      (judged ("e1" ∷ [])) accepted
