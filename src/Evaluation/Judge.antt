-- ===== src/Evaluation/Judge.antt =====
-- src/ragbench/evaluation/judge.py: the policy of a judge's configuration, and the provenance of its answers. What
-- pydantic makes of the JSON text is a parameter.
pub mod Provenance
use Prim.Native.Char.{code}
use mathlib.Core.List.{◌++◌}
use ragbench_kr_implementati.Prelude.{
  ℕ, Bool, true, false, not, ◌&&◌, ◌||◌, Option, none, some, String, List, [], ◌∷◌, map, any, all,
  if◌then◌else◌, str_eq, ◌==◌,
}
use ragbench_kr_implementati.Prelude.Int.{ℤ}
use ragbench_kr_implementati.Prelude.Float.{Float}
use ragbench_kr_implementati.Prelude.Text.{is_blank, strip}
use ragbench_kr_implementati.Prelude.Result.{Result, ok, err, raise_if, value_error, ◌>>=◌, ◌>>◌}
use ragbench_kr_implementati.Prelude.Assoc.{str_key, contains, distinct, same_keys}
use ragbench_kr_implementati.Evaluation.Identifiers.{
  evidence_like_ids, rationale_mentions, is_machine_id,
}

pub record EvidenceUnit : Type 0 where
  pub evidence_id : String
  pub text : String

pub record JudgeInput : Type 0 where
  pub question : String
  pub gold_answer : Option String
  pub gold_evidence : List EvidenceUnit
  pub model_answer : String
  pub answer_claims : List String
  pub model_citation_ids : List String
  pub retrieved_context : List EvidenceUnit

pub record ClaimJudgment : Type 0 where
  pub claim_id : String
  pub supported : Bool
  pub evidence_ids : List String
  pub rationale : String

pub record CitationJudgment : Type 0 where
  pub citation_id : String
  pub claim_ids : List String
  pub supported : Bool
  pub evidence_ids : List String
  pub rationale : String

pub record JudgeRecord (F : Type 0) : Type 0 where
  pub correctness : F
  pub correctness_evidence_ids : List String
  pub claims : List ClaimJudgment
  pub citations : List CitationJudgment
  pub benchmark_defect : Bool
  pub benchmark_defect_evidence_ids : List String
  pub rationale : String

pub record JudgeConfig (F : Type 0) : Type 0 where
  pub model_id : String
  pub generator_model_id : String
  pub rubric_version : String
  pub temperature : Option F
  pub max_output_tokens : ℤ
  pub same_model_unavailability_reason : Option String
  pub temperature_unsupported_reason : Option String

-- `reason and reason.strip()`
abbrev pub is_reason : Option String → Bool
unfolding is_blank
is_reason none = false
is_reason (some reason) = not (is_blank reason)

abbrev pub option_is_some {ℓ} : {A : Type ℓ} → Option A → Bool
option_is_some none = false
option_is_some (some _) = true

-- `claim.partition(":")`, when there is a colon.
unfoldable pub partition : String → Option (String × String)
partition String.[] = none
partition (String.◌∷◌ c s) =
    let rest = partition s in
    if code c == 58
    then some ("", s)
    else elim rest [ none ↦ none | some (front, back) ↦ some (String.◌∷◌ c front, back) ]

-- `_claim_ids`
abbrev pub claim_id_of : Option (String × String) → Result String
unfolding is_blank strip
claim_id_of none = err (value_error "answer claims must use '<claim_id>: <claim>' format")
claim_id_of (some (identifier, text)) =
    if is_blank identifier || is_blank text
    then err (value_error "answer claims must use '<claim_id>: <claim>' format")
    else ok (strip identifier)

unfoldable pub claim_ids : List String → Result (List String)
unfolding claim_id_of partition
claim_ids [] = ok []
claim_ids (claim ∷ claims) = do
  identifier ← claim_id_of (partition claim)
  identifiers ← claim_ids claims
  ok (identifier ∷ identifiers)

-- `_identities_are_unambiguous`
unfoldable pub check_input : JudgeInput → Result JudgeInput
unfolding claim_ids distinct is_blank
check_input value = do
  let evidence =
      map (λ (item : EvidenceUnit). item.evidence_id)
        (value.gold_evidence ++ value.retrieved_context)
  raise_if (not (distinct evidence)) (value_error "evidence IDs must be unique across judge input")
  identifiers ← claim_ids value.answer_claims
  raise_if (not (distinct identifiers)) (value_error "answer claim IDs must be unique")
  raise_if (any is_blank value.model_citation_ids || not (distinct value.model_citation_ids))
      (value_error "model citation IDs must be nonblank and unique")
  ok value

-- `items` are the expected ones, each once.
abbrev pub covers_once : List String → List String → Bool
unfolding distinct same_keys
covers_once items expected = distinct items && same_keys items expected

abbrev pub evidence_of_claims : List ClaimJudgment → List String
evidence_of_claims [] = []
evidence_of_claims (claim ∷ claims) = claim.evidence_ids ++ evidence_of_claims claims

abbrev pub evidence_of_citations : List CitationJudgment → List String
evidence_of_citations [] = []
evidence_of_citations (citation ∷ citations) =
    citation.evidence_ids ++ evidence_of_citations citations

abbrev pub claims_of_citations : List CitationJudgment → List String
claims_of_citations [] = []
claims_of_citations (citation ∷ citations) = citation.claim_ids ++ claims_of_citations citations

abbrev pub is_empty {ℓ} : {A : Type ℓ} → List A → Bool
is_empty [] = true
is_empty (_ ∷ _) = false

-- A supported citation that does not resolve itself.
abbrev pub is_unresolved : List String → CitationJudgment → Bool
unfolding contains
is_unresolved retrieved citation =
    citation.supported
    && (not (contains citation.citation_id retrieved)
        || not (contains citation.citation_id citation.evidence_ids))

-- Some evidence id that the rationale does not mention.
abbrev pub is_unmentioned : List String → String → Bool
unfolding rationale_mentions
is_unmentioned evidence_ids rationale =
    any (λ id. not (rationale_mentions id rationale)) evidence_ids

-- An id in the rationale that was not supplied.
abbrev pub has_invented : List String → String → Bool
unfolding evidence_like_ids contains
has_invented allowed rationale = any (λ id. not (contains id allowed)) (evidence_like_ids rationale)

module _ (float : Float) where
  open float use {F, order, zero_float}

  -- `_judge_policy`
  unfoldable pub judge_policy : JudgeConfig F → Result (JudgeConfig F)
  unfolding is_reason
  judge_policy config = do
    raise_if (not (str_eq config.rubric_version "judge-v1"))
        (value_error "unknown judge rubric version")
    raise_if
        (str_eq config.model_id config.generator_model_id
          && not (is_reason config.same_model_unavailability_reason))
        (value_error "judge model must be distinct from generator when available")
    raise_if (is_hot config.temperature)
        (value_error "judge temperature must be zero where supported")
    raise_if
        (not (option_is_some config.temperature)
          && not (is_reason config.temperature_unsupported_reason))
        (value_error "unsupported temperature requires an explicit reason")
    ok config
    where
      is_hot : Option F → Bool
      is_hot none = false
      is_hot (some temperature) =
          not (order.le temperature zero_float && order.le zero_float temperature)

  -- `JudgeRecord.model_validate_json`, when it returns.
  abbrev pub validated : Option (JudgeRecord F) → Result (JudgeRecord F)
  validated none = err (value_error "judge response is not strict rubric JSON")
  validated (some judged) = ok judged

  -- The checks of an answer against what was supplied.
  unfoldable pub check_provenance :
      JudgeInput → List String → JudgeRecord F → Result (JudgeRecord F)
  unfolding covers_once is_unresolved is_unmentioned has_invented contains distinct is_blank
  check_provenance value expected judged = do
    raise_if
        (not (covers_once (map (λ (claim : ClaimJudgment). claim.claim_id) judged.claims) expected))
        (value_error "judge must evaluate every supplied claim exactly once")
    raise_if
        (not (
          covers_once (map (λ (citation : CitationJudgment). citation.citation_id) judged.citations)
            value.model_citation_ids))
        (value_error "judge must evaluate every supplied citation exactly once")
    let allowed =
        map (λ (item : EvidenceUnit). item.evidence_id)
          (value.gold_evidence ++ value.retrieved_context)
    let retrieved = map (λ (item : EvidenceUnit). item.evidence_id) value.retrieved_context
    let supporting = evidence_of_claims judged.claims ++ evidence_of_citations judged.citations
    let cited =
        judged.correctness_evidence_ids ++ (judged.benchmark_defect_evidence_ids ++ supporting)
    raise_if (any (λ id. not (contains id allowed)) cited)
        (value_error "judge invented an evidence ID")
    raise_if (any (λ id. not (contains id expected)) (claims_of_citations judged.citations))
        (value_error "judge invented a claim ID")
    raise_if (any (λ id. not (contains id retrieved)) supporting)
        (value_error "faithfulness and citation support require retrieved context")
    raise_if
        (any (λ (citation : CitationJudgment). citation.supported && is_empty citation.claim_ids)
          judged.citations)
        (value_error "supported citation must link at least one supplied claim")
    raise_if (any (is_unresolved retrieved) judged.citations)
        (value_error "supported citation must resolve its own retrieved citation ID")
    raise_if
        (any (λ (claim : ClaimJudgment). claim.supported && is_empty claim.evidence_ids)
            judged.claims
          || any
              (λ (citation : CitationJudgment).
                citation.supported && is_empty citation.evidence_ids)
              judged.citations)
        (value_error "supported judge decisions require cited supplied evidence")
    raise_if
        (not (order.le judged.correctness zero_float) && is_empty judged.correctness_evidence_ids)
        (value_error "positive correctness requires cited supplied evidence")
    raise_if (judged.benchmark_defect && is_empty judged.benchmark_defect_evidence_ids)
        (value_error "benchmark defect requires cited supplied evidence")
    raise_if
        (is_unmentioned judged.correctness_evidence_ids judged.rationale
          || is_unmentioned judged.benchmark_defect_evidence_ids judged.rationale
          || any (λ (claim : ClaimJudgment). is_unmentioned claim.evidence_ids claim.rationale)
              judged.claims
          || any
              (λ (citation : CitationJudgment).
                is_unmentioned citation.evidence_ids citation.rationale)
              judged.citations)
        (value_error "each cited evidence ID must appear in its rationale")
    raise_if
        (has_invented allowed judged.rationale
          || any (λ (claim : ClaimJudgment). has_invented allowed claim.rationale) judged.claims
          || any (λ (citation : CitationJudgment). has_invented allowed citation.rationale)
              judged.citations)
        (value_error "judge rationale contains an invented evidence ID")
    raise_if
        (any is_blank cited
          || not (distinct judged.correctness_evidence_ids)
          || not (distinct judged.benchmark_defect_evidence_ids)
          || any (λ (claim : ClaimJudgment). not (distinct claim.evidence_ids)) judged.claims
          || any (λ (citation : CitationJudgment). not (distinct citation.evidence_ids))
              judged.citations)
        (value_error "judge evidence references must be nonblank and unique")
    ok judged

  -- `parse_judge_response`
  unfoldable pub parse_judge_response :
      (String → Option (JudgeRecord F)) → String → JudgeInput → Result (JudgeRecord F)
  unfolding claim_ids check_provenance
  parse_judge_response validate_json raw value = do
    judged ← validated (validate_json raw)
    expected ← claim_ids value.answer_claims
    check_provenance value expected judged
