-- ===== src/Evaluation/Judge/Provenance.antt =====
-- What a judge's answer that is accepted rests on.
use mathlib.Core.Path.{subst}
use mathlib.Core.List.{◌++◌}
use ragbench_kr_implementati.Prelude.{
  ◌≡◌, Bool, true, false, not, ◌&&◌, ◌||◌, Option, String, List, [], ◌∷◌, map, any, All, All-map,
  arith, not-false,
}
use ragbench_kr_implementati.Prelude.Float.{Float}
use ragbench_kr_implementati.Prelude.Result.{
  ok, value_error, >>=-eq-ok, raise_if-eq-ok, ok-injective,
}
use ragbench_kr_implementati.Prelude.Text.{is_blank}
use ragbench_kr_implementati.Prelude.Assoc.{str_key, contains, distinct, same_keys-contains}
use ragbench_kr_implementati.Prelude.Lookup.{All-front}
use ragbench_kr_implementati.Evaluation.Identifiers.{evidence_like_ids}
use ragbench_kr_implementati.Evaluation.Judge.{
  EvidenceUnit, JudgeInput, ClaimJudgment, CitationJudgment, JudgeRecord, claim_ids, covers_once,
  evidence_of_claims, evidence_of_citations, claims_of_citations, is_empty, is_unresolved,
  is_unmentioned, has_invented, validated, check_provenance, parse_judge_response,
}

any-false {ℓ} :
    {A : Type ℓ} (p : A → Bool) (xs : List A) → any p xs ≡ false → All (λ x. p x ≡ false) xs
any-false p [] h = tt
any-false p (x ∷ xs) h = (or_left_false _ _ h, any-false p xs (or_right_false _ _ h))
  where
    or_left_false : (a b : Bool) → (a || b) ≡ false → a ≡ false
    or_left_false a b h = ground arith

    or_right_false : (a b : Bool) → (a || b) ≡ false → b ≡ false
    or_right_false a b h = ground arith

-- The ids of a list are among others.
abbrev pub AreAmong : List String → List String → Type 0
AreAmong known ids = All (λ id. contains id known ≡ true) ids

AreAmong-intro :
    (known ids : List String) → any (λ id. not (contains id known)) ids ≡ false → AreAmong known ids
AreAmong-intro known ids h = All-map (λ id e. not-false _ e) ids (any-false _ ids h)

-- A supported claim cites evidence, and all that it cites was retrieved.
abbrev pub IsSupportedClaim : List String → ClaimJudgment → Type 0
IsSupportedClaim retrieved claim =
    (claim.supported ≡ true → is_empty claim.evidence_ids ≡ false)
    × AreAmong retrieved claim.evidence_ids

-- A supported citation is of a retrieved passage, cites it itself, and is linked to a claim; its claims are
-- supplied ones, and all that it cites was retrieved.
abbrev pub IsSupportedCitation : List String → List String → CitationJudgment → Type 0
IsSupportedCitation retrieved expected citation =
    (citation.supported ≡ true
      → (contains citation.citation_id retrieved ≡ true)
        × (contains citation.citation_id citation.evidence_ids ≡ true)
        × (is_empty citation.claim_ids ≡ false))
    × AreAmong expected citation.claim_ids
    × AreAmong retrieved citation.evidence_ids

-- Every evidence id that a text names, in the grammar of such ids, was supplied.
abbrev pub IsGroundedText : List String → String → Type 0
IsGroundedText allowed rationale = AreAmong allowed (evidence_like_ids rationale)

abbrev pub retrieved_ids : JudgeInput → List String
retrieved_ids value = map (λ (item : EvidenceUnit). item.evidence_id) value.retrieved_context

abbrev pub allowed_ids : JudgeInput → List String
allowed_ids value =
    map (λ (item : EvidenceUnit). item.evidence_id) (value.gold_evidence ++ value.retrieved_context)

module _ (P : String → Type 0) where
  All-rest : (xs ys : List String) → All P (xs ++ ys) → All P ys
  All-rest [] ys h = h
  All-rest (x ∷ xs) ys h = All-rest xs ys h.1

  each_claim :
      (claims : List ClaimJudgment)
      → All P (evidence_of_claims claims)
      → All (λ (claim : ClaimJudgment). All P claim.evidence_ids) claims
  each_claim [] h = tt
  each_claim (claim ∷ claims) h = (
    All-front P claim.evidence_ids (evidence_of_claims claims) h,
    each_claim claims (All-rest claim.evidence_ids (evidence_of_claims claims) h),
  )

  each_citation :
      (citations : List CitationJudgment)
      → All P (evidence_of_citations citations)
      → All (λ (citation : CitationJudgment). All P citation.evidence_ids) citations
  each_citation [] h = tt
  each_citation (citation ∷ citations) h = (
    All-front P citation.evidence_ids (evidence_of_citations citations) h,
    each_citation citations (All-rest citation.evidence_ids (evidence_of_citations citations) h),
  )

  each_link :
      (citations : List CitationJudgment)
      → All P (claims_of_citations citations)
      → All (λ (citation : CitationJudgment). All P citation.claim_ids) citations
  each_link [] h = tt
  each_link (citation ∷ citations) h = (
    All-front P citation.claim_ids (claims_of_citations citations) h,
    each_link citations (All-rest citation.claim_ids (claims_of_citations citations) h),
  )

unless_first : (a b : Bool) → (not a && b) ≡ false → a ≡ false → b ≡ false
unless_first a b h k = ground arith

either_false : (a b : Bool) → (a || b) ≡ false → (a ≡ false) × (b ≡ false)
either_false a b h = (ground arith, ground arith)

both_false : (a b : Bool) → (a && b) ≡ false → a ≡ true → b ≡ false
both_false a b h k = ground arith

once :
    (items expected : List String)
    → not (covers_once items expected) ≡ false
    → (distinct items ≡ true) × ((id : String) → contains id items ≡ contains id expected)
unfolding covers_once
once items expected h =
    let (a, b) = both_true _ _ (not-false _ h) in (a, same_keys-contains items expected b)
  where
    both_true : (a b : Bool) → (a && b) ≡ true → (a ≡ true) × (b ≡ true)
    both_true a b h = (ground arith, ground arith)

resolves :
    (retrieved : List String) (citation : CitationJudgment)
    → is_unresolved retrieved citation ≡ false
    → citation.supported ≡ true
    → (contains citation.citation_id retrieved ≡ true)
      × (contains citation.citation_id citation.evidence_ids ≡ true)
unfolding is_unresolved
resolves retrieved citation h s =
    let (a, b) = either_false _ _ (both_false _ _ h s) in (not-false _ a, not-false _ b)

grounded :
    (allowed : List String) (rationale : String)
    → has_invented allowed rationale ≡ false
    → IsGroundedText allowed rationale
unfolding has_invented
grounded allowed rationale h = AreAmong-intro allowed (evidence_like_ids rationale) h

claims_support :
    (retrieved : List String) (claims : List ClaimJudgment)
    → any (λ (claim : ClaimJudgment). claim.supported && is_empty claim.evidence_ids) claims ≡ false
    → All (λ (claim : ClaimJudgment). AreAmong retrieved claim.evidence_ids) claims
    → All (IsSupportedClaim retrieved) claims
claims_support retrieved [] h k = tt
claims_support retrieved (claim ∷ claims) h k =
    let (this, rest) = either_false _ _ h in
    ((λ s. both_false _ _ this s, k.0), claims_support retrieved claims rest k.1)

citations_support :
    (retrieved expected : List String) (citations : List CitationJudgment)
    → any
        (λ (citation : CitationJudgment). citation.supported && is_empty citation.claim_ids)
        citations
      ≡ false
    → any (is_unresolved retrieved) citations ≡ false
    → All (λ (citation : CitationJudgment). AreAmong expected citation.claim_ids) citations
    → All (λ (citation : CitationJudgment). AreAmong retrieved citation.evidence_ids) citations
    → All (IsSupportedCitation retrieved expected) citations
citations_support retrieved expected [] h k l m = tt
citations_support retrieved expected (citation ∷ citations) h k l m =
    let (linked, rest) = either_false _ _ h in
    let (this, others) = either_false _ _ k in
    (
      (
        λ s.
            let (there, cited) = resolves retrieved citation this s in
            (there, cited, both_false _ _ linked s),
        l.0,
        m.0,
      ),
      citations_support retrieved expected citations rest others l.1 m.1,
    )

All-IsGroundedText {ℓ} :
    {A : Type ℓ} (allowed : List String) (rationale_of : A → String) (items : List A)
    → any (λ item. has_invented allowed (rationale_of item)) items ≡ false
    → All (λ item. IsGroundedText allowed (rationale_of item)) items
All-IsGroundedText allowed rationale_of [] h = tt
All-IsGroundedText allowed rationale_of (item ∷ items) h =
    let (this, rest) = either_false _ _ h in
    (grounded allowed (rationale_of item) this, All-IsGroundedText allowed rationale_of items rest)

module _ (float : Float) where
  open float use {F, order, zero_float}

  -- What an answer rests on.
  pub record IsProvenanced (value : JudgeInput) (expected : List String) (judged : JudgeRecord F)
      : Type 0 where
    pub claims_once :
        (distinct (map (λ (claim : ClaimJudgment). claim.claim_id) judged.claims) ≡ true)
        × ((id : String)
            → contains id (map (λ (claim : ClaimJudgment). claim.claim_id) judged.claims)
              ≡ contains id expected)
    pub citations_once :
        (distinct (map (λ (citation : CitationJudgment). citation.citation_id) judged.citations)
          ≡ true)
        × ((id : String)
            → contains id
                (map (λ (citation : CitationJudgment). citation.citation_id) judged.citations)
              ≡ contains id value.model_citation_ids)
    pub supported_claims : All (IsSupportedClaim (retrieved_ids value)) judged.claims
    pub supported_citations :
        All (IsSupportedCitation (retrieved_ids value) expected) judged.citations
    pub positive :
        order.le judged.correctness zero_float ≡ false
        → is_empty judged.correctness_evidence_ids ≡ false
    pub supplied : AreAmong (allowed_ids value) judged.correctness_evidence_ids
    pub rationale : IsGroundedText (allowed_ids value) judged.rationale
    pub claim_rationales :
        All
          (λ (claim : ClaimJudgment). IsGroundedText (allowed_ids value) claim.rationale)
          judged.claims
    pub citation_rationales :
        All
          (λ (citation : CitationJudgment). IsGroundedText (allowed_ids value) citation.rationale)
          judged.citations

  check_provenance-IsProvenanced :
      (value : JudgeInput) (expected : List String) (found judged : JudgeRecord F)
      → check_provenance float value expected found ≡ ok judged
      → IsProvenanced value expected judged
  unfolding check_provenance
  check_provenance-IsProvenanced value expected found judged h2 =
      let claims = map (λ (claim : ClaimJudgment). claim.claim_id) found.claims in
      let citations = map (λ (citation : CitationJudgment). citation.citation_id) found.citations in
      let (t1, h3) =
        raise_if-eq-ok (not (covers_once claims expected))
          (value_error "judge must evaluate every supplied claim exactly once") _ h2 in
      let (t2, h4) =
        raise_if-eq-ok (not (covers_once citations value.model_citation_ids))
          (value_error "judge must evaluate every supplied citation exactly once") _ h3 in
      let (t3, h5) = raise_if-eq-ok _ _ _ h4 in
      let (t4, h6) = raise_if-eq-ok _ _ _ h5 in
      let (t5, h7) = raise_if-eq-ok _ _ _ h6 in
      let (t6, h8) = raise_if-eq-ok _ _ _ h7 in
      let (t7, h9) = raise_if-eq-ok _ _ _ h8 in
      let (t8, h10) = raise_if-eq-ok _ _ _ h9 in
      let (t9, h11) = raise_if-eq-ok _ _ _ h10 in
      let (t10, h12) =
        raise_if-eq-ok (found.benchmark_defect && is_empty found.benchmark_defect_evidence_ids)
          (value_error "benchmark defect requires cited supplied evidence") _ h11 in
      let (t11, h13) =
        raise_if-eq-ok
          (is_unmentioned found.correctness_evidence_ids found.rationale
            || is_unmentioned found.benchmark_defect_evidence_ids found.rationale
            || any (λ (claim : ClaimJudgment). is_unmentioned claim.evidence_ids claim.rationale)
                found.claims
            || any
                (λ (citation : CitationJudgment).
                  is_unmentioned citation.evidence_ids citation.rationale)
                found.citations)
          (value_error "each cited evidence ID must appear in its rationale") _ h12 in
      let (t12, h14) =
        raise_if-eq-ok _ (value_error "judge rationale contains an invented evidence ID") _ h13 in
      let (t13, done) =
        raise_if-eq-ok
          (any is_blank (
              found.correctness_evidence_ids
              ++ (found.benchmark_defect_evidence_ids
                  ++ (evidence_of_claims found.claims ++ evidence_of_citations found.citations)))
            || not (distinct found.correctness_evidence_ids)
            || not (distinct found.benchmark_defect_evidence_ids)
            || any (λ (claim : ClaimJudgment). not (distinct claim.evidence_ids)) found.claims
            || any (λ (citation : CitationJudgment). not (distinct citation.evidence_ids))
                found.citations)
          (value_error "judge evidence references must be nonblank and unique") _ h14 in
      let supporting =
        AreAmong-intro (retrieved_ids value)
          (evidence_of_claims found.claims ++ evidence_of_citations found.citations) t5 in
      let cited =
        AreAmong-intro (allowed_ids value)
          (found.correctness_evidence_ids
            ++ (found.benchmark_defect_evidence_ids
                ++ (evidence_of_claims found.claims ++ evidence_of_citations found.citations)))
          t3 in
      let linked = AreAmong-intro expected (claims_of_citations found.citations) t4 in
      let (claims_cite, _) = either_false _ _ t8 in
      let (main_texts, citation_texts) = either_false _ _ t12 in
      let (main_text, claim_texts) = either_false _ _ main_texts in
      subst (IsProvenanced value expected) {x = found} (ok-injective done) (record {
        claims_once = once claims expected t1;
        citations_once = once citations value.model_citation_ids t2;
        supported_claims = claims_support (retrieved_ids value) found.claims claims_cite (
            each_claim _ found.claims (
              All-front _ (evidence_of_claims found.claims) (evidence_of_citations found.citations)
                supporting));
        supported_citations =
            citations_support (retrieved_ids value) expected found.citations t6 t7
              (each_link _ found.citations linked)
              (each_citation _ found.citations (
                All-rest _ (evidence_of_claims found.claims) (evidence_of_citations found.citations)
                  supporting));
        positive = λ e. unless_first _ _ t9 e;
        supplied = All-front _ found.correctness_evidence_ids _ cited;
        rationale = grounded (allowed_ids value) found.rationale main_text;
        claim_rationales =
            All-IsGroundedText (allowed_ids value) (λ (claim : ClaimJudgment). claim.rationale)
              found.claims claim_texts;
        citation_rationales =
            All-IsGroundedText (allowed_ids value)
              (λ (citation : CitationJudgment). citation.rationale) found.citations citation_texts;
      })

  -- An answer that is accepted judges exactly the supplied claims, and exactly the supplied citations, each once.
  -- A claim that it finds supported cites evidence; a citation that it finds supported is of a retrieved
  -- passage, cites it, and is linked to a claim; claims and citations rest on retrieved evidence only, and
  -- citations are linked to supplied claims only. A correctness above 0 cites evidence, all of it supplied.
  -- Every evidence id that a rationale names was supplied.
  pub parse_judge_response-IsProvenanced :
      (validate_json : String → Option (JudgeRecord F)) (raw : String) (value : JudgeInput)
      (judged : JudgeRecord F)
      → parse_judge_response float validate_json raw value ≡ ok judged
      → (expected : List String) × (claim_ids value.answer_claims ≡ ok expected)
        × IsProvenanced value expected judged
  unfolding parse_judge_response
  parse_judge_response-IsProvenanced validate_json raw value judged h =
      let (found, _, h1) = >>=-eq-ok (validated float (validate_json raw)) _ h in
      let (expected, ids, h2) =
        >>=-eq-ok (claim_ids value.answer_claims) (λ ids. check_provenance float value ids found)
          h1 in
      (expected, ids, check_provenance-IsProvenanced value expected found judged h2)
