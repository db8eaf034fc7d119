-- ===== src/Experiments/TopThree/BestValue.antt =====
-- The best-value row is among the three that are selected.
use mathlib.Core.Path.{subst}
use mathlib.Core.List.{Mem, Perm}
use ragbench_kr_implementati.Prelude.{
  ◌≡◌, ◌⊎◌, refl, sym, ◌∙◌, Bool, true, false, not, ◌||◌, List, [], ◌∷◌, map, length, any, all,
  filter_rows, All, AllPairs, ltb, ◌==◌, Bool-cases, inl, inr, if◌then◌else◌, arith,
}
use ragbench_kr_implementati.Prelude.Float.{Float}
use ragbench_kr_implementati.Prelude.Result.{ok, raise_if-eq-ok, >>=-eq-ok, ok-injective}
use ragbench_kr_implementati.Prelude.Sorting.{
  Preorder, sorted, sorted-IsSorted, IsSorted-AllPairs, sorted-perm, All-sorted,
}
use ragbench_kr_implementati.Prelude.Assoc.{str_key, int_key, self_key, distinct, to_set}
use ragbench_kr_implementati.Prelude.Lookup.{All-of_Mem}
use ragbench_kr_implementati.Experiments.TopThree.{
  GenerationOutcome, least, ranking_order, value_order, is_competitive, outcome_eq, best_value_of,
  with_best, pick_three, select_generation_top_three,
}

module _ {ℓ} {A : Type ℓ} (o : Preorder A) where
  le_refl : (a : A) → o.le a a ≡ true
  le_refl a = elim (Bool-cases (o.le a a)) [ inl e ↦ e | inr e ↦ o.total a a e ]

  least-le :
      (best : A) (xs : List A) (m : A)
      → least o best xs ≡ m
      → (o.le m best ≡ true) × All (λ row. o.le m row ≡ true) xs
  unfolding least
  least-le best [] m h = (subst (λ (a : A). o.le a best ≡ true) h (le_refl best), tt)
  least-le best (x ∷ xs) m h = elim (Bool-cases (o.le best x)) [
    | inl e ↦
        let (below, others) = least-le best xs m (rw e at h) in
        (below, (o.trans m best x below e, others))
    | inr e ↦
        let (below, others) = least-le x xs m (rw e at h) in
        (o.trans m x best below (o.total best x e), (below, others))
  ]

  least-All {κ} :
      (P : A → Type κ) (best : A) (xs : List A) → P best → All P xs → P (least o best xs)
  unfolding least
  least-All P best [] p h = p
  least-All P best (x ∷ xs) p h = elim (Bool-cases (o.le best x)) [
    | inl e ↦ rw e (least-All P best xs p h.1)
    | inr e ↦ rw e (least-All P x xs h.0 h.1)
  ]

same_bool : (b : Bool) → (if b then b else not b) ≡ true
same_bool true = refl
same_bool false = refl

any_third : (a b c : Bool) → c ≡ true → (a || (b || (c || false))) ≡ true
any_third a b c h = ground arith

filter_rows-All {ℓ κ} :
    {A : Type ℓ} (P : A → Type κ) (p : A → Bool) (xs : List A)
    → All P xs
    → All (λ x. P x × (p x ≡ true)) (filter_rows p xs)
unfolding filter_rows
filter_rows-All P p [] h = tt
filter_rows-All P p (x ∷ xs) h = elim (Bool-cases (p x)) [
  | inl e ↦ rw e ((h.0, e), filter_rows-All P p xs h.1)
  | inr e ↦ rw e (filter_rows-All P p xs h.1)
]

module _ (float : Float) where
  open float use {F, order}

  outcome_eq_refl : (row : GenerationOutcome F) → outcome_eq float row row ≡ true
  unfolding outcome_eq
  outcome_eq_refl row =
      let float_refl = le_refl order in
      rw
        (
          self_key row.config_hash,
          self_key row.cohort_hash,
          self_key row.question_count,
          self_key row.total_cost_usd,
          float_refl row.correctness,
          float_refl row.faithfulness,
          float_refl row.citation_f1,
          float_refl row.abstention_accuracy,
          float_refl row.mean_latency_ms,
          float_refl row.quality_ci_low,
          float_refl row.quality_ci_high,
        )
        (same_bool row.judge_calibrated)

  -- The best value: of the competitive rows, one of the least in cost, then quality, then hash.
  abbrev pub IsBestValue :
      List (GenerationOutcome F)
      → List (GenerationOutcome F)
      → GenerationOutcome F
      → GenerationOutcome F
      → Type 0
  IsBestValue outcomes ranked leader best =
      (Mem best outcomes × (is_competitive float leader best ≡ true))
      × All (λ row. (value_order float).le best row ≡ true)
          (filter_rows (is_competitive float leader) ranked)

  -- The third of the ranking stays when the best value is among the first three, and gives its
  -- place to the best value otherwise.
  abbrev pub IsLast :
      GenerationOutcome F
      → GenerationOutcome F
      → GenerationOutcome F
      → GenerationOutcome F
      → GenerationOutcome F
      → Type 0
  IsLast leader second third best last =
      let is_there = any (outcome_eq float best) (leader ∷ second ∷ third ∷ []) in
      ((is_there ≡ true) × (last ≡ third)) ⊎ ((is_there ≡ false) × (last ≡ best))

  with_best-any :
      (leader second third best : GenerationOutcome F)
      → (last : GenerationOutcome F) × (with_best float leader second third best
          ≡ leader ∷ second ∷ last ∷ [])
        × (any (outcome_eq float best) (leader ∷ second ∷ last ∷ []) ≡ true)
        × IsLast leader second third best last
  unfolding with_best
  with_best-any leader second third best =
      elim (Bool-cases (any (outcome_eq float best) (leader ∷ second ∷ third ∷ []))) [
        | inl e ↦ (third, (rw e refl), e, inl (e, refl))
        | inr e ↦ (
          best,
          rw e refl,
          any_third (outcome_eq float best leader) (outcome_eq float best second) _
              (outcome_eq_refl best),
          inr (e, refl),
        )
      ]

  best_value_of-IsBestValue :
      (outcomes ranked : List (GenerationOutcome F)) (leader best : GenerationOutcome F)
      (rows : List (GenerationOutcome F))
      → All (λ row. Mem row outcomes × (is_competitive float leader row ≡ true)) rows
      → best_value_of float rows ≡ ok best
      → (Mem best outcomes × (is_competitive float leader best ≡ true))
        × All (λ row. (value_order float).le best row ≡ true) rows
  unfolding best_value_of
  best_value_of-IsBestValue outcomes ranked leader best [] h e = absurd (cc)
  best_value_of-IsBestValue outcomes ranked leader best (row ∷ rows) h e =
      let P =
        λ (r : GenerationOutcome F). Mem r outcomes × (is_competitive float leader r ≡ true) in
      (
        subst P (ok-injective e) (least-All (value_order float) P row rows h.0 h.1),
        least-le (value_order float) row rows best (ok-injective e),
      )

  -- The selection, from the rows in the order of the ranking.
  abbrev pub IsTopThree :
      List (GenerationOutcome F) → List (GenerationOutcome F) → List (GenerationOutcome F) → Type 0
  IsTopThree outcomes ranked out =
      (leader : GenerationOutcome F) × (second : GenerationOutcome F) × (last : GenerationOutcome F)
      × (third : GenerationOutcome F) × (rest : List (GenerationOutcome F))
      × (best : GenerationOutcome F) × (ranked ≡ leader ∷ second ∷ third ∷ rest)
      × (out ≡ leader ∷ second ∷ last ∷ [])
      × IsBestValue outcomes ranked leader best
      × (any (outcome_eq float best) out ≡ true)
      × IsLast leader second third best last

  pick_three-IsTopThree :
      (outcomes ranked out : List (GenerationOutcome F))
      → All (λ row. Mem row outcomes) ranked
      → pick_three float ranked ≡ ok out
      → IsTopThree outcomes ranked out
  unfolding pick_three
  pick_three-IsTopThree outcomes [] out h e = absurd (cc)
  pick_three-IsTopThree outcomes (leader ∷ []) out h e = absurd (cc)
  pick_three-IsTopThree outcomes (leader ∷ second ∷ []) out h e = absurd (cc)
  pick_three-IsTopThree outcomes (leader ∷ second ∷ third ∷ rest) out h e =
      let ranked = leader ∷ second ∷ third ∷ rest in
      let competitive = filter_rows (is_competitive float leader) ranked in
      let (best, found, e₁) = >>=-eq-ok (best_value_of float competitive) _ e in
      let (last, same, inside, is_last) = with_best-any leader second third best in
      let out_eq = sym (ok-injective e₁) ∙ same in
      (
        leader,
        second,
        last,
        third,
        rest,
        best,
        refl,
        out_eq,
        best_value_of-IsBestValue outcomes ranked leader best competitive
            (filter_rows-All (λ row. Mem row outcomes) (is_competitive float leader) ranked h)
            found,
        subst (λ (rows : List (GenerationOutcome F)). any (outcome_eq float best) rows ≡ true)
            (sym out_eq) inside,
        is_last,
      )

  -- A selection that is returned has three rows: the first two of the outcomes in the order of the
  -- ranking, and the third of them, when a best-value row is among the first three, or else that
  -- best-value row: of the outcomes whose interval reaches the leader's lower bound, one of the lowest
  -- cost, then of the highest quality, then of the least hash. So it is among the three. The ranking is a permutation of the outcomes in the order of its key.
  pub select_generation_top_three-IsTopThree :
      (outcomes out : List (GenerationOutcome F))
      → select_generation_top_three float outcomes ≡ ok out
      → (ranked : List (GenerationOutcome F)) × Perm ranked outcomes
        × AllPairs (λ a b. (ranking_order float).le a b ≡ true) ranked
        × IsTopThree outcomes ranked out
  unfolding select_generation_top_three
  select_generation_top_three-IsTopThree outcomes out returned =
      let (_, e₁) = raise_if-eq-ok (ltb (length outcomes) 3) _ _ returned in
      let (_, e₂) =
        raise_if-eq-ok
          (not (distinct (map (λ (outcome : GenerationOutcome F). outcome.config_hash) outcomes))) _
          _ e₁ in
      let (_, e₃) =
        raise_if-eq-ok
          (not (
              length
                (to_set (map (λ (outcome : GenerationOutcome F). outcome.cohort_hash) outcomes))
              == 1)
            || not (
                length (
                  to_set (map (λ (outcome : GenerationOutcome F). outcome.question_count) outcomes))
                == 1))
          _ _ e₂ in
      let (_, e₄) =
        raise_if-eq-ok
          (not (all (λ (outcome : GenerationOutcome F). outcome.judge_calibrated) outcomes)) _ _
          e₃ in
      let order = ranking_order float in
      (
        sorted order outcomes,
        sorted-perm order outcomes,
        IsSorted-AllPairs order (sorted order outcomes) (sorted-IsSorted order outcomes),
        pick_three-IsTopThree outcomes (sorted order outcomes) out
            (All-sorted order (λ row. Mem row outcomes) outcomes (All-of_Mem outcomes (λ row m. m)))
            e₄,
      )
