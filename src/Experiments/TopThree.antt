-- ===== src/Experiments/TopThree.antt =====
-- src/ragbench/experiments/selection.py, `select_generation_top_three` and `reconcile_provider_billing`.
-- Money is counted in a decimal's last place.
pub mod BestValue
use Prim.Native.String.{count}
use ragbench_kr_implementati.Prelude.{
  ℕ, suc, ◌==◌, Bool, true, false, not, ◌&&◌, ◌||◌, Option, none, some, String, List, [], ◌∷◌, map,
  length, any, all, filter_rows, ltb, if◌then◌else◌, str_eq,
}
use ragbench_kr_implementati.Prelude.Int.{ℤ, pos, leb_ℤ, ltb_ℤ, eqb_ℤ, ◌-ℤ◌}
use ragbench_kr_implementati.Prelude.Float.{Float}
use ragbench_kr_implementati.Prelude.Result.{
  Result, ok, err, raise_if, value_error, key_error, ◌>>=◌, ◌>>◌,
}
use ragbench_kr_implementati.Prelude.Sorting.{
  Preorder, by_key, descending, ◌then_by◌, ascending_str, ascending_int, sorted,
}
use ragbench_kr_implementati.Prelude.Assoc.{str_key, int_key, distinct, to_set}

pub record GenerationOutcome (F : Type 0) : Type 0 where
  pub config_hash : String
  pub cohort_hash : String
  pub question_count : ℤ
  pub correctness : F
  pub faithfulness : F
  pub citation_f1 : F
  pub abstention_accuracy : F
  pub mean_latency_ms : F
  pub total_cost_usd : ℤ
  pub quality_ci_low : F
  pub quality_ci_high : F
  pub judge_calibrated : Bool

pub record BillingReconciliation : Type 0 where
  pub local_gross_usd : ℤ
  pub provider_console_gross_usd : Option ℤ
  pub delta_usd : Option ℤ
  pub status : String

-- `reconcile_provider_billing`, by whether the console total is known.
unfoldable pub reconcile_provider_billing : ℤ → Option ℤ → Result BillingReconciliation
unfolding ◌-ℤ◌
reconcile_provider_billing local none = do
  raise_if (ltb_ℤ local (pos 0)) (value_error "billing totals cannot be negative")
  ok (record {
    local_gross_usd = local;
    provider_console_gross_usd = none;
    delta_usd = none;
    status = "console-unavailable";
  })
reconcile_provider_billing local (some console) = do
  raise_if (ltb_ℤ local (pos 0) || ltb_ℤ console (pos 0))
      (value_error "billing totals cannot be negative")
  ok (record {
    local_gross_usd = local;
    provider_console_gross_usd = some console;
    delta_usd = some (console -ℤ local);
    status = "reconciled";
  })

-- `min(xs, key=...)` of a list that begins with `best`: the first of the least.
unfoldable pub least {ℓ} : {A : Type ℓ} → Preorder A → A → List A → A
least order best [] = best
least order best (x ∷ xs) = least order (if order.le best x then best else x) xs

module _ (float : Float) where
  open float use {F, zero_float, one_float, add, div_int, is_finite, order}

  abbrev pub is_rate : F → Bool
  is_rate value = is_finite value && order.le zero_float value && order.le value one_float

  -- `GenerationOutcome.__post_init__`
  unfoldable pub new_outcome : GenerationOutcome F → Result (GenerationOutcome F)
  new_outcome row = do
    raise_if (not (count row.config_hash == 64) || not (count row.cohort_hash == 64))
        (value_error "generation outcome identities must be SHA-256 digests")
    raise_if
        (not (
          all is_rate (
            row.correctness ∷ row.faithfulness ∷ row.citation_f1 ∷ row.abstention_accuracy
            ∷ row.quality_ci_low ∷ row.quality_ci_high ∷ [])))
        (value_error "generation quality values must be finite and between zero and one")
    raise_if (not (order.le row.quality_ci_low row.quality_ci_high))
        (value_error "quality confidence interval is reversed")
    raise_if
        (leb_ℤ row.question_count (pos 0)
          || not (order.le zero_float row.mean_latency_ms)
          || ltb_ℤ row.total_cost_usd (pos 0))
        (value_error "generation counts, latency, and cost must be nonnegative")
    ok row

  abbrev pub quality : GenerationOutcome F → F
  quality row =
      div_int
        (add (add (add row.correctness row.faithfulness) row.citation_f1) row.abstention_accuracy)
        (pos 4)

  abbrev pub ranking_order : Preorder (GenerationOutcome F)
  ranking_order =
      by_key quality (descending order)
      then_by by_key (λ row. row.mean_latency_ms) order
      then_by by_key (λ row. row.total_cost_usd) ascending_int
      then_by by_key (λ row. row.config_hash) ascending_str

  abbrev pub value_order : Preorder (GenerationOutcome F)
  value_order =
      by_key (λ row. row.total_cost_usd) ascending_int
      then_by by_key quality (descending order)
      then_by by_key (λ row. row.config_hash) ascending_str

  abbrev pub is_competitive : GenerationOutcome F → GenerationOutcome F → Bool
  is_competitive leader row = order.le leader.quality_ci_low row.quality_ci_high

  abbrev pub same_float : F → F → Bool
  same_float a b = order.le a b && order.le b a

  -- The `__eq__` of the dataclass.
  unfoldable pub outcome_eq : GenerationOutcome F → GenerationOutcome F → Bool
  outcome_eq a b =
      str_eq a.config_hash b.config_hash
      && str_eq a.cohort_hash b.cohort_hash
      && eqb_ℤ a.question_count b.question_count
      && same_float a.correctness b.correctness
      && same_float a.faithfulness b.faithfulness
      && same_float a.citation_f1 b.citation_f1
      && same_float a.abstention_accuracy b.abstention_accuracy
      && same_float a.mean_latency_ms b.mean_latency_ms
      && eqb_ℤ a.total_cost_usd b.total_cost_usd
      && same_float a.quality_ci_low b.quality_ci_low
      && same_float a.quality_ci_high b.quality_ci_high
      && (if a.judge_calibrated then b.judge_calibrated else not b.judge_calibrated)

  -- `min` raises on an empty list.
  unfoldable pub best_value_of : List (GenerationOutcome F) → Result (GenerationOutcome F)
  unfolding least
  best_value_of [] = err (value_error "min() iterable argument is empty")
  best_value_of (row ∷ rows) = ok (least value_order row rows)

  unfoldable pub with_best :
      GenerationOutcome F
      → GenerationOutcome F
      → GenerationOutcome F
      → GenerationOutcome F
      → List (GenerationOutcome F)
  unfolding outcome_eq
  with_best leader second third best =
      if any (outcome_eq best) (leader ∷ second ∷ third ∷ [])
      then leader ∷ second ∷ third ∷ []
      else leader ∷ second ∷ best ∷ []

  -- From the ranked rows on; they are three at least.
  unfoldable pub pick_three : List (GenerationOutcome F) → Result (List (GenerationOutcome F))
  unfolding filter_rows best_value_of with_best
  pick_three [] = err key_error
  pick_three (leader ∷ []) = err key_error
  pick_three (leader ∷ second ∷ []) = err key_error
  pick_three (leader ∷ second ∷ third ∷ rest) = do
    best ← best_value_of (filter_rows (is_competitive leader) (leader ∷ second ∷ third ∷ rest))
    ok (with_best leader second third best)

  unfoldable pub select_generation_top_three :
      List (GenerationOutcome F) → Result (List (GenerationOutcome F))
  unfolding distinct to_set sorted pick_three
  select_generation_top_three outcomes = do
    raise_if (ltb (length outcomes) 3)
        (value_error "at least three generation outcomes are required")
    raise_if (not (distinct (map (λ outcome. outcome.config_hash) outcomes)))
        (value_error "duplicate generation outcomes are not allowed")
    raise_if
        (not (length (to_set (map (λ outcome. outcome.cohort_hash) outcomes)) == 1)
          || not (length (to_set (map (λ outcome. outcome.question_count) outcomes)) == 1))
        (value_error "generation outcomes must use the same cohort and question count")
    raise_if (not (all (λ outcome. outcome.judge_calibrated) outcomes))
        (value_error "generation selection requires calibrated judge status")
    pick_three (sorted ranking_order outcomes)
