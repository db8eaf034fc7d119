-- ===== src/Tests/TopThree.antt =====
-- src/ragbench/experiments/selection.py. Four outcomes, of which the fourth costs the least and is
-- competitive: it takes the third place.
use mathlib.Core.List.{Perm}
use ragbench_kr_implementati.Prelude.{
  ℕ, ◌≡◌, refl, true, some, String, List, [], ◌∷◌, map, AllPairs,
}
use ragbench_kr_implementati.Prelude.Int.{ℤ, pos, negsuc}
use ragbench_kr_implementati.Prelude.Float.{fixed_point}
use ragbench_kr_implementati.Prelude.Text.{str_leb}
use ragbench_kr_implementati.Prelude.Result.{Result, ok, err}
use ragbench_kr_implementati.Experiments.TopThree.{
  GenerationOutcome, ranking_order, select_generation_top_three, reconcile_provider_billing,
}
use ragbench_kr_implementati.Experiments.TopThree.BestValue.{
  IsTopThree, select_generation_top_three-IsTopThree,
}

abbrev or_default {ℓ} : {A : Type ℓ} → A → Result A → A
or_default a (ok b) = b
or_default a (err e) = a

abbrev outcome : String → ℕ → ℤ → GenerationOutcome ℕ
outcome config_hash rate cost = record {
  config_hash = config_hash;
  cohort_hash = "c";
  question_count = pos 60;
  correctness = rate;
  faithfulness = rate;
  citation_f1 = rate;
  abstention_accuracy = rate;
  mean_latency_ms = 1;
  total_cost_usd = cost;
  quality_ci_low = 4;
  quality_ci_high = rate;
  judge_calibrated = true;
}

abbrev outcomes : List (GenerationOutcome ℕ)
outcomes =
    outcome "d" 5 (pos 1)
    ∷ outcome "a" 9 (pos 7)
    ∷ outcome "c" 6 (pos 5)
    ∷ outcome "b" 8 (pos 6)
    ∷ []

abbrev selection : List (GenerationOutcome ℕ)
unfolding select_generation_top_three str_leb
selection = or_default [] (select_generation_top_three fixed_point outcomes)

selected : select_generation_top_three fixed_point outcomes ≡ ok selection
unfolding select_generation_top_three str_leb
selected = refl

cheap_third : map (λ row. row.config_hash) selection ≡ "a" ∷ "b" ∷ "d" ∷ []
unfolding selection
cheap_third = refl

select_generation_top_three-IsTopThree_example :
    (ranked : List (GenerationOutcome ℕ)) × Perm ranked outcomes
    × AllPairs (λ a b. (ranking_order fixed_point).le a b ≡ true) ranked
    × IsTopThree fixed_point outcomes ranked selection
select_generation_top_three-IsTopThree_example =
    select_generation_top_three-IsTopThree fixed_point outcomes selection selected

underbilled :
    reconcile_provider_billing (pos 5) (some (pos 3))
    ≡ ok (record {
      local_gross_usd = pos 5;
      provider_console_gross_usd = some (pos 3);
      delta_usd = some (negsuc 1);
      status = "reconciled";
    })
unfolding reconcile_provider_billing
underbilled = refl
