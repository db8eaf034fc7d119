-- ===== src/Tests/Plan.antt =====
-- src/ragbench/experiments/runner.py, the dry run of two questions, one of them cached, and its gate.
use ragbench_kr_implementati.Prelude.{◌≡◌, ◌*◌, refl, true, Option, some, [], ◌∷◌, arith, String}
use ragbench_kr_implementati.Prelude.Int.{pos, ◌<ℤ◌, ◌*ℤ◌}
use ragbench_kr_implementati.Prelude.Result.{ok, err, value_error, permission_error}
use ragbench_kr_implementati.Pricing.{PriceBook, given, money, estimate}
use ragbench_kr_implementati.Tests.Pricing.{book}
use ragbench_kr_implementati.Tests.Runs.{config, commit_of}
use ragbench_kr_implementati.Experiments.Runs.Plan.{
  DryRunPlan, generate_call, build_dry_run_plan, authorize_paid_execution,
}
use ragbench_kr_implementati.Experiments.Runs.Plan.Budget.{PaidCall, total_cost, authorized_spend}

abbrev plan_hash : DryRunPlan → String
plan_hash plan = "hash"

abbrev destination : String → String → String
destination output_dir hash = hash

abbrev priced : PriceBook
priced = book (given 100000)

-- 1000 * 0.15 + 100 * 0.60 dollars for a million, and 10 % of that.
abbrev plan : DryRunPlan
plan = record {
  config_hash = "0123456";
  plan_hash = "hash";
  question_count = 2;
  cached_calls = some 1;
  new_calls = some 1;
  cache_status = "known";
  worst_case_input_tokens = pos 2000;
  worst_case_output_tokens = pos 200;
  worst_case_tokens = pos 2200;
  net_worst_cost_usd = 210;
  vat_multiplier = 1100000;
  gross_worst_cost_usd = 231;
  experiment_budget_cap_usd = pos 1000000;
  concurrency = pos 5;
  model_alias = "solar";
  model_id = "solar";
  prompt_version = "v1";
  destinations = "0123456" ∷ [];
}

built :
    build_dry_run_plan commit_of plan_hash destination
      (pos 0)
      config
      priced
      (some ("q2" ∷ []))
      1100000
    ≡ ok plan
unfolding build_dry_run_plan ◌*ℤ◌
built = refl

outside_cohort :
    build_dry_run_plan commit_of plan_hash destination
      (pos 0)
      config
      priced
      (some ("q3" ∷ []))
      1100000
    ≡ err (value_error "cache probe returned IDs outside the question cohort")
unfolding build_dry_run_plan
outside_cohort = refl

authorized :
    authorize_paid_execution plan true true (some "hash") priced (pos 232) (pos 0) ≡ ok true
unfolding authorize_paid_execution
authorized = refl

at_budget :
    authorize_paid_execution plan true true (some "hash") priced (pos 231) (pos 0)
    ≡ err (permission_error "worst-case cost reaches available budget")
unfolding authorize_paid_execution
at_budget = refl

abbrev call : PaidCall
call = record { input_tokens = pos 900; output_tokens = pos 50; cost = 165 }

call_price : estimate (pos 0) priced (generate_call "solar" (pos 900) (pos 50)) ≡ ok 165
unfolding estimate
call_price = refl

authorized_spend_example :
    (pos (money (total_cost (call ∷ []) * 1100000)) <ℤ pos 232)
    × (pos (money (total_cost (call ∷ []) * 1100000)) <ℤ pos 1000000)
    × (true ≡ true)
    × (true ≡ true)
    × (◌≡◌ {A = Option String} (some "hash") (some "hash"))
authorized_spend_example =
    authorized_spend commit_of plan_hash destination (pos 0) config priced (some ("q2" ∷ []))
      1100000 plan (call ∷ []) true true (some "hash") priced (pos 232) (pos 0) built authorized
      (omega arith, omega arith, call_price, tt) (omega arith)
