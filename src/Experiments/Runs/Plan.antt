-- ===== src/Experiments/Runs/Plan.antt =====
-- src/ragbench/experiments/runner.py, the dry run and the gate before paid execution. Money is counted in
-- millionths of a dollar, the VAT multiplier in millionths. The hash of a plan and the path of its
-- destination are parameters.
pub mod Budget
use ragbench_kr_implementati.Prelude.{
  ℕ, ◌+◌, ◌*◌, ◌-◌, Bool, true, false, not, ◌||◌, Option, none, some, String, List, [], ◌∷◌, length,
  all, str_eq, ltb,
}
use ragbench_kr_implementati.Prelude.Int.{ℤ, pos, pos_part, leb_ℤ, ◌*ℤ◌}
use ragbench_kr_implementati.Prelude.Result.{
  arithmetic_error, Result, ok, err, raise_if, value_error, permission_error, ◌>>=◌, ◌>>◌,
}
use ragbench_kr_implementati.Prelude.Assoc.{str_key, contains}
use ragbench_kr_implementati.Pricing.{
  PricingRequest, PriceBook, estimate, verify_paid_batch, money, exceeds_context,
}
use ragbench_kr_implementati.Experiments.Runs.{ExperimentConfig}

pub record DryRunPlan : Type 0 where
  pub config_hash : String
  pub plan_hash : String
  pub question_count : ℕ
  pub cached_calls : Option ℕ
  pub new_calls : Option ℕ
  pub cache_status : String
  pub worst_case_input_tokens : ℤ
  pub worst_case_output_tokens : ℤ
  pub worst_case_tokens : ℤ
  pub net_worst_cost_usd : ℕ
  pub vat_multiplier : ℕ
  pub gross_worst_cost_usd : ℕ
  pub experiment_budget_cap_usd : ℤ
  pub concurrency : ℤ
  pub model_alias : String
  pub model_id : String
  pub prompt_version : String
  pub destinations : List String

-- The calls that the cache has, the new ones, and those to be priced.
pub record CallCounts : Type 0 where
  pub cached_calls : Option ℕ
  pub new_calls : Option ℕ
  pub priced_calls : ℕ
  pub cache_status : String

-- `cached_question_ids` is a set.
unfoldable pub count_calls : List String → Option (List String) → Result CallCounts
unfolding contains
count_calls question_ids none = ok (record {
  cached_calls = none;
  new_calls = none;
  priced_calls = length question_ids;
  cache_status = "unknown";
})
count_calls question_ids (some cached) = do
  raise_if (not (all (λ id. contains id question_ids) cached))
      (value_error "cache probe returned IDs outside the question cohort")
  let new_calls = length question_ids - length cached
  ok (record {
    cached_calls = some (length cached);
    new_calls = some new_calls;
    priced_calls = new_calls;
    cache_status = "known";
  })

-- A priced call of the model that generates.
abbrev pub generate_call : String → ℤ → ℤ → PricingRequest
generate_call model_id input_tokens output_tokens = record {
  operation = "generate";
  model_id = model_id;
  input_tokens = input_tokens;
  output_tokens = output_tokens;
  billable_pages = pos 0;
  mode = "standard";
  requested_at = none;
}

module _ {F : Type 0} (semantic_hash : ExperimentConfig F → String)
    (hash_plan : DryRunPlan → String) (destination_of : String → String → String) where
  -- The plan whose fields but `plan_hash` are hashed.
  unfoldable pub plan_of : ExperimentConfig F → CallCounts → ℕ → ℕ → DryRunPlan
  unfolding money ◌*ℤ◌
  plan_of config counts per_call vat_multiplier =
      let questions = length config.question_ids in
      let net = per_call * counts.priced_calls in
      let worst_input = pos questions *ℤ config.generation.worst_case_input_tokens in
      let worst_output = pos questions *ℤ config.generation.max_output_tokens in
      record {
        config_hash = semantic_hash config;
        plan_hash = "";
        question_count = questions;
        cached_calls = counts.cached_calls;
        new_calls = counts.new_calls;
        cache_status = counts.cache_status;
        worst_case_input_tokens = worst_input;
        worst_case_output_tokens = worst_output;
        worst_case_tokens = pos (pos_part worst_input + pos_part worst_output);
        net_worst_cost_usd = net;
        vat_multiplier = vat_multiplier;
        gross_worst_cost_usd = money (net * vat_multiplier);
        experiment_budget_cap_usd = config.runtime.budget_cap_usd;
        concurrency = config.runtime.concurrency;
        model_alias = config.generation.model_alias;
        model_id = config.generation.model_id;
        prompt_version = config.generation.prompt_version;
        destinations = destination_of config.output_dir (semantic_hash config) ∷ [];
      }

  unfoldable pub build_dry_run_plan :
      ℤ → ExperimentConfig F → PriceBook → Option (List String) → ℕ → Result DryRunPlan
  unfolding count_calls plan_of estimate
  build_dry_run_plan now config price_book cached_question_ids vat_multiplier = do
    raise_if (ltb vat_multiplier 1000000) (value_error "VAT multiplier must be at least one")
    counts ← count_calls config.question_ids cached_question_ids
    per_call ← estimate now price_book (
        generate_call config.generation.model_id config.generation.worst_case_input_tokens
          config.generation.max_output_tokens)
    let plan = plan_of config counts per_call vat_multiplier
    raise_if (exceeds_context plan.net_worst_cost_usd || exceeds_context plan.gross_worst_cost_usd)
        arithmetic_error
    ok (record plan { plan_hash = hash_plan plan })

-- `confirmed_plan_hash != plan.plan_hash`
abbrev pub is_confirmed : Option String → String → Bool
is_confirmed none plan_hash = false
is_confirmed (some confirmed) plan_hash = str_eq confirmed plan_hash

unfoldable pub authorize_paid_execution :
    DryRunPlan → Bool → Bool → Option String → PriceBook → ℤ → ℤ → Result Bool
unfolding verify_paid_batch
authorize_paid_execution plan execute live_enabled confirmed_plan_hash price_book
      available_budget_usd now =
    do
      raise_if (not execute) (permission_error "--execute is required")
      raise_if (not live_enabled)
          (permission_error "live gate RUN_LIVE_UPSTAGE_TESTS=1 is required")
      raise_if (not (is_confirmed confirmed_plan_hash plan.plan_hash))
          (permission_error "exact plan hash confirmation is required")
      verified ← verify_paid_batch now price_book
      raise_if (leb_ℤ available_budget_usd (pos plan.gross_worst_cost_usd))
          (permission_error "worst-case cost reaches available budget")
      raise_if (leb_ℤ plan.experiment_budget_cap_usd (pos plan.gross_worst_cost_usd))
          (permission_error "worst-case cost reaches experiment budget cap")
      ok true
