-- ===== src/Experiments/Runs/Plan/Budget.antt =====
-- What the gate before paid execution promises about the money that a run can spend.
use mathlib.Core.Path.{subst}
use native.Mathlib.Nat.{mul-le-mul_left, mul-le-mul_right}
use ragbench_kr_implementati.Prelude.{
  ◌||◌, ℕ, ◌+◌, ◌*◌, ◌≤◌, ◌≡◌, Bool, true, false, not, Option, none, some, String, List, [], ◌∷◌,
  length, all, arith, sym, ap, eq_iff, ltb,
}
use ragbench_kr_implementati.Prelude.Int.{ℤ, pos, ◌≤ℤ◌, ◌<ℤ◌, leb_ℤ}
use ragbench_kr_implementati.Prelude.Result.{
  arithmetic_error, ok, raise_if-eq-ok, >>=-eq-ok, ok-injective,
}
use ragbench_kr_implementati.Prelude.Assoc.{str_key, contains}
use ragbench_kr_implementati.Pricing.{
  PriceBook, estimate, verify_paid_batch, money, exceeds_context,
}
use ragbench_kr_implementati.Pricing.Ceiling.{estimate_mono, money_mono}
use ragbench_kr_implementati.Experiments.Runs.{ExperimentConfig}
use ragbench_kr_implementati.Experiments.Runs.Plan.{
  DryRunPlan, CallCounts, count_calls, generate_call, plan_of, build_dry_run_plan, is_confirmed,
  authorize_paid_execution,
}

-- A call that was made, with what it cost.
pub record PaidCall : Type 0 where
  pub input_tokens : ℤ
  pub output_tokens : ℤ
  pub cost : ℕ

abbrev pub total_cost : List PaidCall → ℕ
total_cost [] = 0
total_cost (call ∷ calls) = call.cost + total_cost calls

-- Calls within the worst case of a call, each at the price of the book.
abbrev pub AreWithin : ℤ → PriceBook → String → ℤ → ℤ → List PaidCall → Type 0
AreWithin now book model_id worst_input worst_output [] = Unit
AreWithin now book model_id worst_input worst_output (call ∷ calls) =
    (call.input_tokens ≤ℤ worst_input)
    × (call.output_tokens ≤ℤ worst_output)
    × (estimate now book (generate_call model_id call.input_tokens call.output_tokens)
        ≡ ok call.cost)
    × AreWithin now book model_id worst_input worst_output calls

-- How many calls the cache answers.
abbrev pub cached_count : Option (List String) → ℕ
cached_count none = 0
cached_count (some cached) = length cached

below_ℤ :
    {spent gross : ℕ} (budget : ℤ)
    → spent ≤ gross
    → leb_ℤ budget (pos gross) ≡ false
    → pos spent <ℤ budget
below_ℤ budget h k = ground arith

confirmed_eq :
    (confirmed : Option String) (plan_hash : String)
    → not (is_confirmed confirmed plan_hash) ≡ false
    → confirmed ≡ some plan_hash
confirmed_eq none plan_hash h = cc
confirmed_eq (some hash) plan_hash h = ap some ((eq_iff hash plan_hash).0 (ground arith))

total_cost_le :
    (now : ℤ) (book : PriceBook) (model_id : String) (worst_input worst_output : ℤ) (per_call : ℕ)
    (calls : List PaidCall)
    → estimate now book (generate_call model_id worst_input worst_output) ≡ ok per_call
    → AreWithin now book model_id worst_input worst_output calls
    → total_cost calls ≤ per_call * length calls
total_cost_le now book model_id worst_input worst_output per_call [] e h = omega arith
total_cost_le now book model_id worst_input worst_output per_call (call ∷ calls) e h =
    let rest = total_cost_le now book model_id worst_input worst_output per_call calls e h.3 in
    let this =
      estimate_mono now book (generate_call model_id call.input_tokens call.output_tokens)
        worst_input worst_output (pos 0) call.cost per_call h.0 h.1 (omega arith) h.2 e in
    omega arith

priced_le :
    (question_ids : List String) (cached : Option (List String)) (counts : CallCounts) (made : ℕ)
    → count_calls question_ids cached ≡ ok counts
    → made + cached_count cached ≤ length question_ids
    → made ≤ counts.priced_calls
unfolding count_calls
priced_le question_ids none counts made e h =
    rw (sym (ap (λ (c : CallCounts). c.priced_calls) (ok-injective e))) (omega (arith, h))
priced_le question_ids (some cached) counts made e h =
    let counted = (raise_if-eq-ok (not (all (λ id. contains id question_ids) cached)) _ _ e).1 in
    rw (sym (ap (λ (c : CallCounts). c.priced_calls) (ok-injective counted))) (omega arith)

module _ {F : Type 0} (semantic_hash : ExperimentConfig F → String)
    (hash_plan : DryRunPlan → String) (destination_of : String → String → String) (now : ℤ)
    (config : ExperimentConfig F) (book : PriceBook) (cached : Option (List String))
    (vat_multiplier : ℕ) (plan : DryRunPlan) where
  spend_le :
      (calls : List PaidCall)
      → build_dry_run_plan semantic_hash hash_plan destination_of now config book cached
          vat_multiplier
        ≡ ok plan
      → AreWithin now book config.generation.model_id config.generation.worst_case_input_tokens
          config.generation.max_output_tokens calls
      → length calls + cached_count cached ≤ length config.question_ids
      → (money (total_cost calls * vat_multiplier) ≤ plan.gross_worst_cost_usd)
        × (plan.experiment_budget_cap_usd ≡ config.runtime.budget_cap_usd)
  unfolding build_dry_run_plan plan_of
  spend_le calls built within few =
      let (_, counting) = raise_if-eq-ok (ltb vat_multiplier 1000000) _ _ built in
      let (counts, counted, pricing) =
        >>=-eq-ok (count_calls config.question_ids cached) _ counting in
      let (per_call, priced, checking) =
        >>=-eq-ok
          (estimate now book (
            generate_call config.generation.model_id config.generation.worst_case_input_tokens
              config.generation.max_output_tokens))
          _ pricing in
      let made =
        plan_of semantic_hash hash_plan destination_of config counts per_call vat_multiplier in
      let (_, planned_) =
        raise_if-eq-ok
          (exceeds_context made.net_worst_cost_usd || exceeds_context made.gross_worst_cost_usd)
          arithmetic_error (ok (record made { plan_hash = hash_plan made })) checking in
      let total = total_cost_le now book _ _ _ per_call calls priced within in
      let few_calls = priced_le config.question_ids cached counts (length calls) counted few in
      let net_le : total_cost calls ≤ per_call * counts.priced_calls =
        omega (arith, total, mul-le-mul_left per_call few_calls) in
      let gross = ap (λ (p : DryRunPlan). p.gross_worst_cost_usd) (ok-injective planned_) in
      (
        subst (λ c. money (total_cost calls * vat_multiplier) ≤ c) gross
            (money_mono _ _ (mul-le-mul_right vat_multiplier net_le)),
        sym (ap (λ (p : DryRunPlan). p.experiment_budget_cap_usd) (ok-injective planned_)),
      )

  -- A plan built from a config and authorized, and calls of the config's model, at most as many as questions
  -- that the cache does not answer, each with token counts within the config's worst case and priced by the same
  -- book at the time of the plan: their cost with VAT, rounded up, is below the available budget and below the
  -- budget cap of the config, execution and the live gate are on, and the confirmed hash is that of the plan.
  pub authorized_spend :
      (calls : List PaidCall) (execute live_enabled : Bool) (confirmed : Option String)
      (later_book : PriceBook) (available later : ℤ)
      → build_dry_run_plan semantic_hash hash_plan destination_of now config book cached
          vat_multiplier
        ≡ ok plan
      → authorize_paid_execution plan execute live_enabled confirmed later_book available later
        ≡ ok true
      → AreWithin now book config.generation.model_id config.generation.worst_case_input_tokens
          config.generation.max_output_tokens calls
      → length calls + cached_count cached ≤ length config.question_ids
      → (pos (money (total_cost calls * vat_multiplier)) <ℤ available)
        × (pos (money (total_cost calls * vat_multiplier)) <ℤ config.runtime.budget_cap_usd)
        × (execute ≡ true)
        × (live_enabled ≡ true)
        × (confirmed ≡ some plan.plan_hash)
  unfolding authorize_paid_execution
  authorized_spend calls execute live_enabled confirmed later_book available later built allowed
        within few =
      let (spend, cap) = spend_le calls built within few in
      let (executes, allowed1) = raise_if-eq-ok (not execute) _ _ allowed in
      let (live, allowed2) = raise_if-eq-ok (not live_enabled) _ _ allowed1 in
      let (same, allowed3) =
        raise_if-eq-ok (not (is_confirmed confirmed plan.plan_hash)) _ _ allowed2 in
      let (verified, _, allowed4) = >>=-eq-ok (verify_paid_batch later later_book) _ allowed3 in
      let (below, allowed5) =
        raise_if-eq-ok (leb_ℤ available (pos plan.gross_worst_cost_usd)) _ _ allowed4 in
      let (capped, _) =
        raise_if-eq-ok (leb_ℤ plan.experiment_budget_cap_usd (pos plan.gross_worst_cost_usd)) _ _
          allowed5 in
      (
        below_ℤ available spend below,
        subst (λ budget. pos (money (total_cost calls * vat_multiplier)) <ℤ budget) cap
            (below_ℤ plan.experiment_budget_cap_usd spend capped),
        ground arith,
        ground arith,
        confirmed_eq confirmed plan.plan_hash same,
      )
