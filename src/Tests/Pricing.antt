-- ===== src/Tests/Pricing.antt =====
-- src/ragbench/providers/upstage/pricing.py. A book of one model, with an embedding promotion that ends.
use ragbench_kr_implementati.Prelude.{List, Option, ◌^◌, ℕ, ◌≡◌, refl, none, some, String, [], ◌∷◌}
use ragbench_kr_implementati.Prelude.Int.{◌≤ℤ◌, pos}
use ragbench_kr_implementati.Prelude.Result.{arithmetic_error, ok, err, value_error}
use ragbench_kr_implementati.Prelude.Assoc.{str_key, lookup}
use ragbench_kr_implementati.Pricing.{
  PricingRequest, Field, given, null, Model, PriceBook, estimate, verify_paid_batch,
}
use ragbench_kr_implementati.Pricing.Ceiling.{recount}
use ragbench_kr_implementati.Pricing.Estimates.{IsPrice, estimate-IsPrice}

abbrev model : Field ℕ → Model
model paid_rate = record {
  modes = some (("standard", some (given 10000)) ∷ []);
  generation =
      some (record { input_usd_per_million = given 150000; output_usd_per_million = given 600000 });
  embedding = given (record {
    promotion =
        some (record { ends_at_exclusive = given (pos 50); input_usd_per_million = given 0 });
    input_usd_per_million = paid_rate;
  });
}

abbrev pub book : Field ℕ → PriceBook
book paid_rate = record {
  verified_at = pos 0;
  models = some (("solar", some (model paid_rate)) ∷ []);
}

abbrev request : String → PricingRequest
request operation = record {
  operation = operation;
  model_id = "solar";
  input_tokens = pos 10;
  output_tokens = pos 1;
  billable_pages = pos 3;
  mode = "standard";
  requested_at = none;
}

-- 10 * 0.15 + 1 * 0.60 dollars for a million: 2.1 millionths, rounded up.
generated : estimate (pos 60) (book (given 100000)) (request "generate") ≡ ok 3
unfolding estimate
generated = refl

generated_more :
    estimate (pos 60) (book (given 100000)) (recount (request "generate") (pos 20) (pos 1) (pos 3))
    ≡ ok 4
unfolding estimate
generated_more = refl

parsed : estimate (pos 60) (book (given 100000)) (request "parse") ≡ ok 30000
unfolding estimate
parsed = refl

promoted : estimate (pos 49) (book (given 100000)) (request "embed") ≡ ok 0
unfolding estimate
promoted = refl

paid : estimate (pos 50) (book (given 100000)) (request "embed") ≡ ok 1
unfolding estimate
paid = refl

ambiguous :
    verify_paid_batch (pos 60) (book null)
    ≡ err (value_error "embedding promotion status is ambiguous")
unfolding verify_paid_batch
ambiguous = refl

stale :
    verify_paid_batch (pos 86400000001) (book (given 100000))
    ≡ err (value_error "price snapshot is older than 24 hours")
unfolding verify_paid_batch
stale = refl

-- A price of more than 28 digits.
too_large :
    estimate
      (pos 60)
      (book (given 100000))
      (recount (request "generate") (pos (10 ^ 30)) (pos 1) (pos 3))
    ≡ err arithmetic_error
unfolding estimate
too_large = refl

estimate-IsPrice_example :
    (pos 0 ≤ℤ (request "generate").input_tokens)
    × (pos 0 ≤ℤ (request "generate").output_tokens)
    × (pos 0 ≤ℤ (request "generate").billable_pages)
    × (raw : List (String × Option Model)) × (priced : Model) × ((book (given 100000)).models
        ≡ some raw)
    × (lookup (request "generate").model_id raw ≡ some (some priced))
    × IsPrice (pos 60) priced (request "generate") 3
estimate-IsPrice_example =
    estimate-IsPrice (pos 60) (book (given 100000)) (request "generate") 3 generated
