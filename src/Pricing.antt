-- ===== src/Pricing.antt =====
-- src/ragbench/providers/upstage/pricing.py. A rate is a decimal with at most six places, counted in
-- its last place; an amount below its 28-digit context is exact, and the rounding of longer intermediate
-- amounts is left out; a time is a number of microseconds. The YAML mapping is read into records, where a
-- key can be absent or null.
pub mod Ceiling
pub mod Readings
pub mod Estimates
use ragbench_kr_implementati.Prelude.{
  ℕ, suc, ◌+◌, ◌-◌, ◌*◌, ◌/◌, Bool, true, false, not, ◌||◌, ltb, Option, none, some, String, List,
  [], ◌∷◌, if◌then◌else◌, str_eq,
}
use ragbench_kr_implementati.Prelude.Int.{ℤ, pos, pos_part, ltb_ℤ, ◌-ℤ◌}
use ragbench_kr_implementati.Prelude.Result.{
  Error, Result, ok, err, raise_if, value_error, runtime_error, key_error, arithmetic_error, ◌>>=◌,
  ◌>>◌,
}
use ragbench_kr_implementati.Prelude.Assoc.{str_key, lookup}

pub record PricingRequest : Type 0 where
  pub operation : String
  pub model_id : String
  pub input_tokens : ℤ
  pub output_tokens : ℤ
  pub billable_pages : ℤ
  pub mode : String
  pub requested_at : Option ℤ

-- The value of a key.
pub data Field (A : Type 0) : Type 0 where
  absent null : Field A
  given : A → Field A

pub record Promotion : Type 0 where
  pub ends_at_exclusive : Field ℤ
  pub input_usd_per_million : Field ℕ

pub record Embedding : Type 0 where
  pub promotion : Option Promotion
  pub input_usd_per_million : Field ℕ

pub record Generation : Type 0 where
  pub input_usd_per_million : Field ℕ
  pub output_usd_per_million : Field ℕ

pub record Model : Type 0 where
  pub modes : Option (List (String × Option (Field ℕ)))
  pub generation : Option Generation
  pub embedding : Field Embedding

pub record PriceBook : Type 0 where
  pub verified_at : ℤ
  pub models : Option (List (String × Option Model))

-- `_mapping`
abbrev pub mapping {ℓ} : {A : Type ℓ} → Option A → Result A
mapping none = err (value_error "price snapshot field must be a mapping")
mapping (some item) = ok item

abbrev pub field_mapping : {A : Type 0} → Field A → Result A
field_mapping (given item) = ok item
field_mapping absent = err (value_error "price snapshot field must be a mapping")
field_mapping null = err (value_error "price snapshot field must be a mapping")

abbrev pub found {ℓ} : {A : Type ℓ} → Error → Option A → Result A
found error none = err error
found error (some item) = ok item

-- `_decimal(rates[key])` and `_parse_utc(str(promotion[key]))`
abbrev pub decimal : Field ℕ → Result ℕ
decimal absent = err key_error
decimal null = err arithmetic_error
decimal (given rate) = ok rate

abbrev pub parse_utc : Field ℤ → Result ℤ
parse_utc absent = err key_error
parse_utc null = err (value_error "Invalid isoformat string")
parse_utc (given time) = ok time

-- `_models`
unfoldable pub all_models : List (String × Option Model) → Result (List (String × Model))
all_models [] = ok []
all_models ((key, item) ∷ raw) = do
  model ← mapping item
  models ← all_models raw
  ok ((key, model) ∷ models)

unfoldable pub models_of : PriceBook → Result (List (String × Model))
unfolding all_models
models_of book = do raw ← mapping book.models; all_models raw

-- `_money` of a decimal with twelve places: to six places, rounded up.
unfoldable pub money : ℕ → ℕ
money amount = (amount + 999999) / 1000000

-- `quantize` raises InvalidOperation for a result of more than 28 digits.
abbrev pub exceeds_context : ℕ → Bool
exceeds_context amount = not (ltb amount 10000000000000000000000000000)

abbrev pub quantized : ℕ → Result ℕ
quantized amount = do raise_if (exceeds_context amount) arithmetic_error; ok amount

unfoldable pub parse_price : Model → PricingRequest → Result ℕ
unfolding lookup
parse_price model request = do
  modes ← mapping model.modes
  rates ← found (value_error "price snapshot field must be a mapping") (lookup request.mode modes)
  usd_per_page ← mapping rates
  rate ← decimal usd_per_page
  quantized (rate * pos_part request.billable_pages)

unfoldable pub generate_price : Model → PricingRequest → Result ℕ
unfolding money
generate_price model request = do
  rates ← mapping model.generation
  input ← decimal rates.input_usd_per_million
  output ← decimal rates.output_usd_per_million
  quantized
      (money (input * pos_part request.input_tokens + output * pos_part request.output_tokens))

abbrev pub or_now : ℤ → Option ℤ → ℤ
or_now now none = now
or_now now (some time) = time

unfoldable pub embed_price : ℤ → Model → PricingRequest → Result ℕ
unfolding money
embed_price now model request = do
  rates ← field_mapping model.embedding
  promotion ← mapping rates.promotion
  ends ← parse_utc promotion.ends_at_exclusive
  rate ←
      if ltb_ℤ (or_now now request.requested_at) ends
      then decimal promotion.input_usd_per_million
      else decimal rates.input_usd_per_million
  quantized (money (rate * pos_part request.input_tokens))

unfoldable pub price : ℤ → Model → PricingRequest → Result ℕ
unfolding parse_price generate_price embed_price
price now model request =
    if str_eq request.operation "parse"
    then parse_price model request
    else if str_eq request.operation "generate"
    then generate_price model request
    else if str_eq request.operation "embed"
    then embed_price now model request
    else err (value_error "unsupported priced operation")

-- `PriceBook.estimate`, in millionths of a dollar.
unfoldable pub estimate : ℤ → PriceBook → PricingRequest → Result ℕ
unfolding models_of lookup price
estimate now book request = do
  raise_if
      (ltb_ℤ request.input_tokens (pos 0)
        || ltb_ℤ request.output_tokens (pos 0)
        || ltb_ℤ request.billable_pages (pos 0))
      (value_error "usage counts cannot be negative")
  models ← models_of book
  model ← found (value_error "unknown priced model") (lookup request.model_id models)
  price now model request

abbrev pub is_none : {A : Type 0} → Field A → Bool
is_none (given item) = false
is_none null = true
is_none absent = true

-- One round of the loop over the models; `"embedding" not in model` is the absent key.
unfoldable pub check_promotion : Field Embedding → Result (Unit {0})
check_promotion absent = ok tt
check_promotion null = err (value_error "price snapshot field must be a mapping")
check_promotion (given rates) = do
  promotion ← mapping rates.promotion
  raise_if
      (is_none promotion.ends_at_exclusive
        || is_none promotion.input_usd_per_million
        || is_none rates.input_usd_per_million)
      (value_error "embedding promotion status is ambiguous")
  ok tt

unfoldable pub check_promotions : List (String × Model) → Result (Unit {0})
unfolding check_promotion
check_promotions [] = ok tt
check_promotions ((key, model) ∷ models) = do
  check_promotion model.embedding
  check_promotions models

-- `PriceBook.verify_paid_batch`; a day has 86400000000 microseconds.
unfoldable pub verify_paid_batch : ℤ → PriceBook → Result PriceBook
unfolding models_of check_promotions ◌-ℤ◌
verify_paid_batch now book = do
  raise_if (ltb_ℤ (pos 86400000000) (now -ℤ book.verified_at))
      (value_error "price snapshot is older than 24 hours")
  models ← models_of book
  check_promotions models
  ok book
