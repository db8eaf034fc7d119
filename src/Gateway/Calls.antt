-- ===== src/Gateway/Calls.antt =====
-- src/ragbench/providers/upstage/client.py, `UpstageGateway.generate`: the cache, the reservation, the request and
-- its settlement. `meanwhile` is what other tasks do to the shared state at each of its awaits, by number.
pub mod Metering
pub mod Closing
pub mod Shut
pub mod Generation
use Prim.Native.String.{◌++◌}
use ragbench_kr_implementati.Prelude.{
  ℕ, zero, suc, ◌+◌, ◌*◌, ◌/◌, ◌%◌, Bool, true, false, not, ◌&&◌, ◌||◌, Option, none, some, String,
  List, [], ◌∷◌, if◌then◌else◌, str_eq, ltb, ◌==◌, any,
}
use ragbench_kr_implementati.Prelude.Int.{ℤ, pos, pos_part, leb_ℤ}
use ragbench_kr_implementati.Prelude.Decimal.{show}
use ragbench_kr_implementati.Prelude.Float.{Float}
use ragbench_kr_implementati.Prelude.Result.{
  Error, Result, ok, err, raise_if, value_error, type_error, unicode_error, ◌>>=◌, ◌>>◌,
}
use ragbench_kr_implementati.Prelude.Assoc.{str_key, contains}
use ragbench_kr_implementati.Pricing.{PriceBook, PricingRequest, estimate, quantized}
use ragbench_kr_implementati.Money.Records.{Uuid, Usage, Reservation}
use ragbench_kr_implementati.Money.{
  Repository, Method, guard_reserve, settle, release, record_cache_hit,
}
use ragbench_kr_implementati.Rag.Service.{
  Json, null, boolean, integer, floating, text, array, object, Values, no_values, value, Fields,
  no_fields, field, get,
}
use ragbench_kr_implementati.Gateway.{
  CachedResponse, Entries, store_get, store_put, Response, Reply, request,
}

pub record GenerateRequest : Type 0 where
  pub model_id : String
  pub prompt : String
  pub context : List String
  pub provider_params : Fields
  pub input_tokens : ℤ
  pub max_output_tokens : Option ℤ

pub record GenerateResponse : Type 0 where
  pub content : String
  pub raw_response : Fields
  pub correlation_id : Option Uuid
  pub cache_hit : Option Bool

pub record CacheKeyParts : Type 0 where
  pub operation : String
  pub model_id : String
  pub provider_params : Fields
  pub prompt_hash : Option String
  pub context_hash : Option String
  pub document_sha256 : Option String
  pub schema_version : String

-- The shared state: the budget and the cache.
pub record State : Type 0 where
  pub money : Repository
  pub entries : Entries

-- `fields[key] = item`, in the order of a dict.
unfoldable pub set_field : String → Json → Fields → Fields
set_field key item no_fields = field key item no_fields
set_field key item (field name old fields) =
    let rest = set_field key item fields in
    if str_eq name key then field name item fields else field name old rest

-- `{**fields, **more}`
unfoldable pub merge : Fields → Fields → Fields
unfolding set_field
merge fields no_fields = fields
merge fields (field key item more) = merge (set_field key item fields) more

abbrev pub keys : Fields → List String
keys no_fields = []
keys (field key item fields) = key ∷ keys fields

-- `_reject_reserved_params`
unfoldable pub reject_reserved_params : Fields → List String → Result (Unit {0})
unfolding contains
reject_reserved_params params reserved =
    raise_if (any (λ key. contains key reserved) (keys params))
      (value_error "reserved provider parameter cannot be overridden")

-- The quotient is rounded half to even.
half_even : ℕ → ℕ → ℕ
half_even multiplier net =
    let quotient = net * multiplier / 1000000 in
    let rest = net * multiplier % 1000000 in
    if ltb rest 500000
    then quotient
    else if ltb 500000 rest
    then quotient + 1
    else if quotient % 2 == 0
    then quotient
    else quotient + 1

-- `_gross`: the multiplier has six places.
unfoldable pub gross : ℕ → ℕ → Result ℕ
unfolding half_even
gross multiplier net = quantized (half_even multiplier net)

abbrev pub is_absent : Option ℤ → Bool
is_absent none = true
is_absent (some _) = false

abbrev pub or_zero : Option ℤ → ℤ
or_zero none = pos 0
or_zero (some n) = n

abbrev pub or_null : Option ℤ → Json
or_null none = null
or_null (some n) = integer n

abbrev pub texts : List String → Values
texts [] = no_values
texts (s ∷ ss) = value (text s) (texts ss)

-- `"\n\n".join((*context, prompt))`
abbrev pub join_lines : List String → String → String
join_lines [] prompt = prompt
join_lines (part ∷ context) prompt = part ++ "\n\n" ++ join_lines context prompt

-- `raw.get(key, default)` of a dict.
abbrev pub get_or : Option Json → Json → Json
get_or none default = default
get_or (some item) default = item

abbrev pub as_object : Json → Fields
as_object (object fields) = fields
as_object _ = no_fields

-- `_decode_json`
unfoldable pub decode_json : Option Json → Result Fields
decode_json none = err (value_error "JSON decode error")
decode_json (some (object fields)) = ok fields
decode_json (some _) = err (value_error "provider JSON response must be an object")

-- `_generation_response`
abbrev pub content_of : Option Json → Result String
content_of (some (text content)) = ok content
content_of _ = err (value_error "provider response message is missing content")

abbrev pub message_of : Option Json → Result String
unfolding get
message_of (some (object message)) = content_of (get "content" message)
message_of _ = err (value_error "provider response is missing a message")

abbrev pub first_choice : Json → Result String
unfolding get
first_choice (object first) = message_of (get "message" first)
first_choice _ = err (value_error "provider response is missing a message")

abbrev pub choices_of : Option Json → Result String
choices_of (some (array (value first others))) = first_choice first
choices_of _ = err (value_error "provider response is missing choices")

unfoldable pub generation_response : Fields → Result GenerateResponse
unfolding get
generation_response raw = do
  content ← choices_of (get "choices" raw)
  ok (record { content = content; raw_response = raw; correlation_id = none; cache_hit = none })

-- `except (TypeError, ValueError)`
abbrev pub is_caught : Error → Bool
is_caught (value_error _) = true
is_caught (type_error _) = true
is_caught unicode_error = true
is_caught _ = false

-- Python's `int` of a float's and of a text's numeral.
pub record Numerals : Type 0 where
  pub int_floating : String → Result ℤ
  pub int_text : String → Result ℤ

unfoldable pub int_of : Numerals → Json → Result ℤ
int_of numerals (integer n) = ok n
int_of numerals (boolean true) = ok (pos 1)
int_of numerals (boolean false) = ok (pos 0)
int_of numerals (floating s) = numerals.int_floating s
int_of numerals (text s) = numerals.int_text s
int_of numerals _ = err (type_error "int() argument must be a string or a real number")

-- What a gateway is made with.
pub record UpstageGateway (F : Type 0) : Type 0 where
  pub price_book : PriceBook
  pub hard_limit : ℤ
  pub billing_cost_multiplier : ℕ
  pub max_retries : ℕ
  pub max_backoff_seconds : F

-- A projected or estimated amount, as the budget counts it.
abbrev pub usage : ℤ → ℤ → ℤ → ℕ → Usage
usage input_tokens output_tokens billable_pages cost = record {
  input_tokens = input_tokens;
  output_tokens = output_tokens;
  billable_pages = billable_pages;
  estimated_cost_usd = pos cost;
}

-- A method of the budget on the shared state.
abbrev pub budget : {A : Type 0} → Method A → State → Result A × State
budget method s = let (outcome, money) = method s.money in (outcome, record s { money = money })

-- What the settlement of a response goes by: the result with what is cached, or the error that is raised; and
-- the usage that is settled when it is raised.
pub record Reading : Type 0 where
  pub outcome : Result ((GenerateResponse × Fields) × Usage)
  pub spent : Result Usage

module _ (canonical_json_hash : Json → String) (numerals : Numerals) {F : Type 0}
    (gateway : UpstageGateway F) (now : ℤ) where
  -- `_gross` of an estimate for generation.
  unfoldable pub gross_price : String → ℤ → ℤ → Result ℕ
  unfolding estimate gross
  gross_price model_id input_tokens output_tokens = do
    net ← estimate now gateway.price_book (record {
      operation = "generate";
      model_id = model_id;
      input_tokens = input_tokens;
      output_tokens = output_tokens;
      billable_pages = pos 0;
      mode = "standard";
      requested_at = none;
    })
    gross gateway.billing_cost_multiplier net

  -- `_generation_usage`
  unfoldable pub generation_usage : GenerateRequest → Fields → Result Usage
  unfolding get int_of gross_price
  generation_usage request raw = do
    let raw_usage = as_object (get_or (get "usage" raw) (object no_fields))
    input_tokens ←
        int_of numerals (get_or (get "prompt_tokens" raw_usage) (integer request.input_tokens))
    output_tokens ←
        int_of numerals
          (get_or (get "completion_tokens" raw_usage) (integer (or_zero request.max_output_tokens)))
    cost ← gross_price request.model_id input_tokens output_tokens
    ok (usage input_tokens output_tokens (pos 0) cost)

  -- `_safe_generation_usage`
  abbrev pub or_fallback : Usage → Result Usage → Result Usage
  or_fallback fallback (ok found) = ok found
  or_fallback fallback (err raised) = if is_caught raised then ok fallback else err raised

  abbrev pub safe_generation_usage : GenerateRequest → Result Fields → Usage → Result Usage
  unfolding generation_usage
  safe_generation_usage request (err _) fallback = ok fallback
  safe_generation_usage request (ok raw) fallback =
      or_fallback fallback (generation_usage request raw)

  -- The two `try` bodies on a response.
  unfoldable pub reading_of : GenerateRequest → Usage → Response → Reading
  unfolding decode_json generation_response generation_usage safe_generation_usage
  reading_of request projected_usage response = record {
    outcome = do
      raw ← decode_json response.json
      result ← generation_response raw
      used ← generation_usage request raw
      ok ((result, raw), used);
    spent = safe_generation_usage request (decode_json response.json) projected_usage;
  }

  -- `cache_key_for_generate`, before the digest.
  unfoldable pub key_parts : GenerateRequest → CacheKeyParts
  unfolding set_field
  key_parts request = record {
    operation = "generate";
    model_id = request.model_id;
    provider_params =
        set_field "max_output_tokens" (or_null request.max_output_tokens) request.provider_params;
    prompt_hash = some (canonical_json_hash (text request.prompt));
    context_hash = some (canonical_json_hash (array (texts request.context)));
    document_sha256 = none;
    schema_version = "provider-cache-v2";
  }

  unfoldable pub payload_of : GenerateRequest → Fields
  unfolding merge
  payload_of request =
      merge
        (field "model" (text request.model_id) (
          field "messages"
            (array (
              value
                (object (
                  field "role" (text "user")
                    (field "content" (text (join_lines request.context request.prompt)) no_fields)))
                no_values))
            (field "max_tokens" (integer (or_zero request.max_output_tokens)) no_fields)))
        request.provider_params

  -- The checks of `generate`.
  unfoldable pub check_request : GenerateRequest → Result (Unit {0})
  unfolding reject_reserved_params
  check_request request = do
    raise_if (is_absent request.max_output_tokens)
        (value_error "max_output_tokens is required to calculate an upper bound")
    raise_if (leb_ℤ (or_zero request.max_output_tokens) (pos 0))
        (value_error "max_output_tokens must be positive")
    raise_if (leb_ℤ request.input_tokens (pos 0))
        (value_error "input_tokens must be a positive conservative upper bound")
    reject_reserved_params request.provider_params ("model" ∷ "messages" ∷ "max_tokens" ∷ [])
