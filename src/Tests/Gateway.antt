-- ===== src/Tests/Gateway.antt =====
-- src/ragbench/providers/upstage/client.py. A provider that is overloaded once and then answers.
use ragbench_kr_implementati.Prelude.{
  ◌⊎◌, ◌≢◌, if◌then◌else◌, str_eq, false, ℕ, zero, suc, ◌≡◌, ◌≤◌, ◌^◌, refl, some, none, [], ◌∷◌,
  String, All, length,
}
use ragbench_kr_implementati.Prelude.Int.{ℤ, pos, ◌+ℤ◌}
use ragbench_kr_implementati.Prelude.Float.{fixed_point}
use ragbench_kr_implementati.Prelude.Result.{
  Result, ok, err, value_error, arithmetic_error, overflow_error,
}
use ragbench_kr_implementati.Prelude.Assoc.{nat_key, str_key, lookup}
use ragbench_kr_implementati.Pricing.{given}
use ragbench_kr_implementati.Tests.Pricing.{book}
use ragbench_kr_implementati.Money.{new_repository, total}
use ragbench_kr_implementati.Money.Records.{MemoryReservation, opened, settled}
use ragbench_kr_implementati.Rag.Service.{
  Json, integer, floating, text, array, object, no_values, value, Fields, no_fields, field,
}
use ragbench_kr_implementati.Gateway.{
  Headers, FloatText, number, no_float, CachedResponse, Entries, is_expired, store_get, store_put,
  Reply, answered, request,
}
use ragbench_kr_implementati.Gateway.Store.{written, store_get-store_put}
use ragbench_kr_implementati.Gateway.Retries.{stop_at, outcome_at, IsDelay, request_lem}
use ragbench_kr_implementati.Gateway.Calls.{
  GenerateRequest, CacheKeyParts, State, Numerals, UpstageGateway, gross,
}
use ragbench_kr_implementati.Gateway.Calls.Metering.{generate}
use ragbench_kr_implementati.Gateway.Calls.Closing.{IsShut}
use ragbench_kr_implementati.Gateway.Calls.Shut.{IsUnread}
use ragbench_kr_implementati.Gateway.Calls.Generation.{generate-IsShut}

-- Half to even.
grossed : gross 1500000 1 ≡ ok 2
unfolding gross
grossed = refl

grossed_even : gross 500000 5 ≡ ok 2
unfolding gross
grossed_even = refl

abbrev no_numeral : String → Result ℤ
no_numeral s = err (value_error "invalid literal")

abbrev infinite : String → Result ℤ
infinite s = err arithmetic_error

abbrev numerals : Numerals
numerals = record { int_floating = no_numeral; int_text = no_numeral }

abbrev hash : Json → String
hash item = "h"

abbrev digest : CacheKeyParts → String
digest parts = "k"

-- `float` reads one digit, and every date overflows.
abbrev digit : String → FloatText ℕ
digit header_text = if str_eq header_text "9" then number 9000000 else no_float

abbrev header : Headers ℕ
header = record {
  parse_float = digit;
  parsedate_to_datetime = λ _. err overflow_error;
  utc_now = pos 0;
}

abbrev jitter : ℕ → ℕ
jitter upper = upper

abbrev gateway : UpstageGateway ℕ
gateway = record {
  price_book = book (given 100000);
  hard_limit = pos 1000;
  billing_cost_multiplier = 1100000;
  max_retries = 2;
  max_backoff_seconds = 8000000;
}

abbrev asked : GenerateRequest
asked = record {
  model_id = "solar";
  prompt = "q";
  context = "c" ∷ [];
  provider_params = no_fields;
  input_tokens = pos 1000;
  max_output_tokens = some (pos 100);
}

abbrev message : Fields
message = field "message" (object (field "content" (text "a") no_fields)) no_fields

abbrev raw : Json → Fields
raw prompt_tokens =
    field "choices" (array (value (object message) no_values))
      (field "usage" (object (field "prompt_tokens" prompt_tokens no_fields)) no_fields)

abbrev reply : ℕ → Json → Reply
reply status prompt_tokens = answered (record {
  status_code = status;
  retry_after = some "9";
  json = some (object (raw prompt_tokens));
})

-- Overloaded, then a success.
abbrev replies : Json → ℕ → Reply
replies prompt_tokens zero = reply 503 prompt_tokens
replies prompt_tokens (suc n) = reply 200 prompt_tokens

abbrev post : Json → String → Fields → ℕ → Reply
post prompt_tokens path payload = replies prompt_tokens

abbrev alone : ℕ → State → State
alone await s = s

abbrev start : State
start = record { money = new_repository (pos 0); entries = [] }

abbrev row : MemoryReservation
row = record {
  id = 7;
  correlation_id = 8;
  reserved_cost_usd = pos 231;
  status = settled;
  settled_cost_usd = some (pos 82);
}

-- 100 tokens in and, since the provider does not say, 100 out.
generated :
    lookup 7
      (generate hash digest numerals fixed_point header jitter gateway
        (pos 0)
        alone
        (post (integer (pos 100)))
        7
        8
        asked
        start).1.money.reservations
    ≡ some row
unfolding generate lookup ◌+ℤ◌ total
generated = refl

-- A count of 10^30 has a price of more than 28 digits: `quantize` raises InvalidOperation, which is not among
-- the errors that are caught either.
large_count :
    lookup 7
      (generate hash digest numerals fixed_point header jitter gateway
        (pos 0)
        alone
        (post (integer (pos (10 ^ 30))))
        7
        8
        asked
        start).1.money.reservations
    ≡ some (record row { status = opened; settled_cost_usd = none })
unfolding generate lookup ◌+ℤ◌ total
large_count = refl

-- `int` of an infinite float raises OverflowError, which is not among the errors that are caught: the reservation
-- stays open.
left_open :
    lookup 7
      (generate hash digest
        (record { int_floating = infinite; int_text = no_numeral })
        fixed_point
        header
        jitter
        gateway
        (pos 0)
        alone
        (post (floating "Infinity"))
        7
        8
        asked
        start).1.money.reservations
    ≡ some (record row { status = opened; settled_cost_usd = none })
unfolding generate lookup ◌+ℤ◌ total
left_open = refl

retried : request fixed_point header jitter 8000000 (replies (integer (pos 100))) 2 ≡ (
  ok (record {
    status_code = 200;
    retry_after = some "9";
    json = some (object (raw (integer (pos 100))));
  }),
  8000000 ∷ [],
)
unfolding request
retried = refl

-- An overloaded provider whose header is a date.
abbrev dated : ℕ → Reply
dated n = answered (record { status_code = 503; retry_after = some "Mon"; json = none })

date_overflows : request fixed_point header jitter 8000000 dated 2 ≡ (err overflow_error, [])
unfolding request
date_overflows = refl

request_lem_example :
    let outcome = request fixed_point header jitter 8000000 (replies (integer (pos 100))) 2 in
    let last = stop_at fixed_point header jitter 8000000 (replies (integer (pos 100))) 0 2 in
    (outcome.0 ≡ outcome_at fixed_point header jitter 8000000 (replies (integer (pos 100))) 2 last)
    × (length outcome.1 ≡ last)
    × (last ≤ 2)
    × All (IsDelay fixed_point header jitter 8000000) outcome.1
request_lem_example =
    request_lem fixed_point header jitter 8000000 (replies (integer (pos 100))) 2 refl

absent : lookup 7 start.money.reservations ≡ none
unfolding lookup
absent = refl

generate-IsShut_example :
    let out =
      generate hash digest numerals fixed_point header jitter gateway
        (pos 0)
        alone
        (post (integer (pos 100)))
        7
        8
        asked
        start in
    IsShut 7 out.1.money ⊎ IsUnread hash numerals gateway (pos 0) asked out.0
generate-IsShut_example =
    generate-IsShut hash digest numerals fixed_point header jitter gateway (pos 0) alone
      (post (integer (pos 100))) 7 8 (λ n s. refl) asked start absent

abbrev stored : Entries
stored = ("old", written hash no_fields) ∷ []

store_get-store_put_example :
    let after = store_put hash "k" no_fields stored in
    (store_get hash (pos 5) "k" after ≡ (some (written hash no_fields), after))
    × ((other : String)
        → other ≢ "k"
        → (store_get hash (pos 5) other after).0 ≡ (store_get hash (pos 5) other stored).0)
    × ((cached : CachedResponse)
        → (store_get hash (pos 5) "k" stored).0 ≡ some cached
        → (lookup "k" stored ≡ some cached)
          × (is_expired (pos 5) cached.expires_at ≡ false)
          × (cached.response_hash ≡ hash (object cached.response)))
store_get-store_put_example = store_get-store_put hash (pos 5) "k" no_fields stored

-- An entry whose hash is not that of its response is deleted.
corrupt :
    store_get hash
      (pos 5)
      "old"
      (("old", record { response = no_fields; response_hash = "x"; expires_at = none }) ∷ [])
    ≡ (none, [])
unfolding store_get
corrupt = refl
