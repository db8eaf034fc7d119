-- ===== src/Gateway.antt =====
-- src/ragbench/providers/upstage/client.py, `MemoryProviderStore` and the retries of `UpstageGateway`. The HTTP
-- client is a parameter: what it gives for each attempt of a request.
pub mod Calls
pub mod Retries
pub mod Store
use ragbench_kr_implementati.Prelude.{
  ℕ, zero, suc, ◌+◌, Bool, true, false, not, ◌&&◌, ◌||◌, Option, none, some, String, List, [], ◌∷◌,
  if◌then◌else◌, filter_rows, str_eq, ltb, leb, ◌==◌,
}
use ragbench_kr_implementati.Prelude.Int.{ℤ, pos, negsuc, leb_ℤ, ◌-ℤ◌}
use ragbench_kr_implementati.Prelude.Float.{Float}
use ragbench_kr_implementati.Prelude.Result.{
  Error, Result, ok, err, runtime_error, provider_http, request_error, cancelled_error, value_error,
  type_error, unicode_error, overflow_error, ◌>>=◌,
}
use ragbench_kr_implementati.Prelude.Assoc.{str_key, lookup, put}
use ragbench_kr_implementati.Rag.Service.{Json, object, Fields}

pub record CachedResponse : Type 0 where
  pub response : Fields
  pub response_hash : String
  pub expires_at : Option ℤ

abbrev pub Entries : Type 0
Entries = List (String × CachedResponse)

-- `del entries[key]`
unfoldable pub del : String → Entries → Entries
unfolding filter_rows
del key entries = filter_rows (λ entry. not (str_eq entry.0 key)) entries

abbrev pub is_expired : ℤ → Option ℤ → Bool
is_expired now none = false
is_expired now (some expires_at) = leb_ℤ expires_at now

module _ (canonical_json_hash : Json → String) where
  -- What `MemoryProviderStore.get` does with the entry of a key.
  unfoldable pub checked :
      ℤ → String → Entries → Option CachedResponse → Option CachedResponse × Entries
  unfolding del
  checked now key entries none = (none, entries)
  checked now key entries (some cached) =
      if is_expired now cached.expires_at
      then (none, entries)
      else if not (str_eq cached.response_hash (canonical_json_hash (object cached.response)))
      then (none, del key entries)
      else (some cached, entries)

  unfoldable pub store_get : ℤ → String → Entries → Option CachedResponse × Entries
  unfolding checked lookup
  store_get now key entries = checked now key entries (lookup key entries)

  -- `MemoryProviderStore.put`, of a response whose floats are finite: the hash raises for another.
  unfoldable pub store_put : String → Fields → Entries → Entries
  unfolding put
  store_put key response entries =
      put key
        (record {
          response = response;
          response_hash = canonical_json_hash (object response);
          expires_at = none;
        })
        entries

-- `json` is what `response.json()` returns, `none` when it raises.
pub record Response : Type 0 where
  pub status_code : ℕ
  pub retry_after : Option String
  pub json : Option Json

-- What an attempt comes to: a response, `httpx.RequestError`, or the cancellation of the task while it waits.
pub data Reply : Type 0 where
  answered : Response → Reply
  unreachable interrupted : Reply

-- `float(value)`: a ValueError, NaN, or a number.
pub data FloatText (F : Type 0) : Type 0 where
  no_float not_a_number : FloatText F
  number : F → FloatText F

-- A date that is read: microseconds of its clock time, and of its offset from UTC if it has one.
abbrev pub DateTime : Type 0
DateTime = ℤ × Option ℤ

-- What the standard library reads of a `Retry-After` header, and the time.
pub record Headers (F : Type 0) : Type 0 where
  pub parse_float : String → FloatText F
  pub parsedate_to_datetime : String → Result DateTime
  pub utc_now : ℤ

module _ (float : Float) (headers : Headers float.F) (jitter : float.F → float.F) where
  open float use {F, order, zero_float, one_float, add, ratio}

  -- `min(a, b)` and `max(a, b)`
  abbrev pub least : F → F → F
  least a b = if order.le a b then a else b

  abbrev pub greatest : F → F → F
  greatest a b = if order.le b a then a else b

  -- `max(0.0, (parsed - datetime.now(UTC)).total_seconds())`
  abbrev pub total_seconds : ℤ → F
  total_seconds (pos microseconds) = ratio microseconds 1000000
  total_seconds (negsuc _) = zero_float

  abbrev pub or_utc : Option ℤ → ℤ
  or_utc none = pos 0
  or_utc (some offset) = offset

  abbrev pub seconds_until : DateTime → F
  unfolding ◌-ℤ◌
  seconds_until (time, offset) = total_seconds (time -ℤ or_utc offset -ℤ headers.utc_now)

  -- `except (TypeError, ValueError): return None`; any other error goes on.
  abbrev pub after_date : Result DateTime → Result (Option F)
  unfolding seconds_until
  after_date (ok parsed) = ok (some (seconds_until parsed))
  after_date (err (value_error _)) = ok none
  after_date (err unicode_error) = ok none
  after_date (err (type_error _)) = ok none
  after_date (err raised) = err raised

  -- `_retry_after_seconds`; what is NaN counts as 0, since `max(0.0, nan)` is 0.
  unfoldable pub retry_after_seconds : String → Result (Option F)
  unfolding after_date
  retry_after_seconds header = read (headers.parse_float header)
    where
      read : FloatText F → Result (Option F)
      read (number delay) = ok (some delay)
      read not_a_number = ok (some zero_float)
      read no_float = after_date (headers.parsedate_to_datetime header)

  -- `2.0**attempt`, which raises from 2 to the 1024 on.
  power_of_two : ℕ → F
  power_of_two zero = one_float
  power_of_two (suc attempt) = add (power_of_two attempt) (power_of_two attempt)

  unfoldable pub two_to : ℕ → Result F
  unfolding power_of_two
  two_to attempt = if leb 1024 attempt then err overflow_error else ok (power_of_two attempt)

  -- `_backoff`
  unfoldable pub after_header : F → ℕ → Option F → Result F
  unfolding two_to
  after_header max_backoff attempt (some delay) = ok (least max_backoff (greatest zero_float delay))
  after_header max_backoff attempt none = do
    upper ← two_to attempt
    ok (least max_backoff (greatest zero_float (jitter (least max_backoff upper))))

  abbrev pub seconds : Option String → Result (Option F)
  unfolding retry_after_seconds
  seconds none = ok none
  seconds (some header) = retry_after_seconds header

  unfoldable pub backoff : F → ℕ → Option String → Result F
  unfolding after_header seconds
  backoff max_backoff attempt retry_after = do
    delay ← seconds retry_after
    after_header max_backoff attempt delay

  -- The sleep before the later rounds.
  abbrev pub waited : Result F → Result Response × List F → Result Response × List F
  waited (err raised) later = (err raised, [])
  waited (ok delay) later = (later.0, delay ∷ later.1)

  -- `200 <= status < 300`, and a status that is not tried again.
  abbrev pub is_success : ℕ → Bool
  is_success status = leb 200 status && ltb status 300

  abbrev pub is_final : ℕ → Bool
  is_final status = not (status == 429) && ltb status 500

  -- One round of the loop: what follows a reply, with what the later rounds come to.
  unfoldable pub react : F → ℕ → ℕ → Reply → Result Response × List F → Result Response × List F
  unfolding backoff
  react max_backoff retry_limit attempt interrupted later =
      (err (cancelled_error "task cancelled"), [])
  react max_backoff retry_limit attempt unreachable later =
      if leb retry_limit attempt
      then (err (request_error "request error"), [])
      else waited (backoff max_backoff attempt none) later
  react max_backoff retry_limit attempt (answered response) later =
      if is_success response.status_code
      then (ok response, [])
      else if is_final response.status_code
      then (err (provider_http "provider request failed"), [])
      else if leb retry_limit attempt
      then (err (provider_http "provider request failed"), [])
      else waited (backoff max_backoff attempt response.retry_after) later

  -- Attempts from a number on, with the rounds that are left: the result, and the sleeps.
  unfoldable pub attempts : F → (ℕ → Reply) → ℕ → ℕ → ℕ → Result Response × List F
  unfolding react
  attempts max_backoff post retry_limit attempt zero =
      (err (runtime_error "unreachable retry state"), [])
  attempts max_backoff post retry_limit attempt (suc rounds) =
      react max_backoff retry_limit attempt (post attempt)
        (attempts max_backoff post retry_limit (suc attempt) rounds)

  -- `_request`
  unfoldable pub request : F → (ℕ → Reply) → ℕ → Result Response × List F
  unfolding attempts
  request max_backoff post retry_limit = attempts max_backoff post retry_limit 0 (retry_limit + 1)
