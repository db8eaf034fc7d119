-- ===== src/Gateway/Calls/Metering.antt =====
-- src/ragbench/providers/upstage/client.py, `UpstageGateway.generate`, by its awaits: 0 and 2 read the cache, 1 is
-- the entry of the singleflight lock, 3 the reservation, 4 the request, 5 the release or the settlement, 6 the
-- write to the cache, 7 the record of a cache hit. `meanwhile n` is what other tasks do to the shared state then.
use ragbench_kr_implementati.Prelude.{ℕ, true, false, Option, none, some, String}
use ragbench_kr_implementati.Prelude.Int.{ℤ, pos}
use ragbench_kr_implementati.Prelude.Float.{Float}
use ragbench_kr_implementati.Prelude.Result.{Error, Result, ok, err, ◌>>=◌}
use ragbench_kr_implementati.Money.Records.{Uuid, Usage, Reservation}
use ragbench_kr_implementati.Money.{guard_reserve, settle, release, record_cache_hit}
use ragbench_kr_implementati.Rag.Service.{Json, Fields}
use ragbench_kr_implementati.Gateway.{
  Headers, CachedResponse, store_get, store_put, Response, Reply, request,
}
use ragbench_kr_implementati.Gateway.Calls.{
  GenerateRequest, GenerateResponse, CacheKeyParts, State, or_zero, generation_response, Numerals,
  UpstageGateway, usage, budget, gross_price, generation_usage, reading_of, key_parts, payload_of,
  check_request,
}

module _ (canonical_json_hash : Json → String) (digest : CacheKeyParts → String)
    (numerals : Numerals) (float : Float) (headers : Headers float.F) (jitter : float.F → float.F)
    (gateway : UpstageGateway float.F) (now : ℤ) (meanwhile : ℕ → State → State)
    (post : String → Fields → ℕ → Reply) (reservation_id correlation_id : Uuid) where
  -- `await self._store.get(key)`, the await with that number.
  unfoldable pub look : ℕ → String → State → Option CachedResponse × State
  unfolding store_get
  look await key s =
      let (found, entries) = store_get canonical_json_hash now key s.entries in
      (found, meanwhile await (record s { entries = entries }))

  -- `_cached_generation`
  abbrev pub hit_recorded :
      GenerateResponse → Result (Unit {0}) × State → Result GenerateResponse × State
  hit_recorded result (err raised, s) = (err raised, s)
  hit_recorded result (ok _, s) = (
    ok (record result { correlation_id = some correlation_id; cache_hit = some true }),
    meanwhile 7 s,
  )

  unfoldable pub hit_read :
      GenerateRequest → State → Result (GenerateResponse × Usage) → Result GenerateResponse × State
  unfolding record_cache_hit
  hit_read request s (err raised) = (err raised, s)
  hit_read request s (ok (result, used)) = hit_recorded result (
      budget
        (record_cache_hit correlation_id "generate" request.model_id
          (usage used.input_tokens used.output_tokens (pos 0) 0))
        s)

  unfoldable pub cached_generation :
      GenerateRequest → CachedResponse → State → Result GenerateResponse × State
  unfolding generation_response generation_usage hit_read
  cached_generation request cached s = hit_read request s (do
    result ← generation_response cached.response
    used ← generation_usage canonical_json_hash numerals gateway now request cached.response
    ok (result, used))

  -- After the settlement of a response that is not returned: its error is raised again.
  abbrev pub raised_again : Error → Result (Unit {0}) × State → Result GenerateResponse × State
  raised_again raised (err other, s) = (err other, s)
  raised_again raised (ok _, s) = (err raised, meanwhile 5 s)

  -- After the settlement of a response that is returned.
  unfoldable pub stored :
      String
      → GenerateResponse
      → Fields
      → Result (Unit {0}) × State
      → Result GenerateResponse × State
  unfolding store_put
  stored key result raw (err raised, s) = (err raised, s)
  stored key result raw (ok _, s) =
      let after = meanwhile 5 s in
      (
        ok (record result { correlation_id = some correlation_id; cache_hit = some false }),
        meanwhile 6
            (record after { entries = store_put canonical_json_hash key raw after.entries }),
      )

  -- The settlement of a response, by what its reading came to and the usage if it is not returned.
  unfoldable pub settled_read :
      GenerateRequest
      → String
      → Uuid
      → Result ((GenerateResponse × Fields) × Usage)
      → Result Usage
      → State
      → Result GenerateResponse × State
  unfolding settle stored
  settled_read asked key id (ok ((result, raw), used)) spent s =
      stored key result raw (budget (settle id "generate" asked.model_id used false false) s)
  settled_read asked key id (err raised) (err other) s = (err other, s)
  settled_read asked key id (err raised) (ok used) s =
      raised_again raised (budget (settle id "generate" asked.model_id used false true) s)

  -- After the release that an error of the request causes.
  abbrev pub released : Error → Result (Unit {0}) × State → Result GenerateResponse × State
  released raised (err other, s) = (err other, s)
  released raised (ok _, s) = (err raised, meanwhile 5 s)

  unfoldable pub requested :
      GenerateRequest
      → String
      → ℕ
      → Uuid
      → Result Response
      → State
      → Result GenerateResponse × State
  unfolding release settled_read reading_of
  requested asked key projected id (err raised) s = released raised (budget (release id) s)
  requested asked key projected id (ok response) s =
      let reading =
        reading_of canonical_json_hash numerals gateway now asked
          (usage asked.input_tokens (or_zero asked.max_output_tokens) (pos 0) projected) response in
      settled_read asked key id reading.outcome reading.spent s

  unfoldable pub reserved :
      GenerateRequest → String → ℕ → Result Reservation × State → Result GenerateResponse × State
  unfolding requested request payload_of
  reserved asked key projected (err raised, s) = (err raised, s)
  reserved asked key projected (ok reservation, s) =
      requested asked key projected reservation.id
        (request float headers jitter gateway.max_backoff_seconds
          (post "chat/completions" (payload_of canonical_json_hash numerals gateway now asked))
          gateway.max_retries).0
        (meanwhile 4 (meanwhile 3 s))

  unfoldable pub projected :
      GenerateRequest → String → Result ℕ → State → Result GenerateResponse × State
  unfolding reserved guard_reserve
  projected asked key (err raised) s = (err raised, s)
  projected asked key (ok cost) s =
      reserved asked key cost
        (budget (guard_reserve gateway.hard_limit reservation_id correlation_id (pos cost)) s)

  -- Under the singleflight lock.
  unfoldable pub coalesced :
      GenerateRequest → String → Option CachedResponse × State → Result GenerateResponse × State
  unfolding cached_generation projected gross_price
  coalesced asked key (some cached, s) = cached_generation asked cached s
  coalesced asked key (none, s) =
      projected asked key
        (gross_price canonical_json_hash numerals gateway now asked.model_id asked.input_tokens
          (or_zero asked.max_output_tokens))
        s

  unfoldable pub looked :
      GenerateRequest → String → Option CachedResponse × State → Result GenerateResponse × State
  unfolding cached_generation coalesced look
  looked asked key (some cached, s) = cached_generation asked cached s
  looked asked key (none, s) = coalesced asked key (look 2 key (meanwhile 1 s))

  unfoldable pub accepted :
      GenerateRequest → State → Result (Unit {0}) → Result GenerateResponse × State
  unfolding looked look key_parts
  accepted asked s (err raised) = (err raised, s)
  accepted asked s (ok _) =
      let key = digest (key_parts canonical_json_hash numerals gateway now asked) in
      looked asked key (look 0 key s)

  -- `generate`
  unfoldable pub generate : GenerateRequest → State → Result GenerateResponse × State
  unfolding accepted check_request
  generate asked s = accepted asked s (check_request canonical_json_hash numerals gateway now asked)
