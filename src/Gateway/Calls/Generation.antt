-- ===== src/Gateway/Calls/Generation.antt =====
-- What a generation leaves of its own reservation.
use mathlib.Core.Path.{subst}
use ragbench_kr_implementati.Prelude.{
  ℕ, ◌≡◌, refl, sym, ap, ◌∙◌, true, false, Option, none, some, String, arith, ◌⊎◌, inl, inr,
}
use ragbench_kr_implementati.Prelude.Int.{ℤ, pos}
use ragbench_kr_implementati.Prelude.Float.{Float}
use ragbench_kr_implementati.Prelude.Result.{Error, Result, ok, err, ok-injective}
use ragbench_kr_implementati.Prelude.Assoc.{nat_key, lookup}
use ragbench_kr_implementati.Money.Records.{Uuid, Usage, Reservation}
use ragbench_kr_implementati.Money.{
  Repository, guard_reserve, settle, release, record_cache_hit, granted, new_row,
}
use ragbench_kr_implementati.Money.Outcomes.{guard_reserve_outcome}
use ragbench_kr_implementati.Rag.Service.{Json, Fields}
use ragbench_kr_implementati.Gateway.{Headers, CachedResponse, Response, Reply, request, store_get}
use ragbench_kr_implementati.Gateway.Calls.{
  GenerateRequest, GenerateResponse, CacheKeyParts, State, Numerals, UpstageGateway, usage, budget,
  gross_price, check_request, or_zero, key_parts, payload_of,
}
use ragbench_kr_implementati.Gateway.Calls.Metering.{
  look, hit_recorded, hit_read, cached_generation, raised_again, stored, settled_read, released,
  requested, reserved, projected, coalesced, looked, accepted, generate,
}
use ragbench_kr_implementati.Gateway.Calls.Closing.{IsShut, IsHeld, settle-IsShut, release-IsShut}
use ragbench_kr_implementati.Gateway.Calls.Shut.{IsUnread, spent-IsUnread}

record_cache_hit_keeps :
    (correlation_id : Uuid) (operation model_id : String) (used : Usage) (s : Repository)
    → (record_cache_hit correlation_id operation model_id used s).1.reservations ≡ s.reservations
unfolding record_cache_hit
record_cache_hit_keeps correlation_id operation model_id used s = ground arith

err≢ok : {A : Type 0} {raised : Error} {a : A} → ◌≡◌ {A = Result A} (err raised) (ok a) → ⊥
err≢ok h = cc

module _ (canonical_json_hash : Json → String) (digest : CacheKeyParts → String)
    (numerals : Numerals) (float : Float) (headers : Headers float.F) (jitter : float.F → float.F)
    (gateway : UpstageGateway float.F) (now : ℤ) (meanwhile : ℕ → State → State)
    (post : String → Fields → ℕ → Reply) (reservation_id correlation_id : Uuid)
    (keeps : (n : ℕ) (s : State)
      → lookup reservation_id (meanwhile n s).money.reservations
        ≡ lookup reservation_id s.money.reservations) where
  -- Nothing of the reservation is there, or nothing open.
  abbrev Shut : State → Type 0
  Shut s = IsShut reservation_id s.money

  meanwhile-Shut : (n : ℕ) (s : State) → Shut s → Shut (meanwhile n s)
  meanwhile-Shut n s h row e = h row (sym (keeps n s) ∙ e)

  meanwhile-Held :
      (n : ℕ) (s : State)
      → IsHeld reservation_id s.money
      → IsHeld reservation_id (meanwhile n s).money
  meanwhile-Held n s (row, there, opened) = (row, keeps n s ∙ there, opened)

  absent-Shut : (s : State) → lookup reservation_id s.money.reservations ≡ none → Shut s
  absent-Shut s h row e = absurd (let wrong : none ≡ some row = sym h ∙ e in cc)

  hit_recorded-Shut :
      (result : GenerateResponse) (outcome : Result (Unit {0}) × State)
      → Shut outcome.1
      → Shut
          (hit_recorded canonical_json_hash digest numerals float headers jitter gateway now
            meanwhile post reservation_id correlation_id result outcome).1
  hit_recorded-Shut result (err raised, s) h = h
  hit_recorded-Shut result (ok _, s) h = meanwhile-Shut 7 s h

  raised_again-Shut :
      (raised : Error) (outcome : Result (Unit {0}) × State)
      → Shut outcome.1
      → Shut
          (raised_again canonical_json_hash digest numerals float headers jitter gateway now
            meanwhile post reservation_id correlation_id raised outcome).1
  raised_again-Shut raised (err other, s) h = h
  raised_again-Shut raised (ok _, s) h = meanwhile-Shut 5 s h

  released-Shut :
      (raised : Error) (outcome : Result (Unit {0}) × State)
      → Shut outcome.1
      → Shut
          (released canonical_json_hash digest numerals float headers jitter gateway now meanwhile
            post reservation_id correlation_id raised outcome).1
  released-Shut raised (err other, s) h = h
  released-Shut raised (ok _, s) h = meanwhile-Shut 5 s h

  stored-Shut :
      (key : String) (result : GenerateResponse) (raw : Fields)
      (outcome : Result (Unit {0}) × State)
      → Shut outcome.1
      → Shut
          (stored canonical_json_hash digest numerals float headers jitter gateway now meanwhile
            post reservation_id correlation_id key result raw outcome).1
  unfolding stored
  stored-Shut key result raw (err raised, s) h = h
  stored-Shut key result raw (ok _, s) h = meanwhile-Shut 6 _ (meanwhile-Shut 5 s h)

  -- The usage of a response could not be read, by an error that is not caught.
  abbrev Unread : GenerateRequest → Result GenerateResponse → Type 0
  Unread = IsUnread canonical_json_hash numerals gateway now

  abbrev Closed : GenerateRequest → Result GenerateResponse × State → Type 0
  Closed asked out = Shut out.1 ⊎ Unread asked out.0

  settled_read-Shut :
      (asked : GenerateRequest) (key : String) (read : Result ((GenerateResponse × Fields) × Usage))
      (spent : Result Usage) (s : State)
      → ((raised : Error) → spent ≡ err raised → Unread asked (err raised))
      → IsHeld reservation_id s.money
      → Closed asked (
          settled_read canonical_json_hash digest numerals float headers jitter gateway now
            meanwhile post reservation_id correlation_id asked key reservation_id read spent s)
  unfolding settled_read
  settled_read-Shut asked key (ok ((result, raw), used)) spent s f h = inl (
      stored-Shut key result raw
        (budget (settle reservation_id "generate" asked.model_id used false false) s)
        (settle-IsShut reservation_id "generate" asked.model_id used false false s.money h))
  settled_read-Shut asked key (err raised) (err other) s f h = inr (f other refl)
  settled_read-Shut asked key (err raised) (ok used) s f h = inl (
      raised_again-Shut raised
        (budget (settle reservation_id "generate" asked.model_id used false true) s)
        (settle-IsShut reservation_id "generate" asked.model_id used false true s.money h))

  requested-Shut :
      (asked : GenerateRequest) (key : String) (net : ℕ) (answer : Result Response) (s : State)
      → IsHeld reservation_id s.money
      → Closed asked (
          requested canonical_json_hash digest numerals float headers jitter gateway now meanwhile
            post reservation_id correlation_id asked key net reservation_id answer s)
  unfolding requested
  requested-Shut asked key net (err raised) s h = inl (
      released-Shut raised (budget (release reservation_id) s)
        (release-IsShut reservation_id s.money h))
  requested-Shut asked key net (ok response) s h =
      settled_read-Shut asked key _ _ s
        (λ other e.
          spent-IsUnread canonical_json_hash numerals gateway now asked _ response other e)
        h

  reserved-Shut :
      (asked : GenerateRequest) (key : String) (net : ℕ) (outcome : Result Reservation × State)
      → ((raised : Error) → outcome.0 ≡ err raised → Shut outcome.1)
      → ((reservation : Reservation)
          → outcome.0 ≡ ok reservation
          → (reservation.id ≡ reservation_id) × IsHeld reservation_id outcome.1.money)
      → Closed asked (
          reserved canonical_json_hash digest numerals float headers jitter gateway now meanwhile
            post reservation_id correlation_id asked key net outcome)
  unfolding reserved
  reserved-Shut asked key net (err raised, s) f g = inl (f raised refl)
  reserved-Shut asked key net (ok reservation, s) f g =
      let (same, held) = g reservation refl in
      let answer =
        (request float headers jitter gateway.max_backoff_seconds
          (post "chat/completions" (payload_of canonical_json_hash numerals gateway now asked))
          gateway.max_retries).0 in
      let after = meanwhile-Held 4 (meanwhile 3 s) (meanwhile-Held 3 s held) in
      subst
        (λ id. Closed asked (
          requested canonical_json_hash digest numerals float headers jitter gateway now meanwhile
            post reservation_id correlation_id asked key net id answer
            (meanwhile 4 (meanwhile 3 s))))
        (sym same) (requested-Shut asked key net answer (meanwhile 4 (meanwhile 3 s)) after)

  -- A reservation with a fresh id is refused, and nothing is there, or is granted and held.
  refused-Shut :
      (cost : ℤ) (s : State) (raised : Error)
      → lookup reservation_id s.money.reservations ≡ none
      → (guard_reserve gateway.hard_limit reservation_id correlation_id cost s.money).0 ≡ err raised
      → IsShut reservation_id
          (guard_reserve gateway.hard_limit reservation_id correlation_id cost s.money).1
  refused-Shut cost s raised fresh e =
      elim (guard_reserve_outcome gateway.hard_limit reservation_id correlation_id cost s.money
        fresh) [
          | inl (_, after) ↦
              subst (λ o. IsShut reservation_id o.1) (sym after) (absent-Shut s fresh)
          | inr (inl (_, _, after)) ↦
              subst (λ o. IsShut reservation_id o.1) (sym after) (absent-Shut s fresh)
          | inr (inr (_, _, grant, _, _, _, _)) ↦ absurd (
              let wrong : ok (granted reservation_id correlation_id cost) ≡ err raised =
                sym grant ∙ e in
              cc)
        ]

  granted-Held :
      (cost : ℤ) (s : State) (reservation : Reservation)
      → lookup reservation_id s.money.reservations ≡ none
      → (guard_reserve gateway.hard_limit reservation_id correlation_id cost s.money).0
        ≡ ok reservation
      → (reservation.id ≡ reservation_id)
        × IsHeld reservation_id
            (guard_reserve gateway.hard_limit reservation_id correlation_id cost s.money).1
  granted-Held cost s reservation fresh e =
      elim (guard_reserve_outcome gateway.hard_limit reservation_id correlation_id cost s.money
        fresh) [
          | inl (_, after) ↦ absurd (err≢ok (sym (ap (λ o. o.0) after) ∙ e))
          | inr (inl (_, _, after)) ↦ absurd (err≢ok (sym (ap (λ o. o.0) after) ∙ e))
          | inr (inr (_, _, grant, there, _, _, _)) ↦ (
            sym (ap (λ (r : Reservation). r.id) (ok-injective (sym grant ∙ e))),
            (new_row reservation_id correlation_id cost, there, refl),
          )
        ]

  projected-Shut :
      (asked : GenerateRequest) (key : String) (net : Result ℕ) (s : State)
      → lookup reservation_id s.money.reservations ≡ none
      → Closed asked (
          projected canonical_json_hash digest numerals float headers jitter gateway now meanwhile
            post reservation_id correlation_id asked key net s)
  unfolding projected
  projected-Shut asked key (err raised) s fresh = inl (absent-Shut s fresh)
  projected-Shut asked key (ok cost) s fresh =
      reserved-Shut asked key cost _ (λ raised e. refused-Shut (pos cost) s raised fresh e)
        (λ reservation e. granted-Held (pos cost) s reservation fresh e)

  hit_read-Shut :
      (asked : GenerateRequest) (s : State) (read : Result (GenerateResponse × Usage))
      → Shut s
      → Shut
          (hit_read canonical_json_hash digest numerals float headers jitter gateway now meanwhile
            post reservation_id correlation_id asked s read).1
  unfolding hit_read
  hit_read-Shut asked s (err raised) h = h
  hit_read-Shut asked s (ok (result, used)) h =
      let hit = usage used.input_tokens used.output_tokens (pos 0) 0 in
      hit_recorded-Shut result
        (budget (record_cache_hit correlation_id "generate" asked.model_id hit) s)
        (λ row e. h row (
          ap (λ rows. lookup reservation_id rows)
            (sym (record_cache_hit_keeps correlation_id "generate" asked.model_id hit s.money))
          ∙ e))

  coalesced-Shut :
      (asked : GenerateRequest) (key : String) (found : Option CachedResponse × State)
      → lookup reservation_id found.1.money.reservations ≡ none
      → Closed asked (
          coalesced canonical_json_hash digest numerals float headers jitter gateway now meanwhile
            post reservation_id correlation_id asked key found)
  unfolding coalesced cached_generation
  coalesced-Shut asked key (some cached, s) fresh =
      inl (hit_read-Shut asked s _ (absent-Shut s fresh))
  coalesced-Shut asked key (none, s) fresh =
      projected-Shut asked key
        (gross_price canonical_json_hash numerals gateway now asked.model_id asked.input_tokens
          (or_zero asked.max_output_tokens))
        s fresh

  look_fresh :
      (await : ℕ) (key : String) (s : State)
      → lookup reservation_id s.money.reservations ≡ none
      → lookup reservation_id
          (look canonical_json_hash digest numerals float headers jitter gateway now meanwhile post
            reservation_id correlation_id await key s).1.money.reservations
        ≡ none
  unfolding look
  look_fresh await key s fresh =
      keeps await (record s { entries = (store_get canonical_json_hash now key s.entries).1 })
      ∙ fresh

  looked-Shut :
      (asked : GenerateRequest) (key : String) (found : Option CachedResponse × State)
      → lookup reservation_id found.1.money.reservations ≡ none
      → Closed asked (
          looked canonical_json_hash digest numerals float headers jitter gateway now meanwhile post
            reservation_id correlation_id asked key found)
  unfolding looked cached_generation
  looked-Shut asked key (some cached, s) fresh = inl (hit_read-Shut asked s _ (absent-Shut s fresh))
  looked-Shut asked key (none, s) fresh =
      coalesced-Shut asked key
        (look canonical_json_hash digest numerals float headers jitter gateway now meanwhile post
          reservation_id correlation_id 2 key (meanwhile 1 s))
        (look_fresh 2 key (meanwhile 1 s) (keeps 1 s ∙ fresh))

  -- On the in-memory repository, when other tasks leave its reservation alone: a generation with a fresh reservation id, whatever the
  -- cache, the provider and the budget do, returned, failed or cancelled while it waits for the provider,
  -- leaves that reservation absent or not open, unless it raises the error that reading or pricing the
  -- usage of a response raised, an error other than a TypeError or a ValueError.
  pub generate-IsShut :
      (asked : GenerateRequest) (s : State)
      → lookup reservation_id s.money.reservations ≡ none
      → let out =
          generate canonical_json_hash digest numerals float headers jitter gateway now meanwhile
            post reservation_id correlation_id asked s in
        IsShut reservation_id out.1.money
        ⊎ IsUnread canonical_json_hash numerals gateway now asked out.0
  unfolding generate accepted
  generate-IsShut asked s fresh =
      accepted-Shut (check_request canonical_json_hash numerals gateway now asked)
    where
      accepted-Shut :
          (check : Result (Unit {0}))
          → Closed asked (
              accepted canonical_json_hash digest numerals float headers jitter gateway now
                meanwhile post reservation_id correlation_id asked s check)
      accepted-Shut (err raised) = inl (absent-Shut s fresh)
      accepted-Shut (ok _) =
          let key = digest (key_parts canonical_json_hash numerals gateway now asked) in
          looked-Shut asked key
            (look canonical_json_hash digest numerals float headers jitter gateway now meanwhile
              post reservation_id correlation_id 0 key s)
            (look_fresh 0 key s fresh)
