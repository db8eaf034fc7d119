-- ===== src/Gateway/Calls/Shut.antt =====
-- The usage that is settled for a response that is not returned.
use mathlib.Core.Path.{subst}
use ragbench_kr_implementati.Prelude.{◌≡◌, refl, false, String, Bool-cases, inl, inr}
use ragbench_kr_implementati.Prelude.Int.{ℤ}
use ragbench_kr_implementati.Prelude.Result.{Error, Result, ok, err}
use ragbench_kr_implementati.Money.Records.{Usage}
use ragbench_kr_implementati.Rag.Service.{Json, Fields}
use ragbench_kr_implementati.Gateway.{Response}
use ragbench_kr_implementati.Gateway.Calls.{
  GenerateRequest, GenerateResponse, Numerals, UpstageGateway, is_caught, generation_usage,
  or_fallback, safe_generation_usage, reading_of, decode_json,
}

module _ (canonical_json_hash : Json → String) (numerals : Numerals) {F : Type 0}
    (gateway : UpstageGateway F) (now : ℤ) where
  -- The outcome is the error of a response whose usage could not be read or priced, an error that the
  -- gateway does not catch there.
  abbrev pub IsUnread : GenerateRequest → Result GenerateResponse → Type 0
  IsUnread asked outcome =
      (raw : Fields) × (raised : Error) × (generation_usage canonical_json_hash numerals gateway now
          asked raw
        ≡ err raised)
      × (is_caught raised ≡ false)
      × (outcome ≡ err raised)

  or_fallback-IsUnread :
      (asked : GenerateRequest) (raw : Fields) (fallback : Usage) (read : Result Usage)
      (other : Error)
      → generation_usage canonical_json_hash numerals gateway now asked raw ≡ read
      → or_fallback canonical_json_hash numerals gateway now fallback read ≡ err other
      → IsUnread asked (err other)
  or_fallback-IsUnread asked raw fallback (ok used) other h e = absurd (cc)
  or_fallback-IsUnread asked raw fallback (err raised) other h e =
      elim (Bool-cases (is_caught raised)) [
        | inl caught ↦ absurd (let wrong : ok fallback ≡ err other = rw caught at e in cc)
        | inr uncaught ↦
            let thrown : ◌≡◌ {A = Result Usage} (err raised) (err other) = rw uncaught at e in
            let same : raised ≡ other = cc in
            subst (λ x. IsUnread asked (err x)) same (raw, raised, h, uncaught, refl)
      ]

  -- A usage is there to settle, unless it could not be read.
  pub spent-IsUnread :
      (asked : GenerateRequest) (fallback : Usage) (response : Response) (other : Error)
      → (reading_of canonical_json_hash numerals gateway now asked fallback response).spent
        ≡ err other
      → IsUnread asked (err other)
  unfolding reading_of
  spent-IsUnread asked fallback response other e = safe (decode_json response.json) e
    where
      safe :
          (decoded : Result Fields)
          → safe_generation_usage canonical_json_hash numerals gateway now asked decoded fallback
            ≡ err other
          → IsUnread asked (err other)
      safe (err raised) e = absurd (cc)
      safe (ok raw) e = or_fallback-IsUnread asked raw fallback _ other refl e
