-- ===== src/Pricing/Readings.antt =====
-- What a reading of the price book that returned has read.
use ragbench_kr_implementati.Prelude.{
  ℕ, ◌≡◌, refl, ap, Bool, true, false, Option, none, some, if◌then◌else◌,
}
use ragbench_kr_implementati.Prelude.Int.{ℤ}
use ragbench_kr_implementati.Prelude.Result.{Error, ok, raise_if-eq-ok, ok-injective}
use ragbench_kr_implementati.Prelude.Assoc.{str_key}
use ragbench_kr_implementati.Pricing.{
  Field, absent, null, given, mapping, field_mapping, found, decimal, parse_utc, exceeds_context,
  quantized,
}

pub mapping-eq-ok {ℓ} : {A : Type ℓ} (x : Option A) (a : A) → mapping x ≡ ok a → x ≡ some a
mapping-eq-ok none a h = absurd (cc)
mapping-eq-ok (some b) a h = ap some (ok-injective h)

pub found-eq-ok {ℓ} :
    {A : Type ℓ} (error : Error) (x : Option A) (a : A) → found error x ≡ ok a → x ≡ some a
found-eq-ok error none a h = absurd (cc)
found-eq-ok error (some b) a h = ap some (ok-injective h)

pub field_mapping-eq-ok : {A : Type 0} (x : Field A) (a : A) → field_mapping x ≡ ok a → x ≡ given a
field_mapping-eq-ok absent a h = absurd (cc)
field_mapping-eq-ok null a h = absurd (cc)
field_mapping-eq-ok (given b) a h = ap given (ok-injective h)

pub decimal-eq-ok : (x : Field ℕ) (rate : ℕ) → decimal x ≡ ok rate → x ≡ given rate
decimal-eq-ok absent rate h = absurd (cc)
decimal-eq-ok null rate h = absurd (cc)
decimal-eq-ok (given b) rate h = ap given (ok-injective h)

pub parse_utc-eq-ok : (x : Field ℤ) (time : ℤ) → parse_utc x ≡ ok time → x ≡ given time
parse_utc-eq-ok absent time h = absurd (cc)
parse_utc-eq-ok null time h = absurd (cc)
parse_utc-eq-ok (given b) time h = ap given (ok-injective h)

pub quantized-eq-ok : (a c : ℕ) → quantized a ≡ ok c → a ≡ c
quantized-eq-ok a c h = ok-injective (raise_if-eq-ok (exceeds_context a) _ _ h).1

pub if_decimal :
    (test : Bool) (x y : Field ℕ)
    → (if test then decimal x else decimal y) ≡ decimal (if test then x else y)
if_decimal true x y = refl
if_decimal false x y = refl
