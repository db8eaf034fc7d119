-- ===== src/Prelude/Result.antt =====
-- Python exceptions as values. The payload is the message the source raises with; where the source
-- formats a value into the message, its fixed part.
use mathlib.Core.Bool.{Bool, true, false}
use ragbench_kr_implementati.Prelude.{String, ◌≡◌, refl, ap}

pub data Error : Type 0 where
  value_error runtime_error permission_error budget_exceeded citation_validation generation_schema :
      String → Error
  key_error integrity_error data_error overflow_error arithmetic_error index_error unicode_error :
      Error
  file_exists file_not_found type_error provider_http request_error cancelled_error : String → Error

-- A call returns a value or raises an error.
pub data Result {ℓ} (A : Type ℓ) : Type ℓ where
  err : Error → Result A
  ok : A → Result A

-- `if test: raise error`, a statement that returns nothing.
abbrev pub raise_if : Bool → Error → Result (Unit {0})
raise_if false error = ok tt
raise_if true error = err error

-- The rest of a block runs on the value of its first step, unless that raises.
module _ {ℓ κ} {A : Type ℓ} {B : Type κ} where
  infixl 5 ◌>>=◌
  abbrev pub ◌>>=◌ : Result A → (A → Result B) → Result B
  err raised >>= rest = err raised
  ok value >>= rest = rest value

infixl 5 ◌>>◌
abbrev pub ◌>>◌ {ℓ} : {B : Type ℓ} → Result (Unit {0}) → Result B → Result B
statement >> rest = statement >>= λ done. rest

-- What a call that returned says of its steps.
pub raise_if-eq-ok {ℓ} :
    {B : Type ℓ} (test : Bool) (e : Error) (k : Result B) {b : B}
    → (raise_if test e >> k) ≡ ok b
    → (test ≡ false) × (k ≡ ok b)
raise_if-eq-ok true e k h = cc
raise_if-eq-ok false e k h = (refl, h)

pub >>=-eq-ok {ℓ κ} :
    {A : Type ℓ} {B : Type κ} (first : Result A) (rest : A → Result B) {result : B}
    → first >>= rest ≡ ok result
    → (value : A) × (first ≡ ok value) × (rest value ≡ ok result)
>>=-eq-ok (err raised) rest returned = cc
>>=-eq-ok (ok value) rest returned = (value, refl, returned)

value_or {ℓ} : {A : Type ℓ} → A → Result A → A
value_or a (ok b) = b
value_or a (err e) = a

pub ok-injective {ℓ} : {A : Type ℓ} {a b : A} → ok a ≡ ok b → a ≡ b
unfolding value_or
ok-injective {a = a} h = ap (value_or a) h
