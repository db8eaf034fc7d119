-- ===== src/Chunking/Json.antt =====
-- The objects that the chunkers hash. `canonical_json_hash` of src/ragbench/core/hashing.py, the SHA-256 of
-- the canonical JSON, is a parameter where it is used.
use ragbench_kr_implementati.Prelude.{
  ℕ, zero, suc, Bool, true, false, ◌&&◌, ◌≡◌, refl, ◌↔◌, String, List, [], ◌∷◌, arith,
}
use ragbench_kr_implementati.Prelude.Int.{ℤ}
use ragbench_kr_implementati.Prelude.Assoc.{Key}

pub data Value : Type 0 where
  text : String → Value
  characters : List ℕ → Value
  number : ℤ → Value
  texts : List String → Value
  mapping : List (String × String) → Value

abbrev pub Object : Type 0
Object = List (String × Value)

-- `value[:n]`
unfoldable pub prefix : ℕ → String → String
prefix zero value = ""
prefix (suc n) String.[] = ""
prefix (suc n) (String.◌∷◌ c value) = String.◌∷◌ c (prefix n value)

-- Equality of tuples, item by item.
module _ {ℓ} {K : Type ℓ} ⦃k : Key K⦄ where
  abbrev pub eq_list : List K → List K → Bool
  eq_list [] [] = true
  eq_list [] (y ∷ ys) = false
  eq_list (x ∷ xs) [] = false
  eq_list (x ∷ xs) (y ∷ ys) = k.eq x y && eq_list xs ys

  pub eq_list_lem : (xs ys : List K) → (eq_list xs ys ≡ true) ↔ (xs ≡ ys)
  eq_list_lem [] [] = (λ _. refl, λ _. refl)
  eq_list_lem [] (y ∷ ys) = (λ h. absurd (cc), λ h. absurd (cc))
  eq_list_lem (x ∷ xs) [] = (λ h. absurd (cc), λ h. absurd (cc))
  eq_list_lem (x ∷ xs) (y ∷ ys) = (
    λ h. ground (arith, k.eq_lem x y, eq_list_lem xs ys),
    λ h. ground (arith, k.eq_lem x y, eq_list_lem xs ys),
  )

  instance abbrev pub list_key : Key (List K)
  list_key = record { eq = eq_list; eq_lem = eq_list_lem }
