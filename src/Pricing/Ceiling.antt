-- ===== src/Pricing/Ceiling.antt =====
-- An estimate bounds the price of any smaller usage.
use native.Mathlib.Nat.{mul-le-mul_left}
use ragbench_kr_implementati.Prelude.{
  ℕ, ◌≤◌, ◌≡◌, Bool, true, false, ◌||◌, Bool-cases, inl, inr, arith, if◌then◌else◌, str_eq,
}
use ragbench_kr_implementati.Prelude.Int.{ℤ, pos, pos_part, ltb_ℤ, ◌≤ℤ◌}
use ragbench_kr_implementati.Prelude.Result.{
  Error, Result, ok, err, arithmetic_error, value_error, raise_if-eq-ok, ok-injective, ◌>>=◌,
}
use ragbench_kr_implementati.Prelude.Assoc.{str_key, lookup}
use ragbench_kr_implementati.Pricing.{
  PricingRequest, PriceBook, Model, mapping, field_mapping, found, decimal, parse_utc, or_now,
  models_of, money, exceeds_context, quantized, parse_price, generate_price, embed_price, price,
  estimate,
}

-- The first cost is at most the second, when both calls return.
AreLe : Result ℕ → Result ℕ → Type 0
AreLe x y = (c c' : ℕ) → x ≡ ok c → y ≡ ok c' → c ≤ c'

ok-AreLe : (a b : ℕ) → a ≤ b → AreLe (ok a) (ok b)
unfolding AreLe
ok-AreLe a b h c c' e e' = omega (arith, ok-injective e, ok-injective e', h)

err-AreLe : (e : Error) (y : Result ℕ) → AreLe (err e) y
unfolding AreLe
err-AreLe e y c c' r r' = absurd (cc)

raised-AreLe : (x : Result ℕ) (e : Error) → AreLe x (err e)
unfolding AreLe
raised-AreLe x e c c' r r' = absurd (cc)

quantized-AreLe : (a b : ℕ) → a ≤ b → AreLe (quantized a) (quantized b)
quantized-AreLe a b h = elim (Bool-cases (exceeds_context a)) [
  | inl e ↦ rw e (err-AreLe arithmetic_error (quantized b))
  | inr e ↦ rw e (elim (Bool-cases (exceeds_context b)) [
    | inl e' ↦ rw e' (raised-AreLe (ok a) arithmetic_error)
    | inr e' ↦ rw e' (ok-AreLe a b h)
  ])
]

>>=-AreLe {ℓ} :
    {A : Type ℓ} (step : Result A) (f g : A → Result ℕ)
    → ((a : A) → AreLe (f a) (g a))
    → AreLe (step >>= f) (step >>= g)
>>=-AreLe (err e) f g h = err-AreLe e (err e)
>>=-AreLe (ok a) f g h = h a

if-AreLe :
    (test : Bool) (x x' y y' : Result ℕ)
    → AreLe x x'
    → AreLe y y'
    → AreLe (if test then x else y) (if test then x' else y')
if-AreLe true x x' y y' h k = h
if-AreLe false x x' y y' h k = k

pub money_mono : (a b : ℕ) → a ≤ b → money a ≤ money b
unfolding money
money_mono a b h = omega arith

-- A request for other counts.
abbrev pub recount : PricingRequest → ℤ → ℤ → ℤ → PricingRequest
recount request input output pages = record request {
  input_tokens = input;
  output_tokens = output;
  billable_pages = pages;
}

pos_part_mono : (a b : ℤ) → a ≤ℤ b → pos_part a ≤ pos_part b
pos_part_mono a b h = ground arith

module _ (now : ℤ) (request : PricingRequest) (input output pages : ℤ) where
  abbrev more : PricingRequest
  more = recount request input output pages

  price-AreLe :
      (model : Model)
      → request.input_tokens ≤ℤ input
      → request.output_tokens ≤ℤ output
      → request.billable_pages ≤ℤ pages
      → AreLe (price now model request) (price now model more)
  unfolding price parse_price generate_price embed_price
  price-AreLe model hi ho hp =
      let in_le = pos_part_mono request.input_tokens input hi in
      let out_le = pos_part_mono request.output_tokens output ho in
      let pages_le = pos_part_mono request.billable_pages pages hp in
      if-AreLe (str_eq request.operation "parse") _ _ _ _
        (>>=-AreLe (mapping model.modes) _ _ λ modes.
          >>=-AreLe (found _ (lookup request.mode modes)) _ _ λ rates.
            >>=-AreLe (mapping rates) _ _ λ usd_per_page.
              >>=-AreLe (decimal usd_per_page) _ _
                λ rate. quantized-AreLe _ _ (mul-le-mul_left rate pages_le))
        (if-AreLe (str_eq request.operation "generate") _ _ _ _
          (>>=-AreLe (mapping model.generation) _ _ λ rates.
            >>=-AreLe (decimal rates.input_usd_per_million) _ _ λ input_rate.
              >>=-AreLe (decimal rates.output_usd_per_million) _ _ λ output_rate.
                quantized-AreLe _ _ (
                  money_mono _ _ (
                    omega (
                      arith,
                      mul-le-mul_left input_rate in_le,
                      mul-le-mul_left output_rate out_le,
                    ))))
          (if-AreLe (str_eq request.operation "embed") _ _ _ _
            (>>=-AreLe (field_mapping model.embedding) _ _ λ rates.
              >>=-AreLe (mapping rates.promotion) _ _ λ promotion.
                >>=-AreLe (parse_utc promotion.ends_at_exclusive) _ _ λ ends.
                  >>=-AreLe
                    (if ltb_ℤ (or_now now request.requested_at) ends
                      then decimal promotion.input_usd_per_million
                      else decimal rates.input_usd_per_million)
                    _ _ λ rate. quantized-AreLe _ _ (money_mono _ _ (mul-le-mul_left rate in_le)))
            (err-AreLe _ _)))

-- When a request and one with counts at least as high, of tokens and of pages, are both priced, the
-- first costs at most as much as the second: an estimate for upper bounds of a usage covers it.
pub estimate_mono :
    (now : ℤ) (book : PriceBook) (request : PricingRequest) (input output pages : ℤ) (c c' : ℕ)
    → request.input_tokens ≤ℤ input
    → request.output_tokens ≤ℤ output
    → request.billable_pages ≤ℤ pages
    → estimate now book request ≡ ok c
    → estimate now book (recount request input output pages) ≡ ok c'
    → c ≤ c'
unfolding estimate AreLe
estimate_mono now book request input output pages c c' hi ho hp e e' =
    let first =
      (raise_if-eq-ok
        (ltb_ℤ request.input_tokens (pos 0)
          || ltb_ℤ request.output_tokens (pos 0)
          || ltb_ℤ request.billable_pages (pos 0))
        _ _ e).1 in
    let second =
      (raise_if-eq-ok (ltb_ℤ input (pos 0) || ltb_ℤ output (pos 0) || ltb_ℤ pages (pos 0)) _ _
        e').1 in
    >>=-AreLe (models_of book) _ _
      (λ models.
        >>=-AreLe (found (value_error "unknown priced model") (lookup request.model_id models)) _ _
          (λ model. price-AreLe now request input output pages model hi ho hp))
      c c' first second
