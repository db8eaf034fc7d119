-- ===== src/Pricing/Estimates.antt =====
-- What an estimate that is returned comes to, by the rates of the book.
use mathlib.Core.Path.{subst}
use ragbench_kr_implementati.Prelude.{
  ℕ, ◌+◌, ◌*◌, ◌≤◌, ◌<◌, ◌≡◌, ◌⊎◌, sym, ap, ◌∙◌, ◌||◌, Option, none, some, String, List, [], ◌∷◌,
  arith, if◌then◌else◌, str_eq, eq_iff, Bool-cases, inl, inr,
}
use ragbench_kr_implementati.Prelude.Int.{ℤ, pos, pos_part, ltb_ℤ, ◌≤ℤ◌}
use ragbench_kr_implementati.Prelude.Result.{
  ok, err, value_error, raise_if-eq-ok, >>=-eq-ok, ok-injective,
}
use ragbench_kr_implementati.Prelude.Assoc.{str_key, lookup}
use ragbench_kr_implementati.Pricing.{
  PricingRequest, PriceBook, Model, Generation, Embedding, Promotion, Field, given, mapping,
  field_mapping, found, decimal, parse_utc, or_now, all_models, models_of, money, quantized,
  parse_price, generate_price, embed_price, price, estimate,
}
use ragbench_kr_implementati.Pricing.Readings.{
  mapping-eq-ok, found-eq-ok, field_mapping-eq-ok, decimal-eq-ok, parse_utc-eq-ok, quantized-eq-ok,
  if_decimal,
}

-- The least number of money quanta that covers an amount in millionths of one, if the amount has at most
-- the 28 digits that decimals are exact for.
abbrev pub IsCeiling : ℕ → ℕ → Type 0
IsCeiling amount c =
    (10000000000000000000000000000 ≤ amount)
    ⊎ ((amount ≤ c * 1000000) × (c * 1000000 < amount + 1000000))

money-IsCeiling : (amount : ℕ) → IsCeiling amount (money amount)
unfolding money
money-IsCeiling amount = inr (omega arith, omega arith)

quantized_money : (amount c : ℕ) → quantized (money amount) ≡ ok c → IsCeiling amount c
quantized_money amount c h =
    subst (IsCeiling amount) (quantized-eq-ok (money amount) c h) (money-IsCeiling amount)

-- The price of a request, by its operation.
abbrev pub IsParsePrice : Model → PricingRequest → ℕ → Type 0
IsParsePrice model request c =
    (modes : List (String × Option (Field ℕ))) × (rate : ℕ) × (model.modes ≡ some modes)
    × (lookup request.mode modes ≡ some (some (given rate)))
    × (c ≡ rate * pos_part request.billable_pages)

abbrev pub IsGeneratePrice : Model → PricingRequest → ℕ → Type 0
IsGeneratePrice model request c =
    (rates : Generation) × (input : ℕ) × (output : ℕ) × (model.generation ≡ some rates)
    × (rates.input_usd_per_million ≡ given input)
    × (rates.output_usd_per_million ≡ given output)
    × IsCeiling (input * pos_part request.input_tokens + output * pos_part request.output_tokens) c

abbrev pub IsEmbedPrice : ℤ → Model → PricingRequest → ℕ → Type 0
IsEmbedPrice now model request c =
    (rates : Embedding) × (promotion : Promotion) × (ends : ℤ) × (rate : ℕ) × (model.embedding
      ≡ given rates)
    × (rates.promotion ≡ some promotion)
    × (promotion.ends_at_exclusive ≡ given ends)
    × ((if ltb_ℤ (or_now now request.requested_at) ends
          then promotion.input_usd_per_million
          else rates.input_usd_per_million)
        ≡ given rate)
    × IsCeiling (rate * pos_part request.input_tokens) c

abbrev pub IsPrice : ℤ → Model → PricingRequest → ℕ → Type 0
IsPrice now model request c =
    ((request.operation ≡ "parse") × IsParsePrice model request c)
    ⊎ ((request.operation ≡ "generate") × IsGeneratePrice model request c)
    ⊎ ((request.operation ≡ "embed") × IsEmbedPrice now model request c)

parse_price-eq-ok :
    (model : Model) (request : PricingRequest) (c : ℕ)
    → parse_price model request ≡ ok c
    → IsParsePrice model request c
unfolding parse_price
parse_price-eq-ok model request c h =
    let (modes, m, h1) = >>=-eq-ok (mapping model.modes) _ h in
    let (rates, r, h2) = >>=-eq-ok (found _ (lookup request.mode modes)) _ h1 in
    let (usd_per_page, u, h3) = >>=-eq-ok (mapping rates) _ h2 in
    let (rate, d, h4) = >>=-eq-ok (decimal usd_per_page) _ h3 in
    (
      modes,
      rate,
      mapping-eq-ok model.modes modes m,
      found-eq-ok _ (lookup request.mode modes) rates r
          ∙ ap some (mapping-eq-ok rates usd_per_page u)
          ∙ ap (λ (x : Field ℕ). some (some x)) (decimal-eq-ok usd_per_page rate d),
      sym (quantized-eq-ok _ c h4),
    )

generate_price-eq-ok :
    (model : Model) (request : PricingRequest) (c : ℕ)
    → generate_price model request ≡ ok c
    → IsGeneratePrice model request c
unfolding generate_price
generate_price-eq-ok model request c h =
    let (rates, m, h1) = >>=-eq-ok (mapping model.generation) _ h in
    let (input, i, h2) = >>=-eq-ok (decimal rates.input_usd_per_million) _ h1 in
    let (output, o, h3) = >>=-eq-ok (decimal rates.output_usd_per_million) _ h2 in
    (
      rates,
      input,
      output,
      mapping-eq-ok model.generation rates m,
      decimal-eq-ok rates.input_usd_per_million input i,
      decimal-eq-ok rates.output_usd_per_million output o,
      quantized_money _ c h3,
    )

embed_price-eq-ok :
    (now : ℤ) (model : Model) (request : PricingRequest) (c : ℕ)
    → embed_price now model request ≡ ok c
    → IsEmbedPrice now model request c
unfolding embed_price
embed_price-eq-ok now model request c h =
    let (rates, m, h1) = >>=-eq-ok (field_mapping model.embedding) _ h in
    let (promotion, p, h2) = >>=-eq-ok (mapping rates.promotion) _ h1 in
    let (ends, t, h3) = >>=-eq-ok (parse_utc promotion.ends_at_exclusive) _ h2 in
    let early = ltb_ℤ (or_now now request.requested_at) ends in
    let (rate, d, h4) =
      >>=-eq-ok
        (if early
          then decimal promotion.input_usd_per_million
          else decimal rates.input_usd_per_million)
        _ h3 in
    (
      rates,
      promotion,
      ends,
      rate,
      field_mapping-eq-ok model.embedding rates m,
      mapping-eq-ok rates.promotion promotion p,
      parse_utc-eq-ok promotion.ends_at_exclusive ends t,
      decimal-eq-ok _ rate
          (sym (if_decimal early promotion.input_usd_per_million rates.input_usd_per_million) ∙ d),
      quantized_money _ c h4,
    )

price-eq-ok :
    (now : ℤ) (model : Model) (request : PricingRequest) (c : ℕ)
    → price now model request ≡ ok c
    → IsPrice now model request c
unfolding price
price-eq-ok now model request c h = elim (Bool-cases (str_eq request.operation "parse")) [
  | inl parses ↦ inl (
    (eq_iff request.operation "parse").0 parses,
    parse_price-eq-ok model request c (rw parses at h),
  )
  | inr other ↦
      let h1 = rw other at h in
      elim (Bool-cases (str_eq request.operation "generate")) [
        | inl generates ↦ inr (
            inl (
              (eq_iff request.operation "generate").0 generates,
              generate_price-eq-ok model request c (rw generates at h1),
            ))
        | inr another ↦
            let h2 = rw another at h1 in
            elim (Bool-cases (str_eq request.operation "embed")) [
              | inl embeds ↦ inr (
                  inr (
                    (eq_iff request.operation "embed").0 embeds,
                    embed_price-eq-ok now model request c (rw embeds at h2),
                  ))
              | inr unknown ↦ absurd (
                  let wrong : err (value_error "unsupported priced operation") ≡ ok c =
                    rw unknown at h2 in
                  cc)
            ]
      ]
]

-- The models of the book are its mappings.
all_models-lookup :
    (raw : List (String × Option Model)) (models : List (String × Model)) (key : String)
    (model : Model)
    → all_models raw ≡ ok models
    → lookup key models ≡ some model
    → lookup key raw ≡ some (some model)
unfolding all_models lookup
all_models-lookup [] models key model h e =
    absurd (let wrong : none ≡ some model = ap (lookup key) (ok-injective h) ∙ e in cc)
all_models-lookup ((name, item) ∷ raw) models key model h e =
    let (first, m, h1) = >>=-eq-ok (mapping item) _ h in
    let (rest, r, h2) = >>=-eq-ok (all_models raw) _ h1 in
    let there = ap (lookup key) (ok-injective h2) ∙ e in
    elim (Bool-cases (str_eq name key)) [
      | inl same ↦
          let here : some first ≡ some model = rw same at there in
          rw same (ap some (mapping-eq-ok item first m ∙ here))
      | inr other ↦ rw other (all_models-lookup raw rest key model r (rw other at there))
    ]

-- An estimate that is returned is for counts that are not negative, of a model of the book; a parse costs
-- the rate of its mode for each page; and, for an amount of at most 28 digits, a generation costs the least
-- number of quanta that covers its tokens at the two rates per million, and an embedding the least that
-- covers its tokens at the promotional rate before the end of the promotion, at the ordinary rate from then
-- on.
pub estimate-IsPrice :
    (now : ℤ) (book : PriceBook) (request : PricingRequest) (c : ℕ)
    → estimate now book request ≡ ok c
    → (pos 0 ≤ℤ request.input_tokens)
      × (pos 0 ≤ℤ request.output_tokens)
      × (pos 0 ≤ℤ request.billable_pages)
      × (raw : List (String × Option Model)) × (model : Model) × (book.models ≡ some raw)
      × (lookup request.model_id raw ≡ some (some model))
      × IsPrice now model request c
unfolding estimate models_of
estimate-IsPrice now book request c h =
    let (counts, h1) =
      raise_if-eq-ok
        (ltb_ℤ request.input_tokens (pos 0)
          || ltb_ℤ request.output_tokens (pos 0)
          || ltb_ℤ request.billable_pages (pos 0))
        _ _ h in
    let (models, m, h2) = >>=-eq-ok (models_of book) _ h1 in
    let (raw, r, all) = >>=-eq-ok (mapping book.models) _ m in
    let (model, f, priced) = >>=-eq-ok (found _ (lookup request.model_id models)) _ h2 in
    (
      ground arith,
      ground arith,
      ground arith,
      raw,
      model,
      mapping-eq-ok book.models raw r,
      all_models-lookup raw models request.model_id model all
          (found-eq-ok _ (lookup request.model_id models) model f),
      price-eq-ok now model request c priced,
    )
