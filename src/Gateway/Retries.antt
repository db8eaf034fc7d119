-- ===== src/Gateway/Retries.antt =====
-- Where a request ends, and how long it sleeps.
use mathlib.Core.Path.{subst}
use ragbench_kr_implementati.Prelude.{
  ℕ, zero, suc, ◌+◌, ◌≡◌, ◌≤◌, ◌⊎◌, refl, Bool, true, false, ◌||◌, Option, none, some, String, List,
  [], if◌then◌else◌, length, leb, arith, All, Bool-cases, inl, inr,
}
use ragbench_kr_implementati.Prelude.Float.{Float}
use ragbench_kr_implementati.Prelude.Result.{
  Error, Result, ok, err, ok-injective, >>=-eq-ok, runtime_error, provider_http, request_error,
  cancelled_error,
}
use ragbench_kr_implementati.Prelude.Lookup.{or_right}
use ragbench_kr_implementati.Gateway.{
  Headers, two_to, waited, Response, Reply, answered, unreachable, interrupted, least, greatest,
  after_header, seconds, backoff, is_success, is_final, react, attempts, request,
}

module _ (float : Float) (headers : Headers float.F) (jitter : float.F → float.F) where
  open float use {F, order, zero_float}

  -- A reply after which nothing is sent again.
  abbrev pub is_decisive : Reply → Bool
  is_decisive interrupted = true
  is_decisive unreachable = false
  is_decisive (answered response) =
      is_success float headers jitter response.status_code
      || is_final float headers jitter response.status_code

  -- What a caller gets for a reply that is the last.
  abbrev pub verdict : Reply → Result Response
  verdict interrupted = err (cancelled_error "task cancelled")
  verdict unreachable = err (request_error "request error")
  verdict (answered response) =
      if is_success float headers jitter response.status_code
      then ok response
      else err (provider_http "provider request failed")

  abbrev pub header_of : Reply → Option String
  header_of interrupted = none
  header_of unreachable = none
  header_of (answered response) = response.retry_after

  abbrev pub raises {ℓ} : {A : Type ℓ} → Result A → Bool
  raises (err _) = true
  raises (ok _) = false

  abbrev pub raised_by : Result F → Result Response
  raised_by (err raised) = err raised
  raised_by (ok _) = err (runtime_error "unreachable retry state")

  -- The wait after an attempt.
  abbrev pub pause : F → (ℕ → Reply) → ℕ → Result F
  pause max_backoff post attempt =
      backoff float headers jitter max_backoff attempt (header_of (post attempt))

  -- The first attempt from a number on that is decisive or whose wait raises, or the last of `left`
  -- more.
  abbrev pub stop_at : F → (ℕ → Reply) → ℕ → ℕ → ℕ
  stop_at max_backoff post attempt zero = attempt
  stop_at max_backoff post attempt (suc left) =
      if is_decisive (post attempt) || raises (pause max_backoff post attempt)
      then attempt
      else stop_at max_backoff post (suc attempt) left

  -- The verdict on a reply that is decisive or the last, or else the error of the wait.
  abbrev pub outcome_at : F → (ℕ → Reply) → ℕ → ℕ → Result Response
  outcome_at max_backoff post limit attempt =
      if is_decisive (post attempt) || leb limit attempt
      then verdict (post attempt)
      else raised_by (pause max_backoff post attempt)

  abbrev pub IsDelay : F → F → Type 0
  IsDelay max_backoff delay =
      (order.le zero_float delay ≡ true) × (order.le delay max_backoff ≡ true)

  le_refl : (a : F) → order.le a a ≡ true
  le_refl a = elim (Bool-cases (order.le a a)) [ inl e ↦ e | inr e ↦ order.total a a e ]

  least-IsDelay :
      (max_backoff delay : F)
      → order.le zero_float max_backoff ≡ true
      → order.le zero_float delay ≡ true
      → IsDelay max_backoff (least float headers jitter max_backoff delay)
  least-IsDelay max_backoff delay h k = elim (Bool-cases (order.le max_backoff delay)) [
    | inl low ↦ rw low (h, le_refl max_backoff)
    | inr high ↦ rw high (k, order.total max_backoff delay high)
  ]

  greatest_positive :
      (delay : F) → order.le zero_float (greatest float headers jitter zero_float delay) ≡ true
  greatest_positive delay = elim (Bool-cases (order.le delay zero_float)) [
    | inl low ↦ rw low (le_refl zero_float)
    | inr high ↦ rw high (order.total delay zero_float high)
  ]

  after_header-IsDelay :
      (max_backoff : F) (attempt : ℕ) (header : Option F) (delay : F)
      → order.le zero_float max_backoff ≡ true
      → after_header float headers jitter max_backoff attempt header ≡ ok delay
      → IsDelay max_backoff delay
  unfolding after_header
  after_header-IsDelay max_backoff attempt (some seconds) delay h e =
      subst (IsDelay max_backoff) (ok-injective e)
        (least-IsDelay max_backoff _ h (greatest_positive seconds))
  after_header-IsDelay max_backoff attempt none delay h e =
      let (upper, _, last) = >>=-eq-ok (two_to float headers jitter attempt) _ e in
      subst (IsDelay max_backoff) (ok-injective last)
        (least-IsDelay max_backoff _ h (greatest_positive _))

  backoff-IsDelay :
      (max_backoff : F) (attempt : ℕ) (header : Option String) (delay : F)
      → order.le zero_float max_backoff ≡ true
      → backoff float headers jitter max_backoff attempt header ≡ ok delay
      → IsDelay max_backoff delay
  unfolding backoff
  backoff-IsDelay max_backoff attempt header delay h e =
      let (found, _, last) = >>=-eq-ok (seconds float headers jitter header) _ e in
      after_header-IsDelay max_backoff attempt found delay h last

  Result-cases {ℓ} :
      {A : Type ℓ} (r : Result A) → ((e : Error) × (r ≡ err e)) ⊎ ((a : A) × (r ≡ ok a))
  Result-cases (err e) = inl (e, refl)
  Result-cases (ok a) = inr (a, refl)

  -- The outcome of the rounds from an attempt on.
  abbrev Ends : F → (ℕ → Reply) → ℕ → ℕ → ℕ → Result Response × List F → Type 0
  Ends max_backoff post limit attempt left outcome =
      (outcome.0 ≡ outcome_at max_backoff post limit (stop_at max_backoff post attempt left))
      × (attempt + length outcome.1 ≡ stop_at max_backoff post attempt left)
      × All (IsDelay max_backoff) outcome.1

  react_last :
      (max_backoff : F) (limit attempt : ℕ) (reply : Reply) (later : Result Response × List F)
      → leb limit attempt ≡ true
      → react float headers jitter max_backoff limit attempt reply later ≡ (verdict reply, [])
  unfolding react
  react_last max_backoff limit attempt interrupted later h = refl
  react_last max_backoff limit attempt unreachable later h = ground arith
  react_last max_backoff limit attempt (answered response) later h = ground arith

  react_decisive :
      (max_backoff : F) (limit attempt : ℕ) (reply : Reply) (later : Result Response × List F)
      → is_decisive reply ≡ true
      → react float headers jitter max_backoff limit attempt reply later ≡ (verdict reply, [])
  unfolding react
  react_decisive max_backoff limit attempt interrupted later h = refl
  react_decisive max_backoff limit attempt unreachable later h = absurd (cc)
  react_decisive max_backoff limit attempt (answered response) later h = ground arith

  react_again :
      (max_backoff : F) (limit attempt : ℕ) (reply : Reply) (later : Result Response × List F)
      → is_decisive reply ≡ false
      → leb limit attempt ≡ false
      → react float headers jitter max_backoff limit attempt reply later
        ≡ waited float headers jitter
            (backoff float headers jitter max_backoff attempt (header_of reply))
            later
  unfolding react
  react_again max_backoff limit attempt interrupted later h k = absurd (cc)
  react_again max_backoff limit attempt unreachable later h k = ground arith
  react_again max_backoff limit attempt (answered response) later h k = ground arith

  stop_at_le :
      (max_backoff : F) (post : ℕ → Reply) (attempt left : ℕ)
      → stop_at max_backoff post attempt left ≤ attempt + left
  stop_at_le max_backoff post attempt zero = omega arith
  stop_at_le max_backoff post attempt (suc left) =
      let rest = stop_at_le max_backoff post (suc attempt) left in
      elim (Bool-cases (is_decisive (post attempt) || raises (pause max_backoff post attempt))) [
        | inl stops ↦ rw stops (omega arith)
        | inr goes_on ↦ rw goes_on (omega (arith, rest))
      ]

  attempts-Ends :
      (max_backoff : F) (post : ℕ → Reply) (limit attempt left : ℕ)
      → order.le zero_float max_backoff ≡ true
      → limit ≡ attempt + left
      → Ends max_backoff post limit attempt left
          (attempts float headers jitter max_backoff post limit attempt (suc left))
  unfolding attempts
  attempts-Ends max_backoff post limit attempt zero h e =
      let last : leb limit attempt ≡ true = ground arith in
      let either : (is_decisive (post attempt) || leb limit attempt) ≡ true =
        or_right (is_decisive (post attempt)) (leb limit attempt) last in
      rw
        (react_last max_backoff limit attempt (post attempt)
          (err (runtime_error "unreachable retry state"), []) last)
        (rw either (refl, omega arith, tt))
  attempts-Ends max_backoff post limit attempt (suc left) h e =
      let later = attempts float headers jitter max_backoff post limit (suc attempt) (suc left) in
      let (result, count, delays) =
        attempts-Ends max_backoff post limit (suc attempt) left h (omega (arith, e)) in
      let more : leb limit attempt ≡ false = ground arith in
      elim (Bool-cases (is_decisive (post attempt))) [
        | inl ends ↦
            rw (react_decisive max_backoff limit attempt (post attempt) later ends)
              (rw ends (rw ends (refl, omega arith, tt)))
        | inr again ↦
            rw (react_again max_backoff limit attempt (post attempt) later again more)
              (elim (Result-cases (pause max_backoff post attempt)) [
                | inl (raised, wrong) ↦
                    rw (again, wrong) (rw (again, more, wrong) (refl, omega arith, tt))
                | inr (delay, waits) ↦
                    rw (again, waits)
                      (
                        result,
                        omega (arith, count),
                        (
                          backoff-IsDelay max_backoff attempt (header_of (post attempt)) delay h
                              waits,
                          delays,
                        ),
                      )
              ])
      ]

  -- With a cap on the backoff that is at least 0: a request comes to the verdict on its first reply that is
  -- decisive (a cancellation, a success, or a status below 500 other than 429), or on the reply to its last
  -- attempt, which is number `retry_limit` from 0, unless the wait after an earlier attempt raises, as for a
  -- date that overflows or from attempt 1024 on: then the first such error is raised. It sleeps once before
  -- each attempt but the first, each time between 0 and the cap.
  pub request_lem :
      (max_backoff : F) (post : ℕ → Reply) (retry_limit : ℕ)
      → order.le zero_float max_backoff ≡ true
      → let outcome = request float headers jitter max_backoff post retry_limit in
        let last = stop_at max_backoff post 0 retry_limit in
        (outcome.0 ≡ outcome_at max_backoff post retry_limit last)
        × (length outcome.1 ≡ last)
        × (last ≤ retry_limit)
        × All (IsDelay max_backoff) outcome.1
  unfolding request
  request_lem max_backoff post retry_limit h =
      let next : suc retry_limit ≡ retry_limit + 1 = omega arith in
      let (result, count, delays) =
        subst
          (λ (rounds : ℕ).
            Ends max_backoff post retry_limit 0 retry_limit
              (attempts float headers jitter max_backoff post retry_limit 0 rounds))
          next (attempts-Ends max_backoff post retry_limit 0 retry_limit h (omega arith)) in
      (
        result,
        omega (arith, count),
        omega (arith, stop_at_le max_backoff post 0 retry_limit),
        delays,
      )
