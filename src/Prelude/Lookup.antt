-- ===== src/Prelude/Lookup.antt =====
-- What a missing key says of a dict, and membership in a list that grows at its end.
use mathlib.Core.Path.{subst}
use mathlib.Core.List.{Mem, mem-cons}
use mathlib.Core.Logic.Or
use mathlib.Core.Bool.{false≢true}
use ragbench_kr_implementati.Prelude.{
  ◌≡◌, ◌≢◌, refl, ap, sym, ◌∙◌, Bool, true, ◌||◌, none, some, List, [], ◌∷◌, ◌++◌, map, arith, All,
  AllPairs, Bool-cases, inl, inr,
}
use ragbench_kr_implementati.Prelude.Sorting.{Preorder, insert, sorted}
use ragbench_kr_implementati.Prelude.Assoc.{Key, contains, lookup, put, self_key}

-- A property of every member.
pub All-of_Mem {ℓ κ} :
    {A : Type ℓ} {P : A → Type κ} (xs : List A) → ((a : A) → Mem a xs → P a) → All P xs
All-of_Mem [] f = tt
All-of_Mem (x ∷ xs) f =
    (f x (mem-cons.1 (Or.inl refl)), All-of_Mem xs (λ a m. f a (mem-cons.1 (Or.inr m))))

module _ {ℓ κ} {A : Type ℓ} where
  pub All-snoc : (P : A → Type κ) (xs : List A) (y : A) → All P xs → P y → All P (xs ++ y ∷ [])
  All-snoc P [] y h p = (p, tt)
  All-snoc P (x ∷ xs) y h p = (h.0, All-snoc P xs y h.1 p)

  pub AllPairs-snoc :
      (R : A → A → Type κ) (xs : List A) (y : A)
      → AllPairs R xs
      → All (λ x. R x y) xs
      → AllPairs R (xs ++ y ∷ [])
  AllPairs-snoc R [] y h k = (tt, tt)
  AllPairs-snoc R (x ∷ xs) y h k = (All-snoc (R x) xs y h.0 k.0, AllPairs-snoc R xs y h.1 k.1)

  pub All-skip :
      (P : A → Type κ) (xs : List A) (y : A) (ys : List A) → All P (xs ++ y ∷ ys) → All P (xs ++ ys)
  All-skip P [] y ys h = h.1
  All-skip P (x ∷ xs) y ys h = (h.0, All-skip P xs y ys h.1)

  -- Pairs of rows that stay when a row is left out.
  pub AllPairs_skip :
      (R : A → A → Type κ) (xs : List A) (y : A) (ys : List A)
      → AllPairs R (xs ++ y ∷ ys)
      → AllPairs R (xs ++ ys)
  AllPairs_skip R [] y ys h = h.1
  AllPairs_skip R (x ∷ xs) y ys h = (All-skip (R x) xs y ys h.0, AllPairs_skip R xs y ys h.1)

module _ {ℓ} {K : Type ℓ} ⦃k : Key K⦄ where
  pub contains-append :
      (a : K) (xs ys : List K) → contains a (xs ++ ys) ≡ (contains a xs || contains a ys)
  unfolding contains
  contains-append a [] ys = refl
  contains-append a (x ∷ xs) ys = ground (arith, contains-append a xs ys)

module _ {ℓ κ} {K : Type ℓ} {V : Type κ} ⦃k : Key K⦄ where
  pub put_absent :
      (a : K) (v : V) (m : List (K × V)) → lookup a m ≡ none → put a v m ≡ m ++ (a, v) ∷ []
  unfolding lookup put
  put_absent a v [] h = refl
  put_absent a v ((b, w) ∷ m) h = elim (Bool-cases (k.eq b a)) [
    | inl e ↦ absurd (let found : some w ≡ none = rw e at h in cc)
    | inr e ↦ rw e (ap (λ (rest : List (K × V)). (b, w) ∷ rest) (put_absent a v m (rw e at h)))
  ]

  pub lookup-none : (a : K) (m : List (K × V)) → lookup a m ≡ none → All (λ entry. entry.0 ≢ a) m
  unfolding lookup
  lookup-none a [] h = tt
  lookup-none a ((b, w) ∷ m) h = elim (Bool-cases (k.eq b a)) [
    | inl e ↦ absurd (let found : some w ≡ none = rw e at h in cc)
    | inr e ↦ (λ same. false≢true (sym e ∙ (k.eq_lem b a).1 same), lookup-none a m (rw e at h))
  ]

  pub lookup-contains :
      (a : K) (v : V) (m : List (K × V))
      → lookup a m ≡ some v
      → contains a (map (λ entry. entry.0) m) ≡ true
  unfolding lookup contains
  lookup-contains a v [] h = cc
  lookup-contains a v ((b, w) ∷ m) h = elim (Bool-cases (k.eq b a)) [
    | inl e ↦ rw e refl
    | inr e ↦ rw e (lookup-contains a v m (rw e at h))
  ]

or_swap : (a b c : Bool) → (a || (b || c)) ≡ (b || (a || c))
or_swap a b c = ground arith

or_twice : (a b : Bool) → (a || b) ≡ (a || (a || b))
or_twice a b = ground arith

pub or_left : (a b : Bool) → a ≡ true → (a || b) ≡ true
or_left a b h = ground arith

pub or_right : (a b : Bool) → b ≡ true → (a || b) ≡ true
or_right a b h = ground arith

-- Sorting keeps the keys of the rows.
module _ {ℓ κ} {A : Type ℓ} {K : Type κ} ⦃k : Key K⦄ (o : Preorder A) (key : A → K) (a : K) where
  contains-insert :
      (row : A) (rows : List A)
      → contains a (map key (insert o row rows)) ≡ contains a (map key (row ∷ rows))
  unfolding insert contains
  contains-insert row [] = refl
  contains-insert row (first ∷ rows) = elim (Bool-cases (o.le row first)) [
    | inl e ↦ rw e refl
    | inr e ↦ rw e (
        ap (λ b. k.eq (key first) a || b) (contains-insert row rows)
        ∙ or_swap (k.eq (key first) a) (k.eq (key row) a) (contains a (map key rows)))
  ]

  pub contains-sorted :
      (rows : List A) → contains a (map key (sorted o rows)) ≡ contains a (map key rows)
  unfolding sorted contains
  contains-sorted [] = refl
  contains-sorted (row ∷ rows) =
      contains-insert row (sorted o rows) ∙ ap (λ b. k.eq (key row) a || b) (contains-sorted rows)

module _ {ℓ κ} {K : Type ℓ} {V : Type κ} ⦃k : Key K⦄ where
  pub contains-put :
      (a b : K) (v : V) (m : List (K × V))
      → contains b (map (λ entry. entry.0) (put a v m))
        ≡ (k.eq a b || contains b (map (λ entry. entry.0) m))
  unfolding put contains
  contains-put a b v [] = refl
  contains-put a b v ((c, w) ∷ m) = elim (Bool-cases (k.eq c a)) [
    | inl e ↦
        rw e (rw ((k.eq_lem c a).0 e) (or_twice (k.eq a b) (contains b (map (λ entry. entry.0) m))))
    | inr e ↦ rw e (
        ap (λ x. k.eq c b || x) (contains-put a b v m)
        ∙ or_swap (k.eq c b) (k.eq a b) (contains b (map (λ entry. entry.0) m)))
  ]

  pub All-put_value {μ} :
      (P : V → Type μ) (a : K) (v : V) (m : List (K × V))
      → P v
      → All (λ entry. P entry.1) m
      → All (λ entry. P entry.1) (put a v m)
  unfolding put
  All-put_value P a v [] p h = (p, tt)
  All-put_value P a v ((b, w) ∷ m) p h = elim (Bool-cases (k.eq b a)) [
    | inl e ↦ rw e (p, h.1)
    | inr e ↦ rw e (h.0, All-put_value P a v m p h.1)
  ]

  pub lookup-All {μ} :
      (P : V → Type μ) (a : K) (v : V) (m : List (K × V))
      → All (λ entry. P entry.1) m
      → lookup a m ≡ some v
      → P v
  unfolding lookup
  lookup-All P a v [] h found = absurd (cc)
  lookup-All P a v ((b, w) ∷ m) h found = elim (Bool-cases (k.eq b a)) [
    | inl e ↦
        let here : some w ≡ some v = rw e at found in let same : w ≡ v = cc in subst P same h.0
    | inr e ↦ lookup-All P a v m h.1 (rw e at found)
  ]

module _ {ℓ} {K : Type ℓ} ⦃k : Key K⦄ where
  -- A list whose members are all in another.
  pub All-contains :
      (xs ys : List K)
      → ((a : K) → contains a xs ≡ true → contains a ys ≡ true)
      → All (λ a. contains a ys ≡ true) xs
  unfolding contains
  All-contains [] ys f = tt
  All-contains (x ∷ xs) ys f = (
    f x (or_left (k.eq x x) _ (self_key x)),
    All-contains xs ys (λ a h. f a (or_right (k.eq x a) _ h)),
  )

module _ {ℓ κ} {A : Type ℓ} where
  pub All-front : (P : A → Type κ) (xs ys : List A) → All P (xs ++ ys) → All P xs
  All-front P [] ys h = tt
  All-front P (x ∷ xs) ys h = (h.0, All-front P xs ys h.1)

  pub AllPairs_front : (R : A → A → Type κ) (xs ys : List A) → AllPairs R (xs ++ ys) → AllPairs R xs
  AllPairs_front R [] ys h = tt
  AllPairs_front R (x ∷ xs) ys h = (All-front (R x) xs ys h.0, AllPairs_front R xs ys h.1)

-- A dict that is indexed by a key of its values, all of one property.
module _ {ℓ κ μ} {K : Type ℓ} {V : Type κ} ⦃k : Key K⦄ (key : V → K) (P : V → Type μ) where
  abbrev pub IsIndexed : List (K × V) → Type (ℓ ⊔ μ)
  IsIndexed m = All (λ entry. (entry.0 ≡ key entry.1) × P entry.1) m

  pub put-IsIndexed : (v : V) (m : List (K × V)) → P v → IsIndexed m → IsIndexed (put (key v) v m)
  unfolding put
  put-IsIndexed v [] p h = ((refl, p), tt)
  put-IsIndexed v ((b, w) ∷ m) p h = elim (Bool-cases (k.eq b (key v))) [
    | inl e ↦ rw e (((k.eq_lem b (key v)).0 e, p), h.1)
    | inr e ↦ rw e (h.0, put-IsIndexed v m p h.1)
  ]

  pub lookup-IsIndexed :
      (a : K) (v : V) (m : List (K × V)) → IsIndexed m → lookup a m ≡ some v → P v × (key v ≡ a)
  unfolding lookup
  lookup-IsIndexed a v [] h found = absurd (cc)
  lookup-IsIndexed a v ((b, w) ∷ m) h found = elim (Bool-cases (k.eq b a)) [
    | inl e ↦
        let here : some w ≡ some v = rw e at found in
        let same : w ≡ v = cc in
        subst (λ (u : V). P u × (key u ≡ a)) same (h.0.1, sym h.0.0 ∙ (k.eq_lem b a).0 e)
    | inr e ↦ lookup-IsIndexed a v m h.1 (rw e at found)
  ]

-- A property of the keys with their values.
module _ {ℓ κ μ} {K : Type ℓ} {V : Type κ} ⦃k : Key K⦄ (P : K → V → Type μ) where
  abbrev pub AllEntries : List (K × V) → Type μ
  AllEntries m = All (λ entry. P entry.0 entry.1) m

  pub put-AllEntries :
      (a : K) (v : V) (m : List (K × V)) → P a v → AllEntries m → AllEntries (put a v m)
  unfolding put
  put-AllEntries a v [] p h = (p, tt)
  put-AllEntries a v ((b, w) ∷ m) p h = elim (Bool-cases (k.eq b a)) [
    | inl e ↦ rw e (subst (λ (c : K). P c v) (sym ((k.eq_lem b a).0 e)) p, h.1)
    | inr e ↦ rw e (h.0, put-AllEntries a v m p h.1)
  ]

  pub lookup-AllEntries :
      (a : K) (v : V) (m : List (K × V)) → AllEntries m → lookup a m ≡ some v → P a v
  unfolding lookup
  lookup-AllEntries a v [] h found = absurd (cc)
  lookup-AllEntries a v ((b, w) ∷ m) h found = elim (Bool-cases (k.eq b a)) [
    | inl e ↦
        let here : some w ≡ some v = rw e at found in
        let same : w ≡ v = cc in
        subst (λ (c : K). P c v) ((k.eq_lem b a).0 e) (subst (P b) same h.0)
    | inr e ↦ lookup-AllEntries a v m h.1 (rw e at found)
  ]
