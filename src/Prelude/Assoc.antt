-- ===== src/Prelude/Assoc.antt =====
-- Python's `dict` as an association list in insertion order: a new key goes to the end, and an
-- assignment to a key that is there keeps its place.
use mathlib.Core.Logic.Or
use mathlib.Core.Path.{subst}
use mathlib.Core.Option
use mathlib.Core.Bool.{false≢true}
use mathlib.Core.List.{Mem, mem-cons, not-mem-nil}
use ragbench_kr_implementati.Prelude.Int.{ℤ, eqb_ℤ, eqb_ℤ-eq, parts_eq}
use ragbench_kr_implementati.Prelude.{
  ℕ, ◌≡◌, refl, ◌↔◌, Bool, true, false, not, ◌&&◌, ◌||◌, Option, none, some, List, [], ◌∷◌, String,
  arith, All, AllPairs, ◌≢◌, sym, ap, ◌∙◌, Bool-cases, inl, inr, if◌then◌else◌, str_eq, eq_iff,
  ◌==◌ as nat_eq, ==_iff,
}

-- Equality of keys.
pub record Key {ℓ} (K : Type ℓ) : Type ℓ where
  pub eq : K → K → Bool
  pub eq_lem : (a b : K) → (eq a b ≡ true) ↔ (a ≡ b)

instance abbrev pub str_key : Key String
str_key = record { eq = str_eq; eq_lem = eq_iff }

instance abbrev pub nat_key : Key ℕ
nat_key = record { eq = nat_eq; eq_lem = ==_iff }

pub and_left : (a b : Bool) → a && b ≡ true → a ≡ true
and_left a b h = ground arith

pub and_right : (a b : Bool) → a && b ≡ true → b ≡ true
and_right a b h = ground arith

both_true : (a b : Bool) → a ≡ true → b ≡ true → (a && b) ≡ true
both_true a b h k = ground arith

pub int_eq_lem : (a b : ℤ) → (eqb_ℤ a b ≡ true) ↔ (a ≡ b)
int_eq_lem a b = (eqb_ℤ-eq a b, λ e. ground (arith, parts_eq e))

instance abbrev pub int_key : Key ℤ
int_key = record { eq = eqb_ℤ; eq_lem = int_eq_lem }

-- A tuple is equal component by component.
module _ {ℓ κ} {K : Type ℓ} {L : Type κ} ⦃k : Key K⦄ ⦃l : Key L⦄ where
  abbrev pub eq_pair : K × L → K × L → Bool
  eq_pair a b = k.eq a.0 b.0 && l.eq a.1 b.1

  pub eq_pair_lem : (a b : K × L) → (eq_pair a b ≡ true) ↔ (a ≡ b)
  eq_pair_lem a b = (
    λ e.
        let first = (k.eq_lem a.0 b.0).0 (and_left _ _ e) in
        let second = (l.eq_lem a.1 b.1).0 (and_right (k.eq a.0 b.0) _ e) in
        λ i. (first i, second i),
    λ e.
        both_true (k.eq a.0 b.0) (l.eq a.1 b.1) ((k.eq_lem a.0 b.0).1 (λ i. (e i).0))
          ((l.eq_lem a.1 b.1).1 (λ i. (e i).1)),
  )

  instance abbrev pub pair_key : Key (K × L)
  pair_key = record { eq = eq_pair; eq_lem = eq_pair_lem }

module _ {ℓ} {K : Type ℓ} ⦃k : Key K⦄ where
  -- `a in xs`
  unfoldable pub contains : K → List K → Bool
  contains a [] = false
  contains a (x ∷ xs) = k.eq x a || contains a xs

  -- `len(set(xs)) == len(xs)`
  unfoldable pub distinct : List K → Bool
  unfolding contains
  distinct [] = true
  distinct (x ∷ xs) = not (contains x xs) && distinct xs

module _ {ℓ κ} {K : Type ℓ} {V : Type κ} ⦃k : Key K⦄ where
  unfoldable pub lookup : K → List (K × V) → Option V
  lookup a [] = none
  lookup a ((b, v) ∷ m) = if k.eq b a then some v else lookup a m

  unfoldable pub put : K → V → List (K × V) → List (K × V)
  put a v [] = (a, v) ∷ []
  put a v ((b, w) ∷ m) = if k.eq b a then (b, v) ∷ m else (b, w) ∷ put a v m

  pub lookup-put :
      (a b : K) (v : V) (m : List (K × V))
      → lookup b (put a v m) ≡ (if k.eq a b then some v else lookup b m)
  unfolding lookup put
  lookup-put a b v [] = refl
  lookup-put a b v ((c, w) ∷ m) =
      ground (arith, k.eq_lem a b, k.eq_lem c a, k.eq_lem c b, lookup-put a b v m)

pub self_key {ℓ} : {K : Type ℓ} ⦃k : Key K⦄ (a : K) → k.eq a a ≡ true
self_key ⦃k⦄ a = (k.eq_lem a a).1 refl

module _ {ℓ κ} {K : Type ℓ} {V : Type κ} where
  -- A dict has each key once.
  abbrev pub HasDistinctKeys : List (K × V) → Type ℓ
  HasDistinctKeys m = AllPairs (λ a b. a.0 ≢ b.0) m

module _ {ℓ κ} {K : Type ℓ} {V : Type κ} ⦃k : Key K⦄ where
  All-put {μ} :
      (P : K → Type μ) (a : K) (v : V) (m : List (K × V))
      → P a
      → All (λ entry. P entry.0) m
      → All (λ entry. P entry.0) (put a v m)
  unfolding put
  All-put P a v [] p h = (p, tt)
  All-put P a v ((b, w) ∷ m) p h = elim (Bool-cases (k.eq b a)) [
    | inl e ↦ rw e h
    | inr e ↦ rw e (h.0, All-put P a v m p h.1)
  ]

  pub put-HasDistinctKeys :
      (a : K) (v : V) (m : List (K × V)) → HasDistinctKeys m → HasDistinctKeys (put a v m)
  unfolding put
  put-HasDistinctKeys a v [] h = (tt, tt)
  put-HasDistinctKeys a v ((b, w) ∷ m) h = elim (Bool-cases (k.eq b a)) [
    | inl e ↦ rw e h
    | inr e ↦ rw e (
      All-put (λ c. b ≢ c) a v m (λ same. false≢true (sym e ∙ (k.eq_lem b a).1 same)) h.0,
      put-HasDistinctKeys a v m h.1,
    )
  ]

  lookup_absent : (a : K) (m : List (K × V)) → All (λ entry. a ≢ entry.0) m → lookup a m ≡ none
  unfolding lookup
  lookup_absent a [] h = refl
  lookup_absent a ((b, w) ∷ m) h = elim (Bool-cases (k.eq b a)) [
    | inl e ↦ absurd (h.0 (sym ((k.eq_lem b a).0 e)))
    | inr e ↦ rw e (lookup_absent a m h.1)
  ]

  lookup-Mem : (a : K) (v : V) (m : List (K × V)) → lookup a m ≡ some v → Mem (a, v) m
  unfolding lookup
  lookup-Mem a v [] h = absurd (ground arith)
  lookup-Mem a v ((b, w) ∷ m) h = elim (Bool-cases (k.eq b a)) [
    | inl e ↦
        mem-cons.1 (
          Or.inl (let same = (k.eq_lem b a).0 e in let value : some w ≡ some v = (rw e at h) in cc))
    | inr e ↦ mem-cons.1 (Or.inr (lookup-Mem a v m (rw e at h)))
  ]

  Mem-lookup :
      (s : IsSet V) (a : K) (v : V) (m : List (K × V))
      → HasDistinctKeys m
      → Mem (a, v) m
      → lookup a m ≡ some v
  unfolding lookup
  Mem-lookup s a v [] d h = absurd (not-mem-nil h)
  Mem-lookup s a v ((b, w) ∷ m) d h =
      Or.elim (Option.is_set s _ _) (mem-cons.0 h)
        (λ same.
          rw ((k.eq_lem b a).1 (sym (ap (λ entry. entry.0) same)))
            (ap some (sym (ap (λ entry. entry.1) same))))
        (λ later. shadowed b w (Mem-lookup s a v m d.1 later) d.0)
    where
      shadowed :
          (b : K) (w : V)
          → lookup a m ≡ some v
          → All (λ entry. b ≢ entry.0) m
          → (if k.eq b a then some w else lookup a m) ≡ some v
      shadowed b w found fresh = elim (Bool-cases (k.eq b a)) [
        | inl e ↦ let missing = lookup_absent a m (rw ((k.eq_lem b a).0 e) at fresh) in absurd (cc)
        | inr e ↦ rw e found
      ]

  pub Mem-lookup_iff :
      (s : IsSet V) (a : K) (v : V) (m : List (K × V))
      → HasDistinctKeys m
      → Mem (a, v) m ↔ (lookup a m ≡ some v)
  Mem-lookup_iff s a v m d = (Mem-lookup s a v m d, lookup-Mem a v m)

both : (a b : Bool) → (a ≡ true → b ≡ true) → (b ≡ true → a ≡ true) → a ≡ b
both true true f g = refl
both true false f g = sym (f refl)
both false true f g = g refl
both false false f g = refl

module _ {ℓ} {K : Type ℓ} ⦃k : Key K⦄ where
  -- `set(xs)`, each value once.
  unfoldable pub to_set : List K → List K
  unfolding contains
  to_set [] = []
  to_set (x ∷ xs) = let rest = to_set xs in if contains x xs then rest else x ∷ rest

  all_in : List K → List K → Bool
  unfolding contains
  all_in [] ys = true
  all_in (x ∷ xs) ys = contains x ys && all_in xs ys

  -- `xs.keys() == ys.keys()`, of the keys of two dicts.
  unfoldable pub same_keys : List K → List K → Bool
  unfolding all_in
  same_keys xs ys = all_in xs ys && all_in ys xs

  all_in-contains :
      (xs ys : List K) (a : K) → all_in xs ys ≡ true → contains a xs ≡ true → contains a ys ≡ true
  unfolding all_in contains
  all_in-contains [] ys a h m = cc
  all_in-contains (x ∷ xs) ys a h m = elim (Bool-cases (k.eq x a)) [
    | inl e ↦ subst (λ (b : K). contains b ys ≡ true) ((k.eq_lem x a).0 e) (and_left _ _ h)
    | inr e ↦ all_in-contains xs ys a (and_right (contains x ys) _ h) (rw e at m)
  ]

  -- Key views that are equal have the same keys.
  pub same_keys-contains :
      (xs ys : List K) → same_keys xs ys ≡ true → (a : K) → contains a xs ≡ contains a ys
  unfolding same_keys
  same_keys-contains xs ys h a =
      both _ _ (all_in-contains xs ys a (and_left _ _ h))
        (all_in-contains ys xs a (and_right (all_in xs ys) _ h))
