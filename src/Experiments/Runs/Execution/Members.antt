-- ===== src/Experiments/Runs/Execution/Members.antt =====
-- Lists of question ids as sets: members added, removed and counted.
use mathlib.Core.Path.{subst}
use mathlib.Core.List.{◌++◌ as append}
use ragbench_kr_implementati.Prelude.{
  suc, ◌≡◌, refl, Bool, true, false, not, ◌&&◌, String, List, [], ◌∷◌, length, if◌then◌else◌,
  str_eq, eq_iff, arith, All, Bool-cases, inl, inr,
}
use ragbench_kr_implementati.Prelude.Assoc.{str_key, contains, distinct}
use ragbench_kr_implementati.Prelude.Lookup.{All-snoc, contains-append, or_left, or_right}
use ragbench_kr_implementati.Experiments.Runs.Execution.{add_id}

pub first_false : (a b : Bool) → (not a && b) ≡ true → a ≡ false
first_false a b h = ground arith

pub second_true : (a b : Bool) → (not a && b) ≡ true → b ≡ true
second_true a b h = ground arith

-- Without a member, and what it leaves of the others.
remove : String → List String → List String
remove id [] = []
remove id (x ∷ xs) = if str_eq x id then xs else x ∷ remove id xs

length-remove :
    (id : String) (xs : List String)
    → contains id xs ≡ true
    → suc (length (remove id xs)) ≡ length xs
unfolding remove contains
length-remove id [] h = absurd (cc)
length-remove id (x ∷ xs) h = ground (arith, length-remove id xs)

contains-remove :
    (id y : String) (xs : List String)
    → str_eq id y ≡ false
    → contains y xs ≡ true
    → contains y (remove id xs) ≡ true
unfolding remove contains
contains-remove id y [] e h = absurd (cc)
contains-remove id y (x ∷ xs) e h =
    ground (arith, contains-remove id y xs e, eq_iff x id, eq_iff x y, eq_iff id y)

pub contains_member :
    (x : String) (xs : List String) (P : String → Bool)
    → All (λ y. P y ≡ true) xs
    → contains x xs ≡ true
    → P x ≡ true
unfolding contains
contains_member x [] P h c = absurd (cc)
contains_member x (y ∷ xs) P h c = elim (Bool-cases (str_eq y x)) [
  | inl e ↦ subst (λ (z : String). P z ≡ true) ((eq_iff y x).0 e) h.0
  | inr e ↦ contains_member x xs P h.1 (rw e at c)
]

-- Distinct members of a list that are as many as it has are all of them.
pub covers-All :
    (xs ys : List String)
    → distinct xs ≡ true
    → All (λ x. contains x ys ≡ true) xs
    → length xs ≡ length ys
    → (y : String) → contains y ys ≡ true
    → contains y xs ≡ true
unfolding distinct contains
covers-All [] [] d h e y c = absurd (cc)
covers-All [] (z ∷ ys) d h e y c = absurd (omega arith)
covers-All (x ∷ xs) ys d h e y c = elim (Bool-cases (str_eq x y)) [
  | inl same ↦ or_left _ _ same
  | inr other ↦ or_right _ _ (
      covers-All xs (remove x ys) (second_true _ _ d) (others x xs ys (first_false _ _ d) h.1)
        (omega (arith, length-remove x ys h.0)) y (contains-remove x y ys other c))
]
  where
    others :
        (x : String) (xs ys : List String)
        → contains x xs ≡ false
        → All (λ z. contains z ys ≡ true) xs
        → All (λ z. contains z (remove x ys) ≡ true) xs
    others x [] ys f h = tt
    others x (z ∷ xs) ys f h = (
      contains-remove x z ys (ground (arith, eq_iff z x, eq_iff x z)) h.0,
      others x xs ys (ground arith) h.1,
    )

pub distinct-snoc :
    (id : String) (ids : List String)
    → contains id ids ≡ false
    → distinct ids ≡ true
    → distinct (append ids (id ∷ [])) ≡ true
unfolding contains distinct
distinct-snoc id [] f d = refl
distinct-snoc id (x ∷ ids) f d =
    ground (arith, distinct-snoc id ids, contains-append x ids (id ∷ []), eq_iff x id, eq_iff id x)

pub distinct-add_id :
    (id : String) (ids : List String) → distinct ids ≡ true → distinct (add_id id ids) ≡ true
unfolding contains
distinct-add_id id ids d = elim (Bool-cases (contains id ids)) [
  | inl there ↦ rw there d
  | inr fresh ↦ rw fresh (distinct-snoc id ids fresh d)
]

pub All-add_id :
    (P : String → Type 0) (id : String) (ids : List String)
    → P id
    → All P ids
    → All P (add_id id ids)
unfolding contains
All-add_id P id ids p h = elim (Bool-cases (contains id ids)) [
  | inl there ↦ rw there h
  | inr fresh ↦ rw fresh (All-snoc P ids id h p)
]

pub still_distinct :
    (id : String) (later ids : List String)
    → contains id ids ≡ false
    → distinct later ≡ true
    → (contains id later ≡ true → contains id ids ≡ true)
    → distinct (id ∷ later) ≡ true
unfolding distinct
still_distinct id later ids f d g = ground arith

pub widen :
    (id other : String) (ids later : List String)
    → contains other (id ∷ later) ≡ true
    → (contains other later ≡ true → contains other ids ≡ true)
    → contains other (id ∷ ids) ≡ true
unfolding contains
widen id other ids later c g = elim (Bool-cases (str_eq id other)) [
  | inl e ↦ rw e refl
  | inr e ↦ rw e (g (rw e at c))
]
