-- ===== src/Prelude/Sorting.antt =====
-- Python's `sorted(xs, key=...)`: stable, by a total preorder on the rows. A key tuple is a chain of
-- `then_by`, a negated component is `descending`.
use mathlib.Core.List.{Perm}
use mathlib.Core.List.Perm
use ragbench_kr_implementati.Prelude.{
  ℕ, ◌+◌, ◌≡◌, refl, sum_of, Bool, true, false, ◌&&◌, ◌||◌, not, List, [], ◌∷◌, arith, leb, All,
  AllPairs, All-map, if◌then◌else◌, Bool-cases, inl, inr, String,
}
use ragbench_kr_implementati.Prelude.Int.{ℤ, leb_ℤ}
use ragbench_kr_implementati.Prelude.Text.{str_leb, str_leb_total, str_leb_trans}

pub record Preorder {ℓ} (A : Type ℓ) : Type ℓ where
  pub le : A → A → Bool
  pub total : (a b : A) → le a b ≡ false → le b a ≡ true
  pub trans : (a b c : A) → le a b ≡ true → le b c ≡ true → le a c ≡ true

pub leb_total : (a b : ℕ) → leb a b ≡ false → leb b a ≡ true
leb_total a b h = ground arith

pub leb_trans : (a b c : ℕ) → leb a b ≡ true → leb b c ≡ true → leb a c ≡ true
leb_trans a b c h k = ground arith

abbrev pub ascending_nat : Preorder ℕ
ascending_nat = record { le = leb; total = leb_total; trans = leb_trans }

abbrev pub ascending_str : Preorder String
ascending_str = record { le = str_leb; total = str_leb_total; trans = str_leb_trans }

pub leb_ℤ_total : (a b : ℤ) → leb_ℤ a b ≡ false → leb_ℤ b a ≡ true
leb_ℤ_total a b h = ground arith

pub leb_ℤ_trans : (a b c : ℤ) → leb_ℤ a b ≡ true → leb_ℤ b c ≡ true → leb_ℤ a c ≡ true
leb_ℤ_trans a b c h k = ground arith

abbrev pub ascending_int : Preorder ℤ
ascending_int = record { le = leb_ℤ; total = leb_ℤ_total; trans = leb_ℤ_trans }

module _ {ℓ κ} {A : Type ℓ} {B : Type κ} where
  abbrev pub by_key : (A → B) → Preorder B → Preorder A
  by_key key o = record {
    le = λ a b. o.le (key a) (key b);
    total = λ a b. o.total (key a) (key b);
    trans = λ a b c. o.trans (key a) (key b) (key c);
  }

-- Equal in the first component, then compare by the second.
abbrev pub lex : Bool → Bool → Bool → Bool
lex below above second = below && (not above || second)

module _ {ℓ} {A : Type ℓ} where
  abbrev pub descending : Preorder A → Preorder A
  descending o = record {
    le = λ a b. o.le b a;
    total = λ a b. o.total b a;
    trans = λ a b c h k. o.trans c b a k h;
  }

  pub then_total :
      (o p : Preorder A) (a b : A)
      → lex (o.le a b) (o.le b a) (p.le a b) ≡ false
      → lex (o.le b a) (o.le a b) (p.le b a) ≡ true
  then_total o p a b h = ground (arith, o.total a b, o.total b a, p.total a b)

  pub then_trans :
      (o p : Preorder A) (a b c : A)
      → lex (o.le a b) (o.le b a) (p.le a b) ≡ true
      → lex (o.le b c) (o.le c b) (p.le b c) ≡ true
      → lex (o.le a c) (o.le c a) (p.le a c) ≡ true
  then_trans o p a b c h k =
      ground (arith, o.trans a b c, o.trans b c a, o.trans c a b, p.trans a b c)

  infixr 20 ◌then_by◌
  abbrev pub ◌then_by◌ : Preorder A → Preorder A → Preorder A
  o then_by p = record {
    le = λ a b. lex (o.le a b) (o.le b a) (p.le a b);
    total = then_total o p;
    trans = then_trans o p;
  }

-- Tuples of any length: by the first component that differs, and a prefix comes first.
module _ {ℓ} {A : Type ℓ} (o : Preorder A) where
  unfoldable pub lex_leb : List A → List A → Bool
  lex_leb [] ys = true
  lex_leb (x ∷ xs) [] = false
  lex_leb (x ∷ xs) (y ∷ ys) = lex (o.le x y) (o.le y x) (lex_leb xs ys)

  pub lex_leb_total : (xs ys : List A) → lex_leb xs ys ≡ false → lex_leb ys xs ≡ true
  unfolding lex_leb
  lex_leb_total [] ys h = absurd (cc)
  lex_leb_total (x ∷ xs) [] h = refl
  lex_leb_total (x ∷ xs) (y ∷ ys) h = ground (arith, o.total x y, o.total y x, lex_leb_total xs ys)

  pub lex_leb_trans :
      (xs ys zs : List A) → lex_leb xs ys ≡ true → lex_leb ys zs ≡ true → lex_leb xs zs ≡ true
  unfolding lex_leb
  lex_leb_trans [] ys zs h k = refl
  lex_leb_trans (x ∷ xs) [] zs h k = absurd (cc)
  lex_leb_trans (x ∷ xs) (y ∷ ys) [] h k = cc
  lex_leb_trans (x ∷ xs) (y ∷ ys) (z ∷ zs) h k =
      ground (arith, o.trans x y z, o.trans y z x, o.trans z x y, lex_leb_trans xs ys zs)

  abbrev pub ascending_tuple : Preorder (List A)
  ascending_tuple = record { le = lex_leb; total = lex_leb_total; trans = lex_leb_trans }

module _ {ℓ} {A : Type ℓ} (o : Preorder A) where
  unfoldable pub insert : A → List A → List A
  insert a [] = a ∷ []
  insert a (b ∷ xs) = if o.le a b then a ∷ b ∷ xs else b ∷ insert a xs

  unfoldable pub sorted : List A → List A
  unfolding insert
  sorted [] = []
  sorted (a ∷ xs) = insert a (sorted xs)

  abbrev pub IsSorted : List A → Type ℓ
  IsSorted [] = Unit
  IsSorted (a ∷ xs) = All (λ b. o.le a b ≡ true) xs × IsSorted xs

  All-insert {κ} : (P : A → Type κ) (a : A) (xs : List A) → P a → All P xs → All P (insert a xs)
  unfolding insert
  All-insert P a [] pa h = (pa, tt)
  All-insert P a (b ∷ xs) pa h = elim (Bool-cases (o.le a b)) [
    | inl e ↦ rw e (pa, h)
    | inr e ↦ rw e (h.0, All-insert P a xs pa h.1)
  ]

  insert-IsSorted : (a : A) (xs : List A) → IsSorted xs → IsSorted (insert a xs)
  unfolding insert
  insert-IsSorted a [] s = (tt, tt)
  insert-IsSorted a (b ∷ xs) s = elim (Bool-cases (o.le a b)) [
    | inl e ↦ rw e ((e, All-map (λ c. o.trans a b c e) xs s.0), s)
    | inr e ↦
        rw e (All-insert (λ c. o.le b c ≡ true) a xs (o.total a b e) s.0, insert-IsSorted a xs s.1)
  ]

  pub sorted-IsSorted : (xs : List A) → IsSorted (sorted xs)
  unfolding sorted
  sorted-IsSorted [] = tt
  sorted-IsSorted (a ∷ xs) = insert-IsSorted a (sorted xs) (sorted-IsSorted xs)

  pub IsSorted-AllPairs : (xs : List A) → IsSorted xs → AllPairs (λ a b. o.le a b ≡ true) xs
  IsSorted-AllPairs [] h = tt
  IsSorted-AllPairs (x ∷ xs) h = (h.0, IsSorted-AllPairs xs h.1)

  insert-perm : (a : A) (xs : List A) → Perm (insert a xs) (a ∷ xs)
  unfolding insert
  insert-perm a [] = Perm.rfl
  insert-perm a (b ∷ xs) = elim (Bool-cases (o.le a b)) [
    | inl e ↦ rw e Perm.rfl
    | inr e ↦ rw e (Perm.trans (Perm.cons b (insert-perm a xs)) (Perm.swap a b xs))
  ]

  pub sorted-perm : (xs : List A) → Perm (sorted xs) xs
  unfolding sorted
  sorted-perm [] = Perm.rfl
  sorted-perm (a ∷ xs) = Perm.trans (insert-perm a (sorted xs)) (Perm.cons a (sorted-perm xs))

  -- A property of every row is one of every sorted row.
  pub All-sorted {κ} : (P : A → Type κ) (xs : List A) → All P xs → All P (sorted xs)
  unfolding sorted
  All-sorted P [] h = tt
  All-sorted P (a ∷ xs) h = All-insert P a (sorted xs) h.0 (All-sorted P xs h.1)

  insert-AllPairs {κ} :
      {R : A → A → Type κ}
      → ((a b : A) → R a b → R b a)
      → (a : A) (xs : List A) → All (R a) xs
      → AllPairs R xs
      → AllPairs R (insert a xs)
  unfolding insert
  insert-AllPairs symm a [] ra h = (tt, tt)
  insert-AllPairs {R = R} symm a (b ∷ xs) ra h = elim (Bool-cases (o.le a b)) [
    | inl e ↦ rw e (ra, h)
    | inr e ↦ rw e (All-insert (R b) a xs (symm a b ra.0) h.0, insert-AllPairs symm a xs ra.1 h.1)
  ]

  -- What holds symmetrically of any two rows, holds of any two sorted rows.
  pub sorted-AllPairs {κ} :
      {R : A → A → Type κ}
      → ((a b : A) → R a b → R b a)
      → (xs : List A) → AllPairs R xs
      → AllPairs R (sorted xs)
  unfolding sorted
  sorted-AllPairs symm [] h = tt
  sorted-AllPairs {R = R} symm (a ∷ xs) h =
      insert-AllPairs symm a (sorted xs) (All-sorted (R a) xs h.0) (sorted-AllPairs symm xs h.1)

  sum_of-insert : (f : A → ℕ) (x : A) (xs : List A) → sum_of f (insert x xs) ≡ f x + sum_of f xs
  unfolding insert
  sum_of-insert f x [] = refl
  sum_of-insert f x (y ∷ xs) = ground (arith, sum_of-insert f x xs)

  pub sum_of-sorted : (f : A → ℕ) (xs : List A) → sum_of f (sorted xs) ≡ sum_of f xs
  unfolding sorted
  sum_of-sorted f [] = refl
  sum_of-sorted f (x ∷ xs) = omega (arith, sum_of-insert f x (sorted xs), sum_of-sorted f xs)
