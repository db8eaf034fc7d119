-- ===== src/Prelude/Once.antt =====
-- Lists that have each of certain names once.
use ragbench_kr_implementati.Prelude.{
  ℕ, ◌+◌, ◌≡◌, ◌≢◌, refl, ap, sym, ◌∙◌, Bool, true, false, ◌||◌, List, [], ◌∷◌, map, sum_of,
  sum_of-map, arith, All, if◌then◌else◌, Bool-cases, inl, inr,
}
use ragbench_kr_implementati.Prelude.Assoc.{Key, contains, HasDistinctKeys}
use ragbench_kr_implementati.Prelude.Sorting.{Preorder, sorted, sum_of-sorted}

module _ {ℓ} {K : Type ℓ} ⦃k : Key K⦄ where
  -- `xs.count(a)`
  abbrev pub count_key : K → List K → ℕ
  count_key a xs = sum_of (λ x. if k.eq x a then 1 else 0) xs

  -- Each of the names once, and nothing else.
  abbrev pub IsOnceEach : List K → List K → Type ℓ
  IsOnceEach names xs = (a : K) → count_key a xs ≡ (if contains a names then 1 else 0)

one_of :
    (a b : Bool) (n : ℕ)
    → n ≡ (if b then 1 else 0)
    → (a ≡ true → b ≡ false)
    → (if a then 1 else 0) + n ≡ (if a || b then 1 else 0)
one_of true b n h f =
    let none_left = f refl in let no_more : n ≡ 0 = rw none_left at h in omega (arith, no_more)
one_of false b n h f = omega (arith, h)

module _ {ℓ κ} {K : Type ℓ} {V : Type κ} ⦃k : Key K⦄ where
  key_absent :
      (a b : K) (m : List (K × V))
      → k.eq b a ≡ true
      → All (λ entry. b ≢ entry.0) m
      → contains a (map (λ entry. entry.0) m) ≡ false
  unfolding contains
  key_absent a b [] e h = refl
  key_absent a b ((c, w) ∷ m) e h = elim (Bool-cases (k.eq c a)) [
    | inl same ↦ absurd (h.0 ((k.eq_lem b a).0 e ∙ sym ((k.eq_lem c a).0 same)))
    | inr other ↦ rw other (key_absent a b m e h.1)
  ]

  -- A dict has each of its keys once.
  pub keys-IsOnceEach :
      (m : List (K × V))
      → HasDistinctKeys m
      → IsOnceEach (map (λ entry. entry.0) m) (map (λ entry. entry.0) m)
  unfolding contains
  keys-IsOnceEach [] h a = refl
  keys-IsOnceEach ((b, w) ∷ m) h a =
      one_of (k.eq b a) (contains a (map (λ entry. entry.0) m)) _ (keys-IsOnceEach m h.1 a)
        (λ e. key_absent a b m e h.0)

module _ {ℓ} {K : Type ℓ} ⦃k : Key K⦄ where
  -- Sorting keeps how often a name occurs.
  pub sorted-IsOnceEach :
      (o : Preorder K) (names names' xs : List K)
      → ((a : K) → contains a names ≡ contains a names')
      → IsOnceEach names xs
      → IsOnceEach names' (sorted o xs)
  sorted-IsOnceEach o names names' xs same h a =
      sum_of-sorted o (λ x. if k.eq x a then 1 else 0) xs
      ∙ h a
      ∙ ap (λ (there : Bool). if there then 1 else 0) (same a)

module _ {ℓ κ} {K : Type ℓ} {A : Type κ} ⦃k : Key K⦄ where
  -- Sorting rows keeps how often a name occurs among their keys.
  pub sorted_keys-IsOnceEach :
      (o : Preorder A) (key : A → K) (names names' : List K) (rows : List A)
      → ((a : K) → contains a names ≡ contains a names')
      → IsOnceEach names (map key rows)
      → IsOnceEach names' (map key (sorted o rows))
  sorted_keys-IsOnceEach o key names names' rows same h a =
      let share = λ (x : K). if k.eq x a then 1 else 0 in
      sum_of-map share key (sorted o rows)
      ∙ sum_of-sorted o (λ row. share (key row)) rows
      ∙ sym (sum_of-map share key rows)
      ∙ h a
      ∙ ap (λ (there : Bool). if there then 1 else 0) (same a)
