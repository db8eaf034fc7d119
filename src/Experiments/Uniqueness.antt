-- ===== src/Experiments/Uniqueness.antt =====
-- Planned configurations are returned exactly when their hashes are distinct.
use ragbench_kr_implementati.Prelude.{
  ◌≡◌, ◌↔◌, refl, Bool, true, false, not, ◌&&◌, String, List, [], ◌∷◌, map, arith, eq_iff,
}
use ragbench_kr_implementati.Prelude.Result.{ok, raise_if-eq-ok, >>=-eq-ok}
use ragbench_kr_implementati.Prelude.Assoc.{str_key, contains, distinct, and_left}
use ragbench_kr_implementati.Experiments.{
  RetrievalExperimentConfig, check_unique, require_unique_configs,
}

-- No value of a list is among those seen.
disjoint : List String → List String → Bool
disjoint seen [] = true
disjoint seen (x ∷ xs) = not (contains x seen) && disjoint seen xs

disjoint-nil : (xs : List String) → disjoint [] xs ≡ true
unfolding disjoint contains
disjoint-nil [] = refl
disjoint-nil (x ∷ xs) = disjoint-nil xs

disjoint-cons :
    (x : String) (seen xs : List String)
    → disjoint (x ∷ seen) xs ≡ (not (contains x xs) && disjoint seen xs)
unfolding disjoint contains
disjoint-cons x seen [] = refl
disjoint-cons x seen (y ∷ ys) = ground (arith, disjoint-cons x seen ys, eq_iff x y, eq_iff y x)

module _ {F : Type 0} (semantic_hash : RetrievalExperimentConfig F → String) where
  abbrev hashes : List (RetrievalExperimentConfig F) → List String
  hashes configs = map semantic_hash configs

  check_unique-ok :
      (seen : List String) (configs : List (RetrievalExperimentConfig F))
      → check_unique semantic_hash seen configs ≡ ok tt
      → (distinct (hashes configs) && disjoint seen (hashes configs)) ≡ true
  unfolding check_unique distinct disjoint
  check_unique-ok seen [] e = refl
  check_unique-ok seen (config ∷ configs) e =
      let (fresh, rest) = raise_if-eq-ok (contains (semantic_hash config) seen) _ _ e in
      let ih = check_unique-ok (semantic_hash config ∷ seen) configs rest in
      ground (arith, ih, fresh, disjoint-cons (semantic_hash config) seen (hashes configs))

  check_unique_returns :
      (seen : List String) (configs : List (RetrievalExperimentConfig F))
      → (distinct (hashes configs) && disjoint seen (hashes configs)) ≡ true
      → check_unique semantic_hash seen configs ≡ ok tt
  unfolding check_unique distinct disjoint
  check_unique_returns seen [] h = refl
  check_unique_returns seen (config ∷ configs) h =
      let fresh : contains (semantic_hash config) seen ≡ false = ground arith in
      rw fresh (
        check_unique_returns (semantic_hash config ∷ seen) configs
          (ground (arith, h, disjoint-cons (semantic_hash config) seen (hashes configs))))

  -- Planned configurations are returned, unchanged, exactly when their semantic hashes are distinct.
  pub require_unique_configs_iff :
      (configs : List (RetrievalExperimentConfig F))
      → (require_unique_configs semantic_hash configs ≡ ok configs)
        ↔ (distinct (map semantic_hash configs) ≡ true)
  unfolding require_unique_configs
  require_unique_configs_iff configs = (
    λ e.
        let (_, checked, _) = >>=-eq-ok (check_unique semantic_hash [] configs) _ e in
        and_left (distinct (hashes configs)) _ (check_unique-ok [] configs checked),
    λ h. rw (check_unique_returns [] configs (rw (h, disjoint-nil (hashes configs)) refl)) refl,
  )
