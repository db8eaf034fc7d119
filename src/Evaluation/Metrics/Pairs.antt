-- ===== src/Evaluation/Metrics/Pairs.antt =====
-- The pairing of two evaluations for the bootstrap.
use mathlib.Core.Path.{subst, ap₂}
use ragbench_kr_implementati.Prelude.{
  ◌≡◌, refl, ap, sym, ◌∙◌, Option, none, some, Bool, true, false, not, not-false, ◌||◌, String,
  List, [], ◌∷◌, map, All, AllPairs, str_eq, eq_iff, if◌then◌else◌, arith,
}
use ragbench_kr_implementati.Prelude.Int.{eqb_ℤ, eqb_ℤ-eq}
use ragbench_kr_implementati.Prelude.Float.{Float}
use ragbench_kr_implementati.Prelude.Result.{ok, raise_if-eq-ok, >>=-eq-ok, ok-injective}
use ragbench_kr_implementati.Prelude.Sorting.{
  ascending_str, sorted, sorted-IsSorted, IsSorted-AllPairs,
}
use ragbench_kr_implementati.Prelude.Text.{str_leb}
use ragbench_kr_implementati.Prelude.Lookup.{contains-put}
use ragbench_kr_implementati.Prelude.Once.{IsOnceEach, keys-IsOnceEach, sorted-IsOnceEach}
use ragbench_kr_implementati.Prelude.Assoc.{
  str_key, contains, lookup, lookup-put, put, same_keys, same_keys-contains, HasDistinctKeys,
  put-HasDistinctKeys,
}
use ragbench_kr_implementati.Evaluation.Metrics.{
  BootstrapInput, PairedBootstrapInput, RetrievalEvaluation, index_rows, pair_rows, pair_found,
  pair_all, paired_bootstrap_inputs,
}

-- The later of two rows.
abbrev later {ℓ} : {A : Type ℓ} → Option A → Option A → Option A
later (some b) a = some b
later none a = a

module _ (float : Float) where
  open float use {F}

  -- The last of the rows of a question.
  abbrev pub last_row : String → List (BootstrapInput F) → Option (BootstrapInput F)
  last_row id [] = none
  last_row id (row ∷ rows) =
      later (last_row id rows) (if str_eq row.question_id id then some row else none)

  abbrev pub questions_of : List (BootstrapInput F) → List String
  questions_of rows = map (λ row. row.question_id) rows

  later_put :
      (b : Option (BootstrapInput F)) (test : Bool) (row : BootstrapInput F)
      (found : Option (BootstrapInput F))
      → later b (if test then some row else found)
        ≡ later (later b (if test then some row else none)) found
  later_put none true row found = refl
  later_put none false row found = refl
  later_put (some x) test row found = refl

  lookup-index_rows_from :
      (id : String) (by_id : List (String × BootstrapInput F)) (rows : List (BootstrapInput F))
      → lookup id (index_rows float by_id rows) ≡ later (last_row id rows) (lookup id by_id)
  unfolding index_rows
  lookup-index_rows_from id by_id [] = refl
  lookup-index_rows_from id by_id (row ∷ rows) =
      lookup-index_rows_from id (put row.question_id row by_id) rows
      ∙ ap (later (last_row id rows)) (lookup-put row.question_id id row by_id)
      ∙ later_put (last_row id rows) (str_eq row.question_id id) row (lookup id by_id)

  later-none : (a : Option (BootstrapInput F)) → later a none ≡ a
  later-none none = refl
  later-none (some x) = refl

  -- The index has the last row of each question.
  lookup-index_rows :
      (id : String) (rows : List (BootstrapInput F))
      → lookup id (index_rows float [] rows) ≡ last_row id rows
  unfolding lookup
  lookup-index_rows id rows = lookup-index_rows_from id [] rows ∙ later-none (last_row id rows)

  contains-index_rows :
      (id : String) (by_id : List (String × BootstrapInput F)) (rows : List (BootstrapInput F))
      → contains id (map (λ e. e.0) (index_rows float by_id rows))
        ≡ (contains id (map (λ e. e.0) by_id) || contains id (questions_of rows))
  unfolding index_rows contains
  contains-index_rows id by_id [] = ground arith
  contains-index_rows id by_id (row ∷ rows) = ground (
    arith,
    contains-index_rows id (put row.question_id row by_id) rows,
    contains-put row.question_id id row by_id,
  )

  keys-index_rows :
      (id : String) (rows : List (BootstrapInput F))
      → contains id (map (λ e. e.0) (index_rows float [] rows)) ≡ contains id (questions_of rows)
  unfolding contains
  keys-index_rows id rows = contains-index_rows id [] rows

  index_rows-HasDistinctKeys :
      (by_id : List (String × BootstrapInput F)) (rows : List (BootstrapInput F))
      → HasDistinctKeys by_id
      → HasDistinctKeys (index_rows float by_id rows)
  unfolding index_rows
  index_rows-HasDistinctKeys by_id [] h = h
  index_rows-HasDistinctKeys by_id (row ∷ rows) h =
      index_rows-HasDistinctKeys (put row.question_id row by_id) rows
        (put-HasDistinctKeys row.question_id row by_id h)

  -- A pair of its two sides' last rows of one question.
  abbrev pub IsPairOf :
      List (BootstrapInput F) → List (BootstrapInput F) → PairedBootstrapInput F → Type 0
  IsPairOf lefts rights pair =
      (left : BootstrapInput F) × (right : BootstrapInput F) × (last_row pair.question_id lefts
        ≡ some left)
      × (last_row pair.question_id rights ≡ some right)
      × (left.question_type ≡ right.question_type)
      × (pair ≡ pair_rows float pair.question_id left right)

  pair_found_lem :
      (left_by_id right_by_id : List (BootstrapInput F)) (question_id : String)
      (l r : Option (BootstrapInput F)) (pair : PairedBootstrapInput F)
      → last_row question_id left_by_id ≡ l
      → last_row question_id right_by_id ≡ r
      → pair_found float question_id l r ≡ ok pair
      → IsPairOf left_by_id right_by_id pair × (pair.question_id ≡ question_id)
  unfolding pair_found
  pair_found_lem left_by_id right_by_id question_id none r pair el er e = cc
  pair_found_lem left_by_id right_by_id question_id (some left) none pair el er e = cc
  pair_found_lem left_by_id right_by_id question_id (some left) (some right) pair el er e =
      let (same, last) =
        raise_if-eq-ok (not (str_eq left.question_type right.question_type)) _ _ e in
      subst
        (λ (p : PairedBootstrapInput F).
          IsPairOf left_by_id right_by_id p × (p.question_id ≡ question_id))
        (ok-injective last)
        (
          (
            left,
            right,
            el,
            er,
            (eq_iff left.question_type right.question_type).0
                (not-false (str_eq left.question_type right.question_type) same),
            refl,
          ),
          refl,
        )

  pair_all_lem :
      (lefts rights : List (BootstrapInput F)) (ids : List String)
      (pairs : List (PairedBootstrapInput F))
      → pair_all float (index_rows float [] lefts) (index_rows float [] rights) ids ≡ ok pairs
      → All (IsPairOf lefts rights) pairs × (map (λ pair. pair.question_id) pairs ≡ ids)
  unfolding pair_all
  pair_all_lem lefts rights [] pairs e =
      subst
        (λ (ps : List (PairedBootstrapInput F)).
          All (IsPairOf lefts rights) ps × (map (λ pair. pair.question_id) ps ≡ []))
        (ok-injective e) (tt, refl)
  pair_all_lem lefts rights (id ∷ ids) pairs e =
      let left_by_id = index_rows float [] lefts in
      let right_by_id = index_rows float [] rights in
      let (pair, first, e₁) =
        >>=-eq-ok (pair_found float id (lookup id left_by_id) (lookup id right_by_id)) _ e in
      let (rest, others, e₂) = >>=-eq-ok (pair_all float left_by_id right_by_id ids) _ e₁ in
      let (is_pair, same) =
        pair_found_lem lefts rights id _ _ pair (sym (lookup-index_rows id lefts))
          (sym (lookup-index_rows id rights)) first in
      let (all_pairs, same_ids) = pair_all_lem lefts rights ids rest others in
      subst
        (λ (ps : List (PairedBootstrapInput F)).
          All (IsPairOf lefts rights) ps × (map (λ pair. pair.question_id) ps ≡ id ∷ ids))
        (ok-injective e₂)
        ((is_pair, all_pairs), ap₂ (λ (x : String) (xs : List String). x ∷ xs) same same_ids)

  -- When the pairing returns, the two evaluations have the same k and the same questions with a
  -- bootstrap input; there is one pair for each of those questions and no other, in the order of the
  -- ids; and each pair has the values of the two sides' last rows of its question, whose question types
  -- agree.
  pub pairing :
      (left right : RetrievalEvaluation F) (pairs : List (PairedBootstrapInput F))
      → paired_bootstrap_inputs float left right ≡ ok pairs
      → let lefts = left.bootstrap_inputs in
        let rights = right.bootstrap_inputs in
        let ids = map (λ pair. pair.question_id) pairs in
        (left.k ≡ right.k)
        × ((id : String) → contains id (questions_of lefts) ≡ contains id (questions_of rights))
        × IsOnceEach (questions_of lefts) ids
        × AllPairs (λ a b. str_leb a b ≡ true) ids
        × All (IsPairOf lefts rights) pairs
  unfolding paired_bootstrap_inputs
  pairing left right pairs returned =
      let lefts = left.bootstrap_inputs in
      let rights = right.bootstrap_inputs in
      let ids = map (λ (e : String × BootstrapInput F). e.0) (index_rows float [] lefts) in
      let ids' = map (λ (e : String × BootstrapInput F). e.0) (index_rows float [] rights) in
      let (same_k, e₁) = raise_if-eq-ok (not (eqb_ℤ left.k right.k)) _ _ returned in
      let (same, e₂) = raise_if-eq-ok (not (same_keys ids ids')) _ _ e₁ in
      let (all_pairs, same_ids) = pair_all_lem lefts rights _ pairs e₂ in
      (
        eqb_ℤ-eq left.k right.k (not-false _ same_k),
        λ id.
            sym (keys-index_rows id lefts)
            ∙ same_keys-contains ids ids' (not-false _ same) id
            ∙ keys-index_rows id rights,
        subst (IsOnceEach (questions_of lefts)) (sym same_ids) (
            sorted-IsOnceEach ascending_str ids (questions_of lefts) ids
              (λ id. keys-index_rows id lefts)
              (keys-IsOnceEach (index_rows float [] lefts)
                (index_rows-HasDistinctKeys [] lefts tt))),
        subst (AllPairs (λ a b. str_leb a b ≡ true)) (sym same_ids) (
            IsSorted-AllPairs ascending_str (sorted ascending_str ids)
              (sorted-IsSorted ascending_str ids)),
        all_pairs,
      )
