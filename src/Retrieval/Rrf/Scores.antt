-- ===== src/Retrieval/Rrf/Scores.antt =====
-- What the two loops accumulate: each id's score is the sum of its contributions, ranking by ranking.
use mathlib.Core.Path.{subst}
use mathlib.Core.Bool.{false≢true}
use ragbench_kr_implementati.Prelude.{
  ℕ, suc, ◌≡◌, ◌≢◌, All, refl, ap, sym, ◌∙◌, Option, none, some, true, false, not, String, List, [],
  ◌∷◌, eq_iff, str_eq, Bool-cases, inl, inr, if◌then◌else◌,
}
use ragbench_kr_implementati.Prelude.Int.{ℤ, pos, ◌+ℤ◌, eqb_ℤ}
use ragbench_kr_implementati.Prelude.Float.{Float}
use ragbench_kr_implementati.Prelude.Result.{ok, raise_if-eq-ok, >>=-eq-ok, ok-injective}
use ragbench_kr_implementati.Prelude.Assoc.{
  str_key, contains, lookup, put, lookup-put, HasDistinctKeys, put-HasDistinctKeys,
}
use ragbench_kr_implementati.Retrieval.{SearchHit}
use ragbench_kr_implementati.Retrieval.Rrf.{Scores, score_or_zero, fuse_ranking, fuse_rankings}

-- The hit of an id in a ranking.
unfoldable pub find_hit : {F : Type 0} → String → List (SearchHit F) → Option (SearchHit F)
find_hit id [] = none
find_hit id (hit ∷ ranking) = if str_eq hit.chunk_id id then some hit else find_hit id ranking

pub find_hit-absent :
    {F : Type 0} (id : String) (ranking : List (SearchHit F))
    → All (λ hit. id ≢ hit.chunk_id) ranking
    → find_hit id ranking ≡ none
unfolding find_hit
find_hit-absent id [] h = refl
find_hit-absent id (hit ∷ ranking) h = elim (Bool-cases (str_eq hit.chunk_id id)) [
  | inl e ↦ absurd (h.0 (sym ((eq_iff hit.chunk_id id).0 e)))
  | inr e ↦ rw e (find_hit-absent id ranking h.1)
]

pub absent_of_find_hit :
    {F : Type 0} (id : String) (ranking : List (SearchHit F))
    → find_hit id ranking ≡ none
    → All (λ hit. id ≢ hit.chunk_id) ranking
unfolding find_hit
absent_of_find_hit id [] h = tt
absent_of_find_hit id (hit ∷ ranking) h = elim (Bool-cases (str_eq hit.chunk_id id)) [
  | inl e ↦ absurd (let bad = rw e at h in cc)
  | inr e ↦ (
    (λ same. false≢true (sym e ∙ (eq_iff hit.chunk_id id).1 (sym same))),
    absent_of_find_hit id ranking (rw e at h),
  )
]

module _ (float : Float) where
  open float use {F, add, div_int, int_fits}

  -- One ranking adds `weight / (k + rank)` to the score of an id that it ranks.
  abbrev pub contribute : ℤ → F → Option (SearchHit F) → Option F → Option F
  contribute k weight none score = score
  contribute k weight (some hit) score =
      some (add (score_or_zero float score) (div_int weight (k +ℤ hit.rank)))

  pub fused_score : ℤ → String → Option F → List (List (SearchHit F)) → List F → Option F
  fused_score k id score (ranking ∷ rankings) (weight ∷ weights) =
      fused_score k id (contribute k weight (find_hit id ranking) score) rankings weights
  fused_score k id score rankings weights = score

  -- The steps of an iteration that did not raise.
  pub fuse_ranking_step :
      (k : ℤ) (weight : F) (n : ℕ) (seen : List String) (scores scores' : Scores float)
      (hit : SearchHit F) (ranking : List (SearchHit F))
      → fuse_ranking float k weight n seen scores (hit ∷ ranking) ≡ ok scores'
      → (not (eqb_ℤ hit.rank (pos n)) ≡ false)
        × (contains hit.chunk_id seen ≡ false)
        × (fuse_ranking float k weight
              (suc n)
              (hit.chunk_id ∷ seen)
              (put hit.chunk_id
                (add
                  (score_or_zero float (lookup hit.chunk_id scores))
                  (div_int weight (k +ℤ hit.rank)))
                scores)
              ranking
            ≡ ok scores')
  unfolding fuse_ranking
  fuse_ranking_step k weight n seen scores scores' hit ranking h =
      let (in_sequence, rest) = raise_if-eq-ok (not (eqb_ℤ hit.rank (pos n))) _ _ h in
      let (new, last) = raise_if-eq-ok (contains hit.chunk_id seen) _ _ rest in
      let (_, added) = raise_if-eq-ok (not (int_fits (k +ℤ hit.rank))) _ _ last in
      (in_sequence, new, added)

  fuse_ranking_nil :
      (k : ℤ) (weight : F) (n : ℕ) (seen : List String) (scores scores' : Scores float)
      → fuse_ranking float k weight n seen scores [] ≡ ok scores'
      → scores ≡ scores'
  unfolding fuse_ranking
  fuse_ranking_nil k weight n seen scores scores' h = ok-injective h

  pub fuse_ranking-Unseen :
      (k : ℤ) (weight : F) (n : ℕ) (seen : List String) (scores scores' : Scores float)
      (ranking : List (SearchHit F)) (id : String)
      → fuse_ranking float k weight n seen scores ranking ≡ ok scores'
      → contains id seen ≡ true
      → find_hit id ranking ≡ none
  unfolding find_hit contains
  fuse_ranking-Unseen k weight n seen scores scores' [] id h c = refl
  fuse_ranking-Unseen k weight n seen scores scores' (hit ∷ ranking) id h c =
      let (_, new, rest) = fuse_ranking_step k weight n seen scores scores' hit ranking h in
      let later =
        fuse_ranking-Unseen k weight (suc n) (hit.chunk_id ∷ seen) _ scores' ranking id rest in
      elim (Bool-cases (str_eq hit.chunk_id id)) [
        | inl e ↦
            absurd (let same = (eq_iff hit.chunk_id id).0 e in cc (ap (λ i. contains i seen) same))
        | inr e ↦ rw e (later (rw e c))
      ]

  pub lookup-fuse_ranking :
      (k : ℤ) (weight : F) (n : ℕ) (seen : List String) (scores scores' : Scores float)
      (ranking : List (SearchHit F)) (id : String)
      → fuse_ranking float k weight n seen scores ranking ≡ ok scores'
      → lookup id scores' ≡ contribute k weight (find_hit id ranking) (lookup id scores)
  unfolding find_hit contains
  lookup-fuse_ranking k weight n seen scores scores' [] id h =
      ap (lookup id) (sym (fuse_ranking_nil k weight n seen scores scores' h))
  lookup-fuse_ranking k weight n seen scores scores' (hit ∷ ranking) id h =
      let (_, new, rest) = fuse_ranking_step k weight n seen scores scores' hit ranking h in
      let ih =
        lookup-fuse_ranking k weight (suc n) (hit.chunk_id ∷ seen) _ scores' ranking id rest in
      let Unseen =
        fuse_ranking-Unseen k weight (suc n) (hit.chunk_id ∷ seen) _ scores' ranking id rest in
      elim (Bool-cases (str_eq hit.chunk_id id)) [
        | inl e ↦ rw e (
            (rw (Unseen (rw e), lookup-put, e) at ih)
            ∙ ap
                (λ i.
                  some
                    (add (score_or_zero float (lookup i scores)) (div_int weight (k +ℤ hit.rank))))
                ((eq_iff hit.chunk_id id).0 e))
        | inr e ↦ rw e (rw (lookup-put, e) at ih)
      ]

  fuse_ranking-HasDistinctKeys :
      (k : ℤ) (weight : F) (n : ℕ) (seen : List String) (scores scores' : Scores float)
      (ranking : List (SearchHit F))
      → fuse_ranking float k weight n seen scores ranking ≡ ok scores'
      → HasDistinctKeys scores
      → HasDistinctKeys scores'
  fuse_ranking-HasDistinctKeys k weight n seen scores scores' [] h d =
      subst HasDistinctKeys (fuse_ranking_nil k weight n seen scores scores' h) d
  fuse_ranking-HasDistinctKeys k weight n seen scores scores' (hit ∷ ranking) h d =
      let (_, new, rest) = fuse_ranking_step k weight n seen scores scores' hit ranking h in
      fuse_ranking-HasDistinctKeys k weight (suc n) (hit.chunk_id ∷ seen) _ scores' ranking rest
        (put-HasDistinctKeys hit.chunk_id _ scores d)

  -- After all rankings, an id has exactly its fused score.
  pub lookup-fuse_rankings :
      (k : ℤ) (scores scores' : Scores float) (rankings : List (List (SearchHit F)))
      (weights : List F) (id : String)
      → fuse_rankings float k scores rankings weights ≡ ok scores'
      → lookup id scores' ≡ fused_score k id (lookup id scores) rankings weights
  unfolding fuse_rankings fused_score
  lookup-fuse_rankings k scores scores' [] weights id h = ap (lookup id) (sym (ok-injective h))
  lookup-fuse_rankings k scores scores' (ranking ∷ rankings) [] id h =
      ap (lookup id) (sym (ok-injective h))
  lookup-fuse_rankings k scores scores' (ranking ∷ rankings) (weight ∷ weights) id h =
      let (middle, first, rest) = >>=-eq-ok (fuse_ranking float k weight 1 [] scores ranking) _ h in
      lookup-fuse_rankings k middle scores' rankings weights id rest
      ∙ ap (λ score. fused_score k id score rankings weights)
          (lookup-fuse_ranking k weight 1 [] scores middle ranking id first)

  pub fuse_rankings-HasDistinctKeys :
      (k : ℤ) (scores scores' : Scores float) (rankings : List (List (SearchHit F)))
      (weights : List F)
      → fuse_rankings float k scores rankings weights ≡ ok scores'
      → HasDistinctKeys scores
      → HasDistinctKeys scores'
  unfolding fuse_rankings
  fuse_rankings-HasDistinctKeys k scores scores' [] weights h d =
      subst HasDistinctKeys (ok-injective h) d
  fuse_rankings-HasDistinctKeys k scores scores' (ranking ∷ rankings) [] h d =
      subst HasDistinctKeys (ok-injective h) d
  fuse_rankings-HasDistinctKeys k scores scores' (ranking ∷ rankings) (weight ∷ weights) h d =
      let (middle, first, rest) = >>=-eq-ok (fuse_ranking float k weight 1 [] scores ranking) _ h in
      fuse_rankings-HasDistinctKeys k middle scores' rankings weights rest
        (fuse_ranking-HasDistinctKeys k weight 1 [] scores middle ranking first d)
