-- ===== src/Retrieval/Rrf/Totality.antt =====
-- When `reciprocal_rank_fusion` returns: exactly when its inputs are rankings.
use ragbench_kr_implementati.Prelude.{
  ℕ, suc, ◌≡◌, ◌≢◌, refl, Option, Bool, true, false, not, String, List, [], ◌∷◌, All, AllPairs,
  All-map₂, All-intro, any-eq-false, ==_iff, length, any, ◌==◌, arith, str_eq, eq_iff, Bool-cases,
  inl, inr,
}
use ragbench_kr_implementati.Prelude.Int.{ℤ, pos, ◌+ℤ◌, ◌≤ℤ◌, ltb_ℤ, eqb_ℤ}
use ragbench_kr_implementati.Prelude.Float.{Float}
use ragbench_kr_implementati.Prelude.Result.{raise_if-eq-ok, >>=-eq-ok, ok}
use ragbench_kr_implementati.Prelude.Assoc.{str_key, contains, self_key}
use ragbench_kr_implementati.Retrieval.{SearchHit}
use ragbench_kr_implementati.Retrieval.Rrf.{
  Scores, bad_weight, resolve_weights, fuse_ranking, fuse_rankings, reciprocal_rank_fusion,
}
use ragbench_kr_implementati.Retrieval.Rrf.Scores.{
  absent_of_find_hit, fuse_ranking_step, fuse_ranking-Unseen,
}
use ragbench_kr_implementati.Retrieval.Rrf.Answers.{IsNumbered}

-- Ranks count up from 1, and no chunk id occurs twice.
pub record IsRanking {F : Type 0} (ranking : List (SearchHit F)) : Type 0 where
  pub numbered : IsNumbered 1 ranking
  pub distinct : AllPairs (λ a b. a.chunk_id ≢ b.chunk_id) ranking

abbrev Unseen : {F : Type 0} → List String → SearchHit F → Type 0
Unseen seen hit = contains hit.chunk_id seen ≡ false

Unseen-cons :
    {F : Type 0} (first : SearchHit F) (seen : List String) (hit : SearchHit F)
    → first.chunk_id ≢ hit.chunk_id
    → Unseen seen hit
    → Unseen (first.chunk_id ∷ seen) hit
unfolding contains
Unseen-cons first seen hit ne new = elim (Bool-cases (str_eq first.chunk_id hit.chunk_id)) [
  | inl e ↦ absurd (ne ((eq_iff first.chunk_id hit.chunk_id).0 e))
  | inr e ↦ rw e new
]

not_negative : (k : ℤ) → pos 0 ≤ℤ k → ltb_ℤ k (pos 0) ≡ false
not_negative k h = ground arith

same_length :
    {A B : Type 0} (xs : List A) (ys : List B)
    → length xs ≡ length ys
    → (length xs == length ys) ≡ true
same_length xs ys h = (==_iff (length xs) (length ys)).1 h

nonneg_of_test : (k : ℤ) → ltb_ℤ k (pos 0) ≡ false → pos 0 ≤ℤ k
nonneg_of_test k h = ground arith

eq_of_test : (k : ℤ) (n : ℕ) → not (eqb_ℤ k (pos n)) ≡ false → k ≡ pos n
eq_of_test k n h = ground arith

not-false : (b : Bool) → not b ≡ false → b ≡ true
not-false b h = ground arith

eqb_ℤ_self : (n : ℕ) → eqb_ℤ (pos n) (pos n) ≡ true
eqb_ℤ_self n = ground arith

module _ (float : Float) where
  open float use {F, int_fits}

  -- `k + rank` converts to a float.
  abbrev pub Fits : ℤ → SearchHit F → Type 0
  Fits k hit = int_fits (k +ℤ hit.rank) ≡ true

  fuse_ranking_total :
      (k : ℤ) (weight : F) (n : ℕ) (seen : List String) (scores : Scores float)
      (ranking : List (SearchHit F))
      → IsNumbered n ranking
      → AllPairs (λ a b. a.chunk_id ≢ b.chunk_id) ranking
      → All (Unseen seen) ranking
      → All (Fits k) ranking
      → (scores' : Scores float) × (fuse_ranking float k weight n seen scores ranking ≡ ok scores')
  unfolding fuse_ranking
  fuse_ranking_total k weight n seen scores [] numbered distinct new fits = (scores, refl)
  fuse_ranking_total k weight n seen scores (hit ∷ ranking) numbered distinct new fits =
      rw (fits.0, numbered.0, eqb_ℤ_self, new.0)
        (fuse_ranking_total k weight (suc n) (hit.chunk_id ∷ seen) _ ranking numbered.1 distinct.1
          (All-map₂ (Unseen-cons hit seen) ranking distinct.0 new.1) fits.1)

  fuse_ranking_checks :
      (k : ℤ) (weight : F) (n : ℕ) (seen : List String) (scores scores' : Scores float)
      (ranking : List (SearchHit F))
      → fuse_ranking float k weight n seen scores ranking ≡ ok scores'
      → IsNumbered n ranking × AllPairs (λ a b. a.chunk_id ≢ b.chunk_id) ranking
  unfolding contains
  fuse_ranking_checks k weight n seen scores scores' [] h = (tt, tt)
  fuse_ranking_checks k weight n seen scores scores' (hit ∷ ranking) h =
      let (in_sequence, new, rest) =
        fuse_ranking_step float k weight n seen scores scores' hit ranking h in
      let (numbered, distinct) =
        fuse_ranking_checks k weight (suc n) (hit.chunk_id ∷ seen) _ scores' ranking rest in
      let later =
        fuse_ranking-Unseen float k weight (suc n) (hit.chunk_id ∷ seen) _ scores' ranking
          hit.chunk_id rest (rw (self_key hit.chunk_id)) in
      (
        (eq_of_test hit.rank n in_sequence, numbered),
        (absent_of_find_hit hit.chunk_id ranking later, distinct),
      )

  fuse_rankings_checks :
      (k : ℤ) (scores scores' : Scores float) (rankings : List (List (SearchHit F)))
      (weights : List F)
      → length weights ≡ length rankings
      → fuse_rankings float k scores rankings weights ≡ ok scores'
      → All IsRanking rankings
  unfolding fuse_rankings
  fuse_rankings_checks k scores scores' [] weights sized h = tt
  fuse_rankings_checks k scores scores' (ranking ∷ rankings) [] sized h = absurd (omega arith)
  fuse_rankings_checks k scores scores' (ranking ∷ rankings) (weight ∷ weights) sized h =
      let (middle, first, rest) = >>=-eq-ok (fuse_ranking float k weight 1 [] scores ranking) _ h in
      let (numbered, distinct) = fuse_ranking_checks k weight 1 [] scores middle ranking first in
      (
        record { numbered = numbered; distinct = distinct },
        fuse_rankings_checks k middle scores' rankings weights (omega arith) rest,
      )

  -- A fusion that returns was given a nonnegative `k`, as many weights as rankings, and rankings
  -- that count from 1 with no chunk id twice.
  pub fusion_checks :
      (rankings : List (List (SearchHit F))) (k : ℤ) (weights : Option (List F))
      (out : List (SearchHit F))
      → reciprocal_rank_fusion float rankings k weights ≡ ok out
      → (pos 0 ≤ℤ k)
        × (length (resolve_weights float rankings weights) ≡ length rankings)
        × All IsRanking rankings
  unfolding reciprocal_rank_fusion
  fusion_checks rankings k weights out returned =
      let resolved = resolve_weights float rankings weights in
      let (nonneg, checked) = raise_if-eq-ok (ltb_ℤ k (pos 0)) _ _ returned in
      let (sized, rest) = raise_if-eq-ok (not (length resolved == length rankings)) _ _ checked in
      let (_, weighed) = raise_if-eq-ok (any (bad_weight float) resolved) _ _ rest in
      let (scores, looped, _) = >>=-eq-ok (fuse_rankings float k [] rankings resolved) _ weighed in
      let lengths = (==_iff (length resolved) (length rankings)).0 (not-false _ sized) in
      (
        nonneg_of_test k nonneg,
        lengths,
        fuse_rankings_checks k [] scores rankings resolved lengths looped,
      )

  fuse_rankings_total :
      (k : ℤ) (scores : Scores float) (rankings : List (List (SearchHit F))) (weights : List F)
      → All IsRanking rankings
      → All (All (Fits k)) rankings
      → (scores' : Scores float) × (fuse_rankings float k scores rankings weights ≡ ok scores')
  unfolding fuse_rankings contains
  fuse_rankings_total k scores [] weights h fits = (scores, refl)
  fuse_rankings_total k scores (ranking ∷ rankings) [] h fits = (scores, refl)
  fuse_rankings_total k scores (ranking ∷ rankings) (weight ∷ weights) h fits =
      let (middle, first) =
        fuse_ranking_total k weight 1 [] scores ranking h.0.numbered h.0.distinct
          (All-intro (λ hit. refl) ranking) fits.0 in
      rw first (fuse_rankings_total k middle rankings weights h.1 fits.1)

  -- A nonnegative `k`, a finite positive weight for each ranking, rankings that count from 1 with no
  -- chunk id twice, and sums of `k` and a rank that convert to a float: then the fusion returns.
  pub fusion_returns :
      (rankings : List (List (SearchHit F))) (k : ℤ) (weights : Option (List F))
      → pos 0 ≤ℤ k
      → length (resolve_weights float rankings weights) ≡ length rankings
      → All (λ weight. bad_weight float weight ≡ false) (resolve_weights float rankings weights)
      → All IsRanking rankings
      → All (All (Fits k)) rankings
      → (out : List (SearchHit F)) × (reciprocal_rank_fusion float rankings k weights ≡ ok out)
  unfolding reciprocal_rank_fusion
  fusion_returns rankings k weights nonneg sized weighed ranked fits =
      let resolved = resolve_weights float rankings weights in
      let (scores, looped) = fuse_rankings_total k [] rankings resolved ranked fits in
      rw
        (
          not_negative k nonneg,
          same_length resolved rankings sized,
          any-eq-false (bad_weight float) resolved weighed,
          looped,
        )
        (_, refl)
