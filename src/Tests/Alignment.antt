-- ===== src/Tests/Alignment.antt =====
-- src/ragbench/evaluation/bootstrap.py. Two systems with the same two observations.
use mathlib.Core.List.{Mem}
use ragbench_kr_implementati.Prelude.{
  ℕ, ◌≡◌, refl, true, Option, none, some, String, List, [], ◌∷◌, map, All, AllPairs,
}
use ragbench_kr_implementati.Prelude.Float.{fixed_point}
use ragbench_kr_implementati.Prelude.Text.{str_leb}
use ragbench_kr_implementati.Prelude.Result.{ok, err, value_error}
use ragbench_kr_implementati.Prelude.Assoc.{str_key, distinct, contains}
use ragbench_kr_implementati.Prelude.Once.{IsOnceEach}
use ragbench_kr_implementati.Evaluation.Bootstrap.{
  PairedObservation, RawRow, align_paired_observations,
}
use ragbench_kr_implementati.Evaluation.Bootstrap.Alignment.{
  IsAligned, align_paired_observations_lem,
}

abbrev row : String → ℕ → Option String → RawRow ℕ
row row_id score cluster = record { row_id = row_id; score = score; cluster = cluster }

abbrev left_rows : List (RawRow ℕ)
left_rows = row "q2" 1 (some "d") ∷ row "q1" 0 none ∷ []

abbrev right_rows : List (RawRow ℕ)
right_rows = row "q1" 1 none ∷ row "q2" 0 (some "d") ∷ []

abbrev aligned : List (PairedObservation ℕ)
aligned =
    record { observation_id = "q1"; left = 0; right = 1; document_cluster_id = none }
    ∷ record { observation_id = "q2"; left = 1; right = 0; document_cluster_id = some "d" }
    ∷ []

aligns : align_paired_observations fixed_point left_rows right_rows ≡ ok aligned
unfolding align_paired_observations str_leb
aligns = refl

other_cluster :
    align_paired_observations fixed_point (row "q" 1 none ∷ []) (row "q" 1 (some "d") ∷ [])
    ≡ err (value_error "paired observation document cluster IDs do not match")
unfolding align_paired_observations
other_cluster = refl

align_paired_observations_lem_example :
    let left_ids = map (λ r. r.row_id) left_rows in
    let right_ids = map (λ r. r.row_id) right_rows in
    let ids = map (λ o. o.observation_id) aligned in
    ((distinct left_ids ≡ true) × (distinct right_ids ≡ true))
    × ((id : String) → contains id left_ids ≡ contains id right_ids)
    × IsOnceEach left_ids ids
    × AllPairs (λ a b. str_leb a b ≡ true) ids
    × All (IsAligned fixed_point (λ r. Mem r left_rows) (λ r. Mem r right_rows)) aligned
align_paired_observations_lem_example =
    align_paired_observations_lem fixed_point left_rows right_rows aligned aligns
