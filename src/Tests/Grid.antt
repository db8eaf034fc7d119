-- ===== src/Tests/Grid.antt =====
-- src/ragbench/experiments/planner.py. One binding for each of the fourteen variants.
use ragbench_kr_implementati.Prelude.{
  ℕ, ◌≡◌, refl, List, [], ◌∷◌, String, map, length, All, if◌then◌else◌,
}
use ragbench_kr_implementati.Prelude.Int.{ℤ, pos, ltb_ℤ}
use ragbench_kr_implementati.Prelude.Float.{fixed_point}
use ragbench_kr_implementati.Prelude.Text.{join}
use ragbench_kr_implementati.Prelude.Result.{Result, ok, err, value_error}
use ragbench_kr_implementati.Experiments.{
  RetrievalExperimentConfig, CoreSnapshotBinding, parse_modes, chunk_strategies, retrievers,
  top_k_values, require_unique_configs,
}
use ragbench_kr_implementati.Experiments.Grid.{Variant, pairs, generate_core_retrieval_configs}
use ragbench_kr_implementati.Experiments.Grid.Axes.{
  axes_of, HasRrf, generate_core_retrieval_configs_lem,
}

abbrev binding : Variant → CoreSnapshotBinding
binding (mode, strategy) = record {
  parse_mode = mode;
  parse_snapshot_id = "parse";
  chunk_strategy = strategy;
  chunk_snapshot_id = "chunk";
  embedding_snapshot_id = "2f1c";
}

abbrev depth : ℤ → String
depth top_k = if ltb_ℤ top_k (pos 4) then "3" else if ltb_ℤ top_k (pos 6) then "5" else "10"

abbrev identity : RetrievalExperimentConfig ℕ → String
identity config =
    join "/"
      (config.parse_mode ∷ config.chunk_strategy ∷ config.retriever ∷ depth config.top_k ∷ [])

abbrev bindings : List CoreSnapshotBinding
bindings = map binding (pairs parse_modes chunk_strategies)

abbrev grid : Result (List (RetrievalExperimentConfig ℕ))
unfolding generate_core_retrieval_configs
grid =
    generate_core_retrieval_configs fixed_point identity ("corpus", "questions") (pos 7, "abcdef1")
      bindings

abbrev configs_in : Result (List (RetrievalExperimentConfig ℕ)) → List (RetrievalExperimentConfig ℕ)
configs_in (ok configs) = configs
configs_in (err _) = []

-- Two modes, seven strategies, three retrievers and three depths.
grid_size : length (configs_in grid) ≡ 126
unfolding generate_core_retrieval_configs join
grid_size = refl

grid_example :
    (map (axes_of fixed_point) (configs_in grid)
      ≡ pairs (pairs parse_modes chunk_strategies) (pairs retrievers top_k_values))
    × (require_unique_configs identity (configs_in grid) ≡ ok (configs_in grid))
    × All (HasRrf fixed_point) (configs_in grid)
unfolding generate_core_retrieval_configs join
grid_example =
    generate_core_retrieval_configs_lem fixed_point identity ("corpus", "questions")
      (pos 7, "abcdef1") bindings (configs_in grid) refl

-- A variant without its binding.
missing_variant :
    generate_core_retrieval_configs fixed_point identity
      ("corpus", "questions")
      (pos 7, "abcdef1")
      []
    ≡ err (value_error "snapshot bindings must map the exact 14 parse/chunk variants")
unfolding generate_core_retrieval_configs
missing_variant = refl
