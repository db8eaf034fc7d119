-- ===== src/Experiments/Grid/Axes.antt =====
-- The grid has each combination of the axes once, in order.
use mathlib.Core.Path.{subst}
use ragbench_kr_implementati.Prelude.{
  ◌≡◌, refl, sym, ap, ◌∙◌, false, not, ◌||◌, String, List, [], ◌∷◌, map, length, All, str_eq, ◌==◌,
}
use ragbench_kr_implementati.Prelude.Int.{ℤ}
use ragbench_kr_implementati.Prelude.Float.{Float}
use ragbench_kr_implementati.Prelude.Text.{strip}
use ragbench_kr_implementati.Prelude.Result.{
  ok, >>=-eq-ok, raise_if-eq-ok, ok-injective, value_error,
}
use ragbench_kr_implementati.Prelude.Assoc.{str_key, pair_key, lookup, same_keys}
use ragbench_kr_implementati.Experiments.{
  RetrievalExperimentConfig, CoreSnapshotBinding, parse_modes, chunk_strategies, retrievers,
  top_k_values, check_unique, require_unique_configs,
}
use ragbench_kr_implementati.Experiments.Grid.{
  Variant, index_bindings, pairs, differ, is_given, is_invalid, has_blank, stripped, new_config,
  Cell, cells, binding_of, cell_config, config_of, configs_of, generate_core_retrieval_configs,
}

module _ (float : Float) where
  open float use {F}

  abbrev pub axes_of : RetrievalExperimentConfig F → Cell float
  axes_of config = ((config.parse_mode, config.chunk_strategy), (config.retriever, config.top_k))

  -- The RRF parameters are there for the hybrid retriever alone.
  abbrev pub HasRrf : RetrievalExperimentConfig F → Type 0
  HasRrf config =
      differ float (str_eq config.retriever "hybrid") (is_given float config.rrf) ≡ false

  new_config-ok :
      (c made : RetrievalExperimentConfig F)
      → new_config float c ≡ ok made
      → (axes_of made ≡ ((c.parse_mode, strip c.chunk_strategy), (c.retriever, c.top_k)))
        × HasRrf made
  unfolding new_config stripped
  new_config-ok c made h =
      let (_, h1) = raise_if-eq-ok (is_invalid float c) (value_error "validation error") _ h in
      let (_, h2) =
        raise_if-eq-ok (has_blank float c) (value_error "experiment identity cannot be blank") _
          h1 in
      let (rrf, done) =
        raise_if-eq-ok (differ float (str_eq c.retriever "hybrid") (is_given float c.rrf))
          (value_error "RRF parameters are required only for the hybrid retriever")
          (ok (stripped float c)) h2 in
      (sym (ap axes_of (ok-injective done)), subst HasRrf (ok-injective done) rrf)

  stripped_cell : Cell float → Cell float
  stripped_cell ((parse_mode, chunk_strategy), rest) = ((parse_mode, strip chunk_strategy), rest)

  config_of-ok :
      (snapshots : String × String) (run : ℤ × String)
      (bindings : List (Variant × CoreSnapshotBinding)) (cell : Cell float)
      (made : RetrievalExperimentConfig F)
      → config_of float snapshots run bindings cell ≡ ok made
      → (axes_of made ≡ stripped_cell cell) × HasRrf made
  unfolding config_of stripped_cell
  config_of-ok snapshots run bindings cell made h =
      let (binding, _, built) = >>=-eq-ok (binding_of float (lookup cell.0 bindings)) _ h in
      new_config-ok (cell_config float snapshots run binding cell) made built

  configs_of-ok :
      (snapshots : String × String) (run : ℤ × String)
      (bindings : List (Variant × CoreSnapshotBinding)) (rest : List (Cell float))
      (configs : List (RetrievalExperimentConfig F))
      → configs_of float snapshots run bindings rest ≡ ok configs
      → (map axes_of configs ≡ map stripped_cell rest) × All HasRrf configs
  unfolding configs_of
  configs_of-ok snapshots run bindings [] configs h =
      subst
        (λ (made : List (RetrievalExperimentConfig F)). (map axes_of made ≡ []) × All HasRrf made)
        (ok-injective h) (refl, tt)
  configs_of-ok snapshots run bindings (cell ∷ rest) configs h =
      let (config, one, more) = >>=-eq-ok (config_of float snapshots run bindings cell) _ h in
      let (others, later, done) = >>=-eq-ok (configs_of float snapshots run bindings rest) _ more in
      let (axes, rrf) = config_of-ok snapshots run bindings cell config one in
      let (all_axes, all_rrf) = configs_of-ok snapshots run bindings rest others later in
      subst
        (λ (made : List (RetrievalExperimentConfig F)).
          (map axes_of made ≡ map stripped_cell (cell ∷ rest)) × All HasRrf made)
        (ok-injective done)
        (
          ap (λ (c : Cell float). c ∷ map axes_of others) axes
              ∙ ap (λ (cs : List (Cell float)). stripped_cell cell ∷ cs) all_axes,
          (rrf, all_rrf),
        )

  -- The names of the strategies have no blanks around them.
  cells_stripped : map stripped_cell (cells float) ≡ cells float
  unfolding strip stripped_cell
  cells_stripped = refl

  checked-configs :
      (semantic_hash : RetrievalExperimentConfig F → String)
      (made configs : List (RetrievalExperimentConfig F))
      → require_unique_configs semantic_hash made ≡ ok configs
      → made ≡ configs
  unfolding require_unique_configs
  checked-configs semantic_hash made configs h =
      let (_, _, done) = >>=-eq-ok (check_unique semantic_hash [] made) (λ _. ok made) h in
      ok-injective done

  -- A grid that is returned has the combinations of the two parse modes, the seven chunk strategies, the three
  -- retrievers and the three depths, each once and in this order; its configurations have pairwise different
  -- hashes, as `require_unique_configs` finds them, and those of the hybrid retriever alone have RRF parameters.
  pub generate_core_retrieval_configs_lem :
      (semantic_hash : RetrievalExperimentConfig F → String) (snapshots : String × String)
      (run : ℤ × String) (rows : List CoreSnapshotBinding)
      (configs : List (RetrievalExperimentConfig F))
      → generate_core_retrieval_configs float semantic_hash snapshots run rows ≡ ok configs
      → (map axes_of configs
          ≡ pairs (pairs parse_modes chunk_strategies) (pairs retrievers top_k_values))
        × (require_unique_configs semantic_hash configs ≡ ok configs)
        × All HasRrf configs
  unfolding generate_core_retrieval_configs
  generate_core_retrieval_configs_lem semantic_hash snapshots run rows configs h =
      let bindings = index_bindings [] rows in
      let (_, h1) =
        raise_if-eq-ok
          (not (same_keys (map (λ entry. entry.0) bindings) (pairs parse_modes chunk_strategies))
            || not (length bindings == length rows))
          (value_error "snapshot bindings must map the exact 14 parse/chunk variants") _ h in
      let (made, grid, unique) =
        >>=-eq-ok (configs_of float snapshots run bindings (cells float)) _ h1 in
      let same = checked-configs semantic_hash made configs unique in
      let (axes, rrf) = configs_of-ok snapshots run bindings (cells float) made grid in
      (
        subst (λ (cs : List (RetrievalExperimentConfig F)). map axes_of cs ≡ cells float) same
            (axes ∙ cells_stripped),
        ap (require_unique_configs semantic_hash) (sym same) ∙ unique,
        subst (All HasRrf) same rrf,
      )
