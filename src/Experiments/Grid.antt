-- ===== src/Experiments/Grid.antt =====
-- src/ragbench/experiments/planner.py, the grid of retrieval configurations, and the validators of config.py.
pub mod Axes
use mathlib.Core.List.{◌++◌}
use ragbench_kr_implementati.Prelude.{
  ℕ, Bool, true, false, not, ◌&&◌, ◌||◌, Option, none, some, String, List, [], ◌∷◌, map, any,
  length, if◌then◌else◌, str_eq, leb, ◌==◌,
}
use ragbench_kr_implementati.Prelude.Int.{ℤ, pos, ltb_ℤ}
use ragbench_kr_implementati.Prelude.Float.{Float}
use ragbench_kr_implementati.Prelude.Text.{is_blank, strip}
use ragbench_kr_implementati.Prelude.Result.{
  Result, ok, err, raise_if, value_error, key_error, ◌>>=◌, ◌>>◌,
}
use ragbench_kr_implementati.Prelude.Assoc.{str_key, pair_key, contains, lookup, put, same_keys}
use ragbench_kr_implementati.Experiments.{
  RrfConfig, RetrievalExperimentConfig, CoreSnapshotBinding, parse_modes, chunk_strategies,
  retrievers, top_k_values, require_unique_configs,
}
use ragbench_kr_implementati.Experiments.Runs.Settings.{is_hex}

-- `CoreSnapshotBinding.__post_init__`; whether a text is a UUID is a parameter.
unfoldable pub new_binding : (String → Bool) → CoreSnapshotBinding → Result CoreSnapshotBinding
unfolding is_blank
new_binding is_uuid binding = do
  raise_if (not (is_uuid binding.embedding_snapshot_id))
      (value_error "badly formed hexadecimal UUID string")
  raise_if
      (any is_blank
        (binding.parse_snapshot_id ∷ binding.chunk_strategy ∷ binding.chunk_snapshot_id ∷ []))
      (value_error "core snapshot binding identities cannot be blank")
  ok binding

abbrev pub Variant : Type 0
Variant = String × String

-- `bindings`, a dict: a later row of a variant replaces the earlier one.
abbrev pub index_bindings :
    List (Variant × CoreSnapshotBinding)
    → List CoreSnapshotBinding
    → List (Variant × CoreSnapshotBinding)
unfolding put
index_bindings bindings [] = bindings
index_bindings bindings (row ∷ rows) =
    index_bindings (put (row.parse_mode, row.chunk_strategy) row bindings) rows

-- The pairs of two axes, the first outermost.
abbrev pub pairs {ℓ κ} : {A : Type ℓ} {B : Type κ} → List A → List B → List (A × B)
pairs [] ys = []
pairs (x ∷ xs) ys = map (λ y. (x, y)) ys ++ pairs xs ys

module _ (float : Float) where
  open float use {F, order, zero_float, one_float, is_finite}

  -- `RRFConfig()`
  abbrev pub default_rrf : RrfConfig F
  default_rrf = record {
    rank_constant = pos 60;
    dense_weight = one_float;
    sparse_weight = one_float;
  }

  abbrev pub is_weight : F → Bool
  is_weight weight = not (order.le weight zero_float) && is_finite weight

  abbrev pub bad_rrf : Option (RrfConfig F) → Bool
  bad_rrf none = false
  bad_rrf (some rrf) =
      ltb_ℤ rrf.rank_constant (pos 0)
      || not (is_weight rrf.dense_weight)
      || not (is_weight rrf.sparse_weight)

  abbrev pub is_given : Option (RrfConfig F) → Bool
  is_given none = false
  is_given (some _) = true

  abbrev pub differ : Bool → Bool → Bool
  differ true b = not b
  differ false b = b

  abbrev pub contains_int : ℤ → List ℤ → Bool
  contains_int n [] = false
  contains_int n (k ∷ ks) = not (ltb_ℤ n k || ltb_ℤ k n) || contains_int n ks

  -- A field that fails its constraint.
  unfoldable pub is_invalid : RetrievalExperimentConfig F → Bool
  unfolding is_hex contains
  is_invalid c =
      not (str_eq c.schema_version "retrieval-screen-v1")
      || not (contains c.parse_mode parse_modes)
      || not (contains c.retriever retrievers)
      || bad_rrf c.rrf
      || not (contains_int c.top_k top_k_values)
      || not (str_eq c.question_split "dev_auto")
      || ltb_ℤ c.random_seed (pos 0)
      || not (is_hex 7 40 c.code_commit)
      || not (str_eq c.metric_version "retrieval-v1")

  -- `_identity_not_blank` of each of its fields.
  unfoldable pub has_blank : RetrievalExperimentConfig F → Bool
  unfolding is_blank
  has_blank c = any is_blank (
      c.corpus_snapshot_id ∷ c.parse_snapshot_id ∷ c.chunk_snapshot_id ∷ c.chunk_strategy
      ∷ c.embedding_snapshot_id ∷ c.question_snapshot_id ∷ c.code_commit ∷ [])

  unfoldable pub stripped : RetrievalExperimentConfig F → RetrievalExperimentConfig F
  unfolding strip
  stripped c = record c {
    corpus_snapshot_id = strip c.corpus_snapshot_id;
    parse_snapshot_id = strip c.parse_snapshot_id;
    chunk_snapshot_id = strip c.chunk_snapshot_id;
    chunk_strategy = strip c.chunk_strategy;
    embedding_snapshot_id = strip c.embedding_snapshot_id;
    question_snapshot_id = strip c.question_snapshot_id;
    code_commit = strip c.code_commit;
  }

  -- The validation of a retrieval configuration.
  unfoldable pub new_config : RetrievalExperimentConfig F → Result (RetrievalExperimentConfig F)
  unfolding is_invalid has_blank stripped
  new_config c = do
    raise_if (is_invalid c) (value_error "validation error")
    raise_if (has_blank c) (value_error "experiment identity cannot be blank")
    raise_if (differ (str_eq c.retriever "hybrid") (is_given c.rrf))
        (value_error "RRF parameters are required only for the hybrid retriever")
    ok (stripped c)

  -- A cell of the grid: the mode and the strategy, the retriever and its depth.
  abbrev pub Cell : Type 0
  Cell = Variant × (String × ℤ)

  abbrev pub cells : List Cell
  cells = pairs (pairs parse_modes chunk_strategies) (pairs retrievers top_k_values)

  abbrev pub binding_of : Option CoreSnapshotBinding → Result CoreSnapshotBinding
  binding_of none = err key_error
  binding_of (some binding) = ok binding

  -- The configuration that the innermost loop makes of a cell.
  abbrev pub cell_config :
      (String × String) → (ℤ × String) → CoreSnapshotBinding → Cell → RetrievalExperimentConfig F
  cell_config (corpus, questions) (seed, commit) binding
        ((parse_mode, chunk_strategy), (retriever, top_k)) =
      record {
        schema_version = "retrieval-screen-v1";
        corpus_snapshot_id = corpus;
        parse_snapshot_id = binding.parse_snapshot_id;
        parse_mode = parse_mode;
        chunk_snapshot_id = binding.chunk_snapshot_id;
        chunk_strategy = chunk_strategy;
        embedding_snapshot_id = binding.embedding_snapshot_id;
        retriever = retriever;
        rrf = if str_eq retriever "hybrid" then some default_rrf else none;
        top_k = top_k;
        question_snapshot_id = questions;
        question_split = "dev_auto";
        random_seed = seed;
        code_commit = commit;
        metric_version = "retrieval-v1";
      }

  unfoldable pub config_of :
      (String × String)
      → (ℤ × String)
      → List (Variant × CoreSnapshotBinding)
      → Cell
      → Result (RetrievalExperimentConfig F)
  unfolding lookup new_config
  config_of snapshots run bindings cell = do
    binding ← binding_of (lookup cell.0 bindings)
    new_config (cell_config snapshots run binding cell)

  unfoldable pub configs_of :
      (String × String)
      → (ℤ × String)
      → List (Variant × CoreSnapshotBinding)
      → List Cell
      → Result (List (RetrievalExperimentConfig F))
  unfolding config_of
  configs_of snapshots run bindings [] = ok []
  configs_of snapshots run bindings (cell ∷ rest) = do
    config ← config_of snapshots run bindings cell
    configs ← configs_of snapshots run bindings rest
    ok (config ∷ configs)

  unfoldable pub generate_core_retrieval_configs :
      (RetrievalExperimentConfig F → String)
      → (String × String)
      → (ℤ × String)
      → List CoreSnapshotBinding
      → Result (List (RetrievalExperimentConfig F))
  unfolding configs_of same_keys index_bindings require_unique_configs
  generate_core_retrieval_configs semantic_hash snapshots run rows = do
    let bindings = index_bindings [] rows
    raise_if
        (not (same_keys (map (λ entry. entry.0) bindings) (pairs parse_modes chunk_strategies))
          || not (length bindings == length rows))
        (value_error "snapshot bindings must map the exact 14 parse/chunk variants")
    configs ← configs_of snapshots run bindings cells
    require_unique_configs semantic_hash configs
