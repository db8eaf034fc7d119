-- ===== src/Experiments.antt =====
-- src/ragbench/experiments/config.py and planner.py. `semantic_hash` is the SHA-256 of a config's
-- canonical JSON, a parameter where it is used; the Literal types are strings here.
pub mod Grid
pub mod Shortlist
pub mod TopThree
pub mod Uniqueness
pub mod Runs
use ragbench_kr_implementati.Prelude.{String, List, [], ◌∷◌, Option}
use ragbench_kr_implementati.Prelude.Int.{ℤ, pos}
use ragbench_kr_implementati.Prelude.Result.{Result, ok, raise_if, value_error, ◌>>=◌, ◌>>◌}
use ragbench_kr_implementati.Prelude.Assoc.{str_key, contains}

pub record RrfConfig (F : Type 0) : Type 0 where
  pub rank_constant : ℤ
  pub dense_weight : F
  pub sparse_weight : F

pub record RetrievalExperimentConfig (F : Type 0) : Type 0 where
  pub schema_version : String
  pub corpus_snapshot_id : String
  pub parse_snapshot_id : String
  pub parse_mode : String
  pub chunk_snapshot_id : String
  pub chunk_strategy : String
  pub embedding_snapshot_id : String
  pub retriever : String
  pub rrf : Option (RrfConfig F)
  pub top_k : ℤ
  pub question_snapshot_id : String
  pub question_split : String
  pub random_seed : ℤ
  pub code_commit : String
  pub metric_version : String

abbrev pub parse_modes : List String
parse_modes = "standard" ∷ "enhanced" ∷ []

abbrev pub chunk_strategies : List String
chunk_strategies =
    "fixed-300-0" ∷ "fixed-300-100" ∷ "fixed-600-0" ∷ "fixed-600-100" ∷ "fixed-1000-0"
    ∷ "fixed-1000-100" ∷ "heading-600-100" ∷ []

abbrev pub retrievers : List String
retrievers = "dense" ∷ "bm25" ∷ "hybrid" ∷ []

abbrev pub top_k_values : List ℤ
top_k_values = pos 3 ∷ pos 5 ∷ pos 10 ∷ []

pub record CoreSnapshotBinding : Type 0 where
  pub parse_mode : String
  pub parse_snapshot_id : String
  pub chunk_strategy : String
  pub chunk_snapshot_id : String
  pub embedding_snapshot_id : String

module _ {F : Type 0} (semantic_hash : RetrievalExperimentConfig F → String) where
  -- The loop over the configs, with the hashes seen.
  unfoldable pub check_unique : List String → List (RetrievalExperimentConfig F) → Result (Unit {0})
  unfolding contains
  check_unique seen [] = ok tt
  check_unique seen (config ∷ configs) = do
    raise_if (contains (semantic_hash config) seen)
        (value_error "duplicate semantic experiment configuration")
    check_unique (semantic_hash config ∷ seen) configs

  unfoldable pub require_unique_configs :
      List (RetrievalExperimentConfig F) → Result (List (RetrievalExperimentConfig F))
  unfolding check_unique
  require_unique_configs configs = do check_unique [] configs; ok configs
