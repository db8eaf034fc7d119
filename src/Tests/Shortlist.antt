-- ===== src/Tests/Shortlist.antt =====
-- src/ragbench/experiments/selection.py. Two places for three families, of which two share a parse
-- mode and a retriever.
use Prim.Native.String.{◌++◌}
use ragbench_kr_implementati.Prelude.{
  ℕ, ◌≡◌, ◌↔◌, refl, true, false, none, String, List, [], ◌∷◌, map,
}
use ragbench_kr_implementati.Prelude.Int.{pos}
use ragbench_kr_implementati.Prelude.Float.{fixed_point}
use ragbench_kr_implementati.Prelude.Text.{str_leb}
use ragbench_kr_implementati.Prelude.Result.{Result, ok, err}
use ragbench_kr_implementati.Prelude.Assoc.{str_key, distinct}
use ragbench_kr_implementati.Experiments.{RetrievalExperimentConfig, require_unique_configs}
use ragbench_kr_implementati.Experiments.Uniqueness.{require_unique_configs_iff}
use ragbench_kr_implementati.Experiments.Shortlist.{ScreeningOutcome, select_retrieval_shortlist}
use ragbench_kr_implementati.Experiments.Shortlist.Selection.{
  IsShortlist, select_retrieval_shortlist-IsShortlist,
}

abbrev or_default {ℓ} : {A : Type ℓ} → A → Result A → A
or_default a (ok b) = b
or_default a (err e) = a

abbrev config_of : String → String → String → RetrievalExperimentConfig ℕ
config_of mode strategy retriever = record {
  schema_version = "retrieval-screen-v1";
  corpus_snapshot_id = "c";
  parse_snapshot_id = "p";
  parse_mode = mode;
  chunk_snapshot_id = "k";
  chunk_strategy = strategy;
  embedding_snapshot_id = "e";
  retriever = retriever;
  rrf = none;
  top_k = pos 5;
  question_snapshot_id = "q";
  question_split = "dev_auto";
  random_seed = pos 7;
  code_commit = "0000000";
  metric_version = "retrieval-v1";
}

abbrev outcome : String → String → String → ℕ → ScreeningOutcome ℕ
outcome mode strategy retriever recall = record {
  config = config_of mode strategy retriever;
  hit_at_5 = recall;
  recall_at_5 = recall;
  micro_recall_at_5 = recall;
  mrr = recall;
  mean_latency_ms = 1;
  question_count = pos 1;
  scorable_count = pos 1;
  no_evidence_count = pos 0;
  bootstrap_inputs_hash = "h";
}

abbrev outcomes : List (ScreeningOutcome ℕ)
outcomes =
    outcome "enhanced" "fixed-600-0" "bm25" 4
    ∷ outcome "standard" "fixed-300-0" "dense" 9
    ∷ outcome "standard" "fixed-600-0" "dense" 8
    ∷ []

abbrev strategy_hash : RetrievalExperimentConfig ℕ → String
strategy_hash config = config.chunk_strategy ++ config.parse_mode

abbrev shortlist : List (ScreeningOutcome ℕ)
unfolding select_retrieval_shortlist str_leb
shortlist =
    or_default [] (select_retrieval_shortlist fixed_point strategy_hash outcomes (pos 2) true false)

selected :
    select_retrieval_shortlist fixed_point strategy_hash outcomes (pos 2) true false ≡ ok shortlist
unfolding select_retrieval_shortlist str_leb
selected = refl

second_dense_passed_over :
    map (λ row. row.config.parse_mode) shortlist ≡ "standard" ∷ "enhanced" ∷ []
unfolding shortlist
second_dense_passed_over = refl

select_retrieval_shortlist-IsShortlist_example :
    IsShortlist fixed_point strategy_hash outcomes 2 shortlist
select_retrieval_shortlist-IsShortlist_example =
    select_retrieval_shortlist-IsShortlist fixed_point strategy_hash outcomes (pos 2) false
      shortlist selected

distinct_hashes : distinct (map strategy_hash (map (λ row. row.config) outcomes)) ≡ true
unfolding distinct
distinct_hashes = refl

require_unique_configs_iff_example :
    (require_unique_configs strategy_hash (map (λ row. row.config) outcomes)
      ≡ ok (map (λ row. row.config) outcomes))
    ↔ (distinct (map strategy_hash (map (λ row. row.config) outcomes)) ≡ true)
require_unique_configs_iff_example =
    require_unique_configs_iff strategy_hash (map (λ row. row.config) outcomes)
