-- ===== src/Evaluation/Bootstrap.antt =====
-- src/ragbench/evaluation/bootstrap.py, the observations and their alignment.
pub mod Alignment
use ragbench_kr_implementati.Prelude.{
  Bool, true, false, not, ◌||◌, Option, none, some, String, List, [], ◌∷◌, map, str_eq,
}
use ragbench_kr_implementati.Prelude.Float.{Float}
use ragbench_kr_implementati.Prelude.Text.{is_blank}
use ragbench_kr_implementati.Prelude.Result.{
  Result, ok, err, raise_if, value_error, key_error, ◌>>=◌, ◌>>◌,
}
use ragbench_kr_implementati.Prelude.Sorting.{ascending_str, sorted}
use ragbench_kr_implementati.Prelude.Assoc.{str_key, distinct, lookup, put, same_keys}

pub record PairedObservation (F : Type 0) : Type 0 where
  pub observation_id : String
  pub left : F
  pub right : F
  pub document_cluster_id : Option String

-- A raw row: the id, the score, and the document cluster.
pub record RawRow (F : Type 0) : Type 0 where
  pub row_id : String
  pub score : F
  pub cluster : Option String

abbrev pub blank_cluster : Option String → Bool
unfolding is_blank
blank_cluster none = false
blank_cluster (some cluster) = is_blank cluster

-- `left_row[2] == right_row[2]`
abbrev pub same_cluster : Option String → Option String → Bool
same_cluster none none = true
same_cluster none (some b) = false
same_cluster (some a) none = false
same_cluster (some a) (some b) = str_eq a b

-- `{row[0]: row for row in rows}`
unfoldable pub index_rows :
    {F : Type 0} → List (String × RawRow F) → List (RawRow F) → List (String × RawRow F)
unfolding put
index_rows by_id [] = by_id
index_rows by_id (row ∷ rows) = index_rows (put row.row_id row by_id) rows

module _ (float : Float) where
  open float use {F, is_finite}

  -- `PairedObservation(...)`, with its `__post_init__`.
  unfoldable pub new_observation : String → F → F → Option String → Result (PairedObservation F)
  unfolding blank_cluster is_blank
  new_observation observation_id left right cluster = do
    raise_if (is_blank observation_id) (value_error "observation ID cannot be blank")
    raise_if (not (is_finite left) || not (is_finite right))
        (value_error "paired values must be finite")
    raise_if (blank_cluster cluster) (value_error "document cluster ID cannot be blank")
    ok (record {
      observation_id = observation_id;
      left = left;
      right = right;
      document_cluster_id = cluster;
    })

  -- One round of the loop over the sorted ids.
  unfoldable pub align_row :
      String → Option (RawRow F) → Option (RawRow F) → Result (PairedObservation F)
  unfolding new_observation
  align_row observation_id none right = err key_error
  align_row observation_id (some left) none = err key_error
  align_row observation_id (some left) (some right) = do
    raise_if (not (same_cluster left.cluster right.cluster))
        (value_error "paired observation document cluster IDs do not match")
    new_observation observation_id left.score right.score left.cluster

  unfoldable pub align_all :
      List (String × RawRow F)
      → List (String × RawRow F)
      → List String
      → Result (List (PairedObservation F))
  unfolding align_row lookup
  align_all left_by_id right_by_id [] = ok []
  align_all left_by_id right_by_id (id ∷ ids) = do
    observation ← align_row id (lookup id left_by_id) (lookup id right_by_id)
    output ← align_all left_by_id right_by_id ids
    ok (observation ∷ output)

  unfoldable pub align_paired_observations :
      List (RawRow F) → List (RawRow F) → Result (List (PairedObservation F))
  unfolding distinct index_rows same_keys sorted align_all
  align_paired_observations left right = do
    raise_if
        (not (distinct (map (λ row. row.row_id) left))
          || not (distinct (map (λ row. row.row_id) right)))
        (value_error "duplicate observation IDs are not allowed")
    let left_by_id = index_rows [] left
    let right_by_id = index_rows [] right
    raise_if (not (same_keys (map (λ e. e.0) left_by_id) (map (λ e. e.0) right_by_id)))
        (value_error "paired systems must contain the same observation IDs")
    align_all left_by_id right_by_id (sorted ascending_str (map (λ e. e.0) left_by_id))
