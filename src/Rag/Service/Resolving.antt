-- ===== src/Rag/Service/Resolving.antt =====
-- The check of the resolved chunks: they are the retrieved hits, each once.
use mathlib.Core.Path.{subst}
use mathlib.Core.List.{Mem}
use ragbench_kr_implementati.Prelude.{
  ◌≡◌, refl, ap, sym, ◌∙◌, Bool, true, false, not, not-false, ◌||◌, Option, none, some, String,
  List, [], ◌∷◌, map, All, arith, str_eq,
}
use ragbench_kr_implementati.Prelude.Float.{Float}
use ragbench_kr_implementati.Prelude.Result.{ok, raise_if-eq-ok, >>=-eq-ok, ok-injective}
use ragbench_kr_implementati.Prelude.Assoc.{
  str_key, contains, lookup, put, same_keys, same_keys-contains,
}
use ragbench_kr_implementati.Prelude.Lookup.{All-of_Mem, contains-put, All-put_value, lookup-All}
use ragbench_kr_implementati.Retrieval.{SearchHit}
use ragbench_kr_implementati.Rag.{RetrievedChunk}
use ragbench_kr_implementati.Rag.Context.{chunk_id_of}
use ragbench_kr_implementati.Rag.Service.{
  hit_eq, index_hits, check_canonical, check_chunks, validate_resolved_chunks,
}

or_false : (a : Bool) → a ≡ (a || false)
or_false a = ground arith

or_move : (a b c : Bool) → ((a || b) || c) ≡ (b || (a || c))
or_move a b c = ground arith

module _ (float : Float) where
  open float use {F}

  abbrev hit_ids : List (SearchHit F) → List String
  hit_ids hits = map (λ hit. hit.chunk_id) hits

  abbrev keys : List (String × SearchHit F) → List String
  keys by_id = map (λ entry. entry.0) by_id

  index_hits_lem :
      (P : SearchHit F → Type 0) (by_id out : List (String × SearchHit F))
      (hits : List (SearchHit F))
      → All P hits
      → All (λ entry. P entry.1) by_id
      → index_hits float by_id hits ≡ ok out
      → All (λ entry. P entry.1) out
        × ((id : String)
            → contains id (keys out) ≡ (contains id (keys by_id) || contains id (hit_ids hits)))
  unfolding index_hits contains
  index_hits_lem P by_id out [] all_hits h e =
      subst
        (λ (m : List (String × SearchHit F)).
          All (λ entry. P entry.1) m
          × ((id : String) → contains id (keys m) ≡ (contains id (keys by_id) || false)))
        (ok-injective e) (h, λ id. or_false (contains id (keys by_id)))
  index_hits_lem P by_id out (hit ∷ hits) all_hits h e =
      let (_, rest) = raise_if-eq-ok (contains hit.chunk_id (keys by_id)) _ _ e in
      let (all_out, same) =
        index_hits_lem P (put hit.chunk_id hit by_id) out hits all_hits.1
          (All-put_value P hit.chunk_id hit by_id all_hits.0 h) rest in
      (
        all_out,
        λ id.
            same id
            ∙ ap (λ b. b || contains id (hit_ids hits)) (contains-put hit.chunk_id id hit by_id)
            ∙ or_move (str_eq hit.chunk_id id) (contains id (keys by_id))
                (contains id (hit_ids hits)),
      )

  -- A hit among those of a property, that the chunk's own hit equals.
  abbrev pub IsCanonical : (SearchHit F → Type 0) → RetrievedChunk F → Type 0
  IsCanonical P chunk = (hit : SearchHit F) × P hit × (hit_eq float chunk.hit hit ≡ true)

  check_canonical_lem :
      (P : SearchHit F → Type 0) (by_id : List (String × SearchHit F)) (chunk : RetrievedChunk F)
      (found : Option (SearchHit F))
      → All (λ entry. P entry.1) by_id
      → lookup chunk.hit.chunk_id by_id ≡ found
      → check_canonical float chunk.hit found ≡ ok tt
      → IsCanonical P chunk
  unfolding check_canonical
  check_canonical_lem P by_id chunk none h e r = absurd (cc)
  check_canonical_lem P by_id chunk (some hit) h e r = (
    hit,
    lookup-All P chunk.hit.chunk_id hit by_id h e,
    not-false _ (raise_if-eq-ok (not (hit_eq float chunk.hit hit)) _ _ r).0,
  )

  check_chunks_lem :
      (P : SearchHit F → Type 0) (by_id : List (String × SearchHit F)) (seen out : List String)
      (chunks : List (RetrievedChunk F))
      → All (λ entry. P entry.1) by_id
      → check_chunks float by_id seen chunks ≡ ok out
      → All (IsCanonical P) chunks
        × ((id : String)
            → contains id out ≡ (contains id seen || contains id (map chunk_id_of chunks)))
  unfolding check_chunks contains
  check_chunks_lem P by_id seen out [] h e =
      (tt, λ id. ap (contains id) (sym (ok-injective e)) ∙ or_false (contains id seen))
  check_chunks_lem P by_id seen out (chunk ∷ chunks) h e =
      let (_, e₁) = raise_if-eq-ok (contains chunk.hit.chunk_id seen) _ _ e in
      let (_, canonical, e₂) =
        >>=-eq-ok (check_canonical float chunk.hit (lookup chunk.hit.chunk_id by_id)) _ e₁ in
      let (all_chunks, same) =
        check_chunks_lem P by_id (chunk.hit.chunk_id ∷ seen) out chunks h e₂ in
      (
        (check_canonical_lem P by_id chunk _ h refl canonical, all_chunks),
        λ id.
            same id
            ∙ or_move (str_eq chunk.hit.chunk_id id) (contains id seen)
                (contains id (map chunk_id_of chunks)),
      )

  -- Chunks that pass the check have the ids of the hits, and each carries one of the hits.
  pub validate_resolved_chunks_lem :
      (hits : List (SearchHit F)) (chunks : List (RetrievedChunk F))
      → validate_resolved_chunks float hits chunks ≡ ok tt
      → All (IsCanonical (λ hit. Mem hit hits)) chunks
        × ((id : String)
            → contains id (map chunk_id_of chunks) ≡ contains id (map (λ hit. hit.chunk_id) hits))
  unfolding validate_resolved_chunks contains
  validate_resolved_chunks_lem hits chunks e =
      let P = λ (hit : SearchHit F). Mem hit hits in
      let (by_id, indexed, e₁) = >>=-eq-ok (index_hits float [] hits) _ e in
      let (resolved, checked, e₂) = >>=-eq-ok (check_chunks float by_id [] chunks) _ e₁ in
      let (all_hits, same_hits) =
        index_hits_lem P [] by_id hits (All-of_Mem hits (λ hit m. m)) tt indexed in
      let (all_chunks, same_chunks) =
        check_chunks_lem P by_id [] resolved chunks all_hits checked in
      let same =
        same_keys-contains resolved (keys by_id)
          (not-false _ (raise_if-eq-ok (not (same_keys resolved (keys by_id))) _ _ e₂).0) in
      (all_chunks, λ id. sym (same_chunks id) ∙ same id ∙ same_hits id)
