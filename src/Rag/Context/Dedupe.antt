-- ===== src/Rag/Context/Dedupe.antt =====
-- The loop that keeps the first row of each chunk id.
use mathlib.Core.Path.{subst}
use mathlib.Core.List.{append_assoc, append-nil}
use ragbench_kr_implementati.Prelude.{
  ◌+◌, ◌≡◌, ◌≢◌, refl, ap, sym, ◌∙◌, Bool, true, false, not, ◌||◌, Option, none, some, String, List,
  [], ◌∷◌, ◌++◌, map, length, length-append, arith, All, AllPairs, str_eq, eq_iff, Option-cases,
  inl, inr,
}
use ragbench_kr_implementati.Prelude.Result.{ok, raise_if-eq-ok, >>=-eq-ok, ok-injective}
use ragbench_kr_implementati.Prelude.Assoc.{str_key, contains, lookup}
use ragbench_kr_implementati.Prelude.Lookup.{
  AllPairs-snoc, AllPairs_skip, All-skip, contains-append, put_absent, lookup-none, lookup-contains,
}
use ragbench_kr_implementati.Rag.{RetrievedChunk}
use ragbench_kr_implementati.Rag.Context.{
  chunk_id_of, Deduped, nothing_seen, kept, dropped, dedupe_row, dedupe, same_source,
}

or_seen : (a b x : Bool) → (b ≡ true → a ≡ true) → (a || x) ≡ (a || (b || x))
or_seen a b x h = ground arith

or_assoc : (a b x : Bool) → ((a || (b || false)) || x) ≡ (a || (b || x))
or_assoc a b x = ground arith

or_false : (a : Bool) → (a || false) ≡ a
or_false a = ground arith

module _ {F : Type 0} where
  abbrev pub ids_of : List (RetrievedChunk F) → List String
  ids_of rows = map chunk_id_of rows

  abbrev pub entry_of : RetrievedChunk F → String × RetrievedChunk F
  entry_of row = (row.hit.chunk_id, row)

  map-snoc :
      (rows : List (RetrievedChunk F)) (row : RetrievedChunk F)
      → map entry_of (rows ++ row ∷ []) ≡ map entry_of rows ++ entry_of row ∷ []
  map-snoc [] row = refl
  map-snoc (first ∷ rows) row =
      ap (λ (rest : List (String × RetrievedChunk F)). entry_of first ∷ rest) (map-snoc rows row)

  All-entries :
      (P : String → Type 0) (rows : List (RetrievedChunk F))
      → All (λ entry. P entry.0) (map entry_of rows)
      → All (λ row. P (chunk_id_of row)) rows
  All-entries P [] h = tt
  All-entries P (row ∷ rows) h = (h.0, All-entries P rows h.1)

  -- The rows kept are the rows seen; they have distinct ids.
  abbrev pub IsLinked : Deduped F → Type 0
  IsLinked state =
      (state.seen ≡ map entry_of state.unique)
      × AllPairs (λ a b. chunk_id_of a ≢ chunk_id_of b) state.unique

  IsLinked-kept :
      (state : Deduped F) (row : RetrievedChunk F)
      → lookup row.hit.chunk_id state.seen ≡ none
      → IsLinked state
      → IsLinked (kept state row)
  unfolding kept
  IsLinked-kept state row missing (linked, apart) = (
    put_absent row.hit.chunk_id row state.seen missing
        ∙ ap (λ (seen : List (String × RetrievedChunk F)). seen ++ entry_of row ∷ []) linked
        ∙ sym (map-snoc state.unique row),
    AllPairs-snoc (λ a b. chunk_id_of a ≢ chunk_id_of b) state.unique row apart
        (All-entries (λ id. id ≢ row.hit.chunk_id) state.unique
          (lookup-none row.hit.chunk_id (map entry_of state.unique) (rw linked at missing))),
  )

  -- What the loop comes to, from a state and the rows that are left.
  pub record Outcome (state : Deduped F) (rows : List (RetrievedChunk F)) (out : Deduped F)
      : Type 1 where
    pub linked : IsLinked out
    pub same_ids :
        (id : String)
        → contains id (ids_of out.unique)
          ≡ (contains id (ids_of state.unique) || contains id (ids_of rows))
    pub counted :
        length out.unique + length out.duplicates
        ≡ length state.unique + length state.duplicates + length rows
    pub in_order :
        (R : RetrievedChunk F → RetrievedChunk F → Type 0)
        → AllPairs R (state.unique ++ rows)
        → AllPairs R out.unique
    pub all_kept : (P : RetrievedChunk F → Type 0) → All P (state.unique ++ rows) → All P out.unique

  keys-entries :
      (rows : List (RetrievedChunk F)) → map (λ entry. entry.0) (map entry_of rows) ≡ ids_of rows
  keys-entries [] = refl
  keys-entries (row ∷ rows) = ap (λ (ids : List String). row.hit.chunk_id ∷ ids) (keys-entries rows)

  ids_of-append : (xs ys : List (RetrievedChunk F)) → ids_of (xs ++ ys) ≡ ids_of xs ++ ids_of ys
  ids_of-append [] ys = refl
  ids_of-append (x ∷ xs) ys = ap (λ (ids : List String). x.hit.chunk_id ∷ ids) (ids_of-append xs ys)

  contains-kept :
      (id : String) (rows : List (RetrievedChunk F)) (row : RetrievedChunk F)
      → contains id (ids_of (rows ++ row ∷ []))
        ≡ (contains id (ids_of rows) || contains id (row.hit.chunk_id ∷ []))
  contains-kept id rows row =
      ap (contains id) (ids_of-append rows (row ∷ []))
      ∙ contains-append id (ids_of rows) (row.hit.chunk_id ∷ [])

  -- A row that is dropped has an id that was seen.
  contains-seen :
      (state : Deduped F) (row prior : RetrievedChunk F)
      → IsLinked state
      → lookup row.hit.chunk_id state.seen ≡ some prior
      → contains row.hit.chunk_id (ids_of state.unique) ≡ true
  contains-seen state row prior linked found =
      rw (← keys-entries state.unique)
        (lookup-contains row.hit.chunk_id prior (map entry_of state.unique) (rw linked.0 at found))

  Outcome-kept :
      (state out : Deduped F) (row : RetrievedChunk F) (rows : List (RetrievedChunk F))
      → Outcome (kept state row) rows out
      → Outcome state (row ∷ rows) out
  unfolding kept contains
  Outcome-kept state out row rows o = record {
    linked = o.linked;
    same_ids = λ id.
        o.same_ids id
        ∙ ap (λ b. b || contains id (ids_of rows)) (contains-kept id state.unique row)
        ∙ or_assoc (contains id (ids_of state.unique)) (str_eq row.hit.chunk_id id)
            (contains id (ids_of rows));
    counted = omega (arith, o.counted, length-append state.unique (row ∷ []));
    in_order = λ R h.
        o.in_order R (subst (AllPairs R) (sym (append_assoc state.unique (row ∷ []) rows)) h);
    all_kept =
        λ P h. o.all_kept P (subst (All P) (sym (append_assoc state.unique (row ∷ []) rows)) h);
  }

  Outcome-dropped :
      (state out : Deduped F) (row prior : RetrievedChunk F) (rows : List (RetrievedChunk F))
      → IsLinked state
      → lookup row.hit.chunk_id state.seen ≡ some prior
      → Outcome (dropped state row) rows out
      → Outcome state (row ∷ rows) out
  unfolding contains
  Outcome-dropped state out row prior rows linked found o = record {
    linked = o.linked;
    same_ids = λ id.
        o.same_ids id
        ∙ or_seen (contains id (ids_of state.unique)) (str_eq row.hit.chunk_id id) _ (λ same.
          subst (λ (i : String). contains i (ids_of state.unique) ≡ true)
            ((eq_iff row.hit.chunk_id id).0 same) (contains-seen state row prior linked found));
    counted = omega (arith, o.counted, length-append state.duplicates (row.hit.chunk_id ∷ []));
    in_order = λ R h. o.in_order R (AllPairs_skip R state.unique row rows h);
    all_kept = λ P h. o.all_kept P (All-skip P state.unique row rows h);
  }

  dedupe_row-missing :
      (state next : Deduped F) (row : RetrievedChunk F) (prior : Option (RetrievedChunk F))
      → prior ≡ none
      → dedupe_row state row prior ≡ ok next
      → next ≡ kept state row
  unfolding dedupe_row
  dedupe_row-missing state next row none e step = sym (ok-injective step)
  dedupe_row-missing state next row (some prior) e step = absurd (cc)

  dedupe_row-found :
      (state next : Deduped F) (row prior : RetrievedChunk F) (found : Option (RetrievedChunk F))
      → found ≡ some prior
      → dedupe_row state row found ≡ ok next
      → next ≡ dropped state row
  unfolding dedupe_row
  dedupe_row-found state next row prior none e step = absurd (cc)
  dedupe_row-found state next row prior (some other) e step =
      sym (ok-injective (raise_if-eq-ok (not (same_source other row)) _ _ step).1)

  Outcome-dedupe :
      (state out : Deduped F) (rows : List (RetrievedChunk F))
      → IsLinked state
      → dedupe state rows ≡ ok out
      → Outcome state rows out
  unfolding dedupe contains
  Outcome-dedupe state out [] linked e = subst (Outcome state []) (ok-injective e) (record {
    linked = linked;
    same_ids = λ id. sym (or_false (contains id (ids_of state.unique)));
    counted = omega arith;
    in_order = λ R h. subst (AllPairs R) (append-nil state.unique) h;
    all_kept = λ P h. subst (All P) (append-nil state.unique) h;
  })
  Outcome-dedupe state out (row ∷ rows) linked e =
      let (next, step, others) =
        >>=-eq-ok (dedupe_row state row (lookup row.hit.chunk_id state.seen)) _ e in
      elim (Option-cases (lookup row.hit.chunk_id state.seen)) [
        | inl missing ↦
            let same = dedupe_row-missing state next row _ missing step in
            let linked' = subst IsLinked (sym same) (IsLinked-kept state row missing linked) in
            Outcome-kept state out row rows (
              subst (λ (s : Deduped F). Outcome s rows out) same
                (Outcome-dedupe next out rows linked' others))
        | inr (prior, found) ↦
            let same = dedupe_row-found state next row prior _ found step in
            let linked' = subst IsLinked (sym same) linked in
            Outcome-dropped state out row prior rows linked found (
              subst (λ (s : Deduped F). Outcome s rows out) same
                (Outcome-dedupe next out rows linked' others))
      ]

  pub dedupe_lem :
      (rows : List (RetrievedChunk F)) (out : Deduped F)
      → dedupe nothing_seen rows ≡ ok out
      → Outcome nothing_seen rows out
  dedupe_lem rows out e = Outcome-dedupe nothing_seen out rows (refl, tt) e
