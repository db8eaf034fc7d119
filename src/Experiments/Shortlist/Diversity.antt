-- ===== src/Experiments/Shortlist/Diversity.antt =====
-- The loop that picks the shortlist keeps under the caps.
use mathlib.Core.Path.{subst}
use mathlib.Core.List.{append_assoc}
use ragbench_kr_implementati.Prelude.{
  ℕ, suc, ◌+◌, ◌≤◌, ◌<◌, ◌≡◌, refl, sym, false, String, List, [], ◌∷◌, ◌++◌, length, sum_of,
  sum_of-append, arith, leb, ◌==◌, ==_iff, if◌then◌else◌, Bool-cases, inl, inr, str_eq, eq_iff, All,
  AllPairs,
}
use ragbench_kr_implementati.Prelude.Result.{ok, ok-injective}
use ragbench_kr_implementati.Prelude.Assoc.{str_key, self_key, lookup, lookup-put}
use ragbench_kr_implementati.Prelude.Lookup.{All-snoc, AllPairs_skip, AllPairs_front}
use ragbench_kr_implementati.Experiments.Shortlist.{
  ScreeningOutcome, mode_of, retriever_of, or_zero, count_at, increment, choose,
}

increment_same :
    (key : String) (counter : List (String × ℕ))
    → count_at key (increment key counter) ≡ suc (count_at key counter)
unfolding count_at increment
increment_same key counter =
    rw (lookup-put key key (suc (or_zero (lookup key counter))) counter) (rw (self_key key) refl)

increment_other :
    (key other : String) (counter : List (String × ℕ))
    → str_eq key other ≡ false
    → count_at other (increment key counter) ≡ count_at other counter
unfolding count_at increment
increment_other key other counter h =
    rw (lookup-put key other (suc (or_zero (lookup key counter))) counter) (rw h refl)

module _ {F : Type 0} where
  -- How many rows have a value.
  abbrev pub tally : (ScreeningOutcome F → String) → String → List (ScreeningOutcome F) → ℕ
  tally value key rows = sum_of (λ row. if str_eq (value row) key then 1 else 0) rows

  abbrev IsCounter :
      (ScreeningOutcome F → String) → List (ScreeningOutcome F) → List (String × ℕ) → Type 0
  IsCounter value rows counter = (key : String) → count_at key counter ≡ tally value key rows

  abbrev pub IsCapped : (ScreeningOutcome F → String) → ℕ → List (ScreeningOutcome F) → Type 0
  IsCapped value cap rows = (key : String) → tally value key rows ≤ cap

  tally-snoc :
      (value : ScreeningOutcome F → String) (key : String) (rows : List (ScreeningOutcome F))
      (row : ScreeningOutcome F)
      → tally value key (rows ++ row ∷ [])
        ≡ tally value key rows + (if str_eq (value row) key then 1 else 0)
  tally-snoc value key rows row = omega (
    arith,
    sum_of-append (λ (r : ScreeningOutcome F). if str_eq (value r) key then 1 else 0) rows
        (row ∷ []),
  )

  IsCounter-snoc :
      (value : ScreeningOutcome F → String) (rows : List (ScreeningOutcome F))
      (row : ScreeningOutcome F) (counter : List (String × ℕ))
      → IsCounter value rows counter
      → IsCounter value (rows ++ row ∷ []) (increment (value row) counter)
  IsCounter-snoc value rows row counter h key = elim (Bool-cases (str_eq (value row) key)) [
    | inl e ↦
        let same = (eq_iff (value row) key).0 e in
        let grown : tally value (value row) (rows ++ row ∷ []) ≡ tally value (value row) rows + 1 =
          rw (self_key (value row)) at (tally-snoc value (value row) rows row) in
        subst
          (λ (k : String).
            count_at k (increment (value row) counter) ≡ tally value k (rows ++ row ∷ []))
          same (omega (arith, grown, increment_same (value row) counter, h (value row)))
    | inr e ↦
        let kept : tally value key (rows ++ row ∷ []) ≡ tally value key rows + 0 =
          rw e at (tally-snoc value key rows row) in
        omega (arith, kept, increment_other (value row) key counter e, h key)
  ]

  -- A row whose value is below the cap can join.
  IsCapped-snoc :
      (value : ScreeningOutcome F → String) (cap : ℕ) (rows : List (ScreeningOutcome F))
      (row : ScreeningOutcome F) (counter : List (String × ℕ))
      → IsCounter value rows counter
      → IsCapped value cap rows
      → leb cap (count_at (value row) counter) ≡ false
      → IsCapped value cap (rows ++ row ∷ [])
  IsCapped-snoc value cap rows row counter counted capped below key =
      elim (Bool-cases (str_eq (value row) key)) [
        | inl e ↦
            let same = (eq_iff (value row) key).0 e in
            let grown : tally value (value row) (rows ++ row ∷ [])
                ≡ tally value (value row) rows + 1 =
              rw (self_key (value row)) at (tally-snoc value (value row) rows row) in
            subst (λ (k : String). tally value k (rows ++ row ∷ []) ≤ cap) same
              (let room : count_at (value row) counter < cap = ground arith in
                omega (arith, grown, counted (value row)))
        | inr e ↦
            let kept : tally value key (rows ++ row ∷ []) ≡ tally value key rows + 0 =
              rw e at (tally-snoc value key rows row) in
            omega (arith, kept, capped key)
      ]

  -- What the loop picks.
  pub record Chosen (size cap : ℕ) (selected ranked out : List (ScreeningOutcome F)) : Type 1 where
    pub full : length out ≡ size
    pub modes : IsCapped mode_of cap out
    pub retrievers : IsCapped retriever_of cap out
    pub in_order :
        (R : ScreeningOutcome F → ScreeningOutcome F → Type 0)
        → AllPairs R (selected ++ ranked)
        → AllPairs R out
    pub members : (P : ScreeningOutcome F → Type 0) → All P selected → All P ranked → All P out

  Chosen-skip :
      (size cap : ℕ) (selected ranked out : List (ScreeningOutcome F))
      (outcome : ScreeningOutcome F)
      → Chosen size cap selected ranked out
      → Chosen size cap selected (outcome ∷ ranked) out
  Chosen-skip size cap selected ranked out outcome c = record {
    full = c.full;
    modes = c.modes;
    retrievers = c.retrievers;
    in_order = λ R h. c.in_order R (AllPairs_skip R selected outcome ranked h);
    members = λ P h k. c.members P h k.1;
  }

  Chosen-longer :
      (size cap : ℕ) (selected ranked out : List (ScreeningOutcome F))
      (outcome : ScreeningOutcome F)
      → Chosen size cap (selected ++ outcome ∷ []) ranked out
      → Chosen size cap selected (outcome ∷ ranked) out
  Chosen-longer size cap selected ranked out outcome c = record {
    full = c.full;
    modes = c.modes;
    retrievers = c.retrievers;
    in_order = λ R h.
        c.in_order R (subst (AllPairs R) (sym (append_assoc selected (outcome ∷ []) ranked)) h);
    members = λ P h k. c.members P (All-snoc P selected outcome h k.0) k.1;
  }

  choose_lem :
      (size cap : ℕ) (parse_counts retriever_counts : List (String × ℕ))
      (selected ranked out : List (ScreeningOutcome F))
      → IsCounter mode_of selected parse_counts
      → IsCounter retriever_of selected retriever_counts
      → IsCapped mode_of cap selected
      → IsCapped retriever_of cap selected
      → choose size cap parse_counts retriever_counts selected ranked ≡ ok out
      → Chosen size cap selected ranked out
  unfolding choose
  choose_lem size cap pc rc selected [] out cm cr km kr e = absurd (cc)
  choose_lem size cap pc rc selected (outcome ∷ ranked) out cm cr km kr e =
      elim (Bool-cases (leb cap (count_at (mode_of outcome) pc))) [
        | inl full_mode ↦
            Chosen-skip size cap selected ranked out outcome
              (choose_lem size cap pc rc selected ranked out cm cr km kr (rw full_mode at e))
        | inr mode_room ↦ elim (Bool-cases (leb cap (count_at (retriever_of outcome) rc))) [
          | inl full_retriever ↦ Chosen-skip size cap selected ranked out outcome (
              choose_lem size cap pc rc selected ranked out cm cr km kr
                (rw full_retriever at (rw mode_room at e)))
          | inr retriever_room ↦
              let longer = selected ++ outcome ∷ [] in
              let km' = IsCapped-snoc mode_of cap selected outcome pc cm km mode_room in
              let kr' = IsCapped-snoc retriever_of cap selected outcome rc cr kr retriever_room in
              let e' = rw retriever_room at (rw mode_room at e) in
              elim (Bool-cases (length longer == size)) [
                | inl filled ↦
                    subst (Chosen size cap selected (outcome ∷ ranked))
                      (ok-injective (rw filled at e'))
                      (Chosen-longer size cap selected ranked longer outcome (record {
                        full = (==_iff (length longer) size).0 filled;
                        modes = km';
                        retrievers = kr';
                        in_order = λ R h. AllPairs_front R longer ranked h;
                        members = λ P h k. h;
                      }))
                | inr short ↦ Chosen-longer size cap selected ranked out outcome (
                    choose_lem size cap (increment (mode_of outcome) pc)
                      (increment (retriever_of outcome) rc) longer ranked out
                      (IsCounter-snoc mode_of selected outcome pc cm)
                      (IsCounter-snoc retriever_of selected outcome rc cr) km' kr' (rw short at e'))
              ]
        ]
      ]

  pub choose-Chosen :
      (size cap : ℕ) (ranked out : List (ScreeningOutcome F))
      → choose size cap [] [] [] ranked ≡ ok out
      → Chosen size cap [] ranked out
  unfolding count_at
  choose-Chosen size cap ranked out e =
      choose_lem size cap [] [] [] ranked out (λ key. refl) (λ key. refl) (λ key. omega arith)
        (λ key. omega arith) e
