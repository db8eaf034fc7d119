-- ===== src/Experiments/Runs/Execution/Saved.antt =====
-- What the repository's calls do to the directory of one run: they rewrite it in place, and a result that is
-- saved stays.
use mathlib.Core.Path.{subst}
use mathlib.Core.Bool.{false≢true}
use ragbench_kr_implementati.Prelude.{
  ◌≡◌, ◌≢◌, refl, sym, ap, ◌∙◌, Bool, true, Option, none, some, String, List, [], ◌∷◌, filter_rows,
  if◌then◌else◌, str_eq, eq_iff, All, Bool-cases, inl, inr,
}
use ragbench_kr_implementati.Prelude.Result.{Error, Result, ok, err, ok-injective}
use ragbench_kr_implementati.Prelude.Assoc.{
  str_key, contains, lookup, put, self_key, lookup-put, HasDistinctKeys, put-HasDistinctKeys,
}
use ragbench_kr_implementati.Experiments.Runs.{
  ExperimentConfig, ExperimentQuestionResult, RunStatus, RunDirectory, Root,
}
use ragbench_kr_implementati.Experiments.Runs.Repository.{
  only, find, updated, write_state, apply_transition, transition, write_result, save_result,
  write_error, save_error,
}
use ragbench_kr_implementati.Experiments.Runs.Checks.{check_transition-eq-ok, check_result-eq-ok}

only-singleton : {A : Type 0} (xs : List A) (x : A) → only xs ≡ ok x → xs ≡ x ∷ []
only-singleton [] x e = absurd (cc)
only-singleton (y ∷ []) x e = ap (λ z. z ∷ []) (ok-injective e)
only-singleton (_ ∷ _ ∷ _) x e = absurd (cc)

module _ {F J : Type 0} where
  abbrev rows_of : String → Root F J → List (String × RunDirectory F J)
  rows_of run_id root = filter_rows (λ entry. str_eq entry.1.run_id run_id) root

  -- A run that is found has a key that others have not.
  rows_of_absent :
      (run_id hash : String) (root : Root F J) (run : RunDirectory F J)
      → All (λ (entry : String × RunDirectory F J). hash ≢ entry.0) root
      → rows_of run_id root ≡ (hash, run) ∷ []
      → ⊥
  unfolding filter_rows
  rows_of_absent run_id hash [] run h e = cc
  rows_of_absent run_id hash ((b, w) ∷ root) run h e = elim (Bool-cases (str_eq w.run_id run_id)) [
    | inl hit ↦
        let first : (b, w) ∷ rows_of run_id root ≡ (hash, run) ∷ [] = rw hit at e in
        let head : ◌≡◌ {A = String × RunDirectory F J} (b, w) (hash, run) = cc in
        h.0 (sym (ap (λ (r : String × RunDirectory F J). r.0) head))
    | inr miss ↦ rows_of_absent run_id hash root run h.1 (rw miss at e)
  ]

  rows_of-put :
      (run_id hash : String) (root : Root F J) (run after : RunDirectory F J)
      → HasDistinctKeys root
      → after.run_id ≡ run.run_id
      → rows_of run_id root ≡ (hash, run) ∷ []
      → rows_of run_id (put hash after root) ≡ (hash, after) ∷ []
  unfolding filter_rows put
  rows_of-put run_id hash [] run after d same e = absurd (cc)
  rows_of-put run_id hash ((b, w) ∷ root) run after d same e = elim (Bool-cases (str_eq b hash)) [
    | inl key ↦ rw key (elim (Bool-cases (str_eq w.run_id run_id)) [
      | inl hit ↦
          let first : (b, w) ∷ rows_of run_id root ≡ (hash, run) ∷ [] = rw hit at e in
          let head : ◌≡◌ {A = String × RunDirectory F J} (b, w) (hash, run) = cc in
          let rest : rows_of run_id root ≡ [] = cc in
          let id : after.run_id ≡ w.run_id =
            same ∙ sym (ap (λ (r : String × RunDirectory F J). r.1.run_id) head) in
          let still : str_eq after.run_id run_id ≡ true =
            ap (λ (i : String). str_eq i run_id) id ∙ hit in
          rw still (λ i. ((ap (λ (r : String × RunDirectory F J). r.0) head) i, after) ∷ rest i)
      | inr miss ↦ absurd (
          rows_of_absent run_id hash root run
            (subst (λ (k : String). All (λ (entry : String × RunDirectory F J). k ≢ entry.0) root)
              ((eq_iff b hash).0 key) d.0)
            (rw miss at e))
    ])
    | inr other ↦ rw other (elim (Bool-cases (str_eq w.run_id run_id)) [
      | inl hit ↦
          let first : (b, w) ∷ rows_of run_id root ≡ (hash, run) ∷ [] = rw hit at e in
          let head : ◌≡◌ {A = String × RunDirectory F J} (b, w) (hash, run) = cc in
          absurd (
            false≢true
              (sym other ∙ (eq_iff b hash).1 (ap (λ (r : String × RunDirectory F J). r.0) head)))
      | inr miss ↦ rw miss (rows_of-put run_id hash root run after d.1 same (rw miss at e))
    ])
  ]

  -- A directory that is rewritten is found again.
  pub find-put :
      (run_id hash : String) (root : Root F J) (run after : RunDirectory F J)
      → HasDistinctKeys root
      → after.run_id ≡ run.run_id
      → find run_id root ≡ ok (hash, run)
      → find run_id (put hash after root) ≡ ok (hash, after)
  unfolding find
  find-put run_id hash root run after d same e =
      ap only (rows_of-put run_id hash root run after d same (only-singleton _ _ e))

  -- What a later directory of a run keeps.
  pub record Keeps (before after : RunDirectory F J) : Type 0 where
    pub same_id : after.run_id ≡ before.run_id
    pub same_config : after.config ≡ before.config
    pub same_results :
        (file : String) (saved : ExperimentQuestionResult J)
        → lookup file before.results ≡ some saved
        → lookup file after.results ≡ some saved

  -- The directory of a run, found in a root of distinct hash directories.
  pub record Holds (run_id : String) (root : Root F J) (hash : String) (run : RunDirectory F J)
      : Type 0 where
    pub distinct_roots : HasDistinctKeys root
    pub there : find run_id root ≡ ok (hash, run)

  -- The run's directory, after calls that keep it.
  abbrev pub Later : String → String → RunDirectory F J → Root F J → Type 0
  Later run_id hash run root =
      (after : RunDirectory F J) × Holds run_id root hash after × Keeps run after

  Keeps-refl : (run : RunDirectory F J) → Keeps run run
  Keeps-refl run = record { same_id = refl; same_config = refl; same_results = λ file saved h. h }

  pub Keeps-trans : (a b c : RunDirectory F J) → Keeps a b → Keeps b c → Keeps a c
  Keeps-trans a b c h k = record {
    same_id = k.same_id ∙ h.same_id;
    same_config = k.same_config ∙ h.same_config;
    same_results = λ file saved e. k.same_results file saved (h.same_results file saved e);
  }

  pub Later_same :
      (run_id hash : String) (run : RunDirectory F J) (root : Root F J)
      → Holds run_id root hash run
      → Later run_id hash run root
  Later_same run_id hash run root h = (run, h, Keeps-refl run)

  Later-put :
      (run_id hash : String) (run after : RunDirectory F J) (root : Root F J)
      → Holds run_id root hash run
      → Keeps run after
      → Later run_id hash run (put hash after root)
  Later-put run_id hash run after root h k = (
    after,
    record {
      distinct_roots = put-HasDistinctKeys hash after root h.distinct_roots;
      there = find-put run_id hash root run after h.distinct_roots k.same_id h.there;
    },
    k,
  )

module _ {F J : Type 0} (semantic_hash full_hash : ExperimentConfig F → String)
    (safe_id : String → String) where
  found_same :
      (run_id hash : String) (root : Root F J) (run : RunDirectory F J)
      (entry : String × RunDirectory F J)
      → Holds run_id root hash run
      → find run_id root ≡ ok entry
      → (hash, run) ≡ entry
  found_same run_id hash root run entry h e = ok-injective (sym h.there ∙ e)

  apply_transition-Later :
      (run_id hash : String) (run : RunDirectory F J) (root : Root F J) (status : RunStatus)
      (finished failures : Option (List String)) (stop_reason : Option String)
      (found : Result (String × RunDirectory F J))
      → Holds run_id root hash run
      → ((entry : String × RunDirectory F J) → found ≡ ok entry → (hash, run) ≡ entry)
      → Later run_id hash run
          (apply_transition semantic_hash full_hash safe_id status finished failures stop_reason
            root found).1
  unfolding apply_transition write_state
  apply_transition-Later run_id hash run root status finished failures stop_reason (err raised) h
        f =
      Later_same run_id hash run root h
  apply_transition-Later run_id hash run root status finished failures stop_reason
        (ok (key, directory)) h f =
      let same = f (key, directory) refl in
      subst
        (λ (entry : String × RunDirectory F J). Later run_id hash run (
          put entry.0
            (write_state (updated entry.1.state status finished failures stop_reason) entry.1)
            root))
        same
        (Later-put run_id hash run _ root h
          (record { same_id = refl; same_config = refl; same_results = λ file saved e. e }))

  pub transition-Later :
      (run_id hash : String) (run : RunDirectory F J) (root : Root F J) (status : RunStatus)
      (finished failures : Option (List String)) (stop_reason : Option String)
      → Holds run_id root hash run
      → Later run_id hash run
          (transition semantic_hash full_hash safe_id run_id status finished failures stop_reason
            root).1
  unfolding transition
  transition-Later run_id hash run root status finished failures stop_reason h =
      apply_transition-Later run_id hash run root status finished failures stop_reason _ h
        (λ entry e.
          found_same run_id hash root run entry h
            (check_transition-eq-ok semantic_hash full_hash safe_id run_id status root entry e).0)

  write_error-Later :
      (run_id hash question_id : String) (error : Error) (run : RunDirectory F J) (root : Root F J)
      (found : Result (String × RunDirectory F J))
      → Holds run_id root hash run
      → ((entry : String × RunDirectory F J) → found ≡ ok entry → (hash, run) ≡ entry)
      → Later run_id hash run
          (write_error semantic_hash full_hash safe_id question_id error root found).1
  unfolding write_error
  write_error-Later run_id hash question_id error run root (err raised) h f =
      Later_same run_id hash run root h
  write_error-Later run_id hash question_id error run root (ok (key, directory)) h f =
      let same = f (key, directory) refl in
      subst
        (λ (entry : String × RunDirectory F J).
          Later run_id hash run
            (write_error semantic_hash full_hash safe_id question_id error root (ok entry)).1)
        same
        (Later-put run_id hash run _ root h
          (record { same_id = refl; same_config = refl; same_results = λ file saved e. e }))

  pub save_error-Later :
      (run_id hash question_id : String) (error : Error) (run : RunDirectory F J) (root : Root F J)
      → Holds run_id root hash run
      → Later run_id hash run
          (save_error semantic_hash full_hash safe_id run_id question_id error root).1
  unfolding save_error
  save_error-Later run_id hash question_id error run root h =
      write_error-Later run_id hash question_id error run root (find run_id root) h
        (λ entry e. found_same run_id hash root run entry h e)

  -- A result file of a question.
  abbrev pub HasResult : RunDirectory F J → String → Type 0
  HasResult run id =
      (saved : ExperimentQuestionResult J) × (lookup (safe_id id) run.results ≡ some saved)
      × (saved.question_id ≡ id)

  keep_old :
      (a : String) (v : ExperimentQuestionResult J) (m : List (String × ExperimentQuestionResult J))
      (file : String) (saved : ExperimentQuestionResult J)
      → lookup a m ≡ none
      → lookup file m ≡ some saved
      → lookup file (put a v m) ≡ some saved
  keep_old a v m file saved fresh there = elim (Bool-cases (str_eq a file)) [
    | inl e ↦ absurd (
        let same : a ≡ file = (eq_iff a file).0 e in
        let found : lookup a m ≡ some saved = rw same there in cc)
    | inr e ↦
        lookup-put a file v m ∙ ap (λ (b : Bool). if b then some v else lookup file m) e ∙ there
  ]

  -- A save that returns leaves the result; one that raises changes nothing.
  write_result-Later :
      (run_id hash : String) (saved : ExperimentQuestionResult J) (run : RunDirectory F J)
      (root : Root F J) (found : Result (String × RunDirectory F J))
      → Holds run_id root hash run
      → ((entry : String × RunDirectory F J)
          → found ≡ ok entry
          → ((hash, run) ≡ entry)
            × (contains saved.question_id entry.1.config.question_ids ≡ true)
            × (lookup (safe_id saved.question_id) entry.1.results ≡ none))
      → (later : Later run_id hash run
          (write_result semantic_hash full_hash safe_id saved root found).1)
        × ((write_result semantic_hash full_hash safe_id saved root found).0 ≡ ok tt
            → HasResult later.0 saved.question_id
              × (contains saved.question_id run.config.question_ids ≡ true))
  unfolding write_result Later-put
  write_result-Later run_id hash saved run root (err raised) h f =
      (Later_same run_id hash run root h, λ e. absurd (cc))
  write_result-Later run_id hash saved run root (ok (key, directory)) h f =
      let (same, inside, fresh) = f (key, directory) refl in
      let Q = λ (entry : String × RunDirectory F J).
        (later : Later run_id hash run
          (write_result semantic_hash full_hash safe_id saved root (ok entry)).1)
        × (ok tt ≡ ok tt
            → HasResult later.0 saved.question_id
              × (contains saved.question_id run.config.question_ids ≡ true)) in
      let before =
        subst
          (λ (entry : String × RunDirectory F J).
            lookup (safe_id saved.question_id) entry.1.results ≡ none)
          (sym same) fresh in
      let asked =
        subst
          (λ (entry : String × RunDirectory F J).
            contains saved.question_id entry.1.config.question_ids ≡ true)
          (sym same) inside in
      subst Q same (
        Later-put run_id hash run _ root h (record {
          same_id = refl;
          same_config = refl;
          same_results = λ file old e.
              keep_old (safe_id saved.question_id) saved run.results file old before e;
        }),
        λ _. (
          (
            saved,
            lookup-put (safe_id saved.question_id) (safe_id saved.question_id) saved run.results
                ∙ ap
                    (λ (b : Bool).
                      if b then some saved else lookup (safe_id saved.question_id) run.results)
                    (self_key (safe_id saved.question_id)),
            refl,
          ),
          asked,
        ),
      )

  pub save_result-Later :
      (run_id hash : String) (saved : ExperimentQuestionResult J) (run : RunDirectory F J)
      (root : Root F J)
      → Holds run_id root hash run
      → (later : Later run_id hash run
          (save_result semantic_hash full_hash safe_id run_id saved root).1)
        × ((save_result semantic_hash full_hash safe_id run_id saved root).0 ≡ ok tt
            → HasResult later.0 saved.question_id
              × (contains saved.question_id run.config.question_ids ≡ true))
  unfolding save_result
  save_result-Later run_id hash saved run root h =
      write_result-Later run_id hash saved run root _ h (λ entry e.
        let (found, inside, fresh) =
          check_result-eq-ok semantic_hash full_hash safe_id run_id saved root entry e in
        (found_same run_id hash root run entry h found, inside, fresh))
