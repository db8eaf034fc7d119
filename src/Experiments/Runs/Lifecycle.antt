-- ===== src/Experiments/Runs/Lifecycle.antt =====
-- What every sequence of repository calls keeps of the run directories.
use Prim.Native.String.{◌++◌}
use mathlib.Core.Path.{subst}
use mathlib.Core.List.{◌++◌ as append}
use ragbench_kr_implementati.Prelude.{
  ◌≡◌, refl, sym, true, Option, String, List, [], ◌∷◌, All, All-filter_rows, Bool-cases, inl, inr,
  Option-cases,
}
use ragbench_kr_implementati.Prelude.Result.{Error, Result, ok, err, ok-injective}
use ragbench_kr_implementati.Prelude.Assoc.{Key, str_key, contains, lookup, put}
use ragbench_kr_implementati.Experiments.Runs.{
  ExperimentConfig, ExperimentQuestionResult, RunStatus, planned, ExperimentRun, may_follow,
  RunDirectory, Root,
}
use ragbench_kr_implementati.Experiments.Runs.Repository.{
  starts_with, only, find, create, updated, write_state, apply_transition, transition, write_result,
  save_result, write_error, save_error,
}
use ragbench_kr_implementati.Experiments.Runs.Checks.{
  starts_with-append, check_transition-eq-ok, check_result-eq-ok,
}

-- The states that a run has gone through, the last of them its state.
pub data History (run_id config_hash : String) : List ExperimentRun → ExperimentRun → Type 0 where
  begun :
      (run : ExperimentRun)
      → run.run_id ≡ run_id
      → run.config_hash ≡ config_hash
      → run.status ≡ planned
      → History run_id config_hash (run ∷ []) run
  changed :
      (past : List ExperimentRun) (run next : ExperimentRun)
      → History run_id config_hash past run
      → may_follow run.status next.status ≡ true
      → next.run_id ≡ run.run_id
      → next.config_hash ≡ run.config_hash
      → History run_id config_hash (append past (next ∷ [])) next

module _ {ℓ κ μ} {K : Type ℓ} {V : Type κ} ⦃k : Key K⦄ (P : K × V → Type μ) where
  -- An assignment keeps what holds of every entry.
  All-put : (a : K) (v : V) (m : List (K × V)) → P (a, v) → All P m → All P (put a v m)
  unfolding put
  All-put a v [] p h = (p, tt)
  All-put a v ((b, w) ∷ m) p h = elim (Bool-cases (k.eq b a)) [
    | inl e ↦ rw e (subst (λ c. P (c, v)) (sym ((k.eq_lem b a).0 e)) p, h.1)
    | inr e ↦ rw e (h.0, All-put a v m p h.1)
  ]

only-All {ℓ κ} :
    {A : Type ℓ} (P : A → Type κ) (xs : List A) (x : A) → All P xs → only xs ≡ ok x → P x
only-All P [] x h e = absurd (cc)
only-All P (y ∷ []) x h e = subst P (ok-injective e) h.0
only-All P (_ ∷ _ ∷ _) x h e = absurd (cc)

module _ {F J : Type 0} (semantic_hash full_hash : ExperimentConfig F → String)
    (safe_id : String → String) where
  -- A run's directory under its hash directory.
  pub record IsSound (hash : String) (run : RunDirectory F J) : Type 0 where
    pub hashed : semantic_hash run.config ≡ hash
    pub sealed : full_hash run.config ≡ run.config_sha256
    pub named : starts_with (hash ++ "-") run.run_id ≡ true
    pub legal : History run.run_id hash run.history run.state
    pub cohort :
        All
          (λ (file : String × ExperimentQuestionResult J).
            (file.0 ≡ safe_id file.1.question_id)
            × (contains file.1.question_id run.config.question_ids ≡ true))
          run.results

  abbrev AllSound : Root F J → Type 0
  AllSound root = All (λ (entry : String × RunDirectory F J). IsSound entry.0 entry.1) root

  find-IsSound :
      (run_id : String) (root : Root F J) (entry : String × RunDirectory F J)
      → AllSound root
      → find run_id root ≡ ok entry
      → IsSound entry.0 entry.1
  unfolding find
  find-IsSound run_id root entry h e = only-All _ _ entry (All-filter_rows _ _ root h) e

  create-IsSound :
      (config : ExperimentConfig F) (timestamp : String) (root : Root F J)
      → AllSound root
      → AllSound (create {J = J} semantic_hash full_hash safe_id config timestamp root).1
  unfolding create
  create-IsSound config timestamp root h =
      elim (Option-cases (lookup (semantic_hash config) root)) [
        | inl fresh ↦
            rw (fresh, create)
              (All-put (λ entry. IsSound entry.0 entry.1) (semantic_hash config) _ root
                (record {
                  hashed = refl;
                  sealed = refl;
                  named = starts_with-append (semantic_hash config) "-" timestamp;
                  legal = begun _ refl refl refl;
                  cohort = tt;
                })
                h)
        | inr (run, there) ↦ rw (there, create) h
      ]

  apply_transition-IsSound :
      (status : RunStatus) (finished failures : Option (List String)) (stop_reason : Option String)
      (root : Root F J) (found : Result (String × RunDirectory F J))
      → ((entry : String × RunDirectory F J)
          → found ≡ ok entry
          → IsSound entry.0 entry.1 × (may_follow entry.1.state.status status ≡ true))
      → AllSound root
      → AllSound
          (apply_transition semantic_hash full_hash safe_id status finished failures stop_reason
            root found).1
  unfolding apply_transition updated write_state
  apply_transition-IsSound status finished failures stop_reason root (err raised) f h = h
  apply_transition-IsSound status finished failures stop_reason root (ok (hash, run)) f h =
      let (sound, allowed) = f (hash, run) refl in
      All-put (λ entry. IsSound entry.0 entry.1) hash _ root
        (record {
          hashed = sound.hashed;
          sealed = sound.sealed;
          named = sound.named;
          legal = changed run.history run.state _ sound.legal allowed refl refl;
          cohort = sound.cohort;
        })
        h

  transition-IsSound :
      (run_id : String) (status : RunStatus) (finished failures : Option (List String))
      (stop_reason : Option String) (root : Root F J)
      → AllSound root
      → AllSound
          (transition semantic_hash full_hash safe_id run_id status finished failures stop_reason
            root).1
  unfolding transition
  transition-IsSound run_id status finished failures stop_reason root h =
      apply_transition-IsSound status finished failures stop_reason root _
        (λ entry e.
          let (found, allowed) =
            check_transition-eq-ok semantic_hash full_hash safe_id run_id status root entry e in
          (find-IsSound run_id root entry h found, allowed))
        h

  write_result-IsSound :
      (saved : ExperimentQuestionResult J) (root : Root F J)
      (found : Result (String × RunDirectory F J))
      → ((entry : String × RunDirectory F J)
          → found ≡ ok entry
          → IsSound entry.0 entry.1
            × (contains saved.question_id entry.1.config.question_ids ≡ true))
      → AllSound root
      → AllSound (write_result semantic_hash full_hash safe_id saved root found).1
  unfolding write_result
  write_result-IsSound saved root (err raised) f h = h
  write_result-IsSound saved root (ok (hash, run)) f h =
      let (sound, inside) = f (hash, run) refl in
      All-put (λ entry. IsSound entry.0 entry.1) hash _ root
        (record {
          hashed = sound.hashed;
          sealed = sound.sealed;
          named = sound.named;
          legal = sound.legal;
          cohort =
              All-put
                (λ (file : String × ExperimentQuestionResult J).
                  (file.0 ≡ safe_id file.1.question_id)
                  × (contains file.1.question_id run.config.question_ids ≡ true))
                (safe_id saved.question_id) saved run.results (refl, inside) sound.cohort;
        })
        h

  write_error-IsSound :
      (question_id : String) (error : Error) (root : Root F J)
      (found : Result (String × RunDirectory F J))
      → ((entry : String × RunDirectory F J) → found ≡ ok entry → IsSound entry.0 entry.1)
      → AllSound root
      → AllSound (write_error semantic_hash full_hash safe_id question_id error root found).1
  unfolding write_error
  write_error-IsSound question_id error root (err raised) f h = h
  write_error-IsSound question_id error root (ok (hash, run)) f h =
      let sound = f (hash, run) refl in
      All-put (λ entry. IsSound entry.0 entry.1) hash _ root
        (record {
          hashed = sound.hashed;
          sealed = sound.sealed;
          named = sound.named;
          legal = sound.legal;
          cohort = sound.cohort;
        })
        h

  -- The calls that write.
  pub data Step : Root F J → Root F J → Type 0 where
    creating :
        (config : ExperimentConfig F) (timestamp : String) (root : Root F J)
        → Step root (create semantic_hash full_hash safe_id config timestamp root).1
    moving :
        (run_id : String) (status : RunStatus) (finished failures : Option (List String))
        (stop_reason : Option String) (root : Root F J)
        → Step root
            (transition semantic_hash full_hash safe_id run_id status finished failures stop_reason
              root).1
    saving :
        (run_id : String) (saved : ExperimentQuestionResult J) (root : Root F J)
        → Step root (save_result semantic_hash full_hash safe_id run_id saved root).1
    failing :
        (run_id question_id : String) (error : Error) (root : Root F J)
        → Step root (save_error semantic_hash full_hash safe_id run_id question_id error root).1

  pub data Reach : Root F J → Type 0 where
    here : Reach []
    next : {root after : Root F J} → Reach root → Step root after → Reach after

  Step-IsSound : {root after : Root F J} → Step root after → AllSound root → AllSound after
  unfolding save_result save_error
  Step-IsSound (creating config timestamp root) h = create-IsSound config timestamp root h
  Step-IsSound (moving run_id status finished failures stop_reason root) h =
      transition-IsSound run_id status finished failures stop_reason root h
  Step-IsSound (saving run_id saved root) h =
      write_result-IsSound saved root _
        (λ entry e.
          let (found, inside, _) =
            check_result-eq-ok semantic_hash full_hash safe_id run_id saved root entry e in
          (find-IsSound run_id root entry h found, inside))
        h
  Step-IsSound (failing run_id question_id error root) h =
      write_error-IsSound question_id error root _ (λ entry e. find-IsSound run_id root entry h e) h

  -- After any sequence of repository calls: every run stands under the hash of its config, as it was sealed;
  -- the states it wrote, in the order of their sequence numbers, start planned and go by allowed
  -- transitions to its state; and every result file bears the
  -- name of its question, one of the config's.
  pub Reach-IsSound :
      (root : Root F J)
      → Reach root
      → All (λ (entry : String × RunDirectory F J). IsSound entry.0 entry.1) root
  Reach-IsSound root here = tt
  Reach-IsSound root (next reached step) = Step-IsSound step (Reach-IsSound _ reached)
