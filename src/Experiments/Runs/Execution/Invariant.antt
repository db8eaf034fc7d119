-- ===== src/Experiments/Runs/Execution/Invariant.antt =====
-- Between any two events, the questions that are done have their results saved.
use mathlib.Core.Path.{subst}
use ragbench_kr_implementati.Prelude.{
  ◌≡◌, refl, sym, ap, ◌∙◌, true, not, none, some, String, List, [], ◌∷◌, str_eq, eq_iff, arith, All,
  Bool-cases, inl, inr, Option-cases, not-false,
}
use ragbench_kr_implementati.Prelude.Float.{Float}
use ragbench_kr_implementati.Prelude.Result.{
  Error, Result, ok, err, >>=-eq-ok, raise_if-eq-ok, ok-injective,
}
use ragbench_kr_implementati.Prelude.Assoc.{str_key, contains, distinct, lookup}
use ragbench_kr_implementati.Prelude.Lookup.{or_right}
use ragbench_kr_implementati.Experiments.Runs.{
  ExperimentConfig, RuntimeConfig, ExperimentQuestionResult, RunDirectory, Root,
}
use ragbench_kr_implementati.Experiments.Runs.Repository.{collect_ids, save_result, save_error}
use ragbench_kr_implementati.Experiments.Runs.Execution.{
  Progress, Event, start, finish, add_id, without, is_budget, is_cancellation, check_window,
  handled, handle, recorded, finish_question, start_next, step, run_events,
}
use ragbench_kr_implementati.Experiments.Runs.Execution.Saved.{
  Keeps, Holds, Later, HasResult, save_error-Later, save_result-Later,
}
use ragbench_kr_implementati.Experiments.Runs.Execution.Members.{
  distinct-add_id, All-add_id, still_distinct, widen, first_false, second_true,
}

module _ (float : Float) {J : Type 0} (semantic_hash full_hash : ExperimentConfig float.F → String)
    (safe_id : String → String) (run_id hash : String) (question_ids : List String) where
  -- What holds between two events: the results of the questions that are done are saved.
  pub record Inv (root : Root float.F J) (done : List String) (dir : RunDirectory float.F J)
      : Type 0 where
    pub held : Holds run_id root hash dir
    pub asked : dir.config.question_ids ≡ question_ids
    pub saved_results : All (λ id. HasResult semantic_hash full_hash safe_id dir id) done
    pub done_distinct : distinct done ≡ true
    pub done_asked : All (λ id. contains id question_ids ≡ true) done

  -- Some directory of the run is in that state.
  abbrev pub Good : Root float.F J → List String → Type 0
  Good root done = (dir : RunDirectory float.F J) × Inv root done dir

  HasResult-later :
      (before after : RunDirectory float.F J) (ids : List String)
      → Keeps before after
      → All (λ id. HasResult semantic_hash full_hash safe_id before id) ids
      → All (λ id. HasResult semantic_hash full_hash safe_id after id) ids
  HasResult-later before after [] k h = tt
  HasResult-later before after (id ∷ ids) k h =
      let (file, there, same) = h.0 in
      ((file, k.same_results (safe_id id) file there, same), HasResult-later before after ids k h.1)

  pub Good-later :
      (root after : Root float.F J) (done : List String)
      → ((dir : RunDirectory float.F J) → Holds run_id root hash dir → Later run_id hash dir after)
      → Good root done
      → Good after done
  Good-later root after done f (dir, inv) =
      let (dir', held, k) = f dir inv.held in
      (
        dir',
        record {
          held = held;
          asked = ap (λ (c : ExperimentConfig float.F). c.question_ids) k.same_config ∙ inv.asked;
          saved_results = HasResult-later dir dir' done k inv.saved_results;
          done_distinct = inv.done_distinct;
          done_asked = inv.done_asked;
        },
      )

  Good-at :
      (root before : Root float.F J) (done ids : List String)
      → root ≡ before
      → done ≡ ids
      → Good before ids
      → Good root done
  Good-at root before done ids e f g =
      subst (λ (r : Root float.F J). Good r done) (sym e) (subst (Good before) (sym f) g)

  check_window-same :
      (runtime : RuntimeConfig float.F) (p : Progress float.F J)
      → ((check_window float runtime p).root ≡ p.root)
        × ((check_window float runtime p).done ≡ p.done)
  unfolding check_window
  check_window-same runtime p = ground arith

  module _ (runtime : RuntimeConfig float.F) where
    handled-same :
        (id : String) (error : Error) (saving : Result (Unit {0}) × Root float.F J)
        (p : Progress float.F J)
        → ((handled float semantic_hash full_hash safe_id run_id runtime id error saving p).root
            ≡ saving.1)
          × ((handled float semantic_hash full_hash safe_id run_id runtime id error saving p).done
              ≡ p.done)
    unfolding handled
    handled-same id error (err raised, root) p = (refl, refl)
    handled-same id error (ok _, root) p = elim (Bool-cases (is_budget error)) [
      | inl budget ↦ rw budget (refl, refl)
      | inr not_budget ↦ rw not_budget (check_window-same runtime _)
    ]

    handle-Good :
        (id : String) (error : Error) (p : Progress float.F J)
        → Good p.root p.done
        → (let q = handle float semantic_hash full_hash safe_id run_id runtime id error p in
            Good q.root q.done)
    unfolding handle
    handle-Good id error p g =
        let saving = save_error semantic_hash full_hash safe_id run_id id error p.root in
        let (root, done) = handled-same id error saving p in
        let kept =
          Good-later p.root saving.1 p.done
            (λ dir held.
              save_error-Later semantic_hash full_hash safe_id run_id hash id error dir p.root held)
            g in
        Good-at _ _ _ _ root done kept

    recorded-Good :
        (id : String) (result : ExperimentQuestionResult J)
        (saving : Result (Unit {0}) × Root float.F J) (p : Progress float.F J)
        → result.question_id ≡ id
        → ((dir : RunDirectory float.F J)
            → Holds run_id p.root hash dir
            → (later : Later run_id hash dir saving.1) × (saving.0 ≡ ok tt
                → HasResult semantic_hash full_hash safe_id later.0 result.question_id
                  × (contains result.question_id dir.config.question_ids ≡ true)))
        → Good p.root p.done
        → (let q = recorded float semantic_hash full_hash safe_id run_id runtime id saving p in
            Good q.root q.done)
    unfolding recorded
    recorded-Good id result (err raised, root) p same f g =
        handle-Good id raised (record p { root = root })
          (Good-later p.root root p.done (λ dir held. (f dir held).0) g)
    recorded-Good id result (ok _, root) p same f (dir, inv) =
        let (later, has) = f dir inv.held in
        let (present, inside) = has refl in
        let (dir', held, k) = later in
        let done = add_id id p.done in
        (
          dir',
          record {
            held = held;
            asked = ap (λ (c : ExperimentConfig float.F). c.question_ids) k.same_config ∙ inv.asked;
            saved_results =
                All-add_id (λ i. HasResult semantic_hash full_hash safe_id dir' i) id p.done
                  (subst (λ (i : String). HasResult semantic_hash full_hash safe_id dir' i) same
                    present)
                  (HasResult-later dir dir' p.done k inv.saved_results);
            done_distinct = distinct-add_id id p.done inv.done_distinct;
            done_asked =
                All-add_id (λ i. contains i question_ids ≡ true) id p.done
                  (subst (λ (i : String). contains i question_ids ≡ true) same
                    (subst (λ (ids : List String). contains result.question_id ids ≡ true) inv.asked
                      inside))
                  inv.done_asked;
          },
        )

    finish_question-Good :
        (id : String) (outcome : Result (ExperimentQuestionResult J)) (p : Progress float.F J)
        → Good p.root p.done
        → (let q =
              finish_question float semantic_hash full_hash safe_id run_id runtime id outcome p in
            Good q.root q.done)
    unfolding finish_question
    finish_question-Good id (err raised) p g = elim (Bool-cases (is_cancellation raised)) [
      | inl stops ↦ rw stops g
      | inr goes ↦ rw goes (handle-Good id raised p g)
    ]
    finish_question-Good id (ok result) p g = elim (Bool-cases (str_eq result.question_id id)) [
      | inl same ↦ rw same (
          recorded-Good id result (save_result semantic_hash full_hash safe_id run_id result p.root)
            p ((eq_iff result.question_id id).0 same)
            (λ dir held.
              save_result-Later semantic_hash full_hash safe_id run_id hash result dir p.root held)
            g)
      | inr other ↦ rw other (handle-Good id _ p g)
    ]

    start_next-same :
        (waiting : List String) (p q : Progress float.F J)
        → start_next float semantic_hash full_hash safe_id run_id runtime waiting p ≡ some q
        → (q.root ≡ p.root) × (q.done ≡ p.done)
    unfolding start_next
    start_next-same [] p q h = absurd (cc)
    start_next-same (id ∷ waiting) p q h = ground arith

    step-Good :
        (event : Event J) (p q : Progress float.F J)
        → step float semantic_hash full_hash safe_id run_id runtime event p ≡ some q
        → Good p.root p.done
        → Good q.root q.done
    unfolding step
    step-Good start p q h g =
        let (root, done) = start_next-same p.waiting p q h in Good-at _ _ _ _ root done g
    step-Good (finish id outcome) p q h g = elim (Bool-cases (contains id p.active)) [
      | inl there ↦
          let freed = record p { active = without id p.active } in
          let same : some (
                finish_question float semantic_hash full_hash safe_id run_id runtime id outcome
                  freed)
              ≡ some q =
            rw there at h in
          let one : finish_question float semantic_hash full_hash safe_id run_id runtime id outcome
                freed
              ≡ q =
            cc in
          subst (λ (r : Progress float.F J). Good r.root r.done) one
            (finish_question-Good id outcome freed g)
      | inr absent ↦ absurd (let wrong : none ≡ some q = rw absent at h in cc)
    ]

    pub run_events-Good :
        (events : List (Event J)) (p q : Progress float.F J)
        → run_events float semantic_hash full_hash safe_id run_id runtime events p ≡ some q
        → Good p.root p.done
        → Good q.root q.done
    unfolding run_events
    run_events-Good [] p q h g =
        let one : p ≡ q = cc in subst (λ (r : Progress float.F J). Good r.root r.done) one g
    run_events-Good (event ∷ events) p q h g =
        elim (Option-cases (step float semantic_hash full_hash safe_id run_id runtime event p)) [
          | inl stuck ↦ absurd (let wrong : none ≡ some q = rw (stuck, run_events) at h in cc)
          | inr (after, moved) ↦
              run_events-Good events after q (rw (moved, run_events) at h)
                (step-Good event p after moved g)
        ]

  -- The results that are found already.
  pub collect_ids-Good :
      (dir : RunDirectory float.F J) (ids found_ids : List String)
      → distinct ids ≡ true
      → collect_ids semantic_hash full_hash safe_id dir.results ids ≡ ok found_ids
      → All (λ id. HasResult semantic_hash full_hash safe_id dir id) found_ids
        × (distinct found_ids ≡ true)
        × ((id : String) → contains id found_ids ≡ true → contains id ids ≡ true)
  unfolding collect_ids distinct contains
  collect_ids-Good dir [] found_ids d h =
      subst
        (λ (found : List String).
          All (λ id. HasResult semantic_hash full_hash safe_id dir id) found
          × (distinct found ≡ true)
          × ((id : String) → contains id found ≡ true → contains id [] ≡ true))
        (ok-injective h) (tt, refl, λ id c. c)
  collect_ids-Good dir (id ∷ ids) found_ids d h =
      elim (Option-cases (lookup (safe_id id) dir.results)) [
        | inl absent ↦
            let (saved, once, inside) =
              collect_ids-Good dir ids found_ids (second_true _ _ d)
                (rw (absent, collect_ids) at h) in
            (saved, once, λ other c. or_right _ _ (inside other c))
        | inr (file, there) ↦
            let h' = rw (there, collect_ids) at h in
            let (test, rest) = raise_if-eq-ok (not (str_eq file.question_id id)) _ _ h' in
            let (later, collected, done) =
              >>=-eq-ok (collect_ids semantic_hash full_hash safe_id dir.results ids) _ rest in
            let (saved, once, inside) =
              collect_ids-Good dir ids later (second_true _ _ d) collected in
            let same : file.question_id ≡ id = (eq_iff file.question_id id).0 (not-false _ test) in
            subst
              (λ (found : List String).
                All (λ i. HasResult semantic_hash full_hash safe_id dir i) found
                × (distinct found ≡ true)
                × ((i : String) → contains i found ≡ true → contains i (id ∷ ids) ≡ true))
              (ok-injective done)
              (
                ((file, there, same), saved),
                still_distinct id later ids (first_false _ _ d) once (inside id),
                λ other c. widen id other ids later c (inside other),
              )
      ]
