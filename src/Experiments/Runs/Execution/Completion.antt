-- ===== src/Experiments/Runs/Execution/Completion.antt =====
-- A run that completes has a result of every question, whatever the order in which its workers ended.
use mathlib.Core.Path.{subst}
use mathlib.Core.Bool.{false≢true}
use ragbench_kr_implementati.Prelude.{
  ◌≡◌, refl, sym, ap, ◌∙◌, Bool, true, Option, none, some, String, List, [], ◌∷◌, length, str_eq,
  eq_iff, All, Bool-cases, inl, inr,
}
use ragbench_kr_implementati.Prelude.Float.{Float}
use ragbench_kr_implementati.Prelude.Result.{Result, ok, err, >>=-eq-ok, ok-injective}
use ragbench_kr_implementati.Prelude.Assoc.{str_key, contains, distinct, lookup, HasDistinctKeys}
use ragbench_kr_implementati.Prelude.Lookup.{All-contains}
use ragbench_kr_implementati.Experiments.Runs.{
  ExperimentConfig, ExperimentQuestionResult, running, completed, ExperimentRun, RunDirectory, Root,
}
use ragbench_kr_implementati.Experiments.Runs.Repository.{
  find, load, load_config, result_ids, collect_ids, transition,
}
use ragbench_kr_implementati.Experiments.Runs.Checks.{load_config-eq-ok}
use ragbench_kr_implementati.Experiments.Runs.Execution.{Progress, Event, check_status}
use ragbench_kr_implementati.Experiments.Runs.Execution.Control.{
  check_start, launched, launch, worked, started, run,
}
use ragbench_kr_implementati.Experiments.Runs.Execution.Saved.{
  Holds, Later, HasResult, transition-Later,
}
use ragbench_kr_implementati.Experiments.Runs.Execution.Invariant.{
  Good, Good-later, run_events-Good, collect_ids-Good,
}
use ragbench_kr_implementati.Experiments.Runs.Execution.Members.{covers-All}
use ragbench_kr_implementati.Experiments.Runs.Execution.Outcome.{
  err≢ok, some-injective, conclude-completed, worked-some,
}

module _ (float : Float) {J : Type 0} (semantic_hash full_hash : ExperimentConfig float.F → String)
    (safe_id : String → String) (run_id : String) where
  launch-Good :
      (hash : String) (dir : RunDirectory float.F J) (config : ExperimentConfig float.F)
      (saved_ids : List String) (root : Root float.F J) (p : Progress float.F J)
      → Good float semantic_hash full_hash safe_id run_id hash dir.config.question_ids root
          saved_ids
      → launch float semantic_hash full_hash safe_id run_id config saved_ids root ≡ ok p
      → Good float semantic_hash full_hash safe_id run_id hash dir.config.question_ids p.root p.done
  unfolding launch
  launch-Good hash dir config saved_ids root p g h =
      launched-Good
        (transition semantic_hash full_hash safe_id run_id running (some saved_ids) (some []) none
          root)
        (Good-later float semantic_hash full_hash safe_id run_id hash dir.config.question_ids root _
          saved_ids
          (λ d held.
            transition-Later semantic_hash full_hash safe_id run_id hash d root running
              (some saved_ids) (some []) none held)
          g)
        h
    where
      launched-Good :
          (moved : Result ExperimentRun × Root float.F J)
          → Good float semantic_hash full_hash safe_id run_id hash dir.config.question_ids moved.1
              saved_ids
          → launched float semantic_hash full_hash safe_id run_id config saved_ids moved ≡ ok p
          → Good float semantic_hash full_hash safe_id run_id hash dir.config.question_ids p.root
              p.done
      launched-Good (err raised, after) g h = absurd (err≢ok h)
      launched-Good (ok _, after) g h =
          subst
            (λ (q : Progress float.F J).
              Good float semantic_hash full_hash safe_id run_id hash dir.config.question_ids q.root
                q.done)
            (ok-injective h) g

  -- What was checked before the launch.
  check_start-eq-ok :
      (resume : Bool) (acknowledgement : Option String) (root : Root float.F J)
      (config : ExperimentConfig float.F) (saved_ids : List String)
      → check_start float semantic_hash full_hash safe_id run_id resume acknowledgement root
        ≡ ok (config, saved_ids)
      → (load_config semantic_hash full_hash safe_id run_id root ≡ ok config)
        × (result_ids semantic_hash full_hash safe_id run_id root ≡ ok saved_ids)
  unfolding check_start
  check_start-eq-ok resume acknowledgement root config saved_ids h =
      let (current, _, first) = >>=-eq-ok (load semantic_hash full_hash safe_id run_id root) _ h in
      let (_, _, second) = >>=-eq-ok (check_status resume acknowledgement current) _ first in
      let (c, loaded, third) =
        >>=-eq-ok (load_config semantic_hash full_hash safe_id run_id root) _ second in
      let (ids, collected, last) =
        >>=-eq-ok (result_ids semantic_hash full_hash safe_id run_id root) _ third in
      let same = ok-injective last in
      (
        loaded ∙ ap ok (ap (λ (x : ExperimentConfig float.F × List String). x.0) same),
        collected ∙ ap ok (ap (λ (x : ExperimentConfig float.F × List String). x.1) same),
      )

  result_ids-Good :
      (hash : String) (dir : RunDirectory float.F J) (root : Root float.F J)
      (saved_ids : List String)
      → Holds run_id root hash dir
      → distinct dir.config.question_ids ≡ true
      → result_ids semantic_hash full_hash safe_id run_id root ≡ ok saved_ids
      → Good float semantic_hash full_hash safe_id run_id hash dir.config.question_ids root
          saved_ids
  unfolding result_ids
  result_ids-Good hash dir root saved_ids held d h =
      let (config, loaded, rest) =
        >>=-eq-ok (load_config semantic_hash full_hash safe_id run_id root) _ h in
      let (entry, there, collected) = >>=-eq-ok (find run_id root) _ rest in
      let same = ok-injective (sym there ∙ held.there) in
      let ids =
        load_config-eq-ok semantic_hash full_hash safe_id run_id root config (hash, dir) loaded
          held.there in
      let collected' : collect_ids semantic_hash full_hash safe_id dir.results
            dir.config.question_ids
          ≡ ok saved_ids =
        subst
          (λ (c : ExperimentConfig float.F).
            collect_ids semantic_hash full_hash safe_id dir.results c.question_ids ≡ ok saved_ids)
          ids
          (subst
            (λ (e : String × RunDirectory float.F J).
              collect_ids semantic_hash full_hash safe_id e.1.results config.question_ids
              ≡ ok saved_ids)
            same collected) in
      let (saved, once, inside) =
        collect_ids-Good float semantic_hash full_hash safe_id run_id hash dir.config.question_ids
          dir dir.config.question_ids saved_ids d collected' in
      (
        dir,
        record {
          held = held;
          asked = refl;
          saved_results = saved;
          done_distinct = once;
          done_asked = All-contains saved_ids dir.config.question_ids inside;
        },
      )

  started-some :
      (events : List (Event J)) (is_cancelled : Bool) (root : Root float.F J)
      (checked : Result (ExperimentConfig float.F × List String)) (r : ExperimentRun)
      (after : Root float.F J)
      → started float semantic_hash full_hash safe_id run_id events is_cancelled root checked
        ≡ some (ok r, after)
      → (config : ExperimentConfig float.F) × (saved_ids : List String) × (checked
          ≡ ok (config, saved_ids))
        × (worked float semantic_hash full_hash safe_id run_id config events is_cancelled root
              (launch float semantic_hash full_hash safe_id run_id config saved_ids root)
            ≡ some (ok r, after))
  unfolding started
  started-some events is_cancelled root (err raised) r after h =
      absurd (err≢ok (ap (λ (o : Result ExperimentRun × Root float.F J). o.0) (some-injective h)))
  started-some events is_cancelled root (ok (config, saved_ids)) r after h =
      (config, saved_ids, refl, h)

  HasResult-at :
      (dir : RunDirectory float.F J) (id : String) (ids : List String)
      → All (λ i. HasResult semantic_hash full_hash safe_id dir i) ids
      → contains id ids ≡ true
      → HasResult semantic_hash full_hash safe_id dir id
  unfolding contains
  HasResult-at dir id [] h c = absurd (false≢true c)
  HasResult-at dir id (x ∷ ids) h c = elim (Bool-cases (str_eq x id)) [
    | inl same ↦
        subst (λ (i : String). HasResult semantic_hash full_hash safe_id dir i)
          ((eq_iff x id).0 same) h.0
    | inr other ↦ HasResult-at dir id ids h.1 (rw other at c)
  ]

  -- A run of distinct questions, begun on a root of distinct hash directories, that returns as completed, under
  -- any schedule of its workers and any outcomes of its questions: afterwards the run's directory, with the
  -- same question ids, has a result of every question of the config, saved under that question.
  pub run_completed :
      (resume is_cancelled : Bool) (acknowledgement : Option String) (events : List (Event J))
      (root after : Root float.F J) (hash : String) (dir : RunDirectory float.F J)
      (r : ExperimentRun)
      → HasDistinctKeys root
      → find run_id root ≡ ok (hash, dir)
      → distinct dir.config.question_ids ≡ true
      → run float semantic_hash full_hash safe_id run_id resume acknowledgement events is_cancelled
          root
        ≡ some (ok r, after)
      → r.status ≡ completed
      → (final : RunDirectory float.F J) × (find run_id after ≡ ok (hash, final))
        × (final.config.question_ids ≡ dir.config.question_ids)
        × ((id : String)
            → contains id dir.config.question_ids ≡ true
            → (saved : ExperimentQuestionResult J) × (lookup (safe_id id) final.results
                ≡ some saved)
              × (saved.question_id ≡ id))
  unfolding run
  run_completed resume is_cancelled acknowledgement events root after hash dir r keys there d h e =
      let held : Holds run_id root hash dir = record { distinct_roots = keys; there = there } in
      let (config, saved_ids, checked, working) =
        started-some events is_cancelled root _ r after h in
      let (loaded, collected) =
        check_start-eq-ok resume acknowledgement root config saved_ids checked in
      let (p, q, launching, reached, concluded) =
        worked-some float semantic_hash full_hash safe_id run_id config events is_cancelled root _ r
          after working in
      let begun_ =
        launch-Good hash dir config saved_ids root p
          (result_ids-Good hash dir root saved_ids held d collected) launching in
      let good =
        run_events-Good float semantic_hash full_hash safe_id run_id hash dir.config.question_ids
          config.runtime events p q reached begun_ in
      let (counted, moved) =
        conclude-completed float semantic_hash full_hash safe_id run_id config q r
          (ap (λ (o : Result ExperimentRun × Root float.F J). o.0) concluded) e in
      let (final, inv) =
        Good-later float semantic_hash full_hash safe_id run_id hash dir.config.question_ids q.root
          after q.done
          (λ d' held'.
            subst (Later run_id hash d')
              (sym moved ∙ ap (λ (o : Result ExperimentRun × Root float.F J). o.1) concluded)
              (transition-Later semantic_hash full_hash safe_id run_id hash d' q.root completed
                (some q.done) (some []) none held'))
          good in
      let same_config =
        load_config-eq-ok semantic_hash full_hash safe_id run_id root config (hash, dir) loaded
          there in
      (
        final,
        inv.held.there,
        inv.asked,
        λ id asked. HasResult-at final id q.done inv.saved_results (
            covers-All q.done dir.config.question_ids inv.done_distinct inv.done_asked
              (counted ∙ ap (λ (c : ExperimentConfig float.F). length c.question_ids) same_config)
              id asked),
      )
