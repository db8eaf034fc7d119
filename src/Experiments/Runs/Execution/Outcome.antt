-- ===== src/Experiments/Runs/Execution/Outcome.antt =====
-- What a run that returned has come to.
use ragbench_kr_implementati.Prelude.{
  ◌≡◌, refl, ap, ◌∙◌, Bool, true, false, ◌&&◌, Option, none, some, String, List, [], length, ltb,
  ◌==◌, ==_iff, Bool-cases, inl, inr,
}
use ragbench_kr_implementati.Prelude.Float.{Float}
use ragbench_kr_implementati.Prelude.Result.{Error, Result, ok, err, ok-injective}
use ragbench_kr_implementati.Prelude.Assoc.{str_key}
use ragbench_kr_implementati.Experiments.Runs.{
  ExperimentConfig, RunStatus, completed, failed, stopped, ExperimentRun, RunDirectory, Root,
}
use ragbench_kr_implementati.Experiments.Runs.Repository.{updated, apply_transition, transition}
use ragbench_kr_implementati.Experiments.Runs.Execution.{
  Progress, Event, is_some, is_cancellation, run_events,
}
use ragbench_kr_implementati.Experiments.Runs.Execution.Control.{
  conclude, gathered, raised_again, cancel, ended, worked,
}

stopped≢completed : ◌≡◌ {A = RunStatus} stopped completed → ⊥
stopped≢completed e = cc

failed≢completed : ◌≡◌ {A = RunStatus} failed completed → ⊥
failed≢completed e = cc

pub err≢ok {ℓ} : {A : Type ℓ} {e : Error} {a : A} → ◌≡◌ {A = Result A} (err e) (ok a) → ⊥
err≢ok h = cc

none≢some {ℓ} : {A : Type ℓ} {a : A} → none ≡ some a → ⊥
none≢some h = cc

pub some-injective {ℓ} : {A : Type ℓ} {a b : A} → some a ≡ some b → a ≡ b
some-injective h = cc

module _ (float : Float) {J : Type 0} (semantic_hash full_hash : ExperimentConfig float.F → String)
    (safe_id : String → String) (run_id : String) where
  apply_transition-status :
      (status : RunStatus) (finished failures : Option (List String)) (stop_reason : Option String)
      (root : Root float.F J) (found : Result (String × RunDirectory float.F J)) (r : ExperimentRun)
      → (apply_transition semantic_hash full_hash safe_id status finished failures stop_reason root
          found).0
        ≡ ok r
      → status ≡ r.status
  unfolding apply_transition updated
  apply_transition-status status finished failures stop_reason root (err raised) r h = absurd (cc)
  apply_transition-status status finished failures stop_reason root (ok (hash, directory)) r h =
      ap (λ (run : ExperimentRun). run.status) (ok-injective h)

  transition-status :
      (status : RunStatus) (finished failures : Option (List String)) (stop_reason : Option String)
      (root : Root float.F J) (r : ExperimentRun)
      → (transition semantic_hash full_hash safe_id run_id status finished failures stop_reason
          root).0
        ≡ ok r
      → status ≡ r.status
  unfolding transition
  transition-status status finished failures stop_reason root r h =
      apply_transition-status status finished failures stop_reason root _ r h

  pub conclude-completed :
      (config : ExperimentConfig float.F) (p : Progress float.F J) (r : ExperimentRun)
      → (conclude float semantic_hash full_hash safe_id run_id config p).0 ≡ ok r
      → r.status ≡ completed
      → (length p.done ≡ length config.question_ids)
        × ((conclude float semantic_hash full_hash safe_id run_id config p).1
            ≡ (transition semantic_hash full_hash safe_id run_id completed
                (some p.done)
                (some [])
                none
                p.root).1)
  unfolding conclude
  conclude-completed config p r h e = elim (Bool-cases (is_some p.stop_reason)) [
    | inl stop ↦ absurd (
        stopped≢completed (
          transition-status stopped (some p.done) (some p.failures) p.stop_reason p.root r
            (rw stop at h)
          ∙ e))
    | inr go ↦ elim (Bool-cases (ltb 0 (length p.failures))) [
      | inl some_failed ↦ absurd (
          failed≢completed (
            transition-status failed (some p.done) (some p.failures) none p.root r
              (rw some_failed at (rw go at h))
            ∙ e))
      | inr none_failed ↦ elim (Bool-cases (length p.done == length config.question_ids)) [
        | inl all_done ↦ (
          (==_iff (length p.done) (length config.question_ids)).0 all_done,
          rw go (rw none_failed (rw all_done refl)),
        )
        | inr rest ↦ absurd (
            stopped≢completed (
              transition-status stopped (some p.done) none (some "batch_cap") p.root r
                (rw rest at (rw none_failed at (rw go at h)))
              ∙ e))
      ]
    ]
  ]

  raised_again-err :
      (outcome : Result ExperimentRun × Root float.F J) (r : ExperimentRun) (after : Root float.F J)
      → raised_again float semantic_hash full_hash safe_id run_id outcome ≡ (ok r, after)
      → ⊥
  raised_again-err (err raised, root) r after h = err≢ok (ap (λ o. o.0) h)
  raised_again-err (ok _, root) r after h = err≢ok (ap (λ o. o.0) h)

  gathered-some :
      (config : ExperimentConfig float.F) (crash : Option Error) (p : Progress float.F J)
      (r : ExperimentRun) (after : Root float.F J)
      → gathered float semantic_hash full_hash safe_id run_id config crash p ≡ some (ok r, after)
      → conclude float semantic_hash full_hash safe_id run_id config p ≡ (ok r, after)
  unfolding gathered cancel
  gathered-some config (some raised) p r after h = elim (Bool-cases (is_cancellation raised)) [
    | inl stops ↦ absurd (raised_again-err _ r after (some-injective (rw stops at h)))
    | inr goes ↦ absurd (
        err≢ok
          (ap (λ (o : Result ExperimentRun × Root float.F J). o.0) (some-injective (rw goes at h))))
  ]
  gathered-some config none p r after h =
      elim (Bool-cases (length p.waiting == 0 && length p.active == 0)) [
        | inl all_ended ↦ some-injective (rw all_ended at h)
        | inr waits ↦ absurd (none≢some (rw waits at h))
      ]

  ended-some :
      (config : ExperimentConfig float.F) (is_cancelled : Bool)
      (reached : Option (Progress float.F J)) (r : ExperimentRun) (after : Root float.F J)
      → ended float semantic_hash full_hash safe_id run_id config is_cancelled reached
        ≡ some (ok r, after)
      → (q : Progress float.F J) × (reached ≡ some q)
        × (conclude float semantic_hash full_hash safe_id run_id config q ≡ (ok r, after))
  unfolding ended cancel
  ended-some config is_cancelled none r after h = absurd (none≢some h)
  ended-some config true (some q) r after h = absurd (raised_again-err _ r after (some-injective h))
  ended-some config false (some q) r after h = (q, refl, gathered-some config q.crash q r after h)

  pub worked-some :
      (config : ExperimentConfig float.F) (events : List (Event J)) (is_cancelled : Bool)
      (root : Root float.F J) (launched_run : Result (Progress float.F J)) (r : ExperimentRun)
      (after : Root float.F J)
      → worked float semantic_hash full_hash safe_id run_id config events is_cancelled root
          launched_run
        ≡ some (ok r, after)
      → (p : Progress float.F J) × (q : Progress float.F J) × (launched_run ≡ ok p)
        × (run_events float semantic_hash full_hash safe_id run_id config.runtime events p ≡ some q)
        × (conclude float semantic_hash full_hash safe_id run_id config q ≡ (ok r, after))
  unfolding worked
  worked-some config events is_cancelled root (err raised) r after h =
      absurd (err≢ok (ap (λ (o : Result ExperimentRun × Root float.F J). o.0) (some-injective h)))
  worked-some config events is_cancelled root (ok p) r after h =
      let (q, reached, concluded) = ended-some config is_cancelled _ r after h in
      (p, q, refl, reached, concluded)
