-- ===== src/Experiments/Runs/Checks.antt =====
-- What a repository call that was let through has checked.
use Prim.Native.String.{◌++◌}
use mathlib.Core.Path.{subst}
use text.Mathlib.TextLemmas.{nil-append, cons-append}
use ragbench_kr_implementati.Prelude.{
  ◌≡◌, refl, sym, ap, ◌∙◌, true, not, Option, none, some, String, eq_iff, not-false,
}
use ragbench_kr_implementati.Prelude.Result.{ok, >>=-eq-ok, raise_if-eq-ok, ok-injective}
use ragbench_kr_implementati.Prelude.Assoc.{str_key, contains, lookup}
use ragbench_kr_implementati.Experiments.Runs.{
  ExperimentConfig, ExperimentQuestionResult, RunStatus, ExperimentRun, may_follow, RunDirectory,
  Root,
}
use ragbench_kr_implementati.Experiments.Runs.Repository.{
  starts_with, exclusive, find, load_config, load, check_transition, check_result,
}

starts_with_self : (s t : String) → starts_with s (s ++ t) ≡ true
unfolding starts_with
starts_with_self String.[] t = refl
starts_with_self (String.◌∷◌ c s) t =
    rw (cons-append c s t)
      (rw ((eq_iff (String.◌∷◌ c "") (String.◌∷◌ c "")).1 refl) (starts_with_self s t))

pub starts_with-append : (s t u : String) → starts_with (s ++ t) (s ++ (t ++ u)) ≡ true
unfolding starts_with
starts_with-append String.[] t u =
    rw (nil-append t) (rw (nil-append (t ++ u)) (starts_with_self t u))
starts_with-append (String.◌∷◌ c s) t u = rw (cons-append c s t) (
    rw (cons-append c s (t ++ u))
      (rw ((eq_iff (String.◌∷◌ c "") (String.◌∷◌ c "")).1 refl) (starts_with-append s t u)))

pub exclusive-eq-ok {ℓ κ} :
    {A : Type ℓ} {B : Type κ} (found : Option A) (written other : B)
    → exclusive found written ≡ ok other
    → (found ≡ none) × (written ≡ other)
exclusive-eq-ok none written other h = (refl, ok-injective h)
exclusive-eq-ok (some _) written other h = absurd (cc)

module _ {F J : Type 0} (semantic_hash full_hash : ExperimentConfig F → String)
    (safe_id : String → String) where
  -- What an allowed transition found.
  pub check_transition-eq-ok :
      (run_id : String) (status : RunStatus) (root : Root F J) (entry : String × RunDirectory F J)
      → check_transition semantic_hash full_hash safe_id run_id status root ≡ ok entry
      → (find run_id root ≡ ok entry) × (may_follow entry.1.state.status status ≡ true)
  unfolding check_transition load
  check_transition-eq-ok run_id status root entry h =
      let (current, loaded, rest) =
        >>=-eq-ok (load semantic_hash full_hash safe_id run_id root) _ h in
      let (allowed, found) = raise_if-eq-ok (not (may_follow current.status status)) _ _ rest in
      let (config, _, more) =
        >>=-eq-ok (load_config semantic_hash full_hash safe_id run_id root) _ loaded in
      let (other, again, same) = >>=-eq-ok (find run_id root) _ more in
      let one = ok-injective (sym again ∙ found) in
      let state : entry.1.state ≡ current =
        sym (ap (λ (e : String × RunDirectory F J). e.1.state) one) ∙ ok-injective same in
      (
        found,
        subst (λ (run : ExperimentRun). may_follow run.status status ≡ true) (sym state)
            (not-false _ allowed),
      )

  pub load_config-eq-ok :
      (run_id : String) (root : Root F J) (config : ExperimentConfig F)
      (entry : String × RunDirectory F J)
      → load_config semantic_hash full_hash safe_id run_id root ≡ ok config
      → find run_id root ≡ ok entry
      → config ≡ entry.1.config
  unfolding load_config
  load_config-eq-ok run_id root config entry h e =
      let (other, again, rest) = >>=-eq-ok (find run_id root) _ h in
      let (_, same) = raise_if-eq-ok _ _ _ rest in
      sym (ok-injective same)
      ∙ ap (λ (e : String × RunDirectory F J). e.1.config) (ok-injective (sym again ∙ e))

  -- What a save that is let through found.
  pub check_result-eq-ok :
      (run_id : String) (saved : ExperimentQuestionResult J) (root : Root F J)
      (entry : String × RunDirectory F J)
      → check_result semantic_hash full_hash safe_id run_id saved root ≡ ok entry
      → (find run_id root ≡ ok entry)
        × (contains saved.question_id entry.1.config.question_ids ≡ true)
        × (lookup (safe_id saved.question_id) entry.1.results ≡ none)
  unfolding check_result
  check_result-eq-ok run_id saved root entry h =
      let (config, loaded, rest) =
        >>=-eq-ok (load_config semantic_hash full_hash safe_id run_id root) _ h in
      let (outside, more) = raise_if-eq-ok _ _ _ rest in
      let (other, found, last) = >>=-eq-ok (find run_id root) _ more in
      let (fresh, same) = exclusive-eq-ok _ _ entry last in
      let there = found ∙ ap ok same in
      (
        there,
        subst (λ (c : ExperimentConfig F). contains saved.question_id c.question_ids ≡ true)
            (load_config-eq-ok run_id root config entry loaded there) (not-false _ outside),
        subst
            (λ (e : String × RunDirectory F J).
              lookup (safe_id saved.question_id) e.1.results ≡ none)
            same fresh,
      )
