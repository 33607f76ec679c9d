-- ===== src/Execution/Policy.antt =====
-- What a resolved policy has.
use subgen_english_plex.Common.{
  ◌≤◌, ◌≡◌, refl, Bool, true, false, not, ◌&&◌, Option, ok, through, require, value_error, arith,
  subst,
}
use subgen_english_plex.Segmentation.Number.{Text}
use subgen_english_plex.Segmentation.Staging.{strip}
use subgen_english_plex.Execution.{
  Activity, RunMode, ExecutionPolicy, Flags, lower, activity_of, run_mode_of, setting,
  balanced_word, adaptive_word, runs_dedicated, priority_configured, policy_of,
  resolve_execution_policy, retain_model_for_queued_work, percent_of, ceiling_of,
}

required : (b : Bool) (u : Unit {0}) → require b value_error ≡ ok u → b ≡ true
required true u h = refl
required false u h = absurd (cc)

-- A policy that keeps the guarantees of its mode.
pub record IsSound (f : Flags) (p : ExecutionPolicy) : Type 0 where
  pub segmented : f.segmentation_enabled ≡ true
  pub yields : f.memory_pressure_yield ≡ true
  pub budget : p.working_budget_percent ≤ 100
  pub chunks : (10 ≤ p.automatic_chunk_ceiling_minutes) × (p.automatic_chunk_ceiling_minutes ≤ 30)
  pub exclusive : retain_model_for_queued_work p && p.priority_signal_enabled ≡ false
  pub ungated : retain_model_for_queued_work p && f.shared_host_gate_enabled ≡ false
  pub signal : p.priority_signal_enabled ≡ true → priority_configured f ≡ true

policy_of-IsSound :
    (a : Activity) (m : RunMode) (f : Flags)
    → f.segmentation_enabled ≡ true
    → f.memory_pressure_yield ≡ true
    → not (runs_dedicated m && f.shared_host_gate_enabled) ≡ true
    → IsSound f (policy_of a m f)
unfolding policy_of percent_of ceiling_of retain_model_for_queued_work
policy_of-IsSound a m f s y g = record {
  segmented = s;
  yields = y;
  budget = ground arith;
  chunks = (ground arith, ground arith);
  exclusive = ground arith;
  ungated = ground arith;
  signal = ground arith;
}

-- Whatever the settings are, a policy that is resolved keeps segmentation and the yield to memory pressure,
-- budgets at most the whole of the memory, bounds automatic chunks between ten and thirty minutes,
-- never both retains the model and follows the priority signal, is never dedicated under the shared host
-- gate, and follows the signal only if a file for it was named.
pub resolve_execution_policy-IsSound :
    (activity run_mode : Option Text) (f : Flags) (p : ExecutionPolicy)
    → resolve_execution_policy activity run_mode f ≡ ok p
    → IsSound f p
unfolding resolve_execution_policy
resolve_execution_policy-IsSound activity run_mode f p e =
    let (a, k1, e1) =
      through (activity_of (lower (strip (setting balanced_word activity)))) _ _ e in
    let (m, k2, e2) =
      through (run_mode_of (lower (strip (setting adaptive_word run_mode)))) _ _ e1 in
    let (u1, k3, e3) = through (require f.segmentation_enabled value_error) _ _ e2 in
    let (u2, k4, e4) = through (require f.memory_pressure_yield value_error) _ _ e3 in
    let gate = not (runs_dedicated m && f.shared_host_gate_enabled) in
    let (u3, k5, e5) = through (require gate value_error) _ _ e4 in
    let same : policy_of a m f ≡ p = cc in
    subst (IsSound f) same (
      policy_of-IsSound a m f (required f.segmentation_enabled u1 k3)
        (required f.memory_pressure_yield u2 k4) (required gate u3 k5))
