-- ===== src/Tests/Admission.antt =====
-- A model of five gibibytes on a host of sixteen, in a container of twelve, with a dedicated device.
use subgen_english_plex.Common.{◌≡◌, refl, true, some, none, pos, [], ◌∷◌, arith, same_text}
use subgen_english_plex.Segmentation.Number.{real, null}
use subgen_english_plex.Resource.Admission.{
  ModelLoadRequirement, PressureSample, Conditions, AdmissionDecision, Reason, evaluate_admission,
  decision, reasons_of,
}
use subgen_english_plex.Resource.Admission.Safety.{IsSafe, admission-IsSafe}

abbrev medium : ModelLoadRequirement
medium = record {
  host_incremental_bytes = 5_368_709_120;
  cgroup_incremental_bytes = 5_368_709_120;
  device_incremental_bytes = 7_516_192_768;
  host_margin_bytes = 536_870_912;
  device_margin_bytes = 1_073_741_824;
}

abbrev pub observed : PressureSample
observed = record {
  observed_at = some 95_000_000;
  host_available_bytes = some 12_884_901_888;
  host_total_bytes = some 17_179_869_184;
  cgroup_current_bytes = some 1_073_741_824;
  cgroup_limit_bytes = some 12_884_901_888;
  psi_some_avg10 = null;
  psi_full_avg10 = null;
  cgroup_oom_events = some 0;
  cgroup_oom_kill_events = some 0;
  host_psi_some_avg10 = real (pos 1_500_000);
  host_psi_full_avg10 = real (pos 0);
  cgroup_psi_some_avg10 = null;
  cgroup_psi_full_avg10 = null;
  gpu_total_bytes = some 17_179_869_184;
  gpu_free_bytes = some 15_032_385_536;
  gpu_device_id = some (97 ∷ []);
  gpu_observed_at = some 96_000_000;
  priority_observation = none;
}

abbrev asked : Conditions
asked = record {
  host_reserve_bytes = 2_684_354_560;
  gpu_priority_reserve_bytes = some 2_147_483_648;
  require_cgroup = true;
  require_gpu = true;
  expected_gpu_device = 97 ∷ [];
  now = some 100_000_000;
  maximum_sample_age = 10_000_000;
}

-- An older observation of the host is refused by its age alone, which leaves no term known.
late_reasons :
    reasons_of medium (record asked { now = some 200_000_000 }) observed (some 2_147_483_648)
    ≡ Reason.sample_stale ∷ Reason.host_unavailable ∷ Reason.cgroup_unavailable
      ∷ Reason.gpu_unavailable ∷ []
unfolding reasons_of
late_reasons = refl

granted : AdmissionDecision
granted = decision medium asked observed (some 2_147_483_648)

admission-IsSafe_example : IsSafe medium observed asked
unfolding evaluate_admission granted same_text
admission-IsSafe_example =
    admission-IsSafe medium observed asked granted (omega arith) (omega arith) refl refl
