-- ===== src/Tests/Cohort.antt =====
-- Two workers of one model: a dedicated device and one that shares the memory of the host.
use subgen_english_plex.Common.{ℕ, ◌+◌, ◌≤◌, ◌≡◌, refl, true, some, none, [], ◌∷◌, All, same_text}
use subgen_english_plex.Resource.Admission.{ModelLoadRequirement, decision, evaluate_admission}
use subgen_english_plex.Resource.Cohort.{
  cuda, vulkan, shared, dedicated, fallback, WorkerAdmissionRequest, CohortConditions,
  CohortDecision, evaluate_cohort_admission, tallied, empty_tally, cohort_decision, merged,
  worker_conditions,
}
use subgen_english_plex.Resource.Cohort.Fits.{needs, WorkerIsSafe, cohort_fits}
use subgen_english_plex.Tests.Admission.{observed}

abbrev base : ModelLoadRequirement
base = record {
  host_incremental_bytes = 1_073_741_824;
  cgroup_incremental_bytes = 1_073_741_824;
  device_incremental_bytes = 2_147_483_648;
  host_margin_bytes = 536_870_912;
  device_margin_bytes = 1_073_741_824;
}

abbrev card : WorkerAdmissionRequest
card = record {
  device = record {
    backend = cuda;
    index = 0;
    physical_uuid = 97 ∷ [];
    memory_topology = dedicated;
  };
  requirement = base;
  model = 98 ∷ [];
  provenance = fallback;
  gpu_sample = observed;
  device_reserve_bytes = 2_147_483_648;
}

abbrev chip : WorkerAdmissionRequest
chip = record {
  device = record {
    backend = vulkan;
    index = 1;
    physical_uuid = 99 ∷ [];
    memory_topology = shared;
  };
  requirement = base;
  model = 98 ∷ [];
  provenance = fallback;
  gpu_sample = observed;
  device_reserve_bytes = 0;
}

abbrev demands : CohortConditions
demands = record {
  host_reserve_bytes = 2_684_354_560;
  staging_reserve_bytes = 268_435_456;
  require_cgroup = true;
  now = some 100_000_000;
  maximum_sample_age = 10_000_000;
}

both : CohortDecision
both = cohort_decision (
    tallied chip (decision base (worker_conditions demands chip) (merged observed observed) none) (
      tallied card
        (decision base (worker_conditions demands card) (merged observed observed)
          (some 2_147_483_648))
        (empty_tally 268_435_456)))

cohort_fits_example :
    (both.required_host ≡ 268_435_456 + needs (card ∷ chip ∷ []))
    × ((e : ℕ) → both.available_host_bytes ≡ some e → 268_435_456 + needs (card ∷ chip ∷ []) ≤ e)
    × All (WorkerIsSafe demands observed) (card ∷ chip ∷ [])
unfolding both evaluate_cohort_admission evaluate_admission same_text
cohort_fits_example = cohort_fits (card ∷ chip ∷ []) observed demands both refl refl
