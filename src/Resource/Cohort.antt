-- ===== src/Resource/Cohort.antt =====
-- `evaluate_cohort_admission` of subgen_core/resource_management.py: a cohort of workers admitted against
-- one observation of the host. A requirement's model and provenance stand in the request beside it.
pub mod Fits
use subgen_english_plex.Common.{
  ℕ, ◌+◌, max, Bool, true, false, not, ◌&&◌, ◌||◌, Option, none, some, List, [], ◌∷◌, ◌++◌, map,
  pos, Result, ok, raise, ◌>>=◌, ◌>>◌, require, value_error, leb, length, same_text, if◌then◌else◌,
}
use subgen_english_plex.Segmentation.Number.{Text, integer}
use subgen_english_plex.Resource.Capacity.{require_bytes}
use subgen_english_plex.Resource.Admission.{
  ModelLoadRequirement, required_host_bytes, required_device_bytes, PressureSample, Reason,
  Conditions, AdmissionDecision, evaluate_admission, below,
}

pub data Backend : Type 0 where
  cuda vulkan : Backend

pub data MemoryTopology : Type 0 where
  shared dedicated : MemoryTopology

pub data Provenance : Type 0 where
  fallback envelope native_profile : Provenance

pub record ExecutionDevice : Type 0 where
  pub backend : Backend
  pub index : ℕ
  pub physical_uuid : Text
  pub memory_topology : MemoryTopology

pub record WorkerAdmissionRequest : Type 0 where
  pub device : ExecutionDevice
  pub requirement : ModelLoadRequirement
  pub model : Text
  pub provenance : Provenance
  pub gpu_sample : PressureSample
  pub device_reserve_bytes : ℕ

pub record CohortConditions : Type 0 where
  pub host_reserve_bytes : ℕ
  pub staging_reserve_bytes : ℕ
  pub require_cgroup : Bool
  pub now : Option ℕ
  pub maximum_sample_age : ℕ

-- A reason of one worker, under the selector of its device, or of the whole cohort.
pub data CohortReason : Type 0 where
  worker_reason : Backend → ℕ → Reason → CohortReason
  insufficient_combined_host : CohortReason

pub record CohortDecision : Type 0 where
  pub admitted : Bool
  pub reasons : List CohortReason
  pub required_host : ℕ
  pub available_host_bytes : Option ℕ
  pub workers : List AdmissionDecision

-- The variables of the loop.
pub record Tally : Type 0 where
  pub identities : List Text
  pub model : Option Text
  pub required : ℕ
  pub decisions : List AdmissionDecision
  pub reasons : List CohortReason

unfoldable pub owned : Text → List Text → Bool
owned id [] = false
owned id (x ∷ xs) = same_text id x || owned id xs

abbrev pub is_dedicated : MemoryTopology → Bool
is_dedicated dedicated = true
is_dedicated shared = false

-- The two guards on the provenance of a requirement, negated.
unfoldable pub evidence_fits : Backend → MemoryTopology → Provenance → Bool
evidence_fits vulkan topology envelope = false
evidence_fits vulkan shared native_profile = true
evidence_fits backend topology native_profile = false
evidence_fits backend topology provenance = true

-- `model is not None and model != request.requirement.model`, negated.
unfoldable pub same_model : Option Text → Text → Bool
same_model none m = true
same_model (some k) m = same_text k m

-- The observation of the host with the fields of the device.
abbrev pub merged : PressureSample → PressureSample → PressureSample
merged host gpu = record host {
  gpu_total_bytes = gpu.gpu_total_bytes;
  gpu_free_bytes = gpu.gpu_free_bytes;
  gpu_device_id = gpu.gpu_device_id;
  gpu_observed_at = gpu.gpu_observed_at;
}

abbrev pub worker_conditions : CohortConditions → WorkerAdmissionRequest → Conditions
worker_conditions c r = record {
  host_reserve_bytes = c.host_reserve_bytes;
  gpu_priority_reserve_bytes = some r.device_reserve_bytes;
  require_cgroup = c.require_cgroup;
  require_gpu = is_dedicated r.device.memory_topology;
  expected_gpu_device = r.device.physical_uuid;
  now = c.now;
  maximum_sample_age = c.maximum_sample_age;
}

-- What a worker takes of the host: with shared memory, the larger of its two requirements.
unfoldable pub worker_need : WorkerAdmissionRequest → ℕ
worker_need r =
    if is_dedicated r.device.memory_topology
    then required_host_bytes r.requirement
    else max (required_host_bytes r.requirement) (required_device_bytes r.requirement)

abbrev pub tallied : WorkerAdmissionRequest → AdmissionDecision → Tally → Tally
tallied r d t = record {
  identities = r.device.physical_uuid ∷ t.identities;
  model = some r.model;
  required = t.required + worker_need r;
  decisions = t.decisions ++ d ∷ [];
  reasons = t.reasons ++ map (worker_reason r.device.backend r.device.index) d.reasons;
}

-- The body of the loop.
unfoldable pub admit_worker :
    CohortConditions → PressureSample → WorkerAdmissionRequest → Tally → Result Tally
unfolding owned evidence_fits same_model worker_need require_bytes
admit_worker c host r t = do
  require (not (owned r.device.physical_uuid t.identities)) value_error
  require (evidence_fits r.device.backend r.device.memory_topology r.provenance) value_error
  require (same_model t.model r.model) value_error
  reserve ← require_bytes 0 (integer (pos r.device_reserve_bytes))
  d ← evaluate_admission r.requirement (merged host r.gpu_sample) (worker_conditions c r)
  required ← require_bytes 0 (integer (pos (t.required + worker_need r)))
  ok (tallied r d t)

unfoldable pub admit_workers :
    CohortConditions → PressureSample → List WorkerAdmissionRequest → Tally → Result Tally
unfolding admit_worker
admit_workers c host [] t = ok t
admit_workers c host (r ∷ rs) t = do t' ← admit_worker c host r t; admit_workers c host rs t'

abbrev pub empty_tally : ℕ → Tally
empty_tally staging = record {
  identities = [];
  model = none;
  required = staging;
  decisions = [];
  reasons = [];
}

-- `decisions[0].effective_host_admission_bytes`
abbrev pub first_available : List AdmissionDecision → Option ℕ
first_available [] = none
first_available (d ∷ ds) = d.effective_host_admission_bytes

abbrev pub combined : Option ℕ → ℕ → List CohortReason
combined available required =
    if below available required then insufficient_combined_host ∷ [] else []

abbrev pub no_reason : List CohortReason → Bool
no_reason [] = true
no_reason (r ∷ rs) = false

unfoldable pub cohort_decision : Tally → CohortDecision
cohort_decision t = record {
  admitted = no_reason (t.reasons ++ combined (first_available t.decisions) t.required);
  reasons = t.reasons ++ combined (first_available t.decisions) t.required;
  required_host = t.required;
  available_host_bytes = first_available t.decisions;
  workers = t.decisions;
}

unfoldable pub evaluate_cohort_admission :
    List WorkerAdmissionRequest → PressureSample → CohortConditions → Result CohortDecision
unfolding require_bytes admit_workers cohort_decision
evaluate_cohort_admission requests host c = do
  require (leb 1 (length requests) && leb (length requests) 32) value_error
  staging ← require_bytes 1 (integer (pos c.staging_reserve_bytes))
  t ← admit_workers c host requests (empty_tally c.staging_reserve_bytes)
  ok (cohort_decision t)
