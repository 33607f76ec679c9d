-- ===== src/Resource/Cohort/Fits.antt =====
-- What the admission of a cohort guarantees.
use subgen_english_plex.Common.{
  ℕ, ◌+◌, ◌≤◌, ◌<◌, ◌≡◌, refl, true, not, ◌&&◌, Option, none, some, List, [], ◌∷◌, ◌++◌, map, pos,
  ok, require, value_error, leb, length, All, arith, through, subst, sym, ap, ◌∙◌,
}
use subgen_english_plex.Segmentation.Number.{integer}
use subgen_english_plex.Resource.Capacity.{require_bytes}
use subgen_english_plex.Resource.Admission.{
  PressureSample, Reason, AdmissionDecision, evaluate_admission, none_of,
}
use subgen_english_plex.Resource.Admission.Safety.{IsSafe, admission-IsSafe, no_reason_admits}
use subgen_english_plex.Resource.Cohort.{
  WorkerAdmissionRequest, CohortConditions, CohortReason, worker_reason, CohortDecision, Tally,
  owned, evidence_fits, same_model, merged, worker_conditions, worker_need, tallied, admit_worker,
  admit_workers, empty_tally, first_available, combined, no_reason, cohort_decision,
  evaluate_cohort_admission, Backend,
}

abbrev pub needs : List WorkerAdmissionRequest → ℕ
needs [] = 0
needs (r ∷ rs) = worker_need r + needs rs

-- A worker whose own admission is safe, if its margins are positive.
abbrev pub WorkerIsSafe : CohortConditions → PressureSample → WorkerAdmissionRequest → Type 0
WorkerIsSafe c host r =
    0 < r.requirement.host_margin_bytes
    → 0 < r.requirement.device_margin_bytes
    → IsSafe r.requirement (merged host r.gpu_sample) (worker_conditions c r)

no_reason-append :
    (xs ys : List CohortReason)
    → no_reason (xs ++ ys) ≡ true
    → (no_reason xs ≡ true) × (no_reason ys ≡ true)
no_reason-append [] ys h = (refl, h)
no_reason-append (x ∷ xs) ys h = absurd (cc)

no_reason-map :
    (b : Backend) (i : ℕ) (rs : List Reason)
    → no_reason (map (worker_reason b i) rs) ≡ true
    → none_of rs ≡ true
no_reason-map b i [] h = refl
no_reason-map b i (r ∷ rs) h = absurd (cc)

-- A tally without a reason had none before, and the decision that was added has none.
tallied_safe :
    (c : CohortConditions) (host : PressureSample) (r : WorkerAdmissionRequest)
    (d : AdmissionDecision) (t : Tally)
    → evaluate_admission r.requirement (merged host r.gpu_sample) (worker_conditions c r) ≡ ok d
    → no_reason (t.reasons ++ map (worker_reason r.device.backend r.device.index) d.reasons) ≡ true
    → (no_reason t.reasons ≡ true) × WorkerIsSafe c host r
tallied_safe c host r d t e h =
    let (before, own) = no_reason-append t.reasons _ h in
    let unopposed = no_reason-map r.device.backend r.device.index d.reasons own in
    let sample = merged host r.gpu_sample in
    let admits = no_reason_admits r.requirement sample (worker_conditions c r) d e unopposed in
    (before, λ m n. admission-IsSafe r.requirement sample (worker_conditions c r) d m n e admits)

admit_worker_lem :
    (c : CohortConditions) (host : PressureSample) (r : WorkerAdmissionRequest) (t t' : Tally)
    → admit_worker c host r t ≡ ok t'
    → (t'.required ≡ t.required + worker_need r)
      × (no_reason t'.reasons ≡ true → (no_reason t.reasons ≡ true) × WorkerIsSafe c host r)
unfolding admit_worker
admit_worker_lem c host r t t' e =
    let (u1, k1, e1) =
      through (require (not (owned r.device.physical_uuid t.identities)) value_error) _ _ e in
    let (u2, k2, e2) =
      through
        (require (evidence_fits r.device.backend r.device.memory_topology r.provenance) value_error)
        _ _ e1 in
    let (u3, k3, e3) = through (require (same_model t.model r.model) value_error) _ _ e2 in
    let (u4, k4, e4) = through (require_bytes 0 (integer (pos r.device_reserve_bytes))) _ _ e3 in
    let (d, evaluated, e5) =
      through (evaluate_admission r.requirement (merged host r.gpu_sample) (worker_conditions c r))
        _ _ e4 in
    let (n, k6, e6) =
      through (require_bytes 0 (integer (pos (t.required + worker_need r)))) _ _ e5 in
    let same : tallied r d t ≡ t' = cc in
    (
      ap (λ x. x.required) (sym same),
      λ h.
          tallied_safe c host r d t evaluated
            (subst (λ x. no_reason x.reasons ≡ true) (sym same) h),
    )

admit_workers_lem :
    (c : CohortConditions) (host : PressureSample) (rs : List WorkerAdmissionRequest) (t t' : Tally)
    → admit_workers c host rs t ≡ ok t'
    → (t'.required ≡ t.required + needs rs)
      × (no_reason t'.reasons ≡ true → (no_reason t.reasons ≡ true) × All (WorkerIsSafe c host) rs)
unfolding admit_workers
admit_workers_lem c host [] t t' e =
    let same : t ≡ t' = cc in
    (
      subst (λ x. x.required ≡ t.required + 0) same (omega arith),
      λ h. (subst (λ x. no_reason x.reasons ≡ true) (sym same) h, tt),
    )
admit_workers_lem c host (r ∷ rs) t t' e =
    let (u, first, rest) = through (admit_worker c host r t) _ _ e in
    let (required, safe) = admit_worker_lem c host r t u first in
    let (required', safe') = admit_workers_lem c host rs u t' rest in
    (
      omega arith,
      λ h.
          let (before, others) = safe' h in
          let (start, own) = safe before in (start, (own, others)),
    )

fits_combined :
    (available : Option ℕ) (required e : ℕ)
    → no_reason (combined available required) ≡ true
    → available ≡ some e
    → required ≤ e
fits_combined none required e h a = absurd (cc)
fits_combined (some m) required e h a = let same : m ≡ e = cc in ground arith

-- A cohort that is admitted fits as a whole: what it requires is the staging reserve and the needs of all
-- its workers, and this is at most what the host and the container leave, where that is known; and each
-- worker whose margins are positive is admitted safely by itself against the same observation of the
-- host.
pub cohort_fits :
    (requests : List WorkerAdmissionRequest) (host : PressureSample) (c : CohortConditions)
    (d : CohortDecision)
    → evaluate_cohort_admission requests host c ≡ ok d
    → d.admitted ≡ true
    → (d.required_host ≡ c.staging_reserve_bytes + needs requests)
      × ((e : ℕ) → d.available_host_bytes ≡ some e → c.staging_reserve_bytes + needs requests ≤ e)
      × All (WorkerIsSafe c host) requests
unfolding evaluate_cohort_admission cohort_decision
cohort_fits requests host c d e granted =
    let (u1, k1, e1) =
      through (require (leb 1 (length requests) && leb (length requests) 32) value_error) _ _ e in
    let (u2, k2, e2) = through (require_bytes 1 (integer (pos c.staging_reserve_bytes))) _ _ e1 in
    let (t, looped, e3) =
      through (admit_workers c host requests (empty_tally c.staging_reserve_bytes)) _ _ e2 in
    let same : d ≡ cohort_decision t = cc in
    let admitted = subst (λ x. x.admitted ≡ true) same granted in
    let (unopposed, room) = no_reason-append t.reasons _ admitted in
    let (required, safe) =
      admit_workers_lem c host requests (empty_tally c.staging_reserve_bytes) t looped in
    (
      ap (λ x. x.required_host) same ∙ required,
      λ e a.
          let known = sym (ap (λ x. x.available_host_bytes) same) ∙ a in
          let fits = fits_combined (first_available t.decisions) t.required e room known in
          omega (arith, required),
      (safe unopposed).1,
    )
