-- ===== src/Resource/Admission/Safety.antt =====
-- What an admission guarantees.
use subgen_english_plex.Common.{
  raise, ℕ, ◌+◌, ◌-◌, ◌≤◌, ◌<◌, ◌≡◌, refl, Bool, true, false, ◌&&◌, Option, none, some, List, [],
  ok, arith, ltb, Result, Ensures, Ensures-then, ensured, ◌>>=◌, pos, require, value_error,
  if◌then◌else◌, ap, subst, sym, ◌∙◌,
}
use subgen_english_plex.Segmentation.Number.{integer}
use subgen_english_plex.Resource.Capacity.{
  require_bytes, optional_bytes, optional_value, headroom_of,
}
use subgen_english_plex.Resource.Admission.{
  ModelLoadRequirement, required_host_bytes, required_device_bytes, PressureSample, Reason,
  Conditions, AdmissionDecision, exceeds, host_admission, cgroup_admission, effective_host,
  reserve_below_floor, same_device, fresh_gpu, below, one_of, missing, timed, host_reasons,
  device_reasons, none_of, device_of, time_of, host_of, cgroup_of, effective_of, gpu_reasons,
  reasons_of, decision, gpu_reserve_of, evaluate_admission,
}
use subgen_english_plex.Resource.Admission.Terms.{
  none_of-append, IsFresh, timed-IsFresh, host_left, effective_fits, device_fits, fresh_gpu-IsFresh,
  same_device_id, cgroup_term, gpu_reserve_same,
}

-- What an admission of `r` under the conditions `c` says of the observation `s`.
pub record IsSafe (r : ModelLoadRequirement) (s : PressureSample) (c : Conditions) : Type 0 where
  pub recent : IsFresh c.now s.observed_at c.maximum_sample_age
  pub host :
      (a : ℕ) × (s.host_available_bytes ≡ some a)
      × (c.host_reserve_bytes + required_host_bytes r ≤ a)
  pub container :
      (limit floor used : ℕ)
      → s.cgroup_limit_bytes ≡ some limit
      → headroom_of s.cgroup_limit_bytes ≡ some floor
      → s.cgroup_current_bytes ≡ some used
      → used + floor + required_host_bytes r ≤ limit
  pub counted : c.require_cgroup ≡ true → missing (cgroup_of c s) ≡ false
  pub device :
      c.require_gpu ≡ true
      → (reserve : ℕ) × (free : ℕ) × (c.gpu_priority_reserve_bytes ≡ some reserve)
        × (s.gpu_free_bytes ≡ some free)
        × (reserve + required_device_bytes r ≤ free)
        × (s.gpu_device_id ≡ some c.expected_gpu_device)
        × IsFresh c.now s.gpu_observed_at c.maximum_sample_age

chosen :
    (b : Bool) (xs : List Reason)
    → none_of (if b then xs else []) ≡ true
    → b ≡ true
    → none_of xs ≡ true
chosen true xs h g = h
chosen false xs h g = absurd (cc)

device_safe :
    (r : ModelLoadRequirement) (c : Conditions) (s : PressureSample) (reserve : Option ℕ)
    → 0 < r.device_margin_bytes
    → none_of (gpu_reasons r c s reserve) ≡ true
    → time_of c s ≡ none
    → c.require_gpu ≡ true
    → reserve ≡ c.gpu_priority_reserve_bytes
    → (reserve : ℕ) × (free : ℕ) × (c.gpu_priority_reserve_bytes ≡ some reserve)
      × (s.gpu_free_bytes ≡ some free)
      × (reserve + required_device_bytes r ≤ free)
      × (s.gpu_device_id ≡ some c.expected_gpu_device)
      × IsFresh c.now s.gpu_observed_at c.maximum_sample_age
unfolding device_of required_device_bytes
device_safe r c s reserve margin h on_time g same =
    let asked : none_of (
          device_reasons (reserve_below_floor reserve s.gpu_total_bytes)
            (device_of c s (time_of c s) reserve) (required_device_bytes r))
        ≡ true =
      chosen c.require_gpu _ h g in
    let timely =
      subst
        (λ x.
          none_of (
            device_reasons (reserve_below_floor reserve s.gpu_total_bytes) (device_of c s x reserve)
              (required_device_bytes r))
          ≡ true)
        on_time asked in
    let (v, t, f, e1, e2, e3, valid, whole, fits, floor) =
      device_fits (reserve_below_floor reserve s.gpu_total_bytes) reserve s.gpu_total_bytes
        s.gpu_free_bytes
        (same_device s.gpu_device_id c.expected_gpu_device
          && fresh_gpu c.now s.gpu_observed_at c.maximum_sample_age)
        (required_device_bytes r) timely in
    let named : same_device s.gpu_device_id c.expected_gpu_device ≡ true = ground arith in
    let seen : fresh_gpu c.now s.gpu_observed_at c.maximum_sample_age ≡ true = ground arith in
    (
      v,
      f,
      sym same ∙ e1,
      e3,
      omega arith,
      same_device_id s.gpu_device_id c.expected_gpu_device named,
      fresh_gpu-IsFresh c.now s.gpu_observed_at c.maximum_sample_age seen,
    )

decision-IsSafe :
    (r : ModelLoadRequirement) (c : Conditions) (s : PressureSample) (reserve : Option ℕ)
    → 0 < r.host_margin_bytes
    → 0 < r.device_margin_bytes
    → (c.require_gpu ≡ true → reserve ≡ c.gpu_priority_reserve_bytes)
    → none_of (reasons_of r c s reserve) ≡ true
    → IsSafe r s c
unfolding reasons_of required_host_bytes
decision-IsSafe r c s reserve m n asked h =
    let (t, h1) = none_of-append (timed (time_of c s)) _ h in
    let (hosts, h2) =
      none_of-append
        (host_reasons (exceeds s.host_available_bytes s.host_total_bytes) (host_of c s)) _ h1 in
    let (groups, h3) =
      none_of-append
        (one_of (c.require_cgroup && missing (cgroup_of c s)) Reason.cgroup_unavailable) _ h2 in
    let (fits, devices) =
      none_of-append
        (one_of (below (effective_of c s) (required_host_bytes r)) Reason.insufficient_host) _ h3 in
    let (recent, on_time) = timed-IsFresh c.now s.observed_at c.maximum_sample_age t in
    let inconsistent = exceeds s.host_available_bytes s.host_total_bytes in
    let left =
      subst
        (λ x.
          none_of (
            host_reasons inconsistent
              (host_admission x s.host_available_bytes inconsistent c.host_reserve_bytes))
          ≡ true)
        on_time hosts in
    let (a, available, admission) =
      host_left s.host_available_bytes s.host_total_bytes c.host_reserve_bytes left in
    let host_term : host_of c s ≡ some (a - c.host_reserve_bytes) =
      ap (λ x. host_admission x s.host_available_bytes inconsistent c.host_reserve_bytes) on_time
      ∙ admission in
    let fits' =
      subst
        (λ x.
          none_of (
            one_of
              (below (effective_host x (cgroup_of c s) c.require_cgroup) (required_host_bytes r))
              Reason.insufficient_host)
          ≡ true)
        host_term fits in
    let (host_fits, group_fits, counted) =
      effective_fits (a - c.host_reserve_bytes) (cgroup_of c s) c.require_cgroup
        (required_host_bytes r) groups fits' in
    record {
      recent = recent;
      host = (a, available, omega arith);
      container = λ limit floor used e f u.
          let term =
            ap (λ x. cgroup_admission x s.cgroup_limit_bytes s.cgroup_current_bytes) on_time
            ∙ cgroup_term s.cgroup_limit_bytes s.cgroup_current_bytes limit e floor f used u in
          let below_limit = group_fits (limit - used - floor) term in omega arith;
      counted = counted;
      device = λ g. device_safe r c s reserve n devices on_time g (asked g);
    }

Ensures-known :
    {A B : Type 0} (Q : B → Type 0) (m : Result A) (f : A → Result B)
    → ((a : A) → m ≡ ok a → Ensures Q (f a))
    → Ensures Q (m >>= f)
Ensures-known Q (ok a) f h = h a refl
Ensures-known Q (raise e) f h = tt

-- Behind an evaluation that returns is the decision for a reserve that passed its guard.
abbrev Decided : ModelLoadRequirement → PressureSample → Conditions → AdmissionDecision → Type 0
Decided r s c d =
    (reserve : Option ℕ) × (gpu_reserve_of c ≡ ok reserve) × (d ≡ decision r c s reserve)

evaluate_admission-Decided :
    (r : ModelLoadRequirement) (s : PressureSample) (c : Conditions)
    → Ensures (Decided r s c) (evaluate_admission r s c)
unfolding evaluate_admission
evaluate_admission-Decided r s c =
    Ensures-then (Decided r s c) (require_bytes 0 (integer (pos c.host_reserve_bytes))) _ λ u1.
      Ensures-then (Decided r s c) (require (ltb 0 c.maximum_sample_age) value_error) _ λ u2.
        Ensures-then (Decided r s c) (optional_bytes 0 (optional_value s.host_available_bytes)) _
          λ u3.
            Ensures-then (Decided r s c) (optional_bytes 1 (optional_value s.host_total_bytes)) _
              λ u4.
                Ensures-then (Decided r s c)
                  (optional_bytes 0 (optional_value s.cgroup_current_bytes)) _
                  λ u5.
                    Ensures-then (Decided r s c)
                      (optional_bytes 0 (optional_value s.cgroup_limit_bytes)) _
                      λ u6.
                        Ensures-then (Decided r s c)
                          (optional_bytes 1 (optional_value s.gpu_total_bytes)) _
                          λ u7.
                            Ensures-then (Decided r s c)
                              (optional_bytes 0 (optional_value s.gpu_free_bytes)) _
                              λ u8.
                                Ensures-known (Decided r s c) (gpu_reserve_of c) _
                                  λ reserve e. (reserve, e, refl)

-- A model that is admitted fits. With margins that are positive, an admission rests on an observation
-- that is recent; the host keeps its reserve beside what the model needs; under a finite limit whose use
-- is known, so does the container with its floor, and the two are known if they were required; and a
-- device that was asked for is the observed one, recently observed, and keeps its reserve too.
pub admission-IsSafe :
    (r : ModelLoadRequirement) (s : PressureSample) (c : Conditions) (d : AdmissionDecision)
    → 0 < r.host_margin_bytes
    → 0 < r.device_margin_bytes
    → evaluate_admission r s c ≡ ok d
    → d.admitted ≡ true
    → IsSafe r s c
unfolding decision
admission-IsSafe r s c d m n e granted =
    let (reserve, passed, same) =
      ensured (Decided r s c) (evaluate_admission r s c) d (evaluate_admission-Decided r s c) e in
    decision-IsSafe r c s reserve m n (gpu_reserve_same c reserve passed)
      (subst (λ x. x.admitted ≡ true) same granted)

-- An admission is one without a reason.
pub no_reason_admits :
    (r : ModelLoadRequirement) (s : PressureSample) (c : Conditions) (d : AdmissionDecision)
    → evaluate_admission r s c ≡ ok d
    → none_of d.reasons ≡ true
    → d.admitted ≡ true
unfolding decision
no_reason_admits r s c d e h =
    let (reserve, passed, same) =
      ensured (Decided r s c) (evaluate_admission r s c) d (evaluate_admission-Decided r s c) e in
    subst (λ x. none_of x.reasons ≡ true → x.admitted ≡ true) (sym same) (λ k. k) h
