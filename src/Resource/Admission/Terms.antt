-- ===== src/Resource/Admission/Terms.antt =====
-- The terms of an admission: what follows from a reason that was not given.
use subgen_english_plex.Common.{
  ℕ, ◌+◌, ◌-◌, ◌≤◌, ◌≡◌, refl, Bool, true, false, ◌&&◌, Option, none, some, List, [], ◌∷◌, ◌++◌, ok,
  arith, ltb, Ensures, ensured, ◌>>◌, length, require, value_error, same_text→eq, if◌then◌else◌, ap,
}
use subgen_english_plex.Segmentation.Number.{Text}
use subgen_english_plex.Resource.Capacity.{headroom_of}
use subgen_english_plex.Resource.Admission.{
  Reason, Conditions, is_recent, time_reason, exceeds, host_admission, cgroup_admission,
  effective_host, checked_gpu_reserve, same_device, fresh_gpu, device_admission, below, one_of,
  missing, timed, host_reasons, device_reasons, none_of, gpu_reserve_of,
}

pub none_of-append :
    (xs ys : List Reason) → none_of (xs ++ ys) ≡ true → (none_of xs ≡ true) × (none_of ys ≡ true)
none_of-append [] ys h = (refl, h)
none_of-append (x ∷ xs) ys h = absurd (cc)

-- An observation that is not older than the maximum, nor from the future.
abbrev pub IsFresh : Option ℕ → Option ℕ → ℕ → Type 0
IsFresh now observed age =
    (t : ℕ) × (o : ℕ) × (now ≡ some t) × (observed ≡ some o) × (o ≤ t) × (t ≤ o + age)

pub timed-IsFresh :
    (now observed : Option ℕ) (age : ℕ)
    → none_of (timed (time_reason now observed age)) ≡ true
    → IsFresh now observed age × (time_reason now observed age ≡ none)
unfolding time_reason is_recent
timed-IsFresh none o age h = absurd (cc)
timed-IsFresh (some t) none age h = absurd (cc)
timed-IsFresh (some t) (some o) age h =
    ((t, o, refl, refl, ground arith, ground arith), ground arith)

-- What is left of the host above its reserve.
pub host_left :
    (available total : Option ℕ) (reserve : ℕ)
    → none_of (
        host_reasons
          (exceeds available total)
          (host_admission none available (exceeds available total) reserve))
      ≡ true
    → (a : ℕ) × (available ≡ some a)
      × (host_admission none available (exceeds available total) reserve ≡ some (a - reserve))
unfolding host_reasons exceeds host_admission
host_left none none reserve h = absurd (cc)
host_left none (some t) reserve h = absurd (cc)
host_left (some a) none reserve h = (a, refl, refl)
host_left (some a) (some t) reserve h = (a, refl, ground arith)

-- A requirement that fits below the effective host fits below both of its terms.
pub effective_fits :
    (h : ℕ) (c : Option ℕ) (required : Bool) (n : ℕ)
    → none_of (one_of (required && missing c) Reason.cgroup_unavailable) ≡ true
    → none_of (one_of (below (effective_host (some h) c required) n) Reason.insufficient_host)
      ≡ true
    → (n ≤ h) × ((m : ℕ) → c ≡ some m → n ≤ m) × (required ≡ true → missing c ≡ false)
unfolding effective_host
effective_fits h none false n a b = (ground arith, λ m e. absurd (cc), λ e. absurd (cc))
effective_fits h none true n a b = absurd (cc)
effective_fits h (some m') required n a b = (ground arith, λ m e. ground arith, λ e. refl)

-- A device that is valid, with room above the reserve.
pub device_fits :
    (low : Bool) (reserve total free : Option ℕ) (valid : Bool) (n : ℕ)
    → none_of
        (device_reasons low (if low then none else device_admission reserve total free valid) n)
      ≡ true
    → (r : ℕ) × (t : ℕ) × (f : ℕ) × (reserve ≡ some r)
      × (total ≡ some t)
      × (free ≡ some f)
      × (valid ≡ true)
      × (f ≤ t)
      × (n ≤ f - r)
      × (low ≡ false)
unfolding device_reasons device_admission
device_fits true reserve total free valid n h = absurd (cc)
device_fits false none total free valid n h = absurd (cc)
device_fits false (some r) none free valid n h = absurd (cc)
device_fits false (some r) (some t) none valid n h = absurd (cc)
device_fits false (some r) (some t) (some f) valid n h =
    (r, t, f, refl, refl, refl, ground arith, ground arith, ground arith, refl)

-- The device that was asked for, freshly observed.
pub fresh_gpu-IsFresh :
    (now observed : Option ℕ) (age : ℕ)
    → fresh_gpu now observed age ≡ true
    → IsFresh now observed age
unfolding is_recent
fresh_gpu-IsFresh none observed age h = absurd (cc)
fresh_gpu-IsFresh (some t) none age h = absurd (cc)
fresh_gpu-IsFresh (some t) (some o) age h = (t, o, refl, refl, ground arith, ground arith)

pub same_device_id :
    (id : Option Text) (expected : Text) → same_device id expected ≡ true → id ≡ some expected
same_device_id none expected h = absurd (cc)
same_device_id (some d) expected h = ap (λ x. some x) (same_text→eq d expected h)

-- A finite limit of the container and what is used of it.
pub cgroup_term :
    (limit current : Option ℕ) (l : ℕ)
    → limit ≡ some l
    → (floor : ℕ) → headroom_of limit ≡ some floor
    → (used : ℕ) → current ≡ some used
    → cgroup_admission none limit current ≡ some (l - used - floor)
unfolding cgroup_admission
cgroup_term none current l e floor f used u = absurd (cc)
cgroup_term (some k) none l e floor f used u = absurd (cc)
cgroup_term (some k) (some c) l e floor f used u =
    let same_l : k ≡ l = cc in let same_c : c ≡ used = cc in rw f (ground arith)

checked_gpu_reserve_same : (o : Option ℕ) → Ensures (λ x. x ≡ o) (checked_gpu_reserve o)
unfolding checked_gpu_reserve
checked_gpu_reserve_same none = refl
checked_gpu_reserve_same (some r) = ground arith

gated_reserve :
    (gpu named : Bool) (o reserve : Option ℕ)
    → (if gpu then (require named value_error >> checked_gpu_reserve o) else ok none) ≡ ok reserve
    → gpu ≡ true
    → reserve ≡ o
gated_reserve true true o reserve e g =
    ensured (λ x. x ≡ o) (checked_gpu_reserve o) reserve (checked_gpu_reserve_same o) e
gated_reserve true false o reserve e g = absurd (cc)
gated_reserve false named o reserve e g = absurd (cc)

-- The reserve that the decision uses is the one that was asked for.
pub gpu_reserve_same :
    (c : Conditions) (reserve : Option ℕ)
    → gpu_reserve_of c ≡ ok reserve
    → c.require_gpu ≡ true
    → reserve ≡ c.gpu_priority_reserve_bytes
unfolding gpu_reserve_of
gpu_reserve_same c reserve e g =
    gated_reserve c.require_gpu (ltb 0 (length c.expected_gpu_device)) c.gpu_priority_reserve_bytes
      reserve e g
