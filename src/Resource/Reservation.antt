-- ===== src/Resource/Reservation.antt =====
-- `CohortReservation` of subgen_core/resource_management.py: the exclusive lease of a worker cohort, over
-- a state `W` that the callbacks share. A new object, which identifies a lease, is a number that was
-- not used before; what the lock orders is one call after the other.
pub mod Lease
use subgen_english_plex.Common.{
  ℕ, suc, Bool, true, false, Option, none, some, Result, ok, raise, runtime_error, value_error,
  ◌==◌, if◌then◌else◌,
}
use subgen_english_plex.Common.Action.{Action, pure, throw, modify, gets, ◌>>=◌, ◌>>◌}

pub record CohortReservation (W : Type 0) : Type 0 where
  pub world : W
  pub token : Option ℕ
  pub next_token : ℕ

-- The part of `CohortAdmissionDecision` that the lease reads, and the rest.
pub record CohortAdmissionDecision (D : Type 0) : Type 0 where
  pub admitted : Bool
  pub details : D

-- `token is None or token is not self._token`, negated.
unfoldable pub is_lease : Option ℕ → Option ℕ → Bool
is_lease (some t) (some u) = t == u
is_lease _ _ = false

module _ {W : Type 0} where
  unfoldable pub new_reservation : W → CohortReservation W
  new_reservation w = record { world = w; token = none; next_token = 0 }

  -- A call of a callback.
  unfoldable pub ask : {A : Type 0} → Action W A → Action (CohortReservation W) A
  ask m r = let (a, w) = m r.world in (a, record r { world = w })

  abbrev pub lease : CohortReservation W → CohortReservation W
  lease r = record r { token = some r.next_token; next_token = suc r.next_token }

  unfoldable pub grant :
      {D : Type 0}
      → CohortAdmissionDecision D
      → Action (CohortReservation W) (Option ℕ × CohortAdmissionDecision D)
  grant d r = if d.admitted then (ok (some r.next_token, d), lease r) else (ok (none, d), r)

  unfoldable pub acquire_if :
      {D : Type 0}
      → Option ℕ
      → Action W (CohortAdmissionDecision D)
      → Action (CohortReservation W) (Option ℕ × CohortAdmissionDecision D)
  unfolding ask grant
  acquire_if (some t) decide = throw runtime_error
  acquire_if none decide = do d ← ask decide; grant d

  unfoldable pub acquire :
      {D : Type 0}
      → Action W (CohortAdmissionDecision D)
      → Action (CohortReservation W) (Option ℕ × CohortAdmissionDecision D)
  unfolding acquire_if
  acquire decide r = acquire_if r.token decide r

  unfoldable pub release_if : Bool → Action (CohortReservation W) (Unit {0})
  release_if verified =
      if verified then modify (λ r. record r { token = none }) else throw runtime_error

  unfoldable pub release : Option ℕ → Action W Bool → Action (CohortReservation W) (Unit {0})
  unfolding ask is_lease release_if
  release token verify_released r =
      if is_lease token r.token then (ask verify_released >>= release_if) r else throw value_error r
