-- ===== src/Tests/Reservation.antt =====
-- A lease that is held, and the calls that others and its holder make. The state counts the calls.
use subgen_english_plex.Common.{
  ℕ, ◌+◌, ◌≡◌, ◌⊎◌, refl, Bool, true, false, Option, some, none, ok, raise, runtime_error,
}
use subgen_english_plex.Common.Action.{Action}
use subgen_english_plex.Resource.Reservation.{
  CohortReservation, CohortAdmissionDecision, acquire, release,
}
use subgen_english_plex.Resource.Reservation.Lease.{Leased, lease_kept, lease_handed_on}

abbrev own_token : Option ℕ
own_token = some 3

abbrev held : CohortReservation ℕ
held = record { world = 0; token = own_token; next_token = 4 }

abbrev admission : CohortAdmissionDecision (Unit {0})
admission = record { admitted = true; details = tt }

abbrev admit : Action ℕ (CohortAdmissionDecision (Unit {0}))
admit n = (ok admission, n + 1)

abbrev unverified : Action ℕ Bool
unverified n = (ok false, n + 1)

abbrev verified : Action ℕ Bool
verified n = (ok true, n + 1)

lease_kept_example :
    (acquire admit held ≡ (raise runtime_error, held))
    × (((release own_token unverified held).1.token ≡ own_token)
        ⊎ ((own_token ≡ own_token) × ((unverified held.world).0 ≡ ok true)))
lease_kept_example = lease_kept held 3 admit own_token unverified refl

lease_handed_on_example :
    ((release (some 3) verified held).0 ≡ ok tt)
    × ((release (some 3) verified held).1.token ≡ none)
    × Leased
        (release (some 3) verified held).1
        admission
        (acquire admit (release (some 3) verified held).1)
lease_handed_on_example = lease_handed_on held 3 verified admit admission refl refl refl refl
