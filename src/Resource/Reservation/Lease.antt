-- ===== src/Resource/Reservation/Lease.antt =====
-- Who may end a lease, and who may acquire one.
use subgen_english_plex.Common.{
  ℕ, suc, ◌≡◌, ◌⊎◌, refl, inl, inr, Bool, true, false, Option, none, some, Result, ok, raise,
  runtime_error, ==_iff, Bool-cases, arith, sym, subst,
}
use subgen_english_plex.Common.Action.{Action, throw, modify, resume, ◌>>=◌}
use subgen_english_plex.Resource.Reservation.{
  CohortReservation, CohortAdmissionDecision, is_lease, ask, grant, acquire_if, acquire, release_if,
  release,
}

is_lease_same :
    (token held : Option ℕ) (t : ℕ) → is_lease token held ≡ true → held ≡ some t → token ≡ some t
unfolding is_lease
is_lease_same none held t h e = absurd (cc)
is_lease_same (some u) none t h e = absurd (cc)
is_lease_same (some u) (some v) t h e = let same = (==_iff u v).0 h in cc

own_lease : (o : Option ℕ) (t : ℕ) → o ≡ some t → is_lease (some t) o ≡ true
unfolding is_lease
own_lease none t e = absurd (cc)
own_lease (some u) t e = let same : u ≡ t = cc in ground arith

module _ {W : Type 0} where
  held_excludes :
      {D : Type 0} (o : Option ℕ) (t : ℕ) (decide : Action W (CohortAdmissionDecision D))
      (r : CohortReservation W)
      → o ≡ some t
      → acquire_if o decide r ≡ (raise runtime_error, r)
  unfolding acquire_if throw
  held_excludes none t decide r e = absurd (cc)
  held_excludes (some u) t decide r e = refl

  -- What a verification came to.
  verified :
      (v : Result Bool) (w : W) (r : CohortReservation W) (t : ℕ)
      → r.token ≡ some t
      → ((resume release_if (v, record r { world = w })).1.token ≡ some t)
        ⊎ ((v ≡ ok true) × ((resume release_if (v, record r { world = w })).0 ≡ ok tt))
  unfolding release_if throw modify
  verified (raise e) w r t h = inl h
  verified (ok true) w r t h = inr (refl, refl)
  verified (ok false) w r t h = inl h

  release_kept :
      (r : CohortReservation W) (t : ℕ) (token : Option ℕ) (verify_released : Action W Bool)
      → r.token ≡ some t
      → ((release token verify_released r).1.token ≡ some t)
        ⊎ ((token ≡ some t) × ((verify_released r.world).0 ≡ ok true))
  unfolding release ask throw ◌>>=◌
  release_kept r t token verify_released h = elim (Bool-cases (is_lease token r.token)) [
    | inl same ↦
        let (v, w) = verify_released r.world in
        elim (verified v w r t h) [
          | inl kept ↦ inl (rw same kept)
          | inr freed ↦ inr (is_lease_same token r.token t same h, freed.0)
        ]
    | inr other ↦ inl (rw other h)
  ]

  -- While a lease is held, nobody acquires another: acquiring raises and changes nothing. A release, of
  -- whatever token and whatever its verification does, leaves the lease as it was, unless the token is
  -- that of the lease and the verification returned true.
  pub lease_kept :
      {D : Type 0} (r : CohortReservation W) (t : ℕ) (decide : Action W (CohortAdmissionDecision D))
      (token : Option ℕ) (verify_released : Action W Bool)
      → r.token ≡ some t
      → (acquire decide r ≡ (raise runtime_error, r))
        × (((release token verify_released r).1.token ≡ some t)
            ⊎ ((token ≡ some t) × ((verify_released r.world).0 ≡ ok true)))
  unfolding acquire
  lease_kept r t decide token verify_released h =
      (held_excludes r.token t decide r h, release_kept r t token verify_released h)

  freed :
      (v : Result Bool) (w : W) (r : CohortReservation W)
      → v ≡ ok true
      → ((resume release_if (v, record r { world = w })).0 ≡ ok tt)
        × ((resume release_if (v, record r { world = w })).1.token ≡ none)
  unfolding release_if modify
  freed (raise e) w r h = absurd (cc)
  freed (ok true) w r h = (refl, refl)
  freed (ok false) w r h = absurd (cc)

  release_frees :
      (r : CohortReservation W) (t : ℕ) (verify_released : Action W Bool)
      → r.token ≡ some t
      → (verify_released r.world).0 ≡ ok true
      → ((release (some t) verify_released r).0 ≡ ok tt)
        × ((release (some t) verify_released r).1.token ≡ none)
  unfolding release ask ◌>>=◌
  release_frees r t verify_released h v =
      let held = own_lease r.token t h in
      let (answer, w) = verify_released r.world in
      let (returned, free) = freed answer w r v in (rw held returned, rw held free)

  -- A lease was granted by a decision, and is held under a token that was not used before.
  abbrev pub Leased :
      {D : Type 0}
      → CohortReservation W
      → CohortAdmissionDecision D
      → Result (Option ℕ × CohortAdmissionDecision D) × CohortReservation W
      → Type 0
  Leased r d out =
      (out.0 ≡ ok (some r.next_token, d))
      × (out.1.token ≡ some r.next_token)
      × (out.1.next_token ≡ suc r.next_token)

  grants :
      {D : Type 0} (d : CohortAdmissionDecision D) (w : W) (r : CohortReservation W)
      → d.admitted ≡ true
      → Leased r d (grant d (record r { world = w }))
  unfolding grant
  grants d w r a = rw a (refl, refl, refl)

  granted :
      {D : Type 0} (v : Result (CohortAdmissionDecision D)) (d : CohortAdmissionDecision D) (w : W)
      (r : CohortReservation W)
      → v ≡ ok d
      → d.admitted ≡ true
      → Leased r d (resume grant (v, record r { world = w }))
  granted (raise e) d w r h a = absurd (cc)
  granted (ok d') d w r h a =
      let same : d ≡ d' = cc in
      subst (λ x. Leased r x (grant d' (record r { world = w }))) (sym same)
        (grants d' w r (subst (λ x. x.admitted ≡ true) same a))

  free_grants :
      {D : Type 0} (o : Option ℕ) (r : CohortReservation W)
      (decide : Action W (CohortAdmissionDecision D)) (d : CohortAdmissionDecision D)
      → o ≡ none
      → (decide r.world).0 ≡ ok d
      → d.admitted ≡ true
      → Leased r d (acquire_if o decide r)
  unfolding acquire_if ask ◌>>=◌
  free_grants none r decide d n e a = let (v, w) = decide r.world in granted v d w r e a
  free_grants (some u) r decide d n e a = absurd (cc)

  -- The holder of a lease ends it by a release whose verification returns true. An acquisition that
  -- follows, by a decision that admits, returns the next unused token; the reservation then holds the
  -- lease of that token, and has moved on to another token.
  pub lease_handed_on :
      {D : Type 0} (r : CohortReservation W) (t : ℕ) (verify_released : Action W Bool)
      (decide : Action W (CohortAdmissionDecision D)) (d : CohortAdmissionDecision D)
      → r.token ≡ some t
      → (verify_released r.world).0 ≡ ok true
      → (decide (release (some t) verify_released r).1.world).0 ≡ ok d
      → d.admitted ≡ true
      → let after = (release (some t) verify_released r).1 in
        ((release (some t) verify_released r).0 ≡ ok tt)
        × (after.token ≡ none)
        × Leased after d (acquire decide after)
  unfolding acquire
  lease_handed_on r t verify_released decide d h v e a =
      let after = (release (some t) verify_released r).1 in
      let (returned, free) = release_frees r t verify_released h v in
      (returned, free, free_grants after.token after decide d free e a)
