-- ===== src/Resource/Pressure/Receipts.antt =====
-- What the publication of the gate leaves: a snapshot of the final fields that the observer took, or a
-- controller that is latched shut.
use mathlib.Core.Logic.{ite}
use subgen_english_plex.Common.{
  ◌≡◌, refl, ◌≢◌, ◌⊎◌, inl, inr, Bool, true, false, ◌||◌, not, some, Result, ok, raise, sym, subst,
  if◌then◌else◌, arith,
}
use subgen_english_plex.Common.Action.{
  Action, Outcome-either, pure, throw, gets, modify, attempt, resume, ◌>>=◌,
}
use subgen_english_plex.Resource.Pressure.{
  RecoveryReason, Settings, PressureController, GateSnapshot, Inputs, Node, normal, current, update,
  consult,
}
use subgen_english_plex.Resource.Pressure.Publish.{
  ReceiptKey, receipt_key, same_key, latch_receipt_failure, ReceiptKey-discrete,
}
use subgen_english_plex.Resource.Pressure.Polling.{
  gate_snapshot, latched, publish, publish_to, publish_transition,
}
use subgen_english_plex.Resource.Pressure.Calls.{transition}
use subgen_english_plex.Resource.Pressure.Rules.{On}
use subgen_english_plex.Resource.Pressure.Readers.{Reads-gate_snapshot}

module _ {R : Type 0} where
  -- Shut for want of a receipt.
  abbrev pub IsLatched : PressureController R → Type 0
  IsLatched c =
      (c.phase ≢ normal)
      × (c.admission_open ≡ false)
      × (c.recovery_reason ≡ some RecoveryReason.receipt_unavailable)

  latch-IsLatched : (c : PressureController R) → IsLatched (latch_receipt_failure c)
  latch-IsLatched c = (ground arith, refl, refl)

module _ {R W : Type 0} (s : Settings R) (env : Inputs W)
    (observer : GateSnapshot → Action W (Unit {0})) where
  -- The observer took a snapshot of the fields of `n`, which stay as they are.
  abbrev pub Recorded : Node R W → Node R W → Type 0
  Recorded n n' =
      (snapshot : GateSnapshot) × (m : Node R W) × (gate_snapshot s env n ≡ (ok snapshot, m))
      × (observer snapshot m.world ≡ (ok tt, n'.world))

  abbrev Published : Node R W → Result (Unit {0}) × Node R W → Type 0
  Published n (ok u, n') = Recorded n n' × (n'.controller ≡ n.controller)
  Published n (raise x, n') = IsLatched n'.controller

  observed :
      (n m : Node R W) (snapshot : GateSnapshot)
      → gate_snapshot s env n ≡ (ok snapshot, m)
      → m.controller ≡ n.controller
      → (u : Result (Unit {0})) (w : W) → observer snapshot m.world ≡ (u, w)
      → Published n (latched s env u (record m { world = w }))
  unfolding latched update modify throw pure ◌>>=◌
  observed n m snapshot e same (ok u) w f = ((snapshot, m, e, f), same)
  observed n m snapshot e same (raise x) w f = latch-IsLatched m.controller

  snapshotted :
      (n m : Node R W) (g : Result GateSnapshot)
      → gate_snapshot s env n ≡ (g, m)
      → m.controller ≡ n.controller
      → Published n
          (resume (latched s env) (attempt (λ k. resume (λ x. consult (observer x)) (g, m)) n))
  unfolding latched update modify throw pure ◌>>=◌ consult attempt
  snapshotted n m (ok snapshot) e same =
      let (u, w) = observer snapshot m.world in observed n m snapshot e same u w refl
  snapshotted n m (raise x) e same = latch-IsLatched m.controller

  publish-Published : (n : Node R W) → Published n (publish s env observer n)
  unfolding publish ◌>>=◌ attempt
  publish-Published n =
      let (g, m) = gate_snapshot s env n in
      let same =
        Outcome-either (On (λ c. c ≡ n.controller)) g m
          (((Reads-gate_snapshot s env).keeps (λ c. c ≡ n.controller)).holds.at n refl) in
      snapshotted n m g refl same

same_key→eq : (k l : ReceiptKey) → same_key k l ≡ true → k ≡ l
same_key→eq k l h =
    (elim (ReceiptKey-discrete k l) as (λ d. ite d true false ≡ true → k ≡ l) [
      | yes e ↦ λ h'. e
      | no ne ↦ λ h'. absurd (cc)
    ])
      h

module _ {R W A : Type 0} (s : Settings R) (env : Inputs W)
    (observer : GateSnapshot → Action W (Unit {0})) (force : A → Bool) (n n1 : Node R W)
    (a : A) where
  -- What a call leaves whose body returned `a` in `n1`.
  abbrev pub Receipted : Result A × Node R W → Type 0
  Receipted (ok a', n2) =
      (a' ≡ a)
      × (n2.controller ≡ n1.controller)
      × (Recorded s env observer n1 n2
          ⊎ ((force a ≡ false) × (receipt_key n1.controller ≡ receipt_key n.controller)))
  Receipted (raise x, n2) = IsLatched n2.controller

  recorded :
      (r : Result (Unit {0})) (n2 : Node R W)
      → Published s env observer n1 (r, n2)
      → Receipted (resume (λ u. pure a) (r, n2))
  unfolding pure
  recorded (ok u) n2 (p, same) = (refl, same, inl p)
  recorded (raise x) n2 p = p

  published :
      (f same : Bool)
      → force a ≡ f
      → (same ≡ true → receipt_key n1.controller ≡ receipt_key n.controller)
      → Receipted
          (resume (λ u. pure a) ((if f || not same then publish s env observer else pure tt) n1))
  unfolding pure
  published true same e k =
      let (r, n2) = publish s env observer n1 in recorded r n2 (publish-Published s env observer n1)
  published false false e k =
      let (r, n2) = publish s env observer n1 in recorded r n2 (publish-Published s env observer n1)
  published false true e k = (refl, refl, inr (e, k refl))

  transition_behind :
      env.priority_observer ≡ some observer
      → Receipted
          (resume (λ u. pure a) (publish_transition s env (receipt_key n.controller) (force a) n1))
  unfolding publish_transition publish_to pure current gets ◌>>=◌
  transition_behind f =
      subst
        (λ o.
          Receipted
            (resume (λ u. pure a) (publish_to s env o (receipt_key n.controller) (force a) n1)))
        (sym f)
        (published (force a) (same_key (receipt_key n1.controller) (receipt_key n.controller)) refl
          (same_key→eq _ _))

  -- A call with an observer whose body returns either raises no exception, and then the fields are those
  -- of the body and the observer took a snapshot of them, unless the call did not ask for it and the gate is
  -- what it was; or it raises, and then the admission is closed, the phase is not normal, and the
  -- reason is the missing receipt.
  pub transition-Receipted :
      (body : Action (Node R W) A)
      → env.priority_observer ≡ some observer
      → body n ≡ (ok a, n1)
      → Receipted (transition s env body force n)
  unfolding transition current gets ◌>>=◌
  transition-Receipted body f e =
      subst
        (λ r. Receipted (
          resume
            (λ b. publish_transition s env (receipt_key n.controller) (force b) >>= λ u. pure b) r))
        (sym e) (transition_behind f)
