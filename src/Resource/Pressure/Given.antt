-- ===== src/Resource/Pressure/Given.antt =====
-- What the callables gave in a call that returns, and what its publication leaves.
use subgen_english_plex.Common.{◌≡◌, refl, Bool, Option, none, some, Result, ok, raise, sym, ap}
use subgen_english_plex.Common.Action.{
  Action, Outcome, Holds, Holds-bind, Holds-gets, Holds-pure, lift, ◌>>=◌,
}
use subgen_english_plex.Resource.Pressure.{
  Settings, PressureController, Inputs, Node, current, GateSnapshot, consult,
}
use subgen_english_plex.Resource.Pressure.Publish.{ReceiptKey, receipt_key}
use subgen_english_plex.Resource.Pressure.Polling.{latched, publish, publish_to, publish_transition}
use subgen_english_plex.Resource.Pressure.Calls.{transition}
use subgen_english_plex.Resource.Pressure.Rules.{
  On, Triple, Keeps-pure, Triple-throw, Triple-if, Triple-bind, Triple-update, Reads-current,
  Reads-consult, Reads-bind, Reads-attempt, Anything, returned,
}
use subgen_english_plex.Resource.Pressure.Readers.{Reads-gate_snapshot}

module _ {R W : Type 0} (s : Settings R) (env : Inputs W) where
  latched-returns :
      (I : PressureController R → Type 0) (r : Result (Unit {0}))
      → Triple {W = W} I (latched s env r) (λ u. I) Anything
  unfolding latched
  latched-returns I (ok u) = Keeps-pure tt
  latched-returns I (raise x) =
      Triple-bind _ _ (Triple-update {I' = Anything} _ (λ c i. tt)) λ u. Triple-throw x (λ c i. tt)

  -- A publication that returns leaves the fields alone.
  publish_to-returns :
      (I : PressureController R → Type 0) (o : Option (GateSnapshot → Action W (Unit {0})))
      (previous : ReceiptKey) (force : Bool)
      → Triple I (publish_to s env o previous force) (λ u. I) Anything
  unfolding publish_to publish
  publish_to-returns I none previous force = Keeps-pure tt
  publish_to-returns I (some observer) previous force =
      Triple-bind _ _ (returned current Reads-current) λ c.
        Triple-if _ _ _
          (λ h.
            Triple-bind _ _
              (returned _ (
                Reads-attempt _
                  (Reads-bind _ _ (Reads-gate_snapshot s env) λ g. Reads-consult (observer g))))
              λ r. latched-returns I r)
          (λ h. Keeps-pure tt)

  -- A transition that returns leaves the fields as its body does, which starts where it starts.
  pub transition-returns :
      {A : Type 0} {P : Node R W → Type 0} (Q : A → PressureController R → Type 0)
      (body : Action (Node R W) A) (force : A → Bool)
      → Holds P body (λ a. On (Q a)) (On Anything)
      → Holds P (transition s env body force) (λ a. On (Q a)) (On Anything)
  unfolding transition publish_transition current
  transition-returns {P = P} Q body force h =
      Holds-bind {M = λ before. P} _ _ (Holds-gets _ (λ n p. p)) λ before. Holds-bind _ _ h λ a.
        Holds-bind _ _
          (publish_to-returns (Q a) env.priority_observer (receipt_key before) (force a)).holds
          λ u. Holds-pure a (λ c q. q)

-- What a callable gave in some state.
abbrev pub Gave : {W A : Type 0} → Action W A → A → Type 0
Gave {W} m a = (w : W) × (w' : W) × (m w ≡ (ok a, w'))

-- What a callable gave in the state `w`.
abbrev pub GaveAt : {W A : Type 0} → W → Action W A → A → Type 0
GaveAt {W} w m a = (w' : W) × (m w ≡ (ok a, w'))

module _ {R W A : Type 0} where
  Gave-Outcome :
      (I : PressureController R → Type 0) (m : Action W A) (n : Node R W) (r : Result A) (w : W)
      → m n.world ≡ (r, w)
      → I n.controller
      → Outcome {S = Node R W}
          (λ a. On (λ c. I c × Gave m a))
          (On Anything)
          (r, record n { world = w })
  Gave-Outcome I m n (ok a) w e i = (i, (n.world, w, e))
  Gave-Outcome I m n (raise x) w e i = tt

  pub consult-Gave :
      (I : PressureController R → Type 0) (m : Action W A)
      → Triple {R = R} I (consult m) (λ a c. I c × Gave m a) Anything
  unfolding consult
  consult-Gave I m = record {
    holds = record { at = λ n i. let (r, w) = m n.world in Gave-Outcome I m n r w refl i };
  }

  GaveAt-Outcome :
      (start : W) (m : Action W A) (n : Node R W) (r : Result A) (w : W)
      → m start ≡ (r, w)
      → Outcome {S = Node R W} (λ a n'. GaveAt start m a) (On Anything) (r, record n { world = w })
  GaveAt-Outcome start m n (ok a) w e = (w, e)
  GaveAt-Outcome start m n (raise x) w e = tt

  pub consult-GaveAt :
      (start : W) (m : Action W A)
      → Holds {S = Node R W}
          (λ n. n.world ≡ start)
          (consult m)
          (λ a n. GaveAt start m a)
          (On Anything)
  unfolding consult
  consult-GaveAt start m = record {
    at = λ n e. let (r, w) = m n.world in GaveAt-Outcome start m n r w (ap m (sym e));
  }

module _ {R W A B : Type 0} {P : Node R W → Type 0} {Q : B → Node R W → Type 0} where
  pub lift-returns :
      (r : Result A) (f : A → Action (Node R W) B)
      → ((a : A) → r ≡ ok a → Holds P (f a) Q (On Anything))
      → Holds P (lift r >>= f) Q (On Anything)
  unfolding lift ◌>>=◌
  lift-returns (ok a) f k = record { at = λ n p. (k a refl).at n p }
  lift-returns (raise x) f k = record { at = λ n p. tt }

module _ {R W A : Type 0} {F : Type 0} {Q : A → PressureController R → Type 0} where
  -- A precondition that is a fact.
  pub given :
      (m : Action (Node R W) A)
      → (F → Triple Anything m Q Anything)
      → Holds (λ n. F) m (λ a. On (Q a)) (On Anything)
  given m h = record { at = λ n f. (h f).holds.at n tt }

module _ {R W A : Type 0} where
  -- An action about which nothing is claimed.
  anything-Outcome :
      (r : Result A) (n : Node R W) → Outcome {S = Node R W} (λ a. On Anything) (On Anything) (r, n)
  anything-Outcome (ok a) n = tt
  anything-Outcome (raise x) n = tt

  pub anything-returns : (m : Action (Node R W) A) → Triple Anything m (λ a. Anything) Anything
  anything-returns m = record {
    holds = record { at = λ n i. let (r, n') = m n in anything-Outcome r n' };
  }
