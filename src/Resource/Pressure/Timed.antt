-- ===== src/Resource/Pressure/Timed.antt =====
-- Rules for calls that do not raise, with a condition on the fields of the controller and one on the state
-- of the callables, which may change with each reading of the clock.
use subgen_english_plex.Common.{◌≡◌, refl, Bool, true, false, Result, ok, raise, if◌then◌else◌}
use subgen_english_plex.Common.Action.{
  Action, lift, gets, modify, Holds, Outcome, Holds-bind, Holds-gets, Holds-modify, Holds-if,
  Holds-known, ◌>>=◌,
}
use subgen_english_plex.Resource.Pressure.{PressureController, Node, current, update, change}
use subgen_english_plex.Resource.Pressure.Listen.{current_phase}
use subgen_english_plex.Resource.Pressure.Rules.{Delivers}

module _ {R W : Type 0} where
  -- A condition on the fields and one on the state of the callables.
  abbrev pub In : (PressureController R → Type 0) → (W → Type 0) → Node R W → Type 0
  In I P n = I n.controller × P n.world

  -- No node.
  abbrev pub Nowhere : Node R W → Type 0
  Nowhere n = ⊥

  -- From fields with `I` and a state with `P`, the action returns, with `Q` of the fields and `P'` of the
  -- state.
  pub record Timed {A : Type 0} (P : W → Type 0) (I : PressureController R → Type 0)
      (m : Action (Node R W) A) (Q : A → PressureController R → Type 0) (P' : W → Type 0)
      : Type 0 where
    pub holds : Holds (In I P) m (λ a. In (Q a) P') Nowhere

module _ {R W A : Type 0} where
  weaker :
      (Q Q' : A → PressureController R → Type 0) (P' P'' : W → Type 0) (r : Result A) (n : Node R W)
      → Outcome (λ a. In (Q a) P') Nowhere (r, n)
      → ((a : A) (c : PressureController R) → Q a c → Q' a c)
      → ((w : W) → P' w → P'' w)
      → Outcome (λ a. In (Q' a) P'') Nowhere (r, n)
  weaker Q Q' P' P'' (ok a) n o q p = (q a n.controller o.0, p n.world o.1)
  weaker Q Q' P' P'' (raise x) n o q p = absurd o

module _ {R W : Type 0} where
  delivered :
      (I' : PressureController R → Type 0) (P : W → Type 0) (r : Result (PressureController R))
      (n : Node R W)
      → P n.world
      → Delivers I' r
      → Outcome {S = Node R W} (λ _. In I' P) Nowhere ((lift r >>= λ c'. update (λ _. c')) n)
  unfolding update lift modify ◌>>=◌
  delivered I' P (ok c') n p d = (d, p)
  delivered I' P (raise x) n p d = absurd d

module _ {R W A : Type 0} {P P' : W → Type 0} {I : PressureController R → Type 0}
    {Q : A → PressureController R → Type 0} where
  pub Timed-if :
      (b : Bool) (m n : Action (Node R W) A)
      → (b ≡ true → Timed P I m Q P')
      → (b ≡ false → Timed P I n Q P')
      → Timed P I (if b then m else n) Q P'
  Timed-if b m n h k = record { holds = Holds-if b m n (λ e. (h e).holds) (λ e. (k e).holds) }

  pub Timed-weaken :
      {I' : PressureController R → Type 0} {Q' : A → PressureController R → Type 0}
      {P'' : W → Type 0} (m : Action (Node R W) A)
      → ((c : PressureController R) → I' c → I c)
      → ((a : A) (c : PressureController R) → Q a c → Q' a c)
      → ((w : W) → P' w → P'' w)
      → Timed P I m Q P'
      → Timed P I' m Q' P''
  Timed-weaken {Q' = Q'} {P'' = P''} m i q p t = record {
    holds = record {
      at = λ n x.
          let (r, n') = m n in weaker Q Q' P' P'' r n' (t.holds.at n (i n.controller x.0, x.1)) q p;
    };
  }

  -- An action that returns.
  pub Timed-returns :
      (m : Action (Node R W) A) (n : Node R W)
      → Timed P I m Q P'
      → I n.controller
      → P n.world
      → (a : A) × (n' : Node R W) × (m n ≡ (ok a, n')) × Q a n'.controller
  Timed-returns m n t i p = let (r, n') = m n in returned r n' (t.holds.at n (i, p))
    where
      returned :
          (r : Result A) (n' : Node R W)
          → Outcome (λ a. In (Q a) P') Nowhere (r, n')
          → (a : A) × (n'' : Node R W) × (◌≡◌ {A = Result A × Node R W} (r, n') (ok a, n''))
            × Q a n''.controller
      returned (ok a) n' o = (a, n', refl, o.0)
      returned (raise x) n' o = absurd o

module _ {R W A B : Type 0} {P P' P'' : W → Type 0} {I : PressureController R → Type 0}
    {M : A → PressureController R → Type 0} {Q : B → PressureController R → Type 0} where
  pub Timed-bind :
      (m : Action (Node R W) A) (f : A → Action (Node R W) B)
      → Timed P I m M P'
      → ((a : A) → Timed P' (M a) (f a) Q P'')
      → Timed P I (m >>= f) Q P''
  Timed-bind m f h k = record { holds = Holds-bind m f h.holds (λ a. (k a).holds) }

module _ {R W A B : Type 0} {P P' : W → Type 0} {I : PressureController R → Type 0}
    {Q : B → PressureController R → Type 0} where
  -- A result that is known.
  pub Timed-known :
      (r : Result A) (f : A → Action (Node R W) B) (a : A)
      → r ≡ ok a
      → Timed P I (f a) Q P'
      → Timed P I (lift r >>= f) Q P'
  Timed-known r f a e t = record { holds = Holds-known r f a e t.holds }

module _ {R W : Type 0} {P : W → Type 0} {I : PressureController R → Type 0} where
  pub Timed-current : Timed P I current (λ c d. I d × (d ≡ c)) P
  unfolding current
  Timed-current = record { holds = Holds-gets _ (λ n i. ((i.0, refl), i.1)) }

  pub Timed-current_phase : Timed P I current_phase (λ p d. I d × (d.phase ≡ p)) P
  unfolding current_phase
  Timed-current_phase = record { holds = Holds-gets _ (λ n i. ((i.0, refl), i.1)) }

  pub Timed-update :
      {I' : PressureController R → Type 0} (f : PressureController R → PressureController R)
      → ((c : PressureController R) → I c → I' (f c))
      → Timed P I (update f) (λ _. I') P
  unfolding update
  Timed-update f h = record { holds = Holds-modify _ (λ n i. (h n.controller i.0, i.1)) }

  pub Timed-change :
      {I' : PressureController R → Type 0}
      (f : PressureController R → Result (PressureController R))
      → ((c : PressureController R) → I c → Delivers I' (f c))
      → Timed P I (change f) (λ _. I') P
  unfolding change current ◌>>=◌ gets lift
  Timed-change {I' = I'} f h = record {
    holds = record { at = λ n i. delivered I' P (f n.controller) n i.1 (h n.controller i.0) };
  }
