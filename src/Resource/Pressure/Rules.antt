-- ===== src/Resource/Pressure/Rules.antt =====
-- Triples of the actions of the controller, for conditions on its fields alone.
use subgen_english_plex.Common.{
  ◌≡◌, refl, Bool, true, false, Error, Option, none, some, Result, ok, raise, Ensures,
  if◌then◌else◌,
}
use subgen_english_plex.Common.Action.{
  Action, lift, pure, throw, attempt, Outcome-either, gets, modify, Holds, Outcome, Holds-bind,
  Holds-pure, Holds-lift, Holds-gets, Holds-modify, Holds-throw, Holds-if, Holds-known, ◌>>=◌,
}
use subgen_english_plex.Resource.Pressure.{
  PressureController, Node, current, update, consult, change,
}
use subgen_english_plex.Resource.Pressure.Listen.{current_phase}

module _ {R W : Type 0} where
  abbrev pub On : (PressureController R → Type 0) → Node R W → Type 0
  On I n = I n.controller

  -- A condition before, one on a value behind it, and one behind an exception.
  pub record Triple {A : Type 0} (I : PressureController R → Type 0) (m : Action (Node R W) A)
      (Q : A → PressureController R → Type 0) (J : PressureController R → Type 0) : Type 0 where
    pub holds : Holds (On I) m (λ a. On (Q a)) (On J)

  -- `I` stays true, whether the action returns or raises.
  abbrev pub Keeps : {A : Type 0} → (PressureController R → Type 0) → Action (Node R W) A → Type 0
  Keeps I m = Triple I m (λ _. I) I

module _ {R W A : Type 0} where
  consult-Outcome :
      (K : PressureController R → Type 0) (n : Node R W) (a : Result A) (w : W)
      → K n.controller
      → Outcome {S = Node R W} (λ _. On K) (On K) (a, record n { world = w })
  consult-Outcome K n (ok a) w i = i
  consult-Outcome K n (raise e) w i = i

module _ {R W A : Type 0} {I : PressureController R → Type 0} where
  pub Keeps-consult : (m : Action W A) → Keeps I (consult m)
  unfolding consult
  Keeps-consult m = record {
    holds = record { at = λ n i. let (a, w) = m n.world in consult-Outcome I n a w i };
  }

  pub Keeps-gets : (f : Node R W → A) → Keeps I (gets f)
  Keeps-gets f = record { holds = Holds-gets f (λ n i. i) }

  pub Keeps-lift : (r : Result A) → Keeps {W = W} I (lift r)
  Keeps-lift r = record { holds = Holds-lift r (λ a n e i. i) (λ n i. i) }

module _ {R W A : Type 0} {I J : PressureController R → Type 0} where
  pub Triple-pure :
      {Q : A → PressureController R → Type 0} (a : A)
      → ((c : PressureController R) → I c → Q a c)
      → Triple {W = W} I (pure a) Q J
  Triple-pure a h = record { holds = Holds-pure a (λ n i. h n.controller i) }

  pub Keeps-pure : (a : A) → Triple {W = W} I (pure a) (λ _. I) J
  Keeps-pure a = record { holds = Holds-pure a (λ n i. i) }

  pub Triple-throw :
      {Q : A → PressureController R → Type 0} (x : Error)
      → ((c : PressureController R) → I c → J c)
      → Triple {W = W} I (throw x) Q J
  Triple-throw x h = record { holds = Holds-throw x (λ n i. h n.controller i) }

  pub Triple-if :
      {Q : A → PressureController R → Type 0} (b : Bool) (m n : Action (Node R W) A)
      → (b ≡ true → Triple I m Q J)
      → (b ≡ false → Triple I n Q J)
      → Triple I (if b then m else n) Q J
  Triple-if b m n h k = record { holds = Holds-if b m n (λ e. (h e).holds) (λ e. (k e).holds) }

module _ {R W A B : Type 0} {I J : PressureController R → Type 0}
    {M : A → PressureController R → Type 0} {Q : B → PressureController R → Type 0} where
  pub Triple-bind :
      (m : Action (Node R W) A) (f : A → Action (Node R W) B)
      → Triple I m M J
      → ((a : A) → Triple (M a) (f a) Q J)
      → Triple I (m >>= f) Q J
  Triple-bind m f h k = record { holds = Holds-bind m f h.holds (λ a. (k a).holds) }

module _ {R W A B : Type 0} {I J : PressureController R → Type 0}
    {Q : B → PressureController R → Type 0} where
  pub Triple-lift :
      (r : Result A) (f : A → Action (Node R W) B)
      → ((c : PressureController R) → I c → J c)
      → ((a : A) → r ≡ ok a → Triple I (f a) Q J)
      → Triple I (lift r >>= f) Q J
  unfolding lift ◌>>=◌
  Triple-lift (ok a) f j k = record { holds = record { at = λ n i. (k a refl).holds.at n i } }
  Triple-lift (raise x) f j k = record { holds = record { at = λ n i. j n.controller i } }

module _ {R W A B : Type 0} {I J : PressureController R → Type 0}
    {Q : B → PressureController R → Type 0} where
  -- A result that is known.
  pub Triple-known :
      (r : Result A) (f : A → Action (Node R W) B) (a : A)
      → r ≡ ok a
      → Triple I (f a) Q J
      → Triple I (lift r >>= f) Q J
  Triple-known r f a e t = record { holds = Holds-known r f a e t.holds }

module _ {R W : Type 0} {I J : PressureController R → Type 0} where
  -- What is known of the fields is known of the value that was read.
  pub Triple-current : Triple {W = W} I current (λ c d. I d × (d ≡ c)) J
  unfolding current
  Triple-current = record { holds = Holds-gets _ (λ n i. (i, refl)) }

  pub Triple-current_phase : Triple {W = W} I current_phase (λ p d. I d × (d.phase ≡ p)) J
  unfolding current_phase
  Triple-current_phase = record { holds = Holds-gets _ (λ n i. (i, refl)) }

module _ {R W : Type 0} where
  settled :
      (I' J : PressureController R → Type 0) (r : Result (PressureController R)) (n : Node R W)
      → J n.controller
      → Ensures I' r
      → Outcome {S = Node R W} (λ _. On I') (On J) ((lift r >>= λ c'. update (λ _. c')) n)
  unfolding update lift modify ◌>>=◌
  settled I' J (ok c') n j e = e
  settled I' J (raise x) n j e = j

module _ {R W : Type 0} {I I' J : PressureController R → Type 0} where
  pub Triple-update :
      (f : PressureController R → PressureController R)
      → ((c : PressureController R) → I c → I' (f c))
      → Triple {W = W} I (update f) (λ _. I') J
  unfolding update
  Triple-update f h = record { holds = Holds-modify _ (λ n i. h n.controller i) }

  pub Triple-change :
      (f : PressureController R → Result (PressureController R))
      → ((c : PressureController R) → I c → J c)
      → ((c : PressureController R) → I c → Ensures I' (f c))
      → Triple {W = W} I (change f) (λ _. I') J
  unfolding change current ◌>>=◌ gets lift
  Triple-change f j h = record {
    holds = record {
      at = λ n i. settled I' J (f n.controller) n (j n.controller i) (h n.controller i);
    };
  }

module _ {R W A : Type 0} where
  weaker :
      (Q Q' : A → PressureController R → Type 0) (J J' : PressureController R → Type 0)
      (r : Result A) (n : Node R W)
      → Outcome (λ a. On (Q a)) (On J) (r, n)
      → ((a : A) (c : PressureController R) → Q a c → Q' a c)
      → ((c : PressureController R) → J c → J' c)
      → Outcome (λ a. On (Q' a)) (On J') (r, n)
  weaker Q Q' J J' (ok a) n o q j = q a n.controller o
  weaker Q Q' J J' (raise x) n o q j = j n.controller o

module _ {R W A : Type 0} {I I' J J' : PressureController R → Type 0}
    {Q Q' : A → PressureController R → Type 0} where
  pub Triple-weaken :
      (m : Action (Node R W) A)
      → ((c : PressureController R) → I' c → I c)
      → ((a : A) (c : PressureController R) → Q a c → Q' a c)
      → ((c : PressureController R) → J c → J' c)
      → Triple I m Q J
      → Triple I' m Q' J'
  Triple-weaken m i q j t = record {
    holds = record {
      at = λ n x. let (r, n') = m n in weaker Q Q' J J' r n' (t.holds.at n (i n.controller x)) q j;
    };
  }

module _ {R W A B : Type 0} {I J : PressureController R → Type 0}
    {Q : B → PressureController R → Type 0} where
  pub Triple-option :
      (o : Option A) (m : Action (Node R W) B) (f : A → Action (Node R W) B)
      → Triple I m Q J
      → ((a : A) → Triple I (f a) Q J)
      → Triple I (elim o [ none ↦ m | some a ↦ f a ]) Q J
  Triple-option none m f h k = h
  Triple-option (some a) m f h k = k a

-- `P` holds of what is returned, and nothing is raised.
abbrev pub Delivers : {A : Type 0} → (A → Type 0) → Result A → Type 0
Delivers P (ok a) = P a
Delivers P (raise x) = ⊥

-- An action that only reads keeps every condition.
pub record Reads {R W A : Type 0} (m : Action (Node R W) A) : Type 1 where
  pub keeps : (I : PressureController R → Type 0) → Keeps I m

module _ {R W A B : Type 0} where
  pub Reads-bind :
      (m : Action (Node R W) A) (f : A → Action (Node R W) B)
      → Reads m
      → ((a : A) → Reads (f a))
      → Reads (m >>= f)
  Reads-bind m f h k = record { keeps = λ I. Triple-bind m f (h.keeps I) (λ a. (k a).keeps I) }

module _ {R W A : Type 0} where
  pub Reads-consult : (m : Action W A) → Reads {R = R} (consult m)
  Reads-consult m = record { keeps = λ I. Keeps-consult m }

  pub Reads-lift : (r : Result A) → Reads {R = R} {W = W} (lift r)
  Reads-lift r = record { keeps = λ I. Keeps-lift r }

  pub Reads-pure : (a : A) → Reads {R = R} {W = W} (pure a)
  Reads-pure a = record { keeps = λ I. Keeps-pure a }

  pub Reads-if :
      (b : Bool) (m n : Action (Node R W) A) → Reads m → Reads n → Reads (if b then m else n)
  Reads-if true m n h k = h
  Reads-if false m n h k = k

module _ {R W : Type 0} where
  pub Reads-current : Reads {R = R} {W = W} current
  Reads-current = record {
    keeps = λ I. Triple-weaken current (λ c i. i) (λ a c q. q.0) (λ c j. j) Triple-current;
  }

module _ {R W A : Type 0} where
  -- Behind a `try` as well.
  pub Reads-attempt : (m : Action (Node R W) A) → Reads m → Reads (attempt m)
  unfolding attempt
  Reads-attempt m h = record {
    keeps = λ I. record {
      holds = record {
        at = λ n i. let (r, n') = m n in Outcome-either (On I) r n' ((h.keeps I).holds.at n i);
      };
    };
  }

-- Where only what is returned matters.
abbrev pub Anything : {R : Type 0} → PressureController R → Type 0
Anything c = Unit {0}

module _ {R W A : Type 0} {I : PressureController R → Type 0} where
  pub returned : (m : Action (Node R W) A) → Reads m → Triple I m (λ _. I) Anything
  returned m h = Triple-weaken m (λ c i. i) (λ a c i. i) (λ c i. tt) (h.keeps I)

  -- Nothing is claimed before, so nothing of what is left behind an exception.
  pub partly :
      {Q : A → PressureController R → Type 0} {J : PressureController R → Type 0}
      (m : Action (Node R W) A)
      → Triple I m Q J
      → Triple I m Q Anything
  partly m t = Triple-weaken m (λ c i. i) (λ a c q. q) (λ c j. tt) t
