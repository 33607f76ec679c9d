-- ===== src/Common/Action.antt =====
-- Code that changes a state and may raise: what it changed before it raised stays changed. `Holds`
-- is the triple of a precondition, a postcondition and what holds after an exception.
use mathlib.Core.Path.{◌≡◌, refl}
use mathlib.Core.Bool.{Bool, true, false}
use subgen_english_plex.Common.Tests.{if◌then◌else◌}
use subgen_english_plex.Common.Errors.{Error, Result, ok, raise}

abbrev pub Action : Type 0 → Type 0 → Type 0
Action S A = S → Result A × S

module _ {S A : Type 0} where
  unfoldable pub pure : A → Action S A
  pure a s = (ok a, s)

  unfoldable pub throw : Error → Action S A
  throw e s = (raise e, s)

  -- A computation that does not touch the state.
  unfoldable pub lift : Result A → Action S A
  lift r s = (r, s)

  unfoldable pub gets : (S → A) → Action S A
  gets f s = (ok (f s), s)

  -- `try`: the exception becomes a value.
  unfoldable pub attempt : Action S A → Action S (Result A)
  attempt m s = let (r, s') = m s in (ok r, s')

module _ {S : Type 0} where
  unfoldable pub modify : (S → S) → Action S (Unit {0})
  modify f s = (ok tt, f s)

module _ {S A B : Type 0} where
  abbrev pub resume : (A → Action S B) → Result A × S → Result B × S
  resume f (ok a, s) = f a s
  resume f (raise e, s) = (raise e, s)

  infixl 5 ◌>>=◌ ◌>>◌
  unfoldable pub ◌>>=◌ : Action S A → (A → Action S B) → Action S B
  ◌>>=◌ m f s = resume f (m s)

  abbrev pub ◌>>◌ : Action S A → Action S B → Action S B
  m >> n = m >>= λ _. n

module _ {S A : Type 0} where
  -- `Q` holds of what was returned and of the state, or `R` of the state behind an exception.
  abbrev pub Outcome : (A → S → Type 0) → (S → Type 0) → Result A × S → Type 0
  Outcome Q R (ok a, s) = Q a s
  Outcome Q R (raise e, s) = R s

  pub record Holds (P : S → Type 0) (m : Action S A) (Q : A → S → Type 0) (R : S → Type 0)
      : Type 0 where
    pub at : (s : S) → P s → Outcome Q R (m s)

module _ {S A : Type 0} {P R : S → Type 0} where
  pub Holds-pure : {Q : A → S → Type 0} (a : A) → ((s : S) → P s → Q a s) → Holds P (pure a) Q R
  unfolding pure
  Holds-pure a h = record { at = h }

  pub Holds-throw :
      {Q : A → S → Type 0} (e : Error) → ((s : S) → P s → R s) → Holds P (throw {A = A} e) Q R
  unfolding throw
  Holds-throw e h = record { at = h }

  pub Holds-lift :
      {Q : A → S → Type 0} (r : Result A)
      → ((a : A) (s : S) → r ≡ ok a → P s → Q a s)
      → ((s : S) → P s → R s)
      → Holds P (lift r) Q R
  unfolding lift
  Holds-lift (ok a) h k = record { at = λ s p. h a s refl p }
  Holds-lift (raise e) h k = record { at = k }

  pub Holds-gets :
      {Q : A → S → Type 0} (f : S → A) → ((s : S) → P s → Q (f s) s) → Holds P (gets f) Q R
  unfolding gets
  Holds-gets f h = record { at = h }

  -- Behind a `try` the outcome is a value, and nothing is raised.
  pub Holds-attempt :
      {Q : A → S → Type 0} {R' : S → Type 0} (m : Action S A)
      → Holds P m Q R
      → Holds P (attempt m) (λ r s. Outcome Q R (r, s)) R'
  unfolding attempt
  Holds-attempt m h = record { at = λ s p. h.at s p }

module _ {S : Type 0} {P R : S → Type 0} where
  pub Holds-modify :
      {Q : Unit {0} → S → Type 0} (f : S → S)
      → ((s : S) → P s → Q tt (f s))
      → Holds P (modify f) Q R
  unfolding modify
  Holds-modify f h = record { at = h }

module _ {S A B : Type 0} {R : S → Type 0} where
  resume-Outcome :
      {M : A → S → Type 0} {Q : B → S → Type 0} (f : A → Action S B) (r : Result A) (s : S)
      → Outcome M R (r, s)
      → ((a : A) → Holds (M a) (f a) Q R)
      → Outcome Q R (resume f (r, s))
  resume-Outcome f (ok a) s h k = (k a).at s h
  resume-Outcome f (raise e) s h k = h

module _ {S A B : Type 0} {P R : S → Type 0} where
  pub Holds-bind :
      {M : A → S → Type 0} {Q : B → S → Type 0} (m : Action S A) (f : A → Action S B)
      → Holds P m M R
      → ((a : A) → Holds (M a) (f a) Q R)
      → Holds P (m >>= f) Q R
  unfolding ◌>>=◌
  Holds-bind m f h k = record {
    at = λ s p. let (r, s') = m s in resume-Outcome f r s' (h.at s p) k;
  }

module _ {S A : Type 0} {P P' R : S → Type 0} {Q : A → S → Type 0} where
  -- A stronger precondition.
  pub Holds-from : (m : Action S A) → ((s : S) → P' s → P s) → Holds P m Q R → Holds P' m Q R
  Holds-from m f h = record { at = λ s p. h.at s (f s p) }

module _ {S A : Type 0} {P R : S → Type 0} {Q : A → S → Type 0} where
  pub Holds-if :
      (b : Bool) (m n : Action S A)
      → (b ≡ true → Holds P m Q R)
      → (b ≡ false → Holds P n Q R)
      → Holds P (if b then m else n) Q R
  Holds-if true m n h k = h refl
  Holds-if false m n h k = k refl

module _ {S A : Type 0} {Q Q' : A → S → Type 0} where
  Outcome-to :
      (R : S → Type 0) (r : Result A) (s : S)
      → ((a : A) (s : S) → Q a s → Q' a s)
      → Outcome Q R (r, s)
      → Outcome Q' R (r, s)
  Outcome-to R (ok a) s f h = f a s h
  Outcome-to R (raise e) s f h = h

module _ {S A : Type 0} {P R : S → Type 0} {Q Q' : A → S → Type 0} where
  -- A weaker postcondition.
  pub Holds-to :
      (m : Action S A) → ((a : A) (s : S) → Q a s → Q' a s) → Holds P m Q R → Holds P m Q' R
  Holds-to m f h = record { at = λ s p. let (r, s') = m s in Outcome-to R r s' f (h.at s p) }

-- Where nothing distinguishes a return from an exception.
pub Outcome-either :
    {S A : Type 0} (X : S → Type 0) (r : Result A) (s : S) → Outcome (λ _. X) X (r, s) → X s
Outcome-either X (ok a) s h = h
Outcome-either X (raise e) s h = h

module _ {S A B : Type 0} {P R : S → Type 0} {Q : B → S → Type 0} where
  -- A step whose result is known.
  pub Holds-known :
      (r : Result A) (f : A → Action S B) (a : A)
      → r ≡ ok a
      → Holds P (f a) Q R
      → Holds P (lift r >>= f) Q R
  unfolding lift ◌>>=◌
  Holds-known r f a e h = record { at = λ s p. rw e (h.at s p) }

  -- A step that raises.
  pub Holds-raised :
      (e : Error) (f : A → Action S B) → ((s : S) → P s → R s) → Holds P (lift (raise e) >>= f) Q R
  unfolding lift ◌>>=◌
  Holds-raised e f h = record { at = h }

module _ {S A : Type 0} {X Y : S → Type 0} where
  alike :
      (r : Result A) (s : S)
      → ((s : S) → X s → Y s)
      → Outcome (λ a. X) X (r, s)
      → Outcome (λ a. Y) Y (r, s)
  alike (ok a) s f h = f s h
  alike (raise e) s f h = f s h

  -- A weaker condition, where nothing distinguishes a return from an exception.
  pub Holds-alike :
      {P : S → Type 0} (m : Action S A)
      → ((s : S) → X s → Y s)
      → Holds P m (λ a. X) X
      → Holds P m (λ a. Y) Y
  Holds-alike m f h = record { at = λ s p. let (r, s') = m s in alike r s' f (h.at s p) }
