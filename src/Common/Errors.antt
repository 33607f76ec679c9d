-- ===== src/Common/Errors.antt =====
-- Exceptions as values: the exception classes that the modelled code raises, and `Result` with its
-- `do` notation. `external` stands for an exception of code that the program
-- calls, and `base_exception` for one that is no `Exception`, an interrupt or an exit.
use Prim.Native.Nat.{ℕ}
use mathlib.Core.Bool.{Bool, true, false}
use mathlib.Core.Path.{◌≡◌, refl, subst}

pub data Error : Type 0 where
  segmentation_error non_monotonic_result value_error runtime_error : Error
  attribute_error memory_pressure_yield cancelled type_error os_error : Error
  segment_journal_error segment_journal_commit_error segment_journal_poisoned_error : Error
  external : ℕ → Error
  base_exception : ℕ → Error

-- `isinstance(error, Exception)`
abbrev pub is_exception : Error → Bool
is_exception (base_exception n) = false
is_exception _ = true

-- A value, or the exception that took its place.
pub data Result {ℓ} (A : Type ℓ) : Type ℓ where
  raise : Error → Result A
  ok : A → Result A

-- `if not condition: raise error`
abbrev pub require : Bool → Error → Result (Unit {0})
require condition error = elim condition [ true ↦ ok tt | false ↦ raise error ]

module _ {ℓ κ} {A : Type ℓ} {B : Type κ} where
  infixl 5 ◌>>=◌
  abbrev pub ◌>>=◌ : Result A → (A → Result B) → Result B
  ◌>>=◌ (raise e) rest = raise e
  ◌>>=◌ (ok a) rest = rest a

  -- What a chain that returned went through.
  pub through :
      (first : Result A) (rest : A → Result B) (b : B)
      → (first >>= rest) ≡ ok b
      → (a : A) × (first ≡ ok a) × (rest a ≡ ok b)
  through (raise e) rest b returned = absurd (cc)
  through (ok a) rest b returned = (a, refl, returned)

module _ {κ} {B : Type κ} where
  infixl 5 ◌>>◌
  abbrev pub ◌>>◌ : Result (Unit {0}) → Result B → Result B
  check >> rest = check >>= λ done. rest

module _ {ℓ} {A : Type ℓ} where
  -- `P` holds of what the computation returns, if it returns.
  abbrev pub Ensures {κ} : (A → Type κ) → Result A → Type κ
  Ensures P (ok a) = P a
  Ensures P (raise e) = Unit

  pub ensured {κ} : (P : A → Type κ) (r : Result A) (a : A) → Ensures P r → r ≡ ok a → P a
  ensured P (ok b) a h e = let same : b ≡ a = cc in subst P same h
  ensured P (raise x) a h e = absurd (cc)

  pub Ensures-trivial : (r : Result A) → Ensures (λ _. Unit {0}) r
  Ensures-trivial (ok a) = tt
  Ensures-trivial (raise e) = tt

module _ {ℓ κ} {A : Type ℓ} {B : Type κ} where
  pub Ensures-bind {μ ν} :
      (P : A → Type μ) (Q : B → Type ν) (m : Result A) (f : A → Result B)
      → Ensures P m
      → ((a : A) → P a → Ensures Q (f a))
      → Ensures Q (m >>= f)
  Ensures-bind P Q (ok a) f h k = k a h
  Ensures-bind P Q (raise e) f h k = tt

  pub Ensures-then {ν} :
      (Q : B → Type ν) (m : Result A) (f : A → Result B)
      → ((a : A) → Ensures Q (f a))
      → Ensures Q (m >>= f)
  Ensures-then Q (ok a) f k = k a
  Ensures-then Q (raise e) f k = tt
