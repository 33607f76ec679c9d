-- ===== src/Journal/File.antt =====
-- The anonymous file of a journal, with the calls that subgen_core/segmented_result.py makes of it. Any
-- call may raise: `faults` says of the calls to come whether they do, and how much a write has then written.
use subgen_english_plex.Common.{
  ℕ, zero, suc, ◌+◌, Option, none, some, List, [], ◌∷◌, length, ok, raise, os_error, ◌==◌,
  if◌then◌else◌,
}
use subgen_english_plex.Common.Action.{Action, ◌>>◌}

pub record Disk : Type 0 where
  pub bytes : List ℕ
  pub position : ℕ
  pub faults : List (Option ℕ)

abbrev pub newline : ℕ
newline = 10

-- The first `n` bytes, with zeros behind the end.
abbrev pub resize : ℕ → List ℕ → List ℕ
resize zero bs = []
resize (suc n) [] = 0 ∷ resize n []
resize (suc n) (b ∷ bs) = b ∷ resize n bs

abbrev pub first_bytes : ℕ → List ℕ → List ℕ
first_bytes zero bs = []
first_bytes (suc n) [] = []
first_bytes (suc n) (b ∷ bs) = b ∷ first_bytes n bs

abbrev pub behind : ℕ → List ℕ → List ℕ
behind zero bs = bs
behind (suc n) [] = []
behind (suc n) (b ∷ bs) = behind n bs

-- The bytes with `data` written at a position, with zeros in a gap.
abbrev pub overwrite : ℕ → List ℕ → List ℕ → List ℕ
overwrite p [] bs = bs
overwrite zero (d ∷ ds) [] = d ∷ ds
overwrite zero (d ∷ ds) (b ∷ bs) = d ∷ overwrite zero ds bs
overwrite (suc p) (d ∷ ds) [] = 0 ∷ overwrite p (d ∷ ds) []
overwrite (suc p) (d ∷ ds) (b ∷ bs) = b ∷ overwrite p (d ∷ ds) bs

-- A line, its newline included, of at most `limit` bytes.
abbrev pub line : ℕ → List ℕ → List ℕ
line zero bs = []
line (suc limit) [] = []
line (suc limit) (b ∷ bs) = let rest = line limit bs in if b == newline then b ∷ [] else b ∷ rest

module _ {A : Type 0} where
  abbrev pub answer : (Disk → A) → (Disk → Disk) → (ℕ → Disk → Disk) → Option ℕ → Action Disk A
  answer value works fails none d = (ok (value d), works d)
  answer value works fails (some k) d = (raise os_error, fails k d)

  abbrev pub ask : (Disk → A) → (Disk → Disk) → (ℕ → Disk → Disk) → List (Option ℕ) → Action Disk A
  ask value works fails [] d = answer value works fails none d
  ask value works fails (f ∷ fs) d = answer value works fails f (record d { faults = fs })

  -- A call of the file: what it returns and changes, or what it changed before it raised.
  unfoldable pub call : (Disk → A) → (Disk → Disk) → (ℕ → Disk → Disk) → Action Disk A
  call value works fails d = ask value works fails d.faults d

unfoldable pub seek : ℕ → Action Disk (Unit {0})
unfolding call
seek n = call (λ d. tt) (λ d. record d { position = n }) (λ k d. d)

unfoldable pub truncate : ℕ → Action Disk (Unit {0})
unfolding call
truncate n = call (λ d. tt) (λ d. record d { bytes = resize n d.bytes }) (λ k d. d)

abbrev pub written : List ℕ → Disk → Disk
written bs d = record d {
  bytes = overwrite d.position bs d.bytes;
  position = d.position + length bs;
}

unfoldable pub write : List ℕ → Action Disk (Unit {0})
unfolding call
write bs = call (λ d. tt) (written bs) (λ k d. written (first_bytes k bs) d)

unfoldable pub tell : Action Disk ℕ
unfolding call
tell = call (λ d. d.position) (λ d. d) (λ k d. d)

abbrev pub line_at : ℕ → Disk → List ℕ
line_at limit d = line limit (behind d.position d.bytes)

unfoldable pub read_line : ℕ → Action Disk (List ℕ)
unfolding call
read_line limit =
    call (line_at limit) (λ d. record d { position = d.position + length (line_at limit d) })
      (λ k d. d)

-- `_sync`: the flush, and the injected `fsync`.
unfoldable pub sync : Action Disk (Unit {0})
unfolding call
sync = call (λ d. tt) (λ d. d) (λ k d. d) >> call (λ d. tt) (λ d. d) (λ k d. d)

unfoldable pub close_file : Action Disk (Unit {0})
unfolding call
close_file = call (λ d. tt) (λ d. d) (λ k d. d)
