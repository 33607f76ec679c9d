-- ===== src/Journal/Writing.antt =====
-- What writing a record, or rolling it back, leaves of the bytes that were committed before it.
use mathlib.Core.List.{append_assoc, append-nil}
use subgen_english_plex.Common.{
  ℕ, ◌≡◌, refl, sym, ap, ◌∙◌, subst, Option, none, some, List, [], ◌∷◌, ◌++◌, length, length-append,
  Result, ok, raise, ◌>>=◌, arith,
}
use subgen_english_plex.Common.Action.{
  ◌>>◌, Holds, Holds-bind, Holds-pure, Holds-from, Holds-to, Holds-known, Holds-raised, Outcome,
}
use subgen_english_plex.Journal.File.{
  Disk, seek, truncate, write, tell, sync, newline, resize, first_bytes, overwrite, call, written,
  ask,
}
use subgen_english_plex.Journal.Commit.{rollback, write_parts, write_record}

pub resize_prefix : (pre t : List ℕ) → resize (length pre) (pre ++ t) ≡ pre
resize_prefix [] t = refl
resize_prefix (b ∷ bs) t = ap (λ xs. b ∷ xs) (resize_prefix bs t)

pub overwrite_end : (bs ds : List ℕ) → overwrite (length bs) ds bs ≡ bs ++ ds
overwrite_end bs [] = sym (append-nil bs)
overwrite_end [] (d ∷ ds) = refl
overwrite_end (b ∷ bs) (d ∷ ds) = ap (λ xs. b ∷ xs) (overwrite_end bs (d ∷ ds))

-- The bytes of a line, or the exception of its encoder.
abbrev pub joined : List (Result (List ℕ)) → Result (List ℕ)
joined [] = ok []
joined (part ∷ parts) = part >>= λ bs. joined parts >>= λ rest. ok (bs ++ rest)

-- A condition on the bytes and the position.
abbrev pub At : (List ℕ → ℕ → Type 0) → Disk → Type 0
At P d = P d.bytes d.position

-- The bytes begin with what was committed.
abbrev pub Kept : List ℕ → List ℕ → ℕ → Type 0
Kept pre bytes position = (t : List ℕ) × (bytes ≡ pre ++ t)

-- The bytes are those, and the position is behind them.
abbrev pub Ends : List ℕ → List ℕ → ℕ → Type 0
Ends all bytes position = (bytes ≡ all) × (position ≡ length all)

-- All of them, and behind them the bytes `bs`.
written_end : (all bs : List ℕ) (d : Disk) → At (Ends all) d → At (Ends (all ++ bs)) (written bs d)
written_end all bs d p = (
  subst (λ n. overwrite n bs d.bytes ≡ all ++ bs) (sym p.1)
      (subst (λ xs. overwrite (length all) bs xs ≡ all ++ bs) (sym p.0) (overwrite_end all bs)),
  omega (arith, length-append all bs, p.1),
)

module _ {A : Type 0} (P : List ℕ → ℕ → Type 0) (Q : A → Disk → Type 0) (R : Disk → Type 0) where
  called_on :
      (value : Disk → A) (works : Disk → Disk) (fails : ℕ → Disk → Disk)
      → ((d : Disk) → At P d → Q (value d) (works d))
      → ((k : ℕ) (d : Disk) → At P d → R (fails k d))
      → (fs : List (Option ℕ)) (d : Disk) → At P d
      → Outcome Q R (ask value works fails fs d)
  called_on value works fails h k [] d p = h d p
  called_on value works fails h k (none ∷ fs) d p = h (record d { faults = fs }) p
  called_on value works fails h k (some n ∷ fs) d p = k n (record d { faults = fs }) p

module _ {A : Type 0} (P : List ℕ → ℕ → Type 0) {Q : A → Disk → Type 0} {R : Disk → Type 0} where
  pub Holds-call :
      (value : Disk → A) (works : Disk → Disk) (fails : ℕ → Disk → Disk)
      → ((d : Disk) → At P d → Q (value d) (works d))
      → ((k : ℕ) (d : Disk) → At P d → R (fails k d))
      → Holds (At P) (call value works fails) Q R
  unfolding call
  Holds-call value works fails h k = record {
    at = λ d p. called_on P Q R value works fails h k d.faults d p;
  }

module _ (P : List ℕ → ℕ → Type 0) {R : Disk → Type 0} where
  Holds-sync :
      {Q : Disk → Type 0}
      → ((d : Disk) → At P d → Q d)
      → ((d : Disk) → At P d → R d)
      → Holds (At P) sync (λ u. Q) R
  unfolding sync
  Holds-sync h k =
      Holds-bind _ _ (Holds-call P {Q = λ u. At P} _ _ _ (λ d p. p) (λ m d p. k d p))
        λ u. Holds-call P _ _ _ h (λ m d p. k d p)

module _ (pre : List ℕ) where
  Holds-seek :
      (n : ℕ)
      → Holds (At (Kept pre)) (seek n) (λ u d. At (Kept pre) d × (d.position ≡ n)) (At (Kept pre))
  unfolding seek
  Holds-seek n = Holds-call (Kept pre) _ _ _ (λ d p. (p, refl)) (λ m d p. p)

  Holds-truncate :
      (n : ℕ)
      → Holds
          (λ d. At (Kept pre) d × (d.position ≡ n))
          (truncate (length pre))
          (λ u d. (d.bytes ≡ pre) × (d.position ≡ n))
          (At (Kept pre))
  unfolding truncate
  Holds-truncate n =
      Holds-call (λ bytes position. Kept pre bytes position × (position ≡ n)) _ _ _
        (λ d p. (ap (resize (length pre)) p.0.1 ∙ resize_prefix pre p.0.0, p.1)) (λ m d p. p.0)

  -- Rolled back, the bytes are those that were committed.
  pub rollback_lem :
      Holds (At (Kept pre)) (rollback (length pre)) (λ u d. d.bytes ≡ pre) (At (Kept pre))
  unfolding rollback
  rollback_lem = Holds-bind _ _ (Holds-seek (length pre)) λ u1.
      Holds-bind _ _ (Holds-truncate (length pre)) λ u2.
        Holds-sync (λ bytes position. (bytes ≡ pre) × (position ≡ length pre)) (λ d p. p.0)
          (λ d p. ([], p.0 ∙ sym (append-nil pre)))

  -- A write behind the bytes `w` of a line.
  Holds-write :
      (w bs : List ℕ)
      → Holds (At (Ends (pre ++ w))) (write bs) (λ u. At (Ends (pre ++ (w ++ bs)))) (At (Kept pre))
  unfolding write
  Holds-write w bs =
      Holds-call (Ends (pre ++ w)) _ _ _
        (λ d p.
          subst (λ xs. At (Ends xs) (written bs d)) (append_assoc pre w bs)
            (written_end (pre ++ w) bs d p))
        (λ k d p. (
          w ++ first_bytes k bs,
          (written_end (pre ++ w) (first_bytes k bs) d p).0 ∙ append_assoc pre w (first_bytes k bs),
        ))

  kept : (w : List ℕ) (d : Disk) → At (Ends (pre ++ w)) d → At (Kept pre) d
  kept w d p = (w, p.0)

  abbrev Wrote : List (Result (List ℕ)) → List ℕ → Disk → Type 0
  Wrote parts w d = (bs : List ℕ) × (joined parts ≡ ok bs) × At (Ends (pre ++ (w ++ bs))) d

  one_more_part :
      (bs : List ℕ) (parts : List (Result (List ℕ))) (w : List ℕ) (d : Disk)
      → Wrote parts (w ++ bs) d
      → Wrote (ok bs ∷ parts) w d
  one_more_part bs parts w d (rest, j, p) = (
    bs ++ rest,
    ap (λ r. r >>= λ rest. ok (bs ++ rest)) j,
    subst (λ xs. At (Ends (pre ++ xs)) d) (append_assoc w bs rest) p,
  )

  write_parts_lem :
      (parts : List (Result (List ℕ))) (w : List ℕ)
      → Holds (At (Ends (pre ++ w))) (write_parts parts) (λ u. Wrote parts w) (At (Kept pre))
  unfolding write_parts
  write_parts_lem [] w =
      Holds-pure tt
        (λ d p. ([], refl, subst (λ xs. At (Ends (pre ++ xs)) d) (sym (append-nil w)) p))
  write_parts_lem (raise e ∷ parts) w = Holds-raised e _ (kept w)
  write_parts_lem (ok bs ∷ parts) w = Holds-known (ok bs) _ bs refl (
      Holds-bind _ _ (Holds-write w bs) λ u.
        Holds-to (write_parts parts) (λ v d. one_more_part bs parts w d)
          (write_parts_lem parts (w ++ bs)))

  -- The newline behind the parts.
  abbrev pub LineWritten : List (Result (List ℕ)) → ℕ → Disk → Type 0
  LineWritten parts next d =
      (bs : List ℕ) × (joined parts ≡ ok bs)
      × At (Ends (pre ++ (bs ++ newline ∷ []))) d
      × (next ≡ length (pre ++ (bs ++ newline ∷ [])))

  last_write :
      (parts : List (Result (List ℕ))) (bs : List ℕ)
      → joined parts ≡ ok bs
      → Holds
          (At (Ends (pre ++ bs)))
          (write (newline ∷ []) >> (sync >> tell))
          (LineWritten parts)
          (At (Kept pre))
  unfolding tell
  last_write parts bs j =
      let all = pre ++ (bs ++ newline ∷ []) in
      Holds-bind _ _ (Holds-write bs (newline ∷ [])) λ u1.
        Holds-bind _ _ (Holds-sync (Ends all) (λ d p. p) (kept (bs ++ newline ∷ []))) λ u2.
          Holds-call (Ends all) _ _ _ (λ d p. (bs, j, p, p.1))
            (λ k d p. kept (bs ++ newline ∷ []) d p)

  -- A record that is written is a line behind what was committed, and the offset is behind the line.
  pub write_record_lem :
      (parts : List (Result (List ℕ)))
      → Holds (At (Kept pre)) (write_record parts (length pre)) (LineWritten parts) (At (Kept pre))
  unfolding write_record
  write_record_lem parts = Holds-bind _ _ (Holds-seek (length pre)) λ u1.
      Holds-bind _ _ (Holds-truncate (length pre)) λ u2.
        Holds-bind _ _
          (Holds-from _
            (λ d p. (p.0 ∙ sym (append-nil pre), p.1 ∙ ap length (sym (append-nil pre))))
            (write_parts_lem parts []))
          λ u3. record { at = λ d h. (last_write parts h.0 h.1).at d h.2 }
