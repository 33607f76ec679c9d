-- ===== src/Journal/Committing.antt =====
-- What a commit leaves of a journal: the record behind the records before it, or those alone.
use mathlib.Core.List.{append-nil}
use subgen_english_plex.Common.{
  ℕ, ◌≡◌, refl, sym, ap, ◌∙◌, subst, ◌⊎◌, inl, inr, true, List, [], length, Result, ok, raise,
}
use subgen_english_plex.Common.Action.{
  Action, Holds, Holds-bind, Holds-modify, Holds-throw, Holds-attempt, Holds-to, Outcome,
  Outcome-either, attempt, ◌>>=◌,
}
use subgen_english_plex.Journal.File.{Disk}
use subgen_english_plex.Journal.{JournalRecord, segments_of, SegmentJournal, Node, on_disk}
use subgen_english_plex.Journal.Commit.{
  rolled_back, finish_record, recorded, rollback, write_record,
}
use subgen_english_plex.Journal.Writing.{At, Kept, LineWritten, write_record_lem, rollback_lem}

-- The fields are those, and the file satisfies a condition.
abbrev pub Beside : SegmentJournal → (Disk → Type 0) → Node → Type 0
Beside j X n = (n.journal ≡ j) × X n.disk

module _ {A : Type 0} where
  beside :
      (R : Disk → Type 0) (Q : A → Disk → Type 0) (j i : SegmentJournal) (r : Result A) (d : Disk)
      → i ≡ j
      → Outcome Q R (r, d)
      → Outcome {S = Node} (λ a. Beside j (Q a)) (Beside j R) (r, record { journal = i; disk = d })
  beside R Q j i (ok a) d e h = (e, h)
  beside R Q j i (raise x) d e h = (e, h)

module _ {A : Type 0} {P R : Disk → Type 0} {Q : A → Disk → Type 0} where
  -- A call of the file changes the file alone.
  pub Holds-on_disk :
      (j : SegmentJournal) (m : Action Disk A)
      → Holds P m Q R
      → Holds (Beside j P) (on_disk m) (λ a. Beside j (Q a)) (Beside j R)
  unfolding on_disk
  Holds-on_disk j m h = record {
    at = λ n p. let (r, d) = m n.disk in beside R Q j n.journal r d p.0 (h.at n.disk p.1);
  }

abbrev pub poisoned_journal : SegmentJournal → SegmentJournal
poisoned_journal j = record j { poisoned = true }

module _ {A : Type 0} {P X R : Node → Type 0} where
  -- Behind a `try` whose outcomes are alike.
  pub tried : (m : Action Node A) → Holds P m (λ a. X) X → Holds P (attempt m) (λ r. X) R
  unfolding attempt
  tried m h = record { at = λ n p. let (r, n') = m n in Outcome-either X r n' (h.at n p) }

module _ (pre : List ℕ) (j : SegmentJournal) where
  -- What a commit that failed leaves: the fields, but perhaps poisoned, and the bytes that were committed.
  abbrev pub Undone : Node → Type 0
  Undone n = ((n.journal ≡ j) ⊎ (n.journal ≡ poisoned_journal j)) × At (Kept pre) n.disk

  rolled_back_lem :
      {Q : Unit {0} → Node → Type 0} (r : Result (Unit {0}))
      → Holds (Beside j (At (Kept pre))) (rolled_back r) Q Undone
  unfolding rolled_back
  rolled_back_lem (ok u) = Holds-throw _ (λ n p. (inl p.0, p.1))
  rolled_back_lem (raise e) =
      Holds-bind {M = λ u. Undone} _ _
        (Holds-modify _ (λ n p. (inr (ap poisoned_journal p.0), p.1))) λ u. Holds-throw _ (λ n p. p)

  abbrev pub Committed : JournalRecord → ℕ → List (Result (List ℕ)) → Node → Type 0
  Committed r delta parts n =
      (next : ℕ) × LineWritten pre parts next n.disk
      × (n.journal ≡ recorded delta (segments_of r) next j)

  module _ (r : JournalRecord) (delta : ℕ) (parts : List (Result (List ℕ)))
      (starts : j.committed_offset ≡ length pre) where
    undoing :
        Holds
          (Beside j (At (Kept pre)))
          (on_disk (rollback j.committed_offset))
          (λ u. Beside j (At (Kept pre)))
          (Beside j (At (Kept pre)))
    undoing = Holds-on_disk j _ (
        subst (λ o. Holds (At (Kept pre)) (rollback o) (λ u. At (Kept pre)) (At (Kept pre)))
          (sym starts) (Holds-to _ (λ u d p. ([], p ∙ sym (append-nil pre))) (rollback_lem pre)))

    finish_record_lem :
        (next : Result ℕ)
        → Holds
            (λ n.
              Outcome
                (λ a. Beside j (LineWritten pre parts a))
                (Beside j (At (Kept pre)))
                (next, n))
            (finish_record j delta (segments_of r) next)
            (λ u. Committed r delta parts)
            Undone
    unfolding finish_record
    finish_record_lem (ok next) = Holds-modify _ (λ n p. (next, p.1, refl))
    finish_record_lem (raise e) =
        Holds-bind {M = λ u. Beside j (At (Kept pre))} _ _ (tried _ undoing) rolled_back_lem

    -- `_commit_record` behind its guard.
    pub recording_lem :
        Holds
          (Beside j (At (Kept pre)))
          (attempt (on_disk (write_record parts j.committed_offset))
            >>= finish_record j delta (segments_of r))
          (λ u. Committed r delta parts)
          Undone
    recording_lem =
        Holds-bind _ _
          (Holds-attempt _ (
            Holds-on_disk j _ (
              subst
                (λ o.
                  Holds (At (Kept pre)) (write_record parts o) (LineWritten pre parts)
                    (At (Kept pre)))
                (sym starts) (write_record_lem pre parts))))
          finish_record_lem
