-- ===== src/Queueing/Ties.antt =====
-- Queues in which no two entries that wait together have the same priority and clock reading: a call
-- does not raise there.
use subgen_english_plex.Common.{
  ◌≡◌, refl, sym, subst, ◌∙◌, Bool, true, false, ◌&&◌, some, none, Option, List, [], ◌∷◌, arith,
  Bool-cases, inl, inr, Result, ok, ℕ,
}
use subgen_english_plex.Queueing.{
  Task, Entry, TaskQueue, sorts_before, tied, is_tied, has_ties, push, entry, put_entry, put,
  is_active, take_entry, take_from, take, add,
}

tied_sym : (e f : Entry) → tied e f ≡ tied f e
unfolding tied
tied_sym e f = ground arith

is_tied-push :
    (e f : Entry) (es : List Entry)
    → tied e f ≡ false
    → is_tied e es ≡ false
    → is_tied e (push f es) ≡ false
unfolding is_tied push
is_tied-push e f [] h k = ground arith
is_tied-push e f (g ∷ es) h k =
    let apart : tied e g ≡ false = ground arith in
    let rest : is_tied e es ≡ false = ground arith in
    elim (Bool-cases (sorts_before g f)) [
      | inl l ↦ rw l (rw apart (is_tied-push e f es h rest))
      | inr n ↦ rw n (rw h (rw apart rest))
    ]

has_ties-push :
    (e : Entry) (es : List Entry)
    → is_tied e es ≡ false
    → has_ties es ≡ false
    → has_ties (push e es) ≡ false
unfolding has_ties push is_tied
has_ties-push e [] h k = refl
has_ties-push e (f ∷ es) h k =
    let apart : tied e f ≡ false = ground arith in
    let rest : is_tied e es ≡ false = ground arith in
    let others : is_tied f es ≡ false = ground arith in
    let untied : has_ties es ≡ false = ground arith in
    elim (Bool-cases (sorts_before f e)) [
      | inl l ↦
          rw l (
            rw (is_tied-push f e es (tied_sym f e ∙ apart) others) (has_ties-push e es rest untied))
      | inr n ↦ rw n (rw apart (rw rest (rw others untied)))
    ]

-- A clock reading that ties the task with nothing that waits, if it is new.
abbrev pub IsFresh : ℕ → Task → TaskQueue → Type 0
IsFresh now t q = is_active t.path q ≡ false → is_tied (entry now t) q.heap ≡ false

pub put_new_inserts :
    (compared : Bool) (now : ℕ) (t : Task) (q : TaskQueue)
    → IsFresh now t q
    → is_active t.path q ≡ false
    → put_entry (compared && is_tied (entry now t) q.heap) (entry now t) q
      ≡ (ok true, record q { heap = push (entry now t) q.heap; queued = add t.path q.queued })
unfolding put_entry entry
put_new_inserts compared now t q fresh new =
    let apart = fresh new in
    let returns : (compared && is_tied (entry now t) q.heap) ≡ false = ground arith in
    rw returns refl

pub put-untied :
    (compared : Bool) (now : ℕ) (t : Task) (q : TaskQueue)
    → IsFresh now t q
    → has_ties q.heap ≡ false
    → has_ties (put compared now t q).1.heap ≡ false
unfolding put
put-untied compared now t q fresh h = elim (Bool-cases (is_active t.path q)) [
  | inl active ↦ rw active h
  | inr new ↦ rw new (
      subst (λ x. has_ties x.1.heap ≡ false) (sym (put_new_inserts compared now t q fresh new))
        (has_ties-push (entry now t) q.heap (fresh new) h))
]

-- What taking gives, and leaves.
abbrev pub Taken : TaskQueue → Result Task → TaskQueue → Type 0
Taken q x r =
    (e : Entry) × (q.heap ≡ e ∷ r.heap)
    × (x ≡ ok e.task)
    × (r ≡ record q { heap = r.heap; in_hand = e.task ∷ q.in_hand })

take_entry_lem :
    (compared : Option (List Entry)) (b : Bool) (e : Entry) (es : List Entry) (q r : TaskQueue)
    (x : Result Task)
    → b ≡ false
    → take_entry compared b e es q ≡ (x, r)
    → q.heap ≡ e ∷ es
    → Taken q x r
take_entry_lem (some left) true e es q r x h k s = absurd (cc)
take_entry_lem (some left) false e es q r x h k s =
    subst (λ p. Taken q p.0 p.1) k (e, s, refl, refl)
take_entry_lem none b e es q r x h k s = subst (λ p. Taken q p.0 p.1) k (e, s, refl, refl)

take_from_lem :
    (compared : Option (List Entry)) (es : List Entry) (q r : TaskQueue) (x : Result Task)
    → q.heap ≡ es
    → has_ties es ≡ false
    → take_from compared es q ≡ some (x, r)
    → Taken q x r
unfolding has_ties
take_from_lem compared [] q r x s h k = absurd (cc)
take_from_lem compared (e ∷ es) q r x s h k =
    take_entry_lem compared (has_ties es) e es q r x (ground arith) (ground arith) s

pub take-Taken :
    (compared : Option (List Entry)) (q r : TaskQueue) (x : Result Task)
    → take compared q ≡ some (x, r)
    → has_ties q.heap ≡ false
    → Taken q x r
unfolding take
take-Taken compared q r x k h = take_from_lem compared q.heap q r x refl h k

pub take-untied :
    (q r : TaskQueue) (x : Result Task)
    → Taken q x r
    → has_ties q.heap ≡ false
    → has_ties r.heap ≡ false
unfolding has_ties
take-untied q r x (e, split, same, rest) h =
    let all : has_ties (e ∷ r.heap) ≡ false = subst (λ es. has_ties es ≡ false) split h in
    ground arith
