-- ===== src/Queueing/Order.antt =====
-- The order in which the queue is emptied.
use subgen_english_plex.Common.{
  ℕ, ◌≤◌, ◌≡◌, Bool, true, false, List, [], ◌∷◌, arith, Bool-cases, inl, inr, All, sym, subst,
}
use subgen_english_plex.Queueing.{Task, Entry, TaskQueue, sorts_before, push, put, entry, is_active}
use subgen_english_plex.Queueing.Ties.{IsFresh, put_new_inserts}

abbrev pub Precedes : Entry → Entry → Type 0
Precedes e f = sorts_before e f ≡ true

abbrev pub Sorted : List Entry → Type 0
Sorted [] = Unit
Sorted (e ∷ es) = All (Precedes e) es × Sorted es

-- A lower priority number, or the same and no later reading.
abbrev pub NotBefore : Entry → Entry → Type 0
NotBefore e f = (e.priority ≤ f.priority) × (e.priority ≡ f.priority → e.put_at ≤ f.put_at)

before_trans : (e f g : Entry) → Precedes e f → Precedes f g → Precedes e g
unfolding sorts_before
before_trans e f g h k = ground arith

before_total : (e f : Entry) → sorts_before f e ≡ false → Precedes e f
unfolding sorts_before
before_total e f h = ground arith

All-Precedes :
    (e f : Entry) (es : List Entry) → Precedes e f → All (Precedes f) es → All (Precedes e) es
All-Precedes e f [] h a = tt
All-Precedes e f (g ∷ es) h a = (before_trans e f g h a.0, All-Precedes e f es h a.1)

All-push :
    (e f : Entry) (es : List Entry)
    → Precedes e f
    → All (Precedes e) es
    → All (Precedes e) (push f es)
unfolding push
All-push e f [] h a = (h, tt)
All-push e f (g ∷ es) h a = elim (Bool-cases (sorts_before g f)) [
  | inl l ↦ rw l (a.0, All-push e f es h a.1)
  | inr n ↦ rw n (h, a)
]

push-Sorted : (e : Entry) (es : List Entry) → Sorted es → Sorted (push e es)
unfolding push
push-Sorted e [] s = (tt, tt)
push-Sorted e (f ∷ es) s = elim (Bool-cases (sorts_before f e)) [
  | inl l ↦ rw l (All-push f e es l s.0, push-Sorted e es s.1)
  | inr n ↦ let first = before_total e f n in rw n ((first, All-Precedes e f es first s.0), s)
]

pub put-Sorted :
    (compared : Bool) (now : ℕ) (t : Task) (q : TaskQueue)
    → IsFresh now t q
    → Sorted q.heap
    → Sorted (put compared now t q).1.heap
unfolding put
put-Sorted compared now t q fresh s = elim (Bool-cases (is_active t.path q)) [
  | inl active ↦ rw active s
  | inr new ↦ rw new (
      subst (λ x. Sorted x.1.heap) (sym (put_new_inserts compared now t q fresh new))
        (push-Sorted (entry now t) q.heap s))
]

All-NotBefore : (e : Entry) (es : List Entry) → All (Precedes e) es → All (NotBefore e) es
unfolding sorts_before
All-NotBefore e [] a = tt
All-NotBefore e (f ∷ es) a =
    ((ground (arith, a.0), λ s. ground (arith, a.0)), All-NotBefore e es a.1)

-- What is left behind an entry that was taken comes after it, in order.
pub taken_first :
    (e : Entry) (q r : TaskQueue)
    → q.heap ≡ e ∷ r.heap
    → Sorted q.heap
    → All (NotBefore e) r.heap × Sorted r.heap
taken_first e q r split s =
    let sorted : Sorted (e ∷ r.heap) = subst Sorted split s in
    (All-NotBefore e r.heap sorted.0, sorted.1)
