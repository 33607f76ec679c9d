-- ===== src/Queueing/Once.antt =====
-- How often a task stands in the queue, between the calls of its producers and workers.
use subgen_english_plex.Common.{
  ℕ, ◌+◌, ◌≤◌, ◌≡◌, ◌↔◌, refl, Bool, true, false, List, [], ◌∷◌, arith, Bool-cases, inl, inr, ap,
  sym, subst, Result, same_text, same_text→eq, if◌then◌else◌,
}
use subgen_english_plex.Segmentation.Number.{Text}
use subgen_english_plex.Queueing.{
  Task, Entry, TaskQueue, has, add, discard, push, is_active, put, entry, hand_over, start_task,
  mark_done, new_queue,
}
use subgen_english_plex.Queueing.Ties.{IsFresh, Taken, put_new_inserts}

-- How often an id stands in a list of ids, of entries, and of tasks.
abbrev pub one_if : Bool → ℕ
one_if true = 1
one_if false = 0

unfoldable pub ids : Text → List Text → ℕ
ids id [] = 0
ids id (x ∷ xs) = one_if (same_text id x) + ids id xs

unfoldable pub waiting : Text → List Entry → ℕ
waiting id [] = 0
waiting id (e ∷ es) = one_if (same_text id e.task.path) + waiting id es

unfoldable pub held : Text → List Task → ℕ
held id [] = 0
held id (t ∷ ts) = one_if (same_text id t.path) + held id ts

-- `_queued` is what waits or is in the hands of a worker, and no task is there twice.
pub record IsConsistent (q : TaskQueue) : Type 0 where
  pub queued : (id : Text) → waiting id q.heap + held id q.in_hand ≡ ids id q.queued
  pub once : (id : Text) → ids id q.queued + ids id q.processing ≤ 1

pub has-ids : (id : Text) (xs : List Text) → (has id xs ≡ true) ↔ (1 ≤ ids id xs)
unfolding has ids
has-ids id [] = (λ h. absurd (cc), λ h. absurd (omega arith))
has-ids id (x ∷ xs) = ground (arith, has-ids id xs)

has_not : (id : Text) (xs : List Text) → has id xs ≡ false → ids id xs ≡ 0
unfolding has ids
has_not id [] h = refl
has_not id (x ∷ xs) h = ground (arith, has_not id xs)

not_there : (id : Text) (xs : List Text) → ids id xs ≡ 0 → has id xs ≡ false
unfolding has ids
not_there id [] h = refl
not_there id (x ∷ xs) h = ground (arith, not_there id xs)

waiting-push :
    (id : Text) (e : Entry) (es : List Entry)
    → waiting id (push e es) ≡ one_if (same_text id e.task.path) + waiting id es
unfolding waiting push
waiting-push id e [] = refl
waiting-push id e (f ∷ fs) = ground (arith, waiting-push id e fs)

same_text_left : (a b c : Text) → same_text a b ≡ true → same_text a c ≡ same_text b c
same_text_left a b c h = ap (λ x. same_text x c) (same_text→eq a b h)

same_text_right : (a b c : Text) → same_text a b ≡ true → same_text c a ≡ same_text c b
same_text_right a b c h = ap (λ x. same_text c x) (same_text→eq a b h)

-- Discarding an id leaves every other one as often as it was.
ids-discard :
    (id x : Text) (xs : List Text)
    → ids id (discard x xs) ≡ (if same_text id x then 0 else ids id xs)
unfolding ids discard
ids-discard id x [] = ground arith
ids-discard id x (y ∷ ys) = elim (Bool-cases (same_text x y)) [
  | inl e ↦ rw e (ground (arith, ids-discard id x ys, same_text_right x y id e))
  | inr n ↦ rw n (elim (Bool-cases (same_text id x)) [
    | inl s ↦ let other = same_text_left id x y s in ground (arith, ids-discard id x ys)
    | inr k ↦ ground (arith, ids-discard id x ys)
  ])
]

held-hand_over :
    (id x : Text) (ts : List Task)
    → 1 ≤ held x ts
    → held id ts ≡ one_if (same_text id x) + held id (hand_over x ts)
unfolding held hand_over
held-hand_over id x [] h = absurd (omega arith)
held-hand_over id x (t ∷ ts) h = elim (Bool-cases (same_text x t.path)) [
  | inl e ↦ rw e (ground (arith, same_text_right x t.path id e))
  | inr n ↦ rw n (ground (arith, held-hand_over id x ts))
]

pub new_queue-IsConsistent : IsConsistent new_queue
unfolding new_queue waiting held ids
new_queue-IsConsistent = record { queued = λ id. refl; once = λ id. omega arith }

-- An id that is not active stands nowhere.
inactive :
    (q : TaskQueue) (id : Text)
    → is_active id q ≡ false
    → (ids id q.queued ≡ 0) × (ids id q.processing ≡ 0)
unfolding is_active
inactive q id h = (has_not id q.queued (ground arith), has_not id q.processing (ground arith))

has_not_queued : (q : TaskQueue) (id : Text) → is_active id q ≡ false → has id q.queued ≡ false
unfolding is_active
has_not_queued q id h = ground arith

same_ids : (id x : Text) (xs : List Text) → same_text id x ≡ true → ids id xs ≡ ids x xs
same_ids id x xs h = ap (λ y. ids y xs) (same_text→eq id x h)

ids-add :
    (id x : Text) (xs : List Text)
    → has x xs ≡ false
    → ids id (add x xs) ≡ one_if (same_text id x) + ids id xs
unfolding ids
ids-add id x xs h = rw h refl

inserted-IsConsistent :
    (now : ℕ) (t : Task) (q : TaskQueue)
    → is_active t.path q ≡ false
    → IsConsistent q
    → IsConsistent (record q { heap = push (entry now t) q.heap; queued = add t.path q.queued })
unfolding entry
inserted-IsConsistent now t q new c =
    let (out, idle) = inactive q t.path new in
    let fresh : has t.path q.queued ≡ false = has_not_queued q t.path new in
    record {
      queued = λ id. omega (
        arith,
        waiting-push id (entry now t) q.heap,
        c.queued id,
        ids-add id t.path q.queued fresh,
      );
      once = λ id. elim (Bool-cases (same_text id t.path)) [
        | inl s ↦ ground (
          arith,
          ids-add id t.path q.queued fresh,
          same_ids id t.path q.queued s,
          same_ids id t.path q.processing s,
        )
        | inr n ↦ ground (arith, ids-add id t.path q.queued fresh, c.once id)
      ];
    }

pub put-IsConsistent :
    (compared : Bool) (now : ℕ) (t : Task) (q : TaskQueue)
    → IsFresh now t q
    → IsConsistent q
    → IsConsistent (put compared now t q).1
unfolding put
put-IsConsistent compared now t q fresh c = elim (Bool-cases (is_active t.path q)) [
  | inl active ↦ rw active c
  | inr new ↦ rw new (
      subst (λ x. IsConsistent x.1) (sym (put_new_inserts compared now t q fresh new))
        (inserted-IsConsistent now t q new c))
]

pub Taken-IsConsistent :
    (q r : TaskQueue) (x : Result Task) → Taken q x r → IsConsistent q → IsConsistent r
unfolding waiting held
Taken-IsConsistent q r x (e, split, same, rest) c = subst IsConsistent (sym rest) (record {
  queued = λ id. omega (arith, c.queued id, ap (λ es. waiting id es) split);
  once = c.once;
})

pub start_task-IsConsistent :
    (t : Task) (q : TaskQueue)
    → 1 ≤ held t.path q.in_hand
    → IsConsistent q
    → IsConsistent (start_task t q)
unfolding start_task
start_task-IsConsistent t q h c =
    let counted = held-hand_over t.path t.path q.in_hand h in
    let unstarted : has t.path q.processing ≡ false =
      not_there t.path q.processing (ground (arith, c.queued t.path, c.once t.path)) in
    record {
      queued = λ id. ground (
        arith,
        c.queued id,
        c.once id,
        held-hand_over id t.path q.in_hand h,
        ids-discard id t.path q.queued,
      );
      once = λ id. elim (Bool-cases (same_text id t.path)) [
        | inl s ↦ ground (
          arith,
          c.once id,
          ids-discard id t.path q.queued,
          ids-add id t.path q.processing unstarted,
          same_ids id t.path q.queued s,
          same_ids id t.path q.processing s,
          has_not t.path q.processing unstarted,
        )
        | inr n ↦ ground (
          arith,
          c.once id,
          ids-discard id t.path q.queued,
          ids-add id t.path q.processing unstarted,
        )
      ];
    }

pub mark_done-IsConsistent :
    (t : Task) (q : TaskQueue) → IsConsistent q → IsConsistent (mark_done t q)
unfolding mark_done
mark_done-IsConsistent t q c = record {
  queued = c.queued;
  once = λ id. ground (arith, c.once id, ids-discard id t.path q.processing);
}
