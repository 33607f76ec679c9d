-- ===== src/Queueing/Reach.antt =====
-- The queue under any interleaving of its callers, and what every state has that it can reach.
use subgen_english_plex.Common.{
  ℕ, ◌+◌, ◌≤◌, ◌≡◌, ◌↔◌, refl, ap, Bool, true, false, Option, some, List, [], ◌∷◌, arith, All,
  Result, ok, Bool-cases, inl, inr, same_text_refl,
}
use subgen_english_plex.Segmentation.Number.{Text}
use subgen_english_plex.Queueing.{
  Task, Entry, TaskQueue, is_active, is_idle, put, take, start_task, mark_done, new_queue,
  no_entries, has_ties,
}
use subgen_english_plex.Queueing.Ties.{IsFresh, Taken, put-untied, take-Taken, take-untied}
use subgen_english_plex.Queueing.Once.{
  ids, waiting, held, IsConsistent, has-ids, new_queue-IsConsistent, put-IsConsistent,
  Taken-IsConsistent, start_task-IsConsistent, mark_done-IsConsistent,
}
use subgen_english_plex.Queueing.Order.{Sorted, NotBefore, put-Sorted, taken_first}

-- The calls as the lock orders them, as long as no two entries that wait together have the same priority
-- and clock reading. A worker begins a task that it took; anyone may report one done.
pub data Reached : TaskQueue → Type 0 where
  created : Reached new_queue
  puts :
      {q : TaskQueue} (compared : Bool) (now : ℕ) (t : Task)
      → Reached q
      → IsFresh now t q
      → Reached (put compared now t q).1
  takes :
      {q r : TaskQueue} (compared : Option (List Entry)) (x : Result Task)
      → Reached q
      → take compared q ≡ some (x, r)
      → Reached r
  begins :
      {q : TaskQueue} (t : Task) → Reached q → 1 ≤ held t.path q.in_hand → Reached (start_task t q)
  finishes : {q : TaskQueue} (t : Task) → Reached q → Reached (mark_done t q)

Reached-untied : (q : TaskQueue) → Reached q → has_ties q.heap ≡ false
unfolding new_queue start_task mark_done has_ties
Reached-untied _ created = refl
Reached-untied _ (puts {q} compared now t p fresh) =
    put-untied compared now t q fresh (Reached-untied q p)
Reached-untied r (takes {q} compared x p e) =
    let untied = Reached-untied q p in take-untied q r x (take-Taken compared q r x e untied) untied
Reached-untied _ (begins {q} t p h) = Reached-untied q p
Reached-untied _ (finishes {q} t p) = Reached-untied q p

takes-Taken :
    (compared : Option (List Entry)) (q r : TaskQueue) (x : Result Task)
    → Reached q
    → take compared q ≡ some (x, r)
    → Taken q x r
takes-Taken compared q r x p e = take-Taken compared q r x e (Reached-untied q p)

Reached-IsConsistent : (q : TaskQueue) → Reached q → IsConsistent q
Reached-IsConsistent _ created = new_queue-IsConsistent
Reached-IsConsistent _ (puts {q} compared now t p fresh) =
    put-IsConsistent compared now t q fresh (Reached-IsConsistent q p)
Reached-IsConsistent r (takes {q} compared x p e) =
    Taken-IsConsistent q r x (takes-Taken compared q r x p e) (Reached-IsConsistent q p)
Reached-IsConsistent _ (begins {q} t p h) = start_task-IsConsistent t q h (Reached-IsConsistent q p)
Reached-IsConsistent _ (finishes {q} t p) = mark_done-IsConsistent t q (Reached-IsConsistent q p)

Reached-Sorted : (q : TaskQueue) → Reached q → Sorted q.heap
unfolding new_queue start_task mark_done
Reached-Sorted _ created = tt
Reached-Sorted _ (puts {q} compared now t p fresh) =
    put-Sorted compared now t q fresh (Reached-Sorted q p)
Reached-Sorted r (takes {q} compared x p e) =
    let (f, split, returned, rest) = takes-Taken compared q r x p e in
    (taken_first f q r split (Reached-Sorted q p)).1
Reached-Sorted _ (begins {q} t p h) = Reached-Sorted q p
Reached-Sorted _ (finishes {q} t p) = Reached-Sorted q p

-- Where a task is: waiting, in the hands of a worker that took it, or processed.
abbrev pub places : Text → TaskQueue → ℕ
places id q = waiting id q.heap + held id q.in_hand + ids id q.processing

pub each_task_once :
    (q : TaskQueue) (id : Text)
    → Reached q
    → (places id q ≤ 1) × ((is_active id q ≡ true) ↔ (places id q ≡ 1))
unfolding is_active
each_task_once q id r =
    let c = Reached-IsConsistent q r in
    let all = c.queued id in
    let one = c.once id in
    (omega arith, ground (arith, has-ids id q.queued, has-ids id q.processing))

-- However the calls interleave, as long as no two entries that wait together have the same priority and
-- clock reading, taking does not raise: it takes the first entry, into the hands of a worker, and no
-- entry that is left has a lower priority number, or the same and an earlier clock reading.
pub takes_first :
    (compared : Option (List Entry)) (q r : TaskQueue) (x : Result Task)
    → Reached q
    → take compared q ≡ some (x, r)
    → (e : Entry) × (x ≡ ok e.task)
      × (q.heap ≡ e ∷ r.heap)
      × (r.in_hand ≡ e.task ∷ q.in_hand)
      × All (NotBefore e) r.heap
takes_first compared q r x p e =
    let (f, split, returned, rest) = takes-Taken compared q r x p e in
    (f, returned, split, ap (λ z. z.in_hand) rest, (taken_first f q r split (Reached-Sorted q p)).0)

-- A list in which no id stands is empty.
nothing_waits : (es : List Entry) → ((id : Text) → waiting id es ≡ 0) → no_entries es ≡ true
unfolding waiting
nothing_waits [] h = refl
nothing_waits (e ∷ es) h = absurd (ground (arith, h e.task.path, same_text_refl e.task.path))

nothing_runs : (xs : List Text) → ((id : Text) → ids id xs ≡ 0) → no_entries xs ≡ true
unfolding ids
nothing_runs [] h = refl
nothing_runs (x ∷ xs) h = absurd (ground (arith, h x, same_text_refl x))

no_waiting : (id : Text) (es : List Entry) → no_entries es ≡ true → waiting id es ≡ 0
unfolding waiting
no_waiting id [] h = refl
no_waiting id (e ∷ es) h = absurd (cc)

no_processing : (id : Text) (xs : List Text) → no_entries xs ≡ true → ids id xs ≡ 0
unfolding ids
no_processing id [] h = refl
no_processing id (x ∷ xs) h = absurd (cc)

-- A task that is in the hands of a worker if it is active is nowhere else.
held_alone :
    (q : TaskQueue) (id : Text)
    → Reached q
    → (is_active id q ≡ true → held id q.in_hand ≡ 1)
    → places id q ≡ held id q.in_hand
held_alone q id p h =
    let (most, somewhere) = each_task_once q id p in
    elim (Bool-cases (is_active id q)) [
      | inl active ↦ let one = h active in omega arith
      | inr inactive ↦ ground (arith, somewhere.1)
    ]

-- However the calls interleave, as long as no two entries that wait together have the same priority and
-- clock reading, a queue is idle exactly if every active task is in the hands of a worker that took it
-- and has not begun it.
pub idle_iff :
    (q : TaskQueue)
    → Reached q
    → (is_idle q ≡ true) ↔ ((id : Text) → is_active id q ≡ true → held id q.in_hand ≡ 1)
unfolding is_idle
idle_iff q p = (
  λ h id active.
      let waits = no_waiting id q.heap (ground arith) in
      let works = no_processing id q.processing (ground arith) in
      let (most, somewhere) = each_task_once q id p in let one = somewhere.0 active in omega arith,
  λ h.
      let all_held : (id : Text) → places id q ≡ held id q.in_hand =
        λ id. held_alone q id p (h id) in
      let waits = nothing_waits q.heap (λ id. omega (arith, all_held id)) in
      let works = nothing_runs q.processing (λ id. omega (arith, all_held id)) in ground arith,
)
