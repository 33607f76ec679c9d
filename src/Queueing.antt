-- ===== src/Queueing.antt =====
-- `DeduplicatedQueue` of subgen_core/queueing.py. The heap of `queue.PriorityQueue` is a list in the
-- order in which it is emptied. `get` is two steps, since it takes an entry before it takes the lock:
-- between them the entry is in the hands of a worker. The clock readings are arguments, and so is
-- whether the heap compares two tasks that are queued with the same priority and reading, which raises.
-- Such entries stand here in the order in which they were put, where the heap may order them otherwise.
pub mod Ties
pub mod Once
pub mod Order
pub mod Reach
use subgen_english_plex.Common.{
  ℕ, suc, ◌+◌, Bool, true, false, not, ◌&&◌, ◌||◌, Option, none, some, List, [], ◌∷◌, leb, ltb,
  ◌==◌, if◌then◌else◌, same_text, Result, ok, raise, type_error,
}
use subgen_english_plex.Segmentation.Number.{Text}

-- The keys of a task that the queue reads; `kind` is `type`.
pub record Task : Type 0 where
  pub path : Text
  pub kind : Option Text

pub record Entry : Type 0 where
  pub priority : ℕ
  pub put_at : ℕ
  pub task : Task

pub record TaskQueue : Type 0 where
  pub heap : List Entry
  pub in_hand : List Task
  pub queued : List Text
  pub processing : List Text

abbrev pub detect_language : Text
detect_language =
    100 ∷ 101 ∷ 116 ∷ 101 ∷ 99 ∷ 116 ∷ 95 ∷ 108 ∷ 97 ∷ 110 ∷ 103 ∷ 117 ∷ 97 ∷ 103 ∷ 101 ∷ []

abbrev pub asr : Text
asr = 97 ∷ 115 ∷ 114 ∷ []

abbrev pub transcribe : Text
transcribe = 116 ∷ 114 ∷ 97 ∷ 110 ∷ 115 ∷ 99 ∷ 114 ∷ 105 ∷ 98 ∷ 101 ∷ []

-- `item.get("type", "transcribe")`
abbrev pub task_type : Task → Text
task_type t = elim t.kind [ none ↦ transcribe | some k ↦ k ]

unfoldable pub priority_of : Task → ℕ
priority_of t =
    if same_text (task_type t) detect_language
    then 0
    else if same_text (task_type t) asr
    then 1
    else 2

-- Membership in a set of task ids.
unfoldable pub has : Text → List Text → Bool
has id [] = false
has id (x ∷ xs) = same_text id x || has id xs

-- `set.add`
abbrev pub add : Text → List Text → List Text
add id xs = if has id xs then xs else id ∷ xs

-- `set.discard`
unfoldable pub discard : Text → List Text → List Text
discard id [] = []
discard id (x ∷ xs) = let rest = discard id xs in if same_text id x then rest else x ∷ rest

-- The order of the tuples `(priority, time.time(), item)` by their numbers.
unfoldable pub sorts_before : Entry → Entry → Bool
sorts_before e f = ltb e.priority f.priority || (e.priority == f.priority && leb e.put_at f.put_at)

-- Two tuples whose numbers are the same, of which a comparison reads the tasks.
unfoldable pub tied : Entry → Entry → Bool
tied e f = e.priority == f.priority && e.put_at == f.put_at

unfoldable pub is_tied : Entry → List Entry → Bool
unfolding tied
is_tied e [] = false
is_tied e (f ∷ fs) = tied e f || is_tied e fs

unfoldable pub has_ties : List Entry → Bool
unfolding is_tied
has_ties [] = false
has_ties (e ∷ es) = is_tied e es || has_ties es

-- `heappush`, on the list in the order of the pops.
unfoldable pub push : Entry → List Entry → List Entry
unfolding sorts_before
push e [] = e ∷ []
push e (f ∷ fs) = if sorts_before f e then f ∷ push e fs else e ∷ f ∷ fs

unfoldable pub new_queue : TaskQueue
new_queue = record { heap = []; in_hand = []; queued = []; processing = [] }

-- `is_active`
unfoldable pub is_active : Text → TaskQueue → Bool
is_active id q = has id q.queued || has id q.processing

-- The tuple that `put` makes at the clock reading `now`.
unfoldable pub entry : ℕ → Task → Entry
unfolding priority_of
entry now t = record { priority = priority_of t; put_at = now; task = t }

-- `super().put`, and what follows it unless a comparison of two tasks raised: then the entry is in the
-- heap, and its id is not queued.
unfoldable pub put_entry : Bool → Entry → TaskQueue → Result Bool × TaskQueue
unfolding push
put_entry raises e q =
    if raises
    then (raise type_error, record q { heap = push e q.heap })
    else (ok true, record q { heap = push e q.heap; queued = add e.task.path q.queued })

-- `put` at the clock reading `now`; `compared` is whether the heap compares the entry with one that it
-- is tied with, if there is one.
unfoldable pub put : Bool → ℕ → Task → TaskQueue → Result Bool × TaskQueue
unfolding is_active put_entry entry is_tied
put compared now t q =
    if is_active t.path q
    then (ok false, q)
    else put_entry (compared && is_tied (entry now t) q.heap) (entry now t) q

-- `super().get` of the first entry. If two of the others are tied, comparing them may raise: then the
-- first entry is lost, and `left` is what the heap is left as.
abbrev pub take_entry :
    Option (List Entry) → Bool → Entry → List Entry → TaskQueue → Result Task × TaskQueue
take_entry (some left) true e es q = (raise type_error, record q { heap = left })
take_entry _ _ e es q = (ok e.task, record q { heap = es; in_hand = e.task ∷ q.in_hand })

-- Nothing to take while the heap is empty, where `get` waits or raises `Empty`.
abbrev pub take_from :
    Option (List Entry) → List Entry → TaskQueue → Option (Result Task × TaskQueue)
take_from compared [] q = none
take_from compared (e ∷ es) q = some (take_entry compared (has_ties es) e es q)

unfoldable pub take : Option (List Entry) → TaskQueue → Option (Result Task × TaskQueue)
unfolding has_ties
take compared q = take_from compared q.heap q

-- One task leaves the hands of the workers.
unfoldable pub hand_over : Text → List Task → List Task
hand_over id [] = []
hand_over id (t ∷ ts) = if same_text id t.path then ts else t ∷ hand_over id ts

-- `get` under the lock.
unfoldable pub start_task : Task → TaskQueue → TaskQueue
unfolding discard hand_over
start_task t q = record q {
  in_hand = hand_over t.path q.in_hand;
  queued = discard t.path q.queued;
  processing = add t.path q.processing;
}

unfoldable pub mark_done : Task → TaskQueue → TaskQueue
unfolding discard
mark_done t q = record q { processing = discard t.path q.processing }

abbrev pub no_entries : {A : Type 0} → List A → Bool
no_entries [] = true
no_entries (x ∷ xs) = false

unfoldable pub is_idle : TaskQueue → Bool
is_idle q = no_entries q.heap && no_entries q.processing

abbrev pub get_queued_tasks : TaskQueue → List Text
get_queued_tasks q = q.queued

abbrev pub get_processing_tasks : TaskQueue → List Text
get_processing_tasks q = q.processing
