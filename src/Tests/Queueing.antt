-- ===== src/Tests/Queueing.antt =====
-- A transcription and a language detection that wait, and the detection taken.
use subgen_english_plex.Common.{
  ◌≡◌, ◌↔◌, refl, true, false, some, none, [], ◌∷◌, All, same_text, ok, raise, type_error,
}
use subgen_english_plex.Segmentation.Number.{Text}
use subgen_english_plex.Queueing.{
  Task, Entry, TaskQueue, detect_language, new_queue, put, put_entry, entry, take, start_task,
  mark_done, is_active, is_idle, push, sorts_before, tied, is_tied, has_ties, has, discard,
  hand_over, priority_of,
}
use subgen_english_plex.Queueing.Once.{held, waiting}
use subgen_english_plex.Queueing.Order.{NotBefore}
use subgen_english_plex.Queueing.Reach.{Reached, created, puts, takes, takes_first, idle_iff}

abbrev film : Task
film = record { path = 47 ∷ 97 ∷ []; kind = none }

abbrev detection : Task
detection = record { path = 47 ∷ 98 ∷ []; kind = some detect_language }

-- The film was put first, twice; the detection overtakes it.
abbrev two_waiting : TaskQueue
two_waiting = (put true 3 detection (put true 2 film (put true 1 film new_queue).1).1).1

abbrev detection_taken : TaskQueue
detection_taken = record {
  heap = record { priority = 2; put_at = 1; task = film } ∷ [];
  in_hand = detection ∷ [];
  queued = detection.path ∷ film.path ∷ [];
  processing = [];
}

two-Reached : Reached two_waiting
unfolding put put_entry entry push sorts_before is_active has new_queue priority_of same_text tied
    is_tied
two-Reached =
    puts true 3 detection
      (puts true 2 film (puts true 1 film created (λ n. refl)) (λ n. absurd (cc))) (λ n. refl)

-- Nothing is tied, and so taking does not compare two tasks.
detection_first : take (some []) two_waiting ≡ some (ok detection, detection_taken)
unfolding take has_ties put put_entry entry push sorts_before is_active has new_queue priority_of
    same_text tied is_tied
detection_first = refl

takes_first_example :
    (e : Entry) × (ok detection ≡ ok e.task)
    × (two_waiting.heap ≡ e ∷ detection_taken.heap)
    × (detection_taken.in_hand ≡ e.task ∷ two_waiting.in_hand)
    × All (NotBefore e) detection_taken.heap
takes_first_example =
    takes_first (some []) two_waiting detection_taken (ok detection) two-Reached detection_first

-- One task, taken and not begun.
abbrev film_taken : TaskQueue
film_taken = record { heap = []; in_hand = film ∷ []; queued = film.path ∷ []; processing = [] }

film_first : take none (put true 1 film new_queue).1 ≡ some (ok film, film_taken)
unfolding take has_ties put put_entry entry push sorts_before is_active has new_queue priority_of
    same_text tied is_tied
film_first = refl

film-Reached : Reached film_taken
unfolding is_tied new_queue
film-Reached = takes none (ok film) (puts true 1 film created (λ n. refl)) film_first

idle_iff_example :
    (is_idle film_taken ≡ true)
    ↔ ((id : Text) → is_active id film_taken ≡ true → held id film_taken.in_hand ≡ 1)
idle_iff_example = idle_iff film_taken film-Reached

-- A task that was begun and reported done is no longer active.
film_done : is_active film.path (mark_done film (start_task film film_taken)) ≡ false
unfolding is_active mark_done start_task has discard hand_over same_text
film_done = refl

-- Two films at the same reading: comparing them raises, with the second one in the heap and not active.
abbrev other_film : Task
other_film = record { path = 47 ∷ 99 ∷ []; kind = none }

abbrev tied_queue : TaskQueue
tied_queue = (put true 1 other_film (put true 1 film new_queue).1).1

tie_raises :
    ((put true 1 other_film (put true 1 film new_queue).1).0 ≡ raise type_error)
    × (is_active other_film.path tied_queue ≡ false)
    × (waiting other_film.path tied_queue.heap ≡ 1)
unfolding put put_entry entry push sorts_before is_active has new_queue priority_of same_text tied
    is_tied waiting
tie_raises = (refl, refl, refl)

-- Put again at another reading, it waits twice.
queued_twice : waiting other_film.path (put true 2 other_film tied_queue).1.heap ≡ 2
unfolding put put_entry entry push sorts_before is_active has new_queue priority_of same_text tied
    is_tied waiting
queued_twice = refl
