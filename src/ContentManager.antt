-- ===== src/ContentManager.antt =====
-- content_manager.cc, the task queues of the content manager, with generic_task.h.
pub mod Order
pub mod Invalidation
pub mod Listing
use gerber.Prelude.{
  ℕ, zero, suc, ◌+◌, ◌%◌, ◌^◌, Bool, true, false, ◌||◌, List, [], ◌∷◌, ◌++◌, Option, none, some,
  ◌==◌, if◌then◌else◌,
}
use gerber.Zmm.Queue

-- The fields of `GenericTask` that the queues use.
pub record Task : Type 0 where
  pub id : ℕ
  pub parent_id : ℕ
  pub valid : Bool

-- A task is shared, so a queue holds references into `heap`; `none` is the null reference.
pub record State : Type 0 where
  pub heap : ℕ → Task
  pub queue1 : Queue.Queue (Option ℕ)
  pub queue2 : Queue.Queue (Option ℕ)
  pub current : Option ℕ
  pub task_id : ℕ

-- A write to the task behind a reference.
unfoldable pub write : ℕ → Task → (ℕ → Task) → ℕ → Task
write ref task heap r = if r == ref then task else heap r

-- `addTask`; `taskID` is an `unsigned int`.
unfoldable pub add_task : ℕ → Bool → State → State
unfolding write
add_task ref low_priority s = record s {
  heap = write ref (record (s.heap ref) { id = s.task_id }) s.heap;
  task_id = (s.task_id + 1) % 2 ^ 32;
  queue1 = if low_priority then s.queue1 else Queue.enqueue s.queue1 (some ref);
  queue2 = if low_priority then Queue.enqueue s.queue2 (some ref) else s.queue2;
}

unfoldable pub fetch_low : State → Option ℕ × Queue.Queue (Option ℕ) → Option ℕ × State
fetch_low s (task, rest) = (task, record s { queue2 = rest; current = task })

unfoldable pub fetch_high : State → Option ℕ × Queue.Queue (Option ℕ) → Option ℕ × State
unfolding fetch_low
fetch_high s (none, rest) = fetch_low (record s { queue1 = rest }) (Queue.dequeue s.queue2)
fetch_high s (some ref, rest) = (some ref, record s { queue1 = rest; current = some ref })

-- A round of `threadProc` up to `lock.unlock()`; without a task the thread waits.
unfoldable pub fetch : State → Option ℕ × State
unfolding fetch_high
fetch s = fetch_high s (Queue.dequeue s.queue1)

abbrev pub matches : ℕ → Task → Bool
matches task_id t = t.id == task_id || t.parent_id == task_id

-- `invalidate` if the ids match.
unfoldable pub invalidate : ℕ → Option ℕ → (ℕ → Task) → ℕ → Task
unfolding write
invalidate task_id none heap = heap
invalidate task_id (some ref) heap =
    if matches task_id (heap ref)
    then write ref (record (heap ref) { valid = false }) heap
    else heap

-- The loop over a queue from `i` on.
unfoldable pub invalidate_loop : ℕ → ℕ → ℕ → Queue.Queue (Option ℕ) → (ℕ → Task) → ℕ → Task
unfolding invalidate
invalidate_loop task_id zero i q heap = heap
invalidate_loop task_id (suc rounds) i q heap =
    invalidate_loop task_id rounds (suc i) q (invalidate task_id (Queue.get q i) heap)

-- `invalidateTask`, for a task of the content manager.
unfoldable pub invalidate_task : ℕ → State → State
unfolding invalidate_loop
invalidate_task task_id s =
    let heap = invalidate task_id s.current s.heap in
    let heap1 = invalidate_loop task_id (Queue.size s.queue1) 0 s.queue1 heap in
    record s { heap = invalidate_loop task_id (Queue.size s.queue2) 0 s.queue2 heap1 }

-- The task of a reference, if it is valid.
abbrev pub if_valid : (ℕ → Task) → Option ℕ → List ℕ
if_valid heap none = []
if_valid heap (some ref) = if (heap ref).valid then ref ∷ [] else []

-- The loop over the first queue, which appends.
unfoldable pub append_loop : ℕ → ℕ → Queue.Queue (Option ℕ) → (ℕ → Task) → List ℕ → List ℕ
append_loop zero i q heap tasks = tasks
append_loop (suc rounds) i q heap tasks =
    append_loop rounds (suc i) q heap (tasks ++ if_valid heap (Queue.get q i))

abbrev pub is_valid : (ℕ → Task) → Option ℕ → Bool
is_valid heap none = false
is_valid heap (some ref) = (heap ref).valid

-- The loop over the second queue, which begins a new array for each valid task.
unfoldable pub renew_loop : ℕ → ℕ → Queue.Queue (Option ℕ) → (ℕ → Task) → List ℕ → List ℕ
renew_loop zero i q heap tasks = tasks
renew_loop (suc rounds) i q heap tasks =
    renew_loop rounds (suc i) q heap (if is_valid heap (Queue.get q i) then [] else tasks)

unfoldable pub list_queues : State → List ℕ → Option (List ℕ)
unfolding append_loop renew_loop
list_queues s tasks = some (
    renew_loop (Queue.size s.queue2) 0 s.queue2 s.heap
      (append_loop (Queue.size s.queue1) 0 s.queue1 s.heap tasks))

-- `getTasklist`, with the list of the task processor.
unfoldable pub get_tasklist : Option (List ℕ) → State → Option (List ℕ)
unfolding list_queues
get_tasklist none s = elim s.current [ none ↦ none | some ref ↦ list_queues s (ref ∷ []) ]
get_tasklist (some tasks) s = elim s.current [
  | none ↦ list_queues s tasks
  | some ref ↦ list_queues s (tasks ++ ref ∷ [])
]
