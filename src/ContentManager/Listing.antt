-- ===== src/ContentManager/Listing.antt =====
-- Which tasks `getTasklist` lists.
use mathlib.Core.Option
use gerber.Prelude.{
  Option-cases, ℕ, zero, suc, ◌≡◌, refl, sym, ap, ap₂, ◌∙◌, Bool, inl, inr, true, false, List, [],
  ◌∷◌, ◌++◌, map, Option, none, some, arith, append-nil, append_assoc, if◌then◌else◌,
}
use gerber.Prelude.Ring.{tabulate}
use gerber.Zmm.Queue
use gerber.ContentManager.{
  Task, State, if_valid, is_valid, append_loop, renew_loop, list_queues, get_tasklist,
}
use gerber.ContentManager.Order.{Queues}
use gerber.ContentManager.Invalidation.{read_from, read_from-suc, read_all}

-- The valid tasks of a list.
abbrev pub valid_ones : (ℕ → Task) → List (Option ℕ) → List ℕ
valid_ones heap [] = []
valid_ones heap (x ∷ xs) = if_valid heap x ++ valid_ones heap xs

abbrev pub any_valid : (ℕ → Task) → List (Option ℕ) → Bool
any_valid heap [] = false
any_valid heap (x ∷ xs) = if is_valid heap x then true else any_valid heap xs

append_loop_lem :
    (rounds i : ℕ) (q : Queue.Queue (Option ℕ)) (heap : ℕ → Task) (tasks : List ℕ)
    → append_loop rounds i q heap tasks ≡ tasks ++ valid_ones heap (read_from rounds i q)
unfolding append_loop
append_loop_lem zero i q heap tasks = unfold tabulate in sym (append-nil tasks)
append_loop_lem (suc rounds) i q heap tasks =
    append_loop_lem rounds (suc i) q heap (tasks ++ if_valid heap (Queue.get q i))
    ∙ append_assoc tasks (if_valid heap (Queue.get q i))
        (valid_ones heap (read_from rounds (suc i) q))
    ∙ ap (λ xs. tasks ++ valid_ones heap xs) (sym (read_from-suc rounds i q))

renew_step :
    (heap : ℕ → Task) (x : Option ℕ) (xs : List (Option ℕ)) (tasks : List ℕ)
    → (if any_valid heap xs then [] else (if is_valid heap x then [] else tasks))
      ≡ (if any_valid heap (x ∷ xs) then [] else tasks)
renew_step heap x xs tasks = ground arith

renew_loop_lem :
    (rounds i : ℕ) (q : Queue.Queue (Option ℕ)) (heap : ℕ → Task) (tasks : List ℕ)
    → renew_loop rounds i q heap tasks
      ≡ (if any_valid heap (read_from rounds i q) then [] else tasks)
unfolding renew_loop
renew_loop_lem zero i q heap tasks = unfold tabulate in refl
renew_loop_lem (suc rounds) i q heap tasks =
    renew_loop_lem rounds (suc i) q heap (if is_valid heap (Queue.get q i) then [] else tasks)
    ∙ renew_step heap (Queue.get q i) (read_from rounds (suc i) q) tasks
    ∙ ap (λ xs. if any_valid heap xs then [] else tasks) (sym (read_from-suc rounds i q))

-- The list before the queues: that of the task processor, and the current task.
abbrev pub listed : Option (List ℕ) → Option ℕ → Option (List ℕ)
listed none none = none
listed none (some ref) = some (ref ∷ [])
listed (some tasks) none = some tasks
listed (some tasks) (some ref) = some (tasks ++ ref ∷ [])

abbrev pub with_queues : State → List ℕ → List ℕ → List ℕ → List ℕ
with_queues s high low tasks =
    if any_valid s.heap (map (λ r. some r) low)
    then []
    else tasks ++ valid_ones s.heap (map (λ r. some r) high)

list_queues_lem :
    (s : State) (high low tasks : List ℕ)
    → Queues s (high, low)
    → list_queues s tasks ≡ some (with_queues s high low tasks)
unfolding list_queues
list_queues_lem s high low tasks v = ap some (
    renew_loop_lem (Queue.size s.queue2) 0 s.queue2 s.heap _
    ∙ ap₂ (λ (xs : List (Option ℕ)) (ts : List ℕ). if any_valid s.heap xs then [] else ts)
        (read_all s.queue2 low v.low)
        (append_loop_lem (Queue.size s.queue1) 0 s.queue1 s.heap tasks
          ∙ ap (λ xs. tasks ++ valid_ones s.heap xs) (read_all s.queue1 high v.high)))

-- `getTasklist` lists the tasks of the task processor, the current one and the valid ones that wait
-- at normal priority, in order, or nothing if there is neither of the first two. But if a valid task
-- waits at low priority, the list that it returns is empty.
pub get_tasklist_lem :
    (others : Option (List ℕ)) (s : State) (high low : List ℕ)
    → Queues s (high, low)
    → get_tasklist others s ≡ Option.map (with_queues s high low) (listed others s.current)
unfolding get_tasklist
get_tasklist_lem none s high low v = elim (Option-cases s.current) [
  | inl e ↦ rw e refl
  | inr (ref, e) ↦ rw e (list_queues_lem s high low (ref ∷ []) v)
]
get_tasklist_lem (some tasks) s high low v = elim (Option-cases s.current) [
  | inl e ↦ rw e (list_queues_lem s high low tasks v)
  | inr (ref, e) ↦ rw e (list_queues_lem s high low (tasks ++ ref ∷ []) v)
]
