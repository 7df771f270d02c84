-- ===== src/ContentManager/Invalidation.antt =====
-- Which tasks `invalidateTask` invalidates.
use gerber.Prelude.{
  ℕ, zero, suc, ◌+◌, ◌≡◌, refl, sym, ap, ap₂, ==_refl, ◌&&◌, subst, ◌∙◌, Bool, Bool-cases, inl, inr,
  true, false, List, [], ◌∷◌, ◌++◌, map, Option, none, some, arith, ◌==◌, if◌then◌else◌,
}
use gerber.Prelude.Ring.{tabulate, tabulate_ext}
use gerber.Zmm.Queue
use gerber.Zmm.Queue.Fifo.{to_list, get-nth}
use gerber.ContentManager.{
  Task, State, write, matches, invalidate, invalidate_loop, invalidate_task,
}
use gerber.ContentManager.Order.{Holds, Queues}

-- What a loop over a queue reads from the `i`-th element on.
abbrev pub read_from : ℕ → ℕ → Queue.Queue (Option ℕ) → List (Option ℕ)
read_from rounds i q = tabulate rounds (λ k. Queue.get q (i + k))

pub read_from-suc :
    (rounds i : ℕ) (q : Queue.Queue (Option ℕ))
    → read_from (suc rounds) i q ≡ Queue.get q i ∷ read_from rounds (suc i) q
unfolding tabulate
read_from-suc rounds i q = ap₂ ◌∷◌ (ap (Queue.get q) {x = i + 0} {y = i} (omega arith)) (
    tabulate_ext rounds _ _ (λ k h. ap (Queue.get q) {x = i + suc k} {y = suc i + k} (omega arith)))

pub read_all :
    (q : Queue.Queue (Option ℕ)) (refs : List ℕ)
    → Holds q refs
    → read_from (Queue.size q) 0 q ≡ map (λ r. some r) refs
unfolding to_list
read_all q refs h =
    tabulate_ext (Queue.size q) _ _
      (λ k l. ap (Queue.get q) {x = 0 + k} {y = k} (omega arith) ∙ get-nth q k h.ring l)
    ∙ h.elements

invalidate_all : ℕ → List (Option ℕ) → (ℕ → Task) → ℕ → Task
unfolding invalidate
invalidate_all task_id [] heap = heap
invalidate_all task_id (x ∷ xs) heap = invalidate_all task_id xs (invalidate task_id x heap)

invalidate_loop_lem :
    (task_id rounds i : ℕ) (q : Queue.Queue (Option ℕ)) (heap : ℕ → Task)
    → invalidate_loop task_id rounds i q heap ≡ invalidate_all task_id (read_from rounds i q) heap
unfolding invalidate_loop invalidate_all
invalidate_loop_lem task_id zero i q heap = unfold tabulate in refl
invalidate_loop_lem task_id (suc rounds) i q heap =
    invalidate_loop_lem task_id rounds (suc i) q (invalidate task_id (Queue.get q i) heap)
    ∙ sym (ap (λ xs. invalidate_all task_id xs heap) (read_from-suc rounds i q))

-- Whether a reference is in a list.
abbrev pub among : ℕ → List (Option ℕ) → Bool
among r [] = false
among r (none ∷ xs) = among r xs
among r (some x ∷ xs) = if r == x then true else among r xs

abbrev pub marked : ℕ → Bool → Task → Task
marked task_id listed t = if listed && matches task_id t then record t { valid = false } else t

write_self : (x : ℕ) (t : Task) (heap : ℕ → Task) → write x t heap x ≡ t
unfolding write
write_self x t heap = rw (==_refl x) refl

write_other : (x r : ℕ) (t : Task) (heap : ℕ → Task) → (r == x) ≡ false → write x t heap r ≡ heap r
unfolding write
write_other x r t heap h = rw h refl

if_same : (b : Bool) (t : Task) → (if b then t else t) ≡ t
if_same true t = refl
if_same false t = refl

marked_here :
    (task_id x : ℕ) (heap : ℕ → Task)
    → invalidate task_id (some x) heap x ≡ marked task_id (among x (some x ∷ [])) (heap x)
unfolding invalidate
marked_here task_id x heap = elim (Bool-cases (matches task_id (heap x))) [
  | inl e ↦ rw (==_refl x, e) (write_self x _ heap)
  | inr e ↦ rw (==_refl x, e) refl
]

marked_elsewhere :
    (task_id x r : ℕ) (heap : ℕ → Task)
    → (r == x) ≡ false
    → invalidate task_id (some x) heap r ≡ marked task_id (among r (some x ∷ [])) (heap r)
unfolding invalidate
marked_elsewhere task_id x r heap h = elim (Bool-cases (matches task_id (heap x))) [
  | inl e ↦ rw (h, e) (write_other x r _ heap h)
  | inr e ↦ rw (h, e) refl
]

invalidate-marked :
    (task_id : ℕ) (x : Option ℕ) (heap : ℕ → Task) (r : ℕ)
    → invalidate task_id x heap r ≡ marked task_id (among r (x ∷ [])) (heap r)
invalidate-marked task_id none heap r = unfold invalidate in refl
invalidate-marked task_id (some x) heap r = elim (Bool-cases (r == x)) [
  | inl e ↦
      subst
        (λ y. invalidate task_id (some x) heap y ≡ marked task_id (among y (some x ∷ [])) (heap y))
        {x = x} {y = r} (ground arith) (marked_here task_id x heap)
  | inr e ↦ marked_elsewhere task_id x r heap e
]

marked-marked :
    (task_id : ℕ) (first second : Bool) (t : Task)
    → marked task_id second (marked task_id first t)
      ≡ marked task_id (if first then true else second) t
marked-marked task_id false second t = refl
marked-marked task_id true false t = refl
marked-marked task_id true true t = elim (Bool-cases (matches task_id t)) [
  | inl e ↦ rw e (if_same (matches task_id t) (record t { valid = false }))
  | inr e ↦ rw e (rw e refl)
]

among_cons :
    (r : ℕ) (x : Option ℕ) (xs : List (Option ℕ))
    → among r (x ∷ xs) ≡ (if among r (x ∷ []) then true else among r xs)
among_cons r none xs = refl
among_cons r (some x) xs = elim (Bool-cases (r == x)) [ inl e ↦ rw e refl | inr e ↦ rw e refl ]

invalidate_all-marked :
    (task_id : ℕ) (xs : List (Option ℕ)) (heap : ℕ → Task) (r : ℕ)
    → invalidate_all task_id xs heap r ≡ marked task_id (among r xs) (heap r)
unfolding invalidate_all
invalidate_all-marked task_id [] heap r = refl
invalidate_all-marked task_id (x ∷ xs) heap r =
    invalidate_all-marked task_id xs (invalidate task_id x heap) r
    ∙ ap (marked task_id (among r xs)) (invalidate-marked task_id x heap r)
    ∙ marked-marked task_id (among r (x ∷ [])) (among r xs) (heap r)
    ∙ ap (λ b. marked task_id b (heap r)) (sym (among_cons r x xs))

invalidate_all-append :
    (task_id : ℕ) (xs ys : List (Option ℕ)) (heap : ℕ → Task)
    → invalidate_all task_id ys (invalidate_all task_id xs heap)
      ≡ invalidate_all task_id (xs ++ ys) heap
unfolding invalidate_all
invalidate_all-append task_id [] ys heap = refl
invalidate_all-append task_id (x ∷ xs) ys heap =
    invalidate_all-append task_id xs ys (invalidate task_id x heap)

-- The references to the tasks that the content manager knows: the current one and those that wait.
abbrev pub known : State → List ℕ → List ℕ → List (Option ℕ)
known s high low = s.current ∷ (map (λ r. some r) high ++ map (λ r. some r) low)

-- `invalidateTask` makes invalid each task that is current or waits in either queue and whose id or
-- parent's id is the given one. It changes no other task, and nothing else of the task.
pub invalidate_task-marked :
    (task_id : ℕ) (s : State) (high low : List ℕ)
    → Queues s (high, low)
    → (r : ℕ)
    → (invalidate_task task_id s).heap r ≡ marked task_id (among r (known s high low)) (s.heap r)
unfolding invalidate_task
invalidate_task-marked task_id s high low v r =
    ap (λ heap. heap r)
      (invalidate_loop_lem task_id (Queue.size s.queue2) 0 s.queue2 _
        ∙ ap₂ (invalidate_all task_id) (read_all s.queue2 low v.low) (
            invalidate_loop_lem task_id (Queue.size s.queue1) 0 s.queue1 _
            ∙ ap (λ xs. invalidate_all task_id xs (invalidate task_id s.current s.heap))
                (read_all s.queue1 high v.high))
        ∙ invalidate_all-append task_id (map (λ r. some r) high) (map (λ r. some r) low)
            (invalidate task_id s.current s.heap))
    ∙ unfold invalidate_all in invalidate_all-marked task_id (known s high low) s.heap r
