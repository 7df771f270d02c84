-- ===== src/ContentManager/Order.antt =====
-- The two task queues as two lists: in which order the thread takes the tasks.
use gerber.Prelude.{
  ℕ, zero, suc, ◌+◌, ◌≡◌, refl, ap, ap₂, subst, ◌∙◌, Bool, true, false, List, [], ◌∷◌, ◌++◌, map,
  Option, none, some, arith, length,
}
use gerber.Zmm.Queue
use gerber.Zmm.Queue.Fifo.{
  IsRing, to_list, enqueue-IsRing, to_list-enqueue, Dequeues, dequeue-Dequeues,
}
use gerber.ContentManager.{State, add_task, fetch_low, fetch_high, fetch, invalidate_task}

-- A queue that holds the references of a list, none of them null.
pub record Holds (q : Queue.Queue (Option ℕ)) (refs : List ℕ) : Type 0 where
  pub ring : IsRing q
  pub empty : q.empty_type ≡ none
  pub elements : to_list q ≡ map some refs

-- The tasks that wait at each priority.
pub record Represents (s : State) (waiting1 waiting2 : List ℕ) : Type 0 where
  pub high : Holds s.queue1 waiting1
  pub low : Holds s.queue2 waiting2

map-append :
    (xs : List ℕ) (x : ℕ) → map (λ r. some r) xs ++ some x ∷ [] ≡ map (λ r. some r) (xs ++ x ∷ [])
map-append [] x = refl
map-append (y ∷ xs) x = ap (◌∷◌ (some y)) (map-append xs x)

empty_type-enqueue :
    (q : Queue.Queue (Option ℕ)) (x : Option ℕ) → (Queue.enqueue q x).empty_type ≡ q.empty_type
unfolding Queue.enqueue Queue.append Queue.resize Queue.relocate
empty_type-enqueue q x = ground arith

empty_type-dequeue : (q : Queue.Queue (Option ℕ)) → (Queue.dequeue q).1.empty_type ≡ q.empty_type
unfolding Queue.dequeue
empty_type-dequeue q = ground arith

enqueue-Holds :
    (q : Queue.Queue (Option ℕ)) (refs : List ℕ) (ref : ℕ)
    → Holds q refs
    → Holds (Queue.enqueue q (some ref)) (refs ++ ref ∷ [])
enqueue-Holds q refs ref h = record {
  ring = enqueue-IsRing q (some ref) h.ring;
  empty = empty_type-enqueue q (some ref) ∙ h.empty;
  elements =
      to_list-enqueue q (some ref) h.ring
      ∙ ap (λ t. t ++ some ref ∷ []) h.elements
      ∙ map-append refs ref;
}

-- What `dequeue` does to a queue that holds the references.
abbrev Takes : Queue.Queue (Option ℕ) → List ℕ → Option ℕ × Queue.Queue (Option ℕ) → Type 0
Takes q [] (x, rest) = (x ≡ none) × Holds rest []
Takes q (ref ∷ refs) (x, rest) = (x ≡ some ref) × Holds rest refs

dequeue-Takes :
    (q : Queue.Queue (Option ℕ)) (refs : List ℕ) → Holds q refs → Takes q refs (Queue.dequeue q)
dequeue-Takes q [] h = rw taken (h.empty, h)
  where
    taken : Queue.dequeue q ≡ (q.empty_type, q)
    taken = subst (λ xs. Dequeues xs q (Queue.dequeue q)) h.elements (dequeue-Dequeues q h.ring)
dequeue-Takes q (ref ∷ refs) h =
    let (first, rest, ring) =
      subst (λ xs. Dequeues xs q (Queue.dequeue q)) h.elements (dequeue-Dequeues q h.ring) in
    (first, record { ring = ring; empty = empty_type-dequeue q ∙ h.empty; elements = rest })

-- A specification: two lists, of which the first goes first.
abbrev pub Waiting : Type 0
Waiting = List ℕ × List ℕ

abbrev pub next : Waiting → Option ℕ × Waiting
next ([], []) = (none, ([], []))
next ([], ref ∷ low) = (some ref, ([], low))
next (ref ∷ high, low) = (some ref, (high, low))

abbrev pub Queues : State → Waiting → Type 0
Queues s (high, low) = Represents s high low

-- The thread takes what the specification gives.
abbrev Fetches : Option ℕ × Waiting → Option ℕ × State → Type 0
Fetches (ref, w) (task, s) = (task ≡ ref) × Queues s w

fetch_low-Fetches :
    (s : State) (low : List ℕ) (r : Option ℕ × Queue.Queue (Option ℕ))
    → Holds s.queue1 []
    → Takes s.queue2 low r
    → Fetches (next ([], low)) (fetch_low s r)
unfolding fetch_low
fetch_low-Fetches s [] (x, rest) h (e, k) = (e, record { high = h; low = k })
fetch_low-Fetches s (ref ∷ low) (x, rest) h (e, k) = (e, record { high = h; low = k })

fetch_high-Fetches :
    (s : State) (high low : List ℕ) (r : Option ℕ × Queue.Queue (Option ℕ))
    → Holds s.queue2 low
    → Takes s.queue1 high r
    → Fetches (next (high, low)) (fetch_high s r)
unfolding fetch_high
fetch_high-Fetches s [] low (none, rest) h (e, k) =
    fetch_low-Fetches (record s { queue1 = rest }) low (Queue.dequeue s.queue2) k
      (dequeue-Takes s.queue2 low h)
fetch_high-Fetches s [] low (some ref, rest) h (e, k) = cc
fetch_high-Fetches s (ref ∷ high) low (none, rest) h (e, k) = cc
fetch_high-Fetches s (ref ∷ high) low (some x, rest) h (e, k) = (e, record { high = k; low = h })

fetch-Fetches : (s : State) (w : Waiting) → Queues s w → Fetches (next w) (fetch s)
unfolding fetch
fetch-Fetches s (high, low) v =
    fetch_high-Fetches s high low (Queue.dequeue s.queue1) v.low
      (dequeue-Takes s.queue1 high v.high)

-- What happens to the queues.
pub data Event : Type 0 where
  adds : (ref : ℕ) (low_priority : Bool) → Event
  invalidates : (task_id : ℕ) → Event
  fetches : Event

unfoldable pub happen : Event → State → List (Option ℕ) × State
unfolding add_task invalidate_task fetch
happen (adds ref low_priority) s = ([], add_task ref low_priority s)
happen (invalidates task_id) s = ([], invalidate_task task_id s)
happen fetches s = let (task, after) = fetch s in (task ∷ [], after)

unfoldable pub run : List Event → State → List (Option ℕ) × State
unfolding happen
run [] s = ([], s)
run (e ∷ events) s =
    let (out, next) = happen e s in let (rest, last) = run events next in (out ++ rest, last)

abbrev pub spec_happen : Event → Waiting → List (Option ℕ) × Waiting
spec_happen (adds ref true) (high, low) = ([], (high, low ++ ref ∷ []))
spec_happen (adds ref false) (high, low) = ([], (high ++ ref ∷ [], low))
spec_happen (invalidates task_id) w = ([], w)
spec_happen fetches w = let (task, after) = next w in (task ∷ [], after)

abbrev pub spec_run : List Event → Waiting → List (Option ℕ) × Waiting
spec_run [] w = ([], w)
spec_run (e ∷ events) w =
    let (out, next) = spec_happen e w in
    let (rest, last) = spec_run events next in (out ++ rest, last)

abbrev pub Agrees : List (Option ℕ) × Waiting → List (Option ℕ) × State → Type 0
Agrees (out, w) (tasks, s) = (tasks ≡ out) × Queues s w

happen-Agrees :
    (e : Event) (s : State) (w : Waiting) → Queues s w → Agrees (spec_happen e w) (happen e s)
unfolding happen add_task invalidate_task
happen-Agrees (adds ref true) s (high, low) v =
    (refl, record { high = v.high; low = enqueue-Holds s.queue2 low ref v.low })
happen-Agrees (adds ref false) s (high, low) v =
    (refl, record { high = enqueue-Holds s.queue1 high ref v.high; low = v.low })
happen-Agrees (invalidates task_id) s (high, low) v = (refl, record { high = v.high; low = v.low })
happen-Agrees fetches s w v = let (e, q) = fetch-Fetches s w v in (ap (λ t. t ∷ []) e, q)

Agrees-then :
    (a : List (Option ℕ) × Waiting) (r : List (Option ℕ) × State) (b : List (Option ℕ) × Waiting)
    (t : List (Option ℕ) × State)
    → Agrees a r
    → Agrees b t
    → Agrees (a.0 ++ b.0, b.1) (r.0 ++ t.0, t.1)
Agrees-then a r b t (e, f) (g, h) = (ap₂ ◌++◌ e g, h)

-- In every sequence of events the thread takes the tasks that two plain lists give, and the queues
-- then hold what is left in the lists: a task of normal priority goes before all tasks of low
-- priority, tasks of one priority go in the order in which they were added, and none is lost or taken
-- twice, however often the rings have grown. Without a task the thread gets none.
pub run-spec_run :
    (events : List Event) (s : State) (w : Waiting)
    → Queues s w
    → Agrees (spec_run events w) (run events s)
unfolding run
run-spec_run [] s w v = (refl, v)
run-spec_run (e ∷ events) s w v =
    let first = happen-Agrees e s w v in
    Agrees-then (spec_happen e w) (happen e s) _ _ first
      (run-spec_run events (happen e s).1 (spec_happen e w).1 first.1)

abbrev pub rounds : ℕ → List Event
rounds zero = []
rounds (suc n) = fetches ∷ rounds n

low_drain :
    (low : List ℕ) → spec_run (rounds (length low)) ([], low) ≡ (map (λ r. some r) low, ([], []))
low_drain [] = refl
low_drain (ref ∷ low) =
    ap (λ (r : List (Option ℕ) × Waiting). (some ref ∷ r.0, r.1)) (low_drain low)

spec_drain :
    (high low : List ℕ)
    → spec_run (rounds (length high + length low)) (high, low)
      ≡ (map (λ r. some r) (high ++ low), ([], []))
spec_drain [] low =
    ap (λ n. spec_run (rounds n) ([], low)) {x = 0 + length low} {y = length low} (omega arith)
    ∙ low_drain low
spec_drain (ref ∷ high) low =
    ap (λ n. spec_run (rounds n) (ref ∷ high, low)) {x = suc (length high) + length low}
      {y = suc (length high + length low)} (omega arith)
    ∙ ap (λ (r : List (Option ℕ) × Waiting). (some ref ∷ r.0, r.1)) (spec_drain high low)

-- If no task is added, the thread takes every task that waits in as many rounds as there are tasks,
-- those of normal priority first, and then finds both queues empty.
pub run_drains :
    (s : State) (high low : List ℕ)
    → Queues s (high, low)
    → ((run (rounds (length high + length low)) s).0 ≡ map (λ r. some r) (high ++ low))
      × Queues (run (rounds (length high + length low)) s).1 ([], [])
run_drains s high low v =
    subst (λ r. Agrees r (run (rounds (length high + length low)) s)) (spec_drain high low)
      (run-spec_run (rounds (length high + length low)) s (high, low) v)
