-- ===== src/Tests/Tasks.antt =====
-- Task queues, sorting and escaping at concrete inputs.
use mathlib.Core.Option
use gerber.Prelude.{
  ℕ, ◌+◌, ◌-◌, ◌≤◌, ◌≡◌, refl, Bool, true, false, List, [], ◌∷◌, ◌++◌, map, Option, none, some,
  arith, length,
}
use gerber.Prelude.Int.{ℤ, sub_ℕ}
use gerber.Zmm.Queue
use gerber.Zmm.Queue.Fifo.{to_list, make-IsRing}
use gerber.Prelude.Ring.{tabulate}
use gerber.ContentManager.{State, invalidate_task, get_tasklist}
use gerber.ContentManager.Order.{
  Holds, Queues, Event, adds, fetches, run, spec_run, Agrees, rounds, run-spec_run, run_drains,
}
use gerber.ContentManager.Invalidation.{among, marked, known, invalidate_task-marked}
use gerber.ContentManager.Listing.{listed, with_queues, get_tasklist_lem}
use gerber.Tools.Sorting.{quicksort}
use gerber.Tools.Sorting.Moves.{count}
use gerber.Tools.Sorting.Sorted.{IsOrder, IsSorted, quicksort-Sorts}
use gerber.Tools.Escape.{backslash, escape, unescape}
use gerber.Tools.Escape.RoundTrip.{unescape-escape}

abbrev no_tasks : Queue.Queue (Option ℕ)
no_tasks = Queue.make (λ k. none) 20 none

no_tasks-Holds : Holds no_tasks []
unfolding Queue.make Queue.size to_list tabulate
no_tasks-Holds = record {
  ring = make-IsRing (λ k. none) 20 none (omega arith);
  empty = refl;
  elements = refl;
}

abbrev idle : State
idle = record {
  heap = λ r. record { id = 0; parent_id = 0; valid = true };
  queue1 = no_tasks;
  queue2 = no_tasks;
  current = none;
  task_id = 1;
}

idle-Queues : Queues idle ([], [])
idle-Queues = record { high = no_tasks-Holds; low = no_tasks-Holds }

-- A task of low priority and two of normal priority, of which one is taken.
abbrev events : List Event
events = adds 7 true ∷ adds 8 false ∷ adds 9 false ∷ fetches ∷ []

run-spec_run_example : Agrees (spec_run events ([], [])) (run events idle)
run-spec_run_example = run-spec_run events idle ([], []) idle-Queues

abbrev busy : State
busy = (run events idle).1

busy-Queues : Queues busy (9 ∷ [], 7 ∷ [])
busy-Queues = (run-spec_run events idle ([], []) idle-Queues).1

abbrev waiting1 : List ℕ
waiting1 = 9 ∷ []

abbrev waiting2 : List ℕ
waiting2 = 7 ∷ []

run_drains_example :
    ((run (rounds (length waiting1 + length waiting2)) busy).0
      ≡ map (λ r. some r) (waiting1 ++ waiting2))
    × Queues (run (rounds (length waiting1 + length waiting2)) busy).1 ([], [])
run_drains_example = run_drains busy waiting1 waiting2 busy-Queues

invalidate_task-marked_example :
    (invalidate_task 3 busy).heap 9
    ≡ marked 3 (among 9 (known busy (9 ∷ []) (7 ∷ []))) (busy.heap 9)
invalidate_task-marked_example = invalidate_task-marked 3 busy (9 ∷ []) (7 ∷ []) busy-Queues 9

get_tasklist_lem_example :
    get_tasklist none busy
    ≡ Option.map (with_queues busy (9 ∷ []) (7 ∷ [])) (listed none busy.current)
get_tasklist_lem_example = get_tasklist_lem none busy (9 ∷ []) (7 ∷ []) busy-Queues

-- Numbers by their difference.
abbrev difference : ℕ → ℕ → ℤ
difference = sub_ℕ

difference-IsOrder : IsOrder difference
difference-IsOrder = record { total = λ x y h. ground arith; trans = λ x y z h k. ground arith }

abbrev falling : ℕ → ℕ
falling k = 5 - k

quicksort-Sorts_example :
    (b : ℕ → ℕ) × (quicksort difference falling 4 ≡ some b)
    × IsSorted difference 0 4 b
    × ((p : ℕ → Bool) → count p 4 b ≡ count p 4 falling)
    × ((k : ℕ) → 4 ≤ k → b k ≡ falling k)
quicksort-Sorts_example = quicksort-Sorts difference difference-IsOrder falling 4

-- "a/\".
unescape-escape_example :
    unescape (escape (b'a' ∷ b'/' ∷ backslash ∷ []) backslash b'/') backslash
    ≡ b'a' ∷ b'/' ∷ backslash ∷ []
unescape-escape_example =
    unescape-escape (b'a' ∷ b'/' ∷ backslash ∷ []) b'/' (omega arith) (ground arith)
