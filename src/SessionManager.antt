-- ===== src/SessionManager.antt =====
-- session_manager.cc, `SessionManager`: the table of sessions and its timeout.
pub mod Expiry
pub mod Creation
use gerber.Prelude.{
  ℕ, zero, suc, ◌+◌, ◌*◌, Bool, true, false, not, ◌&&◌, List, [], ◌∷◌, ◌++◌, Option, none, some,
  ltb, ◌==◌, if◌then◌else◌, length,
}
use gerber.Prelude.Int.{ℤ}
use gerber.Zmm.Strings.{Bytes, ZString, equals}
use gerber.Session.{Session, make, container_changed, containers_changed}

-- `SessionManager`: its sessions, and whether it subscribed to the timer.
pub record Manager : Type 0 where
  pub sessions : List Session
  pub timer_added : Bool

-- `checkTimer`.
unfoldable pub check_timer : Manager → Manager
check_timer m =
    if ltb 0 (length m.sessions) && not m.timer_added
    then record m { timer_added = true }
    else if length m.sessions == 0 && m.timer_added
    then record m { timer_added = false }
    else m

unfoldable pub find_session : ZString → List Session → Option Session
find_session id [] = none
find_session id (s ∷ sessions) = if equals s.session_id id then some s else find_session id sessions

unfoldable pub get_session : ZString → Manager → Option Session
unfolding find_session
get_session id m = find_session id m.sessions

-- The loop of `createSession`; `random k` is what the `k`-th call of `generate_random_id` gives.
-- `none` is the exception of round 101, whatever its id.
unfoldable pub fresh_id : ℕ → (ℕ → Bytes) → ℕ → Manager → Option Bytes
fresh_id zero random count m = none
fresh_id (suc fuel) random count m =
    let again = fresh_id fuel random (count + 1) m in
    if ltb 100 count
    then none
    else elim (get_session (some (random count)) m) [ none ↦ some (random count) | some s ↦ again ]

-- What `createSession` does with the id that its loop gave.
unfoldable pub opened : ℕ → ℕ → Option Bytes → Manager → Option (Session × Manager)
opened timeout now none m = none
opened timeout now (some id) m =
    let s = record (make timeout now) { session_id = some id } in
    some (s, check_timer (record m { sessions = m.sessions ++ s ∷ [] }))

-- `createSession`, at time `now`.
unfoldable pub create_session : ℕ → ℕ → (ℕ → Bytes) → Manager → Option (Session × Manager)
create_session timeout now random m = opened timeout now (fresh_id 102 random 0 m) m

unfoldable pub without : ZString → List Session → List Session
without id [] = []
without id (s ∷ sessions) = if equals s.session_id id then sessions else s ∷ without id sessions

-- `removeSession`: the first session of that id goes, and the timer is looked after.
unfoldable pub remove_session : ZString → Manager → Manager
remove_session id m = elim (get_session id m) [
  | none ↦ m
  | some s ↦ check_timer (record m { sessions = without id m.sessions })
]

-- `containerChangedUI` of the manager: every session that is logged in is told.
unfoldable pub tell : (Session → Session) → List Session → List Session
tell f [] = []
tell f (s ∷ sessions) = (if s.logged_in then f s else s) ∷ tell f sessions

unfoldable pub manager_container_changed : ℤ → Manager → Manager
manager_container_changed id m = record m { sessions = tell (container_changed id) m.sessions }

unfoldable pub manager_containers_changed : Option (List ℤ) → Manager → Manager
manager_containers_changed new m = record m { sessions = tell (containers_changed new) m.sessions }

-- `getDeltaMillis(last_access, &now) > 1000 * getTimeout()`, on times in whole milliseconds. The
-- source subtracts two timespecs and cuts the nanoseconds of the difference off.
unfoldable pub is_expired : ℕ → Session → Bool
is_expired now s = ltb (s.last_access + 1000 * s.timeout) now

-- The loop of `timerNotify`: `kept` stands before the session that is looked at, `rest` behind.
unfoldable pub expire_loop : ℕ → List Session → List Session → Bool → Manager
expire_loop now kept [] timer_added = record { sessions = kept; timer_added = timer_added }
expire_loop now kept (s ∷ rest) timer_added =
    let dropped = check_timer (record { sessions = kept ++ rest; timer_added = timer_added }) in
    expire_loop now (if is_expired now s then kept else kept ++ s ∷ []) rest
      (if is_expired now s then dropped.timer_added else timer_added)

unfoldable pub timer_notify : ℕ → Manager → Manager
timer_notify now m = expire_loop now [] m.sessions m.timer_added
