-- ===== src/Tests/Events.antt =====
-- The events, the sessions and the timer at concrete inputs.
use gerber.Prelude.{
  ℕ, ◌+◌, ◌≡◌, ◌≢◌, ◌⊎◌, refl, true, false, List, [], ◌∷◌, ◌++◌, none, some, arith,
}
use gerber.Prelude.Int.{ℤ, pos, member}
use gerber.Zmm.Strings.{Bytes, c_str, equals}
use gerber.Session
use gerber.Session.{Session, container_changed, containers_changed, get_ui_update_ids}
use gerber.Session.Pending.{IsBounded}
use gerber.SessionManager.{
  Manager, timer_notify, find_session, get_session, fresh_id, opened, create_session, check_timer,
}
use gerber.SessionManager.Expiry.{alive, sessions-timer_notify}
use gerber.SessionManager.Creation.{
  IsDistinct, Creates, create_session-Creates, create_session_fails,
}
use gerber.UpdateManager
use gerber.UpdateManager.{State, have_updates}
use gerber.UpdateManager.Delivery.{IsCached, Run, container_changed-told}
use gerber.UpdateManager.Interleaved.{told_meanwhile, containers_changed-told}
use gerber.Tools.Clock.{Timespec}
use gerber.Timer
use gerber.Timer.{
  Element, make_element, update_next_notify, contains, add_timer_subscriber,
  remove_timer_subscriber, notify_loop,
}
use gerber.Timer.Subscribers
use gerber.Timer.Subscribers.{remove_timer_subscriber-add_timer_subscriber}
use gerber.Timer.Notification.{Notifies, find, notify_loop-Notifies}

-- Container 5 is pending.
abbrev session : Session
session = record (Session.make 2 1000) { logged_in = true; ui_update_ids = pos 5 ∷ [] }

session-IsBounded : IsBounded session
unfolding Session.make
session-IsBounded = record { few = omega arith; none_beside = λ e. absurd cc }

-- The first session was last used at 1000 ms, with a timeout of 2, the second at 9000 ms.
abbrev manager : Manager
manager = record {
  sessions = session ∷ record (Session.make 2 9000) { session_id = some (97 ∷ []) } ∷ [];
  timer_added = true;
}

sessions-timer_notify_example : (timer_notify 9500 manager).sessions ≡ alive 9500 manager.sessions
sessions-timer_notify_example = sessions-timer_notify 9500 manager

manager-IsDistinct : IsDistinct manager.sessions
unfolding Session.make find_session equals c_str
manager-IsDistinct = (refl, (refl, tt))

-- The first random id is taken.
abbrev random : ℕ → Bytes
random k = (97 + k) ∷ []

abbrev created : Session × Manager
created =
    let s = record (Session.make 3 9500) { session_id = some (98 ∷ []) } in
    (s, record manager { sessions = manager.sessions ++ s ∷ [] })

a_session : create_session 3 9500 random manager ≡ some created
unfolding create_session opened fresh_id get_session find_session equals c_str check_timer
    Session.make
a_session = refl

create_session-Creates_example : Creates manager created.0 created.1
create_session-Creates_example =
    create_session-Creates 3 9500 random manager created.0 created.1 manager-IsDistinct a_session

-- Every random id is taken.
abbrev not_random : ℕ → Bytes
not_random k = 97 ∷ []

no_session : create_session 3 9500 not_random manager ≡ none
unfolding create_session opened fresh_id get_session find_session equals c_str Session.make
no_session = refl

create_session_fails_example : get_session (some (not_random 100)) manager ≢ none
create_session_fails_example =
    create_session_fails 3 9500 not_random manager 100 no_session (omega arith)

-- Container 5 waits, and is cached.
abbrev waiting : State
waiting = record { object_ids = pos 5 ∷ []; flush_policy = 1; last_container_changed = pos 5 }

waiting-IsCached : IsCached waiting
waiting-IsCached n = refl

abbrev sent : State
sent = (UpdateManager.send false (UpdateManager.container_changed (pos 7) 1 waiting).0).0

to_sent :
    Run
      (UpdateManager.container_changed (pos 7) 1 waiting).0
      ((UpdateManager.send false (UpdateManager.container_changed (pos 7) 1 waiting).0).1 ++ [])
      sent
to_sent = Run.sending false Run.done

container_changed-told_example :
    ((member
          (pos 7)
          ((UpdateManager.send false (UpdateManager.container_changed (pos 7) 1 waiting).0).1 ++ [])
        ≡ true)
      ⊎ (member (pos 7) sent.object_ids ≡ true))
    × (have_updates waiting ≡ false → (UpdateManager.container_changed (pos 7) 1 waiting).1 ≡ true)
container_changed-told_example =
    container_changed-told (pos 7) 1 waiting sent _ (ground arith) waiting-IsCached to_sent

abbrev others : ℕ → State → State
others k s = (UpdateManager.send false s).0

abbrev log : ℕ → State → List ℤ
log k s = (UpdateManager.send false s).1 ++ []

runs : (k : ℕ) (s : State) → Run s (log k s) (others k s)
runs k s = Run.sending false Run.done

abbrev two_ids : List ℤ
two_ids = pos 7 ∷ pos 5 ∷ []

containers_changed-told_example :
    (member (pos 5) (told_meanwhile others log runs two_ids 2 waiting) ≡ true)
    ⊎ (member (pos 5) [] ≡ true)
    ⊎ (member
          (pos 5)
          (UpdateManager.containers_changed others (some two_ids) 2 waiting).0.object_ids
        ≡ true)
containers_changed-told_example =
    containers_changed-told others log runs two_ids 2 (pos 5) waiting
      (UpdateManager.containers_changed others (some two_ids) 2 waiting).0 [] (ground arith)
      waiting-IsCached refl Run.done

abbrev noon : Timespec
noon = record { tv_sec = 43200; tv_nsec = 999000000 }

abbrev first : Element
first = make_element 1 60 0 false noon

abbrev second : Element
second = make_element 1 60 7 true noon

second_added : add_timer_subscriber noon 1 60 7 true (first ∷ []) ≡ some (first ∷ second ∷ [])
unfolding add_timer_subscriber make_element contains update_next_notify Timer.same
second_added = refl

both-IsDistinct : Subscribers.IsDistinct (first ∷ second ∷ [])
unfolding make_element contains update_next_notify Timer.same
both-IsDistinct = (refl, (refl, tt))

second_found : find second (first ∷ second ∷ []) ≡ some second
unfolding make_element update_next_notify Timer.same
second_found = refl

abbrev evening : ℕ → Timespec
evening k = record { tv_sec = 72000; tv_nsec = k }

notify_loop-Notifies_example :
    Notifies evening evening second second
      (notify_loop evening evening 0 (first ∷ second ∷ [])).0
      (notify_loop evening evening 0 (first ∷ second ∷ [])).1
notify_loop-Notifies_example =
    notify_loop-Notifies evening evening 0 second second (first ∷ second ∷ []) both-IsDistinct
      second_found
