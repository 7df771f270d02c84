-- ===== src/Timer.antt =====
-- timer.h and timer.cc, `Timer`: who is notified, and when.
pub mod Subscribers
pub mod Notification
use gerber.Prelude.{
  ℕ, suc, ◌+◌, ◌*◌, ◌%◌, ◌^◌, Bool, true, false, not, ◌&&◌, List, [], ◌∷◌, ◌++◌, Option, none, some,
  ltb, leb, ◌==◌, if◌then◌else◌,
}
use gerber.Prelude.Int.{ℤ, pos, ltb_ℤ}
use gerber.Tools.Clock.{Timespec, get_delta_millis, get_timespec_after_millis}

-- `TimerSubscriberElement`; the subscriber and its parameter are pointers.
pub record Element : Type 0 where
  pub subscriber : ℕ
  pub notify_interval : ℕ
  pub parameter : ℕ
  pub next_notify : Timespec
  pub once : Bool

-- `updateNextNotify`, at time `now`; the product is one of unsigned ints.
unfoldable pub update_next_notify : Timespec → Element → Element
update_next_notify now e = record e {
  next_notify = get_timespec_after_millis (e.notify_interval * 1000 % 2 ^ 32) now;
}

unfoldable pub make_element : ℕ → ℕ → ℕ → Bool → Timespec → Element
make_element subscriber interval parameter once now = update_next_notify now (record {
  subscriber = subscriber;
  notify_interval = interval;
  parameter = parameter;
  next_notify = now;
  once = once;
})

-- `operator==`.
unfoldable pub same : Element → Element → Bool
same e f = e.subscriber == f.subscriber && e.parameter == f.parameter

unfoldable pub contains : Element → List Element → Bool
contains e [] = false
contains e (f ∷ subscribers) = if same f e then true else contains e subscribers

-- `addTimerSubscriber`; `none` is an exception.
unfoldable pub add_timer_subscriber :
    Timespec → ℕ → ℕ → ℕ → Bool → List Element → Option (List Element)
add_timer_subscriber now subscriber interval parameter once subscribers =
    let e = make_element subscriber interval parameter once now in
    if interval == 0
    then none
    else if contains e subscribers
    then none
    else some (subscribers ++ e ∷ [])

-- `std::find` and `erase`.
unfoldable pub erase : Element → List Element → List Element
erase e [] = []
erase e (f ∷ subscribers) = if same f e then subscribers else f ∷ erase e subscribers

-- `removeTimerSubscriber`.
unfoldable pub remove_timer_subscriber :
    Timespec → ℕ → ℕ → Bool → List Element → Option (List Element)
remove_timer_subscriber now subscriber parameter dont_fail subscribers =
    let e = make_element subscriber 0 parameter false now in
    if contains e subscribers
    then some (erase e subscribers)
    else if dont_fail
    then some subscribers
    else none

-- `wait <= 0`.
unfoldable pub is_due : Timespec → Element → Bool
is_due now e = not (ltb_ℤ (pos 0) (get_delta_millis now e.next_notify))

-- What the loop of `notify` keeps of an element, the clock being at `now` and then at `later`.
unfoldable pub kept : Timespec → Timespec → Element → List Element
kept now later e =
    if is_due now e then (if e.once then [] else update_next_notify later e ∷ []) else e ∷ []

-- `notify`: who is notified, and the subscribers that stay. The clock stands at `now k` when
-- element `k` is looked at, and at `later k` when its next time is set.
unfoldable pub notify_loop :
    (ℕ → Timespec) → (ℕ → Timespec) → ℕ → List Element → List Element × List Element
notify_loop now later k [] = ([], [])
notify_loop now later k (e ∷ subscribers) =
    let rest = notify_loop now later (k + 1) subscribers in
    (if is_due (now k) e then e ∷ rest.0 else rest.0, kept (now k) (later k) e ++ rest.1)

-- `getNextNotifyTime`; `none` is the null pointer.
unfoldable pub sooner : Option Timespec → List Element → Option Timespec
sooner next [] = next
sooner none (e ∷ subscribers) = sooner (some e.next_notify) subscribers
sooner (some t) (e ∷ subscribers) =
    sooner (some (if ltb_ℤ (get_delta_millis t e.next_notify) (pos 0) then e.next_notify else t))
      subscribers

unfoldable pub get_next_notify_time : List Element → Option Timespec
get_next_notify_time subscribers = sooner none subscribers

-- The start of a round of `triggerWait`: the milliseconds that it waits, from 1, or `none`.
unfoldable pub wait_for : Timespec → Timespec → Option ℤ
wait_for now timeout =
    let wait = get_delta_millis now timeout in if ltb_ℤ (pos 0) wait then some wait else none
