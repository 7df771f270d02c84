-- ===== src/Timer/Subscribers.antt =====
-- The subscribers of the timer.
use gerber.Prelude.{
  ℕ, ◌+◌, ◌≡◌, refl, sym, ◌∙◌, true, false, Bool, List, [], ◌∷◌, ◌++◌, some, arith, ==_iff,
}
use gerber.Tools.Clock.{Timespec}
use gerber.Timer.{
  Element, update_next_notify, make_element, same, contains, add_timer_subscriber, erase,
  remove_timer_subscriber, kept, notify_loop,
}

-- No subscriber stands there twice with the same parameter.
abbrev pub IsDistinct : List Element → Type 0
IsDistinct [] = Unit {0}
IsDistinct (e ∷ es) = (contains e es ≡ false) × IsDistinct es

pub same_iff :
    (e f : Element) → same e f ≡ true → (e.subscriber ≡ f.subscriber) × (e.parameter ≡ f.parameter)
unfolding same
same_iff e f h = ground (arith, ==_iff e.subscriber f.subscriber, ==_iff e.parameter f.parameter)

pub same_refl :
    (e f : Element) → e.subscriber ≡ f.subscriber → e.parameter ≡ f.parameter → same e f ≡ true
unfolding same
same_refl e f p q = ground (arith, ==_iff e.subscriber f.subscriber, ==_iff e.parameter f.parameter)

pub same_eq :
    (d e f : Element)
    → e.subscriber ≡ f.subscriber
    → e.parameter ≡ f.parameter
    → same d e ≡ same d f
unfolding same
same_eq d e f p q = rw (p, q) refl

erase-append :
    (e f : Element) (es : List Element)
    → e.subscriber ≡ f.subscriber
    → e.parameter ≡ f.parameter
    → contains e es ≡ false
    → (contains f (es ++ e ∷ []) ≡ true) × (erase f (es ++ e ∷ []) ≡ es)
unfolding contains erase
erase-append e f [] p q h = rw (same_refl e f p q) (refl, refl)
erase-append e f (d ∷ es) p q h = ground (arith, erase-append e f es p q, same_eq d e f p q)

added :
    (now : Timespec) (subscriber interval parameter : ℕ) (once : Bool) (before after : List Element)
    → add_timer_subscriber now subscriber interval parameter once before ≡ some after
    → let e = make_element subscriber interval parameter once now in
      (contains e before ≡ false) × (after ≡ before ++ e ∷ [])
unfolding add_timer_subscriber
added now subscriber interval parameter once before after h = ground arith

pointers :
    (subscriber interval parameter : ℕ) (once : Bool) (now : Timespec)
    → ((make_element subscriber interval parameter once now).subscriber ≡ subscriber)
      × ((make_element subscriber interval parameter once now).parameter ≡ parameter)
unfolding make_element update_next_notify
pointers subscriber interval parameter once now = (refl, refl)

-- A subscription that is added and then removed leaves the subscribers as they were.
pub remove_timer_subscriber-add_timer_subscriber :
    (now then_now : Timespec) (subscriber interval parameter : ℕ) (once dont_fail : Bool)
    (before after : List Element)
    → add_timer_subscriber now subscriber interval parameter once before ≡ some after
    → remove_timer_subscriber then_now subscriber parameter dont_fail after ≡ some before
unfolding remove_timer_subscriber
remove_timer_subscriber-add_timer_subscriber now then_now subscriber interval parameter once
      dont_fail before after h =
    let e = make_element subscriber interval parameter once now in
    let f = make_element subscriber 0 parameter false then_now in
    let (absent, shape) = added now subscriber interval parameter once before after h in
    let pe = pointers subscriber interval parameter once now in
    let pf = pointers subscriber 0 parameter false then_now in
    let (found, back) = erase-append e f before (pe.0 ∙ sym pf.0) (pe.1 ∙ sym pf.1) absent in
    rw (shape, found, back) refl

pub update_same :
    (d e : Element) (t : Timespec)
    → (same d (update_next_notify t e) ≡ same d e) × (same (update_next_notify t e) d ≡ same e d)
unfolding update_next_notify same
update_same d e t = (refl, refl)

pub contains_update :
    (e : Element) (t : Timespec) (es : List Element)
    → contains (update_next_notify t e) es ≡ contains e es
unfolding contains
contains_update e t [] = refl
contains_update e t (d ∷ es) = ground (arith, contains_update e t es, update_same d e t)

-- The two lists of a round of `notify` have the elements that it came with: one that it keeps or
-- notifies is one of them.
pub notify_absent :
    (now later : ℕ → Timespec) (k : ℕ) (d : Element) (es : List Element)
    → contains d es ≡ false
    → contains d (notify_loop now later k es).1 ≡ false
unfolding contains notify_loop kept
notify_absent now later k d [] h = refl
notify_absent now later k d (e ∷ es) h =
    ground (arith, notify_absent now later (k + 1) d es, update_same d e (later k))

pub notify_loop-IsDistinct :
    (now later : ℕ → Timespec) (k : ℕ) (es : List Element)
    → IsDistinct es
    → IsDistinct (notify_loop now later k es).1
unfolding notify_loop kept
notify_loop-IsDistinct now later k [] v = tt
notify_loop-IsDistinct now later k (e ∷ es) v = ground (
  arith,
  notify_loop-IsDistinct now later (k + 1) es v.1,
  notify_absent now later (k + 1) e es v.0,
  contains_update e (later k) (notify_loop now later (k + 1) es).1,
)
