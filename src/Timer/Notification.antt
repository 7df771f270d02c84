-- ===== src/Timer/Notification.antt =====
-- What a round of `notify` does with each subscriber.
use gerber.Prelude.{
  ℕ, ◌+◌, ◌≡◌, refl, ◌∙◌, true, false, Bool-cases, inl, inr, List, [], ◌∷◌, Option, none, some,
  arith, if◌then◌else◌,
}
use gerber.Tools.Clock.{Timespec}
use gerber.Timer.{Element, update_next_notify, same, contains, is_due, kept, notify_loop}
use gerber.Timer.Subscribers.{IsDistinct, same_iff, same_eq, update_same, notify_absent}

-- The element of a subscriber and a parameter.
abbrev pub find : Element → List Element → Option Element
find d [] = none
find d (e ∷ es) = if same e d then some e else find d es

told_absent :
    (now later : ℕ → Timespec) (k : ℕ) (d : Element) (es : List Element)
    → contains d es ≡ false
    → contains d (notify_loop now later k es).0 ≡ false
unfolding contains notify_loop
told_absent now later k d [] h = refl
told_absent now later k d (e ∷ es) h = ground (arith, told_absent now later (k + 1) d es)

contains-same :
    (d e : Element) (es : List Element) → same e d ≡ true → contains e es ≡ contains d es
unfolding contains
contains-same d e [] h = refl
contains-same d e (f ∷ es) h =
    ground (arith, contains-same d e es h, same_eq f e d (same_iff e d h).0 (same_iff e d h).1)

find_absent : (d : Element) (es : List Element) → contains d es ≡ false → find d es ≡ none
unfolding contains
find_absent d [] h = refl
find_absent d (e ∷ es) h = ground (arith, find_absent d es)

-- What becomes of an element that is looked at when the clock stands at `now`.
abbrev pub next : Timespec → Timespec → Element → Option Element
next now later e =
    if is_due now e then (if e.once then none else some (update_next_notify later e)) else some e

-- Element `e` of subscriber and parameter `d` was looked at in step `k`: it is notified just if it
-- was due, and then goes if it was subscribed once, and has a new time otherwise.
pub record Notifies (now later : ℕ → Timespec) (d e : Element) (told es : List Element)
    : Type 0 where
  pub step : ℕ
  pub notified : contains d told ≡ is_due (now step) e
  pub left : find d es ≡ next (now step) (later step) e

other_told :
    (now later : ℕ → Timespec) (k : ℕ) (d f : Element) (es : List Element)
    → same f d ≡ false
    → contains d (notify_loop now later k (f ∷ es)).0
      ≡ contains d (notify_loop now later (k + 1) es).0
unfolding contains notify_loop
other_told now later k d f es p = ground arith

other_left :
    (now later : ℕ → Timespec) (k : ℕ) (d f : Element) (es : List Element)
    → same f d ≡ false
    → find d (notify_loop now later k (f ∷ es)).1 ≡ find d (notify_loop now later (k + 1) es).1
unfolding notify_loop kept
other_left now later k d f es p = ground (arith, update_same d f (later k))

-- Each subscriber is notified in a round of `notify` just if it was due when it was looked at. One
-- that was due then goes if it was subscribed once, and has a new time otherwise; the others stay
-- as they were.
pub notify_loop-Notifies :
    (now later : ℕ → Timespec) (k : ℕ) (d e : Element) (es : List Element)
    → IsDistinct es
    → find d es ≡ some e
    → Notifies now later d e (notify_loop now later k es).0 (notify_loop now later k es).1
unfolding contains notify_loop kept
notify_loop-Notifies now later k d e [] v h = absurd cc
notify_loop-Notifies now later k d e (f ∷ es) v h = elim (Bool-cases (same f d)) [
  | inl p ↦
      let gone = contains-same d f es p in
      record {
        step = k;
        notified = ground (arith, told_absent now later (k + 1) d es);
        left = ground (
          arith,
          find_absent d (notify_loop now later (k + 1) es).1,
          notify_absent now later (k + 1) d es,
          update_same d f (later k),
        );
      }
  | inr p ↦
      let r = notify_loop-Notifies now later (k + 1) d e es v.1 (ground arith) in
      record {
        step = r.step;
        notified = other_told now later k d f es p ∙ r.notified;
        left = other_left now later k d f es p ∙ r.left;
      }
]
