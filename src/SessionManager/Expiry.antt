-- ===== src/SessionManager/Expiry.antt =====
-- The timer subscription, and which sessions a timeout check drops.
use gerber.Prelude.{
  ℕ, ◌≡◌, sym, ap, ◌∙◌, Bool, Bool-cases, inl, inr, List, [], ◌∷◌, ◌++◌, append_assoc, append-nil,
  Option-cases, arith, ltb, if◌then◌else◌, length,
}
use gerber.Zmm.Strings.{ZString}
use gerber.Session.{Session}
use gerber.SessionManager.{
  Manager, check_timer, get_session, remove_session, is_expired, expire_loop, timer_notify,
}

-- The manager is subscribed to the timer exactly while it has sessions.
abbrev pub IsTimed : Manager → Type 0
IsTimed m = m.timer_added ≡ ltb 0 (length m.sessions)

pub check_timer-IsTimed : (m : Manager) → IsTimed (check_timer m)
unfolding check_timer
check_timer-IsTimed m = ground arith

pub sessions-check_timer : (m : Manager) → (check_timer m).sessions ≡ m.sessions
unfolding check_timer
sessions-check_timer m = ground arith

-- The sessions that a check at time `now` keeps.
pub alive : ℕ → List Session → List Session
alive now [] = []
alive now (s ∷ sessions) = if is_expired now s then alive now sessions else s ∷ alive now sessions

loop-alive :
    (now : ℕ) (kept rest : List Session) (t : Bool)
    → (expire_loop now kept rest t).sessions ≡ kept ++ alive now rest
unfolding expire_loop alive
loop-alive now kept [] t = sym (append-nil kept)
loop-alive now kept (s ∷ rest) t = elim (Bool-cases (is_expired now s)) [
  | inl e ↦ rw (e, expire_loop) (loop-alive now kept rest _)
  | inr e ↦
      rw (e, expire_loop)
        (loop-alive now (kept ++ s ∷ []) rest t ∙ append_assoc kept (s ∷ []) (alive now rest))
]

loop-IsTimed :
    (now : ℕ) (kept rest : List Session) (t : Bool)
    → t ≡ ltb 0 (length (kept ++ rest))
    → IsTimed (expire_loop now kept rest t)
unfolding expire_loop
loop-IsTimed now kept [] t h = h ∙ ap (λ xs. ltb 0 (length xs)) (append-nil kept)
loop-IsTimed now kept (s ∷ rest) t h = elim (Bool-cases (is_expired now s)) [
  | inl e ↦
      rw (e, expire_loop)
        (loop-IsTimed now kept rest _
          (check_timer-IsTimed _ ∙ ap (λ xs. ltb 0 (length xs)) (sessions-check_timer _)))
  | inr e ↦
      rw (e, expire_loop)
        (loop-IsTimed now (kept ++ s ∷ []) rest t
          (h ∙ ap (λ xs. ltb 0 (length xs)) (sym (append_assoc kept (s ∷ []) rest))))
]

-- A timeout check keeps, in order, exactly the sessions whose last access is no more than a
-- thousand times `timeout` milliseconds ago.
pub sessions-timer_notify :
    (now : ℕ) (m : Manager) → (timer_notify now m).sessions ≡ alive now m.sessions
unfolding timer_notify
sessions-timer_notify now m = loop-alive now [] m.sessions m.timer_added

pub timer_notify-IsTimed : (now : ℕ) (m : Manager) → IsTimed m → IsTimed (timer_notify now m)
unfolding timer_notify
timer_notify-IsTimed now m h = loop-IsTimed now [] m.sessions m.timer_added h

pub remove_session-IsTimed :
    (id : ZString) (m : Manager) → IsTimed m → IsTimed (remove_session id m)
unfolding remove_session
remove_session-IsTimed id m h = elim (Option-cases (get_session id m)) [
  | inl e ↦ rw (e, remove_session) h
  | inr (s, e) ↦ rw (e, remove_session) (check_timer-IsTimed _)
]
