-- ===== src/SessionManager/Creation.antt =====
-- The ids that `createSession` gives.
use gerber.Prelude.{
  ℕ, zero, suc, ◌+◌, ◌≤◌, ◌<◌, ◌≡◌, ◌≢◌, refl, sym, ap, subst, List, [], ◌∷◌, ◌++◌, Option, none,
  some, arith, if◌then◌else◌,
}
use gerber.Zmm.Strings.{Bytes, ZString, equals}
use gerber.Dictionary.Lookup.{equals_iff}
use gerber.Session.{Session, make}
use gerber.SessionManager.{
  Manager, check_timer, find_session, get_session, fresh_id, opened, create_session,
}
use gerber.SessionManager.Expiry.{IsTimed, check_timer-IsTimed, sessions-check_timer}

-- No two sessions have the same id.
abbrev pub IsDistinct : List Session → Type 0
IsDistinct [] = Unit {0}
IsDistinct (s ∷ ss) = (find_session s.session_id ss ≡ none) × IsDistinct ss

find-append :
    (id : ZString) (ss : List Session) (t : Session)
    → find_session id ss ≡ none
    → find_session id (ss ++ t ∷ []) ≡ (if equals t.session_id id then some t else none)
unfolding find_session
find-append id [] t h = refl
find-append id (s ∷ ss) t h = ground (arith, find-append id ss t)

append-IsDistinct :
    (ss : List Session) (t : Session)
    → IsDistinct ss
    → find_session t.session_id ss ≡ none
    → IsDistinct (ss ++ t ∷ [])
unfolding find_session
append-IsDistinct [] t h f = (refl, tt)
append-IsDistinct (s ∷ ss) t h f = ground (
  arith,
  find-append s.session_id ss t,
  append-IsDistinct ss t h.1,
  equals_iff s.session_id t.session_id,
  equals_iff t.session_id s.session_id,
)

-- An id that the loop gives is one of the first 101 random ones, and no session has it.
fresh_id_lem :
    (fuel : ℕ) (random : ℕ → Bytes) (count : ℕ) (m : Manager) (id : Bytes)
    → fresh_id fuel random count m ≡ some id
    → get_session (some id) m ≡ none
unfolding fresh_id
fresh_id_lem zero random count m id h = cc
fresh_id_lem (suc fuel) random count m id h =
    ground (arith, fresh_id_lem fuel random (count + 1) m id)

-- It gives up only when all of the ids up to the 101st are taken.
fresh_id_fails :
    (fuel : ℕ) (random : ℕ → Bytes) (count k : ℕ) (m : Manager)
    → 101 < fuel + count
    → fresh_id fuel random count m ≡ none
    → count ≤ k
    → k ≤ 100
    → get_session (some (random k)) m ≢ none
unfolding fresh_id
fresh_id_fails zero random count k m f h p q = absurd (omega arith)
fresh_id_fails (suc fuel) random count k m f h p q =
    ground (arith, fresh_id_fails fuel random (count + 1) k m, ap random {x = k} {y = count})

-- A new session has an id that no session had; it is appended, the ids stay distinct, and the
-- timer runs.
pub record Creates (m : Manager) (s : Session) (n : Manager) : Type 0 where
  pub fresh : get_session s.session_id m ≡ none
  pub appended : n.sessions ≡ m.sessions ++ s ∷ []
  pub distinct : IsDistinct n.sessions
  pub on_timer : IsTimed n

abbrev new_session : ℕ → ℕ → Bytes → Session
new_session timeout now id = record (make timeout now) { session_id = some id }

created :
    (timeout now : ℕ) (m : Manager) (id : Bytes)
    → IsDistinct m.sessions
    → get_session (some id) m ≡ none
    → let s = new_session timeout now id in
      Creates m s (check_timer (record m { sessions = m.sessions ++ s ∷ [] }))
created timeout now m id d e =
    let s = new_session timeout now id in
    let m' : Manager = record m { sessions = m.sessions ++ s ∷ [] } in
    record {
      fresh = e;
      appended = sessions-check_timer m';
      distinct =
          subst IsDistinct (sym (sessions-check_timer m'))
            (append-IsDistinct m.sessions s d (unfold get_session in e));
      on_timer = check_timer-IsTimed m';
    }

opened-Creates :
    (timeout now : ℕ) (found : Option Bytes) (m : Manager) (s : Session) (n : Manager)
    → IsDistinct m.sessions
    → ((id : Bytes) → found ≡ some id → get_session (some id) m ≡ none)
    → opened timeout now found m ≡ some (s, n)
    → Creates m s n
unfolding opened
opened-Creates timeout now none m s n d f h = absurd cc
opened-Creates timeout now (some id) m s n d f h =
    subst (λ (p : Session × Manager). Creates m p.0 p.1) (cc)
      (created timeout now m id d (f id refl))

opened_fails :
    (timeout now : ℕ) (found : Option Bytes) (m : Manager)
    → opened timeout now found m ≡ none
    → found ≡ none
unfolding opened
opened_fails timeout now none m h = refl
opened_fails timeout now (some id) m h = absurd cc

-- A session that `createSession` gives has an id that no session had. It is appended, the ids stay
-- distinct, and the manager is subscribed to the timer.
pub create_session-Creates :
    (timeout now : ℕ) (random : ℕ → Bytes) (m : Manager) (s : Session) (n : Manager)
    → IsDistinct m.sessions
    → create_session timeout now random m ≡ some (s, n)
    → Creates m s n
create_session-Creates timeout now random m s n d h =
    opened-Creates timeout now (fresh_id 102 random 0 m) m s n d (fresh_id_lem 102 random 0 m)
      (unfold create_session in h)

-- `createSession` fails only when each of the first 101 random ids belongs to a session.
pub create_session_fails :
    (timeout now : ℕ) (random : ℕ → Bytes) (m : Manager) (k : ℕ)
    → create_session timeout now random m ≡ none
    → k ≤ 100
    → get_session (some (random k)) m ≢ none
create_session_fails timeout now random m k h p =
    fresh_id_fails 102 random 0 k m (omega arith)
      (opened_fails timeout now (fresh_id 102 random 0 m) m (unfold create_session in h))
      (omega arith) p
