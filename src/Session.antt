-- ===== src/Session.antt =====
-- session_manager.h and session_manager.cc: the sessions of the web UI.
pub mod Pending
use gerber.Prelude.{
  zero, suc, ◌*◌, ◌++◌, ◌&&◌, ◌==◌, ℕ, ◌+◌, ◌≡◌, Bool, true, false, not, List, [], ◌∷◌, Option,
  none, some, ltb, leb, if◌then◌else◌, length,
}
use gerber.Prelude.Int.{ℤ, negsuc, ◌==ℤ◌, insert}
use gerber.Zmm.Strings.{Bytes, ZString, equals}

-- `MAX_UI_UPDATE_IDS`.
abbrev pub max_ui_update_ids : ℕ
max_ui_update_ids = 10

-- `INVALID_OBJECT_ID`, -333.
abbrev pub invalid_object_id : ℤ
invalid_object_id = negsuc 332

-- `Session`, without the strings of its `Dictionary_r`; `last_access` counts milliseconds.
pub record Session : Type 0 where
  pub timeout : ℕ
  pub last_access : ℕ
  pub session_id : ZString
  pub logged_in : Bool
  pub update_all : Bool
  pub ui_update_ids : List ℤ

-- The constructor, at time `now`.
unfoldable pub make : ℕ → ℕ → Session
make timeout now = record {
  timeout = timeout;
  last_access = now;
  session_id = none;
  logged_in = false;
  update_all = false;
  ui_update_ids = [];
}

-- `containerChangedUI(int)`; the test of `updateAll` is repeated under the lock.
unfoldable pub container_changed : ℤ → Session → Session
container_changed object_id s =
    if object_id ==ℤ invalid_object_id
    then s
    else if s.update_all
    then s
    else if leb max_ui_update_ids (length s.ui_update_ids)
    then record s { update_all = true; ui_update_ids = [] }
    else record s { ui_update_ids = insert object_id s.ui_update_ids }

unfoldable pub insert_all : List ℤ → List ℤ → List ℤ
insert_all [] set = set
insert_all (id ∷ ids) set = insert_all ids (insert id set)

-- `containerChangedUI(Ref<IntArray>)`; a null array is `none`.
unfoldable pub containers_changed : Option (List ℤ) → Session → Session
containers_changed none s = s
containers_changed (some object_ids) s =
    if s.update_all
    then s
    else if leb max_ui_update_ids (length s.ui_update_ids + length object_ids)
    then record s { update_all = true; ui_update_ids = [] }
    else record s { ui_update_ids = insert_all object_ids s.ui_update_ids }

unfoldable pub has_ui_update_ids : Session → Bool
has_ui_update_ids s = if s.update_all then true else ltb 0 (length s.ui_update_ids)

-- What `getUIUpdateIDs` returns: null, "all", or the ids, which the code writes as a list of
-- numbers with commas.
pub data Updates : Type 0 where
  nothing : Updates
  all : Updates
  ids : List ℤ → Updates

unfoldable pub get_ui_update_ids : Session → Updates × Session
get_ui_update_ids s =
    if has_ui_update_ids s
    then if s.update_all
      then (all, record s { update_all = false })
      else (ids s.ui_update_ids, record s { ui_update_ids = [] })
    else (nothing, s)

unfoldable pub clear_update_ids : Session → Session
clear_update_ids s = record s { ui_update_ids = []; update_all = false }

unfoldable pub log_in : Session → Session
log_in s = record s { logged_in = true }

unfoldable pub log_out : Session → Session
log_out s = record s { logged_in = false }

unfoldable pub access : ℕ → Session → Session
access now s = record s { last_access = now }
