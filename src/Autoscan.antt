-- ===== src/Autoscan.antt =====
-- autoscan.h and autoscan.cc: the directories that are scanned again and again, each in a slot of
-- an array whose index is its scan id.
pub mod Names
pub mod Slots
pub mod Adding
pub mod Clearing
use gerber.Prelude.{
  ℕ, zero, suc, ◌+◌, ◌-◌, ◌≡◌, Bool, true, false, not, ◌&&◌, List, [], ◌∷◌, ◌++◌, Option, none,
  some, ltb, ◌==◌, if◌then◌else◌, length, set, take, get_elem?,
}
use gerber.Prelude.Int.{ℤ, pos, negsuc, ◌==ℤ◌, ltb_ℤ}
use gerber.Zmm.Strings.{Bytes, ZString, equals, starts_with}

pub data ScanLevel : Type 0 where
  basic : ScanLevel
  full : ScanLevel

pub data ScanMode : Type 0 where
  timed : ScanMode
  inotify : ScanMode

-- `AutoscanDirectory`; `scan_id` is also the id of its timer parameter, and -1 is
-- `INVALID_SCAN_ID`.
pub record Directory : Type 0 where
  pub location : ZString
  pub mode : ScanMode
  pub level : ScanLevel
  pub recursive : Bool
  pub hidden : Bool
  pub persistent_flag : Bool
  pub interval : ℕ
  pub task_count : ℕ
  pub scan_id : ℤ
  pub object_id : ℤ
  pub storage_id : ℤ
  pub last_mod_previous_scan : ℤ
  pub last_mod_current_scan : ℤ

abbrev pub invalid_scan_id : ℤ
invalid_scan_id = negsuc 0

abbrev pub invalid_object_id : ℤ
invalid_object_id = negsuc 332

-- The constructor with arguments.
unfoldable pub make_directory :
    ZString → ScanMode → ScanLevel → Bool → Bool → ℤ → ℕ → Bool → Directory
make_directory location mode level recursive persistent id interval hidden = record {
  location = location;
  mode = mode;
  level = level;
  recursive = recursive;
  hidden = hidden;
  persistent_flag = persistent;
  interval = interval;
  task_count = 0;
  scan_id = id;
  object_id = invalid_object_id;
  storage_id = invalid_object_id;
  last_mod_previous_scan = pos 0;
  last_mod_current_scan = pos 0;
}

unfoldable pub set_current_lmt : ℤ → Directory → Directory
set_current_lmt lmt dir =
    if ltb_ℤ dir.last_mod_current_scan lmt then record dir { last_mod_current_scan = lmt } else dir

unfoldable pub set_scan_id : ℤ → Directory → Directory
set_scan_id id dir = record dir { scan_id = id }

-- `setLocation`; `none` is the exception.
unfoldable pub set_location : ZString → Directory → Option Directory
set_location location dir = elim dir.location [
  | none ↦ some (record dir { location = location })
  | some old ↦ none
]

-- `AutoscanList`; a slot may be null.
abbrev pub AutoscanList : Type 0
AutoscanList = List (Option Directory)

-- The scan of `_add` from slot `i` on: whether it throws, and the last null slot.
unfoldable pub scan_slots : ZString → AutoscanList → ℕ → Option ℕ → Option (Option ℕ)
scan_slots loc [] i nil_index = some nil_index
scan_slots loc (none ∷ list) i nil_index = scan_slots loc list (i + 1) (some i)
scan_slots loc (some dir ∷ list) i nil_index =
    if equals loc dir.location then none else scan_slots loc list (i + 1) nil_index

-- What `_add` does after its scan: the new list and the scan id.
unfoldable pub placed : Directory → AutoscanList → Option (Option ℕ) → Option (AutoscanList × ℤ)
placed dir list none = none
placed dir list (some none) =
    some (list ++ some (set_scan_id (pos (length list)) dir) ∷ [], pos (length list))
placed dir list (some (some i)) = some (set list i (some (set_scan_id (pos i) dir)), pos i)

-- `_add`; `none` is the exception of a path that is there already.
unfoldable pub add : Directory → AutoscanList → Option (AutoscanList × ℤ)
add dir list = placed dir list (scan_slots dir.location list 0 none)

-- `addList`: an exception ends it, with what was added so far.
unfoldable pub add_list : AutoscanList → AutoscanList → AutoscanList × Bool
add_list [] list = (list, true)
add_list (none ∷ other) list = add_list other list
add_list (some dir ∷ other) list = elim (add dir list) [
  | none ↦ (list, false)
  | some (next, id) ↦ add_list other next
]

-- `get(int)`, which takes any `int`.
unfoldable pub get : ℤ → AutoscanList → Option Directory
get (negsuc n) list = none
get (pos n) list = elim (get_elem? list n) [ none ↦ none | some slot ↦ slot ]

unfoldable pub get_by_object_id : ℤ → AutoscanList → Option Directory
get_by_object_id id [] = none
get_by_object_id id (none ∷ list) = get_by_object_id id list
get_by_object_id id (some dir ∷ list) =
    if id ==ℤ dir.object_id then some dir else get_by_object_id id list

unfoldable pub get_by_location : ZString → AutoscanList → Option Directory
get_by_location location [] = none
get_by_location location (none ∷ list) = get_by_location location list
get_by_location location (some dir ∷ list) =
    if equals location dir.location then some dir else get_by_location location list

-- A removed slot: the last one is cut off, another becomes null.
unfoldable pub clear_slot : ℕ → AutoscanList → AutoscanList
clear_slot i list = if i + 1 == length list then take i list else set list i none

-- `remove(int)`: `none` is the null pointer that a null slot gives.
unfoldable pub remove : ℤ → AutoscanList → Option AutoscanList
remove (negsuc n) list = some list
remove (pos n) list = elim (get_elem? list n) [
  | none ↦ some list
  | some none ↦ none
  | some (some dir) ↦ some (clear_slot n list)
]

-- The first slot, from `i` on, whose directory passes the test.
unfoldable pub find_slot : (Directory → Bool) → AutoscanList → ℕ → Option ℕ
find_slot test [] i = none
find_slot test (none ∷ list) i = find_slot test list (i + 1)
find_slot test (some dir ∷ list) i = if test dir then some i else find_slot test list (i + 1)

-- What is done with the slot that was found; the id is that of its directory.
unfoldable pub remove_found : Option ℕ → AutoscanList → AutoscanList × ℤ
remove_found none list = (list, invalid_scan_id)
remove_found (some i) list = (clear_slot i list, pos i)

unfoldable pub remove_first : (Directory → Bool) → AutoscanList → AutoscanList × ℤ
remove_first test list = remove_found (find_slot test list 0) list

unfoldable pub remove_by_object_id : ℤ → AutoscanList → AutoscanList × ℤ
unfolding remove_first
remove_by_object_id id list = remove_first (λ dir. id ==ℤ dir.object_id) list

unfoldable pub remove_by_location : ZString → AutoscanList → AutoscanList × ℤ
unfolding remove_first
remove_by_location location list = remove_first (λ dir. equals location dir.location) list
