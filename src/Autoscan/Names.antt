-- ===== src/Autoscan/Names.antt =====
-- autoscan.cc: the words for scan modes and scan levels, and the copy of a directory.
use gerber.Prelude.{◌≡◌, refl, [], ◌∷◌, Option, none, some, if◌then◌else◌}
use gerber.Zmm.Strings.{Bytes, ZString, c_str, equals}
use gerber.Autoscan.{ScanLevel, ScanMode, timed, inotify, basic, full, Directory}

abbrev pub timed_word : Bytes
timed_word = b't' ∷ b'i' ∷ b'm' ∷ b'e' ∷ b'd' ∷ []

abbrev pub inotify_word : Bytes
inotify_word = b'i' ∷ b'n' ∷ b'o' ∷ b't' ∷ b'i' ∷ b'f' ∷ b'y' ∷ []

abbrev pub basic_word : Bytes
basic_word = b'b' ∷ b'a' ∷ b's' ∷ b'i' ∷ b'c' ∷ []

abbrev pub full_word : Bytes
full_word = b'f' ∷ b'u' ∷ b'l' ∷ b'l' ∷ []

unfoldable pub map_scanmode : ScanMode → Bytes
map_scanmode timed = timed_word
map_scanmode inotify = inotify_word

-- `none` is an exception.
unfoldable pub remap_scanmode : ZString → Option ScanMode
remap_scanmode word =
    if equals word (some timed_word)
    then some ScanMode.timed
    else if equals word (some inotify_word)
    then some ScanMode.inotify
    else none

unfoldable pub map_scanlevel : ScanLevel → Bytes
map_scanlevel basic = basic_word
map_scanlevel full = full_word

unfoldable pub remap_scanlevel : ZString → Option ScanLevel
remap_scanlevel word =
    if equals word (some basic_word)
    then some ScanLevel.basic
    else if equals word (some full_word)
    then some ScanLevel.full
    else none

-- `copyTo`: what the other directory becomes.
unfoldable pub copy_to : Directory → Directory → Directory
copy_to dir copy = record copy {
  location = dir.location;
  mode = dir.mode;
  level = dir.level;
  recursive = dir.recursive;
  hidden = dir.hidden;
  persistent_flag = dir.persistent_flag;
  interval = dir.interval;
  task_count = dir.task_count;
  scan_id = dir.scan_id;
  object_id = dir.object_id;
  storage_id = dir.storage_id;
  last_mod_previous_scan = dir.last_mod_previous_scan;
  last_mod_current_scan = dir.last_mod_current_scan;
}

-- Every scan mode and every scan level is read back from its word.
pub remap-map :
    (mode : ScanMode) (level : ScanLevel)
    → (remap_scanmode (some (map_scanmode mode)) ≡ some mode)
      × (remap_scanlevel (some (map_scanlevel level)) ≡ some level)
unfolding remap_scanmode map_scanmode remap_scanlevel map_scanlevel equals c_str
remap-map timed basic = (refl, refl)
remap-map timed full = (refl, refl)
remap-map inotify basic = (refl, refl)
remap-map inotify full = (refl, refl)
