-- ===== src/StorageCache.antt =====
-- storage/cache_object.h and storage/storage_cache.cc: what is known of the objects of the database.
pub mod Lookup
use gerber.Prelude.{
  ℕ, ◌+◌, ◌≡◌, Bool, true, false, ◌||◌, List, [], ◌∷◌, ◌++◌, Option, none, some, leb, ◌==◌,
  if◌then◌else◌, length,
}
use gerber.Prelude.Int.{ℤ, pos, negsuc, ◌+ℤ◌, ◌==ℤ◌}
use gerber.Zmm.Strings.{ZString, equals}

-- `CacheObject`; `object` is a pointer.
pub record CacheObject : Type 0 where
  pub parent_id : ℤ
  pub ref_id : ℤ
  pub know_ref_id : Bool
  pub object : Option ℕ
  pub num_children : ℤ
  pub know_num_children : Bool
  pub object_type : ℤ
  pub know_object_type : Bool
  pub location : ZString
  pub virtual_obj : Bool
  pub know_virtual_obj : Bool

-- The constructor.
abbrev pub new_object : CacheObject
new_object = record {
  parent_id = negsuc 332;
  ref_id = negsuc 332;
  know_ref_id = false;
  object = none;
  num_children = pos 0;
  know_num_children = false;
  object_type = pos 0;
  know_object_type = false;
  location = none;
  virtual_obj = true;
  know_virtual_obj = false;
}

unfoldable pub set_num_children : ℤ → CacheObject → CacheObject
set_num_children n o = record o { num_children = n; know_num_children = true }

unfoldable pub set_location : ZString → CacheObject → CacheObject
set_location location o = record o { location = location }

-- `StorageCache`. Objects are shared, so that the tables hold references: `heap` is what stands
-- there, and `next_ref` the next one that `new` gives.
pub record Cache : Type 0 where
  pub id_hash : List (ℤ × ℕ)
  pub location_hash : List (ZString × List ℕ)
  pub has_been_flushed : Bool
  pub maxfill : ℕ
  pub heap : ℕ → CacheObject
  pub next_ref : ℕ

abbrev pub storage_cache_maxfill : ℕ
storage_cache_maxfill = 9973

unfoldable pub make : (ℕ → CacheObject) → Cache
make heap = record {
  id_hash = [];
  location_hash = [];
  has_been_flushed = false;
  maxfill = storage_cache_maxfill;
  heap = heap;
  next_ref = 0;
}

unfoldable pub clear_cache : Cache → Cache
clear_cache c = record c { id_hash = []; location_hash = [] }

-- `unordered_map::at` of each table.
unfoldable pub id_at : ℤ → List (ℤ × ℕ) → Option ℕ
id_at id [] = none
id_at id (e ∷ table) = if e.0 ==ℤ id then some e.1 else id_at id table

unfoldable pub location_at : ZString → List (ZString × List ℕ) → Option (List ℕ)
location_at loc [] = none
location_at loc (e ∷ table) = if equals e.0 loc then some e.1 else location_at loc table

unfoldable pub id_erase : ℤ → List (ℤ × ℕ) → List (ℤ × ℕ)
id_erase id [] = []
id_erase id (e ∷ table) = if e.0 ==ℤ id then table else e ∷ id_erase id table

unfoldable pub location_erase : ZString → List (ZString × List ℕ) → List (ZString × List ℕ)
location_erase loc [] = []
location_erase loc (e ∷ table) = if equals e.0 loc then table else e ∷ location_erase loc table

unfoldable pub get_object : ℤ → Cache → Option ℕ
get_object id c = id_at id c.id_hash

-- `ensureFillLevelOk`.
unfoldable pub ensure_fill_level_ok : Cache → Cache
ensure_fill_level_ok c =
    if leb c.maxfill (length c.id_hash) || leb c.maxfill (length c.location_hash)
    then record c { has_been_flushed = true; id_hash = []; location_hash = [] }
    else c

unfoldable pub write : ℕ → CacheObject → (ℕ → CacheObject) → ℕ → CacheObject
write r o heap k = if k == r then o else heap k

-- The handler of `getObjectDefinitely`: a new object under the id.
unfoldable pub emplace : ℤ → Cache → ℕ × Cache
emplace id c = (
  c.next_ref,
  record c {
    id_hash = (id, c.next_ref) ∷ c.id_hash;
    heap = write c.next_ref new_object c.heap;
    next_ref = c.next_ref + 1;
  },
)

unfoldable pub definitely : Option ℕ → ℤ → Cache → ℕ × Cache
definitely (some r) id c = (r, c)
definitely none id c = emplace id (ensure_fill_level_ok c)

unfoldable pub get_object_definitely : ℤ → Cache → ℕ × Cache
get_object_definitely id c = definitely (get_object id c) id c

unfoldable pub one_more : CacheObject → CacheObject
one_more o = if o.know_num_children then set_num_children (o.num_children +ℤ pos 1) o else o

unfoldable pub add_child : ℤ → Cache → Cache
add_child id c = elim (get_object id c) [
  | none ↦ c
  | some r ↦ record c { heap = write r (one_more (c.heap r)) c.heap }
]

unfoldable pub remove_location : ZString → Cache → Cache
remove_location none c = c
remove_location (some loc) c = record c {
  location_hash = location_erase (some loc) c.location_hash;
}

unfoldable pub removed : Option ℕ → ℤ → Cache → Cache × Bool
removed none id c = (c, false)
removed (some r) id c =
    (record (remove_location (c.heap r).location c) { id_hash = id_erase id c.id_hash }, true)

-- `removeObject`, and whether it was there.
unfoldable pub remove_object : ℤ → Cache → Cache × Bool
remove_object id c = removed (get_object id c) id c

unfoldable pub get_objects : ZString → Cache → Option (List ℕ)
get_objects loc c = location_at loc c.location_hash

unfoldable pub stands_in : ℕ → List ℕ → Bool
stands_in r [] = false
stands_in r (k ∷ refs) = if k == r then true else stands_in r refs

-- The table with the object in the array of its location.
unfoldable pub located : ℕ → ZString → List (ZString × List ℕ) → List (ZString × List ℕ)
located r loc [] = (loc, r ∷ []) ∷ []
located r loc (e ∷ table) =
    if equals e.0 loc
    then (e.0, if stands_in r e.1 then e.1 else e.1 ++ r ∷ []) ∷ table
    else e ∷ located r loc table

unfoldable pub checked : ℕ → ZString → Cache → Cache
checked r none c = c
checked r (some loc) c = record c { location_hash = located r (some loc) c.location_hash }

-- `checkLocation`.
unfoldable pub check_location : ℕ → Cache → Cache
check_location r c = checked r (c.heap r).location c

unfoldable pub flushed : Cache → Bool × Cache
flushed c = if c.has_been_flushed then (true, record c { has_been_flushed = false }) else (false, c)
