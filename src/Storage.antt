-- ===== src/Storage.antt =====
-- storage.cc and storage/sql_storage.cc: containers under virtual paths. The database is a
-- parameter; each operation on it is a query or a statement of the source.
pub mod Separators
pub mod Titles
pub mod Strip
pub mod Tree
pub mod Creation
pub mod Extending
pub mod Chain
pub mod Removal
pub mod Purge
use mathlib.Core.Option
use gerber.Prelude.{
  ℕ, zero, suc, ◌-◌, ◌+◌, ◌≡◌, ◌≢◌, Bool, true, false, ◌&&◌, ◌||◌, not, List, [], ◌∷◌, Option, none,
  some, ltb, ◌==◌, if◌then◌else◌, length,
}
use gerber.Prelude.Int.{ℤ, pos, negsuc, ◌+ℤ◌, ◌==ℤ◌, ltb_ℤ}
use gerber.Zmm.Strings.{Bytes, ZString, char_at, strrchr, rindex_upto, substring, reduce, string_ok}
use gerber.Tools.Escape.{unescape, backslash}
use gerber.Tools.Paths.{sep}
use gerber.Cds.Words.{object_container}
use gerber.StorageCache.{
  Cache, CacheObject, add_child, get_object, get_object_definitely, flushed, write,
  set_num_children, set_location,
}

-- The bytes of a string that is not null.
abbrev pub bytes_of : ZString → Bytes
bytes_of s = Option.get_or s []

-- `substring(int from)`; no caller passes more than the length.
unfoldable pub substring_from : Bytes → ℕ → Bytes
unfolding substring
substring_from s start = bytes_of (substring (some s) start (length s - start))

-- `while (sep > 0)`: back to a separator that is not escaped; `none` is -1.
unfoldable pub strip_loop : ℕ → Bytes → ℕ → Option ℕ
unfolding rindex_upto
strip_loop zero path at = some at
strip_loop (suc fuel) path at =
    if at == 0
    then some 0
    else if char_at path (at - 1) == backslash
    then elim (rindex_upto path (at - 1) sep) [ none ↦ none | some n ↦ strip_loop fuel path n ]
    else some at

-- The two parts around a separator, the second one unescaped.
unfoldable pub strip_at : Bytes → ℕ → Bytes × Bytes
unfolding substring substring_from unescape
strip_at path zero = (sep ∷ [], unescape (substring_from path 1) backslash)
strip_at path (suc n) = (
  bytes_of (substring (some path) 0 (suc n)),
  unescape (substring_from path (suc (suc n))) backslash,
)

-- `stripAndUnescapeVirtualContainerFromPath`: `first` and `last`; `none` is the exception. As there
-- is a separator in front, none of the searches fails.
unfoldable pub strip : Bytes → Option (Bytes × Bytes)
unfolding strrchr strip_loop strip_at substring_from
strip path =
    if char_at path 0 == sep
    then elim (strrchr sep path) [
      | none ↦ none
      | some zero ↦ some (sep ∷ [], substring_from path 1)
      | some (suc n) ↦ Option.map (strip_at path) (strip_loop (length path) path (suc n))
    ]
    else none

abbrev pub invalid_object_id : ℤ
invalid_object_id = negsuc 332

abbrev pub loc_dir_prefix : ℕ
loc_dir_prefix = b'D'

abbrev pub loc_virt_prefix : ℕ
loc_virt_prefix = b'V'

-- `addLocationPrefix`.
unfoldable pub add_location_prefix : ℕ → Bytes → Bytes
add_location_prefix prefix path = prefix ∷ path

-- `path == VIRTUAL_CONTAINER_SEPARATOR`.
unfoldable pub is_root : Bytes → Bool
is_root path = length path == 1 && char_at path 0 == sep

-- The columns of `INSERT INTO` for a container. `location_hash` is computed from the location, and
-- `metadata` is always NULL: the dictionary that is filled is another variable.
pub record Row : Type 0 where
  pub id : ℤ
  pub parent_id : ℤ
  pub upnp_class : Bytes
  pub dc_title : Bytes
  pub location : Bytes
  pub ref_id : Option ℤ

-- The database, as the queries on the table of objects see it.
pub record Database : Type 1 where
  pub Db : Type 0
  -- `SELECT id ... WHERE location_hash = ... AND location = ... LIMIT 1`.
  pub id_at : Db → Bytes → Option ℤ
  -- `SELECT parent_id ... WHERE id = ...`.
  pub parent_of : Db → ℤ → Option ℤ
  -- `SELECT location ... WHERE id = ... LIMIT 1`.
  pub location_of : Db → ℤ → Option ZString
  pub insert_row : Row → Db → Db

abbrev pub is_some {ℓ} : {A : Type ℓ} → Option A → Bool
is_some none = false
is_some (some a) = true

-- Whether the cache knows the object of an id.
unfoldable pub cached : ℤ → Cache → Bool
unfolding get_object
cached id c = elim (get_object id c) [ none ↦ false | some r ↦ is_some (c.heap r).object ]

-- What `createContainer` tells the cache of a new container; flushing the insert buffer does nothing.
unfoldable pub inform_cache : ℤ → ℤ → Bytes → Cache → Cache
unfolding add_child get_object_definitely flushed write set_num_children set_location
inform_cache parent_id id path c =
    let (r, made) = get_object_definitely id (flushed (add_child parent_id c)).1 in
    let kept = (flushed made).1 in
    let o = set_location (some path) (set_num_children (pos 0) (kept.heap r)) in
    record kept {
      heap =
          write r (record o { parent_id = parent_id; object_type = pos 1; know_object_type = true })
            kept.heap;
    }

-- The row that `createContainer` inserts.
unfoldable pub container_row : ℤ → ℤ → Bytes → Bytes → ZString → ℤ → Row
unfolding string_ok
container_row id parent_id name location upnp_class ref_id = record {
  id = id;
  parent_id = parent_id;
  upnp_class = if string_ok upnp_class then bytes_of upnp_class else object_container;
  dc_title = name;
  location = location;
  ref_id = if ltb_ℤ (pos 0) ref_id then some ref_id else none;
}

module _ (d : Database) where
  open d use {Db, id_at, parent_of, location_of, insert_row}

  -- `cache` is null where caching is switched off. The insert buffer is empty.
  pub record Store : Type 0 where
    pub db : Db
    pub last_id : ℤ
    pub cache : Option Cache

  -- Whether `loadObject` finds an object: a row that it builds one from, or one in the cache.
  unfoldable pub loads : ℤ → Store → Bool
  unfolding cached
  loads id s = Option.get_or (Option.map (cached id) s.cache) false || is_some (parent_of s.db id)

  -- `createContainer`, and the id; `none` is an exception, of `loadObject` or of `getNextID`.
  unfoldable pub create_container :
      ℤ → Bytes → Bytes → Bool → ZString → ℤ → Store → Store × Option ℤ
  unfolding loads container_row add_location_prefix inform_cache ◌+ℤ◌
  create_container parent_id name path is_virtual upnp_class ref_id s =
      let id = s.last_id +ℤ pos 1 in
      let location =
        add_location_prefix (if is_virtual then loc_virt_prefix else loc_dir_prefix) path in
      if ltb_ℤ (pos 0) ref_id && not (loads ref_id s)
      then (s, none)
      else if ltb_ℤ s.last_id (pos 1)
      then (s, none)
      else (
        record {
          db = insert_row (container_row id parent_id name location upnp_class ref_id) s.db;
          last_id = id;
          cache = Option.map (inform_cache parent_id id path) s.cache;
        },
        some id,
      )

  -- `none` for `container` is an exception.
  pub record Outcome : Type 0 where
    pub store : Store
    pub container : Option ℤ
    pub update : ℤ

  -- What `addContainerChain` does behind the call for the path in front.
  unfoldable pub add_last : Bytes → Bytes → ZString → ℤ → Outcome → Outcome
  unfolding create_container
  add_last path name upnp_class ref_id o = elim o.container [
    | none ↦ o
    | some parent ↦
        let (s, id) = create_container parent name path true upnp_class ref_id o.store in
        record {
          store = s;
          container = id;
          update = if o.update ==ℤ invalid_object_id then parent else o.update;
        }
  ]

  -- `addContainerChain`. The path in front is shorter, so that the length of the path is enough fuel.
  unfoldable pub add_container_chain : ℕ → Bytes → ZString → ℤ → ℤ → Store → Outcome
  unfolding add_location_prefix
  add_container_chain zero path last_class last_ref update s = record {
    store = s;
    container = none;
    update = update;
  }
  add_container_chain (suc fuel) path last_class last_ref update s =
      let short = bytes_of (reduce sep (some path)) in
      if is_root short
      then record { store = s; container = some (pos 0); update = update }
      else elim (id_at s.db (add_location_prefix loc_virt_prefix short)) [
        | some id ↦ record { store = s; container = some id; update = update }
        | none ↦ elim (strip short) [
          | none ↦ record { store = s; container = none; update = update }
          | some (first, last) ↦
              add_last short last last_class last_ref
                (add_container_chain fuel first none invalid_object_id update s)
        ]
      ]
