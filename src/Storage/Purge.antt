-- ===== src/Storage/Purge.antt =====
-- storage/sql_storage.cc, _purgeEmptyContainers, removeObject and removeObjects. The query for the
-- containers and the deletions are parameters, as in Storage/Removal.
pub mod Emptied
pub mod Cleaning
pub mod Linked
pub mod Removing
use mathlib.Core.Option
use gerber.Prelude.{
  ℕ, zero, suc, Bool, true, false, ◌||◌, ◌&&◌, not, List, [], ◌∷◌, ◌++◌, Option, none, some, ◌==◌,
  if◌then◌else◌,
}
use gerber.Prelude.Int.{ℤ, pos, ltb_ℤ}
use gerber.StorageCache.{Cache, clear_cache}
use gerber.Storage.Removal.{
  Tables, Object, is_empty, not_empty, remove_objects, recursive_remove, max_remove_recursion,
}

-- A row of the query for the containers: how many objects the container holds, and its flag
-- OBJECT_FLAG_PERSISTENT_CONTAINER.
pub record Container : Type 0 where
  pub id : ℤ
  pub count : ℕ
  pub parent_id : ℤ
  pub persistent : Bool

-- `CDS_ID_FS_ROOT`.
abbrev pub fs_root : ℤ
fs_root = pos 1

abbrev pub is_forbidden : ℤ → Bool
is_forbidden id = not (ltb_ℤ fs_root id)

unfoldable pub first_forbidden : List ℤ → Bool
first_forbidden [] = false
first_forbidden (id ∷ ids) = is_forbidden id || first_forbidden ids

unfoldable pub item_ids : List Object → List ℤ
item_ids [] = []
item_ids (o ∷ rows) = if o.is_container then item_ids rows else o.id ∷ item_ids rows

unfoldable pub container_ids : List Object → List ℤ
container_ids [] = []
container_ids (o ∷ rows) = if o.is_container then o.id ∷ container_ids rows else container_ids rows

-- The object that is removed in place of an item: what it refers to, if everything is to go.
unfoldable pub removal_target : Bool → Object → ℤ → ℤ
removal_target all o id =
    if all && not o.is_container
    then elim o.ref_id [ none ↦ id | some ref ↦ if is_forbidden ref then id else ref ]
    else id

-- `SELECT a.id, COUNT(b.parent_id), a.parent_id, a.flags ... WHERE a.object_type = 1 AND a.id IN (...)`,
-- which may fail, is `counts`; `SELECT id, object_type ... WHERE id IN (...)` is `rows`.
module _ (t : Tables) (counts : t.Db → List ℤ → Option (List Container)) where
  open t use {Db, object}

  -- The local variables of `_purgeEmptyContainers`: `sel_upnp` and `sel_ui` are what stands behind the
  -- query texts, `del` is `bufDel`, and `upnp` and `ui` are those of `changedContainers`.
  pub record Purge : Type 0 where
    pub db : Db
    pub sel_upnp : List ℤ
    pub sel_ui : List ℤ
    pub del : List ℤ
    pub upnp : List ℤ
    pub ui : List ℤ

  unfoldable pub take_upnp : Container → Purge → Purge
  take_upnp c p =
      if c.persistent
      then record p { upnp = p.upnp ++ c.id ∷ [] }
      else if c.count == 0
      then record p { del = p.del ++ c.id ∷ []; sel_ui = p.sel_ui ++ c.parent_id ∷ [] }
      else record p { sel_upnp = p.sel_upnp ++ c.id ∷ [] }

  unfoldable pub take_ui : Container → Purge → Purge
  take_ui c p =
      if c.persistent
      then record p { ui = p.ui ++ c.id ∷ []; upnp = p.upnp ++ c.id ∷ [] }
      else if c.count == 0
      then record p { del = p.del ++ c.id ∷ []; sel_ui = p.sel_ui ++ c.parent_id ∷ [] }
      else record p { sel_ui = p.sel_ui ++ c.id ∷ [] }

  unfoldable pub take_all : (Container → Purge → Purge) → List Container → Purge → Purge
  take_all take [] p = p
  take_all take (c ∷ rows) p = take_all take rows (take c p)

  -- The two queries of a round; `none` is the exception "db error".
  unfoldable pub ask_upnp : Purge → Option Purge
  ask_upnp p = if is_empty p.sel_upnp then some p else elim (counts p.db p.sel_upnp) [
    | none ↦ none
    | some rows ↦ some (take_all take_upnp rows (record p { sel_upnp = [] }))
  ]

  unfoldable pub ask_ui : Purge → Option Purge
  ask_ui p = if is_empty p.sel_ui then some p else elim (counts p.db p.sel_ui) [
    | none ↦ none
    | some rows ↦ some (take_all take_ui rows (record p { sel_ui = [] }))
  ]

  unfoldable pub ask : Purge → Option Purge
  ask p = elim (ask_upnp p) [ none ↦ none | some q ↦ ask_ui q ]

  -- The deletions of a round, and `again`.
  unfoldable pub delete_empty : Purge → Purge × Bool
  delete_empty p = if is_empty p.del then (p, false) else (
    record p { db = remove_objects t p.del p.db; del = [] },
    not_empty p.sel_ui || not_empty p.sel_upnp,
  )

  -- The loop, with the rounds left before the one that throws; `false` is an exception.
  unfoldable pub purge_loop : ℕ → Purge → Bool × Purge
  purge_loop zero p = elim (ask p) [ none ↦ (false, p) | some q ↦ (false, (delete_empty q).0) ]
  purge_loop (suc left) p = elim (ask p) [
    | none ↦ (false, p)
    | some q ↦
        let rest = purge_loop left (delete_empty q).0 in
        if (delete_empty q).1 then rest else (true, (delete_empty q).0)
  ]

  -- The containers that are left over have changed too.
  unfoldable pub report : Purge → Purge
  report p = record p { ui = p.ui ++ p.sel_ui; upnp = p.upnp ++ p.sel_ui ++ p.sel_upnp }

  -- `_purgeEmptyContainers`, with the cache if it is on.
  unfoldable pub purge_empty_containers :
      List ℤ → List ℤ → Option Cache → Db → Bool × (Purge × Option Cache)
  purge_empty_containers upnp ui cache db =
      let begin : Purge = record {
        db = db;
        sel_upnp = upnp;
        sel_ui = ui;
        del = [];
        upnp = [];
        ui = [];
      } in
      let (passed, p) = purge_loop max_remove_recursion begin in
      if is_empty upnp && is_empty ui
      then (true, (record begin { sel_upnp = []; sel_ui = [] }, cache))
      else if passed
      then (true, (report p, Option.map clear_cache cache))
      else (false, (p, cache))

  -- What a removal ends with: null, an exception, or the changed containers.
  pub data Ending : Type 0 where
    nothing : Ending
    throws : Db → Ending
    changes : Purge → Option Cache → Ending

  unfoldable pub ended : Bool × (Purge × Option Cache) → Ending
  ended r = if r.0 then changes r.1.0 r.1.1 else throws r.1.0.db

  -- `_purgeEmptyContainers` of what `_recursiveRemove` returns.
  unfoldable pub remove_and_purge : List ℤ → List ℤ → Bool → Option Cache → Db → Ending
  remove_and_purge items containers all cache db =
      let (passed, w) = recursive_remove t items containers all db in
      if passed then ended (purge_empty_containers w.upnp w.ui cache w.db) else throws w.db

  -- `answered` says whether the select of the object has a result: null is returned for none too.
  unfoldable pub remove_object : Bool → ℤ → Bool → Option Cache → Db → Ending
  remove_object answered id all cache db = elim (if answered then object db id else none) [
    | none ↦ nothing
    | some o ↦
        let target = removal_target all o id in
        if is_forbidden target
        then throws db
        else if o.is_container
        then remove_and_purge [] (target ∷ []) all cache db
        else remove_and_purge (target ∷ []) [] all cache db
  ]

  module _ (rows : Db → List ℤ → Option (List Object)) where
    unfoldable pub remove_objects_of : List ℤ → Bool → Option Cache → Db → Ending
    remove_objects_of ids all cache db =
        if is_empty ids
        then nothing
        else if first_forbidden ids
        then throws db
        else elim (rows db ids) [
          | none ↦ throws db
          | some found ↦ remove_and_purge (item_ids found) (container_ids found) all cache db
        ]
