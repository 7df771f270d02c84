-- ===== src/Storage/Removal.antt =====
-- storage/sql_storage.cc, the removal of objects with all that hangs on them. A buffer of ids is the
-- list of the ids; the queries and statements on the tables are parameters.
pub mod Rounds
pub mod Children
pub mod Asking
pub mod Whole
pub mod Passing
use gerber.Prelude.{
  ℕ, zero, suc, ◌+◌, Bool, true, false, ◌||◌, List, [], ◌∷◌, ◌++◌, map, Option, none, some, ltb,
  length, if◌then◌else◌,
}
use gerber.Prelude.Int.{ℤ, pos}
use gerber.Zmm.Number.{print_int}

-- The columns of a row that a removal reads; `none` is NULL.
pub record Object : Type 0 where
  pub id : ℤ
  pub parent_id : ℤ
  pub is_container : Bool
  pub ref_id : Option ℤ

pub record Tables : Type 1 where
  pub Db : Type 0
  -- The row of an id.
  pub object : Db → ℤ → Option Object
  -- `SELECT DISTINCT parent_id ... WHERE id IN (...)`.
  pub parents : Db → List ℤ → List ℤ
  -- `SELECT ... WHERE ref_id IN (...)`.
  pub references : Db → List ℤ → List Object
  -- `SELECT ... WHERE parent_id IN (...)`.
  pub children : Db → List ℤ → List Object
  -- The join of the autoscan directories with the objects `WHERE o.id IN (...)`: the id of each, and
  -- whether it is persistent.
  pub autoscans : Db → List ℤ → List (ℤ × Bool)
  -- `DELETE ... WHERE id IN (...)` on each of the three tables.
  pub delete_autoscans : List ℤ → Db → Db
  pub delete_active_items : List ℤ → Db → Db
  pub delete_objects : List ℤ → Db → Db

-- `MAX_REMOVE_SIZE` and `MAX_REMOVE_RECURSION`.
abbrev pub max_remove_size : ℕ
max_remove_size = 10000

abbrev pub max_remove_recursion : ℕ
max_remove_recursion = 500

-- `length()` of a buffer with a comma in front of each id.
unfoldable pub csv_length : List ℤ → ℕ
csv_length [] = 0
csv_length (id ∷ ids) = 1 + length (print_int id) + csv_length ids

abbrev pub is_empty : List ℤ → Bool
is_empty [] = true
is_empty (id ∷ ids) = false

-- The ids of the directories that are not persistent. For the others a statement is appended to the
-- query, which is not executed again.
unfoldable pub to_delete : List (ℤ × Bool) → List ℤ
to_delete [] = []
to_delete ((id, persistent) ∷ rows) = if persistent then to_delete rows else id ∷ to_delete rows

abbrev pub not_empty : List ℤ → Bool
not_empty [] = false
not_empty (id ∷ ids) = true

module _ (t : Tables) where
  open t use {
    Db, object, parents, references, children, autoscans, delete_autoscans, delete_active_items,
    delete_objects,
  }

  unfoldable pub remove_objects : List ℤ → Db → Db
  unfolding to_delete
  remove_objects ids db =
      let scans = to_delete (autoscans db ids) in
      delete_objects ids
        (delete_active_items ids (if is_empty scans then db else delete_autoscans scans db))

  -- The local variables of `_recursiveRemove`: `items` and `containers` are what stands behind the
  -- query texts of `recurseItems` and `recurseContainers`, `add_parents` that of `removeAddParents`.
  pub record Work : Type 0 where
    pub db : Db
    pub items : List ℤ
    pub containers : List ℤ
    pub add_parents : List ℤ
    pub remove : List ℤ
    pub upnp : List ℤ
    pub ui : List ℤ

  -- Before the loop. An empty list stands for a null buffer too. With containers the buffer
  -- `removeAddParents` is used for another query and then cut, also behind the items.
  unfoldable pub start : List ℤ → List ℤ → Db → Work
  start items containers db = record {
    db = db;
    items = items;
    containers = containers;
    add_parents = if is_empty containers then items else [];
    remove = containers;
    upnp = [];
    ui = if is_empty containers then [] else parents db (items ++ containers);
  }

  -- The first part of a round.
  unfoldable pub take_parents : Work → Work
  take_parents w = if is_empty w.add_parents then w else record w {
    remove = w.remove ++ w.add_parents;
    upnp = w.upnp ++ parents w.db w.add_parents;
    add_parents = [];
  }

  unfoldable pub take_references : Work → Work
  take_references w = if is_empty w.items then w else record w {
    remove = w.remove ++ map (λ o. o.id) (references w.db w.items);
    upnp = w.upnp ++ map (λ o. o.parent_id) (references w.db w.items);
    items = [];
  }

  -- What a round does with a child of the containers.
  unfoldable pub take_child : Bool → Object → Work → Work
  take_child all o w =
      if o.is_container
      then record w { containers = w.containers ++ o.id ∷ []; remove = w.remove ++ o.id ∷ [] }
      else elim (if all then o.ref_id else none) [
        | some ref ↦ record w {
          add_parents = w.add_parents ++ ref ∷ [];
          items = w.items ++ ref ∷ [];
        }
        | none ↦ record w { remove = w.remove ++ o.id ∷ []; items = w.items ++ o.id ∷ [] }
      ]

  unfoldable pub take_children : Bool → List Object → Work → Work
  unfolding take_child
  take_children all [] w = w
  take_children all (o ∷ rows) w = take_children all rows (take_child all o w)

  unfoldable pub take_containers : Bool → Work → Work
  take_containers all w =
      if is_empty w.containers
      then w
      else take_children all (children w.db w.containers) (record w { containers = [] })

  unfoldable pub flush : Work → Work
  flush w =
      if ltb max_remove_size (csv_length w.remove)
      then record w { db = remove_objects w.remove w.db; remove = [] }
      else w

  unfoldable pub round : Bool → Work → Work
  round all w = flush (take_containers all (take_references (take_parents w)))

  unfoldable pub is_pending : Work → Bool
  is_pending w = not_empty w.items || not_empty w.add_parents || not_empty w.containers

  -- The loop, with the rounds left before the one that throws; `false` is the exception.
  unfoldable pub remove_loop : ℕ → Bool → Work → Bool × Work
  unfolding is_pending
  remove_loop zero all w = if is_pending w then (false, round all w) else (true, w)
  remove_loop (suc left) all w =
      let rest = remove_loop left all (round all w) in if is_pending w then rest else (true, w)

  unfoldable pub finish : Work → Work
  finish w = if is_empty w.remove then w else record w { db = remove_objects w.remove w.db }

  -- `_recursiveRemove`; `count++ > MAX_REMOVE_RECURSION` lets one round more pass.
  unfoldable pub recursive_remove : List ℤ → List ℤ → Bool → Db → Bool × Work
  recursive_remove items containers all db =
      let (passed, w) = remove_loop (max_remove_recursion + 1) all (start items containers db) in
      (passed, if passed then finish w else w)
