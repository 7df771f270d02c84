-- ===== src/Tests/Containers.antt =====
-- The virtual containers at concrete inputs.
use gerber.Prelude.{
  ◌≡◌, refl, sym, List, [], ◌∷◌, ◌++◌, Option, none, some, inl, inr, if◌then◌else◌, arith,
  Bool-cases,
}
use gerber.Prelude.Int.{ℤ, pos, ◌==ℤ◌, ==ℤ_iff}
use gerber.Zmm.Strings.{Bytes, reduce, bytes_eq}
use gerber.Zmm.Strings.Search.{bytes_eq_iff}
use gerber.Zmm.Strings.Reducing.{collapse, reduce-collapse}
use gerber.Tools.Escape.{escape, backslash}
use gerber.Tools.Paths.{sep}
use gerber.Storage.{
  Row, Database, Store, invalid_object_id, is_root, add_last, strip, add_container_chain,
}
use gerber.Storage.Tree.{IsTable, IsTree}
use gerber.Storage.Titles.{strip-escape}
use gerber.Storage.Extending.{Adds}
use gerber.Storage.Chain.{add_container_chain-Adds, add_container_chain_again}

-- "//a//b"
abbrev doubled : Bytes
doubled = 47 ∷ 47 ∷ 97 ∷ 47 ∷ 47 ∷ 98 ∷ []

reduce-collapse_example : reduce sep (some doubled) ≡ some (collapse sep doubled)
reduce-collapse_example = reduce-collapse sep (omega arith) doubled (omega arith)

-- The title "b/c\" below "/a".
strip-escape_example :
    strip ((sep ∷ 97 ∷ []) ++ sep ∷ escape (98 ∷ 47 ∷ 99 ∷ 92 ∷ []) backslash sep)
    ≡ some (sep ∷ 97 ∷ [], 98 ∷ 47 ∷ 99 ∷ 92 ∷ [])
strip-escape_example =
    strip-escape (97 ∷ []) (98 ∷ 47 ∷ 99 ∷ 92 ∷ []) (omega arith) (omega arith) (omega arith)

-- A table as a list of rows.
abbrev id_in : List Row → Bytes → Option ℤ
id_in [] location = none
id_in (row ∷ rows) location =
    if bytes_eq row.location location then some row.id else id_in rows location

abbrev parent_in : List Row → ℤ → Option ℤ
parent_in [] id = none
parent_in (row ∷ rows) id = if row.id ==ℤ id then some row.parent_id else parent_in rows id

abbrev rows : Database
rows = record {
  Db = List Row;
  id_at = id_in;
  parent_of = parent_in;
  location_of = λ db id. none;
  insert_row = ◌∷◌;
}

rows-IsTable : IsTable rows
rows-IsTable = record {
  id_at-insert = λ row db h. rw ((bytes_eq_iff row.location row.location).1 refl);
  id_at_other = λ row db location n. elim (Bool-cases (bytes_eq row.location location)) [
    | inl e ↦ absurd (n (sym ((bytes_eq_iff row.location location).0 e)))
    | inr e ↦ rw e
  ];
  parent_of-insert = λ row db h. rw ((==ℤ_iff row.id row.id).1 refl);
  parent_of_other = λ row db id n. elim (Bool-cases (row.id ==ℤ id)) [
    | inl e ↦ absurd (n (sym ((==ℤ_iff row.id id).0 e)))
    | inr e ↦ rw e
  ];
}

abbrev empty : Store rows
empty = record { db = []; last_id = pos 1; cache = none }

empty-IsTree : IsTree rows empty
empty-IsTree = record {
  linked = λ path id h. absurd (cc);
  known = λ id p h. absurd (cc);
  loaded = omega arith;
}

-- The store after "/a" was added.
abbrev started : Store rows
started =
    (add_container_chain rows 3 (47 ∷ 97 ∷ []) none invalid_object_id invalid_object_id empty).store

started-IsTree : IsTree rows started
started-IsTree =
    (add_container_chain-Adds rows rows-IsTable 3 (47 ∷ 97 ∷ []) none invalid_object_id
      invalid_object_id empty (omega arith) (refl, omega arith) empty-IsTree
      (inl (omega arith))).tree

-- "/a/b" is new, below "/a".
add_container_chain-Adds_example :
    Adds rows doubled started invalid_object_id
      (add_container_chain rows 7 doubled none invalid_object_id invalid_object_id started)
add_container_chain-Adds_example =
    add_container_chain-Adds rows rows-IsTable 7 doubled none invalid_object_id invalid_object_id
      started (omega arith) (refl, omega arith) started-IsTree (inl (omega arith))

add_container_chain_again_example :
    add_container_chain rows 7 doubled none invalid_object_id
      (pos 5)
      (add_container_chain rows 7 doubled none invalid_object_id invalid_object_id started).store
    ≡ record {
      store =
          (add_container_chain rows 7 doubled none invalid_object_id invalid_object_id
            started).store;
      container =
          (add_container_chain rows 7 doubled none invalid_object_id invalid_object_id
            started).container;
      update = pos 5;
    }
add_container_chain_again_example =
    add_container_chain_again rows rows-IsTable 7 doubled none invalid_object_id invalid_object_id
      started (omega arith) (refl, omega arith) started-IsTree (inl (omega arith)) none
      invalid_object_id (pos 5)

-- The ids of the new containers, and the one that got a new one.
chain_run :
    (add_container_chain rows 7 doubled none invalid_object_id invalid_object_id started).container
    ≡ some (pos 3)
unfolding add_container_chain is_root reduce strip add_last bytes_eq
chain_run = refl
