-- ===== src/Storage/Purge/Linked.antt =====
-- removeObject: a removal and the purge behind it, together.
use mathlib.Core.Option.{some_inj}
use gerber.Prelude.{
  ◌≡◌, inl, inr, refl, sym, ap, ◌∙◌, subst, Bool, true, false, Bool-cases, Option-cases, List, [],
  ◌∷◌, Option, none, some, length, All,
}
use gerber.Prelude.Int.{ℤ, ◌==ℤ◌, ==ℤ_iff, member}
use gerber.StorageCache.{Cache}
use gerber.Storage.Removal.{Object, Tables, remove_objects, recursive_remove}
use gerber.Storage.Removal.Rounds.{ids_of, IsSql, IsLinked}
use gerber.Storage.Removal.Asking.{IsAsked}
use gerber.Storage.Removal.Whole.{Removes, recursive_remove-Removes, object-remove_objects}
use gerber.Storage.Purge.{
  Container, Ending, nothing, throws, changes, purge_empty_containers, ended, remove_and_purge,
}
use gerber.Storage.Purge.Emptied.{IsRow, IsUseless, Cleans, same, more}
use gerber.Storage.Purge.Cleaning.{purge_empty_containers-Purges}

All-here : (P : ℤ → Type 0) (ids : List ℤ) (id : ℤ) → All P ids → member id ids ≡ true → P id
All-here P [] id h m = absurd (cc)
All-here P (x ∷ ids) id h m = elim (Bool-cases (x ==ℤ id)) [
  | inl e ↦ subst P ((==ℤ_iff x id).0 e) h.0
  | inr e ↦ All-here P ids id h.1 (rw e at m)
]

no_rows : (rows : List Object) (id : ℤ) → length rows ≡ 0 → member id (ids_of rows) ≡ true → ⊥
no_rows [] id h m = cc
no_rows (o ∷ rows) id h m = cc

module _ (t : Tables) (sql : IsSql t) (persistent : t.Db → ℤ → Bool) where
  open t use {Db, object, children}

  -- Deleting containers that hold nothing.
  module _ (db : Db) (ids : List ℤ) (useless : All (IsUseless t persistent db) ids) where
    here :
        (id : ℤ) (o : Object) → object (remove_objects t ids db) id ≡ some o → object db id ≡ some o
    here id o h = elim (Bool-cases (member id ids)) [
      | inl m ↦
          let bad : none ≡ some o = sym (object-remove_objects t sql ids db id ∙ rw m) ∙ h in
          absurd (cc)
      | inr m ↦ sym (object-remove_objects t sql ids db id ∙ rw m) ∙ h
    ]

    stays :
        (id : ℤ) (o : Object)
        → object db id ≡ some o
        → member id ids ≡ false
        → object (remove_objects t ids db) id ≡ some o
    stays id o h m = object-remove_objects t sql ids db id ∙ rw m h

    no_child : (id : ℤ) (o : Object) → object db id ≡ some o → member o.parent_id ids ≡ true → ⊥
    no_child id o h m =
        let (p, found, kind, empty, flag) =
          All-here (IsUseless t persistent db) ids o.parent_id useless m in
        no_rows (children db (o.parent_id ∷ [])) id empty (
          sql.children_all db (o.parent_id ∷ []) id o h
            (rw ((==ℤ_iff o.parent_id o.parent_id).1 refl)))

    no_item :
        (id : ℤ) (o : Object)
        → object db id ≡ some o
        → o.is_container ≡ false
        → member id ids ≡ false
    no_item id o h item = elim (Bool-cases (member id ids)) [
      | inr m ↦ m
      | inl m ↦
          let (p, found, kind, empty, flag) =
            All-here (IsUseless t persistent db) ids id useless m in
          let equal : p ≡ o = some_inj.0 (sym found ∙ h) in
          let bad : true ≡ false = sym kind ∙ ap (λ (q : Object). q.is_container) equal ∙ item in
          absurd (cc)
    ]

    deleted-IsLinked : IsLinked t db → IsLinked t (remove_objects t ids db)
    deleted-IsLinked linked = record {
      ref_there = λ id r o h e.
          let (i, found, item, bare) = linked.ref_there id r o (here id o h) e in
          (i, stays r i found (no_item r i found item), item, bare);
    }

    parent_stays :
        (id : ℤ) (o p : Object)
        → object (remove_objects t ids db) id ≡ some o
        → object db o.parent_id ≡ some p
        → object (remove_objects t ids db) o.parent_id ≡ some p
    parent_stays id o p h found = elim (Bool-cases (member o.parent_id ids)) [
      | inl m ↦ absurd (no_child id o (here id o h) m)
      | inr m ↦ stays o.parent_id p found m
    ]

  -- What every run of such deletions keeps.
  pub record Keeps (db db' : Db) : Type 0 where
    pub sub : (id : ℤ) (o : Object) → object db' id ≡ some o → object db id ≡ some o
    pub items :
        (id : ℤ) (o : Object)
        → object db id ≡ some o
        → o.is_container ≡ false
        → object db' id ≡ some o
    pub parents :
        (id : ℤ) (o p : Object)
        → object db' id ≡ some o
        → object db o.parent_id ≡ some p
        → object db' o.parent_id ≡ some p
    pub linked : IsLinked t db'

  cleans-Keeps : (db db' : Db) → IsLinked t db → Cleans t persistent db db' → Keeps db db'
  cleans-Keeps db _ linked same = record {
    sub = λ id o h. h;
    items = λ id o h item. h;
    parents = λ id o p h found. found;
    linked = linked;
  }
  cleans-Keeps db _ linked (more db' ids way useless) =
      let before = cleans-Keeps db db' linked way in
      record {
        sub = λ id o h. before.sub id o (here db' ids useless id o h);
        items = λ id o h item.
            let there = before.items id o h item in
            stays db' ids useless id o there (no_item db' ids useless id o there item);
        parents = λ id o p h found.
            parent_stays db' ids useless id o p h
              (before.parents id o p (here db' ids useless id o h) found);
        linked = deleted-IsLinked db' ids useless before.linked;
      }

  module _ (counts : Db → List ℤ → Option (List Container))
      (rows_lem : (db : Db) (ids : List ℤ) (rows : List Container)
        → counts db ids ≡ some rows
        → All (IsRow t persistent db) rows) where
    -- The database that an ending leaves.
    abbrev pub left_in : Db → Ending t counts → Db
    left_in db nothing = db
    left_in db (throws d) = d
    left_in db (changes p c) = p.db

    abbrev pub is_changes : Ending t counts → Bool
    is_changes nothing = false
    is_changes (throws d) = false
    is_changes (changes p c) = true

    purge-Keeps :
        (upnp ui : List ℤ) (cache : Option Cache) (db : Db)
        → IsLinked t db
        → Keeps db (purge_empty_containers t counts upnp ui cache db).1.0.db
    purge-Keeps upnp ui cache db linked =
        cleans-Keeps db _ linked
          (purge_empty_containers-Purges t persistent counts rows_lem db upnp ui cache).cleaned

    -- A removal and a purge, of items or of containers.
    pub remove_and_purge-Removes :
        (items containers : List ℤ) (all : Bool) (cache : Option Cache) (db : Db)
        → IsLinked t db
        → IsAsked t sql db items containers
        → is_changes (remove_and_purge t counts items containers all cache db) ≡ true
        → Removes t sql db
            (left_in db (remove_and_purge t counts items containers all cache db))
            items
            containers
    unfolding remove_and_purge ended
    remove_and_purge-Removes items containers all cache db linked asked h =
        let r = recursive_remove t items containers all db in
        let w = r.1 in
        let purged = purge_empty_containers t counts w.upnp w.ui cache w.db in
        elim (Bool-cases r.0) [
          | inr e ↦ let bad : false ≡ true = rw e at h in absurd (cc)
          | inl e ↦ elim (Bool-cases purged.0) [
            | inr f ↦ let bad : false ≡ true = rw (e, f) at h in absurd (cc)
            | inl f ↦
                let removed =
                  recursive_remove-Removes t sql db items containers all linked asked e in
                let kept = purge-Keeps w.upnp w.ui cache w.db removed.linked in
                rw (e, f)
                  (record {
                    kept = λ id o k. removed.kept id o (kept.sub id o k);
                    parents = λ id o p h found kind.
                        elim (removed.parents id o p (kept.sub id o h) found kind) [
                          | inl there ↦ inl (kept.parents id o p h there)
                          | inr (r, ref, absent) ↦
                              inr (r, ref, gone w.db purged.1.0.db r kept absent)
                        ];
                    asked_gone = λ id m. gone w.db purged.1.0.db id kept (removed.asked_gone id m);
                    linked = kept.linked;
                  })
          ]
        ]
      where
        gone : (db db' : Db) (id : ℤ) → Keeps db db' → object db id ≡ none → object db' id ≡ none
        gone db db' id kept h = elim (Option-cases (object db' id)) [
          | inl e ↦ e
          | inr (o, e) ↦ let bad : none ≡ some o = sym h ∙ kept.sub id o e in absurd (cc)
        ]
