-- ===== src/Storage/Removal/Whole.antt =====
-- What a whole removal leaves in the database.
use gerber.Prelude.{
  ℕ, zero, suc, ◌+◌, ◌≡◌, ◌⊎◌, inl, inr, refl, sym, ap, ◌∙◌, Bool, true, false, Bool-cases,
  Option-cases, List, [], ◌∷◌, ◌++◌, ◌||◌, none, some, if◌then◌else◌, ltb,
}
use gerber.Prelude.Int.{ℤ, member}
use gerber.Storage.Removal.{
  Object, Tables, Work, is_empty, not_empty, remove_objects, start, flush, round, is_pending,
  remove_loop, finish, recursive_remove, max_remove_recursion, max_remove_size, csv_length,
  to_delete,
}
use gerber.Storage.Removal.Rounds.{
  IsSql, IsLinked, Going, Inv, Inv-same, take_parents-Inv, take_references-Inv,
}
use gerber.Storage.Removal.Children.{take_containers-Inv}
use gerber.Storage.Removal.Asking.{IsAsked, start-Inv}

pub or_false : (a b : Bool) → (a || b) ≡ false → (a ≡ false) × (b ≡ false)
or_false true b h = (h, cc)
or_false false b h = (refl, h)

member-empty : (id : ℤ) (ids : List ℤ) → not_empty ids ≡ false → member id ids ≡ false
member-empty id [] h = refl
member-empty id (x ∷ ids) h = cc

member_none : (id : ℤ) (ids : List ℤ) → is_empty ids ≡ true → member id ids ≡ false
member_none id [] h = refl
member_none id (x ∷ ids) h = cc

module _ (t : Tables) (sql : IsSql t) where
  open t use {Db, object, autoscans, delete_autoscans, delete_active_items}

  pub object-remove_objects :
      (ids : List ℤ) (db : Db) (id : ℤ)
      → object (remove_objects t ids db) id ≡ (if member id ids then none else object db id)
  unfolding remove_objects
  object-remove_objects ids db id =
      sql.deleted _ ids id
      ∙ ap (λ o. if member id ids then none else o)
          (sql.active_apart _ ids id ∙ elim (Bool-cases (is_empty (to_delete (autoscans db ids)))) [
            | inl e ↦ rw e
            | inr e ↦ rw e (sql.autoscans_apart db (to_delete (autoscans db ids)) id)
          ])

  -- An object that is left still has its container, if that was there, unless the container referred
  -- to an item that is gone.
  abbrev pub KeepsParents : Db → Db → Type 0
  KeepsParents db db' =
      (id : ℤ) (o p : Object)
      → object db' id ≡ some o
      → object db o.parent_id ≡ some p
      → p.is_container ≡ true
      → (object db' o.parent_id ≡ some p) ⊎ ((r : ℤ) × (p.ref_id ≡ some r) × (object db' r ≡ none))

  module _ (old : Db) (linked : IsLinked t old) (roots : List ℤ) where
    -- The rows of `remove` are deleted.
    abbrev dropped : Work t → Work t
    dropped w = record w { db = remove_objects t w.remove w.db; remove = [] }

    gone : (w : Work t) (id : ℤ) → member id w.remove ≡ true → object (dropped w).db id ≡ none
    gone w id m = object-remove_objects w.remove w.db id ∙ rw m

    stays : (w : Work t) (id : ℤ) → object w.db id ≡ none → object (dropped w).db id ≡ none
    stays w id h =
        object-remove_objects w.remove w.db id
        ∙ rw h (elim (Bool-cases (member id w.remove)) [ inl e ↦ rw e | inr e ↦ rw e ])

    left_over :
        (w : Work t) (id : ℤ) (o : Object)
        → object (dropped w).db id ≡ some o
        → object w.db id ≡ some o
    left_over w id o h = elim (Bool-cases (member id w.remove)) [
      | inl e ↦ let bad = sym (gone w id e) ∙ h in cc
      | inr e ↦ sym (object-remove_objects w.remove w.db id ∙ rw e) ∙ h
    ]

    dropped-Inv :
        (w : Work t) → Inv t sql old linked roots [] w → Inv t sql old linked roots [] (dropped w)
    dropped-Inv w v =
        Inv-same t sql old linked roots w (dropped w) refl refl
          (λ id o h. v.sub id o (left_over w id o h))
          (λ id g. elim g [
            | inl m ↦ inr (inr (gone w id m))
            | inr (inl m) ↦ inr (inl m)
            | inr (inr h) ↦ inr (inr (stays w id h))
          ])
          (λ id g. elim g [
            | inl m ↦ absurd (cc)
            | inr (inl m) ↦ inr (inl m)
            | inr (inr h) ↦ elim (Bool-cases (member id w.remove)) [
              | inl e ↦ inl e
              | inr e ↦ inr (inr (sym (object-remove_objects w.remove w.db id ∙ rw e) ∙ h))
            ]
          ])
          v

    flush-Inv :
        (w : Work t) → Inv t sql old linked roots [] w → Inv t sql old linked roots [] (flush t w)
    unfolding flush
    flush-Inv w v = elim (Bool-cases (ltb max_remove_size (csv_length w.remove))) [
      | inl e ↦ rw e (dropped-Inv w v)
      | inr e ↦ rw e v
    ]

    pub round-Inv :
        (all : Bool) (w : Work t)
        → Inv t sql old linked roots [] w
        → Inv t sql old linked roots [] (round t all w)
    unfolding round
    round-Inv all w v = flush-Inv _ (
        take_containers-Inv t sql old linked roots all _ (
          take_references-Inv t sql old linked roots _
            (take_parents-Inv t sql old linked roots w v)))

    -- A loop that passes ends with nothing to be looked for.
    remove_loop-Inv :
        (left : ℕ) (all : Bool) (w : Work t)
        → Inv t sql old linked roots [] w
        → (remove_loop t left all w).0 ≡ true
        → Inv t sql old linked roots [] (remove_loop t left all w).1
          × (is_pending t (remove_loop t left all w).1 ≡ false)
    unfolding remove_loop
    remove_loop-Inv zero all w v h = elim (Bool-cases (is_pending t w)) [
      | inl e ↦ let bad : false ≡ true = rw e at h in absurd (cc)
      | inr e ↦ rw e (v, e)
    ]
    remove_loop-Inv (suc left) all w v h = elim (Bool-cases (is_pending t w)) [
      | inl e ↦ rw e (remove_loop-Inv left all (round t all w) (round-Inv all w v) (rw e at h))
      | inr e ↦ rw e (v, e)
    ]

    finish_same : (w : Work t) → is_empty w.remove ≡ true → finish t w ≡ w
    unfolding finish
    finish_same w e = rw e

    finish_more :
        (w : Work t)
        → is_empty w.remove ≡ false
        → finish t w ≡ record w { db = remove_objects t w.remove w.db }
    unfolding finish
    finish_more w e = rw e

    -- What stands in the database behind a loop that has passed.
    module _ (w : Work t) (v : Inv t sql old linked roots [] w)
        (done : is_pending t w ≡ false) where
      abbrev last : Db
      last = (finish t w).db

      last-object : (id : ℤ) → object last id ≡ object (dropped w).db id
      last-object id = elim (Bool-cases (is_empty w.remove)) [
        | inl e ↦
            ap (λ (db : Db). object db id) (ap (λ (r : Work t). r.db) (finish_same w e))
            ∙ sym (object-remove_objects w.remove w.db id ∙ rw (member_none id w.remove e))
        | inr e ↦ ap (λ (db : Db). object db id) (ap (λ (r : Work t). r.db) (finish_more w e))
      ]

      nothing_left :
          (id : ℤ)
          → (member id w.items ≡ false)
            × (member id w.containers ≡ false)
            × (member id w.add_parents ≡ false)
      unfolding is_pending
      nothing_left id =
          let (others, containers) =
            or_false (not_empty w.items || not_empty w.add_parents) (not_empty w.containers) done in
          let (items, add_parents) =
            or_false (not_empty w.items) (not_empty w.add_parents) others in
          (
            member-empty id w.items items,
            member-empty id w.containers containers,
            member-empty id w.add_parents add_parents,
          )

      went : (id : ℤ) → Going t w id → object last id ≡ none
      went id (inl m) = last-object id ∙ gone w id m
      went id (inr (inl m)) = let none_there = (nothing_left id).2 in absurd (cc)
      went id (inr (inr h)) = last-object id ∙ stays w id h

      came : (id : ℤ) (o : Object) → object last id ≡ some o → object old id ≡ some o
      came id o h = v.sub id o (left_over w id o (sym (last-object id) ∙ h))

      going_or_there :
          (id : ℤ) (o : Object) → object old id ≡ some o → Going t w id ⊎ (object last id ≡ some o)
      going_or_there id o h = elim (Option-cases (object last id)) [
        | inr (p, e) ↦ inr (e ∙ sym (came id p e) ∙ h)
        | inl e ↦ inl (elim (Bool-cases (member id w.remove)) [
          | inl m ↦ inl m
          | inr m ↦
              inr (
                inr
                  (sym (object-remove_objects w.remove w.db id ∙ rw m) ∙ sym (last-object id) ∙ e))
        ])
      ]

      -- What hangs on an object that went has gone, or the object went as a reference.
      child_went :
          (id : ℤ) (p o : Object)
          → object old o.parent_id ≡ some p
          → p.is_container ≡ true
          → Going t w o.parent_id
          → object old id ≡ some o
          → (object last id ≡ none) ⊎ ((r : ℤ) × (p.ref_id ≡ some r) × (object last r ≡ none))
      child_went id p o hp kind g ho = elim (v.closed o.parent_id id p o hp kind g ho refl) [
        | inl m ↦ let none_there = (nothing_left o.parent_id).1 in absurd (cc)
        | inr (inl m) ↦ absurd (cc)
        | inr (inr (inl f)) ↦ inl (went id f)
        | inr (inr (inr (inl (r, e, m)))) ↦ let none_there = (nothing_left r).0 in absurd (cc)
        | inr (inr (inr (inr (r, e, f)))) ↦ inr (r, e, went r f)
      ]

      reference_went :
          (i id : ℤ) (p o : Object)
          → object old i ≡ some p
          → p.is_container ≡ false
          → Going t w i
          → object old id ≡ some o
          → o.ref_id ≡ some i
          → object last id ≡ none
      reference_went i id p o hp kind g ho e = elim (v.refs i id p o hp kind g ho e) [
        | inl m ↦ let none_there = (nothing_left i).0 in absurd (cc)
        | inr f ↦ went id f
      ]

      last-IsLinked : IsLinked t last
      last-IsLinked = record {
        ref_there = λ id r o h e.
            let (i, hi, item, bare) = linked.ref_there id r o (came id o h) e in
            elim (going_or_there r i hi) [
              | inr there ↦ (i, there, item, bare)
              | inl g ↦
                  absurd (let absent = reference_went r id i o hi item g (came id o h) e in cc)
            ];
      }

      last-KeepsParents : KeepsParents old last
      last-KeepsParents id o p h hp kind = elim (going_or_there o.parent_id p hp) [
        | inr there ↦ inl there
        | inl g ↦ elim (child_went id p o hp kind g (came id o h)) [
          | inl absent ↦ absurd (cc)
          | inr dragged ↦ inr dragged
        ]
      ]

  -- What a removal leaves: an object is as it was or gone, those asked for are gone, the others have
  -- their containers, and references are to what is there.
  pub record Removes (db db' : Db) (items containers : List ℤ) : Type 0 where
    pub kept : (id : ℤ) (o : Object) → object db' id ≡ some o → object db id ≡ some o
    pub asked_gone : (id : ℤ) → member id (items ++ containers) ≡ true → object db' id ≡ none
    pub parents : KeepsParents db db'
    pub linked : IsLinked t db'

  pub recursive_remove-Removes :
      (db : Db) (items containers : List ℤ) (all : Bool)
      → IsLinked t db
      → IsAsked t sql db items containers
      → (recursive_remove t items containers all db).0 ≡ true
      → Removes db (recursive_remove t items containers all db).1.db items containers
  unfolding recursive_remove
  recursive_remove-Removes db items containers all linked a h =
      let roots = items ++ containers in
      let w = (remove_loop t (max_remove_recursion + 1) all (start t items containers db)).1 in
      let (v, done) =
        remove_loop-Inv db linked roots (max_remove_recursion + 1) all (start t items containers db)
          (start-Inv t sql db linked items containers a) h in
      rw h (record {
        kept = came db linked roots w v done;
        asked_gone = λ id m. went db linked roots w v done id (v.asked id m);
        parents = last-KeepsParents db linked roots w v done;
        linked = last-IsLinked db linked roots w v done;
      })
