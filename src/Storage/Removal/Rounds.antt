-- ===== src/Storage/Removal/Rounds.antt =====
-- What the rounds of a removal keep.
use mathlib.Core.Option
use gerber.Prelude.{
  ◌≡◌, ◌⊎◌, inl, inr, refl, sym, ap, ◌∙◌, true, false, Bool-cases, Option-cases, List, [], ◌++◌,
  map, Option, none, some, subst, if◌then◌else◌, All,
}
use gerber.Prelude.Int.{ℤ, member, member-left, member-right, member-append}
use gerber.Storage.Removal.{Object, Tables, Work, is_empty, take_parents, take_references}

abbrev pub ids_of : List Object → List ℤ
ids_of rows = map (λ o. o.id) rows

module _ (t : Tables) where
  open t use {
    Db, object, references, children, delete_autoscans, delete_active_items, delete_objects,
  }

  -- What the queries and statements give.
  pub record IsSql : Type 0 where
    pub keyed : (db : Db) (id : ℤ) (o : Object) → object db id ≡ some o → o.id ≡ id
    pub references_all :
        (db : Db) (ids : List ℤ) (id r : ℤ) (o : Object)
        → object db id ≡ some o
        → o.ref_id ≡ some r
        → member r ids ≡ true
        → member id (ids_of (references db ids)) ≡ true
    pub references_only :
        (db : Db) (ids : List ℤ) (id : ℤ)
        → member id (ids_of (references db ids)) ≡ true
        → (o : Object) × (r : ℤ) × (object db id ≡ some o)
          × (o.ref_id ≡ some r)
          × (member r ids ≡ true)
    pub children_all :
        (db : Db) (ids : List ℤ) (id : ℤ) (o : Object)
        → object db id ≡ some o
        → member o.parent_id ids ≡ true
        → member id (ids_of (children db ids)) ≡ true
    pub children_rows :
        (db : Db) (ids : List ℤ)
        → All (λ o. (object db o.id ≡ some o) × (member o.parent_id ids ≡ true)) (children db ids)
    pub deleted :
        (db : Db) (ids : List ℤ) (id : ℤ)
        → object (delete_objects ids db) id ≡ (if member id ids then none else object db id)
    pub autoscans_apart :
        (db : Db) (ids : List ℤ) (id : ℤ) → object (delete_autoscans ids db) id ≡ object db id
    pub active_apart :
        (db : Db) (ids : List ℤ) (id : ℤ) → object (delete_active_items ids db) id ≡ object db id

  -- A reference is to an item that has none. Items and containers may have one; an object may stand
  -- in a container that is not there.
  pub record IsLinked (db : Db) : Type 0 where
    pub ref_there :
        (id r : ℤ) (o : Object)
        → object db id ≡ some o
        → o.ref_id ≡ some r
        → (i : Object) × (object db r ≡ some i) × (i.is_container ≡ false) × (i.ref_id ≡ none)

  -- An object that is gone, or about to go.
  abbrev pub Going : Work t → ℤ → Type 0
  Going w id =
      (member id w.remove ≡ true) ⊎ ((member id w.add_parents ≡ true) ⊎ (object w.db id ≡ none))

  abbrev pub Waiting : Work t → Object → Type 0
  Waiting w o = (r : ℤ) × (o.ref_id ≡ some r) × (member r w.items ≡ true)

  -- A container that refers to what is going. It goes as a reference, without what it holds.
  abbrev pub Dragged : Work t → Object → Type 0
  Dragged w p = (r : ℤ) × (p.ref_id ≡ some r) × Going w r

  module _ (sql : IsSql) (old : Db) (linked : IsLinked old) (roots : List ℤ) where
    -- With `rows` still to be taken: what hangs on an object that goes is going, or is found later.
    pub record Inv (rows : List Object) (w : Work t) : Type 0 where
      pub sub : (id : ℤ) (o : Object) → object w.db id ≡ some o → object old id ≡ some o
      pub asked : (id : ℤ) → member id roots ≡ true → Going w id
      pub closed :
          (c id : ℤ) (p o : Object)
          → object old c ≡ some p
          → p.is_container ≡ true
          → Going w c
          → object old id ≡ some o
          → o.parent_id ≡ c
          → (member c w.containers ≡ true)
            ⊎ ((member id (ids_of rows) ≡ true) ⊎ (Going w id ⊎ (Waiting w o ⊎ Dragged w p)))
      pub queued : (i : ℤ) → member i w.items ≡ true → Going w i
      pub refs :
          (i id : ℤ) (p o : Object)
          → object old i ≡ some p
          → p.is_container ≡ false
          → Going w i
          → object old id ≡ some o
          → o.ref_id ≡ some i
          → (member i w.items ≡ true) ⊎ Going w id

    pub same_object :
        (id : ℤ) (o p : Object) → object old id ≡ some o → object old id ≡ some p → o ≡ p
    same_object id o p h k = ap (λ (q : Option Object). Option.get_or q o) (sym h ∙ k)

    -- What is not deleted yet is as it was.
    pub still :
        (rows : List Object) (w : Work t)
        → Inv rows w
        → (id : ℤ) (o : Object) → object old id ≡ some o
        → (object w.db id ≡ none) ⊎ (object w.db id ≡ some o)
    still rows w v id o h = elim (Option-cases (object w.db id)) [
      | inl e ↦ inl e
      | inr (p, e) ↦ inr (e ∙ sym (v.sub id p e) ∙ h)
    ]

    -- A step that leaves what is searched for, and does not change what is going.
    pub Inv-same :
        (w w' : Work t)
        → w'.items ≡ w.items
        → w'.containers ≡ w.containers
        → ((id : ℤ) (o : Object) → object w'.db id ≡ some o → object old id ≡ some o)
        → ((id : ℤ) → Going w id → Going w' id)
        → ((id : ℤ) → Going w' id → Going w id)
        → Inv [] w
        → Inv [] w'
    Inv-same w w' items containers sub on back v = record {
      sub = sub;
      asked = λ id m. on id (v.asked id m);
      closed = λ c id p o hp kind g ho e. elim (v.closed c id p o hp kind (back c g) ho e) [
        | inl f ↦ inl (rw containers f)
        | inr (inl f) ↦ inr (inl f)
        | inr (inr (inl f)) ↦ inr (inr (inl (on id f)))
        | inr (inr (inr (inl (r, f, m)))) ↦ inr (inr (inr (inl (r, f, rw items m))))
        | inr (inr (inr (inr (r, f, m)))) ↦ inr (inr (inr (inr (r, f, on r m))))
      ];
      queued = λ i m. on i (v.queued i (subst (λ xs. member i xs ≡ true) items m));
      refs = λ i id p o hp kind g ho e. elim (v.refs i id p o hp kind (back i g) ho e) [
        | inl f ↦ inl (rw items f)
        | inr f ↦ inr (on id f)
      ];
    }

    pub take_parents-Inv : (w : Work t) → Inv [] w → Inv [] (take_parents t w)
    unfolding take_parents
    take_parents-Inv w v = elim (Bool-cases (is_empty w.add_parents)) [
      | inl e ↦ rw e v
      | inr e ↦ rw e (
          Inv-same w _ refl refl v.sub
            (λ id g. elim g [
              | inl m ↦ inl (member-left id w.remove w.add_parents m)
              | inr (inl m) ↦ inl (member-right id w.remove w.add_parents m)
              | inr (inr h) ↦ inr (inr h)
            ])
            (λ id g. elim g [
              | inl m ↦ elim (member-append id w.remove w.add_parents m) [
                | inl k ↦ inl k
                | inr k ↦ inr (inl k)
              ]
              | inr (inl m) ↦ absurd (cc)
              | inr (inr h) ↦ inr (inr h)
            ])
            v)
    ]

    -- What is going after the objects that refer to `items` were taken.
    module _ (w : Work t) (v : Inv [] w) where
      abbrev found : List ℤ
      found = ids_of (references w.db w.items)

      abbrev taken : Work t
      taken = record w {
        remove = w.remove ++ found;
        upnp = w.upnp ++ map (λ o. o.parent_id) (references w.db w.items);
        items = [];
      }

      taken_on : (id : ℤ) → Going w id → Going taken id
      taken_on id (inl m) = inl (member-left id w.remove found m)
      taken_on id (inr g) = inr g

      taken_back :
          (id : ℤ)
          → Going taken id
          → Going w id
            ⊎ ((o : Object) × (r : ℤ) × (object old id ≡ some o)
                × (o.ref_id ≡ some r)
                × (member r w.items ≡ true))
      taken_back id (inr g) = inl (inr g)
      taken_back id (inl m) = elim (member-append id w.remove found m) [
        | inl k ↦ inl (inl k)
        | inr k ↦
            let (o, r, h, e, m) = sql.references_only w.db w.items id k in
            inr (o, r, v.sub id o h, e, m)
      ]

      -- A referring object is found.
      taken_ref :
          (id r : ℤ) (o : Object)
          → object old id ≡ some o
          → o.ref_id ≡ some r
          → member r w.items ≡ true
          → Going taken id
      taken_ref id r o h e m = elim (still [] w v id o h) [
        | inl gone ↦ inr (inr gone)
        | inr here ↦
            inl (member-right id w.remove found (sql.references_all w.db w.items id r o here e m))
      ]

      taken-Inv : Inv [] taken
      taken-Inv = record {
        sub = v.sub;
        asked = λ id m. taken_on id (v.asked id m);
        closed = λ c id p o hp kind g ho e. elim (taken_back c g) [
          | inl before ↦ elim (v.closed c id p o hp kind before ho e) [
            | inl f ↦ inl f
            | inr (inl f) ↦ inr (inl f)
            | inr (inr (inl f)) ↦ inr (inr (inl (taken_on id f)))
            | inr (inr (inr (inl (r, f, m)))) ↦ inr (inr (inl (taken_ref id r o ho f m)))
            | inr (inr (inr (inr (r, f, m)))) ↦ inr (inr (inr (inr (r, f, taken_on r m))))
          ]
          | inr (q, r, hq, f, m) ↦
              let equal = same_object c q p hq hp in
              let refers : p.ref_id ≡ some r = sym (ap (λ (x : Object). x.ref_id) equal) ∙ f in
              inr (inr (inr (inr (r, refers, taken_on r (v.queued r m)))))
        ];
        queued = λ i m. absurd (cc);
        refs = λ i id p o hp kind g ho e. elim (taken_back i g) [
          | inl before ↦ elim (v.refs i id p o hp kind before ho e) [
            | inl m ↦ inr (taken_ref id i o ho e m)
            | inr f ↦ inr (taken_on id f)
          ]
          | inr (q, r, hq, f, m) ↦ absurd (
              let (j, hj, item, bare) = linked.ref_there id i o ho e in
              let same = same_object i j q hj hq in cc)
        ];
      }

      pub take_references-Inv : Inv [] (take_references t w)
      unfolding take_references
      take_references-Inv = elim (Bool-cases (is_empty w.items)) [
        | inl e ↦ rw e v
        | inr e ↦ rw e taken-Inv
      ]
