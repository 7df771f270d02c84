-- ===== src/Storage/Removal/Children.antt =====
-- What the loop over the children of the containers keeps.
use gerber.Prelude.{
  ◌≡◌, ◌⊎◌, inl, inr, refl, sym, ap, ◌∙◌, subst, Bool, true, false, Bool-cases, Option-cases, List,
  [], ◌∷◌, ◌++◌, Option, none, some, if◌then◌else◌, All, All-mono,
}
use gerber.Prelude.Int.{
  ℤ, ◌==ℤ◌, ==ℤ_iff, member, member-left, member-append, member_last, member_single,
}
use gerber.Storage.Removal.{
  Object, Tables, Work, is_empty, take_child, take_children, take_containers,
}
use gerber.Storage.Removal.Rounds.{ids_of, IsSql, IsLinked, Going, Waiting, Inv, still, same_object}

referred :
    (all : Bool) (ref_id : Option ℤ) (r : ℤ)
    → (if all then ref_id else none) ≡ some r
    → ref_id ≡ some r
referred true ref_id r e = e
referred false ref_id r e = cc

module _ (t : Tables) (sql : IsSql t) where
  open t use {Db, object, references, children}

  module _ (old : Db) (linked : IsLinked t old) (roots : List ℤ) where
    -- A child is taken: `x` is the id that goes, and it is queued by its kind.
    record Grows (o : Object) (x : ℤ) (w w' : Work t) : Type 0 where
      pub same_db : w'.db ≡ w.db
      pub on : (id : ℤ) → Going t w id → Going t w' id
      pub back : (id : ℤ) → Going t w' id → Going t w id ⊎ (x ≡ id)
      pub containers : (c : ℤ) → member c w.containers ≡ true → member c w'.containers ≡ true
      pub items : (i : ℤ) → member i w.items ≡ true → member i w'.items ≡ true
      pub new_container :
          (p : Object)
          → object old x ≡ some p
          → p.is_container ≡ true
          → member x w'.containers ≡ true
      pub new_item :
          (p : Object) → object old x ≡ some p → p.is_container ≡ false → member x w'.items ≡ true
      pub old_items : (i : ℤ) → member i w'.items ≡ true → (member i w.items ≡ true) ⊎ (x ≡ i)
      pub goes : Going t w' x
      pub handled : Going t w' o.id ⊎ Waiting t w' o

    module _ (o : Object) (rows : List Object) (x : ℤ) (w w' : Work t)
        (here : object old o.id ≡ some o) (g : Grows o x w w')
        (v : Inv t sql old linked roots (o ∷ rows) w) where
      later_rows :
          (id : ℤ) (q : Object)
          → object old id ≡ some q
          → member id (ids_of (o ∷ rows)) ≡ true
          → (member id (ids_of rows) ≡ true) ⊎ (Going t w' id ⊎ Waiting t w' q)
      later_rows id q h m = elim (Bool-cases (o.id ==ℤ id)) [
        | inr e ↦ inl (rw e at m)
        | inl e ↦
            let same = (==ℤ_iff o.id id).0 e in
            let equal =
              same_object t sql old linked roots o.id o q here (ap (object old) same ∙ h) in
            elim g.handled [
              | inl f ↦ inr (inl (subst (Going t w') same f))
              | inr f ↦ inr (inr (subst (Waiting t w') equal f))
            ]
      ]

      Grows-Inv : Inv t sql old linked roots rows w'
      Grows-Inv = record {
        asked = λ id m. g.on id (v.asked id m);
        sub =
            subst
              (λ (db : Db). (id : ℤ) (o : Object) → object db id ≡ some o → object old id ≡ some o)
              (sym g.same_db) v.sub;
        closed = λ c id p q hp kind going hq e. elim (g.back c going) [
          | inr new ↦ inl (
              subst (λ i. member i w'.containers ≡ true) new
                (g.new_container p (ap (object old) new ∙ hp) kind))
          | inl before ↦ elim (v.closed c id p q hp kind before hq e) [
            | inl f ↦ inl (g.containers c f)
            | inr (inl f) ↦ elim (later_rows id q hq f) [
              | inl k ↦ inr (inl k)
              | inr (inl k) ↦ inr (inr (inl k))
              | inr (inr k) ↦ inr (inr (inr (inl k)))
            ]
            | inr (inr (inl f)) ↦ inr (inr (inl (g.on id f)))
            | inr (inr (inr (inl (r, f, m)))) ↦ inr (inr (inr (inl (r, f, g.items r m))))
            | inr (inr (inr (inr (r, f, m)))) ↦ inr (inr (inr (inr (r, f, g.on r m))))
          ]
        ];
        queued = λ i m. elim (g.old_items i m) [
          | inl k ↦ g.on i (v.queued i k)
          | inr e ↦ subst (Going t w') e g.goes
        ];
        refs = λ i id p q hp kind going hq e. elim (g.back i going) [
          | inr new ↦ inl (
              subst (λ i. member i w'.items ≡ true) new
                (g.new_item p (ap (object old) new ∙ hp) kind))
          | inl before ↦ elim (v.refs i id p q hp kind before hq e) [
            | inl m ↦ inl (g.items i m)
            | inr f ↦ inr (g.on id f)
          ]
        ];
      }

    module _ (o : Object) (w : Work t) (here : object old o.id ≡ some o) where
      -- No other row has the id.
      the_row : (p : Object) → object old o.id ≡ some p → o ≡ p
      the_row p h = same_object t sql old linked roots o.id o p here h

      container-Grows :
          o.is_container ≡ true
          → Grows o o.id w
              (record w { containers = w.containers ++ o.id ∷ []; remove = w.remove ++ o.id ∷ [] })
      container-Grows kind = record {
        same_db = refl;
        on = λ id g. elim g [ inl m ↦ inl (member-left id w.remove _ m) | inr f ↦ inr f ];
        back = λ id g. elim g [
          | inr f ↦ inl (inr f)
          | inl m ↦ elim (member-append id w.remove (o.id ∷ []) m) [
            | inl k ↦ inl (inl k)
            | inr k ↦ inr (member_single id o.id k)
          ]
        ];
        containers = λ c m. member-left c w.containers _ m;
        items = λ i m. m;
        new_container = λ p h k. member_last o.id w.containers;
        new_item = λ p h k. let same = the_row p h in cc;
        old_items = λ i m. inl m;
        goes = inl (member_last o.id w.remove);
        handled = inl (inl (member_last o.id w.remove));
      }

      item-Grows :
          o.is_container ≡ false
          → Grows o o.id w
              (record w { remove = w.remove ++ o.id ∷ []; items = w.items ++ o.id ∷ [] })
      item-Grows kind = record {
        same_db = refl;
        on = λ id g. elim g [ inl m ↦ inl (member-left id w.remove _ m) | inr f ↦ inr f ];
        back = λ id g. elim g [
          | inr f ↦ inl (inr f)
          | inl m ↦ elim (member-append id w.remove (o.id ∷ []) m) [
            | inl k ↦ inl (inl k)
            | inr k ↦ inr (member_single id o.id k)
          ]
        ];
        containers = λ c m. m;
        items = λ i m. member-left i w.items _ m;
        new_container = λ p h k. let same = the_row p h in cc;
        new_item = λ p h k. member_last o.id w.items;
        old_items = λ i m. elim (member-append i w.items (o.id ∷ []) m) [
          | inl k ↦ inl k
          | inr k ↦ inr (member_single i o.id k)
        ];
        goes = inl (member_last o.id w.remove);
        handled = inl (inl (member_last o.id w.remove));
      }

      reference-Grows :
          (r : ℤ)
          → o.ref_id ≡ some r
          → Grows o r w
              (record w { add_parents = w.add_parents ++ r ∷ []; items = w.items ++ r ∷ [] })
      reference-Grows r e = record {
        same_db = refl;
        on = λ id g. elim g [
          | inl m ↦ inl m
          | inr (inl m) ↦ inr (inl (member-left id w.add_parents _ m))
          | inr (inr f) ↦ inr (inr f)
        ];
        back = λ id g. elim g [
          | inl m ↦ inl (inl m)
          | inr (inr f) ↦ inl (inr (inr f))
          | inr (inl m) ↦ elim (member-append id w.add_parents (r ∷ []) m) [
            | inl k ↦ inl (inr (inl k))
            | inr k ↦ inr (member_single id r k)
          ]
        ];
        containers = λ c m. m;
        items = λ i m. member-left i w.items _ m;
        new_container = λ p h k.
            let (q, hq, item, bare) = linked.ref_there o.id r o here e in
            let same = same_object t sql old linked roots r p q h hq in cc;
        new_item = λ p h k. member_last r w.items;
        old_items = λ i m. elim (member-append i w.items (r ∷ []) m) [
          | inl k ↦ inl k
          | inr k ↦ inr (member_single i r k)
        ];
        goes = inr (inl (member_last r w.add_parents));
        handled = inr (r, e, member_last r w.items);
      }

    take_child-Inv :
        (all : Bool) (o : Object) (rows : List Object) (w : Work t)
        → object old o.id ≡ some o
        → Inv t sql old linked roots (o ∷ rows) w
        → Inv t sql old linked roots rows (take_child t all o w)
    unfolding take_child
    take_child-Inv all o rows w here v = elim (Bool-cases o.is_container) [
      | inl k ↦ rw k (Grows-Inv o rows o.id w _ here (container-Grows o w here k) v)
      | inr k ↦ elim (Option-cases (if all then o.ref_id else none)) [
        | inl e ↦ rw (k, e, take_child) (Grows-Inv o rows o.id w _ here (item-Grows o w here k) v)
        | inr (r, e) ↦
            rw (k, e, take_child)
              (Grows-Inv o rows r w _ here (reference-Grows o w here r (referred all o.ref_id r e))
                v)
      ]
    ]

    take_children-Inv :
        (all : Bool) (rows : List Object) (w : Work t)
        → All (λ o. object old o.id ≡ some o) rows
        → Inv t sql old linked roots rows w
        → Inv t sql old linked roots [] (take_children t all rows w)
    unfolding take_children
    take_children-Inv all [] w h v = v
    take_children-Inv all (o ∷ rows) w h v =
        take_children-Inv all rows (take_child t all o w) h.1 (take_child-Inv all o rows w h.0 v)

    emptied-Inv :
        (w : Work t)
        → Inv t sql old linked roots [] w
        → Inv t sql old linked roots (children w.db w.containers) (record w { containers = [] })
    emptied-Inv w v = record {
      sub = v.sub;
      asked = v.asked;
      closed = λ c id p o hp kind g ho e. elim (v.closed c id p o hp kind g ho e) [
        | inl m ↦ elim (still t sql old linked roots [] w v id o ho) [
          | inl gone ↦ inr (inr (inl (inr (inr gone))))
          | inr there ↦ inr (
              inl (
                sql.children_all w.db w.containers id o there
                  (subst (λ i. member i w.containers ≡ true) (sym e) m)))
        ]
        | inr (inl m) ↦ absurd (cc)
        | inr (inr f) ↦ inr (inr f)
      ];
      refs = v.refs;
      queued = v.queued;
    }

    pub take_containers-Inv :
        (all : Bool) (w : Work t)
        → Inv t sql old linked roots [] w
        → Inv t sql old linked roots [] (take_containers t all w)
    unfolding take_containers
    take_containers-Inv all w v = elim (Bool-cases (is_empty w.containers)) [
      | inl e ↦ rw e v
      | inr e ↦ rw e (
          take_children-Inv all (children w.db w.containers) (record w { containers = [] })
            (All-mono (λ o h. v.sub o.id o h.0) (children w.db w.containers)
              (sql.children_rows w.db w.containers))
            (emptied-Inv w v))
    ]
