-- ===== src/Storage/Removal/Passing.antt =====
-- A removal passes where the containers do not stand too deep.
use gerber.Prelude.{
  ℕ, zero, suc, ◌+◌, ◌<◌, ◌≡◌, inl, inr, refl, sym, ap, ◌∙◌, subst, Bool, true, false, Bool-cases,
  Option-cases, List, [], ◌∷◌, none, some, ltb, if◌then◌else◌, arith, All, All-mono,
}
use gerber.Prelude.Int.{ℤ, member, member-append, member_single, ==ℤ_iff}
use gerber.Storage.Removal.{
  Object, Tables, Work, is_empty, start, flush, round, is_pending, remove_loop, recursive_remove,
  take_child, take_children, take_containers, take_references, take_parents, max_remove_recursion,
  max_remove_size, csv_length,
}
use gerber.Storage.Removal.Rounds.{IsSql}
use gerber.Storage.Removal.Whole.{object-remove_objects}

pub empty_nil : (ids : List ℤ) → is_empty ids ≡ true → ids ≡ []
empty_nil [] h = refl
empty_nil (id ∷ ids) h = cc

within_none :
    (depth : ℤ → ℕ) (ids : List ℤ) → ((c : ℤ) → member c ids ≡ true → depth c < 0) → ids ≡ []
within_none depth [] h = refl
within_none depth (id ∷ ids) h = absurd (omega (arith, h id (rw ((==ℤ_iff id id).1 refl))))

module _ (t : Tables) (sql : IsSql t) where
  open t use {Db, object, children}

  -- The depth below a container falls from a container to those in it.
  abbrev pub Falls : Db → (ℤ → ℕ) → Type 0
  Falls db depth =
      (id : ℤ) (o : Object)
      → object db id ≡ some o
      → o.is_container ≡ true
      → depth id < depth o.parent_id

  abbrev pub Within : (ℤ → ℕ) → ℕ → List ℤ → Type 0
  Within depth n ids = (c : ℤ) → member c ids ≡ true → depth c < n

  module _ (depth : ℤ → ℕ) (n : ℕ) where
    take_child-Within :
        (all : Bool) (o : Object) (w : Work t)
        → (o.is_container ≡ true → depth o.id < n)
        → Within depth n w.containers
        → Within depth n (take_child t all o w).containers
    unfolding take_child
    take_child-Within all o w h v c m = elim (Bool-cases o.is_container) [
      | inl e ↦ elim (member-append c w.containers (o.id ∷ []) (rw e at m)) [
        | inl k ↦ v c k
        | inr k ↦ subst (λ i. depth i < n) (member_single c o.id k) (h e)
      ]
      | inr e ↦ elim (Option-cases (if all then o.ref_id else none)) [
        | inl f ↦ v c (rw (e, f, take_child) at m)
        | inr (r, f) ↦ v c (rw (e, f, take_child) at m)
      ]
    ]

    take_children-Within :
        (all : Bool) (rows : List Object) (w : Work t)
        → All (λ o. o.is_container ≡ true → depth o.id < n) rows
        → Within depth n w.containers
        → Within depth n (take_children t all rows w).containers
    unfolding take_children
    take_children-Within all [] w h v = v
    take_children-Within all (o ∷ rows) w h v =
        take_children-Within all rows (take_child t all o w) h.1 (take_child-Within all o w h.0 v)

  parents-containers : (w : Work t) → (take_parents t w).containers ≡ w.containers
  unfolding take_parents
  parents-containers w = ground arith

  references-containers : (w : Work t) → (take_references t w).containers ≡ w.containers
  unfolding take_references
  references-containers w = ground arith

  flush-containers : (w : Work t) → (flush t w).containers ≡ w.containers
  unfolding flush
  flush-containers w = ground arith

  flush-is_pending : (w : Work t) → is_pending t (flush t w) ≡ is_pending t w
  unfolding flush is_pending
  flush-is_pending w = ground arith

  -- What the two first parts of a round leave.
  parents-add_parents : (w : Work t) → (take_parents t w).add_parents ≡ []
  unfolding take_parents
  parents-add_parents w = elim (Bool-cases (is_empty w.add_parents)) [
    | inl e ↦ rw e (empty_nil w.add_parents e)
    | inr e ↦ rw e
  ]

  references-add_parents : (w : Work t) → (take_references t w).add_parents ≡ w.add_parents
  unfolding take_references
  references-add_parents w = ground arith

  references-items : (w : Work t) → (take_references t w).items ≡ []
  unfolding take_references
  references-items w = elim (Bool-cases (is_empty w.items)) [
    | inl e ↦ rw e (empty_nil w.items e)
    | inr e ↦ rw e
  ]

  not_pending :
      (w : Work t) → w.items ≡ [] → w.add_parents ≡ [] → w.containers ≡ [] → is_pending t w ≡ false
  unfolding is_pending
  not_pending w e f g = rw (e, f, g)

  take_containers_none : (all : Bool) (w : Work t) → w.containers ≡ [] → take_containers t all w ≡ w
  unfolding take_containers
  take_containers_none all w e = rw (ap is_empty e, take_containers)

  -- The state of a round before its third part.
  abbrev middle : Work t → Work t
  middle w = take_references t (take_parents t w)

  middle-containers : (w : Work t) → (middle w).containers ≡ w.containers
  middle-containers w = references-containers (take_parents t w) ∙ parents-containers w

  -- Without containers a round leaves nothing to be looked for.
  round_last : (all : Bool) (w : Work t) → w.containers ≡ [] → is_pending t (round t all w) ≡ false
  unfolding round
  round_last all w e =
      flush-is_pending (take_containers t all (middle w))
      ∙ ap (is_pending t) (take_containers_none all (middle w) (middle-containers w ∙ e))
      ∙ not_pending (middle w) (references-items (take_parents t w))
          (references-add_parents (take_parents t w) ∙ parents-add_parents w)
          (middle-containers w ∙ e)

  -- A round deletes only.
  take_child-db : (all : Bool) (o : Object) (w : Work t) → (take_child t all o w).db ≡ w.db
  unfolding take_child
  take_child-db all o w = elim (Bool-cases o.is_container) [
    | inl e ↦ rw e
    | inr e ↦ elim (Option-cases (if all then o.ref_id else none)) [
      | inl f ↦ rw (e, f, take_child)
      | inr (r, f) ↦ rw (e, f, take_child)
    ]
  ]

  take_children-db :
      (all : Bool) (rows : List Object) (w : Work t) → (take_children t all rows w).db ≡ w.db
  unfolding take_children
  take_children-db all [] w = refl
  take_children-db all (o ∷ rows) w =
      take_children-db all rows (take_child t all o w) ∙ take_child-db all o w

  parents-db : (w : Work t) → (take_parents t w).db ≡ w.db
  unfolding take_parents
  parents-db w = ground arith

  references-db : (w : Work t) → (take_references t w).db ≡ w.db
  unfolding take_references
  references-db w = ground arith

  middle-db : (w : Work t) → (middle w).db ≡ w.db
  middle-db w = references-db (take_parents t w) ∙ parents-db w

  take_containers-db : (all : Bool) (w : Work t) → (take_containers t all w).db ≡ w.db
  unfolding take_containers
  take_containers-db all w = elim (Bool-cases (is_empty w.containers)) [
    | inl e ↦ rw e
    | inr e ↦
        rw e (take_children-db all (children w.db w.containers) (record w { containers = [] }))
  ]

  -- Nothing but objects of `old` is left.
  abbrev Came : Db → Db → Type 0
  Came old db = (id : ℤ) (o : Object) → object db id ≡ some o → object old id ≡ some o

  flush-Came : (old : Db) (w : Work t) → Came old w.db → Came old (flush t w).db
  unfolding flush
  flush-Came old w v = elim (Bool-cases (ltb max_remove_size (csv_length w.remove))) [
    | inl e ↦ rw e (λ id o h. elim (Bool-cases (member id w.remove)) [
      | inl m ↦
          let bad : none ≡ some o = sym (object-remove_objects t sql w.remove w.db id ∙ rw m) ∙ h in
          absurd (cc)
      | inr m ↦ v id o (sym (object-remove_objects t sql w.remove w.db id ∙ rw m) ∙ h)
    ])
    | inr e ↦ rw e v
  ]

  round-Came : (old : Db) (all : Bool) (w : Work t) → Came old w.db → Came old (round t all w).db
  unfolding round
  round-Came old all w v =
      flush-Came old (take_containers t all (middle w))
        (subst (Came old) (sym (take_containers-db all (middle w) ∙ middle-db w)) v)

  module _ (old : Db) (depth : ℤ → ℕ) (falls : Falls old depth) where
    child_depth :
        (n : ℕ) (w : Work t)
        → Came old w.db
        → Within depth (suc n) w.containers
        → All (λ o. o.is_container ≡ true → depth o.id < n) (children w.db w.containers)
    child_depth n w v h =
        All-mono
          (λ o row kind.
            let above = h o.parent_id row.1 in
            let falling = falls o.id o (v o.id o row.0) kind in omega arith)
          (children w.db w.containers) (sql.children_rows w.db w.containers)

    take_containers-Within :
        (n : ℕ) (all : Bool) (w : Work t)
        → Came old w.db
        → Within depth (suc n) w.containers
        → Within depth n (take_containers t all w).containers
    unfolding take_containers
    take_containers-Within n all w v h = elim (Bool-cases (is_empty w.containers)) [
      | inl e ↦ rw e (λ c m.
          let none_there = empty_nil w.containers e in
          let absent : member c [] ≡ true = subst (λ ids. member c ids ≡ true) none_there m in cc)
      | inr e ↦ rw e (
          take_children-Within depth n all (children w.db w.containers)
            (record w { containers = [] }) (child_depth n w v h) (λ c m. cc))
    ]

    round-Within :
        (n : ℕ) (all : Bool) (w : Work t)
        → Came old w.db
        → Within depth (suc n) w.containers
        → Within depth n (round t all w).containers
    unfolding round
    round-Within n all w v h =
        subst (Within depth n) (sym (flush-containers (take_containers t all (middle w)))) (
          take_containers-Within n all (middle w) (subst (Came old) (sym (middle-db w)) v)
            (subst (Within depth (suc n)) (sym (middle-containers w)) h))

    remove_loop_done :
        (left : ℕ) (all : Bool) (w : Work t)
        → is_pending t w ≡ false
        → (remove_loop t left all w).0 ≡ true
    unfolding remove_loop
    remove_loop_done zero all w e = rw e
    remove_loop_done (suc left) all w e = rw e

    remove_loop_passes :
        (left n : ℕ) (all : Bool) (w : Work t)
        → n < left
        → Came old w.db
        → Within depth n w.containers
        → (remove_loop t left all w).0 ≡ true
    unfolding remove_loop
    remove_loop_passes zero n all w l v h = absurd (omega arith)
    remove_loop_passes (suc left) zero all w l v h = elim (Bool-cases (is_pending t w)) [
      | inl e ↦ rw e (
          remove_loop_done left all (round t all w)
            (round_last all w (within_none depth w.containers h)))
      | inr e ↦ rw e
    ]
    remove_loop_passes (suc left) (suc n) all w l v h = elim (Bool-cases (is_pending t w)) [
      | inl e ↦ rw e (
          remove_loop_passes left n all (round t all w) (omega arith) (round-Came old all w v)
            (round-Within n all w v h))
      | inr e ↦ rw e
    ]

  -- A removal of items or of containers passes if below the containers that are asked for there are
  -- containers in fewer than 500 levels.
  pub recursive_remove_passes :
      (db : Db) (items containers : List ℤ) (all : Bool) (depth : ℤ → ℕ)
      → Falls db depth
      → Within depth max_remove_recursion containers
      → (recursive_remove t items containers all db).0 ≡ true
  unfolding recursive_remove
  recursive_remove_passes db items containers all depth falls h =
      remove_loop_passes db depth falls (max_remove_recursion + 1) max_remove_recursion all
        (start t items containers db) (omega arith) (unfold start in (λ id o k. k))
        (unfold start in h)
