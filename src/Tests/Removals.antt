-- ===== src/Tests/Removals.antt =====
-- Removals at concrete inputs.
use mathlib.Core.Option
use gerber.Prelude.{
  ℕ, ◌<◌, ◌≡◌, refl, sym, ap, ◌∙◌, subst, Bool, true, false, not, ◌&&◌, Bool-cases, inl, inr, ◌-◌,
  ◌/◌, List, [], ◌∷◌, ◌++◌, map, Option, none, some, if◌then◌else◌, All, All-mono, arith,
}
use gerber.Prelude.Int.{
  member_single, ℤ, pos, negsuc, ◌==ℤ◌, ==ℤ_iff, member, member-left, member-right, member-append,
}
use gerber.Zmm.Number.{print_nat, print_int}
use gerber.Storage.Removal.{
  Object, Tables, remove_objects, start, recursive_remove, remove_loop, take_children, take_parents,
  take_references, take_containers, flush, round, finish, csv_length,
}
use gerber.Storage.Removal.Rounds.{ids_of, IsSql, IsLinked}
use gerber.Storage.Removal.Passing.{Falls, recursive_remove_passes}

abbrev lookup : List Object → ℤ → Option Object
lookup [] id = none
lookup (o ∷ rows) id = if o.id ==ℤ id then some o else lookup rows id

abbrev pub select : (Object → Bool) → List Object → List Object
select p [] = []
select p (o ∷ rows) = if p o then o ∷ select p rows else select p rows

-- Container 2 holds the item 3 and the container 4, which holds the item 5; 6 refers to 5, and so does
-- the container 7, which holds 8.
abbrev pub row : ℤ → ℤ → Bool → Option ℤ → Object
row id parent_id is_container ref_id = record {
  id = id;
  parent_id = parent_id;
  is_container = is_container;
  ref_id = ref_id;
}

abbrev pub world : List Object
world =
    row (pos 0) (negsuc 0) true none
    ∷ row (pos 2) (pos 0) true none
    ∷ row (pos 3) (pos 2) false none
    ∷ row (pos 4) (pos 2) true none
    ∷ row (pos 5) (pos 4) false none
    ∷ row (pos 6) (pos 0) false (some (pos 5))
    ∷ row (pos 7) (pos 0) true (some (pos 5))
    ∷ row (pos 8) (pos 7) false none
    ∷ []

abbrev refers : List ℤ → Option ℤ → Bool
refers ids none = false
refers ids (some r) = member r ids

-- The database is the list of the ids that were deleted.
abbrev pub present : List ℤ → ℤ → Option Object
present deleted id = if member id deleted then none else lookup world id

abbrev pub tables : Tables
tables = record {
  Db = List ℤ;
  object = present;
  parents = λ db ids.
      map (λ o. o.parent_id) (select (λ o. not (member o.id db) && member o.id ids) world);
  references = λ db ids. select (λ o. not (member o.id db) && refers ids o.ref_id) world;
  children = λ db ids. select (λ o. not (member o.id db) && member o.parent_id ids) world;
  autoscans = λ db ids. [];
  delete_autoscans = λ ids db. db;
  delete_active_items = λ ids db. db;
  delete_objects = ◌++◌;
}

lookup_key : (rows : List Object) (id : ℤ) (o : Object) → lookup rows id ≡ some o → o.id ≡ id
lookup_key [] id o h = cc
lookup_key (q ∷ rows) id o h = elim (Bool-cases (q.id ==ℤ id)) [
  | inl e ↦ let same : some q ≡ some o = rw e at h in let key = (==ℤ_iff q.id id).0 e in cc
  | inr e ↦ lookup_key rows id o (rw e at h)
]

selected :
    (p : Object → Bool) (rows : List Object) (id : ℤ) (o : Object)
    → lookup rows id ≡ some o
    → p o ≡ true
    → member id (ids_of (select p rows)) ≡ true
selected p [] id o h k = cc
selected p (q ∷ rows) id o h k = elim (Bool-cases (q.id ==ℤ id)) [
  | inl e ↦
      let same : some q ≡ some o = rw e at h in
      let passes : p q ≡ true = ap (λ (r : Option Object). p (Option.get_or r q)) same ∙ k in
      rw (passes, e)
  | inr e ↦ elim (Bool-cases (p q)) [
    | inl f ↦ rw (f, e) (selected p rows id o (rw e at h) k)
    | inr f ↦ rw f (selected p rows id o (rw e at h) k)
  ]
]

All-select :
    (Q : Object → Type 0) (p : Object → Bool) (rows : List Object)
    → All Q rows
    → All (λ o. Q o × (p o ≡ true)) (select p rows)
All-select Q p [] h = tt
All-select Q p (o ∷ rows) h = elim (Bool-cases (p o)) [
  | inl e ↦ rw e ((h.0, e), All-select Q p rows h.1)
  | inr e ↦ rw e (All-select Q p rows h.1)
]

All-member :
    (Q : Object → Type 0) (rows : List Object) (id : ℤ)
    → All Q rows
    → member id (ids_of rows) ≡ true
    → (o : Object) × (o.id ≡ id) × Q o
All-member Q [] id h m = absurd (cc)
All-member Q (o ∷ rows) id h m = elim (Bool-cases (o.id ==ℤ id)) [
  | inl e ↦ (o, (==ℤ_iff o.id id).0 e, h.0)
  | inr e ↦ All-member Q rows id h.1 (rw e at m)
]

world_rows : All (λ o. lookup world o.id ≡ some o) world
world_rows = (refl, (refl, (refl, (refl, (refl, (refl, (refl, (refl, tt))))))))

present_lem :
    (db : List ℤ) (id : ℤ) (o : Object)
    → present db id ≡ some o
    → (member id db ≡ false) × (lookup world id ≡ some o)
present_lem db id o h = elim (Bool-cases (member id db)) [
  | inl e ↦ let bad : none ≡ some o = rw e at h in absurd (cc)
  | inr e ↦ (e, rw e at h)
]

here :
    (db : List ℤ) (id : ℤ) (o : Object)
    → present db id ≡ some o
    → (test : Bool) → test ≡ true
    → (not (member o.id db) && test) ≡ true
here db id o h test e =
    let (kept, found) = present_lem db id o h in rw (lookup_key world id o found, kept, e)

and_parts : (a b : Bool) → (not a && b) ≡ true → (a ≡ false) × (b ≡ true)
and_parts true b h = (cc, cc)
and_parts false b h = (refl, h)

refers_to :
    (ids : List ℤ) (ref_id : Option ℤ)
    → refers ids ref_id ≡ true
    → (r : ℤ) × (ref_id ≡ some r) × (member r ids ≡ true)
refers_to ids none h = absurd (cc)
refers_to ids (some r) h = (r, refl, h)

-- The test of a query on the rows that are left.
abbrev pub passes : List ℤ → (Object → Bool) → Object → Bool
passes db test o = not (member o.id db) && test o

pub found_rows :
    (db : List ℤ) (test : Object → Bool)
    → All (λ o. (present db o.id ≡ some o) × (test o ≡ true)) (select (passes db test) world)
found_rows db test =
    All-mono
      (λ o h. let (kept, tested) = and_parts (member o.id db) (test o) h.1 in (rw kept h.0, tested))
      (select (passes db test) world)
      (All-select (λ o. lookup world o.id ≡ some o) (passes db test) world world_rows)

reference_only :
    (db ids : List ℤ) (id : ℤ)
    → member id (ids_of (select (passes db (λ o. refers ids o.ref_id)) world)) ≡ true
    → (o : Object) × (r : ℤ) × (present db id ≡ some o)
      × (o.ref_id ≡ some r)
      × (member r ids ≡ true)
reference_only db ids id m =
    let (o, same, (found, refs)) =
      All-member (λ o. (present db o.id ≡ some o) × (refers ids o.ref_id ≡ true))
        (select (passes db (λ o. refers ids o.ref_id)) world) id
        (found_rows db (λ o. refers ids o.ref_id)) m in
    let (r, e, m) = refers_to ids o.ref_id refs in (o, r, ap (present db) (sym same) ∙ found, e, m)

present-deleted :
    (db ids : List ℤ) (id : ℤ)
    → present (ids ++ db) id ≡ (if member id ids then none else present db id)
present-deleted db ids id = elim (Bool-cases (member id ids)) [
  | inl e ↦ rw (e, member-left id ids db e)
  | inr e ↦ elim (Bool-cases (member id db)) [
    | inl f ↦ rw (e, f, member-right id ids db f)
    | inr f ↦
        rw (e, f)
          (elim (Bool-cases (member id (ids ++ db))) [
            | inr g ↦ rw g
            | inl g ↦ elim (member-append id ids db g) [ inl k ↦ absurd (cc) | inr k ↦ absurd (cc) ]
          ])
  ]
]

pub tables-IsSql : IsSql tables
tables-IsSql = record {
  keyed = λ db id o h. lookup_key world id o (present_lem db id o h).1;
  references_all = λ db ids id r o h e m.
      selected (passes db (λ o. refers ids o.ref_id)) world id o (present_lem db id o h).1
        (here db id o h (refers ids o.ref_id) (rw e m));
  references_only = λ db ids id m. reference_only db ids id m;
  children_all = λ db ids id o h m.
      selected (passes db (λ o. member o.parent_id ids)) world id o (present_lem db id o h).1
        (here db id o h (member o.parent_id ids) m);
  children_rows = λ db ids. found_rows db (λ o. member o.parent_id ids);
  deleted = λ db ids id. present-deleted db ids id;
  autoscans_apart = λ db ids id. refl;
  active_apart = λ db ids id. refl;
}

lookup-All :
    (Q : ℤ → Object → Type 0) (rows : List Object)
    → All (λ o. Q o.id o) rows
    → (id : ℤ) (o : Object) → lookup rows id ≡ some o
    → Q id o
lookup-All Q [] h id o e = absurd (cc)
lookup-All Q (q ∷ rows) h id o e = elim (Bool-cases (q.id ==ℤ id)) [
  | inl f ↦
      let same : some q ≡ some o = rw f at e in
      subst (λ (r : Option Object). Q id (Option.get_or r q)) same
        (subst (λ i. Q i q) ((==ℤ_iff q.id id).0 f) h.0)
  | inr f ↦ lookup-All Q rows h.1 id o (rw f at e)
]

pub world-IsLinked : IsLinked tables []
world-IsLinked = record { ref_there = λ id r o h e. refers_item id o h r e }
  where
    to_five :
        (r : ℤ)
        → some (pos 5) ≡ some r
        → (i : Object) × (present [] r ≡ some i) × (i.is_container ≡ false) × (i.ref_id ≡ none)
    to_five r e = (
      row (pos 5) (pos 4) false none,
      ap (present []) {y = pos 5} (ap (λ (q : Option ℤ). Option.get_or q r) (sym e)),
      refl,
      refl,
    )

    nothing :
        (r : ℤ)
        → none ≡ some r
        → (i : Object) × (present [] r ≡ some i) × (i.is_container ≡ false) × (i.ref_id ≡ none)
    nothing r e = absurd (cc)

    refers_item :
        (id : ℤ) (o : Object)
        → lookup world id ≡ some o
        → (r : ℤ) → o.ref_id ≡ some r
        → (i : Object) × (present [] r ≡ some i) × (i.is_container ≡ false) × (i.ref_id ≡ none)
    refers_item =
        lookup-All
          (λ id o.
            (r : ℤ)
            → o.ref_id ≡ some r
            → (i : Object) × (present [] r ≡ some i) × (i.is_container ≡ false) × (i.ref_id ≡ none))
          world
          (nothing, (nothing, (nothing, (nothing, (nothing, (to_five, (to_five, (nothing, tt))))))))

-- Container 2 is asked for.
abbrev asked : List ℤ
asked = pos 2 ∷ []

abbrev depth : ℤ → ℕ
depth (pos n) = 2 - n / 2
depth (negsuc n) = 3

world-Falls : Falls tables tables-IsSql [] depth
world-Falls =
    lookup-All (λ id o. o.is_container ≡ true → depth id < depth o.parent_id) world
      (
        λ k. omega arith,
        (
          λ k. omega arith,
          (
            λ k. absurd (cc),
            (
              λ k. omega arith,
              (λ k. absurd (cc), (λ k. absurd (cc), (λ k. omega arith, (λ k. absurd (cc), tt)))),
            ),
          ),
        ),
      )

recursive_remove_passes_example : (recursive_remove tables [] asked false []).0 ≡ true
recursive_remove_passes_example =
    recursive_remove_passes tables tables-IsSql [] [] asked false depth world-Falls
      (λ c m. subst (λ i. depth i < 500) (member_single c (pos 2) m) (omega arith))

-- The containers 2 and 4, the items 3 and 5 and those that refer to 5 are deleted. The item 8, which
-- container 7 holds, stays without its container.
removal_run :
    (recursive_remove tables [] asked false []).1.db
    ≡ pos 2 ∷ pos 3 ∷ pos 4 ∷ pos 5 ∷ pos 6 ∷ pos 7 ∷ []
unfolding recursive_remove remove_loop start round flush csv_length take_containers take_references
    take_parents take_children print_int print_nat finish remove_objects
removal_run = refl

-- Where an item and a container are asked for at once, the item stays.
mixed_run :
    (recursive_remove tables (pos 3 ∷ []) (pos 4 ∷ []) false []).1.db
    ≡ pos 4 ∷ pos 5 ∷ pos 6 ∷ pos 7 ∷ []
unfolding recursive_remove remove_loop start round flush csv_length take_containers take_references
    take_parents take_children print_int print_nat finish remove_objects
mixed_run = refl
