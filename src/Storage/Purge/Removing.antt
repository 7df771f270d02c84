-- ===== src/Storage/Purge/Removing.antt =====
-- removeObject, on all its branches.
use mathlib.Core.Option.{some_inj}
use gerber.Prelude.{
  ◌≡◌, ◌⊎◌, inl, inr, refl, sym, ap, ◌∙◌, Bool, true, false, not, ◌&&◌, Bool-cases, Option-cases,
  List, ◌++◌, Option, none, some, All,
}
use gerber.Prelude.Int.{ℤ, member}
use gerber.Storage.Removal.{Object, Tables}
use gerber.Storage.Removal.Rounds.{IsSql, IsLinked}
use gerber.Storage.Removal.Whole.{KeepsParents, Removes}
use gerber.Storage.Purge.{Container, Ending, nothing, throws, changes, is_forbidden, removal_target}
use gerber.Storage.Purge.Emptied.{IsRow}

target_cases :
    (all : Bool) (o : Object) (id : ℤ)
    → (removal_target all o id ≡ id)
      ⊎ ((r : ℤ) × (o.ref_id ≡ some r) × (o.is_container ≡ false) × (removal_target all o id ≡ r))
unfolding removal_target
target_cases all o id = elim (Bool-cases (all && not o.is_container)) [
  | inr e ↦ inl (rw e)
  | inl e ↦ elim (Option-cases o.ref_id) [
    | inl n ↦ inl (rw (e, n))
    | inr (r, n) ↦ elim (Bool-cases (is_forbidden r)) [
      | inl f ↦ inl (rw (e, n, f))
      | inr f ↦ inr (r, n, not_container all o.is_container e, rw (e, n, f))
    ]
  ]
]
  where
    not_container : (a b : Bool) → (a && not b) ≡ true → b ≡ false
    not_container true false h = refl
    not_container true true h = cc
    not_container false b h = cc

module _ (t : Tables) (sql : IsSql t) (persistent : t.Db → ℤ → Bool)
    (counts : t.Db → List ℤ → Option (List Container))
    (rows_lem : (db : t.Db) (ids : List ℤ) (rows : List Container)
      → counts db ids ≡ some rows
      → All (IsRow t persistent db) rows)
    (answered : Bool) (id : ℤ) (all : Bool) (db : t.Db) where
  open t use {Db, object}

  -- What a removal of `id` that returns containers leaves.
  pub record IsRemoved (db' : Db) : Type 0 where
    pub gone : object db' id ≡ none
    pub kept : (i : ℤ) (o : Object) → object db' i ≡ some o → object db i ≡ some o
    pub parents : KeepsParents t sql db db'
    pub linked : IsLinked t db'

  -- Null is returned for an id of no object, and if the select of the object has no result; an
  -- exception for a forbidden target changes nothing.
  abbrev pub Leaves : Ending t counts → Type 0
  Leaves nothing = (answered ≡ false) ⊎ (object db id ≡ none)
  Leaves (throws d) =
      (o : Object) × (object db id ≡ some o)
      × (is_forbidden (removal_target all o id) ≡ true → d ≡ db)
  Leaves (changes p c) =
      (o : Object) × (object db id ≡ some o)
      × (is_forbidden (removal_target all o id) ≡ false)
      × IsRemoved p.db

  -- What is there of an object that refers to a removed one.
  goes_along :
      (db' : Db) (o : Object) (r : ℤ)
      → object db id ≡ some o
      → o.ref_id ≡ some r
      → object db' r ≡ none
      → ((i : ℤ) (q : Object) → object db' i ≡ some q → object db i ≡ some q)
      → IsLinked t db'
      → object db' id ≡ none
  goes_along db' o r h e gone kept linked = elim (Option-cases (object db' id)) [
    | inl n ↦ n
    | inr (q, n) ↦
        let equal : o ≡ q = some_inj.0 (sym h ∙ kept id q n) in
        let refers : q.ref_id ≡ some r = sym (ap (λ (x : Object). x.ref_id) equal) ∙ e in
        let (i, found, item, bare) = linked.ref_there id r q n refers in
        let bad : none ≡ some i = sym gone ∙ found in absurd (cc)
  ]

  module _ (linked : IsLinked t db) (o : Object) (h : object db id ≡ some o) where
    abbrev target : ℤ
    target = removal_target all o id

    removed :
        (items containers : List ℤ) (db' : Db)
        → member target (items ++ containers) ≡ true
        → Removes t sql db db' items containers
        → IsRemoved db'
    removed items containers db' m r =
        let target_gone = r.asked_gone target m in
        record {
          gone = elim (target_cases all o id) [
            | inl e ↦ ap (object db') (sym e) ∙ target_gone
            | inr (ref, e, item, f) ↦
                goes_along db' o ref h e (ap (object db') (sym f) ∙ target_gone) r.kept r.linked
          ];
          kept = r.kept;
          parents = r.parents;
          linked = r.linked;
        }
