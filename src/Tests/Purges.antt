-- ===== src/Tests/Purges.antt =====
-- Purges at concrete inputs, in the tables of Tests/Removals.
use mathlib.Core.Option.{some_inj}
use gerber.Prelude.{
  ◌≡◌, refl, subst, Bool, true, false, ◌&&◌, List, [], ◌∷◌, map, Option, none, some, length, All,
}
use gerber.Prelude.Int.{ℤ, pos, ◌==ℤ◌, member}
use gerber.Zmm.Number.{print_nat, print_int}
use gerber.Storage.Removal.{
  Object, remove_objects, start, recursive_remove, remove_loop, take_children, take_parents,
  take_references, take_containers, flush, round, finish, csv_length,
}
use gerber.Storage.Purge.{
  Container, Ending, nothing, throws, changes, take_upnp, take_ui, take_all, ask_upnp, ask_ui, ask,
  delete_empty, purge_loop, report, purge_empty_containers, ended, remove_and_purge, removal_target,
  remove_object,
}
use gerber.Storage.Purge.Emptied.{IsRow}
use gerber.Storage.Purge.Cleaning.{Purges, purge_empty_containers-Purges}
use gerber.Tests.Removals.{world, select, passes, tables, present, found_rows}

-- The root container is persistent.
abbrev is_persistent : List ℤ → ℤ → Bool
is_persistent db id = id ==ℤ pos 0

abbrev counted : List ℤ → Object → Container
counted db o = record {
  id = o.id;
  count = length (tables.children db (o.id ∷ []));
  parent_id = o.parent_id;
  persistent = is_persistent db o.id;
}

abbrev counts : List ℤ → List ℤ → Option (List Container)
counts db ids =
    some (map (counted db) (select (passes db (λ o. o.is_container && member o.id ids)) world))

both_true : (a b : Bool) → (a && b) ≡ true → a ≡ true
both_true true b h = refl
both_true false b h = cc

counted_rows :
    (db ids : List ℤ) (rows : List Object)
    → All (λ o. (present db o.id ≡ some o) × ((o.is_container && member o.id ids) ≡ true)) rows
    → All (IsRow tables is_persistent db) (map (counted db) rows)
counted_rows db ids [] h = tt
counted_rows db ids (o ∷ rows) h =
    let ((found, tested), others) = h in
    (
      (o, found, both_true o.is_container (member o.id ids) tested, refl, refl, refl),
      counted_rows db ids rows others,
    )

counts_lem :
    (db ids : List ℤ) (rows : List Container)
    → counts db ids ≡ some rows
    → All (IsRow tables is_persistent db) rows
counts_lem db ids rows h =
    subst (All (IsRow tables is_persistent db)) (some_inj.0 h)
      (counted_rows db ids _ (found_rows db (λ o. o.is_container && member o.id ids)))

-- The items 5 and 6 are deleted, so that container 4 is empty.
purge_empty_containers-Purges_example :
    Purges tables is_persistent counts counts_lem
      (pos 5 ∷ pos 6 ∷ [])
      (purge_empty_containers tables counts (pos 4 ∷ pos 0 ∷ []) [] none (pos 5 ∷ pos 6 ∷ []))
purge_empty_containers-Purges_example =
    purge_empty_containers-Purges tables is_persistent counts counts_lem (pos 5 ∷ pos 6 ∷ [])
      (pos 4 ∷ pos 0 ∷ []) [] none

-- Container 4 goes too; container 2, which still holds an item, and the root have changed.
abbrev left_and_told : Ending tables counts → List ℤ × List ℤ
left_and_told nothing = ([], [])
left_and_told (throws d) = (d, [])
left_and_told (changes p c) = (p.db, p.upnp)

purge_run :
    left_and_told (remove_object tables counts true (pos 5) false none [])
    ≡ (pos 4 ∷ pos 5 ∷ pos 6 ∷ pos 7 ∷ [], pos 0 ∷ pos 2 ∷ [])
unfolding remove_object removal_target remove_and_purge ended purge_empty_containers purge_loop ask
    ask_upnp ask_ui take_all take_upnp take_ui delete_empty report recursive_remove remove_loop
    start round flush csv_length take_containers take_references take_parents take_children
    print_int print_nat finish remove_objects
purge_run = refl
