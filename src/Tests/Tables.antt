-- ===== src/Tests/Tables.antt =====
-- The tables at concrete inputs.
use gerber.Prelude.{arith, ℕ, ◌≡◌, refl, true, false, [], ◌∷◌, Option, none, some}
use gerber.Prelude.Int.{pos}
use gerber.Zmm.Strings.{Bytes, c_str, equals}
use gerber.Dictionary.{Element, Dictionary}
use gerber.Dictionary.Lookup.{IsDistinct}
use gerber.Autoscan.{
  Directory, AutoscanList, ScanMode, ScanLevel, make_directory, set_scan_id, scan_slots, placed,
  invalid_scan_id, add, remove_by_location,
}
use gerber.Autoscan.Slots.{IsIndexed, IsUnique}
use gerber.Autoscan.Adding.{Adds, add-Adds}
use gerber.Autoscan.Clearing.{Removes, remove_by_location-Removes}
use gerber.StorageCache
use gerber.StorageCache.Lookup
use gerber.StorageCache.{
  Cache, new_object, emplace, set_location, id_at, get_object, get_objects, get_object_definitely,
  check_location, remove_object,
}
use gerber.StorageCache.Lookup.{
  IsFilled, Gives, has_ref, get_object_definitely-Gives, check_location_lem, remove_object_lem,
}

abbrev pair : Bytes → Bytes → Element
pair k v = record { key = some k; value = some v }

abbrev colours : Dictionary
colours = pair (97 ∷ []) (1 ∷ []) ∷ pair (98 ∷ []) (2 ∷ []) ∷ []

abbrev others : Dictionary
others = pair (98 ∷ []) (3 ∷ []) ∷ pair (97 ∷ []) (1 ∷ []) ∷ []

colours-IsDistinct : IsDistinct colours
unfolding equals c_str
colours-IsDistinct = (refl, (refl, tt))

others-IsDistinct : IsDistinct others
unfolding equals c_str
others-IsDistinct = (refl, (refl, tt))

abbrev directory : ℕ → Directory
directory c =
    make_directory (some (47 ∷ c ∷ [])) ScanMode.timed ScanLevel.full true false invalid_scan_id 60
      false

abbrev in_slot : ℕ → ℕ → Option Directory
in_slot i c = some (set_scan_id (pos i) (directory c))

abbrev slots : AutoscanList
slots = in_slot 0 97 ∷ none ∷ in_slot 2 98 ∷ []

slots-IsIndexed : IsIndexed 0 slots
unfolding set_scan_id make_directory
slots-IsIndexed = (refl, (refl, tt))

slots-IsUnique : IsUnique slots
unfolding set_scan_id make_directory equals c_str
slots-IsUnique = (refl, (refl, tt))

abbrev three : AutoscanList
three = in_slot 0 97 ∷ in_slot 1 99 ∷ in_slot 2 98 ∷ []

three_added : add (directory 99) slots ≡ some (three, pos 1)
unfolding add placed scan_slots set_scan_id make_directory equals c_str
three_added = refl

-- The new directory gets the null slot.
add-Adds_example : Adds (directory 99) (pos 1) slots three
add-Adds_example =
    add-Adds (directory 99) slots three (pos 1) slots-IsIndexed slots-IsUnique three_added

a_throws : add (directory 97) slots ≡ none
unfolding add placed scan_slots set_scan_id make_directory equals c_str
a_throws = refl

remove_by_location-Removes_example :
    Removes
      (some (47 ∷ 98 ∷ []))
      slots
      (remove_by_location (some (47 ∷ 98 ∷ [])) slots).0
      (remove_by_location (some (47 ∷ 98 ∷ [])) slots).1
remove_by_location-Removes_example =
    remove_by_location-Removes (some (47 ∷ 98 ∷ [])) slots slots-IsIndexed slots-IsUnique

-- The object of id 4 stands at reference 0.
abbrev cache : Cache
cache = (emplace (pos 4) (StorageCache.make (λ r. new_object))).1

cache-IsFilled : IsFilled cache
unfolding emplace StorageCache.make
cache-IsFilled = record { some_room = omega arith; bounded = omega arith }

get_object_definitely-Gives_example :
    Gives
      (pos 5)
      cache
      (get_object_definitely (pos 5) cache).0
      (get_object_definitely (pos 5) cache).1
get_object_definitely-Gives_example = get_object_definitely-Gives (pos 5) cache cache-IsFilled

abbrev located_cache : Cache
located_cache = record cache { heap = λ r. set_location (some (70 ∷ [])) new_object }

cache-IsDistinct : Lookup.IsDistinct cache.id_hash
unfolding emplace StorageCache.make id_at
cache-IsDistinct = (refl, tt)
