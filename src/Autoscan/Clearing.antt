-- ===== src/Autoscan/Clearing.antt =====
-- Removal by location: what goes, and what stays.
use gerber.Prelude.{
  ℕ, zero, suc, ◌+◌, ◌≡◌, refl, sym, subst, ◌∙◌, true, false, Bool, Bool-cases, inl, inr, [], ◌∷◌,
  Option, none, some, arith,
}
use gerber.Prelude.Int.{ℤ, pos}
use gerber.Zmm.Strings.{ZString, equals}
use gerber.Dictionary.Lookup.{equals_iff}
use gerber.Autoscan.{
  AutoscanList, get, get_by_location, clear_slot, find_slot, remove_found, remove_by_location,
}
use gerber.Autoscan.Slots.{IsIndexed, IsUnique, has_location}

-- `clear_slot`, slot by slot.
abbrev cleared : ℕ → AutoscanList → AutoscanList
cleared k [] = []
cleared zero (slot ∷ []) = []
cleared zero (slot ∷ next ∷ list) = none ∷ next ∷ list
cleared (suc k) (slot ∷ list) = slot ∷ cleared k list

clear_slot_lem : (k : ℕ) (list : AutoscanList) → clear_slot k list ≡ cleared k list
unfolding clear_slot
clear_slot_lem k [] = ground arith
clear_slot_lem zero (slot ∷ []) = refl
clear_slot_lem zero (slot ∷ next ∷ list) = ground arith
clear_slot_lem (suc k) (slot ∷ list) = ground (arith, clear_slot_lem k list)

-- Slot `k` has a directory of that location.
abbrev holds : ZString → ℕ → AutoscanList → Bool
holds loc k [] = false
holds loc zero (none ∷ list) = false
holds loc zero (some d ∷ list) = equals loc d.location
holds loc (suc k) (slot ∷ list) = holds loc k list

cleared-IsIndexed :
    (i k : ℕ) (list : AutoscanList) → IsIndexed i list → IsIndexed i (cleared k list)
cleared-IsIndexed i k [] v = tt
cleared-IsIndexed i zero (slot ∷ []) v = tt
cleared-IsIndexed i zero (none ∷ next ∷ list) v = v
cleared-IsIndexed i zero (some d ∷ next ∷ list) v = v.1
cleared-IsIndexed i (suc k) (none ∷ list) v = cleared-IsIndexed (suc i) k list v
cleared-IsIndexed i (suc k) (some d ∷ list) v = (v.0, cleared-IsIndexed (suc i) k list v.1)

has-cleared :
    (loc : ZString) (k : ℕ) (list : AutoscanList)
    → has_location loc list ≡ false
    → has_location loc (cleared k list) ≡ false
has-cleared loc k [] h = refl
has-cleared loc zero (slot ∷ []) h = refl
has-cleared loc zero (none ∷ next ∷ list) h = h
has-cleared loc zero (some d ∷ next ∷ list) h = ground arith
has-cleared loc (suc k) (none ∷ list) h = has-cleared loc k list h
has-cleared loc (suc k) (some d ∷ list) h = ground (arith, has-cleared loc k list)

cleared-IsUnique : (k : ℕ) (list : AutoscanList) → IsUnique list → IsUnique (cleared k list)
cleared-IsUnique k [] v = tt
cleared-IsUnique zero (slot ∷ []) v = tt
cleared-IsUnique zero (none ∷ next ∷ list) v = v
cleared-IsUnique zero (some d ∷ next ∷ list) v = v.1
cleared-IsUnique (suc k) (none ∷ list) v = cleared-IsUnique k list v
cleared-IsUnique (suc k) (some d ∷ list) v =
    (has-cleared d.location k list v.0, cleared-IsUnique k list v.1)

get_by_location-none :
    (loc : ZString) (list : AutoscanList)
    → has_location loc list ≡ false
    → get_by_location loc list ≡ none
unfolding get_by_location
get_by_location-none loc [] h = refl
get_by_location-none loc (none ∷ list) h = get_by_location-none loc list h
get_by_location-none loc (some d ∷ list) h = ground (arith, get_by_location-none loc list)

has-same :
    (loc other : ZString) (list : AutoscanList)
    → equals loc other ≡ true
    → has_location loc list ≡ has_location other list
has-same loc other [] h = refl
has-same loc other (none ∷ list) h = has-same loc other list h
has-same loc other (some d ∷ list) h = ground (
  arith,
  has-same loc other list h,
  equals_iff loc other,
  equals_iff loc d.location,
  equals_iff other d.location,
)

has_held :
    (loc : ZString) (k : ℕ) (list : AutoscanList)
    → holds loc k list ≡ true
    → has_location loc list ≡ true
has_held loc k [] h = absurd cc
has_held loc zero (none ∷ list) h = absurd cc
has_held loc zero (some d ∷ list) h = ground arith
has_held loc (suc k) (none ∷ list) h = has_held loc k list h
has_held loc (suc k) (some d ∷ list) h = ground (arith, has_held loc k list)

gone :
    (loc : ZString) (k : ℕ) (list : AutoscanList)
    → IsUnique list
    → holds loc k list ≡ true
    → has_location loc (cleared k list) ≡ false
gone loc k [] v h = refl
gone loc zero (slot ∷ []) v h = refl
gone loc zero (none ∷ next ∷ list) v h = absurd cc
gone loc zero (some d ∷ next ∷ list) v h = has-same loc d.location (next ∷ list) h ∙ v.0
gone loc (suc k) (none ∷ list) v h = gone loc k list v h
gone loc (suc k) (some d ∷ list) v h =
    ground (arith, gone loc k list v.1 h, has_held loc k list h, has-same loc d.location list)

kept :
    (loc other : ZString) (k : ℕ) (list : AutoscanList)
    → holds loc k list ≡ true
    → equals loc other ≡ false
    → get_by_location other (cleared k list) ≡ get_by_location other list
unfolding get_by_location
kept loc other k [] h n = refl
kept loc other zero (none ∷ list) h n = absurd cc
kept loc other zero (some d ∷ []) h n =
    ground (arith, equals_iff loc d.location, equals_iff other d.location, equals_iff loc other)
kept loc other zero (some d ∷ next ∷ list) h n =
    ground (arith, equals_iff loc d.location, equals_iff other d.location, equals_iff loc other)
kept loc other (suc k) (none ∷ list) h n = kept loc other k list h n
kept loc other (suc k) (some d ∷ list) h n = ground (arith, kept loc other k list h n)

-- What a removal by location gives: the list stays well formed, nothing of that location is left,
-- other locations are found as before, and the id is that of the directory that was found.
pub record Removes (loc : ZString) (list next : AutoscanList) (id : ℤ) : Type 0 where
  pub indexed : IsIndexed 0 next
  pub unique : IsUnique next
  pub absent : get_by_location loc next ≡ none
  pub others :
      (other : ZString)
      → equals loc other ≡ false
      → get_by_location other next ≡ get_by_location other list
  pub was : get id list ≡ get_by_location loc list

some_inj : {A : Type 0} {x y : A} → some x ≡ some y → x ≡ y
some_inj h = cc

find_slot_lem :
    (loc : ZString) (list : AutoscanList) (i j : ℕ)
    → find_slot (λ d. equals loc d.location) list i ≡ some j
    → (k : ℕ) × (j ≡ i + k)
      × (holds loc k list ≡ true)
      × (get (pos k) list ≡ get_by_location loc list)
unfolding find_slot get get_by_location
find_slot_lem loc [] i j h = absurd cc
find_slot_lem loc (none ∷ list) i j h =
    let (k, e, f, g) = find_slot_lem loc list (i + 1) j h in (suc k, omega arith, f, g)
find_slot_lem loc (some d ∷ list) i j h = elim (Bool-cases (equals loc d.location)) [
  | inl e ↦ (0, some_inj (sym (simp e at h)) ∙ omega arith, e, sym (simp e))
  | inr e ↦
      let (k, f, g, l) = find_slot_lem loc list (i + 1) j (simp e at h) in
      (suc k, omega arith, g, ground arith)
]

find_slot-none :
    (loc : ZString) (list : AutoscanList) (i : ℕ)
    → find_slot (λ d. equals loc d.location) list i ≡ none
    → get_by_location loc list ≡ none
unfolding find_slot get_by_location
find_slot-none loc [] i h = refl
find_slot-none loc (none ∷ list) i h = find_slot-none loc list (i + 1) h
find_slot-none loc (some d ∷ list) i h = ground (arith, find_slot-none loc list (i + 1))

removed :
    (loc : ZString) (list : AutoscanList) (i : ℕ)
    → IsIndexed 0 list
    → IsUnique list
    → holds loc i list ≡ true
    → get (pos i) list ≡ get_by_location loc list
    → Removes loc list (clear_slot i list) (pos i)
removed loc list i v u h g = rw (clear_slot_lem i list) (record {
  indexed = cleared-IsIndexed 0 i list v;
  unique = cleared-IsUnique i list u;
  absent = get_by_location-none loc (cleared i list) (gone loc i list u h);
  others = λ other n. kept loc other i list h n;
  was = g;
})

found_removed :
    (loc : ZString) (list : AutoscanList) (found : Option ℕ)
    → IsIndexed 0 list
    → IsUnique list
    → find_slot (λ d. equals loc d.location) list 0 ≡ found
    → Removes loc list (remove_found found list).0 (remove_found found list).1
unfolding remove_found get
found_removed loc list none v u e =
    let g = find_slot-none loc list 0 e in
    record { indexed = v; unique = u; absent = g; others = λ other n. refl; was = sym g }
found_removed loc list (some j) v u e =
    let (k, f, h, g) = find_slot_lem loc list 0 j e in
    let q : k ≡ j = omega arith in
    removed loc list j v u (subst (λ k. holds loc k list ≡ true) q h)
      (subst (λ k. get (pos k) list ≡ get_by_location loc list) q g)

-- A removal by location leaves the list well formed, with no directory of that location, and the
-- directories of other locations are found as before. The id that it gives is the slot of the
-- directory that was found there before.
pub remove_by_location-Removes :
    (loc : ZString) (list : AutoscanList)
    → IsIndexed 0 list
    → IsUnique list
    → Removes loc list (remove_by_location loc list).0 (remove_by_location loc list).1
unfolding remove_by_location
remove_by_location-Removes loc list v u = found_removed loc list _ v u refl
