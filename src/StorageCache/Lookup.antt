-- ===== src/StorageCache/Lookup.antt =====
-- What the cache answers after its operations.
use mathlib.Core.Option.{some_inj}
use gerber.Prelude.{
  ℕ, ◌≤◌, ◌<◌, ◌≡◌, ◌≢◌, refl, sym, ap, ◌∙◌, true, false, Bool, Bool-cases, inl, inr, List, [], ◌∷◌,
  ◌++◌, Option, none, some, arith, ==_iff, if◌then◌else◌, length,
}
use gerber.Prelude.Int.{ℤ, ◌==ℤ◌, ==ℤ_iff}
use gerber.Zmm.Strings.{ZString, equals}
use gerber.Dictionary.Lookup.{equals_refl}
use gerber.StorageCache.{
  Cache, new_object, write, id_at, location_at, id_erase, get_object, ensure_fill_level_ok, emplace,
  definitely, get_object_definitely, remove_object, get_objects, stands_in, located, checked,
  removed, check_location,
}

-- The table of the ids is not over its limit.
pub record IsFilled (c : Cache) : Type 0 where
  pub some_room : 0 < c.maxfill
  pub bounded : length c.id_hash ≤ c.maxfill

-- What `getObjectDefinitely` gives: the object that the cache has for the id, with the cache as it
-- was, or else a new one; it is found under its id, the table stays within its limit, the other ids
-- keep their objects, unless the cache was flushed, and no other object is written.
pub record Gives (id : ℤ) (c : Cache) (r : ℕ) (d : Cache) : Type 0 where
  pub found : get_object id d ≡ some r
  pub reused : (k : ℕ) → get_object id c ≡ some k → (r ≡ k) × (d ≡ c)
  pub fresh : get_object id c ≡ none → (r ≡ c.next_ref) × (d.heap r ≡ new_object)
  pub unwritten : (k : ℕ) → k ≢ c.next_ref → d.heap k ≡ c.heap k
  pub filled : IsFilled d
  pub kept : d.has_been_flushed ≡ false → (k : ℤ) → k ≢ id → get_object k d ≡ get_object k c

emplace-IsFilled :
    (id : ℤ) (c : Cache) → IsFilled c → IsFilled (emplace id (ensure_fill_level_ok c)).1
unfolding emplace ensure_fill_level_ok
emplace-IsFilled id c v = ground arith

emplace_kept :
    (id : ℤ) (c : Cache) (k : ℤ)
    → (emplace id (ensure_fill_level_ok c)).1.has_been_flushed ≡ false
    → k ≢ id
    → get_object k (emplace id (ensure_fill_level_ok c)).1 ≡ get_object k c
unfolding emplace ensure_fill_level_ok get_object id_at
emplace_kept id c k f n = ground (arith, ==ℤ_iff id k)

emplace_new :
    (id : ℤ) (c : Cache)
    → let r = emplace id (ensure_fill_level_ok c) in
      (r.0 ≡ c.next_ref) × (r.1.heap r.0 ≡ new_object)
unfolding emplace ensure_fill_level_ok write
emplace_new id c = ground (arith, ==_iff c.next_ref c.next_ref)

emplace_unwritten :
    (id : ℤ) (c : Cache) (k : ℕ)
    → k ≢ c.next_ref
    → (emplace id (ensure_fill_level_ok c)).1.heap k ≡ c.heap k
unfolding emplace ensure_fill_level_ok write
emplace_unwritten id c k n = ground (arith, ==_iff k c.next_ref)

definitely-Gives :
    (found : Option ℕ) (id : ℤ) (c : Cache)
    → get_object id c ≡ found
    → IsFilled c
    → Gives id c (definitely found id c).0 (definitely found id c).1
unfolding definitely
definitely-Gives (some r) id c e v = record {
  found = e;
  reused = λ k h. (some_inj.0 (sym e ∙ h), refl);
  fresh = λ h. absurd (let bad : some r ≡ none = sym e ∙ h in cc);
  unwritten = λ k n. refl;
  filled = v;
  kept = λ f k n. refl;
}
definitely-Gives none id c e v = record {
  reused = λ k h. absurd (let bad : none ≡ some k = sym e ∙ h in cc);
  fresh = λ h. emplace_new id c;
  unwritten = λ k n. emplace_unwritten id c k n;
  found = unfold get_object emplace id_at in ground (arith, ==ℤ_iff id id);
  filled = emplace-IsFilled id c v;
  kept = λ f k n. emplace_kept id c k f n;
}

-- `getObjectDefinitely` gives the object that the cache has for the id and leaves the cache as it was,
-- or gives a new object where there is none; the object is found under the id from then on. The
-- table of the ids stays within its limit, no other object is written, and unless the cache was
-- flushed the other ids keep their objects. The table was within its limit before.
pub get_object_definitely-Gives :
    (id : ℤ) (c : Cache)
    → IsFilled c
    → Gives id c (get_object_definitely id c).0 (get_object_definitely id c).1
unfolding get_object_definitely
get_object_definitely-Gives id c v = definitely-Gives (get_object id c) id c refl v

stands_in-append : (r : ℕ) (refs : List ℕ) → stands_in r (refs ++ r ∷ []) ≡ true
unfolding stands_in
stands_in-append r [] = ground (arith, ==_iff r r)
stands_in-append r (k ∷ refs) = ground (arith, stands_in-append r refs)

-- The array of a location has the object.
abbrev pub has_ref : ℕ → Option (List ℕ) → Bool
has_ref r none = false
has_ref r (some refs) = stands_in r refs

has_ref-located :
    (r : ℕ) (loc : ZString) (table : List (ZString × List ℕ))
    → has_ref r (location_at loc (located r loc table)) ≡ true
unfolding location_at located
has_ref-located r loc [] = rw (equals_refl loc) (stands_in-append r [])
has_ref-located r loc (e ∷ table) = elim (Bool-cases (equals e.0 loc)) [
  | inl f ↦ elim (Bool-cases (stands_in r e.1)) [
    | inl g ↦ rw (f, g, f) g
    | inr g ↦ rw (f, g, f) (stands_in-append r e.1)
  ]
  | inr f ↦ rw (f, f) (has_ref-located r loc table)
]

settled :
    (r : ℕ) (loc : ZString) (table : List (ZString × List ℕ))
    → has_ref r (location_at loc table) ≡ true
    → located r loc table ≡ table
unfolding located location_at
settled r loc [] h = absurd cc
settled r loc (e ∷ table) h = elim (Bool-cases (equals e.0 loc)) [
  | inl f ↦ let g : stands_in r e.1 ≡ true = rw f at h in rw (f, g) refl
  | inr f ↦ let g = settled r loc table (rw f at h) in rw (f, g) refl
]

checked_lem :
    (r : ℕ) (c : Cache) (loc : ZString)
    → (c.heap r).location ≡ loc
    → check_location r c ≡ checked r loc c
unfolding check_location
checked_lem r c loc h = ap (λ l. checked r l c) h

-- After `checkLocation` an object with a location is one of those that its location gives, and to
-- check again changes nothing.
pub check_location_lem :
    (r : ℕ) (c : Cache) (loc : ZString)
    → loc ≢ none
    → (c.heap r).location ≡ loc
    → (has_ref r (get_objects loc (check_location r c)) ≡ true)
      × (check_location r (check_location r c) ≡ check_location r c)
unfolding checked get_objects
check_location_lem r c none n h = absurd (n refl)
check_location_lem r c (some loc) n h =
    let d = checked r (some loc) c in
    let there = has_ref-located r (some loc) c.location_hash in
    let same : checked r (some loc) d ≡ d =
      ap (λ (t : List (ZString × List ℕ)). record c { location_hash = t })
        (settled r (some loc) (located r (some loc) c.location_hash) there) in
    rw (checked_lem r c (some loc) h) (there, checked_lem r d (some loc) h ∙ same)

abbrev pub IsDistinct : List (ℤ × ℕ) → Type 0
IsDistinct [] = Unit {0}
IsDistinct (e ∷ table) = (id_at e.0 table ≡ none) × IsDistinct table

id_at-id_erase :
    (id k : ℤ) (table : List (ℤ × ℕ))
    → IsDistinct table
    → id_at k (id_erase id table) ≡ (if id ==ℤ k then none else id_at k table)
unfolding id_at id_erase
id_at-id_erase id k [] v = ground arith
id_at-id_erase id k (e ∷ table) v =
    ground (arith, id_at-id_erase id k table v.1, ==ℤ_iff e.0 id, ==ℤ_iff e.0 k, ==ℤ_iff id k)

removed_lem :
    (found : Option ℕ) (id k : ℤ) (c : Cache)
    → IsDistinct c.id_hash
    → get_object id c ≡ found
    → (get_object k (removed found id c).0 ≡ (if id ==ℤ k then none else get_object k c))
      × ((removed found id c).1 ≡ false → get_object id c ≡ none)
unfolding removed get_object
removed_lem none id k c v e = (ground (arith, ==ℤ_iff id k), λ f. e)
removed_lem (some r) id k c v e = (id_at-id_erase id k c.id_hash v, λ f. absurd cc)

-- `removeObject` forgets the object of that id and no other, and says when there was none.
pub remove_object_lem :
    (id k : ℤ) (c : Cache)
    → IsDistinct c.id_hash
    → (get_object k (remove_object id c).0 ≡ (if id ==ℤ k then none else get_object k c))
      × ((remove_object id c).1 ≡ false → get_object id c ≡ none)
unfolding remove_object
remove_object_lem id k c v = removed_lem (get_object id c) id k c v refl
