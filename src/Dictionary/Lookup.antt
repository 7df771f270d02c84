-- ===== src/Dictionary/Lookup.antt =====
-- The dictionary as a map: what `put`, `remove`, and `merge` do to lookups.
use mathlib.Core.Option
use gerber.Prelude.{◌≡◌, refl, ◌↔◌, Bool, true, false, [], ◌∷◌, some, none, arith, if◌then◌else◌}
use gerber.Zmm.Strings.{ZString, c_str, equals}
use gerber.Zmm.Strings.Search.{bytes_eq_iff}
use gerber.Dictionary.{Dictionary, put, get, remove, merge}

-- The text that the comparison looks at.
abbrev pub seen : ZString → ZString
seen = Option.map c_str

pub equals_iff : (a b : ZString) → (equals a b ≡ true) ↔ (seen a ≡ seen b)
unfolding equals
equals_iff none none = ground arith
equals_iff none (some b) = ground arith
equals_iff (some a) none = ground arith
equals_iff (some a) (some b) = ground (arith, bytes_eq_iff (c_str a) (c_str b))

pub equals_refl : (a : ZString) → equals a a ≡ true
equals_refl a = (equals_iff a a).1 refl

-- A stored pair is found under every spelling of its key, and other keys keep their values.
pub get-put :
    (key k value : ZString) (d : Dictionary)
    → get k (put key value d) ≡ (if equals key k then value else get k d)
unfolding get put
get-put key k value [] = refl
get-put key k value (el ∷ d) =
    ground
      (arith, equals_iff key k, equals_iff el.key key, equals_iff el.key k, get-put key k value d)

abbrev pub has : ZString → Dictionary → Bool
has k [] = false
has k (el ∷ d) = if equals el.key k then true else has k d

-- No key is stored twice.
abbrev pub IsDistinct : Dictionary → Type 0
IsDistinct [] = Unit {0}
IsDistinct (el ∷ d) = (has el.key d ≡ false) × IsDistinct d

pub has-put :
    (key k value : ZString) (d : Dictionary)
    → has k (put key value d) ≡ (if equals key k then true else has k d)
unfolding put
has-put key k value [] = refl
has-put key k value (el ∷ d) =
    ground
      (arith, equals_iff key k, equals_iff el.key key, equals_iff el.key k, has-put key k value d)

pub put-IsDistinct :
    (key value : ZString) (d : Dictionary) → IsDistinct d → IsDistinct (put key value d)
unfolding put
put-IsDistinct key value [] h = (refl, tt)
put-IsDistinct key value (el ∷ d) h = ground (
  arith,
  equals_iff el.key key,
  equals_iff key el.key,
  has-put key el.key value d,
  put-IsDistinct key value d h.1,
)

pub has_same : (k j : ZString) (d : Dictionary) → seen k ≡ seen j → has k d ≡ has j d
has_same k j [] e = refl
has_same k j (el ∷ d) e = ground (arith, equals_iff el.key k, equals_iff el.key j, has_same k j d e)

pub has-remove :
    (key k : ZString) (d : Dictionary)
    → IsDistinct d
    → has k (remove key d) ≡ (if equals key k then false else has k d)
unfolding remove
has-remove key k [] h = ground arith
has-remove key k (el ∷ d) h = ground (
  arith,
  equals_iff key k,
  equals_iff el.key key,
  equals_iff el.key k,
  has_same el.key k d,
  has_same key k d,
  has-remove key k d h.1,
)

pub remove-IsDistinct : (key : ZString) (d : Dictionary) → IsDistinct d → IsDistinct (remove key d)
unfolding remove
remove-IsDistinct key [] h = tt
remove-IsDistinct key (el ∷ d) h = ground (
  arith,
  equals_iff el.key key,
  equals_iff key el.key,
  has-remove key el.key d h.1,
  remove-IsDistinct key d h.1,
)

pub get_missing : (k : ZString) (d : Dictionary) → has k d ≡ false → get k d ≡ none
unfolding get
get_missing k [] h = refl
get_missing k (el ∷ d) h = ground (arith, get_missing k d)

-- A removed key is gone, and the others keep their values.
pub get-remove :
    (key k : ZString) (d : Dictionary)
    → IsDistinct d
    → get k (remove key d) ≡ (if equals key k then none else get k d)
unfolding remove get
get-remove key k [] h = ground arith
get-remove key k (el ∷ d) h = ground (
  arith,
  equals_iff key k,
  equals_iff el.key key,
  equals_iff el.key k,
  has_same el.key k d,
  get_missing k d,
  get-remove key k d h.1,
)

-- `merge` stores the pairs of the other dictionary over one's own.
pub get-merge :
    (k : ZString) (other d : Dictionary)
    → IsDistinct other
    → get k (merge other d) ≡ (if has k other then get k other else get k d)
unfolding merge get
get-merge k [] d h = refl
get-merge k (el ∷ other) d h =
    unfold get in
    ground (
      arith,
      get-merge k other (put el.key el.value d) h.1,
      get-put el.key k el.value d,
      equals_iff el.key k,
      has_same el.key k other,
    )

pub merge-IsDistinct : (other d : Dictionary) → IsDistinct d → IsDistinct (merge other d)
unfolding merge
merge-IsDistinct [] d h = h
merge-IsDistinct (el ∷ other) d h = merge-IsDistinct other _ (put-IsDistinct el.key el.value d h)
