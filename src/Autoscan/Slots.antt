-- ===== src/Autoscan/Slots.antt =====
-- Adding a directory: its scan id, and that every directory stands in the slot of its scan id.
use gerber.Prelude.{
  ℕ, zero, suc, ◌+◌, ◌≡◌, ◌⊎◌, refl, ap, true, false, Bool, Bool-cases, inl, inr, [], ◌∷◌, ◌++◌,
  Option, none, some, arith, if◌then◌else◌, length, set,
}
use gerber.Prelude.Int.{pos}
use gerber.Zmm.Strings.{ZString, equals}
use gerber.Dictionary.Lookup.{equals_iff}
use gerber.Autoscan.{Directory, AutoscanList, scan_slots, get}

-- From slot `i` on, each directory has its slot for a scan id.
abbrev pub IsIndexed : ℕ → AutoscanList → Type 0
IsIndexed i [] = Unit {0}
IsIndexed i (none ∷ list) = IsIndexed (suc i) list
IsIndexed i (some dir ∷ list) = (dir.scan_id ≡ pos i) × IsIndexed (suc i) list

abbrev pub has_location : ZString → AutoscanList → Bool
has_location loc [] = false
has_location loc (none ∷ list) = has_location loc list
has_location loc (some dir ∷ list) = if equals loc dir.location then true else has_location loc list

-- No location stands in two slots.
abbrev pub IsUnique : AutoscanList → Type 0
IsUnique [] = Unit {0}
IsUnique (none ∷ list) = IsUnique list
IsUnique (some dir ∷ list) = (has_location dir.location list ≡ false) × IsUnique list

pub append-IsIndexed :
    (i : ℕ) (list : AutoscanList) (dir : Directory)
    → IsIndexed i list
    → dir.scan_id ≡ pos (i + length list)
    → IsIndexed i (list ++ some dir ∷ [])
append-IsIndexed i [] dir v e = (ground arith, tt)
append-IsIndexed i (none ∷ list) dir v e = append-IsIndexed (suc i) list dir v (ground arith)
append-IsIndexed i (some d ∷ list) dir v e =
    (v.0, append-IsIndexed (suc i) list dir v.1 (ground arith))

pub set-IsIndexed :
    (i k : ℕ) (list : AutoscanList) (dir : Directory)
    → IsIndexed i list
    → dir.scan_id ≡ pos (i + k)
    → IsIndexed i (set list k (some dir))
set-IsIndexed i k [] dir v e = tt
set-IsIndexed i zero (none ∷ list) dir v e = (ground arith, v)
set-IsIndexed i zero (some d ∷ list) dir v e = (ground arith, v.1)
set-IsIndexed i (suc k) (none ∷ list) dir v e = set-IsIndexed (suc i) k list dir v (ground arith)
set-IsIndexed i (suc k) (some d ∷ list) dir v e =
    (v.0, set-IsIndexed (suc i) k list dir v.1 (ground arith))

-- What the scan of the slots finds: no directory of that path, and a null slot if it says so.
pub scan_has :
    (loc : ZString) (list : AutoscanList) (i : ℕ) (nil r : Option ℕ)
    → scan_slots loc list i nil ≡ some r
    → has_location loc list ≡ false
unfolding scan_slots
scan_has loc [] i nil r h = refl
scan_has loc (none ∷ list) i nil r h = scan_has loc list (i + 1) (some i) r h
scan_has loc (some d ∷ list) i nil r h = ground (arith, scan_has loc list (i + 1) nil r)

pub scan_throws :
    (loc : ZString) (list : AutoscanList) (i : ℕ) (nil : Option ℕ)
    → scan_slots loc list i nil ≡ none
    → has_location loc list ≡ true
unfolding scan_slots
scan_throws loc [] i nil h = cc
scan_throws loc (none ∷ list) i nil h = scan_throws loc list (i + 1) (some i) h
scan_throws loc (some d ∷ list) i nil h = ground (arith, scan_throws loc list (i + 1) nil)

-- Slot `k` is null.
abbrev pub is_null : AutoscanList → ℕ → Bool
is_null [] k = false
is_null (none ∷ list) zero = true
is_null (some d ∷ list) zero = false
is_null (slot ∷ list) (suc k) = is_null list k

some_inj : {m n : ℕ} → some m ≡ some n → m ≡ n
some_inj h = cc

-- The slot that the scan remembers: the one it came with, or a null one.
pub scan_null :
    (loc : ZString) (list : AutoscanList) (i : ℕ) (nil : Option ℕ) (j : ℕ)
    → scan_slots loc list i nil ≡ some (some j)
    → (nil ≡ some j) ⊎ ((k : ℕ) × (j ≡ i + k) × (is_null list k ≡ true))
unfolding scan_slots
scan_null loc [] i nil j h = inl (ground arith)
scan_null loc (none ∷ list) i nil j h = elim (scan_null loc list (i + 1) (some i) j h) [
  | inl e ↦ inr (0, omega (arith, some_inj e), refl)
  | inr (k, e, f) ↦ inr (suc k, omega arith, f)
]
scan_null loc (some d ∷ list) i nil j h = elim (Bool-cases (equals loc d.location)) [
  | inl e ↦ absurd (ground arith)
  | inr e ↦ elim (scan_null loc list (i + 1) nil j (ground arith)) [
    | inl g ↦ inl g
    | inr (k, g, f) ↦ inr (suc k, omega arith, f)
  ]
]

pub get-set_null :
    (list : AutoscanList) (k : ℕ) (dir : Directory)
    → is_null list k ≡ true
    → get (pos k) (set list k (some dir)) ≡ some dir
unfolding get
get-set_null [] k dir h = absurd cc
get-set_null (none ∷ list) zero dir h = refl
get-set_null (some d ∷ list) zero dir h = absurd cc
get-set_null (none ∷ list) (suc k) dir h = get-set_null list k dir h
get-set_null (some d ∷ list) (suc k) dir h = get-set_null list k dir h

pub get-append :
    (list : AutoscanList) (dir : Directory)
    → get (pos (length list)) (list ++ some dir ∷ []) ≡ some dir
unfolding get
get-append [] dir = refl
get-append (slot ∷ list) dir = get-append list dir

pub get-append_kept :
    (list : AutoscanList) (dir : Directory) (k : ℕ) (d : Directory)
    → get (pos k) list ≡ some d
    → get (pos k) (list ++ some dir ∷ []) ≡ some d
unfolding get
get-append_kept [] dir k d h = absurd cc
get-append_kept (slot ∷ list) dir zero d h = h
get-append_kept (slot ∷ list) dir (suc k) d h = get-append_kept list dir k d h

pub get-append_only :
    (list : AutoscanList) (dir : Directory) (k : ℕ) (d : Directory)
    → get (pos k) (list ++ some dir ∷ []) ≡ some d
    → (k ≡ length list) ⊎ (get (pos k) list ≡ some d)
unfolding get
get-append_only [] dir zero d h = inl refl
get-append_only [] dir (suc k) d h = absurd cc
get-append_only (slot ∷ list) dir zero d h = inr h
get-append_only (slot ∷ list) dir (suc k) d h = elim (get-append_only list dir k d h) [
  | inl e ↦ inl (ap suc e)
  | inr e ↦ inr e
]

-- Only the null slot changes.
pub get-set_null_kept :
    (list : AutoscanList) (i : ℕ) (dir : Directory) (k : ℕ) (d : Directory)
    → is_null list i ≡ true
    → get (pos k) list ≡ some d
    → get (pos k) (set list i (some dir)) ≡ some d
unfolding get
get-set_null_kept [] i dir k d n h = absurd cc
get-set_null_kept (none ∷ list) zero dir zero d n h = absurd cc
get-set_null_kept (some e ∷ list) zero dir zero d n h = absurd cc
get-set_null_kept (slot ∷ list) zero dir (suc k) d n h = h
get-set_null_kept (slot ∷ list) (suc i) dir zero d n h = h
get-set_null_kept (none ∷ list) (suc i) dir (suc k) d n h = get-set_null_kept list i dir k d n h
get-set_null_kept (some e ∷ list) (suc i) dir (suc k) d n h = get-set_null_kept list i dir k d n h

pub get-set_null_only :
    (list : AutoscanList) (i : ℕ) (dir : Directory) (k : ℕ) (d : Directory)
    → get (pos k) (set list i (some dir)) ≡ some d
    → (k ≡ i) ⊎ (get (pos k) list ≡ some d)
unfolding get
get-set_null_only [] i dir k d h = inr h
get-set_null_only (slot ∷ list) zero dir zero d h = inl refl
get-set_null_only (slot ∷ list) zero dir (suc k) d h = inr h
get-set_null_only (slot ∷ list) (suc i) dir zero d h = inr h
get-set_null_only (slot ∷ list) (suc i) dir (suc k) d h =
    elim (get-set_null_only list i dir k d h) [ inl e ↦ inl (ap suc e) | inr e ↦ inr e ]

has-set_null :
    (list : AutoscanList) (k : ℕ) (dir : Directory) (loc : ZString)
    → is_null list k ≡ true
    → has_location loc (set list k (some dir))
      ≡ (if equals loc dir.location then true else has_location loc list)
has-set_null [] k dir loc h = absurd cc
has-set_null (none ∷ list) zero dir loc h = refl
has-set_null (some d ∷ list) zero dir loc h = absurd cc
has-set_null (none ∷ list) (suc k) dir loc h = has-set_null list k dir loc h
has-set_null (some d ∷ list) (suc k) dir loc h = ground (arith, has-set_null list k dir loc)

has-append :
    (list : AutoscanList) (dir : Directory) (loc : ZString)
    → has_location loc (list ++ some dir ∷ [])
      ≡ (if equals loc dir.location then true else has_location loc list)
has-append [] dir loc = refl
has-append (none ∷ list) dir loc = has-append list dir loc
has-append (some d ∷ list) dir loc = ground (arith, has-append list dir loc)

pub append-IsUnique :
    (list : AutoscanList) (dir : Directory)
    → IsUnique list
    → has_location dir.location list ≡ false
    → IsUnique (list ++ some dir ∷ [])
append-IsUnique [] dir v h = (refl, tt)
append-IsUnique (none ∷ list) dir v h = append-IsUnique list dir v h
append-IsUnique (some d ∷ list) dir v h = ground (
  arith,
  append-IsUnique list dir v.1,
  has-append list dir d.location,
  equals_iff dir.location d.location,
  equals_iff d.location dir.location,
)

pub set-IsUnique :
    (list : AutoscanList) (k : ℕ) (dir : Directory)
    → IsUnique list
    → is_null list k ≡ true
    → has_location dir.location list ≡ false
    → IsUnique (set list k (some dir))
set-IsUnique [] k dir v n h = tt
set-IsUnique (none ∷ list) zero dir v n h = (h, v)
set-IsUnique (some d ∷ list) zero dir v n h = absurd cc
set-IsUnique (none ∷ list) (suc k) dir v n h = set-IsUnique list k dir v n h
set-IsUnique (some d ∷ list) (suc k) dir v n h = ground (
  arith,
  set-IsUnique list k dir v.1 n,
  has-set_null list k dir d.location n,
  equals_iff dir.location d.location,
  equals_iff d.location dir.location,
)
