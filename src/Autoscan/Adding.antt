-- ===== src/Autoscan/Adding.antt =====
-- What `_add` does to the slots, and when it throws.
use gerber.Prelude.{
  ℕ, ◌≡◌, ◌⊎◌, refl, ap, subst, true, false, inl, inr, [], ◌∷◌, ◌++◌, Option, none, some, arith,
  length, set,
}
use gerber.Prelude.Int.{ℤ, pos}
use gerber.Autoscan.{Directory, AutoscanList, set_scan_id, scan_slots, placed, add, get}
use gerber.Autoscan.Slots.{
  IsIndexed, IsUnique, has_location, is_null, append-IsIndexed, set-IsIndexed, scan_has,
  scan_throws, scan_null, get-set_null, get-append, get-append_kept, get-append_only,
  get-set_null_kept, get-set_null_only, append-IsUnique, set-IsUnique,
}

-- What a successful `_add` of the directory gives: the list before it, and the one after.
pub record Adds (dir : Directory) (id : ℤ) (old list : AutoscanList) : Type 0 where
  pub indexed : IsIndexed 0 list
  pub unique : IsUnique list
  pub found : get id list ≡ some (set_scan_id id dir)
  pub kept : (k : ℕ) (d : Directory) → get (pos k) old ≡ some d → get (pos k) list ≡ some d
  pub only :
      (k : ℕ) (d : Directory)
      → get (pos k) list ≡ some d
      → (pos k ≡ id) ⊎ (get (pos k) old ≡ some d)

Adds-last :
    (dir : Directory) (list : AutoscanList)
    → IsIndexed 0 list
    → IsUnique list
    → has_location dir.location list ≡ false
    → Adds dir (pos (length list)) list (list ++ some (set_scan_id (pos (length list)) dir) ∷ [])
Adds-last dir list v u h =
    let d = set_scan_id (pos (length list)) dir in
    record {
      indexed = append-IsIndexed 0 list d v (unfold set_scan_id in ap pos (omega arith));
      unique = append-IsUnique list d u (unfold set_scan_id in h);
      found = get-append list d;
      kept = λ k e h. get-append_kept list d k e h;
      only =
          λ k e h. elim (get-append_only list d k e h) [ inl f ↦ inl (ap pos f) | inr f ↦ inr f ];
    }

Adds-null :
    (dir : Directory) (list : AutoscanList) (i : ℕ)
    → IsIndexed 0 list
    → IsUnique list
    → has_location dir.location list ≡ false
    → is_null list i ≡ true
    → Adds dir (pos i) list (set list i (some (set_scan_id (pos i) dir)))
Adds-null dir list i v u h n =
    let d = set_scan_id (pos i) dir in
    record {
      indexed = set-IsIndexed 0 i list d v (unfold set_scan_id in ap pos (omega arith));
      unique = set-IsUnique list i d u n (unfold set_scan_id in h);
      found = get-set_null list i d n;
      kept = λ k e h. get-set_null_kept list i d k e n h;
      only = λ k e h. elim (get-set_null_only list i d k e h) [
        | inl f ↦ inl (ap pos f)
        | inr f ↦ inr f
      ];
    }

some_inj : {A : Type 0} {x y : A} → some x ≡ some y → x ≡ y
some_inj h = cc

placed-Adds :
    (dir : Directory) (list next : AutoscanList) (id : ℤ) (found : Option (Option ℕ))
    → IsIndexed 0 list
    → IsUnique list
    → has_location dir.location list ≡ false
    → ((i : ℕ) → found ≡ some (some i) → is_null list i ≡ true)
    → placed dir list found ≡ some (next, id)
    → Adds dir id list next
unfolding placed
placed-Adds dir list next id none v u h n e = absurd cc
placed-Adds dir list next id (some none) v u h n e =
    subst (λ (p : AutoscanList × ℤ). Adds dir p.1 list p.0) (some_inj e) (Adds-last dir list v u h)
placed-Adds dir list next id (some (some i)) v u h n e =
    subst (λ (p : AutoscanList × ℤ). Adds dir p.1 list p.0) (some_inj e)
      (Adds-null dir list i v u h (n i refl))

scan_gives_null :
    (dir : Directory) (list : AutoscanList) (i : ℕ)
    → scan_slots dir.location list 0 none ≡ some (some i)
    → is_null list i ≡ true
scan_gives_null dir list i e = elim (scan_null dir.location list 0 none i e) [
  | inl g ↦ absurd cc
  | inr (k, g, f) ↦ subst (λ k. is_null list k ≡ true) (omega arith) f
]

placed-some :
    (dir : Directory) (list next : AutoscanList) (id : ℤ) (found : Option (Option ℕ))
    → placed dir list found ≡ some (next, id)
    → (r : Option ℕ) × (found ≡ some r)
unfolding placed
placed-some dir list next id none h = absurd cc
placed-some dir list next id (some r) h = (r, refl)

-- A directory that `_add` accepts is found under the scan id that it gives, with that id set. Each
-- directory that was in the list is still found under its scan id, and there are no others. Each
-- directory has its slot for a scan id and no location stands in two slots, as before.
pub add-Adds :
    (dir : Directory) (list next : AutoscanList) (id : ℤ)
    → IsIndexed 0 list
    → IsUnique list
    → add dir list ≡ some (next, id)
    → Adds dir id list next
add-Adds dir list next id v u h =
    let found = scan_slots dir.location list 0 none in
    let g : placed dir list found ≡ some (next, id) = unfold add in h in
    let (r, e) = placed-some dir list next id found g in
    placed-Adds dir list next id found v u (scan_has dir.location list 0 none r e)
      (scan_gives_null dir list) g

placed-none :
    (dir : Directory) (list : AutoscanList) (found : Option (Option ℕ))
    → placed dir list found ≡ none
    → found ≡ none
unfolding placed
placed-none dir list none h = refl
placed-none dir list (some none) h = absurd cc
placed-none dir list (some (some i)) h = absurd cc

-- `_add` throws only when the location is in the list already.
pub add_throws :
    (dir : Directory) (list : AutoscanList)
    → add dir list ≡ none
    → has_location dir.location list ≡ true
add_throws dir list h =
    scan_throws dir.location list 0 none
      (placed-none dir list (scan_slots dir.location list 0 none) (unfold add in h))
