-- ===== src/Tools/Sorting/Scanning.antt =====
-- The two searches of `quicksort_impl` that a round of the partition starts with.
use gerber.Prelude.{
  ℕ, zero, suc, ◌-◌, ◌<◌, ◌≤◌, ◌≡◌, refl, some, ap, ◌∙◌, true, false, Bool-cases, inl, inr, ltb,
  ◌==◌, arith,
}
use gerber.Prelude.Int.{ℤ}
use gerber.Tools.Sorting.{le, scan_up, scan_down}

module _ {ℓ} {A : Type ℓ} (comparator : A → A → ℤ) where
  -- Where the search forward ends.
  pub record Up (a : ℕ → A) (p : A) (lo hi r : ℕ) : Type 0 where
    pub from : lo ≤ r
    pub upto : r ≤ hi
    pub small : (k : ℕ) → lo ≤ k → k < r → le comparator (a k) p ≡ true
    pub stops : r < hi → le comparator (a r) p ≡ false

  Up-here :
      (a : ℕ → A) (p : A) (lo hi : ℕ)
      → lo ≤ hi
      → (lo < hi → le comparator (a lo) p ≡ false)
      → Up a p lo hi lo
  Up-here a p lo hi h s = record {
    from = omega arith;
    upto = h;
    small = λ k l u. absurd (omega arith);
    stops = s;
  }

  Up-more :
      (a : ℕ → A) (p : A) (lo hi r : ℕ)
      → le comparator (a lo) p ≡ true
      → Up a p (suc lo) hi r
      → Up a p lo hi r
  Up-more a p lo hi r h u = record {
    from = omega (arith, u.from);
    upto = u.upto;
    small = λ k l m. elim (Bool-cases (k == lo)) [
      | inl e ↦ ap (λ j. le comparator (a j) p) {x = k} {y = lo} (ground arith) ∙ h
      | inr e ↦ u.small k (ground arith) m
    ];
    stops = u.stops;
  }

  -- The fuel is enough.
  pub scan_up-Up :
      (fuel : ℕ) (a : ℕ → A) (p : A) (lo hi : ℕ)
      → hi - lo ≤ fuel
      → lo ≤ hi
      → (r : ℕ) × (scan_up comparator fuel a p lo hi ≡ some r) × Up a p lo hi r
  unfolding scan_up
  scan_up-Up zero a p lo hi f h =
      (lo, ground arith, Up-here a p lo hi h (λ l. absurd (omega arith)))
  scan_up-Up (suc fuel) a p lo hi f h = elim (Bool-cases (le comparator (a lo) p)) [
    | inl e ↦ elim (Bool-cases (ltb lo hi)) [
      | inl l ↦
          let (r, g, u) = scan_up-Up fuel a p (suc lo) hi (omega arith) (ground arith) in
          (r, rw (e, l) g, Up-more a p lo hi r e u)
      | inr l ↦ (lo, rw (e, l) refl, Up-here a p lo hi h (λ m. absurd (ground arith)))
    ]
    | inr e ↦ (lo, rw e refl, Up-here a p lo hi h (λ m. e))
  ]

  -- Where the search backward ends.
  pub record Down (a : ℕ → A) (p : A) (lo hi r : ℕ) : Type 0 where
    pub from : lo ≤ r
    pub upto : r ≤ hi
    pub large : (k : ℕ) → r < k → k ≤ hi → le comparator p (a k) ≡ true
    pub stops : lo < r → le comparator p (a r) ≡ false

  Down-here :
      (a : ℕ → A) (p : A) (lo hi : ℕ)
      → lo ≤ hi
      → (lo < hi → le comparator p (a hi) ≡ false)
      → Down a p lo hi hi
  Down-here a p lo hi h s = record {
    from = h;
    upto = omega arith;
    large = λ k l u. absurd (omega arith);
    stops = s;
  }

  Down-more :
      (a : ℕ → A) (p : A) (lo hi r : ℕ)
      → lo < hi
      → le comparator p (a hi) ≡ true
      → Down a p lo (hi - 1) r
      → Down a p lo hi r
  Down-more a p lo hi r g h u = record {
    from = u.from;
    upto = omega (arith, u.upto);
    large = λ k l m. elim (Bool-cases (k == hi)) [
      | inl e ↦ ap (λ j. le comparator p (a j)) {x = k} {y = hi} (ground arith) ∙ h
      | inr e ↦ u.large k l (ground arith)
    ];
    stops = u.stops;
  }

  -- Here too.
  pub scan_down-Down :
      (fuel : ℕ) (a : ℕ → A) (p : A) (lo hi : ℕ)
      → hi - lo ≤ fuel
      → lo ≤ hi
      → (r : ℕ) × (scan_down comparator fuel a p lo hi ≡ some r) × Down a p lo hi r
  unfolding scan_down
  scan_down-Down zero a p lo hi f h =
      (hi, ground arith, Down-here a p lo hi h (λ l. absurd (omega arith)))
  scan_down-Down (suc fuel) a p lo hi f h = elim (Bool-cases (le comparator p (a hi))) [
    | inl e ↦ elim (Bool-cases (ltb lo hi)) [
      | inl l ↦
          let (r, g, d) = scan_down-Down fuel a p lo (hi - 1) (ground arith) (ground arith) in
          (r, rw (e, l) g, Down-more a p lo hi r (ground arith) e d)
      | inr l ↦ (hi, rw (e, l) refl, Down-here a p lo hi h (λ m. absurd (ground arith)))
    ]
    | inr e ↦ (hi, rw e refl, Down-here a p lo hi h (λ m. e))
  ]
