-- ===== src/Tools/Sorting/Sorted.antt =====
-- `quicksort` sorts: the calls put together.
use gerber.Prelude.{
  ℕ, zero, suc, ◌+◌, ◌-◌, ◌<◌, ◌≤◌, ◌≡◌, refl, some, ap, ap₂, subst, ◌∙◌, Bool, true, false, not,
  ◌⊎◌, inl, inr, Bool-cases, ltb, leb, ◌==◌, if◌then◌else◌, arith,
}
use gerber.Prelude.Int.{ℤ}
use gerber.Tools.Sorting.{Partition, swap, le, quicksort_impl, quicksort}
use gerber.Tools.Sorting.Moves.{
  count, Moves, Moves-refl, Moves-trans, swap-Moves, swap_left, swap_right,
}
use gerber.Tools.Sorting.Centering.{IsSplit, split-IsSplit}

module _ {ℓ} {A : Type ℓ} where
  Moves-widen :
      (lo end first last : ℕ) (a b : ℕ → A)
      → first ≤ lo
      → end ≤ last
      → Moves lo end a b
      → Moves first last a b
  Moves-widen lo end first last a b h k m = record {
    frame = λ i o. m.frame i (outside i o);
    closed = λ q f i l u. elim (Bool-cases (ltb i lo)) [
      | inl e ↦ ap q (m.frame i (inl (ground arith))) ∙ f i l u
      | inr e ↦ elim (Bool-cases (ltb i end)) [
        | inl g ↦
            m.closed q (λ j x y. f j (omega arith) (omega arith)) i (ground arith) (ground arith)
        | inr g ↦ ap q (m.frame i (inr (ground arith))) ∙ f i l u
      ]
    ];
    counts = λ p n o. m.counts p n (omega arith);
  }
    where
      outside : (i : ℕ) → (i < first) ⊎ (last ≤ i) → (i < lo) ⊎ (end ≤ i)
      outside i (inl o) = inl (omega arith)
      outside i (inr o) = inr (omega arith)

-- A comparator that orders the elements: `compare(x, y) <= 0` is total and transitive.
pub record IsOrder {ℓ} {A : Type ℓ} (comparator : A → A → ℤ) : Type ℓ where
  pub total : (x y : A) → le comparator x y ≡ false → le comparator y x ≡ true
  pub trans :
      (x y z : A) → le comparator x y ≡ true → le comparator y z ≡ true → le comparator x z ≡ true

module _ {ℓ} {A : Type ℓ} (comparator : A → A → ℤ) where
  -- The elements from `lo` up to `end` are in order.
  abbrev pub IsSorted : ℕ → ℕ → (ℕ → A) → Type 0
  IsSorted lo end a = (i j : ℕ) → lo ≤ i → i < j → j < end → le comparator (a i) (a j) ≡ true

  module _ (order : IsOrder comparator) where
    joined :
        (lo m end : ℕ) (b : ℕ → A)
        → IsSorted lo m b
        → IsSorted (m + 1) end b
        → ((k : ℕ) → lo ≤ k → k < m → le comparator (b k) (b m) ≡ true)
        → ((k : ℕ) → m < k → k < end → le comparator (b m) (b k) ≡ true)
        → IsSorted lo end b
    joined lo m end b low high small large i j l s u = elim (Bool-cases (ltb j m)) [
      | inl e ↦ low i j l s (ground arith)
      | inr e ↦ elim (Bool-cases (j == m)) [
        | inl f ↦
            ap (λ k. le comparator (b i) (b k)) {x = j} {y = m} (ground arith)
            ∙ small i l (ground arith)
        | inr f ↦ elim (Bool-cases (ltb i m)) [
          | inl g ↦
              order.trans (b i) (b m) (b j) (small i l (ground arith)) (large j (ground arith) u)
          | inr g ↦ elim (Bool-cases (i == m)) [
            | inl h ↦
                ap (λ k. le comparator (b k) (b j)) {x = i} {y = m} (ground arith)
                ∙ large j (ground arith) u
            | inr h ↦ high i j (ground arith) s u
          ]
        ]
      ]
    ]

    -- What a call does with its part of the array.
    pub record Sorts (lo end : ℕ) (a b : ℕ → A) : Type ℓ where
      pub moves : Moves lo end a b
      pub sorted : IsSorted lo end b

    -- The two calls after a split.
    both_sorted :
        (lo last : ℕ) (a left both : ℕ → A) (r : Partition A)
        → IsSplit comparator lo last a r
        → Sorts lo r.lo r.array left
        → Sorts (r.hi + 1) (last + 1) left both
        → Sorts lo (last + 1) a both
    both_sorted lo last a left both r v f g = record {
      moves = Moves-trans lo (last + 1) a r.array both v.moves (
          Moves-trans lo (last + 1) r.array left both
            (Moves-widen lo r.lo lo (last + 1) _ _ (omega arith) (omega (arith, v.together, v.upto))
              f.moves)
            (Moves-widen (r.hi + 1) (last + 1) lo (last + 1) _ _ (omega (arith, v.together, v.from))
              (omega arith) g.moves));
      sorted = joined lo r.hi (last + 1) both low g.sorted small large;
    }
      where
        kept : (k : ℕ) → k < r.hi + 1 → both k ≡ left k
        kept k h = g.moves.frame k (inl h)

        middle : both r.hi ≡ r.array r.hi
        middle = kept r.hi (omega arith) ∙ f.moves.frame r.hi (inr (omega (arith, v.together)))

        low : IsSorted lo r.hi both
        low i j l s u =
            ap₂ (le comparator) (kept i (omega arith)) (kept j (omega arith))
            ∙ f.sorted i j l s (omega (arith, v.together))

        small : (k : ℕ) → lo ≤ k → k < r.hi → le comparator (both k) (both r.hi) ≡ true
        small k l u =
            ap₂ (le comparator) (kept k (omega arith)) middle
            ∙ f.moves.closed (λ x. le comparator x (r.array r.hi))
                (λ j x y. v.small j x (omega (arith, v.together))) k l (omega (arith, v.together))

        large : (k : ℕ) → r.hi < k → k < last + 1 → le comparator (both r.hi) (both k) ≡ true
        large k l u =
            ap (λ x. le comparator x (both k)) middle
            ∙ g.moves.closed (λ x. le comparator (r.array r.hi) x)
                (λ j x y.
                  ap (le comparator (r.array r.hi))
                    (f.moves.frame j (inr (omega (arith, v.together))))
                  ∙ v.large j (omega arith) (omega arith))
                k (omega arith) u

    both_upto :
        (lo last end : ℕ) (a left both : ℕ → A) (r : Partition A)
        → last + 1 ≡ end
        → IsSplit comparator lo last a r
        → Sorts lo r.lo r.array left
        → Sorts (r.hi + 1) end left both
        → Sorts lo end a both
    both_upto lo last end a left both r h v f =
        subst (λ x. Sorts (r.hi + 1) x left both → Sorts lo x a both) h
          (both_sorted lo last a left both r v f)

    few_sorted : (lo end : ℕ) (a : ℕ → A) → end ≤ lo + 1 → Sorts lo end a a
    few_sorted lo end a h = record {
      moves = Moves-refl lo end a;
      sorted = λ i j l s u. absurd (omega arith);
    }

    two_sorted :
        (lo : ℕ) (a b : ℕ → A)
        → Moves lo (lo + 2) a b
        → le comparator (b lo) (b (lo + 1)) ≡ true
        → Sorts lo (lo + 2) a b
    two_sorted lo a b m h = record {
      moves = m;
      sorted = λ i j l s u.
          ap (λ x. le comparator (b x) (b j)) {x = i} {y = lo} (omega arith)
          ∙ ap (λ y. le comparator (b lo) (b y)) {x = j} {y = lo + 1} (omega arith)
          ∙ h;
    }

    two_exchanged :
        (lo : ℕ) (a : ℕ → A)
        → Sorts lo
            (lo + 2)
            a
            (if not (le comparator (a lo) (a (lo + 1))) then swap lo (lo + 1) a else a)
    two_exchanged lo a = elim (Bool-cases (le comparator (a lo) (a (lo + 1)))) [
      | inl e ↦ rw e (two_sorted lo a a (Moves-refl lo (lo + 2) a) e)
      | inr e ↦ rw e (
          two_sorted lo a (swap lo (lo + 1) a)
            (swap-Moves lo (lo + 2) lo (lo + 1) a (omega arith) (omega arith) (omega arith)
              (omega arith))
            (ap₂ (le comparator) (swap_left lo (lo + 1) a) (swap_right lo (lo + 1) a)
              ∙ order.total (a lo) (a (lo + 1)) e))
    ]

    impl-Sorts :
        (fuel : ℕ) (a : ℕ → A) (lo end : ℕ)
        → end - lo ≤ fuel
        → (b : ℕ → A) × (quicksort_impl comparator fuel a lo end ≡ some b) × Sorts lo end a b
    unfolding quicksort_impl
    impl-Sorts zero a lo end h = (a, ground arith, few_sorted lo end a (omega arith))
    impl-Sorts (suc fuel) a lo end h = elim (Bool-cases (leb end (lo + 1))) [
      | inl e ↦ (a, rw e refl, few_sorted lo end a (ground arith))
      | inr e ↦ elim (Bool-cases (end == lo + 2)) [
        | inl f ↦ (
          if not (le comparator (a lo) (a (lo + 1))) then swap lo (lo + 1) a else a,
          rw (e, f) refl,
          subst
              (λ x.
                Sorts lo x a
                  (if not (le comparator (a lo) (a (lo + 1))) then swap lo (lo + 1) a else a))
              {x = lo + 2} {y = end} (ground arith) (two_exchanged lo a),
        )
        | inr f ↦
            let (r, g, v) = split-IsSplit comparator order.total a lo (end - 1) (ground arith) in
            let (left, j, s) =
              impl-Sorts fuel r.array lo r.lo (ground (arith, v.together, v.upto)) in
            let (both, k, u) =
              impl-Sorts fuel left (r.hi + 1) end (omega (arith, v.together, v.from)) in
            (both, rw (e, f, g, j) k, both_upto lo (end - 1) end a left both r (ground arith) v s u)
      ]
    ]

    -- `quicksort` returns: each of its loops and calls ends within its fuel. The first `size` elements
    -- are in order then. They are only permuted: each test holds of as many of them as before, and
    -- the memory behind them stays as it was. The comparator is total and transitive.
    pub quicksort-Sorts :
        (arr : ℕ → A) (size : ℕ)
        → (b : ℕ → A) × (quicksort comparator arr size ≡ some b)
          × IsSorted 0 size b
          × ((p : A → Bool) → count p size b ≡ count p size arr)
          × ((k : ℕ) → size ≤ k → b k ≡ arr k)
    unfolding quicksort
    quicksort-Sorts arr size =
        let (b, e, s) = impl-Sorts size arr 0 size (omega arith) in
        (b, e, s.sorted, λ p. s.moves.counts p size (omega arith), λ k h. s.moves.frame k (inr h))
